-- ===== src/Task/Cron.antt =====
-- internal/task/cron.go: cron expressions and the next time that they name. A text is the list of its
-- code points; an instant is a number of nanoseconds, and its fields in the local time zone are an
-- argument. Go's `int` wraps at 64 bits.
pub mod Next
pub mod Values
use Prim.Native.Char.{code}
use claw_proxy_hub_next.Base.{
  ℕ, zero, suc, ◌+◌, ◌-◌, ◌*◌, ◌/◌, ◌%◌, ◌==◌, ◌^◌, ltb, leb, String, str_eq, Bool, true, false,
  not, ◌&&◌, ◌||◌, Option, none, some, List, [], ◌∷◌, ◌++◌, if◌then◌else◌, exists, length, add64,
  negative64, positive64, int64_mod,
}

-- `a < b` of two `int`s
unfoldable pub less64 : ℕ → ℕ → Bool
less64 a b = ltb (add64 a (2 ^ 63)) (add64 b (2 ^ 63))

-- `parseInt`
unfoldable pub parse_digits : ℕ → List ℕ → Option ℕ
parse_digits n [] = some n
parse_digits n (r ∷ rs) =
    let rest = parse_digits ((n * 10 + (r - b'0')) % int64_mod) rs in
    if ltb r b'0' || ltb b'9' r then none else rest

unfoldable pub parse_int : List ℕ → Option ℕ
unfolding parse_digits
parse_int [] = none
parse_int (r ∷ rs) = parse_digits 0 (r ∷ rs)

-- `indexOfStr` of one character, with the parts before and behind it.
abbrev put_first : ℕ → Option (List ℕ × List ℕ) → Option (List ℕ × List ℕ)
put_first r none = none
put_first r (some (before, behind)) = some (r ∷ before, behind)

unfoldable pub cut : ℕ → List ℕ → Option (List ℕ × List ℕ)
cut c [] = none
cut c (r ∷ rs) = let rest = put_first r (cut c rs) in if r == c then some ([], rs) else rest

-- `splitComma`, with the part that has been read.
unfoldable pub split_comma : List ℕ → List ℕ → List (List ℕ)
split_comma cur [] = cur ∷ []
split_comma cur (r ∷ rs) =
    let next = cur ∷ split_comma [] rs in
    let more = split_comma (cur ++ r ∷ []) rs in if r == b',' then next else more

-- `splitFields`
abbrev put_field : List ℕ → List (List ℕ) → List (List ℕ)
put_field [] rest = rest
put_field (r ∷ rs) rest = (r ∷ rs) ∷ rest

unfoldable pub split_fields : List ℕ → List ℕ → List (List ℕ)
split_fields cur [] = put_field cur []
split_fields cur (r ∷ rs) =
    let next = put_field cur (split_fields [] rs) in
    let more = split_fields (cur ++ r ∷ []) rs in if r == 32 || r == 9 then next else more

-- The step of a part, and the part before it.
abbrev checked_step : List ℕ → Option ℕ → Option (ℕ × List ℕ)
checked_step part none = none
checked_step part (some step) = if positive64 step then some (step, part) else none

abbrev step_of_cut : List ℕ → Option (List ℕ × List ℕ) → Option (ℕ × List ℕ)
step_of_cut part none = some (1, part)
step_of_cut part (some (before, behind)) = checked_step before (parse_int behind)

unfoldable pub parse_step : List ℕ → Option (ℕ × List ℕ)
unfolding cut parse_int
parse_step part = step_of_cut part (cut b'/' part)

-- The range of a part: `*`, `a` or `a-b`.
abbrev is_star : List ℕ → Bool
is_star (r ∷ []) = r == b'*'
is_star _ = false

abbrev pair : Option ℕ → Option ℕ → Option (ℕ × ℕ)
pair none hi = none
pair (some lo) none = none
pair (some lo) (some hi) = some (lo, hi)

abbrev range_of_cut : List ℕ → Option (List ℕ × List ℕ) → Option (ℕ × ℕ)
range_of_cut part (some (before, behind)) = pair (parse_int before) (parse_int behind)
range_of_cut part none = let n = parse_int part in pair n n

unfoldable pub parse_range : ℕ → ℕ → List ℕ → Option (ℕ × ℕ)
unfolding cut parse_int
parse_range min max part =
    if is_star part then some (min, max) else range_of_cut part (cut b'-' part)

-- `for v := lo; v <= hi; v += step`, on fuel, into the set.
abbrev add_value : ℕ → List ℕ → List ℕ
add_value v set = if exists (λ u. u == v) set then set else v ∷ set

unfoldable pub add_values : ℕ → ℕ → ℕ → ℕ → List ℕ → List ℕ
unfolding less64
add_values zero v hi step set = set
add_values (suc fuel) v hi step set =
    let more = add_values fuel (add64 v step) hi step (add_value v set) in
    if less64 hi v then set else more

abbrev pub rounds : ℕ
rounds = 64

abbrev add_range : ℕ → ℕ → ℕ → List ℕ → Option (ℕ × ℕ) → Option (List ℕ)
add_range min max step set none = none
add_range min max step set (some (lo, hi)) =
    if less64 lo min || less64 max hi || less64 hi lo
    then none
    else some (add_values rounds lo hi step set)

abbrev add_stepped : ℕ → ℕ → List ℕ → Option (ℕ × List ℕ) → Option (List ℕ)
add_stepped min max set none = none
add_stepped min max set (some (step, part)) = add_range min max step set (parse_range min max part)

unfoldable pub add_part : ℕ → ℕ → List ℕ → List ℕ → Option (List ℕ)
unfolding parse_step parse_range add_values less64
add_part min max part set = add_stepped min max set (parse_step part)

-- `parseCronField`
unfoldable pub add_parts : ℕ → ℕ → List (List ℕ) → Option (List ℕ) → Option (List ℕ)
unfolding add_part
add_parts min max ps none = none
add_parts min max [] (some set) = some set
add_parts min max (p ∷ ps) (some set) = add_parts min max ps (add_part min max p set)

abbrev non_empty : Option (List ℕ) → Option (List ℕ)
non_empty (some (v ∷ set)) = some (v ∷ set)
non_empty _ = none

unfoldable pub parse_cron_field : List ℕ → ℕ → ℕ → Option (List ℕ)
unfolding add_parts split_comma
parse_cron_field s min max = non_empty (add_parts min max (split_comma [] s) (some []))

-- The sets of `parseCronExpr`; their bounds are fixed by their places.
pub record CronFields : Type 0 where
  pub minutes : List ℕ
  pub hours : List ℕ
  pub days : List ℕ
  pub months : List ℕ
  pub weekdays : List ℕ

abbrev pub codes : String → List ℕ
codes String.[] = []
codes (String.◌∷◌ c s) = code c ∷ codes s

unfoldable pub expand : String → String
expand s =
    if str_eq s "@hourly"
    then "0 * * * *"
    else if str_eq s "@daily" || str_eq s "@midnight"
    then "0 0 * * *"
    else if str_eq s "@weekly"
    then "0 0 * * 0"
    else s

abbrev all_fields :
    Option (List ℕ)
    → Option (List ℕ)
    → Option (List ℕ)
    → Option (List ℕ)
    → Option (List ℕ)
    → Option CronFields
all_fields (some m) (some h) (some d) (some mo) (some w) =
    some (record { minutes = m; hours = h; days = d; months = mo; weekdays = w })
all_fields _ _ _ _ _ = none

unfoldable pub parse_tokens : List (List ℕ) → Option CronFields
unfolding parse_cron_field
parse_tokens (m ∷ h ∷ d ∷ mo ∷ w ∷ []) =
    all_fields (parse_cron_field m 0 59) (parse_cron_field h 0 23) (parse_cron_field d 1 31)
      (parse_cron_field mo 1 12) (parse_cron_field w 0 6)
parse_tokens _ = none

unfoldable pub parse_cron_expr : String → Option CronFields
unfolding parse_tokens split_fields expand
parse_cron_expr expr = parse_tokens (split_fields [] (codes (expand expr)))

-- An instant in the local time zone; Sunday is 0.
pub record Civil : Type 0 where
  pub minute : ℕ
  pub hour : ℕ
  pub day : ℕ
  pub month : ℕ
  pub weekday : ℕ

abbrev has : List ℕ → ℕ → Bool
has set v = exists (λ u. u == v) set

-- `cronMatch`
unfoldable pub cron_match : CronFields → Civil → Bool
cron_match f t =
    let month = has f.months t.month in
    let day = has f.days t.day in
    let weekday = has f.weekdays t.weekday in
    if not (has f.minutes t.minute) || not (has f.hours t.hour)
    then false
    else if ltb (length f.days) 31 && ltb (length f.weekdays) 7
    then month && (day || weekday)
    else month && (day && weekday)

abbrev pub one_minute : ℕ
one_minute = 60_000_000_000

-- The minutes of 366 days.
abbrev pub minutes_ahead : ℕ
minutes_ahead = 527_040

-- The loop of `nextCron`, on fuel.
unfoldable pub next_loop : ℕ → (ℕ → Civil) → CronFields → ℕ → ℕ → Option ℕ
unfolding cron_match
next_loop zero civil f t limit = none
next_loop (suc fuel) civil f t limit =
    let rest = next_loop fuel civil f (t + one_minute) limit in
    if ltb t limit then (if cron_match f (civil t) then some t else rest) else none

-- `nextCron`, where the zero time is `none`.
abbrev next_of : (ℕ → Civil) → ℕ → Option CronFields → Option ℕ
next_of civil now none = none
next_of civil now (some f) =
    next_loop minutes_ahead civil f (now / one_minute * one_minute + one_minute)
      (now + minutes_ahead * one_minute)

unfoldable pub next_cron : (ℕ → Civil) → String → ℕ → Option ℕ
unfolding next_loop parse_cron_expr
next_cron civil expr now = next_of civil now (parse_cron_expr expr)
