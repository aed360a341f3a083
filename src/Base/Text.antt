-- ===== src/Base/Text.antt =====
-- What the program uses of Go's `strings` and `fmt` packages, on texts as lists of characters.
use Prim.Native.Nat.{ℕ, zero, suc, ◌+◌, ◌-◌, ◌*◌, ◌/◌, ◌%◌, ◌<◌}
use Prim.Native.Char.{code}
use Prim.Native.String.{String, len, slice, find, ◌++◌ as append}
use text.Mathlib.Text.{◌==◌ as str_eq, starts_with}
use mathlib.Core.Bool.{Bool, false, ◌&&◌, ◌||◌}
use mathlib.Core.List.{List, [], ◌∷◌}
use mathlib.Core.Path.{◌≡◌, sym, ap, ◌∙◌}
use mathlib.Core.Logic.{inl, inr}
use text.Mathlib.TextEquality.{eq_iff}
use text.Mathlib.TextPositions.{len-append}
use native.Mathlib.Omega.{arith}
use claw_proxy_hub_next.Base.Tests.{ltb, leb, ◌==◌, if◌then◌else◌, Bool-cases}
use claw_proxy_hub_next.Base.Words.{int64_mod, int64_max, negative64}
use mathlib.Core.Option.{Option, none, some}

-- `unicode.IsSpace`
unfoldable pub is_space : ℕ → Bool
is_space c =
    (leb 9 c && leb c 13)
    || c == 32
    || c == 133
    || c == 160
    || c == 5760
    || (leb 8192 c && leb c 8202)
    || c == 8232
    || c == 8233
    || c == 8239
    || c == 8287
    || c == 12288

unfoldable pub trim_left : String → String
unfolding is_space
trim_left String.[] = ""
trim_left (String.◌∷◌ c s) =
    let rest = trim_left s in if is_space (code c) then rest else String.◌∷◌ c s

unfoldable pub trim_right : String → String
unfolding is_space
trim_right String.[] = ""
trim_right (String.◌∷◌ c s) =
    let rest = trim_right s in if is_space (code c) && str_eq rest "" then "" else String.◌∷◌ c rest

-- `strings.TrimSpace`
unfoldable pub trim_space : String → String
unfolding trim_left trim_right
trim_space s = trim_right (trim_left s)

-- `strings.HasPrefix`
abbrev pub has_prefix : String → String → Bool
has_prefix s prefix = starts_with s prefix

-- `strings.TrimPrefix`
unfoldable pub trim_prefix : String → String → String
trim_prefix s prefix = if starts_with s prefix then slice s (len prefix) (len s) else s

-- `strings.Contains`
unfoldable pub contains : String → String → Bool
contains s t = leb (find s t) (len s)

-- `strings.Join`
unfoldable pub join : String → List String → String
join sep [] = ""
join sep (s ∷ []) = s
join sep (s ∷ t ∷ ts) = append s (append sep (join sep (t ∷ ts)))

-- `%d` of an `int`: twenty digits are enough for 64 bits.
abbrev digit : ℕ → String
digit d = slice "0123456789" d (d + 1)

unfoldable pub digits : ℕ → ℕ → String
digits zero n = ""
digits (suc k) n =
    let front = digits k (n / 10) in if ltb n 10 then digit n else append front (digit (n % 10))

unfoldable pub sprint_int : ℕ → String
unfolding digits
sprint_int n = if negative64 n then append "-" (digits 20 (int64_mod - n)) else digits 20 n

-- A text with a non-empty front is not empty.
pub append_nonempty : (s t : String) → 0 < len s → str_eq (append s t) "" ≡ false
append_nonempty s t h = elim (Bool-cases (str_eq (append s t) "")) [
  | inl e ↦
      let empty : append s t ≡ "" = (eq_iff (append s t) "").0 e in
      let size : len s + len t ≡ len "" = sym (len-append s t) ∙ ap len empty in
      absurd (omega (arith, h, size))
  | inr e ↦ e
]

-- `strconv.Atoi`, as the 64-bit pattern of the number; none where it returns an error.
unfoldable pub read_digits : ℕ → String → Option ℕ
read_digits n String.[] = some n
read_digits n (String.◌∷◌ c s) =
    let rest = read_digits (n * 10 + (code c - b'0')) s in
    if leb b'0' (code c) && leb (code c) b'9' then rest else none

abbrev in_range : Option ℕ → Option ℕ
in_range none = none
in_range (some n) = if leb n int64_max then some n else none

abbrev negated : Option ℕ → Option ℕ
negated none = none
negated (some n) = if leb n (int64_max + 1) then some ((int64_mod - n) % int64_mod) else none

abbrev some_digits : String → Option ℕ
some_digits String.[] = none
some_digits (String.◌∷◌ c s) = read_digits 0 (String.◌∷◌ c s)

unfoldable pub atoi : String → Option ℕ
unfolding read_digits
atoi s =
    if starts_with s "-"
    then negated (some_digits (slice s 1 (len s)))
    else if starts_with s "+"
    then in_range (some_digits (slice s 1 (len s)))
    else in_range (some_digits s)
