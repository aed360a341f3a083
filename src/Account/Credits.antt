-- ===== src/Account/Credits.antt =====
-- `CreditRemaining` and `RecordCreditSnapshot` of internal/account/credit.go. A `float64` is the pattern
-- of its bits, and Go's operations on it are the record `Floats`, with the two decoders of JSON and
-- numbers. The writes of the database succeed.
pub mod Days
use Prim.Native.Char.{code}
use claw_proxy_hub_next.Base.{
  ℕ, ◌+◌, ◌==◌, String, str_eq, Bool, ◌&&◌, Option, none, some, List, [], ◌∷◌, ◌++◌, map, find,
  if◌then◌else◌, trim_space,
}

pub record CreditDaily : Type 0 where
  pub account_id : ℕ
  pub day : String
  pub remaining : ℕ
  pub baseline : ℕ
  pub used : ℕ
  pub samples : ℕ
  pub updated_at : ℕ

-- `remaining_field` is the text of the field `remaining`, where the text is an object that has it.
pub record Floats : Type 0 where
  pub remaining_field : String → Option String
  pub parse_float : String → Option ℕ
  pub above : ℕ → ℕ → Bool
  pub minus : ℕ → ℕ → ℕ

-- `strings.Trim` of quotation marks
unfoldable trim_left_quotes : String → String
trim_left_quotes String.[] = ""
trim_left_quotes (String.◌∷◌ c s) =
    let rest = trim_left_quotes s in if code c == b'"' then rest else String.◌∷◌ c s

unfoldable trim_right_quotes : String → String
trim_right_quotes String.[] = ""
trim_right_quotes (String.◌∷◌ c s) =
    let rest = trim_right_quotes s in
    if (code c == b'"') && str_eq rest "" then "" else String.◌∷◌ c rest

unfoldable pub trim_quotes : String → String
unfolding trim_left_quotes trim_right_quotes
trim_quotes s = trim_right_quotes (trim_left_quotes s)

abbrev parse_field : Floats → Option String → Option ℕ
parse_field f none = none
parse_field f (some raw) = f.parse_float (trim_space (trim_quotes raw))

-- `CreditRemaining`
unfoldable pub credit_remaining : Floats → String → Option ℕ
credit_remaining f credits_json =
    if str_eq (trim_space credits_json) ""
    then none
    else parse_field f (f.remaining_field credits_json)

abbrev pub is_row : ℕ → String → CreditDaily → Bool
is_row account_id day row = (row.account_id == account_id) && str_eq row.day day

abbrev pub first_row : ℕ → ℕ → String → ℕ → CreditDaily
first_row now account_id day remaining = record {
  account_id = account_id;
  day = day;
  remaining = remaining;
  baseline = remaining;
  used = 0;
  samples = 1;
  updated_at = now;
}

abbrev pub higher : Floats → ℕ → ℕ → ℕ
higher f baseline remaining = if f.above remaining baseline then remaining else baseline

-- What has been used, and at least 0.
abbrev pub used_of : Floats → ℕ → ℕ → ℕ
used_of f baseline remaining =
    let used = f.minus baseline remaining in if f.above 0 used then 0 else used

abbrev pub update_row : Floats → ℕ → ℕ → CreditDaily → CreditDaily → CreditDaily
update_row f now remaining cur row =
    let baseline = higher f cur.baseline remaining in
    record row {
      remaining = remaining;
      baseline = baseline;
      used = used_of f baseline remaining;
      samples = cur.samples + 1;
      updated_at = now;
    }

abbrev pub observe_at :
    Floats → ℕ → ℕ → String → ℕ → Option CreditDaily → List CreditDaily → List CreditDaily
observe_at f now account_id day remaining none rows =
    rows ++ first_row now account_id day remaining ∷ []
observe_at f now account_id day remaining (some cur) rows =
    map (λ row. if is_row account_id day row then update_row f now remaining cur row else row) rows

abbrev pub observe : Floats → ℕ → ℕ → String → ℕ → List CreditDaily → List CreditDaily
observe f now account_id day remaining rows =
    observe_at f now account_id day remaining (find (is_row account_id day) rows) rows

abbrev pub snapshot : Floats → ℕ → ℕ → String → Option ℕ → List CreditDaily → List CreditDaily
snapshot f now account_id day none rows = rows
snapshot f now account_id day (some remaining) rows =
    if account_id == 0 then rows else observe f now account_id day remaining rows

-- `RecordCreditSnapshot`
unfoldable pub record_credit_snapshot :
    Floats → ℕ → ℕ → String → String → List CreditDaily → List CreditDaily
unfolding credit_remaining
record_credit_snapshot f now account_id day credits_json rows =
    snapshot f now account_id day (credit_remaining f credits_json) rows
