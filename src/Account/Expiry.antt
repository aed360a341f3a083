-- ===== src/Account/Expiry.antt =====
-- `CreditExpiryOf`, `parseLooseTime` and `rawNumber` of internal/account/credit.go. Go's decoder of the
-- packages, its parser of times in the local zone and its operations on `float64` are the record
-- `Readers`. An instant is a number of nanoseconds, and Go's zero time, which no package has, is none.
pub mod Dates
pub mod Overview
use claw_proxy_hub_next.Base.{
  ℕ, ◌+◌, ◌-◌, ◌*◌, ltb, leb, String, str_eq, Bool, ◌&&◌, ◌||◌, Option, none, some, List, [], ◌∷◌,
  if◌then◌else◌, trim_space,
}
use claw_proxy_hub_next.Account.Credits.{trim_quotes}

-- A package of the object. A raw number that is missing is the empty text.
pub record CreditPackage : Type 0 where
  pub remaining : String
  pub left : String
  pub expires_at : String
  pub expire_time : String
  pub expiry : String

pub record Readers : Type 0 where
  pub read_packages : String → Option (List CreditPackage)
  pub parse_in_location : (layout raw : String) → Option ℕ
  pub parse_float : String → Option ℕ
  pub is_zero : ℕ → Bool
  pub plus : ℕ → ℕ → ℕ

-- `NextAt` and `NextLeft` are together.
pub record CreditExpiry : Type 0 where
  pub packages : ℕ
  pub expiring : ℕ
  pub next : Option (ℕ × ℕ)

abbrev pub no_expiry : CreditExpiry
no_expiry = record { packages = 0; expiring = 0; next = none }

abbrev pub expiring_window : ℕ
expiring_window = 7 * 24 * 3600 * 1000000000

abbrev or_time : Option ℕ → Option ℕ → Option ℕ
or_time none u = u
or_time (some t) u = some t

-- `parseLooseTime`
unfoldable pub parse_loose_time : Readers → String → Option ℕ
parse_loose_time r raw =
    let parse = λ (layout : String). r.parse_in_location layout (trim_space raw) in
    or_time (parse "2006-01-02T15:04:05Z07:00") (
      or_time (parse "2006-01-02T15:04:05") (
        or_time (parse "2006-01-02 15:04:05")
          (or_time (parse "2006/01/02 15:04:05") (parse "2006-01-02"))))

abbrev or_zero : Option ℕ → ℕ
or_zero none = 0
or_zero (some x) = x

-- `rawNumber`
unfoldable pub raw_number : Readers → String → ℕ
raw_number r raw =
    if str_eq raw ""
    then 0
    else let s = trim_quotes (trim_space raw) in
      if str_eq s "" || str_eq s "null" then 0 else or_zero (r.parse_float s)

-- The text of the end of a package, and what is left of it.
abbrev or_text : String → String → String
or_text s t = if str_eq s "" then t else s

unfoldable pub end_of : CreditPackage → String
end_of p = or_text (or_text p.expires_at p.expire_time) p.expiry

unfoldable pub left_of : Readers → CreditPackage → ℕ
unfolding raw_number
left_of r p =
    let left = raw_number r p.remaining in if r.is_zero left then raw_number r p.left else left

-- A package whose end can be read, as the pair of its end and of what is left.
abbrev with_left : ℕ → Option ℕ → Option (ℕ × ℕ)
with_left left none = none
with_left left (some at) = some (at, left)

unfoldable pub dated : Readers → CreditPackage → Option (ℕ × ℕ)
unfolding parse_loose_time end_of left_of
dated r p =
    if str_eq (end_of p) "" then none else with_left (left_of r p) (parse_loose_time r (end_of p))

-- The nearer of the ends, the one that was there first where they are equal.
abbrev pub nearer : Option (ℕ × ℕ) → ℕ × ℕ → ℕ × ℕ
nearer none p = p
nearer (some (t, left)) (at, l) = if ltb at t then (at, l) else (t, left)

abbrev pub is_soon : ℕ → ℕ → Bool
is_soon now at = ltb now at && leb (at - now) expiring_window

-- A round of the loop, for a package whose end can be read.
abbrev pub count_package : Readers → ℕ → CreditExpiry → ℕ × ℕ → CreditExpiry
count_package r now out (at, left) = record {
  packages = out.packages + 1;
  expiring = if is_soon now at then r.plus out.expiring left else out.expiring;
  next = some (nearer out.next (at, left));
}

abbrev pub count_dated : Readers → ℕ → CreditExpiry → Option (ℕ × ℕ) → CreditExpiry
count_dated r now out none = out
count_dated r now out (some p) = count_package r now out p

unfoldable pub count_packages : Readers → ℕ → CreditExpiry → List CreditPackage → CreditExpiry
unfolding dated
count_packages r now out [] = out
count_packages r now out (p ∷ ps) = count_packages r now (count_dated r now out (dated r p)) ps

abbrev pub overview : Readers → ℕ → Option (List CreditPackage) → CreditExpiry
overview r now none = no_expiry
overview r now (some ps) = count_packages r now no_expiry ps

-- `CreditExpiryOf`
unfoldable pub credit_expiry_of : Readers → ℕ → String → CreditExpiry
unfolding count_packages
credit_expiry_of r now credits_json =
    if str_eq (trim_space credits_json) ""
    then no_expiry
    else overview r now (r.read_packages credits_json)
