-- ===== src/Upstream/OpenAi/Credits.antt =====
-- `creditOf` and `fuzzyCredit` of sdk/openaiup/openaiup.go. A `float64` is the pattern of its bits.
-- Only numbers without a sign are compared, and these are ordered as their patterns are.
use claw_proxy_hub_next.Base.{
  ℕ, ◌+◌, ◌^◌, String, Bool, not, ◌&&◌, ◌||◌, ltb, contains, ◌==◌, if◌then◌else◌, List, [], ◌∷◌,
}

-- What a field of the raw usage object decodes to: an object, a number, or anything else.
mutual
  pub data RawValue : Type 0 where
    object : RawFields → RawValue
    number : (bits : ℕ) → RawValue
    other : RawValue

  pub data RawFields : Type 0 where
    no_fields : RawFields
    field : (name : String) → RawValue → RawFields → RawFields

abbrev sign_bit : ℕ
sign_bit = 2 ^ 63

-- `f > 0`
abbrev pub positive_float : ℕ → Bool
positive_float f = ltb 0 f && ltb f sign_bit

-- `v != 0`: both zeros are equal to 0.
abbrev nonzero_float : ℕ → Bool
nonzero_float f = not (f == 0 || f == sign_bit)

-- The tests of a field's name, which `strings.ToLower` has put into lower case.
unfoldable pub is_credit_name : String → Bool
is_credit_name name = contains name "credit" || contains name "point" || contains name "quota"

unfoldable pub is_balance_name : String → Bool
is_balance_name name =
    contains name "remain"
    || contains name "balance"
    || contains name "limit"
    || contains name "total"
    || contains name "left"

unfoldable pub is_spent_name : String → Bool
is_spent_name name =
    contains name "used"
    || contains name "consum"
    || contains name "cost"
    || contains name "spent"
    || contains name "deduct"
    || contains name "charge"

abbrev pub larger : ℕ → ℕ → ℕ
larger f g = if ltb g f then f else g

abbrev pub Scores : Type 0
Scores = ℕ × ℕ

-- A number under a name: the new `best` and `fallback`.
unfoldable pub weigh_number : String → ℕ → Scores → Scores
weigh_number name f (best, fallback) =
    if not (is_credit_name name) || not (positive_float f) || is_balance_name name
    then (best, fallback)
    else if is_spent_name name
    then (larger f best, fallback)
    else (best, larger f fallback)

-- `if best > 0 { return best }; return fallback`
abbrev pub best_score : Scores → ℕ
best_score (best, fallback) = if ltb 0 best then best else fallback

module _ (to_lower : String → String) where
  unfoldable mutual
    -- The loop over the fields of an object, from the scores so far.
    pub scan_fields : ℕ → RawFields → Scores → Scores
    scan_fields depth no_fields s = s
    scan_fields depth (field name v rest) s = scan_fields depth rest (weigh depth name v s)

    pub weigh : ℕ → String → RawValue → Scores → Scores
    weigh depth name (object fields) (best, fallback) =
        let inner = best_score (scan_fields (depth + 1) fields (0, 0)) in
        let got = if ltb 2 (depth + 1) then 0 else inner in (larger got best, fallback)
    weigh depth name (number f) s = weigh_number (to_lower name) f s
    weigh depth name other s = s

  -- `fuzzyCredit`
  unfoldable pub fuzzy_credit : RawFields → ℕ → ℕ
  unfolding weigh scan_fields
  fuzzy_credit raw depth = if ltb 2 depth then 0 else best_score (scan_fields depth raw (0, 0))

  -- The first of the numbers that is not zero, or else `fuzzyCredit`.
  unfoldable pub first_credit : List ℕ → RawFields → ℕ
  unfolding fuzzy_credit
  first_credit [] raw = fuzzy_credit raw 0
  first_credit (v ∷ vs) raw = let rest = first_credit vs raw in if nonzero_float v then v else rest
