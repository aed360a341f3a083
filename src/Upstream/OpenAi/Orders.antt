-- ===== src/Upstream/OpenAi/Orders.antt =====
-- `fuzzyCredit` ranges over a Go map, whose order changes from run to run.
use claw_proxy_hub_next.Base.{
  ℕ, ◌+◌, String, not, ◌||◌, ltb, if◌then◌else◌, ◌≡◌, refl, sym, ap, ◌∙◌, arith, Bool-cases, inl,
  inr,
}
use claw_proxy_hub_next.Upstream.OpenAi.Credits.{
  RawValue, object, number, other, RawFields, no_fields, field, Scores, larger, positive_float,
  is_credit_name, is_balance_name, weigh_number, best_score, scan_fields, weigh, fuzzy_credit,
}

-- The same fields in another order, at every depth.
mutual
  pub data SameValue : RawValue → RawValue → Type 0 where
    same : (v : RawValue) → SameValue v v
    inside : {x y : RawFields} → SameFields x y → SameValue (object x) (object y)

  pub data SameFields : RawFields → RawFields → Type 0 where
    none_left : SameFields no_fields no_fields
    keep :
        (name : String) {v w : RawValue} {x y : RawFields}
        → SameValue v w
        → SameFields x y
        → SameFields (field name v x) (field name w y)
    swap :
        (k j : String) (v w : RawValue) (x : RawFields)
        → SameFields (field k v (field j w x)) (field j w (field k v x))
    then_same : {x y z : RawFields} → SameFields x y → SameFields y z → SameFields x z

-- Scores joined one by one.
abbrev joined : Scores → Scores → Scores
joined (a, b) (c, d) = (larger a c, larger b d)

joined_swap : (r s t : Scores) → joined r (joined s t) ≡ joined s (joined r t)
joined_swap (a, b) (c, d) (e, f) = ground arith

number_joins :
    (name : String) (f : ℕ) (s : Scores)
    → weigh_number name f s ≡ joined (weigh_number name f (0, 0)) s
unfolding weigh_number
number_joins name f (b, c) =
    elim (Bool-cases
      (not (is_credit_name name) || not (positive_float f) || is_balance_name name)) [
        | inl e ↦ rw e (ground arith)
        | inr e ↦ rw e (ground arith)
      ]

module _ (to_lower : String → String) where
  weigh_joins :
      (depth : ℕ) (name : String) (v : RawValue) (s : Scores)
      → weigh to_lower depth name v s ≡ joined (weigh to_lower depth name v (0, 0)) s
  unfolding weigh scan_fields
  weigh_joins depth name (object x) (b, c) = ground arith
  weigh_joins depth name (number f) s = number_joins (to_lower name) f s
  weigh_joins depth name other (b, c) = ground arith

  weigh_swap :
      (depth : ℕ) (k j : String) (v w : RawValue) (s : Scores)
      → weigh to_lower depth j w (weigh to_lower depth k v s)
        ≡ weigh to_lower depth k v (weigh to_lower depth j w s)
  weigh_swap depth k j v w s =
      let x = weigh to_lower depth k v (0, 0) in
      let y = weigh to_lower depth j w (0, 0) in
      weigh_joins depth j w _
      ∙ ap (joined y) (weigh_joins depth k v s)
      ∙ joined_swap y x s
      ∙ sym (ap (joined x) (weigh_joins depth j w s))
      ∙ sym (weigh_joins depth k v _)

  mutual
    unfolding weigh scan_fields

    value_same :
        (depth : ℕ) (name : String) {v w : RawValue} (s : Scores)
        → SameValue v w
        → weigh to_lower depth name v s ≡ weigh to_lower depth name w s
    value_same depth name s (same v) = refl
    value_same depth name (b, c) (inside {x} {y} h) =
        ap (λ (r : Scores). (larger (if ltb 2 (depth + 1) then 0 else best_score r) b, c))
          (fields_same (depth + 1) (0, 0) h)

    fields_same :
        (depth : ℕ) {x y : RawFields} (s : Scores)
        → SameFields x y
        → scan_fields to_lower depth x s ≡ scan_fields to_lower depth y s
    fields_same depth s none_left = refl
    fields_same depth s (keep name {v} {w} {x} {y} h k) =
        ap (scan_fields to_lower depth x) (value_same depth name s h)
        ∙ fields_same depth (weigh to_lower depth name w s) k
    fields_same depth s (swap k j v w x) =
        ap (scan_fields to_lower depth x) (weigh_swap depth k j v w s)
    fields_same depth s (then_same h k) = fields_same depth s h ∙ fields_same depth s k

  -- The credit that fuzzyCredit finds does not depend on the order in which the maps, at any depth,
  -- hand out their fields.
  pub fuzzy_credit-SameFields :
      (x y : RawFields) (depth : ℕ)
      → SameFields x y
      → fuzzy_credit to_lower x depth ≡ fuzzy_credit to_lower y depth
  unfolding fuzzy_credit
  fuzzy_credit-SameFields x y depth h =
      ap (λ (r : Scores). if ltb 2 depth then 0 else best_score r) (fields_same depth (0, 0) h)
