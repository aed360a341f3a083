-- ===== src/Account/Expiry/Dates.antt =====
-- Which packages of `CreditExpiryOf` have an end that can be read, and what is left of them.
use claw_proxy_hub_next.Base.{
  ℕ, String, str_eq, true, false, Option, none, some, List, [], ◌∷◌, ◌≡◌, ◌≢◌, subst, Option-cases,
  Bool-cases, inl, inr, eq_iff,
}
use claw_proxy_hub_next.Account.Expiry.{
  CreditPackage, Readers, end_of, left_of, dated, parse_loose_time, raw_number,
}

-- The text of the end of a package is the first of its three fields that is not empty.
pub data EndText (p : CreditPackage) : String → Type 0 where
  by_expires_at : p.expires_at ≢ "" → EndText p p.expires_at
  by_expire_time : p.expires_at ≡ "" → p.expire_time ≢ "" → EndText p p.expire_time
  by_expiry : p.expires_at ≡ "" → p.expire_time ≡ "" → EndText p p.expiry

-- What is left of a package: the first amount, or the second where the first is zero.
pub data LeftOf (r : Readers) (p : CreditPackage) : ℕ → Type 0 where
  by_remaining :
      r.is_zero (raw_number r p.remaining) ≡ false → LeftOf r p (raw_number r p.remaining)
  by_left : r.is_zero (raw_number r p.remaining) ≡ true → LeftOf r p (raw_number r p.left)

-- The ends of some packages with what is left of them, in order, less the packages whose end is empty
-- or cannot be read.
pub data Dates (r : Readers) : List CreditPackage → List (ℕ × ℕ) → Type 0 where
  no_packages : Dates r [] []
  empty_end :
      (p : CreditPackage) (ps : List CreditPackage) (ds : List (ℕ × ℕ))
      → EndText p ""
      → Dates r ps ds
      → Dates r (p ∷ ps) ds
  unreadable_end :
      (p : CreditPackage) (text : String) (ps : List CreditPackage) (ds : List (ℕ × ℕ))
      → EndText p text
      → parse_loose_time r text ≡ none
      → Dates r ps ds
      → Dates r (p ∷ ps) ds
  readable_end :
      (p : CreditPackage) (text : String) (at left : ℕ) (ps : List CreditPackage)
      (ds : List (ℕ × ℕ))
      → EndText p text
      → text ≢ ""
      → parse_loose_time r text ≡ some at
      → LeftOf r p left
      → Dates r ps ds
      → Dates r (p ∷ ps) ((at, left) ∷ ds)

filled : (s : String) → str_eq s "" ≡ false → s ≢ ""
filled s e h = let q = (eq_iff s "").1 h in absurd (cc)

end_of-EndText : (p : CreditPackage) → EndText p (end_of p)
unfolding end_of
end_of-EndText p = elim (Bool-cases (str_eq p.expires_at "")) [
  | inr e ↦ rw (e, e) (by_expires_at (filled p.expires_at e))
  | inl e ↦ elim (Bool-cases (str_eq p.expire_time "")) [
    | inr f ↦ rw (e, f) (by_expire_time ((eq_iff p.expires_at "").0 e) (filled p.expire_time f))
    | inl f ↦ rw (e, f) (by_expiry ((eq_iff p.expires_at "").0 e) ((eq_iff p.expire_time "").0 f))
  ]
]

left_of-LeftOf : (r : Readers) (p : CreditPackage) → LeftOf r p (left_of r p)
unfolding left_of
left_of-LeftOf r p = elim (Bool-cases (r.is_zero (raw_number r p.remaining))) [
  | inl e ↦ rw e (by_left e)
  | inr e ↦ rw e (by_remaining e)
]

-- The packages whose end can be read.
abbrev ahead : Option (ℕ × ℕ) → List (ℕ × ℕ) → List (ℕ × ℕ)
ahead none ds = ds
ahead (some d) ds = d ∷ ds

abbrev pub all_dated : Readers → List CreditPackage → List (ℕ × ℕ)
all_dated r [] = []
all_dated r (p ∷ ps) = ahead (dated r p) (all_dated r ps)

pub all_dated-Dates : (r : Readers) (ps : List CreditPackage) → Dates r ps (all_dated r ps)
unfolding dated
all_dated-Dates r [] = no_packages
all_dated-Dates r (p ∷ ps) =
    let t = end_of-EndText p in
    let rest = all_dated-Dates r ps in
    elim (Bool-cases (str_eq (end_of p) "")) [
      | inl e ↦ rw e (
          empty_end p ps (all_dated r ps) (subst (λ x. EndText p x) ((eq_iff (end_of p) "").0 e) t)
            rest)
      | inr e ↦ elim (Option-cases (parse_loose_time r (end_of p))) [
        | inl q ↦ rw (e, q) (unreadable_end p (end_of p) ps (all_dated r ps) t q rest)
        | inr (at, q) ↦
            rw (e, q)
              (readable_end p (end_of p) at (left_of r p) ps (all_dated r ps) t
                (filled (end_of p) e) q (left_of-LeftOf r p) rest)
      ]
    ]
