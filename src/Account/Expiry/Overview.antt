-- ===== src/Account/Expiry/Overview.antt =====
-- What the overview of an account's packages says of them.
use claw_proxy_hub_next.Base.{
  ℕ, ◌+◌, ◌≤◌, length, ltb, String, str_eq, Bool, true, false, Option, none, some, List, [], ◌∷◌,
  All, ltb→lt, trim_space, ◌⊎◌, ◌∈◌, here, there, ◌≡◌, refl, subst, ◌<◌, arith, if◌then◌else◌,
  Option-cases, Bool-cases, inl, inr,
}
use claw_proxy_hub_next.Account.Expiry.{
  CreditPackage, Readers, CreditExpiry, no_expiry, dated, is_soon, count_package, count_packages,
  credit_expiry_of,
}
use claw_proxy_hub_next.Account.Expiry.Dates.{Dates, all_dated, all_dated-Dates}

-- After the instant, and seven days of 24 hours after it at the latest.
abbrev EndsSoon : ℕ → ℕ → Type 0
EndsSoon now at = (now < at) × (at ≤ now + 604_800_000_000_000)

-- From an amount on, what is left of the packages that end soon is added in order, and nothing else.
pub data SumsSoon (r : Readers) (now : ℕ) : ℕ → List (ℕ × ℕ) → ℕ → Type 0 where
  no_more : (sum : ℕ) → SumsSoon r now sum [] sum
  added :
      (sum at left total : ℕ) (ds : List (ℕ × ℕ))
      → EndsSoon now at
      → SumsSoon r now (r.plus sum left) ds total
      → SumsSoon r now sum ((at, left) ∷ ds) total
  passed :
      (sum at left total : ℕ) (ds : List (ℕ × ℕ))
      → ¬ EndsSoon now at
      → SumsSoon r now sum ds total
      → SumsSoon r now sum ((at, left) ∷ ds) total

soon : (now at : ℕ) → is_soon now at ≡ true → EndsSoon now at
soon now at h = ground (arith, h)

not_soon : (now at : ℕ) → is_soon now at ≡ false → ¬ EndsSoon now at
not_soon now at h (a, b) = ground (arith, h, a, b)

-- The nearest end, with what is left of its package.
pub IsNearest : Option (ℕ × ℕ) → List (ℕ × ℕ) → Type 0
IsNearest none ds = ds ≡ []
IsNearest (some (t, left)) ds = ((t, left) ∈ ds) × All (λ (d : ℕ × ℕ). t ≤ d.0) ds

count_all : Readers → ℕ → CreditExpiry → List (ℕ × ℕ) → CreditExpiry
count_all r now out [] = out
count_all r now out (d ∷ ds) = count_all r now (count_package r now out d) ds

count_packages_lem :
    (r : Readers) (now : ℕ) (out : CreditExpiry) (ps : List CreditPackage)
    → count_packages r now out ps ≡ count_all r now out (all_dated r ps)
unfolding count_packages count_all
count_packages_lem r now out [] = refl
count_packages_lem r now out (p ∷ ps) = elim (Option-cases (dated r p)) [
  | inl e ↦ rw e (count_packages_lem r now out ps)
  | inr (d, e) ↦ rw e (count_packages_lem r now (count_package r now out d) ps)
]

module _ (r : Readers) (now : ℕ) where
  count_all-packages :
      (out : CreditExpiry) (ds : List (ℕ × ℕ))
      → (count_all r now out ds).packages ≡ out.packages + length ds
  unfolding count_all
  count_all-packages out [] = omega arith
  count_all-packages out (d ∷ ds) =
      let ih = count_all-packages (count_package r now out d) ds in ground (arith, ih)

  count_all-expiring :
      (out : CreditExpiry) (ds : List (ℕ × ℕ))
      → SumsSoon r now out.expiring ds (count_all r now out ds).expiring
  unfolding count_all
  count_all-expiring out [] = no_more out.expiring
  count_all-expiring out ((at, left) ∷ ds) =
      let rest = count_all-expiring (count_package r now out (at, left)) ds in
      let end = (count_all r now (count_package r now out (at, left)) ds).expiring in
      elim (Bool-cases (is_soon now at)) [
        | inl e ↦ added out.expiring at left end ds (soon now at e) (
            subst
              (λ c. SumsSoon r now (if c then r.plus out.expiring left else out.expiring) ds end) e
              rest)
        | inr e ↦ passed out.expiring at left end ds (not_soon now at e) (
            subst
              (λ c. SumsSoon r now (if c then r.plus out.expiring left else out.expiring) ds end) e
              rest)
      ]

  -- The nearest of an end that was there and of some more.
  abbrev NearFrom : ℕ × ℕ → List (ℕ × ℕ) → Option (ℕ × ℕ) → Type 0
  NearFrom p ds o =
      (q : ℕ × ℕ) × (o ≡ some q)
      × ((q ≡ p) ⊎ (q ∈ ds))
      × (q.0 ≤ p.0)
      × All (λ (d : ℕ × ℕ). q.0 ≤ d.0) ds

  extend :
      (p d : ℕ × ℕ) (ds : List (ℕ × ℕ)) (o : Option (ℕ × ℕ)) (c : Bool)
      → ltb d.0 p.0 ≡ c
      → NearFrom (if c then d else p) ds o
      → NearFrom p (d ∷ ds) o
  extend p d ds o true e (q, found, inl same, le, all) =
      let lt = ltb→lt d.0 p.0 e in (q, found, inr (here same), omega (arith, lt, le), (le, all))
  extend p d ds o true e (q, found, inr m, le, all) =
      let lt = ltb→lt d.0 p.0 e in (q, found, inr (there m), omega (arith, lt, le), (le, all))
  extend p d ds o false e (q, found, from, le, all) =
      let behind : p.0 ≤ d.0 = ground (arith, e) in
      (q, found, later from, le, (omega (arith, behind, le), all))
    where
      later : (q ≡ p) ⊎ (q ∈ ds) → (q ≡ p) ⊎ (q ∈ (d ∷ ds))
      later (inl same) = inl same
      later (inr m) = inr (there m)

  count_all-next :
      (out : CreditExpiry) (p : ℕ × ℕ) (ds : List (ℕ × ℕ))
      → out.next ≡ some p
      → NearFrom p ds (count_all r now out ds).next
  unfolding count_all
  count_all-next out p [] h = (p, h, inl refl, omega arith, tt)
  count_all-next out p (d ∷ ds) h = elim (Bool-cases (ltb d.0 p.0)) [
    | inl e ↦
        let next : (count_package r now out d).next ≡ some d = rw h (rw e refl) in
        extend p d ds _ true e (count_all-next (count_package r now out d) d ds next)
    | inr e ↦
        let next : (count_package r now out d).next ≡ some p = rw h (rw e refl) in
        extend p d ds _ false e (count_all-next (count_package r now out d) p ds next)
  ]

  near-IsNearest :
      (d : ℕ × ℕ) (ds : List (ℕ × ℕ)) (o : Option (ℕ × ℕ)) → NearFrom d ds o → IsNearest o (d ∷ ds)
  unfolding IsNearest
  near-IsNearest d ds o (q, found, inl same, le, all) = rw found (here same, (le, all))
  near-IsNearest d ds o (q, found, inr m, le, all) = rw found (there m, (le, all))

  count_all-IsNearest : (ds : List (ℕ × ℕ)) → IsNearest (count_all r now no_expiry ds).next ds
  unfolding count_all IsNearest
  count_all-IsNearest [] = refl
  count_all-IsNearest (d ∷ ds) =
      near-IsNearest d ds _ (count_all-next (count_package r now no_expiry d) d ds refl)

  overview_lem :
      (text : String) (ps : List CreditPackage)
      → str_eq (trim_space text) "" ≡ false
      → r.read_packages text ≡ some ps
      → ((credit_expiry_of r now text).packages ≡ length (all_dated r ps))
        × SumsSoon r now 0 (all_dated r ps) (credit_expiry_of r now text).expiring
        × IsNearest (credit_expiry_of r now text).next (all_dated r ps)
  unfolding credit_expiry_of
  overview_lem text ps full read =
      let count = count_all-packages no_expiry (all_dated r ps) in
      rw full (
        rw read (
          rw (count_packages_lem r now no_expiry ps) (
            omega (arith, count),
            count_all-expiring no_expiry (all_dated r ps),
            count_all-IsNearest (all_dated r ps),
          )))

  -- Of the packages that the text has, take those whose end can be read: the first of its three fields
  -- that is not empty is a time. They are counted, what is left of those that end within seven days from
  -- the instant, and not before it or at it, is added up in order, and the nearest end is the one of a
  -- package, with what is left of it, or there is none.
  pub credit_expiry_of_lem :
      (text : String) (ps : List CreditPackage)
      → str_eq (trim_space text) "" ≡ false
      → r.read_packages text ≡ some ps
      → (ds : List (ℕ × ℕ)) × Dates r ps ds
        × ((credit_expiry_of r now text).packages ≡ length ds)
        × SumsSoon r now 0 ds (credit_expiry_of r now text).expiring
        × IsNearest (credit_expiry_of r now text).next ds
  credit_expiry_of_lem text ps full read =
      let (count, sum, next) = overview_lem text ps full read in
      (all_dated r ps, all_dated-Dates r ps, count, sum, next)
