-- ===== src/Base/Select.antt =====
-- Choosing elements of a list by a Boolean test.
use Prim.Native.Nat.{ℕ, zero, suc}
use mathlib.Core.Path.{◌≡◌, refl}
use mathlib.Core.Bool.{Bool, true, false, ◌||◌}
use mathlib.Core.Option.{Option, none, some}
use mathlib.Core.List.{List, [], ◌∷◌}
use claw_proxy_hub_next.Base.Tests.{if◌then◌else◌}
use claw_proxy_hub_next.Base.Lists.{Any, here, there, get_elem?}

module _ {ℓ} {A : Type ℓ} where
  infix 20 ◌∈◌
  abbrev pub ◌∈◌ : A → List A → Type ℓ
  x ∈ xs = Any (λ y. x ≡ y) xs

  abbrev pub select : (A → Bool) → List A → List A
  select p [] = []
  select p (x ∷ xs) = let rest = select p xs in if p x then x ∷ rest else rest

  abbrev pub exists : (A → Bool) → List A → Bool
  exists p [] = false
  exists p (x ∷ xs) = p x || exists p xs

  abbrev pub find : (A → Bool) → List A → Option A
  find p [] = none
  find p (x ∷ xs) = if p x then some x else find p xs

  abbrev pub first : List A → Option A
  first [] = none
  first (x ∷ xs) = some x

  select-head :
      (p : A → Bool) (x y : A) (xs : List A)
      → (y ∈ select p xs → (y ∈ xs) × (p y ≡ true))
      → (b : Bool) → p x ≡ b
      → y ∈ (if b then x ∷ select p xs else select p xs)
      → (y ∈ (x ∷ xs)) × (p y ≡ true)
  select-head p x y xs ih true e (here q) = (here q, rw q e)
  select-head p x y xs ih true e (there h) = let (m, t) = ih h in (there m, t)
  select-head p x y xs ih false e h = let (m, t) = ih h in (there m, t)

  pub select_sound :
      (p : A → Bool) (xs : List A) (y : A) → y ∈ select p xs → (y ∈ xs) × (p y ≡ true)
  select_sound p [] y h = elim h [ ]
  select_sound p (x ∷ xs) y h = select-head p x y xs (select_sound p xs y) (p x) refl h

  find-head :
      (p : A → Bool) (x y : A) (xs : List A)
      → (find p xs ≡ some y → (y ∈ xs) × (p y ≡ true))
      → (b : Bool) → p x ≡ b
      → (if b then some x else find p xs) ≡ some y
      → (y ∈ (x ∷ xs)) × (p y ≡ true)
  find-head p x y xs ih true e h = let q : y ≡ x = cc in (here q, rw q e)
  find-head p x y xs ih false e h = let (m, t) = ih h in (there m, t)

  pub find_sound :
      (p : A → Bool) (xs : List A) (y : A) → find p xs ≡ some y → (y ∈ xs) × (p y ≡ true)
  find_sound p [] y h = absurd (cc)
  find_sound p (x ∷ xs) y h = find-head p x y xs (find_sound p xs y) (p x) refl h

  pub get_elem?_sound : (xs : List A) (i : ℕ) (y : A) → get_elem? xs i ≡ some y → y ∈ xs
  get_elem?_sound [] i y h = absurd (cc)
  get_elem?_sound (x ∷ xs) zero y h = here (cc)
  get_elem?_sound (x ∷ xs) (suc i) y h = there (get_elem?_sound xs i y h)

  pub exists_sound : (p : A → Bool) (xs : List A) → exists p xs ≡ true → Any (λ x. p x ≡ true) xs
  exists_sound p [] h = absurd (cc)
  exists_sound p (x ∷ xs) h = exists-head p x xs (exists_sound p xs) (p x) refl h
    where
      exists-head :
          (p : A → Bool) (x : A) (xs : List A)
          → (exists p xs ≡ true → Any (λ y. p y ≡ true) xs)
          → (b : Bool) → p x ≡ b
          → (b || exists p xs) ≡ true
          → Any (λ y. p y ≡ true) (x ∷ xs)
      exists-head p x xs ih true e h = here e
      exists-head p x xs ih false e h = there (ih h)
