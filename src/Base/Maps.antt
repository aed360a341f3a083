-- ===== src/Base/Maps.antt =====
-- A Go `map[string]V` as an association list, in the order in which the keys were first written.
use Prim.Native.String.{String}
use text.Mathlib.Text.{◌==◌ as str_eq}
use text.Mathlib.TextEquality.{eq_iff}
use mathlib.Core.Path.{◌≡◌, refl}
use mathlib.Core.Option.{Option, none, some}
use mathlib.Core.List.{List, [], ◌∷◌, ◌++◌, map}
use native.Mathlib.Omega.{arith}
use mathlib.Core.Logic.{◌⊎◌, inl, inr}
use mathlib.Core.Bool.{false}
use claw_proxy_hub_next.Base.Tests.{if◌then◌else◌, Bool-cases}

pub some_injective {ℓ} : {A : Type ℓ} {x y : A} → some x ≡ some y → x ≡ y
some_injective h = cc

no_value {ℓ} : {A : Type ℓ} {x : A} → none ≡ some x → ⊥
no_value h = absurd (cc)

abbrev pub GoMap {ℓ} : Type ℓ → Type ℓ
GoMap V = List (String × V)

module _ {ℓ} {V : Type ℓ} where
  -- `m[key] = v`
  unfoldable pub insert : String → V → GoMap V → GoMap V
  insert key v [] = (key, v) ∷ []
  insert key v ((name, old) ∷ rest) =
      if str_eq name key then (name, v) ∷ rest else (name, old) ∷ insert key v rest

  -- `v, ok := m[key]`
  unfoldable pub lookup : String → GoMap V → Option V
  lookup key [] = none
  lookup key ((name, v) ∷ rest) = if str_eq name key then some v else lookup key rest

  -- `delete(m, key)`
  unfoldable pub delete : String → GoMap V → GoMap V
  delete key [] = []
  delete key ((name, v) ∷ rest) =
      let kept = delete key rest in if str_eq name key then kept else (name, v) ∷ kept

  pub lookup-insert :
      (written key : String) (v : V) (m : GoMap V)
      → lookup key (insert written v m) ≡ (if str_eq written key then some v else lookup key m)
  unfolding insert lookup
  lookup-insert written key v [] = ground (arith)
  lookup-insert written key v ((name, old) ∷ rest) =
      let later = lookup-insert written key v rest in
      ground (arith, later, eq_iff name key, eq_iff name written, eq_iff written key)

  pub lookup-delete :
      (k j : String) (m : List (String × V))
      → lookup j (delete k m) ≡ (if str_eq k j then none else lookup j m)
  unfolding lookup delete
  lookup-delete k j [] = ground arith
  lookup-delete k j ((i, w) ∷ m) =
      ground (arith, lookup-delete k j m, eq_iff i k, eq_iff i j, eq_iff k j)

  -- A key that is not there is written at the end.
  pub insert_new :
      (k : String) (v : V) (m : List (String × V))
      → lookup k m ≡ none
      → insert k v m ≡ m ++ (k, v) ∷ []
  unfolding lookup insert
  insert_new k v [] h = refl
  insert_new k v ((j, w) ∷ m) h = ground (arith, insert_new k v m)

module _ {ℓ} {V : Type ℓ} where
  abbrev pub keys : List (String × V) → List String
  keys = map (λ e. e.0)

  abbrev pub values : List (String × V) → List V
  values = map (λ e. e.1)

pub ruleset map_laws = (lookup-insert, lookup-delete)

module _ {ℓ κ} {V : Type ℓ} {W : Type κ} where
  abbrev pub map_values : (V → W) → List (String × V) → List (String × W)
  map_values f [] = []
  map_values f ((k, v) ∷ m) = (k, f v) ∷ map_values f m

  abbrev pub map_option : (V → W) → Option V → Option W
  map_option f none = none
  map_option f (some v) = some (f v)

  pub lookup-map_values :
      (f : V → W) (k : String) (m : List (String × V))
      → lookup k (map_values f m) ≡ map_option f (lookup k m)
  unfolding lookup
  lookup-map_values f k [] = refl
  lookup-map_values f k ((j, v) ∷ m) = ground (arith, lookup-map_values f k m)

  pub map_values-insert :
      (f : V → W) (k : String) (v : V) (m : List (String × V))
      → map_values f (insert k v m) ≡ insert k (f v) (map_values f m)
  unfolding insert
  map_values-insert f k v [] = refl
  map_values-insert f k v ((j, w) ∷ m) = ground (arith, map_values-insert f k v m)

module _ {ℓ} {V : Type ℓ} where
  -- Writing what is there changes nothing.
  pub insert_same :
      (k : String) (v : V) (m : List (String × V)) → lookup k m ≡ some v → insert k v m ≡ m
  unfolding lookup insert
  insert_same k v [] h = cc
  insert_same k v ((j, w) ∷ m) h = ground (arith, insert_same k v m)

  -- The last write counts.
  pub insert_twice :
      (k : String) (v w : V) (m : List (String × V)) → insert k w (insert k v m) ≡ insert k w m
  unfolding insert
  insert_twice k v w [] = ground (arith, eq_iff k k)
  insert_twice k v w ((j, x) ∷ m) = ground (arith, insert_twice k v w m)

module _ {ℓ} {V : Type ℓ} where
  -- What is found after a write was written or was there; what is found after a `delete` was there.
  pub found_after_insert :
      (k j : String) (v w : V) (m : List (String × V))
      → lookup j (insert k v m) ≡ some w
      → ((k ≡ j) × (v ≡ w)) ⊎ (lookup j m ≡ some w)
  found_after_insert k j v w m h = elim (Bool-cases (str_eq k j)) [
    | inl e ↦ inl ((eq_iff k j).0 e, some_injective (rw (lookup-insert k j v m, e) at h))
    | inr e ↦ inr (rw (lookup-insert k j v m, e) at h)
  ]

  pub found_after_delete :
      (k j : String) (w : V) (m : List (String × V))
      → lookup j (delete k m) ≡ some w
      → (str_eq k j ≡ false) × (lookup j m ≡ some w)
  found_after_delete k j w m h = elim (Bool-cases (str_eq k j)) [
    | inl e ↦ absurd (no_value (rw (lookup-delete k j m, e) at h))
    | inr e ↦ (e, rw (lookup-delete k j m, e) at h)
  ]
