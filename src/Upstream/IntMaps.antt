-- ===== src/Upstream/IntMaps.antt =====
-- A Go `map[int]string`, keyed by the 64-bit patterns of the indices.
use claw_proxy_hub_next.Base.{ℕ, ◌≡◌, refl, List, [], ◌∷◌, arith, ◌==◌, ==_iff, if◌then◌else◌}

module _ {ℓ} {V : Type ℓ} where
  -- `m[i] = v`
  unfoldable pub put : ℕ → V → List (ℕ × V) → List (ℕ × V)
  put i v [] = (i, v) ∷ []
  put i v ((j, w) ∷ m) = if j == i then (j, v) ∷ m else (j, w) ∷ put i v m

  -- `m[i]`, with the zero value for a missing key
  unfoldable pub at : V → ℕ → List (ℕ × V) → V
  at zero_value i [] = zero_value
  at zero_value i ((j, w) ∷ m) = if j == i then w else at zero_value i m

  pub at-put :
      (z v : V) (i k : ℕ) (m : List (ℕ × V)) → at z k (put i v m) ≡ (if i == k then v else at z k m)
  unfolding at put
  at-put z v i k [] = refl
  at-put z v i k ((j, w) ∷ m) = ground (arith, at-put z v i k m, ==_iff j i, ==_iff j k, ==_iff i k)
