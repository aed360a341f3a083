-- ===== src/Gateway/Authorize/Keys.antt =====
-- Which keys are let in.
use claw_proxy_hub_next.Base.{
  ℕ, ◌==◌, ==_iff, Bool, true, false, not, ◌&&◌, and_left, and_right, Option, none, some, List, [],
  ◌∷◌, ◌≡◌, ◌≢◌, refl, ap₂, subst, ◌⊎◌, inl, inr, if◌then◌else◌, chosen, find, find_sound, ◌∈◌,
}
use claw_proxy_hub_next.Gateway.Authorize.{
  Key, Crypto, same_bytes, requested_key, Authorized, unauthorized, key_expired, allowed, expired,
  check_key, key_matches, take_slow, take_fast, authorize_key, authorize,
}

same_bytes_lem : (bs cs : List ℕ) → same_bytes bs cs ≡ true → bs ≡ cs
same_bytes_lem [] [] e = refl
same_bytes_lem [] (c ∷ cs) e = absurd (cc)
same_bytes_lem (b ∷ bs) [] e = absurd (cc)
same_bytes_lem (b ∷ bs) (c ∷ cs) e =
    ap₂ (λ (x : ℕ) (xs : List ℕ). x ∷ xs) ((==_iff b c).0 (and_left (b == c) (same_bytes bs cs) e))
      (same_bytes_lem bs cs (and_right (b == c) (same_bytes bs cs) e))

module _ (crypto : Crypto) where
  -- The key fits the row: by its hash, or by the cipher of a row that has none.
  pub Fits : List ℕ → Key → Type 0
  Fits raw k =
      (k.key_hash ≡ crypto.sha256_hex raw)
      ⊎ ((k.key_hash ≡ []) × (key_matches crypto k.key_cipher raw ≡ true))

  -- What an answer has to show.
  IsLetIn : ℕ → List Key → List ℕ → Authorized → Type 0
  IsLetIn now keys raw unauthorized = Unit
  IsLetIn now keys raw key_expired = Unit
  IsLetIn now keys raw (allowed k) =
      (k ∈ keys) × (k.enabled ≡ true) × (expired now k.expires_at ≡ false) × (raw ≢ []) × Fits raw k

  check_key-IsLetIn :
      (now : ℕ) (keys : List Key) (raw : List ℕ) (k : Key)
      → k ∈ keys
      → raw ≢ []
      → Fits raw k
      → IsLetIn now keys raw (check_key now k)
  unfolding check_key IsLetIn
  check_key-IsLetIn now keys raw k m n f =
      let P : Authorized → Type 0 = IsLetIn now keys raw in
      let rest = (if expired now k.expires_at then key_expired else allowed k) in
      chosen P (not k.enabled) unauthorized rest (λ _. tt)
        (λ e.
          chosen P (expired now k.expires_at) key_expired (allowed k) (λ _. tt)
            (λ x. (m, on k.enabled e, x, n, f)))
    where
      on : (b : Bool) → not b ≡ false → b ≡ true
      on true e = refl
      on false e = absurd (cc)

  take_slow-IsLetIn :
      (now : ℕ) (keys : List Key) (raw : List ℕ) (o : Option Key)
      → raw ≢ []
      → ((k : Key)
          → o ≡ some k
          → (k ∈ keys) × ((same_bytes k.key_hash [] && key_matches crypto k.key_cipher raw) ≡ true))
      → IsLetIn now keys raw (take_slow crypto now raw keys o).1
  unfolding take_slow IsLetIn Fits
  take_slow-IsLetIn now keys raw none n h = tt
  take_slow-IsLetIn now keys raw (some k) n h =
      let (m, t) = h k refl in
      check_key-IsLetIn now keys raw k m n (
        inr (
          same_bytes_lem k.key_hash []
              (and_left (same_bytes k.key_hash []) (key_matches crypto k.key_cipher raw) t),
          and_right (same_bytes k.key_hash []) (key_matches crypto k.key_cipher raw) t,
        ))

  take_fast-IsLetIn :
      (now : ℕ) (keys : List Key) (raw : List ℕ) (o : Option Key)
      → raw ≢ []
      → ((k : Key)
          → o ≡ some k
          → (k ∈ keys) × ((same_bytes k.key_hash (crypto.sha256_hex raw) && k.enabled) ≡ true))
      → IsLetIn now keys raw (take_fast crypto now raw keys o).1
  unfolding take_fast Fits
  take_fast-IsLetIn now keys raw none n h =
      let p : Key → Bool = λ k. same_bytes k.key_hash [] && key_matches crypto k.key_cipher raw in
      take_slow-IsLetIn now keys raw (find p keys) n (λ k q. find_sound p keys k q)
  take_fast-IsLetIn now keys raw (some k) n h =
      let (m, t) = h k refl in
      check_key-IsLetIn now keys raw k m n (
        inl (
          same_bytes_lem k.key_hash (crypto.sha256_hex raw)
            (and_left (same_bytes k.key_hash (crypto.sha256_hex raw)) k.enabled t)))

  authorize_key-IsLetIn :
      (now : ℕ) (keys : List Key) (raw : List ℕ)
      → IsLetIn now keys raw (authorize_key crypto now keys raw).1
  unfolding authorize_key IsLetIn
  authorize_key-IsLetIn now keys [] = tt
  authorize_key-IsLetIn now keys (c ∷ cs) =
      let p : Key → Bool = λ k. same_bytes k.key_hash (crypto.sha256_hex (c ∷ cs)) && k.enabled in
      take_fast-IsLetIn now keys (c ∷ cs) (find p keys) (λ q. absurd (cc))
        (λ k q. find_sound p keys k q)

  -- A request that is let in named a key, in one of the two headers, and got a row of the table that is
  -- enabled, has not run out, and fits the key by its hash, or, where it has no hash, by its cipher.
  pub authorize-allowed :
      (now : ℕ) (keys keys' : List Key) (authorization x_api_key : List ℕ) (k : Key)
      → authorize crypto now keys authorization x_api_key ≡ (keys', allowed k)
      → let raw = requested_key authorization x_api_key in
        (k ∈ keys)
        × (k.enabled ≡ true)
        × (expired now k.expires_at ≡ false)
        × (raw ≢ [])
        × Fits raw k
  unfolding authorize IsLetIn
  authorize-allowed now keys keys' authorization x_api_key k e =
      let raw = requested_key authorization x_api_key in
      subst (λ (r : List Key × Authorized). IsLetIn now keys raw r.1) e
        (authorize_key-IsLetIn now keys raw)
