-- ===== src/Gateway/KeyExamples.antt =====
-- A request with a bearer key.
use claw_proxy_hub_next.Base.{ℕ, true, false, some, List, [], ◌∷◌, ◌++◌, ◌≡◌, ◌≢◌, refl, ◌∈◌}
use claw_proxy_hub_next.Gateway.Authorize.{
  Key, Crypto, bearer, expired, allowed, requested_key, authorize,
}
use claw_proxy_hub_next.Gateway.Authorize.Keys.{Fits, authorize-allowed}

abbrev plain_crypto : Crypto
plain_crypto = record { sha256_hex = λ raw. raw; decrypt = λ cipher. cipher }

abbrev raw_key : List ℕ
raw_key = b'k' ∷ b'1' ∷ []

abbrev only_key : Key
only_key = record {
  id = 1;
  key_cipher = [];
  key_hash = raw_key;
  enabled = true;
  expires_at = some 10;
}

let_in :
    authorize plain_crypto 5 (only_key ∷ []) (bearer ++ raw_key) []
    ≡ (only_key ∷ [], allowed only_key)
unfolding authorize
let_in = refl

authorize-allowed_example :
    (only_key ∈ (only_key ∷ []))
    × (true ≡ true)
    × (expired 5 (some 10) ≡ false)
    × (requested_key (bearer ++ raw_key) [] ≢ [])
    × Fits plain_crypto (requested_key (bearer ++ raw_key) []) only_key
authorize-allowed_example =
    authorize-allowed plain_crypto 5 (only_key ∷ []) (only_key ∷ []) (bearer ++ raw_key) [] only_key
      let_in
