-- ===== src/Gateway/Authorize.antt =====
-- `authorize` and `keyMatches` of internal/gateway/server.go. A text is the list of its bytes. The
-- hexadecimal SHA-256 and the decryption of internal/account/crypto.go are the record `Crypto`.
pub mod Keys
use claw_proxy_hub_next.Base.{
  ℕ, ◌==◌, ltb, Bool, true, false, not, ◌&&◌, Option, none, some, List, [], ◌∷◌, map, if◌then◌else◌,
  find, length,
}

pub record Key : Type 0 where
  pub id : ℕ
  pub key_cipher : List ℕ
  pub key_hash : List ℕ
  pub enabled : Bool
  pub expires_at : Option ℕ

pub record Crypto : Type 0 where
  pub sha256_hex : List ℕ → List ℕ
  pub decrypt : List ℕ → List ℕ

abbrev pub same_bytes : List ℕ → List ℕ → Bool
same_bytes [] [] = true
same_bytes [] (c ∷ cs) = false
same_bytes (b ∷ bs) [] = false
same_bytes (b ∷ bs) (c ∷ cs) = (b == c) && same_bytes bs cs

-- What follows the prefix, which must be there with something behind it.
unfoldable pub behind_prefix : List ℕ → List ℕ → Option (List ℕ)
behind_prefix [] [] = none
behind_prefix [] (c ∷ cs) = some (c ∷ cs)
behind_prefix (b ∷ bs) [] = none
behind_prefix (b ∷ bs) (c ∷ cs) = let rest = behind_prefix bs cs in if b == c then rest else none

abbrev pub bearer : List ℕ
bearer = b'B' ∷ b'e' ∷ b'a' ∷ b'r' ∷ b'e' ∷ b'r' ∷ 32 ∷ []

abbrev or_header : List ℕ → Option (List ℕ) → List ℕ
or_header x_api_key none = x_api_key
or_header x_api_key (some key) = key

-- The key of the headers Authorization and X-Api-Key.
unfoldable pub requested_key : List ℕ → List ℕ → List ℕ
unfolding behind_prefix
requested_key authorization x_api_key = or_header x_api_key (behind_prefix bearer authorization)

abbrev encrypted : List ℕ → Bool
encrypted [] = false
encrypted (c ∷ cs) = c == 1

-- `writeJSON` with 401, in its two texts, or the key.
pub data Authorized : Type 0 where
  unauthorized : Authorized
  key_expired : Authorized
  allowed : Key → Authorized

abbrev pub expired : ℕ → Option ℕ → Bool
expired now none = false
expired now (some t) = ltb t now

unfoldable pub check_key : ℕ → Key → Authorized
check_key now k =
    if not k.enabled
    then unauthorized
    else if expired now k.expires_at
    then key_expired
    else allowed k

module _ (crypto : Crypto) where
  open crypto use {sha256_hex, decrypt}

  -- `keyMatches`
  unfoldable pub key_matches : List ℕ → List ℕ → Bool
  key_matches cipher raw =
      if (length cipher == 64) && not (encrypted cipher)
      then same_bytes (sha256_hex raw) cipher
      else encrypted cipher && same_bytes (decrypt cipher) raw

  -- The slow way, over the rows without a hash, which fills the hash in.
  abbrev fill_hash : ℕ → List ℕ → Key → Key
  fill_hash id hash k = if k.id == id then record k { key_hash = hash } else k

  unfoldable pub take_slow : ℕ → List ℕ → List Key → Option Key → List Key × Authorized
  unfolding check_key
  take_slow now raw keys none = (keys, unauthorized)
  take_slow now raw keys (some k) = (map (fill_hash k.id (sha256_hex raw)) keys, check_key now k)

  unfoldable pub take_fast : ℕ → List ℕ → List Key → Option Key → List Key × Authorized
  unfolding take_slow key_matches
  take_fast now raw keys (some k) = (keys, check_key now k)
  take_fast now raw keys none =
      take_slow now raw keys
        (find (λ k. same_bytes k.key_hash [] && key_matches k.key_cipher raw) keys)

  unfoldable pub authorize_key : ℕ → List Key → List ℕ → List Key × Authorized
  unfolding take_fast
  authorize_key now keys [] = (keys, unauthorized)
  authorize_key now keys (c ∷ cs) =
      take_fast now (c ∷ cs) keys
        (find (λ k. same_bytes k.key_hash (sha256_hex (c ∷ cs)) && k.enabled) keys)

  -- `authorize`, on the table of the keys
  unfoldable pub authorize : ℕ → List Key → List ℕ → List ℕ → List Key × Authorized
  unfolding authorize_key requested_key
  authorize now keys authorization x_api_key =
      authorize_key now keys (requested_key authorization x_api_key)
