-- ===== src/Upstream/OpenAi/Usage.antt =====
-- The usage object of sdk/openaiup/openaiup.go and the token counts that `finish` takes from it. The
-- four credit fields are the list `credits`, in the order in which `creditOf` reads them.
use claw_proxy_hub_next.Base.{ℕ, Option, none, some, List, [], ◌∷◌, if◌then◌else◌, gt64, String}
use claw_proxy_hub_next.Gateway.Envelope.{Usage}
use claw_proxy_hub_next.Upstream.OpenAi.Credits.{RawFields, first_credit}

-- `prompt_tokens_details` and `input_tokens_details`
pub record TokenDetails : Type 0 where
  pub cached_tokens : ℕ
  pub cache_read : ℕ
  pub cache_write : ℕ
  pub cached_write : ℕ
  pub cache_create : ℕ

pub record OpenAiUsage : Type 0 where
  pub prompt_tokens : ℕ
  pub completion_tokens : ℕ
  pub cached_tokens : ℕ
  pub cache_write_tokens : ℕ
  pub cached_write_tokens : ℕ
  pub cache_creation_tokens : ℕ
  pub credits : List ℕ
  pub raw : RawFields
  pub prompt_details : Option TokenDetails
  pub input_details : Option TokenDetails

-- `maxInt64`, from the largest so far
unfoldable pub max_from : ℕ → List ℕ → ℕ
max_from out [] = out
max_from out (v ∷ vs) = max_from (if gt64 v out then v else out) vs

unfoldable pub max_int64 : List ℕ → ℕ
unfolding max_from
max_int64 vs = max_from 0 vs

abbrev reads : ℕ → Option TokenDetails → ℕ
reads cached none = cached
reads cached (some d) = max_int64 (cached ∷ d.cached_tokens ∷ d.cache_read ∷ [])

abbrev writes : ℕ → Option TokenDetails → ℕ
writes write none = write
writes write (some d) = max_int64 (write ∷ d.cache_write ∷ d.cached_write ∷ d.cache_create ∷ [])

-- `if n > input { n = input }`
unfoldable pub at_most : ℕ → ℕ → ℕ
at_most input n = if gt64 n input then input else n

unfoldable pub cached_of : OpenAiUsage → ℕ
unfolding max_int64 at_most
cached_of u =
    at_most u.prompt_tokens (reads (reads u.cached_tokens u.prompt_details) u.input_details)

unfoldable pub write_of : OpenAiUsage → ℕ
unfolding max_int64 at_most
write_of u =
    let write =
      max_int64 (u.cache_write_tokens ∷ u.cached_write_tokens ∷ u.cache_creation_tokens ∷ []) in
    at_most u.prompt_tokens (writes (writes write u.prompt_details) u.input_details)

-- The `Usage` of the `MessageFinish`.
unfoldable pub envelope_usage : (String → String) → OpenAiUsage → Usage
unfolding cached_of write_of first_credit
envelope_usage to_lower u = record {
  input_tokens = u.prompt_tokens;
  output_tokens = u.completion_tokens;
  cached_tokens = cached_of u;
  credit_used = first_credit to_lower u.credits u.raw;
  cache_creation_tokens = write_of u;
}
