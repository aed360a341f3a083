-- ===== src/Upstream/Usages.antt =====
-- The token counts that the gateway writes for a client (Gateway/Usage), read by the SDK's parsers:
-- what a hub reports of another hub that is its upstream. Each function here is what `json.Unmarshal`
-- makes of the object that the gateway marshals.
use claw_proxy_hub_next.Base.{
  ℕ, ◌+◌, ◌≤◌, ◌≡◌, Option, none, some, [], ◌∷◌, arith, int64_max, String,
}
use claw_proxy_hub_next.Gateway.Envelope.{Usage}
use claw_proxy_hub_next.Gateway.Usage.{
  CacheDetails, UsagePayload, AnthUsage, openai_usage_payload, responses_usage_payload, anth_usage,
  count_or_zero,
}
use claw_proxy_hub_next.Upstream.OpenAi.Credits.{no_fields, first_credit, fuzzy_credit}
use claw_proxy_hub_next.Upstream.OpenAi.Usage.{
  TokenDetails, OpenAiUsage, envelope_usage, max_int64, at_most, cached_of, write_of,
}
use claw_proxy_hub_next.Upstream.Anthropic.{AnthropicUsage, no_tokens, merge, envelope}
use claw_proxy_hub_next.Upstream.Responses.{ResponseUsage, tokens_of, new_parser}

unfoldable pub details_read : CacheDetails → TokenDetails
details_read d = record {
  cached_tokens = d.cached_tokens;
  cache_read = 0;
  cache_write = count_or_zero d.cache_write_tokens;
  cached_write = 0;
  cache_create = 0;
}

abbrev details_of : Option CacheDetails → Option TokenDetails
details_of none = none
details_of (some d) = some (details_read d)

-- `raw` has every field of the usage object. The fields that the gateway writes have no name of a
-- credit and are left out.
unfoldable pub openai_read : UsagePayload → OpenAiUsage
openai_read w = record {
  prompt_tokens = w.input;
  completion_tokens = w.output;
  cached_tokens = 0;
  cache_write_tokens = 0;
  cached_write_tokens = 0;
  cache_creation_tokens = 0;
  credits = 0 ∷ 0 ∷ 0 ∷ 0 ∷ [];
  raw = no_fields;
  prompt_details = details_of w.details;
  input_details = none;
}

abbrev cached_in : Option CacheDetails → ℕ
cached_in none = 0
cached_in (some d) = d.cached_tokens

unfoldable pub responses_read : UsagePayload → ResponseUsage
responses_read w = record {
  input_tokens = w.input;
  output_tokens = w.output;
  cached_tokens = cached_in w.details;
}

unfoldable pub anthropic_read : AnthUsage → AnthropicUsage
anthropic_read a = record {
  input = a.input_tokens;
  cache_read = count_or_zero a.cache_read_input_tokens;
  cache_create = count_or_zero a.cache_creation_input_tokens;
  output = count_or_zero a.output_tokens;
}

max_of_one : (n : ℕ) → n ≤ int64_max → max_int64 (0 ∷ n ∷ 0 ∷ []) ≡ n
unfolding max_int64
max_of_one n h = ground arith

max_of_first : (n : ℕ) → n ≤ int64_max → max_int64 (0 ∷ n ∷ 0 ∷ 0 ∷ []) ≡ n
unfolding max_int64
max_of_first n h = ground arith

at_most_small : (m n : ℕ) → m ≤ int64_max → n ≤ m → at_most m n ≡ n
unfolding at_most
at_most_small m n h k = ground arith

module _ (u : Usage) (input : u.input_tokens ≤ int64_max) (output : u.output_tokens ≤ int64_max)
    (parts : u.cached_tokens + u.cache_creation_tokens ≤ u.input_tokens) where
  abbrev back : OpenAiUsage
  back = openai_read (openai_usage_payload (some u))

  cached_back : cached_of back ≡ u.cached_tokens
  unfolding openai_usage_payload cached_of openai_read details_read
  cached_back = ground (
    arith,
    max_of_one u.cached_tokens (omega (arith, input, parts)),
    at_most_small u.input_tokens u.cached_tokens input (omega (arith, parts)),
    at_most_small u.input_tokens 0 input (omega arith),
  )

  write_back : write_of back ≡ u.cache_creation_tokens
  unfolding openai_usage_payload write_of openai_read details_read
  write_back = ground (
    arith,
    max_of_first u.cache_creation_tokens (omega (arith, input, parts)),
    at_most_small u.input_tokens u.cache_creation_tokens input (omega (arith, parts)),
    at_most_small u.input_tokens 0 input (omega arith),
  )

  openai_counts :
      (to_lower : String → String) → envelope_usage to_lower back ≡ record u { credit_used = 0 }
  unfolding openai_usage_payload envelope_usage openai_read first_credit fuzzy_credit
  openai_counts to_lower = cc (cached_back, write_back)

  anthropic_counts :
      envelope (merge no_tokens (anthropic_read (anth_usage u))) ≡ record u { credit_used = 0 }
  unfolding anthropic_read anth_usage envelope merge
  anthropic_counts = ground arith

  responses_counts :
      tokens_of new_parser (some (responses_read (responses_usage_payload (some u))))
      ≡ some (record u { credit_used = 0; cache_creation_tokens = 0 })
  unfolding responses_usage_payload responses_read
  responses_counts = ground arith

  -- In each dialect the SDK's parser reads the token counts that the gateway has written: input,
  -- output, cached and, but for Responses, created cache tokens, as long as the cached and created
  -- ones are parts of the input and no count is negative. The credits are not passed on.
  pub counts_read_back :
      (to_lower : String → String)
      → (envelope_usage to_lower back ≡ record u { credit_used = 0 })
        × (envelope (merge no_tokens (anthropic_read (anth_usage u)))
            ≡ record u { credit_used = 0 })
        × (tokens_of new_parser (some (responses_read (responses_usage_payload (some u))))
            ≡ some (record u { credit_used = 0; cache_creation_tokens = 0 }))
  counts_read_back to_lower = (openai_counts to_lower, anthropic_counts, responses_counts)
