-- ===== src/Gateway/Usage.antt =====
-- Token counts in the three dialects: `openAIUsagePayload` (internal/gateway/openai.go),
-- `responsesUsagePayload` (responses.go) and `anthropicInputTokens` with the usage objects of
-- anthropic.go. An optional field is one that the source sets under a condition.
use claw_proxy_hub_next.Base.{
  ℕ, ◌+◌, ◌≤◌, ◌≡◌, ◌||◌, Option, none, some, arith, if◌then◌else◌, add64, sub64, negative64,
  positive64, int64_max,
}
use claw_proxy_hub_next.Gateway.Envelope.{Usage, no_usage}

pub record CacheDetails : Type 0 where
  pub cached_tokens : ℕ
  pub cache_write_tokens : Option ℕ

pub record UsagePayload : Type 0 where
  pub input : ℕ
  pub output : ℕ
  pub total : ℕ
  pub details : Option CacheDetails

-- `u == nil` counts as no tokens.
abbrev pub usage_or_zero : Option Usage → Usage
usage_or_zero none = no_usage
usage_or_zero (some u) = u

payload_of : Usage → UsagePayload
payload_of u =
    let write = if positive64 u.cache_creation_tokens then some u.cache_creation_tokens else none in
    record {
      input = u.input_tokens;
      output = u.output_tokens;
      total = add64 u.input_tokens u.output_tokens;
      details =
          if positive64 u.cached_tokens || positive64 u.cache_creation_tokens
          then some (record { cached_tokens = u.cached_tokens; cache_write_tokens = write })
          else none;
    }

-- `prompt_tokens`, `completion_tokens`, `total_tokens` and `prompt_tokens_details`.
unfoldable pub openai_usage_payload : Option Usage → UsagePayload
unfolding payload_of
openai_usage_payload u = payload_of (usage_or_zero u)

-- `input_tokens`, `output_tokens`, `total_tokens` and `input_tokens_details`.
unfoldable pub responses_usage_payload : Option Usage → UsagePayload
unfolding payload_of
responses_usage_payload u = payload_of (usage_or_zero u)

unfoldable pub anthropic_input_tokens : Option Usage → ℕ
anthropic_input_tokens none = 0
anthropic_input_tokens (some u) =
    let rest = sub64 (sub64 u.input_tokens u.cached_tokens) u.cache_creation_tokens in
    if negative64 rest then 0 else rest

pub record AnthUsage : Type 0 where
  pub input_tokens : ℕ
  pub output_tokens : Option ℕ
  pub cache_read_input_tokens : Option ℕ
  pub cache_creation_input_tokens : Option ℕ

abbrev when_positive : ℕ → Option ℕ
when_positive n = if positive64 n then some n else none

-- The usage object of `anthAggregate.result` and of a `message_delta` that carries usage.
unfoldable pub anth_usage : Usage → AnthUsage
unfolding anthropic_input_tokens
anth_usage u = record {
  input_tokens = anthropic_input_tokens (some u);
  output_tokens = some u.output_tokens;
  cache_read_input_tokens = when_positive u.cached_tokens;
  cache_creation_input_tokens = when_positive u.cache_creation_tokens;
}

abbrev pub count_or_zero : Option ℕ → ℕ
count_or_zero none = 0
count_or_zero (some n) = n

-- An Anthropic client that adds the input, cache-read and cache-creation counts it is sent gets the
-- envelope's input count back, if the cached and the created tokens are parts of that input.
pub anth_usage_conserves :
    (u : Usage)
    → u.input_tokens ≤ int64_max
    → u.cached_tokens + u.cache_creation_tokens ≤ u.input_tokens
    → let a = anth_usage u in
      a.input_tokens
        + count_or_zero a.cache_read_input_tokens
        + count_or_zero a.cache_creation_input_tokens
      ≡ u.input_tokens
unfolding anth_usage
anth_usage_conserves u h k = ground arith

-- The input count sent to an Anthropic client is never negative, whatever the plugin reported.
pub anthropic_input_tokens_nonneg : (u : Option Usage) → anthropic_input_tokens u ≤ int64_max
unfolding anthropic_input_tokens
anthropic_input_tokens_nonneg none = omega arith
anthropic_input_tokens_nonneg (some u) = ground arith
