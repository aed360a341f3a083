-- ===== src/Upstream/Examples.antt =====
-- The parsers of the SDK at work, and the properties of the tree Upstream at concrete inputs.
use claw_proxy_hub_next.Base.{
  ◌≤◌, String, str_eq, false, Option, none, some, List, [], ◌∷◌, All, ◌≡◌, refl, arith,
  if◌then◌else◌, trim_space, trim_prefix, contains,
}
use claw_proxy_hub_next.Gateway.Envelope.{
  Usage, StreamEvent, message_start, content_delta, tool_call_delta, message_finish,
}
use claw_proxy_hub_next.Gateway.Aggregate.{new_core, feed_all}
use claw_proxy_hub_next.Gateway.Reply.{reply_of}
use claw_proxy_hub_next.Gateway.OpenAi.{new_openai_state, encode}
use claw_proxy_hub_next.Gateway.Usage.{openai_usage_payload, responses_usage_payload, anth_usage}
use claw_proxy_hub_next.Upstream.Emits.{total, is_finish, is_end, is_start, HasId}
use claw_proxy_hub_next.Upstream.OpenAi.Parsing
use claw_proxy_hub_next.Upstream.OpenAi.Parsing.{Choice, Chunk}
use claw_proxy_hub_next.Upstream.OpenAi.Usage.{envelope_usage}
use claw_proxy_hub_next.Upstream.OpenAi.Credits.{
  RawFields, no_fields, field, object, number, fuzzy_credit, weigh_number, is_credit_name,
  is_balance_name, is_spent_name,
}
use claw_proxy_hub_next.Upstream.OpenAi.Orders.{swap, fuzzy_credit-SameFields}
use claw_proxy_hub_next.Upstream.Anthropic
use claw_proxy_hub_next.Upstream.Responses
use claw_proxy_hub_next.Upstream.Anthropic.{envelope, merge, no_tokens, no_block}
use claw_proxy_hub_next.Upstream.Responses.{tokens_of}
use claw_proxy_hub_next.Upstream.Usages.{
  openai_read, responses_read, anthropic_read, counts_read_back,
}
use claw_proxy_hub_next.Upstream.Chained.{parse}
use claw_proxy_hub_next.Upstream.Chained.Replies.{reply_of-parse}
use claw_proxy_hub_next.Upstream.Endings.{streams_end_once}

abbrev same : String → String
same s = s

abbrev events : List StreamEvent
events =
    message_start "m"
    ∷ content_delta "hello" false
    ∷ tool_call_delta (record { id = "call_1"; name = "look"; arguments_delta = "{" })
    ∷ tool_call_delta (record { id = ""; name = ""; arguments_delta = "}" })
    ∷ message_finish "tool_calls" none
    ∷ []

reply_of-parse_example :
    reply_of (
      feed_all "ff"
        (new_core "b")
        (parse same Parsing.new_parser (encode "ab" (new_openai_state "0123") events).1).1)
    ≡ reply_of (feed_all "ab" (new_core "a") events)
reply_of-parse_example = reply_of-parse same "ab" "ff" "0123" "a" "b" events

abbrev counted : Usage
counted = record {
  input_tokens = 100;
  output_tokens = 20;
  cached_tokens = 60;
  credit_used = 7;
  cache_creation_tokens = 30;
}

counts_read_back_example :
    (envelope_usage same (openai_read (openai_usage_payload (some counted)))
      ≡ record counted { credit_used = 0 })
    × (envelope (merge no_tokens (anthropic_read (anth_usage counted)))
        ≡ record counted { credit_used = 0 })
    × (tokens_of Responses.new_parser
          (some (responses_read (responses_usage_payload (some counted))))
        ≡ some (record counted { credit_used = 0; cache_creation_tokens = 0 }))
counts_read_back_example = counts_read_back counted (omega arith) (omega arith) (omega arith) same

-- Three lines of an upstream, the last without meaning.
abbrev lines : List String
lines = "data: a" ∷ "event: x" ∷ " data: b " ∷ []

abbrev hello : Choice
hello = record {
  content = "hello";
  reasoning_content = "";
  reasoning = "";
  tool_calls = record { index = 2; id = ""; name = "look"; arguments = "{}" } ∷ [];
  finish_reason = some "tool_calls";
}

abbrev chunks : String → Option Chunk
chunks s = if str_eq s "a" then some (record { choices = hello ∷ []; usage = none }) else none

abbrev quiet : Anthropic.UpstreamEvent
quiet = record {
  type = "message_stop";
  index = 0;
  model = "";
  block = no_block;
  delta_type = "";
  text = "";
  partial_json = "";
  stop_reason = "";
  usage = no_tokens;
}

abbrev failing : Responses.UpstreamEvent
failing = record {
  type = "error";
  model = "";
  delta = "";
  index = 0;
  item_id = "";
  call_id = "";
  arguments = "";
  item = record { type = ""; id = ""; call_id = ""; name = ""; arguments = "" };
  response_model = "";
  usage = none;
  incomplete_reason = "";
  response_error = none;
  error = some "overloaded";
}

abbrev always {ℓ} : {A : Type ℓ} → A → String → Option A
always x s = some x

named_after_index :
    (Parsing.run same chunks lines).1
    ≡ content_delta "hello" false
      ∷ tool_call_delta (record { id = "call_2"; name = "look"; arguments_delta = "{}" })
      ∷ message_finish "tool_calls" none
      ∷ []
unfolding Parsing.run Parsing.close trim_space trim_prefix
named_after_index = refl

streams_end_once_example :
    (total is_finish (Parsing.run same chunks lines).1 ≡ 1)
    × All HasId (Parsing.run same chunks lines).1
    × (total is_finish (Anthropic.run (always quiet) lines).1 ≡ 1)
    × (total is_end (Responses.run (always failing) lines).1 ≡ 1)
    × (total is_start (Responses.run (always failing) lines).1 ≤ 1)
streams_end_once_example = streams_end_once same chunks (always quiet) (always failing) lines

abbrev credits : RawFields
credits =
    field "credit_used" (number 5)
      (field "details" (object (field "points_spent" (number 9) no_fields)) no_fields)

abbrev credits' : RawFields
credits' =
    field "details" (object (field "points_spent" (number 9) no_fields))
      (field "credit_used" (number 5) no_fields)

fuzzy_credit-SameFields_example : fuzzy_credit same credits 0 ≡ fuzzy_credit same credits' 0
fuzzy_credit-SameFields_example = fuzzy_credit-SameFields same credits credits' 0 (
    swap "credit_used" "details" (number 5) (object (field "points_spent" (number 9) no_fields))
      no_fields)

most_of_all : fuzzy_credit same credits 0 ≡ 9
unfolding fuzzy_credit weigh_number is_credit_name is_balance_name is_spent_name contains
most_of_all = refl
