-- ===== src/Upstream/Anthropic.antt =====
-- sdk/anthropicup/anthropicup.go: `Parser`, the lines of an Anthropic-compatible upstream as envelope
-- events. What `json.Unmarshal` makes of a payload is the argument `decode`. An event is the record
-- that it fills: an absent field has Go's zero value.
pub mod Endings
use claw_proxy_hub_next.Base.{
  ℕ, String, str_eq, Bool, true, false, ◌||◌, Option, none, some, List, [], ◌∷◌, if◌then◌else◌,
  gt64, add64,
}
use claw_proxy_hub_next.Gateway.Envelope.{
  Usage, Error, ToolCallDelta, StreamEvent, message_start, content_delta, tool_call_delta,
  message_finish, task_failed,
}
use claw_proxy_hub_next.Upstream.Emits.{data_of, and_then, each}
use claw_proxy_hub_next.Upstream.IntMaps.{put, at}

-- `anthropicUsage`: here the input does not count what the cache gave or took.
pub record AnthropicUsage : Type 0 where
  pub input : ℕ
  pub cache_read : ℕ
  pub cache_create : ℕ
  pub output : ℕ

pub record BlockInfo : Type 0 where
  pub kind : String
  pub id : String
  pub name : String

-- `usage` is the object of `message_start` or of `message_delta`, whichever the event is.
pub record UpstreamEvent : Type 0 where
  pub type : String
  pub index : ℕ
  pub model : String
  pub block : BlockInfo
  pub delta_type : String
  pub text : String
  pub partial_json : String
  pub stop_reason : String
  pub usage : AnthropicUsage

pub record Parser : Type 0 where
  pub blocks : List (ℕ × BlockInfo)
  pub pending : AnthropicUsage
  pub sent_finish : Bool

abbrev pub Step : Type 0
Step = Parser × List StreamEvent

abbrev pub no_tokens : AnthropicUsage
no_tokens = record { input = 0; cache_read = 0; cache_create = 0; output = 0 }

abbrev pub no_block : BlockInfo
no_block = record { kind = ""; id = ""; name = "" }

abbrev pub new_parser : Parser
new_parser = record { blocks = []; pending = no_tokens; sent_finish = false }

abbrev larger64 : ℕ → ℕ → ℕ
larger64 src n = if gt64 src n then src else n

unfoldable pub merge : AnthropicUsage → AnthropicUsage → AnthropicUsage
merge u src = record {
  input = larger64 src.input u.input;
  cache_read = larger64 src.cache_read u.cache_read;
  cache_create = larger64 src.cache_create u.cache_create;
  output = larger64 src.output u.output;
}

-- `envelope`: the envelope's input counts everything.
unfoldable pub envelope : AnthropicUsage → Usage
envelope u = record {
  input_tokens = add64 (add64 u.input u.cache_read) u.cache_create;
  output_tokens = u.output;
  cached_tokens = u.cache_read;
  credit_used = 0;
  cache_creation_tokens = u.cache_create;
}

unfoldable pub map_stop : String → String
map_stop reason =
    if str_eq reason "tool_use"
    then "tool_calls"
    else if str_eq reason "max_tokens"
    then "length"
    else "stop"

-- `finish`
unfoldable pub finish : Parser → String → Step
unfolding envelope
finish p reason =
    let reason = if str_eq reason "tool_use" then "tool_calls" else reason in
    if p.sent_finish
    then (p, [])
    else (record p { sent_finish = true }, message_finish reason (some (envelope p.pending)) ∷ [])

-- `case "content_block_delta"`
unfoldable pub block_delta : Parser → UpstreamEvent → List StreamEvent
unfolding at
block_delta p ev =
    let info = at no_block ev.index p.blocks in
    let call : ToolCallDelta = record {
      id = info.id;
      name = info.name;
      arguments_delta = ev.partial_json;
    } in
    if str_eq ev.delta_type "text_delta"
    then content_delta ev.text false ∷ []
    else if str_eq ev.delta_type "input_json_delta"
    then tool_call_delta call ∷ []
    else []

-- `case "message_delta"`
unfoldable pub message_delta : Parser → UpstreamEvent → Step
unfolding merge finish map_stop
message_delta p ev =
    let p' : Parser = record p { pending = merge p.pending ev.usage } in
    if str_eq ev.stop_reason "" then (p', []) else finish p' (map_stop ev.stop_reason)

-- The usage of a `message_start` has no output tokens.
unfoldable pub feed_event : Parser → UpstreamEvent → Step
unfolding merge put block_delta message_delta finish
feed_event p ev =
    let start : AnthropicUsage = record (ev.usage) { output = 0 } in
    if str_eq ev.type "message_start"
    then (record p { pending = merge p.pending start }, message_start ev.model ∷ [])
    else if str_eq ev.type "content_block_start"
    then (record p { blocks = put ev.index ev.block p.blocks }, [])
    else if str_eq ev.type "content_block_delta"
    then (p, block_delta p ev)
    else if str_eq ev.type "message_delta"
    then message_delta p ev
    else if str_eq ev.type "message_stop"
    then finish p "stop"
    else (p, [])

-- `Finish`
unfoldable pub close : Parser → List StreamEvent
close p = if p.sent_finish then [] else message_finish "stop" none ∷ []

-- `FinishWithError`
unfoldable pub fail : ℕ → String → List StreamEvent
fail code message =
    let e : Error = record { code = code; message = message; retryable = false } in
    task_failed (some e) "" ∷ []

module _ (decode : String → Option UpstreamEvent) where
  abbrev feed_decoded : Parser → Option UpstreamEvent → Step
  feed_decoded p none = (p, [])
  feed_decoded p (some ev) = feed_event p ev

  abbrev pub feed_payload : Parser → Option String → Step
  feed_payload p none = (p, [])
  feed_payload p (some payload) =
      if str_eq payload "" then (p, []) else feed_decoded p (decode payload)

  -- `Feed`
  unfoldable pub feed : Parser → String → Step
  unfolding data_of feed_event
  feed p line = feed_payload p (data_of line)

  -- The lines of a stream, and then `Finish`.
  unfoldable pub run : List String → Step
  unfolding feed close
  run lines = and_then (each feed new_parser lines) (λ p. (p, close p))
