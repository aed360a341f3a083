-- ===== src/Upstream/OpenAi/Parsing.antt =====
-- `Parser` of sdk/openaiup/openaiup.go. A chunk is the record that `json.Unmarshal` fills: an absent
-- field has the zero value of its type. The raw usage object that `Feed` decodes a second time is a
-- field of the usage.
use claw_proxy_hub_next.Base.{
  ℕ, String, str_eq, append, Bool, true, false, ◌||◌, Option, none, some, List, [], ◌∷◌, ◌++◌,
  if◌then◌else◌, sprint_int,
}
use claw_proxy_hub_next.Gateway.Envelope.{
  Error, ToolCallDelta, StreamEvent, content_delta, tool_call_delta, message_finish, task_failed,
}
use claw_proxy_hub_next.Upstream.Emits.{data_of, and_then, each}
use claw_proxy_hub_next.Upstream.IntMaps.{put, at}
use claw_proxy_hub_next.Upstream.OpenAi.Usage.{OpenAiUsage, envelope_usage}

pub record ToolDelta : Type 0 where
  pub index : ℕ
  pub id : String
  pub name : String
  pub arguments : String

-- A choice, with its `delta`.
pub record Choice : Type 0 where
  pub content : String
  pub reasoning_content : String
  pub reasoning : String
  pub tool_calls : List ToolDelta
  pub finish_reason : Option String

pub record Chunk : Type 0 where
  pub choices : List Choice
  pub usage : Option OpenAiUsage

-- What the caller's `emit` gets is the second part of each step.
pub record Parser : Type 0 where
  pub pending_stop : String
  pub tool_ids : List (ℕ × String)
  pub tool_names : List (ℕ × String)
  pub sent_finish : Bool

abbrev pub Step : Type 0
Step = Parser × List StreamEvent

abbrev pub new_parser : Parser
new_parser = record { pending_stop = ""; tool_ids = []; tool_names = []; sent_finish = false }

unfoldable pub or_default : String → String → String
or_default s def = if str_eq s "" then def else s

-- Writing a name that is not empty.
abbrev pub remember : ℕ → String → List (ℕ × String) → List (ℕ × String)
remember i s m = if str_eq s "" then m else put i s m

-- The identifier of a call that never got one.
abbrev pub or_call : String → ℕ → String
or_call id i = if str_eq id "" then append "call_" (sprint_int i) else id

-- A delta of a call, with the identity that its index has.
unfoldable pub tool_call : Parser → ToolDelta → Step
unfolding put at sprint_int
tool_call p tc =
    let ids = remember tc.index tc.id p.tool_ids in
    let names = remember tc.index tc.name p.tool_names in
    let ev : ToolCallDelta = record {
      id = or_call (at "" tc.index ids) tc.index;
      name = at "" tc.index names;
      arguments_delta = tc.arguments;
    } in
    (record p { tool_ids = ids; tool_names = names }, tool_call_delta ev ∷ [])

-- An event for a text that is not empty.
abbrev pub text_event : String → Bool → List StreamEvent
text_event text reasoning = if str_eq text "" then [] else content_delta text reasoning ∷ []

-- `ReasoningContent` or else `Reasoning`, and then `Content`.
unfoldable pub texts : Choice → List StreamEvent
texts c =
    let rc = if str_eq c.reasoning_content "" then c.reasoning else c.reasoning_content in
    text_event rc true ++ text_event c.content false

-- `Finish`
unfoldable pub close : Parser → List StreamEvent
unfolding or_default
close p = if p.sent_finish then [] else message_finish (or_default p.pending_stop "stop") none ∷ []

-- `FinishWithError`
unfoldable pub fail : ℕ → String → List StreamEvent
fail code message =
    let e : Error = record { code = code; message = message; retryable = false } in
    task_failed (some e) "" ∷ []

module _ (to_lower : String → String) where
  -- `finish`
  unfoldable pub finish : Parser → OpenAiUsage → Step
  unfolding or_default envelope_usage
  finish p u =
      let ev =
        message_finish (or_default p.pending_stop "stop") (some (envelope_usage to_lower u)) in
      if p.sent_finish then (p, []) else (record p { sent_finish = true }, ev ∷ [])

  -- `if chunk.Usage != nil { p.finish(chunk.Usage) }`
  abbrev pub finish_with : Option OpenAiUsage → Parser → Step
  finish_with none p = (p, [])
  finish_with (some u) p = finish p u

  -- A reason that is there and not empty waits for the usage, and ends the message if that is here.
  unfoldable pub note_reason : Option OpenAiUsage → Option String → Parser → Step
  unfolding finish
  note_reason usage none p = (p, [])
  note_reason usage (some reason) p =
      if str_eq reason "" then (p, []) else finish_with usage (record p { pending_stop = reason })

  -- One round of the loop over the choices.
  unfoldable pub feed_choice : Option OpenAiUsage → Parser → Choice → Step
  unfolding texts tool_call note_reason
  feed_choice usage p c =
      and_then (p, texts c)
        λ q. and_then (each tool_call q c.tool_calls) λ q'. note_reason usage c.finish_reason q'

  unfoldable pub feed_chunk : Parser → Option Chunk → Step
  unfolding feed_choice finish
  feed_chunk p none = (p, [])
  feed_chunk p (some chunk) =
      and_then (each (feed_choice chunk.usage) p chunk.choices) (finish_with chunk.usage)

  -- `Feed`: a line that is no data is passed over, and so is the mark of the end.
  module _ (decode : String → Option Chunk) where
    abbrev pub feed_payload : Parser → Option String → Step
    feed_payload p none = (p, [])
    feed_payload p (some payload) =
        if str_eq payload "" || str_eq payload "[DONE]"
        then (p, [])
        else feed_chunk p (decode payload)

    unfoldable pub feed : Parser → String → Step
    unfolding data_of feed_chunk
    feed p line = feed_payload p (data_of line)

    -- The lines of a stream, and then `Finish`.
    unfoldable pub run : List String → Step
    unfolding feed
    run lines = and_then (each feed new_parser lines) (λ p. (p, close p))
