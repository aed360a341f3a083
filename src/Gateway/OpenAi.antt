-- ===== src/Gateway/OpenAi.antt =====
-- internal/gateway/openai.go: envelope events as OpenAI `chat.completion.chunk` frames. A frame
-- stands for one `data:` line, with the fields that the source puts into its JSON object; what
-- `convertEvent` concatenates is a list of frames. `created` is 0 in every chunk, since no code
-- sets it.
pub mod Client
pub mod Roundtrip
pub mod Result
pub mod Agreement
use claw_proxy_hub_next.Base.{
  ℕ, ◌+◌, String, append, Bool, true, false, Option, none, some, List, [], ◌∷◌, ◌++◌, lookup,
  insert,
}
use claw_proxy_hub_next.Gateway.Envelope.{
  Usage, ToolCallDelta, StreamEvent, message_start, content_delta, tool_call_delta, message_finish,
  task_failed, not_set,
}
use claw_proxy_hub_next.Gateway.ToolCalls.{ToolCallTracker, no_calls, resolve}
use claw_proxy_hub_next.Gateway.Usage.{UsagePayload, openai_usage_payload}

-- The `delta` of `choices[0]`. A text delta carries `role: assistant`; a tool call's first delta
-- carries its identifier, `type: function` and its name, which later ones leave out.
pub data Delta : Type 0 where
  content : String → Delta
  reasoning_content : String → Delta
  tool_call : (index : ℕ) → Option (String × String) → (arguments : String) → Delta
  empty : Delta

-- `finish_reason` is left out of the JSON where it is "".
pub data Frame : Type 0 where
  chunk : (id model : String) → Delta → (finish_reason : String) → Frame
  usage_chunk : (id model : String) → UsagePayload → Frame
  error_chunk : (message : String) → Frame
  done : Frame

pub record OpenAiState : Type 0 where
  pub model : String
  pub id : String
  pub tool_idx : List (String × ℕ)
  pub next_idx : ℕ
  pub tools : ToolCallTracker

-- `newOpenAISSEState`; `hex12` is what `randHex(12)` returns.
abbrev pub new_openai_state : String → OpenAiState
new_openai_state hex12 = record {
  model = "";
  id = append "chatcmpl-" hex12;
  tool_idx = [];
  next_idx = 0;
  tools = no_calls;
}

-- `idx, ok := s.toolIdx[id]`
unfoldable pub tool_chunk :
    String → String → String → Option ℕ → OpenAiState → OpenAiState × List Frame
tool_chunk id name arguments none s =
    let idx = s.next_idx in
    (
      record s { next_idx = s.next_idx + 1; tool_idx = insert id idx s.tool_idx },
      chunk s.id s.model (tool_call idx (some (id, name)) arguments) "" ∷ [],
    )
tool_chunk id name arguments (some idx) s =
    (s, chunk s.id s.model (tool_call idx none arguments) "" ∷ [])

unfoldable pub convert_event : String → OpenAiState → StreamEvent → OpenAiState × List Frame
unfolding resolve tool_chunk
convert_event hex s (message_start model) = (record s { model = model }, [])
convert_event hex s (content_delta text true) =
    (s, chunk s.id s.model (reasoning_content text) "" ∷ [])
convert_event hex s (content_delta text false) = (s, chunk s.id s.model (content text) "" ∷ [])
convert_event hex s (tool_call_delta ev) =
    let (tools, id, name) = resolve hex s.tools ev in
    tool_chunk id name ev.arguments_delta (lookup id s.tool_idx) (record s { tools = tools })
convert_event hex s (message_finish reason none) = (s, chunk s.id s.model empty reason ∷ [])
convert_event hex s (message_finish reason (some u)) = (
  s,
  chunk s.id s.model empty reason ∷ usage_chunk s.id s.model (openai_usage_payload (some u)) ∷ [],
)
convert_event hex s (task_failed e detail) = (s, [])
convert_event hex s not_set = (s, [])

-- The frames of a list of events, in order.
unfoldable pub encode : String → OpenAiState → List StreamEvent → OpenAiState × List Frame
encode hex s [] = (s, [])
encode hex s (ev ∷ evs) =
    let (s', frames) = convert_event hex s ev in
    let (t, rest) = encode hex s' evs in (t, frames ++ rest)

unfoldable pub finish : List Frame
finish = done ∷ []

unfoldable pub failure : String → List Frame
failure message = error_chunk message ∷ []
