-- ===== src/Gateway/Output.antt =====
-- internal/gateway/output.go: the encoder and the aggregate of a protocol, the streaming and the
-- non-streaming way out, and the part of the request log that they write. A stream is the list of
-- the events that come out of its channel before it closes. `errorDetail` of the log, which copies
-- the upstream's text, is left out.
pub mod Streams
use claw_proxy_hub_next.Base.{
  ℕ, String, str_eq, Bool, true, false, Option, none, some, List, [], ◌∷◌, ◌++◌, map, if◌then◌else◌,
}
use claw_proxy_hub_next.Data.{Account}
use claw_proxy_hub_next.Gateway.Envelope.{
  Usage, Error, StreamEvent, message_start, content_delta, tool_call_delta, message_finish,
  task_failed, not_set,
}
use claw_proxy_hub_next.Gateway.Aggregate.{AggregateCore, new_core, feed}
use claw_proxy_hub_next.Gateway.OpenAi
use claw_proxy_hub_next.Gateway.OpenAi.{OpenAiState, new_openai_state}
use claw_proxy_hub_next.Gateway.Responses
use claw_proxy_hub_next.Gateway.Responses.{ResponsesState, new_responses_state}
use claw_proxy_hub_next.Gateway.Anthropic
use claw_proxy_hub_next.Gateway.Anthropic.{AnthState, new_anth_state}

-- A `streamEncoder`, and a frame of its dialect.
pub data Encoder : Type 0 where
  openai : OpenAiState → Encoder
  responses : ResponsesState → Encoder
  anthropic : AnthState → Encoder

pub data OutFrame : Type 0 where
  openai_frame : OpenAi.Frame → OutFrame
  responses_frame : Responses.Frame → OutFrame
  anthropic_frame : Anthropic.Frame → OutFrame

-- `hex` is the random text of the new encoder's identifier.
unfoldable pub new_encoder : String → String → String → Encoder
new_encoder hex protocol model =
    if str_eq protocol "chat_completions"
    then openai (new_openai_state hex)
    else if str_eq protocol "responses"
    then responses (new_responses_state hex model)
    else anthropic (new_anth_state hex model)

unfoldable pub convert_event : String → Encoder → StreamEvent → Encoder × List OutFrame
convert_event hex (openai s) ev =
    let (t, fs) = OpenAi.convert_event hex s ev in (openai t, map openai_frame fs)
convert_event hex (responses s) ev =
    let (t, fs) = Responses.convert_event hex s ev in (responses t, map responses_frame fs)
convert_event hex (anthropic s) ev =
    let (t, fs) = Anthropic.convert_event hex s ev in (anthropic t, map anthropic_frame fs)

unfoldable pub failure : Encoder → String → List OutFrame
failure (openai s) message = map openai_frame (OpenAi.failure message)
failure (responses s) message = map responses_frame (Responses.failure s message)
failure (anthropic s) message = map anthropic_frame (Anthropic.failure message)

unfoldable pub finish : Encoder → List OutFrame
finish (openai s) = map openai_frame OpenAi.finish
finish (responses s) = []
finish (anthropic s) = []

-- `requestLogCtx`, less what is fixed when the request comes in.
pub record Log : Type 0 where
  pub account : Option Account
  pub model : String
  pub group_id : Option ℕ
  pub attempts : ℕ
  pub status : ℕ
  pub error_type : String
  pub err_brief : String
  pub finish_reason : String
  pub usage : Option Usage

-- `GetMessage` and `GetCode`, which take `nil`.
abbrev pub message_of : Option Error → String
message_of none = ""
message_of (some e) = e.message

abbrev pub code_of : Option Error → ℕ
code_of none = 0
code_of (some e) = e.code

unfoldable pub collect_usage : Log → StreamEvent → Log
collect_usage log (message_finish reason none) = record log { finish_reason = reason }
collect_usage log (message_finish reason (some u)) = record log {
  finish_reason = reason;
  usage = some u;
}
collect_usage log (message_start model) = log
collect_usage log (content_delta text reasoning) = log
collect_usage log (tool_call_delta ev) = log
collect_usage log (task_failed e detail) = log
collect_usage log not_set = log

abbrev pub failed_log : Log → Option Error → Log
failed_log log e = record log {
  status = 502;
  error_type = "upstream_error";
  err_brief = message_of e;
}

-- `emit`: the frames, and whether the stream goes on.
unfoldable pub emit : String → Encoder → Log → StreamEvent → Encoder × Log × List OutFrame × Bool
unfolding convert_event failure collect_usage
emit hex enc log (task_failed e detail) = (enc, failed_log log e, failure enc (message_of e), false)
emit hex enc log ev =
    let (enc', fs) = convert_event hex enc ev in (enc', collect_usage log ev, fs, true)

unfoldable pub emit_all : String → Encoder → Log → List StreamEvent → Encoder × Log × List OutFrame
unfolding emit
emit_all hex enc log [] = (enc, log, [])
emit_all hex enc log (ev ∷ evs) =
    let (enc', log', fs, more) = emit hex enc log ev in
    let (enc'', log'', rest) = emit_all hex enc' log' evs in
    if more then (enc'', log'', fs ++ rest) else (enc', log', fs)

-- `streamOut`: what is written to the client, and the log that is stored.
unfoldable pub stream_out : String → Encoder → Log → List StreamEvent → List OutFrame × Log
unfolding emit_all finish
stream_out hex enc log evs =
    let (enc', log', fs) = emit_all hex enc (record log { status = 200 }) evs in
    (fs ++ finish enc', log')

-- `nonStreamOut`: a failure is handed back with nothing written, a reply is written and logged.
pub data NonStream : Type 0 where
  stopped : (fail_code : ℕ) → (brief : String) → NonStream
  replied : AggregateCore → NonStream

unfoldable pub non_stream_out : String → AggregateCore → Log → List StreamEvent → NonStream × Log
unfolding collect_usage
non_stream_out hex a log [] = (replied a, record log { status = 200 })
non_stream_out hex a log (task_failed e detail ∷ evs) = (stopped (code_of e) (message_of e), log)
non_stream_out hex a log (ev ∷ evs) = non_stream_out hex (feed hex a ev) (collect_usage log ev) evs
