-- ===== src/Gateway/Examples.antt =====
-- Runs of the encoders and of the usage objects on small inputs.
use claw_proxy_hub_next.Base.{String, true, false, Option, none, some, List, [], ◌∷◌, ◌++◌, ◌≡◌}
use claw_proxy_hub_next.Gateway.Envelope.{
  Usage, Error, StreamEvent, message_start, content_delta, tool_call_delta, message_finish,
  task_failed,
}
use claw_proxy_hub_next.Gateway.Aggregate.{new_core, feed_all, tools_in_order}
use claw_proxy_hub_next.Gateway.Reply.{no_reply}
use claw_proxy_hub_next.Gateway.OpenAi
use claw_proxy_hub_next.Gateway.OpenAi.Client
use claw_proxy_hub_next.Gateway.OpenAi.Result.{result}
use claw_proxy_hub_next.Gateway.OpenAi.Agreement.{Reads, encode-Reads}
use claw_proxy_hub_next.Gateway.Responses
use claw_proxy_hub_next.Gateway.Responses.Outputs.{Delivers, finish-Delivers}
use claw_proxy_hub_next.Gateway.Anthropic
use claw_proxy_hub_next.Gateway.Anthropic.Sessions.{Completes, encode-Completes}
use claw_proxy_hub_next.Gateway.Prepare.{new_log}
use claw_proxy_hub_next.Gateway.Output.{Log, new_encoder, stream_out, finish, failure, failed_log}
use claw_proxy_hub_next.Gateway.Output.Streams.{encode, collect_all, stream_out-failed}

abbrev call : String → String → StreamEvent
call id arguments = tool_call_delta (record { id = id; name = "look"; arguments_delta = arguments })

-- A text and two calls, whose arguments alternate.
abbrev reply_events : List StreamEvent
reply_events =
    content_delta "let me" true
    ∷ content_delta "Hi" false
    ∷ call "a" "{"
    ∷ call "b" "["
    ∷ call "a" "}"
    ∷ call "b" "]"
    ∷ []

encode-Completes_example :
    let (s, frames) =
      Anthropic.encode "h" (Anthropic.new_anth_state "id" "") (message_start "m" ∷ reply_events) in
    Completes
      (frames ++ (Anthropic.convert_event "h" s (message_finish "stop" none)).1)
      (feed_all "h" (new_core "") (message_start "m" ∷ reply_events))
encode-Completes_example =
    encode-Completes "h" "id" "m" "" "stop" reply_events none (tt, (tt, (tt, (tt, (tt, (tt, tt))))))

encode-Reads_example :
    Reads
      (OpenAi.Client.assemble no_reply
        (OpenAi.encode "h" (OpenAi.new_openai_state "id") reply_events).1)
      (result (feed_all "h" (new_core "m") reply_events)).message
encode-Reads_example = encode-Reads "h" "id" "m" reply_events

finish-Delivers_example :
    let s = (Responses.encode "h" (Responses.new_responses_state "id" "m") reply_events).0 in
    let c = feed_all "h" (new_core "m") reply_events in
    Delivers c.text c.reasoning
      (tools_in_order c)
      (Responses.convert_event "h" s (message_finish "stop" none)).1
finish-Delivers_example = finish-Delivers "h" "id" "m" "m" "stop" reply_events none

abbrev cached_usage : Usage
cached_usage = record {
  input_tokens = 100;
  output_tokens = 7;
  cached_tokens = 60;
  credit_used = 0;
  cache_creation_tokens = 30;
}

abbrev empty_log : Log
empty_log = new_log none "m" none

abbrev text_events : List StreamEvent
text_events = content_delta "Hi" false ∷ message_finish "stop" none ∷ []

abbrev upstream_error : Option Error
upstream_error = some (record { code = 500; message = "overloaded"; retryable = false })

stream_out-failed_example :
    let (enc', fs) = encode "h" (new_encoder "h" "messages" "m") text_events in
    stream_out "h"
      (new_encoder "h" "messages" "m")
      empty_log
      (text_events ++ task_failed upstream_error "" ∷ text_events)
    ≡ (
      (fs ++ failure enc' "overloaded") ++ finish enc',
      failed_log (collect_all (record empty_log { status = 200 }) text_events) upstream_error,
    )
stream_out-failed_example =
    stream_out-failed "h" (new_encoder "h" "messages" "m") empty_log text_events text_events
      upstream_error "" (tt, (tt, tt))
