-- ===== src/Gateway/Output/Streams.antt =====
-- A stream that fails, and one that does not, on both ways out.
use claw_proxy_hub_next.Base.{String, ◌≡◌, refl, subst, ◌∙◌, Option, List, [], ◌∷◌, ◌++◌, All}
use mathlib.Core.List.{append-nil, append_assoc}
use claw_proxy_hub_next.Gateway.Envelope.{
  Error, StreamEvent, message_start, content_delta, tool_call_delta, message_finish, task_failed,
  not_set,
}
use claw_proxy_hub_next.Gateway.Aggregate.{AggregateCore, feed, feed_all}
use claw_proxy_hub_next.Gateway.Output.{
  Encoder, OutFrame, convert_event, failure, finish, Log, message_of, code_of, collect_usage,
  failed_log, emit_all, stream_out, stopped, replied, non_stream_out,
}

-- Any event but a failure.
abbrev pub IsGood : StreamEvent → Type 0
IsGood (task_failed e detail) = ⊥
IsGood ev = Unit

-- The encoder's frames for a list of events.
unfoldable pub encode : String → Encoder → List StreamEvent → Encoder × List OutFrame
encode hex enc [] = (enc, [])
encode hex enc (ev ∷ evs) =
    let (enc', fs) = convert_event hex enc ev in
    let (enc'', rest) = encode hex enc' evs in (enc'', fs ++ rest)

unfoldable pub collect_all : Log → List StreamEvent → Log
collect_all log [] = log
collect_all log (ev ∷ evs) = collect_all (collect_usage log ev) evs

emit_all_good :
    (hex : String) (enc : Encoder) (log : Log) (ev : StreamEvent) (evs : List StreamEvent)
    → IsGood ev
    → let (enc', fs) = convert_event hex enc ev in
      let (enc'', log'', gs) = emit_all hex enc' (collect_usage log ev) evs in
      emit_all hex enc log (ev ∷ evs) ≡ (enc'', log'', fs ++ gs)
unfolding emit_all
emit_all_good hex enc log (task_failed e detail) evs g = absurd g
emit_all_good hex enc log (message_start model) evs g = refl
emit_all_good hex enc log (content_delta text reasoning) evs g = refl
emit_all_good hex enc log (tool_call_delta ev) evs g = refl
emit_all_good hex enc log (message_finish reason usage) evs g = refl
emit_all_good hex enc log not_set evs g = refl

emit_all-prefix :
    (hex : String) (enc : Encoder) (log : Log) (pre rest : List StreamEvent)
    → All IsGood pre
    → let (enc', fs) = encode hex enc pre in
      let (enc'', log'', gs) = emit_all hex enc' (collect_all log pre) rest in
      emit_all hex enc log (pre ++ rest) ≡ (enc'', log'', fs ++ gs)
unfolding encode collect_all
emit_all-prefix hex enc log [] rest g = refl
emit_all-prefix hex enc log (ev ∷ pre) rest g =
    let (enc', fs) = convert_event hex enc ev in
    let log' = collect_usage log ev in
    emit_all_good hex enc log ev (pre ++ rest) g.0
    ∙ rw (emit_all-prefix hex enc' log' pre rest g.1, append_assoc)

-- A stream without a failure: the client gets the frames of every event and the closing frames,
-- and the log says 200 with the finish reason and the usage of the events.
pub stream_out-good :
    (hex : String) (enc : Encoder) (log : Log) (evs : List StreamEvent)
    → All IsGood evs
    → let (enc', fs) = encode hex enc evs in
      stream_out hex enc log evs
      ≡ (fs ++ finish enc', collect_all (record log { status = 200 }) evs)
unfolding stream_out
stream_out-good hex enc log evs g =
    rw
      (← append-nil evs, emit_all-prefix hex enc (record log { status = 200 }) evs [] g, append-nil)
      (rw (append-nil evs))

-- A failure in a stream, whatever follows it: the client gets the frames of the events before it,
-- one error of its own dialect with the upstream's message, the closing frames, and nothing of the
-- events behind it; the log says 502, `upstream_error` and that message.
pub stream_out-failed :
    (hex : String) (enc : Encoder) (log : Log) (pre post : List StreamEvent) (e : Option Error)
    (detail : String)
    → All IsGood pre
    → let (enc', fs) = encode hex enc pre in
      stream_out hex enc log (pre ++ task_failed e detail ∷ post) ≡ (
        (fs ++ failure enc' (message_of e)) ++ finish enc',
        failed_log (collect_all (record log { status = 200 }) pre) e,
      )
unfolding stream_out
stream_out-failed hex enc log pre post e detail g =
    rw (emit_all-prefix hex enc (record log { status = 200 }) pre (task_failed e detail ∷ post) g)

non_stream_out-prefix :
    (hex : String) (a : AggregateCore) (log : Log) (pre rest : List StreamEvent)
    → All IsGood pre
    → non_stream_out hex a log (pre ++ rest)
      ≡ non_stream_out hex (feed_all hex a pre) (collect_all log pre) rest
unfolding non_stream_out feed_all collect_all
non_stream_out-prefix hex a log [] rest g = refl
non_stream_out-prefix hex a log (task_failed e detail ∷ pre) rest g = absurd g.0
non_stream_out-prefix hex a log (message_start model ∷ pre) rest g =
    non_stream_out-prefix hex (feed hex a (message_start model)) log pre rest g.1
non_stream_out-prefix hex a log (content_delta text reasoning ∷ pre) rest g =
    non_stream_out-prefix hex (feed hex a (content_delta text reasoning)) log pre rest g.1
non_stream_out-prefix hex a log (tool_call_delta ev ∷ pre) rest g =
    non_stream_out-prefix hex (feed hex a (tool_call_delta ev)) log pre rest g.1
non_stream_out-prefix hex a log (message_finish reason usage ∷ pre) rest g =
    non_stream_out-prefix hex (feed hex a (message_finish reason usage))
      (collect_usage log (message_finish reason usage)) pre rest g.1
non_stream_out-prefix hex a log (not_set ∷ pre) rest g =
    non_stream_out-prefix hex (feed hex a not_set) log pre rest g.1

-- Without streaming, events without a failure are answered with the aggregate of all of them and
-- logged as 200; with a failure, whatever follows it, nothing is written, and its code and message
-- are handed back.
pub non_stream_out_lem :
    (hex : String) (a : AggregateCore) (log : Log) (pre post : List StreamEvent) (e : Option Error)
    (detail : String)
    → All IsGood pre
    → (non_stream_out hex a log pre
        ≡ (replied (feed_all hex a pre), record (collect_all log pre) { status = 200 }))
      × (non_stream_out hex a log (pre ++ task_failed e detail ∷ post)
          ≡ (stopped (code_of e) (message_of e), collect_all log pre))
unfolding non_stream_out
non_stream_out_lem hex a log pre post e detail g = (
  subst
      (λ (x : List StreamEvent).
        non_stream_out hex a log x
        ≡ (replied (feed_all hex a pre), record (collect_all log pre) { status = 200 }))
      (append-nil pre) (non_stream_out-prefix hex a log pre [] g),
  non_stream_out-prefix hex a log pre (task_failed e detail ∷ post) g,
)
