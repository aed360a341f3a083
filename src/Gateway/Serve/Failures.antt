-- ===== src/Gateway/Serve/Failures.antt =====
-- A request without streaming whose plugin fails.
use claw_proxy_hub_next.Base.{
  ℕ, String, false, Option, List, ◌∷◌, ◌++◌, All, ◌≡◌, refl, ◌∙◌, ◌==◌, if◌then◌else◌,
}
use claw_proxy_hub_next.Data.{Route}
use claw_proxy_hub_next.Gateway.Envelope.{
  Error, StreamEvent, message_start, content_delta, tool_call_delta, message_finish, task_failed,
  not_set,
}
use claw_proxy_hub_next.Gateway.Aggregate.{new_core}
use claw_proxy_hub_next.Gateway.Output.{message_of, code_of}
use claw_proxy_hub_next.Gateway.Output.Streams.{IsGood, collect_all, non_stream_out_lem}
use claw_proxy_hub_next.Gateway.Backend.{Backend}
use claw_proxy_hub_next.Gateway.Recovery.{Conn, Request}
use claw_proxy_hub_next.Gateway.Serve.{
  over, nothing, deliver, failed_code, after_aggregate, recover_code,
}

failed_code_good :
    (ev : StreamEvent) (evs : List StreamEvent) → IsGood ev → failed_code (ev ∷ evs) ≡ 0
unfolding failed_code
failed_code_good (task_failed e detail) evs g = absurd g
failed_code_good (message_start model) evs g = refl
failed_code_good (content_delta text reasoning) evs g = refl
failed_code_good (tool_call_delta c) evs g = refl
failed_code_good (message_finish reason usage) evs g = refl
failed_code_good not_set evs g = refl

module _ (b : Backend) where
  deliver_collected :
      (q : Request) (route : Option Route) (n : ℕ) (k : Conn b) (ev : StreamEvent)
      (pre post : List StreamEvent) (e : Option Error) (detail : String)
      → q.stream ≡ false
      → IsGood ev
      → All IsGood pre
      → deliver b q route n k (ev ∷ pre ++ task_failed e detail ∷ post) ≡ (
          if code_of e == 0
          then over (record k { log = collect_all k.log (ev ∷ pre) }) nothing
          else recover_code b q route
              (code_of e)
              n
              (message_of e)
              (record k { log = collect_all k.log (ev ∷ pre) }))
  unfolding deliver after_aggregate
  deliver_collected q route n k ev pre post e detail s g gs =
      rw
        (
          failed_code_good ev (pre ++ task_failed e detail ∷ post) g,
          s,
          (non_stream_out_lem q.hex (new_core k.model) k.log (ev ∷ pre) post e detail (g, gs)).1,
        )
        refl

  -- Without streaming, a failure behind other events is recovered from with its code and message, and
  -- nothing has been written then. A failure with the code 0, or without an error, is not: the
  -- request ends with no reply at all and without a row in the log.
  pub deliver-failed :
      (q : Request) (route : Option Route) (n : ℕ) (k : Conn b) (ev : StreamEvent)
      (pre post : List StreamEvent) (e : Option Error) (detail : String)
      → q.stream ≡ false
      → IsGood ev
      → All IsGood pre
      → let k' : Conn b = record k { log = collect_all k.log (ev ∷ pre) } in
        let v = deliver b q route n k (ev ∷ pre ++ task_failed e detail ∷ post) in
        ((code_of e ≡ 0) → v ≡ over k' nothing)
        × (((code_of e == 0) ≡ false) → v ≡ recover_code b q route (code_of e) n (message_of e) k')
  deliver-failed q route n k ev pre post e detail s g gs = (
    (λ z. deliver_collected q route n k ev pre post e detail s g gs ∙ rw z refl),
    (λ z. deliver_collected q route n k ev pre post e detail s g gs ∙ rw z refl),
  )
