-- ===== src/Gateway/Serve.antt =====
-- `serve` of internal/gateway/server.go: the attempts, what a failed one does, and the way out.
pub mod Attempts
pub mod Failures
use claw_proxy_hub_next.Base.{
  ℕ, zero, suc, ◌+◌, ◌*◌, String, str_eq, Bool, true, false, not, ◌&&◌, ◌||◌, Option, none, some,
  List, [], ◌∷◌, ltb, leb, ◌==◌, if◌then◌else◌,
}
use claw_proxy_hub_next.Data.{Account, Route, CredentialBlob}
use claw_proxy_hub_next.Router.Resolved.{
  Resolved, Resolution, not_a_route, forbidden, broken, found,
}
use claw_proxy_hub_next.Gateway.Envelope.{StreamEvent, task_failed}
use claw_proxy_hub_next.Gateway.Aggregate.{AggregateCore, new_core}
use claw_proxy_hub_next.Gateway.Output.{
  Log, OutFrame, new_encoder, stream_out, NonStream, stopped, replied, non_stream_out, message_of,
  code_of,
}
use claw_proxy_hub_next.Gateway.Backend.{
  Backend, ChatOutcome, channel_error, silent, opened, RefreshOutcome, refreshed, auth_failure,
  refresh_error, build_cred,
}
use claw_proxy_hub_next.Gateway.Recovery.{
  ErrorText, Refusal, brief_of, upstream, no_active_account, no_events_in_time, Request, Conn,
  recover_from,
}
use claw_proxy_hub_next.Gateway.Prepare.{Prepared, refused, ready, prepare}

-- `firstEventTimeout`, in nanoseconds: the route's, the settings' (`none` where there are none),
-- or 90 seconds.
abbrev ninety_seconds : ℕ
ninety_seconds = 90 * 1_000_000_000

abbrev global_timeout : Option ℕ → ℕ
global_timeout none = ninety_seconds
global_timeout (some d) = if ltb 0 d then d else ninety_seconds

unfoldable pub first_event_timeout : Option Route → Option ℕ → ℕ
first_event_timeout none settings = global_timeout settings
first_event_timeout (some r) settings =
    if ltb 0 r.timeout_seconds then r.timeout_seconds * 1_000_000_000 else global_timeout settings

-- `failedCode` and `failedBrief` of the first event, if there is one.
unfoldable pub failed_code : List StreamEvent → ℕ
failed_code (task_failed e detail ∷ evs) = code_of e
failed_code _ = 0

unfoldable pub failed_brief : List StreamEvent → String
failed_brief (task_failed e detail ∷ evs) = message_of e
failed_brief _ = ""

-- What is written to the client. An error reply, a stream and a JSON reply come with a row of the
-- request log; `nothing` comes with none.
pub data Response : Type 0 where
  error_reply : (status : ℕ) → (error_type : String) → ErrorText → Response
  stream_reply : List OutFrame → Response
  json_reply : AggregateCore → Response
  nothing : Response

module _ (b : Backend) where
  open b use {World, chat}

  pub data Verdict : Type 0 where
    again : Conn b → Verdict
    over : Conn b → Response → Verdict

  -- `failWith`: the log is written with the reply.
  unfoldable pub fail_with : Conn b → ℕ → String → ErrorText → Verdict
  unfolding brief_of
  fail_with k status error_type text =
      over
        (record k {
          log = record k.log {
            status = status;
            error_type = error_type;
            err_brief = brief_of text;
          };
        })
        (error_reply status error_type text)

  unfoldable pub finish_unrecovered : Conn b → ℕ → String → Option ErrorText → Verdict
  unfolding fail_with
  finish_unrecovered k code brief (some e) = fail_with k 502 "upstream_error" e
  finish_unrecovered k code brief none =
      if code == 401
      then fail_with k 503 "api_error" no_active_account
      else fail_with k 502 "api_error" (upstream brief)

  -- `continue` on a recovery, and otherwise the end that is given.
  abbrev pub retry_or :
      Conn b × Bool × Option ErrorText → (Conn b → Option ErrorText → Verdict) → Verdict
  retry_or (k, retry, transient) give_up = if retry then again k else give_up k transient

  unfoldable pub recover_code : Request → Option Route → ℕ → ℕ → String → Conn b → Verdict
  unfolding recover_from finish_unrecovered
  recover_code q route code attempt brief k =
      retry_or (recover_from b q route code attempt brief k.account k)
        (λ k' transient. finish_unrecovered k' code brief transient)

  unfoldable pub after_aggregate : Request → Option Route → ℕ → Conn b → NonStream → Verdict
  unfolding recover_code
  after_aggregate q route attempt k (replied a) = over k (json_reply a)
  after_aggregate q route attempt k (stopped code brief) =
      if code == 0 then over k nothing else recover_code q route code attempt brief k

  -- What is done with the events of an opened stream.
  unfoldable pub deliver : Request → Option Route → ℕ → Conn b → List StreamEvent → Verdict
  unfolding recover_code after_aggregate failed_code failed_brief
  deliver q route attempt k evs =
      if failed_code evs == 0
      then (if q.stream
          then (let (frames, log) =
                stream_out q.hex (new_encoder q.hex q.protocol k.model) k.log evs in
              over (record k { log = log }) (stream_reply frames))
          else (let (result, log) = non_stream_out q.hex (new_core k.model) k.log evs in
              after_aggregate q route attempt (record k { log = log }) result))
      else recover_code q route (failed_code evs) attempt (failed_brief evs) k

  unfoldable pub take_outcome : Request → Option Route → ℕ → Conn b → ChatOutcome → Verdict
  unfolding recover_from fail_with deliver
  take_outcome q route attempt k (channel_error message) =
      retry_or (recover_from b q route 502 attempt message k.account k)
        (λ k' _. fail_with k' 502 "upstream_error" (upstream message))
  take_outcome q route attempt k silent =
      retry_or (recover_from b q route 504 attempt "" k.account k)
        (λ k' _. fail_with k' 504 "upstream_error" (no_events_in_time q.timeout))
  take_outcome q route attempt k (opened evs) = deliver q route attempt k evs

  -- One round of the loop.
  unfoldable pub attempt_once : Request → Option Route → ℕ → Conn b → Verdict
  unfolding take_outcome
  attempt_once q route attempt k =
      let (w, outcome) = chat k.world k.model k.plugin_name k.cred in
      take_outcome q route attempt
        (record k { world = w; log = record k.log { attempts = attempt + 1 } }) outcome

  -- The loop, on fuel; `none` means that the fuel ran out.
  unfoldable pub attempts_from :
      ℕ → Request → Option Route → ℕ → Conn b → Option (Conn b × Response)
  attempts_from zero q route attempt k = none
  attempts_from (suc fuel) q route attempt k = elim (attempt_once q route attempt k) [
    | again k' ↦ attempts_from fuel q route (attempt + 1) k'
    | over k' r ↦ some (k', r)
  ]

  pub data Served : Type 0 where
    turned_away : (status : ℕ) → (error_type : String) → Refusal → Served
    answered : Conn b → Response → Served

  abbrev pub answer : Option (Conn b × Response) → Option Served
  answer none = none
  answer (some (k, r)) = some (answered k r)

  unfoldable pub after_prepare : ℕ → Request → Prepared b → Option Served
  unfolding attempts_from
  after_prepare fuel q (refused status error_type text) = some (turned_away status error_type text)
  after_prepare fuel q (ready route k) = answer (attempts_from fuel q route 0 k)

  unfoldable pub serve : ℕ → Request → World → Option Served
  unfolding after_prepare
  serve fuel q w = after_prepare fuel q (prepare b q w)
