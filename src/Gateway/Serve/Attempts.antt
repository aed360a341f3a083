-- ===== src/Gateway/Serve/Attempts.antt =====
-- The loop of `serve` ends, within four calls of a plugin.
use claw_proxy_hub_next.Base.{
  ℕ, zero, suc, ◌+◌, ◌<◌, String, Bool, true, false, Option, none, some, List, ◌≡◌, refl, subst,
  ◌⊎◌, inl, inr, ◌==◌, chosen, arith,
}
use claw_proxy_hub_next.Data.{Route}
use claw_proxy_hub_next.Gateway.Envelope.{StreamEvent}
use claw_proxy_hub_next.Gateway.Aggregate.{new_core}
use claw_proxy_hub_next.Gateway.Backend.{Backend, ChatOutcome, channel_error, silent, opened}
use claw_proxy_hub_next.Gateway.Recovery.{
  Conn, Request, ErrorText, brief_of, upstream, no_events_in_time, recover_from,
}
use claw_proxy_hub_next.Gateway.Recovery.Targets.{Serves, recover_from-Serves}
use claw_proxy_hub_next.Gateway.Recovery.Bound.{left, left_most, recover_from-Shrinks}
use claw_proxy_hub_next.Gateway.Output.{NonStream, stopped, replied, non_stream_out}
use claw_proxy_hub_next.Gateway.Prepare.{Prepared, refused, ready, prepare}
use claw_proxy_hub_next.Gateway.Prepare.Refusals.{prepare-ready}
use claw_proxy_hub_next.Gateway.Serve.{
  Verdict, again, over, Response, error_reply, stream_reply, json_reply, nothing, retry_or,
  fail_with, finish_unrecovered, recover_code, after_aggregate, deliver, failed_code, failed_brief,
  take_outcome, attempt_once, attempts_from, Served, turned_away, answered, answer, after_prepare,
  serve,
}

module _ (b : Backend) where
  -- An error reply is a gateway error, and the log has its status, its kind and its message.
  pub IsAnswer : Conn b → Response → Type 0
  IsAnswer k (error_reply status error_type text) =
      ((status ≡ 502) ⊎ ((status ≡ 503) ⊎ (status ≡ 504)))
      × (k.log.status ≡ status)
      × (k.log.error_type ≡ error_type)
      × (k.log.err_brief ≡ brief_of text)
  IsAnswer k (stream_reply frames) = Unit
  IsAnswer k (json_reply a) = Unit
  IsAnswer k nothing = Unit

  -- What a verdict after attempt `n` has to show: another attempt has less left and a
  -- credential that fits, and an end is an answer.
  abbrev Bounded : ℕ → Conn b → Verdict b → Type 0
  Bounded n k (again k') = (left (n + 1) k'.failover_used < left n k.failover_used) × Serves b k'
  Bounded n k (over k' r) = IsAnswer k' r

  retry_or-Bounded :
      (n : ℕ) (k : Conn b) (p : Conn b × Bool × Option ErrorText)
      (f : Conn b → Option ErrorText → Verdict b)
      → (p.1 ≡ true → left (n + 1) p.0.failover_used < left n k.failover_used)
      → Serves b p.0
      → ((k' : Conn b) (e : Option ErrorText) → Bounded n k (f k' e))
      → Bounded n k (retry_or b p f)
  retry_or-Bounded n k (k', true, e) f less s end = (less refl, s)
  retry_or-Bounded n k (k', false, e) f less s end = end k' e

  finish_unrecovered-Bounded :
      (n : ℕ) (k k' : Conn b) (code : ℕ) (brief : String) (e : Option ErrorText)
      → Bounded n k (finish_unrecovered b k' code brief e)
  unfolding finish_unrecovered fail_with IsAnswer
  finish_unrecovered-Bounded n k k' code brief (some e) = (inl refl, refl, refl, refl)
  finish_unrecovered-Bounded n k k' code brief none =
      chosen (Bounded n k) (code == 401) _ _ (λ _. (inr (inl refl), refl, refl, refl))
        (λ _. (inl refl, refl, refl, refl))

  recover_code-Bounded :
      (q : Request) (route : Option Route) (code n : ℕ) (brief : String) (k₀ k : Conn b)
      → k.failover_used ≡ k₀.failover_used
      → Serves b k
      → Bounded n k₀ (recover_code b q route code n brief k)
  unfolding recover_code
  recover_code-Bounded q route code n brief k₀ k u s =
      retry_or-Bounded n k₀ (recover_from b q route code n brief k.account k) _
        (λ e. rw (← u) (recover_from-Shrinks b q route code n brief k.account k e))
        (recover_from-Serves b q route code n brief k.account k s)
        (λ k' e. finish_unrecovered-Bounded n k₀ k' code brief e)

  after_aggregate-Bounded :
      (q : Request) (route : Option Route) (n : ℕ) (k₀ k : Conn b) (r : NonStream)
      → k.failover_used ≡ k₀.failover_used
      → Serves b k
      → Bounded n k₀ (after_aggregate b q route n k r)
  unfolding after_aggregate IsAnswer
  after_aggregate-Bounded q route n k₀ k (replied a) u s = tt
  after_aggregate-Bounded q route n k₀ k (stopped code brief) u s =
      chosen (Bounded n k₀) (code == 0) _ _ (λ _. tt)
        (λ _. recover_code-Bounded q route code n brief k₀ k u s)

  deliver-Bounded :
      (q : Request) (route : Option Route) (n : ℕ) (k₀ k : Conn b) (evs : List StreamEvent)
      → k.failover_used ≡ k₀.failover_used
      → Serves b k
      → Bounded n k₀ (deliver b q route n k evs)
  unfolding deliver IsAnswer
  deliver-Bounded q route n k₀ k evs u s =
      let (result, log) = non_stream_out q.hex (new_core k.model) k.log evs in
      chosen (Bounded n k₀) (failed_code evs == 0) _ _
        (λ _.
          chosen (Bounded n k₀) q.stream _ _ (λ _. tt)
            (λ _. after_aggregate-Bounded q route n k₀ (record k { log = log }) result u s))
        (λ _. recover_code-Bounded q route (failed_code evs) n (failed_brief evs) k₀ k u s)

  fail_with-Bounded :
      (n : ℕ) (k₀ k : Conn b) (status : ℕ) (text : ErrorText)
      → (status ≡ 502) ⊎ ((status ≡ 503) ⊎ (status ≡ 504))
      → Bounded n k₀ (fail_with b k status "upstream_error" text)
  unfolding fail_with IsAnswer
  fail_with-Bounded n k₀ k status text h = (h, refl, refl, refl)

  take_outcome-Bounded :
      (q : Request) (route : Option Route) (n : ℕ) (k₀ k : Conn b) (o : ChatOutcome)
      → k.failover_used ≡ k₀.failover_used
      → Serves b k
      → Bounded n k₀ (take_outcome b q route n k o)
  unfolding take_outcome fail_with IsAnswer
  take_outcome-Bounded q route n k₀ k (channel_error message) u s =
      retry_or-Bounded n k₀ (recover_from b q route 502 n message k.account k)
        (λ k' _. fail_with b k' 502 "upstream_error" (upstream message))
        (λ e. rw (← u) (recover_from-Shrinks b q route 502 n message k.account k e))
        (recover_from-Serves b q route 502 n message k.account k s)
        (λ k' _. fail_with-Bounded n k₀ k' 502 (upstream message) (inl refl))
  take_outcome-Bounded q route n k₀ k silent u s =
      retry_or-Bounded n k₀ (recover_from b q route 504 n "" k.account k)
        (λ k' _. fail_with b k' 504 "upstream_error" (no_events_in_time q.timeout))
        (λ e. rw (← u) (recover_from-Shrinks b q route 504 n "" k.account k e))
        (recover_from-Serves b q route 504 n "" k.account k s)
        (λ k' _. fail_with-Bounded n k₀ k' 504 (no_events_in_time q.timeout) (inr (inr refl)))
  take_outcome-Bounded q route n k₀ k (opened evs) u s = deliver-Bounded q route n k₀ k evs u s

  attempt_once-Bounded :
      (q : Request) (route : Option Route) (n : ℕ) (k : Conn b)
      → Serves b k
      → Bounded n k (attempt_once b q route n k)
  unfolding attempt_once
  attempt_once-Bounded q route n k s =
      let (w, outcome) = b.chat k.world k.model k.plugin_name k.cred in
      take_outcome-Bounded q route n k
        (record k { world = w; log = record k.log { attempts = n + 1 } }) outcome refl s

  -- The loop ended with an answer.
  pub Ends : Option (Conn b × Response) → Type 0
  Ends none = ⊥
  Ends (some (k, r)) = IsAnswer k r

  run-verdict :
      (fuel : ℕ) (q : Request) (route : Option Route) (n : ℕ) (k : Conn b) (v : Verdict b)
      → left n k.failover_used < suc fuel
      → Bounded n k v
      → ((k' : Conn b)
          → left (n + 1) k'.failover_used < fuel
          → Serves b k'
          → Ends (attempts_from b fuel q route (n + 1) k'))
      → attempt_once b q route n k ≡ v
      → Ends (attempts_from b (suc fuel) q route n k)
  unfolding attempts_from Ends
  run-verdict fuel q route n k (again k') l (less, s') next e =
      rw (e, attempts_from) (next k' (omega arith) s')
  run-verdict fuel q route n k (over k' r) l final next e = rw (e, attempts_from) final

  run :
      (fuel : ℕ) (q : Request) (route : Option Route) (n : ℕ) (k : Conn b)
      → left n k.failover_used < fuel
      → Serves b k
      → Ends (attempts_from b fuel q route n k)
  run zero q route n k l s = absurd (omega arith)
  run (suc fuel) q route n k l s =
      run-verdict fuel q route n k (attempt_once b q route n k) l
        (attempt_once-Bounded q route n k s) (λ k' l' s'. run fuel q route (n + 1) k' l' s') refl

  -- The rounds of the loop, without fuel: a request that starts with the connection `k₀` comes to
  -- round `n`, where it calls a plugin, with the connection `k`.
  pub data Comes (q : Request) (route : Option Route) (k₀ : Conn b) : ℕ → Conn b → Type 0 where
    first_round : Comes q route k₀ 0 k₀
    next_round :
        (n : ℕ) (k k' : Conn b)
        → Comes q route k₀ n k
        → attempt_once b q route n k ≡ again k'
        → Comes q route k₀ (n + 1) k'

  Budget : ℕ → Conn b → Type 0
  Budget n k = (left n k.failover_used + n < 4) × Serves b k

  next-Budget :
      (q : Request) (route : Option Route) (n : ℕ) (k k' : Conn b)
      → Budget n k
      → attempt_once b q route n k ≡ again k'
      → Budget (n + 1) k'
  unfolding Budget
  next-Budget q route n k k' (l, s) e =
      let (less, s') = subst (Bounded n k) e (attempt_once-Bounded q route n k s) in
      (omega (arith, l, less), s')

  Comes-Budget :
      (q : Request) (route : Option Route) (k₀ : Conn b) (n : ℕ) (k : Conn b)
      → Serves b k₀
      → Comes q route k₀ n k
      → Budget n k
  unfolding Budget
  Comes-Budget q route k₀ n k s first_round =
      let l = left_most k₀.failover_used in (omega (arith, l), s)
  Comes-Budget q route k₀ n k s (next_round m j k' before e) =
      next-Budget q route m j k' (Comes-Budget q route k₀ m j s before) e

  -- A request whose credential fits its account comes to the rounds 0 to 3 of the loop and to no
  -- other, so that it calls plugins four times at most, each time with the credential of the account
  -- and the group that the call is for, whatever the plugins, the router and the account service
  -- answer.
  pub Comes-Serves :
      (q : Request) (route : Option Route) (k₀ : Conn b) (n : ℕ) (k : Conn b)
      → Serves b k₀
      → Comes q route k₀ n k
      → (n < 4) × Serves b k
  Comes-Serves q route k₀ n k s c =
      unfold Budget in (let (l, s') = Comes-Budget q route k₀ n k s c in (omega (arith, l), s'))

  -- A request is turned away, or the loop ends.
  pub IsServed : Option (Served b) → Type 0
  IsServed none = ⊥
  IsServed (some (turned_away status error_type text)) = Unit
  IsServed (some (answered k r)) = IsAnswer k r

  answer-IsServed : (o : Option (Conn b × Response)) → Ends o → IsServed (answer b o)
  unfolding Ends IsServed
  answer-IsServed none e = e
  answer-IsServed (some (k, r)) e = e

  after_prepare-IsServed :
      (q : Request) (w : b.World) (p : Prepared b)
      → prepare b q w ≡ p
      → IsServed (after_prepare b 4 q p)
  unfolding after_prepare IsServed
  after_prepare-IsServed q w (refused status error_type text) e = tt
  after_prepare-IsServed q w (ready route k) e =
      answer-IsServed (attempts_from b 4 q route 0 k)
        (run 4 q route 0 k (left_most k.failover_used) (prepare-ready b q w route k e).0)

  -- `serve` returns for every request, after four calls of a plugin at most, whatever the plugins, the
  -- router and the account service answer: the fuel of 4 is enough. An error reply of the loop is 502,
  -- 503 or 504, and the log has its status, its kind and its message.
  pub serve-ends : (q : Request) (w : b.World) → IsServed (serve b 4 q w)
  unfolding serve
  serve-ends q w = after_prepare-IsServed q w (prepare b q w) refl
