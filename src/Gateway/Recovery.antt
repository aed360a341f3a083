-- ===== src/Gateway/Recovery.antt =====
-- The recovery of `serve` in internal/gateway/server.go: another account, a refreshed credential, the
-- route's failover group. The variables that the closures share are the record `Conn`.
pub mod Bound
pub mod Targets
pub mod Failover
use claw_proxy_hub_next.Base.{
  ℕ, zero, suc, ◌+◌, ◌*◌, String, append, str_eq, Bool, true, false, not, ◌&&◌, ◌||◌, Option, none,
  some, List, [], ◌∷◌, ltb, leb, ◌==◌, if◌then◌else◌,
}
use claw_proxy_hub_next.Data.{Account, Route, CredentialBlob}
use claw_proxy_hub_next.Router.Resolved.{
  Resolved, Resolution, not_a_route, forbidden, broken, found,
}
use claw_proxy_hub_next.Gateway.Envelope.{StreamEvent, task_failed}
use claw_proxy_hub_next.Gateway.Aggregate.{AggregateCore, new_core}
use claw_proxy_hub_next.Gateway.Output.{
  Log, OutFrame, new_encoder, stream_out, NonStream, stopped, replied, non_stream_out, message_of,
  code_of,
}
use claw_proxy_hub_next.Gateway.Backend.{
  Backend, ChatOutcome, channel_error, silent, opened, RefreshOutcome, refreshed, auth_failure,
  refresh_error, build_cred,
}

-- The message of an end of the loop: that of an upstream, the fixed one, or the one with the text of
-- the time that was waited for.
pub data ErrorText : Type 0 where
  upstream : String → ErrorText
  no_active_account : ErrorText
  no_events_in_time : (timeout : String) → ErrorText

unfoldable pub brief_of : ErrorText → String
brief_of (upstream message) = message
brief_of no_active_account =
    "no active account available (credential failed and failover exhausted)"
brief_of (no_events_in_time timeout) =
    append "upstream produced no events within "
      (append timeout " (check proxy / upstream reachability)")

-- The message of a request that is turned away. All but the router's error name the model.
pub data Refusal : Type 0 where
  router_error : String → Refusal
  key_not_authorized : Refusal
  no_account_in_group : Refusal
  model_not_found : Refusal
  not_in_authorized_routes : Refusal

-- The request: the public model name, the protocol, whether it streams, the random texts, and the
-- text of the time of `firstEventTimeout`.
pub record Request : Type 0 where
  pub orig_model : String
  pub protocol : String
  pub stream : Bool
  pub hex : String
  pub timeout : String

-- `failoverMatch`: the status is an `int`, whose 32-bit pattern a code from the wire fills.
unfoldable pub failover_match : Route → ℕ → Bool
failover_match route status =
    if leb 400 status && ltb status 500
    then route.failover_on_4xx
    else if leb 500 status && leb status 2_147_483_647
    then route.failover_on_5xx
    else false

abbrev pub ten_minutes : ℕ
ten_minutes = 10 * 60 * 1_000_000_000

abbrev pub resume_after : ℕ → Option ℕ
resume_after status = if status == 429 then some ten_minutes else none

module _ (b : Backend) where
  open b use {World, resolve, pick_failover, chat, has_accounts, refresh, mark_auto_pause}

  pub record Conn : Type 0 where
    pub world : World
    pub account : Option Account
    pub plugin_name : String
    pub group_id : ℕ
    pub model : String
    pub cred : Option CredentialBlob
    pub failover_used : Bool
    pub log : Log

  -- The assignments that a change of target makes.
  unfoldable pub set_target : Conn → Account → Resolved → Conn
  set_target k a r = record k {
    account = some a;
    plugin_name = r.plugin_name;
    group_id = r.group_id;
    model = r.real_model;
    cred = some (build_cred b k.world a r.group_id);
    log = record k.log { account = some a; group_id = some r.group_id; model = r.real_model };
  }

  unfoldable pub is_other : Option Account → Account → Bool
  is_other none a = true
  is_other (some c) a = not (a.id == c.id)

  -- The result of resolving the route again.
  unfoldable pub take_other : Conn → Option Account → Resolved → Conn × Bool
  unfolding set_target is_other
  take_other k none r = (k, false)
  take_other k (some a) r = if is_other k.account a then (set_target k a r, true) else (k, false)

  unfoldable pub take_resolution : Conn → Resolution → Conn × Bool
  unfolding take_other
  take_resolution k (found r) = take_other k r.account r
  take_resolution k not_a_route = (k, false)
  take_resolution k forbidden = (k, false)
  take_resolution k (broken message) = (k, false)

  unfoldable pub switch_account : Request → Conn → Conn × Bool
  unfolding take_resolution
  switch_account q k =
      let (w, res) = resolve k.world q.orig_model in
      take_resolution (record k { world = w; model = q.orig_model }) res

  -- Whether the credential is there again, and the passing failure that it met otherwise.
  unfoldable pub take_refresh : Request → Conn → RefreshOutcome → Conn × Bool × Option ErrorText
  unfolding switch_account
  take_refresh q k (refreshed a) = (
    record k {
      account = some a;
      cred = some (build_cred b k.world a k.group_id);
      log = record k.log { account = some a };
    },
    true,
    none,
  )
  take_refresh q k (refresh_error message) = (k, false, some (upstream message))
  take_refresh q k (auth_failure message) =
      let (k', switched) = switch_account q k in (k', switched, none)

  unfoldable pub recover_credential :
      Request → Option Account → Conn → Conn × Bool × Option ErrorText
  unfolding take_refresh
  recover_credential q none k = (k, false, none)
  recover_credential q (some a) k =
      let (w, outcome) = refresh k.world a.id in
      if has_accounts then take_refresh q (record k { world = w }) outcome else (k, false, none)

  unfoldable pub take_failover : Conn → Option Account → Resolved → Conn × Bool
  unfolding set_target
  take_failover k none r = (k, false)
  take_failover k (some a) r = (set_target (record k { failover_used = true }) a r, true)

  unfoldable pub take_picked : Conn → Option Resolved → Conn × Bool
  unfolding take_failover
  take_picked k none = (k, false)
  take_picked k (some r) = take_failover k r.account r

  unfoldable pub switch_failover : Option Route → ℕ → Conn → Conn × Bool
  unfolding take_picked failover_match
  switch_failover none status k = (k, false)
  switch_failover (some route) status k =
      let (w, r) = pick_failover k.world route in
      if route.failover_enabled && not k.failover_used && failover_match route status
      then take_picked (record k { world = w }) r
      else (k, false)

  abbrev pub failover_result : Option Route → ℕ → Conn → Conn × Bool × Option ErrorText
  failover_result route status k =
      let (k', switched) = switch_failover route status k in (k', switched, none)

  -- What follows the `switch` when its case did not return.
  unfoldable pub or_failover : Option Route → ℕ → Conn × Bool → Conn × Bool × Option ErrorText
  unfolding switch_failover
  or_failover route status (k, true) = (k, true, none)
  or_failover route status (k, false) = failover_result route status k

  unfoldable pub after_credential :
      Option Route → ℕ → Conn × Bool × Option ErrorText → Conn × Bool × Option ErrorText
  unfolding or_failover
  after_credential route status (k, recovered, some e) = (k, recovered, some e)
  after_credential route status (k, recovered, none) = or_failover route status (k, recovered)

  unfoldable pub pause_and_switch : Request → ℕ → String → Account → Conn → Conn × Bool
  unfolding switch_account
  pause_and_switch q status brief a k =
      let w = mark_auto_pause k.world a.id brief (resume_after status) in
      switch_account q (record k { world = w })

  unfoldable pub recover_from :
      Request
      → Option Route
      → ℕ
      → ℕ
      → String
      → Option Account
      → Conn
      → Conn × Bool × Option ErrorText
  unfolding recover_credential after_credential pause_and_switch
  recover_from q route status attempt brief none k = failover_result route status k
  recover_from q route status attempt brief (some a) k =
      if has_accounts && ltb attempt 2
      then (if status == 401
          then after_credential route status (recover_credential q (some a) k)
          else if status == 429 || status == 402
          then or_failover route status (pause_and_switch q status brief a k)
          else failover_result route status k)
      else failover_result route status k
