-- ===== src/Gateway/Recovery/Targets.antt =====
-- The credential that goes with a call is the one of the account that the call is for.
use claw_proxy_hub_next.Base.{
  ℕ, String, Bool, true, false, not, ◌&&◌, ◌||◌, Option, none, some, ◌≡◌, refl, ltb, ◌==◌,
  if◌then◌else◌, chosen,
}
use claw_proxy_hub_next.Data.{Account, Route}
use claw_proxy_hub_next.Router.Resolved.{
  Resolved, Resolution, not_a_route, forbidden, broken, found,
}
use claw_proxy_hub_next.Gateway.Backend.{
  Backend, RefreshOutcome, refreshed, auth_failure, refresh_error, cred_of,
}
use claw_proxy_hub_next.Gateway.Recovery.{
  Conn, Request, ErrorText, set_target, is_other, take_other, take_resolution, switch_account,
  take_refresh, recover_credential, take_failover, take_picked, switch_failover, failover_match,
  failover_result, recover_from, or_failover, after_credential, pause_and_switch, resume_after,
}

module _ (b : Backend) where
  -- The credential was built for the account and the group, in the state at some time.
  abbrev pub Serves : Conn b → Type 0
  Serves k = (w : b.World) × (k.cred ≡ cred_of b w k.account k.group_id)

  take_other-Serves :
      (k : Conn b) (a : Option Account) (r : Resolved) → Serves k → Serves (take_other b k a r).0
  unfolding take_other set_target is_other
  take_other-Serves k none r s = s
  take_other-Serves k (some a) r s =
      chosen (λ (p : Conn b × Bool). Serves p.0) (is_other b k.account a) (set_target b k a r, true)
        (k, false) (λ _. (k.world, refl)) (λ _. s)

  take_resolution-Serves :
      (k : Conn b) (res : Resolution) → Serves k → Serves (take_resolution b k res).0
  unfolding take_resolution
  take_resolution-Serves k (found r) s = take_other-Serves k r.account r s
  take_resolution-Serves k not_a_route s = s
  take_resolution-Serves k forbidden s = s
  take_resolution-Serves k (broken message) s = s

  switch_account-Serves : (q : Request) (k : Conn b) → Serves k → Serves (switch_account b q k).0
  unfolding switch_account
  switch_account-Serves q k s =
      let (w, res) = b.resolve k.world q.orig_model in
      take_resolution-Serves (record k { world = w; model = q.orig_model }) res s

  take_refresh-Serves :
      (q : Request) (k : Conn b) (o : RefreshOutcome) → Serves k → Serves (take_refresh b q k o).0
  unfolding take_refresh
  take_refresh-Serves q k (refreshed a) s = (k.world, refl)
  take_refresh-Serves q k (refresh_error message) s = s
  take_refresh-Serves q k (auth_failure message) s = switch_account-Serves q k s

  recover_credential-Serves :
      (q : Request) (a : Option Account) (k : Conn b)
      → Serves k
      → Serves (recover_credential b q a k).0
  unfolding recover_credential
  recover_credential-Serves q none k s = s
  recover_credential-Serves q (some a) k s =
      let (w, outcome) = b.refresh k.world a.id in
      chosen (λ (p : Conn b × Bool × Option ErrorText). Serves p.0) b.has_accounts
        (take_refresh b q (record k { world = w }) outcome) (k, false, none)
        (λ _. take_refresh-Serves q (record k { world = w }) outcome s) (λ _. s)

  take_failover-Serves :
      (k : Conn b) (a : Option Account) (r : Resolved) → Serves k → Serves (take_failover b k a r).0
  unfolding take_failover set_target
  take_failover-Serves k none r s = s
  take_failover-Serves k (some a) r s = (k.world, refl)

  take_picked-Serves : (k : Conn b) (r : Option Resolved) → Serves k → Serves (take_picked b k r).0
  unfolding take_picked
  take_picked-Serves k none s = s
  take_picked-Serves k (some r) s = take_failover-Serves k r.account r s

  failover-Serves :
      (route : Option Route) (status : ℕ) (k : Conn b)
      → Serves k
      → Serves (failover_result b route status k).0
  unfolding switch_failover
  failover-Serves none status k s = s
  failover-Serves (some route) status k s =
      let (w, r) = b.pick_failover k.world route in
      chosen (λ (p : Conn b × Bool). Serves p.0)
        (route.failover_enabled && not k.failover_used && failover_match route status)
        (take_picked b (record k { world = w }) r) (k, false)
        (λ _. take_picked-Serves (record k { world = w }) r s) (λ _. s)

  or_failover-Serves :
      (route : Option Route) (status : ℕ) (p : Conn b × Bool)
      → Serves p.0
      → Serves (or_failover b route status p).0
  unfolding or_failover
  or_failover-Serves route status (k, true) s = s
  or_failover-Serves route status (k, false) s = failover-Serves route status k s

  after_credential-Serves :
      (route : Option Route) (status : ℕ) (p : Conn b × Bool × Option ErrorText)
      → Serves p.0
      → Serves (after_credential b route status p).0
  unfolding after_credential
  after_credential-Serves route status (k, r, some e) s = s
  after_credential-Serves route status (k, r, none) s = or_failover-Serves route status (k, r) s

  pub recover_from-Serves :
      (q : Request) (route : Option Route) (status n : ℕ) (brief : String) (a : Option Account)
      (k : Conn b)
      → Serves k
      → Serves (recover_from b q route status n brief a k).0
  unfolding recover_from pause_and_switch
  recover_from-Serves q route status n brief none k s = failover-Serves route status k s
  recover_from-Serves q route status n brief (some a) k s =
      let P : Conn b × Bool × Option ErrorText → Type 0 = λ p. Serves p.0 in
      let w = b.mark_auto_pause k.world a.id brief (resume_after status) in
      let rest = failover_result b route status k in
      let done = failover-Serves route status k s in
      let c₁ = after_credential b route status (recover_credential b q (some a) k) in
      let c₂ = or_failover b route status (pause_and_switch b q status brief a k) in
      let inner = (if status == 429 || status == 402 then c₂ else rest) in
      chosen P (b.has_accounts && ltb n 2) (if status == 401 then c₁ else inner) rest
        (λ _.
          chosen P (status == 401) c₁ inner
            (λ _.
              after_credential-Serves route status (recover_credential b q (some a) k)
                (recover_credential-Serves q (some a) k s))
            (λ _.
              chosen P (status == 429 || status == 402) c₂ rest
                (λ _.
                  or_failover-Serves route status (pause_and_switch b q status brief a k)
                    (switch_account-Serves q (record k { world = w }) s))
                (λ _. done)))
        (λ _. done)
