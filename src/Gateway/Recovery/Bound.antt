-- ===== src/Gateway/Recovery/Bound.antt =====
-- How often `serve` can recover: what is left of the two changes of credential or account, and of the
-- one failover.
use claw_proxy_hub_next.Base.{
  ℕ, ◌+◌, ◌-◌, ◌<◌, String, Bool, true, false, not, ◌&&◌, ◌||◌, chosen, and_right, Option, none,
  some, ◌≡◌, refl, inl, inr, ltb, ◌==◌, if◌then◌else◌, Bool-cases, arith,
}
use claw_proxy_hub_next.Data.{Account, Route}
use claw_proxy_hub_next.Router.Resolved.{
  Resolved, Resolution, not_a_route, forbidden, broken, found,
}
use claw_proxy_hub_next.Gateway.Backend.{
  Backend, RefreshOutcome, refreshed, auth_failure, refresh_error,
}
use claw_proxy_hub_next.Gateway.Recovery.{
  Conn, Request, ErrorText, set_target, is_other, take_other, take_resolution, switch_account,
  take_refresh, recover_credential, take_failover, take_picked, switch_failover, failover_match,
  failover_result, recover_from, or_failover, after_credential, pause_and_switch, resume_after,
}

abbrev pub left : ℕ → Bool → ℕ
left attempt used = (2 - attempt) + (if used then 0 else 1)

pub left_most : (u : Bool) → left 0 u < 4
left_most true = omega arith
left_most false = omega arith

module _ (b : Backend) where
  take_other-used :
      (k : Conn b) (a : Option Account) (r : Resolved)
      → (take_other b k a r).0.failover_used ≡ k.failover_used
  unfolding take_other set_target is_other
  take_other-used k none r = refl
  take_other-used k (some a) r = elim (Bool-cases (is_other b k.account a)) [
    | inl e ↦ rw e
    | inr e ↦ rw e
  ]

  take_resolution-used :
      (k : Conn b) (res : Resolution) → (take_resolution b k res).0.failover_used ≡ k.failover_used
  unfolding take_resolution
  take_resolution-used k (found r) = take_other-used k r.account r
  take_resolution-used k not_a_route = refl
  take_resolution-used k forbidden = refl
  take_resolution-used k (broken message) = refl

  switch_account-used :
      (q : Request) (k : Conn b) → (switch_account b q k).0.failover_used ≡ k.failover_used
  unfolding switch_account
  switch_account-used q k =
      let (w, res) = b.resolve k.world q.orig_model in
      take_resolution-used (record k { world = w; model = q.orig_model }) res

  take_refresh-used :
      (q : Request) (k : Conn b) (o : RefreshOutcome)
      → (take_refresh b q k o).0.failover_used ≡ k.failover_used
  unfolding take_refresh
  take_refresh-used q k (refreshed a) = refl
  take_refresh-used q k (refresh_error message) = refl
  take_refresh-used q k (auth_failure message) = switch_account-used q k

  recover_credential-used :
      (q : Request) (a : Option Account) (k : Conn b)
      → (recover_credential b q a k).0.failover_used ≡ k.failover_used
  unfolding recover_credential
  recover_credential-used q none k = refl
  recover_credential-used q (some a) k = elim (Bool-cases b.has_accounts) [
    | inl e ↦
        let (w, outcome) = b.refresh k.world a.id in
        rw e (take_refresh-used q (record k { world = w }) outcome)
    | inr e ↦ rw e
  ]

  -- What a recovery has to show: when it says that the call can be tried again, less is left.
  abbrev Shrinks : ℕ → Conn b → Conn b × Bool × Option ErrorText → Type 0
  Shrinks n k p = p.1 ≡ true → left (n + 1) p.0.failover_used < left n k.failover_used

  take_failover-used :
      (k : Conn b) (a : Option Account) (r : Resolved)
      → (take_failover b k a r).1 ≡ true
      → (take_failover b k a r).0.failover_used ≡ true
  unfolding take_failover set_target
  take_failover-used k none r e = absurd (cc)
  take_failover-used k (some a) r e = refl

  take_picked-used :
      (k : Conn b) (r : Option Resolved)
      → (take_picked b k r).1 ≡ true
      → (take_picked b k r).0.failover_used ≡ true
  unfolding take_picked
  take_picked-used k none e = absurd (cc)
  take_picked-used k (some r) e = take_failover-used k r.account r e

  left_used : (n : ℕ) (u v : Bool) → u ≡ false → v ≡ true → left (n + 1) v < left n u
  left_used n false true p q = omega arith
  left_used n false false p q = absurd (cc)
  left_used n true v p q = absurd (cc)

  left_again : (n : ℕ) (u v : Bool) → v ≡ u → ltb n 2 ≡ true → left (n + 1) v < left n u
  left_again n u v p l = rw p (ground arith)

  -- A guarded recovery that worked: the guard held, and this is its result.
  guarded :
      (c : Bool) (p : Conn b × Bool) (k : Conn b)
      → (if c then p else (k, false)).1 ≡ true
      → (c ≡ true) × (p.1 ≡ true) × ((if c then p else (k, false)) ≡ p)
  guarded true p k e = (refl, e, refl)
  guarded false p k e = absurd (cc)

  unused : (c u d : Bool) → (c && not u && d) ≡ true → u ≡ false
  unused true false d e = refl
  unused true true d e = absurd (cc)
  unused false u d e = absurd (cc)

  failover-Shrinks :
      (n : ℕ) (route : Option Route) (status : ℕ) (k : Conn b)
      → Shrinks n k (failover_result b route status k)
  unfolding switch_failover
  failover-Shrinks n none status k e = absurd (cc)
  failover-Shrinks n (some route) status k e =
      let (w, r) = b.pick_failover k.world route in
      let c : Bool = route.failover_enabled && not k.failover_used && failover_match route status in
      let (h, s, q) = guarded c (take_picked b (record k { world = w }) r) k e in
      rw q (
        left_used n k.failover_used (take_picked b (record k { world = w }) r).0.failover_used
          (unused route.failover_enabled k.failover_used (failover_match route status) h)
          (take_picked-used (record k { world = w }) r s))

  or_failover-Shrinks :
      (n : ℕ) (route : Option Route) (status : ℕ) (k : Conn b) (p : Conn b × Bool)
      → ltb n 2 ≡ true
      → p.0.failover_used ≡ k.failover_used
      → Shrinks n k (or_failover b route status p)
  unfolding or_failover
  or_failover-Shrinks n route status k (k', true) l u e =
      left_again n k.failover_used k'.failover_used u l
  or_failover-Shrinks n route status k (k', false) l u e =
      rw (← u) (failover-Shrinks n route status k' e)

  after_credential-Shrinks :
      (n : ℕ) (route : Option Route) (status : ℕ) (k : Conn b)
      (p : Conn b × Bool × Option ErrorText)
      → ltb n 2 ≡ true
      → p.0.failover_used ≡ k.failover_used
      → Shrinks n k (after_credential b route status p)
  unfolding after_credential
  after_credential-Shrinks n route status k (k', recovered, some t) l u e =
      left_again n k.failover_used k'.failover_used u l
  after_credential-Shrinks n route status k (k', recovered, none) l u e =
      or_failover-Shrinks n route status k (k', recovered) l u e

  -- A recovery that lets the call be tried again takes one of the two changes of credential or
  -- account, or the failover.
  pub recover_from-Shrinks :
      (q : Request) (route : Option Route) (status n : ℕ) (brief : String) (a : Option Account)
      (k : Conn b)
      → Shrinks n k (recover_from b q route status n brief a k)
  unfolding recover_from pause_and_switch
  recover_from-Shrinks q route status n brief none k = failover-Shrinks n route status k
  recover_from-Shrinks q route status n brief (some a) k =
      let w = b.mark_auto_pause k.world a.id brief (resume_after status) in
      let rest = failover-Shrinks n route status k in
      chosen (Shrinks n k) (b.has_accounts && ltb n 2) _ _
        (λ h.
          let l = and_right b.has_accounts (ltb n 2) h in
          chosen (Shrinks n k) (status == 401) _ _
            (λ _.
              after_credential-Shrinks n route status k (recover_credential b q (some a) k) l
                (recover_credential-used q (some a) k))
            (λ _.
              chosen (Shrinks n k) (status == 429 || status == 402) _ _
                (λ _.
                  or_failover-Shrinks n route status k (pause_and_switch b q status brief a k) l
                    (switch_account-used q (record k { world = w })))
                (λ _. rest)))
        (λ _. rest)
