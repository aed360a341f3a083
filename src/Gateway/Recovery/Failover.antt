-- ===== src/Gateway/Recovery/Failover.antt =====
-- When a request goes to the failover group of its route, and with what.
use claw_proxy_hub_next.Base.{
  ℕ, Bool, true, false, not, ◌&&◌, Option, none, some, ◌≡◌, refl, ap, ◌∙◌, some_injective, ◌⊎◌, ◌≤◌,
  ◌<◌, ◌^◌, ◌/◌, arith, if◌then◌else◌,
}
use claw_proxy_hub_next.Data.{Account, Route}
use claw_proxy_hub_next.Router.Resolved.{Resolved}
use claw_proxy_hub_next.Gateway.Backend.{Backend, build_cred}
use claw_proxy_hub_next.Gateway.Recovery.{
  Conn, set_target, take_failover, take_picked, switch_failover, failover_match,
}

module _ (b : Backend) where
  -- The request's target is the router's: its account with the credential built for it, in the state
  -- after the router was asked, its plugin, group and model; the log has them too, and the failover
  -- is used up.
  pub record Targets (route : Route) (k k' : Conn b) : Type 0 where
    pub picked : Resolved
    pub target : Account
    pub offered : (b.pick_failover k.world route).1 ≡ some picked
    pub has_account : picked.account ≡ some target
    pub world : k'.world ≡ (b.pick_failover k.world route).0
    pub account : k'.account ≡ some target
    pub plugin_name : k'.plugin_name ≡ picked.plugin_name
    pub group_id : k'.group_id ≡ picked.group_id
    pub model : k'.model ≡ picked.real_model
    pub used : k'.failover_used ≡ true
    pub logged : (k'.log.account ≡ some target) × (k'.log.model ≡ picked.real_model)
    pub cred :
        k'.cred
        ≡ some (record {
          account_id = target.id;
          blob = b.decrypt_credential target.credential_blob;
          updated_at = elim target.last_refresh_at [ none ↦ 0 | some t ↦ t / 1_000_000_000 ];
          proxy = b.proxy_for_account_in k'.world target.id picked.group_id;
        })

  -- The class of a status, as the comment of the route's columns names it.
  abbrev pub InClass : Route → ℕ → Type 0
  InClass route status =
      ((400 ≤ status) × (status < 500) × (route.failover_on_4xx ≡ true))
      ⊎ ((500 ≤ status) × (status < 2 ^ 31) × (route.failover_on_5xx ≡ true))

  IsTaken : Route → Conn b → Conn b → Type 0
  IsTaken route k k' =
      (r : Resolved) × (a : Account) × ((b.pick_failover k.world route).1 ≡ some r)
      × (r.account ≡ some a)
      × (k'
          ≡ set_target b
              (record k { world = (b.pick_failover k.world route).0; failover_used = true }) a r)

  take_failover_lem :
      (k : Conn b) (o : Option Account) (r : Resolved)
      → (take_failover b k o r).1 ≡ true
      → (a : Account) × (o ≡ some a)
        × ((take_failover b k o r).0 ≡ set_target b (record k { failover_used = true }) a r)
  unfolding take_failover
  take_failover_lem k none r e = absurd (cc)
  take_failover_lem k (some a) r e = (a, refl, refl)

  take_picked_lem :
      (route : Route) (k : Conn b) (o : Option Resolved)
      → (b.pick_failover k.world route).1 ≡ o
      → (take_picked b (record k { world = (b.pick_failover k.world route).0 }) o).1 ≡ true
      → IsTaken route k (take_picked b (record k { world = (b.pick_failover k.world route).0 }) o).0
  unfolding take_picked IsTaken
  take_picked_lem route k none p e = absurd (cc)
  take_picked_lem route k (some r) p e =
      let (a, f, t) =
        take_failover_lem (record k { world = (b.pick_failover k.world route).0 }) r.account r e in
      (r, a, p, f, t)

  guarded_lem :
      (route : Route) (k : Conn b) (c u d : Bool) (p : Conn b × Bool)
      → (p.1 ≡ true → IsTaken route k p.0)
      → (if c && not u && d then p else (k, false)).1 ≡ true
      → (c ≡ true)
        × (u ≡ false)
        × (d ≡ true)
        × IsTaken route k (if c && not u && d then p else (k, false)).0
  guarded_lem route k true false true p t e = (refl, refl, refl, t e)
  guarded_lem route k true false false p t e = absurd (cc)
  guarded_lem route k true true d p t e = absurd (cc)
  guarded_lem route k false u d p t e = absurd (cc)

  class_of :
      (route : Route) (status : ℕ) → failover_match route status ≡ true → InClass route status
  unfolding failover_match
  class_of route status h = ground (arith, h)

  matched : (route : Route) (status : ℕ) → InClass route status → failover_match route status ≡ true
  unfolding failover_match
  matched route status h = ground (arith, h)

  taken-Targets : (route : Route) (k k' : Conn b) → IsTaken route k k' → Targets route k k'
  unfolding IsTaken set_target build_cred
  taken-Targets route k k' (r, a, picked, account, same) = rw same (record {
    picked = r;
    target = a;
    offered = picked;
    has_account = account;
    world = refl;
    account = refl;
    plugin_name = refl;
    group_id = refl;
    model = refl;
    used = refl;
    logged = (refl, refl);
    cred = refl;
  })

  guarded_true :
      (k : Conn b) (c u d : Bool) (p : Conn b × Bool)
      → c ≡ true
      → u ≡ false
      → d ≡ true
      → p.1 ≡ true
      → (if c && not u && d then p else (k, false)).1 ≡ true
  guarded_true k true false true p e f g h = h
  guarded_true k true false false p e f g h = absurd (cc)
  guarded_true k true true d p e f g h = absurd (cc)
  guarded_true k false u d p e f g h = absurd (cc)

  taken_true :
      (k : Conn b) (o : Option Account) (a : Account) (r : Resolved)
      → o ≡ some a
      → (take_failover b k o r).1 ≡ true
  unfolding take_failover
  taken_true k none a r h = absurd (cc)
  taken_true k (some c) a r h = refl

  picked_true :
      (k : Conn b) (o : Option Resolved) (r : Resolved) (a : Account)
      → o ≡ some r
      → r.account ≡ some a
      → (take_picked b k o).1 ≡ true
  unfolding take_picked
  picked_true k none r a h e = absurd (cc)
  picked_true k (some p) r a h e =
      let same : p ≡ r = some_injective h in
      taken_true k p.account a p (ap (λ (x : Resolved). x.account) same ∙ e)

  -- A failover happens exactly where the route enables it, the request has had none, the status is
  -- of a class that the route names, and the router has a target with an account. The request then
  -- has this target and the credential built for it.
  pub switch_failover_lem :
      (route : Route) (status : ℕ) (k : Conn b)
      → ((switch_failover b (some route) status k).1 ≡ true
          → (route.failover_enabled ≡ true)
            × (k.failover_used ≡ false)
            × InClass route status
            × Targets route k (switch_failover b (some route) status k).0)
        × ((r : Resolved) (a : Account)
            → route.failover_enabled ≡ true
            → k.failover_used ≡ false
            → InClass route status
            → (b.pick_failover k.world route).1 ≡ some r
            → r.account ≡ some a
            → (switch_failover b (some route) status k).1 ≡ true)
  unfolding switch_failover
  switch_failover_lem route status k = (
    (λ e.
        let (enabled, unused, match, taken) =
          guarded_lem route k route.failover_enabled k.failover_used (failover_match route status)
            (take_picked b (record k { world = (b.pick_failover k.world route).0 })
              (b.pick_failover k.world route).1)
            (take_picked_lem route k (b.pick_failover k.world route).1 refl) e in
        (enabled, unused, class_of route status match, taken-Targets route k _ taken)),
    (λ r a enabled unused class offered account.
        guarded_true k route.failover_enabled k.failover_used (failover_match route status)
          (take_picked b (record k { world = (b.pick_failover k.world route).0 })
            (b.pick_failover k.world route).1)
          enabled unused (matched route status class)
          (picked_true (record k { world = (b.pick_failover k.world route).0 })
            (b.pick_failover k.world route).1 r a offered account)),
  )
