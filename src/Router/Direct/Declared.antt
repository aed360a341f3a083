-- ===== src/Router/Direct/Declared.antt =====
-- What a failover and a model without a route are resolved to.
use claw_proxy_hub_next.Base.{
  ℕ, ◌==◌, String, str_eq, eq_iff, true, not, ◌||◌, Option, none, some, List, [], ◌∷◌, ◌≡◌, ◌≢◌,
  refl, subst, ◌⊎◌, inl, inr, chosen, select, ◌∈◌, select_sound, arith,
}
use claw_proxy_hub_next.Data.{Account, Route}
use claw_proxy_hub_next.Router.Resolved.{Resolved}
use claw_proxy_hub_next.Router.Db.{Db, active_where, plugin_name_by_id, first_group_of}
use claw_proxy_hub_next.Router.Picking.{pick_preferred, preferred, last_used_asc}
use claw_proxy_hub_next.Router.State.{Router, effective_strategy}
use claw_proxy_hub_next.Router.Resolve.{Env, Draw, pick_account}
use claw_proxy_hub_next.Router.Resolve.Usable.{
  IsUsable, Picks, pick_account-Picks, best_of_sound, sort_stable_sound,
}
use claw_proxy_hub_next.Router.Direct.{
  declares, candidates, or_hinted, direct_result, resolve_direct, failover_result, failover_to,
  pick_failover, least_used_first,
}

-- An active account that has the model, or one of the plugin that has it.
pub Offers : Env → Db → ℕ → String → String → Account → Type 0
Offers env db now name hint a =
    (a ∈ db.accounts)
    × (active_where now a ≡ true)
    × ((declares env name a ≡ true) ⊎ ((plugin_name_by_id db a.plugin_id ≡ hint) × (hint ≢ "")))

active_accounts :
    (env : Env) (db : Db) (now : ℕ) (a : Account)
    → a ∈ least_used_first env (select (active_where now) db.accounts)
    → (a ∈ db.accounts) × (active_where now a ≡ true)
active_accounts env db now a h = select_sound (active_where now) db.accounts a (
    sort_stable_sound (λ a b. last_used_asc a.last_used_at b.last_used_at)
      (select (active_where now) db.accounts) a h)

or_hinted_sound :
    (env : Env) (P : Account → Type 0) (declared hinted : List Account) (hint : String)
    (a : Account)
    → (a ∈ declared → P a)
    → (hint ≢ "" → a ∈ hinted → P a)
    → a ∈ or_hinted env declared hint hinted
    → P a
or_hinted_sound env P [] hinted hint a f g =
    chosen (λ (l : List Account). a ∈ l → P a) (not (str_eq hint "")) hinted []
      (λ t. g (λ q. absurd (ground (arith, eq_iff hint "")))) (λ _ h. elim h [ ])
or_hinted_sound env P (d ∷ ds) hinted hint a f g = f

candidates_sound :
    (env : Env) (db : Db) (now : ℕ) (name hint : String) (a : Account)
    → a ∈ candidates env db now name hint
    → Offers env db now name hint a
unfolding candidates Offers
candidates_sound env db now name hint a =
    let accts = least_used_first env (select (active_where now) db.accounts) in
    or_hinted_sound env (Offers env db now name hint) (select (declares env name) accts)
      (select (λ x. str_eq (plugin_name_by_id db x.plugin_id) hint) accts) hint a
      (λ h.
        let (m, t) = select_sound (declares env name) accts a h in
        let (in_db, act) = active_accounts env db now a m in (in_db, act, inl t))
      (λ q h.
        let (m, t) = select_sound (λ x. str_eq (plugin_name_by_id db x.plugin_id) hint) accts a h in
        let (in_db, act) = active_accounts env db now a m in
        (in_db, act, inr ((eq_iff (plugin_name_by_id db a.plugin_id) hint).0 t, q)))

-- What a result has to show.
pub IsDirect : Env → Db → ℕ → String → String → Resolved → Type 0
IsDirect env db now name hint res =
    (a : Account) × (res.account ≡ some a)
    × (res.route ≡ none)
    × (res.real_model ≡ name)
    × (res.group_id ≡ first_group_of db a.id)
    × (res.plugin_name ≡ plugin_name_by_id db a.plugin_id)
    × Offers env db now name hint a

direct_result_sound :
    (env : Env) (db : Db) (now : ℕ) (name hint : String) (o : Option Account) (res : Resolved)
    → ((a : Account) → o ≡ some a → Offers env db now name hint a)
    → direct_result env db name o ≡ some res
    → IsDirect env db now name hint res
unfolding direct_result IsDirect
direct_result_sound env db now name hint none res h e = absurd (cc)
direct_result_sound env db now name hint (some a) res h e =
    let r : Resolved = record {
      route = none;
      account = some a;
      real_model = name;
      group_id = first_group_of db a.id;
      plugin_name = plugin_name_by_id db a.plugin_id;
    } in
    let q : r ≡ res = cc in
    subst (IsDirect env db now name hint) q (a, refl, refl, refl, refl, refl, h a refl)

-- A model without a route gets an active account whose directory has the model, or else one of the
-- plugin that the plugins' directory names for it; the name goes through unchanged, without a route,
-- in the account's first group.
pub resolve_direct-found :
    (env : Env) (db : Db) (now : ℕ) (name hint : String) (res : Resolved)
    → resolve_direct env db now name hint ≡ some res
    → IsDirect env db now name hint res
unfolding resolve_direct pick_preferred
resolve_direct-found env db now name hint res =
    let cs = candidates env db now name hint in
    let o = pick_preferred env.credits cs in
    chosen (λ (x : Option Resolved). x ≡ some res → IsDirect env db now name hint res)
      (str_eq name "") none (direct_result env db name o) (λ _ e. absurd (cc))
      (λ _. direct_result_sound env db now name hint o res (λ a q.
        candidates_sound env db now name hint a (best_of_sound (preferred env.credits) cs a q)))

-- What a failover has to show: the tables stay but for the time of use, and the target is usable.
pub IsFailover : Route → Db → ℕ → Option (Router × Option Resolved) → Type 0
IsFailover route db now none = Unit
IsFailover route db now (some (r, none)) = Unit
IsFailover route db now (some (r, some res)) =
    (a : Account) × (res.route ≡ some route)
    × (res.account ≡ some a)
    × (route.failover_group_id ≡ some res.group_id)
    × (res.group_id ≢ 0)
    × (res.real_model ≡ route.failover_model)
    × (res.real_model ≢ "")
    × IsUsable db now res.group_id a

failover_result-IsFailover :
    (env : Env) (d : Draw) (route : Route) (gid : ℕ) (db : Db)
    (o : Option (Router × Option Account))
    → route.failover_group_id ≡ some gid
    → gid ≢ 0
    → route.failover_model ≢ ""
    → Picks db d.now gid o
    → IsFailover route db d.now (failover_result env d route gid o)
unfolding failover_result IsFailover Picks
failover_result-IsFailover env d route gid db none e z m p = tt
failover_result-IsFailover env d route gid db (some (r, none)) e z m p = tt
failover_result-IsFailover env d route gid db (some (r, some a)) e z m p =
    (a, refl, refl, e, z, refl, m, p.1)

failover_to-IsFailover :
    (env : Env) (d : Draw) (route : Route) (r : Router) (o : Option ℕ)
    → route.failover_group_id ≡ o
    → IsFailover route r.db d.now (failover_to env d route r o)
unfolding failover_to IsFailover
failover_to-IsFailover env d route r none e = tt
failover_to-IsFailover env d route r (some gid) e =
    let picked = pick_account env d r (effective_strategy r route) route.id gid in
    chosen (IsFailover route r.db d.now) (gid == 0 || str_eq route.failover_model "")
      (some (r, none)) (failover_result env d route gid picked) (λ _. tt)
      (λ f.
        failover_result-IsFailover env d route gid r.db picked e (λ z. ground (arith))
          (λ z. ground (arith, eq_iff route.failover_model ""))
          (pick_account-Picks env d r (effective_strategy r route) route.id gid))

-- A failover target is an active account of the route's failover group, which is set and not 0, with
-- the route's failover model, which is not empty: an incomplete configuration has no target.
pub pick_failover_lem :
    (env : Env) (d : Draw) (route : Route) (r : Router)
    → IsFailover route r.db d.now (pick_failover env d route r)
unfolding pick_failover
pick_failover_lem env d route r = failover_to-IsFailover env d route r route.failover_group_id refl
