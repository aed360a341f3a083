-- ===== src/Router/Direct.antt =====
-- `PickFailover` of internal/router/router.go, and the models without a route of direct.go.
pub mod Declared
use claw_proxy_hub_next.Base.{
  ℕ, ◌==◌, String, str_eq, Bool, true, false, not, ◌&&◌, ◌||◌, Option, none, some, List, [], ◌∷◌,
  ◌++◌, if◌then◌else◌, select, exists,
}
use claw_proxy_hub_next.Data.{Account, Route}
use claw_proxy_hub_next.Router.Resolved.{Resolved}
use claw_proxy_hub_next.Router.Db.{
  Db, active_where, group_plugin, mark_used, has_route_binding, plugin_name_by_id, first_group_of,
}
use claw_proxy_hub_next.Router.Picking.{Credits, pick_preferred, sort_stable, last_used_asc}
use claw_proxy_hub_next.Router.State.{Router, effective_strategy}
use claw_proxy_hub_next.Router.Resolve.{Env, Draw, pick_account, use_account}

module _ (env : Env) where
  open env use {credits, parse_models}

  unfoldable pub failover_result :
      Draw → Route → ℕ → Option (Router × Option Account) → Option (Router × Option Resolved)
  unfolding mark_used group_plugin
  failover_result d route gid none = none
  failover_result d route gid (some (r, none)) = some (r, none)
  failover_result d route gid (some (r, some a)) =
      let r' = use_account env d.now a.id r in
      some (
        r',
        some (record {
          route = some route;
          account = some a;
          real_model = route.failover_model;
          group_id = gid;
          plugin_name = group_plugin r'.db gid;
        }),
      )

  unfoldable pub failover_to : Draw → Route → Router → Option ℕ → Option (Router × Option Resolved)
  unfolding failover_result pick_account effective_strategy
  failover_to d route r none = some (r, none)
  failover_to d route r (some gid) =
      if gid == 0 || str_eq route.failover_model ""
      then some (r, none)
      else failover_result d route gid
          (pick_account env d r (effective_strategy r route) route.id gid)

  -- `PickFailover`
  unfoldable pub pick_failover : Draw → Route → Router → Option (Router × Option Resolved)
  unfolding failover_to
  pick_failover d route r = failover_to d route r route.failover_group_id

  -- `modelsOf`
  abbrev named : Option (List String) → List String
  named none = []
  named (some ids) = select (λ id. not (str_eq id "")) ids

  unfoldable pub models_of : String → List String
  models_of models_json = if str_eq models_json "" then [] else named (parse_models models_json)

  -- `ORDER BY last_used_at IS NULL DESC, last_used_at` of the rows in the order of the key
  abbrev pub least_used_first : List Account → List Account
  least_used_first = sort_stable (λ a b. last_used_asc a.last_used_at b.last_used_at)

  -- The plugin's accounts, where none declares the model.
  abbrev pub or_hinted : List Account → String → List Account → List Account
  or_hinted [] plugin_hint hinted = if not (str_eq plugin_hint "") then hinted else []
  or_hinted (a ∷ rest) plugin_hint hinted = a ∷ rest

  unfoldable pub declares : String → Account → Bool
  unfolding models_of
  declares name a = exists (λ id. str_eq id name) (models_of a.models_json)

  unfoldable pub candidates : Db → ℕ → String → String → List Account
  unfolding declares active_where plugin_name_by_id last_used_asc
  candidates db now name plugin_hint =
      let accts = least_used_first (select (active_where now) db.accounts) in
      let declared = select (declares name) accts in
      let hinted = select (λ a. str_eq (plugin_name_by_id db a.plugin_id) plugin_hint) accts in
      or_hinted declared plugin_hint hinted

  unfoldable pub direct_result : Db → String → Option Account → Option Resolved
  unfolding plugin_name_by_id first_group_of
  direct_result db name none = none
  direct_result db name (some a) = some (record {
    route = none;
    account = some a;
    real_model = name;
    group_id = first_group_of db a.id;
    plugin_name = plugin_name_by_id db a.plugin_id;
  })

  -- `ResolveDirect`
  unfoldable pub resolve_direct : Db → ℕ → String → String → Option Resolved
  unfolding candidates direct_result pick_preferred
  resolve_direct db now name plugin_hint =
      if str_eq name ""
      then none
      else direct_result db name (pick_preferred credits (candidates db now name plugin_hint))

  -- `DirectModels`, before `sort.Strings`: the models of the active accounts, each once.
  abbrev once : List String → List String → List String
  once seen [] = []
  once seen (id ∷ ids) =
      let rest = once (id ∷ seen) ids in
      let others = once seen ids in if exists (λ s. str_eq s id) seen then others else id ∷ rest

  abbrev all_models : List Account → List String
  all_models [] = []
  all_models (a ∷ rest) = models_of a.models_json ++ all_models rest

  unfoldable pub direct_models : Db → ℕ → Option ℕ → List String
  unfolding has_route_binding active_where models_of
  direct_models db now none = once [] (all_models (select (active_where now) db.accounts))
  direct_models db now (some key) =
      if has_route_binding db key
      then []
      else once [] (all_models (select (active_where now) db.accounts))
