-- ===== src/Router/Resolve.antt =====
-- `Resolve`, `PickFailover` and `ResolveDirect` of internal/router. A call takes place at one instant;
-- a panic (of `rand.Intn`, or of an index out of range) is the result `none`.
pub mod Usable
pub mod Turns
pub mod Entries
pub mod Granted
use claw_proxy_hub_next.Base.{
  ℕ, ◌+◌, ◌==◌, String, str_eq, Bool, true, false, not, ◌&&◌, ◌||◌, Option, none, some, List, [],
  ◌∷◌, ◌++◌, if◌then◌else◌, select, exists, add64, map_option,
}
use claw_proxy_hub_next.Data.{Account, Route, RouteGroupEntry, is_sticky_strategy}
use claw_proxy_hub_next.Router.Resolved.{
  Resolved, Resolution, not_a_route, forbidden, broken, found,
}
use claw_proxy_hub_next.Router.Db.{
  Db, accounts_in_group, active_where, group_plugin, mark_used, FoundRoute, no_route, no_right,
  found_route, find_route, plugin_name_by_id, first_group_of,
}
use claw_proxy_hub_next.Router.Picking.{
  Credits, pick_group, by_random, by_least_used, by_expiring_first, rotate, pick_preferred,
  last_used_asc,
}
use claw_proxy_hub_next.Router.State.{
  Router, effective_strategy, lookup_sticky, save_sticky, fingerprint_text,
}

-- `json.Unmarshal` of the groups of a route: the entries, or an error.
pub data Parsed : Type 0 where
  parsed : List RouteGroupEntry → Parsed
  parse_error : (message : String) → Parsed

-- What the router calls: JSON, SHA-256 as the first 16 digits in hexadecimal, and the credits.
pub record Env : Type 1 where
  pub credits : Credits
  pub parse_groups : String → Parsed
  pub parse_models : String → Option (List String)
  pub hash : String → String

-- The instant of a call, and `rand.Intn` for the group and for the account.
pub record Draw : Type 0 where
  pub now : ℕ
  pub intn_group : ℕ → ℕ
  pub intn_account : ℕ → ℕ

-- `byRoundRobin`
unfoldable pub rotate_from : Router → ℕ → List Account → Option (Router × Option Account)
unfolding rotate
rotate_from r route_id [] = some (r, none)
rotate_from r route_id (a ∷ rest) =
    let idx = add64 (r.rr route_id) 1 in
    let r' : Router = record r { rr = λ i. if i == route_id then idx else r.rr i } in
    map_option (λ picked. (r', some picked)) (rotate idx (a ∷ rest))

unfoldable pub by_round_robin : Router → ℕ → ℕ → ℕ → Option (Router × Option Account)
unfolding rotate_from
by_round_robin r now route_id group_id =
    rotate_from r route_id (accounts_in_group r.db now group_id)

module _ (env : Env) where
  open env use {credits, parse_groups, parse_models, hash}

  -- The `switch` on the strategy.
  unfoldable pub pick_account : Draw → Router → String → ℕ → ℕ → Option (Router × Option Account)
  unfolding by_random by_least_used by_expiring_first by_round_robin
  pick_account d r strategy route_id group_id =
      if str_eq strategy "random"
      then some (r, by_random r.db d.intn_account d.now group_id)
      else if str_eq strategy "least_used"
      then some (r, by_least_used r.db d.now group_id)
      else if str_eq strategy "expiring" || str_eq strategy "sticky_expiring"
      then some (r, by_expiring_first credits r.db d.now group_id)
      else by_round_robin r d.now route_id group_id

  abbrev pub use_account : ℕ → ℕ → Router → Router
  use_account now id r = record r { db = mark_used r.db now id }

  -- The end of `Resolve`: the session and the time of use are stored for an account.
  unfoldable pub settle :
      Draw → String → Bool → Route → RouteGroupEntry → Router → Option Account → Router × Resolution
  unfolding save_sticky mark_used group_plugin
  settle d fp is_sticky route entry r none = (
    r,
    found (record {
      route = some route;
      account = none;
      real_model = entry.model;
      group_id = entry.group_id;
      plugin_name = group_plugin r.db entry.group_id;
    }),
  )
  settle d fp is_sticky route entry r (some a) =
      let r' =
        use_account d.now a.id (if is_sticky then save_sticky d.now fp entry a.id r else r) in
      (
        r',
        found (record {
          route = some route;
          account = some a;
          real_model = entry.model;
          group_id = entry.group_id;
          plugin_name = group_plugin r'.db entry.group_id;
        }),
      )

  abbrev pub settle_picked :
      Draw
      → String
      → Bool
      → Route
      → RouteGroupEntry
      → Option (Router × Option Account)
      → Option (Router × Resolution)
  settle_picked d fp is_sticky route entry none = none
  settle_picked d fp is_sticky route entry (some (r, a)) =
      some (settle d fp is_sticky route entry r a)

  unfoldable pub pick_in :
      Draw
      → String
      → String
      → Route
      → Router
      → Option RouteGroupEntry
      → Option (Router × Resolution)
  unfolding pick_account settle is_sticky_strategy
  pick_in d fp strategy route r none = none
  pick_in d fp strategy route r (some entry) =
      settle_picked d fp (is_sticky_strategy strategy) route entry
        (pick_account d r strategy route.id entry.group_id)

  -- What follows the look at the sticky session.
  unfoldable pub after_sticky :
      Draw
      → String
      → String
      → Route
      → RouteGroupEntry
      → List RouteGroupEntry
      → Router
      → Option Resolved
      → Option (Router × Resolution)
  unfolding pick_in pick_group
  after_sticky d fp strategy route e es r none =
      pick_in d fp strategy route r (pick_group d.intn_group e es)
  after_sticky d fp strategy route e es r (some res) =
      some (use_found d.now res.account r, found res)
    where
      use_found : ℕ → Option Account → Router → Router
      use_found now none r = r
      use_found now (some a) r = use_account now a.id r

  unfoldable pub resolve_groups :
      Draw → String → Route → Router → Parsed → Option (Router × Resolution)
  unfolding after_sticky effective_strategy lookup_sticky
  resolve_groups d fp route r (parse_error message) = some (r, broken message)
  resolve_groups d fp route r (parsed []) = some (r, not_a_route)
  resolve_groups d fp route r (parsed (e ∷ es)) =
      let strategy = effective_strategy r route in
      let (r', pinned) = lookup_sticky d.now fp route (e ∷ es) r in
      if is_sticky_strategy strategy
      then after_sticky d fp strategy route e es r' pinned
      else after_sticky d fp strategy route e es r none

  unfoldable pub resolve_found : Draw → String → Router → FoundRoute → Option (Router × Resolution)
  unfolding resolve_groups
  resolve_found d fp r no_route = some (r, not_a_route)
  resolve_found d fp r no_right = some (r, forbidden)
  resolve_found d fp r (found_route route) =
      resolve_groups d fp route r (parse_groups route.groups_json)

  -- `Resolve`, for the key's identifier, the model and the roles and texts of the messages.
  unfoldable pub resolve :
      Draw → Option ℕ → String → List (String × String) → Router → Option (Router × Resolution)
  unfolding resolve_found find_route fingerprint_text
  resolve d none model messages r = some (r, not_a_route)
  resolve d (some key) model messages r =
      resolve_found d (hash (fingerprint_text messages)) r (find_route r.db key model)
