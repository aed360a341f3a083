-- ===== src/Router/Examples.antt =====
-- Runs of the router on a small database: one route to one group with one account.
use claw_proxy_hub_next.Base.{
  ℕ, ◌+◌, ◌<◌, ◌≤◌, ◌%◌, true, false, none, some, [], ◌∷◌, ◌≡◌, refl, lookup, length, get_elem?,
  All, ltb, arith,
}
use claw_proxy_hub_next.Data.{Account, Route, RouteGroupEntry}
use claw_proxy_hub_next.Router.Resolved.{Resolved, found}
use claw_proxy_hub_next.Router.Db.{Db, accounts_in_group, active_where, group_plugin, in_group}
use claw_proxy_hub_next.Router.Picking.{Credits, pick_group, weight_of}
use claw_proxy_hub_next.Router.Picking.Groups.{tickets, pick_group-tickets}
use claw_proxy_hub_next.Router.State.{
  Router, matches_entry, save_sticky, lookup_sticky, cleanup_sticky, sticky_max_entries,
}
use claw_proxy_hub_next.Router.State.Sessions.{lookup_sticky-save_sticky, cleanup_sticky_lem}
use claw_proxy_hub_next.Router.Resolve.{Env, Draw, by_round_robin, parsed, resolve}
use claw_proxy_hub_next.Router.Resolve.Turns.{turned, behind, by_round_robin-turns}
use claw_proxy_hub_next.Router.Resolve.Granted.{IsSource, resolve-found}
use claw_proxy_hub_next.Router.Direct.{resolve_direct, pick_failover}
use claw_proxy_hub_next.Router.Direct.Declared.{
  IsDirect, resolve_direct-found, IsFailover, pick_failover_lem,
}

abbrev only_account : Account
only_account = record {
  id = 1;
  plugin_id = 1;
  credential_blob = "";
  credits_json = "";
  models_json = "gpt";
  status = "active";
  paused_until = none;
  last_refresh_at = none;
  last_used_at = none;
  display_name = "";
  profile_json = "{}";
}

abbrev fast_route : Route
fast_route = record {
  id = 1;
  name = "fast";
  strategy = "";
  groups_json = "";
  timeout_seconds = 0;
  failover_enabled = true;
  failover_on_4xx = false;
  failover_on_5xx = true;
  failover_group_id = some 1;
  failover_model = "spare";
  user_agent = "";
}

abbrev entry_of : ℕ → ℕ → RouteGroupEntry
entry_of group_id weight = record { group_id = group_id; weight = weight; model = "real" }

abbrev small_db : Db
small_db = record {
  accounts = only_account ∷ [];
  account_groups = record { account_id = 1; group_id = 1 } ∷ [];
  groups = record { id = 1; plugin_id = 1 } ∷ [];
  plugins = record { id = 1; name = "p" } ∷ [];
  routes = fast_route ∷ [];
  key_routes = [];
}

abbrev no_credits : Credits
no_credits = record {
  Amount = ℕ;
  expiring_of = λ json. 0;
  is_some = λ n. false;
  more = λ m n. false;
  same = λ m n. true;
}

abbrev small_env : Env
small_env = record {
  credits = no_credits;
  parse_groups = λ json. parsed (entry_of 1 2 ∷ []);
  parse_models = λ json. some (json ∷ []);
  hash = λ text. text;
}

abbrev first_draw : Draw
first_draw = record { now = 5; intn_group = λ n. 0; intn_account = λ n. 0 }

abbrev small_router : Router
small_router = record {
  strategy = "sticky";
  db = small_db;
  rr = λ _. 0;
  sticky = [];
  ttl = 100;
  clean_every = 100;
}

abbrev only_target : Resolved
only_target = record {
  route = some fast_route;
  account = some only_account;
  real_model = "real";
  group_id = 1;
  plugin_name = "p";
}

resolved :
    (r' : Router) × (resolve small_env first_draw (some 1) "fast" (("user", "hi") ∷ []) small_router
      ≡ some (r', found only_target))
unfolding resolve lookup
resolved = (_, refl)

resolve-found_example : IsSource small_env first_draw 1 "fast" small_db only_target
resolve-found_example =
    resolve-found small_env first_draw 1 "fast" (("user", "hi") ∷ []) small_router resolved.0
      only_target resolved.1

pick_group-tickets_example :
    pick_group (λ n. n % 4) (entry_of 1 3) (entry_of 2 0 ∷ [])
    ≡ get_elem? (tickets (entry_of 1 3 ∷ entry_of 2 0 ∷ [])) 0
unfolding tickets weight_of
pick_group-tickets_example =
    pick_group-tickets (λ n. n % 4) (entry_of 1 3) (entry_of 2 0 ∷ []) (omega arith) (omega arith)

lookup_sticky-save_sticky_example :
    lookup_sticky 50 "fp" fast_route
      (entry_of 1 2 ∷ [])
      (save_sticky 5 "fp" (entry_of 1 2) 1 small_router)
    ≡ (save_sticky 5 "fp" (entry_of 1 2) 1 small_router, some only_target)
unfolding group_plugin matches_entry active_where in_group
lookup_sticky-save_sticky_example =
    lookup_sticky-save_sticky 5 50 "fp" fast_route (entry_of 1 2 ∷ []) (entry_of 1 2) 1 only_account
      small_router (omega arith) refl refl refl

cleanup_sticky_lem_example :
    (length (cleanup_sticky 5 small_router).sticky ≤ sticky_max_entries)
    × All (λ p. ltb p.1.expires 5 ≡ false) (cleanup_sticky 5 small_router).sticky
cleanup_sticky_lem_example = cleanup_sticky_lem 5 small_router

abbrev direct_target : Resolved
direct_target = record {
  route = none;
  account = some only_account;
  real_model = "gpt";
  group_id = 1;
  plugin_name = "p";
}

direct : resolve_direct small_env small_db 5 "gpt" "" ≡ some direct_target
unfolding resolve_direct
direct = refl

resolve_direct-found_example : IsDirect small_env small_db 5 "gpt" "" direct_target
resolve_direct-found_example =
    resolve_direct-found small_env small_db 5 "gpt" "" direct_target direct

pick_failover_lem_example :
    IsFailover fast_route small_db 5 (pick_failover small_env first_draw fast_route small_router)
pick_failover_lem_example = pick_failover_lem small_env first_draw fast_route small_router

accounts_there : 0 < length (accounts_in_group small_db 5 1)
unfolding accounts_in_group
accounts_there = omega arith

by_round_robin-turns_example :
    let cs = accounts_in_group small_db 5 1 in
    let i = (0 + 1) % length cs in
    (a : Account) × (b : Account) × (get_elem? cs i ≡ some a)
    × (get_elem? cs (behind (length cs) i) ≡ some b)
    × (by_round_robin small_router 5 1 1 ≡ some (turned small_router 1, some a))
    × (by_round_robin (turned small_router 1) 5 1 1
        ≡ some (turned (turned small_router 1) 1, some b))
by_round_robin-turns_example = by_round_robin-turns small_router 5 1 1 accounts_there (omega arith)
