-- ===== src/Router/Resolve/Granted.antt =====
-- What a route is resolved to: an entry of the route, for a key that may use the route, with an account
-- that can be used.
use claw_proxy_hub_next.Base.{
  ℕ, ◌==◌, String, str_eq, eq_iff, Bool, true, false, ◌&&◌, Option, none, some, List, [], ◌∷◌, ◌≡◌,
  refl, subst, ◌⊎◌, inl, inr, if◌then◌else◌, chosen, exists, find, ◌∈◌, find_sound,
}
use claw_proxy_hub_next.Data.{Account, Route, RouteGroupEntry, is_sticky_strategy}
use claw_proxy_hub_next.Router.Resolved.{
  Resolved, Resolution, not_a_route, forbidden, broken, found,
}
use claw_proxy_hub_next.Router.Db.{
  Db, FoundRoute, no_right, found_route, check_right, find_route, has_route_binding,
}
use claw_proxy_hub_next.Router.Picking.{pick_group}
use claw_proxy_hub_next.Router.State.{
  Router, session, lookup_sticky, effective_strategy, fingerprint_text,
}
use claw_proxy_hub_next.Router.Resolve.{
  Env, Draw, Parsed, parsed, parse_error, pick_account, settle, settle_picked, pick_in,
  after_sticky, resolve_groups, resolve_found, resolve,
}
use claw_proxy_hub_next.Router.Resolve.Usable.{Picks, pick_account-Picks}
use claw_proxy_hub_next.Router.Resolve.Entries.{
  IsEntry, PickedEntry, pick_group-PickedEntry, AccountOk, IsGrant, Lifts, check_session-IsGrant,
  session-db,
}

-- What a result of `Resolve` has to show.
GrantsIn : Db → ℕ → Route → List RouteGroupEntry → Option (Router × Resolution) → Type 0
GrantsIn db now route entries none = Unit
GrantsIn db now route entries (some (r, found res)) = IsGrant db now route entries res
GrantsIn db now route entries (some (r, not_a_route)) = Unit
GrantsIn db now route entries (some (r, forbidden)) = Unit
GrantsIn db now route entries (some (r, broken message)) = Unit

settle_picked-GrantsIn :
    (env : Env) (d : Draw) (fp : String) (is_sticky : Bool) (route : Route) (db : Db)
    (entries : List RouteGroupEntry) (x : RouteGroupEntry) (o : Option (Router × Option Account))
    → IsEntry x.group_id x.model entries
    → Picks db d.now x.group_id o
    → GrantsIn db d.now route entries (settle_picked env d fp is_sticky route x o)
unfolding settle GrantsIn IsGrant AccountOk Picks
settle_picked-GrantsIn env d fp is_sticky route db entries x none m p = tt
settle_picked-GrantsIn env d fp is_sticky route db entries x (some (r, none)) m p = (refl, m, tt)
settle_picked-GrantsIn env d fp is_sticky route db entries x (some (r, some a)) m p = (refl, m, p.1)

pick_in-GrantsIn :
    (env : Env) (d : Draw) (fp strategy : String) (route : Route) (entries : List RouteGroupEntry)
    (r : Router) (o : Option RouteGroupEntry)
    → PickedEntry entries o
    → GrantsIn r.db d.now route entries (pick_in env d fp strategy route r o)
unfolding pick_in GrantsIn PickedEntry
pick_in-GrantsIn env d fp strategy route entries r none m = tt
pick_in-GrantsIn env d fp strategy route entries r (some x) m =
    settle_picked-GrantsIn env d fp (is_sticky_strategy strategy) route r.db entries x
      (pick_account env d r strategy route.id x.group_id) m
      (pick_account-Picks env d r strategy route.id x.group_id)

after_sticky-GrantsIn :
    (env : Env) (d : Draw) (fp strategy : String) (route : Route) (e : RouteGroupEntry)
    (es : List RouteGroupEntry) (db : Db) (r : Router) (o : Option Resolved)
    → r.db ≡ db
    → Lifts (IsGrant db d.now route (e ∷ es)) o
    → GrantsIn db d.now route (e ∷ es) (after_sticky env d fp strategy route e es r o)
unfolding after_sticky GrantsIn Lifts
after_sticky-GrantsIn env d fp strategy route e es db r none q m =
    subst (λ x. GrantsIn x d.now route (e ∷ es) (after_sticky env d fp strategy route e es r none))
      q
      (pick_in-GrantsIn env d fp strategy route (e ∷ es) r (pick_group d.intn_group e es)
        (pick_group-PickedEntry d.intn_group e es))
after_sticky-GrantsIn env d fp strategy route e es db r (some res) q m = m

resolve_groups-GrantsIn :
    (env : Env) (d : Draw) (fp : String) (route : Route) (r : Router) (e : RouteGroupEntry)
    (es : List RouteGroupEntry)
    → GrantsIn r.db d.now route (e ∷ es) (resolve_groups env d fp route r (parsed (e ∷ es)))
unfolding resolve_groups lookup_sticky Lifts
resolve_groups-GrantsIn env d fp route r e es =
    let strategy = effective_strategy r route in
    let (r', pin) = lookup_sticky d.now fp route (e ∷ es) r in
    chosen (GrantsIn r.db d.now route (e ∷ es)) (is_sticky_strategy strategy)
      (after_sticky env d fp strategy route e es r' pin)
      (after_sticky env d fp strategy route e es r none)
      (λ _. after_sticky-GrantsIn env d fp strategy route e es r.db r' pin (session-db d.now fp r) (
        subst (λ x. Lifts (IsGrant x d.now route (e ∷ es)) pin) (session-db d.now fp r)
          (check_session-IsGrant (session d.now fp r).0.db d.now route (e ∷ es)
            (session d.now fp r).1)))
      (λ _. after_sticky-GrantsIn env d fp strategy route e es r.db r none refl tt)

-- The key is bound to no routes, or to this one.
pub MayUse : Db → ℕ → Route → Type 0
MayUse db key route =
    (has_route_binding db key ≡ false)
    ⊎ (exists (λ l. (l.key_id == key) && (l.route_id == route.id)) db.key_routes ≡ true)

-- Where a result comes from.
pub IsSource : Env → Draw → ℕ → String → Db → Resolved → Type 0
IsSource env d key model db res =
    (route : Route) × (entries : List RouteGroupEntry) × (route ∈ db.routes)
    × (route.name ≡ model)
    × MayUse db key route
    × (env.parse_groups route.groups_json ≡ parsed entries)
    × IsGrant db d.now route entries res

Sourced : (Resolved → Type 0) → Option (Router × Resolution) → Type 0
Sourced P none = Unit
Sourced P (some (r, found res)) = P res
Sourced P (some (r, not_a_route)) = Unit
Sourced P (some (r, forbidden)) = Unit
Sourced P (some (r, broken message)) = Unit

Sourced-GrantsIn :
    (P : Resolved → Type 0) (db : Db) (now : ℕ) (route : Route) (entries : List RouteGroupEntry)
    (o : Option (Router × Resolution))
    → ((res : Resolved) → IsGrant db now route entries res → P res)
    → GrantsIn db now route entries o
    → Sourced P o
unfolding Sourced GrantsIn
Sourced-GrantsIn P db now route entries none f g = tt
Sourced-GrantsIn P db now route entries (some (r, found res)) f g = f res g
Sourced-GrantsIn P db now route entries (some (r, not_a_route)) f g = tt
Sourced-GrantsIn P db now route entries (some (r, forbidden)) f g = tt
Sourced-GrantsIn P db now route entries (some (r, broken message)) f g = tt

resolve_groups-Sourced :
    (env : Env) (d : Draw) (key : ℕ) (model fp : String) (route : Route) (r : Router) (p : Parsed)
    → env.parse_groups route.groups_json ≡ p
    → route ∈ r.db.routes
    → route.name ≡ model
    → MayUse r.db key route
    → Sourced (IsSource env d key model r.db) (resolve_groups env d fp route r p)
unfolding resolve_groups Sourced IsSource
resolve_groups-Sourced env d key model fp route r (parse_error message) e m n u = tt
resolve_groups-Sourced env d key model fp route r (parsed []) e m n u = tt
resolve_groups-Sourced env d key model fp route r (parsed (x ∷ xs)) e m n u =
    Sourced-GrantsIn (IsSource env d key model r.db) r.db d.now route (x ∷ xs)
      (resolve_groups env d fp route r (parsed (x ∷ xs))) (λ res g. (route, x ∷ xs, m, n, u, e, g))
      (resolve_groups-GrantsIn env d fp route r x xs)

resolve_found-Sourced :
    (env : Env) (d : Draw) (key : ℕ) (model fp : String) (r : Router) (o : Option Route)
    → ((route : Route) → o ≡ some route → (route ∈ r.db.routes) × (str_eq route.name model ≡ true))
    → Sourced (IsSource env d key model r.db) (resolve_found env d fp r (check_right r.db key o))
unfolding resolve_found check_right Sourced MayUse
resolve_found-Sourced env d key model fp r none h = tt
resolve_found-Sourced env d key model fp r (some route) h =
    let (m, t) = h route refl in
    let name : route.name ≡ model = (eq_iff route.name model).0 t in
    let P : FoundRoute → Type 0 =
      λ x. Sourced (IsSource env d key model r.db) (resolve_found env d fp r x) in
    let linked : Bool =
      exists (λ l. (l.key_id == key) && (l.route_id == route.id)) r.db.key_routes in
    let go =
      resolve_groups-Sourced env d key model fp route r (env.parse_groups route.groups_json) refl m
        name in
    chosen P (has_route_binding r.db key) (if linked then found_route route else no_right)
      (found_route route)
      (λ _. chosen P linked (found_route route) no_right (λ l. go (inr l)) (λ _. tt))
      (λ b. go (inl b))

-- What `Resolve` finds comes from a route of the requested name that the key may use: the group and
-- the model are those of one of its entries, drawn or remembered, and the account, if there is one, is
-- active, not paused and in that group, under every strategy and every random number.
pub resolve-found :
    (env : Env) (d : Draw) (key : ℕ) (model : String) (messages : List (String × String))
    (r r' : Router) (res : Resolved)
    → resolve env d (some key) model messages r ≡ some (r', found res)
    → IsSource env d key model r.db res
unfolding resolve find_route Sourced
resolve-found env d key model messages r r' res e =
    subst (Sourced (IsSource env d key model r.db)) e (
      resolve_found-Sourced env d key model (env.hash (fingerprint_text messages)) r
        (find (λ x. str_eq x.name model) r.db.routes)
        (λ route q. find_sound (λ x. str_eq x.name model) r.db.routes route q))
