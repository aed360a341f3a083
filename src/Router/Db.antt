-- ===== src/Router/Db.antt =====
-- The tables that internal/router reads, and its queries, as lists in the order of the primary key.
-- A query that asks for no order gives the rows in that order here; SQLite does not promise it, so it
-- is an assumption of the model. An account is in a group when the join table account_groups says so.
use claw_proxy_hub_next.Base.{
  ℕ, ◌==◌, ltb, String, str_eq, Bool, true, ◌&&◌, Option, none, some, List, [], ◌∷◌, map,
  if◌then◌else◌, select, exists, find,
}
use claw_proxy_hub_next.Data.{Account, Route}

pub record Group : Type 0 where
  pub id : ℕ
  pub plugin_id : ℕ

pub record Plugin : Type 0 where
  pub id : ℕ
  pub name : String

pub record AccountGroup : Type 0 where
  pub account_id : ℕ
  pub group_id : ℕ

pub record KeyRoute : Type 0 where
  pub key_id : ℕ
  pub route_id : ℕ

pub record Db : Type 0 where
  pub accounts : List Account
  pub account_groups : List AccountGroup
  pub groups : List Group
  pub plugins : List Plugin
  pub routes : List Route
  pub key_routes : List KeyRoute

abbrev pub ended : ℕ → Option ℕ → Bool
ended now none = true
ended now (some t) = ltb t now

-- `activeWhere`, at the instant `now`
unfoldable pub active_where : ℕ → Account → Bool
active_where now a = str_eq a.status "active" && ended now a.paused_until

unfoldable pub in_group : Db → ℕ → ℕ → Bool
in_group db account_id group_id =
    exists (λ l. (l.account_id == account_id) && (l.group_id == group_id)) db.account_groups

-- `accountsInGroup`, which asks for no order: the rows in the order of the list
unfoldable pub accounts_in_group : Db → ℕ → ℕ → List Account
unfolding active_where in_group
accounts_in_group db now group_id =
    select (λ a. active_where now a && in_group db a.id group_id) db.accounts

-- `pluginNameByID`
abbrev name_of_plugin : Option Plugin → String
name_of_plugin none = ""
name_of_plugin (some p) = p.name

unfoldable pub plugin_name_by_id : Db → ℕ → String
plugin_name_by_id db id = if id == 0 then "" else name_of_plugin (find (λ p. p.id == id) db.plugins)

-- `groupPlugin`
abbrev plugin_of_group : Db → Option Group → String
plugin_of_group db none = ""
plugin_of_group db (some g) = name_of_plugin (find (λ p. p.id == g.plugin_id) db.plugins)

unfoldable pub group_plugin : Db → ℕ → String
group_plugin db group_id = plugin_of_group db (find (λ g. g.id == group_id) db.groups)

-- `firstGroupOf`: the least group of the account, or 0.
abbrev least : ℕ → List ℕ → ℕ
least best [] = best
least best (g ∷ gs) = if ltb g best then least g gs else least best gs

abbrev least_or_zero : List ℕ → ℕ
least_or_zero [] = 0
least_or_zero (g ∷ gs) = least g gs

unfoldable pub first_group_of : Db → ℕ → ℕ
first_group_of db account_id =
    least_or_zero
      (map (λ l. l.group_id) (select (λ l. l.account_id == account_id) db.account_groups))

-- `markUsed`
abbrev use_at : ℕ → ℕ → Account → Account
use_at id now a = if a.id == id then record a { last_used_at = some now } else a

unfoldable pub mark_used : Db → ℕ → ℕ → Db
mark_used db now id = record db { accounts = map (use_at id now) db.accounts }

-- `HasRouteBinding`
unfoldable pub has_route_binding : Db → ℕ → Bool
has_route_binding db key_id = exists (λ l. l.key_id == key_id) db.key_routes

-- `findRoute`: no route of that name, a route that the key has no right to, or the route.
pub data FoundRoute : Type 0 where
  no_route : FoundRoute
  no_right : FoundRoute
  found_route : Route → FoundRoute

unfoldable pub check_right : Db → ℕ → Option Route → FoundRoute
unfolding has_route_binding
check_right db key_id none = no_route
check_right db key_id (some route) =
    if has_route_binding db key_id
    then (if exists (λ l. (l.key_id == key_id) && (l.route_id == route.id)) db.key_routes
        then found_route route
        else no_right)
    else found_route route

unfoldable pub find_route : Db → ℕ → String → FoundRoute
unfolding check_right
find_route db key_id name = check_right db key_id (find (λ r. str_eq r.name name) db.routes)
