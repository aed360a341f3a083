-- ===== src/Router/State.antt =====
-- The `Router` of internal/router/router.go: its state, the strategies, and the sticky sessions.
pub mod Sessions
use claw_proxy_hub_next.Base.{
  ℕ, ◌+◌, ◌*◌, ◌==◌, ltb, leb, String, append, str_eq, Bool, true, false, not, ◌&&◌, ◌||◌, Option,
  none, some, List, [], ◌∷◌, if◌then◌else◌, exists, find, lookup, insert, delete, length, add64,
  positive64,
}
use claw_proxy_hub_next.Data.{
  Account, Route, RouteGroupEntry, default_strategy, valid_route_strategy,
}
use claw_proxy_hub_next.Router.Resolved.{Resolved}
use claw_proxy_hub_next.Router.Db.{Db, active_where, in_group, group_plugin}

pub record StickyEntry : Type 0 where
  pub entry : RouteGroupEntry
  pub account_id : ℕ
  pub expires : ℕ

-- Durations are `int64` patterns; the counters of `rr` are 0 where the map has no entry.
pub record Router : Type 0 where
  pub strategy : String
  pub db : Db
  pub rr : ℕ → ℕ
  pub sticky : List (String × StickyEntry)
  pub ttl : ℕ
  pub clean_every : ℕ

abbrev pub minute : ℕ
minute = 60 * 1_000_000_000

abbrev pub default_sticky_ttl : ℕ
default_sticky_ttl = 30 * minute

abbrev pub default_sticky_clean_every : ℕ
default_sticky_clean_every = 5 * minute

abbrev pub sticky_max_entries : ℕ
sticky_max_entries = 4096

-- `SetDefaultStrategy`
unfoldable pub set_default_strategy : String → Router → Router
unfolding valid_route_strategy
set_default_strategy s r = record r {
  strategy = if str_eq s "" || not (valid_route_strategy s) then default_strategy else s;
}

-- `DefaultStrategy`, where no value was stored yet too
unfoldable pub get_default_strategy : Router → String
get_default_strategy r = if str_eq r.strategy "" then default_strategy else r.strategy

-- `effectiveStrategy`
unfoldable pub effective_strategy : Router → Route → String
unfolding get_default_strategy
effective_strategy r route =
    if str_eq route.strategy "" then get_default_strategy r else route.strategy

-- `New`
unfoldable pub new_router : Db → Router
unfolding set_default_strategy
new_router db = set_default_strategy default_strategy (record {
  strategy = "";
  db = db;
  rr = λ _. 0;
  sticky = [];
  ttl = default_sticky_ttl;
  clean_every = default_sticky_clean_every;
})

-- `SetStickyPolicy`
unfoldable pub set_sticky_policy : ℕ → ℕ → Router → Router
set_sticky_policy ttl clean_every r = record r {
  ttl = if positive64 ttl then ttl else r.ttl;
  clean_every = if positive64 clean_every then clean_every else r.clean_every;
}

-- `cleanupSticky`
abbrev pub unexpired : ℕ → List (String × StickyEntry) → List (String × StickyEntry)
unexpired now [] = []
unexpired now ((fp, e) ∷ m) =
    let rest = unexpired now m in if ltb e.expires now then rest else (fp, e) ∷ rest

unfoldable pub cleanup_sticky : ℕ → Router → Router
cleanup_sticky now r =
    let kept = unexpired now r.sticky in
    record r { sticky = if ltb sticky_max_entries (length kept) then [] else kept }

-- `saveSticky`
unfoldable pub save_sticky : ℕ → String → RouteGroupEntry → ℕ → Router → Router
save_sticky now fp entry account_id r =
    let ttl = if positive64 r.ttl then r.ttl else default_sticky_ttl in
    record r {
      sticky =
          insert fp (record { entry = entry; account_id = account_id; expires = now + ttl })
            r.sticky;
    }

-- The entry of the session, if it has not run out; one that has run out is deleted.
unfoldable pub if_running : ℕ → String → Router → Option StickyEntry → Router × Option StickyEntry
if_running now fp r none = (r, none)
if_running now fp r (some e) =
    if ltb e.expires now then (record r { sticky = delete fp r.sticky }, none) else (r, some e)

unfoldable pub session : ℕ → String → Router → Router × Option StickyEntry
unfolding if_running
session now fp r = if_running now fp r (lookup fp r.sticky)

-- What `lookupSticky` asks of an entry and of the account's row.
unfoldable pub matches_entry : StickyEntry → RouteGroupEntry → Bool
matches_entry e en = (en.group_id == e.entry.group_id) && str_eq en.model e.entry.model

unfoldable pub pinned : Db → Route → StickyEntry → Option Account → Option Resolved
unfolding in_group group_plugin
pinned db route e none = none
pinned db route e (some a) =
    if in_group db e.account_id e.entry.group_id
    then some (record {
      route = some route;
      account = some a;
      real_model = e.entry.model;
      group_id = e.entry.group_id;
      plugin_name = group_plugin db e.entry.group_id;
    })
    else none

unfoldable pub check_session :
    Db → ℕ → Route → List RouteGroupEntry → Option StickyEntry → Option Resolved
unfolding matches_entry pinned active_where
check_session db now route entries none = none
check_session db now route entries (some e) =
    if exists (matches_entry e) entries
    then pinned db route e (find (λ a. active_where now a && (a.id == e.account_id)) db.accounts)
    else none

-- `lookupSticky`
unfoldable pub lookup_sticky :
    ℕ → String → Route → List RouteGroupEntry → Router → Router × Option Resolved
unfolding session check_session
lookup_sticky now fp route entries r =
    let (r', e) = session now fp r in (r', check_session r'.db now route entries e)

-- The text that `Fingerprint` hashes, of roles and texts: up to the first message of the user.
unfoldable pub fingerprint_text : List (String × String) → String
fingerprint_text [] = ""
fingerprint_text ((role, text) ∷ ms) =
    let rest = fingerprint_text ms in
    let here = append role (append "\0" (append text "\0")) in
    if str_eq role "user" then here else append here rest
