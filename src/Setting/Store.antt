-- ===== src/Setting/Store.antt =====
-- internal/setting/setting.go: the settings table with a cache in the process. `rows` is the table,
-- whose reads and writes succeed; a duration is a number of nanoseconds as an `int64` pattern, and
-- `time.ParseDuration` is the argument `parse`.
use claw_proxy_hub_next.Base.{
  ℕ, ◌*◌, String, str_eq, ◌||◌, Option, none, some, GoMap, lookup, insert, atoi, sprint_int,
  trim_space, gt64, negative64, positive64, if◌then◌else◌, [],
}
use claw_proxy_hub_next.Data.{default_strategy, valid_route_strategy}

pub record Store : Type 0 where
  pub rows : GoMap String
  pub cache : GoMap String

-- `New`
abbrev pub new_store : GoMap String → Store
new_store rows = record { rows = rows; cache = [] }

-- What `First` finds after a miss in the cache.
abbrev fetch : Store → String → String → Option String → Store × String
fetch s key def none = (s, def)
fetch s key def (some v) = (record s { cache = insert key v s.cache }, v)

-- `Get`
abbrev cached : Store → String → String → Option String → Store × String
cached s key def none = fetch s key def (lookup key s.rows)
cached s key def (some v) = (s, v)

unfoldable pub get : Store → String → String → Store × String
get s key def = cached s key def (lookup key s.cache)

-- `Set`
unfoldable pub set : Store → String → String → Store
set s key value = record { rows = insert key value s.rows; cache = insert key value s.cache }

-- `EnsureDefault` asks the table.
abbrev ensure_row : Store → String → String → Option String → Store
ensure_row s key def none = set s key def
ensure_row s key def (some v) = s

unfoldable pub ensure_default : Store → String → String → Store
unfolding set
ensure_default s key def = ensure_row s key def (lookup key s.rows)

abbrev pub second : ℕ
second = 1000000000

abbrev pub minute : ℕ
minute = 60 * second

abbrev pub day : ℕ
day = 24 * 60 * minute

-- `FirstEventTimeout`, in seconds
abbrev or_ninety : Option ℕ → ℕ
or_ninety none = 90
or_ninety (some n) = if positive64 n then n else 90

unfoldable pub first_event_timeout : Store → Store × ℕ
unfolding get
first_event_timeout s =
    let (s', v) = get s "gateway.first_event_timeout" (sprint_int 90) in (s', or_ninety (atoi v))

-- `LogRetentionDays`
abbrev or_zero : Option ℕ → ℕ
or_zero none = 0
or_zero (some n) = if negative64 n then 0 else n

unfoldable pub log_retention_days : Store → Store × ℕ
unfolding get
log_retention_days s = let (s', v) = get s "logs.retention_days" "0" in (s', or_zero (atoi v))

-- `RouteDefaultStrategy`
unfoldable pub route_default_strategy : Store → Store × String
unfolding get
route_default_strategy s =
    let (s', raw) = get s "route.default_strategy" "" in
    let v = trim_space raw in
    let valid = valid_route_strategy v in
    (s', if str_eq v "" then default_strategy else if valid then v else default_strategy)

-- `GatewayUserAgent`, `MarketProxy`, `GitHubProxy` and `MarketplaceURL`
unfoldable pub gateway_user_agent : Store → Store × String
unfolding get
gateway_user_agent s = let (s', v) = get s "gateway.user_agent" "" in (s', trim_space v)

unfoldable pub market_proxy : Store → Store × String
unfolding get
market_proxy s = let (s', v) = get s "network.market_proxy" "" in (s', trim_space v)

unfoldable pub git_hub_proxy : Store → Store × String
unfolding get
git_hub_proxy s = get s "network.github_proxy" ""

unfoldable pub marketplace_url : Store → Store × String
unfolding get
marketplace_url s = get s "network.marketplace_url" ""

module _ (parse : String → Option ℕ) where
  -- `parseDuration`
  abbrev within : ℕ → ℕ → ℕ → Option ℕ → ℕ
  within def min max none = def
  within def min max (some d) = if gt64 min d || gt64 d max then def else d

  unfoldable pub parse_duration : String → ℕ → ℕ → ℕ → ℕ
  parse_duration raw def min max =
      let raw = trim_space raw in if str_eq raw "" then def else within def min max (parse raw)

  -- `StickyTTL` and `StickyCleanPeriod`
  unfoldable pub sticky_ttl : Store → Store × ℕ
  unfolding get parse_duration
  sticky_ttl s =
      let (s', raw) = get s "sticky.ttl" "" in (s', parse_duration raw (30 * minute) minute day)

  unfoldable pub sticky_clean_period : Store → Store × ℕ
  unfolding get parse_duration
  sticky_clean_period s =
      let (s', raw) = get s "sticky.cleanup_interval" "" in
      (s', parse_duration raw (5 * minute) (30 * second) day)
