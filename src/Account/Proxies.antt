-- ===== src/Account/Proxies.antt =====
-- internal/account/proxy.go: which proxy an account goes out through. The tables are lists in the order
-- of their primary keys, and their reads succeed.
use claw_proxy_hub_next.Base.{
  ℕ, ◌==◌, ltb, Option, none, some, List, [], ◌∷◌, map, select, find, if◌then◌else◌,
}
use claw_proxy_hub_next.Data.{ProxyConfig}
use claw_proxy_hub_next.Router.Db.{AccountGroup}

-- A row of `account_proxies` or `group_proxies`.
pub record Link : Type 0 where
  pub owner : ℕ
  pub proxy_id : ℕ

pub record ProxyRow : Type 0 where
  pub id : ℕ
  pub config : ProxyConfig

pub record ProxyTables : Type 0 where
  pub account_proxies : List Link
  pub group_proxies : List Link
  pub account_groups : List AccountGroup
  pub proxies : List ProxyRow

-- The least of some numbers: the first row in the order of the column.
abbrev least_from : ℕ → List ℕ → ℕ
least_from best [] = best
least_from best (n ∷ ns) = if ltb n best then least_from n ns else least_from best ns

abbrev pub least_of : List ℕ → Option ℕ
least_of [] = none
least_of (n ∷ ns) = some (least_from n ns)

abbrev config_of : Option ProxyRow → Option ProxyConfig
config_of none = none
config_of (some p) = some p.config

-- The proxy of the first link.
abbrev pub linked : List ProxyRow → Option ℕ → Option ProxyConfig
linked proxies none = none
linked proxies (some id) = config_of (find (λ p. p.id == id) proxies)

abbrev pub links_of : ℕ → List Link → List ℕ
links_of owner links = map (λ l. l.proxy_id) (select (λ l. l.owner == owner) links)

-- `proxyForAccountDirect`
unfoldable pub proxy_for_account_direct : ProxyTables → ℕ → Option ProxyConfig
proxy_for_account_direct t account_id =
    linked t.proxies (least_of (links_of account_id t.account_proxies))

-- `ProxyForGroup`
unfoldable pub proxy_for_group : ProxyTables → ℕ → Option ProxyConfig
proxy_for_group t group_id = linked t.proxies (least_of (links_of group_id t.group_proxies))

-- `a`, or else `b`
abbrev pub or_proxy : Option ProxyConfig → Option ProxyConfig → Option ProxyConfig
or_proxy none b = b
or_proxy (some p) b = some p

abbrev group_proxy : ProxyTables → Option ℕ → Option ProxyConfig
group_proxy t none = none
group_proxy t (some g) = proxy_for_group t g

abbrev pub groups_of : ProxyTables → ℕ → List ℕ
groups_of t account_id =
    map (λ l. l.group_id) (select (λ l. l.account_id == account_id) t.account_groups)

-- `ProxyForAccount`
unfoldable pub proxy_for_account : ProxyTables → ℕ → Option ProxyConfig
unfolding proxy_for_account_direct proxy_for_group
proxy_for_account t account_id =
    or_proxy (proxy_for_account_direct t account_id)
      (group_proxy t (least_of (groups_of t account_id)))

-- `ProxyForAccountIn`
unfoldable pub proxy_for_account_in : ProxyTables → ℕ → ℕ → Option ProxyConfig
unfolding proxy_for_account
proxy_for_account_in t account_id group_id =
    or_proxy (proxy_for_account_direct t account_id)
      (or_proxy (proxy_for_group t group_id) (proxy_for_account t account_id))
