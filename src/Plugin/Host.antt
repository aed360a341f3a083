-- ===== src/Plugin/Host.antt =====
-- internal/plugin/host.go: what a plugin may call back. The table plugin_storage maps a plugin's name and
-- a key to a value; each `HostService` has a cache of it. Values are texts here, and reads succeed.
pub mod Storage
pub mod Settings
use claw_proxy_hub_next.Base.{
  ℕ, ◌==◌, String, str_eq, Bool, true, false, not, ◌||◌, Option, none, some, List, [], ◌∷◌, GoMap,
  lookup, insert, if◌then◌else◌, trim_space, trim_prefix, has_prefix, select, find, str_eq,
}
use claw_proxy_hub_next.Data.{ProxyConfig}
use claw_proxy_hub_next.Account.Proxies.{ProxyTables, proxy_for_group}

-- A map from plugins' names to maps: `m[plugin][key]` and `m[plugin][key] = value`.
abbrev pub Stores : Type 0
Stores = GoMap (GoMap String)

abbrev pub or_none : Option (GoMap String) → GoMap String
or_none none = []
or_none (some m) = m

abbrev pub value_at : String → String → Stores → Option String
value_at plugin key m = lookup key (or_none (lookup plugin m))

abbrev pub write_at : String → String → String → Stores → Stores
write_at plugin key value m = insert plugin (insert key value (or_none (lookup plugin m))) m

pub record HostService : Type 0 where
  pub plugin : String
  pub stores : Stores

-- `NewHostService` and `SetPluginName`
abbrev pub new_host_service : HostService
new_host_service = record { plugin = ""; stores = [] }

abbrev pub set_plugin_name : String → HostService → HostService
set_plugin_name name h = record h { plugin = name }

-- `StoreGet`
abbrev get_row : HostService → String → Option String → HostService × Option String
get_row h key none = (h, none)
get_row h key (some v) = (record h { stores = write_at h.plugin key v h.stores }, some v)

abbrev get_cached : HostService → Stores → String → Option String → HostService × Option String
get_cached h table key none = get_row h key (value_at h.plugin key table)
get_cached h table key (some v) = (h, some v)

unfoldable pub store_get : HostService → Stores → String → HostService × Option String
store_get h table key = get_cached h table key (value_at h.plugin key h.stores)

-- `StorePut`; `written` says whether the database has taken the row.
unfoldable pub store_put :
    Bool → HostService → Stores → String → String → (HostService × Stores) × Bool
store_put written h table key value =
    let h' : HostService = record h { stores = write_at h.plugin key value h.stores } in
    if written then ((h', write_at h.plugin key value table), true) else ((h, table), false)

-- `GetProxy`
unfoldable pub get_proxy : ProxyTables → ℕ → Option ProxyConfig
unfolding proxy_for_group
get_proxy t group_id = proxy_for_group t group_id

-- A plugin's setting is a text, or any other JSON value.
pub data Value : Type 0 where
  text : String → Value
  other : (json : String) → Value

-- `outboundIdentity`: the rows `outbound.…`.
unfoldable pub outbound_identity : GoMap String → GoMap String
outbound_identity [] = []
outbound_identity ((key, value) ∷ rows) =
    let rest = outbound_identity rows in
    if has_prefix key "outbound."
    then (trim_prefix key "outbound.", trim_space value) ∷ rest
    else rest

-- Whether the plugin has filled a setting itself.
abbrev pub is_filled : Option Value → Bool
is_filled none = false
is_filled (some (text s)) = not (str_eq (trim_space s) "")
is_filled (some (other json)) = true

-- The loop of `mergeOutboundDefaults`.
unfoldable pub merge_defaults : GoMap String → GoMap Value → GoMap Value
merge_defaults [] cfg = cfg
merge_defaults ((key, value) ∷ rest) cfg =
    if str_eq value "" || is_filled (lookup key cfg)
    then merge_defaults rest cfg
    else merge_defaults rest (insert key (text value) cfg)

-- `GetSettings`; `parse` and `print` are `json.Unmarshal` and `json.Marshal`.
module _ (parse : String → Option (GoMap Value)) (print : GoMap Value → String) where
  abbrev merged : GoMap String → String → Option (GoMap Value) → String
  merged identity values none = values
  merged identity values (some cfg) = print (merge_defaults identity cfg)

  unfoldable pub merge_outbound_defaults : GoMap String → String → String
  unfolding merge_defaults outbound_identity
  merge_outbound_defaults settings values =
      let values = if str_eq (trim_space values) "" then "{}" else values in
      merged (outbound_identity settings) values (parse values)

  -- `settings_json` of the plugin's row, if there is one.
  abbrev stored : Option String → String
  stored none = "{}"
  stored (some s) = if str_eq s "" then "{}" else s

  unfoldable pub get_settings : GoMap String → Option String → String
  unfolding merge_outbound_defaults
  get_settings settings row = merge_outbound_defaults settings (stored row)
