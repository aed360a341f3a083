-- ===== src/Data.antt =====
-- internal/model/model.go: the rows that the router, the gateway and the scheduler work on, with
-- the columns that they read. Identifiers are `int64` keys that the database counts up from 1;
-- an instant is a number of nanoseconds, and a nullable column is an `Option`.
use claw_proxy_hub_next.Base.{ℕ, String, str_eq, Bool, ◌||◌, Option}

pub record Account : Type 0 where
  pub id : ℕ
  pub plugin_id : ℕ
  pub credential_blob : String
  pub credits_json : String
  pub models_json : String
  pub status : String
  pub paused_until : Option ℕ
  pub last_refresh_at : Option ℕ
  pub last_used_at : Option ℕ
  pub display_name : String
  pub profile_json : String

-- The `ProxyConfig` and the `CredentialBlob` of sdk/proto/cph.proto. `updated_at` is in seconds.
pub record ProxyConfig : Type 0 where
  pub scheme : String
  pub host : String
  pub port : ℕ
  pub username : String
  pub password : String

pub record CredentialBlob : Type 0 where
  pub account_id : ℕ
  pub blob : String
  pub updated_at : ℕ
  pub proxy : Option ProxyConfig

pub record Route : Type 0 where
  pub id : ℕ
  pub name : String
  pub strategy : String
  pub groups_json : String
  pub timeout_seconds : ℕ
  pub failover_enabled : Bool
  pub failover_on_4xx : Bool
  pub failover_on_5xx : Bool
  pub failover_group_id : Option ℕ
  pub failover_model : String
  pub user_agent : String

-- A weight is an `int`, as its 64-bit pattern.
pub record RouteGroupEntry : Type 0 where
  pub group_id : ℕ
  pub weight : ℕ
  pub model : String

abbrev pub sticky : String
sticky = "sticky"

abbrev pub sticky_expiring : String
sticky_expiring = "sticky_expiring"

abbrev pub round_robin : String
round_robin = "round_robin"

abbrev pub random : String
random = "random"

abbrev pub least_used : String
least_used = "least_used"

abbrev pub expiring : String
expiring = "expiring"

abbrev pub default_strategy : String
default_strategy = sticky_expiring

unfoldable pub valid_route_strategy : String → Bool
valid_route_strategy s =
    str_eq s ""
    || str_eq s sticky
    || str_eq s sticky_expiring
    || str_eq s round_robin
    || str_eq s random
    || str_eq s least_used
    || str_eq s expiring

unfoldable pub is_sticky_strategy : String → Bool
is_sticky_strategy s = str_eq s sticky || str_eq s sticky_expiring
