-- ===== src/Router/Resolved.antt =====
-- The results of internal/router/router.go.
use claw_proxy_hub_next.Base.{ℕ, String, Option}
use claw_proxy_hub_next.Data.{Account, Route}

pub record Resolved : Type 0 where
  pub route : Option Route
  pub account : Option Account
  pub real_model : String
  pub group_id : ℕ
  pub plugin_name : String

-- What `Resolve` returns: `(nil, nil)`, `ErrRouteForbidden`, another error, or a result.
pub data Resolution : Type 0 where
  not_a_route : Resolution
  forbidden : Resolution
  broken : (message : String) → Resolution
  found : Resolved → Resolution
