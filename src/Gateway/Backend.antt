-- ===== src/Gateway/Backend.antt =====
-- What internal/gateway/server.go calls: the interfaces `AccountExpirer` and `PluginRegistry`, the
-- router, and the queries behind a credential, over the state of all of them. One request is
-- served, so its key and its messages are fixed in these operations.
use claw_proxy_hub_next.Base.{ℕ, String, Bool, Option, none, some, List, ◌/◌}
use claw_proxy_hub_next.Data.{Account, Route, ProxyConfig, CredentialBlob}
use claw_proxy_hub_next.Router.Resolved.{Resolved, Resolution}
use claw_proxy_hub_next.Gateway.Envelope.{StreamEvent}

-- `Chat`, and the wait for the first event: an error of the channel, no event in time, or the
-- events that come until the channel closes.
pub data ChatOutcome : Type 0 where
  channel_error : (message : String) → ChatOutcome
  silent : ChatOutcome
  opened : List StreamEvent → ChatOutcome

-- `Refresh`: the new row, a failure for which `IsAuthFailure` holds, or another one.
pub data RefreshOutcome : Type 0 where
  refreshed : Account → RefreshOutcome
  auth_failure : (message : String) → RefreshOutcome
  refresh_error : (message : String) → RefreshOutcome

pub record Backend : Type 1 where
  pub World : Type 0
  pub resolve : World → String → World × Resolution
  pub resolve_direct : World → String → String → World × Option Resolved
  pub pick_failover : World → Route → World × Option Resolved
  pub has_route_binding : World → Bool
  pub resolve_model : World → String → Option String
  pub chat : World → String → String → Option CredentialBlob → World × ChatOutcome
  -- `s.accounts != nil`
  pub has_accounts : Bool
  pub refresh : World → ℕ → World × RefreshOutcome
  -- The pause ends after so many nanoseconds, or never.
  pub mark_auto_pause : World → ℕ → String → Option ℕ → World
  pub decrypt_credential : String → String
  pub proxy_for_account_in : World → ℕ → ℕ → Option ProxyConfig

module _ (b : Backend) where
  open b use {World, decrypt_credential, proxy_for_account_in}

  abbrev unix : Option ℕ → ℕ
  unix none = 0
  unix (some t) = t / 1_000_000_000

  -- `buildCred`
  unfoldable pub build_cred : World → Account → ℕ → CredentialBlob
  build_cred w account group_id = record {
    account_id = account.id;
    blob = decrypt_credential account.credential_blob;
    updated_at = unix account.last_refresh_at;
    proxy = proxy_for_account_in w account.id group_id;
  }

  -- `nil` where there is no account.
  abbrev pub cred_of : World → Option Account → ℕ → Option CredentialBlob
  cred_of w none group_id = none
  cred_of w (some a) group_id = some (build_cred w a group_id)
