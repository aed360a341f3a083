-- ===== src/Account/Service.antt =====
-- internal/account/service.go: logging in, refreshing an account and its models. Plugins answer as the
-- record `Plugins` says, where `running` is whether `Get` gives an instance; JSON and the encryption
-- are the record `Codec`. The database's writes succeed. The context and the event loop of
-- `SubscribeRefresh`, which calls `refresh` for each event, are left out.
pub mod Operations
pub mod Login
pub mod Refreshing
pub mod Names
use claw_proxy_hub_next.Base.{
  ℕ, ◌+◌, ◌/◌, ◌==◌, String, str_eq, Bool, not, ◌&&◌, Option, none, some, List, [], ◌∷◌, ◌++◌, map,
  find, if◌then◌else◌, trim_space, ◌⊎◌, inl, inr,
}
use claw_proxy_hub_next.Data.{Account, CredentialBlob}
use claw_proxy_hub_next.Gateway.Envelope.{Error}
use claw_proxy_hub_next.Router.Db.{Db, Plugin}
use claw_proxy_hub_next.Account.Proxies.{ProxyTables, proxy_for_account}
use claw_proxy_hub_next.Account.Credits.{CreditDaily, Floats, record_credit_snapshot}

-- The messages, where `rest` is what the core does not read.
pub record Profile : Type 0 where
  pub display_name : String
  pub credits_json : String
  pub rest : String

pub record ModelInfo : Type 0 where
  pub id : String
  pub rest : String

pub record RefreshResult : Type 0 where
  pub error : Option Error
  pub blob : String
  pub profile : Option Profile

pub record LoginResult : Type 0 where
  pub error : Option Error
  pub blob : String
  pub profile : Option Profile
  pub next : Option String

-- The answer of a call, or its error.
pub data Reply (A : Type 0) : Type 0 where
  unimplemented : Reply A
  call_error : (message : String) → Reply A
  reply : A → Reply A

pub record Plugins : Type 0 where
  pub running : String → Bool
  pub refresh : String → CredentialBlob → Reply RefreshResult
  pub list_models : String → CredentialBlob → Reply (List ModelInfo)
  pub login : (plugin method form state : String) → Reply LoginResult

pub record Codec : Type 0 where
  pub encrypt : String → String
  pub decrypt : String → String
  pub marshal_profile : Profile → Option String
  pub marshal_model : ModelInfo → Option String
  pub unmarshal_model : String → Option ModelInfo
  pub marshal_list : List String → Option String
  pub unmarshal_list : String → Option (List String)

-- `next_id` is the key that the database gives to the next account.
pub record World : Type 0 where
  pub db : Db
  pub proxies : ProxyTables
  pub daily : List CreditDaily
  pub next_id : ℕ

pub data ServiceError : Type 0 where
  no_account : ServiceError
  no_plugin : ServiceError
  not_running : ServiceError
  not_refreshable : ServiceError
  plugin_error : (message : String) → ServiceError
  unauthorized : (message : String) → ServiceError

pub data LoginOutcome : Type 0 where
  next_step : String → LoginOutcome
  logged_in : (account_id : ℕ) → Option Profile → LoginOutcome

abbrev pub account_by_id : ℕ → Db → Option Account
account_by_id id db = find (λ a. a.id == id) db.accounts

-- `pluginName`
abbrev name_or_error : Option Plugin → ServiceError ⊎ String
name_or_error none = inl no_plugin
name_or_error (some p) = inr p.name

unfoldable pub plugin_name : Db → ℕ → ServiceError ⊎ String
plugin_name db id = name_or_error (find (λ p. p.id == id) db.plugins)

abbrev pub update_account : ℕ → (Account → Account) → Db → Db
update_account id f db = record db {
  accounts = map (λ a. if a.id == id then f a else a) db.accounts;
}

-- `shouldAdoptDisplayName`
unfoldable pub should_adopt_display_name : String → String → Bool
should_adopt_display_name current from_plugin =
    not (str_eq (trim_space from_plugin) "") && str_eq (trim_space current) ""

abbrev or_text : String → Option String → String
or_text def none = def
or_text def (some s) = s

-- `profileJSON`
unfoldable pub profile_json : Codec → Profile → String
profile_json c p = or_text "{}" (c.marshal_profile p)

abbrev seconds : Option ℕ → ℕ
seconds none = 0
seconds (some t) = t / 1000000000

abbrev pub credential : Codec → ProxyTables → Account → CredentialBlob
credential c proxies acct = record {
  account_id = acct.id;
  blob = c.decrypt acct.credential_blob;
  updated_at = seconds acct.last_refresh_at;
  proxy = proxy_for_account proxies acct.id;
}

-- The `updates` of `Refresh`.
abbrev pub with_blob : Codec → String → Account → Account
with_blob c blob a = if str_eq blob "" then a else record a { credential_blob = c.encrypt blob }

unfoldable pub adopt_profile : Codec → Option Profile → Account → Account
unfolding profile_json should_adopt_display_name
adopt_profile c none a = a
adopt_profile c (some p) a = record a {
  profile_json = profile_json c p;
  display_name =
      if should_adopt_display_name a.display_name p.display_name
      then p.display_name
      else a.display_name;
  credits_json = if str_eq p.credits_json "" then a.credits_json else p.credits_json;
}

unfoldable pub refreshed : Codec → ℕ → RefreshResult → Account → Account
unfolding adopt_profile
refreshed c now result a = record (adopt_profile c result.profile (with_blob c result.blob a)) {
  last_refresh_at = some now;
  status = "active";
}

-- `result.Error != nil && result.Error.Code != 0`
abbrev pub refused : Option Error → Option Error
refused none = none
refused (some e) = if e.code == 0 then none else some e
