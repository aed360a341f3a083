-- ===== src/Account/Service/Login.antt =====
-- `create` and `SubmitLogin` of internal/account/service.go, at one instant `now` of the day `day`.
use claw_proxy_hub_next.Base.{
  ℕ, ◌+◌, String, str_eq, Option, none, some, [], ◌∷◌, ◌++◌, find, if◌then◌else◌, ◌⊎◌, inl, inr,
}
use claw_proxy_hub_next.Data.{Account}
use claw_proxy_hub_next.Gateway.Envelope.{Error}
use claw_proxy_hub_next.Router.Db.{Plugin}
use claw_proxy_hub_next.Account.Credits.{Floats, record_credit_snapshot}
use claw_proxy_hub_next.Account.Service.{
  Profile, LoginResult, Reply, unimplemented, call_error, reply, Plugins, Codec, World,
  ServiceError, no_plugin, not_running, plugin_error, unauthorized, LoginOutcome, next_step,
  logged_in, profile_json, refused,
}
use claw_proxy_hub_next.Account.Service.Operations.{sync_models}

module _ (c : Codec) (p : Plugins) (f : Floats) (now : ℕ) (day : String) where
  abbrev display_name_of : Option Profile → String
  display_name_of none = ""
  display_name_of (some x) = x.display_name

  abbrev profile_json_of : Option Profile → String
  profile_json_of none = "{}"
  profile_json_of (some x) = profile_json c x

  abbrev credits_json_of : Option Profile → String
  credits_json_of none = ""
  credits_json_of (some x) = x.credits_json

  abbrev new_account : ℕ → Plugin → String → Option Profile → Account
  new_account id plugin blob profile = record {
    id = id;
    plugin_id = plugin.id;
    credential_blob = c.encrypt blob;
    credits_json = credits_json_of profile;
    models_json = "";
    status = "active";
    paused_until = none;
    last_refresh_at = some now;
    last_used_at = none;
    display_name = display_name_of profile;
    profile_json = profile_json_of profile;
  }

  abbrev pub create_for :
      World → String → Option Profile → Option Plugin → World × (ServiceError ⊎ ℕ)
  create_for w blob profile none = (w, inl no_plugin)
  create_for w blob profile (some plugin) =
      let acct = new_account w.next_id plugin blob profile in
      (
        record w {
          db = record w.db { accounts = w.db.accounts ++ acct ∷ [] };
          daily = record_credit_snapshot f now acct.id day acct.credits_json w.daily;
          next_id = w.next_id + 1;
        },
        inr acct.id,
      )

  -- `create`
  unfoldable pub create : String → String → Option Profile → World → World × (ServiceError ⊎ ℕ)
  unfolding profile_json record_credit_snapshot
  create name blob profile w =
      create_for w blob profile (find (λ (x : Plugin). str_eq x.name name) w.db.plugins)

  abbrev pub after_create :
      Option Profile → World × (ServiceError ⊎ ℕ) → World × (ServiceError ⊎ LoginOutcome)
  after_create profile (w, inl e) = (w, inl e)
  after_create profile (w, inr id) = ((sync_models c p id w).0, inr (logged_in id profile))

  abbrev pub login_next :
      String → World → LoginResult → Option String → World × (ServiceError ⊎ LoginOutcome)
  login_next name w result (some step) = (w, inr (next_step step))
  login_next name w result none =
      after_create result.profile (create name result.blob result.profile w)

  abbrev pub login_judged :
      String → World → LoginResult → Option Error → World × (ServiceError ⊎ LoginOutcome)
  login_judged name w result (some e) = (w, inl (unauthorized e.message))
  login_judged name w result none = login_next name w result result.next

  abbrev pub login_reply :
      String → World → Reply LoginResult → World × (ServiceError ⊎ LoginOutcome)
  login_reply name w unimplemented = (w, inl (plugin_error "unimplemented"))
  login_reply name w (call_error message) = (w, inl (plugin_error message))
  login_reply name w (reply result) = login_judged name w result (refused result.error)

  -- `SubmitLogin`
  unfoldable pub submit_login :
      (plugin method form state : String) → World → World × (ServiceError ⊎ LoginOutcome)
  unfolding create sync_models
  submit_login name method form state w =
      if p.running name
      then login_reply name w (p.login name method form state)
      else (w, inl not_running)
