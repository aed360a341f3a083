-- ===== src/Account/Examples.antt =====
-- One account that is paused and resumed.
use claw_proxy_hub_next.Base.{ℕ, ◌+◌, Option, none, some, [], ◌∷◌, refl, ◌∈◌, here}
use claw_proxy_hub_next.Data.{Account}
use claw_proxy_hub_next.Router.Db.{Db, accounts_in_group}
use claw_proxy_hub_next.Account.Pauses.{mark_auto_pause, resume}

abbrev account_until : Option ℕ → Account
account_until until = record {
  id = 1;
  plugin_id = 1;
  credential_blob = "";
  credits_json = "";
  models_json = "";
  status = "active";
  paused_until = until;
  last_refresh_at = none;
  last_used_at = none;
  display_name = "";
  profile_json = "{}";
}

abbrev db_until : Option ℕ → Db
db_until until = record {
  accounts = account_until until ∷ [];
  account_groups = record { account_id = 1; group_id = 1 } ∷ [];
  groups = [];
  plugins = [];
  routes = [];
  key_routes = [];
}

chosen_later :
    account_until (some 10)
    ∈ accounts_in_group (mark_auto_pause (λ t. t + 1000) 3 1 (some 10) (db_until none)) 11 1
unfolding accounts_in_group mark_auto_pause
chosen_later = here refl

resumed : account_until none ∈ (resume 1 (db_until (some 10))).accounts
unfolding resume
resumed = here refl
