-- ===== src/Task/Engine/Examples.antt =====
-- A rule that runs every hour for one account.
use claw_proxy_hub_next.Base.{
  ℕ, String, List, Option, trim_space, true, false, none, some, [], ◌∷◌, All, map, some_injective,
  ◌≡◌, refl, arith,
}
use claw_proxy_hub_next.Data.{Account}
use claw_proxy_hub_next.Event.Bus.{new_bus, subscribe}
use claw_proxy_hub_next.Task.Engine.{
  TaskRule, TaskResponse, replied, Clock, Runner, Engine, select_accounts,
}
use claw_proxy_hub_next.Task.Engine.Execute.{execute_rule}
use claw_proxy_hub_next.Task.Engine.Tick.{fire, do_tick}
use claw_proxy_hub_next.Task.Engine.Due.{Rests, fire-Rests}
use claw_proxy_hub_next.Task.Engine.Rules.{
  Capability, parse_schedule, ensure_account_rules, schedule_once,
}
use claw_proxy_hub_next.Task.Engine.Rules.Defaults.{AddsDefaults, ensure_account_rules-IsDefault}
use claw_proxy_hub_next.Task.Engine.Runs.{Leaves, execute_rule-Leaves}

abbrev account : Account
account = record {
  id = 7;
  plugin_id = 1;
  credential_blob = "sealed";
  credits_json = "";
  models_json = "";
  status = "active";
  paused_until = none;
  last_refresh_at = none;
  last_used_at = none;
  display_name = "";
  profile_json = "{}";
}

abbrev hourly : TaskRule
hourly = record {
  id = 1;
  plugin_id = 1;
  capability_id = "checkin";
  trigger_type = "interval";
  trigger_value = "1h";
  target_scope = "rotate";
  target_json = "[]";
  enabled = true;
  last_run_at = none;
  next_run_at = some 5;
}

abbrev reply : TaskResponse
reply = record { error = none; summary = "done"; detail_json = ""; changed = true; blob = "fresh" }

abbrev runner : Runner
runner = record {
  run_task = λ n plugin capability cred. replied reply;
  target_ids = λ s. none;
  json_error = λ s. "not a list";
  decrypt = λ s. s;
  encrypt = λ s. s;
}

abbrev clock : Clock
clock = record {
  parse_duration = λ s. some 3600000000000;
  scan_daily = λ s. none;
  date_at = λ from hh mm. from;
  parse_time = λ s. none;
  civil = λ t. record { minute = 0; hour = 0; day = 1; month = 1; weekday = 0 };
}

abbrev engine : Engine
engine = record {
  db = record {
    accounts = account ∷ [];
    account_groups = [];
    groups = [];
    plugins = record { id = 1; name = "qwen" } ∷ [];
    routes = [];
    key_routes = [];
  };
  proxies = record { account_proxies = []; group_proxies = []; account_groups = []; proxies = [] };
  rules = hourly ∷ [];
  runs = [];
  bus = subscribe "task.completed" new_bus;
}

fire-Rests_example : All (Rests 10 1) (fire clock runner 10 engine hourly).rules
fire-Rests_example =
    fire-Rests clock runner 10 engine hourly
      (λ d e. let h : 3600000000000 ≡ d = some_injective e in ground (arith, h))
      (λ hh mm e. absurd (cc))

execute_rule-Leaves_example :
    Leaves 10 engine.db hourly engine.runs
      (execute_rule runner 10 hourly engine).runs
      (select_accounts runner engine.db hourly)
execute_rule-Leaves_example = execute_rule-Leaves runner 10 hourly engine

-- The run has succeeded, and the credential that came back is kept.
kept : (map (λ a. a.credential_blob) (do_tick clock runner 10 engine).db.accounts) ≡ "fresh" ∷ []
unfolding do_tick
kept = refl

-- A plugin with a capability for accounts and one without.
abbrev capabilities : List Capability
capabilities =
    record { id = "checkin"; per_account = true; default_schedule = " interval 6h" }
    ∷ record { id = "report"; per_account = false; default_schedule = "" }
    ∷ []

abbrev noon : ℕ → String
noon t = "2026-01-01T12:00:00Z"

abbrev listed : String → Option (List Capability)
listed name = some capabilities

ensure_account_rules-IsDefault_example :
    AddsDefaults 1 7 capabilities engine.rules
      (ensure_account_rules noon 10 2 7 listed "qwen" engine).rules
ensure_account_rules-IsDefault_example =
    ensure_account_rules-IsDefault noon 10 2 7 listed "qwen" engine
      (record { id = 1; name = "qwen" }) capabilities refl refl refl

parsed : parse_schedule "now" " interval 6h" ≡ ("interval", "6h")
unfolding parse_schedule trim_space
parsed = refl

no_value : parse_schedule "now" "cron" ≡ ("daily", "09:00")
unfolding parse_schedule trim_space
no_value = refl

-- A rule of one account for this instant runs in the next round.
ran_once :
    map (λ r. r.status) (do_tick clock runner 3 (schedule_once noon 3 2 1 "checkin" 7 engine)).runs
    ≡ "failed" ∷ []
unfolding do_tick schedule_once
ran_once = refl
