-- ===== src/Task/Engine/Rules.antt =====
-- `parseSchedule`, `ScheduleOnce` and `EnsureAccountRules` of internal/task/engine.go: the rules that
-- the engine makes. `format` is Go's RFC3339 text of an instant, `fresh` the key that the database
-- gives to the next row, and `capabilities` what a plugin lists, or none for an error.
pub mod Defaults
use Prim.Native.String.{len, slice, find as index}
use claw_proxy_hub_next.Base.{
  ℕ, ◌+◌, ltb, leb, String, str_eq, Bool, true, false, ◌||◌, Option, none, some, List, [], ◌∷◌,
  ◌++◌, map, select, find, if◌then◌else◌, append, sprint_int, trim_space,
}
use claw_proxy_hub_next.Router.Db.{Plugin}
use claw_proxy_hub_next.Task.Engine.{TaskRule, Engine}

pub record Capability : Type 0 where
  pub id : String
  pub per_account : Bool
  pub default_schedule : String

-- `strings.Cut` at a space, without the last result
unfoldable pub cut : String → String × String
cut s =
    let i = index s " " in if leb i (len s) then (slice s 0 i, slice s (i + 1) (len s)) else (s, "")

abbrev pub or_text : String → String → String
or_text value def = if str_eq value "" then def else value

-- The switch of `parseSchedule`, where `now` is the text of the instant.
abbrev pub schedule_of : String → String × String → String × String
schedule_of now (kind, value) =
    if str_eq kind "daily"
    then ("daily", or_text value "09:00")
    else if str_eq kind "interval"
    then ("interval", or_text value "6h")
    else if str_eq kind "cron"
    then (if str_eq value "" then ("daily", "09:00") else ("cron", value))
    else if str_eq kind "once"
    then ("once", now)
    else ("daily", "09:00")

-- `parseSchedule`
unfoldable pub parse_schedule : String → String → String × String
unfolding cut
parse_schedule now def = schedule_of now (cut (trim_space def))

-- `Create` of a rule: a column with a default value in its tag, which TaskRule has for `enabled`, for
-- `target_scope` and for `target_json`, gets that value in place of its type's zero value.
unfoldable pub created : ℕ → TaskRule → TaskRule
created id rule = record rule {
  id = id;
  enabled = true;
  target_scope = or_text rule.target_scope "all";
  target_json = or_text rule.target_json "[]";
}

-- `fmt.Sprintf("[%d]", accountID)`
unfoldable pub target_of : ℕ → String
target_of account_id = append "[" (append (sprint_int account_id) "]")

-- `ScheduleOnce`
unfoldable pub schedule_once :
    (ℕ → String) → (now fresh plugin_id : ℕ) → String → (account_id : ℕ) → Engine → Engine
unfolding created target_of
schedule_once format now fresh plugin_id capability_id account_id e =
    let one = ltb 0 account_id in
    let rule : TaskRule = record {
      id = 0;
      plugin_id = plugin_id;
      capability_id = capability_id;
      trigger_type = "once";
      trigger_value = format now;
      target_scope = if one then "account_ids" else "all";
      target_json = if one then target_of account_id else "[]";
      enabled = false;
      last_run_at = none;
      next_run_at = some now;
    } in
    record e { rules = e.rules ++ created fresh rule ∷ [] }

-- The rule of a capability as `EnsureAccountRules` writes it down.
abbrev pub account_rule : String → ℕ → ℕ → Capability → TaskRule
account_rule now plugin_id account_id cap =
    let (tt, tv) = parse_schedule now cap.default_schedule in
    record {
      id = 0;
      plugin_id = plugin_id;
      capability_id = cap.id;
      trigger_type = tt;
      trigger_value = tv;
      target_scope = "account_ids";
      target_json = target_of account_id;
      enabled = false;
      last_run_at = none;
      next_run_at = none;
    }

unfoldable pub create_each :
    String → (fresh plugin_id account_id : ℕ) → List Capability → List TaskRule
unfolding parse_schedule target_of created
create_each now fresh plugin_id account_id [] = []
create_each now fresh plugin_id account_id (cap ∷ rest) =
    let later = create_each now (fresh + 1) plugin_id account_id rest in
    let skipped = create_each now fresh plugin_id account_id rest in
    if cap.per_account
    then created fresh (account_rule now plugin_id account_id cap) ∷ later
    else skipped

abbrev ensure_listed :
    String → (fresh plugin_id account_id : ℕ) → Engine → Option (List Capability) → Engine
ensure_listed now fresh plugin_id account_id e none = e
ensure_listed now fresh plugin_id account_id e (some caps) = record e {
  rules = e.rules ++ create_each now fresh plugin_id account_id caps;
}

abbrev ensure_for :
    String
    → (fresh account_id : ℕ) → (String → Option (List Capability))
    → String
    → Engine
    → Option Plugin
    → Engine
ensure_for now fresh account_id capabilities name e none = e
ensure_for now fresh account_id capabilities name e (some p) =
    ensure_listed now fresh p.id account_id e (capabilities name)

-- `EnsureAccountRules`
unfoldable pub ensure_account_rules :
    (ℕ → String)
    → (now fresh account_id : ℕ) → (String → Option (List Capability))
    → String
    → Engine
    → Engine
unfolding create_each
ensure_account_rules format now fresh account_id capabilities name e =
    ensure_for (format now) fresh account_id capabilities name e
      (find (λ (p : Plugin). str_eq p.name name) e.db.plugins)
