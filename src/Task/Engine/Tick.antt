-- ===== src/Task/Engine/Tick.antt =====
-- `doTick`, `fire` and `Start` of internal/task/engine.go: which rules fire.
use claw_proxy_hub_next.Base.{
  ℕ, zero, suc, ◌==◌, leb, str_eq, Bool, false, not, ◌&&◌, Option, none, some, List, [], ◌∷◌, map,
  select, if◌then◌else◌,
}
use claw_proxy_hub_next.Task.Engine.{
  TaskRule, TaskRun, Clock, Runner, Engine, compute_next, is_none,
}
use claw_proxy_hub_next.Task.Engine.Execute.{execute_rule}

-- The row of a rule that fires.
unfoldable pub advance : Clock → ℕ → TaskRule → TaskRule
unfolding compute_next
advance c now rule = record rule {
  last_run_at = some now;
  next_run_at = compute_next c rule now;
  enabled = not (str_eq rule.trigger_type "once");
}

abbrev pub replace : TaskRule → List TaskRule → List TaskRule
replace rule = map (λ x. if x.id == rule.id then rule else x)

-- `fire`
unfoldable pub fire : Clock → Runner → ℕ → Engine → TaskRule → Engine
unfolding advance execute_rule
fire c r now e rule =
    let rule' = advance c now rule in
    execute_rule r now rule' (record e { rules = replace rule' e.rules })

-- A rule without a next run gets one, or is disabled.
abbrev scheduled : TaskRule → Option ℕ → TaskRule
scheduled rule none = record rule { enabled = false }
scheduled rule (some next) = record rule { next_run_at = some next }

abbrev pub unscheduled : TaskRule → Bool
unscheduled rule = rule.enabled && is_none rule.next_run_at

abbrev pub reached : ℕ → Option ℕ → Bool
reached now none = false
reached now (some t) = leb t now

-- `enabled = true AND next_run_at <= now`
abbrev pub is_due : ℕ → TaskRule → Bool
is_due now rule = rule.enabled && reached now rule.next_run_at

-- `Limit(n)`
abbrev take {ℓ} : {A : Type ℓ} → ℕ → List A → List A
take zero xs = []
take (suc n) [] = []
take (suc n) (x ∷ xs) = x ∷ take n xs

unfoldable pub schedule_each : Clock → ℕ → List TaskRule → List TaskRule → List TaskRule
unfolding compute_next
schedule_each c now [] rules = rules
schedule_each c now (rule ∷ rest) rules =
    schedule_each c now rest (replace (scheduled rule (compute_next c rule now)) rules)

unfoldable pub fire_each : Clock → Runner → ℕ → Engine → List TaskRule → Engine
unfolding fire
fire_each c r now e [] = e
fire_each c r now e (rule ∷ rest) = fire_each c r now (fire c r now e rule) rest

-- `doTick`
unfoldable pub do_tick : Clock → Runner → ℕ → Engine → Engine
unfolding schedule_each fire_each
do_tick c r now e =
    let rules = schedule_each c now (take 50 (select unscheduled e.rules)) e.rules in
    fire_each c r now (record e { rules = rules }) (take 20 (select (is_due now) rules))

-- `Start`: what a process that has ended left running.
abbrev abandoned : TaskRun → TaskRun
abandoned run = if str_eq run.status "running" then record run { status = "failed" } else run

unfoldable pub recover_runs : Engine → Engine
recover_runs e = record e { runs = map abandoned e.runs }
