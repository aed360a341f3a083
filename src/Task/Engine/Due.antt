-- ===== src/Task/Engine/Due.antt =====
-- A rule that has fired is not due again at once.
use claw_proxy_hub_next.Base.{
  ℕ, ◌+◌, ◌<◌, ◌*◌, ◌==◌, String, str_eq, Bool, true, false, not, ◌&&◌, Option, none, some, List,
  [], ◌∷◌, All, positive64, ◌≡◌, refl, arith, chosen, Bool-cases, Option-cases, inl, inr,
}
use claw_proxy_hub_next.Data.{Account}
use claw_proxy_hub_next.Task.Cron.{
  Civil, CronFields, minutes_ahead, one_minute, next_cron, parse_cron_expr,
}
use claw_proxy_hub_next.Task.Cron.Next.{IsNext, next_cron-IsNext}
use claw_proxy_hub_next.Task.Engine.{
  TaskRule, Clock, Runner, Engine, Selected, select_error, accounts_of, compute_next, day,
  interval_next, daily_next, select_accounts,
}
use claw_proxy_hub_next.Task.Engine.Execute.{
  execute_rule, run_account, run_accounts, run_selected, record_run,
}
use claw_proxy_hub_next.Task.Engine.Tick.{advance, reached, is_due, fire, replace}

and_false : (a b : Bool) → b ≡ false → (a && b) ≡ false
and_false true b h = h
and_false false b h = refl

-- The next run of a rule is behind the instant, or there is none.
Later : ℕ → Option ℕ → Type 0
Later now next = reached now next ≡ false

IsNext-Later :
    (civil : ℕ → Civil) (f : CronFields) (now limit : ℕ) (next : Option ℕ)
    → IsNext civil f now limit next
    → Later now next
unfolding Later IsNext
IsNext-Later civil f now limit none h = refl
IsNext-Later civil f now limit (some t) h = ground (arith, h)

next_cron-Later :
    (civil : ℕ → Civil) (expr : String) (now : ℕ) → Later now (next_cron civil expr now)
next_cron-Later civil expr now = elim (Option-cases (parse_cron_expr expr)) [
  | inl e ↦ unfold next_cron Later in rw e refl
  | inr (f, e) ↦
      IsNext-Later civil f now (now + minutes_ahead * one_minute) (next_cron civil expr now)
        (next_cron-IsNext civil expr f now e)
]

module _ (c : Clock) (now : ℕ) (rule : TaskRule)
    (forward : (d : ℕ) → c.parse_duration rule.trigger_value ≡ some d → positive64 d ≡ true)
    (same_day : (hh mm : ℕ)
      → c.scan_daily rule.trigger_value ≡ some (hh, mm)
      → now < c.date_at now hh mm + day) where
  interval-Later : Later now (interval_next now (c.parse_duration rule.trigger_value))
  unfolding Later
  interval-Later = elim (Option-cases (c.parse_duration rule.trigger_value)) [
    | inl e ↦ rw e refl
    | inr (d, e) ↦ let p = forward d e in rw e (ground (arith, p))
  ]

  daily-Later : Later now (daily_next c now (c.scan_daily rule.trigger_value))
  unfolding Later
  daily-Later = elim (Option-cases (c.scan_daily rule.trigger_value)) [
    | inl e ↦ rw e refl
    | inr ((hh, mm), e) ↦ let p = same_day hh mm e in rw e (ground (arith, p))
  ]

  compute_next-Later : str_eq rule.trigger_type "once" ≡ false → Later now (compute_next c rule now)
  unfolding compute_next
  compute_next-Later h =
      let type = str_eq rule.trigger_type in
      chosen (Later now) (type "interval") _ _ (λ e. interval-Later)
        λ e.
          chosen (Later now) (type "daily") _ _ (λ e. daily-Later)
            λ e.
              chosen (Later now) (type "cron") _ _
                (λ e. next_cron-Later c.civil rule.trigger_value now)
                λ e. rw h (unfold Later in refl)

  advance-due : is_due now (advance c now rule) ≡ false
  unfolding advance Later
  advance-due = elim (Bool-cases (str_eq rule.trigger_type "once")) [
    | inl e ↦ rw e refl
    | inr e ↦ and_false (not (str_eq rule.trigger_type "once")) _ (compute_next-Later e)
  ]

-- No run of a rule changes a rule.
run_accounts-rules :
    (r : Runner) (now : ℕ) (rule : TaskRule) (e : Engine) (accts : List (Option Account))
    → (run_accounts r now rule e accts).rules ≡ e.rules
unfolding run_accounts run_account
run_accounts-rules r now rule e [] = refl
run_accounts-rules r now rule e (acct ∷ accts) =
    run_accounts-rules r now rule (run_account r now rule e acct) accts

run_selected-rules :
    (r : Runner) (now : ℕ) (rule : TaskRule) (e : Engine) (selected : Selected)
    → (run_selected r now rule e selected).rules ≡ e.rules
unfolding record_run
run_selected-rules r now rule e (select_error message) = refl
run_selected-rules r now rule e (accounts_of accts) = run_accounts-rules r now rule e accts

-- A row of the rule `id` that is not due.
abbrev pub Rests : ℕ → ℕ → TaskRule → Type 0
Rests now id x = x.id ≡ id → is_due now x ≡ false

replace-Rests :
    (now : ℕ) (rule : TaskRule) (rules : List TaskRule)
    → is_due now rule ≡ false
    → All (Rests now rule.id) (replace rule rules)
replace-Rests now rule [] h = tt
replace-Rests now rule (x ∷ xs) h = (
  chosen (Rests now rule.id) (x.id == rule.id) rule x (λ e same. h)
      (λ e same. absurd (ground (arith, e, same))),
  replace-Rests now rule xs h,
)

-- After a rule has fired, whatever its runs did, no row with its identifier is due at the same
-- instant: a rule of type `once` is disabled, and the others have their next run later or none. It
-- needs an interval above zero, and that the day's time of a `daily` rule is less than 24 hours past.
pub fire-Rests :
    (c : Clock) (r : Runner) (now : ℕ) (e : Engine) (rule : TaskRule)
    → ((d : ℕ) → c.parse_duration rule.trigger_value ≡ some d → positive64 d ≡ true)
    → ((hh mm : ℕ)
        → c.scan_daily rule.trigger_value ≡ some (hh, mm)
        → now < c.date_at now hh mm + day)
    → All (Rests now rule.id) (fire c r now e rule).rules
unfolding fire execute_rule
fire-Rests c r now e rule forward same_day =
    let rule' = advance c now rule in
    let rules' = replace rule' e.rules in
    let e' : Engine = record e { rules = rules' } in
    rw (run_selected-rules r now rule' e' (select_accounts r e.db rule'))
      (unfold advance in replace-Rests now rule' e.rules (advance-due c now rule forward same_day))
