-- ===== src/Task/Engine/Rules/Defaults.antt =====
-- The rules that a new account gets.
use claw_proxy_hub_next.Base.{
  ℕ, ◌+◌, String, str_eq, true, false, ◌||◌, Option, none, some, List, [], ◌∷◌, ◌++◌, map, select,
  find, All, append, append_nonempty, sprint_int, trim_space, arith, ◌≡◌, refl, ap, chosen,
  Bool-cases, inl, inr,
}
use claw_proxy_hub_next.Router.Db.{Plugin}
use claw_proxy_hub_next.Task.Engine.{TaskRule, Engine}
use claw_proxy_hub_next.Task.Engine.Rules.{
  Capability, cut, or_text, schedule_of, parse_schedule, created, target_of, account_rule,
  create_each, ensure_account_rules,
}

-- A type that `computeNext` knows, with a value.
pub IsSchedule : String × String → Type 0
IsSchedule (kind, value) =
    ((str_eq kind "daily" || str_eq kind "interval" || str_eq kind "cron" || str_eq kind "once")
      ≡ true)
    × (str_eq value "" ≡ false)

or_text_full : (value def : String) → str_eq def "" ≡ false → str_eq (or_text value def) "" ≡ false
or_text_full value def h = elim (Bool-cases (str_eq value "")) [
  | inl e ↦ rw e h
  | inr e ↦ rw (e, e) refl
]

schedule_of-IsSchedule :
    (now kind value : String) → str_eq now "" ≡ false → IsSchedule (schedule_of now (kind, value))
unfolding IsSchedule
schedule_of-IsSchedule now kind value h =
    chosen IsSchedule (str_eq kind "daily") _ _ (λ e. (refl, or_text_full value "09:00" refl))
      λ e.
        chosen IsSchedule (str_eq kind "interval") _ _ (λ e. (refl, or_text_full value "6h" refl))
          λ e.
            chosen IsSchedule (str_eq kind "cron") _ _
              (λ e. chosen IsSchedule (str_eq value "") _ _ (λ e. (refl, refl)) (λ e. (refl, e)))
              λ e. chosen IsSchedule (str_eq kind "once") _ _ (λ e. (refl, h)) (λ e. (refl, refl))

pub parse_schedule-IsSchedule :
    (now def : String) → str_eq now "" ≡ false → IsSchedule (parse_schedule now def)
unfolding parse_schedule
parse_schedule-IsSchedule now def h =
    schedule_of-IsSchedule now (cut (trim_space def)).0 (cut (trim_space def)).1 h

-- A rule for one account of a plugin, as the database has it.
pub IsDefault : (plugin_id account_id : ℕ) → TaskRule → Type 0
IsDefault plugin_id account_id rule =
    (rule.plugin_id ≡ plugin_id)
    × (rule.target_scope ≡ "account_ids")
    × (rule.target_json ≡ target_of account_id)
    × (rule.enabled ≡ true)
    × (rule.next_run_at ≡ none)
    × IsSchedule (rule.trigger_type, rule.trigger_value)

target_kept : (account_id : ℕ) → or_text (target_of account_id) "[]" ≡ target_of account_id
unfolding target_of
target_kept account_id =
    let full = append_nonempty "[" (append (sprint_int account_id) "]") (omega arith) in
    rw full refl

created-IsDefault :
    (now : String) (fresh plugin_id account_id : ℕ) (cap : Capability)
    → str_eq now "" ≡ false
    → IsDefault plugin_id account_id (created fresh (account_rule now plugin_id account_id cap))
unfolding created IsDefault
created-IsDefault now fresh plugin_id account_id cap h = (
  refl,
  refl,
  target_kept account_id,
  refl,
  refl,
  parse_schedule-IsSchedule now cap.default_schedule h,
)

module _ (now : String) (plugin_id account_id : ℕ) where
  create_each-IsDefault :
      (fresh : ℕ) (caps : List Capability)
      → str_eq now "" ≡ false
      → All (IsDefault plugin_id account_id) (create_each now fresh plugin_id account_id caps)
  unfolding create_each
  create_each-IsDefault fresh [] h = tt
  create_each-IsDefault fresh (cap ∷ rest) h =
      chosen (All (IsDefault plugin_id account_id)) cap.per_account _ _
        (λ e. (
          created-IsDefault now fresh plugin_id account_id cap h,
          create_each-IsDefault (fresh + 1) rest h,
        ))
        (λ e. create_each-IsDefault fresh rest h)

  create_each-capabilities :
      (fresh : ℕ) (caps : List Capability)
      → map (λ r. r.capability_id) (create_each now fresh plugin_id account_id caps)
        ≡ map (λ c. c.id) (select (λ c. c.per_account) caps)
  unfolding create_each created
  create_each-capabilities fresh [] = refl
  create_each-capabilities fresh (cap ∷ rest) = elim (Bool-cases cap.per_account) [
    | inl e ↦ rw e (ap (λ xs. cap.id ∷ xs) (create_each-capabilities (fresh + 1) rest))
    | inr e ↦ rw e (create_each-capabilities fresh rest)
  ]

-- Rules are added behind the others, one for each capability that is per account, in order.
pub AddsDefaults : (plugin_id account_id : ℕ) → List Capability → (old new : List TaskRule) → Type 0
AddsDefaults plugin_id account_id caps old new =
    (made : List TaskRule) × (new ≡ old ++ made)
    × (map (λ r. r.capability_id) made ≡ map (λ c. c.id) (select (λ c. c.per_account) caps))
    × All (IsDefault plugin_id account_id) made

-- A new account gets one rule behind the others for each capability of its plugin that is per
-- account, in order: with the account as its target, no next run, and a type and a value that are
-- not empty. The rule is enabled, because `Create` puts the default of the column in place of false.
pub ensure_account_rules-IsDefault :
    (format : ℕ → String) (now fresh account_id : ℕ)
    (capabilities : String → Option (List Capability)) (name : String) (e : Engine) (p : Plugin)
    (caps : List Capability)
    → str_eq (format now) "" ≡ false
    → find (λ (x : Plugin). str_eq x.name name) e.db.plugins ≡ some p
    → capabilities name ≡ some caps
    → AddsDefaults p.id account_id caps e.rules
        (ensure_account_rules format now fresh account_id capabilities name e).rules
unfolding ensure_account_rules AddsDefaults
ensure_account_rules-IsDefault format now fresh account_id capabilities name e p caps full found
      listed =
    let made = create_each (format now) fresh p.id account_id caps in
    (
      made,
      rw found (rw listed refl),
      create_each-capabilities (format now) p.id account_id fresh caps,
      create_each-IsDefault (format now) p.id account_id fresh caps full,
    )
