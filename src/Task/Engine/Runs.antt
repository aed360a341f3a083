-- ===== src/Task/Engine/Runs.antt =====
-- What an execution of a rule leaves in the table of runs.
use claw_proxy_hub_next.Base.{
  ℕ, ◌==◌, String, str_eq, true, Option, none, some, List, [], ◌∷◌, ◌++◌, map, All, select, exists,
  ◌≡◌, refl, sym, ap, ◌∙◌, ◌⊎◌, inl, inr, ◌∈◌, select_sound, here, there, length, chosen,
}
use mathlib.Core.List.{append_assoc, append-nil}
use claw_proxy_hub_next.Data.{Account}
use claw_proxy_hub_next.Router.Db.{Db, plugin_name_by_id}
use claw_proxy_hub_next.Task.Engine.{
  TaskRule, TaskRun, TaskResponse, Outcome, call_failed, replied, Runner, Engine, Selected,
  select_error, accounts_of, active_of, oldest_from, oldest, earlier, targeted, select_accounts,
}
use claw_proxy_hub_next.Task.Engine.Execute.{
  end_run, judged, refused, running, id_of, credential_for, run_account, run_accounts, execute_rule,
  record_run, run_selected,
}

-- A run that has ended, one way or the other.
pub HasEnded : ℕ → ℕ → TaskRun → Type 0
HasEnded now rule_id run =
    (run.rule_id ≡ rule_id)
    × (run.finished_at ≡ some now)
    × ((run.status ≡ "success") ⊎ (run.status ≡ "failed"))

judged-HasEnded :
    (now : ℕ) (rule : TaskRule) (acct : Option Account) (resp : TaskResponse)
    (refusal : Option String)
    → HasEnded now rule.id
        (record (judged (running now rule acct) resp refusal) { finished_at = some now })
unfolding HasEnded
judged-HasEnded now rule acct resp none = (refl, refl, inl refl)
judged-HasEnded now rule acct resp (some message) = (refl, refl, inr refl)

end_run-HasEnded :
    (now : ℕ) (rule : TaskRule) (acct : Option Account) (outcome : Outcome)
    → HasEnded now rule.id (end_run now (running now rule acct) outcome)
unfolding end_run
end_run-HasEnded now rule acct (call_failed message) = unfold HasEnded in (refl, refl, inr refl)
end_run-HasEnded now rule acct (replied resp) =
    judged-HasEnded now rule acct resp (refused resp.error)

judged-account :
    (run : TaskRun) (resp : TaskResponse) (refusal : Option String)
    → (judged run resp refusal).account_id ≡ run.account_id
judged-account run resp none = refl
judged-account run resp (some message) = refl

end_run-account :
    (now : ℕ) (run : TaskRun) (outcome : Outcome)
    → (end_run now run outcome).account_id ≡ run.account_id
unfolding end_run
end_run-account now run (call_failed message) = refl
end_run-account now run (replied resp) = judged-account run resp (refused resp.error)

-- The runs of these accounts, behind the ones that were there.
abbrev pub Adds : ℕ → TaskRule → List (Option Account) → List TaskRun → List TaskRun → Type 0
Adds now rule accts before after =
    (new : List TaskRun) × (after ≡ before ++ new)
    × (map (λ run. run.account_id) new ≡ map id_of accts)
    × All (HasEnded now rule.id) new

run_account-Adds :
    (r : Runner) (now : ℕ) (rule : TaskRule) (e : Engine) (acct : Option Account)
    → (run : TaskRun) × ((run_account r now rule e acct).runs ≡ e.runs ++ run ∷ [])
      × (run.account_id ≡ id_of acct)
      × HasEnded now rule.id run
unfolding run_account
run_account-Adds r now rule e acct =
    let outcome =
      r.run_task (length e.runs) (plugin_name_by_id e.db rule.plugin_id) rule.capability_id
        (credential_for r e.proxies acct) in
    (
      end_run now (running now rule acct) outcome,
      refl,
      end_run-account now (running now rule acct) outcome,
      end_run-HasEnded now rule acct outcome,
    )

run_accounts-Adds :
    (r : Runner) (now : ℕ) (rule : TaskRule) (e : Engine) (accts : List (Option Account))
    → Adds now rule accts e.runs (run_accounts r now rule e accts).runs
unfolding run_accounts
run_accounts-Adds r now rule e [] = ([], sym (append-nil e.runs), refl, tt)
run_accounts-Adds r now rule e (acct ∷ accts) =
    let (run, first, id, done) = run_account-Adds r now rule e acct in
    let (new, rest, ids, all_done) =
      run_accounts-Adds r now rule (run_account r now rule e acct) accts in
    (
      run ∷ new,
      rest ∙ ap (λ (l : List TaskRun). l ++ new) first ∙ append_assoc e.runs (run ∷ []) new,
      cc (id, ids),
      (done, all_done),
    )

-- An account that a rule may run for: an active one of its plugin.
abbrev pub MayRun : Db → ℕ → Option Account → Type 0
MayRun db plugin_id none = Unit
MayRun db plugin_id (some a) = (a ∈ db.accounts) × (active_of plugin_id a ≡ true)

abbrev MayRunAll : Db → ℕ → Selected → Type 0
MayRunAll db plugin_id (select_error message) = Unit
MayRunAll db plugin_id (accounts_of accts) = All (MayRun db plugin_id) accts

All-some :
    (db : Db) (plugin_id : ℕ) (rows : List Account)
    → ((a : Account) → a ∈ rows → MayRun db plugin_id (some a))
    → All (MayRun db plugin_id) (map some rows)
All-some db plugin_id [] h = tt
All-some db plugin_id (a ∷ rows) h =
    (h a (here refl), All-some db plugin_id rows (λ b m. h b (there m)))

oldest_from-in : (best : Account) (rest : List Account) → oldest_from best rest ∈ (best ∷ rest)
oldest_from-in best [] = here refl
oldest_from-in best (a ∷ rest) =
    chosen (λ b. oldest_from b rest ∈ (best ∷ a ∷ rest))
      (earlier a.last_refresh_at best.last_refresh_at) a best (λ e. there (oldest_from-in a rest))
      (λ e. behind_first (oldest_from-in best rest))
  where
    behind_first : {x : Account} → x ∈ (best ∷ rest) → x ∈ (best ∷ a ∷ rest)
    behind_first (here q) = here q
    behind_first (there h) = there (there h)

select_accounts-MayRunAll :
    (r : Runner) (db : Db) (rule : TaskRule)
    → MayRunAll db rule.plugin_id (select_accounts r db rule)
unfolding select_accounts
select_accounts-MayRunAll r db rule =
    let plugin_id = rule.plugin_id in
    let rows = select (active_of plugin_id) db.accounts in
    let sound : (a : Account) → a ∈ rows → MayRun db plugin_id (some a) =
      λ a. select_sound (active_of plugin_id) db.accounts a in
    let scope = str_eq rule.target_scope in
    chosen (MayRunAll db plugin_id) (scope "all") _ _ (λ e. All-some db plugin_id rows sound)
      λ e.
        chosen (MayRunAll db plugin_id) (scope "rotate") _ _ (λ e. of_oldest rows sound)
          λ e.
            chosen (MayRunAll db plugin_id) (scope "account_ids") _ _
              (λ e.
                of_targeted (r.json_error rule.target_json) rows (r.target_ids rule.target_json)
                  sound)
              (λ e. (tt, tt))
  where
    of_oldest :
        (rows : List Account)
        → ((a : Account) → a ∈ rows → MayRun db rule.plugin_id (some a))
        → MayRunAll db rule.plugin_id (oldest rows)
    of_oldest [] h = tt
    of_oldest (a ∷ rest) h = (h (oldest_from a rest) (oldest_from-in a rest), tt)

    of_targeted :
        (message : String) (rows : List Account) (ids : Option (List ℕ))
        → ((a : Account) → a ∈ rows → MayRun db rule.plugin_id (some a))
        → MayRunAll db rule.plugin_id (targeted message rows ids)
    of_targeted message rows none h = tt
    of_targeted message rows (some ids) h =
        All-some db rule.plugin_id _
          (λ a m. h a (select_sound (λ x. exists (λ id. id == x.id) ids) rows a m).0)

-- What an execution whose accounts are `accts` leaves behind: one ended run for each of them, in
-- their order, and they are ones that the rule may run for.
abbrev pub Leaves : ℕ → Db → TaskRule → List TaskRun → List TaskRun → Selected → Type 0
Leaves now db rule before after (select_error message) =
    (run : TaskRun) × (after ≡ before ++ run ∷ [])
    × (run.status ≡ "failed")
    × (run.error_message ≡ message)
Leaves now db rule before after (accounts_of accts) =
    Adds now rule accts before after × All (MayRun db rule.plugin_id) accts

-- Executing a rule adds runs to the table and changes none that is there: where the accounts cannot be
-- selected, one failed run with the error, and otherwise one run for each selected account in order,
-- ended as a success or a failure and never left running; a selected account is a row of the table,
-- active and of the rule's plugin.
pub execute_rule-Leaves :
    (r : Runner) (now : ℕ) (rule : TaskRule) (e : Engine)
    → Leaves now e.db rule e.runs (execute_rule r now rule e).runs (select_accounts r e.db rule)
unfolding execute_rule
execute_rule-Leaves r now rule e =
    of_selected (select_accounts r e.db rule) (select_accounts-MayRunAll r e.db rule)
  where
    of_selected :
        (s : Selected)
        → MayRunAll e.db rule.plugin_id s
        → Leaves now e.db rule e.runs (run_selected r now rule e s).runs s
    of_selected (select_error message) h = unfold record_run in (_, refl, refl, refl)
    of_selected (accounts_of accts) h = (run_accounts-Adds r now rule e accts, h)
