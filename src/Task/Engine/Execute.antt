-- ===== src/Task/Engine/Execute.antt =====
-- `executeRule` and `recordRun` of internal/task/engine.go: the runs of a rule.
use claw_proxy_hub_next.Base.{
  ℕ, ◌/◌, length, ◌^◌, ◌==◌, String, str_eq, not, ◌&&◌, Option, none, some, List, [], ◌∷◌, ◌++◌,
  map, if◌then◌else◌,
}
use claw_proxy_hub_next.Data.{Account, CredentialBlob}
use claw_proxy_hub_next.Gateway.Envelope.{Error}
use claw_proxy_hub_next.Router.Db.{Db, plugin_name_by_id}
use claw_proxy_hub_next.Account.Proxies.{ProxyTables, proxy_for_account}
use claw_proxy_hub_next.Event.Bus.{Bus, publish}
use claw_proxy_hub_next.Task.Engine.{
  TaskRule, TaskRun, TaskResponse, Outcome, call_failed, replied, Runner, Engine, Selected,
  select_error, accounts_of, select_accounts, truncate,
}

-- `recordRun`
unfoldable pub record_run : ℕ → TaskRule → String → Engine → Engine
record_run now rule message e =
    let run : TaskRun = record {
      rule_id = rule.id;
      account_id = none;
      status = "failed";
      summary = "";
      detail_json = "";
      error_message = message;
      started_at = now;
      finished_at = some now;
    } in
    record e { runs = e.runs ++ run ∷ [] }

-- The credential of a run.
abbrev seconds : Option ℕ → ℕ
seconds none = 0
seconds (some t) = t / 1000000000

abbrev credential : Runner → ProxyTables → Account → CredentialBlob
credential r proxies acct = record {
  account_id = acct.id;
  blob = r.decrypt acct.credential_blob;
  updated_at = seconds acct.last_refresh_at;
  proxy = proxy_for_account proxies acct.id;
}

abbrev pub credential_for : Runner → ProxyTables → Option Account → Option CredentialBlob
credential_for r proxies none = none
credential_for r proxies (some acct) = some (credential r proxies acct)

abbrev pub id_of : Option Account → Option ℕ
id_of none = none
id_of (some acct) = some acct.id

-- A run as it is created, and how an answer ends it.
abbrev pub running : ℕ → TaskRule → Option Account → TaskRun
running now rule acct = record {
  rule_id = rule.id;
  account_id = id_of acct;
  status = "running";
  summary = "";
  detail_json = "";
  error_message = "";
  started_at = now;
  finished_at = none;
}

-- `resp.Error != nil && resp.Error.Code != 0`
abbrev pub refused : Option Error → Option String
refused none = none
refused (some e) = if e.code == 0 then none else some e.message

abbrev succeed : TaskRun → TaskResponse → TaskRun
succeed run resp = record run {
  status = "success";
  summary = truncate resp.summary 1000;
  detail_json = truncate resp.detail_json (2 ^ 20);
}

abbrev pub judged : TaskRun → TaskResponse → Option String → TaskRun
judged run resp none = succeed run resp
judged run resp (some message) = record run {
  status = "failed";
  error_message = truncate message 1000;
}

unfoldable pub end_run : ℕ → TaskRun → Outcome → TaskRun
unfolding truncate
end_run now run (call_failed message) = record run {
  status = "failed";
  error_message = truncate message 1000;
  finished_at = some now;
}
end_run now run (replied resp) = record (judged run resp (refused resp.error)) {
  finished_at = some now;
}

-- A changed credential is written back.
abbrev write_row : ℕ → ℕ → String → Account → Account
write_row now id blob a =
    if a.id == id then record a { credential_blob = blob; last_refresh_at = some now } else a

abbrev written_back : Runner → ℕ → TaskResponse → ℕ → Db → Db
written_back r now resp id db =
    if resp.changed && not (str_eq resp.blob "")
    then record db { accounts = map (write_row now id (r.encrypt resp.blob)) db.accounts }
    else db

abbrev write_back_ok : Runner → ℕ → TaskResponse → Option ℕ → Option String → Db → Db
write_back_ok r now resp none refusal db = db
write_back_ok r now resp (some id) none db = written_back r now resp id db
write_back_ok r now resp (some id) (some message) db = db

unfoldable pub write_back : Runner → ℕ → Outcome → Option ℕ → Db → Db
write_back r now (call_failed message) id db = db
write_back r now (replied resp) id db = write_back_ok r now resp id (refused resp.error) db

-- `TopicTaskCompleted`
abbrev announce : Option ℕ → Bus → Bus
announce none bus = bus
announce (some id) bus = publish (record { topic = "task.completed"; account_id = id }) bus

-- One round of the loop of `executeRule`.
unfoldable pub run_account : Runner → ℕ → TaskRule → Engine → Option Account → Engine
unfolding end_run write_back publish plugin_name_by_id proxy_for_account
run_account r now rule e acct =
    let plugin = plugin_name_by_id e.db rule.plugin_id in
    let outcome =
      r.run_task (length e.runs) plugin rule.capability_id (credential_for r e.proxies acct) in
    let run = end_run now (running now rule acct) outcome in
    record e {
      db = write_back r now outcome (id_of acct) e.db;
      runs = e.runs ++ run ∷ [];
      bus = if str_eq run.status "success" then announce (id_of acct) e.bus else e.bus;
    }

unfoldable pub run_accounts : Runner → ℕ → TaskRule → Engine → List (Option Account) → Engine
unfolding run_account
run_accounts r now rule e [] = e
run_accounts r now rule e (acct ∷ accts) =
    run_accounts r now rule (run_account r now rule e acct) accts

abbrev pub run_selected : Runner → ℕ → TaskRule → Engine → Selected → Engine
run_selected r now rule e (select_error message) = record_run now rule message e
run_selected r now rule e (accounts_of accts) = run_accounts r now rule e accts

-- `executeRule` and `RunNow`
unfoldable pub execute_rule : Runner → ℕ → TaskRule → Engine → Engine
unfolding run_accounts record_run select_accounts
execute_rule r now rule e = run_selected r now rule e (select_accounts r e.db rule)
