-- ===== src/Task/Engine.antt =====
-- internal/task/engine.go: the rules that are due and what their runs leave behind. One instant `now`
-- stands for all readings of the clock in a call; the database's reads and writes succeed. What the
-- plugins answer, Go's parsers of times and the encryption are the records `Runner` and `Clock`.
pub mod Execute
pub mod Tick
pub mod Rules
pub mod Due
pub mod Runs
mod Examples
use Prim.Native.String.{len, slice}
use claw_proxy_hub_next.Base.{
  ℕ, zero, suc, ◌/◌, length, ◌+◌, ◌-◌, ◌*◌, ◌^◌, ◌==◌, ltb, leb, String, str_eq, Bool, true, false,
  not, ◌&&◌, ◌||◌, Option, none, some, List, [], ◌∷◌, ◌++◌, map, select, exists, if◌then◌else◌,
  negative64, int64_mod, append, sprint_int,
}
use claw_proxy_hub_next.Data.{Account, CredentialBlob, ProxyConfig}
use claw_proxy_hub_next.Gateway.Envelope.{Error}
use claw_proxy_hub_next.Router.Db.{Db, plugin_name_by_id}
use claw_proxy_hub_next.Account.Proxies.{ProxyTables, proxy_for_account}
use claw_proxy_hub_next.Event.Bus.{Bus, publish}
use claw_proxy_hub_next.Task.Cron.{Civil, next_cron}

pub record TaskRule : Type 0 where
  pub id : ℕ
  pub plugin_id : ℕ
  pub capability_id : String
  pub trigger_type : String
  pub trigger_value : String
  pub target_scope : String
  pub target_json : String
  pub enabled : Bool
  pub last_run_at : Option ℕ
  pub next_run_at : Option ℕ

pub record TaskRun : Type 0 where
  pub rule_id : ℕ
  pub account_id : Option ℕ
  pub status : String
  pub summary : String
  pub detail_json : String
  pub error_message : String
  pub started_at : ℕ
  pub finished_at : Option ℕ

-- The `RunTaskResponse`, or the error of the call.
pub record TaskResponse : Type 0 where
  pub error : Option Error
  pub summary : String
  pub detail_json : String
  pub changed : Bool
  pub blob : String

pub data Outcome : Type 0 where
  call_failed : (message : String) → Outcome
  replied : TaskResponse → Outcome

-- `time.ParseDuration`, `Sscanf` of "%d:%d", `time.Date` on the day of an instant, `time.Parse` and the
-- fields of an instant.
pub record Clock : Type 0 where
  pub parse_duration : String → Option ℕ
  pub scan_daily : String → Option (ℕ × ℕ)
  pub date_at : ℕ → ℕ → ℕ → ℕ
  pub parse_time : String → Option ℕ
  pub civil : ℕ → Civil

-- A plugin's answer may depend on how many runs there are so far. `target_ids` is `json.Unmarshal` into
-- a list of identifiers, and `json_error` what it says where it fails.
pub record Runner : Type 0 where
  pub run_task : ℕ → (plugin capability : String) → Option CredentialBlob → Outcome
  pub target_ids : String → Option (List ℕ)
  pub json_error : String → String
  pub decrypt : String → String
  pub encrypt : String → String

pub record Engine : Type 0 where
  pub db : Db
  pub proxies : ProxyTables
  pub rules : List TaskRule
  pub runs : List TaskRun
  pub bus : Bus

abbrev pub day : ℕ
day = 24 * 3600 * 1000000000

-- `from.Add(d)`
abbrev pub shift : ℕ → ℕ → ℕ
shift from d = if negative64 d then from - (int64_mod - d) else from + d

abbrev pub interval_next : ℕ → Option ℕ → Option ℕ
interval_next from none = none
interval_next from (some d) = some (shift from d)

abbrev pub daily_next : Clock → ℕ → Option (ℕ × ℕ) → Option ℕ
daily_next c from none = none
daily_next c from (some (hh, mm)) =
    let next = c.date_at from hh mm in some (if ltb from next then next else next + day)

-- `computeNext`
unfoldable pub compute_next : Clock → TaskRule → ℕ → Option ℕ
compute_next c rule from =
    if str_eq rule.trigger_type "interval"
    then interval_next from (c.parse_duration rule.trigger_value)
    else if str_eq rule.trigger_type "daily"
    then daily_next c from (c.scan_daily rule.trigger_value)
    else if str_eq rule.trigger_type "cron"
    then next_cron c.civil rule.trigger_value from
    else if str_eq rule.trigger_type "once"
    then c.parse_time rule.trigger_value
    else none

-- `plugin_id = ? AND status = 'active'`
abbrev pub active_of : ℕ → Account → Bool
active_of plugin_id a = (a.plugin_id == plugin_id) && str_eq a.status "active"

-- `Order("last_refresh_at IS NULL, last_refresh_at").First`: of two, the row that comes first.
abbrev pub is_none {ℓ} : {A : Type ℓ} → Option A → Bool
is_none none = true
is_none (some x) = false

abbrev pub earlier : Option ℕ → Option ℕ → Bool
earlier (some a) (some b) = ltb a b
earlier (some a) none = true
earlier none b = false

abbrev pub oldest_from : Account → List Account → Account
oldest_from best [] = best
oldest_from best (a ∷ rest) =
    oldest_from (if earlier a.last_refresh_at best.last_refresh_at then a else best) rest

-- The accounts of a rule, where `none` is a run without an account, or the error.
pub data Selected : Type 0 where
  select_error : (message : String) → Selected
  accounts_of : List (Option Account) → Selected

abbrev pub oldest : List Account → Selected
oldest [] = select_error "record not found"
oldest (a ∷ rest) = accounts_of (some (oldest_from a rest) ∷ [])

abbrev pub targeted : String → List Account → Option (List ℕ) → Selected
targeted message rows none = select_error message
targeted message rows (some ids) =
    accounts_of (map some (select (λ a. exists (λ id. id == a.id) ids) rows))

-- `selectAccounts`
unfoldable pub select_accounts : Runner → Db → TaskRule → Selected
select_accounts r db rule =
    let rows = select (active_of rule.plugin_id) db.accounts in
    if str_eq rule.target_scope "all"
    then accounts_of (map some rows)
    else if str_eq rule.target_scope "rotate"
    then oldest rows
    else if str_eq rule.target_scope "account_ids"
    then targeted (r.json_error rule.target_json) rows (r.target_ids rule.target_json)
    else accounts_of (none ∷ [])

-- `truncate`, by bytes: a character that the cut goes through is left out here.
unfoldable pub truncate : String → ℕ → String
truncate s n = if leb (len s) n then s else slice s 0 n
