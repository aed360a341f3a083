-- ===== src/Account/ServiceExamples.antt =====
-- An account that is refreshed, and a plugin that refuses.
use claw_proxy_hub_next.Base.{
  ℕ, ◌+◌, ◌-◌, ltb, String, str_eq, false, Option, none, some, List, [], ◌∷◌, ◌≡◌, ◌≢◌, arith, refl,
  if◌then◌else◌, trim_space, length,
}
use claw_proxy_hub_next.Data.{Account}
use claw_proxy_hub_next.Gateway.Envelope.{Error}
use claw_proxy_hub_next.Account.Credits.{Floats, credit_remaining, trim_quotes}
use claw_proxy_hub_next.Account.Credits.Days.{HasDay, record_all, record_all-HasDay}
use claw_proxy_hub_next.Account.Expiry.{
  CreditPackage, Readers, credit_expiry_of, count_packages, dated, parse_loose_time, raw_number,
  left_of, end_of,
}
use claw_proxy_hub_next.Account.Expiry.Dates.{Dates}
use claw_proxy_hub_next.Account.Expiry.Overview.{SumsSoon, IsNearest, credit_expiry_of_lem}
use claw_proxy_hub_next.Account.Service.{
  ModelInfo, RefreshResult, call_error, reply, Plugins, Codec, World, plugin_name,
}
use claw_proxy_hub_next.Account.Service.Operations.{refresh}
use claw_proxy_hub_next.Account.Service.Refreshing.{
  Leaves, NotOffered, refresh-Leaves, refresh-expires,
}
use claw_proxy_hub_next.Account.Service.Names.{refresh_call, pause_call, expire_call, calls, Kept}
use claw_proxy_hub_next.Account.Service.Names.Calls.{calls-Kept}

abbrev account : Account
account = record {
  id = 1;
  plugin_id = 3;
  credential_blob = "old";
  credits_json = "";
  models_json = "";
  status = "active";
  paused_until = none;
  last_refresh_at = none;
  last_used_at = none;
  display_name = "mine";
  profile_json = "{}";
}

abbrev world : World
world = record {
  db = record {
    accounts = account ∷ [];
    account_groups = record { account_id = 1; group_id = 2 } ∷ [];
    groups = [];
    plugins = record { id = 3; name = "stub" } ∷ [];
    routes = [];
    key_routes = [];
  };
  proxies = record { account_proxies = []; group_proxies = []; account_groups = []; proxies = [] };
  daily = [];
  next_id = 2;
}

abbrev error : Error
error = record { code = 401; message = "expired"; retryable = false }

abbrev refusal : RefreshResult
refusal = record { error = some error; blob = ""; profile = none }

abbrev success : RefreshResult
success = record {
  error = none;
  blob = "new";
  profile = some (record { display_name = "theirs"; credits_json = "7"; rest = "" });
}

abbrev plugins : RefreshResult → Plugins
plugins r = record {
  running = λ name. str_eq name "stub";
  refresh = λ name cred. reply r;
  list_models = λ name cred. reply [];
  login = λ plugin method form state. call_error "no login";
}

abbrev encode : ModelInfo → Option String
encode m = if str_eq m.rest "" then some m.id else none

abbrev one_text : List String → Option String
one_text (t ∷ []) = some t
one_text ts = none

abbrev codec : Codec
codec = record {
  encrypt = λ s. s;
  decrypt = λ s. s;
  marshal_profile = λ p. some p.display_name;
  marshal_model = encode;
  unmarshal_model = λ t. some (record { id = t; rest = "" });
  marshal_list = one_text;
  unmarshal_list = λ t. some (t ∷ []);
}

-- Small numbers stand for floats, and the text is the field.
abbrev number : String → Option ℕ
number s = if str_eq s "7" then some 7 else if str_eq s "9" then some 9 else none

abbrev floats : Floats
floats = record {
  remaining_field = λ s. some s;
  parse_float = number;
  above = λ a b. ltb b a;
  minus = λ a b. a - b;
}

refresh-Leaves_example : Leaves 1 world (refresh codec (plugins success) floats 5 "day" 1 world)
refresh-Leaves_example = refresh-Leaves codec (plugins success) floats 5 "day" world 1

refresh-expires_example : NotOffered 1 (refresh codec (plugins refusal) floats 5 "day" 1 world).0.db
unfolding plugin_name
refresh-expires_example =
    refresh-expires codec (plugins refusal) floats 5 "day" world 1 account "stub" refusal error refl
      refl refl refl refl refl

calls-Kept_example :
    Kept world.db.accounts
      (calls codec world (
        refresh_call (plugins success) floats 5 "day" 1
        ∷ pause_call (λ t. t + 1000) 6 1 none
        ∷ expire_call 1
        ∷ [])).db.accounts
calls-Kept_example = calls-Kept codec world (
    refresh_call (plugins success) floats 5 "day" 1
    ∷ pause_call (λ t. t + 1000) 6 1 none
    ∷ expire_call 1
    ∷ [])

-- Two snapshots of 9 and 7, with a text without an amount between them.
abbrev texts : List (ℕ × String)
texts = (1, "9") ∷ (2, "") ∷ (3, "7") ∷ []

nonzero : ◌≢◌ {A = ℕ} 1 0
nonzero e = omega (arith, e)

record_all-HasDay_example : HasDay floats 1 "day" (record_all floats 1 "day" texts []) 7 9 2 2
unfolding credit_remaining trim_quotes trim_space
record_all-HasDay_example = record_all-HasDay floats 1 "day" nonzero texts [] 9 (7 ∷ []) refl refl

-- A package that ends within the week, one whose end cannot be read, one that has ended, one that ends
-- later by the third field, with the second amount, and one without an end.
abbrev credit_packages : List CreditPackage
credit_packages =
    record { remaining = "7"; left = ""; expires_at = "2026-01-02"; expire_time = ""; expiry = "" }
    ∷ record { remaining = "9"; left = ""; expires_at = ""; expire_time = "soon"; expiry = "" }
    ∷ record {
      remaining = "9";
      left = "";
      expires_at = "";
      expire_time = "2025-12-31";
      expiry = "";
    }
    ∷ record {
      remaining = "";
      left = "7";
      expires_at = "";
      expire_time = "";
      expiry = "2026-02-01";
    }
    ∷ record { remaining = "1"; left = ""; expires_at = ""; expire_time = ""; expiry = "" }
    ∷ []

abbrev instant : String → Option ℕ
instant raw =
    if str_eq raw "2026-01-02"
    then some 20
    else if str_eq raw "2025-12-31"
    then some 2
    else if str_eq raw "2026-02-01"
    then some 700_000_000_000_000
    else none

abbrev readers : Readers
readers = record {
  read_packages = λ text. some credit_packages;
  parse_in_location = λ layout raw. instant raw;
  parse_float = number;
  is_zero = λ x. ltb x 1;
  plus = λ a b. a + b;
}

credit_expiry_of_lem_example :
    (ds : List (ℕ × ℕ)) × Dates readers credit_packages ds
    × ((credit_expiry_of readers 5 "{}").packages ≡ length ds)
    × SumsSoon readers 5 0 ds (credit_expiry_of readers 5 "{}").expiring
    × IsNearest (credit_expiry_of readers 5 "{}").next ds
unfolding trim_space
credit_expiry_of_lem_example = credit_expiry_of_lem readers 5 "{}" credit_packages refl refl

-- The overview of these packages: three ends, 7 within the week, and the one that has passed as the
-- nearest.
expiry_of_packages :
    credit_expiry_of readers 5 "{}" ≡ record { packages = 3; expiring = 7; next = some (2, 9) }
unfolding credit_expiry_of count_packages dated parse_loose_time left_of end_of raw_number
    trim_space trim_quotes
expiry_of_packages = refl
