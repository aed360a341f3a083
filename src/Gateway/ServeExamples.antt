-- ===== src/Gateway/ServeExamples.antt =====
-- Runs of `serve`: a rate limit that moves a request to another account, and failures.
use claw_proxy_hub_next.Base.{
  ℕ, ◌+◌, ◌<◌, String, true, false, Option, none, some, [], ◌∷◌, ◌≡◌, refl, ◌==◌, if◌then◌else◌,
  ◌⊎◌,
}
use claw_proxy_hub_next.Data.{Account, Route, sticky}
use claw_proxy_hub_next.Router.Resolved.{Resolved, found}
use claw_proxy_hub_next.Gateway.Envelope.{
  Error, StreamEvent, content_delta, message_finish, task_failed,
}
use claw_proxy_hub_next.Gateway.Output.{message_of, code_of}
use claw_proxy_hub_next.Gateway.Output.Streams.{collect_all}
use claw_proxy_hub_next.Gateway.Backend.{Backend, opened, refresh_error, build_cred}
use claw_proxy_hub_next.Gateway.Recovery.{Conn, Request, switch_failover}
use claw_proxy_hub_next.Gateway.Recovery.Targets.{Serves}
use claw_proxy_hub_next.Gateway.Recovery.Failover.{Targets, InClass, switch_failover_lem}
use claw_proxy_hub_next.Gateway.Prepare.{prepare, ready, new_log}
use claw_proxy_hub_next.Gateway.Prepare.Refusals.{prepare-ready}
use claw_proxy_hub_next.Gateway.Serve.{serve, deliver, over, nothing, recover_code}
use claw_proxy_hub_next.Gateway.Serve.Attempts.{IsServed, serve-ends, Comes-Serves, first_round}
use claw_proxy_hub_next.Gateway.Serve.Failures.{deliver-failed}
use claw_proxy_hub_next.Gateway.ModelIds.{public_model_ids, count, count-public_model_ids}

abbrev account_of : ℕ → Account
account_of id = record {
  id = id;
  plugin_id = 1;
  credential_blob = "secret";
  credits_json = "";
  models_json = "";
  status = "active";
  paused_until = none;
  last_refresh_at = none;
  last_used_at = none;
  display_name = "";
  profile_json = "{}";
}

abbrev fast_route : Route
fast_route = record {
  id = 1;
  name = "fast";
  strategy = sticky;
  groups_json = "";
  timeout_seconds = 0;
  failover_enabled = true;
  failover_on_4xx = false;
  failover_on_5xx = true;
  failover_group_id = some 2;
  failover_model = "spare";
  user_agent = "";
}

abbrev target : ℕ → ℕ → String → Resolved
target id group_id model = record {
  route = some fast_route;
  account = some (account_of id);
  real_model = model;
  group_id = group_id;
  plugin_name = "p";
}

abbrev limited : Option Error
limited = some (record { code = 429; message = "slow down"; retryable = true })

-- The state counts the calls: the first one is rate limited, and the next account has the next number.
abbrev limited_backend : Backend
limited_backend = record {
  World = ℕ;
  resolve = λ w name. (w, found (target (w + 1) 1 "real"));
  resolve_direct = λ w name hint. (w, none);
  pick_failover = λ w route. (w, some (target 9 2 "spare"));
  has_route_binding = λ w. false;
  resolve_model = λ w name. none;
  chat = λ w model plugin cred. (
    w + 1,
    opened (
        if w == 0
        then task_failed limited "" ∷ []
        else content_delta "Hi" false ∷ message_finish "stop" none ∷ []),
  );
  has_accounts = true;
  refresh = λ w id. (w, refresh_error "no network");
  mark_auto_pause = λ w id reason until. w;
  decrypt_credential = λ blob. blob;
  proxy_for_account_in = λ w account_id group_id. none;
}

abbrev fast_request : Request
fast_request = record {
  orig_model = "fast";
  protocol = "messages";
  stream = false;
  hex = "h";
  timeout = "1m30s";
}

abbrev first_conn : Conn limited_backend
first_conn = record {
  world = 0;
  account = some (account_of 1);
  plugin_name = "p";
  group_id = 1;
  model = "real";
  cred = some (build_cred limited_backend 0 (account_of 1) 1);
  failover_used = false;
  log = new_log (some (account_of 1)) "real" (some 1);
}

serve-ends_example : IsServed limited_backend (serve limited_backend 4 fast_request 0)
serve-ends_example = serve-ends limited_backend fast_request 0

Comes-Serves_example : (0 < 4) × Serves limited_backend first_conn
Comes-Serves_example =
    Comes-Serves limited_backend fast_request (some fast_route) first_conn 0 first_conn (0, refl)
      first_round

prepared : prepare limited_backend fast_request 0 ≡ ready (some fast_route) first_conn
unfolding prepare
prepared = refl

prepare-ready_example :
    Serves limited_backend first_conn
    × (((r : Resolved) × (found (target 1 1 "real") ≡ found r)) ⊎ (false ≡ false))
prepare-ready_example =
    prepare-ready limited_backend fast_request 0 (some fast_route) first_conn prepared

failed_over : (switch_failover limited_backend (some fast_route) 502 first_conn).1 ≡ true
unfolding switch_failover
failed_over = refl

switch_failover_lem_example :
    ((switch_failover limited_backend (some fast_route) 502 first_conn).1 ≡ true
      → (true ≡ true)
        × (false ≡ false)
        × InClass limited_backend fast_route 502
        × Targets limited_backend fast_route first_conn
            (switch_failover limited_backend (some fast_route) 502 first_conn).0)
    × ((r : Resolved) (a : Account)
        → true ≡ true
        → false ≡ false
        → InClass limited_backend fast_route 502
        → (limited_backend.pick_failover first_conn.world fast_route).1 ≡ some r
        → r.account ≡ some a
        → (switch_failover limited_backend (some fast_route) 502 first_conn).1 ≡ true)
switch_failover_lem_example = switch_failover_lem limited_backend fast_route 502 first_conn

abbrev hello : StreamEvent
hello = content_delta "Hi" false

deliver-failed_example :
    let k' : Conn limited_backend = record first_conn {
      log = collect_all first_conn.log (hello ∷ []);
    } in
    let v =
      deliver limited_backend fast_request
        (some fast_route)
        0
        first_conn
        (hello ∷ task_failed none "" ∷ []) in
    ((code_of none ≡ 0) → v ≡ over k' nothing)
    × (((code_of none == 0) ≡ false)
        → v
          ≡ recover_code limited_backend fast_request
              (some fast_route)
              (code_of none)
              0
              (message_of none)
              k')
deliver-failed_example =
    deliver-failed limited_backend fast_request (some fast_route) 0 first_conn hello [] [] none ""
      refl tt tt

count-public_model_ids_example : count "b" (public_model_ids ("a" ∷ "b" ∷ []) ("b" ∷ "c" ∷ [])) ≡ 1
count-public_model_ids_example = count-public_model_ids "b" ("a" ∷ "b" ∷ []) ("b" ∷ "c" ∷ [])
