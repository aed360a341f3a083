-- ===== src/Gateway/Prepare.antt =====
-- The first half of `serve` in internal/gateway/server.go: which account, plugin and model a request
-- gets, or why it gets none. What the source only logs or hands on to the plugin (the endpoints, the
-- user agent) is left out.
pub mod Refusals
use claw_proxy_hub_next.Base.{
  ℕ, String, str_eq, Bool, false, Option, none, some, if◌then◌else◌, ltb, ◌&&◌, not,
}
use claw_proxy_hub_next.Data.{Account, Route, CredentialBlob}
use claw_proxy_hub_next.Router.Resolved.{
  Resolved, Resolution, not_a_route, forbidden, broken, found,
}
use claw_proxy_hub_next.Gateway.Output.{Log}
use claw_proxy_hub_next.Gateway.Backend.{Backend, build_cred, cred_of}
use claw_proxy_hub_next.Gateway.Recovery.{
  Conn, Request, Refusal, router_error, key_not_authorized, no_account_in_group, model_not_found,
  not_in_authorized_routes,
}

-- `groupID > 0`, and where the log has it.
abbrev group_of : ℕ → Option ℕ
group_of g = if ltb 0 g then some g else none

abbrev pub new_log : Option Account → String → Option ℕ → Log
new_log account model group_id = record {
  account = account;
  model = model;
  group_id = group_id;
  attempts = 0;
  status = 0;
  error_type = "";
  err_brief = "";
  finish_reason = "";
  usage = none;
}

-- `ResolveModel` gives the empty name for a model that it does not know.
abbrev pub name_of : Option String → String
name_of none = ""
name_of (some name) = name

module _ (b : Backend) where
  open b use {World, resolve, resolve_direct, resolve_model, has_route_binding}

  -- A refusal is written to the client and not logged.
  pub data Prepared : Type 0 where
    refused : (status : ℕ) → (error_type : String) → Refusal → Prepared
    ready : Option Route → Conn b → Prepared

  -- `!isRoute && HasRouteBinding(key)`
  unfoldable pub check_binding : Bool → Prepared → Prepared
  check_binding bound p =
      if bound then refused 403 "invalid_request_error" not_in_authorized_routes else p

  unfoldable pub take_route : World → Option Account → Resolved → Prepared
  take_route w none r = refused 503 "api_error" no_account_in_group
  take_route w (some a) r = ready r.route (record {
    world = w;
    account = some a;
    plugin_name =
        if str_eq r.plugin_name "" then name_of (resolve_model w r.real_model) else r.plugin_name;
    group_id = r.group_id;
    model = r.real_model;
    cred = some (build_cred b w a r.group_id);
    failover_used = false;
    log = new_log (some a) r.real_model (group_of r.group_id);
  })

  -- The directory's plugin, and the result of `ResolveDirect`.
  unfoldable pub take_direct : Request → World → Option String → Option Resolved → Prepared
  unfolding check_binding
  take_direct q w plugin (some d) = check_binding (has_route_binding w) (
      ready d.route (record {
        world = w;
        account = d.account;
        plugin_name = if str_eq d.plugin_name "" then name_of plugin else d.plugin_name;
        group_id = d.group_id;
        model = q.orig_model;
        cred = cred_of b w d.account d.group_id;
        failover_used = false;
        log = new_log d.account q.orig_model (group_of d.group_id);
      }))
  take_direct q w (some plugin) none = check_binding (has_route_binding w) (
      ready none (record {
        world = w;
        account = none;
        plugin_name = plugin;
        group_id = 0;
        model = q.orig_model;
        cred = none;
        failover_used = false;
        log = new_log none q.orig_model none;
      }))
  take_direct q w none none = refused 404 "invalid_request_error" model_not_found

  unfoldable pub take_target : Request → World → Resolution → Prepared
  unfolding take_route take_direct
  take_target q w forbidden = refused 403 "invalid_request_error" key_not_authorized
  take_target q w (broken message) = refused 502 "api_error" (router_error message)
  take_target q w (found r) = take_route w r.account r
  take_target q w not_a_route =
      let plugin = resolve_model w q.orig_model in
      let (w', direct) = resolve_direct w q.orig_model (name_of plugin) in
      take_direct q w' plugin direct

  unfoldable pub prepare : Request → World → Prepared
  unfolding take_target
  prepare q w = let (w', res) = resolve w q.orig_model in take_target q w' res
