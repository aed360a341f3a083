-- ===== src/Gateway/Prepare/Refusals.antt =====
-- What a request that is let through has.
use claw_proxy_hub_next.Base.{
  String, Bool, true, false, Option, none, some, ◌≡◌, refl, subst, ◌⊎◌, inl, inr,
}
use claw_proxy_hub_next.Data.{Account, Route}
use claw_proxy_hub_next.Router.Resolved.{
  Resolved, Resolution, not_a_route, forbidden, broken, found,
}
use claw_proxy_hub_next.Gateway.Backend.{Backend}
use claw_proxy_hub_next.Gateway.Recovery.{Conn, Request}
use claw_proxy_hub_next.Gateway.Recovery.Targets.{Serves}
use claw_proxy_hub_next.Gateway.Prepare.{
  Prepared, refused, ready, check_binding, take_route, take_direct, take_target, name_of, prepare,
}

module _ (b : Backend) where
  -- What a request that is let through has to show: its credential is its account's, and its model is
  -- a route that the key may use, or the key is bound to no routes.
  IsAllowed : Resolution → Prepared b → Type 0
  IsAllowed res (refused status error_type text) = Unit
  IsAllowed res (ready route k) =
      Serves b k × (((r : Resolved) × (res ≡ found r)) ⊎ (b.has_route_binding k.world ≡ false))

  check_binding-IsAllowed :
      (res : Resolution) (route : Option Route) (k : Conn b) (bound : Bool)
      → b.has_route_binding k.world ≡ bound
      → Serves b k
      → IsAllowed res (check_binding b bound (ready route k))
  unfolding check_binding IsAllowed
  check_binding-IsAllowed res route k true e s = tt
  check_binding-IsAllowed res route k false e s = (s, inr e)

  take_direct-IsAllowed :
      (res : Resolution) (q : Request) (w : b.World) (plugin : Option String)
      (direct : Option Resolved)
      → IsAllowed res (take_direct b q w plugin direct)
  unfolding take_direct IsAllowed
  take_direct-IsAllowed res q w plugin (some d) =
      check_binding-IsAllowed res d.route _ (b.has_route_binding w) refl (w, refl)
  take_direct-IsAllowed res q w (some plugin) none =
      check_binding-IsAllowed res none _ (b.has_route_binding w) refl (w, refl)
  take_direct-IsAllowed res q w none none = tt

  take_route-IsAllowed :
      (w : b.World) (a : Option Account) (r : Resolved) → IsAllowed (found r) (take_route b w a r)
  unfolding take_route IsAllowed
  take_route-IsAllowed w none r = tt
  take_route-IsAllowed w (some a) r = ((w, refl), inl (r, refl))

  take_target-IsAllowed :
      (q : Request) (w : b.World) (res : Resolution) → IsAllowed res (take_target b q w res)
  unfolding take_target IsAllowed
  take_target-IsAllowed q w forbidden = tt
  take_target-IsAllowed q w (broken message) = tt
  take_target-IsAllowed q w (found r) = take_route-IsAllowed w r.account r
  take_target-IsAllowed q w not_a_route =
      let plugin = b.resolve_model w q.orig_model in
      let (w', direct) = b.resolve_direct w q.orig_model (name_of plugin) in
      take_direct-IsAllowed not_a_route q w' plugin direct

  -- A request that is let through carries the credential of its account and group, and either its
  -- model is a route that `Resolve` found for the key, or the key is bound to no routes: a bound key
  -- never reaches a model directly.
  pub prepare-ready :
      (q : Request) (w : b.World) (route : Option Route) (k : Conn b)
      → prepare b q w ≡ ready route k
      → Serves b k
        × (((r : Resolved) × ((b.resolve w q.orig_model).1 ≡ found r))
            ⊎ (b.has_route_binding k.world ≡ false))
  unfolding prepare IsAllowed
  prepare-ready q w route k e =
      let (w', res) = b.resolve w q.orig_model in
      subst (IsAllowed res) e (take_target-IsAllowed q w' res)
