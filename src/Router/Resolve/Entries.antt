-- ===== src/Router/Resolve/Entries.antt =====
-- The entry that `Resolve` takes, drawn or remembered by the session, is one of the route.
use claw_proxy_hub_next.Base.{
  ℕ, ◌==◌, ==_iff, ltb, String, str_eq, eq_iff, true, ◌&&◌, and_left, and_right, Option, none, some,
  List, [], ◌∷◌, ◌≡◌, refl, if◌then◌else◌, chosen, exists, find, ◌∈◌, Any, here, there, Any-map,
  find_sound, exists_sound, lookup, delete, sub64, negative64,
}
use claw_proxy_hub_next.Data.{Account, Route, RouteGroupEntry}
use claw_proxy_hub_next.Router.Resolved.{Resolved}
use claw_proxy_hub_next.Router.Db.{Db, group_plugin, active_where, in_group}
use claw_proxy_hub_next.Router.Picking.{weight_of, weighted, total_weight, walk, pick_group}
use claw_proxy_hub_next.Router.State.{
  Router, StickyEntry, if_running, session, matches_entry, pinned, check_session,
}
use claw_proxy_hub_next.Router.Resolve.Usable.{IsUsable}

-- The entries have one for the group with the model.
abbrev pub IsEntry : ℕ → String → List RouteGroupEntry → Type 0
IsEntry group_id model entries = Any (λ x. (x.group_id ≡ group_id) × (x.model ≡ model)) entries

walk-IsEntry :
    (n : ℕ) (e : RouteGroupEntry) (es : List RouteGroupEntry)
    → IsEntry (walk n e es).group_id (walk n e es).model (e ∷ es)
unfolding walk
walk-IsEntry n e [] =
    chosen (λ (x : RouteGroupEntry). IsEntry x.group_id x.model (e ∷ []))
      (negative64 (sub64 n (weight_of e))) (weighted e) e (λ _. here (refl, refl))
      (λ _. here (refl, refl))
walk-IsEntry n e (e' ∷ es) =
    chosen (λ (x : RouteGroupEntry). IsEntry x.group_id x.model (e ∷ e' ∷ es))
      (negative64 (sub64 n (weight_of e))) (weighted e) (walk (sub64 n (weight_of e)) e' es)
      (λ _. here (refl, refl)) (λ _. there (walk-IsEntry (sub64 n (weight_of e)) e' es))

unfoldable pub PickedEntry : List RouteGroupEntry → Option RouteGroupEntry → Type 0
PickedEntry entries none = Unit
PickedEntry entries (some x) = IsEntry x.group_id x.model entries

pub pick_group-PickedEntry :
    (intn : ℕ → ℕ) (e : RouteGroupEntry) (es : List RouteGroupEntry)
    → PickedEntry (e ∷ es) (pick_group intn e es)
unfolding pick_group PickedEntry
pick_group-PickedEntry intn e es =
    let total = total_weight 0 (e ∷ es) in
    let walked : Option RouteGroupEntry = some (walk (intn total) e es) in
    let rest : Option RouteGroupEntry = (if negative64 total then none else walked) in
    chosen (PickedEntry (e ∷ es)) (total == 0) (some e) rest (λ _. here (refl, refl))
      (λ _.
        chosen (PickedEntry (e ∷ es)) (negative64 total) none walked (λ _. tt)
          (λ _. walk-IsEntry (intn total) e es))

unfoldable pub AccountOk : Db → ℕ → ℕ → Option Account → Type 0
AccountOk db now group_id none = Unit
AccountOk db now group_id (some a) = IsUsable db now group_id a

-- A result for a route with these entries.
unfoldable pub IsGrant : Db → ℕ → Route → List RouteGroupEntry → Resolved → Type 0
IsGrant db now route entries res =
    (res.route ≡ some route)
    × IsEntry res.group_id res.real_model entries
    × AccountOk db now res.group_id res.account

unfoldable pub Lifts : (Resolved → Type 0) → Option Resolved → Type 0
Lifts P none = Unit
Lifts P (some r) = P r

pinned-IsGrant :
    (db : Db) (now : ℕ) (route : Route) (entries : List RouteGroupEntry) (e : StickyEntry)
    (o : Option Account)
    → IsEntry e.entry.group_id e.entry.model entries
    → ((a : Account)
        → o ≡ some a
        → (a ∈ db.accounts) × ((active_where now a && (a.id == e.account_id)) ≡ true))
    → Lifts (IsGrant db now route entries) (pinned db route e o)
unfolding pinned Lifts IsGrant AccountOk IsUsable
pinned-IsGrant db now route entries e none m h = tt
pinned-IsGrant db now route entries e (some a) m h =
    let (there_is, t) = h a refl in
    let act = and_left (active_where now a) (a.id == e.account_id) t in
    let same : a.id ≡ e.account_id =
      (==_iff a.id e.account_id).0 (and_right (active_where now a) (a.id == e.account_id) t) in
    let r : Resolved = record {
      route = some route;
      account = some a;
      real_model = e.entry.model;
      group_id = e.entry.group_id;
      plugin_name = group_plugin db e.entry.group_id;
    } in
    chosen (Lifts (IsGrant db now route entries)) (in_group db e.account_id e.entry.group_id)
      (some r) none (λ g. (refl, m, (there_is, act, rw same g))) (λ _. tt)

pub check_session-IsGrant :
    (db : Db) (now : ℕ) (route : Route) (entries : List RouteGroupEntry) (o : Option StickyEntry)
    → Lifts (IsGrant db now route entries) (check_session db now route entries o)
unfolding check_session Lifts matches_entry
check_session-IsGrant db now route entries none = tt
check_session-IsGrant db now route entries (some e) =
    let row = find (λ a. active_where now a && (a.id == e.account_id)) db.accounts in
    chosen (Lifts (IsGrant db now route entries)) (exists (matches_entry e) entries)
      (pinned db route e row) none
      (λ h.
        pinned-IsGrant db now route entries e row
          (Any-map (entry_of e) (exists_sound (matches_entry e) entries h))
          (λ a q. find_sound (λ a. active_where now a && (a.id == e.account_id)) db.accounts a q))
      (λ _. tt)
  where
    entry_of :
        (e : StickyEntry) (x : RouteGroupEntry)
        → matches_entry e x ≡ true
        → (x.group_id ≡ e.entry.group_id) × (x.model ≡ e.entry.model)
    entry_of e x t = (
      (==_iff x.group_id e.entry.group_id).0
          (and_left (x.group_id == e.entry.group_id) (str_eq x.model e.entry.model) t),
      (eq_iff x.model e.entry.model).0
          (and_right (x.group_id == e.entry.group_id) (str_eq x.model e.entry.model) t),
    )

if_running-db :
    (now : ℕ) (fp : String) (r : Router) (o : Option StickyEntry)
    → (if_running now fp r o).0.db ≡ r.db
unfolding if_running
if_running-db now fp r none = refl
if_running-db now fp r (some e) =
    chosen (λ (x : Router × Option StickyEntry). x.0.db ≡ r.db) (ltb e.expires now)
      (record r { sticky = delete fp r.sticky }, none) (r, some e) (λ _. refl) (λ _. refl)

pub session-db : (now : ℕ) (fp : String) (r : Router) → (session now fp r).0.db ≡ r.db
unfolding session
session-db now fp r = if_running-db now fp r (lookup fp r.sticky)
