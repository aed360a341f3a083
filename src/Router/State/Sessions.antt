-- ===== src/Router/State/Sessions.antt =====
-- The sticky sessions: a session keeps its account, and the table stays small.
use claw_proxy_hub_next.Base.{
  ℕ, ◌+◌, ◌≤◌, ◌==◌, ltb, String, eq_iff, Bool, true, false, ◌&&◌, some, List, [], ◌∷◌, ◌++◌, ◌≡◌,
  refl, ap, ◌∙◌, if◌then◌else◌, chosen, exists, find, lookup, lookup-insert, length, positive64,
  All, arith,
}
use claw_proxy_hub_next.Data.{Account, Route, RouteGroupEntry}
use claw_proxy_hub_next.Router.Db.{Db, active_where, in_group, group_plugin}
use claw_proxy_hub_next.Router.State.{
  Router, StickyEntry, default_sticky_ttl, sticky_max_entries, unexpired, cleanup_sticky,
  save_sticky, if_running, session, matches_entry, pinned, check_session, lookup_sticky,
  fingerprint_text,
}

-- How long a session is kept.
abbrev pub kept_for : Router → ℕ
kept_for r = if positive64 r.ttl then r.ttl else default_sticky_ttl

saved :
    (now : ℕ) (fp : String) (entry : RouteGroupEntry) (id : ℕ) (r : Router)
    → lookup fp (save_sticky now fp entry id r).sticky
      ≡ some (record { entry = entry; account_id = id; expires = now + kept_for r })
unfolding save_sticky
saved now fp entry id r =
    let e : StickyEntry = record { entry = entry; account_id = id; expires = now + kept_for r } in
    lookup-insert fp fp e r.sticky ∙ rw ((eq_iff fp fp).1 refl) refl

pinned_lem :
    (db : Db) (route : Route) (e : StickyEntry) (a : Account)
    → in_group db e.account_id e.entry.group_id ≡ true
    → pinned db route e (some a)
      ≡ some (record {
        route = some route;
        account = some a;
        real_model = e.entry.model;
        group_id = e.entry.group_id;
        plugin_name = group_plugin db e.entry.group_id;
      })
unfolding pinned
pinned_lem db route e a g = rw g refl

-- A saved session is found again while it is kept: the same account, group and model, as long as the
-- route still has the entry and the account is active and in the group. The table is not changed.
pub lookup_sticky-save_sticky :
    (now later : ℕ) (fp : String) (route : Route) (entries : List RouteGroupEntry)
    (entry : RouteGroupEntry) (id : ℕ) (a : Account) (r : Router)
    → let e : StickyEntry = record { entry = entry; account_id = id; expires = now + kept_for r } in
      later ≤ now + kept_for r
      → exists (matches_entry e) entries ≡ true
      → find (λ x. active_where later x && (x.id == id)) r.db.accounts ≡ some a
      → in_group r.db id entry.group_id ≡ true
      → lookup_sticky later fp route entries (save_sticky now fp entry id r) ≡ (
        save_sticky now fp entry id r,
        some (record {
          route = some route;
          account = some a;
          real_model = entry.model;
          group_id = entry.group_id;
          plugin_name = group_plugin r.db entry.group_id;
        }),
      )
unfolding lookup_sticky session if_running check_session save_sticky
lookup_sticky-save_sticky now later fp route entries entry id a r l m f g =
    let e : StickyEntry = record { entry = entry; account_id = id; expires = now + kept_for r } in
    let fresh : ltb e.expires later ≡ false = ground arith in
    rw (saved now fp entry id r, fresh, m, f)
      (ap (λ x. (save_sticky now fp entry id r, x)) (pinned_lem r.db route e a g))

unexpired-All :
    (now : ℕ) (m : List (String × StickyEntry))
    → All (λ p. ltb p.1.expires now ≡ false) (unexpired now m)
unexpired-All now [] = tt
unexpired-All now ((fp, e) ∷ m) =
    one now (fp, e) (unexpired now m) (unexpired-All now m) (ltb e.expires now) refl
  where
    one :
        (now : ℕ) (p : String × StickyEntry) (rest : List (String × StickyEntry))
        → All (λ q. ltb q.1.expires now ≡ false) rest
        → (b : Bool) → ltb p.1.expires now ≡ b
        → All (λ q. ltb q.1.expires now ≡ false) (if b then rest else p ∷ rest)
    one now p rest h true e = h
    one now p rest h false e = (e, h)

-- After a cleanup, the table has the limit's size at most, and no session in it has run out.
pub cleanup_sticky_lem :
    (now : ℕ) (r : Router)
    → (length (cleanup_sticky now r).sticky ≤ sticky_max_entries)
      × All (λ p. ltb p.1.expires now ≡ false) (cleanup_sticky now r).sticky
unfolding cleanup_sticky
cleanup_sticky_lem now r =
    let kept = unexpired now r.sticky in
    chosen
      (λ (m : List (String × StickyEntry)).
        (length m ≤ sticky_max_entries) × All (λ p. ltb p.1.expires now ≡ false) m)
      (ltb sticky_max_entries (length kept)) [] kept (λ _. (omega arith, tt))
      (λ b. (ground arith, unexpired-All now r.sticky))

-- The later turns of a conversation do not change its fingerprint: only the messages up to the first
-- one of the user count.
pub fingerprint_text-turns :
    (before later : List (String × String)) (text : String)
    → fingerprint_text (before ++ ("user", text) ∷ later)
      ≡ fingerprint_text (before ++ ("user", text) ∷ [])
unfolding fingerprint_text
fingerprint_text-turns [] later text = refl
fingerprint_text-turns ((role, t) ∷ before) later text =
    rw (fingerprint_text-turns before later text) refl
