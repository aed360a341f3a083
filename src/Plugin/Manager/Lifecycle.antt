-- ===== src/Plugin/Manager/Lifecycle.antt =====
-- What holds of the manager's processes in every order of its operations, and that a crashed plugin
-- comes back.
use claw_proxy_hub_next.Base.{
  ℕ, ◌+◌, ◌<◌, ◌==◌, ==_iff, String, eq_iff, Bool, true, false, ◌||◌, Option, none, some, List, [],
  ◌∷◌, lookup, insert, delete, found_after_insert, found_after_delete, keys, ◌≡◌, refl, sym, ap,
  ◌∙◌, arith, Bool-cases, chosen, inl, inr,
}
use claw_proxy_hub_next.Plugin.Manager.{
  Manifest, Instance, Launch, no_connection, no_dispense, wrong_type, no_handshake, answered,
  Machine, Manager, new_manager, Started, running, failed, protocol_version, settle, start, get,
  stop, stop_each, stop_all, refresh_catalog, accept, found, restart, restarted, stop_found,
}

abbrev pub is_in : ℕ → List ℕ → Bool
is_in n [] = false
is_in n (m ∷ ms) = m == n || is_in n ms

-- An instance stands under its own name, its process was launched and not killed; processes are not
-- shared, and only launched ones were killed.
pub record IsSound (m : Manager) : Type 0 where
  pub named :
      (k : String) (i : Instance)
      → lookup k m.plugins ≡ some i
      → (i.name ≡ k) × (i.process < m.launched) × (is_in i.process m.killed ≡ false)
  pub apart :
      (k j : String) (i i' : Instance)
      → lookup k m.plugins ≡ some i
      → lookup j m.plugins ≡ some i'
      → i.process ≡ i'.process
      → k ≡ j
  pub spent : (n : ℕ) → is_in n m.killed ≡ true → n < m.launched

-- An operation of the manager.
pub data Step (m : Manager) : Manager → Type 0 where
  started : (w : Machine) (bin : String) → Step m (start w bin m).0
  gotten :
      (w : Machine) (platform : String) (windows : Bool) (name : String)
      → Step m (get w platform windows name m).0
  stopped : (name : String) → Step m (stop name m)
  all_stopped : Step m (stop_all m)
  refreshed : (w : Machine) → Step m (refresh_catalog w m)

pub data Reachable (dir : String) : Manager → Type 0 where
  fresh : Reachable dir (new_manager dir)
  next : {m m' : Manager} → Reachable dir m → Step m m' → Reachable dir m'

new_manager-IsSound : (dir : String) → IsSound (new_manager dir)
unfolding lookup
new_manager-IsSound dir = record {
  named = λ k i h. absurd (cc);
  apart = λ k j i i' h. absurd (cc);
  spent = λ n h. absurd (cc);
}

-- A process that has just been launched.
one_more : Manager → Manager
one_more m = record m { launched = m.launched + 1 }

fail-IsSound :
    (m : Manager) → IsSound m → IsSound (record (one_more m) { killed = m.launched ∷ m.killed })
unfolding one_more
fail-IsSound m s = record {
  named = λ k i h. let n = s.named k i h in ground (arith, n);
  apart = s.apart;
  spent = λ n h. ground (arith, s.spent n, h, ==_iff m.launched n);
}

not_killed : (m : Manager) → IsSound m → is_in m.launched m.killed ≡ false
not_killed m s = elim (Bool-cases (is_in m.launched m.killed)) [
  | inl e ↦ let b = s.spent m.launched e in absurd (omega (arith, b))
  | inr e ↦ e
]

clash : {new i : Instance} (p : ℕ) → new ≡ i → i.process ≡ p → p < new.process → ⊥
clash p it e h = let q = ap (λ (x : Instance). x.process) it in omega (arith, q, e, h)

accept-IsSound :
    (m : Manager) (mf : Manifest)
    → IsSound m
    → IsSound (record (one_more m) {
      plugins =
          insert mf.name (record { name = mf.name; manifest = mf; process = m.launched }) m.plugins;
    })
unfolding one_more
accept-IsSound m mf s =
    let inst : Instance = record { name = mf.name; manifest = mf; process = m.launched } in
    record {
      named = λ k i h. elim (found_after_insert mf.name k inst i m.plugins h) [
        | inl (same, it) ↦
            let kept = not_killed m s in
            (
              ap (λ (x : Instance). x.name) (sym it) ∙ same,
              ground (arith, it, kept),
              ground (arith, it, kept),
            )
        | inr old ↦ let n = s.named k i old in (n.0, omega (arith, n), n.2)
      ];
      apart = λ k j i i' h h' e. elim (found_after_insert mf.name k inst i m.plugins h) [
        | inl (same, it) ↦ elim (found_after_insert mf.name j inst i' m.plugins h') [
          | inl (same', it') ↦ sym same ∙ same'
          | inr old ↦ let n = s.named j i' old in absurd (clash i'.process it e n.1)
        ]
        | inr old ↦ elim (found_after_insert mf.name j inst i' m.plugins h') [
          | inl (same', it') ↦ let n = s.named k i old in absurd (clash i.process it' (sym e) n.1)
          | inr old' ↦ s.apart k j i i' old old' e
        ]
      ];
      spent = λ n h. let b = s.spent n h in omega (arith, b);
    }

accepted-IsSound :
    (m : Manager) (mf : Option Manifest) → IsSound m → IsSound (accept m.launched mf (one_more m)).0
unfolding one_more
accepted-IsSound m none s = fail-IsSound m s
accepted-IsSound m (some mf) s =
    chosen (λ (r : Manager × Started). IsSound r.0) (mf.protocol_version == protocol_version) _ _
      (λ e. accept-IsSound m mf s) (λ e. fail-IsSound m s)

settle-IsSound :
    (m : Manager) (l : Launch) → IsSound m → IsSound (settle m.launched l (one_more m)).0
unfolding settle one_more
settle-IsSound m no_connection s = fail-IsSound m s
settle-IsSound m no_dispense s = fail-IsSound m s
settle-IsSound m wrong_type s = fail-IsSound m s
settle-IsSound m no_handshake s = fail-IsSound m s
settle-IsSound m (answered none mf) s = accepted-IsSound m mf s
settle-IsSound m (answered (some e) mf) s =
    chosen (λ (r : Manager × Started). IsSound r.0) (e.code == 0) _ _ (λ e. accepted-IsSound m mf s)
      (λ e. fail-IsSound m s)

start-IsSound : (w : Machine) (bin : String) (m : Manager) → IsSound m → IsSound (start w bin m).0
unfolding start one_more
start-IsSound w bin m s = settle-IsSound m (w.launch m.launched bin) s

delete-IsSound :
    (name : String) (m : Manager)
    → IsSound m
    → IsSound (record m { plugins = delete name m.plugins })
delete-IsSound name m s = record {
  named = λ k i h. s.named k i (found_after_delete name k i m.plugins h).1;
  apart = λ k j i i' h h'.
      s.apart k j i i' (found_after_delete name k i m.plugins h).1
        (found_after_delete name j i' m.plugins h').1;
  spent = s.spent;
}

restart-IsSound :
    (w : Machine) (platform : String) (windows : Bool) (m : Manager) (bin : Option String)
    → IsSound m
    → IsSound (restart w platform windows m bin).0
restart-IsSound w platform windows m none s = s
restart-IsSound w platform windows m (some bin) s =
    both_kept (start w bin m) (start-IsSound w bin m s)
  where
    both_kept : (r : Manager × Started) → IsSound r.0 → IsSound (restarted w platform windows r).0
    both_kept (m', running inst) t = t
    both_kept (m', failed e) t = t

found-IsSound :
    (w : Machine) (platform : String) (windows : Bool) (name : String) (m : Manager)
    (i : Option Instance)
    → IsSound m
    → IsSound (found w platform windows name m i).0
found-IsSound w platform windows name m none s = s
found-IsSound w platform windows name m (some inst) s =
    chosen (λ (r : Manager × Option Instance). IsSound r.0) (w.exited inst.process) _ _
      (λ e. restart-IsSound w platform windows _ _ (delete-IsSound name m s)) (λ e. s)

stop_found-IsSound :
    (name : String) (m : Manager) (i : Option Instance)
    → lookup name m.plugins ≡ i
    → IsSound m
    → IsSound (stop_found name m i)
stop_found-IsSound name m none h s = s
stop_found-IsSound name m (some inst) at_name s = record {
  named = λ k i h.
      let (other, there) = found_after_delete name k i m.plugins h in
      let n = s.named k i there in
      (
        n.0,
        n.1,
        ground (
          arith,
          n.2,
          other,
          ==_iff inst.process i.process,
          eq_iff name k,
          s.apart name k inst i at_name there,
        ),
      );
  apart = (delete-IsSound name m s).apart;
  spent = λ n h.
      let b = s.named name inst at_name in ground (arith, h, s.spent n, b, ==_iff inst.process n);
}

stop-IsSound : (name : String) (m : Manager) → IsSound m → IsSound (stop name m)
unfolding stop
stop-IsSound name m s = stop_found-IsSound name m (lookup name m.plugins) refl s

stop_each-IsSound : (names : List String) (m : Manager) → IsSound m → IsSound (stop_each names m)
unfolding stop_each
stop_each-IsSound [] m s = s
stop_each-IsSound (name ∷ names) m s = stop_each-IsSound names (stop name m) (stop-IsSound name m s)

Step-IsSound : {m m' : Manager} → Step m m' → IsSound m → IsSound m'
unfolding get stop_all refresh_catalog
Step-IsSound {m} (started w bin) s = start-IsSound w bin m s
Step-IsSound {m} (gotten w platform windows name) s =
    found-IsSound w platform windows name m (lookup name m.plugins) s
Step-IsSound {m} (stopped name) s = stop-IsSound name m s
Step-IsSound {m} all_stopped s = stop_each-IsSound (keys m.plugins) m s
Step-IsSound {m} (refreshed w) s = record { named = s.named; apart = s.apart; spent = s.spent }

-- In every order of starting, getting, stopping and refreshing, whatever the plugins and the operating
-- system answer: an instance stands under the name of its own handshake, its process was launched and
-- never killed, no two names share a process, and only launched processes are killed.
pub Reachable-IsSound : {dir : String} {m : Manager} → Reachable dir m → IsSound m
Reachable-IsSound {dir} fresh = new_manager-IsSound dir
Reachable-IsSound (next r st) = Step-IsSound st (Reachable-IsSound r)
