-- ===== src/Plugin/Host/Storage.antt =====
-- What a plugin stores, it reads again, and no other plugin can change it.
use claw_proxy_hub_next.Base.{
  String, str_eq, eq_iff, Bool, true, false, some, List, [], ◌∷◌, lookup, insert, lookup-insert,
  if◌then◌else◌, ◌≡◌, refl, ◌∙◌, arith, Option-cases, inl, inr,
}
use claw_proxy_hub_next.Plugin.Host.{
  Stores, or_none, value_at, write_at, HostService, store_get, store_put, new_host_service,
  set_plugin_name,
}

-- A call of a host, where a write may fail.
pub data Call : Type 0 where
  get_call : (key : String) → Call
  put_call : (written : Bool) → (key value : String) → Call

pub step : HostService → Stores → Call → HostService × Stores
unfolding store_get store_put
step h table (get_call key) = ((store_get h table key).0, table)
step h table (put_call written key value) = (store_put written h table key value).0

pub run : HostService → Stores → List Call → HostService × Stores
unfolding step
run h table [] = (h, table)
run h table (c ∷ cs) = let (h', table') = step h table c in run h' table' cs

-- What is in a map of maps after a write.
value_at-write_at :
    (p q key k value : String) (m : Stores)
    → value_at q k (write_at p key value m) ≡ (
        if str_eq p q
        then (if str_eq key k then some value else value_at p k m)
        else value_at q k m)
value_at-write_at p q key k value m =
    rw (lookup-insert p q (insert key value (or_none (lookup p m))) m)
      (ground (arith, lookup-insert key k value (or_none (lookup p m))))

-- The host of a plugin, whose cache has nothing that the table has not.
abbrev IsCoherent : String → HostService → Stores → Type 0
IsCoherent p h table =
    (h.plugin ≡ p)
    × ((key v : String) → value_at p key h.stores ≡ some v → value_at p key table ≡ some v)

cached-IsCoherent :
    (p : String) (h : HostService) (table : Stores) (key v : String)
    → IsCoherent p h table
    → value_at p key table ≡ some v
    → IsCoherent p (record h { stores = write_at p key v h.stores }) table
cached-IsCoherent p h table key v c there = (
  c.0,
  λ k w e.
      ground (
        arith,
        value_at-write_at p p key k v h.stores,
        eq_iff p p,
        eq_iff key k,
        c.1 k w,
        there,
        e,
      ),
)

store_get-IsCoherent :
    (p : String) (h : HostService) (table : Stores) (key : String)
    → IsCoherent p h table
    → ((store_get h table key).1 ≡ value_at p key table)
      × IsCoherent p (store_get h table key).0 table
unfolding store_get
store_get-IsCoherent p h table key c = elim (Option-cases (value_at p key h.stores)) [
  | inr (v, hit) ↦ let there = c.1 key v hit in rw (c.0, hit, there) (refl, (refl, c.1))
  | inl miss ↦ elim (Option-cases (value_at p key table)) [
    | inl absent ↦ rw (c.0, miss, absent) (refl, (refl, c.1))
    | inr (v, there) ↦
        rw (c.0, miss, there) (refl, (refl, (cached-IsCoherent p h table key v c there).1))
  ]
]

-- The rows of every other plugin are as they were.
abbrev Apart : String → Stores → Stores → Type 0
Apart p before after = (q : String) → str_eq p q ≡ false → lookup q after ≡ lookup q before

step-IsCoherent :
    (p : String) (h : HostService) (table : Stores) (c : Call)
    → IsCoherent p h table
    → let (h', table') = step h table c in IsCoherent p h' table' × Apart p table table'
unfolding step store_put
step-IsCoherent p h table (get_call key) c = ((store_get-IsCoherent p h table key c).1, λ q e. refl)
step-IsCoherent p h table (put_call false key value) c = (c, λ q e. refl)
step-IsCoherent p h table (put_call true key value) c = rw c.0 (
  (
    refl,
    λ k w e. ground (
      arith,
      value_at-write_at p p key k value h.stores,
      value_at-write_at p p key k value table,
      c.1 k w,
      e,
    ),
  ),
  λ q e. ground (arith, lookup-insert p q (insert key value (or_none (lookup p table))) table, e),
)

run-IsCoherent :
    (p : String) (h : HostService) (table : Stores) (cs : List Call)
    → IsCoherent p h table
    → let (h', table') = run h table cs in IsCoherent p h' table' × Apart p table table'
unfolding run
run-IsCoherent p h table [] c = (c, λ q e. refl)
run-IsCoherent p h table (x ∷ cs) c =
    let (h', table') = step h table x in
    let (now, apart) = step-IsCoherent p h table x c in
    let (later, apart') = run-IsCoherent p h' table' cs now in
    (later, λ q e. apart' q e ∙ apart q e)

-- Whatever a plugin asks of its new host, and whichever writes fail, what it reads next is what the
-- table has under its name, and the rows of every other plugin are as they were.
pub store_get-run :
    (p key : String) (table : Stores) (cs : List Call)
    → let (h, table') = run (set_plugin_name p new_host_service) table cs in
      ((store_get h table' key).1 ≡ value_at p key table')
      × ((q : String) → str_eq p q ≡ false → lookup q table' ≡ lookup q table)
unfolding lookup
store_get-run p key table cs =
    let (h, table') = run (set_plugin_name p new_host_service) table cs in
    let (c, apart) =
      run-IsCoherent p (set_plugin_name p new_host_service) table cs (refl, λ k v e. absurd (cc)) in
    ((store_get-IsCoherent p h table' key c).0, apart)
