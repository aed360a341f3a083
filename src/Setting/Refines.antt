-- ===== src/Setting/Refines.antt =====
-- What the settings promise: a table from keys to values, whatever the cache holds.
use claw_proxy_hub_next.Base.{
  String, str_eq, eq_iff, Option, none, some, GoMap, lookup, lookup-insert, List, [], ◌∷◌,
  if◌then◌else◌, ◌≡◌, refl, sym, ap, ◌∙◌, arith, Option-cases, inl, inr,
}
use claw_proxy_hub_next.Setting.Store.{Store, new_store, get, set, ensure_default}

-- The calls of the store, and what a caller is answered.
pub data Call : Type 0 where
  get_call : (key def : String) → Call
  set_call : (key value : String) → Call
  ensure_call : (key def : String) → Call

-- The code.
pub step : Store → Call → Store × Option String
unfolding get set ensure_default
step s (get_call key def) = let (s', v) = get s key def in (s', some v)
step s (set_call key value) = (set s key value, none)
step s (ensure_call key def) = (ensure_default s key def, none)

-- The specification: a function from keys to values, with no cache.
abbrev pub Spec : Type 0
Spec = String → Option String

abbrev written : Spec → String → String → Spec
written f key value k = if str_eq key k then some value else f k

abbrev ensured : Spec → String → String → Option String → Spec
ensured f key def none = written f key def
ensured f key def (some v) = f

abbrev or_def : String → Option String → String
or_def def none = def
or_def def (some v) = v

pub spec_step : Spec → Call → Spec × Option String
spec_step f (get_call key def) = (f, some (or_def def (f key)))
spec_step f (set_call key value) = (written f key value, none)
spec_step f (ensure_call key def) = (ensured f key def (f key), none)

-- The answers to a list of calls.
pub answers {ℓ} :
    {S : Type ℓ} → (S → Call → S × Option String) → S → List Call → List (Option String)
answers f s [] = []
answers f s (c ∷ cs) = let (s', a) = f s c in a ∷ answers f s' cs

-- The table is what the specification says, and the cache holds nothing else.
record Represents (s : Store) (f : Spec) : Type 0 where
  table : (k : String) → lookup k s.rows ≡ f k
  clean : (k v : String) → lookup k s.cache ≡ some v → lookup k s.rows ≡ some v

get-Represents :
    (s : Store) (f : Spec) (key def : String)
    → Represents s f
    → ((get s key def).1 ≡ or_def def (f key)) × Represents (get s key def).0 f
unfolding get
get-Represents s f key def r = elim (Option-cases (lookup key s.cache)) [
  | inr (v, hit) ↦
      let found : f key ≡ some v = sym (r.table key) ∙ r.clean key v hit in
      rw (hit, found) (refl, r)
  | inl miss ↦ elim (Option-cases (lookup key s.rows)) [
    | inl none_there ↦
        let found : f key ≡ none = sym (r.table key) ∙ none_there in
        rw (miss, none_there, found) (refl, r)
    | inr (v, there) ↦
        let found : f key ≡ some v = sym (r.table key) ∙ there in
        rw (miss, there, found)
          (
            refl,
            record {
              table = r.table;
              clean = λ k w h.
                  ground
                    (arith, lookup-insert key k v s.cache, eq_iff key k, r.clean k w, there, h);
            },
          )
  ]
]

set-Represents :
    (s : Store) (f : Spec) (key value : String)
    → Represents s f
    → Represents (set s key value) (written f key value)
unfolding set
set-Represents s f key value r = record {
  table = λ k. ground (arith, lookup-insert key k value s.rows, r.table k);
  clean = λ k v h.
      ground (
        arith,
        lookup-insert key k value s.rows,
        lookup-insert key k value s.cache,
        r.clean k v,
        h,
      );
}

step-Represents :
    (s : Store) (f : Spec) (c : Call)
    → Represents s f
    → ((step s c).1 ≡ (spec_step f c).1) × Represents (step s c).0 (spec_step f c).0
unfolding step spec_step ensure_default
step-Represents s f (get_call key def) r =
    let (same, r') = get-Represents s f key def r in (ap some same, r')
step-Represents s f (set_call key value) r = (refl, set-Represents s f key value r)
step-Represents s f (ensure_call key def) r = elim (Option-cases (lookup key s.rows)) [
  | inl miss ↦ rw (miss, sym (r.table key) ∙ miss) (refl, set-Represents s f key def r)
  | inr (v, there) ↦ rw (there, sym (r.table key) ∙ there) (refl, r)
]

answers-Represents :
    (s : Store) (f : Spec) (cs : List Call)
    → Represents s f
    → answers step s cs ≡ answers spec_step f cs
unfolding answers
answers-Represents s f [] r = refl
answers-Represents s f (c ∷ cs) r =
    let (same, r') = step-Represents s f c r in
    let later = answers-Represents (step s c).0 (spec_step f c).0 cs r' in cc (same, later)

-- Every caller of the settings is answered as by a plain table of keys and values that starts with the
-- rows of the database, whatever was read into the cache before: for any list of calls the answers
-- are the specification's.
pub answers-new_store :
    (rows : GoMap String) (calls : List Call)
    → answers step (new_store rows) calls ≡ answers spec_step (λ k. lookup k rows) calls
unfolding lookup
answers-new_store rows calls =
    answers-Represents (new_store rows) (λ k. lookup k rows) calls
      (record { table = λ k. refl; clean = λ k v h. absurd (cc) })
