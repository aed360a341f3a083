-- ===== src/Account/Service/Names.antt =====
-- What the service keeps of the accounts: the relation between two tables.
pub mod Calls
use claw_proxy_hub_next.Base.{
  ℕ, ◌==◌, String, str_eq, Bool, true, false, not, ◌&&◌, Option, none, some, List, [], ◌∷◌, ◌++◌,
  map, ◌≡◌, refl, sym, ap, ◌∙◌, ◌⊎◌, inl, inr, if◌then◌else◌, ◌∈◌, here, there, Option-cases,
  Bool-cases, trim_space, chosen, find,
}
use claw_proxy_hub_next.Data.{Account}
use claw_proxy_hub_next.Gateway.Envelope.{Error}
use claw_proxy_hub_next.Router.Db.{Db, Plugin}
use claw_proxy_hub_next.Account.Pauses.{mark_expired, mark_auto_pause, pause_row, ends_at, resume}
use claw_proxy_hub_next.Account.Credits.{Floats}
use claw_proxy_hub_next.Account.Service.{
  Profile, ModelInfo, RefreshResult, LoginResult, Reply, unimplemented, call_error, reply, Plugins,
  Codec, World, ServiceError, account_by_id, plugin_name, update_account, credential, refreshed,
  adopt_profile, with_blob, should_adopt_display_name, refused,
}
use claw_proxy_hub_next.Account.Service.Operations.{
  refresh, refresh_with, refresh_reply, accept_refresh, refuse_refresh, snapshot_of, sync_models,
  stored, models, save_models,
}
use claw_proxy_hub_next.Account.Service.Login.{
  create, create_for, submit_login, login_reply, login_judged, login_next, after_create,
}

-- The calls of the service other than `Delete`, with what the plugins answer to each.
pub data Call : Type 0 where
  refresh_call : Plugins → Floats → (now : ℕ) (day : String) (id : ℕ) → Call
  sync_call : Plugins → (id : ℕ) → Call
  save_call : (id : ℕ) → List ModelInfo → Call
  login_call :
      Plugins → Floats → (now : ℕ) (day : String) → (plugin method form state : String) → Call
  expire_call : (id : ℕ) → Call
  pause_call : (far : ℕ → ℕ) (now id : ℕ) → Option ℕ → Call
  resume_call : (id : ℕ) → Call

pub call : Codec → World → Call → World
call c w (refresh_call p f now day id) = (refresh c p f now day id w).0
call c w (sync_call p id) = (sync_models c p id w).0
call c w (save_call id ms) = save_models c id ms w
call c w (login_call p f now day plugin method form state) =
    (submit_login c p f now day plugin method form state w).0
call c w (expire_call id) = record w { db = mark_expired id w.db }
call c w (pause_call far now id until) = record w { db = mark_auto_pause far now id until w.db }
call c w (resume_call id) = record w { db = resume id w.db }

pub calls : Codec → World → List Call → World
calls c w [] = w
calls c w (x ∷ xs) = calls c (call c w x) xs

-- A row with the same key, plugin and name.
pub Same : Account → Account → Type 0
Same a b = (b.id ≡ a.id) × (b.plugin_id ≡ a.plugin_id) × (b.display_name ≡ a.display_name)

-- `strings.TrimSpace(current) == ""` fails.
pub IsNamed : Account → Type 0
IsNamed a = str_eq (trim_space a.display_name) "" ≡ false

pub Kept : List Account → List Account → Type 0
Kept old new = (a : Account) → a ∈ old → IsNamed a → (b : Account) × (b ∈ new) × Same a b

abbrev pub KeepsNamed : (Account → Account) → Type 0
KeepsNamed f = (a : Account) → IsNamed a → Same a (f a)

pub Same-refl : (a : Account) → Same a a
unfolding Same
Same-refl a = (refl, refl, refl)

Same-trans : (a b d : Account) → Same a b → Same b d → Same a d
unfolding Same
Same-trans a b d (i, p, n) (j, q, m) = (j ∙ i, q ∙ p, m ∙ n)

IsNamed-too : (a b : Account) → Same a b → IsNamed a → IsNamed b
unfolding Same IsNamed
IsNamed-too a b (i, p, n) h = rw n h

pub Kept-refl : (rows : List Account) → Kept rows rows
unfolding Kept
Kept-refl rows a m h = (a, m, Same-refl a)

pub Kept-trans : (xs ys zs : List Account) → Kept xs ys → Kept ys zs → Kept xs zs
unfolding Kept
Kept-trans xs ys zs k l a m h =
    let (b, n, s) = k a m h in
    let (d, o, t) = l b n (IsNamed-too a b s h) in (d, o, Same-trans a b d s t)

in_mapped :
    (f : Account → Account) (rows : List Account) (a : Account) → a ∈ rows → f a ∈ map f rows
in_mapped f [] a m = elim m [ ]
in_mapped f (r ∷ rows) a (here e) = here (ap f e)
in_mapped f (r ∷ rows) a (there m) = there (in_mapped f rows a m)

pub in_front : (rows more : List Account) (a : Account) → a ∈ rows → a ∈ (rows ++ more)
in_front [] more a m = elim m [ ]
in_front (r ∷ rows) more a (here e) = here e
in_front (r ∷ rows) more a (there m) = there (in_front rows more a m)

pub mapped-Kept :
    (f : Account → Account) (rows : List Account) → KeepsNamed f → Kept rows (map f rows)
unfolding Kept
mapped-Kept f rows keeps a m h = (f a, in_mapped f rows a m, keeps a h)

-- A change of some rows that leaves the columns alone.
pub when-KeepsNamed :
    (test : Account → Bool) (f : Account → Account)
    → KeepsNamed f
    → KeepsNamed (λ a. if test a then f a else a)
when-KeepsNamed test f keeps a h =
    chosen (λ b. Same a b) (test a) (f a) a (λ e. keeps a h) (λ e. Same-refl a)

pub update-Kept :
    (id : ℕ) (f : Account → Account) (db : Db)
    → KeepsNamed f
    → Kept db.accounts (update_account id f db).accounts
update-Kept id f db keeps =
    mapped-Kept (λ a. if a.id == id then f a else a) db.accounts
      (when-KeepsNamed (λ a. a.id == id) f keeps)

blob-Same : (c : Codec) (blob : String) (a : Account) → Same a (with_blob c blob a)
unfolding Same
blob-Same c blob a =
    chosen (λ b. Same a b) (str_eq blob "") a _ (λ e. (refl, refl, refl)) (λ e. (refl, refl, refl))

profile-Same :
    (c : Codec) (p : Option Profile) (a : Account) → IsNamed a → Same a (adopt_profile c p a)
unfolding adopt_profile should_adopt_display_name Same IsNamed
profile-Same c none a h = (refl, refl, refl)
profile-Same c (some p) a h = elim (Bool-cases (str_eq (trim_space p.display_name) "")) [
  | inl e ↦ (refl, refl, rw e refl)
  | inr e ↦ (refl, refl, rw (e, h) refl)
]

pub refreshed-KeepsNamed :
    (c : Codec) (now : ℕ) (r : RefreshResult) → KeepsNamed (refreshed c now r)
unfolding refreshed Same
refreshed-KeepsNamed c now r a h =
    let b = with_blob c r.blob a in
    let s = blob-Same c r.blob a in
    Same-trans a b (adopt_profile c r.profile b) s
      (profile-Same c r.profile b (IsNamed-too a b s h))
