-- ===== src/Account/Pauses/Selection.antt =====
-- What the changes of an account's row mean for the choice of accounts.
use claw_proxy_hub_next.Base.{
  ℕ, ◌<◌, ◌==◌, ==_iff, ltb, ltb→lt, str_eq, Bool, true, false, ◌&&◌, and_left, and_right, Option,
  none, some, List, [], ◌∷◌, map, ◌≡◌, refl, sym, ap, ◌∙◌, if◌then◌else◌, ◌∈◌, here, there,
  select_sound,
}
use claw_proxy_hub_next.Data.{Account}
use claw_proxy_hub_next.Router.Db.{Db, active_where, in_group, accounts_in_group}
use claw_proxy_hub_next.Account.Pauses.{ends_at, pause_row, resume_row, mark_auto_pause, resume}

-- A row of a changed table comes from a row of the table.
from_row :
    (f : Account → Account) (rows : List Account) (a : Account)
    → a ∈ map f rows
    → (b : Account) × (b ∈ rows) × (a ≡ f b)
from_row f [] a h = elim h [ ]
from_row f (r ∷ rows) a (here e) = (r, here refl, e)
from_row f (r ∷ rows) a (there h) = let (b, m, e) = from_row f rows a h in (b, there m, e)

active_of :
    (db : Db) (now group_id : ℕ) (a : Account)
    → a ∈ accounts_in_group db now group_id
    → (a ∈ db.accounts) × (active_where now a ≡ true)
unfolding accounts_in_group
active_of db now group_id a h =
    let (m, t) =
      select_sound (λ x. active_where now x && in_group db x.id group_id) db.accounts a h in
    (m, and_left (active_where now a) (in_group db a.id group_id) t)

paused_row :
    (id until later : ℕ) (b : Account)
    → (pause_row id until b).id ≡ id
    → active_where later (pause_row id until b) ≡ true
    → until < later
unfolding active_where
paused_row id until later b e t = paused_case (b.id == id) (str_eq b.status "active") refl refl e t
  where
    row : Bool → Account
    row c = if c then record b { paused_until = some until } else b

    paused_case :
        (c d : Bool)
        → (b.id == id) ≡ c
        → str_eq b.status "active" ≡ d
        → (row (c && d)).id ≡ id
        → active_where later (row (c && d)) ≡ true
        → until < later
    paused_case true true p q e t =
        ltb→lt until later (and_right (str_eq b.status "active") (ltb until later) t)
    paused_case true false p q e t = let r = and_left (str_eq b.status "active") _ t in absurd (cc)
    paused_case false d p q e t = let r = (==_iff b.id id).1 e in absurd (cc)

-- An account that was paused is not chosen in any group before its pause has ended.
pub mark_auto_pause-choice :
    (far : ℕ → ℕ) (now id later group_id : ℕ) (resume_at : Option ℕ) (db : Db) (a : Account)
    → a ∈ accounts_in_group (mark_auto_pause far now id resume_at db) later group_id
    → a.id ≡ id
    → ends_at far now resume_at < later
unfolding mark_auto_pause
mark_auto_pause-choice far now id later group_id resume_at db a h e =
    let until = ends_at far now resume_at in
    let (m, t) = active_of (mark_auto_pause far now id resume_at db) later group_id a h in
    let (b, _, q) = from_row (pause_row id until) db.accounts a m in
    paused_row id until later b (sym (ap (λ (x : Account). x.id) q) ∙ e) (rw (← q) t)

resumed_row :
    (id now : ℕ) (b : Account)
    → (resume_row id b).id ≡ id
    → str_eq (resume_row id b).status "active" ≡ true
    → active_where now (resume_row id b) ≡ true
unfolding active_where
resumed_row id now b e t = resumed_case (b.id == id) refl e t
  where
    row : Bool → Account
    row c = if c then record b { paused_until = none } else b

    resumed_case :
        (c : Bool)
        → (b.id == id) ≡ c
        → (row c).id ≡ id
        → str_eq (row c).status "active" ≡ true
        → active_where now (row c) ≡ true
    resumed_case true p e t = rw t refl
    resumed_case false p e t = let r = (==_iff b.id id).1 e in absurd (cc)

-- A resumed account can be chosen at once, if its status is `active`: the manual end of a pause, also of
-- one without an end.
pub resume-active :
    (id now : ℕ) (db : Db) (a : Account)
    → a ∈ (resume id db).accounts
    → a.id ≡ id
    → str_eq a.status "active" ≡ true
    → active_where now a ≡ true
unfolding resume
resume-active id now db a h e t =
    let (b, _, q) = from_row (resume_row id) db.accounts a h in
    rw q (resumed_row id now b (sym (ap (λ (x : Account). x.id) q) ∙ e) (rw (← q) t))
