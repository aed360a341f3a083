-- ===== src/Account/Rows.antt =====
-- An update of the rows of one key, as the account service makes it, and the choice of accounts.
use claw_proxy_hub_next.Base.{
  ℕ, ◌==◌, ==_iff, Bool, true, false, ◌&&◌, some, some_injective, List, [], ◌∷◌, map, find, select,
  select_sound, ◌≡◌, refl, ap, subst, ◌∙◌, ◌≢◌, ◌↔◌, if◌then◌else◌, ◌∈◌, here, there, Bool-cases,
  inl, inr, find_sound, str_eq, and_left,
}
use claw_proxy_hub_next.Data.{Account}
use claw_proxy_hub_next.Router.Db.{Db, active_where, in_group, accounts_in_group}
use claw_proxy_hub_next.Account.Service.{account_by_id, update_account}

pub select_complete {ℓ} :
    {A : Type ℓ} (p : A → Bool) (xs : List A) (y : A) → y ∈ xs → p y ≡ true → y ∈ select p xs
select_complete p [] y m t = elim m [ ]
select_complete p (x ∷ xs) y (here e) t = let q : p x ≡ true = rw (← e) t in rw q (here e)
select_complete p (x ∷ xs) y (there m) t = elim (Bool-cases (p x)) [
  | inl q ↦ rw q (there (select_complete p xs y m t))
  | inr q ↦ rw q (select_complete p xs y m t)
]

pub other_key : (a b : ℕ) → a ≢ b → (a == b) ≡ false
other_key a b n = elim (Bool-cases (a == b)) [ inl e ↦ absurd (n ((==_iff a b).0 e)) | inr e ↦ e ]

module _ (id : ℕ) (f : Account → Account) where
  abbrev pub change : Account → Account
  change a = if a.id == id then f a else a

  pub changed : (a : Account) → a.id ≡ id → change a ≡ f a
  changed a e = rw ((==_iff a.id id).1 e) refl

  pub unchanged : (a : Account) → a.id ≢ id → change a ≡ a
  unchanged a n = rw (other_key a.id id n) refl

  -- A changed table has the changed rows.
  pub in_changed : (rows : List Account) (a : Account) → a ∈ rows → change a ∈ map change rows
  in_changed [] a m = elim m [ ]
  in_changed (r ∷ rows) a (here e) = here (ap change e)
  in_changed (r ∷ rows) a (there m) = there (in_changed rows a m)

  pub from_changed :
      (rows : List Account) (b : Account)
      → b ∈ map change rows
      → (a : Account) × (a ∈ rows) × (b ≡ change a)
  from_changed [] b m = elim m [ ]
  from_changed (r ∷ rows) b (here e) = (r, here refl, e)
  from_changed (r ∷ rows) b (there m) = let (a, n, e) = from_changed rows b m in (a, there n, e)

  module _ (keeps : (a : Account) → (f a).id ≡ a.id) where
    pub change_id : (a : Account) → (change a).id ≡ a.id
    change_id a = elim (Bool-cases (a.id == id)) [ inl e ↦ rw e (keeps a) | inr e ↦ rw e refl ]

    -- A row of another key is in the one table if it is in the other.
    pub other_rows :
        (rows : List Account) (b : Account) → b.id ≢ id → (b ∈ map change rows) ↔ (b ∈ rows)
    other_rows rows b n = (
      (λ m.
          let (a, k, e) = from_changed rows b m in
          let same : b.id ≡ a.id = ap (λ (x : Account). x.id) e ∙ change_id a in
          let q : b ≡ a = e ∙ unchanged a (λ h. n (same ∙ h)) in rw q k),
      (λ m. rw (← unchanged b n) (in_changed rows b m)),
    )

    -- The row of the key is found changed.
    pub find-changed :
        (rows : List Account) (acct : Account)
        → find (λ a. a.id == id) rows ≡ some acct
        → find (λ a. a.id == id) (map change rows) ≡ some (f acct)
    find-changed [] acct h = absurd (cc)
    find-changed (r ∷ rows) acct h = elim (Bool-cases (r.id == id)) [
      | inl e ↦
          let q : r ≡ acct =
            some_injective
              (subst (λ b. (if b then some r else find (λ a. a.id == id) rows) ≡ some acct) e h) in
          let k : ((f r).id == id) ≡ true = rw (keeps r) e in rw (e, k) (ap (λ x. some (f x)) q)
      | inr e ↦
          rw (e, e)
            (find-changed rows acct
              (subst (λ b. (if b then some r else find (λ a. a.id == id) rows) ≡ some acct) e h))
    ]

    -- The choice of the router among the other accounts is as before.
    pub other_choices :
        (db : Db) (later group_id : ℕ) (b : Account)
        → b.id ≢ id
        → (b ∈ accounts_in_group (update_account id f db) later group_id)
          ↔ (b ∈ accounts_in_group db later group_id)
    unfolding accounts_in_group in_group
    other_choices db later group_id b n =
        let test : Account → Bool = λ x. active_where later x && in_group db x.id group_id in
        let (to, back) = other_rows db.accounts b n in
        (
          (λ m.
              let (k, t) = select_sound test (map change db.accounts) b m in
              select_complete test db.accounts b (to k) t),
          (λ m.
              let (k, t) = select_sound test db.accounts b m in
              select_complete test (map change db.accounts) b (back k) t),
        )

-- A row that is chosen is in the table and active.
pub chosen_row :
    (db : Db) (later group_id : ℕ) (a : Account)
    → a ∈ accounts_in_group db later group_id
    → (a ∈ db.accounts) × (str_eq a.status "active" ≡ true)
unfolding accounts_in_group active_where
chosen_row db later group_id a h =
    let (m, t) =
      select_sound (λ x. active_where later x && in_group db x.id group_id) db.accounts a h in
    (m, and_left (str_eq a.status "active") _ (and_left (active_where later a) _ t))

pub found_id :
    (id : ℕ) (db : Db) (a : Account)
    → account_by_id id db ≡ some a
    → (a ∈ db.accounts) × (a.id ≡ id)
found_id id db a h =
    let (m, t) = find_sound (λ (x : Account). x.id == id) db.accounts a h in
    (m, (==_iff a.id id).0 t)
