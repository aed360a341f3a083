-- ===== src/Account/Service/Refreshing.antt =====
-- What a refresh leaves for the router's choice of accounts.
use claw_proxy_hub_next.Base.{
  ℕ, ◌==◌, String, str_eq, true, Option, none, some, ◌≡◌, refl, sym, ap, subst, ◌∙◌, ◌≢◌, ◌↔◌, ◌⊎◌,
  inl, inr, ◌∈◌, Option-cases, Bool-cases, ==_iff,
}
use claw_proxy_hub_next.Data.{Account}
use claw_proxy_hub_next.Gateway.Envelope.{Error}
use claw_proxy_hub_next.Router.Db.{Db, accounts_in_group}
use claw_proxy_hub_next.Account.Credits.{Floats}
use claw_proxy_hub_next.Account.Service.{
  Profile, RefreshResult, Reply, unimplemented, call_error, reply, Plugins, Codec, World,
  ServiceError, no_account, not_running, not_refreshable, plugin_error, account_by_id, plugin_name,
  update_account, credential, refreshed, adopt_profile, with_blob, refused,
}
use claw_proxy_hub_next.Account.Service.Operations.{
  refresh, refresh_with, refresh_reply, accept_refresh, refuse_refresh,
}
use claw_proxy_hub_next.Account.Rows.{
  changed, from_changed, change_id, find-changed, other_choices, chosen_row, found_id,
}

-- The router chooses among the accounts of other keys as before.
pub OthersKept : ℕ → Db → Db → Type 0
OthersKept id old new =
    (later group_id : ℕ) (b : Account)
    → b.id ≢ id
    → (b ∈ accounts_in_group new later group_id) ↔ (b ∈ accounts_in_group old later group_id)

-- No group offers the account.
pub NotOffered : ℕ → Db → Type 0
NotOffered id db =
    (later group_id : ℕ) (b : Account) → b ∈ accounts_in_group db later group_id → b.id ≢ id

kept_all : (id : ℕ) (db : Db) → OthersKept id db db
unfolding OthersKept
kept_all id db later group_id b n = ((λ m. m), (λ m. m))

blob_id : (c : Codec) (blob : String) (a : Account) → (with_blob c blob a).id ≡ a.id
blob_id c blob a = elim (Bool-cases (str_eq blob "")) [ inl e ↦ rw e refl | inr e ↦ rw e refl ]

profile_id : (c : Codec) (p : Option Profile) (a : Account) → (adopt_profile c p a).id ≡ a.id
unfolding adopt_profile
profile_id c none a = refl
profile_id c (some p) a = refl

pub refreshed_id :
    (c : Codec) (now : ℕ) (r : RefreshResult) (a : Account) → (refreshed c now r a).id ≡ a.id
unfolding refreshed
refreshed_id c now r a = profile_id c r.profile (with_blob c r.blob a) ∙ blob_id c r.blob a

-- What the answer of a refresh says of the choice.
pub Leaves : ℕ → World → World × (ServiceError ⊎ Account) → Type 0
Leaves id w (w', inr a) =
    (a ∈ w'.db.accounts) × (a.id ≡ id) × (a.status ≡ "active") × OthersKept id w.db w'.db
Leaves id w (w', inl e) = OthersKept id w.db w'.db × ((w' ≡ w) ⊎ NotOffered id w'.db)

not_offered :
    (id : ℕ) (db : Db) → NotOffered id (update_account id (λ a. record a { status = "expired" }) db)
unfolding NotOffered
not_offered id db later group_id b m e =
    let expire : Account → Account = λ a. record a { status = "expired" } in
    let (k, active) = chosen_row (update_account id expire db) later group_id b m in
    let (a, _, q) = from_changed id expire db.accounts b k in
    let same : a.id ≡ id =
      sym (change_id id expire (λ x. refl) a) ∙ sym (ap (λ (x : Account). x.id) q) ∙ e in
    let status : b.status ≡ "expired" =
      ap (λ (x : Account). x.status) (q ∙ changed id expire a same) in
    let wrong : str_eq "expired" "active" ≡ true =
      subst (λ x. str_eq x "active" ≡ true) status active in
    absurd (cc)

unchanged-Leaves : (id : ℕ) (w : World) (e : ServiceError) → Leaves id w (w, inl e)
unfolding Leaves
unchanged-Leaves id w e = (kept_all id w.db, inl refl)

module _ (c : Codec) (p : Plugins) (f : Floats) (now : ℕ) (day : String) where
  accept-Leaves :
      (w : World) (acct : Account) (r : RefreshResult)
      → account_by_id acct.id w.db ≡ some acct
      → Leaves acct.id w (accept_refresh c p f now day w acct r)
  unfolding Leaves OthersKept refreshed
  accept-Leaves w acct r h =
      let id = acct.id in
      let keeps = refreshed_id c now r in
      let again = find-changed id (refreshed c now r) keeps w.db.accounts acct h in
      let new : Db = update_account id (refreshed c now r) w.db in
      let (m, e) = found_id id new (refreshed c now r acct) again in
      rw again (m, e, refl, other_choices id (refreshed c now r) keeps w.db)

  refuse-Leaves :
      (w : World) (acct : Account) (e : Error)
      → Leaves acct.id w (refuse_refresh c p f now day w acct e)
  unfolding Leaves OthersKept
  refuse-Leaves w acct e = elim (Bool-cases (e.code == 401)) [
    | inl q ↦
        let expire : Account → Account = λ a. record a { status = "expired" } in
        rw q (other_choices acct.id expire (λ x. refl) w.db, inr (not_offered acct.id w.db))
    | inr q ↦ rw q (kept_all acct.id w.db, inl refl)
  ]

  reply-Leaves :
      (w : World) (acct : Account) (answer : Reply RefreshResult)
      → account_by_id acct.id w.db ≡ some acct
      → Leaves acct.id w (refresh_reply c p f now day w acct answer)
  reply-Leaves w acct unimplemented h = unchanged-Leaves acct.id w not_refreshable
  reply-Leaves w acct (call_error message) h = unchanged-Leaves acct.id w (plugin_error message)
  reply-Leaves w acct (reply r) h = elim (Option-cases (refused r.error)) [
    | inl q ↦ rw q (accept-Leaves w acct r h)
    | inr (e, q) ↦ rw q (refuse-Leaves w acct e)
  ]

  name-Leaves :
      (w : World) (acct : Account) (name : ServiceError ⊎ String)
      → account_by_id acct.id w.db ≡ some acct
      → Leaves acct.id w (refresh_with c p f now day w acct name)
  name-Leaves w acct (inl e) h = unchanged-Leaves acct.id w e
  name-Leaves w acct (inr name) h = elim (Bool-cases (p.running name)) [
    | inl q ↦ rw q (reply-Leaves w acct (p.refresh name (credential c w.proxies acct)) h)
    | inr q ↦ rw q (unchanged-Leaves acct.id w not_running)
  ]

  -- A refresh that succeeds leaves the account active and answers its row as the table has it; one that
  -- fails changes nothing or takes the account out of the choice of every group. The choice among the
  -- other accounts is as before.
  pub refresh-Leaves : (w : World) (id : ℕ) → Leaves id w (refresh c p f now day id w)
  unfolding refresh
  refresh-Leaves w id = elim (Option-cases (account_by_id id w.db)) [
    | inl q ↦ rw q (unchanged-Leaves id w no_account)
    | inr (acct, q) ↦
        let (_, e) = found_id id w.db acct q in
        let h : account_by_id acct.id w.db ≡ some acct =
          subst (λ k. account_by_id k w.db ≡ some acct) (sym e) q in
        rw q (
          subst
            (λ k. Leaves k w (refresh_with c p f now day w acct (plugin_name w.db acct.plugin_id)))
            e (name-Leaves w acct (plugin_name w.db acct.plugin_id) h))
  ]

  -- An account whose refresh is answered by an error of code 401 is in the choice of no group.
  pub refresh-expires :
      (w : World) (id : ℕ) (acct : Account) (name : String) (r : RefreshResult) (e : Error)
      → account_by_id id w.db ≡ some acct
      → plugin_name w.db acct.plugin_id ≡ inr name
      → p.running name ≡ true
      → p.refresh name (credential c w.proxies acct) ≡ reply r
      → refused r.error ≡ some e
      → e.code ≡ 401
      → NotOffered id (refresh c p f now day id w).0.db
  unfolding refresh
  refresh-expires w id acct name r e found named runs answer refusal code =
      let (_, same) = found_id id w.db acct found in
      let k : (e.code == 401) ≡ true = (==_iff e.code 401).1 code in
      rw found (
        rw named (
          rw runs (
            rw answer (
              rw refusal (
                rw k (
                  subst
                    (λ i.
                      NotOffered i
                        (update_account acct.id (λ a. record a { status = "expired" }) w.db))
                    same (not_offered acct.id w.db)))))))
