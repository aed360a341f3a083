-- ===== src/Account/Service/Names/Calls.antt =====
-- What the service keeps of the accounts, whatever it is asked to do.
use claw_proxy_hub_next.Base.{
  ℕ, ◌==◌, String, str_eq, ◌&&◌, Option, none, some, List, [], ◌∷◌, refl, ◌⊎◌, inl, inr,
  Option-cases, Bool-cases, chosen, find,
}
use claw_proxy_hub_next.Data.{Account}
use claw_proxy_hub_next.Gateway.Envelope.{Error}
use claw_proxy_hub_next.Router.Db.{Db, Plugin}
use claw_proxy_hub_next.Account.Pauses.{mark_expired, mark_auto_pause, pause_row, ends_at, resume}
use claw_proxy_hub_next.Account.Credits.{Floats}
use claw_proxy_hub_next.Account.Service.{
  Profile, ModelInfo, RefreshResult, LoginResult, Reply, unimplemented, call_error, reply, Plugins,
  Codec, World, ServiceError, account_by_id, plugin_name, update_account, credential, refreshed,
  refused,
}
use claw_proxy_hub_next.Account.Service.Operations.{
  refresh, refresh_with, refresh_reply, accept_refresh, refuse_refresh, sync_models, stored, models,
  marshal_models, save_models,
}
use claw_proxy_hub_next.Account.Service.Login.{create, submit_login, login_reply, after_create}
use claw_proxy_hub_next.Account.Service.Names.{
  Call, refresh_call, sync_call, save_call, login_call, expire_call, pause_call, resume_call, call,
  calls, Same, Kept, mapped-Kept, update-Kept, when-KeepsNamed, Kept-trans, Kept-refl, in_front,
  refreshed-KeepsNamed, Same-refl,
}

-- A status, a pause or the models are none of the columns that are kept.
marked-Kept :
    (id : ℕ) (status : String) (db : Db)
    → Kept db.accounts (update_account id (λ a. record a { status = status }) db).accounts
unfolding Same
marked-Kept id status db =
    update-Kept id (λ a. record a { status = status }) db (λ a h. (refl, refl, refl))

module _ (c : Codec) (w : World) where
  save_models-Kept :
      (id : ℕ) (ms : List ModelInfo) → Kept w.db.accounts (save_models c id ms w).db.accounts
  unfolding save_models Same
  save_models-Kept id ms =
      update-Kept id (λ a. record a { models_json = marshal_models c ms }) w.db
        (λ a h. (refl, refl, refl))

  sync_models-Kept :
      (p : Plugins) (id : ℕ) → Kept w.db.accounts (sync_models c p id w).0.db.accounts
  unfolding sync_models
  sync_models-Kept p id = stored-Kept (models c p id w)
    where
      stored-Kept :
          (r : ServiceError ⊎ List ModelInfo) → Kept w.db.accounts (stored c p id w r).0.db.accounts
      stored-Kept (inl e) = Kept-refl w.db.accounts
      stored-Kept (inr ms) = save_models-Kept id ms

  module _ (p : Plugins) (f : Floats) (now : ℕ) (day : String) where
    accept_refresh-Kept :
        (acct : Account) (r : RefreshResult)
        → Kept w.db.accounts (accept_refresh c p f now day w acct r).0.db.accounts
    accept_refresh-Kept acct r =
        let new = update_account acct.id (refreshed c now r) w.db in
        elim (Option-cases (account_by_id acct.id new)) [
          | inl q ↦
              rw q (update-Kept acct.id (refreshed c now r) w.db (refreshed-KeepsNamed c now r))
          | inr (a, q) ↦
              rw q (update-Kept acct.id (refreshed c now r) w.db (refreshed-KeepsNamed c now r))
        ]

    refuse_refresh-Kept :
        (acct : Account) (e : Error)
        → Kept w.db.accounts (refuse_refresh c p f now day w acct e).0.db.accounts
    refuse_refresh-Kept acct e =
        chosen (λ (v : World). Kept w.db.accounts v.db.accounts) (e.code == 401) _ w
          (λ q. marked-Kept acct.id "expired" w.db) (λ q. Kept-refl w.db.accounts)

    refresh_reply-Kept :
        (acct : Account) (answer : Reply RefreshResult)
        → Kept w.db.accounts (refresh_reply c p f now day w acct answer).0.db.accounts
    refresh_reply-Kept acct unimplemented = Kept-refl w.db.accounts
    refresh_reply-Kept acct (call_error message) = Kept-refl w.db.accounts
    refresh_reply-Kept acct (reply r) = elim (Option-cases (refused r.error)) [
      | inl q ↦ rw q (accept_refresh-Kept acct r)
      | inr (e, q) ↦ rw q (refuse_refresh-Kept acct e)
    ]

    refresh_with-Kept :
        (acct : Account) (name : ServiceError ⊎ String)
        → Kept w.db.accounts (refresh_with c p f now day w acct name).0.db.accounts
    refresh_with-Kept acct (inl e) = Kept-refl w.db.accounts
    refresh_with-Kept acct (inr name) = elim (Bool-cases (p.running name)) [
      | inl q ↦ rw q (refresh_reply-Kept acct (p.refresh name (credential c w.proxies acct)))
      | inr q ↦ rw q (Kept-refl w.db.accounts)
    ]

    refresh-Kept : (id : ℕ) → Kept w.db.accounts (refresh c p f now day id w).0.db.accounts
    unfolding refresh
    refresh-Kept id = elim (Option-cases (account_by_id id w.db)) [
      | inl q ↦ rw q (Kept-refl w.db.accounts)
      | inr (acct, q) ↦ rw q (refresh_with-Kept acct (plugin_name w.db acct.plugin_id))
    ]

    create-Kept :
        (name blob : String) (profile : Option Profile)
        → Kept w.db.accounts (create c p f now day name blob profile w).0.db.accounts
    unfolding create Kept
    create-Kept name blob profile =
        elim (Option-cases (find (λ (x : Plugin). str_eq x.name name) w.db.plugins)) [
          | inl q ↦ rw q (Kept-refl w.db.accounts)
          | inr (x, q) ↦ rw q (λ a m h. (a, in_front w.db.accounts _ a m, Same-refl a))
        ]

after_create-Kept :
    (c : Codec) (p : Plugins) (f : Floats) (now : ℕ) (day : String) (rows : List Account)
    (profile : Option Profile) (made : World × (ServiceError ⊎ ℕ))
    → Kept rows made.0.db.accounts
    → Kept rows (after_create c p f now day profile made).0.db.accounts
after_create-Kept c p f now day rows profile (w, inl e) k = k
after_create-Kept c p f now day rows profile (w, inr id) k =
    Kept-trans rows w.db.accounts (sync_models c p id w).0.db.accounts k (sync_models-Kept c w p id)

module _ (c : Codec) (w : World) (p : Plugins) (f : Floats) (now : ℕ) (day : String) where
  login_reply-Kept :
      (name : String) (answer : Reply LoginResult)
      → Kept w.db.accounts (login_reply c p f now day name w answer).0.db.accounts
  login_reply-Kept name unimplemented = Kept-refl w.db.accounts
  login_reply-Kept name (call_error message) = Kept-refl w.db.accounts
  login_reply-Kept name (reply r) = elim (Option-cases (refused r.error)) [
    | inr (e, q) ↦ rw q (Kept-refl w.db.accounts)
    | inl q ↦ rw q (elim (Option-cases r.next) [
      | inr (step, n) ↦ rw n (Kept-refl w.db.accounts)
      | inl n ↦ rw n (
          after_create-Kept c p f now day w.db.accounts r.profile
            (create c p f now day name r.blob r.profile w)
            (create-Kept c w p f now day name r.blob r.profile))
    ])
  ]

  submit_login-Kept :
      (name method form state : String)
      → Kept w.db.accounts (submit_login c p f now day name method form state w).0.db.accounts
  unfolding submit_login
  submit_login-Kept name method form state = elim (Bool-cases (p.running name)) [
    | inl q ↦ rw q (login_reply-Kept name (p.login name method form state))
    | inr q ↦ rw q (Kept-refl w.db.accounts)
  ]

call-Kept : (c : Codec) (w : World) (x : Call) → Kept w.db.accounts (call c w x).db.accounts
unfolding call mark_expired mark_auto_pause resume Same
call-Kept c w (refresh_call p f now day id) = refresh-Kept c w p f now day id
call-Kept c w (sync_call p id) = sync_models-Kept c w p id
call-Kept c w (save_call id ms) = save_models-Kept c w id ms
call-Kept c w (login_call p f now day plugin method form state) =
    submit_login-Kept c w p f now day plugin method form state
call-Kept c w (expire_call id) = marked-Kept id "expired" w.db
call-Kept c w (pause_call far now id until) =
    mapped-Kept (pause_row id (ends_at far now until)) w.db.accounts (
      when-KeepsNamed (λ a. (a.id == id) && str_eq a.status "active")
        (λ a. record a { paused_until = some (ends_at far now until) }) (λ a h. (refl, refl, refl)))
call-Kept c w (resume_call id) =
    update-Kept id (λ a. record a { paused_until = none }) w.db (λ a h. (refl, refl, refl))

-- Whatever is refreshed, synchronised, saved, logged in, expired, paused and resumed, in any order and
-- with any answers of the plugins, an account that has a name keeps it, with its key and its plugin.
pub calls-Kept :
    (c : Codec) (w : World) (xs : List Call) → Kept w.db.accounts (calls c w xs).db.accounts
unfolding calls
calls-Kept c w [] = Kept-refl w.db.accounts
calls-Kept c w (x ∷ xs) =
    Kept-trans w.db.accounts (call c w x).db.accounts (calls c w (x ∷ xs)).db.accounts
      (call-Kept c w x) (calls-Kept c (call c w x) xs)
