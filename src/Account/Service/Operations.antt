-- ===== src/Account/Service/Operations.antt =====
-- `Refresh`, `Models`, `SyncModels`, `SaveModels` and `StoredModels` of internal/account/service.go. One instant `now`, of the day `day`, stands for all readings of the
-- clock in a call.
use claw_proxy_hub_next.Base.{
  ℕ, ◌==◌, String, str_eq, Option, none, some, List, [], ◌∷◌, if◌then◌else◌, ◌⊎◌, inl, inr,
}
use claw_proxy_hub_next.Data.{Account}
use claw_proxy_hub_next.Gateway.Envelope.{Error}
use claw_proxy_hub_next.Account.Credits.{Floats, record_credit_snapshot}
use claw_proxy_hub_next.Account.Service.{
  ModelInfo, RefreshResult, Reply, unimplemented, call_error, reply, Plugins, Codec, World,
  ServiceError, no_account, not_running, not_refreshable, plugin_error, unauthorized, account_by_id,
  plugin_name, update_account, credential, refreshed, refused,
}

-- The models that can be encoded, and those that can be decoded.
abbrev ahead {ℓ} : {A : Type ℓ} → Option A → List A → List A
ahead none ys = ys
ahead (some y) ys = y ∷ ys

abbrev pub keep_some {ℓ ℓ'} : {A : Type ℓ} → {B : Type ℓ'} → (A → Option B) → List A → List B
keep_some f [] = []
keep_some f (x ∷ xs) = ahead (f x) (keep_some f xs)

abbrev or_empty : Option String → String
or_empty none = ""
or_empty (some s) = s

module _ (c : Codec) where
  -- `marshalModels`
  unfoldable pub marshal_models : List ModelInfo → String
  marshal_models models = or_empty (c.marshal_list (keep_some c.marshal_model models))

  -- `SaveModels`
  unfoldable pub save_models : ℕ → List ModelInfo → World → World
  unfolding marshal_models
  save_models id models w = record w {
    db = update_account id (λ a. record a { models_json = marshal_models models }) w.db;
  }

  abbrev decode_models : Option (List String) → List ModelInfo
  decode_models none = []
  decode_models (some raws) = keep_some c.unmarshal_model raws

  abbrev models_of : Option Account → List ModelInfo
  models_of none = []
  models_of (some a) =
      if str_eq a.models_json "" then [] else decode_models (c.unmarshal_list a.models_json)

  -- `StoredModels`
  unfoldable pub stored_models : ℕ → World → List ModelInfo
  stored_models id w = models_of (account_by_id id w.db)

  module _ (p : Plugins) where
    abbrev listed : Reply (List ModelInfo) → ServiceError ⊎ List ModelInfo
    listed unimplemented = inl (plugin_error "unimplemented")
    listed (call_error message) = inl (plugin_error message)
    listed (reply models) = inr models

    abbrev models_from : World → Account → ServiceError ⊎ String → ServiceError ⊎ List ModelInfo
    models_from w acct (inl e) = inl e
    models_from w acct (inr name) =
        if p.running name
        then listed (p.list_models name (record (credential c w.proxies acct) { proxy = none }))
        else inl not_running

    abbrev pub models_for : World → Option Account → ServiceError ⊎ List ModelInfo
    models_for w none = inl no_account
    models_for w (some acct) = models_from w acct (plugin_name w.db acct.plugin_id)

    -- `Models`
    unfoldable pub models : ℕ → World → ServiceError ⊎ List ModelInfo
    unfolding plugin_name
    models id w = models_for w (account_by_id id w.db)

    abbrev pub stored :
        ℕ → World → ServiceError ⊎ List ModelInfo → World × (ServiceError ⊎ List ModelInfo)
    stored id w (inl e) = (w, inl e)
    stored id w (inr ms) = (save_models id ms w, inr ms)

    -- `SyncModels`
    unfoldable pub sync_models : ℕ → World → World × (ServiceError ⊎ List ModelInfo)
    unfolding models save_models
    sync_models id w = stored id w (models id w)

    module _ (f : Floats) (now : ℕ) (day : String) where
      abbrev pub snapshot_of : Option Account → World → World
      snapshot_of none w = w
      snapshot_of (some a) w = record w {
        daily = record_credit_snapshot f now a.id day a.credits_json w.daily;
      }

      abbrev found : Option Account → Account → Account
      found none a = a
      found (some b) a = b

      -- The row is updated, read again and observed.
      abbrev pub accept_refresh : World → Account → RefreshResult → World × (ServiceError ⊎ Account)
      accept_refresh w acct result =
          let w' : World = record w { db = update_account acct.id (refreshed c now result) w.db } in
          let again = account_by_id acct.id w'.db in (snapshot_of again w', inr (found again acct))

      abbrev pub refuse_refresh : World → Account → Error → World × (ServiceError ⊎ Account)
      refuse_refresh w acct e = (
        (if e.code == 401
            then record w {
              db = update_account acct.id (λ a. record a { status = "expired" }) w.db;
            }
            else w),
        inl (unauthorized e.message),
      )

      abbrev judge_refresh :
          World → Account → RefreshResult → Option Error → World × (ServiceError ⊎ Account)
      judge_refresh w acct result none = accept_refresh w acct result
      judge_refresh w acct result (some e) = refuse_refresh w acct e

      abbrev pub refresh_reply :
          World → Account → Reply RefreshResult → World × (ServiceError ⊎ Account)
      refresh_reply w acct unimplemented = (w, inl not_refreshable)
      refresh_reply w acct (call_error message) = (w, inl (plugin_error message))
      refresh_reply w acct (reply result) = judge_refresh w acct result (refused result.error)

      abbrev pub refresh_with :
          World → Account → ServiceError ⊎ String → World × (ServiceError ⊎ Account)
      refresh_with w acct (inl e) = (w, inl e)
      refresh_with w acct (inr name) =
          if p.running name
          then refresh_reply w acct (p.refresh name (credential c w.proxies acct))
          else (w, inl not_running)

      abbrev refresh_row : World → Option Account → World × (ServiceError ⊎ Account)
      refresh_row w none = (w, inl no_account)
      refresh_row w (some acct) = refresh_with w acct (plugin_name w.db acct.plugin_id)

      -- `Refresh`
      unfoldable pub refresh : ℕ → World → World × (ServiceError ⊎ Account)
      unfolding plugin_name refreshed record_credit_snapshot
      refresh id w = refresh_row w (account_by_id id w.db)
