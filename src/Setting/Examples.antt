-- ===== src/Setting/Examples.antt =====
-- The settings at work.
use claw_proxy_hub_next.Base.{String, List, [], ◌∷◌, lookup, ◌≡◌, GoMap}
use claw_proxy_hub_next.Setting.Store.{new_store}
use claw_proxy_hub_next.Setting.Refines.{
  Call, get_call, set_call, ensure_call, step, spec_step, answers, answers-new_store,
}

abbrev rows : GoMap String
rows = ("sticky.ttl", "10m") ∷ []

abbrev calls : List Call
calls =
    get_call "sticky.ttl" ""
    ∷ set_call "sticky.ttl" "20m"
    ∷ ensure_call "sticky.ttl" "5m"
    ∷ ensure_call "logs.retention_days" "30"
    ∷ get_call "sticky.ttl" ""
    ∷ get_call "logs.retention_days" "0"
    ∷ []

answers-new_store_example :
    answers step (new_store rows) calls ≡ answers spec_step (λ k. lookup k rows) calls
answers-new_store_example = answers-new_store rows calls
