-- ===== src/Router/Picking.antt =====
-- The choice of a group and of an account in internal/router/router.go and direct.go. What comes
-- from outside is the record `Credits`, of internal/account/credit.go, and the random numbers.
pub mod Groups
use claw_proxy_hub_next.Base.{
  ℕ, ◌-◌, ◌%◌, ◌==◌, ltb, leb, String, Bool, true, false, not, ◌&&◌, ◌||◌, Option, none, some, List,
  [], ◌∷◌, map, if◌then◌else◌, select, exists, first, length, get_elem?, add64, sub64, negative64,
  positive64, int64_mod,
}
use claw_proxy_hub_next.Data.{Account, RouteGroupEntry}
use claw_proxy_hub_next.Router.Db.{Db, accounts_in_group}

-- `CreditExpiryOf`: the `float64` that runs out soon, the test for more than 0, and `>` and `==`.
pub record Credits : Type 1 where
  pub Amount : Type 0
  pub expiring_of : String → Amount
  pub is_some : Amount → Bool
  pub more : Amount → Amount → Bool
  pub same : Amount → Amount → Bool

-- The weight that counts.
unfoldable pub weight_of : RouteGroupEntry → ℕ
weight_of e = if positive64 e.weight then e.weight else 1

unfoldable pub total_weight : ℕ → List RouteGroupEntry → ℕ
unfolding weight_of
total_weight total [] = total
total_weight total (e ∷ es) = total_weight (add64 total (weight_of e)) es

abbrev pub weighted : RouteGroupEntry → RouteGroupEntry
weighted e = record e { weight = weight_of e }

-- The second loop of `pickGroup`, on copies with the weight that counts, which falls back to the last
-- entry.
unfoldable pub walk : ℕ → RouteGroupEntry → List RouteGroupEntry → RouteGroupEntry
unfolding weight_of
walk n e [] = if negative64 (sub64 n (weight_of e)) then weighted e else e
walk n e (e' ∷ es) =
    let left = sub64 n (weight_of e) in
    let rest = walk left e' es in if negative64 left then weighted e else rest

-- `pickGroup` of `e ∷ es`; `intn` is `rand.Intn`, which panics on what is not positive (`none`).
unfoldable pub pick_group :
    (ℕ → ℕ) → RouteGroupEntry → List RouteGroupEntry → Option RouteGroupEntry
unfolding total_weight walk
pick_group intn e es =
    let total = total_weight 0 (e ∷ es) in
    if total == 0 then some e else if negative64 total then none else some (walk (intn total) e es)

-- `lastUsedAsc`
unfoldable pub last_used_asc : Option ℕ → Option ℕ → Bool
last_used_asc none none = false
last_used_asc none (some u) = true
last_used_asc (some t) none = false
last_used_asc (some t) (some u) = ltb t u

-- The first of the least accounts, in an order.
abbrev pub best_from : (Account → Account → Bool) → Account → List Account → Account
best_from less best [] = best
best_from less best (a ∷ rest) = best_from less (if less a best then a else best) rest

abbrev pub best_of : (Account → Account → Bool) → List Account → Option Account
best_of less [] = none
best_of less (a ∷ rest) = some (best_from less a rest)

-- `byLeastUsed`: `ORDER BY last_used_at IS NULL DESC, last_used_at`, and then the primary key
unfoldable pub by_least_used : Db → ℕ → ℕ → Option Account
unfolding accounts_in_group last_used_asc
by_least_used db now group_id =
    best_of (λ a b. last_used_asc a.last_used_at b.last_used_at) (accounts_in_group db now group_id)

-- `byRandom`
abbrev pub draw : (ℕ → ℕ) → List Account → Option Account
draw intn [] = none
draw intn (a ∷ rest) = get_elem? (a ∷ rest) (intn (length (a ∷ rest)))

unfoldable pub by_random : Db → (ℕ → ℕ) → ℕ → ℕ → Option Account
unfolding accounts_in_group
by_random db intn now group_id = draw intn (accounts_in_group db now group_id)

-- `sort.SliceStable` of the candidates
abbrev pub insert_by : (Account → Account → Bool) → Account → List Account → List Account
insert_by less a [] = a ∷ []
insert_by less a (c ∷ cs) =
    let rest = insert_by less a cs in if less c a then c ∷ rest else a ∷ c ∷ cs

abbrev pub sort_stable : (Account → Account → Bool) → List Account → List Account
sort_stable less [] = []
sort_stable less (a ∷ rest) = insert_by less a (sort_stable less rest)

module _ (c : Credits) where
  open c use {expiring_of, is_some, more, same}

  abbrev pub expires_first : Account → Account → Bool
  expires_first a b =
      if not (same (expiring_of a.credits_json) (expiring_of b.credits_json))
      then more (expiring_of a.credits_json) (expiring_of b.credits_json)
      else last_used_asc a.last_used_at b.last_used_at

  -- `byExpiringFirst`
  unfoldable pub by_expiring_first : Db → ℕ → ℕ → Option Account
  unfolding by_least_used
  by_expiring_first db now group_id =
      let accts = accounts_in_group db now group_id in
      if exists (λ a. is_some (expiring_of a.credits_json)) accts
      then first (sort_stable expires_first accts)
      else by_least_used db now group_id

  -- `pickPreferred`
  abbrev pub preferred : Account → Account → Bool
  preferred a best =
      more (expiring_of a.credits_json) (expiring_of best.credits_json)
      || (same (expiring_of a.credits_json) (expiring_of best.credits_json)
          && last_used_asc a.last_used_at best.last_used_at)

  unfoldable pub pick_preferred : List Account → Option Account
  pick_preferred accts = best_of preferred accts

-- `idx%int64(len(accts))` of `byRoundRobin`, whose result is negative for a negative counter: the
-- account there, or a panic (`none`).
unfoldable pub rotate : ℕ → List Account → Option Account
rotate idx accts =
    if negative64 idx
    then (if (int64_mod - idx) % length accts == 0 then get_elem? accts 0 else none)
    else get_elem? accts (idx % length accts)
