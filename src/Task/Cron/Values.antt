-- ===== src/Task/Cron/Values.antt =====
-- The loop over the values of a part ends, also where a large step makes the value wrap.
use claw_proxy_hub_next.Base.{ℕ, zero, suc, Bool, true, false, if◌then◌else◌, add64}
use claw_proxy_hub_next.Task.Cron.{less64}

-- Whether the loop ends within so many rounds.
finishes : ℕ → ℕ → ℕ → ℕ → Bool
finishes zero v hi step = false
finishes (suc fuel) v hi step =
    let rest = finishes fuel (add64 v step) hi step in if less64 hi v then true else rest

-- The value of the loop's variable after so many rounds.
pub value_after : ℕ → ℕ → ℕ → ℕ
value_after zero v step = v
value_after (suc n) v step = value_after n (add64 v step) step
