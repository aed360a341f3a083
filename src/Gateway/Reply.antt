-- ===== src/Gateway/Reply.antt =====
-- What a client of the gateway is after: the text, the thinking and the tool calls of one reply,
-- the calls in the order in which they began. `reply_of` is this library's reading of the
-- aggregate (internal/gateway/aggregate.go); what a dialect renders of it is its `result`. The clients
-- of the streaming encoders assemble a reply from frames.
use claw_proxy_hub_next.Base.{ℕ, zero, suc, String, append, Option, none, some, List, [], ◌∷◌}
use claw_proxy_hub_next.Gateway.Aggregate.{AggrTool, AggregateCore, tools_in_order}

pub record Reply : Type 0 where
  pub text : String
  pub reasoning : String
  pub calls : List AggrTool

abbrev pub no_reply : Reply
no_reply = record { text = ""; reasoning = ""; calls = [] }

unfoldable pub reply_of : AggregateCore → Reply
reply_of c = record { text = c.text; reasoning = c.reasoning; calls = tools_in_order c }

-- The call at a position gets more arguments; `none` where there is no such call.
unfoldable pub extend : ℕ → String → List AggrTool → Option (List AggrTool)
extend i arguments [] = none
extend zero arguments (t ∷ ts) = some (record t { input = append t.input arguments } ∷ ts)
extend (suc i) arguments (t ∷ ts) = elim (extend i arguments ts) [
  | none ↦ none
  | some us ↦ some (t ∷ us)
]
