-- ===== src/Gateway/OpenAi/Client.antt =====
-- An OpenAI client that assembles a reply from `chat.completion.chunk` frames. It is strict: a
-- first delta must number its call with the next free index, a later one must number a call that
-- has begun, and an error chunk ends the reply; otherwise there is no reply.
use claw_proxy_hub_next.Base.{
  append, ◌==◌, Option, none, some, List, [], ◌∷◌, ◌++◌, length, if◌then◌else◌,
}
use claw_proxy_hub_next.Gateway.Aggregate.{AggrTool}
use claw_proxy_hub_next.Gateway.Reply.{Reply, extend}
use claw_proxy_hub_next.Gateway.OpenAi.{
  Delta, content, reasoning_content, tool_call, empty, Frame, chunk, usage_chunk, error_chunk, done,
}

abbrev with_calls : Reply → Option (List AggrTool) → Option Reply
with_calls r none = none
with_calls r (some calls) = some (record r { calls = calls })

unfoldable pub receive_delta : Reply → Delta → Option Reply
unfolding extend
receive_delta r (content t) = some (record r { text = append r.text t })
receive_delta r (reasoning_content t) = some (record r { reasoning = append r.reasoning t })
receive_delta r (tool_call i (some (id, name)) arguments) =
    let t : AggrTool = record { id = id; name = name; input = append "" arguments } in
    if i == length r.calls then some (record r { calls = r.calls ++ t ∷ [] }) else none
receive_delta r (tool_call i none arguments) = with_calls r (extend i arguments r.calls)
receive_delta r empty = some r

unfoldable pub receive : Reply → Frame → Option Reply
unfolding receive_delta
receive r (chunk id model delta finish_reason) = receive_delta r delta
receive r (usage_chunk id model payload) = some r
receive r (error_chunk message) = none
receive r done = some r

unfoldable pub assemble : Reply → List Frame → Option Reply
assemble r [] = some r
assemble r (f ∷ fs) = elim (receive r f) [ none ↦ none | some r' ↦ assemble r' fs ]
