-- ===== src/Gateway/Aggregate.antt =====
-- internal/gateway/aggregate.go: the events of one stream folded into a reply.
-- The maps of pointers hold the records themselves: a write through a pointer is an `insert`.
pub mod Order
use claw_proxy_hub_next.Base.{
  String, append, Bool, true, false, Option, none, some, List, [], ◌∷◌, ◌++◌, lookup, insert, ltb,
  length,
}
use claw_proxy_hub_next.Gateway.Envelope.{
  Usage, no_usage, ToolCallDelta, StreamEvent, message_start, content_delta, tool_call_delta,
  message_finish, task_failed, not_set,
}
use claw_proxy_hub_next.Gateway.ToolCalls.{ToolCallTracker, no_calls, resolve}

pub record AggrTool : Type 0 where
  pub id : String
  pub name : String
  pub input : String

pub record AggregateCore : Type 0 where
  pub model : String
  pub text : String
  pub reasoning : String
  pub tools : List (String × AggrTool)
  pub order : List String
  pub track : ToolCallTracker
  pub usage : Usage
  pub finish : String

-- `aggregateCore{model: model}`
abbrev pub new_core : String → AggregateCore
new_core model = record {
  model = model;
  text = "";
  reasoning = "";
  tools = [];
  order = [];
  track = no_calls;
  usage = no_usage;
  finish = "";
}

-- `t, ok := c.tools[id]`, the creation of a missing call, and `t.input += …`
unfoldable pub feed_call :
    String → String → String → Option AggrTool → AggregateCore → AggregateCore
feed_call id name arguments none c =
    let t : AggrTool = record { id = id; name = name; input = append "" arguments } in
    record c { tools = insert id t c.tools; order = c.order ++ id ∷ [] }
feed_call id name arguments (some t) c = record c {
  tools = insert id (record t { input = append t.input arguments }) c.tools;
}

unfoldable pub feed : String → AggregateCore → StreamEvent → AggregateCore
unfolding resolve feed_call
feed hex c (message_start model) = record c { model = model }
feed hex c (content_delta text true) = record c { reasoning = append c.reasoning text }
feed hex c (content_delta text false) = record c { text = append c.text text }
feed hex c (tool_call_delta ev) =
    let (track, id, name) = resolve hex c.track ev in
    feed_call id name ev.arguments_delta (lookup id c.tools) (record c { track = track })
feed hex c (message_finish reason none) = record c { finish = reason }
feed hex c (message_finish reason (some u)) = record c { finish = reason; usage = u }
feed hex c (task_failed e detail) = c
feed hex c not_set = c

-- The events in order, as `nonStreamOut` feeds them.
unfoldable pub feed_all : String → AggregateCore → List StreamEvent → AggregateCore
feed_all hex c [] = c
feed_all hex c (ev ∷ evs) = feed_all hex (feed hex c ev) evs

unfoldable pub has_tools : AggregateCore → Bool
has_tools c = ltb 0 (length c.tools)

-- The calls of `tools` in the order `ids`; an identifier that has none is skipped.
unfoldable pub gather : List String → List (String × AggrTool) → List AggrTool
gather [] tools = []
gather (id ∷ ids) tools =
    let rest = gather ids tools in elim (lookup id tools) [ none ↦ rest | some t ↦ t ∷ rest ]

-- `toolsInOrder`: the order of `a.order`, which `responsesAggregate.result` also walks through. The
-- source has it without a caller.
unfoldable pub tools_in_order : AggregateCore → List AggrTool
unfolding gather
tools_in_order c = gather c.order c.tools
