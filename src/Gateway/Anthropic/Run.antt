-- ===== src/Gateway/Anthropic/Run.antt =====
-- The events before the end of a message, in order.
use claw_proxy_hub_next.Base.{String, append, refl, true, false, List, [], ◌∷◌, lookup, All}
use claw_proxy_hub_next.Gateway.Envelope.{
  StreamEvent, message_start, content_delta, tool_call_delta, message_finish, task_failed, not_set,
}
use claw_proxy_hub_next.Gateway.ToolCalls.{ToolCallTracker, resolve}
use claw_proxy_hub_next.Gateway.Aggregate.{AggregateCore, feed, feed_all}
use claw_proxy_hub_next.Gateway.Anthropic.{
  AnthState, stop_thinking, text_frames, convert_event, encode,
}
use claw_proxy_hub_next.Gateway.Anthropic.Client.{Message, receive, assemble}
use claw_proxy_hub_next.Gateway.Anthropic.Steps.{
  IsSynced, Follows, Follows-append, thinking_step, stop_thinking_step, text_step,
}
use claw_proxy_hub_next.Gateway.Anthropic.CallSteps.{call_step}

-- A change that concerns no block.
kept_step :
    (s : AnthState) (c : AggregateCore) (m : Message) (model : String)
    → IsSynced s c m
    → IsSynced (record s { model = model }) (record c { model = model }) m
kept_step s c m model y = record {
  tracked = y.tracked;
  next = y.next;
  body = y.body;
  thoughts = y.thoughts;
  agree = y.agree;
}

tracked_step :
    (s : AnthState) (c : AggregateCore) (m : Message) (t : ToolCallTracker)
    → IsSynced s c m
    → IsSynced (record s { tools = t }) (record c { track = t }) m
tracked_step s c m t y = record {
  tracked = refl;
  next = y.next;
  body = y.body;
  thoughts = y.thoughts;
  agree = y.agree;
}

-- The events before the end of a message.
abbrev pub IsBefore : StreamEvent → Type 0
IsBefore (message_finish reason usage) = ⊥
IsBefore ev = Unit

step :
    (hex : String) (s : AnthState) (c : AggregateCore) (m : Message) (ev : StreamEvent)
    → IsBefore ev
    → IsSynced s c m
    → Follows (convert_event hex s ev) (feed hex c ev) m
unfolding convert_event feed
step hex s c m (message_start model) b y = record {
  after = m;
  taken = unfold assemble receive in refl;
  synced = kept_step s c m model y;
}
step hex s c m (content_delta t true) b y = thinking_step t s.think_block s c m refl y
step hex s c m (content_delta t false) b y =
    let (s₁, f₁) = stop_thinking s.think_block s in
    let (s₂, f₂) = text_frames t s₁.text_block s₁ in
    Follows-append s₁ f₁ f₂ s₂ c (record c { text = append c.text t }) m
      (stop_thinking_step s.think_block s c m refl y)
      (λ m' y'. text_step t s₁.text_block s₁ c m' refl y')
step hex s c m (tool_call_delta ev) b y =
    let (track, id, name) = resolve hex c.track ev in
    rw y.tracked (
      call_step id name ev.arguments_delta (lookup id s.tool_blocks) (record s { tools = track })
        (record c { track = track }) m refl (tracked_step s c m track y))
step hex s c m (message_finish reason usage) b y = absurd b
step hex s c m (task_failed e detail) b y = record {
  after = m;
  taken = unfold assemble in refl;
  synced = y;
}
step hex s c m not_set b y = record { after = m; taken = unfold assemble in refl; synced = y }

pub run :
    (hex : String) (s : AnthState) (c : AggregateCore) (m : Message) (evs : List StreamEvent)
    → All IsBefore evs
    → IsSynced s c m
    → Follows (encode hex s evs) (feed_all hex c evs) m
unfolding encode feed_all
run hex s c m [] b y = record { after = m; taken = unfold assemble in refl; synced = y }
run hex s c m (ev ∷ evs) b y =
    let (s', fs) = convert_event hex s ev in
    Follows-append s' fs (encode hex s' evs).1 (encode hex s' evs).0 (feed hex c ev)
      (feed_all hex (feed hex c ev) evs) m (step hex s c m ev b.0 y)
      (λ m' y'. run hex s' (feed hex c ev) m' evs b.1 y')
