-- ===== src/Gateway/Responses/Sync.antt =====
-- The encoder's state against the non-streaming aggregate of the same events.
use claw_proxy_hub_next.Base.{
  ℕ, String, append, ◌≡◌, refl, true, false, Option, none, some, List, [], ◌∷◌, lookup, map_values,
  arith,
}
use claw_proxy_hub_next.Gateway.Envelope.{
  Usage, StreamEvent, message_start, content_delta, tool_call_delta, message_finish, task_failed,
  not_set,
}
use claw_proxy_hub_next.Gateway.ToolCalls.{ToolCallTracker, resolve}
use claw_proxy_hub_next.Gateway.Aggregate.{AggregateCore, new_core, feed, feed_all}
use claw_proxy_hub_next.Gateway.Responses.{
  ResponsesState, new_responses_state, reasoning_frames, text_frames, convert_event, encode,
}
use claw_proxy_hub_next.Gateway.Responses.Calls.{
  IsSynced, same_calls, call_step, arguments_of, input_of,
}

text_step :
    (t : String) (n : Option ℕ) (s : ResponsesState) (c : AggregateCore)
    → s.text_item ≡ n
    → IsSynced s c
    → IsSynced (text_frames t n s).0 (record c { text = append c.text t })
unfolding text_frames
text_step t n s c p y = record {
  tracked = ground (arith, y.tracked);
  text = ground (arith, y.text);
  reasoning = ground (arith, y.reasoning);
  ordered = ground (arith, y.ordered);
  calls =
      elim n
        as (λ m.
          map_values arguments_of (text_frames t m s).0.fn_items ≡ map_values input_of c.tools) [
            | none ↦ y.calls
            | some m ↦ y.calls
          ];
  no_text = ground (arith, p);
  no_reasoning = ground (arith, y.no_reasoning);
}

reasoning_step :
    (t : String) (n : Option ℕ) (s : ResponsesState) (c : AggregateCore)
    → s.reason_item ≡ n
    → IsSynced s c
    → IsSynced (reasoning_frames t n s).0 (record c { reasoning = append c.reasoning t })
unfolding reasoning_frames
reasoning_step t n s c p y = record {
  tracked = ground (arith, y.tracked);
  text = ground (arith, y.text);
  reasoning = ground (arith, y.reasoning);
  ordered = ground (arith, y.ordered);
  calls =
      elim n
        as (λ m.
          map_values arguments_of (reasoning_frames t m s).0.fn_items
          ≡ map_values input_of c.tools) [ none ↦ y.calls | some m ↦ y.calls ];
  no_text = ground (arith, y.no_text);
  no_reasoning = ground (arith, p);
}

-- A change that the encoder does not follow.
kept_step :
    (s : ResponsesState) (c : AggregateCore) (model finish : String) (usage : Usage)
    → IsSynced s c
    → IsSynced s (record c { model = model; finish = finish; usage = usage })
kept_step s c model finish usage y = record {
  tracked = y.tracked;
  text = y.text;
  reasoning = y.reasoning;
  ordered = y.ordered;
  calls = y.calls;
  no_text = y.no_text;
  no_reasoning = y.no_reasoning;
}

tracked_step :
    (s : ResponsesState) (c : AggregateCore) (t : ToolCallTracker)
    → IsSynced s c
    → IsSynced (record s { tools = t }) (record c { track = t })
tracked_step s c t y = record {
  tracked = refl;
  text = y.text;
  reasoning = y.reasoning;
  ordered = y.ordered;
  calls = y.calls;
  no_text = y.no_text;
  no_reasoning = y.no_reasoning;
}

pub step :
    (hex : String) (s : ResponsesState) (c : AggregateCore) (ev : StreamEvent)
    → IsSynced s c
    → IsSynced (convert_event hex s ev).0 (feed hex c ev)
unfolding convert_event feed
step hex s c (message_start model) y = kept_step s c model c.finish c.usage y
step hex s c (content_delta t true) y = reasoning_step t s.reason_item s c refl y
step hex s c (content_delta t false) y = text_step t s.text_item s c refl y
step hex s c (tool_call_delta ev) y =
    let (track, id, name) = resolve hex c.track ev in
    rw y.tracked (
      call_step id name ev.arguments_delta (record s { tools = track }) (record c { track = track })
        (lookup id s.fn_items) (lookup id c.tools) refl (same_calls id s c y)
        (tracked_step s c track y))
step hex s c (message_finish reason none) y = kept_step s c c.model reason c.usage y
step hex s c (message_finish reason (some u)) y = kept_step s c c.model reason u y
step hex s c (task_failed e detail) y = y
step hex s c not_set y = y

pub run :
    (hex : String) (s : ResponsesState) (c : AggregateCore) (evs : List StreamEvent)
    → IsSynced s c
    → IsSynced (encode hex s evs).0 (feed_all hex c evs)
unfolding encode feed_all
run hex s c [] y = y
run hex s c (ev ∷ evs) y =
    run hex (convert_event hex s ev).0 (feed hex c ev) evs (step hex s c ev y)

pub start :
    (hex16 model model' : String) → IsSynced (new_responses_state hex16 model) (new_core model')
start hex16 model model' = record {
  tracked = refl;
  text = refl;
  reasoning = refl;
  ordered = refl;
  calls = refl;
  no_text = λ _. refl;
  no_reasoning = λ _. refl;
}
