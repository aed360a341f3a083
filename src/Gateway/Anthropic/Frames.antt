-- ===== src/Gateway/Anthropic/Frames.antt =====
-- internal/gateway/anthropic.go: which events of a stream become frames of content blocks.
use mathlib.Core.List.{append_assoc}
use claw_proxy_hub_next.Base.{
  ℕ, String, true, false, Option, none, some, List, [], ◌∷◌, ◌++◌, map, lookup, values, ◌≡◌, sym,
  ap, ◌∙◌, All, Bool-cases, inl, inr, str_eq,
}
use claw_proxy_hub_next.Gateway.Envelope.{
  Usage, StreamEvent, message_start, content_delta, tool_call_delta, message_finish, task_failed,
  not_set,
}
use claw_proxy_hub_next.Gateway.Usage.{AnthUsage}
use claw_proxy_hub_next.Gateway.ToolCalls.{resolve}
use claw_proxy_hub_next.Gateway.Anthropic.{
  AnthState, Frame, content_block_start, content_block_delta, content_block_stop, message_delta,
  message_stop, thinking_frames, stop_thinking, text_frames, open_tool, tool_delta, stop_frames,
  finish_frames, convert_event, encode, map_stop_reason, sorted_values, finish_usage,
}
use claw_proxy_hub_next.Gateway.Anthropic.Run.{IsBefore}

-- The frames between the start and the end of a message.
abbrev pub IsBlockFrame : Frame → Type 0
IsBlockFrame (content_block_start i head) = Unit
IsBlockFrame (content_block_delta i d) = Unit
IsBlockFrame (content_block_stop i) = Unit
IsBlockFrame f = ⊥

pub All-append :
    (fs gs : List Frame) → All IsBlockFrame fs → All IsBlockFrame gs → All IsBlockFrame (fs ++ gs)
All-append [] gs a b = b
All-append (f ∷ fs) gs a b = (a.0, All-append fs gs a.1 b)

-- What the encoder sends between the start and the end of a message.
abbrev pub IsInner : StreamEvent → Type 0
IsInner (message_start model) = ⊥
IsInner (message_finish reason usage) = ⊥
IsInner ev = Unit

pub inner-IsBefore : (evs : List StreamEvent) → All IsInner evs → All IsBefore evs
inner-IsBefore [] a = tt
inner-IsBefore (message_start model ∷ evs) a = absurd (a.0)
inner-IsBefore (content_delta t b ∷ evs) a = (tt, inner-IsBefore evs a.1)
inner-IsBefore (tool_call_delta ev ∷ evs) a = (tt, inner-IsBefore evs a.1)
inner-IsBefore (message_finish reason usage ∷ evs) a = absurd (a.0)
inner-IsBefore (task_failed e detail ∷ evs) a = (tt, inner-IsBefore evs a.1)
inner-IsBefore (not_set ∷ evs) a = (tt, inner-IsBefore evs a.1)

stop_thinking_blocks : (n : Option ℕ) (s : AnthState) → All IsBlockFrame (stop_thinking n s).1
unfolding stop_thinking
stop_thinking_blocks none s = tt
stop_thinking_blocks (some i) s = (tt, tt)

thinking_blocks :
    (t : String) (n : Option ℕ) (s : AnthState) → All IsBlockFrame (thinking_frames t n s).1
unfolding thinking_frames
thinking_blocks t none s = (tt, (tt, tt))
thinking_blocks t (some i) s = (tt, tt)

text_blocks : (t : String) (n : Option ℕ) (s : AnthState) → All IsBlockFrame (text_frames t n s).1
unfolding text_frames
text_blocks t none s = (tt, (tt, tt))
text_blocks t (some i) s = (tt, tt)

open_blocks :
    (id name : String) (n : Option ℕ) (s : AnthState) → All IsBlockFrame (open_tool id name n s).2
unfolding open_tool
open_blocks id name none s = (tt, tt)
open_blocks id name (some i) s = tt

delta_blocks : (arguments : String) (i : ℕ) → All IsBlockFrame (tool_delta arguments i)
unfolding tool_delta
delta_blocks arguments i = elim (Bool-cases (str_eq arguments "")) [
  | inl e ↦ rw e tt
  | inr e ↦ rw e (tt, tt)
]

event_blocks :
    (hex : String) (s : AnthState) (ev : StreamEvent)
    → IsInner ev
    → All IsBlockFrame (convert_event hex s ev).1
unfolding convert_event
event_blocks hex s (message_start model) b = absurd b
event_blocks hex s (content_delta t true) b = thinking_blocks t s.think_block s
event_blocks hex s (content_delta t false) b =
    let (s₁, f₁) = stop_thinking s.think_block s in
    All-append f₁ (text_frames t s₁.text_block s₁).1 (stop_thinking_blocks s.think_block s)
      (text_blocks t s₁.text_block s₁)
event_blocks hex s (tool_call_delta ev) b =
    let (tools, id, name) = resolve hex s.tools ev in
    let s' : AnthState = record s { tools = tools } in
    let (s₁, i, f) = open_tool id name (lookup id s.tool_blocks) s' in
    All-append f (tool_delta ev.arguments_delta i)
      (open_blocks id name (lookup id s.tool_blocks) s') (delta_blocks ev.arguments_delta i)
event_blocks hex s (message_finish reason usage) b = absurd b
event_blocks hex s (task_failed e detail) b = tt
event_blocks hex s not_set b = tt

pub encode_blocks :
    (hex : String) (s : AnthState) (evs : List StreamEvent)
    → All IsInner evs
    → All IsBlockFrame (encode hex s evs).1
unfolding encode
encode_blocks hex s [] a = tt
encode_blocks hex s (ev ∷ evs) a =
    let (s', fs) = convert_event hex s ev in
    All-append fs (encode hex s' evs).1 (event_blocks hex s ev a.0) (encode_blocks hex s' evs a.1)

stop_blocks : (js : List ℕ) → All IsBlockFrame (map content_block_stop js)
stop_blocks [] = tt
stop_blocks (j ∷ js) = (tt, stop_blocks js)

text_stops : (n : Option ℕ) → All IsBlockFrame (stop_frames n)
unfolding stop_frames
text_stops none = tt
text_stops (some j) = (tt, tt)

-- The frames of a `MessageFinish`: blocks, and then the two frames that end a message.
pub finish_blocks :
    (reason : String) (usage : Option Usage) (s : AnthState)
    → (fs : List Frame) × (u : AnthUsage) × (All IsBlockFrame fs)
      × ((finish_frames reason usage s).1
          ≡ fs ++ (message_delta (map_stop_reason reason) u ∷ message_stop ∷ []))
unfolding finish_frames
finish_blocks reason usage s =
    let s₀ : AnthState = record s { stop_reason = map_stop_reason reason } in
    let (s₁, f₁) = stop_thinking s.think_block s₀ in
    let f₂ = stop_frames s₁.text_block in
    let f₃ = map content_block_stop (sorted_values (values s₁.tool_blocks)) in
    (
      f₁ ++ (f₂ ++ f₃),
      (finish_usage usage s₁).1,
      All-append f₁ (f₂ ++ f₃) (stop_thinking_blocks s.think_block s₀) (
          All-append f₂ f₃ (text_stops s₁.text_block)
            (stop_blocks (sorted_values (values s₁.tool_blocks)))),
      ap (λ l. f₁ ++ l) (sym (append_assoc f₂ f₃ _)) ∙ sym (append_assoc f₁ (f₂ ++ f₃) _),
    )
