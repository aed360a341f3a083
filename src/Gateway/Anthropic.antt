-- ===== src/Gateway/Anthropic.antt =====
-- internal/gateway/anthropic.go: envelope events as Anthropic Messages events. A frame stands for
-- one `anthEvent`, with the fields that the source puts into its JSON object. A block index of -1
-- is `none`. `hex12` is what `randHex(12)` returns.
pub mod Client
mod Blocks
mod ToolBlocks
mod Stops
mod Steps
mod CallSteps
pub mod Run
pub mod Discipline
pub mod Frames
pub mod Sessions
use claw_proxy_hub_next.Base.{
  ℕ, ◌+◌, String, append, str_eq, Bool, true, false, Option, none, some, List, [], ◌∷◌, ◌++◌, map,
  lookup, insert, values, if◌then◌else◌, leb,
}
use claw_proxy_hub_next.Gateway.Envelope.{
  Usage, StreamEvent, message_start, content_delta, tool_call_delta, message_finish, task_failed,
  not_set,
}
use claw_proxy_hub_next.Gateway.ToolCalls.{ToolCallTracker, no_calls, resolve}
use claw_proxy_hub_next.Gateway.Usage.{AnthUsage, anth_usage}

-- The `content_block` of a start and the `delta` of a delta.
pub data BlockHead : Type 0 where
  thinking_block : BlockHead
  text_block : BlockHead
  tool_use_block : (id name : String) → BlockHead

pub data BlockDelta : Type 0 where
  thinking_delta : String → BlockDelta
  text_delta : String → BlockDelta
  input_json_delta : String → BlockDelta

pub data Frame : Type 0 where
  message_started : (id model : String) → (input_tokens : ℕ) → Frame
  content_block_start : (index : ℕ) → BlockHead → Frame
  content_block_delta : (index : ℕ) → BlockDelta → Frame
  content_block_stop : (index : ℕ) → Frame
  message_delta : (stop_reason : String) → AnthUsage → Frame
  message_stop : Frame
  error_event : (message : String) → Frame

pub record AnthState : Type 0 where
  pub model : String
  pub msg_id : String
  pub think_block : Option ℕ
  pub text_block : Option ℕ
  pub next_block : ℕ
  pub tool_blocks : List (String × ℕ)
  pub tools : ToolCallTracker
  pub stop_reason : String
  pub input_tokens : ℕ
  pub output_tokens : ℕ
  pub cached_tokens : ℕ

-- `newAnthSSEState`
abbrev pub new_anth_state : String → String → AnthState
new_anth_state hex12 model = record {
  model = model;
  msg_id = append "msg_" hex12;
  think_block = none;
  text_block = none;
  next_block = 0;
  tool_blocks = [];
  tools = no_calls;
  stop_reason = "";
  input_tokens = 0;
  output_tokens = 0;
  cached_tokens = 0;
}

unfoldable pub map_stop_reason : String → String
map_stop_reason reason =
    if str_eq reason "tool_calls"
    then "tool_use"
    else if str_eq reason "length"
    then "max_tokens"
    else if str_eq reason "content_filter"
    then "refusal"
    else "end_turn"

-- `sortedValues`: the values of the map in ascending order.
unfoldable pub insert_sorted : ℕ → List ℕ → List ℕ
insert_sorted x [] = x ∷ []
insert_sorted x (y ∷ ys) = let rest = insert_sorted x ys in if leb x y then x ∷ y ∷ ys else y ∷ rest

unfoldable pub sorted_values : List ℕ → List ℕ
unfolding insert_sorted
sorted_values [] = []
sorted_values (x ∷ xs) = insert_sorted x (sorted_values xs)

-- `if s.thinkBlock < 0`, of `thinkingDelta`
unfoldable pub thinking_frames : String → Option ℕ → AnthState → AnthState × List Frame
thinking_frames t none s =
    let i = s.next_block in
    (
      record s { think_block = some i; next_block = i + 1 },
      content_block_start i thinking_block ∷ content_block_delta i (thinking_delta t) ∷ [],
    )
thinking_frames t (some i) s = (s, content_block_delta i (thinking_delta t) ∷ [])

-- `if s.thinkBlock >= 0`
unfoldable pub stop_thinking : Option ℕ → AnthState → AnthState × List Frame
stop_thinking none s = (s, [])
stop_thinking (some i) s = (record s { think_block = none }, content_block_stop i ∷ [])

-- `if s.textBlock < 0`
unfoldable pub text_frames : String → Option ℕ → AnthState → AnthState × List Frame
text_frames t none s =
    let i = s.next_block in
    (
      record s { text_block = some i; next_block = i + 1 },
      content_block_start i text_block ∷ content_block_delta i (text_delta t) ∷ [],
    )
text_frames t (some i) s = (s, content_block_delta i (text_delta t) ∷ [])

-- `idx, ok := s.toolBlocks[id]`
unfoldable pub open_tool : String → String → Option ℕ → AnthState → AnthState × ℕ × List Frame
open_tool id name none s =
    let i = s.next_block in
    (
      record s { next_block = i + 1; tool_blocks = insert id i s.tool_blocks },
      i,
      content_block_start i (tool_use_block id name) ∷ [],
    )
open_tool id name (some i) s = (s, i, [])

unfoldable pub tool_delta : String → ℕ → List Frame
tool_delta arguments i =
    if str_eq arguments "" then [] else content_block_delta i (input_json_delta arguments) ∷ []

unfoldable pub stop_frames : Option ℕ → List Frame
stop_frames none = []
stop_frames (some i) = content_block_stop i ∷ []

abbrev no_anth_usage : ℕ → AnthUsage
no_anth_usage input = record {
  input_tokens = input;
  output_tokens = none;
  cache_read_input_tokens = none;
  cache_creation_input_tokens = none;
}

-- The counts that `MessageFinish` stores, and the usage object that it sends.
unfoldable pub finish_usage : Option Usage → AnthState → AnthState × AnthUsage
unfolding anth_usage
finish_usage none s = (s, no_anth_usage s.input_tokens)
finish_usage (some u) s =
    (record s { output_tokens = u.output_tokens; cached_tokens = u.cached_tokens }, anth_usage u)

-- `MessageFinish`: every open block is stopped, thinking first, then text, then the tools.
unfoldable pub finish_frames : String → Option Usage → AnthState → AnthState × List Frame
unfolding stop_thinking stop_frames finish_usage map_stop_reason sorted_values
finish_frames reason usage s =
    let stop = map_stop_reason reason in
    let (s₁, f₁) = stop_thinking s.think_block (record s { stop_reason = stop }) in
    let (s₂, u) = finish_usage usage s₁ in
    (
      s₂,
      f₁
          ++ (stop_frames s₁.text_block
              ++ (map content_block_stop (sorted_values (values s₁.tool_blocks))
                  ++ message_delta stop u ∷ message_stop ∷ [])),
    )

unfoldable pub convert_event : String → AnthState → StreamEvent → AnthState × List Frame
unfolding resolve thinking_frames stop_thinking text_frames open_tool tool_delta finish_frames
convert_event hex s (message_start model) =
    (record s { model = model }, message_started s.msg_id model s.input_tokens ∷ [])
convert_event hex s (content_delta t true) = thinking_frames t s.think_block s
convert_event hex s (content_delta t false) =
    let (s₁, f₁) = stop_thinking s.think_block s in
    let (s₂, f₂) = text_frames t s₁.text_block s₁ in (s₂, f₁ ++ f₂)
convert_event hex s (tool_call_delta ev) =
    let (tools, id, name) = resolve hex s.tools ev in
    let (s₁, i, f) = open_tool id name (lookup id s.tool_blocks) (record s { tools = tools }) in
    (s₁, f ++ tool_delta ev.arguments_delta i)
convert_event hex s (message_finish reason usage) = finish_frames reason usage s
convert_event hex s (task_failed e detail) = (s, [])
convert_event hex s not_set = (s, [])

-- The frames of a list of events, in order.
unfoldable pub encode : String → AnthState → List StreamEvent → AnthState × List Frame
encode hex s [] = (s, [])
encode hex s (ev ∷ evs) =
    let (s', frames) = convert_event hex s ev in
    let (t, rest) = encode hex s' evs in (t, frames ++ rest)

unfoldable pub failure : String → List Frame
failure message = error_event message ∷ []
