-- ===== src/Gateway/Responses.antt =====
-- internal/gateway/responses.go: envelope events as OpenAI Responses events. A frame stands for one
-- `respEvent`, with the fields that the source puts into its JSON object. The identifier
-- `item_<n>` of an output item is its number n, which is also its output index: the source keeps
-- the two in step (`reasonItem` and `reasonIdx`, `textItem` and `textIdx`, `itemID` and `idx`), and
-- "" with -1 is `none`. `hex16` is what `randHex(16)` returns.
pub mod Outputs
mod Calls
mod Sync
mod Names
use claw_proxy_hub_next.Base.{
  ℕ, ◌+◌, String, append, str_eq, Bool, true, false, not, ◌&&◌, Option, none, some, List, [], ◌∷◌,
  ◌++◌, lookup, insert, if◌then◌else◌,
}
use claw_proxy_hub_next.Gateway.Envelope.{
  Usage, StreamEvent, message_start, content_delta, tool_call_delta, message_finish, task_failed,
  not_set,
}
use claw_proxy_hub_next.Gateway.ToolCalls.{ToolCallTracker, no_calls, resolve}
use claw_proxy_hub_next.Gateway.Usage.{UsagePayload, responses_usage_payload}

-- `type: reasoning` (the summary text is `none` while the summary is empty), `type: message` and
-- `type: function_call`.
pub data Item : Type 0 where
  reasoning_item : (id : ℕ) → (summary : Option String) → Item
  message_item : (id : ℕ) → (status : String) → (text : String) → Item
  function_item : (id : ℕ) → (call_id name arguments status : String) → Item

pub data Frame : Type 0 where
  response_created : (id model : String) → Frame
  output_item_added : (output_index : ℕ) → Item → Frame
  reasoning_summary_part_added : (item output_index : ℕ) → Frame
  reasoning_summary_text_delta : (item output_index : ℕ) → (delta : String) → Frame
  output_text_delta : (item output_index : ℕ) → (delta : String) → Frame
  function_call_arguments_delta : (item output_index : ℕ) → (delta : String) → Frame
  reasoning_summary_text_done : (item output_index : ℕ) → (text : String) → Frame
  reasoning_summary_part_done : (item output_index : ℕ) → (text : String) → Frame
  output_text_done : (item output_index : ℕ) → (text : String) → Frame
  function_call_arguments_done : (item output_index : ℕ) → (arguments : String) → Frame
  output_item_done : (output_index : ℕ) → Item → Frame
  response_completed : (id model : String) → (output : List Item) → UsagePayload → Frame
  response_failed : (id model message : String) → Frame

pub record FnItem : Type 0 where
  pub item_id : ℕ
  pub name : String
  pub idx : ℕ
  pub args : String

pub record ResponsesState : Type 0 where
  pub model : String
  pub resp_id : String
  pub next_item : ℕ
  pub reason_item : Option ℕ
  pub reasoning : String
  pub text_item : Option ℕ
  pub text : String
  pub fn_items : List (String × FnItem)
  pub fn_order : List String
  pub tools : ToolCallTracker

-- `newResponsesSSEState`
abbrev pub new_responses_state : String → String → ResponsesState
new_responses_state hex16 model = record {
  model = model;
  resp_id = append "resp_" hex16;
  next_item = 0;
  reason_item = none;
  reasoning = "";
  text_item = none;
  text = "";
  fn_items = [];
  fn_order = [];
  tools = no_calls;
}

-- `addFn`, on `it, ok := s.fnItems[id]`: the item, and whether it is new.
unfoldable pub add_fn :
    String → String → Option FnItem → ResponsesState → ResponsesState × FnItem × Bool
add_fn id name none s =
    let it : FnItem = record { item_id = s.next_item; name = name; idx = s.next_item; args = "" } in
    (
      record s {
        next_item = s.next_item + 1;
        fn_items = insert id it s.fn_items;
        fn_order = s.fn_order ++ id ∷ [];
      },
      it,
      true,
    )
add_fn id name (some it) s =
    if str_eq it.name "" && not (str_eq name "")
    then (let it' : FnItem = record it { name = name } in
        (record s { fn_items = insert id it' s.fn_items }, it', false))
    else (s, it, false)

abbrev pub output_item : FnItem → String → String → Item
output_item it id status = function_item it.item_id id it.name it.args status

-- The frames of a tool call's delta, after `addFn`.
unfoldable pub call_frames :
    String → String → ResponsesState × FnItem × Bool → ResponsesState × List Frame
call_frames id arguments (s, it, need_start) =
    let start =
      if need_start then output_item_added it.idx (output_item it id "in_progress") ∷ [] else [] in
    if str_eq arguments "" then (s, start) else (
      record s { fn_items = insert id (record it { args = append it.args arguments }) s.fn_items },
      start ++ function_call_arguments_delta it.item_id it.idx arguments ∷ [],
    )

unfoldable pub reasoning_frames : String → Option ℕ → ResponsesState → ResponsesState × List Frame
reasoning_frames t none s =
    let n = s.next_item in
    (
      record s { reason_item = some n; next_item = n + 1; reasoning = append s.reasoning t },
      output_item_added n (reasoning_item n none)
          ∷ reasoning_summary_part_added n n
          ∷ reasoning_summary_text_delta n n t
          ∷ [],
    )
reasoning_frames t (some n) s =
    (record s { reasoning = append s.reasoning t }, reasoning_summary_text_delta n n t ∷ [])

unfoldable pub text_frames : String → Option ℕ → ResponsesState → ResponsesState × List Frame
text_frames t none s =
    let n = s.next_item in
    (
      record s { text_item = some n; next_item = n + 1; text = append s.text t },
      output_item_added n (message_item n "in_progress" "") ∷ output_text_delta n n t ∷ [],
    )
text_frames t (some n) s = (record s { text = append s.text t }, output_text_delta n n t ∷ [])

-- The closing of each kind of item: its frames, and its part of `output`.
unfoldable pub close_reasoning : ResponsesState → Option ℕ → List Frame × List Item
close_reasoning s none = ([], [])
close_reasoning s (some n) =
    let item = reasoning_item n (some s.reasoning) in
    (
      reasoning_summary_text_done n n s.reasoning
          ∷ reasoning_summary_part_done n n s.reasoning
          ∷ output_item_done n item
          ∷ [],
      item ∷ [],
    )

unfoldable pub close_text : ResponsesState → Option ℕ → List Frame × List Item
close_text s none = ([], [])
close_text s (some n) =
    let item = message_item n "completed" s.text in
    (output_text_done n n s.text ∷ output_item_done n item ∷ [], item ∷ [])

-- The loop over `fnOrder`. Every identifier there has an item (Responses/Outputs): the source
-- would stop at a nil pointer where the model goes on.
unfoldable pub close_calls : List String → List (String × FnItem) → List Frame × List Item
close_calls [] items = ([], [])
close_calls (id ∷ ids) items =
    let (frames, rest) = close_calls ids items in
    elim (lookup id items) [
      | none ↦ (frames, rest)
      | some it ↦
          let item = output_item it id "completed" in
          (
            function_call_arguments_done it.item_id it.idx it.args
                ∷ output_item_done it.idx item
                ∷ frames,
            item ∷ rest,
          )
    ]

unfoldable pub finish_frames : ResponsesState → Option Usage → List Frame
unfolding close_reasoning close_text close_calls
finish_frames s usage =
    let (f₁, o₁) = close_reasoning s s.reason_item in
    let (f₂, o₂) = close_text s s.text_item in
    let (f₃, o₃) = close_calls s.fn_order s.fn_items in
    f₁
    ++ (f₂
        ++ (f₃
            ++ response_completed s.resp_id s.model (o₁ ++ (o₂ ++ o₃))
                (responses_usage_payload usage)
              ∷ []))

unfoldable pub convert_event : String → ResponsesState → StreamEvent → ResponsesState × List Frame
unfolding resolve add_fn call_frames reasoning_frames text_frames
convert_event hex s (message_start model) = (s, response_created s.resp_id model ∷ [])
convert_event hex s (content_delta t true) = reasoning_frames t s.reason_item s
convert_event hex s (content_delta t false) = text_frames t s.text_item s
convert_event hex s (tool_call_delta ev) =
    let (tools, id, name) = resolve hex s.tools ev in
    call_frames id ev.arguments_delta
      (add_fn id name (lookup id s.fn_items) (record s { tools = tools }))
convert_event hex s (message_finish reason usage) = (s, finish_frames s usage)
convert_event hex s (task_failed e detail) = (s, [])
convert_event hex s not_set = (s, [])

-- The frames of a list of events, in order.
unfoldable pub encode : String → ResponsesState → List StreamEvent → ResponsesState × List Frame
encode hex s [] = (s, [])
encode hex s (ev ∷ evs) =
    let (s', frames) = convert_event hex s ev in
    let (t, rest) = encode hex s' evs in (t, frames ++ rest)

unfoldable pub failure : ResponsesState → String → List Frame
failure s message = response_failed s.resp_id s.model message ∷ []
