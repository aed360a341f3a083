-- ===== src/Upstream/Responses.antt =====
-- sdk/responsesup/responsesup.go: `Parser`, the lines of a Responses upstream as envelope events. What
-- `json.Unmarshal` makes of a payload is the argument `decode`. An event is the record that it fills:
-- an absent field has Go's zero value, and an error object is there with its message.
pub mod Endings
use claw_proxy_hub_next.Base.{
  ℕ, String, str_eq, append, Bool, true, false, not, ◌||◌, ◌&&◌, Option, none, some, List, [], ◌∷◌,
  if◌then◌else◌, trim_space, sprint_int, GoMap, lookup, insert, has_prefix,
}
use claw_proxy_hub_next.Gateway.Envelope.{
  Usage, Error, ToolCallDelta, StreamEvent, message_start, content_delta, tool_call_delta,
  message_finish, task_failed,
}
use claw_proxy_hub_next.Upstream.Emits.{data_of, and_then, each}
use claw_proxy_hub_next.Upstream.IntMaps.{put, at}

pub record Item : Type 0 where
  pub type : String
  pub id : String
  pub call_id : String
  pub name : String
  pub arguments : String

pub record ResponseUsage : Type 0 where
  pub input_tokens : ℕ
  pub output_tokens : ℕ
  pub cached_tokens : ℕ

pub record UpstreamEvent : Type 0 where
  pub type : String
  pub model : String
  pub delta : String
  pub index : ℕ
  pub item_id : String
  pub call_id : String
  pub arguments : String
  pub item : Item
  pub response_model : String
  pub usage : Option ResponseUsage
  pub incomplete_reason : String
  pub response_error : Option String
  pub error : Option String

pub record Parser : Type 0 where
  pub sent_start : Bool
  pub sent_finish : Bool
  pub pending_stop : String
  pub usage : Option Usage
  pub tool_ids : List (ℕ × String)
  pub tool_names : List (ℕ × String)
  pub arg_seen : GoMap Bool
  pub call_id_of : GoMap String
  pub saw_tool : Bool

abbrev pub Step : Type 0
Step = Parser × List StreamEvent

abbrev pub new_parser : Parser
new_parser = record {
  sent_start = false;
  sent_finish = false;
  pending_stop = "";
  usage = none;
  tool_ids = [];
  tool_names = [];
  arg_seen = [];
  call_id_of = [];
  saw_tool = false;
}

-- `firstNonEmpty` of two texts: blanks alone count as empty.
unfoldable pub first_non_empty : String → String → String
first_non_empty a b =
    if not (str_eq (trim_space a) "") then a else if not (str_eq (trim_space b) "") then b else ""

-- The zero values of maps.
abbrev pub or_false : Option Bool → Bool
or_false none = false
or_false (some b) = b

abbrev pub or_empty : Option String → String
or_empty none = ""
or_empty (some s) = s

abbrev call : String → String → String → StreamEvent
call id name arguments =
    tool_call_delta (record { id = id; name = name; arguments_delta = arguments })

-- `id`, or else what is found behind it.
abbrev pub or_else : String → String → String
or_else a b = if str_eq a "" then b else a

-- `response.created` and `response.in_progress`
unfoldable pub created : Parser → UpstreamEvent → Step
created p ev =
    let start = message_start (or_else ev.model ev.response_model) in
    if p.sent_start then (p, []) else (record p { sent_start = true }, start ∷ [])

-- `response.output_item.added` of a function call
unfoldable pub call_added : Parser → UpstreamEvent → Step
unfolding put first_non_empty sprint_int
call_added p ev =
    let id = or_else (or_else ev.item.call_id ev.item.id) (append "call_" (sprint_int ev.index)) in
    let key = first_non_empty ev.item.id ev.item_id in
    (
      record p {
        saw_tool = true;
        tool_ids = put ev.index id p.tool_ids;
        tool_names = put ev.index ev.item.name p.tool_names;
        call_id_of = if str_eq key "" then p.call_id_of else insert key id p.call_id_of;
      },
      call id ev.item.name "" ∷ [],
    )

-- `response.function_call_arguments.delta`
unfoldable pub arguments_delta : Parser → UpstreamEvent → Step
unfolding at first_non_empty sprint_int
arguments_delta p ev =
    let known = or_else ev.call_id (at "" ev.index p.tool_ids) in
    let id = or_else known (append "call_" (sprint_int ev.index)) in
    (
      record p { arg_seen = insert (first_non_empty ev.item_id id) true p.arg_seen },
      call id (at "" ev.index p.tool_names) ev.delta ∷ [],
    )

-- `toolArgsDone`
unfoldable pub tool_args_done : Parser → String → String → Step
unfolding first_non_empty
tool_args_done p item_id args =
    let call_id = first_non_empty (or_empty (lookup item_id p.call_id_of)) item_id in
    if str_eq item_id "" || str_eq args "" || or_false (lookup item_id p.arg_seen)
    then (p, [])
    else (
      record p { arg_seen = insert item_id true p.arg_seen; saw_tool = true },
      call call_id "" args ∷ [],
    )

-- `finish` and `Finish`
abbrev reason_of : Parser → String
reason_of p =
    if str_eq p.pending_stop ""
    then (if p.saw_tool then "tool_calls" else "stop")
    else p.pending_stop

unfoldable pub finish : Parser → Step
finish p =
    let ending = message_finish (reason_of p) p.usage in
    let events = if p.sent_start then ending ∷ [] else message_start "" ∷ ending ∷ [] in
    if p.sent_finish then (p, []) else (record p { sent_finish = true; sent_start = true }, events)

-- `FinishWithError`
unfoldable pub finish_with_error : Parser → ℕ → String → Step
finish_with_error p code message =
    let e : Error = record { code = code; message = message; retryable = false } in
    if p.sent_finish
    then (p, [])
    else (record p { sent_finish = true }, task_failed (some e) "" ∷ [])

abbrev pub tokens_of : Parser → Option ResponseUsage → Option Usage
tokens_of p none = p.usage
tokens_of p (some u) = some (record {
  input_tokens = u.input_tokens;
  output_tokens = u.output_tokens;
  cached_tokens = u.cached_tokens;
  credit_used = 0;
  cache_creation_tokens = 0;
})

-- `response.completed` and `response.incomplete`
unfoldable pub completed : Parser → UpstreamEvent → Step
unfolding finish
completed p ev =
    let cut =
      str_eq ev.type "response.incomplete" && str_eq ev.incomplete_reason "max_output_tokens" in
    let stop = if cut then "length" else p.pending_stop in
    finish (record p { usage = tokens_of p ev.usage; pending_stop = stop })

-- The message of an error object, or else the given one.
abbrev message_or : String → Option String → String
message_or def none = def
message_or def (some message) = if str_eq message "" then def else message

-- The `switch` of `Feed`
unfoldable pub feed_event : Parser → UpstreamEvent → Step
unfolding created call_added arguments_delta tool_args_done completed finish_with_error
    first_non_empty
feed_event p ev =
    let is = str_eq ev.type in
    let is_call = str_eq ev.item.type "function_call" in
    if is "response.created" || is "response.in_progress"
    then created p ev
    else if is "response.output_text.delta"
    then (p, if str_eq ev.delta "" then [] else content_delta ev.delta false ∷ [])
    else if is "response.output_item.added"
    then (if is_call then call_added p ev else (p, []))
    else if is "response.function_call_arguments.delta"
    then arguments_delta p ev
    else if is "response.function_call_arguments.done"
    then tool_args_done p (first_non_empty ev.item_id ev.call_id) ev.arguments
    else if is "response.output_item.done"
    then (if is_call
        then tool_args_done p (first_non_empty ev.item.id ev.item.call_id) ev.item.arguments
        else (p, []))
    else if is "response.completed" || is "response.incomplete"
    then completed p ev
    else if is "response.failed"
    then finish_with_error p 502 (message_or "上游返回失败事件" ev.response_error)
    else if is "error"
    then finish_with_error p 502 (message_or "上游返回错误事件" ev.error)
    else (p, [])

module _ (decode : String → Option UpstreamEvent) where
  abbrev pub feed_decoded : Parser → Option UpstreamEvent → Step
  feed_decoded p none = (p, [])
  feed_decoded p (some ev) = feed_event p ev

  abbrev pub feed_payload : Parser → Option String → Step
  feed_payload p none = (p, [])
  feed_payload p (some payload) =
      if str_eq payload "" || str_eq payload "[DONE]"
      then (p, [])
      else feed_decoded p (decode payload)

  -- `Feed`: an empty line, a comment and an `event:` line are no data either.
  unfoldable pub feed : Parser → String → Step
  unfolding data_of feed_event
  feed p line = feed_payload p (data_of line)

  -- The lines of a stream, and then `Finish`.
  unfoldable pub run : List String → Step
  unfolding feed finish
  run lines = and_then (each feed new_parser lines) finish
