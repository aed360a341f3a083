-- ===== src/Upstream/Bodies/Responses.antt =====
-- `ChatBody` of sdk/responsesup/responsesup.go. `content` is `contentBlocks` with the type `input_text`
-- and `text_of` is `textOf`, which read a message's `content_json`.
use claw_proxy_hub_next.Base.{
  String, str_eq, true, not, ◌&&◌, ◌||◌, ◌==◌, Option, none, some, List, [], ◌∷◌, ◌++◌,
  if◌then◌else◌, trim_space, join,
}
use claw_proxy_hub_next.Upstream.Bodies.{
  Json, bool, integer, double, text, array, object, Items, nil, cons, Members, none_more, member,
  ToolCall, EnvelopeMessage, ToolDef, ToolChoice, ChatRequest, put_member, put_if, put_extra,
  extra_of, is_empty, items_of, positive32,
}

module _ (parse : String → Option Json) (content : EnvelopeMessage → Items)
    (text_of : EnvelopeMessage → String) where
  abbrev or_text : String → Option Json → Json
  or_text s none = text s
  or_text s (some v) = v

  -- `rawJSON`
  abbrev raw_json : String → Json
  raw_json s = or_text s (parse s)

  abbrev call_item : ToolCall → Json
  call_item tc = object (
      member "type" (text "function_call") (
        member "call_id" (text tc.id)
          (member "name" (text tc.name) (member "arguments" (text tc.arguments) none_more))))

  abbrev message_item : String → Items → Json
  message_item role blocks = object (
      member "type" (text "message")
        (member "role" (text role) (member "content" (array blocks) none_more)))

  abbrev calls_of : List ToolCall → List Json
  calls_of [] = []
  calls_of (tc ∷ tcs) = call_item tc ∷ calls_of tcs

  abbrev answer : String → List Json
  answer t =
      let block = object (member "type" (text "output_text") (member "text" (text t) none_more)) in
      if str_eq t "" then [] else message_item "assistant" (cons block nil) ∷ []

  abbrev output_item : EnvelopeMessage → Json
  output_item m = object (
      member "type" (text "function_call_output")
        (member "call_id" (text m.tool_call_id) (member "output" (text (text_of m)) none_more)))

  -- The items of a message; a system message has none.
  unfoldable pub items_for : EnvelopeMessage → List Json
  items_for m =
      let role = if str_eq m.role "" then "user" else m.role in
      if str_eq m.role "system"
      then []
      else if str_eq m.role "tool"
      then output_item m ∷ []
      else if str_eq m.role "assistant"
      then answer (text_of m) ++ calls_of m.tool_calls
      else message_item role (content m) ∷ []

  unfoldable pub input_items : List EnvelopeMessage → List Json
  unfolding items_for
  input_items [] = []
  input_items (m ∷ ms) = items_for m ++ input_items ms

  unfoldable pub instructions : List EnvelopeMessage → List String
  instructions [] = []
  instructions (m ∷ ms) =
      let rest = instructions ms in
      if str_eq m.role "system" && not (str_eq (trim_space m.text) "") then m.text ∷ rest else rest

  abbrev put_schema : Option Json → Members → Members
  put_schema none m = m
  put_schema (some schema) m = put_member "parameters" schema m

  abbrev tool_json : ToolDef → Json
  tool_json t =
      let tool =
        member "type" (text "function")
          (member "name" (text t.name) (member "description" (text t.description) none_more)) in
      object (
        if str_eq (trim_space t.parameters_schema) ""
        then tool
        else put_schema (parse t.parameters_schema) tool)

  abbrev put_choice : Option ToolChoice → Members → Members
  put_choice none m = m
  put_choice (some tc) m =
      let is = str_eq tc.type in
      let named =
        object (member "type" (text "function") (member "name" (text tc.tool_name) none_more)) in
      if is "auto" || is "none" || is "required"
      then put_member "tool_choice" (text tc.type) m
      else if is "tool" || is "function"
      then put_member "tool_choice" named m
      else m

  abbrev put_tools : ChatRequest → Members → Members
  put_tools req m =
      if is_empty req.tools
      then m
      else put_choice req.tool_choice (put_member "tools" (array (items_of tool_json req.tools)) m)

  -- Both zeros of a `double` are 0.
  abbrev put_temperature : ChatRequest → Members → Members
  put_temperature req m =
      let v = extra_of req "temperature" in
      let zero_given = req.temperature == 0 || req.temperature == 9223372036854775808 in
      if not (str_eq v "")
      then put_member "temperature" (raw_json v) m
      else if zero_given
      then m
      else put_member "temperature" (double req.temperature) m

  abbrev itself : Json → Json
  itself v = v

  abbrev effort : String → Json
  effort v = object (member "effort" (text v) none_more)

  unfoldable pub chat_body : ChatRequest → Members
  unfolding input_items instructions put_member
  chat_body req =
      let said = instructions req.messages in
      let body = member "model" (text req.model) (
        member "stream" (bool true)
          (member "input" (array (items_of itself (input_items req.messages))) none_more)) in
      let body = put_if (not (is_empty said)) "instructions" (text (join "\n\n" said)) body in
      let body =
        put_if (positive32 req.max_tokens) "max_output_tokens" (integer req.max_tokens) body in
      let body = put_temperature req body in
      let body = put_extra raw_json "top_p" "top_p" req body in
      let body = put_extra raw_json "parallel_tool_calls" "parallel_tool_calls" req body in
      let body = put_extra text "user" "user" req body in
      let body = put_extra effort "reasoning_effort" "reasoning" req body in put_tools req body
