-- ===== src/Upstream/Bodies/OpenAi.antt =====
-- `ChatBody` of sdk/openaiup/openaiup.go. `number` is `jsonNumber`: the text of a JSON number, or else
-- the text itself.
use claw_proxy_hub_next.Base.{
  String, str_eq, true, not, ◌&&◌, ◌||◌, Option, none, some, List, [], ◌∷◌, if◌then◌else◌,
}
use claw_proxy_hub_next.Upstream.Bodies.{
  Json, null, bool, integer, double, text, array, object, Members, none_more, member, ToolCall,
  EnvelopeMessage, ToolDef, ToolChoice, ChatRequest, put_member, put_if, put_extra, is_empty,
  items_of, array_or_null, array_or_null, positive32, positive_double,
}

-- `nilIfEmpty`
abbrev nil_if_empty : String → Json
nil_if_empty s = if str_eq s "" then null else text s

abbrev call_json : ToolCall → Json
call_json tc =
    let fn = member "name" (text tc.name) (member "arguments" (text tc.arguments) none_more) in
    object (
      member "id" (text tc.id)
        (member "type" (text "function") (member "function" (object fn) none_more)))

module _ (parse : String → Option Json) (number : String → Json) where
  abbrev or_text : String → Option Json → Json
  or_text s none = text s
  or_text s (some v) = v

  -- `rawJSON`
  abbrev raw_json : String → Json
  raw_json s = or_text s (parse s)

  unfoldable pub message_json : EnvelopeMessage → Json
  unfolding put_member
  message_json m =
      let plain = str_eq m.content_json "" in
      let content = if plain then text m.text else raw_json m.content_json in
      let msg = member "role" (text m.role) (member "content" content none_more) in
      let calls = array (items_of call_json m.tool_calls) in
      let called = not (is_empty m.tool_calls) && str_eq m.role "assistant" && plain in
      let msg' =
        put_if called "tool_calls" calls (put_if called "content" (nil_if_empty m.text) msg) in
      object (put_if (not (str_eq m.tool_call_id "")) "tool_call_id" (text m.tool_call_id) msg')

  abbrev tool_json : ToolDef → Json
  tool_json t =
      let fn = member "name" (text t.name) (
        member "description" (text t.description)
          (member "parameters" (raw_json t.parameters_schema) none_more)) in
      object (member "type" (text "function") (member "function" (object fn) none_more))

  abbrev put_choice : Option ToolChoice → Members → Members
  put_choice none m = m
  put_choice (some tc) m =
      let fn = object (member "name" (text tc.tool_name) none_more) in
      let named = object (member "type" (text "function") (member "function" fn none_more)) in
      if str_eq tc.type "auto" || str_eq tc.type "none"
      then put_member "tool_choice" (text tc.type) m
      else if str_eq tc.type "tool"
      then put_member "tool_choice" named m
      else m

  -- `if len(req.Tools) > 0`
  abbrev put_tools : ChatRequest → Members → Members
  put_tools req m =
      if is_empty req.tools
      then m
      else put_choice req.tool_choice (put_member "tools" (array (items_of tool_json req.tools)) m)

  abbrev put_all : List String → ChatRequest → Members → Members
  put_all [] req m = m
  put_all (key ∷ keys) req m = put_all keys req (put_extra raw_json key key req m)

  unfoldable pub chat_body : ChatRequest → Members
  unfolding message_json put_member
  chat_body req =
      let usage = object (member "include_usage" (bool true) none_more) in
      let body = member "model" (text req.model) (
        member "messages" (array_or_null (items_of message_json req.messages))
          (member "stream" (bool true) (member "stream_options" usage none_more))) in
      let body = put_tools req body in
      let body = put_if (positive32 req.max_tokens) "max_tokens" (integer req.max_tokens) body in
      let body =
        put_if (positive_double req.temperature) "temperature" (double req.temperature) body in
      let body = put_extra number "top_p" "top_p" req body in
      let body = put_extra raw_json "stop" "stop" req body in
      let body = put_extra text "reasoning_effort" "reasoning_effort" req body in
      let body = put_extra number "temperature" "temperature" req body in
      let body =
        put_all
          ("frequency_penalty" ∷ "presence_penalty" ∷ "seed" ∷ "parallel_tool_calls"
            ∷ "response_format" ∷ [])
          req body in
      put_extra text "user" "user" req body
