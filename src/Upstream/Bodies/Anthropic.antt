-- ===== src/Upstream/Bodies/Anthropic.antt =====
-- `ChatBody` of sdk/anthropicup/anthropicup.go. `content` is `anthropicContent`, the blocks of a
-- message's `content_json`, with the text that it falls back to; `number` is `jsonNumber`.
use claw_proxy_hub_next.Base.{
  String, str_eq, append, true, not, ◌&&◌, ◌||◌, Option, none, some, List, [], ◌∷◌, if◌then◌else◌,
}
use claw_proxy_hub_next.Upstream.Bodies.{
  Json, bool, integer, double, text, array, object, Items, nil, cons, Members, none_more, member,
  ToolCall, EnvelopeMessage, ToolDef, ToolChoice, ChatRequest, put_member, put_if, put_extra,
  is_empty, items_of, array_or_null, append_items, positive32, positive_double,
}

-- What the loop over the messages has so far.
pub record Collected : Type 0 where
  pub system : String
  pub messages : List Json

abbrev message : String → Json → Json
message role content = object (member "role" (text role) (member "content" content none_more))

module _ (parse : String → Option Json) (number : String → Json)
    (content : String → String → Items) where
  -- `rawJSON`: an empty object where the text is no JSON
  abbrev or_object : Option Json → Json
  or_object none = object none_more
  or_object (some v) = v

  abbrev call_block : ToolCall → Json
  call_block tc = object (
      member "type" (text "tool_use") (
        member "id" (text tc.id) (
          member "name" (text tc.name)
            (member "input" (or_object (parse tc.arguments)) none_more))))

  abbrev result_block : EnvelopeMessage → Json
  result_block m =
      let plain = str_eq m.content_json "" in
      let result = if plain then text m.text else array (content m.content_json m.text) in
      object (
        member "type" (text "tool_result")
          (member "tool_use_id" (text m.tool_call_id) (member "content" result none_more)))

  -- The cases of the `switch`; a system message adds to the system's text.
  unfoldable pub message_of : EnvelopeMessage → Option Json
  message_of m =
      let nothing = str_eq m.content_json "" && str_eq m.text "" in
      let blocks = if nothing then nil else content m.content_json m.text in
      let called = append_items blocks (items_of call_block m.tool_calls) in
      if str_eq m.role "system"
      then none
      else if str_eq m.role "tool"
      then some (message "user" (array (cons (result_block m) nil)))
      else if str_eq m.role "assistant" && not (is_empty m.tool_calls)
      then some (message "assistant" (array called))
      else some (message m.role (array (content m.content_json m.text)))

  unfoldable pub collect : List EnvelopeMessage → Collected
  unfolding message_of
  collect [] = record { system = ""; messages = [] }
  collect (m ∷ ms) =
      let rest = collect ms in
      elim (message_of m) [
        | none ↦ record rest { system = append m.text rest.system }
        | some v ↦ record rest { messages = v ∷ rest.messages }
      ]

  abbrev tool_json : ToolDef → Json
  tool_json t =
      let schema =
        if str_eq t.parameters_schema "" then "{\"type\":\"object\"}" else t.parameters_schema in
      object (
        member "name" (text t.name) (
          member "description" (text t.description)
            (member "input_schema" (or_object (parse schema)) none_more)))

  abbrev put_choice : Option ToolChoice → Members → Members
  put_choice none m = m
  put_choice (some tc) m =
      let plain = object (member "type" (text tc.type) none_more) in
      let named =
        object (member "type" (text "tool") (member "name" (text tc.tool_name) none_more)) in
      if str_eq tc.type "auto" || str_eq tc.type "none"
      then put_member "tool_choice" plain m
      else if str_eq tc.type "tool"
      then put_member "tool_choice" named m
      else m

  abbrev put_tools : ChatRequest → Members → Members
  put_tools req m =
      if is_empty req.tools
      then m
      else put_choice req.tool_choice (put_member "tools" (array (items_of tool_json req.tools)) m)

  abbrev itself : Json → Json
  itself v = v

  abbrev user_id : String → Json
  user_id v = object (member "user_id" (text v) none_more)

  unfoldable pub chat_body : ChatRequest → Members
  unfolding collect put_member
  chat_body req =
      let c = collect req.messages in
      let limit = if positive32 req.max_tokens then req.max_tokens else 8192 in
      let body = member "model" (text req.model) (
        member "messages" (array_or_null (items_of itself c.messages))
          (member "max_tokens" (integer limit) (member "stream" (bool true) none_more))) in
      let body = put_if (not (str_eq c.system "")) "system" (text c.system) body in
      let body = put_tools req body in
      let body =
        put_if (positive_double req.temperature) "temperature" (double req.temperature) body in
      let body = put_extra number "temperature" "temperature" req body in
      let body = put_extra number "top_k" "top_k" req body in
      put_extra user_id "user" "metadata" req body
