-- ===== src/Gateway/OpenAi/Result.antt =====
-- `openaiAggregate.result` of internal/gateway/openai.go and `sortedKeys` of util.go: the reply of a
-- request that does not stream. A field of the JSON object that is not set is `none`, and so is a
-- `nil` content; `tool_calls` is absent where it is empty. Go compares texts by their bytes, which is
-- the order of the code points.
use Prim.Native.Char.{code}
use claw_proxy_hub_next.Base.{
  String, str_eq, Bool, true, false, Option, none, some, List, [], ◌∷◌, keys, ltb, ◌==◌,
  if◌then◌else◌,
}
use claw_proxy_hub_next.Gateway.Aggregate.{AggrTool, AggregateCore, gather, has_tools}
use claw_proxy_hub_next.Gateway.Usage.{UsagePayload, openai_usage_payload}

unfoldable pub text_le : String → String → Bool
text_le String.[] t = true
text_le (String.◌∷◌ c s) String.[] = false
text_le (String.◌∷◌ c s) (String.◌∷◌ d t) =
    let rest = text_le s t in if code c == code d then rest else ltb (code c) (code d)

-- `sort.Strings` of the standard library
unfoldable pub insert_text : String → List String → List String
unfolding text_le
insert_text s [] = s ∷ []
insert_text s (t ∷ ts) = let rest = insert_text s ts in if text_le s t then s ∷ t ∷ ts else t ∷ rest

unfoldable pub sort_texts : List String → List String
unfolding insert_text
sort_texts [] = []
sort_texts (s ∷ ss) = insert_text s (sort_texts ss)

-- `sortedKeys`
unfoldable pub sorted_keys : List (String × AggrTool) → List String
unfolding sort_texts
sorted_keys m = sort_texts (keys m)

pub record OpenAiMessage : Type 0 where
  pub content : Option String
  pub reasoning_content : Option String
  pub tool_calls : List AggrTool

pub record OpenAiResult : Type 0 where
  pub model : String
  pub message : OpenAiMessage
  pub finish_reason : String
  pub usage : UsagePayload

unfoldable pub message_of : AggregateCore → OpenAiMessage
unfolding has_tools gather sorted_keys
message_of c =
    let thinks = if str_eq c.reasoning "" then false else true in
    record {
      content =
          if has_tools c
          then none
          else some (if thinks then (if str_eq c.text "" then c.reasoning else c.text) else c.text);
      reasoning_content = if thinks then some c.reasoning else none;
      tool_calls = if has_tools c then gather (sorted_keys c.tools) c.tools else [];
    }

-- `result`, without the random identifier and the constants
unfoldable pub result : AggregateCore → OpenAiResult
unfolding message_of openai_usage_payload
result c = record {
  model = c.model;
  message = message_of c;
  finish_reason = c.finish;
  usage = openai_usage_payload (some c.usage);
}
