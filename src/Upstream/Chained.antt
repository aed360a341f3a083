-- ===== src/Upstream/Chained.antt =====
-- Two hubs in a row: the frames that one's gateway encodes for an OpenAI client (Gateway/OpenAi), read
-- by the other's upstream parser (Upstream/OpenAi). `chunk_of` is what `json.Unmarshal` makes of a
-- frame's JSON.
pub mod Calls
pub mod Replies
use claw_proxy_hub_next.Base.{String, str_eq, Option, none, some, List, [], ◌∷◌, if◌then◌else◌}
use claw_proxy_hub_next.Gateway.OpenAi
use claw_proxy_hub_next.Gateway.OpenAi.{
  Delta, content, reasoning_content, empty, Frame, chunk, usage_chunk, error_chunk, done,
}
use claw_proxy_hub_next.Upstream.Emits.{each}
use claw_proxy_hub_next.Upstream.OpenAi.Parsing.{Choice, Chunk, Parser, Step, feed_chunk}
use claw_proxy_hub_next.Upstream.Usages.{openai_read}

abbrev text_choice : String → String → Option String → Choice
text_choice text thinking reason = record {
  content = text;
  reasoning_content = thinking;
  reasoning = "";
  tool_calls = [];
  finish_reason = reason;
}

abbrev given : String → Option String
given reason = if str_eq reason "" then none else some reason

unfoldable pub choice_of : Delta → String → Choice
choice_of (content t) reason = text_choice t "" (given reason)
choice_of (reasoning_content t) reason = text_choice "" t (given reason)
choice_of (OpenAi.tool_call i (some (id, name)) arguments) reason =
    record (text_choice "" "" (given reason)) {
      tool_calls = record { index = i; id = id; name = name; arguments = arguments } ∷ [];
    }
choice_of (OpenAi.tool_call i none arguments) reason = record (text_choice "" "" (given reason)) {
  tool_calls = record { index = i; id = ""; name = ""; arguments = arguments } ∷ [];
}
choice_of empty reason = text_choice "" "" (given reason)

-- A `data:` line that is no chunk is left out.
unfoldable pub chunk_of : Frame → Option Chunk
unfolding choice_of
chunk_of (chunk id model delta reason) =
    some (record { choices = choice_of delta reason ∷ []; usage = none })
chunk_of (usage_chunk id model payload) =
    some (record { choices = []; usage = some (openai_read payload) })
chunk_of (error_chunk message) = some (record { choices = []; usage = none })
chunk_of done = none

-- The frames of a stream, one after the other.
unfoldable pub parse : (String → String) → Parser → List Frame → Step
unfolding feed_chunk chunk_of
parse to_lower = each (λ p f. feed_chunk to_lower p (chunk_of f))
