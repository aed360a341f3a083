-- ===== src/Upstream/Endings.antt =====
-- The three upstream parsers end their streams alike.
use claw_proxy_hub_next.Base.{◌≤◌, String, Option, List, All, ◌≡◌}
use claw_proxy_hub_next.Upstream.Emits.{total, is_finish, is_end, is_start, HasId}
use claw_proxy_hub_next.Upstream.OpenAi.Parsing.{Chunk, run as run_openai}
use claw_proxy_hub_next.Upstream.OpenAi.Endings.{run-finishes}
use claw_proxy_hub_next.Upstream.Anthropic.{UpstreamEvent as AnthropicEvent, run as run_anthropic}
use claw_proxy_hub_next.Upstream.Anthropic.Endings.{run_finishes_once}
use claw_proxy_hub_next.Upstream.Responses.{UpstreamEvent as ResponsesEvent, run as run_responses}
use claw_proxy_hub_next.Upstream.Responses.Endings.{run_ends_once}

-- Whatever lines an upstream sends, and whatever JSON makes of them, the events of a stream that ends
-- with `Finish` have exactly one ending: a MessageFinish of an OpenAI or an Anthropic upstream, a
-- MessageFinish or a TaskFailed of a Responses upstream, which has one MessageStart at most. And every
-- delta of a tool call from an OpenAI upstream has an identifier.
pub streams_end_once :
    (to_lower : String → String) (openai : String → Option Chunk)
    (anthropic : String → Option AnthropicEvent) (responses : String → Option ResponsesEvent)
    (lines : List String)
    → (total is_finish (run_openai to_lower openai lines).1 ≡ 1)
      × All HasId (run_openai to_lower openai lines).1
      × (total is_finish (run_anthropic anthropic lines).1 ≡ 1)
      × (total is_end (run_responses responses lines).1 ≡ 1)
      × (total is_start (run_responses responses lines).1 ≤ 1)
streams_end_once to_lower openai anthropic responses lines =
    let (once, ids) = run-finishes to_lower openai lines in
    let (ends, starts) = run_ends_once responses lines in
    (once, ids, run_finishes_once anthropic lines, ends, starts)
