-- ===== src/Gateway/Anthropic/Client.antt =====
-- An Anthropic client that follows the content blocks of one message. It is strict: a block must
-- start at the next free index, a delta must name an open block of its own kind, a stop must name
-- an open block, and an error ends the message; otherwise there is no message. Blocks may overlap.
use claw_proxy_hub_next.Base.{
  ℕ, ◌+◌, String, append, ◌==◌, Bool, true, false, Option, none, some, List, [], ◌∷◌, if◌then◌else◌,
}
use claw_proxy_hub_next.Gateway.Aggregate.{AggrTool}
use claw_proxy_hub_next.Gateway.Anthropic.{
  BlockHead, thinking_block, text_block, tool_use_block, BlockDelta, thinking_delta, text_delta,
  input_json_delta, Frame, message_started, content_block_start, content_block_delta,
  content_block_stop, message_delta, message_stop, error_event,
}

-- The flag says that the block is open.
pub data Block : Type 0 where
  unused : Block
  thinking : Bool → Block
  text : Bool → Block
  tool : Bool → AggrTool → Block

pub record Message : Type 0 where
  pub next : ℕ
  pub blocks : ℕ → Block
  pub body : String
  pub thoughts : String

abbrev pub no_message : Message
no_message = record { next = 0; blocks = λ i. unused; body = ""; thoughts = "" }

abbrev pub update : (ℕ → Block) → ℕ → Block → ℕ → Block
update f i b j = if j == i then b else f j

abbrev pub head_block : BlockHead → Block
head_block thinking_block = thinking true
head_block text_block = text true
head_block (tool_use_block id name) = tool true (record { id = id; name = name; input = "" })

abbrev pub put : Message → ℕ → Block → Message
put m i b = record m { blocks = update m.blocks i b }

unfoldable pub stop_block : Message → ℕ → Block → Option Message
stop_block m i (thinking true) = some (put m i (thinking false))
stop_block m i (text true) = some (put m i (text false))
stop_block m i (tool true t) = some (put m i (tool false t))
stop_block m i b = none

unfoldable pub delta_block : Message → ℕ → BlockDelta → Block → Option Message
delta_block m i (thinking_delta x) (thinking true) =
    some (record m { thoughts = append m.thoughts x })
delta_block m i (text_delta x) (text true) = some (record m { body = append m.body x })
delta_block m i (input_json_delta x) (tool true t) =
    some (put m i (tool true (record t { input = append t.input x })))
delta_block m i d b = none

unfoldable pub receive : Message → Frame → Option Message
unfolding stop_block delta_block
receive m (message_started id model input_tokens) = some m
receive m (content_block_start i head) =
    if i == m.next
    then some (record m { next = m.next + 1; blocks = update m.blocks i (head_block head) })
    else none
receive m (content_block_delta i d) = delta_block m i d (m.blocks i)
receive m (content_block_stop i) = stop_block m i (m.blocks i)
receive m (message_delta stop_reason usage) = some m
receive m message_stop = some m
receive m (error_event message) = none

unfoldable pub assemble : Message → List Frame → Option Message
assemble m [] = some m
assemble m (f ∷ fs) = elim (receive m f) [ none ↦ none | some m' ↦ assemble m' fs ]

-- A message from its start to its end: `message_start` comes first and once, then blocks, then one
-- `message_delta`, and then `message_stop`, behind which nothing comes.
pub data Session : Type 0 where
  before_start : Session
  in_message : Message → Session
  before_stop : Message → Session
  ended : Message → Session

abbrev inside : Option Message → Option Session
inside none = none
inside (some m) = some (in_message m)

unfoldable pub listen : Session → Frame → Option Session
unfolding receive
listen before_start (message_started id model input_tokens) = some (in_message no_message)
listen (in_message m) (content_block_start i head) = inside (receive m (content_block_start i head))
listen (in_message m) (content_block_delta i d) = inside (receive m (content_block_delta i d))
listen (in_message m) (content_block_stop i) = inside (receive m (content_block_stop i))
listen (in_message m) (message_delta stop_reason usage) = some (before_stop m)
listen (before_stop m) message_stop = some (ended m)
listen session f = none

abbrev listen_on : (Session → Option Session) → Option Session → Option Session
listen_on rest none = none
listen_on rest (some session) = rest session

unfoldable pub follow : Session → List Frame → Option Session
unfolding listen
follow session [] = some session
follow session (f ∷ fs) = listen_on (λ s. follow s fs) (listen session f)

abbrev pub is_open : Block → Bool
is_open (thinking b) = b
is_open (text b) = b
is_open (tool b t) = b
is_open unused = false
