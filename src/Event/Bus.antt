-- ===== src/Event/Bus.antt =====
-- internal/event/bus.go: a bus whose subscribers have buffered channels. A channel is the list of the
-- events in its buffer; a subscriber is named by its topic and its place among the topic's channels.
pub mod Delivery
use claw_proxy_hub_next.Base.{
  ℕ, zero, suc, ltb, String, Option, none, some, List, [], ◌∷◌, ◌++◌, map, GoMap, lookup, insert,
  length, if◌then◌else◌,
}

pub record Event : Type 0 where
  pub topic : String
  pub account_id : ℕ

abbrev pub Channel : Type 0
Channel = List Event

abbrev pub capacity : ℕ
capacity = 64

-- `subs`
abbrev pub Bus : Type 0
Bus = GoMap (List Channel)

abbrev pub channels_of : Option (List Channel) → List Channel
channels_of none = []
channels_of (some chs) = chs

-- `New`
abbrev pub new_bus : Bus
new_bus = []

-- `Subscribe`
unfoldable pub subscribe : String → Bus → Bus
subscribe topic b = insert topic (channels_of (lookup topic b) ++ [] ∷ []) b

-- The `select` of `Publish`: a full channel drops the event.
unfoldable pub offer : Event → Channel → Channel
offer ev ch = if ltb (length ch) capacity then ch ++ ev ∷ [] else ch

-- `Publish`
abbrev pub offer_all : Event → Bus → Option (List Channel) → Bus
offer_all ev b none = b
offer_all ev b (some chs) = insert ev.topic (map (offer ev) chs) b

unfoldable pub publish : Event → Bus → Bus
unfolding offer
publish ev b = offer_all ev b (lookup ev.topic b)

-- A subscriber receives the first event of its channel.
abbrev drop_first : Channel → Channel
drop_first [] = []
drop_first (ev ∷ ch) = ch

unfoldable pub take_at : ℕ → List Channel → List Channel
take_at i [] = []
take_at zero (ch ∷ chs) = drop_first ch ∷ chs
take_at (suc i) (ch ∷ chs) = ch ∷ take_at i chs

unfoldable pub receive : String → ℕ → Bus → Bus
unfolding take_at
receive topic i b = insert topic (take_at i (channels_of (lookup topic b))) b

-- The steps of publishers and subscribers, in any order.
pub data Step : Bus → Bus → Type 0 where
  subscribes : (b : Bus) (topic : String) → Step b (subscribe topic b)
  publishes : (b : Bus) (ev : Event) → Step b (publish ev b)
  receives : (b : Bus) (topic : String) (i : ℕ) → Step b (receive topic i b)

pub data Reachable : Bus → Type 0 where
  starts : Reachable new_bus
  steps : {b b' : Bus} → Reachable b → Step b b' → Reachable b'
