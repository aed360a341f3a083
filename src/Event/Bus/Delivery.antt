-- ===== src/Event/Bus/Delivery.antt =====
-- Channels never hold more than their buffer, and lose nothing below it.
use claw_proxy_hub_next.Base.{
  ◌+◌, ◌≤◌, ltb, String, true, List, [], ◌∷◌, ◌++◌, lookup, length, length-append, All, ◌≡◌, sym,
  ◌∙◌, arith,
}
use mathlib.Core.List.{append_assoc, append-nil}
use claw_proxy_hub_next.Event.Bus.{Event, Channel, capacity, Bus, channels_of, offer}

-- No channel of the bus holds more than its buffer.
pub IsBounded : Bus → Type 0
IsBounded b = (topic : String) → All (λ ch. length ch ≤ capacity) (channels_of (lookup topic b))

-- Published events, one after the other, into one channel.
pub offer_all_events : List Event → Channel → Channel
offer_all_events [] ch = ch
offer_all_events (ev ∷ evs) ch = offer_all_events evs (offer ev ch)

-- As long as the events fit into the buffer, a subscriber that has not received yet has all of them, in
-- the order in which they were published, behind what it had.
pub offer_in_order :
    (evs : List Event) (ch : Channel)
    → length ch + length evs ≤ capacity
    → offer_all_events evs ch ≡ ch ++ evs
unfolding offer_all_events offer
offer_in_order [] ch h = sym (append-nil ch)
offer_in_order (ev ∷ evs) ch h =
    let free : ltb (length ch) capacity ≡ true = ground arith in
    let l = length-append ch (ev ∷ []) in
    rw free (offer_in_order evs (ch ++ ev ∷ []) (omega (arith, l)) ∙ append_assoc ch (ev ∷ []) evs)
