-- ===== src/Event/Examples.antt =====
-- A bus with one subscriber.
use claw_proxy_hub_next.Base.{ℕ}
use claw_proxy_hub_next.Event.Bus.{Event}

abbrev done : ℕ → Event
done id = record { topic = "task.completed"; account_id = id }
