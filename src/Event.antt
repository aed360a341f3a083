-- ===== src/Event.antt =====
-- internal/event: the bus between the parts of the program.
pub mod Bus
mod Examples
