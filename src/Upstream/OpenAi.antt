-- ===== src/Upstream/OpenAi.antt =====
-- sdk/openaiup/openaiup.go: the lines of an OpenAI-compatible upstream as envelope events. What
-- `json.Unmarshal` makes of a payload is the argument `decode`; an absent field has Go's zero value.
pub mod Credits
pub mod Usage
pub mod Parsing
pub mod Endings
pub mod Orders
