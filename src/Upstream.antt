-- ===== src/Upstream.antt =====
-- sdk/openaiup, sdk/anthropicup and sdk/responsesup: what plugins share to talk to upstream services
-- in the three dialects.
pub mod Emits
pub mod IntMaps
pub mod OpenAi
pub mod Anthropic
pub mod Responses
pub mod Usages
pub mod Chained
pub mod Bodies
pub mod Endings
mod Examples
