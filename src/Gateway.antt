-- ===== src/Gateway.antt =====
-- internal/gateway: the envelope events of a plugin, their aggregation and their three encodings.
pub mod Envelope
pub mod ToolCalls
pub mod Aggregate
pub mod Usage
pub mod ModelIds
pub mod Reply
pub mod OpenAi
pub mod Responses
pub mod Anthropic
pub mod Output
pub mod Backend
pub mod Recovery
pub mod Authorize
pub mod Prepare
pub mod Serve
mod Examples
mod KeyExamples
mod ServeExamples
