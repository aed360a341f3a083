-- ===== src/Gateway/Envelope.antt =====
-- The envelope of sdk/proto/cph.proto that a plugin answers with: the events of one stream.
-- `not_set` is a `StreamEvent` whose `oneof` carries nothing. Token counts are `int64` bit patterns
-- (Base/Words); `credit_used` is a `double`, which the gateway only copies, as its 64 bits.
use claw_proxy_hub_next.Base.{ℕ, String, Bool, Option}

pub record Usage : Type 0 where
  pub input_tokens : ℕ
  pub output_tokens : ℕ
  pub cached_tokens : ℕ
  pub credit_used : ℕ
  pub cache_creation_tokens : ℕ

-- `code` is an `int32`, as its 32-bit pattern.
pub record Error : Type 0 where
  pub code : ℕ
  pub message : String
  pub retryable : Bool

pub record ToolCallDelta : Type 0 where
  pub id : String
  pub name : String
  pub arguments_delta : String

pub data StreamEvent : Type 0 where
  message_start : (model : String) → StreamEvent
  content_delta : (text : String) → (reasoning : Bool) → StreamEvent
  tool_call_delta : ToolCallDelta → StreamEvent
  message_finish : (finish_reason : String) → Option Usage → StreamEvent
  task_failed : Option Error → (detail : String) → StreamEvent
  not_set : StreamEvent

abbrev pub no_usage : Usage
no_usage = record {
  input_tokens = 0;
  output_tokens = 0;
  cached_tokens = 0;
  credit_used = 0;
  cache_creation_tokens = 0;
}
