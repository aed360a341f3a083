-- ===== src/Gateway/ToolCalls.antt =====
-- internal/gateway/toolcall.go: which tool call a delta belongs to. `hex` is what `randHex(8)`
-- returns; a stream draws it at most once, since the identifier that is made of it stays.
use claw_proxy_hub_next.Base.{String, append, str_eq, if◌then◌else◌}
use claw_proxy_hub_next.Gateway.Envelope.{ToolCallDelta}

pub record ToolCallTracker : Type 0 where
  pub last_id : String
  pub last_name : String

abbrev pub no_calls : ToolCallTracker
no_calls = record { last_id = ""; last_name = "" }

-- The tracker that is left, with the identifier and the name of the call.
unfoldable pub resolve :
    String → ToolCallTracker → ToolCallDelta → ToolCallTracker × String × String
resolve hex t ev =
    let last_id =
      if str_eq ev.id ""
      then (if str_eq t.last_id "" then append "call_" hex else t.last_id)
      else ev.id in
    let last_name = if str_eq ev.name "" then t.last_name else ev.name in
    (record { last_id = last_id; last_name = last_name }, last_id, last_name)
