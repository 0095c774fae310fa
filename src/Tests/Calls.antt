-- ===== src/Tests/Calls.antt =====
-- The theorems on tool calls, with a service whose calls all succeed.
use open_im.Prelude.{some, [], ◌∷◌, ◌≡◌, not, ◌||◌, ◌==◌}
use open_im.Agent.Catalog.{Descriptor}
use open_im.Tools.Policy.{decide}
use open_im.Tools.Service.{Execution, CallRequest}
use open_im.Tools.Authority.{may_read, may_ask, decide-outcome}

abbrev pub weather : Descriptor
weather = record {
  operation_id = "weather.read";
  version = "1";
  audience = "passive";
  risk = "read";
  idempotency = "native";
  retry_semantics = "safe";
  permissions = "weather" ∷ [];
  input_schema = "{}";
}

decide-outcome_example :
    (((decide "passive" weather ("weather" ∷ [])).outcome == "allow")
      ≡ may_read "passive" weather ("weather" ∷ []))
    × (((decide "passive" weather ("weather" ∷ [])).outcome == "require_approval")
        ≡ may_ask "passive" weather ("weather" ∷ []))
    × (((decide "passive" weather ("weather" ∷ [])).outcome == "deny")
        ≡ not (
            may_read "passive" weather ("weather" ∷ [])
            || may_ask "passive" weather ("weather" ∷ [])))
decide-outcome_example = decide-outcome "passive" weather ("weather" ∷ [])

abbrev pub execution : Execution
execution = record {
  run_id = "r1";
  tenant_id = "tenant";
  member_id = "member";
  execution_plane = "passive";
  capability_snapshot_id = "snapshot";
}

abbrev pub request : CallRequest
request = record { call_id = "c1"; operation_id = "weather.read"; arguments = some "{}" }
