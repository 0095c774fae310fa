-- ===== src/Tools/Lifecycle.antt =====
-- internal/toolruntime/store.go: the states of a tool call and the events of its life.
use open_im.Prelude.{
  String, Bool, true, false, none, List, [], ◌∷◌, if◌then◌else◌, count_where, ◌==◌,
}
use open_im.Database.{ToolCallRow, CallState, ToolEvent, Json, Evidence}
use open_im.Database.Tx.{Tx, ◌>>=◌, ◌>>◌, query, require_one}
use open_im.Database.Tx.Tools.{insert_tool_events}

abbrev pub state_word : CallState → String
state_word CallState.prepared = "prepared"
state_word CallState.denied = "denied"
state_word CallState.waiting_approval = "waiting_approval"
state_word CallState.executing = "executing"
state_word CallState.unknown = "unknown"
state_word CallState.succeeded = "succeeded"
state_word CallState.failed = "failed"

abbrev pub is_prepared : CallState → Bool
is_prepared CallState.prepared = true
is_prepared _ = false

abbrev pub is_executing : CallState → Bool
is_executing CallState.executing = true
is_executing _ = false

abbrev pub is_failed : CallState → Bool
is_failed CallState.failed = true
is_failed _ = false

-- insertToolLifecycleEvent: one event for the call that has the id.
abbrev pub lifecycle_event : String → Evidence → ToolCallRow → ToolEvent
lifecycle_event event_type evidence call = record {
  tenant_id = call.tenant_id;
  run_id = call.run_id;
  tool_call_id = call.id;
  event_type = event_type;
  actor_member_id = none;
  evidence = evidence;
}

abbrev pub lifecycle_events : String → String → Evidence → List ToolCallRow → List ToolEvent
lifecycle_events id event_type evidence [] = []
lifecycle_events id event_type evidence (call ∷ calls) =
    let rest = lifecycle_events id event_type evidence calls in
    if call.id == id then lifecycle_event event_type evidence call ∷ rest else rest

unfoldable pub insert_tool_lifecycle_event : String → String → String → Bool → Tx (Unit {0})
unfolding query
insert_tool_lifecycle_event id event_type error_code unknown = do
  n ← query (λ db. count_where (λ (call : ToolCallRow). call.id == id) db.tool_calls)
  rows ← query (λ db.
      lifecycle_events id event_type
        (("error_code", if error_code == "" then Json.null else Json.text error_code)
          ∷ ("outcome_unknown", Json.flag unknown)
          ∷ [])
        db.tool_calls)
  insert_tool_events rows
  require_one n "record tool lifecycle event: tool call does not exist"
