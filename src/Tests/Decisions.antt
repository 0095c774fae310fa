-- ===== src/Tests/Decisions.antt =====
-- The theorems on the ledger of tool calls at concrete states.
use open_im.Prelude.{any, false, ◌<◌, true, none, some, [], ◌∷◌, ◌≡◌, refl, find, ◌||◌, ◌==◌}
use open_im.Database.{Db, RunState, ToolCallRow, CallState, ToolApprovalRow, ApprovalState}
use open_im.Database.Tx.{ok, transact, update_runs, insert_run_events, require_one}
use open_im.Database.Tx.Tools.{update_calls, update_approvals, insert_tool_events}
use open_im.Tools.Policy.{Decision}
use open_im.Tools.Service.{PreparedCall}
use open_im.Tools.Ledger.{is_retryable, prepare_call, prepare_call_tx, load_duplicate, prepared_of}
use open_im.Tools.Lifecycle.{is_prepared}
use open_im.Tools.Verdict.{
  Choice, is_decidable, decide_tx, continue_call, log_decision, insert_decision_event,
  is_active_member,
}
use open_im.Tools.Replay.{awaits, prepare_call_existing, decision_bound}
use open_im.Tests.Data.{first, db_of, run_of_state}
use open_im.Tests.Calls.{weather, execution, request}

abbrev call_in : CallState → ToolCallRow
call_in state = record {
  id = "call";
  tenant_id = "tenant";
  run_id = "r1";
  call_id = "c1";
  operation_id = "weather.read";
  capability_snapshot_id = "snapshot";
  arguments = "{}";
  arguments_digest = "sha256:0";
  idempotency_key = "tool:r1:c1";
  policy_decision = "require_approval";
  policy_reason = "side_effect_requires_approval";
  state = state;
  attempts = 1;
  result = none;
  error_code = none;
  updated_at = 300;
  completed_at = none;
}

abbrev approval : ToolApprovalRow
approval = record {
  id = "approval";
  tenant_id = "tenant";
  tool_call_id = "call";
  arguments_digest = "sha256:0";
  state = ApprovalState.requested;
  requested_by = "member";
  decided_by = none;
  expires_at = 900;
  decided_at = none;
}

abbrev ledger : CallState → Db
ledger state = record (db_of first) {
  runs =
      record (run_of_state "r1" RunState.waiting_approval none) {
        pending_tool_approval_id = some "approval";
      }
      ∷ [];
  tool_calls = call_in state ∷ [];
  tool_approvals = approval ∷ [];
  members = record { id = "member"; tenant_id = "tenant"; is_active = true } ∷ [];
}

abbrev allow : Decision
allow = record { outcome = "allow"; reason = "authorized_read" }

abbrev again : PreparedCall
again = prepared_of "approval" "null" none (call_in CallState.unknown)

kept :
    (prepare_call "id" "new" 400 execution weather request "sha256:0" allow 900
      (ledger CallState.unknown)).0
    ≡ ok again
unfolding prepare_call prepare_call_tx load_duplicate transact
kept = refl

prepare_call_existing_example :
    ((again.state == "prepared")
      ≡ (is_prepared CallState.unknown || is_retryable weather allow (call_in CallState.unknown)))
    × (is_retryable weather allow (call_in CallState.unknown) ≡ false
        → (prepare_call "id" "new" 400 execution weather request "sha256:0" allow 900
            (ledger CallState.unknown)).1
          ≡ ledger CallState.unknown)
prepare_call_existing_example =
    prepare_call_existing "id" "new" 400 execution weather request "sha256:0" allow 900
      (ledger CallState.unknown) (call_in CallState.unknown) again refl kept

decided :
    (transact
      (decide_tx 400 Choice.approved "tenant" "approval" "member" "sha256:0")
      (ledger CallState.waiting_approval)).0
    ≡ ok tt
unfolding decide_tx continue_call log_decision insert_decision_event transact update_approvals
    update_calls update_runs require_one insert_tool_events insert_run_events
decided = refl

decision_bound_example :
    (a : ToolApprovalRow) × (find
        (is_decidable
          (ledger CallState.waiting_approval).members
          400
          "tenant"
          "approval"
          "member"
          "sha256:0")
        (approval ∷ [])
      ≡ some a)
    × (a.requested_by ≡ "member")
    × (a.arguments_digest ≡ "sha256:0")
    × (400 < a.expires_at)
    × (is_active_member a.tenant_id "member" (ledger CallState.waiting_approval).members ≡ true)
    × (any (awaits "approval") (ledger CallState.waiting_approval).runs ≡ true)
decision_bound_example =
    decision_bound Choice.approved 400 "tenant" "approval" "member" "sha256:0"
      (ledger CallState.waiting_approval) decided
