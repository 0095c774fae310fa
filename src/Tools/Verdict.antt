-- ===== src/Tools/Verdict.antt =====
-- internal/toolruntime/store.go, Approve and Reject: the member who asked decides on a tool call.
use open_im.Prelude.{
  ℕ, String, Bool, ◌&&◌, Option, none, some, List, [], ◌∷◌, if◌then◌else◌, ltb, any, find,
  count_where, ◌==◌,
}
use open_im.Database.{
  Db, RunRow, ToolCallRow, CallState, ToolApprovalRow, ApprovalState, MemberRow, ToolEvent, Json,
}
use open_im.Database.Tx.{
  Result, Tx, ◌>>=◌, ◌>>◌, raise, query, update_runs, insert_run_events, require_one, transact,
}
use open_im.Database.Tx.Tools.{update_calls, update_approvals, insert_tool_events}
use open_im.Delivery.Statements.{holds_text}
use open_im.Agent.Approvals.{is_requested, is_waiting_call, is_waiting_run, resume}

pub data Choice : Type 0 where
  approved rejected : Choice

abbrev pub approval_state : Choice → ApprovalState
approval_state Choice.approved = ApprovalState.approved
approval_state Choice.rejected = ApprovalState.rejected

abbrev pub word : Choice → String
word Choice.approved = "approved"
word Choice.rejected = "rejected"

abbrev pub run_word : Choice → String
run_word Choice.approved = "tool_approval_granted"
run_word Choice.rejected = "tool_approval_rejected"

abbrev pub conflict : String
conflict = "tool approval conflicts with current state or actor"

-- The WHERE clause of the approval's UPDATE.
abbrev pub is_active_member : String → String → List MemberRow → Bool
is_active_member tenant_id actor members =
    any (λ (m : MemberRow). m.tenant_id == tenant_id && m.id == actor && m.is_active) members

abbrev pub is_decidable :
    List MemberRow → ℕ → String → String → String → String → ToolApprovalRow → Bool
is_decidable members now tenant_id approval_id actor digest a =
    a.tenant_id == tenant_id
    && a.id == approval_id
    && is_requested a.state
    && ltb now a.expires_at
    && a.arguments_digest == digest
    && a.requested_by == actor
    && is_active_member a.tenant_id actor members

abbrev pub decide_row : ℕ → Choice → String → ToolApprovalRow → ToolApprovalRow
decide_row now choice actor a = record a {
  state = approval_state choice;
  decided_by = some actor;
  decided_at = some now;
}

-- An approved call may start, a rejected one is denied.
abbrev pub decide_call : ℕ → Choice → ToolCallRow → ToolCallRow
decide_call now Choice.approved call = record call { state = CallState.prepared; updated_at = now }
decide_call now Choice.rejected call = record call {
  state = CallState.denied;
  error_code = some "approval_rejected";
  completed_at = some now;
  updated_at = now;
}

-- The join of the Run's UPDATE with the call.
abbrev pub waits_for : List ToolCallRow → String → String → String → RunRow → Bool
waits_for calls call_id tenant_id approval_id run =
    any
      (λ (call : ToolCallRow).
        call.id == call_id
        && call.tenant_id == tenant_id
        && run.tenant_id == call.tenant_id
        && run.id == call.run_id)
      calls
    && is_waiting_run run.state
    && holds_text run.pending_tool_approval_id approval_id

-- insertToolApprovalEvent and insertToolDecisionEvent
abbrev pub decision_events : String → String → Choice → List ToolCallRow → List ToolEvent
decision_events id actor choice [] = []
decision_events id actor choice (call ∷ calls) =
    let rest = decision_events id actor choice calls in
    if call.id == id
    then record {
      tenant_id = call.tenant_id;
      run_id = call.run_id;
      tool_call_id = call.id;
      event_type = word choice;
      actor_member_id = some actor;
      evidence =
          ("decision", Json.text (word choice))
          ∷ ("reason", Json.text "digest_bound_approval")
          ∷ [];
    }
      ∷ rest
    else rest

unfoldable pub insert_decision_event : String → String → Choice → Tx (Unit {0})
unfolding query
insert_decision_event id actor choice = do
  n ← query (λ db. count_where (λ (call : ToolCallRow). call.id == id) db.tool_calls)
  rows ← query (λ db. decision_events id actor choice db.tool_calls)
  insert_tool_events rows
  require_one n "record tool decision event: tool call does not exist"

-- After the Run's UPDATE, which gives back the Run if there is one.
unfoldable pub log_decision :
    ℕ → Choice → String → String → String → String → Option RunRow → Tx (Unit {0})
unfolding raise
log_decision now choice tenant_id approval_id actor call_id none = raise conflict
log_decision now choice tenant_id approval_id actor call_id (some run) = do
  insert_decision_event call_id actor choice
  insert_run_events (
      record {
        tenant_id = tenant_id;
        run_id = run.id;
        trace_id = run.trace_id;
        event_type = run_word choice;
        evidence =
            ("approval_id", Json.text approval_id) ∷ ("actor_member_id", Json.text actor) ∷ [];
      }
      ∷ [])

-- After the approval's UPDATE, which gives back the approval if there is one.
unfoldable pub continue_call :
    ℕ → Choice → String → String → String → Option ToolApprovalRow → Tx (Unit {0})
unfolding raise query
continue_call now choice tenant_id approval_id actor none = raise conflict
continue_call now choice tenant_id approval_id actor (some a) = do
  n ←
      update_calls
        (λ call.
          call.id == a.tool_call_id && call.tenant_id == tenant_id && is_waiting_call call.state)
        (decide_call now choice)
  require_one n conflict
  calls ← query (λ db. db.tool_calls)
  run ← query (λ db. find (waits_for calls a.tool_call_id tenant_id approval_id) db.runs)
  update_runs (waits_for calls a.tool_call_id tenant_id approval_id) (resume now)
  log_decision now choice tenant_id approval_id actor a.tool_call_id run

unfoldable pub decide_tx : ℕ → Choice → String → String → String → String → Tx (Unit {0})
unfolding query continue_call
decide_tx now choice tenant_id approval_id actor digest = do
  s ← query (λ db. db)
  update_approvals (is_decidable s.members now tenant_id approval_id actor digest)
      (decide_row now choice actor)
  continue_call now choice tenant_id approval_id actor
      (find (is_decidable s.members now tenant_id approval_id actor digest) s.tool_approvals)

-- Approve and Reject
unfoldable pub approve : ℕ → String → String → String → String → Db → Result (Unit {0}) × Db
unfolding decide_tx transact
approve now tenant_id approval_id actor digest =
    transact (decide_tx now Choice.approved tenant_id approval_id actor digest)

unfoldable pub reject : ℕ → String → String → String → String → Db → Result (Unit {0}) × Db
unfolding decide_tx transact
reject now tenant_id approval_id actor digest =
    transact (decide_tx now Choice.rejected tenant_id approval_id actor digest)
