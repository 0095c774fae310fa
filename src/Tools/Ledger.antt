-- ===== src/Tools/Ledger.antt =====
-- internal/toolruntime/store.go, Prepare. Ids and `now()` are arguments.
use open_im.Prelude.{
  ℕ, String, Bool, true, false, ◌&&◌, ◌||◌, not, Option, none, some, List, [], ◌∷◌, if◌then◌else◌,
  append, any, find, ◌==◌,
}
use open_im.Database.{Db, ToolCallRow, CallState, ToolApprovalRow, ApprovalState, Json}
use open_im.Database.Tx.{Result, err, Tx, ◌>>=◌, ◌>>◌, pure, raise, query, require_one, transact}
use open_im.Database.Tx.Tools.{update_calls, insert_call, insert_approval, insert_tool_events}
use open_im.Agent.Catalog.{Descriptor}
use open_im.Tools.Policy.{Decision}
use open_im.Tools.Service.{Execution, CallRequest, PreparedCall}
use open_im.Tools.Lifecycle.{insert_tool_lifecycle_event, is_failed, state_word}

-- Prepare
abbrev pub is_same_call : Execution → CallRequest → ToolCallRow → Bool
is_same_call x q call = call.run_id == x.run_id && call.call_id == q.call_id

abbrev pub first_state : String → Option CallState
first_state outcome =
    if outcome == "deny"
    then some CallState.denied
    else if outcome == "require_approval"
    then some CallState.waiting_approval
    else if outcome == "allow"
    then some CallState.prepared
    else none

abbrev pub stamp : CallState → ℕ → Option ℕ
stamp CallState.denied now = some now
stamp _ now = none

abbrev pub arguments_of : CallRequest → String
arguments_of q = elim q.arguments [ none ↦ "null" | some a ↦ a ]

abbrev pub new_call :
    String → ℕ → Execution → CallRequest → String → Decision → CallState → ToolCallRow
new_call id now x q digest decision state = record {
  id = id;
  tenant_id = x.tenant_id;
  run_id = x.run_id;
  call_id = q.call_id;
  operation_id = q.operation_id;
  capability_snapshot_id = x.capability_snapshot_id;
  arguments = arguments_of q;
  arguments_digest = digest;
  idempotency_key = append "tool:" (append x.run_id (append ":" q.call_id));
  policy_decision = decision.outcome;
  policy_reason = decision.reason;
  state = state;
  attempts = 0;
  result = none;
  error_code = none;
  updated_at = now;
  completed_at = stamp state now;
}

abbrev pub new_approval : String → String → Execution → String → ℕ → ToolApprovalRow
new_approval id call_id x digest expires = record {
  id = id;
  tenant_id = x.tenant_id;
  tool_call_id = call_id;
  arguments_digest = digest;
  state = ApprovalState.requested;
  requested_by = x.member_id;
  decided_by = none;
  expires_at = expires;
  decided_at = none;
}

abbrev pub prepared_of : String → String → Option String → ToolCallRow → PreparedCall
prepared_of approval_id result_null result call = record {
  id = call.id;
  call_id = call.call_id;
  operation_id = call.operation_id;
  state = state_word call.state;
  policy_reason = call.policy_reason;
  approval_id = approval_id;
  result = elim result [ none ↦ result_null | some r ↦ r ];
}

-- `if decision.Outcome == "require_approval"`, with the approval's id in the prepared call.
unfoldable pub ask : Bool → ToolApprovalRow → Tx String
unfolding pure
ask true approval = do insert_approval approval; pure approval.id
ask false approval = pure ""

unfoldable pub insert_prepared :
    ToolCallRow → Bool → ToolApprovalRow → Execution → Decision → Tx PreparedCall
unfolding ask pure
insert_prepared call asks approval x decision = do
  insert_call call
  approval_id ← ask asks approval
  insert_tool_events (
      record {
        tenant_id = x.tenant_id;
        run_id = x.run_id;
        tool_call_id = call.id;
        event_type = "prepared";
        actor_member_id = if x.member_id == "" then none else some x.member_id;
        evidence =
            ("decision", Json.text decision.outcome) ∷ ("reason", Json.text decision.reason) ∷ [];
      }
      ∷ [])
  pure (prepared_of approval_id "" none call)

-- The failed read that may be tried again.
abbrev pub is_retryable : Descriptor → Decision → ToolCallRow → Bool
is_retryable d decision call =
    is_failed call.state
    && d.risk == "read"
    && d.retry_semantics == "safe"
    && decision.outcome == "allow"

abbrev pub prepare_again : ℕ → ToolCallRow → ToolCallRow
prepare_again now call = record call {
  state = CallState.prepared;
  result = none;
  error_code = none;
  completed_at = none;
  updated_at = now;
}

unfoldable pub retry_read : ℕ → ToolCallRow → String → Tx PreparedCall
unfolding pure
retry_read now call approval_id = do
  n ← update_calls (λ c. c.id == call.id && is_failed c.state) (prepare_again now)
  require_one n "prepare failed read tool retry: call state changed"
  insert_tool_lifecycle_event call.id "retry_prepared" "" false
  pure (prepared_of approval_id "" none (prepare_again now call))

abbrev pub approval_of : List ToolApprovalRow → String → String
approval_of approvals call_id =
    elim (find (λ (a : ToolApprovalRow). a.tool_call_id == call_id) approvals) [
      | none ↦ ""
      | some a ↦ a.id
    ]

unfoldable pub load_duplicate :
    ℕ → Descriptor → CallRequest → String → Decision → String → ToolCallRow → Tx PreparedCall
unfolding retry_read pure raise
load_duplicate now d q digest decision approval_id call =
    if not (call.arguments_digest == digest) || not (call.operation_id == q.operation_id)
    then raise "duplicate tool call ID has different operation or arguments"
    else if is_retryable d decision call
    then retry_read now call approval_id
    else pure (prepared_of approval_id "null" call.result call)

unfoldable pub prepare_call_tx :
    String
    → String
    → ℕ
    → Execution
    → Descriptor
    → CallRequest
    → String
    → Decision
    → ℕ
    → CallState
    → Option ToolCallRow
    → Tx PreparedCall
unfolding query raise load_duplicate insert_prepared
prepare_call_tx id approval_id now x d q digest decision expires state (some call) = do
  its_approval ← query (λ db. approval_of db.tool_approvals call.id)
  load_duplicate now d q digest decision its_approval call
prepare_call_tx id approval_id now x d q digest decision expires state none = do
  repeated ← query (λ db. any (λ (c : ToolCallRow). c.id == id) db.tool_calls)
  if repeated
      then raise "prepare tool call: duplicate key"
      else insert_prepared (new_call id now x q digest decision state)
          (decision.outcome == "require_approval") (new_approval approval_id id x digest expires) x
          decision

abbrev pub prepare_in :
    String
    → String
    → ℕ
    → Execution
    → Descriptor
    → CallRequest
    → String
    → Decision
    → ℕ
    → Option CallState
    → Db
    → Result PreparedCall × Db
prepare_in id approval_id now x d q digest decision expires none db =
    (err "unsupported tool policy decision", db)
prepare_in id approval_id now x d q digest decision expires (some state) db =
    transact
      (prepare_call_tx id approval_id now x d q digest decision expires state
        (find (is_same_call x q) db.tool_calls))
      db

-- Prepare
unfoldable pub prepare_call :
    String
    → String
    → ℕ
    → Execution
    → Descriptor
    → CallRequest
    → String
    → Decision
    → ℕ
    → Db
    → Result PreparedCall × Db
unfolding prepare_call_tx transact
prepare_call id approval_id now x d q digest decision expires =
    prepare_in id approval_id now x d q digest decision expires (first_state decision.outcome)
