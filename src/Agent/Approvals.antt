-- ===== src/Agent/Approvals.antt =====
-- internal/agent/store.go, expireToolApprovals and WaitForToolApproval: Runs that wait for a
-- person's approval of a tool call. `locked` are the rows that SKIP LOCKED passes over, and
-- `id_before` orders the ids.
use open_im.Prelude.{
  ℕ, String, Bool, true, false, ◌&&◌, ◌||◌, not, Option, none, some, List, [], ◌∷◌, ◌++◌, map, take,
  if◌then◌else◌, leb, ltb, eqb, any, find, select_where, ◌==◌,
}
use open_im.Database.{
  Db, RunRow, RunState, ToolCallRow, CallState, ToolApprovalRow, ApprovalState, ToolEvent, RunEvent,
  Json,
}
use open_im.Database.Tx.{
  Result, err, Tx, ◌>>=◌, ◌>>◌, query, update_runs, insert_run_events, require_one, transact,
}
use open_im.Database.Tx.Tools.{update_calls, update_approvals, insert_tool_events}
use open_im.Agent.Run.{Run}
use open_im.Agent.Lane.{holds_lease, insert_run_event}

abbrev pub is_requested : ApprovalState → Bool
is_requested ApprovalState.requested = true
is_requested _ = false

abbrev pub is_waiting_call : CallState → Bool
is_waiting_call CallState.waiting_approval = true
is_waiting_call _ = false

abbrev pub is_waiting_run : RunState → Bool
is_waiting_run RunState.waiting_approval = true
is_waiting_run _ = false

-- `ORDER BY expires_at, id`, by insertion.
abbrev pub expires_before : (String → String → Bool) → ToolApprovalRow → ToolApprovalRow → Bool
expires_before id_before a b =
    ltb a.expires_at b.expires_at || (eqb a.expires_at b.expires_at && id_before a.id b.id)

abbrev pub place :
    (String → String → Bool) → ToolApprovalRow → List ToolApprovalRow → List ToolApprovalRow
place id_before a [] = a ∷ []
place id_before a (b ∷ bs) =
    let rest = place id_before a bs in if expires_before id_before b a then b ∷ rest else a ∷ b ∷ bs

abbrev pub by_expiry : (String → String → Bool) → List ToolApprovalRow → List ToolApprovalRow
by_expiry id_before [] = []
by_expiry id_before (a ∷ rest) = place id_before a (by_expiry id_before rest)

-- The rows of `candidates`, `calls` with the member who asked, and `resumed`.
abbrev pub overdue :
    (String → Bool) → (String → String → Bool) → ℕ → ℕ → List ToolApprovalRow → List ToolApprovalRow
overdue locked id_before limit now approvals = take limit (
    by_expiry id_before (
      select_where (λ a. is_requested a.state && leb a.expires_at now && not (locked a.id))
        approvals))

abbrev pub with_asker : ToolCallRow → Option ToolApprovalRow → List (ToolCallRow × String)
with_asker call none = []
with_asker call (some a) = if is_waiting_call call.state then (call, a.requested_by) ∷ [] else []

abbrev pub denied_calls : List ToolApprovalRow → List ToolCallRow → List (ToolCallRow × String)
denied_calls expired [] = []
denied_calls expired (call ∷ calls) =
    with_asker call (find (λ (a : ToolApprovalRow). a.tool_call_id == call.id) expired)
    ++ denied_calls expired calls

abbrev pub with_call :
    RunRow → Option (ToolCallRow × String) → List (RunRow × (ToolCallRow × String))
with_call run none = []
with_call run (some c) = if is_waiting_run run.state then (run, c) ∷ [] else []

abbrev pub resumed_runs :
    List (ToolCallRow × String) → List RunRow → List (RunRow × (ToolCallRow × String))
resumed_runs calls [] = []
resumed_runs calls (run ∷ runs) =
    with_call run (
      find (λ (c : ToolCallRow × String). run.tenant_id == c.0.tenant_id && run.id == c.0.run_id)
        calls)
    ++ resumed_runs calls runs

abbrev pub expire : ℕ → ToolApprovalRow → ToolApprovalRow
expire now a = record a {
  state = ApprovalState.expired;
  decided_by = some a.requested_by;
  decided_at = some now;
}

abbrev pub deny : ℕ → ToolCallRow → ToolCallRow
deny now call = record call {
  state = CallState.denied;
  error_code = some "approval_expired";
  completed_at = some now;
  updated_at = now;
}

abbrev pub resume : ℕ → RunRow → RunRow
resume now run = record run {
  state = RunState.queued;
  pending_tool_approval_id = none;
  available_at = now;
  updated_at = now;
}

abbrev pub is_resumed : List (ToolCallRow × String) → RunRow → Bool
is_resumed calls run =
    any (λ (c : ToolCallRow × String). run.tenant_id == c.0.tenant_id && run.id == c.0.run_id) calls
    && is_waiting_run run.state

abbrev pub expiry_event : RunRow × (ToolCallRow × String) → ToolEvent
expiry_event (run, (call, asker)) = record {
  tenant_id = run.tenant_id;
  run_id = run.id;
  tool_call_id = call.id;
  event_type = "expired";
  actor_member_id = some asker;
  evidence = ("decision", Json.text "expired") ∷ ("reason", Json.text "approval_ttl_elapsed") ∷ [];
}

abbrev pub expiry_run_event : RunRow × (ToolCallRow × String) → RunEvent
expiry_run_event (run, (call, asker)) = record {
  tenant_id = run.tenant_id;
  run_id = run.id;
  trace_id = run.trace_id;
  event_type = "tool_approval_expired";
  evidence = ("tool_call_id", Json.text call.id) ∷ [];
}

-- expireToolApprovals
unfoldable pub expire_tool_approvals :
    (String → Bool) → (String → String → Bool) → ℕ → ℕ → Tx (Unit {0})
unfolding query
expire_tool_approvals locked id_before limit now = do
  expired ← query (λ db. overdue locked id_before limit now db.tool_approvals)
  calls ← query (λ db. denied_calls expired db.tool_calls)
  resumed ← query (λ db. resumed_runs calls db.runs)
  update_approvals (λ a. any (λ (c : ToolApprovalRow). c.id == a.id) expired) (expire now)
  update_calls
      (λ call.
        any (λ (a : ToolApprovalRow). a.tool_call_id == call.id) expired
        && is_waiting_call call.state)
      (deny now)
  update_runs (is_resumed calls) (resume now)
  insert_tool_events (map expiry_event resumed)
  insert_run_events (map expiry_run_event resumed)

-- The EXISTS of WaitForToolApproval.
abbrev pub awaits_approval : Db → String → RunRow → Bool
awaits_approval db approval_id row =
    any
      (λ (a : ToolApprovalRow).
        a.tenant_id == row.tenant_id
        && a.id == approval_id
        && is_requested a.state
        && a.requested_by == row.principal_member_id
        && any
            (λ (call : ToolCallRow).
              call.id == a.tool_call_id && call.run_id == row.id && is_waiting_call call.state)
            db.tool_calls)
      db.tool_approvals

abbrev pub suspend : ℕ → String → RunRow → RunRow
suspend now approval_id row = record row {
  state = RunState.waiting_approval;
  pending_tool_approval_id = some approval_id;
  lease_token = none;
  lease_until = none;
  last_error = none;
  updated_at = now;
}

unfoldable pub wait_tx : ℕ → Run → String → Tx (Unit {0})
unfolding query
wait_tx now run approval_id = do
  s ← query (λ db. db)
  n ←
      update_runs (λ row. holds_lease run row && awaits_approval s approval_id row)
        (suspend now approval_id)
  require_one n "wait for tool approval: execution lease is not held"
  insert_run_event run "tool_approval_requested" (
      ("approval_id", Json.text approval_id)
      ∷ ("operation_id", Json.text run.route_operation_id)
      ∷ [])

-- WaitForToolApproval
unfoldable pub wait_for_tool_approval : ℕ → Run → String → Db → Result (Unit {0}) × Db
unfolding wait_tx transact
wait_for_tool_approval now run approval_id db =
    if approval_id == ""
    then (err "wait for tool approval: approval ID is required", db)
    else transact (wait_tx now run approval_id) db
