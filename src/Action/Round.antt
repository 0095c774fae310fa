-- ===== src/Action/Round.antt =====
-- internal/action/executor.go: one round of the executor.
use open_im.Prelude.{
  ℕ, String, Bool, true, false, ◌&&◌, Option, none, some, [], ◌∷◌, if◌then◌else◌, find, ◌==◌,
}
use open_im.Database.{Json, Evidence, RunRow, RunState}
use open_im.Database.Tx.{Result, ok, err, ◌>>=◌, ◌>>◌, pure, raise, query, require_one, transact}
use open_im.Action.Tables.{
  IntentState, ExecutionRow, ExecutionState, TicketRow, ActionDb, ActionTx, update_intents,
  update_executions, update_action_runs, insert_ticket, insert_action_event,
}
use open_im.Action.Store.{set_intent}
use open_im.Action.Executor.{
  Execution, Commit, acknowledged, applied, lost, Faults, is_unknown_execution, expire_leases,
  claim_execution_tx, holds_execution, mark_unknown_tx, fail_execution,
}

-- verifyAndComplete
abbrev pub receipt_of : String → Evidence
receipt_of ticket_id = ("ticket_id", Json.text ticket_id) ∷ ("status", Json.text "open") ∷ []

abbrev pub succeed_row : ℕ → String → ExecutionRow → ExecutionRow
succeed_row now ticket_id e = record e {
  state = ExecutionState.succeeded;
  ticket_id = some ticket_id;
  receipt = some (receipt_of ticket_id);
  lease_token = none;
  lease_until = none;
  last_error = none;
  completed_at = some now;
  updated_at = now;
}

abbrev pub is_waiting_run : RunState → Bool
is_waiting_run RunState.waiting_approval = true
is_waiting_run _ = false

abbrev pub succeed_run : ℕ → RunRow → RunRow
succeed_run now run = record run {
  state = RunState.succeeded;
  completed_at = some now;
  updated_at = now;
}

unfoldable pub complete_tx : ℕ → Execution → String → ActionTx (Unit {0})
unfolding update_executions update_intents update_action_runs insert_action_event require_one
complete_tx now x ticket_id = do
  n ← update_executions (holds_execution x) (succeed_row now ticket_id)
  require_one n "complete execution: lease not held"
  update_intents (λ i. i.id == x.intent_id) (set_intent IntentState.succeeded now)
  update_action_runs (λ run. run.id == x.run_id && is_waiting_run run.state) (succeed_run now)
  insert_action_event (record {
    tenant_id = x.tenant_id;
    intent_id = x.intent_id;
    execution_id = x.id;
    actor_member_id = none;
    event_type = "action.succeeded";
    evidence = receipt_of ticket_id;
  })

-- The ticket that was read back is the one that the execution is about.
abbrev pub is_its_ticket : Execution → TicketRow → Bool
is_its_ticket x t =
    t.tenant_id == x.tenant_id
    && t.created_by == x.member_id
    && t.title == x.title
    && t.is_open
    && t.idempotency_key == x.idempotency_key

unfoldable pub mark_unknown : ℕ → Execution → String → ActionDb → Result (Unit {0}) × ActionDb
unfolding mark_unknown_tx transact
mark_unknown now x message = transact (mark_unknown_tx now x message)

unfoldable pub complete_with :
    ℕ → ℕ → Execution → Option TicketRow → ActionDb → Result (Unit {0}) × ActionDb
unfolding mark_unknown fail_execution complete_tx transact
complete_with now limit x none = mark_unknown now x "ticket read-back failed"
complete_with now limit x (some t) =
    if is_its_ticket x t
    then transact (complete_tx now x t.id)
    else fail_execution now limit x "ticket read-back mismatch"

abbrev pub ticket_by_id : String → ActionDb → Option TicketRow
ticket_by_id id db = find (λ (t : TicketRow). t.id == id) db.tickets

abbrev pub ticket_by_key : String → ActionDb → Option TicketRow
ticket_by_key key db = find (λ (t : TicketRow). t.idempotency_key == key) db.tickets

unfoldable pub verify_and_complete :
    ℕ → ℕ → Faults → Execution → String → ActionDb → Result (Unit {0}) × ActionDb
unfolding complete_with
verify_and_complete now limit faults x ticket_id db =
    complete_with now limit x (if faults.readback_fails then none else ticket_by_id ticket_id db) db

-- execute
abbrev pub new_ticket : String → Execution → TicketRow
new_ticket id x = record {
  id = id;
  tenant_id = x.tenant_id;
  title = x.title;
  is_open = true;
  created_by = x.member_id;
  idempotency_key = x.idempotency_key;
}

unfoldable pub found_ticket : Option TicketRow → ActionTx String
unfolding pure raise
found_ticket none = raise "no rows in result set"
found_ticket (some t) = pure t.id

unfoldable pub create_ticket_tx : String → Execution → ActionTx String
unfolding insert_ticket query found_ticket
create_ticket_tx id x = do
  insert_ticket (new_ticket id x)
  t ← query (ticket_by_key x.idempotency_key)
  found_ticket t

unfoldable pub after_ticket :
    ℕ
    → ℕ
    → Faults
    → Execution
    → Commit
    → Result (String × ActionDb)
    → ActionDb
    → Result (Unit {0}) × ActionDb
unfolding fail_execution verify_and_complete mark_unknown
after_ticket now limit faults x commit (err e) db = fail_execution now limit x e db
after_ticket now limit faults x acknowledged (ok (id, db')) db =
    verify_and_complete now limit faults x id db'
after_ticket now limit faults x applied (ok (id, db')) db =
    mark_unknown now x "ticket commit outcome is unknown" db'
after_ticket now limit faults x lost (ok (id, db')) db =
    mark_unknown now x "ticket commit outcome is unknown" db

unfoldable pub execute_action :
    String → ℕ → ℕ → Faults → Execution → ActionDb → Result (Unit {0}) × ActionDb
unfolding create_ticket_tx after_ticket
execute_action ticket_id now limit faults x db =
    after_ticket now limit faults x faults.commit (create_ticket_tx ticket_id x db) db

-- reconcile
abbrev pub requeue_absent : ℕ → ExecutionRow → ExecutionRow
requeue_absent now e = record e {
  state = ExecutionState.queued;
  lease_token = none;
  lease_until = none;
  available_at = now;
  last_error = some "unknown outcome reconciled absent; safe retry";
  updated_at = now;
}

unfoldable pub requeue_absent_tx : ℕ → Execution → ActionTx (Unit {0})
unfolding update_executions pure
requeue_absent_tx now x = do update_executions (holds_execution x) (requeue_absent now); pure tt

unfoldable pub reconcile_with :
    ℕ → ℕ → Faults → Execution → Option TicketRow → ActionDb → Result (Unit {0}) × ActionDb
unfolding requeue_absent_tx verify_and_complete transact
reconcile_with now limit faults x none = transact (requeue_absent_tx now x)
reconcile_with now limit faults x (some t) = verify_and_complete now limit faults x t.id

unfoldable pub reconcile : ℕ → ℕ → Faults → Execution → ActionDb → Result (Unit {0}) × ActionDb
unfolding reconcile_with mark_unknown
reconcile now limit faults x db =
    if faults.lookup_fails
    then mark_unknown now x "reconciliation read failed" db
    else reconcile_with now limit faults x (ticket_by_key x.idempotency_key db) db

-- The end of claim, which reads the title, and the branch on the state before the claim.
unfoldable pub perform :
    String → ℕ → ℕ → Faults → Execution → Result String → ActionDb → Result (Unit {0}) × ActionDb
unfolding fail_execution reconcile execute_action
perform ticket_id now limit faults x (err e) = fail_execution now limit x e
perform ticket_id now limit faults x (ok title) =
    if is_unknown_execution x.prior_state
    then reconcile now limit faults (record x { title = title })
    else execute_action ticket_id now limit faults (record x { title = title })

unfoldable pub perform_claimed :
    (String → Result String)
    → String
    → ℕ
    → ℕ
    → Faults
    → Result (Option (Execution × String)) × ActionDb
    → Result (Unit {0}) × ActionDb
unfolding perform
perform_claimed decode ticket_id now limit faults (err e, db) = (err e, db)
perform_claimed decode ticket_id now limit faults (ok none, db) = (ok tt, db)
perform_claimed decode ticket_id now limit faults (ok (some (x, payload)), db) =
    perform ticket_id now limit faults x (decode payload) db

-- Executor.runOnce
unfoldable pub run_action_round :
    (String → Bool)
    → (String → Result String)
    → String
    → String
    → ℕ
    → ℕ
    → ℕ
    → Faults
    → ActionDb
    → Result (Unit {0}) × ActionDb
unfolding expire_leases claim_execution_tx perform_claimed transact
run_action_round locked decode ticket_id token limit lease now faults db =
    perform_claimed decode ticket_id now limit faults (
      transact (claim_execution_tx locked limit lease now token)
        (transact (expire_leases now) db).1)
