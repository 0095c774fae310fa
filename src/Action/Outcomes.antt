-- ===== src/Action/Outcomes.antt =====
-- internal/action/executor.go: what verifyAndComplete makes of an execution, of its intent and of its
-- Run, written out column by column.
use open_im.Prelude.{ℕ, String, ◌≡◌, refl, true, ◌&&◌, none, some, arith, Changed, ◌==◌, eq_iff}
use open_im.Database.{RunRow, RunState}
use open_im.Delivery.Outcomes.{holds_text-some}
use open_im.Action.Tables.{IntentRow, IntentState, ExecutionRow, ExecutionState, ActionDb}
use open_im.Action.Store.{set_intent}
use open_im.Action.Executor.{Execution, holds_execution}
use open_im.Action.Round.{succeed_row, succeed_run, is_waiting_run}

-- The execution was held under the worker's token.
pub record Succeeds (x : Execution) (ticket_id : String) (e end : ExecutionRow) : Type 0 where
  pub its_id : e.id ≡ x.id
  pub held : e.lease_token ≡ some x.lease_token
  pub id : end.id ≡ e.id
  pub intent : end.intent_id ≡ e.intent_id
  pub key : end.idempotency_key ≡ e.idempotency_key
  pub state : end.state ≡ ExecutionState.succeeded
  pub ticket : end.ticket_id ≡ some ticket_id
  pub token : end.lease_token ≡ none
  pub error : end.last_error ≡ none

pub record IsDone (i end : IntentRow) : Type 0 where
  pub id : end.id ≡ i.id
  pub asker : end.requested_by ≡ i.requested_by
  pub digest : end.payload_digest ≡ i.payload_digest
  pub state : end.state ≡ IntentState.succeeded

pub record IsFinished (run end : RunRow) : Type 0 where
  pub waited : run.state ≡ RunState.waiting_approval
  pub id : end.id ≡ run.id
  pub state : end.state ≡ RunState.succeeded

-- From `s` to `t`, the execution, its intent and its Run, if that waits, have succeeded with the
-- ticket, and no other row of theirs has changed, nor has an approval.
pub record Completes (x : Execution) (ticket_id : String) (s t : ActionDb) : Type 0 where
  pub execution : Changed (holds_execution x) (Succeeds x ticket_id) s.executions t.executions
  pub intent : Changed (λ (i : IntentRow). i.id == x.intent_id) IsDone s.intents t.intents
  pub run :
      Changed
        (λ (run : RunRow). run.id == x.run_id && is_waiting_run run.state)
        IsFinished
        s.runs
        t.runs
  pub approvals : t.approvals ≡ s.approvals

waiting-state : (s : RunState) → is_waiting_run s ≡ true → s ≡ RunState.waiting_approval
waiting-state RunState.waiting_approval h = refl
waiting-state RunState.queued h = absurd cc
waiting-state RunState.running h = absurd cc
waiting-state RunState.reply_pending h = absurd cc
waiting-state RunState.delivery_pending h = absurd cc
waiting-state RunState.delivery_unknown h = absurd cc
waiting-state RunState.succeeded h = absurd cc
waiting-state RunState.failed h = absurd cc

pub succeed_row-Succeeds :
    (x : Execution) (now : ℕ) (ticket_id : String) (e : ExecutionRow)
    → holds_execution x e ≡ true
    → Succeeds x ticket_id e (succeed_row now ticket_id e)
succeed_row-Succeeds x now ticket_id e h = record {
  its_id = (eq_iff e.id x.id).0 (ground arith);
  held = holds_text-some e.lease_token x.lease_token (ground arith);
  id = refl;
  intent = refl;
  key = refl;
  state = refl;
  ticket = refl;
  token = refl;
  error = refl;
}

pub set_intent-IsDone :
    (now : ℕ) (i : IntentRow) → IsDone i (set_intent IntentState.succeeded now i)
set_intent-IsDone now i = record { id = refl; asker = refl; digest = refl; state = refl }

pub succeed_run-IsFinished :
    (now : ℕ) (id : String) (run : RunRow)
    → (run.id == id && is_waiting_run run.state) ≡ true
    → IsFinished run (succeed_run now run)
succeed_run-IsFinished now id run h = record {
  waited = waiting-state run.state (ground arith);
  id = refl;
  state = refl;
}
