-- ===== src/Action/Executor.antt =====
-- internal/action/executor.go. A commit may succeed without an acknowledgement, and a read may fail:
-- `Faults` says what happens in a round. The ids, the token, the JSON decoding of a payload and the
-- time are arguments.
use open_im.Prelude.{
  ℕ, ◌+◌, String, Bool, true, false, ◌||◌, ◌&&◌, not, Option, none, some, List, [], ◌∷◌, find,
  first_by, select_where, leb, ltb, eqb, ◌==◌,
}
use open_im.Database.{Json, RunRow, RunState}
use open_im.Database.Tx.{Result, ◌>>=◌, ◌>>◌, pure, query, require_one, transact}
use open_im.Delivery.Statements.{holds_text, is_expired, after_seconds, duration_seconds}
use open_im.Action.Tables.{
  IntentRow, IntentState, ExecutionRow, ExecutionState, ActionDb, ActionTx, update_intents,
  update_executions, update_action_runs, insert_action_event,
}
use open_im.Action.Store.{set_intent}

pub record Execution : Type 0 where
  pub id : String
  pub intent_id : String
  pub run_id : String
  pub tenant_id : String
  pub member_id : String
  pub idempotency_key : String
  pub lease_token : String
  pub title : String
  pub prior_state : ExecutionState
  pub attempts : ℕ

-- The commit of the ticket: acknowledged, or not, and then applied or lost.
pub data Commit : Type 0 where
  acknowledged applied lost : Commit

pub record Faults : Type 0 where
  pub commit : Commit
  pub lookup_fails : Bool
  pub readback_fails : Bool

abbrev pub is_running_execution : ExecutionState → Bool
is_running_execution ExecutionState.running = true
is_running_execution _ = false

abbrev pub is_unknown_execution : ExecutionState → Bool
is_unknown_execution ExecutionState.unknown = true
is_unknown_execution _ = false

-- `state IN ('queued','unknown')`
abbrev pub is_open_execution : ExecutionState → Bool
is_open_execution ExecutionState.queued = true
is_open_execution ExecutionState.unknown = true
is_open_execution _ = false

-- The first statement of runOnce.
abbrev pub lose_lease : ℕ → ExecutionRow → ExecutionRow
lose_lease now e = record e {
  state = ExecutionState.unknown;
  lease_token = none;
  lease_until = none;
  last_error = some "execution lease expired";
  updated_at = now;
}

unfoldable pub expire_leases : ℕ → ActionTx ℕ
unfolding update_executions
expire_leases now =
    update_executions (λ e. is_running_execution e.state && is_expired e.lease_until now)
      (lose_lease now)

abbrev pub is_ready : (String → Bool) → ℕ → ℕ → ExecutionRow → Bool
is_ready locked limit now e =
    is_open_execution e.state && leb e.available_at now && ltb e.attempts limit && not (locked e.id)

abbrev pub execution_before : ExecutionRow → ExecutionRow → Bool
execution_before a b =
    ltb a.available_at b.available_at
    || (eqb a.available_at b.available_at && ltb a.created_at b.created_at)

abbrev pub lease_execution : ℕ → String → ℕ → ExecutionRow → ExecutionRow
lease_execution now token seconds e = record e {
  state = ExecutionState.running;
  attempts = e.attempts + 1;
  lease_token = some token;
  lease_until = some (after_seconds now seconds);
  updated_at = now;
}

abbrev pub claimed_execution : String → ExecutionRow → IntentRow → Execution
claimed_execution token e i = record {
  id = e.id;
  intent_id = e.intent_id;
  run_id = i.run_id;
  tenant_id = e.tenant_id;
  member_id = i.requested_by;
  idempotency_key = e.idempotency_key;
  lease_token = token;
  title = "";
  prior_state = e.state;
  attempts = e.attempts + 1;
}

-- The candidate with its intent, which the UPDATE joins.
unfoldable pub lease_ready :
    ℕ → String → ℕ → Option ExecutionRow → Option IntentRow → ActionTx (Option (Execution × String))
unfolding pure update_executions
lease_ready now token seconds none i = pure none
lease_ready now token seconds (some e) none = pure none
lease_ready now token seconds (some e) (some i) = do
  update_executions (λ row. row.id == e.id) (lease_execution now token seconds)
  pure (some (claimed_execution token e i, i.payload))

abbrev pub intent_of : List IntentRow → Option ExecutionRow → Option IntentRow
intent_of intents none = none
intent_of intents (some e) = find (λ (i : IntentRow). i.id == e.intent_id) intents

unfoldable pub claim_execution_tx :
    (String → Bool) → ℕ → ℕ → ℕ → String → ActionTx (Option (Execution × String))
unfolding query lease_ready
claim_execution_tx locked limit lease now token = do
  found ←
      query
        (λ db. first_by execution_before (select_where (is_ready locked limit now) db.executions))
  intent ← query (λ db. intent_of db.intents found)
  lease_ready now token (duration_seconds lease) found intent

abbrev pub holds_execution : Execution → ExecutionRow → Bool
holds_execution x e = e.id == x.id && holds_text e.lease_token x.lease_token

-- markUnknown
abbrev pub unknown_row : ℕ → String → ExecutionRow → ExecutionRow
unknown_row now message e = record e {
  state = ExecutionState.unknown;
  lease_token = none;
  lease_until = none;
  last_error = some message;
  available_at = now;
  updated_at = now;
}

unfoldable pub mark_unknown_tx : ℕ → Execution → String → ActionTx (Unit {0})
unfolding update_executions pure
mark_unknown_tx now x message = do
  update_executions (holds_execution x) (unknown_row now message)
  pure tt

-- fail
abbrev pub failed_row : ℕ → Bool → String → ExecutionRow → ExecutionRow
failed_row now true failure e = record e {
  state = ExecutionState.failed;
  lease_token = none;
  lease_until = none;
  last_error = some failure;
  available_at = now + 1_000_000;
  completed_at = some now;
  updated_at = now;
}
failed_row now false failure e = record e {
  state = ExecutionState.queued;
  lease_token = none;
  lease_until = none;
  last_error = some failure;
  available_at = now + 1_000_000;
  completed_at = none;
  updated_at = now;
}

abbrev pub fail_action_run : ℕ → String → RunRow → RunRow
fail_action_run now failure run = record run {
  state = RunState.failed;
  completed_at = some now;
  last_error = some failure;
  updated_at = now;
}

unfoldable pub end_failed : ℕ → Execution → Bool → String → ActionTx (Unit {0})
unfolding update_intents update_action_runs insert_action_event pure
end_failed now x false failure = pure tt
end_failed now x true failure = do
  update_intents (λ i. i.id == x.intent_id) (set_intent IntentState.failed now)
  update_action_runs (λ run. run.id == x.run_id) (fail_action_run now failure)
  insert_action_event (record {
    tenant_id = x.tenant_id;
    intent_id = x.intent_id;
    execution_id = x.id;
    actor_member_id = none;
    event_type = "action.failed";
    evidence = ("error", Json.text failure) ∷ [];
  })

-- `terminal` is `x.Attempts >= e.maxAttempts`.
unfoldable pub fail_execution_tx : ℕ → Execution → Bool → String → ActionTx (Unit {0})
unfolding update_executions require_one end_failed
fail_execution_tx now x terminal failure = do
  n ← update_executions (holds_execution x) (failed_row now terminal failure)
  require_one n "fail execution: lease not held"
  end_failed now x terminal failure

unfoldable pub fail_execution : ℕ → ℕ → Execution → String → ActionDb → Result (Unit {0}) × ActionDb
unfolding fail_execution_tx transact
fail_execution now limit x failure =
    transact (fail_execution_tx now x (leb limit x.attempts) failure)
