-- ===== src/Delivery/Marks.antt =====
-- internal/delivery/store.go, MarkSent, MarkRetry, MarkPermanent, MarkUncertain and finishFailure:
-- what becomes of a delivery that the worker holds.
use Prim.Native.String
use open_im.Prelude.{
  ℕ, String, Bool, true, false, not, Option, none, some, [], ◌∷◌, if◌then◌else◌, leb, ◌==◌,
}
use open_im.Database.{Db, RunRow, RunState, DeliveryRow, DeliveryState, DelegationState, Json}
use open_im.Database.Tx.{
  Result, err, Tx, ◌>>=◌, ◌>>◌, query, update_runs, update_deliveries, update_delegations,
  insert_delegation_events, require_one, transact,
}
use open_im.Delivery.Statements.{
  Record, bounded_error, duration_seconds, after_seconds, insert_run_lifecycle,
  advance_lane_for_run, insert_audit, is_delegation_of, delegation_events_for,
  complete_delegation_for_run, holds_delivery, awaits_delivery,
}

-- MarkSent
abbrev pub settled_state : Bool → RunState
settled_state true = RunState.waiting_approval
settled_state false = RunState.succeeded

-- `CASE WHEN $2 = … THEN now() ELSE NULL END`
abbrev pub stamp_if : Bool → ℕ → Option ℕ
stamp_if true now = some now
stamp_if false now = none

abbrev pub deliver : ℕ → String → DeliveryRow → DeliveryRow
deliver now external_message_id d = record d {
  state = DeliveryState.sent;
  external_message_id = some external_message_id;
  lease_token = none;
  lease_until = none;
  last_error = none;
  completed_at = some now;
  updated_at = now;
}

abbrev pub settle_run : ℕ → Bool → String → RunRow → RunRow
settle_run now waiting external_message_id run = record run {
  state = settled_state waiting;
  reply_server_msg_id = some external_message_id;
  completed_at = stamp_if (not waiting) now;
  last_error = none;
  updated_at = now;
}

unfoldable pub mark_sent_tx : (String → String) → ℕ → Record → String → Tx (Unit {0})
mark_sent_tx sha256_hex now r external_message_id = do
  n ← update_deliveries (holds_delivery r) (deliver now external_message_id)
  require_one n "complete Agent delivery: delivery lease is not held"
  m ← update_runs (awaits_delivery r) (settle_run now r.waiting_approval external_message_id)
  require_one m "complete Agent Run delivery: Run is not delivery pending"
  complete_delegation_for_run sha256_hex now r external_message_id
  advance_lane_for_run now r.run_id
  insert_audit r "sent" ""
  insert_run_lifecycle r.run_id "delivery_sent"
      (("channel", Json.text r.channel) ∷ ("attempts", Json.number r.attempts) ∷ [])

unfoldable pub mark_sent : (String → String) → ℕ → Record → String → Db → Result (Unit {0}) × Db
unfolding mark_sent_tx transact
mark_sent sha256_hex now r external_message_id db =
    if external_message_id == ""
    then (err "complete Agent delivery: external message ID is required", db)
    else transact (mark_sent_tx sha256_hex now r external_message_id) db

-- finishFailure, for its two kinds: a failure, and an outcome that nobody knows.
pub data Verdict : Type 0 where
  failed uncertain : Verdict

abbrev pub delivery_state_of : Verdict → DeliveryState
delivery_state_of Verdict.failed = DeliveryState.failed
delivery_state_of Verdict.uncertain = DeliveryState.uncertain

abbrev pub run_state_of : Verdict → RunState
run_state_of Verdict.failed = RunState.failed
run_state_of Verdict.uncertain = RunState.delivery_unknown

abbrev pub delegation_state_of : Verdict → DelegationState
delegation_state_of Verdict.failed = DelegationState.failed
delegation_state_of Verdict.uncertain = DelegationState.unknown

abbrev pub delegation_word : Verdict → String
delegation_word Verdict.failed = "failed"
delegation_word Verdict.uncertain = "unknown"

abbrev pub is_failure : Verdict → Bool
is_failure Verdict.failed = true
is_failure Verdict.uncertain = false

-- failDelegationForRun
unfoldable pub fail_delegation_for_run : ℕ → Record → Verdict → String → Tx (Unit {0})
unfolding query
fail_delegation_for_run now r verdict failure = do
  events ← query (λ db.
      delegation_events_for (is_delegation_of r)
        (λ d. record {
          tenant_id = r.tenant_id;
          delegation_id = d.id;
          event_type = delegation_word verdict;
          evidence = ("child_run_id", Json.text r.run_id) ∷ ("error", Json.text failure) ∷ [];
        })
        db.delegations)
  update_delegations (is_delegation_of r) (λ d. record d {
    state = delegation_state_of verdict;
    last_error = some failure;
    completed_at = some now;
    updated_at = now;
  })
  insert_delegation_events events

abbrev pub give_up : ℕ → Verdict → String → DeliveryRow → DeliveryRow
give_up now verdict failure d = record d {
  state = delivery_state_of verdict;
  lease_token = none;
  lease_until = none;
  last_error = some failure;
  completed_at = some now;
  updated_at = now;
}

abbrev pub close_run : ℕ → Verdict → String → RunRow → RunRow
close_run now verdict failure run = record run {
  state = run_state_of verdict;
  last_error = some failure;
  completed_at = stamp_if (is_failure verdict) now;
  updated_at = now;
}

unfoldable pub finish_failure_tx : ℕ → Record → Verdict → String → String → Tx (Unit {0})
finish_failure_tx now r verdict failure event_type = do
  n ← update_deliveries (holds_delivery r) (give_up now verdict failure)
  require_one n "finish Agent delivery failure: delivery lease is not held"
  m ← update_runs (awaits_delivery r) (close_run now verdict failure)
  require_one m "finish Agent Run delivery failure: Run is not delivery pending"
  fail_delegation_for_run now r verdict failure
  advance_lane_for_run now r.run_id
  insert_audit r event_type failure
  insert_run_lifecycle r.run_id (String.◌++◌ "delivery_" event_type) (
      ("channel", Json.text r.channel)
      ∷ ("attempts", Json.number r.attempts)
      ∷ ("error", Json.text failure)
      ∷ [])

unfoldable pub finish_failure : ℕ → Record → Verdict → String → String → Db → Result (Unit {0}) × Db
unfolding finish_failure_tx transact
finish_failure now r verdict failure event_type =
    transact (finish_failure_tx now r verdict failure event_type)

abbrev pub requeue : ℕ → ℕ → String → DeliveryRow → DeliveryRow
requeue now seconds failure d = record d {
  state = DeliveryState.pending;
  available_at = after_seconds now seconds;
  lease_token = none;
  lease_until = none;
  last_error = some failure;
  updated_at = now;
}

-- The single statement of MarkRetry.
unfoldable pub requeue_tx : ℕ → Record → String → ℕ → Tx (Unit {0})
requeue_tx now r failure retry_after = do
  n ← update_deliveries (holds_delivery r) (requeue now (duration_seconds retry_after) failure)
  require_one n "retry Agent delivery: delivery lease is not held"

-- MarkRetry
unfoldable pub mark_retry : ℕ → Record → String → ℕ → ℕ → Db → Result (Unit {0}) × Db
unfolding requeue_tx transact finish_failure bounded_error
mark_retry now r failure max_attempts retry_after db =
    if leb max_attempts r.attempts
    then finish_failure now r Verdict.failed (bounded_error failure) "retry_exhausted" db
    else transact (requeue_tx now r (bounded_error failure) retry_after) db

-- MarkPermanent
unfoldable pub mark_permanent : ℕ → Record → String → Db → Result (Unit {0}) × Db
unfolding finish_failure bounded_error
mark_permanent now r failure =
    finish_failure now r Verdict.failed (bounded_error failure) "permanent_failure"

-- MarkUncertain
unfoldable pub mark_uncertain : ℕ → Record → String → Db → Result (Unit {0}) × Db
unfolding finish_failure bounded_error
mark_uncertain now r failure =
    finish_failure now r Verdict.uncertain (bounded_error failure) "outcome_unknown"
