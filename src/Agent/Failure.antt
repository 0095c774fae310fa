-- ===== src/Agent/Failure.antt =====
-- internal/agent/store.go, FailOrRetry and Fail: a failed attempt of a Run.
use open_im.Prelude.{ℕ, String, Bool, true, false, Option, none, some, [], ◌∷◌, if◌then◌else◌, leb}
use open_im.Database.{Db, RunRow, RunState, Json}
use open_im.Database.Tx.{Result, Tx, ◌>>=◌, ◌>>◌, pure, raise, update_runs, require_one, transact}
use open_im.Delivery.Statements.{duration_seconds, after_seconds}
use open_im.Agent.Run.{Run, phase_attempts}
use open_im.Agent.Lane.{
  holds_lease, insert_run_event, advance_conversation_lane, fail_delegation_for_run, cut_failure,
}

-- A text whose bytes are not UTF-8 is refused by the server, before it looks for a row.
abbrev pub not_utf8 : String
not_utf8 = "invalid byte sequence for encoding \"UTF8\""

abbrev pub retry_state : Option String → RunState
retry_state none = RunState.queued
retry_state (some _) = RunState.reply_pending

abbrev pub fail_or_requeue : ℕ → Bool → ℕ → String → RunRow → RunRow
fail_or_requeue now true seconds failure row = record row {
  state = RunState.failed;
  completed_at = some now;
  lease_token = none;
  lease_until = none;
  last_error = some failure;
  updated_at = now;
}
fail_or_requeue now false seconds failure row = record row {
  state = retry_state row.candidate_text;
  available_at = after_seconds now seconds;
  completed_at = none;
  lease_token = none;
  lease_until = none;
  last_error = some failure;
  updated_at = now;
}

-- What follows an UPDATE that set the state to 'failed'.
unfoldable pub give_up_run : ℕ → Run → String → Tx (Unit {0})
give_up_run now run failure = do
  advance_conversation_lane now run
  fail_delegation_for_run now run failure

unfoldable pub if_failed : Bool → Tx (Unit {0}) → Tx (Unit {0})
unfolding pure
if_failed final m = if final then m else pure tt

abbrev pub failure_event : Bool → String
failure_event true = "failed"
failure_event false = "retry_scheduled"

-- `final` is `phaseAttempts >= maxAttempts`, with which the UPDATE chooses the state.
unfoldable pub fail_or_retry_tx : ℕ → Run → Bool → ℕ → String → Tx (Unit {0})
unfolding if_failed
fail_or_retry_tx now run final seconds failure = do
  n ← update_runs (holds_lease run) (fail_or_requeue now final seconds failure)
  require_one n "retry Agent Run: execution lease is not held"
  if_failed final (give_up_run now run failure)
  insert_run_event run (failure_event final)
      (("attempt", Json.number run.attempts) ∷ ("error", Json.text failure) ∷ [])

unfoldable pub record_failure : Option String → (String → Tx (Unit {0})) → Tx (Unit {0})
unfolding raise
record_failure none m = raise not_utf8
record_failure (some failure) m = m failure

-- FailOrRetry
unfoldable pub fail_or_retry : ℕ → Run → String → ℕ → ℕ → Db → Result (Unit {0}) × Db
unfolding fail_or_retry_tx record_failure cut_failure transact
fail_or_retry now run failure max_attempts retry_after = transact (
    record_failure (cut_failure failure) (
      fail_or_retry_tx now run (leb max_attempts (phase_attempts run))
        (duration_seconds retry_after)))

abbrev pub fail_row : ℕ → String → RunRow → RunRow
fail_row now failure row = record row {
  state = RunState.failed;
  completed_at = some now;
  lease_token = none;
  lease_until = none;
  last_error = some failure;
  updated_at = now;
}

unfoldable pub fail_tx : ℕ → Run → String → Tx (Unit {0})
unfolding give_up_run
fail_tx now run failure = do
  n ← update_runs (holds_lease run) (fail_row now failure)
  require_one n "fail Agent Run: execution lease is not held"
  give_up_run now run failure
  insert_run_event run "failed"
      (("attempt", Json.number run.attempts) ∷ ("error", Json.text failure) ∷ [])

-- Fail
unfoldable pub fail : ℕ → Run → String → Db → Result (Unit {0}) × Db
unfolding fail_tx record_failure cut_failure transact
fail now run failure = transact (record_failure (cut_failure failure) (fail_tx now run))
