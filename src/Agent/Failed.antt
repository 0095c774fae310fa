-- ===== src/Agent/Failed.antt =====
-- internal/agent/store.go: what FailOrRetry makes of the Run that the worker holds and of the lane of
-- its conversation, written out column by column, and a Run whose lease is another worker's.
use open_im.Prelude.{
  ℕ, ◌≤◌, ◌<◌, String, ◌≡◌, ◌≢◌, refl, true, false, none, some, List, [], ◌∷◌, arith, All,
  Bool-cases, inl, inr, count_where, Changed, eq_iff,
}
use open_im.Database.{Db, RunRow, RunState}
use open_im.Delivery.Statements.{is_run_running, after_seconds}
use open_im.Delivery.Outcomes.{MovesOn, holds_text-some}
use open_im.Agent.Run.{Run, phase_attempts}
use open_im.Agent.Lane.{holds_lease, stands_at}
use open_im.Agent.Failure.{fail_or_requeue}

-- A Run that was running under the worker's token.
pub record IsHeld (run : Run) (row : RunRow) : Type 0 where
  pub id : row.id ≡ run.id
  pub state : row.state ≡ RunState.running
  pub token : row.lease_token ≡ some run.lease_token

pub record IsFailed (run : Run) (now : ℕ) (text : String) (row end : RunRow) : Type 0 where
  pub was_held : IsHeld run row
  pub id : end.id ≡ row.id
  pub state : end.state ≡ RunState.failed
  pub completed : end.completed_at ≡ some now
  pub token : end.lease_token ≡ none
  pub error : end.last_error ≡ some text

-- The Run is due again `seconds` later, for its reply if it has a candidate.
pub record IsRequeued (run : Run) (now seconds : ℕ) (text : String) (row end : RunRow)
    : Type 0 where
  pub was_held : IsHeld run row
  pub id : end.id ≡ row.id
  pub again : row.candidate_text ≡ none → end.state ≡ RunState.queued
  pub reply :
      (answer : String) → row.candidate_text ≡ some answer → end.state ≡ RunState.reply_pending
  pub candidate : end.candidate_text ≡ row.candidate_text
  pub due : end.available_at ≡ after_seconds now seconds
  pub completed : end.completed_at ≡ none
  pub token : end.lease_token ≡ none
  pub error : end.last_error ≡ some text

-- A failed attempt, from `s` to `t`: one Run is held under the token. With the attempts of its phase
-- at the limit it fails, and the one lane that stands at it moves on; otherwise it is queued again,
-- and the lanes are as before.
pub record Ends (run : Run) (now seconds limit : ℕ) (text : String) (s t : Db) : Type 0 where
  pub one_run : count_where (holds_lease run) s.runs ≡ 1
  pub fails :
      limit ≤ phase_attempts run
      → Changed (holds_lease run) (IsFailed run now text) s.runs t.runs
        × (count_where (stands_at run) s.lanes ≡ 1)
        × Changed (stands_at run) MovesOn s.lanes t.lanes
  pub again :
      phase_attempts run < limit
      → Changed (holds_lease run) (IsRequeued run now seconds text) s.runs t.runs
        × (t.lanes ≡ s.lanes)

running-state : (s : RunState) → is_run_running s ≡ true → s ≡ RunState.running
running-state RunState.running h = refl
running-state RunState.queued h = absurd cc
running-state RunState.reply_pending h = absurd cc
running-state RunState.delivery_pending h = absurd cc
running-state RunState.delivery_unknown h = absurd cc
running-state RunState.waiting_approval h = absurd cc
running-state RunState.succeeded h = absurd cc
running-state RunState.failed h = absurd cc

module _ (run : Run) where
  holds_lease-IsHeld : (row : RunRow) → holds_lease run row ≡ true → IsHeld run row
  holds_lease-IsHeld row h = record {
    id = (eq_iff row.id run.id).0 (ground arith);
    state = running-state row.state (ground arith);
    token = holds_text-some row.lease_token run.lease_token (ground arith);
  }

  pub fail-IsFailed :
      (now seconds : ℕ) (text : String) (row : RunRow)
      → holds_lease run row ≡ true
      → IsFailed run now text row (fail_or_requeue now true seconds text row)
  fail-IsFailed now seconds text row h = record {
    was_held = holds_lease-IsHeld row h;
    id = refl;
    state = refl;
    completed = refl;
    token = refl;
    error = refl;
  }

  pub requeue-IsRequeued :
      (now seconds : ℕ) (text : String) (row : RunRow)
      → holds_lease run row ≡ true
      → IsRequeued run now seconds text row (fail_or_requeue now false seconds text row)
  requeue-IsRequeued now seconds text row h = record {
    was_held = holds_lease-IsHeld row h;
    id = refl;
    again = λ e. rw e refl;
    reply = λ answer e. rw e refl;
    candidate = refl;
    due = refl;
    completed = refl;
    token = refl;
    error = refl;
  }

  -- No row that has the Run's id is leased under the worker's token.
  abbrev pub IsTaken : List RunRow → Type 0
  IsTaken = All (λ row. row.id ≡ run.id → row.lease_token ≢ some run.lease_token)

  pub IsTaken-none : (rows : List RunRow) → IsTaken rows → count_where (holds_lease run) rows ≡ 0
  IsTaken-none [] h = refl
  IsTaken-none (row ∷ rows) (other, h) = elim (Bool-cases (holds_lease run row)) [
    | inl e ↦ let held = holds_lease-IsHeld row e in absurd (other held.id held.token)
    | inr e ↦ rw (e, IsTaken-none rows h) refl
  ]
