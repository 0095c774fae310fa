-- ===== src/Tests/Stuck.antt =====
-- A Run of agent.runs whose last attempt was interrupted, and the claims that follow.
use open_im.Prelude.{String, Bool, false, none, some, [], ◌∷◌, ◌≡◌, refl, ◌==◌}
use open_im.Database.{Db, RunRow, RunState}
use open_im.Database.Tx.{ok, transact, update_runs, insert_run_events}
use open_im.Database.Tx.Tools.{update_calls, update_approvals, insert_tool_events}
use open_im.Delivery.Statements.{duration_seconds}
use open_im.Agent.Run.{Run}
use open_im.Agent.Lane.{mark_delegation_running, insert_run_event}
use open_im.Agent.Approvals.{expire_tool_approvals}
use open_im.Agent.Claim.{
  claim_run, claim_run_tx, lease_next_run, lease_run_candidate, lease_run, run_of,
}
use open_im.Agent.Exhaustion.{here, next, exhausted_never_claimed}
use open_im.Tests.Data.{run_of_state, lane, first, db_of}

abbrev waiting : RunRow
waiting = run_of_state "r1" RunState.queued none

-- Its lease has run out.
abbrev interrupted : RunRow
interrupted = record (run_of_state "r0" RunState.running (some "t0")) {
  conversation_id = "another";
  route_attempts = 3;
  lease_until = some 150;
}

abbrev both : Db
both = record (db_of first) {
  runs = interrupted ∷ waiting ∷ [];
  lanes = (record lane { conversation_id = "another" }) ∷ lane ∷ [];
}

abbrev free : String → Bool
free _ = false

abbrev never : String → String → Bool
never _ _ = false

abbrev after_one : Db
after_one = (claim_run free never "t1" 30_000_000_000 3 200 both).1

-- The other Run, claimed again when its first lease has run out.
abbrev again : Run
again = run_of (lease_run 90_000_000_200 "t2" 30 (lease_run 200 "t1" 30 waiting))

claimed_again :
    (claim_run free never "t2" 30_000_000_000 3 90_000_000_200 after_one).0 ≡ ok (some again)
unfolding claim_run claim_run_tx lease_next_run lease_run_candidate expire_tool_approvals
    update_calls update_approvals update_runs insert_tool_events insert_run_events transact
    mark_delegation_running insert_run_event duration_seconds
claimed_again = refl

exhausted_never_claimed_example : (again.id == "r0") ≡ false
exhausted_never_claimed_example =
    exhausted_never_claimed 3 "r0" both (next here free never "t1" 30_000_000_000 200)
      (record { spent = λ e. refl }, (record { spent = λ e. absurd cc }, tt)) free never "t2"
      30_000_000_000 90_000_000_200 again claimed_again
