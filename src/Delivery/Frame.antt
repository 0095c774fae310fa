-- ===== src/Delivery/Frame.antt =====
-- What the later statements of a settlement keep of agent.runs and of the lanes.
use open_im.Prelude.{ℕ, String, List}
use open_im.Database.{RunRow, LaneRow, Evidence}
use open_im.Database.Tx.Frame.{Keeps, OnRuns, OnLanes, runs_rules, lanes_rules}
use open_im.Delivery.Statements.{
  Record, insert_run_lifecycle, advance_lane_for_run, insert_audit, complete_delegation_for_run,
}
use open_im.Delivery.Marks.{Verdict, fail_delegation_for_run}

module _ {Q : List RunRow → Type 0} where
  pub OnRuns-insert_run_lifecycle :
      (run_id event_type : String) (evidence : Evidence)
      → Keeps (OnRuns Q) (insert_run_lifecycle run_id event_type evidence)
  unfolding insert_run_lifecycle
  OnRuns-insert_run_lifecycle run_id event_type evidence = search runs_rules depth 9

  pub OnRuns-advance_lane_for_run :
      (now : ℕ) (run_id : String) → Keeps (OnRuns Q) (advance_lane_for_run now run_id)
  unfolding advance_lane_for_run
  OnRuns-advance_lane_for_run now run_id = search runs_rules depth 9

  pub OnRuns-insert_audit :
      (r : Record) (event_type failure : String)
      → Keeps (OnRuns Q) (insert_audit r event_type failure)
  unfolding insert_audit
  OnRuns-insert_audit r event_type failure = search runs_rules depth 9

  pub OnRuns-complete_delegation_for_run :
      (sha256_hex : String → String) (now : ℕ) (r : Record) (external : String)
      → Keeps (OnRuns Q) (complete_delegation_for_run sha256_hex now r external)
  unfolding complete_delegation_for_run
  OnRuns-complete_delegation_for_run sha256_hex now r external = search runs_rules depth 9

  pub OnRuns-fail_delegation_for_run :
      (now : ℕ) (r : Record) (verdict : Verdict) (failure : String)
      → Keeps (OnRuns Q) (fail_delegation_for_run now r verdict failure)
  unfolding fail_delegation_for_run
  OnRuns-fail_delegation_for_run now r verdict failure = search runs_rules depth 9

module _ {Q : List LaneRow → Type 0} where
  pub OnLanes-insert_run_lifecycle :
      (run_id event_type : String) (evidence : Evidence)
      → Keeps (OnLanes Q) (insert_run_lifecycle run_id event_type evidence)
  unfolding insert_run_lifecycle
  OnLanes-insert_run_lifecycle run_id event_type evidence = search lanes_rules depth 9

  pub OnLanes-insert_audit :
      (r : Record) (event_type failure : String)
      → Keeps (OnLanes Q) (insert_audit r event_type failure)
  unfolding insert_audit
  OnLanes-insert_audit r event_type failure = search lanes_rules depth 9

  pub OnLanes-complete_delegation_for_run :
      (sha256_hex : String → String) (now : ℕ) (r : Record) (external : String)
      → Keeps (OnLanes Q) (complete_delegation_for_run sha256_hex now r external)
  unfolding complete_delegation_for_run
  OnLanes-complete_delegation_for_run sha256_hex now r external = search lanes_rules depth 9

  pub OnLanes-fail_delegation_for_run :
      (now : ℕ) (r : Record) (verdict : Verdict) (failure : String)
      → Keeps (OnLanes Q) (fail_delegation_for_run now r verdict failure)
  unfolding fail_delegation_for_run
  OnLanes-fail_delegation_for_run now r verdict failure = search lanes_rules depth 9

pub ruleset settled_runs_rules = (
  runs_rules, OnRuns-insert_run_lifecycle, OnRuns-advance_lane_for_run, OnRuns-insert_audit,
  OnRuns-complete_delegation_for_run, OnRuns-fail_delegation_for_run,
)

pub ruleset settled_lanes_rules = (
  lanes_rules, OnLanes-insert_run_lifecycle, OnLanes-insert_audit,
  OnLanes-complete_delegation_for_run, OnLanes-fail_delegation_for_run,
)
