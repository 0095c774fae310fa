-- ===== src/Agent/Worker/Round.antt =====
-- internal/agent/worker.go, runOnce.
use open_im.Prelude.{Option, none, some, [], if◌then◌else◌, ◌==◌}
use open_im.Database.Tx.{Result, ok, err}
use open_im.Agent.Run.{Run}
use open_im.Agent.Catalog.{Snapshot, AgentSpec, validate_execution}
use open_im.Agent.Worker.{Loaded, version, invalid_catalog, Act, done, broken, or_else, Worker}
use open_im.Agent.Worker.Phases.{
  policy_candidate, route_run, answer_generally, propose_ticket, use_tool, answer_knowledge,
  deliver_reply,
}

module _ {S : Type 0} (w : Worker S) where
  -- `run.CandidateText == ""`
  unfoldable pub answer_run : Run → AgentSpec → Snapshot → Act S (Unit {0})
  unfolding answer_generally propose_ticket use_tool answer_knowledge
  answer_run run spec snapshot =
      if run.route_status == "clarify"
      then w.save_candidate run
          (policy_candidate run "route-clarification:" run.route_clarification) []
      else if run.route_status == "no_tool"
      then answer_generally w run spec
      else if run.route_operation_id == "collaboration.ticket.create"
      then propose_ticket w run spec
      else if run.route_operation_id == "enterprise.knowledge.search"
      then answer_knowledge w run spec snapshot
      else use_tool w run spec snapshot

  -- The phase that the claimed Run is in.
  unfoldable pub advance_run : Run → AgentSpec → Snapshot → Act S (Unit {0})
  unfolding route_run answer_run deliver_reply
  advance_run run spec snapshot =
      if run.route_status == ""
      then route_run w run snapshot
      else if run.candidate_text == ""
      then answer_run run spec snapshot
      else deliver_reply w run

  abbrev pub with_version : Run → Loaded → Act S (Unit {0})
  with_version run (invalid_catalog e) = w.fail run e
  with_version run (version spec) =
      or_else (w.load_capability_snapshot run) (λ e. w.fail run e)
        λ snapshot. advance_run run spec snapshot

  abbrev pub bound : Run → Result (Unit {0}) → Act S (Unit {0})
  bound run (err e) = w.fail run e
  bound run (ok _) = or_else (w.load_catalog_version run) broken (with_version run)

  -- After the claim: BindExecutionContext, LoadCatalogVersion, LoadCapabilitySnapshot.
  unfoldable pub run_claimed : Run → Act S (Unit {0})
  unfolding advance_run
  run_claimed run = bound run (validate_execution run)

  abbrev claimed : Option Run → Act S (Unit {0})
  claimed none = done tt
  claimed (some run) = run_claimed run

  -- runOnce
  unfoldable pub run_once : Act S (Unit {0})
  unfolding run_claimed
  run_once = or_else (w.claim w.lease w.max_attempts) broken claimed
