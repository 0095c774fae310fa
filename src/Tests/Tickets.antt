-- ===== src/Tests/Tickets.antt =====
-- The theorems on actions at a ticket that a Run proposes, and whose commit is not acknowledged.
use open_im.Prelude.{String, ◌≡◌, refl, Bool, false, none, some, [], ◌∷◌, ◌++◌, append}
use open_im.Database.{RunState}
use open_im.Database.Tx.{Result, ok, transact}
use open_im.Action.Tables.{ActionDb, ExecutionRow, ExecutionState, TicketRow}
use open_im.Action.Store.{IntentRequest, Principal, ensure_intent, approve_action}
use open_im.Action.Executor.{Execution, claim_execution_tx, mark_unknown_tx}
use open_im.Action.Round.{execute_action, reconcile, run_action_round, create_ticket_tx}
use open_im.Action.Completion.{
  Ends, IsTicketOf, no_faults, unheard, claimed_again, execute_completes, reconcile_completes,
}
use open_im.Action.Sound.World.{
  World, with_claim, after, Steps, here, ensured, approved_by, claimed, created, marked_unknown,
  IsSoundWorld,
}
use open_im.Action.Sound.Steps.{Steps-IsSound}
use open_im.Tests.Data.{run_of_state}

abbrev nothing : ActionDb
nothing = record {
  intents = [];
  approvals = [];
  executions = [];
  tickets = [];
  events = [];
  runs = run_of_state "r1" RunState.waiting_approval none ∷ [];
}

abbrev encode : String → String
encode title = title

abbrev digest_of : String → String → String
digest_of type payload = append type payload

abbrev decode : String → Result String
decode payload = ok payload

abbrev free : String → Bool
free _ = false

abbrev request : IntentRequest
request = record {
  run_id = "r1";
  tenant_id = "tenant";
  member_id = "member";
  action_type = "create_ticket";
  title = " printer ";
}

abbrev member : Principal
member = record { tenant_id = "tenant"; member_id = "member" }

abbrev proposed : ActionDb
proposed = (ensure_intent encode digest_of "i1" 100 request nothing).1

abbrev approved : ActionDb
approved = (approve_action "a1" "e1" 200 member "i1" "create_ticketprinter" proposed).1

-- The first worker's claim, its ticket, and its doubt of the commit.
abbrev uncertain : ActionDb
uncertain = (run_action_round free decode "t1" "w1" 3 30_000_000_000 300 unheard approved).1

abbrev start : World
start = record { db = nothing; calls = []; claims = [] }

abbrev asked_world : World
asked_world = record start {
  db = approved;
  calls = record { caller = member; intent_id = "i1"; digest = "create_ticketprinter" } ∷ [];
}

asked_steps : Steps encode digest_of start asked_world
asked_steps =
    approved_by (ensured here "i1" 100 request) "a1" "e1" 200 member "i1" "create_ticketprinter"

abbrev claimed_world : World
claimed_world =
    with_claim (transact (claim_execution_tx free 3 30_000_000_000 300 "w1") asked_world.db)
      asked_world

abbrev execution : Execution
execution = record {
  id = "e1";
  intent_id = "i1";
  run_id = "r1";
  tenant_id = "tenant";
  member_id = "member";
  idempotency_key = "intent:i1";
  lease_token = "w1";
  title = "printer";
  prior_state = ExecutionState.queued;
  attempts = 1;
}

its_claim : claimed_world.claims ≡ record execution { title = "" } ∷ []
unfolding ensure_intent approve_action claim_execution_tx
its_claim = refl

Steps-IsSound_example : IsSoundWorld (
    after
      (mark_unknown_tx 300 execution "ticket commit outcome is unknown")
      (after (create_ticket_tx "t1" execution) claimed_world))
Steps-IsSound_example =
    Steps-IsSound encode digest_of {s = start}
      (marked_unknown
        (created (claimed asked_steps free 3 30_000_000_000 300 "w1")
          (record execution { title = "" }) [] [] its_claim "t1" "printer")
        300 execution "ticket commit outcome is unknown")
      (record {
        sound = record { requested = tt; allowed = tt; keyed = tt; made = tt; once = tt };
        asked = tt;
        made = tt;
      })

abbrev row : ExecutionRow
row = record {
  id = "e1";
  intent_id = "i1";
  tenant_id = "tenant";
  idempotency_key = "intent:i1";
  state = ExecutionState.running;
  attempts = 1;
  available_at = 200;
  lease_token = some "w1";
  lease_until = some 30_000_000;
  ticket_id = none;
  receipt = none;
  last_error = none;
  created_at = 200;
  updated_at = 300;
  completed_at = none;
}

abbrev running : ActionDb
running = record nothing { executions = row ∷ [] }

execute_completes_example :
    (t : TicketRow) × IsTicketOf execution "t1" t
    × Ends execution "t1" (t ∷ []) running (execute_action "t1" 300 3 no_faults execution running)
execute_completes_example = execute_completes 300 3 "t1" execution running refl refl refl refl

-- The second worker, after the first one's lease on the execution has run out.
abbrev running_again : ActionDb
running_again = record running {
  executions = record row { lease_token = some "w2"; attempts = 2 } ∷ [];
  tickets = (execute_action "t1" 300 3 unheard execution running).1.tickets ++ [];
}

reconcile_completes_example :
    Ends
      (claimed_again "w2" ExecutionState.unknown 2 execution)
      "t1"
      running_again.tickets
      running_again
      (reconcile 400 3 no_faults
        (claimed_again "w2" ExecutionState.unknown 2 execution)
        running_again)
reconcile_completes_example =
    reconcile_completes 300 3 "t1" execution running refl refl refl 400 "w2" ExecutionState.unknown
      2 [] running_again refl refl
