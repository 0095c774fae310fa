-- ===== src/Action/Completion.antt =====
-- A round of internal/action/executor.go that nothing disturbs finishes its execution.
use open_im.Prelude.{
  ℕ, String, ◌≡◌, refl, ◌∙◌, true, false, ◌||◌, none, some, [], ◌∷◌, ◌++◌, any, count_where,
  update_where, update_where-Changed, find-append, List, find-append_new, eqb, ltb, rune_count,
  ◌==◌, eq_iff, ◌&&◌,
}
use open_im.Database.Tx.{Result, ok, pure, query, require_one, transact}
use open_im.Database.Tx.Results.{bind-of-ok}
use open_im.Action.Tables.{
  IntentState, ExecutionState, TicketRow, ActionDb, update_intents, update_executions,
  update_action_runs, insert_ticket, insert_action_event,
}
use open_im.Action.Store.{set_intent}
use open_im.Action.Outcomes.{
  Completes, succeed_row-Succeeds, set_intent-IsDone, succeed_run-IsFinished,
}
use open_im.Action.Executor.{
  Execution, acknowledged, applied, Faults, holds_execution, mark_unknown_tx,
}
use open_im.Action.Round.{
  complete_tx, complete_with, succeed_row, succeed_run, receipt_of, is_waiting_run, is_its_ticket,
  verify_and_complete, new_ticket, ticket_by_id, ticket_by_key, found_ticket, create_ticket_tx,
  after_ticket, execute_action, reconcile, reconcile_with, mark_unknown,
}

-- The execution, its intent and its Run have succeeded with the ticket.
abbrev completed : ℕ → Execution → String → ActionDb → ActionDb
completed now x ticket_id db = record db {
  executions = update_where (holds_execution x) (succeed_row now ticket_id) db.executions;
  intents =
      update_where (λ i. i.id == x.intent_id) (set_intent IntentState.succeeded now) db.intents;
  runs =
      update_where (λ run. run.id == x.run_id && is_waiting_run run.state) (succeed_run now)
        db.runs;
  events =
      db.events
      ++ record {
        tenant_id = x.tenant_id;
        intent_id = x.intent_id;
        execution_id = x.id;
        actor_member_id = none;
        event_type = "action.succeeded";
        evidence = receipt_of ticket_id;
      }
        ∷ [];
}

abbrev pub no_faults : Faults
no_faults = record { commit = acknowledged; lookup_fails = false; readback_fails = false }

completed-Completes :
    (now : ℕ) (x : Execution) (id : String) (db : ActionDb)
    → Completes x id db (completed now x id db)
completed-Completes now x id db = record {
  execution =
      update_where-Changed (succeed_row now id) db.executions (succeed_row-Succeeds x now id);
  intent =
      update_where-Changed (set_intent IntentState.succeeded now) db.intents
        (λ i _. set_intent-IsDone now i);
  run = update_where-Changed (succeed_run now) db.runs (succeed_run-IsFinished now x.run_id);
  approvals = refl;
}

module _ (now limit : ℕ) (x : Execution) (db : ActionDb)
    (held : count_where (holds_execution x) db.executions ≡ 1) where
  complete_tx-eq : (id : String) → complete_tx now x id db ≡ ok (tt, completed now x id db)
  unfolding complete_tx update_executions update_intents update_action_runs insert_action_event
      require_one pure
  complete_tx-eq id = rw held refl

  verify-eq :
      (t : TicketRow)
      → ticket_by_id t.id db ≡ some t
      → is_its_ticket x t ≡ true
      → verify_and_complete now limit no_faults x t.id db ≡ (ok tt, completed now x t.id db)
  unfolding verify_and_complete complete_with transact
  verify-eq t found its = rw (found, its, complete_tx-eq t.id) refl

its_new_ticket : (id : String) (x : Execution) → is_its_ticket x (new_ticket id x) ≡ true
its_new_ticket id x =
    rw
      (
        (eq_iff x.tenant_id x.tenant_id).1 refl,
        (eq_iff x.member_id x.member_id).1 refl,
        (eq_iff x.title x.title).1 refl,
        (eq_iff x.idempotency_key x.idempotency_key).1 refl,
      )
      refl

-- The end of a round: it has succeeded, the execution is completed with the ticket, and the tickets
-- are those that are given.
abbrev pub Ends :
    Execution → String → List TicketRow → ActionDb → Result (Unit {0}) × ActionDb → Type 0
Ends x id tickets s r = (r.0 ≡ ok tt) × Completes x id s r.1 × (r.1.tickets ≡ tickets)

-- The row that an execution's ticket has.
pub record IsTicketOf (x : Execution) (id : String) (t : TicketRow) : Type 0 where
  pub its_id : t.id ≡ id
  pub tenant : t.tenant_id ≡ x.tenant_id
  pub maker : t.created_by ≡ x.member_id
  pub title : t.title ≡ x.title
  pub is_open : t.is_open ≡ true
  pub key : t.idempotency_key ≡ x.idempotency_key

new_ticket-IsTicketOf : (id : String) (x : Execution) → IsTicketOf x id (new_ticket id x)
new_ticket-IsTicketOf id x = record {
  its_id = refl;
  tenant = refl;
  maker = refl;
  title = refl;
  is_open = refl;
  key = refl;
}

-- The same execution as a later worker claims it.
abbrev pub claimed_again : String → ExecutionState → ℕ → Execution → Execution
claimed_again token prior attempts x = record x {
  lease_token = token;
  prior_state = prior;
  attempts = attempts;
}

-- The ticket's commit is applied, but the worker hears nothing of it.
abbrev pub unheard : Faults
unheard = record { commit = applied; lookup_fails = false; readback_fails = false }

module _ (now limit : ℕ) (id : String) (x : Execution) (db : ActionDb)
    (title : (eqb (rune_count x.title) 0 || ltb 200 (rune_count x.title)) ≡ false)
    (absent : any (λ (t : TicketRow). t.idempotency_key == x.idempotency_key) db.tickets ≡ false)
    (fresh : any (λ (t : TicketRow). t.id == id) db.tickets ≡ false) where
  abbrev with_ticket : ActionDb
  with_ticket = record db { tickets = db.tickets ++ new_ticket id x ∷ [] }

  insert_ticket-eq : insert_ticket (new_ticket id x) db ≡ ok (tt, with_ticket)
  unfolding insert_ticket
  insert_ticket-eq = rw (title, absent, fresh) refl

  found_by_key : ticket_by_key x.idempotency_key with_ticket ≡ some (new_ticket id x)
  found_by_key =
      find-append_new (λ (t : TicketRow). t.idempotency_key == x.idempotency_key) db.tickets
        (new_ticket id x) absent ((eq_iff x.idempotency_key x.idempotency_key).1 refl)

  found_by_id : ticket_by_id id with_ticket ≡ some (new_ticket id x)
  found_by_id =
      find-append_new (λ (t : TicketRow). t.id == id) db.tickets (new_ticket id x) fresh
        ((eq_iff id id).1 refl)

  create_ticket_tx-eq : create_ticket_tx id x db ≡ ok (id, with_ticket)
  unfolding create_ticket_tx query found_ticket pure
  create_ticket_tx-eq =
      bind-of-ok (insert_ticket (new_ticket id x)) _ db insert_ticket-eq ∙ rw found_by_key refl

  -- A first round without faults, for the one execution that is held under the worker's token, with a
  -- title that the table takes and an id and a key that no ticket has: it succeeds and adds exactly
  -- one ticket, the execution's; the execution becomes succeeded with the ticket's id and without
  -- its lease, and its intent, and its Run if that waits for the approval, become succeeded.
  pub execute_completes :
      count_where (holds_execution x) db.executions ≡ 1
      → (t : TicketRow) × IsTicketOf x id t
        × Ends x id (db.tickets ++ t ∷ []) db (execute_action id now limit no_faults x db)
  unfolding execute_action after_ticket
  execute_completes held =
      let done : execute_action id now limit no_faults x db
          ≡ (ok tt, completed now x id with_ticket) =
        rw create_ticket_tx-eq (
          verify-eq now limit x with_ticket held (new_ticket id x) found_by_id
            (its_new_ticket id x)) in
      let change = completed-Completes now x id with_ticket in
      (
        new_ticket id x,
        new_ticket-IsTicketOf id x,
        rw done (
          refl,
          record {
            execution = change.execution;
            intent = change.intent;
            run = change.run;
            approvals = change.approvals;
          },
          refl,
        ),
      )

  unheard-tickets :
      (execute_action id now limit unheard x db).1.tickets ≡ db.tickets ++ new_ticket id x ∷ []
  unfolding execute_action after_ticket mark_unknown mark_unknown_tx update_executions transact pure
  unheard-tickets = rw create_ticket_tx-eq refl

  -- Suppose a worker's first round adds the execution's ticket, but the commit is not acknowledged;
  -- and a later worker, in a database that has the same tickets and possibly others after them,
  -- holds the execution under its own token. Then that worker's reconciliation, if its reads do not
  -- fail, finds the first ticket and succeeds: no ticket is added, the execution becomes succeeded with the first ticket's
  -- id, and its intent, and its Run if that waits for the approval, become succeeded.
  pub reconcile_completes :
      (later : ℕ) (token : String) (prior : ExecutionState) (attempts : ℕ) (others : List TicketRow)
      (s : ActionDb)
      → s.tickets ≡ (execute_action id now limit unheard x db).1.tickets ++ others
      → count_where (holds_execution (claimed_again token prior attempts x)) s.executions ≡ 1
      → Ends
          (claimed_again token prior attempts x)
          id
          s.tickets
          s
          (reconcile later limit no_faults (claimed_again token prior attempts x) s)
  unfolding reconcile reconcile_with
  reconcile_completes later token prior attempts others s same held =
      let y = claimed_again token prior attempts x in
      let all : s.tickets ≡ (db.tickets ++ new_ticket id x ∷ []) ++ others =
        rw unheard-tickets at same in
      let keyed : ticket_by_key y.idempotency_key s ≡ some (new_ticket id x) =
        rw all (find-append _ with_ticket.tickets others found_by_key) in
      let found : ticket_by_id id s ≡ some (new_ticket id x) =
        rw all (find-append _ with_ticket.tickets others found_by_id) in
      rw (keyed, verify-eq later limit y s held (new_ticket id x) found (its_new_ticket id x))
        (refl, completed-Completes later y id s, refl)
