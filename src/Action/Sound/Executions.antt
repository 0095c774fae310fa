-- ===== src/Action/Sound/Executions.antt =====
-- The transactions of internal/action/executor.go under the invariant and the approvals.
use open_im.Prelude.{
  Bool, true, false, List, ℕ, String, ◌||◌, Option, none, some, any, Bool-cases, inl, inr, eqb, ltb,
  rune_count, ◌==◌,
}
use open_im.Database.Tx.Frame.{Keeps, After}
use open_im.Action.Tables.{TicketRow, ActionDb, insert_ticket, ExecutionRow, IntentRow}
use open_im.Action.Executor.{Execution, fail_execution_tx, mark_unknown_tx}
use open_im.Action.Round.{
  complete_tx, new_ticket, found_ticket, create_ticket_tx, requeue_absent_tx,
}
use open_im.Action.Sound.{IsSoundFor, IsSound-ticket}
use open_im.Action.Sound.Statements.{
  KeepsKeys-lose_lease, KeepsKeys-lease_execution, KeepsKeys-succeed_row, KeepsKeys-failed_row,
  KeepsKeys-unknown_row, KeepsKeys-requeue_absent, action_rules,
}
use open_im.Action.Sound.Asked.{IsAsked, Call, asked_rules}
use open_im.Action.Executor.{end_failed, expire_leases, claim_execution_tx, lease_ready}

keep_ticket :
    (id : String) (x : Execution)
    → Keeps (IsSoundFor (some x.idempotency_key)) (insert_ticket (new_ticket id x))
unfolding insert_ticket
keep_ticket id x = record { at = λ db h. kept db h }
  where
    kept :
        (db : ActionDb)
        → IsSoundFor (some x.idempotency_key) db
        → After (IsSoundFor (some x.idempotency_key)) (insert_ticket (new_ticket id x) db)
    kept db h = elim (Bool-cases (eqb (rune_count x.title) 0 || ltb 200 (rune_count x.title))) [
      | inl e ↦ rw e tt
      | inr e ↦
          elim (Bool-cases
            (any (λ (t : TicketRow). t.idempotency_key == x.idempotency_key) db.tickets)) [
              | inl old ↦ rw (e, old) h
              | inr new ↦ elim (Bool-cases (any (λ (t : TicketRow). t.id == id) db.tickets)) [
                | inl taken ↦ rw (e, new, taken) tt
                | inr free ↦
                    rw (e, new, free)
                      (record {
                        sound = IsSound-ticket (new_ticket id x) db new h.there h.sound;
                        there = h.there;
                      })
              ]
            ]
    ]

keep_found : (key : Option String) (o : Option TicketRow) → Keeps (IsSoundFor key) (found_ticket o)
unfolding found_ticket
keep_found key none = search action_rules depth 4
keep_found key (some t) = search action_rules depth 4

pub keep_create :
    (id : String) (x : Execution)
    → Keeps (IsSoundFor (some x.idempotency_key)) (create_ticket_tx id x)
unfolding create_ticket_tx
keep_create id x = search (action_rules, keep_ticket, keep_found) depth 9

pub sound_expire : {key : Option String} (now : ℕ) → Keeps (IsSoundFor key) (expire_leases now)
unfolding expire_leases
sound_expire now = search action_rules depth 5

module _ {calls : List Call} {key : Option String} (now : ℕ) where
  pub IsAsked-expire : Keeps (IsAsked calls key) (expire_leases now)
  unfolding expire_leases
  IsAsked-expire = search (asked_rules, KeepsKeys-lose_lease) depth 5

  IsAsked-lease :
      (token : String) (seconds : ℕ) (e : Option ExecutionRow) (i : Option IntentRow)
      → Keeps (IsAsked calls key) (lease_ready now token seconds e i)
  unfolding lease_ready
  IsAsked-lease token seconds none i = search asked_rules depth 5
  IsAsked-lease token seconds (some e) none = search asked_rules depth 5
  IsAsked-lease token seconds (some e) (some i) =
      search (asked_rules, KeepsKeys-lease_execution) depth 5

  pub IsAsked-claim :
      (locked : String → Bool) (limit lease : ℕ) (token : String)
      → Keeps (IsAsked calls key) (claim_execution_tx locked limit lease now token)
  unfolding claim_execution_tx
  IsAsked-claim locked limit lease token = search (asked_rules, IsAsked-lease) depth 9

  pub IsAsked-complete :
      (x : Execution) (ticket_id : String) → Keeps (IsAsked calls key) (complete_tx now x ticket_id)
  unfolding complete_tx
  IsAsked-complete x ticket_id = search (asked_rules, KeepsKeys-succeed_row) depth 12

  IsAsked-end :
      (x : Execution) (terminal : Bool) (failure : String)
      → Keeps (IsAsked calls key) (end_failed now x terminal failure)
  unfolding end_failed
  IsAsked-end x true failure = search asked_rules depth 9
  IsAsked-end x false failure = search asked_rules depth 9

  pub IsAsked-fail :
      (x : Execution) (terminal : Bool) (failure : String)
      → Keeps (IsAsked calls key) (fail_execution_tx now x terminal failure)
  unfolding fail_execution_tx
  IsAsked-fail x terminal failure = search (asked_rules, IsAsked-end, KeepsKeys-failed_row) depth 9

  pub IsAsked-unknown :
      (x : Execution) (message : String) → Keeps (IsAsked calls key) (mark_unknown_tx now x message)
  unfolding mark_unknown_tx
  IsAsked-unknown x message = search (asked_rules, KeepsKeys-unknown_row) depth 9

  pub IsAsked-requeue : (x : Execution) → Keeps (IsAsked calls key) (requeue_absent_tx now x)
  unfolding requeue_absent_tx
  IsAsked-requeue x = search (asked_rules, KeepsKeys-requeue_absent) depth 9

IsAsked-found :
    {calls : List Call} {key : Option String} (o : Option TicketRow)
    → Keeps (IsAsked calls key) (found_ticket o)
unfolding found_ticket
IsAsked-found none = search asked_rules depth 4
IsAsked-found (some t) = search asked_rules depth 4

pub IsAsked-create :
    {calls : List Call} {key : Option String} (id : String) (x : Execution)
    → Keeps (IsAsked calls key) (create_ticket_tx id x)
unfolding create_ticket_tx
IsAsked-create id x = search (asked_rules, IsAsked-found) depth 9
