-- ===== src/Action/Sound/World.antt =====
-- Every interleaving of the transactions of internal/action, by any number of members and executors.
-- Each transaction is a step of its own, as the executor commits them one by one: a commit that is
-- lost is no step, and after one that is not acknowledged its worker goes on as it likes.
use open_im.Prelude.{ℕ, String, ◌≡◌, Bool, true, Option, none, some, List, ◌∷◌, ◌++◌, any, All}
use open_im.Database.Tx.{Result, ok, err, transact}
use open_im.Action.Tables.{ActionDb, ActionTx}
use open_im.Action.Store.{IntentRequest, Principal, ensure_intent, approve_action}
use open_im.Action.Executor.{
  Execution, expire_leases, claim_execution_tx, fail_execution_tx, mark_unknown_tx,
}
use open_im.Action.Round.{complete_tx, create_ticket_tx, requeue_absent_tx}
use open_im.Action.Sound.{IsSound, has_key}
use open_im.Action.Sound.Asked.{Call, answers}
use open_im.Action.Sound.Calls.{call_of}

-- The tables, the calls of Approve so far, and the executions that were claimed so far.
pub record World : Type 0 where
  pub db : ActionDb
  pub calls : List Call
  pub claims : List Execution

abbrev pub with_claim : Result (Option (Execution × String)) × ActionDb → World → World
with_claim (err e, db) w = record w { db = db }
with_claim (ok none, db) w = record w { db = db }
with_claim (ok (some (x, payload)), db) w = record w { db = db; claims = x ∷ w.claims }

abbrev pub after : {A : Type 0} → ActionTx A → World → World
after m w = record w { db = (transact m w.db).1 }

-- Any transactions, in any order, by anyone, at any times, with any ids and titles. Only a ticket
-- needs an execution that was claimed before, however long ago.
pub data Steps (encode : String → String) (digest_of : String → String → String) (s : World)
    : World → Type 0 where
  here : Steps encode digest_of s s
  ensured :
      {w : World}
      → Steps encode digest_of s w
      → (id : String) (now : ℕ) (request : IntentRequest)
      → Steps encode digest_of s
          (record w { db = (ensure_intent encode digest_of id now request w.db).1 })
  approved_by :
      {w : World}
      → Steps encode digest_of s w
      → (approval_id execution_id : String) (now : ℕ) (p : Principal) (intent_id digest : String)
      → Steps encode digest_of s (record w {
        db = (approve_action approval_id execution_id now p intent_id digest w.db).1;
        calls = call_of p intent_id digest ∷ w.calls;
      })
  expired :
      {w : World}
      → Steps encode digest_of s w
      → (now : ℕ) → Steps encode digest_of s (after (expire_leases now) w)
  claimed :
      {w : World}
      → Steps encode digest_of s w
      → (locked : String → Bool) (limit lease now : ℕ) (token : String)
      → Steps encode digest_of s
          (with_claim (transact (claim_execution_tx locked limit lease now token) w.db) w)
  created :
      {w : World}
      → Steps encode digest_of s w
      → (x : Execution) (later sooner : List Execution) → w.claims ≡ later ++ x ∷ sooner
      → (ticket_id title : String)
      → Steps encode digest_of s (after (create_ticket_tx ticket_id (record x { title = title })) w)
  completed :
      {w : World}
      → Steps encode digest_of s w
      → (now : ℕ) (x : Execution) (ticket_id : String)
      → Steps encode digest_of s (after (complete_tx now x ticket_id) w)
  failed :
      {w : World}
      → Steps encode digest_of s w
      → (now : ℕ) (x : Execution) (terminal : Bool) (failure : String)
      → Steps encode digest_of s (after (fail_execution_tx now x terminal failure) w)
  marked_unknown :
      {w : World}
      → Steps encode digest_of s w
      → (now : ℕ) (x : Execution) (message : String)
      → Steps encode digest_of s (after (mark_unknown_tx now x message) w)
  requeued :
      {w : World}
      → Steps encode digest_of s w
      → (now : ℕ) (x : Execution) → Steps encode digest_of s (after (requeue_absent_tx now x) w)

-- The tables are sound, each approval is that of a call, and each claim is of an execution.
pub record IsSoundWorld (w : World) : Type 0 where
  pub sound : IsSound w.db
  pub asked : All (λ a. any (answers a) w.calls ≡ true) w.db.approvals
  pub made : All (λ x. any (has_key x.idempotency_key) w.db.executions ≡ true) w.claims
