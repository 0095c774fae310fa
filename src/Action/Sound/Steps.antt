-- ===== src/Action/Sound/Steps.antt =====
-- The invariant of internal/action under the steps of Action.Sound.World.
use open_im.Prelude.{
  ℕ, String, ◌≡◌, refl, Bool, true, Option, none, some, List, [], ◌∷◌, ◌++◌, any, All, All-map,
  All-any, All-select_where, All-first_by, first_by, select_where, ◌==◌, eq_iff,
}
use open_im.Database.Tx.{Result, ok, err, transact, pure, query}
use open_im.Database.Tx.Frame.{Keeps, Keeps-transact}
use open_im.Delivery.Statements.{duration_seconds}
use open_im.Action.Tables.{IntentRow, ExecutionRow, ActionDb, ActionTx, update_executions}
use open_im.Action.Store.{ensure_intent, approve_action}
use open_im.Action.Executor.{
  Execution, expire_leases, lease_execution, intent_of, is_ready, execution_before,
  claim_execution_tx, lease_ready, fail_execution_tx, mark_unknown_tx,
}
use open_im.Action.Round.{complete_tx, create_ticket_tx, requeue_absent_tx}
use open_im.Action.Sound.{IsSound, IsSoundFor, has_key}
use open_im.Action.Sound.Statements.{
  keep_executions, KeepsKeys-lease_execution, keep_fail_tx, keep_mark_unknown_tx, keep_complete_tx,
  keep_requeue_tx,
}
use open_im.Action.Sound.Requests.{ensure-IsSound, approve-IsSound}
use open_im.Action.Sound.Asked.{Call, IsAsked}
use open_im.Action.Sound.Calls.{ensure-IsAsked, approve-IsAsked, call_of}
use open_im.Action.Sound.Executions.{
  sound_expire, keep_create, IsAsked-expire, IsAsked-claim, IsAsked-complete, IsAsked-fail,
  IsAsked-unknown, IsAsked-requeue, IsAsked-create,
}
use open_im.Action.Sound.World.{
  World, with_claim, after, Steps, here, ensured, approved_by, expired, claimed, created, completed,
  failed, marked_unknown, requeued, IsSoundWorld,
}

-- What a claim leaves.
abbrev Claimed : Result (Option (Execution × String)) × ActionDb → Type 0
Claimed (err e, db) = IsSound db
Claimed (ok none, db) = IsSound db
Claimed (ok (some (x, payload)), db) = IsSoundFor (some x.idempotency_key) db

module _ (locked : String → Bool) (limit now : ℕ) (token : String) (seconds : ℕ) (db : ActionDb)
    (h : IsSound db) where
  lease_ready-IsSound :
      (o : Option ExecutionRow) (i : Option IntentRow)
      → first_by execution_before (select_where (is_ready locked limit now) db.executions) ≡ o
      → Claimed (transact (lease_ready now token seconds o i) db)
  unfolding lease_ready transact update_executions pure
  lease_ready-IsSound none i chosen = h
  lease_ready-IsSound (some e) none chosen = h
  lease_ready-IsSound (some e) (some i) chosen =
      let there =
        All-first_by (λ x. any (has_key x.idempotency_key) db.executions ≡ true) execution_before _
          (All-select_where (λ x. any (has_key x.idempotency_key) db.executions ≡ true)
            (is_ready locked limit now) db.executions
            (All-any (λ x. has_key x.idempotency_key) db.executions
              (λ x. (eq_iff x.idempotency_key x.idempotency_key).1 refl)))
          chosen in
      (keep_executions (λ row. row.id == e.id) (lease_execution now token seconds)
          (KeepsKeys-lease_execution now token seconds)).at
        db (record { sound = h; there = there })

IsSoundWorld-change :
    (w : World) (db : ActionDb) (calls : List Call)
    → (IsSound w.db → IsSound db)
    → ((key : Option String) → IsAsked w.calls key w.db → IsAsked calls key db)
    → IsSoundWorld w
    → IsSoundWorld (record w { db = db; calls = calls })
IsSoundWorld-change w db calls sound asked h = record {
  sound = sound h.sound;
  asked = (asked none (record { asked = h.asked; there = tt })).asked;
  made =
      All-map (λ x. any (has_key x.idempotency_key) w.db.executions ≡ true)
        (λ x. any (has_key x.idempotency_key) db.executions ≡ true) w.claims
        (λ x k. (asked (some x.idempotency_key) (record { asked = h.asked; there = k })).there)
        h.made;
}

IsSoundWorld-after :
    {A : Type 0} (m : ActionTx A) (w : World)
    → Keeps (IsSoundFor none) m
    → ((key : Option String) → Keeps (IsAsked w.calls key) m)
    → IsSoundWorld w
    → IsSoundWorld (after m w)
IsSoundWorld-after m w sound asked h =
    IsSoundWorld-change w (transact m w.db).1 w.calls
      (λ s. (Keeps-transact m w.db sound (record { sound = s; there = tt })).sound)
      (λ key k. Keeps-transact m w.db (asked key) k) h

with_claim-IsSoundWorld :
    (w : World) (r : Result (Option (Execution × String)) × ActionDb)
    → Claimed r
    → ((key : Option String) → IsAsked w.calls key w.db → IsAsked w.calls key r.1)
    → IsSoundWorld w
    → IsSoundWorld (with_claim r w)
with_claim-IsSoundWorld w (err e, db) c asked h = IsSoundWorld-change w db w.calls (λ _. c) asked h
with_claim-IsSoundWorld w (ok none, db) c asked h =
    IsSoundWorld-change w db w.calls (λ _. c) asked h
with_claim-IsSoundWorld w (ok (some (x, payload)), db) c asked h =
    let kept = IsSoundWorld-change w db w.calls (λ _. c.sound) asked h in
    record { sound = kept.sound; asked = kept.asked; made = (c.there, kept.made) }

-- The claim of an execution that is in the table.
claim-Claimed :
    (locked : String → Bool) (limit lease now : ℕ) (token : String) (db : ActionDb)
    → IsSound db
    → Claimed (transact (claim_execution_tx locked limit lease now token) db)
unfolding claim_execution_tx query transact
claim-Claimed locked limit lease now token db h =
    let e = first_by execution_before (select_where (is_ready locked limit now) db.executions) in
    lease_ready-IsSound locked limit now token (duration_seconds lease) db h e
      (intent_of db.intents e) refl

All-middle :
    {A : Type 0} (P : A → Type 0) (xs : List A) (x : A) (ys : List A) → All P (xs ++ x ∷ ys) → P x
All-middle P [] x ys (h, _) = h
All-middle P (_ ∷ xs) x ys (_, h) = All-middle P xs x ys h

created-IsSoundWorld :
    (w : World) (x : Execution) (later sooner : List Execution) (ticket_id title : String)
    → w.claims ≡ later ++ x ∷ sooner
    → IsSoundWorld w
    → IsSoundWorld (after (create_ticket_tx ticket_id (record x { title = title })) w)
created-IsSoundWorld w x later sooner ticket_id title among h =
    let y : Execution = record x { title = title } in
    let m = create_ticket_tx ticket_id y in
    let known : any (has_key x.idempotency_key) w.db.executions ≡ true =
      All-middle (λ x. any (has_key x.idempotency_key) w.db.executions ≡ true) later x sooner
        (rw among at h.made) in
    IsSoundWorld-change w (transact m w.db).1 w.calls
      (λ s.
        (Keeps-transact m w.db (keep_create ticket_id y)
          (record { sound = s; there = known })).sound)
      (λ key k. Keeps-transact m w.db (IsAsked-create ticket_id y) k) h

-- From sound tables every interleaving of EnsureIntent, Approve and the transactions of the
-- executors leads to sound tables, though a commit may be lost or unacknowledged and a lease may run
-- out. Each approval is that of a call of Approve by a member: of the caller's tenant, in the
-- caller's name, and for the call's intent and digest, which are the id and the digest of an intent
-- that the caller requested. Each execution has an approval of its intent; each ticket has an
-- execution with its key; the key is that of the execution's intent; and no two tickets have one
-- key. So there is at most one ticket for an intent, and only after a call of Approve by the member
-- who requested it.
pub Steps-IsSound :
    (encode : String → String) (digest_of : String → String → String) {s w : World}
    → Steps encode digest_of s w
    → IsSoundWorld s
    → IsSoundWorld w
Steps-IsSound encode digest_of here h = h
Steps-IsSound encode digest_of (ensured {w} before id now request) h =
    IsSoundWorld-change w (ensure_intent encode digest_of id now request w.db).1 w.calls
      (ensure-IsSound encode digest_of id now request w.db)
      (λ key. ensure-IsAsked encode digest_of id now request w.db)
      (Steps-IsSound encode digest_of before h)
Steps-IsSound encode digest_of
      (approved_by {w} before approval_id execution_id now p intent_id digest) h =
    IsSoundWorld-change w (approve_action approval_id execution_id now p intent_id digest w.db).1
      (call_of p intent_id digest ∷ w.calls)
      (approve-IsSound approval_id execution_id now p digest intent_id w.db)
      (λ key. approve-IsAsked approval_id execution_id now p intent_id digest w.db)
      (Steps-IsSound encode digest_of before h)
Steps-IsSound encode digest_of (expired {w} before now) h =
    IsSoundWorld-after (expire_leases now) w (sound_expire now) (λ key. IsAsked-expire now)
      (Steps-IsSound encode digest_of before h)
Steps-IsSound encode digest_of (claimed {w} before locked limit lease now token) h =
    let k = Steps-IsSound encode digest_of before h in
    let m = claim_execution_tx locked limit lease now token in
    with_claim-IsSoundWorld w (transact m w.db)
      (claim-Claimed locked limit lease now token w.db k.sound)
      (λ key. Keeps-transact m w.db (IsAsked-claim now locked limit lease token)) k
Steps-IsSound encode digest_of (created {w} before x later sooner among ticket_id title) h =
    created-IsSoundWorld w x later sooner ticket_id title among
      (Steps-IsSound encode digest_of before h)
Steps-IsSound encode digest_of (completed {w} before now x ticket_id) h =
    IsSoundWorld-after (complete_tx now x ticket_id) w (keep_complete_tx now x ticket_id)
      (λ key. IsAsked-complete now x ticket_id) (Steps-IsSound encode digest_of before h)
Steps-IsSound encode digest_of (failed {w} before now x terminal failure) h =
    IsSoundWorld-after (fail_execution_tx now x terminal failure) w
      (keep_fail_tx now x terminal failure) (λ key. IsAsked-fail now x terminal failure)
      (Steps-IsSound encode digest_of before h)
Steps-IsSound encode digest_of (marked_unknown {w} before now x message) h =
    IsSoundWorld-after (mark_unknown_tx now x message) w (keep_mark_unknown_tx now x message)
      (λ key. IsAsked-unknown now x message) (Steps-IsSound encode digest_of before h)
Steps-IsSound encode digest_of (requeued {w} before now x) h =
    IsSoundWorld-after (requeue_absent_tx now x) w (keep_requeue_tx now x)
      (λ key. IsAsked-requeue now x) (Steps-IsSound encode digest_of before h)
