-- ===== src/Delivery/Settlement.antt =====
-- MarkSent and finishFailure as all-or-nothing changes of the delivery, its Run and its lane.
use open_im.Prelude.{ℕ, Bool-cases, inl, inr, String, ◌≡◌, leb, if◌then◌else◌, false, arith, ◌==◌}
use open_im.Database.{Db}
use open_im.Database.Tx.{ok, err, update_deliveries, require_one, transact}
use open_im.Database.Tx.Results.{transact-eq-ok}
use open_im.Delivery.Statements.{Record, complete_delegation_for_run}
use open_im.Delivery.Row.{statement_rules}
use open_im.Delivery.Frame.{settled_runs_rules, settled_lanes_rules}
use open_im.Delivery.Marks.{
  Verdict, deliver, settle_run, mark_sent_tx, mark_sent, give_up, close_run, finish_failure_tx,
  finish_failure, fail_delegation_for_run, requeue_tx, mark_retry,
}
use open_im.Delivery.Outcomes.{
  Settles, BecomesSent, IsReplied, BecomesLost, IsUnanswered, deliver-BecomesSent,
  settle_run-IsReplied, give_up-BecomesLost, close_run-IsUnanswered, IsTaken, IsTaken-none,
}
use open_im.Delivery.Settling.{SettlesBy-Settles, settles, settling, closing, logging}

mark_sent_tx-Settles :
    (sha256_hex : String → String) (now : ℕ) (r : Record) (external : String) (db : Db) {t : Db}
    → mark_sent_tx sha256_hex now r external db ≡ ok (tt, t)
    → Settles r (BecomesSent r external) (IsReplied r external) db t
unfolding mark_sent_tx settling closing logging
mark_sent_tx-Settles sha256_hex now r external db h =
    SettlesBy-Settles (deliver now external) (settle_run now r.waiting_approval external) now db _
      (deliver-BecomesSent r now external) (settle_run-IsReplied r now external)
      (settles (deliver now external) (settle_run now r.waiting_approval external) now r "sent" ""
        "delivery_sent" _ (complete_delegation_for_run sha256_hex now r external) db
        (search statement_rules) (search settled_runs_rules) (search settled_lanes_rules) _ _ h)

finish_failure_tx-Settles :
    (now : ℕ) (r : Record) (verdict : Verdict) (failure event_type : String) (db : Db) {t : Db}
    → finish_failure_tx now r verdict failure event_type db ≡ ok (tt, t)
    → Settles r (BecomesLost r verdict failure) (IsUnanswered r verdict failure) db t
unfolding finish_failure_tx settling closing logging
finish_failure_tx-Settles now r verdict failure event_type db h =
    SettlesBy-Settles (give_up now verdict failure) (close_run now verdict failure) now db _
      (give_up-BecomesLost r now verdict failure) (close_run-IsUnanswered r now verdict failure)
      (settles (give_up now verdict failure) (close_run now verdict failure) now r event_type
        failure _ _ (fail_delegation_for_run now r verdict failure) db (search statement_rules)
        (search settled_runs_rules) (search settled_lanes_rules) _ _ h)

-- MarkSent succeeds only as a whole: exactly one delivery is being sent under the record's token,
-- and becomes sent, without its lease, with the channel's message id; exactly one Run with the
-- record's Run id waits for its delivery, and becomes succeeded, or waiting for approval if the
-- record says so, with the same message id; exactly one lane stands at that Run's position, and its
-- position grows by one; all other deliveries, Runs and lanes are as before.
pub mark_sent-Settles :
    (sha256_hex : String → String) (now : ℕ) (r : Record) (external : String) (db : Db)
    → (mark_sent sha256_hex now r external db).0 ≡ ok tt
    → Settles r
        (BecomesSent r external)
        (IsReplied r external)
        db
        (mark_sent sha256_hex now r external db).1
unfolding mark_sent
mark_sent-Settles sha256_hex now r external db h = elim (Bool-cases (external == "")) [
  | inl e ↦ absurd (cc (rw e at h))
  | inr e ↦
      let (t, done, is_t) =
        transact-eq-ok (mark_sent_tx sha256_hex now r external) db (rw e at h) in
      rw (e, is_t) (mark_sent_tx-Settles sha256_hex now r external db done)
]

-- finishFailure, the end of MarkPermanent, MarkUncertain and a MarkRetry without attempts left,
-- succeeds only as a whole: exactly one delivery is being sent under the record's token, and becomes
-- failed, or uncertain if the outcome is unknown, without its lease; exactly one Run with the
-- record's Run id waits for its delivery, and becomes failed, or delivery_unknown; both keep the
-- failure's text; exactly one lane stands at that Run's position, and its position grows by one;
-- all other deliveries, Runs and lanes are as before.
pub finish_failure-Settles :
    (now : ℕ) (r : Record) (verdict : Verdict) (failure event_type : String) (db : Db)
    → (finish_failure now r verdict failure event_type db).0 ≡ ok tt
    → Settles r
        (BecomesLost r verdict failure)
        (IsUnanswered r verdict failure)
        db
        (finish_failure now r verdict failure event_type db).1
unfolding finish_failure
finish_failure-Settles now r verdict failure event_type db h =
    let (t, done, is_t) =
      transact-eq-ok (finish_failure_tx now r verdict failure event_type) db h in
    rw is_t (finish_failure_tx-Settles now r verdict failure event_type db done)

-- A worker whose lease was given to another one changes nothing: when no delivery with the record's
-- id has the record's lease token, whatever its state, MarkSent with a message id, MarkRetry and
-- finishFailure all report that the lease is not held, and leave the database as it was.
pub stale_mark_refused :
    (sha256_hex : String → String) (now : ℕ) (r : Record) (external failure event_type : String)
    (verdict : Verdict) (max_attempts retry_after : ℕ) (db : Db)
    → IsTaken r db.deliveries
    → (external == "") ≡ false
    → (mark_sent sha256_hex now r external db
        ≡ (err "complete Agent delivery: delivery lease is not held", db))
      × (finish_failure now r verdict failure event_type db
          ≡ (err "finish Agent delivery failure: delivery lease is not held", db))
      × (mark_retry now r failure max_attempts retry_after db ≡ (
        err (
            if leb max_attempts r.attempts
            then "finish Agent delivery failure: delivery lease is not held"
            else "retry Agent delivery: delivery lease is not held"),
        db,
      ))
unfolding mark_sent finish_failure mark_retry mark_sent_tx finish_failure_tx requeue_tx transact
    update_deliveries require_one
stale_mark_refused sha256_hex now r external failure event_type verdict max_attempts retry_after db
      taken e =
    let h = IsTaken-none r db.deliveries taken in (ground arith, ground arith, ground arith)
