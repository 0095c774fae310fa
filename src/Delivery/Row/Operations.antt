-- ===== src/Delivery/Row/Operations.antt =====
-- The same of the operations of internal/delivery/store.go, committed or rolled back.
use open_im.Prelude.{ℕ, String, List, ◌==◌, leb, Bool-cases, inl, inr}
use open_im.Database.{Db, DeliveryRow}
use open_im.Database.Tx.{Tx, update_deliveries, transact}
use open_im.Database.Tx.Frame.{Keeps, Keeps-transact, OnDeliveries}
use open_im.Delivery.Statements.{
  PrepareRequest, Record, holds_delivery, bounded_error, duration_seconds,
}
use open_im.Delivery.Prepare.{insert_new_delivery, prepare}
use open_im.Delivery.Exhausted.{is_exhausted, exhaust, fail_exhausted}
use open_im.Delivery.Marks.{
  Verdict, deliver, mark_sent, give_up, finish_failure, requeue, mark_retry,
}
use open_im.Delivery.Row.Transactions.{
  Keeps-mark_sent_tx, Keeps-finish_failure_tx, Keeps-requeue_tx, Keeps-fail_exhausted_tx,
  Keeps-prepare_tx,
}

module _ {Q : List DeliveryRow → Type 0} (db : Db) where
  pub after :
      {A : Type 0} (m : Tx A)
      → Keeps (OnDeliveries Q) m
      → Q db.deliveries
      → Q (transact m db).1.deliveries
  after m k h = (Keeps-transact m db k (record { holds = h })).holds

  pub deliveries-prepare :
      (delivery_id : String) (now : ℕ) (r : PrepareRequest)
      → Keeps (OnDeliveries Q) (insert_new_delivery delivery_id now r)
      → Q db.deliveries
      → Q (prepare delivery_id now r db).1.deliveries
  unfolding prepare
  deliveries-prepare delivery_id now r k = after _ (Keeps-prepare_tx delivery_id now r k)

  pub deliveries-fail_exhausted :
      (max_attempts now : ℕ)
      → Keeps (OnDeliveries Q) (update_deliveries (is_exhausted max_attempts now) (exhaust now))
      → Q db.deliveries
      → Q (fail_exhausted max_attempts now db).1.deliveries
  unfolding fail_exhausted
  deliveries-fail_exhausted max_attempts now k =
      after _ (Keeps-fail_exhausted_tx max_attempts now k)

  pub deliveries-mark_sent :
      (sha256_hex : String → String) (now : ℕ) (r : Record) (external : String)
      → Keeps (OnDeliveries Q) (update_deliveries (holds_delivery r) (deliver now external))
      → Q db.deliveries
      → Q (mark_sent sha256_hex now r external db).1.deliveries
  unfolding mark_sent
  deliveries-mark_sent sha256_hex now r external k h = elim (Bool-cases (external == "")) [
    | inl e ↦ rw e h
    | inr e ↦ rw e (after _ (Keeps-mark_sent_tx sha256_hex now r external k) h)
  ]

  pub deliveries-finish_failure :
      (now : ℕ) (r : Record) (verdict : Verdict) (failure event_type : String)
      → Keeps (OnDeliveries Q) (update_deliveries (holds_delivery r) (give_up now verdict failure))
      → Q db.deliveries
      → Q (finish_failure now r verdict failure event_type db).1.deliveries
  unfolding finish_failure
  deliveries-finish_failure now r verdict failure event_type k =
      after _ (Keeps-finish_failure_tx now r verdict failure event_type k)

  pub deliveries-mark_retry :
      (now : ℕ) (r : Record) (failure : String) (max_attempts retry_after : ℕ)
      → Keeps (OnDeliveries Q) (
          update_deliveries (holds_delivery r) (give_up now Verdict.failed (bounded_error failure)))
      → Keeps (OnDeliveries Q) (
          update_deliveries
            (holds_delivery r)
            (requeue now (duration_seconds retry_after) (bounded_error failure)))
      → Q db.deliveries
      → Q (mark_retry now r failure max_attempts retry_after db).1.deliveries
  unfolding mark_retry
  deliveries-mark_retry now r failure max_attempts retry_after k l h =
      elim (Bool-cases (leb max_attempts r.attempts)) [
        | inl e ↦
            rw e (deliveries-finish_failure now r Verdict.failed (bounded_error failure) _ k h)
        | inr e ↦ rw e (after _ (Keeps-requeue_tx now r _ retry_after l) h)
      ]
