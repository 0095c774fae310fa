-- ===== src/Delivery/Row/Transactions.antt =====
-- What a transaction of internal/delivery/store.go keeps of agent.deliveries is what its one UPDATE
-- or INSERT of that table keeps.
use open_im.Prelude.{ℕ, String, List}
use open_im.Database.{DeliveryRow}
use open_im.Database.Tx.{update_deliveries}
use open_im.Database.Tx.Frame.{Keeps, OnDeliveries}
use open_im.Delivery.Statements.{PrepareRequest, Record, holds_delivery, duration_seconds}
use open_im.Delivery.Prepare.{insert_new_delivery, prepare_tx}
use open_im.Delivery.Exhausted.{is_exhausted, exhaust, fail_exhausted_tx}
use open_im.Delivery.Marks.{
  Verdict, deliver, mark_sent_tx, give_up, finish_failure_tx, requeue, requeue_tx,
}
use open_im.Delivery.Row.{statement_rules}

module _ {Q : List DeliveryRow → Type 0} where
  pub Keeps-mark_sent_tx :
      (sha256_hex : String → String) (now : ℕ) (r : Record) (external : String)
      → Keeps (OnDeliveries Q) (update_deliveries (holds_delivery r) (deliver now external))
      → Keeps (OnDeliveries Q) (mark_sent_tx sha256_hex now r external)
  unfolding mark_sent_tx
  Keeps-mark_sent_tx sha256_hex now r external k = search statement_rules depth 12

  pub Keeps-finish_failure_tx :
      (now : ℕ) (r : Record) (verdict : Verdict) (failure event_type : String)
      → Keeps (OnDeliveries Q) (update_deliveries (holds_delivery r) (give_up now verdict failure))
      → Keeps (OnDeliveries Q) (finish_failure_tx now r verdict failure event_type)
  unfolding finish_failure_tx
  Keeps-finish_failure_tx now r verdict failure event_type k = search statement_rules depth 12

  pub Keeps-requeue_tx :
      (now : ℕ) (r : Record) (failure : String) (retry_after : ℕ)
      → Keeps (OnDeliveries Q) (
          update_deliveries (holds_delivery r) (requeue now (duration_seconds retry_after) failure))
      → Keeps (OnDeliveries Q) (requeue_tx now r failure retry_after)
  unfolding requeue_tx
  Keeps-requeue_tx now r failure retry_after k = search statement_rules depth 12

  pub Keeps-fail_exhausted_tx :
      (max_attempts now : ℕ)
      → Keeps (OnDeliveries Q) (update_deliveries (is_exhausted max_attempts now) (exhaust now))
      → Keeps (OnDeliveries Q) (fail_exhausted_tx max_attempts now)
  unfolding fail_exhausted_tx
  Keeps-fail_exhausted_tx max_attempts now k = search statement_rules depth 14

  pub Keeps-prepare_tx :
      (delivery_id : String) (now : ℕ) (r : PrepareRequest)
      → Keeps (OnDeliveries Q) (insert_new_delivery delivery_id now r)
      → Keeps (OnDeliveries Q) (prepare_tx delivery_id now r)
  unfolding prepare_tx
  Keeps-prepare_tx delivery_id now r k = search statement_rules depth 9
