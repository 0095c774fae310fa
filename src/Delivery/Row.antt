-- ===== src/Delivery/Row.antt =====
-- One delivery, looked up by its id, across each transaction of internal/delivery/store.go: a
-- statement whose WHERE test is false of the row leaves it as it is.
pub mod Transactions
pub mod Operations
use open_im.Prelude.{
  ℕ, String, ◌≡◌, ◌∙◌, ap, Bool, true, false, Option, some, List, [], ◌∷◌, arith, find-append,
  if◌then◌else◌, find, update_where, find-update_where, ◌==◌, eq_iff,
}
use open_im.Database.{DeliveryRow, Evidence}
use open_im.Database.Tx.{update_deliveries, insert_delivery}
use open_im.Database.Tx.Frame.{
  Keeps, OnDeliveries, OnDeliveries-update_deliveries, deliveries_rules,
}
use open_im.Delivery.Statements.{
  PrepareRequest, Record, insert_run_lifecycle, advance_lane_for_run, insert_audit,
  complete_delegation_for_run,
}
use open_im.Delivery.Prepare.{insert_new_delivery}
use open_im.Delivery.Marks.{Verdict, fail_delegation_for_run}

abbrev pub has_id : String → DeliveryRow → Bool
has_id id d = d.id == id

-- `d` is the row of the table with the id.
abbrev pub IsRow : String → DeliveryRow → List DeliveryRow → Type 0
IsRow id d rows = find (has_id id) rows ≡ some d

pub found_id :
    (id : String) (d : DeliveryRow) (rows : List DeliveryRow) → IsRow id d rows → d.id ≡ id
found_id id d [] h = ground arith
found_id id d (c ∷ cs) h = ground (arith, found_id id d cs, eq_iff c.id id)

module _ (id : String) (d : DeliveryRow) where
  pub IsRow-update :
      (p : DeliveryRow → Bool) (f : DeliveryRow → DeliveryRow)
      → ((e : DeliveryRow) → (f e).id ≡ e.id)
      → p d ≡ false
      → (rows : List DeliveryRow) → IsRow id d rows
      → IsRow id d (update_where p f rows)
  IsRow-update p f same miss rows h =
      ◌∙◌ (find-update_where (has_id id) p f rows (λ e. ap (λ i. i == id) (same e))) (ground arith)

  pub Keeps-update :
      (p : DeliveryRow → Bool) (f : DeliveryRow → DeliveryRow)
      → ((e : DeliveryRow) → (f e).id ≡ e.id)
      → p d ≡ false
      → Keeps (OnDeliveries (IsRow id d)) (update_deliveries p f)
  Keeps-update p f same miss = OnDeliveries-update_deliveries p f (IsRow-update p f same miss)

module _ (id : String) (d : DeliveryRow) where
  Keeps-insert : (row : DeliveryRow) → Keeps (OnDeliveries (IsRow id d)) (insert_delivery row)
  unfolding insert_delivery
  Keeps-insert row = record {
    at = λ db h. record { holds = find-append (has_id id) db.deliveries (row ∷ []) h.holds };
  }

  pub Keeps-insert_new_delivery :
      (delivery_id : String) (now : ℕ) (r : PrepareRequest)
      → Keeps (OnDeliveries (IsRow id d)) (insert_new_delivery delivery_id now r)
  unfolding insert_new_delivery
  Keeps-insert_new_delivery delivery_id now r = search (deliveries_rules, Keeps-insert) depth 9

-- The statements that never touch agent.deliveries.
module _ {Q : List DeliveryRow → Type 0} where
  pub Keeps-insert_run_lifecycle :
      (run_id event_type : String) (evidence : Evidence)
      → Keeps (OnDeliveries Q) (insert_run_lifecycle run_id event_type evidence)
  unfolding insert_run_lifecycle
  Keeps-insert_run_lifecycle run_id event_type evidence = search deliveries_rules depth 9

  pub Keeps-advance_lane_for_run :
      (now : ℕ) (run_id : String) → Keeps (OnDeliveries Q) (advance_lane_for_run now run_id)
  unfolding advance_lane_for_run
  Keeps-advance_lane_for_run now run_id = search deliveries_rules depth 9

  pub Keeps-insert_audit :
      (r : Record) (event_type failure : String)
      → Keeps (OnDeliveries Q) (insert_audit r event_type failure)
  unfolding insert_audit
  Keeps-insert_audit r event_type failure = search deliveries_rules depth 9

  pub Keeps-complete_delegation_for_run :
      (sha256_hex : String → String) (now : ℕ) (r : Record) (external : String)
      → Keeps (OnDeliveries Q) (complete_delegation_for_run sha256_hex now r external)
  unfolding complete_delegation_for_run
  Keeps-complete_delegation_for_run sha256_hex now r external = search deliveries_rules depth 9

  pub Keeps-fail_delegation_for_run :
      (now : ℕ) (r : Record) (verdict : Verdict) (failure : String)
      → Keeps (OnDeliveries Q) (fail_delegation_for_run now r verdict failure)
  unfolding fail_delegation_for_run
  Keeps-fail_delegation_for_run now r verdict failure = search deliveries_rules depth 9

pub ruleset statement_rules = (
  deliveries_rules, Keeps-insert_run_lifecycle, Keeps-advance_lane_for_run, Keeps-insert_audit,
  Keeps-complete_delegation_for_run, Keeps-fail_delegation_for_run,
)
