-- ===== src/Delivery/Exhausted.antt =====
-- internal/delivery/store.go, failExhausted: deliveries whose last lease has run out fail.
use open_im.Prelude.{
  ℕ, String, Bool, ◌&&◌, Option, none, some, List, [], ◌∷◌, ◌++◌, map, if◌then◌else◌, leb, eqb, any,
  find, select_where, ◌==◌,
}
use open_im.Database.{
  Db, RunRow, RunState, LaneRow, DeliveryRow, DeliveryState, DelegationRow, DelegationState, Json,
  RunEvent, DeliveryEvent, DelegationEvent,
}
use open_im.Database.Tx.{
  Result, Tx, ◌>>=◌, ◌>>◌, query, update_runs, update_lanes, update_deliveries, update_delegations,
  insert_run_events, insert_delivery_events, insert_delegation_events, transact,
}
use open_im.Delivery.Statements.{
  is_expired, is_delivery_pending, is_sending, is_open, advance, delegation_events_for,
}

-- failExhausted. The parts of the WITH query read the tables as they were before it.
abbrev pub is_exhausted : ℕ → ℕ → DeliveryRow → Bool
is_exhausted max_attempts now d =
    is_sending d.state && is_expired d.lease_until now && leb max_attempts d.attempts

abbrev pub lease_expired : String
lease_expired = "delivery worker lease expired after final attempt"

abbrev pub exhaust : ℕ → DeliveryRow → DeliveryRow
exhaust now d = record d {
  state = DeliveryState.failed;
  lease_token = none;
  lease_until = none;
  last_error = some lease_expired;
  completed_at = some now;
  updated_at = now;
}

-- The rows of `failed_runs`: a Run that waits for one of the exhausted deliveries, with it.
abbrev pub pair_failed : RunRow → Option DeliveryRow → List (DeliveryRow × RunRow)
pair_failed run none = []
pair_failed run (some d) = if is_delivery_pending run.state then (d, run) ∷ [] else []

abbrev pub failed_runs : List DeliveryRow → List RunRow → List (DeliveryRow × RunRow)
failed_runs exhausted [] = []
failed_runs exhausted (run ∷ runs) =
    pair_failed run (find (λ (d : DeliveryRow). d.run_id == run.id) exhausted)
    ++ failed_runs exhausted runs

abbrev pub is_failed_run : List (DeliveryRow × RunRow) → RunRow → Bool
is_failed_run failed run =
    any (λ (p : DeliveryRow × RunRow). p.1.id == run.id) failed && is_delivery_pending run.state

abbrev pub fail_run : ℕ → RunRow → RunRow
fail_run now run = record run {
  state = RunState.failed;
  last_error = some lease_expired;
  completed_at = some now;
  updated_at = now;
}

abbrev pub is_failed_lane : List (DeliveryRow × RunRow) → LaneRow → Bool
is_failed_lane failed lane =
    any
      (λ (p : DeliveryRow × RunRow).
        lane.tenant_id == p.0.tenant_id
        && lane.source_channel == p.1.source_channel
        && lane.conversation_id == p.1.conversation_id
        && eqb lane.next_dispatch_sequence p.1.conversation_sequence)
      failed

abbrev pub is_failed_delegation : List (DeliveryRow × RunRow) → DelegationRow → Bool
is_failed_delegation failed d =
    any
      (λ (p : DeliveryRow × RunRow).
        d.tenant_id == p.0.tenant_id && d.child_run_id == p.0.run_id && is_open d.state)
      failed

abbrev pub exhausted_event : DelegationRow → DelegationEvent
exhausted_event d = record {
  tenant_id = d.tenant_id;
  delegation_id = d.id;
  event_type = "failed";
  evidence =
      ("child_run_id", Json.text d.child_run_id)
      ∷ ("reason", Json.text "delivery_lease_exhausted")
      ∷ [];
}

abbrev pub exhausted_run_event : DeliveryRow × RunRow → RunEvent
exhausted_run_event p = record {
  tenant_id = p.0.tenant_id;
  run_id = p.0.run_id;
  trace_id = p.1.trace_id;
  event_type = "delivery_lease_exhausted";
  evidence = ("attempts", Json.number p.0.attempts) ∷ [];
}

abbrev pub exhausted_delivery_event : DeliveryRow × RunRow → DeliveryEvent
exhausted_delivery_event p = record {
  tenant_id = p.0.tenant_id;
  run_id = p.0.run_id;
  delivery_id = p.0.id;
  event_type = "lease_exhausted";
  evidence = ("attempts", Json.number p.0.attempts) ∷ [];
}

unfoldable pub fail_exhausted_tx : ℕ → ℕ → Tx (Unit {0})
unfolding query
fail_exhausted_tx max_attempts now = do
  failed ←
      query (λ db. failed_runs (select_where (is_exhausted max_attempts now) db.deliveries) db.runs)
  events ←
      query
        (λ db. delegation_events_for (is_failed_delegation failed) exhausted_event db.delegations)
  update_deliveries (is_exhausted max_attempts now) (exhaust now)
  update_runs (is_failed_run failed) (fail_run now)
  update_lanes (is_failed_lane failed) (advance now)
  insert_run_events (map exhausted_run_event failed)
  update_delegations (is_failed_delegation failed) (λ d. record d {
    state = DelegationState.failed;
    last_error = some lease_expired;
    completed_at = some now;
    updated_at = now;
  })
  insert_delegation_events events
  insert_delivery_events (map exhausted_delivery_event failed)

unfoldable pub fail_exhausted : ℕ → ℕ → Db → Result (Unit {0}) × Db
unfolding fail_exhausted_tx transact
fail_exhausted max_attempts now = transact (fail_exhausted_tx max_attempts now)
