-- ===== src/Delivery/Settling.antt =====
-- The statements that MarkSent and finishFailure of internal/delivery/store.go share: two guarded
-- updates, and then the lane and the audit.
use open_im.Prelude.{
  ℕ, ◌∙◌, ap, String, ◌≡◌, refl, arith, count_where, update_where, update_where-Changed, true,
}
use open_im.Delivery.Outcomes.{Settles, in_position, advance-MovesOn}
use open_im.Database.{Db, RunRow, DeliveryRow, Evidence}
use open_im.Database.Tx.{
  ok, Tx, ◌>>=◌, ◌>>◌, update_runs, update_lanes, update_deliveries, query, require_one,
}
use open_im.Database.Tx.Frame.{Keeps, OnDeliveries, OnRuns, OnLanes}
use open_im.Database.Tx.Results.{bind-eq-ok, kept-eq-ok}
use open_im.Delivery.Statements.{
  Record, holds_delivery, awaits_delivery, advance, advance_lane_for_run, insert_audit,
  insert_run_lifecycle,
}
use open_im.Delivery.Row.{statement_rules}
use open_im.Delivery.Frame.{settled_runs_rules, settled_lanes_rules}

-- The same with the functions that the statements apply.
pub record SettlesBy (r : Record) (f : DeliveryRow → DeliveryRow) (g : RunRow → RunRow) (now : ℕ)
    (s t : Db) : Type 0 where
  one_delivery : count_where (holds_delivery r) s.deliveries ≡ 1
  delivery : t.deliveries ≡ update_where (holds_delivery r) f s.deliveries
  one_run : count_where (awaits_delivery r) s.runs ≡ 1
  run : t.runs ≡ update_where (awaits_delivery r) g s.runs
  one_lane : count_where (in_position t.runs r.run_id) s.lanes ≡ 1
  lane : t.lanes ≡ update_where (in_position t.runs r.run_id) (advance now) s.lanes

pub SettlesBy-Settles :
    {r : Record} {D : DeliveryRow → DeliveryRow → Type 0} {R : RunRow → RunRow → Type 0}
    (f : DeliveryRow → DeliveryRow) (g : RunRow → RunRow) (now : ℕ) (s t : Db)
    → ((d : DeliveryRow) → holds_delivery r d ≡ true → D d (f d))
    → ((run : RunRow) → awaits_delivery r run ≡ true → R run (g run))
    → SettlesBy r f g now s t
    → Settles r D R s t
SettlesBy-Settles f g now s t sends runs h = record {
  one_delivery = h.one_delivery;
  delivery = rw h.delivery (update_where-Changed f s.deliveries sends);
  one_run = h.one_run;
  run = rw h.run (update_where-Changed g s.runs runs);
  one_lane = h.one_lane;
  lane =
      rw h.lane (update_where-Changed (advance now) s.lanes (λ lane _. advance-MovesOn now lane));
}

advance_lane-eq-ok :
    (now : ℕ) (run_id : String) (s : Db) {x : Unit {0} × Db}
    → advance_lane_for_run now run_id s ≡ ok x
    → (count_where (in_position s.runs run_id) s.lanes ≡ 1)
      × (x.1 ≡ record s { lanes = update_where (in_position s.runs run_id) (advance now) s.lanes })
unfolding advance_lane_for_run query update_lanes require_one
advance_lane-eq-ok now run_id s h = ground arith

-- insertAudit and insertRunLifecycle.
unfoldable pub logging : Record → String → String → String → Evidence → Tx (Unit {0})
logging r event_type failure e evidence = do
  insert_audit r event_type failure
  insert_run_lifecycle r.run_id e evidence

-- The end of every settlement: advanceLaneForRun and the two.
unfoldable pub closing : ℕ → Record → String → String → String → Evidence → Tx (Unit {0})
unfolding logging
closing now r event_type failure e evidence = do
  advance_lane_for_run now r.run_id
  logging r event_type failure e evidence

module _ (now : ℕ) (r : Record) (event_type failure e : String) (evidence : Evidence) (s : Db) where
  deliveries-closing :
      {t : Db}
      → closing now r event_type failure e evidence s ≡ ok (tt, t)
      → t.deliveries ≡ s.deliveries
  unfolding closing
  deliveries-closing h =
      (kept-eq-ok {P = OnDeliveries (λ xs. xs ≡ s.deliveries)}
        (closing now r event_type failure e evidence) s (search statement_rules depth 9)
        (record { holds = refl }) h).holds

  runs-closing :
      {t : Db} → closing now r event_type failure e evidence s ≡ ok (tt, t) → t.runs ≡ s.runs
  unfolding closing
  runs-closing h =
      (kept-eq-ok {P = OnRuns (λ xs. xs ≡ s.runs)} (closing now r event_type failure e evidence) s
        (search settled_runs_rules depth 9) (record { holds = refl }) h).holds

  lanes-closing :
      {t : Db}
      → closing now r event_type failure e evidence s ≡ ok (tt, t)
      → (count_where (in_position s.runs r.run_id) s.lanes ≡ 1)
        × (t.lanes ≡ update_where (in_position s.runs r.run_id) (advance now) s.lanes)
  unfolding closing
  lanes-closing {t} h =
      let (u, s1, advanced, rest) =
        bind-eq-ok (advance_lane_for_run now r.run_id)
          (λ _. logging r event_type failure e evidence) s h in
      let (one, same) = advance_lane-eq-ok now r.run_id s advanced in
      let kept : t.lanes ≡ s1.lanes =
        (kept-eq-ok {P = OnLanes (λ xs. xs ≡ s1.lanes)} (logging r event_type failure e evidence) s1
          (search settled_lanes_rules depth 9) (record { holds = refl }) rest).holds in
      (one, cc (ap (λ (x : Db). x.lanes) same))

-- The two guarded updates with which a settlement begins.
unfoldable pub settling :
    Record
    → (DeliveryRow → DeliveryRow)
    → (RunRow → RunRow)
    → String
    → String
    → Tx (Unit {0})
    → Tx (Unit {0})
settling r f g m1 m2 rest = do
  n ← update_deliveries (holds_delivery r) f
  require_one n m1
  m ← update_runs (awaits_delivery r) g
  require_one m m2
  rest

abbrev pub begun : Record → (DeliveryRow → DeliveryRow) → (RunRow → RunRow) → Db → Db
begun r f g s = record s {
  deliveries = update_where (holds_delivery r) f s.deliveries;
  runs = update_where (awaits_delivery r) g s.runs;
}

settling-eq-ok :
    (r : Record) (f : DeliveryRow → DeliveryRow) (g : RunRow → RunRow) (m1 m2 : String)
    (rest : Tx (Unit {0})) (s : Db) {x : Unit {0} × Db}
    → settling r f g m1 m2 rest s ≡ ok x
    → (count_where (holds_delivery r) s.deliveries ≡ 1)
      × (count_where (awaits_delivery r) s.runs ≡ 1)
      × (rest (begun r f g s) ≡ ok x)
unfolding settling update_deliveries update_runs require_one
settling-eq-ok r f g m1 m2 rest s h = ground arith

module _ (f : DeliveryRow → DeliveryRow) (g : RunRow → RunRow) (now : ℕ) (r : Record)
    (event_type failure e : String) (evidence : Evidence) (finish : Tx (Unit {0})) (s : Db)
    (keeps_deliveries : Keeps (OnDeliveries (λ xs. xs ≡ (begun r f g s).deliveries)) finish)
    (keeps_runs : Keeps (OnRuns (λ xs. xs ≡ (begun r f g s).runs)) finish)
    (keeps_lanes : Keeps (OnLanes (λ xs. xs ≡ s.lanes)) finish) where
  pub settles :
      (m1 m2 : String) {t : Db}
      → settling r f g m1 m2 (finish >> closing now r event_type failure e evidence) s ≡ ok (tt, t)
      → SettlesBy r f g now s t
  settles m1 m2 {t} h =
      let (one_d, one_r, later) = settling-eq-ok r f g m1 m2 _ s h in
      let (u, s2, finished, closed) =
        bind-eq-ok finish (λ _. closing now r event_type failure e evidence) (begun r f g s)
          later in
      let ds =
        (kept-eq-ok finish (begun r f g s) keeps_deliveries (record { holds = refl })
          finished).holds in
      let rs =
        (kept-eq-ok finish (begun r f g s) keeps_runs (record { holds = refl }) finished).holds in
      let ls =
        (kept-eq-ok finish (begun r f g s) keeps_lanes (record { holds = refl }) finished).holds in
      let runs_same = runs-closing now r event_type failure e evidence s2 closed in
      let (one_l, moved) = lanes-closing now r event_type failure e evidence s2 closed in
      record {
        one_delivery = one_d;
        delivery = deliveries-closing now r event_type failure e evidence s2 closed ∙ ds;
        one_run = one_r;
        run = runs_same ∙ rs;
        one_lane = rw runs_same (rw ls at one_l);
        lane = rw runs_same (rw ls at moved);
      }
