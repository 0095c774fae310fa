-- ===== src/Database/Tx/Frame.antt =====
-- Rules for what a transaction keeps, one for each way to build it.
use open_im.Prelude.{ℕ, String, Bool, true, false, List, if◌then◌else◌, update_where}
use open_im.Database.{
  Db, RunRow, LaneRow, DeliveryRow, DelegationRow, RunEvent, DeliveryEvent, DelegationEvent,
}
use open_im.Database.Tx
use open_im.Database.Tx.{
  Result, ok, err, Tx, TxOn, ◌>>=◌, pure, raise, query, update_runs, update_lanes,
  update_deliveries, update_delegations, insert_run_events, insert_delivery_events,
  insert_delegation_events, require_one, transact,
}

-- `P` holds of the database that a successful run leaves.
abbrev pub After : {S A : Type 0} → (S → Type 0) → Result (A × S) → Type 0
After P (ok (a, db)) = P db
After P (err e) = Unit

-- `m` keeps `P`.
pub record Keeps {S A : Type 0} (P : S → Type 0) (m : TxOn S A) : Type 0 where
  pub at : (db : S) → P db → After P (m db)

module _ {S A : Type 0} {P : S → Type 0} where
  pub Keeps-pure : (a : A) → Keeps P (pure a)
  unfolding pure
  Keeps-pure a = record { at = λ db h. h }

  pub Keeps-raise : (e : String) → Keeps P (raise {A = A} e)
  unfolding raise
  Keeps-raise e = record { at = λ db h. tt }

  pub Keeps-query : (f : S → A) → Keeps P (query f)
  unfolding query
  Keeps-query f = record { at = λ db h. h }

  pub Keeps-if : (b : Bool) (m n : TxOn S A) → Keeps P m → Keeps P n → Keeps P (if b then m else n)
  Keeps-if true m n km kn = km
  Keeps-if false m n km kn = kn

  -- A transaction that keeps `P`, committed or rolled back, leaves `P`.
  pub Keeps-transact : (m : TxOn S A) (db : S) → Keeps P m → P db → P (transact m db).1
  unfolding transact
  Keeps-transact m db k h = finished (m db) (k.at db h)
    where
      finished : (r : Result (A × S)) → After P r → P (Tx.finish db r).1
      finished (ok (a, db')) h' = h'
      finished (err e) _ = h

module _ {S A B : Type 0} {P : S → Type 0} where
  After-bind :
      (f : A → TxOn S B) (r : Result (A × S))
      → ((a : A) → Keeps P (f a))
      → After P r
      → After P (elim r [ err e ↦ err e | ok (a, db') ↦ f a db' ])
  After-bind f (ok (a, db')) kf h = (kf a).at db' h
  After-bind f (err e) kf h = tt

  pub Keeps-bind :
      (m : TxOn S A) (f : A → TxOn S B) → Keeps P m → ((a : A) → Keeps P (f a)) → Keeps P (m >>= f)
  Keeps-bind m f km kf = record { at = λ db h. After-bind f (m db) kf (km.at db h) }

module _ {S A B : Type 0} (P Q : S → Type 0) (f : A → TxOn S B) where
  After-step :
      (r : Result (A × S))
      → After P r
      → ((a : A) (db : S) → P db → After Q (f a db))
      → After Q (elim r [ err e ↦ err e | ok (a, db') ↦ f a db' ])
  After-step (ok (a, db)) h k = k a db h
  After-step (err e) h k = tt

  -- A statement with what it establishes, and the rest of the transaction.
  pub After-then :
      (m : TxOn S A) (db : S)
      → After P (m db)
      → ((a : A) (db' : S) → P db' → After Q (f a db'))
      → After Q ((m >>= f) db)
  After-then m db h k = After-step (m db) h k

pub Keeps-require_one :
    {S : Type 0} {P : S → Type 0} (n : ℕ) (message : String) → Keeps P (require_one n message)
unfolding require_one
Keeps-require_one n message = Keeps-if _ _ _ (Keeps-pure tt) (Keeps-raise message)

-- Facts about one table.
pub record OnDeliveries (Q : List DeliveryRow → Type 0) (db : Db) : Type 0 where
  pub holds : Q db.deliveries

pub record OnRuns (Q : List RunRow → Type 0) (db : Db) : Type 0 where
  pub holds : Q db.runs

pub record OnLanes (Q : List LaneRow → Type 0) (db : Db) : Type 0 where
  pub holds : Q db.lanes

module _ {Q : List DeliveryRow → Type 0} where
  pub OnDeliveries-update_runs :
      (p : RunRow → Bool) (f : RunRow → RunRow) → Keeps (OnDeliveries Q) (update_runs p f)
  unfolding update_runs
  OnDeliveries-update_runs p f = record { at = λ db h. record { holds = h.holds } }

  pub OnDeliveries-update_lanes :
      (p : LaneRow → Bool) (f : LaneRow → LaneRow) → Keeps (OnDeliveries Q) (update_lanes p f)
  unfolding update_lanes
  OnDeliveries-update_lanes p f = record { at = λ db h. record { holds = h.holds } }

  pub OnDeliveries-update_deliveries :
      (p : DeliveryRow → Bool) (f : DeliveryRow → DeliveryRow)
      → ((rows : List DeliveryRow) → Q rows → Q (update_where p f rows))
      → Keeps (OnDeliveries Q) (update_deliveries p f)
  unfolding update_deliveries
  OnDeliveries-update_deliveries p f k = record {
    at = λ db h. record { holds = k db.deliveries h.holds };
  }

  pub OnDeliveries-update_delegations :
      (p : DelegationRow → Bool) (f : DelegationRow → DelegationRow)
      → Keeps (OnDeliveries Q) (update_delegations p f)
  unfolding update_delegations
  OnDeliveries-update_delegations p f = record { at = λ db h. record { holds = h.holds } }

  pub OnDeliveries-insert_run_events :
      (rows : List RunEvent) → Keeps (OnDeliveries Q) (insert_run_events rows)
  unfolding insert_run_events
  OnDeliveries-insert_run_events rows = record { at = λ db h. record { holds = h.holds } }

  pub OnDeliveries-insert_delivery_events :
      (rows : List DeliveryEvent) → Keeps (OnDeliveries Q) (insert_delivery_events rows)
  unfolding insert_delivery_events
  OnDeliveries-insert_delivery_events rows = record { at = λ db h. record { holds = h.holds } }

  pub OnDeliveries-insert_delegation_events :
      (rows : List DelegationEvent) → Keeps (OnDeliveries Q) (insert_delegation_events rows)
  unfolding insert_delegation_events
  OnDeliveries-insert_delegation_events rows = record { at = λ db h. record { holds = h.holds } }

module _ {Q : List RunRow → Type 0} where
  pub OnRuns-update_runs :
      (p : RunRow → Bool) (f : RunRow → RunRow)
      → ((rows : List RunRow) → Q rows → Q (update_where p f rows))
      → Keeps (OnRuns Q) (update_runs p f)
  unfolding update_runs
  OnRuns-update_runs p f k = record { at = λ db h. record { holds = k db.runs h.holds } }

  pub OnRuns-update_lanes :
      (p : LaneRow → Bool) (f : LaneRow → LaneRow) → Keeps (OnRuns Q) (update_lanes p f)
  unfolding update_lanes
  OnRuns-update_lanes p f = record { at = λ db h. record { holds = h.holds } }

  pub OnRuns-update_deliveries :
      (p : DeliveryRow → Bool) (f : DeliveryRow → DeliveryRow)
      → Keeps (OnRuns Q) (update_deliveries p f)
  unfolding update_deliveries
  OnRuns-update_deliveries p f = record { at = λ db h. record { holds = h.holds } }

  pub OnRuns-update_delegations :
      (p : DelegationRow → Bool) (f : DelegationRow → DelegationRow)
      → Keeps (OnRuns Q) (update_delegations p f)
  unfolding update_delegations
  OnRuns-update_delegations p f = record { at = λ db h. record { holds = h.holds } }

  pub OnRuns-insert_run_events : (rows : List RunEvent) → Keeps (OnRuns Q) (insert_run_events rows)
  unfolding insert_run_events
  OnRuns-insert_run_events rows = record { at = λ db h. record { holds = h.holds } }

  pub OnRuns-insert_delivery_events :
      (rows : List DeliveryEvent) → Keeps (OnRuns Q) (insert_delivery_events rows)
  unfolding insert_delivery_events
  OnRuns-insert_delivery_events rows = record { at = λ db h. record { holds = h.holds } }

  pub OnRuns-insert_delegation_events :
      (rows : List DelegationEvent) → Keeps (OnRuns Q) (insert_delegation_events rows)
  unfolding insert_delegation_events
  OnRuns-insert_delegation_events rows = record { at = λ db h. record { holds = h.holds } }

module _ {Q : List LaneRow → Type 0} where
  pub OnLanes-update_runs :
      (p : RunRow → Bool) (f : RunRow → RunRow) → Keeps (OnLanes Q) (update_runs p f)
  unfolding update_runs
  OnLanes-update_runs p f = record { at = λ db h. record { holds = h.holds } }

  pub OnLanes-update_lanes :
      (p : LaneRow → Bool) (f : LaneRow → LaneRow)
      → ((rows : List LaneRow) → Q rows → Q (update_where p f rows))
      → Keeps (OnLanes Q) (update_lanes p f)
  unfolding update_lanes
  OnLanes-update_lanes p f k = record { at = λ db h. record { holds = k db.lanes h.holds } }

  pub OnLanes-update_deliveries :
      (p : DeliveryRow → Bool) (f : DeliveryRow → DeliveryRow)
      → Keeps (OnLanes Q) (update_deliveries p f)
  unfolding update_deliveries
  OnLanes-update_deliveries p f = record { at = λ db h. record { holds = h.holds } }

  pub OnLanes-update_delegations :
      (p : DelegationRow → Bool) (f : DelegationRow → DelegationRow)
      → Keeps (OnLanes Q) (update_delegations p f)
  unfolding update_delegations
  OnLanes-update_delegations p f = record { at = λ db h. record { holds = h.holds } }

  pub OnLanes-insert_run_events :
      (rows : List RunEvent) → Keeps (OnLanes Q) (insert_run_events rows)
  unfolding insert_run_events
  OnLanes-insert_run_events rows = record { at = λ db h. record { holds = h.holds } }

  pub OnLanes-insert_delivery_events :
      (rows : List DeliveryEvent) → Keeps (OnLanes Q) (insert_delivery_events rows)
  unfolding insert_delivery_events
  OnLanes-insert_delivery_events rows = record { at = λ db h. record { holds = h.holds } }

  pub OnLanes-insert_delegation_events :
      (rows : List DelegationEvent) → Keeps (OnLanes Q) (insert_delegation_events rows)
  unfolding insert_delegation_events
  OnLanes-insert_delegation_events rows = record { at = λ db h. record { holds = h.holds } }

pub ruleset keeps_rules =
    (Keeps-pure, Keeps-raise, Keeps-query, Keeps-if, Keeps-bind, Keeps-require_one)

pub ruleset deliveries_rules = (
  keeps_rules, OnDeliveries-update_runs, OnDeliveries-update_lanes, OnDeliveries-update_delegations,
  OnDeliveries-insert_run_events, OnDeliveries-insert_delivery_events,
  OnDeliveries-insert_delegation_events,
)

pub ruleset runs_rules = (
  keeps_rules, OnRuns-update_lanes, OnRuns-update_deliveries, OnRuns-update_delegations,
  OnRuns-insert_run_events, OnRuns-insert_delivery_events, OnRuns-insert_delegation_events,
)

pub ruleset lanes_rules = (
  keeps_rules, OnLanes-update_runs, OnLanes-update_deliveries, OnLanes-update_delegations,
  OnLanes-insert_run_events, OnLanes-insert_delivery_events, OnLanes-insert_delegation_events,
)
