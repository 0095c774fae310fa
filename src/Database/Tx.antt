-- ===== src/Database/Tx.antt =====
-- A PostgreSQL transaction as pgx runs it in this repository: statements in order, a rollback on
-- the first error, a commit at the end. A failure of the driver or of the server is not modelled.
pub mod Frame
pub mod Results
pub mod Tools
use open_im.Prelude.{
  ℕ, String, Bool, List, [], ◌∷◌, ◌++◌, if◌then◌else◌, eqb, update_where, count_where,
}
use open_im.Database.{
  Db, RunRow, LaneRow, DeliveryRow, DelegationRow, RunEvent, DeliveryEvent, DelegationEvent,
}

-- An error carries its message.
pub data Result {ℓ} (A : Type ℓ) : Type ℓ where
  ok : A → Result A
  err : String → Result A

-- On tables of any kind, and on those of the Agent runtime.
abbrev pub TxOn : Type 0 → Type 0 → Type 0
TxOn S A = S → Result (A × S)

abbrev pub Tx : Type 0 → Type 0
Tx A = TxOn Db A

infixl 5 ◌>>=◌ ◌>>◌
abbrev pub ◌>>=◌ : {S A B : Type 0} → TxOn S A → (A → TxOn S B) → TxOn S B
◌>>=◌ m f db = elim (m db) [ err e ↦ err e | ok (a, db') ↦ f a db' ]

abbrev pub ◌>>◌ : {S A B : Type 0} → TxOn S A → TxOn S B → TxOn S B
m >> k = m >>= λ _. k

unfoldable pub pure : {S A : Type 0} → A → TxOn S A
pure a db = ok (a, db)

unfoldable pub raise : {S A : Type 0} → String → TxOn S A
raise e db = err e

-- `SELECT`, which changes nothing.
unfoldable pub query : {S A : Type 0} → (S → A) → TxOn S A
query f db = ok (f db, db)

-- `UPDATE … SET f WHERE p` on each table, with the number of rows affected.
unfoldable pub update_runs : (RunRow → Bool) → (RunRow → RunRow) → Tx ℕ
update_runs p f db = ok (count_where p db.runs, record db { runs = update_where p f db.runs })

unfoldable pub update_lanes : (LaneRow → Bool) → (LaneRow → LaneRow) → Tx ℕ
update_lanes p f db = ok (count_where p db.lanes, record db { lanes = update_where p f db.lanes })

unfoldable pub update_deliveries : (DeliveryRow → Bool) → (DeliveryRow → DeliveryRow) → Tx ℕ
update_deliveries p f db =
    ok (count_where p db.deliveries, record db { deliveries = update_where p f db.deliveries })

unfoldable pub update_delegations : (DelegationRow → Bool) → (DelegationRow → DelegationRow) → Tx ℕ
update_delegations p f db =
    ok (count_where p db.delegations, record db { delegations = update_where p f db.delegations })

-- `INSERT` of rows at the end of a table.
unfoldable pub insert_delivery : DeliveryRow → Tx (Unit {0})
insert_delivery row db = ok (tt, record db { deliveries = db.deliveries ++ row ∷ [] })

unfoldable pub insert_run_events : List RunEvent → Tx (Unit {0})
insert_run_events rows db = ok (tt, record db { run_events = db.run_events ++ rows })

unfoldable pub insert_delivery_events : List DeliveryEvent → Tx (Unit {0})
insert_delivery_events rows db = ok (tt, record db { delivery_events = db.delivery_events ++ rows })

unfoldable pub insert_delegation_events : List DelegationEvent → Tx (Unit {0})
insert_delegation_events rows db =
    ok (tt, record db { delegation_events = db.delegation_events ++ rows })

-- `if result.RowsAffected() != 1 { return errors.New(message) }`
unfoldable pub require_one : {S : Type 0} → ℕ → String → TxOn S (Unit {0})
unfolding pure raise
require_one rows message = if eqb rows 1 then pure tt else raise message

-- `tx.Commit`, or the deferred `tx.Rollback` after an error.
abbrev pub finish : {S A : Type 0} → S → Result (A × S) → Result A × S
finish db (ok (a, db')) = (ok a, db')
finish db (err e) = (err e, db)

unfoldable pub transact : {S A : Type 0} → TxOn S A → S → Result A × S
transact m db = finish db (m db)
