-- ===== src/Delivery/Steps.antt =====
-- The delivery table under any interleaving of the transactions of internal/delivery/store.go, run
-- by any number of workers and Agent runtimes.
use open_im.Prelude.{ℕ, String, ◌≡◌, refl, Bool, false, Option, none, some, ◌==◌, All-first_by}
use open_im.Database.{Db, DeliveryRow, DeliveryState}
use open_im.Database.Tx.{Result, transact, update_deliveries}
use open_im.Delivery.Statements.{PrepareRequest, Record, holds_delivery, duration_seconds}
use open_im.Delivery.Prepare.{prepare}
use open_im.Delivery.Exhausted.{fail_exhausted, is_exhausted}
use open_im.Delivery.Claim.{
  claim_tx, candidate, is_claimable, comes_before, lease_out, lease_candidate,
}
use open_im.Delivery.Marks.{Verdict, mark_sent, finish_failure, mark_retry}
use open_im.Delivery.Row.{IsRow, found_id, IsRow-update, Keeps-update, Keeps-insert_new_delivery}
use open_im.Delivery.Row.Operations.{
  deliveries-prepare, deliveries-fail_exhausted, deliveries-mark_sent, deliveries-finish_failure,
  deliveries-mark_retry, after,
}
use open_im.Delivery.Unique.{misses-select}
use open_im.Delivery.Invariant.{
  IsSound, IsSound-deliver, IsSound-give_up, IsSound-requeue, IsSound-exhaust,
  IsSound-insert_new_delivery, IsSound-claim_tx,
}

-- The second transaction of Claim, on its own.
abbrev pub lease_one : (String → Bool) → String → ℕ → ℕ → ℕ → Db → Db
lease_one locked token lease max_attempts now db =
    (transact (claim_tx locked token lease max_attempts now) db).1

-- One committed or failed transaction. MarkPermanent and MarkUncertain are `finish_failure`, and
-- `other` is a transaction of another component, which leaves the table alone. `At` limits the
-- times at which leases are judged, and `By` the records that workers bring back.
pub data Step (max_attempts : ℕ) (At : ℕ → Type 0) (By : Record → Type 0) : Db → Db → Type 0 where
  preparing :
      (delivery_id : String) (now : ℕ) (r : PrepareRequest) (db : Db)
      → Step max_attempts At By db (prepare delivery_id now r db).1
  exhausting :
      (now : ℕ)
      → At now
      → (db : Db) → Step max_attempts At By db (fail_exhausted max_attempts now db).1
  leasing :
      (locked : String → Bool) (token : String) (lease now : ℕ)
      → At now
      → (db : Db) → Step max_attempts At By db (lease_one locked token lease max_attempts now db)
  marking_sent :
      (sha256_hex : String → String) (now : ℕ) (r : Record) (external : String)
      → By r
      → (db : Db) → Step max_attempts At By db (mark_sent sha256_hex now r external db).1
  retrying :
      (now : ℕ) (r : Record) (failure : String) (retry_after : ℕ)
      → By r
      → (db : Db)
      → Step max_attempts At By db (mark_retry now r failure max_attempts retry_after db).1
  failing :
      (now : ℕ) (r : Record) (verdict : Verdict) (failure event_type : String)
      → By r
      → (db : Db)
      → Step max_attempts At By db (finish_failure now r verdict failure event_type db).1
  other : (db db' : Db) → db'.deliveries ≡ db.deliveries → Step max_attempts At By db db'

pub data Reach (max_attempts : ℕ) (At : ℕ → Type 0) (By : Record → Type 0) (s : Db)
    : Db → Type 0 where
  here : Reach max_attempts At By s s
  next :
      {t u : Db}
      → Reach max_attempts At By s t
      → Step max_attempts At By t u
      → Reach max_attempts At By s u

abbrev pub AnyTime : ℕ → Type 0
AnyTime _ = Unit

abbrev pub AnyRecord : Record → Type 0
AnyRecord _ = Unit

abbrev pub Sound : ℕ → Db → Type 0
Sound max_attempts db = IsSound max_attempts db.deliveries

module _ (max_attempts : ℕ) {At : ℕ → Type 0} {By : Record → Type 0} where
  pub Step-Sound :
      {s t : Db} → Step max_attempts At By s t → Sound max_attempts s → Sound max_attempts t
  Step-Sound (preparing delivery_id now r db) h =
      deliveries-prepare db delivery_id now r
        (IsSound-insert_new_delivery max_attempts delivery_id now r) h
  Step-Sound (exhausting now _ db) h =
      deliveries-fail_exhausted db max_attempts now (IsSound-exhaust max_attempts max_attempts now)
        h
  Step-Sound (leasing locked token lease now _ db) h =
      after db _ (IsSound-claim_tx max_attempts locked token lease now) h
  Step-Sound (marking_sent sha256_hex now r external _ db) h =
      deliveries-mark_sent db sha256_hex now r external
        (IsSound-deliver max_attempts now r external) h
  Step-Sound (retrying now r failure retry_after _ db) h =
      deliveries-mark_retry db now r failure max_attempts retry_after
        (IsSound-give_up max_attempts now r Verdict.failed _)
        (IsSound-requeue max_attempts now r _ _) h
  Step-Sound (failing now r verdict failure event_type _ db) h =
      deliveries-finish_failure db now r verdict failure event_type
        (IsSound-give_up max_attempts now r verdict failure) h
  Step-Sound (other db db' same) h = rw same h

  -- From a sound table every interleaving of the transactions leads to a sound table: delivery ids
  -- stay unique, a lease token and a lease end stand on a row exactly while it is being sent, a
  -- sent row has its external message id, and no row has more attempts than the limit.
  pub Reach-Sound :
      {s t : Db} → Reach max_attempts At By s t → Sound max_attempts s → Sound max_attempts t
  Reach-Sound here h = h
  Reach-Sound (next r st) h = Step-Sound st (Reach-Sound r h)

-- The candidate of a claim is another row than one that is not claimable.
IsRow-lease_one :
    (id : String) (d : DeliveryRow) (locked : String → Bool) (token : String)
    (lease max_attempts now : ℕ) (db : Db)
    → Sound max_attempts db
    → is_claimable db locked max_attempts now d ≡ false
    → IsRow id d db.deliveries
    → IsRow id d (lease_one locked token lease max_attempts now db).deliveries
unfolding claim_tx transact lease_candidate update_deliveries
IsRow-lease_one id d locked token lease max_attempts now db s miss h =
    leased (candidate db locked max_attempts now) (λ c.
      All-first_by _ comes_before _ (
        misses-select (is_claimable db locked max_attempts now) id d db.deliveries s.unique h miss))
  where
    leased :
        (o : Option DeliveryRow)
        → ((c : DeliveryRow) → o ≡ some c → (id == c.id) ≡ false)
        → IsRow id d
            (open_im.Database.Tx.finish db
              (lease_candidate now token (duration_seconds lease) o db)).1.deliveries
    leased none k = h
    leased (some c) k =
        IsRow-update id d (λ e. e.id == c.id) (lease_out now token _) (λ e. refl)
          (rw (found_id id d db.deliveries h) (k c refl)) db.deliveries h

module _ (max_attempts : ℕ) {At : ℕ → Type 0} {By : Record → Type 0} (id : String) (d : DeliveryRow)
    (free_of_claim : (db : Db) (locked : String → Bool) (now : ℕ)
      → At now
      → is_claimable db locked max_attempts now d ≡ false)
    (free_of_expiry : (now : ℕ) → At now → is_exhausted max_attempts now d ≡ false)
    (free_of_marks : (r : Record) → By r → holds_delivery r d ≡ false) where
  -- A row on which the tests of all the transactions are false.
  pub Step-IsRow :
      {s t : Db}
      → Step max_attempts At By s t
      → Sound max_attempts s
      → IsRow id d s.deliveries
      → IsRow id d t.deliveries
  Step-IsRow (preparing delivery_id now r db) s h =
      deliveries-prepare db delivery_id now r (Keeps-insert_new_delivery id d delivery_id now r) h
  Step-IsRow (exhausting now a db) s h =
      deliveries-fail_exhausted db max_attempts now
        (Keeps-update id d _ _ (λ e. refl) (free_of_expiry now a)) h
  Step-IsRow (leasing locked token lease now a db) s h =
      IsRow-lease_one id d locked token lease max_attempts now db s (free_of_claim db locked now a)
        h
  Step-IsRow (marking_sent sha256_hex now r external b db) s h =
      deliveries-mark_sent db sha256_hex now r external
        (Keeps-update id d _ _ (λ e. refl) (free_of_marks r b)) h
  Step-IsRow (retrying now r failure retry_after b db) s h =
      deliveries-mark_retry db now r failure max_attempts retry_after
        (Keeps-update id d _ _ (λ e. refl) (free_of_marks r b))
        (Keeps-update id d _ _ (λ e. refl) (free_of_marks r b)) h
  Step-IsRow (failing now r verdict failure event_type b db) s h =
      deliveries-finish_failure db now r verdict failure event_type
        (Keeps-update id d _ _ (λ e. refl) (free_of_marks r b)) h
  Step-IsRow (other db db' same) s h = rw same h

  pub Reach-IsRow :
      {s t : Db}
      → Reach max_attempts At By s t
      → Sound max_attempts s
      → IsRow id d s.deliveries
      → IsRow id d t.deliveries
  Reach-IsRow here s h = h
  Reach-IsRow (next r st) s h = Step-IsRow st (Reach-Sound max_attempts r s) (Reach-IsRow r s h)
