-- ===== src/Delivery/Finality.antt =====
-- What the delivery queue promises: a settled delivery is final, and a lease is exclusive.
use open_im.Prelude.{
  ℕ, ◌≤◌, String, ◌≡◌, ◌≢◌, refl, Bool, true, false, Option, none, some, arith, ◌==◌, eq_iff,
  All-first_by,
}
use open_im.Database.{Db, DeliveryRow, DeliveryState}
use open_im.Database.Tx.{Result, ok, err, transact, update_deliveries}
use open_im.Delivery.Statements.{Record, duration_seconds}
use open_im.Delivery.Claim.{
  claim_tx, candidate, is_claimable, comes_before, record_of, lease_candidate,
}
use open_im.Delivery.Row.{IsRow}
use open_im.Delivery.Unique.{misses-select}
use open_im.Delivery.Steps.{Reach, AnyTime, AnyRecord, Sound, Reach-Sound, Reach-IsRow}

abbrev pub is_settled : DeliveryState → Bool
is_settled DeliveryState.sent = true
is_settled DeliveryState.uncertain = true
is_settled DeliveryState.failed = true
is_settled _ = false

module _ (max_attempts : ℕ) (id : String) (d : DeliveryRow)
    (final : is_settled d.state ≡ true) where
  -- A delivery that is sent, uncertain or failed stays exactly as it is, whatever transactions
  -- follow, at any times and with any records.
  pub settled_stays :
      {s t : Db}
      → Sound max_attempts s
      → IsRow id d s.deliveries
      → Reach max_attempts AnyTime AnyRecord s t
      → IsRow id d t.deliveries
  settled_stays s h r =
      Reach-IsRow max_attempts id d (λ db locked now _. ground arith) (λ now _. ground arith)
        (λ r _. ground arith) r s h

-- What a claim returns is the candidate, leased.
pub claim_tx-candidate :
    (locked : String → Bool) (token : String) (lease max_attempts now : ℕ) (db : Db) (r : Record)
    → (transact (claim_tx locked token lease max_attempts now) db).0 ≡ ok (some r)
    → (c : DeliveryRow) × (candidate db locked max_attempts now ≡ some c) × (r ≡ record_of token c)
unfolding claim_tx transact lease_candidate update_deliveries
claim_tx-candidate locked token lease max_attempts now db r h =
    found (candidate db locked max_attempts now) refl h
  where
    found :
        (o : Option DeliveryRow)
        → candidate db locked max_attempts now ≡ o
        → (open_im.Database.Tx.finish db
            (lease_candidate now token (duration_seconds lease) o db)).0
          ≡ ok (some r)
        → (c : DeliveryRow) × (candidate db locked max_attempts now ≡ some c)
          × (r ≡ record_of token c)
    found none e k = cc
    found (some c) e k = (c, e, cc)

-- A claim returns no record of a row on which its test is false.
pub claim_tx_passes :
    (id : String) (d : DeliveryRow) (locked : String → Bool) (token : String)
    (lease max_attempts now : ℕ) (db : Db) (r : Record)
    → Sound max_attempts db
    → IsRow id d db.deliveries
    → is_claimable db locked max_attempts now d ≡ false
    → (transact (claim_tx locked token lease max_attempts now) db).0 ≡ ok (some r)
    → r.id ≢ id
claim_tx_passes id d locked token lease max_attempts now db r s h miss e same =
    let (c, chosen, shape) = claim_tx-candidate locked token lease max_attempts now db r e in
    let other : (id == c.id) ≡ false =
      All-first_by _ comes_before _
        (misses-select (is_claimable db locked max_attempts now) id d db.deliveries s.unique h miss)
        chosen in
    let its_id : c.id ≡ r.id = cc in ground (arith, eq_iff id c.id)

-- Once a delivery is sent, uncertain or failed, no later claim hands it to a worker again: a reply
-- whose outcome is known or unknown is never sent a second time.
pub settled_never_claimed :
    (max_attempts : ℕ) (id : String) (d : DeliveryRow) {s t : Db} (locked : String → Bool)
    (token : String) (lease now : ℕ) (r : Record)
    → is_settled d.state ≡ true
    → Sound max_attempts s
    → IsRow id d s.deliveries
    → Reach max_attempts AnyTime AnyRecord s t
    → (transact (claim_tx locked token lease max_attempts now) t).0 ≡ ok (some r)
    → r.id ≢ id
settled_never_claimed max_attempts id d {s} {t} locked token lease now r final sound h reach =
    claim_tx_passes id d locked token lease max_attempts now t r
      (Reach-Sound max_attempts reach sound) (settled_stays max_attempts id d final sound h reach)
      (ground arith)

-- Times at which a lease that ends at `until` has not run out, and records of other leases.
abbrev pub Before : ℕ → ℕ → Type 0
Before until now = now ≤ until

abbrev pub OfAnother : String → Record → Type 0
OfAnother token r = (token == r.lease_token) ≡ false

module _ (max_attempts : ℕ) (id : String) (d : DeliveryRow) (token : String) (until : ℕ)
    (leased : d.state ≡ DeliveryState.sending) (its_token : d.lease_token ≡ some token)
    (its_end : d.lease_until ≡ some until) where
  not_due :
      (db : Db) (locked : String → Bool) (now : ℕ)
      → now ≤ until
      → is_claimable db locked max_attempts now d ≡ false
  not_due db locked now early = ground arith

  -- While a lease has not run out and its worker has not come back, no transaction of another
  -- worker, the recovery of exhausted deliveries included, changes the leased row.
  pub lease_exclusive :
      {s t : Db}
      → Sound max_attempts s
      → IsRow id d s.deliveries
      → Reach max_attempts (Before until) (OfAnother token) s t
      → IsRow id d t.deliveries
  lease_exclusive sound h reach =
      Reach-IsRow max_attempts id d not_due (λ now e. ground arith) (λ r o. ground arith) reach
        sound h

  -- From a sound table, no claim hands a delivery that is being sent to a second worker before its
  -- lease runs out, whichever rows are locked, whatever the claim's token, and whatever
  -- transactions the other workers have made in that time.
  pub leased_never_claimed :
      {s t : Db} (locked : String → Bool) (fresh : String) (lease now : ℕ) (r : Record)
      → Sound max_attempts s
      → IsRow id d s.deliveries
      → Reach max_attempts (Before until) (OfAnother token) s t
      → now ≤ until
      → (transact (claim_tx locked fresh lease max_attempts now) t).0 ≡ ok (some r)
      → r.id ≢ id
  leased_never_claimed {s} {t} locked fresh lease now r sound h reach early =
      claim_tx_passes id d locked fresh lease max_attempts now t r
        (Reach-Sound max_attempts reach sound) (lease_exclusive sound h reach)
        (not_due t locked now early)
