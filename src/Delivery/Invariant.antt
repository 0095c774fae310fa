-- ===== src/Delivery/Invariant.antt =====
-- What holds of agent.deliveries between transactions: the constraints that the schema states,
-- which no operation runs into, and the bound on the attempts.
use open_im.Prelude.{
  ℕ, ◌≤◌, String, ◌≡◌, refl, Bool, true, false, Option, none, some, List, [], ◌∷◌, ◌++◌, arith, All,
  All-append, All-update_where, All-update_where_of, All-first_by, All-zip, any, if◌then◌else◌,
  ◌==◌, update_where,
}
use open_im.Database.{Db, DeliveryRow, DeliveryState}
use open_im.Database.Tx.{raise, insert_delivery, update_deliveries}
use open_im.Database.Tx.Frame.{Keeps, After, OnDeliveries, OnDeliveries-update_deliveries}
use open_im.Delivery.Statements.{
  PrepareRequest, Record, holds_delivery, is_sending, duration_seconds,
}
use open_im.Delivery.Prepare.{insert_new_delivery, new_delivery}
use open_im.Delivery.Exhausted.{is_exhausted, exhaust}
use open_im.Delivery.Claim.{
  candidate, is_claimable, comes_before, lease_out, lease_candidate, claim_tx,
}
use open_im.Delivery.Marks.{Verdict, deliver, give_up, requeue}
use open_im.Delivery.Unique.{HasUniqueIds, HasUniqueIds-update, HasUniqueIds-append, select-alone}

abbrev pub is_set {ℓ} : {A : Type ℓ} → Option A → Bool
is_set none = false
is_set (some _) = true

abbrev pub is_sent : DeliveryState → Bool
is_sent DeliveryState.sent = true
is_sent _ = false

-- A row of agent.deliveries: a lease exactly while it is being sent, an external id once it is
-- sent, and no more attempts than allowed.
pub record IsSoundRow (max_attempts : ℕ) (d : DeliveryRow) : Type 0 where
  pub token_iff : is_set d.lease_token ≡ is_sending d.state
  pub until_iff : is_set d.lease_until ≡ is_sending d.state
  pub named : is_sent d.state ≡ true → is_set d.external_message_id ≡ true
  pub bounded : d.attempts ≤ max_attempts

pub record IsSound (max_attempts : ℕ) (rows : List DeliveryRow) : Type 0 where
  pub unique : HasUniqueIds rows
  pub sound : All (IsSoundRow max_attempts) rows

module _ (max_attempts : ℕ) where
  IsSound-update :
      (p : DeliveryRow → Bool) (f : DeliveryRow → DeliveryRow)
      → ((e : DeliveryRow) → (f e).id ≡ e.id)
      → ((e : DeliveryRow) → p e ≡ true → IsSoundRow max_attempts e → IsSoundRow max_attempts (f e))
      → Keeps (OnDeliveries (IsSound max_attempts)) (update_deliveries p f)
  IsSound-update p f same step = OnDeliveries-update_deliveries p f λ rows s. record {
    unique = HasUniqueIds-update p f same rows s.unique;
    sound = All-update_where _ p f rows step s.sound;
  }

  pub IsSound-deliver :
      (now : ℕ) (r : Record) (external : String)
      → Keeps
          (OnDeliveries (IsSound max_attempts))
          (update_deliveries (holds_delivery r) (deliver now external))
  IsSound-deliver now r external = IsSound-update _ _ (λ e. refl) (λ e _ s. ground arith)

  pub IsSound-give_up :
      (now : ℕ) (r : Record) (verdict : Verdict) (failure : String)
      → Keeps
          (OnDeliveries (IsSound max_attempts))
          (update_deliveries (holds_delivery r) (give_up now verdict failure))
  IsSound-give_up now r verdict failure = IsSound-update _ _ (λ e. refl) (λ e _ s. ground arith)

  pub IsSound-requeue :
      (now : ℕ) (r : Record) (seconds : ℕ) (failure : String)
      → Keeps
          (OnDeliveries (IsSound max_attempts))
          (update_deliveries (holds_delivery r) (requeue now seconds failure))
  IsSound-requeue now r seconds failure = IsSound-update _ _ (λ e. refl) (λ e _ s. ground arith)

  pub IsSound-exhaust :
      (limit now : ℕ)
      → Keeps
          (OnDeliveries (IsSound max_attempts))
          (update_deliveries (is_exhausted limit now) (exhaust now))
  IsSound-exhaust limit now = IsSound-update _ _ (λ e. refl) (λ e _ s. ground arith)

  -- A new row's id was checked against the table.
  pub IsSound-insert_new_delivery :
      (delivery_id : String) (now : ℕ) (r : PrepareRequest)
      → Keeps (OnDeliveries (IsSound max_attempts)) (insert_new_delivery delivery_id now r)
  unfolding insert_new_delivery
  IsSound-insert_new_delivery delivery_id now r = record { at = λ db h. inserted db h }
    where
      added :
          (db : Db)
          → OnDeliveries (IsSound max_attempts) db
          → any (λ (d : DeliveryRow). d.id == delivery_id) db.deliveries ≡ false
          → IsSound max_attempts (db.deliveries ++ new_delivery delivery_id now r ∷ [])
      added db h fresh = record {
        unique = HasUniqueIds-append _ db.deliveries fresh h.holds.unique;
        sound = All-append _ db.deliveries _ h.holds.sound (ground arith, tt);
      }

      guarded :
          (a b c : Bool) (db : Db)
          → OnDeliveries (IsSound max_attempts) db
          → (c ≡ false
              → IsSound max_attempts (db.deliveries ++ new_delivery delivery_id now r ∷ []))
          → After (OnDeliveries (IsSound max_attempts)) (
              (if a
                  then raise "insert Agent delivery: constraint violation"
                  else if b
                  then raise "prepare Agent delivery: Run already has a delivery"
                  else if c
                  then raise "insert Agent delivery: duplicate key"
                  else insert_delivery (new_delivery delivery_id now r))
                db)
      guarded true b c db h k = tt
      guarded false true c db h k = tt
      guarded false false true db h k = tt
      guarded false false false db h k = record { holds = k refl }

      inserted :
          (db : Db)
          → OnDeliveries (IsSound max_attempts) db
          → After (OnDeliveries (IsSound max_attempts)) (insert_new_delivery delivery_id now r db)
      inserted db h = guarded _ _ _ db h (added db h)

  claimed :
      (locked : String → Bool) (token : String) (seconds now : ℕ) (db : Db)
      → IsSound max_attempts db.deliveries
      → (c : DeliveryRow) → candidate db locked max_attempts now ≡ some c
      → IsSound max_attempts
          (update_where (λ e. e.id == c.id) (lease_out now token seconds) db.deliveries)
  claimed locked token seconds now db s c e = record {
    unique = HasUniqueIds-update _ _ (λ e. refl) db.deliveries s.unique;
    sound =
        All-update_where_of _ _ _ db.deliveries
          (All-zip _ _ _ db.deliveries (λ d due sd same. leased d (due same) sd)
            (All-first_by _ comes_before _
              (select-alone (is_claimable db locked max_attempts now) db.deliveries s.unique) e)
            s.sound)
          s.sound;
  }
    where
      leased :
          (d : DeliveryRow)
          → is_claimable db locked max_attempts now d ≡ true
          → IsSoundRow max_attempts d
          → IsSoundRow max_attempts (lease_out now token seconds d)
      leased d due sd = record {
        token_iff = refl;
        until_iff = refl;
        named = λ e. cc;
        bounded = ground arith;
      }

  pub IsSound-claim_tx :
      (locked : String → Bool) (token : String) (lease now : ℕ)
      → Keeps (OnDeliveries (IsSound max_attempts)) (claim_tx locked token lease max_attempts now)
  unfolding claim_tx update_deliveries
  IsSound-claim_tx locked token lease now = record {
    at = λ db h.
        found db h (candidate db locked max_attempts now) (claimed locked token _ now db h.holds);
  }
    where
      found :
          (db : Db)
          → OnDeliveries (IsSound max_attempts) db
          → (o : Option DeliveryRow)
          → ((c : DeliveryRow)
              → o ≡ some c
              → IsSound max_attempts (
                  update_where
                    (λ e. e.id == c.id)
                    (lease_out now token (duration_seconds lease))
                    db.deliveries))
          → After
              (OnDeliveries (IsSound max_attempts))
              (lease_candidate now token (duration_seconds lease) o db)
      found db h none k = h
      found db h (some c) k = record { holds = k c refl }
