-- ===== src/Ingress/Steps.antt =====
-- Every sequence of the operations of internal/ingress/store.go, and how a property is shown of it.
use open_im.Prelude.{ℕ, String, Bool, true, false, Option, none, some, if◌then◌else◌, ◌==◌}
use open_im.Prelude.Decimal.{ℤ}
use open_im.Database.Tx.{Result, ok, err, transact}
use open_im.Database.Tx.Frame.{
  Keeps, Keeps-pure, Keeps-raise, Keeps-query, Keeps-if, Keeps-bind, Keeps-transact,
}
use open_im.Ingress.Message.{IngressSource, IngressEvent, Message}
use open_im.Ingress.Tables.{IngressRejection, SenderRow, IngressDb, insert_ingress_rejection}
use open_im.Ingress.Store.{
  ingest_event, ingest_message, ingest_from, ingest_tx, ingest, ingest_bound_tx, ingest_bound,
  reject_message, claim_outbox_tx, claim_outbox, mark_published_tx, mark_published,
  release_outbox_tx, release_outbox,
}

-- The operations of the store, by anyone, in any order.
pub data IngressSteps (rfc3339 : ℤ → String) (s : IngressDb) : IngressDb → Type 0 where
  here : IngressSteps rfc3339 s s
  ingested :
      {t : IngressDb}
      → IngressSteps rfc3339 s t
      → (event_id : String) (now : ℕ) (m : Message)
      → IngressSteps rfc3339 s (ingest rfc3339 event_id now m t).1
  bound :
      {t : IngressDb}
      → IngressSteps rfc3339 s t
      → (event_id : String) (now : ℕ) (m : Message) (tenant_id member_id : String)
      → IngressSteps rfc3339 s (ingest_bound rfc3339 event_id now m tenant_id member_id t).1
  rejected :
      {t : IngressDb}
      → IngressSteps rfc3339 s t
      → (row : IngressRejection) → IngressSteps rfc3339 s (reject_message row t).1
  claimed :
      {t : IngressDb}
      → IngressSteps rfc3339 s t
      → (locked : String → Bool) (token : String) (limit lease now : ℕ)
      → IngressSteps rfc3339 s (claim_outbox locked token limit lease now t).1
  published :
      {t : IngressDb}
      → IngressSteps rfc3339 s t
      → (now : ℕ) (event_id token : String)
      → IngressSteps rfc3339 s (mark_published now event_id token t).1
  released :
      {t : IngressDb}
      → IngressSteps rfc3339 s t
      → (now : ℕ) (event_id token failure : String) (retry_after : ℕ)
      → IngressSteps rfc3339 s (release_outbox now event_id token failure retry_after t).1

-- What the transactions of the store are made of keeps `P`.
pub record StoreKeeps (P : IngressDb → Type 0) : Type 0 where
  pub accepts :
      (now : ℕ) (source : IngressSource) (tenant_id : String) (event : IngressEvent)
      → Keeps P (ingest_event now source tenant_id (ok event))
  pub rejects : (row : IngressRejection) → Keeps P (insert_ingress_rejection row)
  pub claims :
      (locked : String → Bool) (token : String) (limit lease now : ℕ)
      → Keeps P (claim_outbox_tx locked token limit lease now)
  pub publishes :
      (now : ℕ) (event_id token : String) → Keeps P (mark_published_tx now event_id token)
  pub releases :
      (now : ℕ) (event_id token failure : String) (retry_after : ℕ)
      → Keeps P (release_outbox_tx now event_id token failure retry_after)

module _ {P : IngressDb → Type 0} (k : StoreKeeps P) where
  event-kept :
      (now : ℕ) (source : IngressSource) (tenant_id : String) (r : Result IngressEvent)
      → Keeps P (ingest_event now source tenant_id r)
  unfolding ingest_event
  event-kept now source tenant_id (ok event) = k.accepts now source tenant_id event
  event-kept now source tenant_id (err e) = Keeps-raise e

  rejection-kept : (row : IngressRejection) → Keeps P (insert_ingress_rejection row)
  rejection-kept row = k.rejects row

  module _ (rfc3339 : ℤ → String) (event_id : String) (now : ℕ) (m : Message) where
    message-kept :
        (tenant_id member_id : String)
        → Keeps P (ingest_message rfc3339 event_id now m tenant_id member_id)
    unfolding ingest_message
    message-kept tenant_id member_id = event-kept now m.source tenant_id _

    from-kept : (s : Option SenderRow) → Keeps P (ingest_from rfc3339 event_id now m s)
    unfolding ingest_from
    from-kept none = search (Keeps-bind, Keeps-pure, rejection-kept) depth 5
    from-kept (some s) = message-kept _ _

    ingest-kept : Keeps P (ingest_tx rfc3339 event_id now m)
    unfolding ingest_tx
    ingest-kept = search (Keeps-bind, Keeps-query, from-kept) depth 5

    bound-kept :
        (tenant_id member_id : String)
        → Keeps P (ingest_bound_tx rfc3339 event_id now m tenant_id member_id)
    unfolding ingest_bound_tx
    bound-kept tenant_id member_id =
        search (Keeps-bind, Keeps-query, Keeps-if, Keeps-raise, message-kept) depth 6

either-kept :
    {A : Type 0} (P : IngressDb → Type 0) (b : Bool) (x y : A × IngressDb)
    → P x.1
    → P y.1
    → P (if b then x else y).1
either-kept P true x y h k = h
either-kept P false x y h k = k

module _ {P : IngressDb → Type 0} where
  pub IngressSteps-keep :
      {rfc3339 : ℤ → String}
      → StoreKeeps P
      → {s t : IngressDb} → IngressSteps rfc3339 s t
      → P s
      → P t
  unfolding ingest ingest_bound reject_message claim_outbox mark_published release_outbox
  IngressSteps-keep k here h = h
  IngressSteps-keep {rfc3339} k (ingested {t} before event_id now m) h =
      Keeps-transact {P = P} _ t (ingest-kept k rfc3339 event_id now m)
        (IngressSteps-keep k before h)
  IngressSteps-keep {rfc3339} k (bound {t} before event_id now m tenant_id member_id) h =
      let h' = IngressSteps-keep k before h in
      either-kept P (m.source_channel == "telegram")
        (transact (ingest_bound_tx rfc3339 event_id now m tenant_id member_id) t)
        (err "bound ingress is only supported for Telegram", t)
        (Keeps-transact {P = P} _ t (bound-kept k rfc3339 event_id now m tenant_id member_id) h') h'
  IngressSteps-keep k (rejected {t} before row) h =
      Keeps-transact {P = P} _ t (k.rejects row) (IngressSteps-keep k before h)
  IngressSteps-keep k (claimed {t} before locked token limit lease now) h =
      Keeps-transact {P = P} _ t (k.claims locked token limit lease now)
        (IngressSteps-keep k before h)
  IngressSteps-keep k (published {t} before now event_id token) h =
      Keeps-transact {P = P} _ t (k.publishes now event_id token) (IngressSteps-keep k before h)
  IngressSteps-keep k (released {t} before now event_id token failure retry_after) h =
      Keeps-transact {P = P} _ t (k.releases now event_id token failure retry_after)
        (IngressSteps-keep k before h)
