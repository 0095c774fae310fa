-- ===== src/Ingress/Committed/Records.antt =====
-- The records of a Kafka claim, each committed after it is stored.
use open_im.Prelude.{
  ℕ, String, ◌≡◌, refl, Bool, ◌&&◌, not, Option, none, some, List, [], ◌∷◌, ◌++◌, append,
  Bool-cases, inl, inr, ◌==◌,
}
use open_im.Prelude.Decimal.{ℤ}
use open_im.Database.Tx.{Result, ok, err, finish, query, raise}
use open_im.Database.Tx.Frame.{
  Keeps, After, After-then, Keeps-pure, Keeps-raise, Keeps-query, Keeps-bind,
}
use open_im.Ingress.Message.{IngressSource, IngressEvent, Message, to_event}
use open_im.Ingress.Tables.{
  IngressRow, SenderRow, IngressDb, insert_message, insert_ingress_rejection, clashes_with,
}
use open_im.Ingress.Store.{
  ingest_event, ingest_message, ingest_from, ingest_tx, rejection_of, sender_of, Outcome,
}
use open_im.Ingress.Consumer.{Consumed, commit_after}
use open_im.Ingress.Committed.{
  is_known, Stored, keep_rejection, keep_message, keep_inserted, rejected-Stored, inserted-Stored,
}

module _ (source : IngressSource) (known : IngressRow → Bool) where
  keep_event :
      (now : ℕ) (from : IngressSource) (tenant_id : String) (r : Result IngressEvent)
      → Keeps (Stored source known) (ingest_event now from tenant_id r)
  unfolding ingest_event
  keep_event now from tenant_id (ok event) =
      search (Keeps-bind, keep_message, keep_inserted) depth 6
  keep_event now from tenant_id (err e) = Keeps-raise e

  keep_from :
      (rfc3339 : ℤ → String) (event_id : String) (now : ℕ) (m : Message) (s : Option SenderRow)
      → Keeps (Stored source known) (ingest_from rfc3339 event_id now m s)
  unfolding ingest_from ingest_message
  keep_from rfc3339 event_id now m none = search (Keeps-bind, Keeps-pure, keep_rejection) depth 6
  keep_from rfc3339 event_id now m (some s) = keep_event now m.source s.tenant_id _

  pub keep_ingest :
      (rfc3339 : ℤ → String) (event_id : String) (now : ℕ) (m : Message)
      → Keeps (Stored source known) (ingest_tx rfc3339 event_id now m)
  unfolding ingest_tx
  keep_ingest rfc3339 event_id now m = search (Keeps-bind, Keeps-query, keep_from) depth 6

to_event-clash :
    (rfc3339 : ℤ → String) (event_id : String) (m : Message) (tenant_id member_id : String)
    (event : IngressEvent)
    → to_event rfc3339 event_id m tenant_id member_id ≡ ok event
    → (x : IngressRow)
    → clashes_with (record { source = m.source; event = event }) x ≡ is_known event_id m x
unfolding to_event
to_event-clash rfc3339 event_id m tenant_id member_id event h x =
    elim (Bool-cases (not (m.source_channel == "openim") && not (m.source_channel == "telegram"))) [
      | inl e ↦ absurd (let r = rw e at h in cc)
      | inr e ↦
          let r = rw e at h in
          let k : event.source_key ≡ append m.source_channel (append ":" m.server_msg_id) = cc in
          let i : event.event_id ≡ event_id = cc in
          let d : event.server_msg_id ≡ m.server_msg_id = cc in rw (k, i, d) refl
    ]

module _ (event_id : String) (m : Message) where
  event-Stored :
      (now : ℕ) (tenant_id : String) (r : Result IngressEvent) (db : IngressDb)
      → ((event : IngressEvent)
          → r ≡ ok event
          → (x : IngressRow)
          → clashes_with (record { source = m.source; event = event }) x ≡ is_known event_id m x)
      → After (Stored m.source (is_known event_id m)) (ingest_event now m.source tenant_id r db)
  unfolding ingest_event raise
  event-Stored now tenant_id (err e) db same = tt
  event-Stored now tenant_id (ok event) db same =
      After-then (Stored m.source (is_known event_id m)) (Stored m.source (is_known event_id m)) _
        (insert_message (record { source = m.source; event = event })) db
        (inserted-Stored m.source (is_known event_id m)
          (record { source = m.source; event = event }) db (same event refl))
        (λ b db1 h1. (keep_inserted m.source (is_known event_id m) now tenant_id event b).at db1 h1)

  from-Stored :
      (rfc3339 : ℤ → String) (now : ℕ) (s : Option SenderRow) (db : IngressDb)
      → After (Stored m.source (is_known event_id m)) (ingest_from rfc3339 event_id now m s db)
  unfolding ingest_from ingest_message
  from-Stored rfc3339 now none db =
      After-then (Stored m.source (is_known event_id m)) (Stored m.source (is_known event_id m)) _
        (insert_ingress_rejection (rejection_of m "unmapped_sender")) db
        (rejected-Stored m.source (is_known event_id m) (rejection_of m "unmapped_sender") db refl)
        (λ _ db1 h1.
          (Keeps-pure {P = Stored m.source (is_known event_id m)} Outcome.unmapped).at db1 h1)
  from-Stored rfc3339 now (some s) db =
      event-Stored now s.tenant_id _ db (to_event-clash rfc3339 event_id m s.tenant_id _)

  pub ingest-Stored :
      (rfc3339 : ℤ → String) (now : ℕ) (db : IngressDb)
      → After (Stored m.source (is_known event_id m)) (ingest_tx rfc3339 event_id now m db)
  unfolding ingest_tx query
  ingest-Stored rfc3339 now db = from-Stored rfc3339 now (sender_of db m.sender_id) db

module _ (P : IngressDb → Type 0) (from : IngressSource) (done : List IngressSource) where
  -- What is stored where a commit follows.
  abbrev pub Commits : Result (Unit {0}) × Consumed → Type 0
  Commits (ok _, t) = P t.db × (t.committed ≡ done ++ from ∷ [])
  Commits (err e, t) = t.committed ≡ done

  pub Commits-After :
      {A : Type 0} (db : IngressDb) (r : Result (A × IngressDb))
      → After P r
      → Commits (commit_after from done (finish db r))
  Commits-After db (ok (a, t)) h = (h, refl)
  Commits-After db (err e) h = refl

  pub commit_after_keeps :
      {A : Type 0} (x : Result A × IngressDb) → P x.1 → P (commit_after from done x).1.db
  commit_after_keeps (ok a, db) h = h
  commit_after_keeps (err e, db) h = h
