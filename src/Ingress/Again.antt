-- ===== src/Ingress/Again.antt =====
-- A message of Telegram that comes again to IngestBound of internal/ingress/store.go.
use open_im.Prelude.{
  ℕ, String, ◌≡◌, refl, ap, Bool, true, false, ◌&&◌, not, List, [], ◌∷◌, arith, any, any-append,
  if◌then◌else◌, append, Bool-cases, inl, inr, ◌==◌,
}
use open_im.Prelude.Decimal.{ℤ}
use open_im.Database.Tx.{Result, ok, err, transact, finish, query, raise, pure}
use open_im.Database.Tx.Frame.{
  Keeps, Keeps-pure, Keeps-raise, Keeps-query, Keeps-if, Keeps-bind, Keeps-require_one,
}
use open_im.Database.Tx.Results.{bind-of-ok}
use open_im.Ingress.Message.{IngressSource, IngressEvent, Message, to_event}
use open_im.Ingress.Tables.{
  IngressRow, OutboxRow, IngressRejection, IngressDb, insert_message, insert_outbox,
  insert_ingress_rejection, update_outbox, clashes_with, same_source,
}
use open_im.Ingress.Store.{
  after_insert, ingest_event, ingest_message, ingest_bound_tx, ingest_bound, claim_outbox_tx,
  mark_published_tx, release_outbox_tx, is_active_of,
}
use open_im.Ingress.Steps.{IngressSteps, IngressSteps-keep}

abbrev pub source_key_of : Message → String
source_key_of m = append m.source_channel (append ":" m.server_msg_id)

abbrev pub has_key : String → IngressRow → Bool
has_key key m = m.event.source_key == key

-- A message with the key was accepted.
pub record IsIngested (key : String) (db : IngressDb) : Type 0 where
  pub there : any (has_key key) db.messages ≡ true

module _ (key : String) where
  keep_insert : (row : OutboxRow) → Keeps (IsIngested key) (insert_outbox row)
  unfolding insert_outbox
  keep_insert row = record {
    at = λ db h. elim (Bool-cases (any (λ (o : OutboxRow). o.event_id == row.event_id) db.outbox)) [
      | inl e ↦ rw e tt
      | inr e ↦ rw e (record { there = h.there })
    ];
  }

  keep_update :
      (p : OutboxRow → Bool) (f : OutboxRow → OutboxRow)
      → Keeps (IsIngested key) (update_outbox p f)
  unfolding update_outbox
  keep_update p f = record { at = λ db h. record { there = h.there } }

  keep_message : (row : IngressRow) → Keeps (IsIngested key) (insert_message row)
  unfolding insert_message
  keep_message row = record {
    at = λ db h. elim (Bool-cases (any (clashes_with row) db.messages)) [
      | inl e ↦ rw e h
      | inr e ↦ rw e (record { there = any-append (has_key key) db.messages (row ∷ []) h.there })
    ];
  }

  keep_rejection : (row : IngressRejection) → Keeps (IsIngested key) (insert_ingress_rejection row)
  unfolding insert_ingress_rejection
  keep_rejection row = record {
    at = λ db h.
        elim (Bool-cases
          (any (λ (r : IngressRejection). same_source r.source row.source) db.rejections)) [
            | inl e ↦ rw e h
            | inr e ↦ rw e (record { there = h.there })
          ];
  }

  ruleset key_rules = (
    Keeps-pure, Keeps-raise, Keeps-query, Keeps-if, Keeps-bind, Keeps-require_one, keep_insert,
    keep_update, keep_message, keep_rejection,
  )

  keep_inserted :
      (now : ℕ) (tenant_id : String) (event : IngressEvent) (b : Bool)
      → Keeps (IsIngested key) (after_insert now tenant_id event b)
  unfolding after_insert
  keep_inserted now tenant_id event true = search key_rules depth 6
  keep_inserted now tenant_id event false = search key_rules depth 6

  keep_event :
      (now : ℕ) (source : IngressSource) (tenant_id : String) (event : IngressEvent)
      → Keeps (IsIngested key) (ingest_event now source tenant_id (ok event))
  unfolding ingest_event
  keep_event now source tenant_id event = search (key_rules, keep_inserted) depth 6

  keep_claim :
      (locked : String → Bool) (token : String) (limit lease now : ℕ)
      → Keeps (IsIngested key) (claim_outbox_tx locked token limit lease now)
  unfolding claim_outbox_tx
  keep_claim locked token limit lease now = search key_rules depth 9

  keep_published :
      (now : ℕ) (event_id token : String)
      → Keeps (IsIngested key) (mark_published_tx now event_id token)
  unfolding mark_published_tx
  keep_published now event_id token = search key_rules depth 9

  keep_release :
      (now : ℕ) (event_id token failure : String) (retry_after : ℕ)
      → Keeps (IsIngested key) (release_outbox_tx now event_id token failure retry_after)
  unfolding release_outbox_tx
  keep_release now event_id token failure retry_after = search key_rules depth 9

  pub IngressSteps-IsIngested :
      (rfc3339 : ℤ → String) {s t : IngressDb}
      → IngressSteps rfc3339 s t
      → IsIngested key s
      → IsIngested key t
  IngressSteps-IsIngested rfc3339 steps h =
      IngressSteps-keep {P = IsIngested key}
        (record {
          accepts = keep_event;
          rejects = keep_rejection;
          claims = keep_claim;
          publishes = keep_published;
          releases = keep_release;
        })
        steps h

  clashes_again :
      (row : IngressRow) (ms : List IngressRow)
      → row.event.source_key ≡ key
      → any (has_key key) ms ≡ true
      → any (clashes_with row) ms ≡ true
  clashes_again row [] e h = absurd cc
  clashes_again row (m ∷ ms) e h = elim (Bool-cases (has_key key m)) [
    | inl c ↦ rw (e, c) refl
    | inr c ↦ let rest = clashes_again row ms e (rw c at h) in ground arith
  ]

  inserted_again :
      (row : IngressRow) (db : IngressDb)
      → row.event.source_key ≡ key
      → IsIngested key db
      → insert_message row db ≡ ok (false, db)
  unfolding insert_message
  inserted_again row db e h = rw (clashes_again row db.messages e h.there) refl

  event_again :
      (now : ℕ) (source : IngressSource) (tenant_id : String) (r : Result IngressEvent)
      (db : IngressDb)
      → ((event : IngressEvent) → r ≡ ok event → event.source_key ≡ key)
      → IsIngested key db
      → (finish db (ingest_event now source tenant_id r db)).1 ≡ db
  unfolding ingest_event raise after_insert pure
  event_again now source tenant_id (err e) db k h = refl
  event_again now source tenant_id (ok event) db k h =
      ap (λ x. (finish db x).1)
        (bind-of-ok (insert_message (record { source = source; event = event }))
          (after_insert now tenant_id event) db
          (inserted_again (record { source = source; event = event }) db (k event refl) h))

to_event-key :
    (rfc3339 : ℤ → String) (event_id : String) (m : Message) (tenant_id member_id : String)
    (event : IngressEvent)
    → to_event rfc3339 event_id m tenant_id member_id ≡ ok event
    → event.source_key ≡ source_key_of m
unfolding to_event
to_event-key rfc3339 event_id m tenant_id member_id event h =
    elim (Bool-cases (not (m.source_channel == "openim") && not (m.source_channel == "telegram"))) [
      | inl e ↦ absurd (let r = rw e at h in cc)
      | inr e ↦ let r = rw e at h in cc
    ]

unchanged :
    {A : Type 0} (b : Bool) (x : A × IngressDb) (r : A) (db : IngressDb)
    → x.1 ≡ db
    → (if b then x else (r, db)).1 ≡ db
unchanged true x r db h = h
unchanged false x r db h = refl

module _ (rfc3339 : ℤ → String) (event_id : String) (now : ℕ) (m : Message)
    (tenant_id member_id : String) where
  if_again :
      (active : Bool) (db : IngressDb)
      → IsIngested (source_key_of m) db
      → (finish db (
          (if active
              then ingest_message rfc3339 event_id now m tenant_id member_id
              else raise "bound ingress member is not active")
            db)).1
        ≡ db
  unfolding ingest_message raise
  if_again true db h =
      event_again (source_key_of m) now m.source tenant_id _ db
        (to_event-key rfc3339 event_id m tenant_id member_id) h
  if_again false db h = refl

  -- Once a message with a channel and an id was accepted, IngestBound of a message with the same
  -- ones leaves every table as it is, whatever else the message says, whoever is its member, with
  -- whatever new event id, and whatever operations of the store were made in between.
  pub ingest_bound_again :
      {s t : IngressDb}
      → IsIngested (source_key_of m) s
      → IngressSteps rfc3339 s t
      → (ingest_bound rfc3339 event_id now m tenant_id member_id t).1 ≡ t
  unfolding ingest_bound ingest_bound_tx transact query
  ingest_bound_again {s} {t} h steps = unchanged (m.source_channel == "telegram") _ _ t (
      if_again (any (is_active_of tenant_id member_id) t.members) t
        (IngressSteps-IsIngested (source_key_of m) rfc3339 steps h))
