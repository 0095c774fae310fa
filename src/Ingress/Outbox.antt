-- ===== src/Ingress/Outbox.antt =====
-- The outbox of internal/ingress/store.go has the events of the messages, one for each.
use mathlib.Core.List.{map-append}
use open_im.Prelude.{
  ℕ, String, ◌≡◌, refl, sym, ap, ◌∙◌, Bool, true, false, List, [], ◌∷◌, ◌++◌, map, any,
  map-update_where, Bool-cases, inl, inr, ◌==◌,
}
use open_im.Prelude.Decimal.{ℤ}
use open_im.Database.Tx.{Result, ok, err}
use open_im.Database.Tx.Frame.{
  Keeps, After, After-then, Keeps-pure, Keeps-raise, Keeps-query, Keeps-if, Keeps-bind,
  Keeps-require_one,
}
use open_im.Ingress.Message.{IngressSource, IngressEvent}
use open_im.Ingress.Tables.{
  IngressRow, OutboxRow, IngressRejection, IngressDb, insert_message, insert_outbox,
  insert_ingress_rejection, update_outbox, clashes_with, same_source,
}
use open_im.Ingress.Steps.{IngressSteps, IngressSteps-keep}
use open_im.Ingress.Store.{
  outbox_row, after_insert, ingest_event, claim_outbox_tx, mark_published_tx, release_outbox_tx,
  lease_outbox, publish_row, release_row,
}

abbrev message_ids : IngressDb → List String
message_ids db = map (λ (m : IngressRow). m.event.event_id) db.messages

abbrev outbox_ids : IngressDb → List String
outbox_ids db = map (λ (o : OutboxRow). o.event_id) db.outbox

pub record IsMatched (db : IngressDb) : Type 0 where
  pub same :
      map (λ (o : OutboxRow). o.event_id) db.outbox
      ≡ map (λ (m : IngressRow). m.event.event_id) db.messages

-- Between the two inserts.
record IsBehind (id : String) (db : IngressDb) : Type 0 where
  behind : outbox_ids db ++ id ∷ [] ≡ message_ids db

-- What the updates of the outbox leave alone.
record KeepsId (f : OutboxRow → OutboxRow) : Type 0 where
  id : (o : OutboxRow) → (f o).event_id ≡ o.event_id

KeepsId-lease_outbox : (now : ℕ) (token : String) (n : ℕ) → KeepsId (lease_outbox now token n)
KeepsId-lease_outbox now token n = record { id = λ o. refl }

KeepsId-publish_row : (now : ℕ) → KeepsId (publish_row now)
KeepsId-publish_row now = record { id = λ o. refl }

KeepsId-release_row : (now n : ℕ) (failure : String) → KeepsId (release_row now n failure)
KeepsId-release_row now n failure = record { id = λ o. refl }

keep_update :
    (p : OutboxRow → Bool) (f : OutboxRow → OutboxRow)
    → KeepsId f
    → Keeps IsMatched (update_outbox p f)
unfolding update_outbox
keep_update p f same = record {
  at = λ db h. record {
    same = map-update_where (λ (o : OutboxRow). o.event_id) p f db.outbox same.id ∙ h.same;
  };
}

keep_rejection : (row : IngressRejection) → Keeps IsMatched (insert_ingress_rejection row)
unfolding insert_ingress_rejection
keep_rejection row = record {
  at = λ db h.
      kept db h (any (λ (r : IngressRejection). same_source r.source row.source) db.rejections)
        refl;
}
  where
    kept :
        (db : IngressDb)
        → IsMatched db
        → (b : Bool)
        → any (λ (r : IngressRejection). same_source r.source row.source) db.rejections ≡ b
        → After IsMatched (insert_ingress_rejection row db)
    kept db h true e = rw e h
    kept db h false e = rw e (record { same = h.same })

-- The second insert makes up for the first.
outbox-IsMatched :
    (row : OutboxRow) (db : IngressDb)
    → IsBehind row.event_id db
    → After IsMatched (insert_outbox row db)
unfolding insert_outbox
outbox-IsMatched row db h =
    elim (Bool-cases (any (λ (o : OutboxRow). o.event_id == row.event_id) db.outbox)) [
      | inl e ↦ rw e tt
      | inr e ↦ rw e (record { same = map-append _ db.outbox (row ∷ []) ∙ h.behind })
    ]

-- What the first insert leaves: a row with no event yet, or nothing new.
abbrev Inserted : String → Result (Bool × IngressDb) → Type 0
Inserted id (ok (true, db)) = IsBehind id db
Inserted id (ok (false, db)) = IsMatched db
Inserted id (err e) = Unit

message-Inserted :
    (row : IngressRow) (db : IngressDb)
    → IsMatched db
    → Inserted row.event.event_id (insert_message row db)
unfolding insert_message
message-Inserted row db h = elim (Bool-cases (any (clashes_with row) db.messages)) [
  | inl e ↦ rw e h
  | inr e ↦ rw e (record {
    behind =
        ap (λ ids. ids ++ row.event.event_id ∷ []) h.same
        ∙ sym (map-append _ db.messages (row ∷ []));
  })
]

module _ (now : ℕ) (source : IngressSource) (tenant_id : String) where
  after_insert-IsMatched :
      (event : IngressEvent) (r : Result (Bool × IngressDb))
      → Inserted event.event_id r
      → After IsMatched
          (elim r [ err e ↦ err e | ok (b, t) ↦ after_insert now tenant_id event b t ])
  unfolding after_insert
  after_insert-IsMatched event (ok (true, t)) h =
      After-then IsMatched IsMatched _ (insert_outbox (outbox_row now tenant_id event)) t
        (outbox-IsMatched (outbox_row now tenant_id event) t h) (λ _ u k. k)
  after_insert-IsMatched event (ok (false, t)) h = h
  after_insert-IsMatched event (err e) h = tt

  keep_event :
      (event : IngressEvent) → Keeps IsMatched (ingest_event now source tenant_id (ok event))
  unfolding ingest_event
  keep_event event = record {
    at = λ db h.
        after_insert-IsMatched event (insert_message (record { source = source; event = event }) db)
          (message-Inserted (record { source = source; event = event }) db h);
  }

ruleset outbox_rules = (
  Keeps-pure, Keeps-raise, Keeps-query, Keeps-if, Keeps-bind, Keeps-require_one, keep_update,
  KeepsId-lease_outbox, KeepsId-publish_row, KeepsId-release_row,
)

keep_claim :
    (locked : String → Bool) (token : String) (limit lease now : ℕ)
    → Keeps IsMatched (claim_outbox_tx locked token limit lease now)
unfolding claim_outbox_tx
keep_claim locked token limit lease now = search outbox_rules depth 9

keep_published :
    (now : ℕ) (event_id token : String) → Keeps IsMatched (mark_published_tx now event_id token)
unfolding mark_published_tx
keep_published now event_id token = search outbox_rules depth 9

keep_release :
    (now : ℕ) (event_id token failure : String) (retry_after : ℕ)
    → Keeps IsMatched (release_outbox_tx now event_id token failure retry_after)
unfolding release_outbox_tx
keep_release now event_id token failure retry_after = search outbox_rules depth 9

-- In whatever order messages are ingested and refused and events are claimed, published and
-- released, the outbox holds exactly the events of the accepted messages, one for each, in their
-- order, if it did so at first: no accepted message is without its event, and no event without its
-- message.
pub IngressSteps-IsMatched :
    (rfc3339 : ℤ → String) {s t : IngressDb} → IngressSteps rfc3339 s t → IsMatched s → IsMatched t
IngressSteps-IsMatched rfc3339 steps h =
    IngressSteps-keep {P = IsMatched}
      (record {
        accepts = keep_event;
        rejects = keep_rejection;
        claims = keep_claim;
        publishes = keep_published;
        releases = keep_release;
      })
      steps h
