-- ===== src/Ingress/Sent.antt =====
-- What internal/ingress/publisher.go marks as published was handed to Kafka.
use open_im.Prelude.{
  ℕ, String, ◌≡◌, Bool, true, false, ◌&&◌, Option, none, some, List, [], ◌∷◌, ◌++◌, arith, any,
  any-append, any-append_last, All, All-map, All-update_where, ◌==◌, eq_iff, sym,
}
use open_im.Database.Tx.{Result, ok, err}
use open_im.Delivery.Statements.{is_live}
use open_im.Database.Tx.Frame.{
  Keeps, Keeps-pure, Keeps-raise, Keeps-query, Keeps-if, Keeps-bind, Keeps-require_one,
  Keeps-transact,
}
use open_im.Ingress.Tables.{OutboxRow, OutboxState, IngressDb, update_outbox}
use open_im.Ingress.Store.{
  OutboxRecord, claim_outbox_tx, claim_outbox, mark_published_tx, mark_published, release_outbox_tx,
  release_outbox, lease_outbox, publish_row, release_row, holds_outbox,
}
use open_im.Ingress.Publisher.{
  Outgoing, retry_delay, cut_publish_failure, release_record, release_failed, publish_record,
  publish_records, publish_claimed, publish_batch, unless_failed,
}

abbrev is_published : OutboxState → Bool
is_published OutboxState.published = true
is_published _ = false

-- A published event is among those that were handed to Kafka.
abbrev WasSent : List String → OutboxRow → Type 0
WasSent sent o = is_published o.state ≡ true → any (λ id. id == o.event_id) sent ≡ true

pub record AllSent (sent : List String) (db : IngressDb) : Type 0 where
  pub published : All (WasSent sent) db.outbox

-- What the updates of the outbox do: they publish nothing, or what was sent.
record Publishes (sent : List String) (p : OutboxRow → Bool) (f : OutboxRow → OutboxRow)
    : Type 0 where
  marks : (o : OutboxRow) → p o ≡ true → WasSent sent (f o)

keep_update :
    (sent : List String) (p : OutboxRow → Bool) (f : OutboxRow → OutboxRow)
    → Publishes sent p f
    → Keeps (AllSent sent) (update_outbox p f)
unfolding update_outbox
keep_update sent p f k = record {
  at = λ db h. record {
    published = All-update_where (WasSent sent) p f db.outbox (λ o e _. k.marks o e) h.published;
  };
}

lease-Publishes :
    (sent : List String) (p : OutboxRow → Bool) (now : ℕ) (token : String) (n : ℕ)
    → Publishes sent p (lease_outbox now token n)
lease-Publishes sent p now token n = record { marks = λ o e h. absurd cc }

release-Publishes :
    (sent : List String) (p : OutboxRow → Bool) (now n : ℕ) (failure : String)
    → Publishes sent p (release_row now n failure)
release-Publishes sent p now n failure = record { marks = λ o e h. absurd cc }

-- The row of the record that has just been sent.
publish-Publishes :
    (sent : List String) (now : ℕ) (event_id token : String)
    → Publishes
        (sent ++ event_id ∷ [])
        (λ o. holds_outbox event_id token o && is_live o.lease_until now)
        (publish_row now)
publish-Publishes sent now event_id token = record {
  marks = λ o e h.
      any-append_last (λ id. id == o.event_id) sent event_id
        ((eq_iff event_id o.event_id).1 (sym ((eq_iff o.event_id event_id).0 (ground arith))));
}

ruleset sent_rules = (
  Keeps-pure, Keeps-raise, Keeps-query, Keeps-if, Keeps-bind, Keeps-require_one, keep_update,
  lease-Publishes, release-Publishes, publish-Publishes,
)

module _ (sent : List String) where
  claim-AllSent :
      (locked : String → Bool) (token : String) (limit lease now : ℕ) (db : IngressDb)
      → AllSent sent db
      → AllSent sent (claim_outbox locked token limit lease now db).1
  unfolding claim_outbox claim_outbox_tx
  claim-AllSent locked token limit lease now db h =
      let k : Keeps (AllSent sent) (claim_outbox_tx locked token limit lease now) =
        search sent_rules depth 9 in
      Keeps-transact (claim_outbox_tx locked token limit lease now) db k h

  released-AllSent :
      (now : ℕ) (event_id token failure : String) (retry_after : ℕ) (db : IngressDb)
      → AllSent sent db
      → AllSent sent (release_outbox now event_id token failure retry_after db).1
  unfolding release_outbox release_outbox_tx
  released-AllSent now event_id token failure retry_after db h =
      let k : Keeps (AllSent sent) (release_outbox_tx now event_id token failure retry_after) =
        search sent_rules depth 9 in
      Keeps-transact (release_outbox_tx now event_id token failure retry_after) db k h

  -- One more event was sent, and then the row is marked.
  published-AllSent :
      (now : ℕ) (event_id token : String) (db : IngressDb)
      → AllSent sent db
      → AllSent (sent ++ event_id ∷ []) (mark_published now event_id token db).1
  unfolding mark_published mark_published_tx
  published-AllSent now event_id token db h =
      let k : Keeps (AllSent (sent ++ event_id ∷ [])) (mark_published_tx now event_id token) =
        search sent_rules depth 9 in
      Keeps-transact (mark_published_tx now event_id token) db k (record {
        published =
            All-map (WasSent sent) (WasSent (sent ++ event_id ∷ [])) db.outbox
              (λ o k e. any-append (λ id. id == o.event_id) sent (event_id ∷ []) (k e)) h.published;
      })

release_failed-AllSent :
    (sent : List String) (failure : String) (x : Result (Unit {0}) × IngressDb)
    → AllSent sent x.1
    → AllSent sent (release_failed failure x).1
release_failed-AllSent sent failure (ok _, db) h = h
release_failed-AllSent sent failure (err e, db) h = h

record_released-AllSent :
    (sent : List String) (now : ℕ) (r : OutboxRecord) (failure : String) (cut : Option String)
    (db : IngressDb)
    → AllSent sent db
    → AllSent sent (release_record now r failure cut db).1
unfolding release_record
record_released-AllSent sent now r failure none db h = h
record_released-AllSent sent now r failure (some text) db h =
    release_failed-AllSent sent failure
      (release_outbox now r.event_id r.lease_token text (retry_delay r.attempts) db)
      (released-AllSent sent now r.event_id r.lease_token text (retry_delay r.attempts) db h)

record_published-AllSent :
    (now : ℕ) (r : OutboxRecord) (answer : Option String) (s : Outgoing)
    → AllSent s.sent s.db
    → AllSent (publish_record now r answer s).1.sent (publish_record now r answer s).1.db
unfolding publish_record
record_published-AllSent now r none s h =
    published-AllSent s.sent now r.event_id r.lease_token s.db h
record_published-AllSent now r (some failure) s h =
    record_released-AllSent s.sent now r failure (cut_publish_failure failure) s.db h

module _ (answer : OutboxRecord → Option String) (time : OutboxRecord → ℕ) where
  records-AllSent :
      (rs : List OutboxRecord) (s : Outgoing)
      → AllSent s.sent s.db
      → AllSent (publish_records answer time rs s).1.sent (publish_records answer time rs s).1.db
  unfolding publish_records
  records-AllSent [] s h = h
  records-AllSent (r ∷ rs) s h =
      rest (records-AllSent rs) (publish_record (time r) r (answer r) s)
        (record_published-AllSent (time r) r (answer r) s h)
    where
      rest :
          ((t : Outgoing)
            → AllSent t.sent t.db
            → AllSent
                (publish_records answer time rs t).1.sent
                (publish_records answer time rs t).1.db)
          → (x : Result (Unit {0}) × Outgoing) → AllSent x.1.sent x.1.db
          → AllSent
              (unless_failed answer time (publish_records answer time rs) x).1.sent
              (unless_failed answer time (publish_records answer time rs) x).1.db
      rest ih (ok _, t) k = ih t k
      rest ih (err e, t) k = k

  -- A batch of the publisher leaves no event marked as published that was not handed to Kafka,
  -- whatever Kafka answers, whichever leases run out, and wherever the batch stops, if there was
  -- none before.
  pub publish_batch-AllSent :
      (locked : String → Bool) (token : String) (batch lease now : ℕ) (s : Outgoing)
      → AllSent s.sent s.db
      → AllSent
          (publish_batch answer time locked token batch lease now s).1.sent
          (publish_batch answer time locked token batch lease now s).1.db
  unfolding publish_batch publish_claimed
  publish_batch-AllSent locked token batch lease now s h =
      published (claim_outbox locked token batch lease now s.db)
        (claim-AllSent s.sent locked token batch lease now s.db h)
    where
      published :
          (x : Result (List OutboxRecord) × IngressDb)
          → AllSent s.sent x.1
          → AllSent
              (publish_claimed answer time s.sent x).1.sent
              (publish_claimed answer time s.sent x).1.db
      published (err e, db) k = k
      published (ok rs, db) k = records-AllSent rs (record { db = db; sent = s.sent }) k
