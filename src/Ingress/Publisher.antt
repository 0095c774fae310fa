-- ===== src/Ingress/Publisher.antt =====
-- internal/ingress/publisher.go: one batch of the publisher. What Kafka answers to a record is an
-- argument, and so are the times of the statements; `sent` is what was handed to Kafka.
use open_im.Prelude.{
  ℕ, ◌-◌, ◌*◌, ◌^◌, String, Option, none, some, List, [], ◌∷◌, ◌++◌, if◌then◌else◌, ltb, append,
  take_bytes, Bool, byte_length,
}
use open_im.Database.Tx.{Result, ok, err}
use open_im.Ingress.Tables.{IngressDb}
use open_im.Ingress.Store.{OutboxRecord, claim_outbox, mark_published, release_outbox}

-- retryDelay, in nanoseconds.
unfoldable pub retry_delay : ℕ → ℕ
retry_delay attempt =
    let at_least : ℕ = (if ltb attempt 1 then 1 else attempt) in
    let bounded : ℕ = (if ltb 8 at_least then 8 else at_least) in 2 ^ (bounded - 1) * 1_000_000_000

-- What is handed to the producer: the event's id stands for the key and the payload.
pub record Outgoing : Type 0 where
  pub db : IngressDb
  pub sent : List String

abbrev pub with_db : Outgoing → Result (Unit {0}) × IngressDb → Result (Unit {0}) × Outgoing
with_db s (r, db) = (r, record s { db = db })

-- `failure[:512]`, which PostgreSQL refuses where the cut falls inside a code point.
abbrev pub cut_publish_failure : String → Option String
cut_publish_failure failure =
    if ltb 512 (byte_length failure) then take_bytes 512 failure else some failure

abbrev pub release_failed : String → Result (Unit {0}) × IngressDb → Result (Unit {0}) × IngressDb
release_failed failure (ok _, db) = (ok tt, db)
release_failed failure (err e, db) =
    (err (append "publish failed (" (append failure (append ") and release failed: " e))), db)

unfoldable pub release_record :
    ℕ → OutboxRecord → String → Option String → IngressDb → Result (Unit {0}) × IngressDb
unfolding release_outbox retry_delay
release_record now r failure none db = (
  err (
      append "publish failed (" (
        append failure
          ") and release failed: release outbox event: invalid byte sequence for encoding \"UTF8\"")),
  db,
)
release_record now r failure (some cut) db =
    release_failed failure
      (release_outbox now r.event_id r.lease_token cut (retry_delay r.attempts) db)

-- One record: `answer` is the producer's error, if it has one.
unfoldable pub publish_record :
    ℕ → OutboxRecord → Option String → Outgoing → Result (Unit {0}) × Outgoing
unfolding mark_published release_record
publish_record now r none s =
    with_db (record s { sent = s.sent ++ r.event_id ∷ [] })
      (mark_published now r.event_id r.lease_token s.db)
publish_record now r (some failure) s =
    with_db s (release_record now r failure (cut_publish_failure failure) s.db)

module _ (answer : OutboxRecord → Option String) (time : OutboxRecord → ℕ) where
  abbrev pub unless_failed :
      (Outgoing → Result (Unit {0}) × Outgoing)
      → Result (Unit {0}) × Outgoing
      → Result (Unit {0}) × Outgoing
  unless_failed rest (err e, s) = (err e, s)
  unless_failed rest (ok _, s) = rest s

  -- The loop over the records, which an error ends.
  unfoldable pub publish_records : List OutboxRecord → Outgoing → Result (Unit {0}) × Outgoing
  unfolding publish_record
  publish_records [] s = (ok tt, s)
  publish_records (r ∷ rs) s =
      unless_failed (publish_records rs) (publish_record (time r) r (answer r) s)

  unfoldable pub publish_claimed :
      List String → Result (List OutboxRecord) × IngressDb → Result (Unit {0}) × Outgoing
  unfolding publish_records
  publish_claimed sent (err e, db) = (err e, record { db = db; sent = sent })
  publish_claimed sent (ok rs, db) = publish_records rs (record { db = db; sent = sent })

  -- Publisher.publishBatch
  unfoldable pub publish_batch :
      (String → Bool) → String → ℕ → ℕ → ℕ → Outgoing → Result (Unit {0}) × Outgoing
  unfolding claim_outbox publish_claimed
  publish_batch locked token batch lease now s =
      publish_claimed s.sent (claim_outbox locked token batch lease now s.db)
