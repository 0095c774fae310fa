-- ===== src/Ingress/Committed/Claims.antt =====
-- ConsumeClaim of internal/ingress/consumer.go commits what it has stored.
use mathlib.Core.List.{append_assoc, append-nil}
use open_im.Prelude.{
  ℕ, suc, String, ◌≡◌, refl, sym, ap, ◌∙◌, Bool, true, false, Option, none, some, List, [], ◌∷◌,
  ◌++◌, All, map, take,
}
use open_im.Prelude.Decimal.{ℤ}
use open_im.Database.Tx.{Result, ok, err, transact}
use open_im.Database.Tx.Frame.{Keeps-transact}
use open_im.Ingress.Message.{IngressSource, Message, MsgData, ChatTypes, normalize}
use open_im.Ingress.Tables.{IngressRow, IngressDb}
use open_im.Ingress.Store.{ingest, reject_message}
use open_im.Ingress.Consumer.{
  KafkaRecord, Consumed, consume_message, consume_record, consume_claim, unless_refused,
}
use open_im.Ingress.Committed.{is_known, is_stored, Stored, keep_rejection, rejected-Stored}
use open_im.Ingress.Committed.Records.{
  Commits, Commits-After, commit_after_keeps, keep_ingest, ingest-Stored,
}

-- The message of a record, where it decodes and normalizes.
abbrev pub normalized_in : Result Message → Option Message
normalized_in (ok m) = some m
normalized_in (err e) = none

abbrev pub message_in : (MsgData → Result Message) → Option MsgData → Option Message
message_in normal none = none
message_in normal (some d) = normalized_in (normal d)

-- A record is stored as its message, or as one that it runs into, or as a rejection.
abbrev pub source_in : IngressSource → Option Message → IngressSource
source_in source none = source
source_in source (some m) = m.source

abbrev pub known_in : String → Option Message → IngressRow → Bool
known_in event_id none x = false
known_in event_id (some m) x = is_known event_id m x

module _ (types : ChatTypes) (decode : String → Option MsgData) (rfc3339 : ℤ → String)
    (draw : KafkaRecord → String) (time : KafkaRecord → ℕ) where
  abbrev pub is_recorded : IngressDb → KafkaRecord → Bool
  is_recorded db k =
      let o = message_in (normalize types k.source) (decode k.value) in
      is_stored (source_in k.source o) (known_in (draw k) o) db

  module _ (source : IngressSource) (known : IngressRow → Bool) where
    -- A record leaves what others have stored.
    message_keeps :
        (k : KafkaRecord) (d : MsgData) (r : Result Message) (s : Consumed)
        → Stored source known s.db
        → Stored source known (consume_message types decode rfc3339 draw time k d r s).1.db
    unfolding consume_message reject_message ingest
    message_keeps k d (err e) s h =
        commit_after_keeps (Stored source known) k.source s.committed _
          (Keeps-transact {P = Stored source known} _ s.db (keep_rejection source known _) h)
    message_keeps k d (ok m) s h = commit_after_keeps (Stored source known) k.source s.committed _ (
        Keeps-transact {P = Stored source known} _ s.db
          (keep_ingest source known rfc3339 (draw k) (time k) m) h)

    record_keeps :
        (k : KafkaRecord) (o : Option MsgData) (s : Consumed)
        → Stored source known s.db
        → Stored source known (consume_record types decode rfc3339 draw time k o s).1.db
    unfolding consume_record reject_message
    record_keeps k none s h =
        commit_after_keeps (Stored source known) k.source s.committed _
          (Keeps-transact {P = Stored source known} _ s.db (keep_rejection source known _) h)
    record_keeps k (some d) s h = message_keeps k d (normalize types k.source d) s h

    claim_keeps :
        (ks : List KafkaRecord) (s : Consumed)
        → Stored source known s.db
        → Stored source known (consume_claim types decode rfc3339 draw time ks s).1.db
    unfolding consume_claim
    claim_keeps [] s h = h
    claim_keeps (k ∷ ks) s h =
        rest (claim_keeps ks) (consume_record types decode rfc3339 draw time k (decode k.value) s)
          (record_keeps k (decode k.value) s h)
      where
        rest :
            ((t : Consumed)
              → Stored source known t.db
              → Stored source known (consume_claim types decode rfc3339 draw time ks t).1.db)
            → (x : Result (Unit {0}) × Consumed) → Stored source known x.1.db
            → Stored source known
                (unless_refused types decode rfc3339 draw time
                  (consume_claim types decode rfc3339 draw time ks)
                  x).1.db
        rest ih (ok _, t) g = ih t g
        rest ih (err e, t) g = g

  message-Stored :
      (k : KafkaRecord) (d : MsgData) (r : Result Message) (s : Consumed)
      → Commits
          (Stored (source_in k.source (normalized_in r)) (known_in (draw k) (normalized_in r)))
          k.source
          s.committed
          (consume_message types decode rfc3339 draw time k d r s)
  unfolding consume_message reject_message ingest transact
  message-Stored k d (err e) s =
      Commits-After (Stored k.source (known_in (draw k) none)) k.source s.committed s.db _
        (rejected-Stored k.source (known_in (draw k) none) _ s.db refl)
  message-Stored k d (ok m) s =
      Commits-After (Stored m.source (is_known (draw k) m)) k.source s.committed s.db _
        (ingest-Stored (draw k) m rfc3339 (time k) s.db)

  record-Stored :
      (k : KafkaRecord) (o : Option MsgData) (s : Consumed)
      → Commits
          (Stored
            (source_in k.source (message_in (normalize types k.source) o))
            (known_in (draw k) (message_in (normalize types k.source) o)))
          k.source
          s.committed
          (consume_record types decode rfc3339 draw time k o s)
  unfolding consume_record reject_message transact
  record-Stored k none s =
      Commits-After (Stored k.source (known_in (draw k) none)) k.source s.committed s.db _
        (rejected-Stored k.source (known_in (draw k) none) _ s.db refl)
  record-Stored k (some d) s = message-Stored k d (normalize types k.source d) s

  -- Of the first so many records, and of no others, the offsets were committed, and they are stored.
  abbrev pub IsCommitted : List KafkaRecord → List IngressSource → Consumed → Type 0
  IsCommitted ks done t =
      (n : ℕ) × (t.committed ≡ done ++ map (λ (k : KafkaRecord). k.source) (take n ks))
      × All (λ k. is_recorded t.db k ≡ true) (take n ks)

  -- However the messages of a Kafka claim decode, whatever they say, and wherever an error ends the
  -- claim, the offsets that are committed are those of its first so many records, and each of these
  -- is stored by then: as its message, as one with its id, key or source, or as a rejection.
  pub consume_claim-IsCommitted :
      (ks : List KafkaRecord) (s : Consumed)
      → IsCommitted ks s.committed (consume_claim types decode rfc3339 draw time ks s).1
  unfolding consume_claim
  consume_claim-IsCommitted [] s = (0, sym (append-nil s.committed), tt)
  consume_claim-IsCommitted (k ∷ ks) s =
      rest (consume_claim-IsCommitted ks)
        (consume_record types decode rfc3339 draw time k (decode k.value) s)
        (record-Stored k (decode k.value) s)
    where
      o : Option Message
      o = message_in (normalize types k.source) (decode k.value)

      rest :
          ((t : Consumed)
            → IsCommitted ks t.committed (consume_claim types decode rfc3339 draw time ks t).1)
          → (x : Result (Unit {0}) × Consumed)
          → Commits (Stored (source_in k.source o) (known_in (draw k) o)) k.source s.committed x
          → IsCommitted
              (k ∷ ks)
              s.committed
              (unless_refused types decode rfc3339 draw time
                (consume_claim types decode rfc3339 draw time ks)
                x).1
      rest ih (err e, t) same = (0, same ∙ sym (append-nil s.committed), tt)
      rest ih (ok _, t) (stored, added) =
          let (n, done, kept) = ih t in
          (
            suc n,
            done
                ∙ ap (λ c. c ++ map (λ (r : KafkaRecord). r.source) (take n ks)) added
                ∙ append_assoc s.committed (k.source ∷ []) _,
            ((claim_keeps (source_in k.source o) (known_in (draw k) o) ks t stored).there, kept),
          )
