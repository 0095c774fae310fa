-- ===== src/Ingress/Committed.antt =====
-- What internal/ingress/consumer.go has stored of the Kafka records that it commits.
pub mod Records
pub mod Claims
use open_im.Prelude.{
  ℕ, zero, suc, String, ◌≡◌, refl, sym, ap, ◌∙◌, Bool, true, false, ◌||◌, ◌&&◌, not, Option, none,
  some, List, [], ◌∷◌, ◌++◌, arith, All, All-map, any, any-append, any-append_last, map, take,
  if◌then◌else◌, append, eqb, Bool-cases, inl, inr, ◌==◌, eq_iff,
}
use open_im.Prelude.Decimal.{ℤ}
use open_im.Database.Tx.{Result, ok, err, transact, finish, query, raise, pure}
use open_im.Database.Tx.Frame.{
  Keeps, After, After-then, Keeps-pure, Keeps-raise, Keeps-query, Keeps-if, Keeps-bind,
}
use open_im.Ingress.Message.{
  IngressSource, IngressEvent, Message, MsgData, ChatTypes, normalize, to_event,
}
use open_im.Ingress.Tables.{
  IngressRow, OutboxRow, IngressRejection, SenderRow, IngressDb, insert_message, insert_outbox,
  insert_ingress_rejection, clashes_with, same_source, same_int,
}
use open_im.Ingress.Store.{
  outbox_row, after_insert, ingest_event, ingest_message, ingest_from, ingest_tx, ingest,
  reject_message, rejection_of, Outcome,
}
use open_im.Ingress.Consumer.{
  KafkaRecord, Consumed, commit_after, consume_message, consume_record, consume_claim,
  unless_refused,
}

-- A message that the key or the source of this one runs into.
abbrev pub is_known : String → Message → IngressRow → Bool
is_known event_id m x =
    x.event.source_key == append m.source_channel (append ":" m.server_msg_id)
    || x.event.event_id == event_id
    || x.event.server_msg_id == m.server_msg_id
    || same_source x.source m.source

abbrev pub is_from : IngressSource → IngressRejection → Bool
is_from source r = same_source r.source source

-- A rejection of the source, or a message that is known.
abbrev pub is_stored : IngressSource → (IngressRow → Bool) → IngressDb → Bool
is_stored source known db = any (is_from source) db.rejections || any known db.messages

pub record Stored (source : IngressSource) (known : IngressRow → Bool) (db : IngressDb)
    : Type 0 where
  pub there : is_stored source known db ≡ true

same_source_refl : (s : IngressSource) → same_source s s ≡ true
same_source_refl s =
    let t : (s.topic == s.topic) ≡ true = (eq_iff s.topic s.topic).1 refl in
    let o : same_int s.offset s.offset ≡ true = same_offset s.offset in ground arith
  where
    same_offset : (z : ℤ) → same_int z z ≡ true
    same_offset (ℤ.pos n) = ground arith
    same_offset (ℤ.negsuc n) = ground arith

module _ (source : IngressSource) (known : IngressRow → Bool) where
  pub keep_rejection :
      (row : IngressRejection) → Keeps (Stored source known) (insert_ingress_rejection row)
  unfolding insert_ingress_rejection
  keep_rejection row = record {
    at = λ db h. elim (Bool-cases (any (is_from row.source) db.rejections)) [
      | inl e ↦ rw e h
      | inr e ↦ rw e (record { there = grown db h.there })
    ];
  }
    where
      grown :
          (db : IngressDb)
          → is_stored source known db ≡ true
          → is_stored source known (record db { rejections = db.rejections ++ row ∷ [] }) ≡ true
      grown db h = elim (Bool-cases (any (is_from source) db.rejections)) [
        | inl e ↦ rw (any-append (is_from source) db.rejections (row ∷ []) e) refl
        | inr e ↦ let m : any known db.messages ≡ true = rw e at h in ground arith
      ]

  pub keep_message : (row : IngressRow) → Keeps (Stored source known) (insert_message row)
  unfolding insert_message
  keep_message row = record {
    at = λ db h. elim (Bool-cases (any (clashes_with row) db.messages)) [
      | inl e ↦ rw e h
      | inr e ↦ rw e (record { there = grown db h.there })
    ];
  }
    where
      grown :
          (db : IngressDb)
          → is_stored source known db ≡ true
          → is_stored source known (record db { messages = db.messages ++ row ∷ [] }) ≡ true
      grown db h = elim (Bool-cases (any known db.messages)) [
        | inl e ↦ let m = any-append known db.messages (row ∷ []) e in ground arith
        | inr e ↦ ground arith
      ]

  keep_outbox : (row : OutboxRow) → Keeps (Stored source known) (insert_outbox row)
  unfolding insert_outbox
  keep_outbox row = record {
    at = λ db h. elim (Bool-cases (any (λ (o : OutboxRow). o.event_id == row.event_id) db.outbox)) [
      | inl e ↦ rw e tt
      | inr e ↦ rw e (record { there = h.there })
    ];
  }

  pub keep_inserted :
      (now : ℕ) (tenant_id : String) (event : IngressEvent) (b : Bool)
      → Keeps (Stored source known) (after_insert now tenant_id event b)
  unfolding after_insert
  keep_inserted now tenant_id event true = search (Keeps-bind, Keeps-pure, keep_outbox) depth 6
  keep_inserted now tenant_id event false = Keeps-pure _

  -- What a record leaves behind when it is stored.
  pub rejected-Stored :
      (row : IngressRejection) (db : IngressDb)
      → row.source ≡ source
      → After (Stored source known) (insert_ingress_rejection row db)
  unfolding insert_ingress_rejection
  rejected-Stored row db e = elim (Bool-cases (any (is_from row.source) db.rejections)) [
    | inl there ↦
        let before : any (is_from source) db.rejections ≡ true = rw e at there in
        rw there (record { there = ground arith })
    | inr absent ↦
        let last : is_from source row ≡ true = rw e (same_source_refl source) in
        let added = any-append_last (is_from source) db.rejections row last in
        rw absent (record { there = ground arith })
  ]

  pub inserted-Stored :
      (row : IngressRow) (db : IngressDb)
      → ((x : IngressRow) → clashes_with row x ≡ known x)
      → After (Stored source known) (insert_message row db)
  unfolding insert_message
  inserted-Stored row db same = elim (Bool-cases (any (clashes_with row) db.messages)) [
    | inl there ↦
        let before : any known db.messages ≡ true = any_same db.messages there in
        rw there (record { there = ground arith })
    | inr absent ↦
        let self : clashes_with row row ≡ true = clash_self in
        let last : known row ≡ true = sym (same row) ∙ self in
        let added = any-append_last known db.messages row last in
        rw absent (record { there = ground arith })
  ]
    where
      any_same : (ms : List IngressRow) → any (clashes_with row) ms ≡ true → any known ms ≡ true
      any_same [] h = absurd cc
      any_same (x ∷ xs) h = ground (arith, same x, any_same xs)

      clash_self : clashes_with row row ≡ true
      clash_self =
          let k : (row.event.source_key == row.event.source_key) ≡ true =
            (eq_iff row.event.source_key row.event.source_key).1 refl in
          ground arith
