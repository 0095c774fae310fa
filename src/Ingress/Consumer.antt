-- ===== src/Ingress/Consumer.antt =====
-- internal/ingress/consumer.go: ConsumeClaim over the messages of a Kafka claim. The decoding of a
-- message, the drawn ids and the times are arguments; `committed` are the sources that were marked.
use open_im.Prelude.{ℕ, String, Option, none, some, List, [], ◌∷◌, ◌++◌}
use open_im.Prelude.Decimal.{ℤ}
use open_im.Database.Tx.{Result, ok, err}
use open_im.Ingress.Message.{IngressSource, MsgData, Message, ChatTypes, normalize}
use open_im.Ingress.Tables.{IngressDb}
use open_im.Ingress.Store.{ingest, reject_message}

pub record KafkaRecord : Type 0 where
  pub source : IngressSource
  pub value : String

pub record Consumed : Type 0 where
  pub db : IngressDb
  pub committed : List IngressSource

-- markAndCommit, after a statement that succeeded.
abbrev pub commit_after :
    {A : Type 0}
    → IngressSource
    → List IngressSource
    → Result A × IngressDb
    → Result (Unit {0}) × Consumed
commit_after source done (ok _, db) = (ok tt, record { db = db; committed = done ++ source ∷ [] })
commit_after source done (err e, db) = (err e, record { db = db; committed = done })

module _ (types : ChatTypes) (decode : String → Option MsgData) (rfc3339 : ℤ → String)
    (draw : KafkaRecord → String) (time : KafkaRecord → ℕ) where
  unfoldable pub consume_message :
      KafkaRecord → MsgData → Result Message → Consumed → Result (Unit {0}) × Consumed
  unfolding ingest reject_message
  consume_message k d (err e) s = commit_after k.source s.committed (
      reject_message
        (record {
          source = k.source;
          server_msg_id = d.server_msg_id;
          sender_id = d.send_id;
          reason = "invalid_message";
        })
        s.db)
  consume_message k d (ok m) s =
      commit_after k.source s.committed (ingest rfc3339 (draw k) (time k) m s.db)

  unfoldable pub consume_record :
      KafkaRecord → Option MsgData → Consumed → Result (Unit {0}) × Consumed
  unfolding consume_message normalize reject_message
  consume_record k none s = commit_after k.source s.committed (
      reject_message
        (record {
          source = k.source;
          server_msg_id = "";
          sender_id = "";
          reason = "invalid_protobuf";
        })
        s.db)
  consume_record k (some d) s = consume_message k d (normalize types k.source d) s

  abbrev pub unless_refused :
      (Consumed → Result (Unit {0}) × Consumed)
      → Result (Unit {0}) × Consumed
      → Result (Unit {0}) × Consumed
  unless_refused rest (err e, s) = (err e, s)
  unless_refused rest (ok _, s) = rest s

  -- ConsumeClaim, until the channel is closed.
  unfoldable pub consume_claim : List KafkaRecord → Consumed → Result (Unit {0}) × Consumed
  unfolding consume_record
  consume_claim [] s = (ok tt, s)
  consume_claim (k ∷ ks) s = unless_refused (consume_claim ks) (consume_record k (decode k.value) s)
