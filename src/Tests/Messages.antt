-- ===== src/Tests/Messages.antt =====
-- The theorems on internal/ingress at a single chat and a group, and at a batch of two events.
use open_im.Prelude.{
  ℕ, String, ◌≡◌, ◌≢◌, refl, Bool, true, false, Option, none, some, [], ◌∷◌, ◌==◌, append,
  if◌then◌else◌,
}
use open_im.Prelude.Decimal.{ℤ}
use open_im.Database.Tx.{ok}
use open_im.Agent.Resolve.{Trigger}
use open_im.Agent.Mentions.{classify_event}
use open_im.Ingress.Message.{
  IngressSource, MsgData, Message, IngressEvent, ChatTypes, conversation_id_of, normalize, to_event,
}
use open_im.Ingress.Tables.{IngressDb}
use open_im.Ingress.Store.{OutboxRecord, ingest, claim_outbox, mark_published, outbox_row}
use open_im.Ingress.Publisher.{Outgoing, publish_batch}
use open_im.Ingress.Outbox.{IsMatched, IngressSteps-IsMatched}
use open_im.Ingress.Steps.{here, ingested, claimed, published}
use open_im.Ingress.Log.{LogSteps, log_of}
use open_im.Ingress.Log.Steps.{store-Refines}
use open_im.Ingress.Consumer.{KafkaRecord, Consumed, consume_claim}
use open_im.Ingress.Committed.Claims.{IsCommitted, consume_claim-IsCommitted}
use open_im.Ingress.Sent.{AllSent, publish_batch-AllSent}
use open_im.Ingress.Groups.{agent_event, conversation_id-symmetric, group_messages_refused}

-- SingleChatType and ReadGroupChatType of the OpenIM protocol.
abbrev types : ChatTypes
types = record { single = 1; read_group = 3 }

abbrev source : IngressSource
source = record { topic = "toRedis"; partition = 0; offset = ℤ.pos 7; key = "k" }

abbrev data_of : String → String → String → ℕ → MsgData
data_of id receiver group session_type = record {
  server_msg_id = id;
  client_msg_id = "c";
  send_id = "bob";
  recv_id = receiver;
  group_id = group;
  session_type = session_type;
  content_type = 101;
  content = "@agent hello";
  create_time = ℤ.pos 1_700;
  send_time = ℤ.pos 1_701;
}

abbrev single : MsgData
single = data_of "m1" "alice" "" 1

abbrev group : MsgData
group = data_of "m2" "" "g1" 3

abbrev rfc3339 : ℤ → String
rfc3339 _ = "1970-01-01T00:00:01.7Z"

abbrev message_in : String → String → ℕ → Message
message_in id conversation session_type = record {
  source = source;
  source_channel = "openim";
  member_id = "";
  server_msg_id = id;
  client_msg_id = "c";
  sender_id = "bob";
  conversation_id = conversation;
  session_type = session_type;
  content_type = 101;
  content = "@agent hello";
  occurred_at = ℤ.pos 1_700;
}

abbrev event_in : String → String → String → ℕ → IngressEvent
event_in event_id id conversation session_type = record {
  event_id = event_id;
  event_type = "im.message.accepted.v1";
  occurred_at = "1970-01-01T00:00:01.7Z";
  tenant_id = "tenant";
  source_channel = "openim";
  conversation_id = conversation;
  source_key = append "openim:" id;
  server_msg_id = id;
  client_msg_id = "c";
  sender_id = "bob";
  principal_member_id = "member";
  session_type = session_type;
  content_type = 101;
  content = "@agent hello";
  data_classification = "internal";
}

abbrev ready : IngressDb
ready = record {
  links =
      record {
        tenant_id = "tenant";
        member_id = some "member";
        openim_user_id = "bob";
        is_ready = true;
      }
      ∷ [];
  bots = [];
  members = [];
  messages = [];
  outbox = [];
  rejections = [];
}

abbrev free : String → Bool
free _ = false

abbrev accepted : IngressDb
accepted = (ingest rfc3339 "e1" 100 (message_in "m1" "si_alice_bob" 1) ready).1

conversation_id-symmetric_example :
    conversation_id_of types (record single { send_id = "alice"; recv_id = "bob" })
    ≡ conversation_id_of types single
conversation_id-symmetric_example = conversation_id-symmetric types single refl refl refl

IngressSteps-IsMatched_example : IsMatched (claim_outbox free "w1" 10 30_000_000_000 200 accepted).1
IngressSteps-IsMatched_example =
    IngressSteps-IsMatched rfc3339 {s = ready}
      (claimed (ingested here "e1" 100 (message_in "m1" "si_alice_bob" 1)) free "w1" 10
        30_000_000_000 200)
      (record { same = refl })

store-Refines_example : LogSteps (log_of ready) (
    log_of
      (mark_published 300 "e1" "w1" (claim_outbox free "w1" 10 30_000_000_000 200 accepted).1).1)
store-Refines_example = store-Refines rfc3339 {s = ready} tt (
    published
      (claimed (ingested here "e1" 100 (message_in "m1" "si_alice_bob" 1)) free "w1" 10
        30_000_000_000 200)
      300 "e1" "w1")

-- The first event is sent and the second is not.
abbrev answer : OutboxRecord → Option String
answer r = if r.event_id == "e1" then none else some "broker is down"

abbrev time : OutboxRecord → ℕ
time _ = 300

abbrev outgoing : Outgoing
outgoing = record {
  db = record ready {
    outbox =
        outbox_row 100 "tenant" (event_in "e1" "m1" "si_alice_bob" 1)
        ∷ outbox_row 100 "tenant" (event_in "e2" "m2" "si_alice_bob" 1)
        ∷ [];
  };
  sent = [];
}

publish_batch-AllSent_example :
    AllSent
      (publish_batch answer time free "w1" 10 30_000_000_000 200 outgoing).1.sent
      (publish_batch answer time free "w1" 10 30_000_000_000 200 outgoing).1.db
publish_batch-AllSent_example =
    publish_batch-AllSent answer time free "w1" 10 30_000_000_000 200 outgoing
      (record { published = ((λ h. absurd cc), ((λ h. absurd cc), tt)) })

abbrev decode : String → Option String
decode content = some content

abbrev refused_trigger : Trigger
refused_trigger = record {
  event_id = "e2";
  tenant_id = "tenant";
  member_id = "member";
  source_channel = "openim";
  conversation_id = "sg_g1";
  sender_id = "bob";
  session_type = 3;
  mentions = record { alias = "@agent"; prompt = "hello" } ∷ [];
}

group_normalized : normalize types source group ≡ ok (message_in "m2" "sg_g1" 3)
unfolding normalize conversation_id_of
group_normalized = refl

group_event :
    to_event rfc3339 "e2" (message_in "m2" "sg_g1" 3) "tenant" "member"
    ≡ ok (event_in "e2" "m2" "sg_g1" 3)
unfolding to_event
group_event = refl

group_messages_refused_example :
    classify_event decode (agent_event (event_in "e2" "m2" "sg_g1" 3)) ≢ ok (some refused_trigger)
group_messages_refused_example =
    group_messages_refused types refl source group (message_in "m2" "sg_g1" 3) refl group_normalized
      rfc3339 "e2" "tenant" "member" (event_in "e2" "m2" "sg_g1" 3) group_event decode
      refused_trigger

-- One record that decodes, and one that does not.
abbrev decode_record : String → Option MsgData
decode_record value = if value == "m1" then some single else none

abbrev kafka_record : String → KafkaRecord
kafka_record value = record { source = source; value = value }

abbrev draw : KafkaRecord → String
draw k = k.value

abbrev when : KafkaRecord → ℕ
when _ = 100

abbrev unread : Consumed
unread = record { db = ready; committed = [] }

consume_claim-IsCommitted_example :
    IsCommitted types decode_record rfc3339 draw when
      (kafka_record "m1" ∷ kafka_record "?" ∷ [])
      []
      (consume_claim types decode_record rfc3339 draw when
        (kafka_record "m1" ∷ kafka_record "?" ∷ [])
        unread).1
consume_claim-IsCommitted_example =
    consume_claim-IsCommitted types decode_record rfc3339 draw when
      (kafka_record "m1" ∷ kafka_record "?" ∷ []) unread
