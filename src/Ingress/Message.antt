-- ===== src/Ingress/Message.antt =====
-- internal/ingress/event.go. The session types of the OpenIM protocol, the drawn event id and the
-- rendering of a time are arguments.
use Prim.Native.Nat.{Ordering}
use Prim.Native.String
use open_im.Prelude.{
  ℕ, String, Bool, true, false, ◌||◌, ◌&&◌, not, if◌then◌else◌, eqb, append, ◌==◌,
}
use open_im.Prelude.Decimal.{ℤ, pos, negsuc, format_nat}
use open_im.Database.Tx.{Result, ok, err}

pub record IngressSource : Type 0 where
  pub topic : String
  pub partition : ℕ
  pub offset : ℤ
  pub key : String

-- sdkws.MsgData, with the fields that are read.
pub record MsgData : Type 0 where
  pub server_msg_id : String
  pub client_msg_id : String
  pub send_id : String
  pub recv_id : String
  pub group_id : String
  pub session_type : ℕ
  pub content_type : ℕ
  pub content : String
  pub create_time : ℤ
  pub send_time : ℤ

-- `occurred_at` is in milliseconds.
pub record Message : Type 0 where
  pub source : IngressSource
  pub source_channel : String
  pub member_id : String
  pub server_msg_id : String
  pub client_msg_id : String
  pub sender_id : String
  pub conversation_id : String
  pub session_type : ℕ
  pub content_type : ℕ
  pub content : String
  pub occurred_at : ℤ

pub record IngressEvent : Type 0 where
  pub event_id : String
  pub event_type : String
  pub occurred_at : String
  pub tenant_id : String
  pub source_channel : String
  pub conversation_id : String
  pub source_key : String
  pub server_msg_id : String
  pub client_msg_id : String
  pub sender_id : String
  pub principal_member_id : String
  pub session_type : ℕ
  pub content_type : ℕ
  pub content : String
  pub data_classification : String

abbrev pub accepted_event_type : String
accepted_event_type = "im.message.accepted.v1"

-- constant.SingleChatType and constant.ReadGroupChatType of the OpenIM protocol.
pub record ChatTypes : Type 0 where
  pub single : ℕ
  pub read_group : ℕ

-- `sort.Strings` on two texts: the order of their bytes is that of their code points.
abbrev pub comes_after : Ordering → Bool
comes_after Ordering.gt = true
comes_after _ = false

abbrev pub joined_pair : Bool → String → String → String
joined_pair true a b = append "si_" (append b (append "_" a))
joined_pair false a b = append "si_" (append a (append "_" b))

-- conversationID
unfoldable pub conversation_id_of : ChatTypes → MsgData → Result String
conversation_id_of types d =
    if eqb d.session_type types.single
    then (if d.recv_id == ""
        then err "single-chat receiver is missing"
        else ok
            (joined_pair (comes_after (String.compare d.send_id d.recv_id)) d.send_id d.recv_id))
    else if eqb d.session_type types.read_group
    then (if d.group_id == "" then err "group ID is missing" else ok (append "sg_" d.group_id))
    else err (append "unsupported session type " (format_nat d.session_type))

abbrev pub is_positive : ℤ → Bool
is_positive (pos n) = not (eqb n 0)
is_positive (negsuc n) = false

-- `timestamp := data.CreateTime; if timestamp <= 0 { timestamp = data.SendTime }`
abbrev pub timestamp_of : MsgData → ℤ
timestamp_of d = if is_positive d.create_time then d.create_time else d.send_time

abbrev pub message_of : IngressSource → MsgData → Result String → Result Message
message_of source d (err e) = err e
message_of source d (ok conversation) = ok (record {
  source = source;
  source_channel = "openim";
  member_id = "";
  server_msg_id = d.server_msg_id;
  client_msg_id = d.client_msg_id;
  sender_id = d.send_id;
  conversation_id = conversation;
  session_type = d.session_type;
  content_type = d.content_type;
  content = d.content;
  occurred_at = timestamp_of d;
})

-- Normalize, of data that is there.
unfoldable pub normalize : ChatTypes → IngressSource → MsgData → Result Message
unfolding conversation_id_of
normalize types source d =
    if d.server_msg_id == "" || d.send_id == ""
    then err "server message ID or sender ID is missing"
    else if not (is_positive (timestamp_of d))
    then err "message timestamp is missing"
    else message_of source d (conversation_id_of types d)

-- Message.ToEvent
unfoldable pub to_event : (ℤ → String) → String → Message → String → String → Result IngressEvent
to_event rfc3339 event_id m tenant_id member_id =
    if not (m.source_channel == "openim") && not (m.source_channel == "telegram")
    then err (append "unsupported source channel " (append "\"" (append m.source_channel "\"")))
    else ok (record {
      event_id = event_id;
      event_type = accepted_event_type;
      occurred_at = rfc3339 m.occurred_at;
      tenant_id = tenant_id;
      source_channel = m.source_channel;
      conversation_id = m.conversation_id;
      source_key = append m.source_channel (append ":" m.server_msg_id);
      server_msg_id = m.server_msg_id;
      client_msg_id = m.client_msg_id;
      sender_id = m.sender_id;
      principal_member_id = member_id;
      session_type = m.session_type;
      content_type = m.content_type;
      content = m.content;
      data_classification = "internal";
    })
