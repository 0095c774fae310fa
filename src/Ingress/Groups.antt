-- ===== src/Ingress/Groups.antt =====
-- Conversations of internal/ingress/event.go: the id of a pair, and what becomes of a group's.
use Prim.Native.Nat.{Ordering, compare}
use Prim.Native.Char.{code}
use Prim.Native.String
use Prim.Native.String.compare as TextOrder
use text.Mathlib.TextEquality.{path_by_compare}
use open_im.Prelude.{
  ℕ, ◌≢◌, String, ◌≡◌, refl, ap, ◌∙◌, sym, true, false, Option, none, some, List, [], ◌∷◌, arith,
  eqb, ◌==◌,
}
use open_im.Prelude.Decimal.{ℤ}
use open_im.Database.Tx.{Result, ok, err}
use open_im.Agent.Resolve.{Trigger, Mention}
use open_im.Agent.Mentions.{
  Event, classify_event, classify_text, classify_mentions, extract_mentions,
}
use open_im.Ingress.Message.{
  IngressSource, MsgData, Message, IngressEvent, ChatTypes, comes_after, joined_pair,
  conversation_id_of, normalize, message_of, to_event,
}

abbrev flip : Ordering → Ordering
flip Ordering.lt = Ordering.gt
flip Ordering.eq = Ordering.eq
flip Ordering.gt = Ordering.lt

flip-compare : (m n : ℕ) → flip (compare m n) ≡ compare n m
flip-compare m n = ground arith

flip-then : (o r : Ordering) → flip (String.then o r) ≡ String.then (flip o) (flip r)
flip-then Ordering.lt r = refl
flip-then Ordering.eq r = refl
flip-then Ordering.gt r = refl

flip-compare_text : (s t : String) → flip (String.compare s t) ≡ String.compare t s
flip-compare_text String.[] String.[] = refl
flip-compare_text String.[] (String.◌∷◌ d t) = rw (TextOrder.nil-cons d t, TextOrder.cons-nil d t)
flip-compare_text (String.◌∷◌ c s) String.[] = rw (TextOrder.nil-cons c s, TextOrder.cons-nil c s)
flip-compare_text (String.◌∷◌ c s) (String.◌∷◌ d t) =
    rw (TextOrder.cons-cons c d s t, TextOrder.cons-cons d c t s)
      (flip-then (compare (code c) (code d)) (String.compare s t)
        ∙ rw (flip-compare (code c) (code d), flip-compare_text s t) refl)

-- The id of a pair does not depend on who sends: both directions of a chat are one conversation.
pub conversation_id-symmetric :
    (types : ChatTypes) (d : MsgData)
    → (d.send_id == "") ≡ false
    → (d.recv_id == "") ≡ false
    → eqb d.session_type types.single ≡ true
    → conversation_id_of types (record d { send_id = d.recv_id; recv_id = d.send_id })
      ≡ conversation_id_of types d
unfolding conversation_id_of
conversation_id-symmetric types d named_sender named_receiver single =
    rw (single, named_sender, named_receiver)
      (ap ok (
        pair (String.compare d.send_id d.recv_id) (String.compare d.recv_id d.send_id)
          (flip-compare_text d.send_id d.recv_id) refl))
  where
    pair :
        (o r : Ordering)
        → flip o ≡ r
        → String.compare d.send_id d.recv_id ≡ o
        → joined_pair (comes_after r) d.recv_id d.send_id
          ≡ joined_pair (comes_after o) d.send_id d.recv_id
    pair Ordering.lt r e q = rw (sym e) refl
    pair Ordering.gt r e q = rw (sym e) refl
    pair Ordering.eq r e q =
        let same : d.send_id ≡ d.recv_id = path_by_compare d.send_id d.recv_id q in
        rw (sym e, same) refl

-- What the consumer of the Agents reads of an event: ingress.Event is one type in the source.
abbrev pub agent_event : IngressEvent → Event
agent_event e = record {
  event_id = e.event_id;
  event_type = e.event_type;
  tenant_id = e.tenant_id;
  source_channel = e.source_channel;
  conversation_id = e.conversation_id;
  sender_id = e.sender_id;
  principal_member_id = e.principal_member_id;
  session_type = e.session_type;
  content_type = e.content_type;
  content = e.content;
}

module _ (t : Trigger) (e : Event) (group : e.session_type ≡ 3) where
  mentions-refused : (ms : List Mention) → classify_mentions e ms ≢ ok (some t)
  mentions-refused [] h = absurd cc
  mentions-refused (m ∷ ms) h = absurd (ground arith)

  text-refused : (text : Option String) → classify_text e text ≢ ok (some t)
  text-refused none h = absurd cc
  text-refused (some text) h = mentions-refused (extract_mentions text) h

  event-refused : (decode : String → Option String) → classify_event decode e ≢ ok (some t)
  unfolding classify_event
  event-refused decode h = text-refused (decode e.content) (ground arith)

message_of-session :
    (source : IngressSource) (d : MsgData) (c : Result String) (m : Message)
    → message_of source d c ≡ ok m
    → m.session_type ≡ d.session_type
message_of-session source d (ok c) m h = cc
message_of-session source d (err e) m h = absurd cc

normalize-session :
    (types : ChatTypes) (source : IngressSource) (d : MsgData) (m : Message)
    → normalize types source d ≡ ok m
    → m.session_type ≡ d.session_type
unfolding normalize
normalize-session types source d m h =
    message_of-session source d (conversation_id_of types d) m (ground arith)

to_event-session :
    (rfc3339 : ℤ → String) (event_id : String) (m : Message) (tenant_id member_id : String)
    (e : IngressEvent)
    → to_event rfc3339 event_id m tenant_id member_id ≡ ok e
    → e.session_type ≡ m.session_type
unfolding to_event
to_event-session rfc3339 event_id m tenant_id member_id e h = ground arith

-- No message of a group becomes a trigger of an Agent, where the group type of the OpenIM protocol
-- is 3: what Normalize and ToEvent make of it is never classified as one, whatever it mentions.
pub group_messages_refused :
    (types : ChatTypes)
    → types.read_group ≡ 3
    → (source : IngressSource) (d : MsgData) (m : Message) → d.session_type ≡ types.read_group
    → normalize types source d ≡ ok m
    → (rfc3339 : ℤ → String) (event_id tenant_id member_id : String) (e : IngressEvent)
    → to_event rfc3339 event_id m tenant_id member_id ≡ ok e
    → (decode : String → Option String) (t : Trigger)
    → classify_event decode (agent_event e) ≢ ok (some t)
group_messages_refused types three source d m group n rfc3339 event_id tenant member e made decode
      t =
    event-refused t (agent_event e)
      (to_event-session rfc3339 event_id m tenant member e made
        ∙ normalize-session types source d m n
        ∙ group
        ∙ three)
      decode
