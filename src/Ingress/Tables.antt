-- ===== src/Ingress/Tables.antt =====
-- The tables of internal/ingress (schema integration) and the senders that it resolves.
use open_im.Prelude.{
  ℕ, String, Bool, ◌||◌, ◌&&◌, Option, List, [], ◌∷◌, ◌++◌, if◌then◌else◌, any, eqb, count_where,
  update_where, ◌==◌,
}
use open_im.Prelude.Decimal.{ℤ}
use open_im.Database.{MemberRow}
use open_im.Database.Tx.{ok, err, TxOn}
use open_im.Ingress.Message.{IngressSource, IngressEvent}

-- integration.ingress_messages: the event with where it came from.
pub record IngressRow : Type 0 where
  pub source : IngressSource
  pub event : IngressEvent

pub data OutboxState : Type 0 where
  pending publishing published : OutboxState

pub record OutboxRow : Type 0 where
  pub event_id : String
  pub event_type : String
  pub event_key : String
  pub payload : IngressEvent
  pub state : OutboxState
  pub attempts : ℕ
  pub available_at : ℕ
  pub lease_token : Option String
  pub lease_until : Option ℕ
  pub published_at : Option ℕ
  pub last_error : Option String
  pub created_at : ℕ
  pub updated_at : ℕ

pub record IngressRejection : Type 0 where
  pub source : IngressSource
  pub server_msg_id : String
  pub sender_id : String
  pub reason : String

-- identity.identity_links, and agent.bot_identities, which has no member.
pub record SenderRow : Type 0 where
  pub tenant_id : String
  pub member_id : Option String
  pub openim_user_id : String
  pub is_ready : Bool

pub record IngressDb : Type 0 where
  pub links : List SenderRow
  pub bots : List SenderRow
  pub members : List MemberRow
  pub messages : List IngressRow
  pub outbox : List OutboxRow
  pub rejections : List IngressRejection

abbrev pub IngressTx : Type 0 → Type 0
IngressTx A = TxOn IngressDb A

abbrev pub same_int : ℤ → ℤ → Bool
same_int (ℤ.pos m) (ℤ.pos n) = eqb m n
same_int (ℤ.negsuc m) (ℤ.negsuc n) = eqb m n
same_int _ _ = Bool.false

abbrev pub same_source : IngressSource → IngressSource → Bool
same_source a b = a.topic == b.topic && eqb a.partition b.partition && same_int a.offset b.offset

-- The keys of ingress_messages that a new row may run into.
abbrev pub clashes_with : IngressRow → IngressRow → Bool
clashes_with row m =
    m.event.source_key == row.event.source_key
    || m.event.event_id == row.event.event_id
    || m.event.server_msg_id == row.event.server_msg_id
    || same_source m.source row.source

unfoldable pub insert_message : IngressRow → IngressTx Bool
insert_message row db =
    if any (clashes_with row) db.messages
    then ok (Bool.false, db)
    else ok (Bool.true, record db { messages = db.messages ++ row ∷ [] })

unfoldable pub insert_outbox : OutboxRow → IngressTx (Unit {0})
insert_outbox row db =
    if any (λ (o : OutboxRow). o.event_id == row.event_id) db.outbox
    then err "insert ingress outbox: duplicate key"
    else ok (tt, record db { outbox = db.outbox ++ row ∷ [] })

-- `ON CONFLICT DO NOTHING`
unfoldable pub insert_ingress_rejection : IngressRejection → IngressTx (Unit {0})
insert_ingress_rejection row db =
    if any (λ (r : IngressRejection). same_source r.source row.source) db.rejections
    then ok (tt, db)
    else ok (tt, record db { rejections = db.rejections ++ row ∷ [] })

unfoldable pub update_outbox : (OutboxRow → Bool) → (OutboxRow → OutboxRow) → IngressTx ℕ
update_outbox p f db =
    ok (count_where p db.outbox, record db { outbox = update_where p f db.outbox })
