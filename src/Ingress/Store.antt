-- ===== src/Ingress/Store.antt =====
-- internal/ingress/store.go: Ingest, IngestBound, Reject and the outbox. Drawn ids and tokens, the
-- rendering of times and `now()` are arguments.
use open_im.Prelude.{
  ℕ, ◌+◌, String, Bool, true, false, ◌&&◌, not, Option, none, some, List, ◌++◌, if◌then◌else◌, any,
  find, map, take, leb, select_where, append, ◌==◌,
}
use open_im.Prelude.Decimal.{ℤ}
use open_im.Database.{MemberRow}
use open_im.Database.Tx.{Result, ok, err, ◌>>=◌, ◌>>◌, pure, raise, query, require_one, transact}
use open_im.Delivery.Statements.{holds_text, is_expired, is_live, after_seconds, duration_seconds}
use open_im.Ingress.Message.{IngressSource, Message, IngressEvent, to_event}
use open_im.Ingress.Tables.{
  OutboxRow, OutboxState, IngressRejection, SenderRow, IngressDb, IngressTx, insert_message,
  insert_outbox, insert_ingress_rejection, update_outbox,
}

pub data Outcome : Type 0 where
  accepted duplicate unmapped : Outcome

abbrev pub outbox_row : ℕ → String → IngressEvent → OutboxRow
outbox_row now tenant_id event = record {
  event_id = event.event_id;
  event_type = event.event_type;
  event_key = append tenant_id (append "/" event.conversation_id);
  payload = event;
  state = OutboxState.pending;
  attempts = 0;
  available_at = now;
  lease_token = none;
  lease_until = none;
  published_at = none;
  last_error = none;
  created_at = now;
  updated_at = now;
}

unfoldable pub after_insert : ℕ → String → IngressEvent → Bool → IngressTx Outcome
unfolding insert_outbox pure
after_insert now tenant_id event false = pure Outcome.duplicate
after_insert now tenant_id event true = do
  insert_outbox (outbox_row now tenant_id event)
  pure Outcome.accepted

unfoldable pub ingest_event : ℕ → IngressSource → String → Result IngressEvent → IngressTx Outcome
unfolding insert_message after_insert raise
ingest_event now source tenant_id (err e) = raise e
ingest_event now source tenant_id (ok event) = do
  inserted ← insert_message (record { source = source; event = event })
  after_insert now tenant_id event inserted

-- ingestMessage
unfoldable pub ingest_message :
    (ℤ → String) → String → ℕ → Message → String → String → IngressTx Outcome
unfolding ingest_event to_event
ingest_message rfc3339 event_id now m tenant_id member_id =
    ingest_event now m.source tenant_id (to_event rfc3339 event_id m tenant_id member_id)

abbrev pub rejection_of : Message → String → IngressRejection
rejection_of m reason = record {
  source = m.source;
  server_msg_id = m.server_msg_id;
  sender_id = m.sender_id;
  reason = reason;
}

-- The senders of `UNION ALL`.
abbrev pub sender_of : IngressDb → String → Option SenderRow
sender_of db id =
    find (λ (s : SenderRow). s.openim_user_id == id)
      (select_where (λ (s : SenderRow). s.is_ready) db.links ++ db.bots)

abbrev pub member_or_empty : Option String → String
member_or_empty none = ""
member_or_empty (some id) = id

unfoldable pub ingest_from :
    (ℤ → String) → String → ℕ → Message → Option SenderRow → IngressTx Outcome
unfolding ingest_message insert_ingress_rejection pure
ingest_from rfc3339 event_id now m none = do
  insert_ingress_rejection (rejection_of m "unmapped_sender")
  pure Outcome.unmapped
ingest_from rfc3339 event_id now m (some s) =
    ingest_message rfc3339 event_id now m s.tenant_id (member_or_empty s.member_id)

unfoldable pub ingest_tx : (ℤ → String) → String → ℕ → Message → IngressTx Outcome
unfolding query ingest_from
ingest_tx rfc3339 event_id now m = do
  sender ← query (λ db. sender_of db m.sender_id)
  ingest_from rfc3339 event_id now m sender

-- Store.Ingest
unfoldable pub ingest : (ℤ → String) → String → ℕ → Message → IngressDb → Result Outcome × IngressDb
unfolding ingest_tx transact
ingest rfc3339 event_id now m = transact (ingest_tx rfc3339 event_id now m)

abbrev pub is_active_of : String → String → MemberRow → Bool
is_active_of tenant_id member_id m = m.id == member_id && m.tenant_id == tenant_id && m.is_active

unfoldable pub ingest_bound_tx :
    (ℤ → String) → String → ℕ → Message → String → String → IngressTx Outcome
unfolding query ingest_message raise
ingest_bound_tx rfc3339 event_id now m tenant_id member_id = do
  active ← query (λ db. any (is_active_of tenant_id member_id) db.members)
  if active
      then ingest_message rfc3339 event_id now m tenant_id member_id
      else raise "bound ingress member is not active"

-- Store.IngestBound
unfoldable pub ingest_bound :
    (ℤ → String) → String → ℕ → Message → String → String → IngressDb → Result Outcome × IngressDb
unfolding ingest_bound_tx transact
ingest_bound rfc3339 event_id now m tenant_id member_id db =
    if m.source_channel == "telegram"
    then transact (ingest_bound_tx rfc3339 event_id now m tenant_id member_id) db
    else (err "bound ingress is only supported for Telegram", db)

-- Store.Reject
unfoldable pub reject_message : IngressRejection → IngressDb → Result (Unit {0}) × IngressDb
unfolding insert_ingress_rejection transact
reject_message row = transact (insert_ingress_rejection row)

pub record OutboxRecord : Type 0 where
  pub event_id : String
  pub event_key : String
  pub payload : IngressEvent
  pub lease_token : String
  pub attempts : ℕ

abbrev pub is_publishing : OutboxState → Bool
is_publishing OutboxState.publishing = true
is_publishing _ = false

-- `state = 'pending' OR (state = 'publishing' AND lease_until < now())`
abbrev pub is_outbox_due : OutboxState → Option ℕ → ℕ → Bool
is_outbox_due OutboxState.pending until now = true
is_outbox_due OutboxState.publishing until now = is_expired until now
is_outbox_due OutboxState.published until now = false

abbrev pub is_outbox_ready : (String → Bool) → ℕ → OutboxRow → Bool
is_outbox_ready locked now o =
    leb o.available_at now && is_outbox_due o.state o.lease_until now && not (locked o.event_id)

abbrev pub lease_outbox : ℕ → String → ℕ → OutboxRow → OutboxRow
lease_outbox now token seconds o = record o {
  state = OutboxState.publishing;
  lease_token = some token;
  lease_until = some (after_seconds now seconds);
  attempts = o.attempts + 1;
  updated_at = now;
}

abbrev pub outbox_record : String → OutboxRow → OutboxRecord
outbox_record token o = record {
  event_id = o.event_id;
  event_key = o.event_key;
  payload = o.payload;
  lease_token = token;
  attempts = o.attempts + 1;
}

abbrev pub is_among : List OutboxRow → OutboxRow → Bool
is_among rows o = any (λ (r : OutboxRow). r.event_id == o.event_id) rows

-- ClaimOutbox. The table is in the order of `created_at`, in which its rows are inserted.
unfoldable pub claim_outbox_tx :
    (String → Bool) → String → ℕ → ℕ → ℕ → IngressTx (List OutboxRecord)
unfolding query update_outbox pure
claim_outbox_tx locked token limit lease now = do
  rows ← query (λ db. take limit (select_where (is_outbox_ready locked now) db.outbox))
  update_outbox (is_among rows) (lease_outbox now token (duration_seconds lease))
  pure (map (outbox_record token) rows)

unfoldable pub claim_outbox :
    (String → Bool) → String → ℕ → ℕ → ℕ → IngressDb → Result (List OutboxRecord) × IngressDb
unfolding claim_outbox_tx transact
claim_outbox locked token limit lease now = transact (claim_outbox_tx locked token limit lease now)

abbrev pub holds_outbox : String → String → OutboxRow → Bool
holds_outbox event_id token o =
    o.event_id == event_id && is_publishing o.state && holds_text o.lease_token token

abbrev pub publish_row : ℕ → OutboxRow → OutboxRow
publish_row now o = record o {
  state = OutboxState.published;
  lease_token = none;
  lease_until = none;
  published_at = some now;
  last_error = none;
  updated_at = now;
}

unfoldable pub mark_published_tx : ℕ → String → String → IngressTx (Unit {0})
unfolding update_outbox require_one
mark_published_tx now event_id token = do
  n ←
      update_outbox (λ o. holds_outbox event_id token o && is_live o.lease_until now)
        (publish_row now)
  require_one n "mark outbox published: publishing lease is not held"

-- MarkPublished
unfoldable pub mark_published : ℕ → String → String → IngressDb → Result (Unit {0}) × IngressDb
unfolding mark_published_tx transact
mark_published now event_id token = transact (mark_published_tx now event_id token)

abbrev pub release_row : ℕ → ℕ → String → OutboxRow → OutboxRow
release_row now seconds failure o = record o {
  state = OutboxState.pending;
  lease_token = none;
  lease_until = none;
  available_at = after_seconds now seconds;
  last_error = some failure;
  updated_at = now;
}

unfoldable pub release_outbox_tx : ℕ → String → String → String → ℕ → IngressTx (Unit {0})
unfolding update_outbox require_one
release_outbox_tx now event_id token failure retry_after = do
  n ←
      update_outbox (holds_outbox event_id token)
        (release_row now (duration_seconds retry_after) failure)
  require_one n "release outbox event: publishing lease is not held"

-- ReleaseOutbox
unfoldable pub release_outbox :
    ℕ → String → String → String → ℕ → IngressDb → Result (Unit {0}) × IngressDb
unfolding release_outbox_tx transact
release_outbox now event_id token failure retry_after =
    transact (release_outbox_tx now event_id token failure retry_after)
