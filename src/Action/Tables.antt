-- ===== src/Action/Tables.antt =====
-- The tables of internal/action (internal/migrations/sql/0007_approved_ticket_action.sql), with the
-- Runs of agent.runs, and the statements on them. The payload is the JSON text that EnsureIntent
-- encodes.
use open_im.Prelude.{
  ℕ, String, Bool, ◌||◌, Option, List, [], ◌∷◌, ◌++◌, if◌then◌else◌, any, eqb, ltb, count_where,
  update_where, rune_count, ◌==◌,
}
use open_im.Database.{RunRow, Evidence}
use open_im.Database.Tx.{ok, err, TxOn}

pub data IntentState : Type 0 where
  pending_approval approved executing succeeded failed expired : IntentState

pub data ExecutionState : Type 0 where
  queued running unknown succeeded failed : ExecutionState

pub record IntentRow : Type 0 where
  pub id : String
  pub run_id : String
  pub tenant_id : String
  pub requested_by : String
  pub action_type : String
  pub payload : String
  pub payload_digest : String
  pub state : IntentState
  pub expires_at : ℕ
  pub updated_at : ℕ

pub record ApprovalRow : Type 0 where
  pub id : String
  pub intent_id : String
  pub tenant_id : String
  pub approved_by : String
  pub payload_digest : String

pub record ExecutionRow : Type 0 where
  pub id : String
  pub intent_id : String
  pub tenant_id : String
  pub idempotency_key : String
  pub state : ExecutionState
  pub attempts : ℕ
  pub available_at : ℕ
  pub lease_token : Option String
  pub lease_until : Option ℕ
  pub ticket_id : Option String
  pub receipt : Option Evidence
  pub last_error : Option String
  pub created_at : ℕ
  pub updated_at : ℕ
  pub completed_at : Option ℕ

-- collaboration.tickets; `is_open` is `status = 'open'`.
pub record TicketRow : Type 0 where
  pub id : String
  pub tenant_id : String
  pub title : String
  pub is_open : Bool
  pub created_by : String
  pub idempotency_key : String

pub record ActionEvent : Type 0 where
  pub tenant_id : String
  pub intent_id : String
  pub execution_id : String
  pub actor_member_id : Option String
  pub event_type : String
  pub evidence : Evidence

pub record ActionDb : Type 0 where
  pub intents : List IntentRow
  pub approvals : List ApprovalRow
  pub executions : List ExecutionRow
  pub tickets : List TicketRow
  pub events : List ActionEvent
  pub runs : List RunRow

abbrev pub ActionTx : Type 0 → Type 0
ActionTx A = TxOn ActionDb A

unfoldable pub update_intents : (IntentRow → Bool) → (IntentRow → IntentRow) → ActionTx ℕ
update_intents p f db =
    ok (count_where p db.intents, record db { intents = update_where p f db.intents })

unfoldable pub update_executions :
    (ExecutionRow → Bool) → (ExecutionRow → ExecutionRow) → ActionTx ℕ
update_executions p f db =
    ok (count_where p db.executions, record db { executions = update_where p f db.executions })

unfoldable pub update_action_runs : (RunRow → Bool) → (RunRow → RunRow) → ActionTx ℕ
update_action_runs p f db =
    ok (count_where p db.runs, record db { runs = update_where p f db.runs })

-- A row whose primary key is taken, or one of its UNIQUE columns, is refused.
unfoldable pub insert_intent : IntentRow → ActionTx (Unit {0})
insert_intent row db =
    if any (λ (i : IntentRow). i.id == row.id) db.intents
    then err "duplicate key"
    else ok (tt, record db { intents = db.intents ++ row ∷ [] })

unfoldable pub insert_action_approval : ApprovalRow → ActionTx (Unit {0})
insert_action_approval row db =
    if any (λ (a : ApprovalRow). a.id == row.id || a.intent_id == row.intent_id) db.approvals
    then err "duplicate key"
    else ok (tt, record db { approvals = db.approvals ++ row ∷ [] })

unfoldable pub insert_execution : ExecutionRow → ActionTx (Unit {0})
insert_execution row db =
    if any
      (λ (e : ExecutionRow).
        e.id == row.id || e.intent_id == row.intent_id || e.idempotency_key == row.idempotency_key)
      db.executions
    then err "duplicate key"
    else ok (tt, record db { executions = db.executions ++ row ∷ [] })

-- `ON CONFLICT (idempotency_key) DO NOTHING`, and the CHECK on the title's length.
unfoldable pub insert_ticket : TicketRow → ActionTx (Unit {0})
insert_ticket row db =
    if eqb (rune_count row.title) 0 || ltb 200 (rune_count row.title)
    then err "title violates its check"
    else if any (λ (t : TicketRow). t.idempotency_key == row.idempotency_key) db.tickets
    then ok (tt, db)
    else if any (λ (t : TicketRow). t.id == row.id) db.tickets
    then err "duplicate key"
    else ok (tt, record db { tickets = db.tickets ++ row ∷ [] })

unfoldable pub insert_action_event : ActionEvent → ActionTx (Unit {0})
insert_action_event row db = ok (tt, record db { events = db.events ++ row ∷ [] })
