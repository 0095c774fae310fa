-- ===== src/Action/Store.antt =====
-- internal/action/store.go, EnsureIntent and Approve. The digest (SHA-256 of the type, a NUL and the
-- payload), the JSON encoding of a title, the random ids and the time are arguments.
use open_im.Prelude.{
  ℕ, ◌+◌, String, Bool, true, false, ◌||◌, ◌&&◌, not, Option, none, some, [], ◌∷◌, if◌then◌else◌,
  find, ltb, append, trim_space, byte_length, ◌==◌,
}
use open_im.Database.{Json}
use open_im.Database.Tx.{Result, ok, err, ◌>>=◌, ◌>>◌, pure, raise, query, transact}
use open_im.Action.Tables.{
  IntentRow, IntentState, ApprovalRow, ExecutionRow, ExecutionState, ActionDb, ActionTx,
  update_intents, insert_intent, insert_action_approval, insert_execution, insert_action_event,
}

pub record IntentRequest : Type 0 where
  pub run_id : String
  pub tenant_id : String
  pub member_id : String
  pub action_type : String
  pub title : String

pub record ActionIntent : Type 0 where
  pub id : String
  pub digest : String

pub record Principal : Type 0 where
  pub tenant_id : String
  pub member_id : String

pub record ApprovalResult : Type 0 where
  pub intent_id : String
  pub execution_id : String
  pub state : String

-- `request.ActionType != "create_ticket" || request.Title == "" || len(request.Title) > 200`
abbrev pub is_unsupported : String → String → Bool
is_unsupported action_type title =
    not (action_type == "create_ticket") || title == "" || ltb 200 (byte_length title)

abbrev pub new_intent : String → ℕ → IntentRequest → String → String → IntentRow
new_intent id now request payload digest = record {
  id = id;
  run_id = request.run_id;
  tenant_id = request.tenant_id;
  requested_by = request.member_id;
  action_type = request.action_type;
  payload = payload;
  payload_digest = digest;
  state = IntentState.pending_approval;
  expires_at = now + 900_000_000;
  updated_at = now;
}

-- The INSERT, or the row of the same Run that it runs into, and the comparison of the digests.
unfoldable pub intent_or :
    String → ℕ → IntentRequest → String → String → Option IntentRow → ActionTx ActionIntent
unfolding insert_intent pure raise
intent_or id now request payload digest (some row) =
    if row.payload_digest == digest
    then pure (record { id = row.id; digest = row.payload_digest })
    else raise "existing action intent digest differs from Run candidate"
intent_or id now request payload digest none = do
  insert_intent (new_intent id now request payload digest)
  pure (record { id = id; digest = digest })

unfoldable pub ensure_intent_tx :
    String → ℕ → IntentRequest → String → String → ActionTx ActionIntent
unfolding intent_or query
ensure_intent_tx id now request payload digest = do
  row ← query (λ db. find (λ (i : IntentRow). i.run_id == request.run_id) db.intents)
  intent_or id now request payload digest row

-- EnsureIntent
unfoldable pub ensure_intent :
    (String → String)
    → (String → String → String)
    → String
    → ℕ
    → IntentRequest
    → ActionDb
    → Result ActionIntent × ActionDb
unfolding ensure_intent_tx transact
ensure_intent encode digest_of id now request db =
    let title = trim_space request.title in
    if is_unsupported request.action_type title
    then (err "unsupported or invalid action intent", db)
    else transact
        (ensure_intent_tx id now request (encode title)
          (digest_of request.action_type (encode title)))
        db

abbrev pub is_pending_intent : IntentState → Bool
is_pending_intent IntentState.pending_approval = true
is_pending_intent _ = false

abbrev pub execution_word : ExecutionState → String
execution_word ExecutionState.queued = "queued"
execution_word ExecutionState.running = "running"
execution_word ExecutionState.unknown = "unknown"
execution_word ExecutionState.succeeded = "succeeded"
execution_word ExecutionState.failed = "failed"

abbrev pub forbidden : String
forbidden = "action approval is forbidden"

abbrev pub conflict : String
conflict = "action approval conflicts with current intent"

abbrev pub intent_expired : String
intent_expired = "action intent is expired"

abbrev pub set_intent : IntentState → ℕ → IntentRow → IntentRow
set_intent state now i = record i { state = state; updated_at = now }

-- What an approved intent has: the execution that the first approval made.
abbrev pub execution_of : String → Option ExecutionRow → Result ApprovalResult
execution_of intent_id none = err conflict
execution_of intent_id (some e) =
    ok (record { intent_id = intent_id; execution_id = e.id; state = execution_word e.state })

abbrev pub new_execution : String → ℕ → IntentRow → ExecutionRow
new_execution id now i = record {
  id = id;
  intent_id = i.id;
  tenant_id = i.tenant_id;
  idempotency_key = append "intent:" i.id;
  state = ExecutionState.queued;
  attempts = 0;
  available_at = now;
  lease_token = none;
  lease_until = none;
  ticket_id = none;
  receipt = none;
  last_error = none;
  created_at = now;
  updated_at = now;
  completed_at = none;
}

-- A pending intent in time: the approval, its execution, the intent's state and the audit.
unfoldable pub log_approved : String → ℕ → String → IntentRow → ActionTx (Result ApprovalResult)
unfolding update_intents insert_action_event pure
log_approved execution_id now digest i = do
  update_intents (λ row. row.id == i.id) (set_intent IntentState.approved now)
  insert_action_event (record {
    tenant_id = i.tenant_id;
    intent_id = i.id;
    execution_id = execution_id;
    actor_member_id = some i.requested_by;
    event_type = "action.approved";
    evidence = ("digest", Json.text digest) ∷ [];
  })
  pure (ok (record { intent_id = i.id; execution_id = execution_id; state = "queued" }))

unfoldable pub start_execution : String → ℕ → String → IntentRow → ActionTx (Result ApprovalResult)
unfolding insert_execution log_approved
start_execution execution_id now digest i = do
  insert_execution (new_execution execution_id now i)
  log_approved execution_id now digest i

abbrev pub new_approval : String → String → IntentRow → ApprovalRow
new_approval id digest i = record {
  id = id;
  intent_id = i.id;
  tenant_id = i.tenant_id;
  approved_by = i.requested_by;
  payload_digest = digest;
}

unfoldable pub approve_intent :
    String → String → ℕ → String → IntentRow → ActionTx (Result ApprovalResult)
unfolding insert_action_approval start_execution
approve_intent approval_id execution_id now digest i = do
  insert_action_approval (new_approval approval_id digest i)
  start_execution execution_id now digest i

-- The rest, on the row that was read; an inner error is one with which the transaction commits.
unfoldable pub approve_row :
    String → String → ℕ → Principal → String → Option IntentRow → ActionTx (Result ApprovalResult)
unfolding approve_intent update_intents query pure raise
approve_row approval_id execution_id now p digest none = raise forbidden
approve_row approval_id execution_id now p digest (some i) =
    if not (i.tenant_id == p.tenant_id) || not (i.requested_by == p.member_id)
    then raise forbidden
    else if digest == "" || not (digest == i.payload_digest)
    then raise conflict
    else if ltb i.expires_at now && is_pending_intent i.state
    then (do
      update_intents (λ row. row.id == i.id) (set_intent IntentState.expired now)
      pure (err intent_expired))
    else if not (is_pending_intent i.state)
    then query
        (λ db. execution_of i.id (find (λ (e : ExecutionRow). e.intent_id == i.id) db.executions))
    else approve_intent approval_id execution_id now digest i

unfoldable pub approve_tx :
    String → String → ℕ → Principal → String → String → ActionTx (Result ApprovalResult)
unfolding approve_row query
approve_tx approval_id execution_id now p intent_id digest = do
  row ← query (λ db. find (λ (i : IntentRow). i.id == intent_id) db.intents)
  approve_row approval_id execution_id now p digest row

abbrev pub flatten : {A : Type 0} → Result (Result A) × ActionDb → Result A × ActionDb
flatten (ok r, db) = (r, db)
flatten (err e, db) = (err e, db)

-- Store.Approve
unfoldable pub approve_action :
    String → String → ℕ → Principal → String → String → ActionDb → Result ApprovalResult × ActionDb
unfolding approve_tx transact
approve_action approval_id execution_id now p intent_id digest db =
    flatten (transact (approve_tx approval_id execution_id now p intent_id digest) db)

abbrev pub wrapped : Result ApprovalResult × ActionDb → Result ApprovalResult × ActionDb
wrapped (err e, db) = (err (append "approve action: " e), db)
wrapped (ok r, db) = (ok r, db)

-- Service.Approve: the principal is the active member of a verified token.
unfoldable pub approve_as_member :
    String
    → String
    → ℕ
    → Option (Result Principal)
    → String
    → String
    → ActionDb
    → Result ApprovalResult × ActionDb
unfolding approve_action
approve_as_member approval_id execution_id now none intent_id digest db =
    (err "enterprise identity is not authenticated", db)
approve_as_member approval_id execution_id now (some (err e)) intent_id digest db = (err e, db)
approve_as_member approval_id execution_id now (some (ok p)) intent_id digest db =
    wrapped (approve_action approval_id execution_id now p intent_id digest db)
