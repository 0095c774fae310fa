-- ===== src/Delivery/Statements.antt =====
-- internal/delivery/store.go: the types, the tests of the WHERE clauses, and the statements that
-- the operations of `Store` share. SHA-256 and each transaction's `now()` are arguments.
use Prim.Native.String
use open_im.Prelude.{
  ℕ, ◌+◌, ◌-◌, ◌*◌, ◌/◌, String, Bool, true, false, ◌&&◌, Option, none, some, List, [], ◌∷◌,
  if◌then◌else◌, leb, ltb, eqb, any, count_where, rune_count, take_runes, ◌==◌,
}
use open_im.Database.{
  RunRow, RunState, LaneRow, DeliveryRow, DeliveryState, DelegationRow, DelegationState, Json,
  Evidence, RunEvent, DelegationEvent,
}
use open_im.Database.Tx.{
  Tx, ◌>>=◌, ◌>>◌, query, update_lanes, update_delegations, insert_run_events,
  insert_delivery_events, insert_delegation_events, require_one,
}

pub record PrepareRequest : Type 0 where
  pub run_id : String
  pub lease_token : String
  pub tenant_id : String
  pub channel : String
  pub target_id : String
  pub content : String
  pub session_type : ℕ
  pub waiting_approval : Bool

pub record Record : Type 0 where
  pub id : String
  pub run_id : String
  pub tenant_id : String
  pub channel : String
  pub target_id : String
  pub content : String
  pub session_type : ℕ
  pub waiting_approval : Bool
  pub lease_token : String
  pub attempts : ℕ

-- `column = value` in a WHERE clause: NULL is not equal to anything.
abbrev pub holds_text : Option String → String → Bool
holds_text none value = false
holds_text (some held) value = held == value

-- `lease_until >= now()` and `lease_until < now()`, both false of NULL.
abbrev pub is_live : Option ℕ → ℕ → Bool
is_live none now = false
is_live (some until) now = leb now until

abbrev pub is_expired : Option ℕ → ℕ → Bool
is_expired none now = false
is_expired (some until) now = ltb until now

abbrev pub is_run_running : RunState → Bool
is_run_running RunState.running = true
is_run_running _ = false

abbrev pub is_delivery_pending : RunState → Bool
is_delivery_pending RunState.delivery_pending = true
is_delivery_pending _ = false

abbrev pub is_sending : DeliveryState → Bool
is_sending DeliveryState.sending = true
is_sending _ = false

abbrev pub is_pending : DeliveryState → Bool
is_pending DeliveryState.pending = true
is_pending _ = false

-- `state IN ('queued', 'running')`
abbrev pub is_open : DelegationState → Bool
is_open DelegationState.queued = true
is_open DelegationState.running = true
is_open _ = false

-- boundedError
unfoldable pub bounded_error : String → String
bounded_error value = if ltb 1000 (rune_count value) then take_runes 1000 value else value

-- durationSeconds, over a duration in nanoseconds
unfoldable pub duration_seconds : ℕ → ℕ
duration_seconds value = (value + 1_000_000_000 - 1) / 1_000_000_000

-- `now() + make_interval(secs => seconds)`
abbrev pub after_seconds : ℕ → ℕ → ℕ
after_seconds now seconds = now + seconds * 1_000_000

-- insertRunLifecycle: one event for the Run that has the id.
abbrev pub run_event : String → Evidence → RunRow → RunEvent
run_event event_type evidence run = record {
  tenant_id = run.tenant_id;
  run_id = run.id;
  trace_id = run.trace_id;
  event_type = event_type;
  evidence = evidence;
}

abbrev pub run_events_for : String → String → Evidence → List RunRow → List RunEvent
run_events_for run_id event_type evidence [] = []
run_events_for run_id event_type evidence (run ∷ runs) =
    let rest = run_events_for run_id event_type evidence runs in
    if run.id == run_id then run_event event_type evidence run ∷ rest else rest

unfoldable pub insert_run_lifecycle : String → String → Evidence → Tx (Unit {0})
unfolding query
insert_run_lifecycle run_id event_type evidence = do
  n ← query (λ db. count_where (λ (run : RunRow). run.id == run_id) db.runs)
  rows ← query (λ db. run_events_for run_id event_type evidence db.runs)
  insert_run_events rows
  require_one n "record Agent delivery lifecycle event: Run does not exist"

-- advanceLaneForRun: the lane moves on if it stands at this Run's sequence.
abbrev pub owns_position : String → RunRow → LaneRow → Bool
owns_position run_id run lane =
    run.id == run_id
    && lane.tenant_id == run.tenant_id
    && lane.source_channel == run.source_channel
    && lane.conversation_id == run.conversation_id
    && eqb lane.next_dispatch_sequence run.conversation_sequence

abbrev pub advance : ℕ → LaneRow → LaneRow
advance now lane = record lane {
  next_dispatch_sequence = lane.next_dispatch_sequence + 1;
  updated_at = now;
}

unfoldable pub advance_lane_for_run : ℕ → String → Tx (Unit {0})
unfolding query
advance_lane_for_run now run_id = do
  runs ← query (λ db. db.runs)
  n ← update_lanes (λ lane. any (λ run. owns_position run_id run lane) runs) (advance now)
  require_one n "advance delivered Agent conversation lane: Run does not own the dispatch position"

-- insertAudit
unfoldable pub insert_audit : Record → String → String → Tx (Unit {0})
insert_audit r event_type failure = insert_delivery_events (
    record {
      tenant_id = r.tenant_id;
      run_id = r.run_id;
      delivery_id = r.id;
      event_type = event_type;
      evidence =
          ("channel", Json.text r.channel)
          ∷ ("attempts", Json.number r.attempts)
          ∷ ("error", if failure == "" then Json.null else Json.text failure)
          ∷ [];
    }
    ∷ [])

-- `WHERE tenant_id = $1 AND child_run_id = $2 AND state IN ('queued', 'running')`, at most one row
-- by the table's UNIQUE (tenant_id, child_run_id).
abbrev pub is_delegation_of : Record → DelegationRow → Bool
is_delegation_of r d = d.tenant_id == r.tenant_id && d.child_run_id == r.run_id && is_open d.state

abbrev pub delegation_events_for :
    (DelegationRow → Bool)
    → (DelegationRow → DelegationEvent)
    → List DelegationRow
    → List DelegationEvent
delegation_events_for p f [] = []
delegation_events_for p f (d ∷ ds) =
    let rest = delegation_events_for p f ds in if p d then f d ∷ rest else rest

-- completeDelegationForRun
unfoldable pub complete_delegation_for_run : (String → String) → ℕ → Record → String → Tx (Unit {0})
unfolding query
complete_delegation_for_run sha256_hex now r external_message_id = do
  let checksum = String.◌++◌ "sha256:" (sha256_hex r.content)
  events ← query (λ db.
      delegation_events_for (is_delegation_of r)
        (λ d. record {
          tenant_id = r.tenant_id;
          delegation_id = d.id;
          event_type = "completed";
          evidence =
              ("child_run_id", Json.text r.run_id)
              ∷ ("external_message_id", Json.text external_message_id)
              ∷ ("result_checksum", Json.text checksum)
              ∷ [];
        })
        db.delegations)
  update_delegations (is_delegation_of r) (λ d. record d {
    state = DelegationState.completed;
    result_checksum = some checksum;
    last_error = none;
    completed_at = some now;
    updated_at = now;
  })
  insert_delegation_events events

-- `WHERE id = $1 AND state = 'sending' AND lease_token = $2`
abbrev pub holds_delivery : Record → DeliveryRow → Bool
holds_delivery r d = d.id == r.id && is_sending d.state && holds_text d.lease_token r.lease_token

-- `WHERE id = $1 AND state = 'delivery_pending'`
abbrev pub awaits_delivery : Record → RunRow → Bool
awaits_delivery r run = run.id == r.run_id && is_delivery_pending run.state
