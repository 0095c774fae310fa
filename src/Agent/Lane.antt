-- ===== src/Agent/Lane.antt =====
-- internal/agent/store.go: the statements that the operations of `Store` share, and the tests of
-- their WHERE clauses.
use open_im.Prelude.{
  ℕ, String, Bool, true, false, ◌&&◌, Option, some, [], ◌∷◌, if◌then◌else◌, ltb, eqb, byte_length,
  take_bytes, ◌==◌,
}
use open_im.Database.{
  RunRow, LaneRow, DelegationRow, DelegationState, DelegationEvent, Json, Evidence,
}
use open_im.Database.Tx.{
  Tx, ◌>>=◌, ◌>>◌, pure, query, update_lanes, update_delegations, insert_run_events,
  insert_delegation_events, require_one,
}
use open_im.Delivery.Statements.{
  holds_text, is_live, is_run_running, is_open, advance, delegation_events_for,
}
use open_im.Agent.Run.{Run}

-- insertRunEvent
unfoldable pub insert_run_event : Run → String → Evidence → Tx (Unit {0})
insert_run_event run event_type evidence = insert_run_events (
    record {
      tenant_id = run.tenant_id;
      run_id = run.id;
      trace_id = run.trace_id;
      event_type = event_type;
      evidence = evidence;
    }
    ∷ [])

-- `WHERE id = $1 AND state = 'running' AND lease_token = $2`, and with `AND lease_until >= now()`
abbrev pub holds_lease : Run → RunRow → Bool
holds_lease run row =
    row.id == run.id && is_run_running row.state && holds_text row.lease_token run.lease_token

abbrev pub holds_live_lease : ℕ → Run → RunRow → Bool
holds_live_lease now run row = holds_lease run row && is_live row.lease_until now

-- advanceConversationLane
abbrev pub stands_at : Run → LaneRow → Bool
stands_at run lane =
    lane.tenant_id == run.tenant_id
    && lane.source_channel == run.source_channel
    && lane.conversation_id == run.conversation_id
    && eqb lane.next_dispatch_sequence run.conversation_sequence

unfoldable pub advance_conversation_lane : ℕ → Run → Tx (Unit {0})
advance_conversation_lane now run = do
  n ← update_lanes (stands_at run) (advance now)
  require_one n "advance Agent conversation lane: Run does not own the dispatch position"

abbrev pub delegates : Run → DelegationRow → Bool
delegates run d = d.tenant_id == run.tenant_id && d.child_run_id == run.id

abbrev pub is_queued_delegation : DelegationState → Bool
is_queued_delegation DelegationState.queued = true
is_queued_delegation _ = false

abbrev pub delegation_event : Run → String → Evidence → DelegationRow → DelegationEvent
delegation_event run event_type evidence d = record {
  tenant_id = run.tenant_id;
  delegation_id = d.id;
  event_type = event_type;
  evidence = ("child_run_id", Json.text run.id) ∷ evidence;
}

-- The UPDATE of markDelegationRunning and its event.
unfoldable pub start_delegation : ℕ → Run → Tx (Unit {0})
unfolding query
start_delegation now run = do
  events ← query (λ db.
      delegation_events_for (λ d. delegates run d && is_queued_delegation d.state)
        (delegation_event run "running" []) db.delegations)
  update_delegations (λ d. delegates run d && is_queued_delegation d.state)
      (λ d. record d { state = DelegationState.running; updated_at = now })
  insert_delegation_events events

-- markDelegationRunning
unfoldable pub mark_delegation_running : ℕ → Run → Tx (Unit {0})
unfolding pure start_delegation
mark_delegation_running now run =
    if run.execution_plane == "internal" then start_delegation now run else pure tt

-- The UPDATE of failDelegationForRun and its event.
unfoldable pub end_delegation : ℕ → Run → String → Tx (Unit {0})
unfolding query
end_delegation now run failure = do
  events ← query (λ db.
      delegation_events_for (λ d. delegates run d && is_open d.state)
        (delegation_event run "failed" (("error", Json.text failure) ∷ [])) db.delegations)
  update_delegations (λ d. delegates run d && is_open d.state)
      (λ d. record d {
        state = DelegationState.failed;
        last_error = some failure;
        completed_at = some now;
        updated_at = now;
      })
  insert_delegation_events events

-- failDelegationForRun
unfoldable pub fail_delegation_for_run : ℕ → Run → String → Tx (Unit {0})
unfolding pure end_delegation
fail_delegation_for_run now run failure =
    if run.execution_plane == "internal" then end_delegation now run failure else pure tt

-- `failure[:1000]` of a longer text: none where the cut is inside a code point.
unfoldable pub cut_failure : String → Option String
cut_failure failure =
    if ltb 1000 (byte_length failure) then take_bytes 1000 failure else some failure
