-- ===== src/Agent/Claim.antt =====
-- internal/agent/store.go, Claim: the worker takes a lease on the Run that is due first among those
-- at the dispatch positions of their conversations.
use open_im.Prelude.{
  ℕ, ◌+◌, String, Bool, true, false, ◌&&◌, ◌||◌, not, Option, none, some, [], ◌∷◌, if◌then◌else◌,
  leb, ltb, eqb, any, select_where, first_by, ◌==◌,
}
use open_im.Database.{Db, RunRow, RunState, LaneRow, Json}
use open_im.Database.Tx.{Result, Tx, ◌>>=◌, ◌>>◌, pure, query, update_runs, transact}
use open_im.Delivery.Statements.{is_expired, holds_text, duration_seconds, after_seconds}
use open_im.Delivery.Claim.{is_paused}
use open_im.Agent.Run.{Run}
use open_im.Agent.Lane.{insert_run_event, mark_delegation_running}
use open_im.Agent.Approvals.{expire_tool_approvals}

abbrev pub is_null {ℓ} : {A : Type ℓ} → Option A → Bool
is_null none = true
is_null (some _) = false

-- The five phases of a Run, as the query tells them apart.
abbrev pub is_built_in : Option String → Bool
is_built_in operation_id =
    holds_text operation_id "enterprise.knowledge.search"
    || holds_text operation_id "collaboration.ticket.create"

-- `route_status = 'selected' AND route_operation_id NOT IN (…)`, which is false of NULL.
abbrev pub picks_tool : RunRow → Bool
picks_tool r =
    holds_text r.route_status "selected"
    && not (is_null r.route_operation_id)
    && not (is_built_in r.route_operation_id)

abbrev pub is_routing : RunRow → Bool
is_routing r = is_null r.route_status

abbrev pub is_planning : RunRow → Bool
is_planning r = picks_tool r && is_null r.tool_arguments

abbrev pub is_executing : RunRow → Bool
is_executing r = picks_tool r && not (is_null r.tool_arguments) && is_null r.tool_result

abbrev pub is_generating : RunRow → Bool
is_generating r =
    not (is_null r.route_status)
    && is_null r.candidate_text
    && (not (holds_text r.route_status "selected")
        || is_built_in r.route_operation_id
        || not (is_null r.tool_result))

abbrev pub is_finalizing : RunRow → Bool
is_finalizing r = not (is_null r.candidate_text)

abbrev pub has_attempts : ℕ → RunRow → Bool
has_attempts limit r =
    (is_routing r && ltb r.route_attempts limit)
    || (is_planning r && ltb r.tool_plan_attempts limit)
    || (is_executing r && ltb r.tool_execution_attempts limit)
    || (is_generating r && ltb r.model_attempts limit)
    || (is_finalizing r && ltb r.finalization_attempts limit)

-- `r.state IN ('queued', 'reply_pending') OR (r.state = 'running' AND r.lease_until < now())`
abbrev pub is_run_due : RunState → Option ℕ → ℕ → Bool
is_run_due RunState.queued until now = true
is_run_due RunState.reply_pending until now = true
is_run_due RunState.running until now = is_expired until now
is_run_due _ until now = false

-- The join with agent.conversation_lanes.
abbrev pub at_position : RunRow → LaneRow → Bool
at_position r lane =
    lane.tenant_id == r.tenant_id
    && lane.source_channel == r.source_channel
    && lane.conversation_id == r.conversation_id
    && eqb lane.next_dispatch_sequence r.conversation_sequence

abbrev pub is_run_claimable : Db → (String → Bool) → ℕ → ℕ → RunRow → Bool
is_run_claimable db locked limit now r =
    any (at_position r) db.lanes
    && leb r.available_at now
    && not (is_paused db "agent_execution" r.tenant_id)
    && has_attempts limit r
    && is_run_due r.state r.lease_until now
    && not (locked r.id)

abbrev pub run_before : RunRow → RunRow → Bool
run_before a b =
    ltb a.available_at b.available_at
    || (eqb a.available_at b.available_at && ltb a.created_at b.created_at)

abbrev pub run_candidate : Db → (String → Bool) → ℕ → ℕ → Option RunRow
run_candidate db locked limit now =
    first_by run_before (select_where (is_run_claimable db locked limit now) db.runs)

-- `n + CASE WHEN … THEN 1 ELSE 0 END`
abbrev pub plus_if : Bool → ℕ → ℕ
plus_if true n = n + 1
plus_if false n = n

abbrev pub lease_run : ℕ → String → ℕ → RunRow → RunRow
lease_run now token seconds r = record r {
  state = RunState.running;
  attempts = r.attempts + 1;
  route_attempts = plus_if (is_routing r) r.route_attempts;
  tool_plan_attempts = plus_if (is_planning r) r.tool_plan_attempts;
  tool_execution_attempts = plus_if (is_executing r) r.tool_execution_attempts;
  model_attempts = plus_if (is_generating r) r.model_attempts;
  finalization_attempts = plus_if (is_finalizing r) r.finalization_attempts;
  lease_token = some token;
  lease_until = some (after_seconds now seconds);
  updated_at = now;
}

-- `COALESCE(column, '')`, and a jsonb column after the test for null.
abbrev pub or_empty : Option String → String
or_empty none = ""
or_empty (some s) = s

abbrev pub raw_json : Option String → String
raw_json none = ""
raw_json (some s) = if s == "null" then "" else s

-- The columns that RETURNING gives of an updated row.
abbrev pub run_of : RunRow → Run
run_of r = record {
  id = r.id;
  source_event_id = r.source_event_id;
  tenant_id = r.tenant_id;
  member_id = r.principal_member_id;
  agent_id = r.agent_id;
  agent_version_id = r.agent_version_id;
  agent_deployment_id = r.agent_deployment_id;
  agent_trigger_id = r.agent_trigger_id;
  agent_spec_checksum = r.agent_spec_checksum;
  capability_snapshot_id = r.capability_snapshot_id;
  source_channel = r.source_channel;
  conversation_id = r.conversation_id;
  conversation_sequence = r.conversation_sequence;
  execution_plane = r.execution_plane;
  trace_id = r.trace_id;
  sender_id = r.sender_id;
  session_type = r.session_type;
  prompt = r.prompt;
  candidate_text = or_empty r.candidate_text;
  lease_token = or_empty r.lease_token;
  attempts = r.attempts;
  model = or_empty r.model;
  provider_response_id = or_empty r.provider_response_id;
  action_type = or_empty r.action_type;
  action_title = or_empty r.action_title;
  route_status = or_empty r.route_status;
  route_operation_id = or_empty r.route_operation_id;
  route_clarification = or_empty r.route_clarification;
  route_attempts = r.route_attempts;
  model_attempts = r.model_attempts;
  finalization_attempts = r.finalization_attempts;
  tool_arguments = raw_json r.tool_arguments;
  tool_result = raw_json r.tool_result;
  tool_plan_attempts = r.tool_plan_attempts;
  tool_execution_attempts = r.tool_execution_attempts;
}

unfoldable pub lease_run_candidate : ℕ → String → ℕ → Option RunRow → Tx (Option Run)
unfolding pure
lease_run_candidate now token seconds none = pure none
lease_run_candidate now token seconds (some r) = do
  let run = run_of (lease_run now token seconds r)
  update_runs (λ row. row.id == r.id) (lease_run now token seconds)
  mark_delegation_running now run
  insert_run_event run "claimed" (
      ("attempt", Json.number run.attempts)
      ∷ ("execution_plane", Json.text run.execution_plane)
      ∷ [])
  pure (some run)

-- Claim after its first statement, expireToolApprovals.
unfoldable pub lease_next_run : (String → Bool) → String → ℕ → ℕ → ℕ → Tx (Option Run)
unfolding query lease_run_candidate
lease_next_run locked token lease limit now = do
  found ← query (λ db. run_candidate db locked limit now)
  lease_run_candidate now token (duration_seconds lease) found

unfoldable pub claim_run_tx :
    (String → Bool) → (String → String → Bool) → String → ℕ → ℕ → ℕ → Tx (Option Run)
unfolding lease_next_run
claim_run_tx locked id_before token lease limit now = do
  expire_tool_approvals locked id_before 100 now
  lease_next_run locked token lease limit now

-- Claim
unfoldable pub claim_run :
    (String → Bool) → (String → String → Bool) → String → ℕ → ℕ → ℕ → Db → Result (Option Run) × Db
unfolding claim_run_tx transact
claim_run locked id_before token lease limit now =
    transact (claim_run_tx locked id_before token lease limit now)
