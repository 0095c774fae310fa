-- ===== src/Agent/Enqueue.antt =====
-- internal/agent/store.go, Enqueue and Reject: a message that mentions an Agent becomes a Run at the
-- end of its conversation's lane. The new Run's id and `now()` are arguments.
use open_im.Prelude.{
  ℕ, ◌+◌, String, Bool, ◌&&◌, Option, none, some, List, [], ◌∷◌, if◌then◌else◌, any, eqb, find,
  take, append, ◌==◌,
}
use open_im.Database.{Db, RunRow, RunState, LaneRow, MemberRow, RejectionRow, Json}
use open_im.Database.Tx.{
  Result, Tx, ◌>>=◌, ◌>>◌, pure, query, update_lanes, insert_run_events, transact,
}
use open_im.Database.Tx.Tools.{insert_run, insert_lane, insert_rejection}
use open_im.Agent.Claim.{or_empty}
use open_im.Agent.Resolve.{
  Source, Trigger, EnqueueResult, ResolvedTrigger, resolve, last_prompt, reason_of,
}

-- `INSERT … ON CONFLICT (source_topic, source_partition, source_offset) DO NOTHING`
abbrev pub is_rejected : Source → RejectionRow → Bool
is_rejected source r =
    r.source_topic == source.topic
    && eqb r.source_partition source.partition
    && eqb r.source_offset source.offset

unfoldable pub reject_enqueue_tx : Source → String → String → Tx EnqueueResult
unfolding query pure
reject_enqueue_tx source event_id reason = do
  known ← query (λ db. any (is_rejected source) db.rejections)
  insert_rejection known (record {
    source_topic = source.topic;
    source_partition = source.partition;
    source_offset = source.offset;
    event_id = if event_id == "" then none else some event_id;
    reason = reason;
  })
  pure (record { run_id = ""; rejection_reason = reason })

abbrev pub is_lane_of : Trigger → LaneRow → Bool
is_lane_of t lane =
    lane.tenant_id == t.tenant_id
    && lane.source_channel == t.source_channel
    && lane.conversation_id == t.conversation_id

abbrev pub new_lane : ℕ → Trigger → LaneRow
new_lane now t = record {
  tenant_id = t.tenant_id;
  source_channel = t.source_channel;
  conversation_id = t.conversation_id;
  next_enqueue_sequence = 1;
  next_dispatch_sequence = 1;
  updated_at = now;
}

abbrev pub sequence_of : Option LaneRow → ℕ
sequence_of none = 1
sequence_of (some lane) = lane.next_enqueue_sequence

abbrev pub new_run : String → ℕ → Trigger → ResolvedTrigger → String → ℕ → RunRow
new_run id now t r prompt sequence = record {
  id = id;
  source_event_id = t.event_id;
  tenant_id = t.tenant_id;
  principal_member_id = t.member_id;
  agent_id = r.agent_id;
  agent_version_id = r.version_id;
  agent_deployment_id = r.deployment_id;
  agent_trigger_id = r.trigger_id;
  agent_spec_checksum = r.checksum;
  capability_snapshot_id = r.capability_snapshot_id;
  source_channel = t.source_channel;
  conversation_id = t.conversation_id;
  conversation_sequence = sequence;
  execution_plane = "passive";
  trace_id = append "agent-run:" id;
  sender_id = t.sender_id;
  session_type = t.session_type;
  prompt = prompt;
  state = RunState.queued;
  attempts = 0;
  available_at = now;
  lease_token = none;
  lease_until = none;
  candidate_text = none;
  model = none;
  provider_response_id = none;
  action_type = none;
  action_title = none;
  route_status = none;
  route_operation_id = none;
  route_clarification = none;
  route_provider_response_id = none;
  route_router_version = none;
  route_candidates = none;
  route_attempts = 0;
  model_attempts = 0;
  finalization_attempts = 0;
  tool_plan_attempts = 0;
  tool_execution_attempts = 0;
  tool_arguments = none;
  tool_result = none;
  tool_plan_provider_response_id = none;
  pending_tool_approval_id = none;
  reply_server_msg_id = none;
  last_error = none;
  created_at = now;
  updated_at = now;
  completed_at = none;
}

-- ensureLane, allocateSequence and the INSERT, given the lane, if there is one, and whether the id
-- is taken. No other Run has the event's id here.
unfoldable pub append_run :
    String → ℕ → Trigger → ResolvedTrigger → String → Option LaneRow → Bool → Tx EnqueueResult
unfolding pure
append_run id now t r prompt lane repeated = do
  insert_lane lane (new_lane now t)
  update_lanes (is_lane_of t)
      (λ l. record l { next_enqueue_sequence = l.next_enqueue_sequence + 1; updated_at = now })
  insert_run repeated (new_run id now t r prompt (sequence_of lane))
  insert_run_events (
      record {
        tenant_id = t.tenant_id;
        run_id = id;
        trace_id = append "agent-run:" id;
        event_type = "enqueued";
        evidence =
            ("channel", Json.text t.source_channel)
            ∷ ("conversation_sequence", Json.number (sequence_of lane))
            ∷ [];
      }
      ∷ [])
  pure (record { run_id = id; rejection_reason = "" })

unfoldable pub insert_at_end : String → ℕ → Trigger → ResolvedTrigger → String → Tx EnqueueResult
unfolding query append_run
insert_at_end id now t r prompt = do
  lane ← query (λ db. find (is_lane_of t) db.lanes)
  repeated ← query (λ db. any (λ (run : RunRow). run.id == id) db.runs)
  append_run id now t r prompt lane repeated

unfoldable pub enqueue_one :
    String → ℕ → Source → Trigger → ResolvedTrigger → String → Tx EnqueueResult
unfolding insert_at_end reject_enqueue_tx
enqueue_one id now source t r prompt =
    if reason_of r prompt == ""
    then insert_at_end id now t r prompt
    else reject_enqueue_tx source t.event_id (reason_of r prompt)

unfoldable pub enqueue_resolved :
    String → ℕ → Source → Trigger → List ResolvedTrigger → Tx EnqueueResult
unfolding enqueue_one reject_enqueue_tx pure
enqueue_resolved id now source t [] = pure (record { run_id = ""; rejection_reason = "" })
enqueue_resolved id now source t (r ∷ []) =
    enqueue_one id now source t r (or_empty (last_prompt r.alias t.mentions))
enqueue_resolved id now source t (r ∷ _ ∷ _) =
    reject_enqueue_tx source t.event_id "ambiguous_trigger"

-- After the look for a Run of the same event.
unfoldable pub enqueue_new : String → ℕ → Source → Trigger → Option RunRow → Tx EnqueueResult
unfolding enqueue_resolved reject_enqueue_tx pure query
enqueue_new id now source t (some run) = pure (record { run_id = run.id; rejection_reason = "" })
enqueue_new id now source t none = do
  active ← query (λ db.
      any (λ (m : MemberRow). m.id == t.member_id && m.tenant_id == t.tenant_id && m.is_active)
        db.members)
  resolved ← query (λ db. take 2 (resolve db t.tenant_id t.mentions))
  if active
      then enqueue_resolved id now source t resolved
      else reject_enqueue_tx source t.event_id "member_inactive"

unfoldable pub enqueue_tx : String → ℕ → Source → Trigger → Tx EnqueueResult
unfolding enqueue_new query
enqueue_tx id now source t = do
  existing ← query (λ db. find (λ (run : RunRow). run.source_event_id == t.event_id) db.runs)
  enqueue_new id now source t existing

-- Enqueue
unfoldable pub enqueue : String → ℕ → Source → Trigger → Db → Result EnqueueResult × Db
unfolding enqueue_tx transact
enqueue id now source t = transact (enqueue_tx id now source t)
