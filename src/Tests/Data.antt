-- ===== src/Tests/Data.antt =====
-- Concrete rows: one conversation with two replies, the first of which a worker has leased.
use open_im.Prelude.{◌≡◌, ◌≢◌, ap, eq_iff, ◌==◌, String, false, Option, none, some, [], ◌∷◌}
use open_im.Database.{Db, RunRow, RunState, LaneRow, DeliveryRow, DeliveryState}
use open_im.Delivery.Statements.{Record}
use open_im.Delivery.Claim.{lease_out, record_of}
use open_im.Delivery.Marks.{deliver}

abbrev pub run_of_state : String → RunState → Option String → RunRow
run_of_state id state token = record {
  id = id;
  source_event_id = "event";
  tenant_id = "tenant";
  principal_member_id = "member";
  agent_id = "agent";
  agent_version_id = "version";
  agent_deployment_id = "deployment";
  agent_trigger_id = "trigger";
  agent_spec_checksum = "sha256:0";
  capability_snapshot_id = "snapshot";
  source_channel = "openim";
  conversation_id = "conversation";
  conversation_sequence = 4;
  execution_plane = "employee";
  trace_id = "trace";
  sender_id = "alice";
  session_type = 1;
  prompt = "hello";
  state = state;
  attempts = 0;
  available_at = 100;
  lease_token = token;
  lease_until = none;
  candidate_text = none;
  model = none;
  provider_response_id = none;
  action_type = none;
  action_title = none;
  route_status = none;
  route_operation_id = none;
  route_clarification = none;
  route_provider_response_id = none;
  route_router_version = none;
  route_candidates = none;
  route_attempts = 0;
  model_attempts = 0;
  finalization_attempts = 0;
  tool_plan_attempts = 0;
  tool_execution_attempts = 0;
  tool_arguments = none;
  tool_result = none;
  tool_plan_provider_response_id = none;
  pending_tool_approval_id = none;
  reply_server_msg_id = none;
  last_error = none;
  created_at = 100;
  updated_at = 100;
  completed_at = none;
}

abbrev pub lane : LaneRow
lane = record {
  tenant_id = "tenant";
  source_channel = "openim";
  conversation_id = "conversation";
  next_enqueue_sequence = 6;
  next_dispatch_sequence = 4;
  updated_at = 100;
}

abbrev pub pending_of : String → String → DeliveryRow
pending_of id run_id = record {
  id = id;
  run_id = run_id;
  tenant_id = "tenant";
  channel = "openim";
  target_id = "alice";
  session_type = 1;
  content = "a reply";
  waiting_approval = false;
  state = DeliveryState.pending;
  attempts = 0;
  available_at = 200;
  lease_token = none;
  lease_until = none;
  external_message_id = none;
  last_error = none;
  created_at = 200;
  updated_at = 200;
  completed_at = none;
}

abbrev pub first : DeliveryRow
first = pending_of "d1" "r1"

abbrev pub second : DeliveryRow
second = pending_of "d2" "r2"

abbrev pub leased : DeliveryRow
leased = lease_out 300 "t1" 30 first

abbrev pub delivered : DeliveryRow
delivered = deliver 400 "message-1" leased

abbrev pub held : Record
held = record_of "t1" first

abbrev pub db_of : DeliveryRow → Db
db_of d = record {
  runs = run_of_state "r1" RunState.delivery_pending none ∷ [];
  lanes = lane ∷ [];
  deliveries = d ∷ second ∷ [];
  delegations = [];
  controls = [];
  run_events = [];
  delivery_events = [];
  delegation_events = [];
  tool_calls = [];
  tool_approvals = [];
  citations = [];
  members = [];
  rejections = [];
  triggers = [];
  definitions = [];
  deployments = [];
  versions = [];
  tool_events = [];
}

pub unequal : (a b : String) → (a == b) ≡ false → a ≢ b
unequal a b h e = absurd (cc ((eq_iff a b).1 e))

-- A column that holds another text.
pub unequal_some : (a b : String) → (a == b) ≡ false → some a ≢ some b
unequal_some a b h e = unequal a b h (ap (λ o. elim o [ none ↦ a | some u ↦ u ]) e)
