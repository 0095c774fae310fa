-- ===== src/Database.antt =====
-- The tables that the Agent runtime and the delivery worker share (schemas agent, audit and
-- platform_meta of platform/services/platform-api/internal/migrations/sql), with one record for
-- each table's row. A column that may be NULL is an Option. Times are microseconds.
pub mod Tx
use open_im.Prelude.{ℕ, String, Bool, Option, List}

-- `state` of agent.runs (0009_agent_channels.sql).
pub data RunState : Type 0 where
  queued running reply_pending delivery_pending delivery_unknown : RunState
  waiting_approval succeeded failed : RunState

-- `state` of agent.deliveries.
pub data DeliveryState : Type 0 where
  pending sending sent uncertain failed : DeliveryState

-- `state` of agent.delegations (0022_agent_delegation.sql).
pub data DelegationState : Type 0 where
  queued running completed failed unknown : DelegationState

-- agent.runs
pub record RunRow : Type 0 where
  pub id : String
  pub source_event_id : String
  pub tenant_id : String
  pub principal_member_id : String
  pub agent_id : String
  pub agent_version_id : String
  pub agent_deployment_id : String
  pub agent_trigger_id : String
  pub agent_spec_checksum : String
  pub capability_snapshot_id : String
  pub source_channel : String
  pub conversation_id : String
  pub conversation_sequence : ℕ
  pub execution_plane : String
  pub trace_id : String
  pub sender_id : String
  pub session_type : ℕ
  pub prompt : String
  pub state : RunState
  pub attempts : ℕ
  pub available_at : ℕ
  pub lease_token : Option String
  pub lease_until : Option ℕ
  pub candidate_text : Option String
  pub model : Option String
  pub provider_response_id : Option String
  pub action_type : Option String
  pub action_title : Option String
  pub route_status : Option String
  pub route_operation_id : Option String
  pub route_clarification : Option String
  pub route_provider_response_id : Option String
  pub route_router_version : Option String
  pub route_candidates : Option String
  pub route_attempts : ℕ
  pub model_attempts : ℕ
  pub finalization_attempts : ℕ
  pub tool_plan_attempts : ℕ
  pub tool_execution_attempts : ℕ
  pub tool_arguments : Option String  -- jsonb, by its text
  pub tool_result : Option String
  pub tool_plan_provider_response_id : Option String
  pub pending_tool_approval_id : Option String
  pub reply_server_msg_id : Option String
  pub last_error : Option String
  pub created_at : ℕ
  pub updated_at : ℕ
  pub completed_at : Option ℕ

-- agent.conversation_lanes
pub record LaneRow : Type 0 where
  pub tenant_id : String
  pub source_channel : String
  pub conversation_id : String
  pub next_enqueue_sequence : ℕ
  pub next_dispatch_sequence : ℕ
  pub updated_at : ℕ

-- agent.deliveries
pub record DeliveryRow : Type 0 where
  pub id : String
  pub run_id : String
  pub tenant_id : String
  pub channel : String
  pub target_id : String
  pub session_type : ℕ
  pub content : String
  pub waiting_approval : Bool
  pub state : DeliveryState
  pub attempts : ℕ
  pub available_at : ℕ
  pub lease_token : Option String
  pub lease_until : Option ℕ
  pub external_message_id : Option String
  pub last_error : Option String
  pub created_at : ℕ
  pub updated_at : ℕ
  pub completed_at : Option ℕ

-- agent.delegations, with the columns that this code reads or writes
pub record DelegationRow : Type 0 where
  pub id : String
  pub tenant_id : String
  pub child_run_id : String
  pub state : DelegationState
  pub result_checksum : Option String
  pub last_error : Option String
  pub updated_at : ℕ
  pub completed_at : Option ℕ

-- agent.tool_calls and agent.tool_approvals (0012_tool_runtime.sql). For `tool_id` a call has the
-- operation that the tool's descriptor names.
pub data CallState : Type 0 where
  prepared denied waiting_approval executing unknown succeeded failed : CallState

pub data ApprovalState : Type 0 where
  requested approved rejected expired : ApprovalState

pub record ToolCallRow : Type 0 where
  pub id : String
  pub tenant_id : String
  pub run_id : String
  pub call_id : String
  pub operation_id : String
  pub capability_snapshot_id : String
  pub arguments : String
  pub arguments_digest : String
  pub idempotency_key : String
  pub policy_decision : String
  pub policy_reason : String
  pub state : CallState
  pub attempts : ℕ
  pub result : Option String
  pub error_code : Option String
  pub updated_at : ℕ
  pub completed_at : Option ℕ

pub record ToolApprovalRow : Type 0 where
  pub id : String
  pub tenant_id : String
  pub tool_call_id : String
  pub arguments_digest : String
  pub state : ApprovalState
  pub requested_by : String
  pub decided_by : Option String
  pub expires_at : ℕ
  pub decided_at : Option ℕ

-- agent.run_citations
pub record CitationRow : Type 0 where
  pub run_id : String
  pub citation_id : String
  pub ordinal : ℕ
  pub document_id : String
  pub version_id : String
  pub chunk_id : String
  pub title : String
  pub source_uri : String
  pub checksum : String

-- platform_meta.runtime_controls
pub record ControlRow : Type 0 where
  pub tenant_id : String
  pub component : String
  pub paused : Bool

-- A value of an `evidence` jsonb object.
pub data Json : Type 0 where
  text : String → Json
  number : ℕ → Json
  flag : Bool → Json
  null : Json

abbrev pub Evidence : Type 0
Evidence = List (String × Json)

-- audit.agent_run_events, audit.delivery_events, audit.agent_delegation_events
pub record RunEvent : Type 0 where
  pub tenant_id : String
  pub run_id : String
  pub trace_id : String
  pub event_type : String
  pub evidence : Evidence

pub record DeliveryEvent : Type 0 where
  pub tenant_id : String
  pub run_id : String
  pub delivery_id : String
  pub event_type : String
  pub evidence : Evidence

pub record DelegationEvent : Type 0 where
  pub tenant_id : String
  pub delegation_id : String
  pub event_type : String
  pub evidence : Evidence

-- identity.members
pub record MemberRow : Type 0 where
  pub id : String
  pub tenant_id : String
  pub is_active : Bool

-- agent.event_rejections
pub record RejectionRow : Type 0 where
  pub source_topic : String
  pub source_partition : ℕ
  pub source_offset : ℕ
  pub event_id : Option String
  pub reason : String

-- agent.triggers, agent.definitions, agent.deployments and agent.versions
pub record TriggerRow : Type 0 where
  pub id : String
  pub tenant_id : String
  pub agent_id : String
  pub trigger_type : String
  pub trigger_value : String
  pub enabled : Bool

pub record DefinitionRow : Type 0 where
  pub id : String
  pub tenant_id : String
  pub status : String

pub record DeploymentRow : Type 0 where
  pub id : String
  pub tenant_id : String
  pub agent_id : String
  pub slot : String
  pub active_version_id : String

pub record VersionRow : Type 0 where
  pub id : String
  pub tenant_id : String
  pub agent_id : String
  pub spec_checksum : String
  pub capability_snapshot_id : Option String

-- audit.tool_events
pub record ToolEvent : Type 0 where
  pub tenant_id : String
  pub run_id : String
  pub tool_call_id : String
  pub event_type : String
  pub actor_member_id : Option String
  pub evidence : Evidence

pub record Db : Type 0 where
  pub runs : List RunRow
  pub lanes : List LaneRow
  pub deliveries : List DeliveryRow
  pub delegations : List DelegationRow
  pub controls : List ControlRow
  pub run_events : List RunEvent
  pub delivery_events : List DeliveryEvent
  pub delegation_events : List DelegationEvent
  pub tool_calls : List ToolCallRow
  pub tool_approvals : List ToolApprovalRow
  pub citations : List CitationRow
  pub members : List MemberRow
  pub rejections : List RejectionRow
  pub triggers : List TriggerRow
  pub definitions : List DefinitionRow
  pub deployments : List DeploymentRow
  pub versions : List VersionRow
  pub tool_events : List ToolEvent
