-- ===== src/Agent/Run.antt =====
-- internal/agent/store.go, Run and phaseAttempts, with the values that the store's operations take
-- (candidate.go, route.go, tool_plan.go). A nil json.RawMessage is the empty text.
use open_im.Prelude.{ℕ, String, ◌&&◌, not, Option, List, if◌then◌else◌, ◌==◌}

pub record Run : Type 0 where
  pub id : String
  pub source_event_id : String
  pub tenant_id : String
  pub member_id : String
  pub agent_id : String
  pub agent_version_id : String
  pub agent_deployment_id : String
  pub agent_trigger_id : String
  pub agent_spec_checksum : String
  pub capability_snapshot_id : String
  pub source_channel : String
  pub conversation_id : String
  pub conversation_sequence : ℕ
  pub execution_plane : String
  pub trace_id : String
  pub sender_id : String
  pub session_type : ℕ
  pub prompt : String
  pub candidate_text : String
  pub lease_token : String
  pub attempts : ℕ
  pub model : String
  pub provider_response_id : String
  pub action_type : String
  pub action_title : String
  pub route_status : String
  pub route_operation_id : String
  pub route_clarification : String
  pub route_attempts : ℕ
  pub model_attempts : ℕ
  pub finalization_attempts : ℕ
  pub tool_arguments : String
  pub tool_result : String
  pub tool_plan_attempts : ℕ
  pub tool_execution_attempts : ℕ

-- ActionIntentCandidate
pub record ActionIntent : Type 0 where
  pub kind : String
  pub title : String

pub record Candidate : Type 0 where
  pub text : String
  pub model : String
  pub provider_response_id : String
  pub citation_ids : List String
  pub grounding_status : String
  pub action_intent : Option ActionIntent

-- `Evidence` of candidate.go.
pub record EvidenceItem : Type 0 where
  pub citation_id : String
  pub document_id : String
  pub version_id : String
  pub chunk_id : String
  pub title : String
  pub source_uri : String
  pub checksum : String
  pub content : String

-- RouteCandidate, by the operation that it names and its encoding.
pub record RouteCandidate : Type 0 where
  pub operation_id : String
  pub encoded : String

pub record RouteResult : Type 0 where
  pub status : String
  pub operation_id : String
  pub clarification : String
  pub provider_response_id : String
  pub router_version : String
  pub candidates : List RouteCandidate

-- ToolPlan, with `json.Marshal(plan.Arguments)`.
pub record ToolPlan : Type 0 where
  pub arguments : String
  pub provider_response_id : String

-- Run.phaseAttempts
unfoldable pub phase_attempts : Run → ℕ
phase_attempts run =
    if run.route_status == ""
    then run.route_attempts
    else if not (run.candidate_text == "")
    then run.finalization_attempts
    else if run.route_status == "selected"
        && not (run.route_operation_id == "enterprise.knowledge.search")
        && not (run.route_operation_id == "collaboration.ticket.create")
    then if run.tool_arguments == ""
      then run.tool_plan_attempts
      else if run.tool_result == ""
      then run.tool_execution_attempts
      else run.model_attempts
    else run.model_attempts
