-- ===== src/Agent/Catalog.antt =====
-- What a Run is pinned to: internal/capability/descriptor.go, Snapshot.Tool; internal/agent/route.go,
-- RouteResult.Validate; execution.go, ExecutionContext.Validate; and the parts of catalog.go's
-- AgentSpec that the worker reads.
use open_im.Prelude.{
  ℕ, String, Bool, ◌&&◌, ◌||◌, not, Option, none, some, List, [], ◌∷◌, if◌then◌else◌, ltb, any,
  find, length, append, trim_space, ◌==◌,
}
use open_im.Database.Tx.{Result, ok, err}
use open_im.Agent.Run.{Run, RouteResult, RouteCandidate}

pub record Descriptor : Type 0 where
  pub operation_id : String
  pub version : String
  pub audience : String
  pub risk : String
  pub idempotency : String
  pub retry_semantics : String
  pub permissions : List String
  pub input_schema : String

pub record Snapshot : Type 0 where
  pub id : String
  pub tools : List Descriptor

-- Snapshot.Tool
abbrev pub tool : Snapshot → String → String → Option Descriptor
tool snapshot operation_id plane =
    find (λ (d : Descriptor). d.operation_id == operation_id && d.audience == plane) snapshot.tools

abbrev pub is_visible : Snapshot → String → String → Bool
is_visible snapshot plane operation_id =
    any (λ (d : Descriptor). d.operation_id == operation_id && d.audience == plane) snapshot.tools

abbrev pub router_version : String
router_version = "openim-intent-routing-v1"

abbrev pub first_hidden : Snapshot → String → List RouteCandidate → Option RouteCandidate
first_hidden snapshot plane candidates =
    find (λ (c : RouteCandidate). not (is_visible snapshot plane c.operation_id)) candidates

-- The switch over the status.
abbrev pub validate_status : RouteResult → Snapshot → String → Result (Unit {0})
validate_status r snapshot plane =
    if r.status == "selected"
    then if r.operation_id == "" || not (r.clarification == "")
      then err "selected intent route shape is invalid"
      else if is_visible snapshot plane r.operation_id
      then ok tt
      else err "selected intent operation is outside pinned snapshot"
    else if r.status == "clarify"
    then if not (r.operation_id == "") || r.clarification == ""
      then err "clarification intent route shape is invalid"
      else ok tt
    else if r.status == "no_tool"
    then if not (r.operation_id == "") || not (r.clarification == "")
      then err "tool-free intent route shape is invalid"
      else ok tt
    else err "intent route status is invalid"

-- RouteResult.Validate
unfoldable pub validate_route : RouteResult → Snapshot → String → Result (Unit {0})
validate_route r snapshot plane =
    if not (r.router_version == router_version)
      || r.provider_response_id == ""
      || ltb 3 (length r.candidates)
    then err "intent route identity or candidate bound is invalid"
    else elim (first_hidden snapshot plane r.candidates) [
      | some c ↦
          err (append "intent route contains operation outside pinned snapshot: " c.operation_id)
      | none ↦ validate_status r snapshot plane
    ]

abbrev pub identities : Run → List String
identities run =
    run.id ∷ run.trace_id ∷ run.tenant_id ∷ run.member_id ∷ run.source_channel ∷ run.conversation_id
    ∷ run.execution_plane ∷ run.agent_id ∷ run.agent_version_id ∷ run.agent_spec_checksum
    ∷ run.capability_snapshot_id ∷ []

abbrev pub is_plane : String → Bool
is_plane plane =
    plane == "passive" || plane == "proactive_source" || plane == "internal" || plane == "admin"

-- ExecutionContext.Validate, of a Run's own context.
unfoldable pub validate_execution : Run → Result (Unit {0})
validate_execution run =
    if any (λ value. value == "" || not (value == trim_space value)) (identities run)
    then err "Agent execution context contains an empty or untrimmed identity"
    else if is_plane run.execution_plane
    then ok tt
    else err "Agent execution context has an unsupported execution plane"

-- AgentSpec, with the rest of its document.
pub record AgentSpec : Type 0 where
  pub purpose : String
  pub limit : ℕ
  pub allowed_action_types : List String
  pub max_model_attempts : ℕ
  pub document : String

-- AgentSpec.AllowsAction
abbrev pub allows_action : AgentSpec → String → Bool
allows_action spec kind = any (λ allowed. allowed == kind) spec.allowed_action_types
