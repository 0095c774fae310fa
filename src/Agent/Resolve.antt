-- ===== src/Agent/Resolve.antt =====
-- internal/agent/store.go, the trigger that Enqueue takes and how it resolves the aliases of the
-- mentions to a deployed version of an Agent.
use open_im.Prelude.{
  ℕ, String, Bool, ◌&&◌, ◌||◌, not, Option, none, some, List, [], ◌∷◌, ◌++◌, if◌then◌else◌, find,
  ◌==◌,
}
use open_im.Database.{Db, TriggerRow, DefinitionRow, DeploymentRow, VersionRow}
use open_im.Agent.Claim.{or_empty}

pub record Source : Type 0 where
  pub topic : String
  pub partition : ℕ
  pub offset : ℕ

pub record Mention : Type 0 where
  pub alias : String
  pub prompt : String

pub record Trigger : Type 0 where
  pub event_id : String
  pub tenant_id : String
  pub member_id : String
  pub source_channel : String
  pub conversation_id : String
  pub sender_id : String
  pub session_type : ℕ
  pub mentions : List Mention

pub record EnqueueResult : Type 0 where
  pub run_id : String
  pub rejection_reason : String

pub record ResolvedTrigger : Type 0 where
  pub trigger_id : String
  pub alias : String
  pub enabled : Bool
  pub agent_id : String
  pub status : String
  pub deployment_id : String
  pub version_id : String
  pub checksum : String
  pub capability_snapshot_id : String

-- The query that resolves the aliases.
abbrev pub deployment_of : Db → DefinitionRow → Option DeploymentRow
deployment_of db d =
    find
      (λ (p : DeploymentRow).
        p.tenant_id == d.tenant_id && p.agent_id == d.id && p.slot == "production")
      db.deployments

abbrev pub version_of : Db → Option DeploymentRow → Option VersionRow
version_of db none = none
version_of db (some p) =
    find
      (λ (v : VersionRow).
        v.tenant_id == p.tenant_id && v.agent_id == p.agent_id && v.id == p.active_version_id)
      db.versions

abbrev pub deployment_id : Option DeploymentRow → String
deployment_id none = ""
deployment_id (some p) = p.id

abbrev pub with_version :
    TriggerRow → DefinitionRow → Option DeploymentRow → Option VersionRow → ResolvedTrigger
with_version tr d p none = record {
  trigger_id = tr.id;
  alias = tr.trigger_value;
  enabled = tr.enabled;
  agent_id = d.id;
  status = d.status;
  deployment_id = deployment_id p;
  version_id = "";
  checksum = "";
  capability_snapshot_id = "";
}
with_version tr d p (some v) = record {
  trigger_id = tr.id;
  alias = tr.trigger_value;
  enabled = tr.enabled;
  agent_id = d.id;
  status = d.status;
  deployment_id = deployment_id p;
  version_id = v.id;
  checksum = v.spec_checksum;
  capability_snapshot_id = or_empty v.capability_snapshot_id;
}

abbrev pub joined : Db → TriggerRow → Option DefinitionRow → List ResolvedTrigger
joined db tr none = []
joined db tr (some d) =
    with_version tr d (deployment_of db d) (version_of db (deployment_of db d)) ∷ []

abbrev pub resolve_alias : Db → String → String → List TriggerRow → List ResolvedTrigger
resolve_alias db tenant_id alias [] = []
resolve_alias db tenant_id alias (tr ∷ trs) =
    let rest = resolve_alias db tenant_id alias trs in
    if tr.tenant_id == tenant_id && tr.trigger_type == "mention_alias" && tr.trigger_value == alias
    then joined db tr (
        find (λ (d : DefinitionRow). d.tenant_id == tr.tenant_id && d.id == tr.agent_id)
          db.definitions)
      ++ rest
    else rest

-- `ORDER BY array_position(aliases, trigger_value)`: the rows of each alias in turn.
abbrev pub resolve : Db → String → List Mention → List ResolvedTrigger
resolve db tenant_id [] = []
resolve db tenant_id (m ∷ ms) =
    resolve_alias db tenant_id m.alias db.triggers ++ resolve db tenant_id ms

-- The map `prompts`, in which a later mention replaces an earlier one.
abbrev pub last_prompt : String → List Mention → Option String
last_prompt alias [] = none
last_prompt alias (m ∷ ms) = elim (last_prompt alias ms) [
  | some p ↦ some p
  | none ↦ if m.alias == alias then some m.prompt else none
]

-- The switch that gives the reason.
abbrev pub reason_of : ResolvedTrigger → String → String
reason_of r prompt =
    if not r.enabled
    then "trigger_disabled"
    else if not (r.status == "active")
    then "agent_disabled"
    else if r.deployment_id == ""
    then "deployment_missing"
    else if r.version_id == "" || r.checksum == ""
    then "version_missing"
    else if r.capability_snapshot_id == ""
    then "capability_snapshot_missing"
    else if prompt == ""
    then "empty_prompt"
    else ""
