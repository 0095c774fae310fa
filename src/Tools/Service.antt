-- ===== src/Tools/Service.antt =====
-- internal/toolruntime/service.go, Service.Execute, over the ledger and the invoker that the service
-- is built with, as functions on the state `S` behind them. The checks of the snapshot's digest, of
-- the call id's pattern and of the arguments against the schema, and the digest of the arguments,
-- are its arguments.
use open_im.Prelude.{String, Bool, ◌||◌, not, Option, none, some, List, if◌then◌else◌, append, ◌==◌}
use open_im.Database.Tx.{Result, ok, err}
use open_im.Agent.Catalog.{Descriptor, Snapshot, tool}
use open_im.Tools.Policy.{Decision, decide}

-- The part of agent.ExecutionContext that Execute reads.
pub record Execution : Type 0 where
  pub run_id : String
  pub tenant_id : String
  pub member_id : String
  pub execution_plane : String
  pub capability_snapshot_id : String

-- CallRequest, with its arguments encoded, or nil.
pub record CallRequest : Type 0 where
  pub call_id : String
  pub operation_id : String
  pub arguments : Option String

-- PreparedCall, with its result's raw JSON, empty for nil.
pub record PreparedCall : Type 0 where
  pub id : String
  pub call_id : String
  pub operation_id : String
  pub state : String
  pub policy_reason : String
  pub approval_id : String
  pub result : String

-- An error of Invoke, by what errors.Is finds in it.
pub data InvokeError : Type 0 where
  deadline_exceeded canceled other : String → InvokeError

abbrev pub text_of : InvokeError → String
text_of (InvokeError.deadline_exceeded e) = e
text_of (InvokeError.canceled e) = e
text_of (InvokeError.other e) = e

-- classifyInvokeError
abbrev pub classify_invoke_error : InvokeError → String
classify_invoke_error (InvokeError.deadline_exceeded e) = "tool_timeout"
classify_invoke_error (InvokeError.canceled e) = "tool_canceled"
classify_invoke_error (InvokeError.other e) = "tool_error"

-- What Invoke gives: a value, encoded, or an error.
pub data Invoked : Type 0 where
  value : String → Invoked
  failed : InvokeError → Invoked

pub record Service (S : Type 0) : Type 0 where
  pub member_grants : String → String → S → Result (List String) × S
  pub prepare :
      Execution → Descriptor → CallRequest → String → Decision → S → Result PreparedCall × S
  pub start : PreparedCall → S → Result (Unit {0}) × S
  pub succeed : PreparedCall → String → S → Result (Unit {0}) × S
  pub fail : PreparedCall → String → Bool → S → Result (Unit {0}) × S
  pub invoke : Descriptor → String → String → S → Invoked × S
  pub validate_snapshot : Snapshot → Result (Unit {0})
  pub is_call_id : String → Bool
  pub validate_arguments : Descriptor → String → Result (Unit {0})
  pub arguments_digest : String → Result String
  pub decode : String → Option String

-- What Execute returns: the prepared call, a result and an error, each if there is one.
pub record Executed : Type 0 where
  pub prepared : Option PreparedCall
  pub result : Option String
  pub error : Option String

abbrev pub refused : String → Executed
refused e = record { prepared = none; result = none; error = some e }

abbrev pub stopped : PreparedCall → Executed
stopped p = record { prepared = some p; result = none; error = none }

abbrev pub broken : PreparedCall → String → Executed
broken p e = record { prepared = some p; result = none; error = some e }

module _ {S : Type 0} (v : Service S) where
  abbrev pub complete : PreparedCall → String → Result (Unit {0}) × S → Executed × S
  complete p result (err e, s) = (broken p e, s)
  complete p result (ok _, s) = (
    record {
      prepared = some (record p { state = "succeeded" });
      result = some result;
      error = none;
    },
    s,
  )

  abbrev pub record_failed : PreparedCall → String → Result (Unit {0}) × S → Executed × S
  record_failed p text (err e, s) = (broken p e, s)
  record_failed p text (ok _, s) = (broken p text, s)

  -- A failed call with a side effect has an unknown outcome.
  abbrev pub after_invoke : Descriptor → PreparedCall → Invoked × S → Executed × S
  after_invoke d p (Invoked.failed e, s) =
      record_failed p (text_of e) (v.fail p (classify_invoke_error e) (not (d.risk == "read")) s)
  after_invoke d p (Invoked.value result, s) = complete p result (v.succeed p result s)

  abbrev pub after_start :
      Descriptor → PreparedCall → String → String → Result (Unit {0}) × S → Executed × S
  after_start d p arguments key (err e, s) = (broken p e, s)
  after_start d p arguments key (ok _, s) = after_invoke d p (v.invoke d arguments key s)

  abbrev pub replay_value : PreparedCall → Option String → Executed
  replay_value p none = broken p "decode replayed tool result"
  replay_value p (some result) = record { prepared = some p; result = some result; error = none }

  abbrev pub replay : PreparedCall → Executed
  replay p =
      if p.result == "" || p.result == "null"
      then broken p "succeeded tool call has no replay result"
      else replay_value p (v.decode p.result)

  -- From the state in which the ledger has the call.
  unfoldable pub resume : Descriptor → PreparedCall → String → String → S → Executed × S
  resume d p arguments key s =
      if p.state == "succeeded"
      then (replay p, s)
      else if p.state == "denied" || p.state == "waiting_approval"
      then (stopped p, s)
      else if p.state == "failed"
      then (broken p "tool call previously failed", s)
      else if p.state == "unknown"
      then (broken p "tool call outcome is unknown", s)
      else if p.state == "prepared"
      then after_start d p arguments key (v.start p s)
      else if p.state == "executing"
      then (broken p "tool call is already executing", s)
      else (broken p (append "tool call has unsupported state " p.state), s)

  abbrev pub after_prepare :
      Descriptor → Decision → String → String → Result PreparedCall × S → Executed × S
  after_prepare d decision arguments key (err e, s) = (refused e, s)
  after_prepare d decision arguments key (ok p, s) =
      if decision.outcome == "deny"
      then (
        stopped (record p { state = "denied"; policy_reason = decision.reason; result = "" }),
        s,
      )
      else resume d p arguments key s

  abbrev pub with_digest :
      Execution → Descriptor → CallRequest → String → Decision → Result String → S → Executed × S
  with_digest x d q arguments decision (err e) s = (refused e, s)
  with_digest x d q arguments decision (ok digest) s =
      after_prepare d decision arguments (append "tool:" (append x.run_id (append ":" q.call_id)))
        (v.prepare x d q digest decision s)

  abbrev pub with_grants :
      Execution → Descriptor → CallRequest → String → Result (List String) × S → Executed × S
  with_grants x d q arguments (err e, s) = (refused (append "load tool permissions: " e), s)
  with_grants x d q arguments (ok grants, s) =
      with_digest x d q arguments (decide x.execution_plane d grants) (v.arguments_digest arguments)
        s

  abbrev pub with_valid :
      Execution → Descriptor → CallRequest → String → Result (Unit {0}) → S → Executed × S
  with_valid x d q arguments (err e) s = (refused e, s)
  with_valid x d q arguments (ok _) s =
      with_grants x d q arguments (v.member_grants x.tenant_id x.member_id s)

  abbrev pub with_tool : Execution → CallRequest → String → Option Descriptor → S → Executed × S
  with_tool x q arguments none s = (refused "tool is not visible in the pinned execution plane", s)
  with_tool x q arguments (some d) s =
      with_valid x d q arguments (v.validate_arguments d arguments) s

  abbrev pub with_arguments : Execution → Snapshot → CallRequest → Option String → S → Executed × S
  with_arguments x sn q none s = (refused "tool call ID or arguments are invalid", s)
  with_arguments x sn q (some arguments) s =
      if v.is_call_id q.call_id
      then with_tool x q arguments (tool sn q.operation_id x.execution_plane) s
      else (refused "tool call ID or arguments are invalid", s)

  abbrev pub with_snapshot :
      Execution → Snapshot → CallRequest → Result (Unit {0}) → S → Executed × S
  with_snapshot x sn q (err e) s = (refused (append "validate pinned tool snapshot: " e), s)
  with_snapshot x sn q (ok _) s = with_arguments x sn q q.arguments s

  -- Execute, once agent.RequireExecutionContext has given the execution.
  unfoldable pub execute : Execution → Snapshot → CallRequest → S → Executed × S
  unfolding resume
  execute x sn q s =
      if not (x.capability_snapshot_id == sn.id)
      then (refused "tool execution snapshot does not match the Run", s)
      else with_snapshot x sn q (v.validate_snapshot sn) s
