-- ===== src/Agent/Worker/Phases.antt =====
-- internal/agent/worker.go, the phases of runOnce, and loadMemory.
use open_im.Prelude.{
  String, not, Option, none, some, List, [], ◌∷◌, ◌++◌, if◌then◌else◌, eqb, append, ◌==◌,
}
use open_im.Database.Tx.{Result, ok, err}
use open_im.Agent.Run.{Run, Candidate, ActionIntent, EvidenceItem}
use open_im.Agent.Catalog.{Descriptor, Snapshot, AgentSpec, tool, validate_route}
use open_im.Agent.Grounding.{
  validate_knowledge_candidate, validate_action_candidate, extract_ticket_title,
}
use open_im.Agent.Target.{delivery_target}
use open_im.Agent.Worker.{
  MemoryFact, ToolExecution, Intent, Act, done, broken, or_else, Worker, or_retry, check,
}

-- A candidate that the runtime itself writes.
abbrev pub policy_candidate : Run → String → String → Candidate
policy_candidate run label text = record {
  text = text;
  model = "runtime-policy";
  provider_response_id = append label run.id;
  citation_ids = [];
  grounding_status = "not_applicable";
  action_intent = none;
}

-- The two checks on an answer that had no evidence.
abbrev pub without_evidence : String → String → Candidate → Result Candidate
without_evidence cited ungrounded candidate = elim candidate.citation_ids [
  | _ ∷ _ ↦ err cited
  | [] ↦ if candidate.grounding_status == "not_applicable" then ok candidate else err ungrounded
]

-- `validateActionCandidate(candidate.ActionIntent, version.Spec)`, which trims the title in place.
abbrev pub trimmed : Candidate → Result (Option ActionIntent) → Result Candidate
trimmed candidate (err e) = err e
trimmed candidate (ok intent) = ok (record candidate { action_intent = intent })

abbrev pub with_action : AgentSpec → Candidate → Result Candidate
with_action spec candidate =
    trimmed candidate (validate_action_candidate candidate.action_intent spec)

module _ {S : Type 0} (w : Worker S) where
  abbrev with_group : Run → List MemoryFact → Act S (List MemoryFact)
  with_group run personal = or_else (w.search_group run 4) broken λ group. done (personal ++ group)

  -- loadMemory
  unfoldable pub load_memory : Run → Act S (List MemoryFact)
  load_memory run =
      or_else (w.search_personal run (if eqb run.session_type 2 then 4 else 5)) broken
        λ personal. if eqb run.session_type 2 then with_group run personal else done personal

  -- `run.RouteStatus == ""`
  unfoldable pub route_run : Run → Snapshot → Act S (Unit {0})
  route_run run snapshot =
      or_retry w run w.max_attempts "route Agent intent: " (w.route run snapshot) λ route.
        or_retry w run w.max_attempts "validate Agent intent route: "
          (check w (validate_route route snapshot run.execution_plane)) λ _. w.save_route run route

  -- `run.RouteStatus == "no_tool"`
  unfoldable pub answer_generally : Run → AgentSpec → Act S (Unit {0})
  unfolding load_memory
  answer_generally run spec =
      let limit = spec.max_model_attempts in
      or_retry w run limit "retrieve personal memory: " (load_memory run) λ memories.
        or_retry w run limit "" (w.generate run spec [] memories none) λ candidate.
          or_retry w run limit ""
            (check w (
              without_evidence "general candidate cited evidence that was not provided"
                "general candidate has an invalid grounding status" candidate))
            λ _. or_retry w run limit "" (check w (with_action spec candidate)) λ answer.
              or_retry w run limit "record personal memory exposure: "
                (w.record_exposures run memories "general_response")
                λ _. w.save_candidate run answer []

  abbrev pub ticket_from : Run → AgentSpec → Result String → Act S (Unit {0})
  ticket_from run spec (err e) =
      w.save_candidate run (policy_candidate run "ticket-clarification:" e) []
  ticket_from run spec (ok title) =
      or_retry w run spec.max_model_attempts ""
        (check w (
          with_action spec
            (record (policy_candidate run "ticket-intent:" "已生成待审批的工单动作，审批通过后才会写入协作系统。") {
              action_intent = some (record { kind = "create_ticket"; title = title });
            })))
        λ candidate. w.save_candidate run candidate []

  -- `run.RouteOperationID == "collaboration.ticket.create"`
  unfoldable pub propose_ticket : Run → AgentSpec → Act S (Unit {0})
  propose_ticket run spec = ticket_from run spec (extract_ticket_title run.prompt)

  -- A selected tool without arguments.
  unfoldable pub plan_tool : Run → AgentSpec → Descriptor → Act S (Unit {0})
  plan_tool run spec descriptor =
      or_retry w run w.max_attempts "plan selected tool: " (w.plan run spec descriptor)
        λ plan. w.save_tool_plan run plan

  abbrev pub keep_result : Run → String → Option String → Act S (Unit {0})
  keep_result run state none =
      w.fail run "selected read tool did not reach a terminal success state"
  keep_result run state (some result) =
      if state == "succeeded"
      then w.save_tool_result run result
      else w.fail run "selected read tool did not reach a terminal success state"

  abbrev after_execution : Run → ToolExecution → Act S (Unit {0})
  after_execution run execution =
      if execution.state == "denied"
      then w.save_candidate run
          (policy_candidate run "tool-denied:" (append "工具调用被策略拒绝：" execution.policy_reason)) []
      else if execution.state == "waiting_approval"
      then if execution.approval_id == ""
        then w.fail run "tool approval ID is missing"
        else w.wait_for_tool_approval run execution.approval_id
      else keep_result run execution.state execution.result

  abbrev pub execute_decoded : Run → Snapshot → Option (Option String) → Act S (Unit {0})
  execute_decoded run snapshot none = w.fail run "persisted tool arguments are invalid"
  execute_decoded run snapshot (some _) =
      or_retry w run w.max_attempts "execute selected tool: "
        (w.execute_tool run snapshot run.tool_arguments) (after_execution run)

  -- A planned tool without a result; JSON's null is a nil map without error.
  unfoldable pub execute_plan : Run → Snapshot → Act S (Unit {0})
  execute_plan run snapshot = execute_decoded run snapshot (w.decode run.tool_arguments)

  abbrev pub answer_with : Run → AgentSpec → String → Act S (Unit {0})
  answer_with run spec result =
      let limit = spec.max_model_attempts in
      or_retry w run limit "retrieve personal memory: " (load_memory run) λ memories.
        or_retry w run limit ""
          (w.generate run spec [] memories (some (run.route_operation_id, result)))
          λ candidate.
            or_retry w run limit ""
              (check w (
                without_evidence
                  "tool result candidate cited enterprise evidence that was not provided"
                  "tool result candidate has an invalid grounding status" candidate))
              λ _.
                or_retry w run limit "record personal memory exposure: "
                  (w.record_exposures run memories "tool_response")
                  λ _. w.save_candidate run candidate []

  abbrev pub answer_decoded : Run → AgentSpec → Option (Option String) → Act S (Unit {0})
  answer_decoded run spec none = w.fail run "persisted tool result is invalid"
  answer_decoded run spec (some none) = w.fail run "persisted tool result is invalid"
  answer_decoded run spec (some (some result)) = answer_with run spec result

  -- A tool with its result.
  unfoldable pub answer_tool : Run → AgentSpec → Act S (Unit {0})
  unfolding load_memory
  answer_tool run spec = answer_decoded run spec (w.decode run.tool_result)

  abbrev pub use_visible : Run → AgentSpec → Snapshot → Option Descriptor → Act S (Unit {0})
  use_visible run spec snapshot none =
      w.fail run "selected tool is not visible in the pinned execution plane"
  use_visible run spec snapshot (some descriptor) =
      if run.tool_arguments == ""
      then plan_tool run spec descriptor
      else if run.tool_result == ""
      then execute_plan run snapshot
      else answer_tool run spec

  -- A selected operation that is neither knowledge nor a ticket.
  unfoldable pub use_tool : Run → AgentSpec → Snapshot → Act S (Unit {0})
  unfolding plan_tool execute_plan answer_tool
  use_tool run spec snapshot =
      use_visible run spec snapshot (tool snapshot run.route_operation_id run.execution_plane)

  abbrev nothing_found : Run → Candidate
  nothing_found run = record (policy_candidate run "no-evidence:" "在你当前有权访问的知识中未找到可引用的证据。") {
    grounding_status = "insufficient_evidence";
  }

  abbrev pub answer_from : Run → AgentSpec → List EvidenceItem → Act S (Unit {0})
  answer_from run spec evidence =
      let limit = spec.max_model_attempts in
      or_retry w run limit "retrieve personal memory: " (load_memory run) λ memories.
        or_retry w run limit "" (w.generate run spec evidence memories none) λ candidate.
          or_retry w run limit "" (check w (validate_knowledge_candidate candidate evidence))
            λ cited. or_retry w run limit "" (check w (with_action spec candidate)) λ answer.
              or_retry w run limit "record personal memory exposure: "
                (w.record_exposures run memories "knowledge_response")
                λ _. w.save_candidate run answer cited

  abbrev pub answer_found : Run → AgentSpec → List EvidenceItem → Act S (Unit {0})
  answer_found run spec [] = w.save_candidate run (nothing_found run) []
  answer_found run spec (item ∷ items) = answer_from run spec (item ∷ items)

  -- `enterprise.knowledge.search`
  unfoldable pub answer_knowledge : Run → AgentSpec → Snapshot → Act S (Unit {0})
  unfolding load_memory
  answer_knowledge run spec snapshot =
      or_retry w run spec.max_model_attempts "retrieve authorized knowledge: "
        (w.search_knowledge run snapshot spec) (answer_found run spec)

  abbrev hand_off : Run → String → String → Act S (Unit {0})
  hand_off run target content = w.prepare (record {
    run_id = run.id;
    lease_token = run.lease_token;
    tenant_id = run.tenant_id;
    channel = run.source_channel;
    target_id = target;
    session_type = run.session_type;
    content = content;
    waiting_approval = not (run.action_type == "");
  })

  abbrev announced : Run → Intent → String
  announced run intent = append run.candidate_text (
      append "\n\n待审批动作：" (
        append run.action_type
          (append "\n审批编号：" (append intent.id (append "\n摘要：" intent.digest)))))

  -- A Run with its candidate.
  unfoldable pub deliver_reply : Run → Act S (Unit {0})
  deliver_reply run = or_retry w run w.max_attempts "" (check w (delivery_target run)) λ target.
      if run.action_type == ""
      then hand_off run target run.candidate_text
      else or_retry w run w.max_attempts "materialize action intent: " (w.ensure_intent run)
          λ intent. hand_off run target (announced run intent)
