-- ===== src/Agent/Saves.antt =====
-- internal/agent/store.go, SaveCandidate, and route_store.go and tool_plan_store.go: the results
-- with which a Run goes on to its next phase. JSON objects are texts; their decoding is an
-- argument.
use open_im.Prelude.{
  ℕ, suc, ◌^◌, String, Bool, ◌&&◌, ◌||◌, not, Option, none, some, List, [], ◌∷◌, if◌then◌else◌, ltb,
  eqb, any, length, byte_length, ◌==◌,
}
use open_im.Database.{Db, RunRow, RunState, CitationRow, Json}
use open_im.Database.Tx.{
  Result, err, Tx, ◌>>=◌, ◌>>◌, pure, raise, query, update_runs, require_one, transact,
}
use open_im.Database.Tx.Tools.{insert_citations}
use open_im.Agent.Run.{
  Run, Candidate, ActionIntent, EvidenceItem, RouteResult, RouteCandidate, ToolPlan,
}
use open_im.Agent.Lane.{holds_live_lease, insert_run_event}
use open_im.Agent.Claim.{is_null}

-- `NULLIF(value, '')`
abbrev pub null_if_empty : String → Option String
null_if_empty value = if value == "" then none else some value

abbrev pub intent_kind : Option ActionIntent → String
intent_kind none = ""
intent_kind (some intent) = intent.kind

abbrev pub intent_title : Option ActionIntent → String
intent_title none = ""
intent_title (some intent) = intent.title

abbrev pub store_candidate : ℕ → Candidate → RunRow → RunRow
store_candidate now candidate row = record row {
  state = RunState.reply_pending;
  candidate_text = some candidate.text;
  model = some candidate.model;
  provider_response_id = some candidate.provider_response_id;
  action_type = null_if_empty (intent_kind candidate.action_intent);
  action_title = null_if_empty (intent_title candidate.action_intent);
  lease_token = none;
  lease_until = none;
  available_at = now;
  last_error = none;
  updated_at = now;
}

-- The keys of agent.run_citations: (run_id, citation_id) and (run_id, ordinal).
abbrev pub clashes : String → ℕ → EvidenceItem → CitationRow → Bool
clashes run_id ordinal item c =
    c.run_id == run_id && (c.citation_id == item.citation_id || eqb c.ordinal ordinal)

abbrev pub citation_of : String → ℕ → EvidenceItem → CitationRow
citation_of run_id ordinal item = record {
  run_id = run_id;
  citation_id = item.citation_id;
  ordinal = ordinal;
  document_id = item.document_id;
  version_id = item.version_id;
  chunk_id = item.chunk_id;
  title = item.title;
  source_uri = item.source_uri;
  checksum = item.checksum;
}

unfoldable pub save_citation : String → ℕ → EvidenceItem → Tx (Unit {0})
unfolding query raise
save_citation run_id ordinal item = do
  taken ← query (λ db. any (clashes run_id ordinal item) db.citations)
  if taken
      then raise "save Agent citation: duplicate key"
      else insert_citations (citation_of run_id ordinal item ∷ [])

unfoldable pub save_citations : String → ℕ → List EvidenceItem → Tx (Unit {0})
unfolding pure save_citation
save_citations run_id ordinal [] = pure tt
save_citations run_id ordinal (item ∷ items) = do
  save_citation run_id ordinal item
  save_citations run_id (suc ordinal) items

unfoldable pub save_candidate_tx : ℕ → Run → Candidate → List EvidenceItem → Tx (Unit {0})
save_candidate_tx now run candidate evidence = do
  n ← update_runs (holds_live_lease now run) (store_candidate now candidate)
  require_one n "save Agent candidate: execution lease is not held"
  save_citations run.id 0 evidence
  insert_run_event run "candidate_persisted" (
      ("model", Json.text candidate.model)
      ∷ ("citation_count", Json.number (length evidence))
      ∷ ("has_action", Json.flag (not (is_null candidate.action_intent)))
      ∷ ("grounding_status", Json.text candidate.grounding_status)
      ∷ [])

-- SaveCandidate
unfoldable pub save_candidate :
    ℕ → Run → Candidate → List EvidenceItem → Db → Result (Unit {0}) × Db
unfolding save_candidate_tx transact
save_candidate now run candidate evidence = transact (save_candidate_tx now run candidate evidence)

-- runs_route_shape_check (0014_agent_routing.sql), of the columns that SaveRoute writes.
abbrev pub is_route_shape : RouteResult → Bool
is_route_shape route =
    (route.status == "selected" && not (route.operation_id == "") && route.clarification == "")
    || (route.status == "clarify" && route.operation_id == "" && not (route.clarification == ""))
    || (route.status == "no_tool" && route.operation_id == "" && route.clarification == "")

abbrev pub store_route : (List RouteCandidate → String) → ℕ → RouteResult → RunRow → RunRow
store_route encode now route row = record row {
  state = RunState.queued;
  route_status = some route.status;
  route_operation_id = null_if_empty route.operation_id;
  route_clarification = null_if_empty route.clarification;
  route_provider_response_id = some route.provider_response_id;
  route_router_version = some route.router_version;
  route_candidates = some (encode route.candidates);
  lease_token = none;
  lease_until = none;
  available_at = now;
  last_error = none;
  updated_at = now;
}

unfoldable pub save_route_tx :
    (List RouteCandidate → String) → ℕ → Run → RouteResult → Tx (Unit {0})
unfolding query raise
save_route_tx encode now run route = do
  held ← query (λ db. any (holds_live_lease now run) db.runs)
  if held && not (is_route_shape route) then raise "save intent route: constraint violation" else do
    n ← update_runs (holds_live_lease now run) (store_route encode now route)
    require_one n "save intent route: execution lease is not held"
    insert_run_event run "route_persisted" (
        ("status", Json.text route.status)
        ∷ (
          "operation_id",
          if route.operation_id == "" then Json.null else Json.text route.operation_id,
        )
        ∷ ("router_version", Json.text route.router_version)
        ∷ ("candidate_count", Json.number (length route.candidates))
        ∷ [])

-- SaveRoute
unfoldable pub save_route :
    (List RouteCandidate → String) → ℕ → Run → RouteResult → Db → Result (Unit {0}) × Db
unfolding save_route_tx transact
save_route encode now run route = transact (save_route_tx encode now run route)

abbrev pub store_plan : ℕ → ToolPlan → RunRow → RunRow
store_plan now plan row = record row {
  state = RunState.queued;
  tool_arguments = some plan.arguments;
  tool_plan_provider_response_id = some plan.provider_response_id;
  lease_token = none;
  lease_until = none;
  available_at = now;
  last_error = none;
  updated_at = now;
}

-- runs_tool_plan_shape_check (0019_agent_tool_plans.sql) wants an object.
unfoldable pub save_tool_plan_tx : (String → Bool) → ℕ → Run → ToolPlan → Tx (Unit {0})
unfolding query raise
save_tool_plan_tx is_object now run plan = do
  open_plan ←
      query (λ db. any (λ row. holds_live_lease now run row && is_null row.tool_arguments) db.runs)
  if open_plan && not (is_object plan.arguments)
      then raise "save Agent tool plan: constraint violation"
      else do
        n ←
            update_runs (λ row. holds_live_lease now run row && is_null row.tool_arguments)
              (store_plan now plan)
        require_one n "save Agent tool plan: execution lease is not held or plan already exists"
        insert_run_event run "tool_plan_persisted" (
            ("operation_id", Json.text run.route_operation_id)
            ∷ ("provider_response_id", Json.text plan.provider_response_id)
            ∷ [])

-- SaveToolPlan
unfoldable pub save_tool_plan : (String → Bool) → ℕ → Run → ToolPlan → Db → Result (Unit {0}) × Db
unfolding save_tool_plan_tx transact
save_tool_plan is_object now run plan = transact (save_tool_plan_tx is_object now run plan)

abbrev pub store_result : ℕ → String → RunRow → RunRow
store_result now data_text row = record row {
  state = RunState.queued;
  tool_result = some data_text;
  lease_token = none;
  lease_until = none;
  available_at = now;
  last_error = none;
  updated_at = now;
}

unfoldable pub save_tool_result_tx : ℕ → Run → String → Tx (Unit {0})
save_tool_result_tx now run data_text = do
  n ←
      update_runs
        (λ row.
          holds_live_lease now run row
          && not (is_null row.tool_arguments)
          && is_null row.tool_result)
        (store_result now data_text)
  require_one n "save Agent tool result: execution lease is not held or result already exists"
  insert_run_event run "tool_result_persisted" (
      ("operation_id", Json.text run.route_operation_id)
      ∷ ("result_bytes", Json.number (byte_length data_text))
      ∷ [])

-- SaveToolResult, of the encoded value.
unfoldable pub save_tool_result : (String → Bool) → ℕ → Run → String → Db → Result (Unit {0}) × Db
unfolding save_tool_result_tx transact
save_tool_result is_object now run data_text db =
    if ltb (2 ^ 20) (byte_length data_text)
    then (err "Agent tool result exceeds 1 MiB", db)
    else if is_object data_text
    then transact (save_tool_result_tx now run data_text) db
    else (err "Agent tool result must be a JSON object", db)
