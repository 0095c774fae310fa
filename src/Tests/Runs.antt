-- ===== src/Tests/Runs.antt =====
-- The theorems on Agent Runs at concrete states.
use open_im.Prelude.{
  String, Bool, true, false, none, some, [], ◌∷◌, ◌≡◌, ◌≤◌, refl, arith, any, All,
}
use open_im.Prelude.Decimal.{ℤ, negsuc, format_int}
use open_im.Database.{Db, RunRow, RunState}
use open_im.Database.Tx.{
  ok, err, transact, update_runs, update_lanes, update_delegations, insert_delegation_events,
  insert_run_events, require_one,
}
use open_im.Database.Tx.Tools.{update_calls, update_approvals, insert_tool_events}
use open_im.Delivery.Statements.{Record, duration_seconds}
use open_im.Delivery.Claim.{is_paused}
use open_im.Delivery.Sender.{send, send_message}
use open_im.Agent.Run.{Run, Candidate, EvidenceItem, RouteResult, ToolPlan, phase_attempts}
use open_im.Agent.Lane.{
  stands_at, cut_failure, mark_delegation_running, insert_run_event, advance_conversation_lane,
  fail_delegation_for_run,
}
use open_im.Agent.Approvals.{expire_tool_approvals, wait_for_tool_approval}
use open_im.Agent.Claim.{
  claim_run, claim_run_tx, lease_next_run, lease_run_candidate, lease_run, run_of,
}
use open_im.Agent.Saves.{save_candidate, save_route, save_tool_plan, save_tool_result}
use open_im.Agent.Failure.{
  fail_or_retry, fail_or_retry_tx, if_failed, give_up_run, record_failure, fail,
}
use open_im.Agent.Turn.{IsShaped, claimed_within_limit, claimed_in_turn}
use open_im.Agent.Failed.{Ends, IsTaken}
use open_im.Agent.Lease.{stale_result_refused, stale_failure_refused, fail_or_retry-Ends}
use open_im.Agent.Grounding.{find_citations, validate_citations, collect_citations}
use open_im.Agent.Grounded.{IsCited, is_covered, validate_citations-IsCited}
use open_im.Agent.Target.{delivery_target}
use open_im.Telegram.{conversation_of, to_chat, telegram_reply_returns}
use open_im.Tests.Data.{unequal_some, run_of_state, lane, first, db_of, held}
use open_im.Tests.Reply.{silent}

abbrev waiting : RunRow
waiting = run_of_state "r1" RunState.queued none

abbrev with_run : RunRow → Db
with_run row = record (db_of first) { runs = row ∷ [] }

abbrev free : String → Bool
free _ = false

abbrev never : String → String → Bool
never _ _ = false

abbrev leased_row : RunRow
leased_row = lease_run 200 "t1" 30 waiting

abbrev run : Run
run = run_of leased_row

shaped : IsShaped waiting
shaped = record {
  routed = refl;
  selected = λ e. absurd cc;
  candidate = refl;
  arguments = refl;
  result = refl;
  real_arguments = refl;
  real_result = refl;
  routed_first = λ e. refl;
  planned_first = λ e. refl;
}

claimed : (claim_run free never "t1" 30_000_000_000 3 200 (with_run waiting)).0 ≡ ok (some run)
unfolding claim_run claim_run_tx lease_next_run lease_run_candidate expire_tool_approvals
    update_calls update_approvals update_runs insert_tool_events insert_run_events transact
    mark_delegation_running insert_run_event duration_seconds
claimed = refl

claimed_within_limit_example : (1 ≤ phase_attempts run) × (phase_attempts run ≤ 3)
claimed_within_limit_example =
    claimed_within_limit free never "t1" 30_000_000_000 3 200 (with_run waiting) run (shaped, tt)
      (refl, tt) claimed

claimed_in_turn_example :
    (any (stands_at run) (lane ∷ []) ≡ true)
    × (is_paused (with_run waiting) "agent_execution" "tenant" ≡ false)
claimed_in_turn_example =
    claimed_in_turn free never "t1" 30_000_000_000 3 200 (with_run waiting) run claimed

-- The Run after another worker has taken it over.
abbrev taken_over : Db
taken_over = with_run (lease_run 300 "t2" 30 waiting)

abbrev answer : Candidate
answer = record {
  text = "see [C1]";
  model = "m";
  provider_response_id = "p";
  citation_ids = "C1" ∷ [];
  grounding_status = "grounded";
  action_intent = none;
}

abbrev source : EvidenceItem
source = record {
  citation_id = "C1";
  document_id = "d";
  version_id = "v";
  chunk_id = "c";
  title = "t";
  source_uri = "u";
  checksum = "s";
  content = "text";
}

abbrev no_tool : RouteResult
no_tool = record {
  status = "no_tool";
  operation_id = "";
  clarification = "";
  provider_response_id = "p";
  router_version = "openim-intent-routing-v1";
  candidates = [];
}

abbrev a_plan : ToolPlan
a_plan = record { arguments = "{}"; provider_response_id = "p" }

is_taken : IsTaken run taken_over.runs
is_taken = ((λ _. unequal_some "t2" "t1" refl), tt)

stale_result_refused_example :
    (save_candidate 400 run answer (source ∷ []) taken_over
      ≡ (err "save Agent candidate: execution lease is not held", taken_over))
    × (save_route (λ c. "[]") 400 run no_tool taken_over
        ≡ (err "save intent route: execution lease is not held", taken_over))
    × (save_tool_plan (λ t. true) 400 run a_plan taken_over ≡ (
      err "save Agent tool plan: execution lease is not held or plan already exists",
      taken_over,
    ))
    × (save_tool_result (λ t. true) 400 run "{}" taken_over ≡ (
      err "save Agent tool result: execution lease is not held or result already exists",
      taken_over,
    ))
stale_result_refused_example =
    stale_result_refused 400 run taken_over is_taken (λ c. "[]") (λ t. true) answer (source ∷ [])
      no_tool a_plan "{}" refl refl

whole : cut_failure "timeout" ≡ some "timeout"
unfolding cut_failure
whole = refl

stale_failure_refused_example :
    (wait_for_tool_approval 400 run "approval" taken_over
      ≡ (err "wait for tool approval: execution lease is not held", taken_over))
    × (fail_or_retry 400 run "timeout" 3 1_000_000_000 taken_over
        ≡ (err "retry Agent Run: execution lease is not held", taken_over))
    × (fail 400 run "timeout" taken_over
        ≡ (err "fail Agent Run: execution lease is not held", taken_over))
stale_failure_refused_example =
    stale_failure_refused 400 run taken_over is_taken "approval" "timeout" "timeout" 3 1_000_000_000
      refl whole

-- The Run on its last attempt.
abbrev last_run : Run
last_run = record run { route_attempts = 3 }

ended : (fail_or_retry 400 last_run "timeout" 3 1_000_000_000 (with_run leased_row)).0 ≡ ok tt
unfolding fail_or_retry fail_or_retry_tx record_failure cut_failure transact if_failed give_up_run
    phase_attempts update_runs update_lanes update_delegations insert_delegation_events
    insert_run_events require_one insert_run_event advance_conversation_lane fail_delegation_for_run
ended = refl

fail_or_retry-Ends_example :
    Ends last_run 400
      (duration_seconds 1_000_000_000)
      3
      "timeout"
      (with_run leased_row)
      (fail_or_retry 400 last_run "timeout" 3 1_000_000_000 (with_run leased_row)).1
fail_or_retry-Ends_example =
    fail_or_retry-Ends 400 last_run "timeout" "timeout" 3 1_000_000_000 (with_run leased_row) whole
      ended

accepted : validate_citations answer (source ∷ []) ≡ ok (source ∷ [])
unfolding validate_citations collect_citations
accepted = refl

validate_citations-IsCited_example :
    All (IsCited "see [C1]" (source ∷ [])) (source ∷ [])
    × All (λ id. is_covered (source ∷ []) id ≡ true) (find_citations "see [C1]")
validate_citations-IsCited_example =
    validate_citations-IsCited answer (source ∷ []) (source ∷ []) accepted

-- A group, whose chat has a negative id.
abbrev chat : ℤ
chat = negsuc 1_000_122

abbrev from_telegram : Run
from_telegram = record run {
  source_channel = "telegram";
  conversation_id = conversation_of chat;
  session_type = 2;
}

abbrev to_telegram : Record
to_telegram = record held { channel = "telegram"; target_id = format_int chat }

targeted : delivery_target from_telegram ≡ ok (format_int chat)
targeted = to_chat chat from_telegram (omega arith) refl refl refl

telegram_reply_returns_example :
    ((send silent to_telegram).0 ≡ send_message chat "a reply" ∷ [])
    × (delivery_target from_telegram ≡ ok (format_int chat))
telegram_reply_returns_example =
    telegram_reply_returns chat from_telegram silent to_telegram (omega arith) refl refl refl refl
      refl refl targeted
