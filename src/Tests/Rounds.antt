-- ===== src/Tests/Rounds.antt =====
-- A worker whose calls count their writes and succeed, on one Run of each phase.
use open_im.Prelude.{ℕ, suc, none, some, [], ◌∷◌, ◌≡◌, refl, arith}
use open_im.Database.{RunState}
use open_im.Database.Tx.{ok}
use open_im.Agent.Run.{Run, Candidate, RouteResult}
use open_im.Agent.Catalog.{AgentSpec}
use open_im.Agent.Claim.{lease_run, run_of}
use open_im.Agent.Worker.{version, Act, Worker}
use open_im.Agent.Worker.Round.{run_claimed}
use open_im.Agent.Worker.Counts.{Counts}
use open_im.Agent.Worker.Once.{run_claimed_once}
use open_im.Tests.Data.{run_of_state}

abbrev run : Run
run = run_of (lease_run 200 "t1" 30 (run_of_state "r1" RunState.queued none))

abbrev writing : Act ℕ (Unit {0})
writing n = (ok tt, suc n)

abbrev giving : {A : Type 0} → A → Act ℕ A
giving a n = (ok a, n)

abbrev no_tool : RouteResult
no_tool = record {
  status = "no_tool";
  operation_id = "";
  clarification = "";
  provider_response_id = "p";
  router_version = "openim-intent-routing-v1";
  candidates = [];
}

abbrev answer : Candidate
answer = record {
  text = "hello";
  model = "m";
  provider_response_id = "p";
  citation_ids = [];
  grounding_status = "not_applicable";
  action_intent = none;
}

abbrev spec : AgentSpec
spec = record {
  purpose = "agent_answer";
  limit = 5;
  allowed_action_types = "create_ticket" ∷ [];
  max_model_attempts = 3;
  document = "";
}

abbrev counting : Worker ℕ
counting = record {
  claim = λ l m. giving (some run);
  load_catalog_version = λ r. giving (version spec);
  load_capability_snapshot = λ r. giving (record { id = "snapshot"; tools = [] });
  save_route = λ r x. writing;
  save_tool_plan = λ r x. writing;
  save_tool_result = λ r x. writing;
  wait_for_tool_approval = λ r x. writing;
  save_candidate = λ r x y. writing;
  fail_or_retry = λ r x y z. writing;
  fail = λ r x. writing;
  route = λ r x. giving no_tool;
  generate = λ r x y z t. giving answer;
  plan = λ r x y. giving (record { arguments = "{}"; provider_response_id = "p" });
  search_knowledge = λ r x y. giving [];
  execute_tool = λ r x y.
      giving (record { state = "denied"; policy_reason = "r"; approval_id = ""; result = none });
  search_personal = λ r n. giving [];
  search_group = λ r n. giving [];
  record_exposures = λ r x y. giving tt;
  ensure_intent = λ r. giving (record { id = "i"; digest = "d" });
  prepare = λ r. writing;
  decode = λ t. some (some t);
  lease = 30_000_000_000;
  max_attempts = 3;
}

abbrev identity : ℕ → ℕ
identity n = n

counts : Counts identity counting
counts = record {
  save_route = λ r x. record { once = λ s. refl };
  save_tool_plan = λ r x. record { once = λ s. refl };
  save_tool_result = λ r x. record { once = λ s. refl };
  wait_for_tool_approval = λ r x. record { once = λ s. refl };
  save_candidate = λ r x y. record { once = λ s. refl };
  fail_or_retry = λ r x y z. record { once = λ s. refl };
  fail = λ r x. record { once = λ s. refl };
  prepare = λ r. record { once = λ s. refl };
  load_capability_snapshot = λ r. record { never = λ s. refl };
  load_catalog_version = λ r. record { never = λ s. refl };
  route = λ r x. record { never = λ s. refl };
  generate = λ r x y z t. record { never = λ s. refl };
  plan = λ r x y. record { never = λ s. refl };
  search_knowledge = λ r x y. record { never = λ s. refl };
  execute_tool = λ r x y. record { never = λ s. refl };
  search_personal = λ r n. record { never = λ s. refl };
  search_group = λ r n. record { never = λ s. refl };
  record_exposures = λ r x y. record { never = λ s. refl };
  ensure_intent = λ r. record { never = λ s. refl };
}

run_claimed_once_example : (run_claimed counting run 7).1 ≡ 8
run_claimed_once_example =
    run_claimed_once identity counting counts run 7 7 (version spec) (omega arith) refl
