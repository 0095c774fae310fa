-- ===== src/Agent/Worker.antt =====
-- internal/agent/worker.go: one round of the Agent worker. The store, the model, the tools, the
-- memory and the delivery queue are the interfaces that the worker is built with, as functions on
-- the state `S` behind them.
pub mod Phases
pub mod Round
pub mod Counts
pub mod Once
use open_im.Prelude.{ℕ, String, Bool, Option, none, some, List, append}
use open_im.Database.Tx.{Result, ok, err}
use open_im.Delivery.Worker.{backoff}
use open_im.Agent.Run.{Run, Candidate, EvidenceItem, RouteResult, ToolPlan}
use open_im.Agent.Catalog.{Descriptor, Snapshot, AgentSpec}

pub record MemoryFact : Type 0 where
  pub memory_id : String
  pub category : String
  pub checksum : String
  pub content : String

-- ToolExecution, with its result encoded, or nil.
pub record ToolExecution : Type 0 where
  pub state : String
  pub policy_reason : String
  pub approval_id : String
  pub result : Option String

pub record Intent : Type 0 where
  pub id : String
  pub digest : String

pub record DeliveryRequest : Type 0 where
  pub run_id : String
  pub lease_token : String
  pub tenant_id : String
  pub channel : String
  pub target_id : String
  pub session_type : ℕ
  pub content : String
  pub waiting_approval : Bool

-- An error of LoadCatalogVersion: one that wraps ErrInvalidCatalog, or another.
pub data Loaded : Type 0 where
  version : AgentSpec → Loaded
  invalid_catalog : String → Loaded

-- A call that reads and changes the state, and may fail.
abbrev pub Act : Type 0 → Type 0 → Type 0
Act S A = S → Result A × S

unfoldable pub done : {S A : Type 0} → A → Act S A
done a s = (ok a, s)

unfoldable pub broken : {S A : Type 0} → String → Act S A
broken e s = (err e, s)

-- `if err != nil { return on_error(err) }`, and else what follows.
abbrev pub settle :
    {S A B : Type 0} → (A → Act S B) → (String → Act S B) → Result A × S → Result B × S
settle k on_error (ok a, s) = k a s
settle k on_error (err e, s) = on_error e s

unfoldable pub or_else : {S A B : Type 0} → Act S A → (String → Act S B) → (A → Act S B) → Act S B
or_else m on_error k s = settle k on_error (m s)

-- RuntimeStore, IntentRouter, CandidateGenerator, ToolPlanner, OperationExecutor, MemoryContext,
-- IntentManager, DeliveryManager, and the worker's own fields. `decode` is json.Unmarshal into a
-- map: none on an error, and `some none` for JSON's null.
pub record Worker (S : Type 0) : Type 0 where
  pub claim : ℕ → ℕ → Act S (Option Run)
  pub load_catalog_version : Run → Act S Loaded
  pub load_capability_snapshot : Run → Act S Snapshot
  pub save_route : Run → RouteResult → Act S (Unit {0})
  pub save_tool_plan : Run → ToolPlan → Act S (Unit {0})
  pub save_tool_result : Run → String → Act S (Unit {0})
  pub wait_for_tool_approval : Run → String → Act S (Unit {0})
  pub save_candidate : Run → Candidate → List EvidenceItem → Act S (Unit {0})
  pub fail_or_retry : Run → String → ℕ → ℕ → Act S (Unit {0})
  pub fail : Run → String → Act S (Unit {0})
  pub route : Run → Snapshot → Act S RouteResult
  pub generate :
      Run
      → AgentSpec
      → List EvidenceItem
      → List MemoryFact
      → Option (String × String)
      → Act S Candidate
  pub plan : Run → AgentSpec → Descriptor → Act S ToolPlan
  pub search_knowledge : Run → Snapshot → AgentSpec → Act S (List EvidenceItem)
  pub execute_tool : Run → Snapshot → String → Act S ToolExecution
  pub search_personal : Run → ℕ → Act S (List MemoryFact)
  pub search_group : Run → ℕ → Act S (List MemoryFact)
  pub record_exposures : Run → List MemoryFact → String → Act S (Unit {0})
  pub ensure_intent : Run → Act S Intent
  pub prepare : DeliveryRequest → Act S (Unit {0})
  pub decode : String → Option (Option String)
  pub lease : ℕ
  pub max_attempts : ℕ

module _ {S : Type 0} (w : Worker S) where
  retry_after : Run → String → ℕ → Option ℕ → Act S (Unit {0})
  retry_after run failure limit none s = (err "panic: negative shift amount", s)
  retry_after run failure limit (some delay) s = w.fail_or_retry run failure limit delay s

  -- retry, whose delay is `time.Second << min(run.Attempts-1, 5)`
  unfoldable pub retry : Run → ℕ → String → Act S (Unit {0})
  unfolding retry_after
  retry run limit failure = retry_after run failure limit (backoff run.attempts)

  -- `if err != nil { return w.retry(…, fmt.Errorf("context: %w", err), limit) }`
  unfoldable pub or_retry :
      {A : Type 0} → Run → ℕ → String → Act S A → (A → Act S (Unit {0})) → Act S (Unit {0})
  unfolding or_else
  or_retry run limit context m k = or_else m (λ e. retry run limit (append context e)) k

  -- A check that the worker makes by itself.
  unfoldable pub check : {A : Type 0} → Result A → Act S A
  check r s = (r, s)
