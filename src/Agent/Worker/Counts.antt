-- ===== src/Agent/Worker/Counts.antt =====
-- How often the calls of internal/agent/worker.go write.
use open_im.Prelude.{
  ℕ, suc, String, ◌≡◌, ◌∙◌, ap, refl, Bool, true, false, Option, List, if◌then◌else◌,
}
use open_im.Database.Tx.{Result, ok, err}
use open_im.Agent.Run.{Run, Candidate, EvidenceItem, RouteResult, ToolPlan}
use open_im.Agent.Catalog.{Descriptor, Snapshot, AgentSpec}
use open_im.Agent.Worker.{MemoryFact, DeliveryRequest, Act, done, broken, settle, or_else, Worker}

module _ {S : Type 0} (writes : S → ℕ) where
  -- A call that writes once, and one that does not write.
  pub record Writes (m : Act S (Unit {0})) : Type 0 where
    pub once : (s : S) → writes (m s).1 ≡ suc (writes s)

  pub record Reads {A : Type 0} (m : Act S A) : Type 0 where
    pub never : (s : S) → writes (m s).1 ≡ writes s

  -- A worker whose store and queue count their writes, and whose other interfaces make none.
  pub record Counts (w : Worker S) : Type 0 where
    pub save_route : (run : Run) (r : RouteResult) → Writes (w.save_route run r)
    pub save_tool_plan : (run : Run) (p : ToolPlan) → Writes (w.save_tool_plan run p)
    pub save_tool_result : (run : Run) (t : String) → Writes (w.save_tool_result run t)
    pub wait_for_tool_approval : (run : Run) (i : String) → Writes (w.wait_for_tool_approval run i)
    pub save_candidate :
        (run : Run) (c : Candidate) (es : List EvidenceItem) → Writes (w.save_candidate run c es)
    pub fail_or_retry :
        (run : Run) (e : String) (limit delay : ℕ) → Writes (w.fail_or_retry run e limit delay)
    pub fail : (run : Run) (e : String) → Writes (w.fail run e)
    pub prepare : (r : DeliveryRequest) → Writes (w.prepare r)
    pub load_capability_snapshot : (run : Run) → Reads (w.load_capability_snapshot run)
    pub load_catalog_version : (run : Run) → Reads (w.load_catalog_version run)
    pub route : (run : Run) (sn : Snapshot) → Reads (w.route run sn)
    pub generate :
        (run : Run) (spec : AgentSpec) (es : List EvidenceItem) (ms : List MemoryFact)
        (t : Option (String × String))
        → Reads (w.generate run spec es ms t)
    pub plan : (run : Run) (spec : AgentSpec) (d : Descriptor) → Reads (w.plan run spec d)
    pub search_knowledge :
        (run : Run) (sn : Snapshot) (spec : AgentSpec) → Reads (w.search_knowledge run sn spec)
    pub execute_tool : (run : Run) (sn : Snapshot) (t : String) → Reads (w.execute_tool run sn t)
    pub search_personal : (run : Run) (n : ℕ) → Reads (w.search_personal run n)
    pub search_group : (run : Run) (n : ℕ) → Reads (w.search_group run n)
    pub record_exposures :
        (run : Run) (ms : List MemoryFact) (why : String) → Reads (w.record_exposures run ms why)
    pub ensure_intent : (run : Run) → Reads (w.ensure_intent run)

module _ {S : Type 0} {writes : S → ℕ} where
  pub Reads-done : {A : Type 0} (a : A) → Reads writes (done a)
  unfolding done
  Reads-done a = record { never = λ s. refl }

  pub Reads-broken : {A : Type 0} (e : String) → Reads writes {A = A} (broken e)
  unfolding broken
  Reads-broken e = record { never = λ s. refl }

  module _ {A B : Type 0} (f : String → Act S B) (k : A → Act S B) where
    settle-Reads :
        (n : ℕ) (x : Result A × S)
        → ((e : String) → Reads writes (f e))
        → ((a : A) → Reads writes (k a))
        → writes x.1 ≡ n
        → writes (settle k f x).1 ≡ n
    settle-Reads n (ok a, s) rf rk h = (rk a).never s ∙ h
    settle-Reads n (err e, s) rf rk h = (rf e).never s ∙ h

    pub Reads-or_else :
        (m : Act S A)
        → Reads writes m
        → ((e : String) → Reads writes (f e))
        → ((a : A) → Reads writes (k a))
        → Reads writes (or_else m f k)
    unfolding or_else
    Reads-or_else m rm rf rk = record { never = λ s. settle-Reads _ (m s) rf rk (rm.never s) }

  module _ {A : Type 0} (f : String → Act S (Unit {0})) (k : A → Act S (Unit {0})) where
    settle-Writes :
        (n : ℕ) (x : Result A × S)
        → ((e : String) → Writes writes (f e))
        → ((a : A) → Writes writes (k a))
        → writes x.1 ≡ n
        → writes (settle k f x).1 ≡ suc n
    settle-Writes n (ok a, s) wf wk h = (wk a).once s ∙ ap suc h
    settle-Writes n (err e, s) wf wk h = (wf e).once s ∙ ap suc h

    pub Writes-or_else :
        (m : Act S A)
        → Reads writes m
        → ((e : String) → Writes writes (f e))
        → ((a : A) → Writes writes (k a))
        → Writes writes (or_else m f k)
    unfolding or_else
    Writes-or_else m rm wf wk = record { once = λ s. settle-Writes _ (m s) wf wk (rm.never s) }

  pub Reads-if :
      {A : Type 0} (b : Bool) (m n : Act S A)
      → Reads writes m
      → Reads writes n
      → Reads writes (if b then m else n)
  Reads-if true m n rm rn = rm
  Reads-if false m n rm rn = rn

  pub Writes-if :
      (b : Bool) (m n : Act S (Unit {0}))
      → Writes writes m
      → Writes writes n
      → Writes writes (if b then m else n)
  Writes-if true m n wm wn = wm
  Writes-if false m n wm wn = wn
