-- ===== src/Agent/Worker/Once.antt =====
-- How often one round of internal/agent/worker.go writes.
use open_im.Prelude.{
  ℕ, suc, ◌≤◌, String, ◌≡◌, ◌∙◌, ap, sym, refl, Option, none, some, List, [], ◌∷◌, arith,
  Bool-cases, inl, inr, eqb, append,
}
use open_im.Database.Tx.{Result, ok, err}
use open_im.Delivery.Worker.{backoff}
use open_im.Agent.Run.{Run, EvidenceItem}
use open_im.Agent.Catalog.{Descriptor, Snapshot, AgentSpec}
use open_im.Agent.Worker.{
  Loaded, version, invalid_catalog, Act, or_else, Worker, retry, retry_after, or_retry, check,
}
use open_im.Agent.Worker.Phases.{
  load_memory, route_run, answer_generally, propose_ticket, plan_tool, execute_plan, answer_tool,
  use_tool, answer_knowledge, deliver_reply, ticket_from, keep_result, execute_decoded, answer_with,
  answer_decoded, use_visible, answer_from, answer_found,
}
use open_im.Agent.Worker.Round.{answer_run, advance_run, run_claimed, bound, with_version}
use open_im.Agent.Worker.Counts.{
  Writes, Reads, Counts, Reads-done, Reads-broken, Reads-or_else, Writes-or_else, Reads-if,
  Writes-if,
}

module _ {S : Type 0} (writes : S → ℕ) where
  module _ (w : Worker S) (c : Counts writes w) where
    Reads-check : {A : Type 0} (r : Result A) → Reads writes (check w r)
    unfolding check
    Reads-check r = record { never = λ s. refl }

    -- A claimed Run has had an attempt, so its retry has a delay.
    retry-Writes :
        (run : Run) (limit : ℕ) (e : String)
        → 1 ≤ run.attempts
        → Writes writes (retry w run limit e)
    unfolding retry retry_after backoff
    retry-Writes run limit e h = elim (Bool-cases (eqb run.attempts 0)) [
      | inl z ↦ absurd (ground arith)
      | inr z ↦ record { once = λ s. rw z ((c.fail_or_retry run e limit _).once s) }
    ]

    module _ (run : Run) (counted : 1 ≤ run.attempts) where
      or_retry-Writes :
          {A : Type 0} (limit : ℕ) (context : String) (m : Act S A) (k : A → Act S (Unit {0}))
          → Reads writes m
          → ((a : A) → Writes writes (k a))
          → Writes writes (or_retry w run limit context m k)
      unfolding or_retry
      or_retry-Writes limit context m k rm wk =
          Writes-or_else _ k m rm (λ e. retry-Writes run limit (append context e) counted) wk

      Reads-load_memory : Reads writes (load_memory w run)
      unfolding load_memory
      Reads-load_memory = Reads-or_else _ _ _ (c.search_personal run _) Reads-broken λ personal.
          Reads-if _ _ _
            (Reads-or_else _ _ _ (c.search_group run 4) Reads-broken (λ group. Reads-done _))
            (Reads-done personal)

      route_run-Writes : (sn : Snapshot) → Writes writes (route_run w run sn)
      unfolding route_run
      route_run-Writes sn = search (or_retry-Writes, Reads-check, c.save_route, c.route) depth 12

      answer_generally-Writes : (spec : AgentSpec) → Writes writes (answer_generally w run spec)
      unfolding answer_generally
      answer_generally-Writes spec =
          search
            (
              or_retry-Writes, Reads-check, Reads-load_memory, c.generate, c.record_exposures,
              c.save_candidate,
            )
            depth 16

      ticket_from-Writes :
          (spec : AgentSpec) (title : Result String) → Writes writes (ticket_from w run spec title)
      ticket_from-Writes spec (err e) = c.save_candidate run _ []
      ticket_from-Writes spec (ok title) =
          search (or_retry-Writes, Reads-check, c.save_candidate) depth 12

      propose_ticket-Writes : (spec : AgentSpec) → Writes writes (propose_ticket w run spec)
      unfolding propose_ticket
      propose_ticket-Writes spec = ticket_from-Writes spec _

      plan_tool-Writes :
          (spec : AgentSpec) (d : Descriptor) → Writes writes (plan_tool w run spec d)
      unfolding plan_tool
      plan_tool-Writes spec d = search (or_retry-Writes, c.plan, c.save_tool_plan) depth 12

      keep_result-Writes :
          (state : String) (r : Option String) → Writes writes (keep_result w run state r)
      keep_result-Writes state none = c.fail run _
      keep_result-Writes state (some r) = search (Writes-if, c.save_tool_result, c.fail) depth 9

      execute_decoded-Writes :
          (sn : Snapshot) (o : Option (Option String)) → Writes writes (execute_decoded w run sn o)
      execute_decoded-Writes sn none = c.fail run _
      execute_decoded-Writes sn (some o) =
          search
            (
              or_retry-Writes, Writes-if, c.execute_tool, c.save_candidate, c.fail,
              c.wait_for_tool_approval, keep_result-Writes,
            )
            depth 12

      execute_plan-Writes : (sn : Snapshot) → Writes writes (execute_plan w run sn)
      unfolding execute_plan
      execute_plan-Writes sn = execute_decoded-Writes sn _

      answer_with-Writes :
          (spec : AgentSpec) (r : String) → Writes writes (answer_with w run spec r)
      answer_with-Writes spec r =
          search
            (
              or_retry-Writes, Reads-check, Reads-load_memory, c.generate, c.record_exposures,
              c.save_candidate,
            )
            depth 16

      answer_decoded-Writes :
          (spec : AgentSpec) (o : Option (Option String))
          → Writes writes (answer_decoded w run spec o)
      answer_decoded-Writes spec none = c.fail run _
      answer_decoded-Writes spec (some none) = c.fail run _
      answer_decoded-Writes spec (some (some r)) = answer_with-Writes spec r

      answer_tool-Writes : (spec : AgentSpec) → Writes writes (answer_tool w run spec)
      unfolding answer_tool
      answer_tool-Writes spec = answer_decoded-Writes spec _

      use_visible-Writes :
          (spec : AgentSpec) (sn : Snapshot) (o : Option Descriptor)
          → Writes writes (use_visible w run spec sn o)
      use_visible-Writes spec sn none = c.fail run _
      use_visible-Writes spec sn (some d) =
          search (Writes-if, plan_tool-Writes, execute_plan-Writes, answer_tool-Writes) depth 9

      use_tool-Writes : (spec : AgentSpec) (sn : Snapshot) → Writes writes (use_tool w run spec sn)
      unfolding use_tool
      use_tool-Writes spec sn = use_visible-Writes spec sn _

      answer_from-Writes :
          (spec : AgentSpec) (es : List EvidenceItem) → Writes writes (answer_from w run spec es)
      answer_from-Writes spec es =
          search
            (
              or_retry-Writes, Reads-check, Reads-load_memory, c.generate, c.record_exposures,
              c.save_candidate,
            )
            depth 16

      found-Writes :
          (spec : AgentSpec) (es : List EvidenceItem) → Writes writes (answer_found w run spec es)
      found-Writes spec [] = c.save_candidate run _ []
      found-Writes spec (item ∷ items) = answer_from-Writes spec (item ∷ items)

      answer_knowledge-Writes :
          (spec : AgentSpec) (sn : Snapshot) → Writes writes (answer_knowledge w run spec sn)
      unfolding answer_knowledge
      answer_knowledge-Writes spec sn =
          or_retry-Writes spec.max_model_attempts "retrieve authorized knowledge: " _ _
            (c.search_knowledge run sn spec) (found-Writes spec)

      deliver_reply-Writes : Writes writes (deliver_reply w run)
      unfolding deliver_reply
      deliver_reply-Writes =
          search (or_retry-Writes, Writes-if, Reads-check, c.ensure_intent, c.prepare) depth 12

      answer_run-Writes :
          (spec : AgentSpec) (sn : Snapshot) → Writes writes (answer_run w run spec sn)
      unfolding answer_run
      answer_run-Writes spec sn =
          search
            (
              Writes-if, c.save_candidate, answer_generally-Writes, propose_ticket-Writes,
              answer_knowledge-Writes, use_tool-Writes,
            )
            depth 12

      advance_run-Writes :
          (spec : AgentSpec) (sn : Snapshot) → Writes writes (advance_run w run spec sn)
      unfolding advance_run
      advance_run-Writes spec sn =
          search (Writes-if, route_run-Writes, answer_run-Writes, deliver_reply-Writes) depth 9

      with_version-Writes : (loaded : Loaded) → Writes writes (with_version w run loaded)
      with_version-Writes (invalid_catalog e) = c.fail run e
      with_version-Writes (version spec) =
          Writes-or_else _ _ _ (c.load_capability_snapshot run) (λ e. c.fail run e)
            (advance_run-Writes spec)

      bound-once :
          (valid : Result (Unit {0})) (s s' : S) (loaded : Loaded)
          → w.load_catalog_version run s ≡ (ok loaded, s')
          → writes (bound w run valid s).1 ≡ suc (writes s)
      unfolding or_else
      bound-once (err e) s s' loaded h = (c.fail run e).once s
      bound-once (ok _) s s' loaded h =
          let same : writes s' ≡ writes s =
            ap (λ (x : Result Loaded × S). writes x.1) (sym h)
            ∙ (c.load_catalog_version run).never s in
          rw h ((with_version-Writes loaded).once s' ∙ ap suc same)

  -- A round that has claimed a Run, which has had an attempt, writes exactly once for it if the
  -- catalog version can be read, whatever the worker's interfaces answer: one call that stores a
  -- result of the Run's phase, suspends, requeues or fails the Run, or hands its reply over.
  pub run_claimed_once :
      (w : Worker S) (c : Counts writes w) (run : Run) (s s' : S) (loaded : Loaded)
      → 1 ≤ run.attempts
      → w.load_catalog_version run s ≡ (ok loaded, s')
      → writes (run_claimed w run s).1 ≡ suc (writes s)
  unfolding run_claimed
  run_claimed_once w c run s s' loaded counted h = bound-once w c run counted _ s s' loaded h
