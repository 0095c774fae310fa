-- ===== src/Agent/Lease.antt =====
-- The lease of a Run as the guard of every write of internal/agent/store.go, route_store.go and
-- tool_plan_store.go.
use open_im.Prelude.{
  ℕ, String, ◌≡◌, refl, ◌∙◌, Bool, true, false, ◌&&◌, not, some, List, [], ◌∷◌, arith,
  if◌then◌else◌, leb, ◌^◌, byte_length, any_none, count_where, count_where-narrow, update_where,
  update_where-Changed, ◌==◌,
}
use open_im.Database.{Db, RunRow, Json}
use open_im.Database.Tx.Results.{bind-eq-ok, transact-eq-ok}
use open_im.Database.Tx.{
  ok, err, transact, update_runs, update_lanes, update_delegations, require_one,
  insert_delegation_events, insert_run_events, Tx, ◌>>=◌, ◌>>◌,
}
use open_im.Delivery.Statements.{advance, is_live, duration_seconds}
use open_im.Agent.Run.{
  Run, Candidate, EvidenceItem, RouteResult, RouteCandidate, ToolPlan, phase_attempts,
}
use open_im.Agent.Lane.{
  holds_lease, holds_live_lease, stands_at, cut_failure, insert_run_event, end_delegation,
  advance_conversation_lane, fail_delegation_for_run,
}
use open_im.Delivery.Outcomes.{advance-MovesOn}
use open_im.Agent.Failed.{IsTaken, IsTaken-none, Ends, fail-IsFailed, requeue-IsRequeued}
use open_im.Agent.Approvals.{wait_tx, wait_for_tool_approval, awaits_approval}
use open_im.Agent.Claim.{is_null}
use open_im.Agent.Saves.{
  save_candidate, save_candidate_tx, save_route, save_route_tx, save_tool_plan, save_tool_plan_tx,
  save_tool_result, save_tool_result_tx,
}
use open_im.Agent.Failure.{
  fail_or_requeue, fail_or_retry, fail_or_retry_tx, fail, fail_tx, record_failure, if_failed,
  give_up_run, failure_event,
}

module _ (now : ℕ) (run : Run) (db : Db) (taken : IsTaken run db.runs) where
  lost : count_where (holds_lease run) db.runs ≡ 0
  lost = IsTaken-none run db.runs taken

  narrowed : (q : RunRow → Bool) → count_where (λ row. holds_lease run row && q row) db.runs ≡ 0
  narrowed q = count_where-narrow (holds_lease run) _ db.runs (λ row h. rw h refl) lost

  -- A worker that lost its lease on a Run cannot store anything for it: when no row with the Run's
  -- id has the worker's lease token, whatever its state, the candidate, the route, the plan and the
  -- result that it brings (an object of at most a mebibyte) are refused as not held, and the
  -- database is unchanged.
  pub stale_result_refused :
      (encode : List RouteCandidate → String) (is_object : String → Bool) (candidate : Candidate)
      (evidence : List EvidenceItem) (route : RouteResult) (plan : ToolPlan) (data_text : String)
      → is_object data_text ≡ true
      → leb (byte_length data_text) (2 ^ 20) ≡ true
      → (save_candidate now run candidate evidence db
          ≡ (err "save Agent candidate: execution lease is not held", db))
        × (save_route encode now run route db
            ≡ (err "save intent route: execution lease is not held", db))
        × (save_tool_plan is_object now run plan db
            ≡ (err "save Agent tool plan: execution lease is not held or plan already exists", db))
        × (save_tool_result is_object now run data_text db ≡ (
          err "save Agent tool result: execution lease is not held or result already exists",
          db,
        ))
  unfolding save_candidate save_candidate_tx save_route save_route_tx save_tool_plan
      save_tool_plan_tx save_tool_result save_tool_result_tx transact update_runs require_one
  stale_result_refused encode is_object candidate evidence route plan data_text o small =
      let live = narrowed (λ row. is_live row.lease_until now) in
      let planless =
        count_where-narrow (holds_live_lease now run)
          (λ row. holds_live_lease now run row && is_null row.tool_arguments) db.runs
          (λ row h. rw h refl) live in
      let resultless =
        count_where-narrow (holds_live_lease now run)
          (λ row.
            holds_live_lease now run row
            && not (is_null row.tool_arguments)
            && is_null row.tool_result)
          db.runs (λ row h. rw h refl) live in
      (
        rw live refl,
        rw (any_none _ db.runs live, live) refl,
        rw (any_none _ db.runs planless, planless) refl,
        rw (o, resultless) (ground arith),
      )

  -- When no row with the Run's id has the worker's lease token, whatever its state, the worker cannot
  -- suspend the Run for an approval that has an id, nor requeue or fail it with a failure text that
  -- is cut between code points: the report is that the lease is not held, and the database is
  -- unchanged.
  pub stale_failure_refused :
      (approval_id failure text : String) (max_attempts retry_after : ℕ)
      → (approval_id == "") ≡ false
      → cut_failure failure ≡ some text
      → (wait_for_tool_approval now run approval_id db
          ≡ (err "wait for tool approval: execution lease is not held", db))
        × (fail_or_retry now run failure max_attempts retry_after db
            ≡ (err "retry Agent Run: execution lease is not held", db))
        × (fail now run failure db ≡ (err "fail Agent Run: execution lease is not held", db))
  unfolding wait_for_tool_approval wait_tx fail_or_retry fail_or_retry_tx fail fail_tx
      record_failure transact update_runs require_one
  stale_failure_refused approval_id failure text max_attempts retry_after named whole =
      let suspended = narrowed (awaits_approval db approval_id) in
      (rw (named, suspended) refl, rw (whole, lost) refl, rw (whole, lost) refl)

-- The end of a failed Run: exactly one lane stands at it and moves on.
give_up_run-eq-ok :
    (now : ℕ) (run : Run) (failure : String) (s : Db) {x : Unit {0} × Db}
    → give_up_run now run failure s ≡ ok x
    → (count_where (stands_at run) s.lanes ≡ 1)
      × (x.1.runs ≡ s.runs)
      × (x.1.lanes ≡ update_where (stands_at run) (advance now) s.lanes)
unfolding give_up_run advance_conversation_lane fail_delegation_for_run end_delegation update_lanes
    update_delegations insert_delegation_events require_one
give_up_run-eq-ok now run failure s h = ground arith

-- The guarded update with which FailOrRetry begins.
held_update : Run → (RunRow → RunRow) → Tx (Unit {0}) → Tx (Unit {0})
held_update run f rest = do
  n ← update_runs (holds_lease run) f
  require_one n "retry Agent Run: execution lease is not held"
  rest

held_update-eq-ok :
    (run : Run) (f : RunRow → RunRow) (rest : Tx (Unit {0})) (s : Db) {x : Unit {0} × Db}
    → held_update run f rest s ≡ ok x
    → (count_where (holds_lease run) s.runs ≡ 1)
      × (rest (record s { runs = update_where (holds_lease run) f s.runs }) ≡ ok x)
unfolding held_update update_runs require_one
held_update-eq-ok run f rest s h = ground arith

failing : Bool → ℕ → Run → String → Tx (Unit {0})
failing final now run text = do
  if_failed final (give_up_run now run text)
  insert_run_event run (failure_event final)
      (("attempt", Json.number run.attempts) ∷ ("error", Json.text text) ∷ [])

failing-eq-ok :
    (final : Bool) (now : ℕ) (run : Run) (text : String) (s : Db) {t : Db}
    → failing final now run text s ≡ ok (tt, t)
    → ((if final then count_where (stands_at run) s.lanes else 1) ≡ 1)
      × (t.runs ≡ s.runs)
      × (t.lanes ≡ (if final then update_where (stands_at run) (advance now) s.lanes else s.lanes))
unfolding failing if_failed insert_run_event insert_run_events
failing-eq-ok true now run text s {t} h =
    let (u, s1, gave_up, logged) =
      bind-eq-ok (give_up_run now run text)
        (λ _.
          insert_run_event run "failed"
            (("attempt", Json.number run.attempts) ∷ ("error", Json.text text) ∷ []))
        s h in
    let (one, runs, lanes) = give_up_run-eq-ok now run text s gave_up in
    let same_runs : t.runs ≡ s1.runs = ground arith in
    let same_lanes : t.lanes ≡ s1.lanes = ground arith in
    (one, same_runs ∙ runs, same_lanes ∙ lanes)
failing-eq-ok false now run text s h = (refl, ground arith, ground arith)

-- The two outcomes of FailOrRetry, `final` being the test of the limit.
ending :
    (now : ℕ) (run : Run) (limit seconds : ℕ) (text : String) (s t : Db) (final : Bool)
    → leb limit (phase_attempts run) ≡ final
    → count_where (holds_lease run) s.runs ≡ 1
    → (if final then count_where (stands_at run) s.lanes else 1) ≡ 1
    → t.runs ≡ update_where (holds_lease run) (fail_or_requeue now final seconds text) s.runs
    → t.lanes ≡ (if final then update_where (stands_at run) (advance now) s.lanes else s.lanes)
    → Ends run now seconds limit text s t
ending now run limit seconds text s t true reached one lane runs lanes = record {
  one_run = one;
  fails = λ _. (
    rw runs (update_where-Changed _ s.runs (fail-IsFailed run now seconds text)),
    lane,
    rw lanes (update_where-Changed (advance now) s.lanes (λ l _. advance-MovesOn now l)),
  );
  again = λ below. absurd (ground arith);
}
ending now run limit seconds text s t false reached one lane runs lanes = record {
  one_run = one;
  fails = λ above. absurd (ground arith);
  again = λ _.
      (rw runs (update_where-Changed _ s.runs (requeue-IsRequeued run now seconds text)), lanes);
}

fail_or_retry_tx-Ends :
    (now : ℕ) (run : Run) (limit seconds : ℕ) (text : String) (s : Db) {t : Db}
    → fail_or_retry_tx now run (leb limit (phase_attempts run)) seconds text s ≡ ok (tt, t)
    → Ends run now seconds limit text s t
unfolding fail_or_retry_tx held_update failing
fail_or_retry_tx-Ends now run limit seconds text s h =
    let final = leb limit (phase_attempts run) in
    let (one, later) =
      held_update-eq-ok run (fail_or_requeue now final seconds text) (failing final now run text) s
        h in
    let (lane, runs, lanes) = failing-eq-ok final now run text _ later in
    ending now run limit seconds text s _ final refl one lane runs lanes

-- FailOrRetry succeeds only as a whole, for a failure text that is cut between two code points:
-- exactly one Run is running under the worker's token, and loses the lease and takes the text. When
-- the attempts of its phase have reached the limit, it becomes failed, exactly one lane stands at
-- it, and that lane's position grows by one. Otherwise it becomes queued, or reply_pending if it has
-- a candidate, due again after the delay, and the lanes are as before. All other Runs and lanes are
-- as before.
pub fail_or_retry-Ends :
    (now : ℕ) (run : Run) (failure text : String) (max_attempts retry_after : ℕ) (db : Db)
    → cut_failure failure ≡ some text
    → (fail_or_retry now run failure max_attempts retry_after db).0 ≡ ok tt
    → Ends run now
        (duration_seconds retry_after)
        max_attempts
        text
        db
        (fail_or_retry now run failure max_attempts retry_after db).1
unfolding fail_or_retry record_failure
fail_or_retry-Ends now run failure text max_attempts retry_after db whole h =
    let (t, done, is_t) =
      transact-eq-ok
        (fail_or_retry_tx now run (leb max_attempts (phase_attempts run))
          (duration_seconds retry_after) text)
        db (rw whole at h) in
    rw (whole, is_t) (fail_or_retry_tx-Ends now run max_attempts _ text db done)
