-- ===== src/Agent/Turn.antt =====
-- What Claim of internal/agent/store.go promises of the Run that it returns.
use open_im.Prelude.{
  ℕ, ◌≤◌, String, ◌≡◌, refl, Bool, true, false, ◌&&◌, Option, none, some, arith, All, All-first_by,
  All-select_where, All-update_where, select_where-true, any, ◌==◌, eq_iff,
}
use open_im.Database.{Db, RunRow}
use open_im.Database.Tx.{ok, transact, update_runs, insert_run_events}
use open_im.Database.Tx.Results.{transact-eq-ok}
use open_im.Database.Tx.Tools.{update_calls, update_approvals, insert_tool_events}
use open_im.Delivery.Statements.{duration_seconds, holds_text}
use open_im.Delivery.Claim.{is_paused}
use open_im.Agent.Run.{Run, phase_attempts}
use open_im.Agent.Lane.{mark_delegation_running, start_delegation, insert_run_event, stands_at}
use open_im.Agent.Approvals.{expire_tool_approvals, resume, is_resumed, denied_calls, overdue}
use open_im.Agent.Claim.{
  run_candidate, is_run_claimable, run_before, lease_run, run_of, lease_run_candidate,
  lease_next_run, claim_run_tx, claim_run, is_null, has_attempts, raw_json, or_empty, picks_tool,
  is_finalizing,
}

-- A Run as the schema's constraints and the writers of its columns leave it: a selected route has
-- an operation, a text that is there is not empty, nor JSON's null, and the phases' results come in
-- their order.
pub record IsShaped (r : RunRow) : Type 0 where
  pub routed : holds_text r.route_status "" ≡ false
  pub selected : holds_text r.route_status "selected" ≡ true → is_null r.route_operation_id ≡ false
  pub candidate : holds_text r.candidate_text "" ≡ false
  pub arguments : holds_text r.tool_arguments "" ≡ false
  pub result : holds_text r.tool_result "" ≡ false
  pub real_arguments : holds_text r.tool_arguments "null" ≡ false
  pub real_result : holds_text r.tool_result "null" ≡ false
  pub routed_first : is_null r.route_status ≡ true → is_null r.candidate_text ≡ true
  pub planned_first : is_null r.tool_arguments ≡ true → is_null r.tool_result ≡ true

-- What is claimed, from the database `s` that the expiry leaves.
lease_next_run-candidate :
    (locked : String → Bool) (token : String) (lease limit now : ℕ) (s : Db) (run : Run) {t : Db}
    → lease_next_run locked token lease limit now s ≡ ok (some run, t)
    → (c : RunRow) × (run_candidate s locked limit now ≡ some c)
      × (run ≡ run_of (lease_run now token (duration_seconds lease) c))
unfolding lease_next_run lease_run_candidate mark_delegation_running start_delegation
    insert_run_event update_runs
lease_next_run-candidate locked token lease limit now s run {t} h =
    found (run_candidate s locked limit now) refl h
  where
    found :
        (o : Option RunRow)
        → run_candidate s locked limit now ≡ o
        → lease_run_candidate now token (duration_seconds lease) o s ≡ ok (some run, t)
        → (c : RunRow) × (run_candidate s locked limit now ≡ some c)
          × (run ≡ run_of (lease_run now token (duration_seconds lease) c))
    found none e k = absurd cc
    found (some c) e k = (c, e, ground arith)

-- A reply that was saved before its tool had a result: the tool call was denied.
abbrev pub is_denied_reply : RunRow → Bool
is_denied_reply r = is_finalizing r && picks_tool r && is_null r.tool_result

raw-null :
    (o : Option String)
    → holds_text o "" ≡ false
    → holds_text o "null" ≡ false
    → (raw_json o == "") ≡ is_null o
raw-null none a b = refl
raw-null (some s) a b = rw b a

or-null : (o : Option String) → holds_text o "" ≡ false → (or_empty o == "") ≡ is_null o
or-null none a = refl
or-null (some s) a = a

or-holds : (o : Option String) (v : String) → (v == "") ≡ false → (or_empty o == v) ≡ holds_text o v
or-holds none v n = ground (arith, eq_iff "" v, eq_iff v "")
or-holds (some s) v n = refl

phase-bounds :
    (now : ℕ) (token : String) (seconds limit : ℕ) (c : RunRow)
    → IsShaped c
    → is_denied_reply c ≡ false
    → has_attempts limit c ≡ true
    → (1 ≤ phase_attempts (run_of (lease_run now token seconds c)))
      × (phase_attempts (run_of (lease_run now token seconds c)) ≤ limit)
unfolding phase_attempts
phase-bounds now token seconds limit c s answered h =
    let a = or-null c.route_status s.routed in
    let b = or-null c.candidate_text s.candidate in
    let d = or-holds c.route_status "selected" refl in
    let e = or-holds c.route_operation_id "enterprise.knowledge.search" refl in
    let f = or-holds c.route_operation_id "collaboration.ticket.create" refl in
    let g = raw-null c.tool_arguments s.arguments s.real_arguments in
    let i = raw-null c.tool_result s.result s.real_result in rw (a, b, d, e, f, g, i) (ground arith)

resume-IsShaped : (now : ℕ) (r : RunRow) → IsShaped r → IsShaped (resume now r)
resume-IsShaped now r s = record {
  routed = s.routed;
  selected = s.selected;
  candidate = s.candidate;
  arguments = s.arguments;
  result = s.result;
  real_arguments = s.real_arguments;
  real_result = s.real_result;
  routed_first = s.routed_first;
  planned_first = s.planned_first;
}

module _ (locked : String → Bool) (id_before : String → String → Bool) (token : String)
    (lease limit now : ℕ) (db : Db) where
  -- The database between the two parts of Claim's transaction.
  abbrev pub after_expiry : Db
  after_expiry = (transact (expire_tool_approvals locked id_before 100 now) db).1

  pub claimed_row :
      (run : Run)
      → (claim_run locked id_before token lease limit now db).0 ≡ ok (some run)
      → (c : RunRow) × (run_candidate after_expiry locked limit now ≡ some c)
        × (run ≡ run_of (lease_run now token (duration_seconds lease) c))
  unfolding claim_run claim_run_tx expire_tool_approvals update_calls update_approvals update_runs
      insert_tool_events insert_run_events transact
  claimed_row run h =
      let (t, done, _) =
        transact-eq-ok (claim_run_tx locked id_before token lease limit now) db h in
      lease_next_run-candidate locked token lease limit now after_expiry run done

  pub claimed_due :
      (c : RunRow)
      → run_candidate after_expiry locked limit now ≡ some c
      → is_run_claimable after_expiry locked limit now c ≡ true
  claimed_due c chosen =
      All-first_by _ run_before _
        (select_where-true (is_run_claimable after_expiry locked limit now) after_expiry.runs)
        chosen

  -- What a resumption leaves alone holds of the candidate too.
  pub candidate-All :
      (P : RunRow → Type 0) (c : RunRow)
      → ((r : RunRow) → P r → P (resume now r))
      → All P db.runs
      → run_candidate after_expiry locked limit now ≡ some c
      → P c
  unfolding expire_tool_approvals update_calls update_approvals update_runs insert_tool_events
      insert_run_events transact
  candidate-All P c kept rows chosen =
      let resumed : All P after_expiry.runs =
        All-update_where P
          (is_resumed
            (denied_calls (overdue locked id_before 100 now db.tool_approvals) db.tool_calls))
          (resume now) db.runs (λ r _ pr. kept r pr) rows in
      All-first_by P run_before _
        (All-select_where P (is_run_claimable after_expiry locked limit now) after_expiry.runs
          resumed)
        chosen

  -- A claimed Run has used between one and the allowed number of attempts of the phase in which the
  -- worker finds it, which is the count that FailOrRetry compares with the limit, as long as the
  -- rows have the shape that the store gives them and none holds the reply to a denied tool call.
  pub claimed_within_limit :
      (run : Run)
      → All IsShaped db.runs
      → All (λ r. is_denied_reply r ≡ false) db.runs
      → (claim_run locked id_before token lease limit now db).0 ≡ ok (some run)
      → (1 ≤ phase_attempts run) × (phase_attempts run ≤ limit)
  claimed_within_limit run shaped answered h =
      let (c, chosen, is_run) = claimed_row run h in
      let due = claimed_due c chosen in
      let s = candidate-All IsShaped c (resume-IsShaped now) shaped chosen in
      let a = candidate-All (λ r. is_denied_reply r ≡ false) c (λ r a. a) answered chosen in
      rw is_run (phase-bounds now token (duration_seconds lease) limit c s a (ground arith))

  -- A claimed Run stands at the dispatch position of its conversation's lane, so it is not a later
  -- message of the conversation, and the Agent execution of its tenant is not paused.
  pub claimed_in_turn :
      (run : Run)
      → (claim_run locked id_before token lease limit now db).0 ≡ ok (some run)
      → (any (stands_at run) db.lanes ≡ true)
        × (is_paused db "agent_execution" run.tenant_id ≡ false)
  unfolding expire_tool_approvals update_calls update_approvals update_runs insert_tool_events
      insert_run_events transact
  claimed_in_turn run h =
      let (c, chosen, is_run) = claimed_row run h in
      let due = claimed_due c chosen in rw is_run (ground arith, ground arith)
