-- ===== src/Tools/Replay.antt =====
-- internal/toolruntime/store.go: Prepare on a call that the ledger has, and who decides on a call.
use open_im.Prelude.{
  ℕ, ◌<◌, String, ◌≡◌, sym, refl, Bool, true, false, ◌||◌, ◌&&◌, not, Option, none, some, arith,
  if◌then◌else◌, find, find-true, any, any_of_find, update_where, count_where, eqb, Bool-cases, inl,
  inr, ◌==◌, eq_iff,
}
use open_im.Database.{Db, RunRow, ToolCallRow, CallState, ToolApprovalRow}
use open_im.Database.Tx.{ok, transact, require_one, pure, raise}
use open_im.Database.Tx.Results.{transact-eq-ok}
use open_im.Database.Tx.Tools.{update_calls, update_approvals, insert_tool_events}
use open_im.Database.Tx.{query, update_runs}
use open_im.Agent.Catalog.{Descriptor}
use open_im.Tools.Policy.{Decision}
use open_im.Tools.Service.{Execution, CallRequest, PreparedCall}
use open_im.Tools.Ledger.{
  is_same_call, first_state, is_retryable, prepared_of, prepare_again, prepare_call,
  prepare_call_tx, load_duplicate, retry_read, approval_of, prepare_in,
}
use open_im.Tools.Lifecycle.{is_failed, is_prepared, insert_tool_lifecycle_event, state_word}
use open_im.Tools.Verdict.{
  Choice, is_decidable, decide_tx, continue_call, is_active_member, log_decision, waits_for,
  decide_call,
}
use open_im.Delivery.Statements.{holds_text}
use open_im.Agent.Approvals.{is_waiting_run, is_waiting_call}

retry_read-eq-ok :
    (now : ℕ) (call : ToolCallRow) (approval_id : String) (s : Db) {p : PreparedCall} {t : Db}
    → retry_read now call approval_id s ≡ ok (p, t)
    → p ≡ prepared_of approval_id "" none (prepare_again now call)
unfolding retry_read update_calls require_one insert_tool_lifecycle_event insert_tool_events pure
    raise
retry_read-eq-ok now call approval_id s h = ground arith

word-prepared : (state : CallState) → (state_word state == "prepared") ≡ is_prepared state
word-prepared CallState.prepared = refl
word-prepared CallState.denied = refl
word-prepared CallState.waiting_approval = refl
word-prepared CallState.executing = refl
word-prepared CallState.unknown = refl
word-prepared CallState.succeeded = refl
word-prepared CallState.failed = refl

-- What a duplicate call gives: the prepared call, and the ledger as it was but for a retry.
abbrev Replays : Bool → ToolCallRow → PreparedCall → Db → Db → Type 0
Replays again call p s t =
    ((p.state == "prepared") ≡ (is_prepared call.state || again)) × (again ≡ false → t ≡ s)

load_duplicate-eq-ok :
    (now : ℕ) (d : Descriptor) (q : CallRequest) (digest : String) (decision : Decision)
    (approval_id : String) (call : ToolCallRow) (s : Db) {p : PreparedCall} {t : Db}
    → load_duplicate now d q digest decision approval_id call s ≡ ok (p, t)
    → Replays (is_retryable d decision call) call p s t
unfolding load_duplicate
load_duplicate-eq-ok now d q digest decision approval_id call s {p} {t} h =
    chosen (not (call.arguments_digest == digest) || not (call.operation_id == q.operation_id))
      (is_retryable d decision call) h
  where
    chosen :
        (differs again : Bool)
        → (if differs
              then raise "duplicate tool call ID has different operation or arguments"
              else if again
              then retry_read now call approval_id
              else pure (prepared_of approval_id "null" call.result call))
            s
          ≡ ok (p, t)
        → Replays again call p s t
    chosen true again k = absurd cc
    chosen false true k =
        (rw (retry_read-eq-ok now call approval_id s k) (ground arith), λ e. absurd cc)
    chosen false false k =
        let same : state_word call.state ≡ p.state = ground arith in
        let kept = word-prepared call.state in (rw (sym same) (ground arith), λ _. ground arith)

prepared_tx-found :
    (id approval_id : String) (now : ℕ) (x : Execution) (d : Descriptor) (q : CallRequest)
    (digest : String) (decision : Decision) (expires : ℕ) (db : Db) (call : ToolCallRow)
    (p : PreparedCall) (o : Option CallState)
    → find (is_same_call x q) db.tool_calls ≡ some call
    → (prepare_in id approval_id now x d q digest decision expires o db).0 ≡ ok p
    → Replays
        (is_retryable d decision call)
        call
        p
        db
        (prepare_in id approval_id now x d q digest decision expires o db).1
unfolding prepare_call_tx
prepared_tx-found id approval_id now x d q digest decision expires db call p none found h =
    absurd cc
prepared_tx-found id approval_id now x d q digest decision expires db call p (some state) found h =
    let (t, done, is_t) =
      transact-eq-ok
        (prepare_call_tx id approval_id now x d q digest decision expires state (some call)) db
        (rw found at h) in
    rw (found, is_t)
      (load_duplicate-eq-ok now d q digest decision (approval_of db.tool_approvals call.id) call db
        done)

-- Preparing a call that the ledger already has, when it succeeds, gives a call that is ready to be
-- started exactly if the call's row was ready and not started, or if the row is a failed read with
-- safe retries and a decision that allows it; in every case but the last the whole database, with
-- the row, is as before. So a call that is running, has succeeded, was denied, or whose outcome is
-- unknown is not made ready again.
pub prepare_call_existing :
    (id approval_id : String) (now : ℕ) (x : Execution) (d : Descriptor) (q : CallRequest)
    (digest : String) (decision : Decision) (expires : ℕ) (db : Db) (call : ToolCallRow)
    (p : PreparedCall)
    → find (is_same_call x q) db.tool_calls ≡ some call
    → (prepare_call id approval_id now x d q digest decision expires db).0 ≡ ok p
    → ((p.state == "prepared") ≡ (
        is_prepared call.state
        || (is_failed call.state
            && d.risk == "read"
            && d.retry_semantics == "safe"
            && decision.outcome == "allow")))
      × ((is_failed call.state
              && d.risk == "read"
              && d.retry_semantics == "safe"
              && decision.outcome == "allow")
            ≡ false
          → (prepare_call id approval_id now x d q digest decision expires db).1 ≡ db)
unfolding prepare_call
prepare_call_existing id approval_id now x d q digest decision expires db call p found h =
    prepared_tx-found id approval_id now x d q digest decision expires db call p
      (first_state decision.outcome) found h

logged-some :
    (now : ℕ) (choice : Choice) (tenant_id approval_id actor call_id : String) (o : Option RunRow)
    (s : Db) {x : Unit {0} × Db}
    → log_decision now choice tenant_id approval_id actor call_id o s ≡ ok x
    → (run : RunRow) × (o ≡ some run)
unfolding log_decision raise
logged-some now choice tenant_id approval_id actor call_id none s h = absurd cc
logged-some now choice tenant_id approval_id actor call_id (some run) s h = (run, refl)

-- A Run that is suspended for the approval.
abbrev pub awaits : String → RunRow → Bool
awaits approval_id run =
    is_waiting_run run.state && holds_text run.pending_tool_approval_id approval_id

continued-awaits :
    (choice : Choice) (now : ℕ) (tenant_id approval_id actor : String) (a : ToolApprovalRow)
    (s : Db) {t : Db}
    → continue_call now choice tenant_id approval_id actor (some a) s ≡ ok (tt, t)
    → any (awaits approval_id) s.runs ≡ true
unfolding continue_call update_calls update_runs require_one query
continued-awaits choice now tenant_id approval_id actor a s h =
    let calls =
      update_where
        (λ (call : ToolCallRow).
          call.id == a.tool_call_id && call.tenant_id == tenant_id && is_waiting_call call.state)
        (decide_call now choice) s.tool_calls in
    let waits = waits_for calls a.tool_call_id tenant_id approval_id in
    elim (Bool-cases (
      eqb
        (count_where
          (λ (call : ToolCallRow).
            call.id == a.tool_call_id && call.tenant_id == tenant_id && is_waiting_call call.state)
          s.tool_calls)
        1)) [
          | inl one ↦
              let (run, found) =
                logged-some now choice tenant_id approval_id actor a.tool_call_id
                  (find waits s.runs) _ (rw one at h) in
              let its = find-true waits s.runs found in
              any_of_find waits (awaits approval_id) s.runs found (ground arith)
          | inr other ↦ absurd (cc (rw other at h))
        ]

decidable_row :
    (choice : Choice) (now : ℕ) (tenant_id approval_id actor : String) (s : Db)
    (o : Option ToolApprovalRow) {t : Db}
    → continue_call now choice tenant_id approval_id actor o s ≡ ok (tt, t)
    → (a : ToolApprovalRow) × (o ≡ some a) × (any (awaits approval_id) s.runs ≡ true)
unfolding continue_call raise
decidable_row choice now tenant_id approval_id actor s none h = absurd cc
decidable_row choice now tenant_id approval_id actor s (some a) h =
    (a, refl, continued-awaits choice now tenant_id approval_id actor a s h)

-- A decision that succeeds is the asker's own, on the very arguments that were asked about, in
-- time, by an active member, and there is a Run that is suspended for that approval.
pub decision_bound :
    (choice : Choice) (now : ℕ) (tenant_id approval_id actor digest : String) (db : Db)
    → (transact (decide_tx now choice tenant_id approval_id actor digest) db).0 ≡ ok tt
    → (a : ToolApprovalRow) × (find
          (is_decidable db.members now tenant_id approval_id actor digest)
          db.tool_approvals
        ≡ some a)
      × (a.requested_by ≡ actor)
      × (a.arguments_digest ≡ digest)
      × (now < a.expires_at)
      × (is_active_member a.tenant_id actor db.members ≡ true)
      × (any (awaits approval_id) db.runs ≡ true)
unfolding decide_tx update_approvals
decision_bound choice now tenant_id approval_id actor digest db h =
    let (t, done, _) =
      transact-eq-ok (decide_tx now choice tenant_id approval_id actor digest) db h in
    let (a, found, waiting) = decidable_row choice now tenant_id approval_id actor _ _ done in
    let fits =
      find-true (is_decidable db.members now tenant_id approval_id actor digest) db.tool_approvals
        found in
    (
      a,
      found,
      (eq_iff a.requested_by actor).0 (ground arith),
      (eq_iff a.arguments_digest digest).0 (ground arith),
      ground arith,
      ground arith,
      waiting,
    )
