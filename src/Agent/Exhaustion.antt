-- ===== src/Agent/Exhaustion.antt =====
-- Runs that Claim of internal/agent/store.go passes over for ever.
use mathlib.Core.Path.{subst}
use open_im.Prelude.{
  ℕ, String, ◌≡◌, sym, refl, Bool, true, false, Option, none, some, List, arith, All,
  All-update_where, update_where, ◌==◌, eq_iff, Bool-cases, inl, inr,
}
use open_im.Database.{Db, RunRow}
use open_im.Database.Tx.{
  Result, ok, err, transact, update_runs, update_delegations, insert_run_events,
  insert_delegation_events, query, pure,
}
use open_im.Database.Tx
use open_im.Database.Tx.Tools.{update_calls, update_approvals, insert_tool_events}
use open_im.Delivery.Statements.{duration_seconds}
use open_im.Agent.Run.{Run}
use open_im.Agent.Lane.{mark_delegation_running, start_delegation, insert_run_event}
use open_im.Agent.Approvals.{expire_tool_approvals, resume, is_resumed, denied_calls, overdue}
use open_im.Agent.Claim.{
  run_candidate, has_attempts, lease_run, lease_run_candidate, lease_next_run, claim_run_tx,
  claim_run,
}
use open_im.Agent.Turn.{after_expiry, claimed_row, claimed_due, candidate-All}

-- Any number of claims, by any workers, at any times.
pub data Claims (limit : ℕ) (s : Db) : Db → Type 0 where
  here : Claims limit s s
  next :
      {t : Db}
      → Claims limit s t
      → (locked : String → Bool) (id_before : String → String → Bool) (token : String)
        (lease now : ℕ)
      → Claims limit s (claim_run locked id_before token lease limit now t).1

-- A row of the Run has no attempts left in any phase that it is in.
pub record IsUsedUp (limit : ℕ) (id : String) (r : RunRow) : Type 0 where
  pub spent : (r.id == id) ≡ true → has_attempts limit r ≡ false

abbrev leased_rows : ℕ → String → ℕ → Option RunRow → List RunRow → List RunRow
leased_rows now token seconds none rows = rows
leased_rows now token seconds (some c) rows =
    update_where (λ row. row.id == c.id) (lease_run now token seconds) rows

rows_after :
    (now : ℕ) (token : String) (seconds : ℕ) (o : Option RunRow) (db s : Db)
    → (Tx.finish db (lease_run_candidate now token seconds o s)).1.runs
      ≡ leased_rows now token seconds o s.runs
unfolding lease_run_candidate mark_delegation_running start_delegation insert_run_event update_runs
    update_delegations insert_run_events insert_delegation_events pure query
rows_after now token seconds none db s = refl
rows_after now token seconds (some c) db s = elim (Bool-cases (c.execution_plane == "internal")) [
  | inl e ↦ rw e refl
  | inr e ↦ rw e refl
]

module _ (locked : String → Bool) (id_before : String → String → Bool) (token : String)
    (lease limit now : ℕ) (id : String) (db : Db) where
  abbrev claimed_here : Option RunRow
  claimed_here =
      run_candidate (after_expiry locked id_before token lease limit now db) locked limit now

  resumed-IsUsedUp :
      All (IsUsedUp limit id) db.runs
      → All (IsUsedUp limit id) (after_expiry locked id_before token lease limit now db).runs
  unfolding expire_tool_approvals update_calls update_approvals update_runs insert_tool_events
      insert_run_events transact
  resumed-IsUsedUp h =
      All-update_where (IsUsedUp limit id)
        (is_resumed
          (denied_calls (overdue locked id_before 100 now db.tool_approvals) db.tool_calls))
        (resume now) db.runs (λ r _ u. record { spent = u.spent }) h

  -- A claimed row is not one of the Run that has no attempts left.
  claimed_other :
      (c : RunRow) → All (IsUsedUp limit id) db.runs → claimed_here ≡ some c → (c.id == id) ≡ false
  claimed_other c h chosen =
      let u =
        candidate-All locked id_before token lease limit now db (IsUsedUp limit id) c
          (λ r u. record { spent = u.spent }) h chosen in
      let due = claimed_due locked id_before token lease limit now db c chosen in
      elim (Bool-cases (c.id == id)) [
        | inl e ↦ (let n = u.spent e in absurd ground arith)
        | inr e ↦ e
      ]

  leased-IsUsedUp :
      (o : Option RunRow)
      → claimed_here ≡ o
      → All (IsUsedUp limit id) db.runs
      → All (IsUsedUp limit id) (
          leased_rows now token
            (duration_seconds lease)
            o
            (after_expiry locked id_before token lease limit now db).runs)
  leased-IsUsedUp none chosen h = resumed-IsUsedUp h
  leased-IsUsedUp (some c) chosen h =
      All-update_where (IsUsedUp limit id) (λ row. row.id == c.id)
        (lease_run now token (duration_seconds lease))
        (after_expiry locked id_before token lease limit now db).runs
        (λ r same u.
          let other = claimed_other c h chosen in
          record { spent = λ e. absurd ground (arith, eq_iff r.id c.id, eq_iff r.id id) })
        (resumed-IsUsedUp h)

  claim-IsUsedUp :
      All (IsUsedUp limit id) db.runs
      → All (IsUsedUp limit id) (claim_run locked id_before token lease limit now db).1.runs
  unfolding claim_run claim_run_tx lease_next_run transact query expire_tool_approvals update_calls
      update_approvals update_runs insert_tool_events insert_run_events
  claim-IsUsedUp h =
      subst (λ rows. All (IsUsedUp limit id) rows)
        (sym (
          rows_after now token (duration_seconds lease) claimed_here db
            (after_expiry locked id_before token lease limit now db)))
        (leased-IsUsedUp claimed_here refl h)

Claims-IsUsedUp :
    (limit : ℕ) (id : String) (s : Db) {t : Db}
    → Claims limit s t
    → All (IsUsedUp limit id) s.runs
    → All (IsUsedUp limit id) t.runs
Claims-IsUsedUp limit id s here h = h
Claims-IsUsedUp limit id s (next {t} before locked id_before token lease now) h =
    claim-IsUsedUp locked id_before token lease limit now id t (Claims-IsUsedUp limit id s before h)

-- A Run that has used up the attempts of its phase is never claimed, however many claims are made,
-- at whatever times and with whatever tokens, with the same limit.
pub exhausted_never_claimed :
    (limit : ℕ) (id : String) (s : Db) {t : Db}
    → Claims limit s t
    → All (IsUsedUp limit id) s.runs
    → (locked : String → Bool) (id_before : String → String → Bool) (token : String) (lease now : ℕ)
      (run : Run)
    → (claim_run locked id_before token lease limit now t).0 ≡ ok (some run)
    → (run.id == id) ≡ false
exhausted_never_claimed limit id s {t} claims h locked id_before token lease now run done =
    let (c, chosen, is_run) = claimed_row locked id_before token lease limit now t run done in
    let other =
      claimed_other locked id_before token lease limit now id t c
        (Claims-IsUsedUp limit id s claims h) chosen in
    rw is_run other
