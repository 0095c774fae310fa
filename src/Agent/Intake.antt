-- ===== src/Agent/Intake.antt =====
-- What Enqueue of internal/agent/store.go promises of an event that comes again.
use open_im.Prelude.{
  ℕ, String, ◌≡◌, ◌∙◌, ap, sym, refl, Bool, true, false, Option, none, some, List, [], ◌∷◌, ◌++◌,
  arith, any, find, find-append_none, ◌&&◌, take, if◌then◌else◌, ◌==◌, eq_iff, Bool-cases, inl, inr,
}
use mathlib.Core.Path.{subst}
use open_im.Database.{Db, RunRow, LaneRow, MemberRow}
use open_im.Database.Tx.{ok, transact, query, pure, update_lanes, insert_run_events}
use open_im.Database.Tx.Tools.{insert_run, insert_lane, insert_rejection}
use open_im.Database.Tx.Results.{transact-eq-ok}
use open_im.Agent.Resolve.{Source, Trigger, EnqueueResult, ResolvedTrigger, resolve, reason_of}
use open_im.Agent.Enqueue.{
  reject_enqueue_tx, append_run, insert_at_end, enqueue_one, is_lane_of, sequence_of,
  enqueue_resolved, enqueue_new, enqueue_tx, enqueue, new_run,
}

abbrev of_event : Trigger → RunRow → Bool
of_event t run = run.source_event_id == t.event_id

-- The Run that a result names is the event's.
abbrev HasRun : Trigger → EnqueueResult → Db → Type 0
HasRun t r db = (row : RunRow) × (find (of_event t) db.runs ≡ some row) × (row.id ≡ r.run_id)

no_run :
    (source : Source) (event_id reason : String) (s : Db) {r : EnqueueResult} {u : Db}
    → reject_enqueue_tx source event_id reason s ≡ ok (r, u)
    → r.run_id ≡ ""
unfolding reject_enqueue_tx insert_rejection
no_run source event_id reason s h = ground arith

append_run-eq-ok :
    (id : String) (now : ℕ) (t : Trigger) (x : ResolvedTrigger) (prompt : String)
    (lane : Option LaneRow) (repeated : Bool) (s : Db) {r : EnqueueResult} {u : Db}
    → append_run id now t x prompt lane repeated s ≡ ok (r, u)
    → (r.run_id ≡ id) × (u.runs ≡ s.runs ++ new_run id now t x prompt (sequence_of lane) ∷ [])
unfolding append_run insert_run insert_lane insert_run_events update_lanes
append_run-eq-ok id now t x prompt none true s h = absurd cc
append_run-eq-ok id now t x prompt (some l) true s h = absurd cc
append_run-eq-ok id now t x prompt none false s h = (ground arith, ground arith)
append_run-eq-ok id now t x prompt (some l) false s h = (ground arith, ground arith)

module _ (id : String) (now : ℕ) (source : Source) (t : Trigger) (s : Db) where
  one-HasRun :
      (x : ResolvedTrigger) (prompt : String) {r : EnqueueResult} {u : Db}
      → find (of_event t) s.runs ≡ none
      → enqueue_one id now source t x prompt s ≡ ok (r, u)
      → (r.run_id == "") ≡ false
      → HasRun t r u
  unfolding enqueue_one insert_at_end
  one-HasRun x prompt {r} {u} fresh h named = elim (Bool-cases (reason_of x prompt == "")) [
    | inr e ↦
        let nothing = no_run source t.event_id (reason_of x prompt) s (rw e at h) in
        absurd (cc (rw nothing at named))
    | inl e ↦
        let lane = find (is_lane_of t) s.lanes in
        let (its_id, runs) =
          append_run-eq-ok id now t x prompt lane (any (λ (run : RunRow). run.id == id) s.runs) s
            (rw e at h) in
        let row = new_run id now t x prompt (sequence_of lane) in
        (
          row,
          ap (find (of_event t)) runs
              ∙ find-append_none (of_event t) s.runs (row ∷ []) fresh
              ∙ rw ((eq_iff t.event_id t.event_id).1 refl) refl,
          sym its_id,
        )
  ]

  resolved-HasRun :
      (xs : List ResolvedTrigger) {r : EnqueueResult} {u : Db}
      → find (of_event t) s.runs ≡ none
      → enqueue_resolved id now source t xs s ≡ ok (r, u)
      → (r.run_id == "") ≡ false
      → HasRun t r u
  unfolding enqueue_resolved pure
  resolved-HasRun [] {r} fresh h named =
      let nothing : r.run_id ≡ "" = ground arith in absurd (cc (rw nothing at named))
  resolved-HasRun (x ∷ []) fresh h named = one-HasRun x _ fresh h named
  resolved-HasRun (x ∷ y ∷ ys) {r} fresh h named =
      let nothing = no_run source t.event_id "ambiguous_trigger" s h in
      absurd (cc (rw nothing at named))

  new-HasRun :
      (o : Option RunRow) {r : EnqueueResult} {u : Db}
      → find (of_event t) s.runs ≡ o
      → enqueue_new id now source t o s ≡ ok (r, u)
      → (r.run_id == "") ≡ false
      → HasRun t r u
  unfolding enqueue_new pure query
  new-HasRun (some run) {r} {u} found h named =
      let same : s ≡ u = cc in
      let its_id : run.id ≡ r.run_id = ground arith in
      (run, subst (λ (d : Db). find (of_event t) d.runs ≡ some run) same found, its_id)
  new-HasRun none {r} {u} fresh h named =
      member
        (any (λ (m : MemberRow). m.id == t.member_id && m.tenant_id == t.tenant_id && m.is_active)
          s.members)
        h
    where
      member :
          (active : Bool)
          → (if active
                then enqueue_resolved id now source t (take 2 (resolve s t.tenant_id t.mentions))
                else reject_enqueue_tx source t.event_id "member_inactive")
              s
            ≡ ok (r, u)
          → HasRun t r u
      member true k = resolved-HasRun (take 2 (resolve s t.tenant_id t.mentions)) fresh k named
      member false k =
          let nothing = no_run source t.event_id "member_inactive" s k in
          absurd (cc (rw nothing at named))

-- An event that comes again at once makes no second Run: when Enqueue has given a Run for it, an
-- Enqueue of the same trigger on the database that the first one left, whatever id is drawn, at
-- whatever time and from whatever source position, gives the same Run and leaves that database as
-- it is.
pub enqueue_again :
    (id id' : String) (now later : ℕ) (source source' : Source) (t : Trigger) (db : Db)
    (r : EnqueueResult)
    → (enqueue id now source t db).0 ≡ ok r
    → (r.run_id == "") ≡ false
    → enqueue id' later source' t (enqueue id now source t db).1
      ≡ (ok (record { run_id = r.run_id; rejection_reason = "" }), (enqueue id now source t db).1)
unfolding enqueue enqueue_tx enqueue_new query pure transact
enqueue_again id id' now later source source' t db r h named =
    let (u, done, is_u) = transact-eq-ok (enqueue_tx id now source t) db h in
    let (row, found, its_id) =
      new-HasRun id now source t db (find (of_event t) db.runs) refl done named in
    rw (is_u, found, its_id) refl
