-- ===== src/Action/Sound/Requests.antt =====
-- EnsureIntent and Approve of internal/action/store.go keep the invariant.
use open_im.Prelude.{
  ℕ, String, ◌≡◌, refl, sym, true, ◌||◌, ◌&&◌, not, Option, none, some, [], ◌∷◌, ◌++◌, arith, any,
  find, any-append, any-append_last, any_of_find, All-append, All-map, Bool-cases, inl, inr, ltb,
  append, trim_space, ◌==◌, eq_iff,
}
use open_im.Database.Tx
use open_im.Database.Tx.{Result, ok, err, ◌>>=◌, ◌>>◌, transact, pure, query, raise}
use open_im.Database.Tx.Frame.{
  Keeps, After, After-then, Keeps-transact, Keeps-bind, Keeps-if, Keeps-pure, Keeps-raise,
  Keeps-query,
}
use open_im.Action.Tables.{
  IntentRow, IntentState, ApprovalRow, ExecutionRow, ActionDb, update_intents, insert_intent,
  insert_action_approval, insert_execution,
}
use open_im.Action.Store.{
  IntentRequest, Principal, ApprovalResult, ensure_intent, ensure_intent_tx, intent_or,
  approve_action, approve_tx, approve_row, approve_intent, start_execution, log_approved,
  new_approval, set_intent, is_unsupported, new_intent, new_execution, flatten, is_pending_intent,
  intent_expired,
}
use open_im.Action.Sound.{IsSound, IsSoundFor, has_key, requests, allows}
use open_im.Action.Sound.Statements.{action_rules}

-- EnsureIntent adds an intent, or nothing.
insert_intent-IsSound :
    (row : IntentRow) (db : ActionDb) → IsSound db → After IsSound (insert_intent row db)
unfolding insert_intent
insert_intent-IsSound row db h =
    elim (Bool-cases (any (λ (i : IntentRow). i.id == row.id) db.intents)) [
      | inl e ↦ rw e tt
      | inr e ↦ rw e (record {
        requested =
            All-map (λ a. any (requests a) db.intents ≡ true)
              (λ a. any (requests a) (db.intents ++ row ∷ []) ≡ true) db.approvals
              (λ a k. any-append (requests a) db.intents (row ∷ []) k) h.requested;
        allowed = h.allowed;
        keyed = h.keyed;
        made = h.made;
        once = h.once;
      })
    ]

module _ (encode : String → String) (digest_of : String → String → String) where
  intent_or-Keeps :
      (id : String) (now : ℕ) (request : IntentRequest) (payload digest : String)
      (o : Option IntentRow)
      → Keeps IsSound (intent_or id now request payload digest o)
  unfolding intent_or
  intent_or-Keeps id now request payload digest (some row) =
      search (Keeps-if, Keeps-pure, Keeps-raise)
  intent_or-Keeps id now request payload digest none =
      Keeps-bind (insert_intent (new_intent id now request payload digest)) _
        (record {
          at = λ db h. insert_intent-IsSound (new_intent id now request payload digest) db h;
        })
        (λ _. Keeps-pure _)

  pub ensure-IsSound :
      (id : String) (now : ℕ) (request : IntentRequest) (db : ActionDb)
      → IsSound db
      → IsSound (ensure_intent encode digest_of id now request db).1
  unfolding ensure_intent ensure_intent_tx
  ensure-IsSound id now request db h =
      let title = trim_space request.title in
      elim (Bool-cases (is_unsupported request.action_type title)) [
        | inl e ↦ rw e h
        | inr e ↦ rw e (
            Keeps-transact {P = IsSound}
              (ensure_intent_tx id now request (encode title)
                (digest_of request.action_type (encode title)))
              db (search (Keeps-bind, Keeps-query, intent_or-Keeps) depth 5) h)
      ]

-- Approve adds an approval of the requester's, and then its execution.
approval-IsSound :
    (a : ApprovalRow) (db : ActionDb)
    → any (requests a) db.intents ≡ true
    → IsSound db
    → IsSound (record db { approvals = db.approvals ++ a ∷ [] })
approval-IsSound a db asked s = record {
  requested =
      All-append (λ b. any (requests b) db.intents ≡ true) db.approvals (a ∷ []) s.requested
        (asked, tt);
  allowed =
      All-map (λ e. any (allows e) db.approvals ≡ true)
        (λ e. any (allows e) (db.approvals ++ a ∷ []) ≡ true) db.executions
        (λ e k. any-append (allows e) db.approvals (a ∷ []) k) s.allowed;
  keyed = s.keyed;
  made = s.made;
  once = s.once;
}

execution-IsSound :
    (e : ExecutionRow) (db : ActionDb)
    → any (allows e) db.approvals ≡ true
    → (e.idempotency_key == append "intent:" e.intent_id) ≡ true
    → IsSound db
    → IsSound (record db { executions = db.executions ++ e ∷ [] })
execution-IsSound e db there key s = record {
  requested = s.requested;
  allowed =
      All-append (λ x. any (allows x) db.approvals ≡ true) db.executions (e ∷ []) s.allowed
        (there, tt);
  keyed =
      All-append (λ x. (x.idempotency_key == append "intent:" x.intent_id) ≡ true) db.executions
        (e ∷ []) s.keyed (key, tt);
  made =
      All-map (λ t. any (has_key t.idempotency_key) db.executions ≡ true)
        (λ t. any (has_key t.idempotency_key) (db.executions ++ e ∷ []) ≡ true) db.tickets
        (λ t k. any-append (has_key t.idempotency_key) db.executions (e ∷ []) k) s.made;
  once = s.once;
}

-- A table with an approval of the intent.
record Allowed (intent_id : String) (db : ActionDb) : Type 0 where
  sound : IsSound db
  there : any (λ (a : ApprovalRow). a.intent_id == intent_id) db.approvals ≡ true

insert_approval-Allowed :
    (a : ApprovalRow) (db : ActionDb)
    → any (requests a) db.intents ≡ true
    → IsSound db
    → After (Allowed a.intent_id) (insert_action_approval a db)
unfolding insert_action_approval
insert_approval-Allowed a db asked s =
    elim (Bool-cases
      (any (λ (b : ApprovalRow). b.id == a.id || b.intent_id == a.intent_id) db.approvals)) [
        | inl e ↦ rw e tt
        | inr e ↦ rw e (record {
          sound = approval-IsSound a db asked s;
          there =
              any-append_last (λ (b : ApprovalRow). b.intent_id == a.intent_id) db.approvals a
                ((eq_iff a.intent_id a.intent_id).1 refl);
        })
      ]

insert_execution-IsSound :
    (x : ExecutionRow) (db : ActionDb)
    → (x.idempotency_key == append "intent:" x.intent_id) ≡ true
    → Allowed x.intent_id db
    → After (IsSoundFor none) (insert_execution x db)
unfolding insert_execution
insert_execution-IsSound x db key h =
    elim (Bool-cases (
      any
        (λ (e : ExecutionRow).
          e.id == x.id || e.intent_id == x.intent_id || e.idempotency_key == x.idempotency_key)
        db.executions)) [
          | inl e ↦ rw e tt
          | inr e ↦ rw e (record { sound = execution-IsSound x db h.there key h.sound; there = tt })
        ]

module _ (execution_id : String) (now : ℕ) (digest : String) (i : IntentRow) where
  log-Keeps : Keeps (IsSoundFor none) (log_approved execution_id now digest i)
  unfolding log_approved
  log-Keeps = search action_rules depth 9

  approve_intent-IsSound :
      (approval_id : String) (db : ActionDb)
      → any (requests (new_approval approval_id digest i)) db.intents ≡ true
      → IsSound db
      → After (IsSoundFor none) (approve_intent approval_id execution_id now digest i db)
  unfolding approve_intent start_execution
  approve_intent-IsSound approval_id db asked s =
      After-then (Allowed i.id) (IsSoundFor none) _
        (insert_action_approval (new_approval approval_id digest i)) db
        (insert_approval-Allowed (new_approval approval_id digest i) db asked s)
        (λ _ t h.
          After-then (IsSoundFor none) (IsSoundFor none) _
            (insert_execution (new_execution execution_id now i)) t
            (insert_execution-IsSound (new_execution execution_id now i) t
              ((eq_iff (append "intent:" i.id) (append "intent:" i.id)).1 refl) h)
            (λ _ u k. log-Keeps.at u k))

module _ (approval_id execution_id : String) (now : ℕ) (p : Principal) (digest : String) where
  -- The row that was read is one of the table, so the approval is its requester's.
  approve_row-IsSound :
      (db : ActionDb) (intent_id : String) (o : Option IntentRow)
      → find (λ (i : IntentRow). i.id == intent_id) db.intents ≡ o
      → IsSound db
      → After (IsSoundFor none) (approve_row approval_id execution_id now p digest o db)
  unfolding approve_row raise
  approve_row-IsSound db intent_id none found s = tt
  approve_row-IsSound db intent_id (some i) found s =
      elim (Bool-cases (not (i.tenant_id == p.tenant_id) || not (i.requested_by == p.member_id))) [
        | inl e ↦ rw e tt
        | inr e ↦ elim (Bool-cases (digest == "" || not (digest == i.payload_digest))) [
          | inl d ↦ rw (e, d) tt
          | inr d ↦ elim (Bool-cases (ltb i.expires_at now && is_pending_intent i.state)) [
            | inl late ↦ rw (e, d, late) (expired.at db (record { sound = s; there = tt }))
            | inr timely ↦ elim (Bool-cases (not (is_pending_intent i.state))) [
              | inl old ↦ rw (e, d, timely, old) (record { sound = s; there = tt })
              | inr new ↦
                  rw (e, d, timely, new)
                    (approve_intent-IsSound execution_id now digest i approval_id db
                      (asked (ground arith)) s)
            ]
          ]
        ]
      ]
    where
      expired : Keeps (IsSoundFor none) (
          update_intents (λ row. row.id == i.id) (set_intent IntentState.expired now) >>= λ _.
          pure {A = Result ApprovalResult} (err intent_expired))
      expired = search action_rules depth 5

      asked :
          (digest == i.payload_digest) ≡ true
          → any (requests (new_approval approval_id digest i)) db.intents ≡ true
      asked same =
          any_of_find (λ (j : IntentRow). j.id == intent_id)
            (requests (new_approval approval_id digest i)) db.intents found
            (rw ((eq_iff i.id i.id).1 refl, (eq_iff i.requested_by i.requested_by).1 refl)
              ((eq_iff i.payload_digest digest).1 (sym ((eq_iff digest i.payload_digest).0 same))))

  pub approve-IsSound :
      (intent_id : String) (db : ActionDb)
      → IsSound db
      → IsSound (approve_action approval_id execution_id now p intent_id digest db).1
  unfolding approve_action approve_tx query transact
  approve-IsSound intent_id db s =
      flattened
        (approve_row approval_id execution_id now p digest
          (find (λ (i : IntentRow). i.id == intent_id) db.intents) db)
        (approve_row-IsSound db intent_id (find (λ (i : IntentRow). i.id == intent_id) db.intents)
          refl s)
    where
      flattened :
          (r : Result (Result ApprovalResult × ActionDb))
          → After (IsSoundFor none) r
          → IsSound (flatten (Tx.finish db r)).1
      flattened (ok (a, t)) h = h.sound
      flattened (err e) h = s
