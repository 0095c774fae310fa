-- ===== src/Action/Sound/Calls.antt =====
-- EnsureIntent and Approve of internal/action/store.go under the predicate of Action.Sound.Asked: the
-- approval that Approve adds is its caller's.
use open_im.Prelude.{
  ℕ, String, ◌≡◌, refl, true, ◌||◌, ◌&&◌, not, Option, none, some, List, ◌∷◌, arith, any, find,
  find-true, All-map, Bool-cases, inl, inr, ltb, trim_space, ◌==◌, eq_iff,
}
use open_im.Database.Tx
use open_im.Database.Tx.{Result, ok, err, ◌>>=◌, transact, pure, query, raise}
use open_im.Database.Tx.Frame.{Keeps, After, Keeps-transact, Keeps-bind, Keeps-query}
use open_im.Action.Tables.{
  IntentRow, IntentState, ActionDb, update_intents, insert_action_approval, insert_execution,
}
use open_im.Action.Store.{
  IntentRequest, Principal, ApprovalResult, ensure_intent, ensure_intent_tx, intent_or,
  approve_action, approve_tx, approve_row, approve_intent, start_execution, log_approved,
  set_intent, new_approval, new_execution, is_unsupported, flatten, is_pending_intent,
  intent_expired,
}
use open_im.Action.Sound.Asked.{
  Call, answers, IsAsked, asked_rules, IsAsked-approval, IsAsked-execution,
}

module _ {calls : List Call} {key : Option String} where
  intent_or-IsAsked :
      (id : String) (now : ℕ) (request : IntentRequest) (payload digest : String)
      (o : Option IntentRow)
      → Keeps (IsAsked calls key) (intent_or id now request payload digest o)
  unfolding intent_or
  intent_or-IsAsked id now request payload digest (some row) = search asked_rules depth 5
  intent_or-IsAsked id now request payload digest none = search asked_rules depth 5

  pub ensure-IsAsked :
      (encode : String → String) (digest_of : String → String → String) (id : String) (now : ℕ)
      (request : IntentRequest) (db : ActionDb)
      → IsAsked calls key db
      → IsAsked calls key (ensure_intent encode digest_of id now request db).1
  unfolding ensure_intent ensure_intent_tx
  ensure-IsAsked encode digest_of id now request db h =
      let title = trim_space request.title in
      elim (Bool-cases (is_unsupported request.action_type title)) [
        | inl e ↦ rw e h
        | inr e ↦ rw e (
            Keeps-transact {P = IsAsked calls key}
              (ensure_intent_tx id now request (encode title)
                (digest_of request.action_type (encode title)))
              db (search (Keeps-bind, Keeps-query, intent_or-IsAsked) depth 5) h)
      ]

  log-IsAsked :
      (execution_id : String) (now : ℕ) (digest : String) (i : IntentRow)
      → Keeps (IsAsked calls key) (log_approved execution_id now digest i)
  unfolding log_approved
  log-IsAsked execution_id now digest i = search asked_rules depth 9

  start-IsAsked :
      (execution_id : String) (now : ℕ) (digest : String) (i : IntentRow)
      → Keeps (IsAsked calls key) (start_execution execution_id now digest i)
  unfolding start_execution
  start-IsAsked execution_id now digest i =
      Keeps-bind (insert_execution (new_execution execution_id now i)) _
        (IsAsked-execution (new_execution execution_id now i))
        (λ _. log-IsAsked execution_id now digest i)

  approve_intent-IsAsked :
      (approval_id execution_id : String) (now : ℕ) (digest : String) (i : IntentRow)
      → any (answers (new_approval approval_id digest i)) calls ≡ true
      → Keeps (IsAsked calls key) (approve_intent approval_id execution_id now digest i)
  unfolding approve_intent
  approve_intent-IsAsked approval_id execution_id now digest i call =
      Keeps-bind (insert_action_approval (new_approval approval_id digest i)) _
        (IsAsked-approval (new_approval approval_id digest i) call)
        (λ _. start-IsAsked execution_id now digest i)

-- The call that is being answered.
abbrev pub call_of : Principal → String → String → Call
call_of p intent_id digest = record { caller = p; intent_id = intent_id; digest = digest }

module _ {calls : List Call} {key : Option String} (approval_id execution_id : String) (now : ℕ)
    (p : Principal) (intent_id digest : String) where
  IsAsked-call :
      (db : ActionDb) → IsAsked calls key db → IsAsked (call_of p intent_id digest ∷ calls) key db
  IsAsked-call db h = record {
    asked =
        All-map (λ a. any (answers a) calls ≡ true)
          (λ a. any (answers a) (call_of p intent_id digest ∷ calls) ≡ true) db.approvals
          (λ a k. ground arith) h.asked;
    there = h.there;
  }

  -- Approve passes its guard only for the member of the intent, whose call this is.
  row-IsAsked :
      (o : Option IntentRow)
      → ((i : IntentRow) → o ≡ some i → (i.id == intent_id) ≡ true)
      → Keeps
          (IsAsked (call_of p intent_id digest ∷ calls) key)
          (approve_row approval_id execution_id now p digest o)
  unfolding approve_row raise
  row-IsAsked none named = search asked_rules depth 5
  row-IsAsked (some i) named =
      elim (Bool-cases (not (i.tenant_id == p.tenant_id) || not (i.requested_by == p.member_id))) [
        | inl e ↦ rw e (record { at = λ db h. tt })
        | inr e ↦ elim (Bool-cases (digest == "" || not (digest == i.payload_digest))) [
          | inl d ↦ rw (e, d) (record { at = λ db h. tt })
          | inr d ↦ elim (Bool-cases (ltb i.expires_at now && is_pending_intent i.state)) [
            | inl late ↦ rw (e, d, late) expired
            | inr timely ↦ elim (Bool-cases (not (is_pending_intent i.state))) [
              | inl old ↦ rw (e, d, timely, old) (record { at = λ db h. h })
              | inr new ↦
                  rw (e, d, timely, new)
                    (approve_intent-IsAsked approval_id execution_id now digest i
                      (its_call (ground arith) (ground arith)))
            ]
          ]
        ]
      ]
    where
      expired : Keeps (IsAsked (call_of p intent_id digest ∷ calls) key) (
          update_intents (λ row. row.id == i.id) (set_intent IntentState.expired now) >>= λ _.
          pure {A = Result ApprovalResult} (err intent_expired))
      expired = search asked_rules depth 5

      its_call :
          (i.tenant_id == p.tenant_id) ≡ true
          → (i.requested_by == p.member_id) ≡ true
          → any (answers (new_approval approval_id digest i)) (call_of p intent_id digest ∷ calls)
            ≡ true
      its_call tenant member =
          rw
            (
              (eq_iff i.tenant_id p.tenant_id).0 tenant,
              (eq_iff i.requested_by p.member_id).0 member,
              (eq_iff i.id intent_id).0 (named i refl),
              (eq_iff p.tenant_id p.tenant_id).1 refl,
              (eq_iff p.member_id p.member_id).1 refl,
              (eq_iff intent_id intent_id).1 refl,
              (eq_iff digest digest).1 refl,
            )
            refl

  pub approve-IsAsked :
      (db : ActionDb)
      → IsAsked calls key db
      → IsAsked
          (call_of p intent_id digest ∷ calls)
          key
          (approve_action approval_id execution_id now p intent_id digest db).1
  unfolding approve_action approve_tx query transact
  approve-IsAsked db h =
      let later = IsAsked-call db h in
      let o = find (λ (i : IntentRow). i.id == intent_id) db.intents in
      flattened later (approve_row approval_id execution_id now p digest o db) (
        (row-IsAsked o
            (λ i e. find-true (λ (i : IntentRow). i.id == intent_id) db.intents {x = i} e)).at
          db later)
    where
      flattened :
          IsAsked (call_of p intent_id digest ∷ calls) key db
          → (r : Result (Result ApprovalResult × ActionDb))
          → After (IsAsked (call_of p intent_id digest ∷ calls) key) r
          → IsAsked (call_of p intent_id digest ∷ calls) key (flatten (Tx.finish db r)).1
      flattened later (ok (a, t)) k = k
      flattened later (err e) k = later
