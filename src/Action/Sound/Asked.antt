-- ===== src/Action/Sound/Asked.antt =====
-- Who asked for an approval, and the statements of internal/action under that question.
use open_im.Prelude.{
  String, ◌≡◌, Bool, true, ◌||◌, ◌&&◌, Option, none, some, List, [], ◌∷◌, ◌++◌, any, any-append,
  All, All-append, Bool-cases, inl, inr, ltb, eqb, rune_count, ◌==◌,
}
use open_im.Database.{RunRow}
use open_im.Database.Tx.Frame.{
  Keeps, After, Keeps-pure, Keeps-raise, Keeps-query, Keeps-if, Keeps-bind, Keeps-require_one,
  Keeps-transact,
}
use open_im.Action.Tables.{
  IntentRow, ApprovalRow, ExecutionRow, TicketRow, ActionEvent, ActionDb, update_intents,
  update_executions, update_action_runs, insert_intent, insert_action_approval, insert_execution,
  insert_ticket, insert_action_event,
}
use open_im.Action.Store.{Principal}
use open_im.Action.Sound.{HasKey, has_key, KeepsKeys}
use open_im.Action.Sound.Statements.{HasKey-update_where}

-- A call of Approve, by the member of a tenant, for an intent and a digest.
pub record Call : Type 0 where
  pub caller : Principal
  pub intent_id : String
  pub digest : String

-- The approval is that of the call: in the caller's tenant, by the caller, on the intent and digest.
abbrev pub answers : ApprovalRow → Call → Bool
answers a c =
    c.caller.tenant_id == a.tenant_id
    && c.caller.member_id == a.approved_by
    && c.intent_id == a.intent_id
    && c.digest == a.payload_digest

pub record IsAsked (calls : List Call) (key : Option String) (db : ActionDb) : Type 0 where
  pub asked : All (λ a. any (answers a) calls ≡ true) db.approvals
  pub there : HasKey key db.executions

module _ {calls : List Call} {key : Option String} where
  pub IsAsked-executions :
      (p : ExecutionRow → Bool) (f : ExecutionRow → ExecutionRow)
      → KeepsKeys f
      → Keeps (IsAsked calls key) (update_executions p f)
  unfolding update_executions
  IsAsked-executions p f k = record {
    at = λ db h. record {
      asked = h.asked;
      there = HasKey-update_where key p f db.executions k h.there;
    };
  }

  pub IsAsked-intents :
      (p : IntentRow → Bool) (f : IntentRow → IntentRow)
      → Keeps (IsAsked calls key) (update_intents p f)
  unfolding update_intents
  IsAsked-intents p f = record { at = λ db h. record { asked = h.asked; there = h.there } }

  pub IsAsked-runs :
      (p : RunRow → Bool) (f : RunRow → RunRow) → Keeps (IsAsked calls key) (update_action_runs p f)
  unfolding update_action_runs
  IsAsked-runs p f = record { at = λ db h. record { asked = h.asked; there = h.there } }

  pub IsAsked-event : (row : ActionEvent) → Keeps (IsAsked calls key) (insert_action_event row)
  unfolding insert_action_event
  IsAsked-event row = record { at = λ db h. record { asked = h.asked; there = h.there } }

  pub IsAsked-intent : (row : IntentRow) → Keeps (IsAsked calls key) (insert_intent row)
  unfolding insert_intent
  IsAsked-intent row = record {
    at = λ db h. elim (Bool-cases (any (λ (i : IntentRow). i.id == row.id) db.intents)) [
      | inl e ↦ rw e tt
      | inr e ↦ rw e (record { asked = h.asked; there = h.there })
    ];
  }

  pub IsAsked-ticket : (row : TicketRow) → Keeps (IsAsked calls key) (insert_ticket row)
  unfolding insert_ticket
  IsAsked-ticket row = record { at = λ db h. kept db h }
    where
      kept :
          (db : ActionDb) → IsAsked calls key db → After (IsAsked calls key) (insert_ticket row db)
      kept db h =
          elim (Bool-cases (eqb (rune_count row.title) 0 || ltb 200 (rune_count row.title))) [
            | inl e ↦ rw e tt
            | inr e ↦
                elim (Bool-cases
                  (any (λ (t : TicketRow). t.idempotency_key == row.idempotency_key) db.tickets)) [
                    | inl old ↦ rw (e, old) h
                    | inr new ↦
                        elim (Bool-cases (any (λ (t : TicketRow). t.id == row.id) db.tickets)) [
                          | inl taken ↦ rw (e, new, taken) tt
                          | inr free ↦
                              rw (e, new, free) (record { asked = h.asked; there = h.there })
                        ]
                  ]
          ]

HasKey-append :
    (key : Option String) (es : List ExecutionRow) (e : ExecutionRow)
    → HasKey key es
    → HasKey key (es ++ e ∷ [])
HasKey-append none es e h = tt
HasKey-append (some key) es e h = any-append (has_key key) es (e ∷ []) h

module _ {calls : List Call} {key : Option String} where
  pub IsAsked-execution : (row : ExecutionRow) → Keeps (IsAsked calls key) (insert_execution row)
  unfolding insert_execution
  IsAsked-execution row = record {
    at = λ db h.
        elim (Bool-cases (
          any
            (λ (e : ExecutionRow).
              e.id == row.id
              || e.intent_id == row.intent_id
              || e.idempotency_key == row.idempotency_key)
            db.executions)) [
              | inl e ↦ rw e tt
              | inr e ↦
                  rw e (record {
                    asked = h.asked;
                    there = HasKey-append key db.executions row h.there;
                  })
            ];
  }

  -- The one statement that adds an approval adds that of a call.
  pub IsAsked-approval :
      (a : ApprovalRow)
      → any (answers a) calls ≡ true
      → Keeps (IsAsked calls key) (insert_action_approval a)
  unfolding insert_action_approval
  IsAsked-approval a call = record {
    at = λ db h.
        elim (Bool-cases
          (any (λ (b : ApprovalRow). b.id == a.id || b.intent_id == a.intent_id) db.approvals)) [
            | inl e ↦ rw e tt
            | inr e ↦ rw e (record {
              asked =
                  All-append (λ b. any (answers b) calls ≡ true) db.approvals (a ∷ []) h.asked
                    (call, tt);
              there = h.there;
            })
          ];
  }

pub ruleset asked_rules = (
  Keeps-pure, Keeps-raise, Keeps-query, Keeps-if, Keeps-bind, Keeps-require_one, IsAsked-executions,
  IsAsked-intents, IsAsked-runs, IsAsked-event, IsAsked-intent, IsAsked-ticket, IsAsked-execution,
)
