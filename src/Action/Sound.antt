-- ===== src/Action/Sound.antt =====
-- The invariant of internal/action, and the statements that keep it.
pub mod Statements
pub mod Requests
pub mod Asked
pub mod Calls
pub mod Executions
pub mod World
pub mod Steps
pub mod Rounds
use open_im.Prelude.{
  ℕ, String, ◌≡◌, refl, Bool, true, false, ◌||◌, ◌&&◌, Option, none, some, List, [], ◌∷◌, ◌++◌,
  arith, any, All, All-append, All-map, All-update_where, any-update_where, any-append,
  any-append_last, update_where, append, Bool-cases, inl, inr, if◌then◌else◌, eqb, ltb, rune_count,
  ◌==◌, eq_iff, sym,
}
use mathlib.Core.Path.{subst}
use open_im.Database.{RunRow}
use open_im.Database.Tx.Frame.{Keeps, After}
use open_im.Action.Tables.{
  IntentRow, ApprovalRow, ExecutionRow, TicketRow, ActionEvent, ActionDb, update_intents,
  update_executions, update_action_runs, insert_intent, insert_ticket, insert_action_event,
}

-- An approval is the requester's, on the digest of the intent; an execution has an approval; a
-- ticket has an execution.
abbrev pub requests : ApprovalRow → IntentRow → Bool
requests a i =
    i.id == a.intent_id && i.requested_by == a.approved_by && i.payload_digest == a.payload_digest

abbrev pub allows : ExecutionRow → ApprovalRow → Bool
allows e a = a.intent_id == e.intent_id

abbrev pub has_key : String → ExecutionRow → Bool
has_key key e = e.idempotency_key == key

abbrev pub same_key : String → TicketRow → Bool
same_key key t = t.idempotency_key == key

abbrev pub HasUniqueKeys : List TicketRow → Type 0
HasUniqueKeys [] = Unit
HasUniqueKeys (t ∷ ts) = (any (same_key t.idempotency_key) ts ≡ false) × HasUniqueKeys ts

pub record IsSound (db : ActionDb) : Type 0 where
  pub requested : All (λ a. any (requests a) db.intents ≡ true) db.approvals
  pub allowed : All (λ e. any (allows e) db.approvals ≡ true) db.executions
  pub keyed : All (λ e. (e.idempotency_key == append "intent:" e.intent_id) ≡ true) db.executions
  pub made : All (λ t. any (has_key t.idempotency_key) db.executions ≡ true) db.tickets
  pub once : HasUniqueKeys db.tickets

-- The same, with an execution for the key that a round is about, where it is about one.
abbrev pub HasKey : Option String → List ExecutionRow → Type 0
HasKey none es = Unit
HasKey (some key) es = any (has_key key) es ≡ true

pub record IsSoundFor (key : Option String) (db : ActionDb) : Type 0 where
  pub sound : IsSound db
  pub there : HasKey key db.executions

-- What the updates of the executor and of Approve leave alone.
pub record KeepsKeys (f : ExecutionRow → ExecutionRow) : Type 0 where
  pub intent : (e : ExecutionRow) → (f e).intent_id ≡ e.intent_id
  pub key : (e : ExecutionRow) → (f e).idempotency_key ≡ e.idempotency_key

pub record KeepsRequest (f : IntentRow → IntentRow) : Type 0 where
  pub id : (i : IntentRow) → (f i).id ≡ i.id
  pub asker : (i : IntentRow) → (f i).requested_by ≡ i.requested_by
  pub digest : (i : IntentRow) → (f i).payload_digest ≡ i.payload_digest

pub IsSound-executions :
    (p : ExecutionRow → Bool) (f : ExecutionRow → ExecutionRow) (db : ActionDb)
    → KeepsKeys f
    → IsSound db
    → IsSound (record db { executions = update_where p f db.executions })
IsSound-executions p f db k s = record {
  requested = s.requested;
  allowed =
      All-update_where (λ e. any (allows e) db.approvals ≡ true) p f db.executions
        (λ e _ h. rw (k.intent e) h) s.allowed;
  keyed =
      All-update_where (λ e. (e.idempotency_key == append "intent:" e.intent_id) ≡ true) p f
        db.executions (λ e _ h. rw (k.intent e, k.key e) h) s.keyed;
  made =
      All-map (λ t. any (has_key t.idempotency_key) db.executions ≡ true)
        (λ t. any (has_key t.idempotency_key) (update_where p f db.executions) ≡ true) db.tickets
        (λ t h.
          rw
            (any-update_where (has_key t.idempotency_key) p f db.executions
              (λ e. rw (k.key e) refl))
            h)
        s.made;
  once = s.once;
}

pub IsSound-intents :
    (p : IntentRow → Bool) (f : IntentRow → IntentRow) (db : ActionDb)
    → KeepsRequest f
    → IsSound db
    → IsSound (record db { intents = update_where p f db.intents })
IsSound-intents p f db k s = record {
  requested =
      All-map (λ a. any (requests a) db.intents ≡ true)
        (λ a. any (requests a) (update_where p f db.intents) ≡ true) db.approvals
        (λ a h.
          rw
            (any-update_where (requests a) p f db.intents
              (λ i. rw (k.id i, k.asker i, k.digest i) refl))
            h)
        s.requested;
  allowed = s.allowed;
  keyed = s.keyed;
  made = s.made;
  once = s.once;
}

-- A ticket with a key that no ticket has.
HasUniqueKeys-append :
    (ts : List TicketRow) (t : TicketRow)
    → HasUniqueKeys ts
    → any (same_key t.idempotency_key) ts ≡ false
    → HasUniqueKeys (ts ++ t ∷ [])
HasUniqueKeys-append [] t u h = (refl, tt)
HasUniqueKeys-append (s ∷ ts) t (new, u) h =
    (still_new ts new, HasUniqueKeys-append ts t u (ground arith))
  where
    differs : (s.idempotency_key == t.idempotency_key) ≡ false
    differs = ground arith

    still_new :
        (us : List TicketRow)
        → any (same_key s.idempotency_key) us ≡ false
        → any (same_key s.idempotency_key) (us ++ t ∷ []) ≡ false
    still_new [] e = ground (
      arith,
      eq_iff s.idempotency_key t.idempotency_key,
      eq_iff t.idempotency_key s.idempotency_key,
      differs,
    )
    still_new (v ∷ us) e = ground (arith, still_new us)

pub IsSound-ticket :
    (t : TicketRow) (db : ActionDb)
    → any (same_key t.idempotency_key) db.tickets ≡ false
    → any (has_key t.idempotency_key) db.executions ≡ true
    → IsSound db
    → IsSound (record db { tickets = db.tickets ++ t ∷ [] })
IsSound-ticket t db new there s = record {
  requested = s.requested;
  allowed = s.allowed;
  keyed = s.keyed;
  made =
      All-append (λ u. any (has_key u.idempotency_key) db.executions ≡ true) db.tickets (t ∷ [])
        s.made (there, tt);
  once = HasUniqueKeys-append db.tickets t s.once new;
}
