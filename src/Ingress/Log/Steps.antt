-- ===== src/Ingress/Log/Steps.antt =====
-- The operations of internal/ingress/store.go as steps of the log.
use mathlib.Core.List.{map-append}
use mathlib.Core.Path.{subst}
use open_im.Prelude.{
  ℕ, String, ◌≡◌, refl, sym, ap, Bool, true, false, ◌&&◌, List, [], ◌∷◌, map, any, arith,
  update_where, update_where_none, Bool-cases, inl, inr, ◌==◌,
}
use open_im.Prelude.Decimal.{ℤ}
use open_im.Database.Tx.{ok, query, pure}
use open_im.Database.Tx.Frame.{Keeps, Keeps-pure, Keeps-bind, Keeps-require_one}
use open_im.Delivery.Statements.{is_live, duration_seconds}
use open_im.Ingress.Message.{IngressSource, IngressEvent}
use open_im.Ingress.Tables.{
  IngressRow, OutboxRow, IngressRejection, IngressDb, insert_message, insert_outbox,
  insert_ingress_rejection, update_outbox, clashes_with, same_source,
}
use open_im.Ingress.Store.{
  outbox_row, after_insert, ingest_event, claim_outbox_tx, mark_published_tx, release_outbox_tx,
  publish_row, holds_outbox,
}
use open_im.Ingress.Steps.{IngressSteps, IngressSteps-keep}
use open_im.Ingress.Log.{
  Entry, LogSteps, same, accepted, announced, entry_of, is_entry, log_of, IsKeyed, LogSteps-IsKeyed,
}
use open_im.Ingress.Log.Updates.{map-claim, map-release, map-publish}

-- The log has got from `a` to what the outbox holds.
record Refines (a : List Entry) (db : IngressDb) : Type 0 where
  steps : LogSteps a (log_of db)

module _ (a : List Entry) (keyed : IsKeyed a) where
  after : (log : List Entry) {b : List Entry} → log ≡ b → LogSteps a b → LogSteps a log
  after log e h = subst (LogSteps a) (sym e) h

  any-entry :
      (id : String) (os : List OutboxRow)
      → any (λ (o : OutboxRow). o.event_id == id) os ≡ false
      → any (is_entry id) (map entry_of os) ≡ false
  any-entry id [] h = refl
  any-entry id (o ∷ os) h = ground (arith, any-entry id os)

  step_insert :
      (now : ℕ) (tenant_id : String) (event : IngressEvent)
      → Keeps (Refines a) (insert_outbox (outbox_row now tenant_id event))
  unfolding insert_outbox
  step_insert now tenant_id event = record {
    at = λ db h.
        elim (Bool-cases (any (λ (o : OutboxRow). o.event_id == event.event_id) db.outbox)) [
          | inl e ↦ rw e tt
          | inr e ↦ rw e (record {
            steps =
                after _ (map-append entry_of db.outbox (outbox_row now tenant_id event ∷ []))
                  (accepted h.steps event.event_id (any-entry event.event_id db.outbox e));
          })
        ];
  }

  step_message : (row : IngressRow) → Keeps (Refines a) (insert_message row)
  unfolding insert_message
  step_message row = record {
    at = λ db h. elim (Bool-cases (any (clashes_with row) db.messages)) [
      | inl e ↦ rw e h
      | inr e ↦ rw e (record { steps = h.steps })
    ];
  }

  step_rejection : (row : IngressRejection) → Keeps (Refines a) (insert_ingress_rejection row)
  unfolding insert_ingress_rejection
  step_rejection row = record {
    at = λ db h.
        elim (Bool-cases
          (any (λ (r : IngressRejection). same_source r.source row.source) db.rejections)) [
            | inl e ↦ rw e h
            | inr e ↦ rw e (record { steps = h.steps })
          ];
  }

  step_inserted :
      (now : ℕ) (tenant_id : String) (event : IngressEvent) (b : Bool)
      → Keeps (Refines a) (after_insert now tenant_id event b)
  unfolding after_insert
  step_inserted now tenant_id event true = search (Keeps-bind, Keeps-pure, step_insert) depth 5
  step_inserted now tenant_id event false = Keeps-pure _

  step_event :
      (now : ℕ) (source : IngressSource) (tenant_id : String) (event : IngressEvent)
      → Keeps (Refines a) (ingest_event now source tenant_id (ok event))
  unfolding ingest_event
  step_event now source tenant_id event = search (Keeps-bind, step_message, step_inserted) depth 5

  step_claim :
      (locked : String → Bool) (token : String) (limit lease now : ℕ)
      → Keeps (Refines a) (claim_outbox_tx locked token limit lease now)
  unfolding claim_outbox_tx query update_outbox pure
  step_claim locked token limit lease now = record {
    at = λ db h. record {
      steps =
          after _
            (map-claim locked now limit token (duration_seconds lease) db.outbox
              (LogSteps-IsKeyed h.steps keyed))
            h.steps;
    };
  }

  step_mark :
      (now : ℕ) (event_id token : String)
      → Keeps (Refines a) (
          update_outbox
            (λ o. holds_outbox event_id token o && is_live o.lease_until now)
            (publish_row now))
  unfolding update_outbox
  step_mark now event_id token = record {
    at = λ db h. record {
      steps = elim (map-publish now event_id token db.outbox (LogSteps-IsKeyed h.steps keyed)) [
        | inl none_held ↦
            after _ (ap (λ rows. map entry_of rows) (update_where_none _ _ db.outbox none_held))
              h.steps
        | inr (there, e) ↦ after _ e (announced h.steps event_id there)
      ];
    };
  }

  step_publish :
      (now : ℕ) (event_id token : String) → Keeps (Refines a) (mark_published_tx now event_id token)
  unfolding mark_published_tx
  step_publish now event_id token = search (Keeps-bind, Keeps-require_one, step_mark) depth 6

  step_update :
      (p : OutboxRow → Bool) (f : OutboxRow → OutboxRow)
      → ((os : List OutboxRow) → map entry_of (update_where p f os) ≡ map entry_of os)
      → Keeps (Refines a) (update_outbox p f)
  unfolding update_outbox
  step_update p f e = record { at = λ db h. record { steps = after _ (e db.outbox) h.steps } }

  step_release :
      (now : ℕ) (event_id token failure : String) (retry_after : ℕ)
      → Keeps (Refines a) (release_outbox_tx now event_id token failure retry_after)
  unfolding release_outbox_tx
  step_release now event_id token failure retry_after =
      search (Keeps-bind, Keeps-require_one, step_update, map-release) depth 6

-- The store refines a log: whatever its operations do in whatever order, with any leases, failures
-- and releases, they take the log that the outbox stands for by steps that accept a new event at
-- its end or announce an event of it, if no two rows of the outbox had one event at first.
pub store-Refines :
    (rfc3339 : ℤ → String) {s t : IngressDb}
    → IsKeyed (log_of s)
    → IngressSteps rfc3339 s t
    → LogSteps (log_of s) (log_of t)
store-Refines rfc3339 {s} keyed steps =
    (IngressSteps-keep {P = Refines (log_of s)}
      (record {
        accepts = step_event _ keyed;
        rejects = step_rejection _ keyed;
        claims = step_claim _ keyed;
        publishes = step_publish _ keyed;
        releases = step_release _ keyed;
      })
      steps (record { steps = same })).steps
