-- ===== src/Delivery/Claim.antt =====
-- internal/delivery/store.go, Claim: the worker takes a lease on the delivery that is due first.
use open_im.Prelude.{
  ℕ, ◌+◌, String, Bool, ◌&&◌, ◌||◌, not, Option, none, some, leb, ltb, eqb, any, select_where,
  first_by, ◌==◌,
}
use open_im.Database.{Db, DeliveryRow, DeliveryState, ControlRow}
use open_im.Database.Tx.{Result, ok, err, Tx, ◌>>=◌, ◌>>◌, pure, query, update_deliveries, transact}
use open_im.Delivery.Statements.{
  Record, is_expired, is_sending, is_pending, duration_seconds, after_seconds,
}
use open_im.Delivery.Exhausted.{fail_exhausted}

-- Claim. `locked` are the rows that FOR UPDATE SKIP LOCKED passes over.
abbrev pub is_paused : Db → String → String → Bool
is_paused db component tenant_id =
    any (λ (c : ControlRow). c.tenant_id == tenant_id && c.component == component && c.paused)
      db.controls

abbrev pub is_due : DeliveryRow → ℕ → Bool
is_due d now = is_pending d.state || (is_sending d.state && is_expired d.lease_until now)

abbrev pub is_claimable : Db → (String → Bool) → ℕ → ℕ → DeliveryRow → Bool
is_claimable db locked max_attempts now d =
    ltb d.attempts max_attempts
    && leb d.available_at now
    && not (is_paused db "agent_delivery" d.tenant_id)
    && is_due d now
    && not (locked d.id)

-- `ORDER BY available_at, created_at`
abbrev pub comes_before : DeliveryRow → DeliveryRow → Bool
comes_before d e =
    ltb d.available_at e.available_at
    || (eqb d.available_at e.available_at && ltb d.created_at e.created_at)

abbrev pub candidate : Db → (String → Bool) → ℕ → ℕ → Option DeliveryRow
candidate db locked max_attempts now =
    first_by comes_before (select_where (is_claimable db locked max_attempts now) db.deliveries)

abbrev pub lease_out : ℕ → String → ℕ → DeliveryRow → DeliveryRow
lease_out now token lease_seconds d = record d {
  state = DeliveryState.sending;
  attempts = d.attempts + 1;
  lease_token = some token;
  lease_until = some (after_seconds now lease_seconds);
  updated_at = now;
}

-- The columns that RETURNING gives, after the update.
abbrev pub record_of : String → DeliveryRow → Record
record_of token d = record {
  id = d.id;
  run_id = d.run_id;
  tenant_id = d.tenant_id;
  channel = d.channel;
  target_id = d.target_id;
  content = d.content;
  session_type = d.session_type;
  waiting_approval = d.waiting_approval;
  lease_token = token;
  attempts = d.attempts + 1;
}

unfoldable pub lease_candidate : ℕ → String → ℕ → Option DeliveryRow → Tx (Option Record)
unfolding pure
lease_candidate now token lease_seconds none = pure none
lease_candidate now token lease_seconds (some d) = do
  update_deliveries (λ e. e.id == d.id) (lease_out now token lease_seconds)
  pure (some (record_of token d))

unfoldable pub claim_tx : (String → Bool) → String → ℕ → ℕ → ℕ → Tx (Option Record)
unfolding query lease_candidate
claim_tx locked token lease max_attempts now = do
  found ← query (λ db. candidate db locked max_attempts now)
  lease_candidate now token (duration_seconds lease) found

-- The recovery is a transaction of its own, at its own time.
abbrev pub and_then :
    Result (Unit {0}) × Db → (Db → Result (Option Record) × Db) → Result (Option Record) × Db
and_then (ok _, db) next = next db
and_then (err e, db) next = (err e, db)

unfoldable pub claim : (String → Bool) → String → ℕ → ℕ → ℕ → ℕ → Db → Result (Option Record) × Db
unfolding claim_tx transact
claim locked token lease max_attempts recovered_at now db =
    and_then (fail_exhausted max_attempts recovered_at db)
      (transact (claim_tx locked token lease max_attempts now))
