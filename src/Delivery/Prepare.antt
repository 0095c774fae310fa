-- ===== src/Delivery/Prepare.antt =====
-- internal/delivery/store.go, Prepare: a running Agent Run hands its reply over to the queue.
use Prim.Native.String.{count}
use open_im.Prelude.{
  ℕ, String, Bool, ◌&&◌, ◌||◌, not, none, [], ◌∷◌, if◌then◌else◌, leb, eqb, any, ◌==◌,
}
use open_im.Database.{Db, RunRow, RunState, DeliveryRow, DeliveryState, Json}
use open_im.Database.Tx.{
  Result, Tx, ◌>>=◌, ◌>>◌, pure, raise, query, update_runs, insert_delivery, require_one, transact,
}
use open_im.Delivery.Statements.{
  PrepareRequest, holds_text, is_live, is_run_running, insert_run_lifecycle,
}

-- The CHECK constraints of agent.deliveries on a new row (0009_agent_channels.sql).
abbrev pub is_channel : String → Bool
is_channel channel = channel == "openim" || channel == "telegram"

abbrev pub within : ℕ → ℕ → ℕ → Bool
within lo hi n = leb lo n && leb n hi

abbrev pub is_insertable : PrepareRequest → Bool
is_insertable r =
    is_channel r.channel
    && within 1 256 (count r.target_id)
    && (eqb r.session_type 1 || eqb r.session_type 2)
    && within 1 20000 (count r.content)

abbrev pub new_delivery : String → ℕ → PrepareRequest → DeliveryRow
new_delivery delivery_id now r = record {
  id = delivery_id;
  run_id = r.run_id;
  tenant_id = r.tenant_id;
  channel = r.channel;
  target_id = r.target_id;
  session_type = r.session_type;
  content = r.content;
  waiting_approval = r.waiting_approval;
  state = DeliveryState.pending;
  attempts = 0;
  available_at = now;
  lease_token = none;
  lease_until = none;
  external_message_id = none;
  last_error = none;
  created_at = now;
  updated_at = now;
  completed_at = none;
}

-- `INSERT … ON CONFLICT (run_id) DO NOTHING`: the constraints come first, the primary key last.
unfoldable pub insert_new_delivery : String → ℕ → PrepareRequest → Tx (Unit {0})
unfolding pure raise query insert_delivery
insert_new_delivery delivery_id now r = do
  taken ← query (λ db. any (λ (d : DeliveryRow). d.run_id == r.run_id) db.deliveries)
  repeated ← query (λ db. any (λ (d : DeliveryRow). d.id == delivery_id) db.deliveries)
  if not (is_insertable r)
      then raise "insert Agent delivery: constraint violation"
      else if taken
      then raise "prepare Agent delivery: Run already has a delivery"
      else if repeated
      then raise "insert Agent delivery: duplicate key"
      else insert_delivery (new_delivery delivery_id now r)

-- `WHERE id = $1 AND tenant_id = $2 AND state = 'running' AND lease_token = $3
-- AND lease_until >= now()`
abbrev pub holds_run : ℕ → PrepareRequest → RunRow → Bool
holds_run now r run =
    run.id == r.run_id
    && run.tenant_id == r.tenant_id
    && is_run_running run.state
    && holds_text run.lease_token r.lease_token
    && is_live run.lease_until now

abbrev pub hand_over : ℕ → RunRow → RunRow
hand_over now run = record run {
  state = RunState.delivery_pending;
  lease_token = none;
  lease_until = none;
  available_at = now;
  last_error = none;
  updated_at = now;
}

unfoldable pub prepare_tx : String → ℕ → PrepareRequest → Tx (Unit {0})
prepare_tx delivery_id now r = do
  insert_new_delivery delivery_id now r
  n ← update_runs (holds_run now r) (hand_over now)
  require_one n "prepare Agent delivery: execution lease is not held"
  insert_run_lifecycle r.run_id "delivery_prepared"
      (("channel", Json.text r.channel) ∷ ("waiting_approval", Json.flag r.waiting_approval) ∷ [])

-- Prepare
unfoldable pub prepare : String → ℕ → PrepareRequest → Db → Result (Unit {0}) × Db
unfolding prepare_tx transact
prepare delivery_id now r = transact (prepare_tx delivery_id now r)
