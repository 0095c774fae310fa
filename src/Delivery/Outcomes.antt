-- ===== src/Delivery/Outcomes.antt =====
-- internal/delivery/store.go: what MarkSent and finishFailure make of a delivery, of the Run that
-- waits for it, and of the lane of its conversation, written out column by column.
use open_im.Prelude.{
  All, ◌≢◌, [], ◌∷◌, Bool-cases, inl, inr, ℕ, ◌+◌, String, ◌≡◌, refl, ap, Bool, true, false, Option,
  none, some, arith, List, any, count_where, Changed, eq_iff,
}
use open_im.Database.{Db, RunRow, RunState, LaneRow, DeliveryRow, DeliveryState}
use open_im.Delivery.Statements.{
  Record, holds_delivery, awaits_delivery, owns_position, advance, holds_text, is_sending,
  is_delivery_pending,
}
use open_im.Delivery.Marks.{Verdict, deliver, settle_run, give_up, close_run}

abbrev pub in_position : List RunRow → String → LaneRow → Bool
in_position runs run_id lane = any (λ run. owns_position run_id run lane) runs

-- A delivery that was being sent under the record's token.
pub record IsHeld (r : Record) (d : DeliveryRow) : Type 0 where
  pub id : d.id ≡ r.id
  pub state : d.state ≡ DeliveryState.sending
  pub token : d.lease_token ≡ some r.lease_token

pub record BecomesSent (r : Record) (external : String) (d e : DeliveryRow) : Type 0 where
  pub was_held : IsHeld r d
  pub id : e.id ≡ d.id
  pub run_id : e.run_id ≡ d.run_id
  pub state : e.state ≡ DeliveryState.sent
  pub message : e.external_message_id ≡ some external
  pub token : e.lease_token ≡ none
  pub error : e.last_error ≡ none

-- The Run that waited: it has succeeded, or waits for the approval of its action.
pub record IsReplied (r : Record) (external : String) (run end : RunRow) : Type 0 where
  pub its_id : run.id ≡ r.run_id
  pub waited : run.state ≡ RunState.delivery_pending
  pub id : end.id ≡ run.id
  pub waits : r.waiting_approval ≡ true → end.state ≡ RunState.waiting_approval
  pub ends : r.waiting_approval ≡ false → end.state ≡ RunState.succeeded
  pub message : end.reply_server_msg_id ≡ some external
  pub error : end.last_error ≡ none

pub record BecomesLost (r : Record) (verdict : Verdict) (failure : String) (d e : DeliveryRow)
    : Type 0 where
  pub was_held : IsHeld r d
  pub id : e.id ≡ d.id
  pub run_id : e.run_id ≡ d.run_id
  pub fails : verdict ≡ Verdict.failed → e.state ≡ DeliveryState.failed
  pub unknown : verdict ≡ Verdict.uncertain → e.state ≡ DeliveryState.uncertain
  pub message : e.external_message_id ≡ d.external_message_id
  pub token : e.lease_token ≡ none
  pub error : e.last_error ≡ some failure

pub record IsUnanswered (r : Record) (verdict : Verdict) (failure : String) (run end : RunRow)
    : Type 0 where
  pub its_id : run.id ≡ r.run_id
  pub waited : run.state ≡ RunState.delivery_pending
  pub id : end.id ≡ run.id
  pub fails : verdict ≡ Verdict.failed → end.state ≡ RunState.failed
  pub unknown : verdict ≡ Verdict.uncertain → end.state ≡ RunState.delivery_unknown
  pub error : end.last_error ≡ some failure

-- The lane's next position to dispatch is the one after.
pub record MovesOn (lane moved : LaneRow) : Type 0 where
  pub tenant : moved.tenant_id ≡ lane.tenant_id
  pub channel : moved.source_channel ≡ lane.source_channel
  pub conversation : moved.conversation_id ≡ lane.conversation_id
  pub position : moved.next_dispatch_sequence ≡ lane.next_dispatch_sequence + 1

-- The change that a settlement makes, from `s` to `t`: one delivery that the record holds, one Run
-- that waits for it, and the one lane that stands at the Run.
pub record Settles (r : Record) (D : DeliveryRow → DeliveryRow → Type 0)
    (R : RunRow → RunRow → Type 0) (s t : Db) : Type 0 where
  pub one_delivery : count_where (holds_delivery r) s.deliveries ≡ 1
  pub delivery : Changed (holds_delivery r) D s.deliveries t.deliveries
  pub one_run : count_where (awaits_delivery r) s.runs ≡ 1
  pub run : Changed (awaits_delivery r) R s.runs t.runs
  pub one_lane : count_where (in_position t.runs r.run_id) s.lanes ≡ 1
  pub lane : Changed (in_position t.runs r.run_id) MovesOn s.lanes t.lanes

sending-state : (s : DeliveryState) → is_sending s ≡ true → s ≡ DeliveryState.sending
sending-state DeliveryState.sending h = refl
sending-state DeliveryState.pending h = absurd cc
sending-state DeliveryState.sent h = absurd cc
sending-state DeliveryState.failed h = absurd cc
sending-state DeliveryState.uncertain h = absurd cc

waiting-state : (s : RunState) → is_delivery_pending s ≡ true → s ≡ RunState.delivery_pending
waiting-state RunState.delivery_pending h = refl
waiting-state RunState.queued h = absurd cc
waiting-state RunState.running h = absurd cc
waiting-state RunState.reply_pending h = absurd cc
waiting-state RunState.delivery_unknown h = absurd cc
waiting-state RunState.waiting_approval h = absurd cc
waiting-state RunState.succeeded h = absurd cc
waiting-state RunState.failed h = absurd cc

pub holds_text-some : (o : Option String) (t : String) → holds_text o t ≡ true → o ≡ some t
holds_text-some none t h = absurd cc
holds_text-some (some u) t h = ap some ((eq_iff u t).0 h)

module _ (r : Record) where
  holds_delivery-IsHeld : (d : DeliveryRow) → holds_delivery r d ≡ true → IsHeld r d
  holds_delivery-IsHeld d h = record {
    id = (eq_iff d.id r.id).0 (ground arith);
    state = sending-state d.state (ground arith);
    token = holds_text-some d.lease_token r.lease_token (ground arith);
  }

  pub deliver-BecomesSent :
      (now : ℕ) (external : String) (d : DeliveryRow)
      → holds_delivery r d ≡ true
      → BecomesSent r external d (deliver now external d)
  deliver-BecomesSent now external d h = record {
    was_held = holds_delivery-IsHeld d h;
    id = refl;
    run_id = refl;
    state = refl;
    message = refl;
    token = refl;
    error = refl;
  }

  pub settle_run-IsReplied :
      (now : ℕ) (external : String) (run : RunRow)
      → awaits_delivery r run ≡ true
      → IsReplied r external run (settle_run now r.waiting_approval external run)
  settle_run-IsReplied now external run h = record {
    its_id = (eq_iff run.id r.run_id).0 (ground arith);
    waited = waiting-state run.state (ground arith);
    id = refl;
    waits = λ w. rw w refl;
    ends = λ w. rw w refl;
    message = refl;
    error = refl;
  }

  pub give_up-BecomesLost :
      (now : ℕ) (verdict : Verdict) (failure : String) (d : DeliveryRow)
      → holds_delivery r d ≡ true
      → BecomesLost r verdict failure d (give_up now verdict failure d)
  give_up-BecomesLost now verdict failure d h = record {
    was_held = holds_delivery-IsHeld d h;
    id = refl;
    run_id = refl;
    fails = λ v. rw v refl;
    unknown = λ v. rw v refl;
    message = refl;
    token = refl;
    error = refl;
  }

  pub close_run-IsUnanswered :
      (now : ℕ) (verdict : Verdict) (failure : String) (run : RunRow)
      → awaits_delivery r run ≡ true
      → IsUnanswered r verdict failure run (close_run now verdict failure run)
  close_run-IsUnanswered now verdict failure run h = record {
    its_id = (eq_iff run.id r.run_id).0 (ground arith);
    waited = waiting-state run.state (ground arith);
    id = refl;
    fails = λ v. rw v refl;
    unknown = λ v. rw v refl;
    error = refl;
  }

pub advance-MovesOn : (now : ℕ) (lane : LaneRow) → MovesOn lane (advance now lane)
advance-MovesOn now lane = record {
  tenant = refl;
  channel = refl;
  conversation = refl;
  position = refl;
}

-- Every row that has the record's id is leased under another token, or under none.
abbrev pub IsTaken : Record → List DeliveryRow → Type 0
IsTaken r = All (λ d. d.id ≡ r.id → d.lease_token ≢ some r.lease_token)

pub IsTaken-none :
    (r : Record) (ds : List DeliveryRow) → IsTaken r ds → count_where (holds_delivery r) ds ≡ 0
IsTaken-none r [] h = refl
IsTaken-none r (d ∷ ds) (other, h) = elim (Bool-cases (holds_delivery r d)) [
  | inl e ↦ let held = holds_delivery-IsHeld r d e in absurd (other held.id held.token)
  | inr e ↦ rw (e, IsTaken-none r ds h) refl
]
