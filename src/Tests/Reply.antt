-- ===== src/Tests/Reply.antt =====
-- The delivery theorems on the two replies of Data.antt.
use open_im.Prelude.{
  ℕ, String, Bool, false, true, any, none, some, [], ◌∷◌, ◌≡◌, ◌≢◌, ◌≤◌, refl, arith, count_where,
  ◌==◌,
}
use open_im.Database.{Db, DeliveryRow}
use open_im.Database.Tx.{
  ok, err, transact, update_deliveries, require_one, update_runs, update_delegations,
  insert_delegation_events, update_lanes, insert_delivery_events, insert_run_events,
}
use open_im.Prelude.Decimal.{pos}
use open_im.Delivery.Statements.{
  duration_seconds, advance_lane_for_run, insert_audit, insert_run_lifecycle,
  complete_delegation_for_run,
}
use open_im.Delivery.Claim.{lease_out, claim_tx, lease_candidate, record_of, is_claimable}
use open_im.Delivery.Marks.{
  Verdict, mark_sent, finish_failure, mark_retry, mark_sent_tx, finish_failure_tx,
  fail_delegation_for_run,
}
use open_im.Delivery.Row.{IsRow}
use open_im.Delivery.Invariant.{IsSoundRow}
use open_im.Delivery.Steps.{
  Reach, here, next, leasing, marking_sent, AnyTime, AnyRecord, Sound, Reach-Sound, lease_one,
}
use open_im.Delivery.Finality.{settled_stays, leased_never_claimed}
use open_im.Delivery.Outcomes.{Settles, BecomesSent, IsReplied, BecomesLost, IsUnanswered}
use open_im.Delivery.Settlement.{mark_sent-Settles, finish_failure-Settles, stale_mark_refused}
use open_im.Delivery.Sender.{
  Channels, sent, failed, classified, FailureClass, answered, refused, no_answer, send,
}
use open_im.Delivery.Channels.{retryable_unsent, is_message}
use open_im.Delivery.Once.{sent_once, unknown_once, claimed_backoff}
use open_im.Delivery.Worker.{backoff}
use open_im.Tests.Data.{unequal, unequal_some, first, second, leased, delivered, held, db_of}

sound_first : IsSoundRow 3 first
sound_first = record {
  token_iff = refl;
  until_iff = refl;
  named = λ e. absurd cc;
  bounded = omega arith;
}

sound_second : IsSoundRow 3 second
sound_second = record {
  token_iff = refl;
  until_iff = refl;
  named = λ e. absurd cc;
  bounded = omega arith;
}

sound_leased : IsSoundRow 3 leased
sound_leased = record {
  token_iff = refl;
  until_iff = refl;
  named = λ e. absurd cc;
  bounded = omega arith;
}

sound_delivered : IsSoundRow 3 delivered
sound_delivered = record {
  token_iff = refl;
  until_iff = refl;
  named = λ e. refl;
  bounded = omega arith;
}

Sound-of :
    (d : DeliveryRow)
    → IsSoundRow 3 d
    → count_where (λ (e : DeliveryRow). e.id == d.id) (second ∷ []) ≡ 0
    → Sound 3 (db_of d)
Sound-of d s fresh = record { unique = (fresh, (refl, tt)); sound = (s, (sound_second, tt)) }

first_db : Sound 3 (db_of first)
first_db = Sound-of first sound_first refl

leased_first : Sound 3 (db_of leased)
leased_first = Sound-of leased sound_leased refl

delivered_first : Sound 3 (db_of delivered)
delivered_first = Sound-of delivered sound_delivered refl

abbrev free : String → Bool
free _ = false

-- What a claim gives once the first reply is not to be had.
second_claimed :
    (d : DeliveryRow)
    → is_claimable (db_of d) free 3 500 d ≡ false
    → (transact (claim_tx free "t2" 30_000_000_000 3 500) (db_of d)).0
      ≡ ok (some (record_of "t2" second))
unfolding claim_tx transact lease_candidate update_deliveries duration_seconds
second_claimed d e = rw e refl

-- From the start to the first reply's being sent.
abbrev leased_db : Db
leased_db = lease_one free "t1" 30_000_000_000 3 300 (db_of first)

abbrev sent_db : Db
sent_db = (mark_sent (λ s. s) 400 held "message-1" leased_db).1

abbrev run_to_sent : Reach 3 AnyTime AnyRecord (db_of first) sent_db
run_to_sent =
    next (next here (leasing free "t1" 30_000_000_000 300 tt (db_of first)))
      (marking_sent (λ s. s) 400 held "message-1" tt leased_db)

Reach-Sound_example : Sound 3 sent_db
Reach-Sound_example = Reach-Sound 3 run_to_sent first_db

settled_stays_example :
    IsRow "d1" delivered (lease_one free "t2" 30_000_000_000 3 500 (db_of delivered)).deliveries
settled_stays_example =
    settled_stays 3 "d1" delivered refl delivered_first refl
      (next here (leasing free "t2" 30_000_000_000 500 tt (db_of delivered)))

leased_never_claimed_example : second.id ≢ first.id
leased_never_claimed_example =
    leased_never_claimed 3 "d1" leased "t1" 30_000_300 refl refl refl free "t2" 30_000_000_000 500
      (record_of "t2" second) leased_first refl here (omega arith) (second_claimed leased refl)

-- The two settlements of the first reply.
marked : (mark_sent (λ s. s) 400 held "message-1" (db_of leased)).0 ≡ ok tt
unfolding mark_sent mark_sent_tx transact complete_delegation_for_run update_deliveries require_one
    update_runs update_delegations insert_delegation_events advance_lane_for_run update_lanes
    insert_audit insert_delivery_events insert_run_lifecycle insert_run_events
marked = refl

given_up :
    (finish_failure 400 held Verdict.uncertain "timeout" "outcome_unknown" (db_of leased)).0 ≡ ok tt
unfolding finish_failure finish_failure_tx transact fail_delegation_for_run update_deliveries
    require_one update_runs update_delegations insert_delegation_events advance_lane_for_run
    update_lanes insert_audit insert_delivery_events insert_run_lifecycle insert_run_events
given_up = refl

claimed_sent :
    (transact
      (claim_tx free "t2" 30_000_000_000 3 500)
      (mark_sent (λ s. s) 400 held "message-1" (db_of leased)).1).0
    ≡ ok (some (record_of "t2" second))
unfolding mark_sent mark_sent_tx claim_tx transact lease_candidate duration_seconds
    complete_delegation_for_run update_deliveries require_one update_runs update_delegations
    insert_delegation_events advance_lane_for_run update_lanes insert_audit insert_delivery_events
    insert_run_lifecycle insert_run_events
claimed_sent = refl

claimed_unknown :
    (transact
      (claim_tx free "t2" 30_000_000_000 3 500)
      (finish_failure 400 held Verdict.uncertain "timeout" "outcome_unknown" (db_of leased)).1).0
    ≡ ok (some (record_of "t2" second))
unfolding finish_failure finish_failure_tx claim_tx transact lease_candidate duration_seconds
    fail_delegation_for_run update_deliveries require_one update_runs update_delegations
    insert_delegation_events advance_lane_for_run update_lanes insert_audit insert_delivery_events
    insert_run_lifecycle insert_run_events
claimed_unknown = refl

mark_sent-Settles_example :
    Settles held
      (BecomesSent held "message-1")
      (IsReplied held "message-1")
      (db_of leased)
      (mark_sent (λ s. s) 400 held "message-1" (db_of leased)).1
mark_sent-Settles_example = mark_sent-Settles (λ s. s) 400 held "message-1" (db_of leased) marked

finish_failure-Settles_example :
    Settles held
      (BecomesLost held Verdict.uncertain "timeout")
      (IsUnanswered held Verdict.uncertain "timeout")
      (db_of leased)
      (finish_failure 400 held Verdict.uncertain "timeout" "outcome_unknown" (db_of leased)).1
finish_failure-Settles_example =
    finish_failure-Settles 400 held Verdict.uncertain "timeout" "outcome_unknown" (db_of leased)
      given_up

-- The delivery after another worker has leased it.
abbrev retaken : DeliveryRow
retaken = lease_out 500 "t2" 30 first

stale_mark_refused_example :
    (mark_sent (λ s. s) 400 held "message-1" (db_of retaken)
      ≡ (err "complete Agent delivery: delivery lease is not held", db_of retaken))
    × (finish_failure 400 held Verdict.failed "timeout" "retry_exhausted" (db_of retaken)
        ≡ (err "finish Agent delivery failure: delivery lease is not held", db_of retaken))
    × (mark_retry 400 held "timeout" 3 1_000_000_000 (db_of retaken)
        ≡ (err "retry Agent delivery: delivery lease is not held", db_of retaken))
stale_mark_refused_example =
    stale_mark_refused (λ s. s) 400 held "message-1" "timeout" "retry_exhausted" Verdict.failed 3
      1_000_000_000 (db_of retaken)
      ((λ _. unequal_some "t2" "t1" refl), ((λ e. absurd (unequal "d2" "d1" refl e)), tt)) refl

sent_once_example : second.id ≢ first.id
sent_once_example =
    sent_once 3 held (db_of leased) (mark_sent (λ s. s) 400 held "message-1" (db_of leased)).1 free
      "t2" 30_000_000_000 500 (record_of "t2" second) (λ s. s) 400 "message-1" leased_first marked
      here claimed_sent

unknown_once_example : second.id ≢ first.id
unknown_once_example =
    unknown_once 3 held (db_of leased)
      (finish_failure 400 held Verdict.uncertain "timeout" "outcome_unknown" (db_of leased)).1 free
      "t2" 30_000_000_000 500 (record_of "t2" second) 400 Verdict.uncertain "timeout"
      "outcome_unknown" leased_first given_up here claimed_unknown

claimed_backoff_example :
    (1 ≤ 1)
    × (1 ≤ 3)
    × ((delay : ℕ) × (backoff 1 ≡ some delay) × (1_000_000_000 ≤ delay) × (delay ≤ 32_000_000_000))
claimed_backoff_example =
    claimed_backoff free "t2" 30_000_000_000 3 500 (db_of leased) (record_of "t2" second)
      (second_claimed leased refl)

-- Channels whose OpenIM server takes every message but answers nothing.
abbrev pub silent : Channels
silent = record {
  ensure_bot_identity = λ t u. none;
  ensure_agent_bot = λ u t. answered tt;
  send_text = λ u t c i. answered "message-1";
  send_message = λ c t. answered (pos 7);
  bot_user_id = λ t. "bot";
  telegram_enabled = true;
}

abbrev unready : Channels
unready = record silent { ensure_agent_bot = λ u t. refused (no_answer "connection refused") }

answered_first : (send silent held).1 ≡ sent "message-1"
unfolding send
answered_first = refl

unready_first :
    (send unready held).1
    ≡ failed (
        classified FailureClass.retryable "ensure OpenIM Agent bot before send: connection refused")
unfolding send
unready_first = refl

retryable_unsent_example : any is_message (send unready held).0 ≡ false
retryable_unsent_example =
    retryable_unsent unready held "ensure OpenIM Agent bot before send: connection refused" refl
      unready_first
