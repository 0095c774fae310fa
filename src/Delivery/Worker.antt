-- ===== src/Delivery/Worker.antt =====
-- internal/delivery/worker.go: one round of the worker's loop. The store and the sender are the
-- interfaces that the worker is built with, as functions on the state `S` behind them.
use open_im.Prelude.{ℕ, ◌-◌, ◌*◌, ◌^◌, String, Bool, Option, none, some, if◌then◌else◌, eqb, min}
use open_im.Database.Tx.{Result, ok, err}
use open_im.Delivery.Statements.{Record}
use open_im.Delivery.Sender.{
  FailureClass, SendFailure, classified, unclassified, Outcome, sent, failed,
}

-- RuntimeStore, Sender and the worker's own fields; `cancelled` is `ctx.Err() != nil`.
pub record Worker (S : Type 0) : Type 0 where
  pub claim : ℕ → ℕ → S → Result (Option Record) × S
  pub mark_sent : Record → String → S → Result (Unit {0}) × S
  pub mark_retry : Record → String → ℕ → ℕ → S → Result (Unit {0}) × S
  pub mark_permanent : Record → String → S → Result (Unit {0}) × S
  pub mark_uncertain : Record → String → S → Result (Unit {0}) × S
  pub send : Record → S → Outcome × S
  pub cancelled : S → Bool
  pub lease : ℕ
  pub max_attempts : ℕ

-- `time.Second << min(record.Attempts-1, 5)`, in nanoseconds; a shift by -1 panics.
unfoldable pub backoff : ℕ → Option ℕ
backoff attempts = if eqb attempts 0 then none else some (1_000_000_000 * 2 ^ min (attempts - 1) 5)

-- `class := FailureUncertain`, unless the error wraps a SendError.
abbrev pub class_of : SendFailure → FailureClass
class_of (classified c _) = c
class_of (unclassified _) = FailureClass.uncertain

abbrev pub error_text : SendFailure → String
error_text (classified _ text) = text
error_text (unclassified text) = text

module _ {S : Type 0} (w : Worker S) where
  retry_after : Record → String → Option ℕ → S → Result (Unit {0}) × S
  retry_after r text none s = (err "panic: negative shift amount", s)
  retry_after r text (some delay) s = w.mark_retry r text w.max_attempts delay s

  mark_failure : Record → String → FailureClass → S → Result (Unit {0}) × S
  unfolding retry_after
  mark_failure r text FailureClass.retryable s = retry_after r text (backoff r.attempts) s
  mark_failure r text FailureClass.permanent s = w.mark_permanent r text s
  mark_failure r text FailureClass.uncertain s = w.mark_uncertain r text s

  after_send : Record → Outcome → S → Result (Unit {0}) × S
  unfolding mark_failure
  after_send r (sent external_id) s = w.mark_sent r external_id s
  after_send r (failed failure) s =
      if w.cancelled s then (ok tt, s) else mark_failure r (error_text failure) (class_of failure) s

  after_claim : Result (Option Record) → S → Result (Unit {0}) × S
  unfolding after_send
  after_claim (err e) s = (err e, s)
  after_claim (ok none) s = (ok tt, s)
  after_claim (ok (some r)) s = let (outcome, s') = w.send r s in after_send r outcome s'

  -- runOnce
  unfoldable pub run_once : S → Result (Unit {0}) × S
  unfolding after_claim
  run_once s = let (claimed, s') = w.claim w.lease w.max_attempts s in after_claim claimed s'
