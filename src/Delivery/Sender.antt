-- ===== src/Delivery/Sender.antt =====
-- internal/delivery/senders.go, and the failure classes of worker.go: how a reply is sent to its
-- channel. The APIs behind it (the OpenIM server, Telegram's Bot API, the identity table) are the
-- answers of a `Channels`; each sender gives the calls that it makes, in order, and its outcome.
use open_im.Prelude.{
  ℕ, String, Bool, false, ◌||◌, Option, none, some, List, [], ◌∷◌, leb, eqb, if◌then◌else◌, append,
  ◌==◌,
}
use open_im.Prelude.Decimal.{ℤ, pos, negsuc, is_zero, parse_int, format_int}
use open_im.Delivery.Statements.{Record}

pub data FailureClass : Type 0 where
  retryable permanent uncertain : FailureClass

-- An error that a sender returns: a `SendError` with its class, or an error that wraps none.
pub data SendFailure : Type 0 where
  classified : FailureClass → String → SendFailure
  unclassified : String → SendFailure

-- What `Send` returns: the channel's message id, or an error.
pub data Outcome : Type 0 where
  sent : String → Outcome
  failed : SendFailure → Outcome

-- An API's answer: its own error, which `errors.As(err, &apiErr)` finds, or any other failure.
pub data ApiFailure : Type 0 where
  api_error : ℤ → String → ApiFailure
  no_answer : String → ApiFailure

pub data Answer {ℓ} (A : Type ℓ) : Type ℓ where
  answered : A → Answer A
  refused : ApiFailure → Answer A

pub record TextTarget : Type 0 where
  pub session_type : ℕ
  pub receiver_id : String
  pub group_id : String

pub data Call : Type 0 where
  ensure_bot_identity : String → String → Call
  ensure_agent_bot : String → String → Call
  send_text : String → TextTarget → String → String → Call
  send_message : ℤ → String → Call

pub record Channels : Type 0 where
  pub ensure_bot_identity : String → String → Option String
  pub ensure_agent_bot : String → String → Answer (Unit {0})
  pub send_text : String → TextTarget → String → String → Answer String
  pub send_message : ℤ → String → Answer ℤ
  pub bot_user_id : String → String
  pub telegram_enabled : Bool

abbrev pub message : ApiFailure → String
message (api_error _ text) = text
message (no_answer text) = text

-- `errors.As(err, &apiErr)` decides between two classes.
abbrev pub classify : FailureClass → String → FailureClass → String → ApiFailure → SendFailure
classify known known_text other other_text (api_error _ text) =
    classified known (append known_text text)
classify known known_text other other_text (no_answer text) =
    classified other (append other_text text)

abbrev pub target_of : Record → Option TextTarget
target_of r =
    if eqb r.session_type 1
    then some (record { session_type = r.session_type; receiver_id = r.target_id; group_id = "" })
    else if eqb r.session_type 2
    then some (record { session_type = r.session_type; receiver_id = ""; group_id = r.target_id })
    else none

module _ (channels : Channels) where
  open channels use {bot_user_id, telegram_enabled}

  finish_text : Answer String → Outcome
  finish_text (answered id) = sent id
  finish_text (refused f) = failed (
      classify FailureClass.permanent "OpenIM rejected Agent delivery: " FailureClass.uncertain
        "OpenIM Agent delivery outcome is unknown: " f)

  send_to : String → Record → Option TextTarget → List Call × Outcome
  unfolding finish_text
  send_to bot r none = (
    [],
    failed (
        classified FailureClass.permanent
          (append "unsupported OpenIM session type " (format_int (pos r.session_type)))),
  )
  send_to bot r (some target) = (
    send_text bot target r.content r.run_id ∷ [],
    finish_text (channels.send_text bot target r.content r.run_id),
  )

  with_bot : String → Record → Answer (Unit {0}) → List Call × Outcome
  unfolding send_to
  with_bot bot r (refused f) = (
    [],
    failed (
        classify FailureClass.permanent "ensure OpenIM Agent bot: " FailureClass.retryable
          "ensure OpenIM Agent bot before send: " f),
  )
  with_bot bot r (answered _) = send_to bot r (target_of r)

  with_identity : String → Record → Option String → List Call × Outcome
  unfolding with_bot
  with_identity bot r (some e) = (
    [],
    failed (classified FailureClass.retryable (append "persist OpenIM Agent bot identity: " e)),
  )
  with_identity bot r none =
      let (calls, outcome) = with_bot bot r (channels.ensure_agent_bot bot r.tenant_id) in
      (ensure_agent_bot bot r.tenant_id ∷ calls, outcome)

  -- OpenIMSender.Send
  unfoldable pub open_im_send : Record → List Call × Outcome
  unfolding with_identity
  open_im_send r =
      let bot = bot_user_id r.tenant_id in
      let (calls, outcome) = with_identity bot r (channels.ensure_bot_identity r.tenant_id bot) in
      (ensure_bot_identity r.tenant_id bot ∷ calls, outcome)

  -- `apiErr.Code == 429 || apiErr.Code >= 500`
  abbrev is_temporary : ℤ → Bool
  is_temporary (pos n) = eqb n 429 || leb 500 n
  is_temporary (negsuc n) = false

  finish_message : Answer ℤ → Outcome
  finish_message (answered id) = sent (format_int id)
  finish_message (refused (no_answer text)) = failed (
      classified FailureClass.uncertain
        (append "Telegram Agent delivery outcome is unknown: " text))
  finish_message (refused (api_error status text)) = failed (
      if is_temporary status
      then classified FailureClass.retryable
          (append "Telegram temporarily rejected Agent delivery: " text)
      else classified FailureClass.permanent (append "Telegram rejected Agent delivery: " text))

  abbrev bad_chat : List Call × Outcome
  bad_chat = ([], failed (classified FailureClass.permanent "Telegram delivery target is invalid"))

  send_chat : Record → Option ℤ → List Call × Outcome
  unfolding finish_message
  send_chat r none = bad_chat
  send_chat r (some chat) =
      if is_zero chat
      then bad_chat
      else (send_message chat r.content ∷ [], finish_message (channels.send_message chat r.content))

  -- TelegramSender.Send
  unfoldable pub telegram_send : Record → List Call × Outcome
  unfolding send_chat
  telegram_send r = send_chat r (parse_int r.target_id)

  -- Router.Send
  unfoldable pub send : Record → List Call × Outcome
  unfolding open_im_send telegram_send
  send r =
      if r.channel == "openim"
      then open_im_send r
      else if r.channel == "telegram"
      then if telegram_enabled then telegram_send r else (
        [],
        failed (classified FailureClass.permanent "Telegram delivery channel is disabled"),
      )
      else (
        [],
        failed
            (classified FailureClass.permanent (append "unsupported delivery channel " r.channel)),
      )
