-- ===== src/Telegram.antt =====
-- internal/telegram/poller.go: the conversation of a Telegram chat, and the way back to the chat.
pub mod Text
pub mod Codes
pub mod Tables
pub mod Store
pub mod Consumption
pub mod Bindings
pub mod Poller
pub mod Polling
pub mod Once
pub mod Covered
pub mod Proven
use open_im.Prelude.{
  ◌≤◌, String, ◌≡◌, ◌∙◌, ap, refl, true, false, ◌||◌, some, [], ◌∷◌, arith, append, eqb,
  byte_length, ◌==◌, eq_iff,
}
use open_im.Prelude.Decimal.{ℤ, IsInt64, is_zero, format_int, parse_int, parse_int-format_int}
use open_im.Database.Tx.{ok}
use open_im.Delivery.Statements.{Record}
use open_im.Delivery.Sender.{send_message, Channels, send, telegram_send}
use open_im.Agent.Run.{Run}
use open_im.Agent.Target.{delivery_target, after_prefix}

-- `"tg_" + strconv.FormatInt(update.Message.Chat.ID, 10)`, in process
abbrev pub conversation_of : ℤ → String
conversation_of chat = append "tg_" (format_int chat)

some_bytes : (s : String) (chat : ℤ) → parse_int s ≡ some chat → 1 ≤ byte_length s
unfolding parse_int
some_bytes String.[] chat h = absurd cc
some_bytes (String.◌∷◌ c s) chat h = ground arith

back : (s : String) → 1 ≤ byte_length s → after_prefix "tg_" (append "tg_" s) ≡ ok s
back s h = ground arith

pub to_chat :
    (chat : ℤ) (run : Run)
    → IsInt64 chat
    → run.conversation_id ≡ conversation_of chat
    → (run.source_channel == "telegram") ≡ true
    → (eqb run.session_type 1 || eqb run.session_type 2) ≡ true
    → delivery_target run ≡ ok (format_int chat)
unfolding delivery_target
to_chat chat run fits is_conv on_telegram kind =
    let is_telegram : run.source_channel ≡ "telegram" =
      (eq_iff run.source_channel "telegram").0 on_telegram in
    rw (is_telegram, kind, is_conv)
      (back (format_int chat) (some_bytes (format_int chat) chat (parse_int-format_int chat fits)))

on_chat :
    (chat : ℤ) (channels : Channels) (r : Record)
    → is_zero chat ≡ false
    → r.channel ≡ "telegram"
    → channels.telegram_enabled ≡ true
    → parse_int r.target_id ≡ some chat
    → (send channels r).0 ≡ send_message chat r.content ∷ []
unfolding send telegram_send
on_chat chat channels r there channel enabled parsed = rw (channel, enabled, parsed, there) refl

-- The reply to a Run that came in from a Telegram chat has a target, and the sender puts the
-- record with that target on that very chat, whatever its int64 id, and on no other.
pub telegram_reply_returns :
    (chat : ℤ) (run : Run) (channels : Channels) (r : Record)
    → IsInt64 chat
    → is_zero chat ≡ false
    → run.conversation_id ≡ conversation_of chat
    → (run.source_channel == "telegram") ≡ true
    → (eqb run.session_type 1 || eqb run.session_type 2) ≡ true
    → (r.channel == "telegram") ≡ true
    → channels.telegram_enabled ≡ true
    → delivery_target run ≡ ok r.target_id
    → ((send channels r).0 ≡ send_message chat r.content ∷ [])
      × (delivery_target run ≡ ok (format_int chat))
telegram_reply_returns chat run channels r fits there is_conv on_telegram kind channel enabled
      target =
    let reached = to_chat chat run fits is_conv on_telegram kind in
    let same : r.target_id ≡ format_int chat = cc in
    (
      on_chat chat channels r there ((eq_iff r.channel "telegram").0 channel) enabled
          (ap parse_int same ∙ parse_int-format_int chat fits),
      reached,
    )
