-- ===== src/Delivery/Channels.antt =====
-- What the senders of internal/delivery/senders.go do to a channel.
use open_im.Prelude.{String, Bool, true, false, ◌≡◌, arith, any, ◌==◌}
use open_im.Delivery.Statements.{Record}
use open_im.Delivery.Sender.{
  FailureClass, classified, failed, Call, send_text, send_message, Channels, send,
}

-- The calls that put a message on a channel.
abbrev pub is_message : Call → Bool
is_message (send_text _ _ _ _) = true
is_message (send_message _ _) = true
is_message _ = false

module _ (channels : Channels) (r : Record) where
  -- On every channel but Telegram, one Send that ends in a retryable failure made no call that sends
  -- a message.
  pub retryable_unsent :
      (text : String)
      → (r.channel == "telegram") ≡ false
      → (send channels r).1 ≡ failed (classified FailureClass.retryable text)
      → any is_message (send channels r).0 ≡ false
  unfolding send
  retryable_unsent text other h = ground arith
