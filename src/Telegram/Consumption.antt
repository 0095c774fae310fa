-- ===== src/Telegram/Consumption.antt =====
-- internal/telegram/store.go, ConsumeLinkChallenge. `now()` and SHA-256 are arguments.
use open_im.Prelude.{
  ℕ, String, Bool, true, ◌||◌, ◌&&◌, not, Option, none, some, [], ◌∷◌, if◌then◌else◌, any, find,
  ltb, ◌==◌,
}
use open_im.Prelude.Decimal.{ℤ}
use open_im.Database.Tx.{Result, ok, err, ◌>>=◌, ◌>>◌, pure, raise, query, require_one, transact}
use open_im.Ingress.Message.{is_positive}
use open_im.Prelude.Decimal.{is_zero}
use open_im.Telegram.Codes.{normalize_code, challenge_digest}
use open_im.Telegram.Tables.{
  PrincipalRow, ChatRow, ChallengeRow, LinkEventType, TelegramDb, TelegramTx, is_open,
  update_challenges, insert_principal, insert_chat, unique_violation, insert_link_events,
}
use open_im.Telegram.Store.{binding_conflict, invalid_challenge, is_active_member, Binding}

-- The challenge that a digest opens, with an active member of an active tenant.
abbrev pub opens : TelegramDb → String → ℕ → ChallengeRow → Bool
opens db digest now c =
    c.code_digest == digest
    && is_open c
    && ltb now c.expires_at
    && any (is_active_member c.tenant_id c.member_id) db.members

abbrev pub principal_of : ℤ → ChallengeRow → PrincipalRow
principal_of user_id c = record {
  user_id = user_id;
  tenant_id = c.tenant_id;
  member_id = c.member_id;
  enabled = true;
}

abbrev pub private_chat : ℤ → ChallengeRow → ChatRow
private_chat chat_id c = record {
  chat_id = chat_id;
  tenant_id = c.tenant_id;
  session_type = 1;
  enabled = true;
}

abbrev pub consume : ℕ → ℤ → ℤ → ChallengeRow → ChallengeRow
consume now user_id chat_id c = record c {
  consumed_at = some now;
  user_id = some user_id;
  chat_id = some chat_id;
}

abbrev pub is_still_open : String → ℕ → ChallengeRow → Bool
is_still_open id now c = c.id == id && is_open c && ltb now c.expires_at

-- `if isUniqueViolation(err) { return Binding{}, ErrBindingConflict }`
abbrev pub as_conflict : {A : Type 0} → TelegramTx A → TelegramTx A
as_conflict m db = elim (m db) [
  | ok x ↦ ok x
  | err e ↦ if e == unique_violation then err binding_conflict else err e
]

-- What follows the consumption of `n` rows.
unfoldable pub finish_link : ChallengeRow → ℕ → TelegramTx Binding
unfolding require_one insert_link_events pure
finish_link c n = do
  require_one n invalid_challenge
  insert_link_events (
      record {
        challenge_id = c.id;
        tenant_id = c.tenant_id;
        member_id = c.member_id;
        event_type = LinkEventType.consumed;
      }
      ∷ [])
  pure (record { tenant_id = c.tenant_id; member_id = c.member_id; session_type = 1 })

unfoldable pub bind_with : ℕ → ℤ → ℤ → Option ChallengeRow → TelegramTx Binding
unfolding raise insert_principal insert_chat update_challenges finish_link
bind_with now user_id chat_id none = raise invalid_challenge
bind_with now user_id chat_id (some c) = do
  as_conflict (insert_principal (principal_of user_id c))
  as_conflict (insert_chat (private_chat chat_id c))
  n ← update_challenges (is_still_open c.id now) (consume now user_id chat_id)
  finish_link c n

unfoldable pub consume_challenge_tx : ℕ → String → ℤ → ℤ → TelegramTx Binding
unfolding query bind_with
consume_challenge_tx now digest user_id chat_id = do
  c ← query (λ db. find (opens db digest now) db.challenges)
  bind_with now user_id chat_id c

unfoldable pub consume_canonical :
    (String → String) → ℕ → ℤ → ℤ → Option String → TelegramDb → Result Binding × TelegramDb
unfolding consume_challenge_tx transact challenge_digest
consume_canonical sha256 now user_id chat_id none db = (err invalid_challenge, db)
consume_canonical sha256 now user_id chat_id (some code) db =
    if not (is_positive user_id) || is_zero chat_id
    then (err invalid_challenge, db)
    else transact (consume_challenge_tx now (challenge_digest sha256 code) user_id chat_id) db

-- ConsumeLinkChallenge
unfoldable pub consume_link_challenge :
    (String → String) → ℕ → String → ℤ → ℤ → TelegramDb → Result Binding × TelegramDb
unfolding consume_canonical normalize_code
consume_link_challenge sha256 now code user_id chat_id db =
    consume_canonical sha256 now user_id chat_id (normalize_code code) db
