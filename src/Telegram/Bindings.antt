-- ===== src/Telegram/Bindings.antt =====
-- internal/telegram/store.go, ResolveBinding, LoadOffset, SaveOffset and Bind, and link.go, Issue
-- and Status.
use open_im.Prelude.{
  ℕ, ◌+◌, String, Bool, true, false, ◌||◌, ◌&&◌, not, Option, none, some, [], ◌∷◌, ◌++◌,
  if◌then◌else◌, any, find, eqb, leb, count_where, update_where, append, ◌==◌,
}
use open_im.Prelude.Decimal.{ℤ, is_zero}
use open_im.Database.Tx.{Result, ok, err, ◌>>=◌, ◌>>◌, raise, query, require_one, transact}
use open_im.Ingress.Message.{is_positive}
use open_im.Ingress.Tables.{same_int}
use open_im.Telegram.Codes.{challenge_digest, group_code}
use open_im.Telegram.Tables.{PrincipalRow, ChatRow, OffsetRow, TelegramDb, TelegramTx}
use open_im.Telegram.Store.{
  ChallengeRecord, Binding, LinkState, unbound_chat, already_bound, rate_limited, is_active_member,
  create_link_challenge, get_link_status,
}

-- ResolveBinding: the row of the join, which has one user and one chat.
abbrev pub binding_with : TelegramDb → PrincipalRow → Option ChatRow → Result Binding
binding_with db p none = err unbound_chat
binding_with db p (some c) =
    if any (is_active_member p.tenant_id p.member_id) db.members && p.enabled && c.enabled
    then ok
        (record { tenant_id = p.tenant_id; member_id = p.member_id; session_type = c.session_type })
    else err unbound_chat

abbrev pub binding_of : TelegramDb → ℤ → Option PrincipalRow → Result Binding
binding_of db chat_id none = err unbound_chat
binding_of db chat_id (some p) =
    binding_with db p
      (find (λ (c : ChatRow). same_int c.chat_id chat_id && c.tenant_id == p.tenant_id) db.chats)

unfoldable pub resolve_binding : ℤ → ℤ → TelegramDb → Result Binding
resolve_binding user_id chat_id db =
    binding_of db chat_id (find (λ (p : PrincipalRow). same_int p.user_id user_id) db.principals)

-- LoadOffset
abbrev pub is_bot : ℤ → OffsetRow → Bool
is_bot id o = same_int o.bot_id id

abbrev pub load_or_insert : ℤ → Option OffsetRow → TelegramDb → ℕ × TelegramDb
load_or_insert bot_id (some o) db = (o.next_update_id, db)
load_or_insert bot_id none db =
    (0, record db { offsets = db.offsets ++ record { bot_id = bot_id; next_update_id = 0 } ∷ [] })

unfoldable pub load_offset : ℤ → TelegramDb → ℕ × TelegramDb
load_offset bot_id db = load_or_insert bot_id (find (is_bot bot_id) db.offsets) db

-- SaveOffset: `GREATEST(next_update_id, $2)`
abbrev pub advance : ℕ → OffsetRow → OffsetRow
advance next o = record o {
  next_update_id = if leb o.next_update_id next then next else o.next_update_id;
}

unfoldable pub save_offset : ℤ → ℕ → TelegramDb → Result (Unit {0}) × TelegramDb
save_offset bot_id next db =
    if eqb (count_where (is_bot bot_id) db.offsets) 1
    then (ok tt, record db { offsets = update_where (is_bot bot_id) (advance next) db.offsets })
    else (err "save Telegram offset: Bot offset row is missing", db)

-- Bind, with `ON CONFLICT … DO UPDATE … WHERE` as the rows that it affects.
unfoldable pub upsert_principal : PrincipalRow → Option PrincipalRow → TelegramTx ℕ
upsert_principal row none db =
    if any (λ (p : PrincipalRow). p.tenant_id == row.tenant_id && p.member_id == row.member_id)
      db.principals
    then err "bind Telegram principal: duplicate key"
    else ok (1, record db { principals = db.principals ++ row ∷ [] })
upsert_principal row (some p) db =
    ok (if p.tenant_id == row.tenant_id && p.member_id == row.member_id then (1, db) else (0, db))

unfoldable pub upsert_chat : ChatRow → Option ChatRow → TelegramTx ℕ
upsert_chat row none db = ok (1, record db { chats = db.chats ++ row ∷ [] })
upsert_chat row (some c) db = ok (
    if c.tenant_id == row.tenant_id && eqb c.session_type row.session_type
    then (1, db)
    else (0, db))

unfoldable pub bind_active : PrincipalRow → ChatRow → Bool → TelegramTx (Unit {0})
unfolding raise query upsert_principal upsert_chat require_one
bind_active principal chat false = raise "Telegram binding member is not active"
bind_active principal chat true = do
  p ← query (λ db. find (λ (q : PrincipalRow). same_int q.user_id principal.user_id) db.principals)
  n ← upsert_principal principal p
  require_one n "Telegram principal is already bound to a different member"
  c ← query (λ db. find (λ (d : ChatRow). same_int d.chat_id chat.chat_id) db.chats)
  k ← upsert_chat chat c
  require_one k "Telegram chat is already bound to a different tenant or session type"

unfoldable pub bind_tx : PrincipalRow → ChatRow → TelegramTx (Unit {0})
unfolding query bind_active
bind_tx principal chat = do
  active ← query (λ db. any (is_active_member principal.tenant_id principal.member_id) db.members)
  bind_active principal chat active

unfoldable pub bind : ℤ → ℤ → String → String → ℕ → TelegramDb → Result (Unit {0}) × TelegramDb
unfolding bind_tx transact
bind user_id chat_id tenant_id member_id session_type db =
    if not (is_positive user_id)
      || is_zero chat_id
      || tenant_id == ""
      || member_id == ""
      || not (eqb session_type 1 || eqb session_type 2)
    then (err "Telegram binding fields are invalid", db)
    else transact
        (bind_tx
          (record {
            user_id = user_id;
            tenant_id = tenant_id;
            member_id = member_id;
            enabled = true;
          })
          (record {
            chat_id = chat_id;
            tenant_id = tenant_id;
            session_type = session_type;
            enabled = true;
          }))
        db

-- LinkService: the member that the token and the device resolve to is an argument.
pub record LinkMember : Type 0 where
  pub tenant_id : String
  pub id : String

pub record LinkChallenge : Type 0 where
  pub code : String
  pub command : String
  pub expires_at : ℕ

abbrev pub unavailable : String → String → String
unavailable what e = append "required dependency is unavailable: " (append what (append ": " e))

unfoldable pub link_status : ℕ → Result LinkMember → TelegramDb → Result LinkState
unfolding get_link_status
link_status now (err e) db = err e
link_status now (ok m) db = elim (get_link_status now m.tenant_id m.id db) [
  | ok s ↦ ok s
  | err e ↦ err (unavailable "read Telegram link status" e)
]

-- The answer once the challenge is stored; grouping a code that is not of whole groups panics.
abbrev pub shown_challenge : ℕ → Option String → Option LinkChallenge
shown_challenge expires none = none
shown_challenge expires (some code) =
    some (record { code = code; command = append "/link " code; expires_at = expires })

abbrev pub issue_failed : String → String
issue_failed e =
    if e == already_bound || e == rate_limited
    then e
    else unavailable "create Telegram link challenge" e

abbrev pub issued_challenge :
    ℕ → String → Result (Unit {0}) × TelegramDb → Result (Option LinkChallenge) × TelegramDb
issued_challenge expires code (err e, db) = (err (issue_failed e), db)
issued_challenge expires code (ok _, db) = (ok (shown_challenge expires (group_code code)), db)

unfoldable pub challenge_record :
    (String → String) → ℕ → String → String → ℕ → LinkMember → ChallengeRecord
unfolding challenge_digest
challenge_record sha256 now code id ttl m = record {
  id = id;
  tenant_id = m.tenant_id;
  member_id = m.id;
  code_digest = challenge_digest sha256 code;
  expires_at = now + ttl;
}

-- Issue, with the drawn code and id, the ttl in microseconds and the cooldown in nanoseconds.
unfoldable pub issue_link :
    (String → Bool)
    → (String → String)
    → ℕ
    → String
    → String
    → ℕ
    → ℕ
    → Result LinkMember
    → TelegramDb
    → Result (Option LinkChallenge) × TelegramDb
unfolding create_link_challenge group_code challenge_record
issue_link is_digest sha256 now code id ttl cooldown (err e) db = (err e, db)
issue_link is_digest sha256 now code id ttl cooldown (ok m) db =
    issued_challenge (now + ttl) code
      (create_link_challenge is_digest now (challenge_record sha256 now code id ttl m) cooldown db)
