-- ===== src/Telegram/Tables.antt =====
-- The tables of internal/telegram (migrations 0009 and 0031). A Telegram id is an int64.
use open_im.Prelude.{
  ℕ, String, Bool, true, false, ◌||◌, ◌&&◌, not, Option, none, some, List, [], ◌∷◌, ◌++◌,
  if◌then◌else◌, any, count_where, update_where, ltb, ◌==◌,
}
use open_im.Prelude.Decimal.{ℤ}
use open_im.Database.Tx.{ok, err, TxOn}
use open_im.Ingress.Tables.{same_int}

-- identity.members with the status of its tenant.
pub record TenantMember : Type 0 where
  pub tenant_id : String
  pub id : String
  pub is_active : Bool
  pub is_tenant_active : Bool

pub record PrincipalRow : Type 0 where
  pub user_id : ℤ
  pub tenant_id : String
  pub member_id : String
  pub enabled : Bool

pub record ChatRow : Type 0 where
  pub chat_id : ℤ
  pub tenant_id : String
  pub session_type : ℕ
  pub enabled : Bool

pub record ChallengeRow : Type 0 where
  pub id : String
  pub tenant_id : String
  pub member_id : String
  pub code_digest : String
  pub expires_at : ℕ
  pub created_at : ℕ
  pub consumed_at : Option ℕ
  pub revoked_at : Option ℕ
  pub user_id : Option ℤ
  pub chat_id : Option ℤ

pub record OffsetRow : Type 0 where
  pub bot_id : ℤ
  pub next_update_id : ℕ

pub data LinkEventType : Type 0 where
  issued revoked consumed : LinkEventType

pub record LinkEvent : Type 0 where
  pub challenge_id : String
  pub tenant_id : String
  pub member_id : String
  pub event_type : LinkEventType

pub record TelegramDb : Type 0 where
  pub members : List TenantMember
  pub principals : List PrincipalRow
  pub chats : List ChatRow
  pub challenges : List ChallengeRow
  pub offsets : List OffsetRow
  pub link_events : List LinkEvent

abbrev pub TelegramTx : Type 0 → Type 0
TelegramTx A = TxOn TelegramDb A

abbrev pub unique_violation : String
unique_violation = "23505"

abbrev pub is_set : {A : Type 0} → Option A → Bool
is_set none = false
is_set (some _) = true

-- Neither consumed nor revoked.
abbrev pub is_open : ChallengeRow → Bool
is_open c = not (is_set c.consumed_at) && not (is_set c.revoked_at)

abbrev pub is_member_of : String → String → ChallengeRow → Bool
is_member_of tenant_id member_id c = c.tenant_id == tenant_id && c.member_id == member_id

-- The primary key, the key of the digest, and the index on the open challenge of a member.
abbrev pub clashes_with : ChallengeRow → ChallengeRow → Bool
clashes_with row c =
    c.id == row.id
    || c.code_digest == row.code_digest
    || (is_open c && is_open row && is_member_of row.tenant_id row.member_id c)

-- The key, and `CHECK (expires_at > created_at)`.
unfoldable pub insert_challenge : ChallengeRow → TelegramTx (Unit {0})
insert_challenge row db =
    if any (clashes_with row) db.challenges
    then err "insert Telegram link challenge: duplicate key"
    else if not (ltb row.created_at row.expires_at)
    then err "insert Telegram link challenge: check constraint"
    else ok (tt, record db { challenges = db.challenges ++ row ∷ [] })

unfoldable pub update_challenges :
    (ChallengeRow → Bool) → (ChallengeRow → ChallengeRow) → TelegramTx ℕ
update_challenges p f db =
    ok (count_where p db.challenges, record db { challenges = update_where p f db.challenges })

-- One user, one member.
abbrev pub holds_place : PrincipalRow → PrincipalRow → Bool
holds_place row p =
    same_int p.user_id row.user_id || (p.tenant_id == row.tenant_id && p.member_id == row.member_id)

unfoldable pub insert_principal : PrincipalRow → TelegramTx (Unit {0})
insert_principal row db =
    if any (holds_place row) db.principals
    then err unique_violation
    else ok (tt, record db { principals = db.principals ++ row ∷ [] })

unfoldable pub insert_chat : ChatRow → TelegramTx (Unit {0})
insert_chat row db =
    if any (λ (c : ChatRow). same_int c.chat_id row.chat_id) db.chats
    then err unique_violation
    else ok (tt, record db { chats = db.chats ++ row ∷ [] })

unfoldable pub insert_link_events : List LinkEvent → TelegramTx (Unit {0})
insert_link_events rows db = ok (tt, record db { link_events = db.link_events ++ rows })
