-- ===== src/Telegram/Store.antt =====
-- internal/telegram/store.go, GetLinkStatus and CreateLinkChallenge. `now()` is an argument; times are
-- microseconds.
use open_im.Prelude.{
  ℕ, ◌+◌, ◌*◌, String, Bool, ◌||◌, ◌&&◌, not, Option, none, some, [], ◌∷◌, if◌then◌else◌, any, map,
  first_by, select_where, eqb, ltb, ◌==◌,
}
use open_im.Database.Tx.{Result, ok, err, ◌>>=◌, ◌>>◌, raise, query, transact}
use open_im.Delivery.Statements.{duration_seconds}
use open_im.Telegram.Tables.{
  TenantMember, PrincipalRow, ChallengeRow, LinkEventType, LinkEvent, TelegramDb, TelegramTx,
  is_open, is_member_of, insert_challenge, update_challenges, insert_link_events,
}

pub record Binding : Type 0 where
  pub tenant_id : String
  pub member_id : String
  pub session_type : ℕ

pub data LinkState : Type 0 where
  bound unbound : LinkState
  pending : ℕ → LinkState

abbrev pub is_bound_to : String → String → PrincipalRow → Bool
is_bound_to tenant_id member_id p = p.tenant_id == tenant_id && p.member_id == member_id

abbrev pub is_pending : String → String → ℕ → ChallengeRow → Bool
is_pending tenant_id member_id now c =
    is_member_of tenant_id member_id c && is_open c && ltb now c.expires_at

-- `ORDER BY created_at DESC LIMIT 1`
abbrev pub is_newer : ChallengeRow → ChallengeRow → Bool
is_newer a b = ltb b.created_at a.created_at

abbrev pub state_of : Option ChallengeRow → LinkState
state_of none = LinkState.unbound
state_of (some c) = LinkState.pending c.expires_at

-- GetLinkStatus
unfoldable pub get_link_status : ℕ → String → String → TelegramDb → Result LinkState
get_link_status now tenant_id member_id db =
    if tenant_id == "" || member_id == ""
    then err "Telegram link status identity is invalid"
    else if any (is_bound_to tenant_id member_id) db.principals
    then ok LinkState.bound
    else ok (
        state_of
          (first_by is_newer (select_where (is_pending tenant_id member_id now) db.challenges)))

pub record ChallengeRecord : Type 0 where
  pub id : String
  pub tenant_id : String
  pub member_id : String
  pub code_digest : String
  pub expires_at : ℕ

abbrev pub already_bound : String
already_bound = "Telegram member is already bound"

abbrev pub rate_limited : String
rate_limited = "Telegram link challenge is rate limited"

abbrev pub invalid_challenge : String
invalid_challenge = "Telegram link challenge is invalid or expired"

abbrev pub binding_conflict : String
binding_conflict = "Telegram identity binding conflicts with an existing binding"

abbrev pub unbound_chat : String
unbound_chat = "Telegram principal or chat is not bound"

abbrev pub is_active_member : String → String → TenantMember → Bool
is_active_member tenant_id member_id m =
    m.tenant_id == tenant_id && m.id == member_id && m.is_active && m.is_tenant_active

-- `created_at > now() - make_interval(secs => $3)`
abbrev pub is_recent : String → String → ℕ → ℕ → ChallengeRow → Bool
is_recent tenant_id member_id now seconds c =
    is_member_of tenant_id member_id c && ltb now (c.created_at + seconds * 1_000_000)

abbrev pub revoke : ℕ → ChallengeRow → ChallengeRow
revoke now c = record c { revoked_at = some now }

abbrev pub revocation_of : ChallengeRow → LinkEvent
revocation_of c = record {
  challenge_id = c.id;
  tenant_id = c.tenant_id;
  member_id = c.member_id;
  event_type = LinkEventType.revoked;
}

abbrev pub new_challenge : ℕ → ChallengeRecord → ChallengeRow
new_challenge now r = record {
  id = r.id;
  tenant_id = r.tenant_id;
  member_id = r.member_id;
  code_digest = r.code_digest;
  expires_at = r.expires_at;
  created_at = now;
  consumed_at = none;
  revoked_at = none;
  user_id = none;
  chat_id = none;
}

abbrev pub is_open_of : String → String → ChallengeRow → Bool
is_open_of tenant_id member_id c = is_member_of tenant_id member_id c && is_open c

-- What follows the checks: the open challenge of the member is revoked, and the new one inserted.
unfoldable pub rotate_challenge : ℕ → ChallengeRecord → TelegramTx (Unit {0})
unfolding query update_challenges insert_link_events insert_challenge
rotate_challenge now r = do
  revoked ← query (λ db. select_where (is_open_of r.tenant_id r.member_id) db.challenges)
  update_challenges (is_open_of r.tenant_id r.member_id) (revoke now)
  insert_link_events (map revocation_of revoked)
  insert_challenge (new_challenge now r)
  insert_link_events (
      record {
        challenge_id = r.id;
        tenant_id = r.tenant_id;
        member_id = r.member_id;
        event_type = LinkEventType.issued;
      }
      ∷ [])

unfoldable pub issue_unless : Bool → Bool → Bool → ℕ → ChallengeRecord → TelegramTx (Unit {0})
unfolding raise rotate_challenge
issue_unless active is_bound limited now r =
    if not active
    then raise "Telegram link member is not active"
    else if is_bound
    then raise already_bound
    else if limited
    then raise rate_limited
    else rotate_challenge now r

unfoldable pub create_challenge_tx : ℕ → ChallengeRecord → ℕ → TelegramTx (Unit {0})
unfolding query issue_unless
create_challenge_tx now r cooldown = do
  active ← query (λ db. any (is_active_member r.tenant_id r.member_id) db.members)
  is_bound ← query (λ db. any (is_bound_to r.tenant_id r.member_id) db.principals)
  limited ←
      query (λ db.
        any (is_recent r.tenant_id r.member_id now (duration_seconds cooldown)) db.challenges)
  issue_unless active is_bound limited now r

abbrev pub is_invalid : (String → Bool) → ChallengeRecord → ℕ → Bool
is_invalid is_digest r cooldown =
    r.id == ""
    || r.tenant_id == ""
    || r.member_id == ""
    || not (is_digest r.code_digest)
    || eqb r.expires_at 0
    || eqb cooldown 0

-- CreateLinkChallenge. `is_digest` is the pattern of 64 hexadecimal digits.
unfoldable pub create_link_challenge :
    (String → Bool) → ℕ → ChallengeRecord → ℕ → TelegramDb → Result (Unit {0}) × TelegramDb
unfolding create_challenge_tx transact
create_link_challenge is_digest now r cooldown db =
    if is_invalid is_digest r cooldown
    then (err "Telegram link challenge fields are invalid", db)
    else transact (create_challenge_tx now r cooldown) db
