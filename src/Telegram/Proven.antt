-- ===== src/Telegram/Proven.antt =====
-- Who a Telegram user is bound to by internal/telegram/link.go and store.go.
pub mod Bound
pub mod Steps
use open_im.Prelude.{
  ℕ, ◌+◌, String, ◌≡◌, refl, sym, Bool, true, false, ◌||◌, ◌&&◌, not, Option, none, some, List, [],
  ◌∷◌, ◌++◌, arith, ◌⊎◌, inl, inr, Bool-cases, All, All-map, All-append, any, any-append,
  any-update_where, any-update_where_keep, any-update_where-find, find, find-true, if◌then◌else◌,
  ltb, eqb, ◌==◌, eq_iff,
}
use open_im.Prelude.Decimal.{ℤ, pos, negsuc, is_zero}
use open_im.Database.Tx.{Result, ok, err, transact}
use open_im.Database.Tx.Frame.{
  Keeps, After, After-then, Keeps-pure, Keeps-raise, Keeps-query, Keeps-if, Keeps-bind,
  Keeps-require_one, Keeps-transact,
}
use open_im.Ingress.Message.{is_positive}
use open_im.Ingress.Tables.{same_int}
use open_im.Telegram.Codes.{normalize_code, challenge_digest, group_code}
use open_im.Telegram.Tables.{
  PrincipalRow, ChatRow, ChallengeRow, LinkEvent, TelegramDb, TelegramTx, is_set, is_open,
  is_member_of, insert_challenge, update_challenges, insert_principal, insert_chat,
  insert_link_events, clashes_with, holds_place, unique_violation,
}
use open_im.Telegram.Store.{
  Binding, ChallengeRecord, create_challenge_tx, create_link_challenge, issue_unless,
  rotate_challenge, new_challenge, revoke, is_open_of, binding_conflict,
}
use open_im.Telegram.Consumption.{
  opens, principal_of, private_chat, consume, is_still_open, as_conflict, bind_with,
  consume_challenge_tx, consume_canonical, consume_link_challenge,
}
use open_im.Telegram.Bindings.{
  save_offset, load_offset, load_or_insert, is_bot, advance, issue_link, LinkMember,
  issued_challenge,
}

-- The challenge by which a user was bound: issued to the member, and consumed by the user.
abbrev pub is_user : ℤ → Option ℤ → Bool
is_user id none = false
is_user id (some user) = same_int user id

abbrev pub proves : PrincipalRow → ChallengeRow → Bool
proves p c =
    is_set c.consumed_at && is_user p.user_id c.user_id && is_member_of p.tenant_id p.member_id c

-- The binding was given by hand, or has its challenge.
abbrev pub IsGrounded : (PrincipalRow → Bool) → List ChallengeRow → PrincipalRow → Type 0
IsGrounded given challenges p = (given p ≡ true) ⊎ (any (proves p) challenges ≡ true)

-- Each row that was bound by hand remains so, and the others keep what proves them.
IsGrounded-map :
    (given : PrincipalRow → Bool) (cs ds : List ChallengeRow) (p : PrincipalRow)
    → (any (proves p) cs ≡ true → any (proves p) ds ≡ true)
    → IsGrounded given cs p
    → IsGrounded given ds p
IsGrounded-map given cs ds p kept (inl hand) = inl hand
IsGrounded-map given cs ds p kept (inr t) = inr (kept t)

pub record IsProven (given : PrincipalRow → Bool) (db : TelegramDb) : Type 0 where
  pub proven : All (IsGrounded given db.challenges) db.principals

-- Between the insert of the principal and the consumption of its challenge.
pub record IsClaimed (given : PrincipalRow → Bool) (k : ChallengeRow → Bool) (user : ℤ)
    (c : ChallengeRow) (db : TelegramDb) : Type 0 where
  there : find k db.challenges ≡ some c
  others :
      All
        (λ (p : PrincipalRow). IsGrounded given db.challenges p ⊎ (p ≡ principal_of user c))
        db.principals

pub same_int_refl : (z : ℤ) → same_int z z ≡ true
same_int_refl (pos n) = ground arith
same_int_refl (negsuc n) = ground arith

pub keep_events :
    {given : PrincipalRow → Bool} (rows : List LinkEvent)
    → Keeps (IsProven given) (insert_link_events rows)
unfolding insert_link_events
keep_events rows = record { at = λ db h. record { proven = h.proven } }

keep_challenge :
    {given : PrincipalRow → Bool} (row : ChallengeRow)
    → Keeps (IsProven given) (insert_challenge row)
unfolding insert_challenge
keep_challenge {given = given} row = record {
  at = λ db h. elim (Bool-cases (any (clashes_with row) db.challenges)) [
    | inl e ↦ rw e tt
    | inr e ↦ elim (Bool-cases (ltb row.created_at row.expires_at)) [
      | inl f ↦
          rw (e, f)
            (record {
              proven =
                  All-map _ _ db.principals
                    (λ p.
                      IsGrounded-map given db.challenges (db.challenges ++ row ∷ []) p
                        (λ t. any-append (proves p) db.challenges (row ∷ []) t))
                    h.proven;
            })
      | inr f ↦ rw (e, f) tt
    ]
  ];
}

keep_revoke :
    {given : PrincipalRow → Bool} (p : ChallengeRow → Bool) (now : ℕ)
    → Keeps (IsProven given) (update_challenges p (revoke now))
unfolding update_challenges
keep_revoke {given = given} p now = record {
  at = λ db h. record {
    proven =
        All-map _ _ db.principals
          (λ q.
            IsGrounded-map given db.challenges
              (open_im.Prelude.update_where p (revoke now) db.challenges) q
              (λ t. any-update_where_keep (proves q) p (revoke now) db.challenges (λ c _ u. u) t))
          h.proven;
  };
}

ruleset proven_rules = (
  Keeps-pure, Keeps-raise, Keeps-query, Keeps-if, Keeps-bind, Keeps-require_one, keep_events,
  keep_challenge, keep_revoke,
)

keep_rotation :
    {given : PrincipalRow → Bool} (now : ℕ) (r : ChallengeRecord)
    → Keeps (IsProven given) (rotate_challenge now r)
unfolding rotate_challenge
keep_rotation now r = search proven_rules depth 9

keep_unless :
    {given : PrincipalRow → Bool} (active is_bound limited : Bool) (now : ℕ) (r : ChallengeRecord)
    → Keeps (IsProven given) (issue_unless active is_bound limited now r)
unfolding issue_unless
keep_unless active is_bound limited now r = search (proven_rules, keep_rotation) depth 9

pub keep_creation :
    {given : PrincipalRow → Bool} (now : ℕ) (r : ChallengeRecord) (cooldown : ℕ)
    → Keeps (IsProven given) (create_challenge_tx now r cooldown)
unfolding create_challenge_tx
keep_creation now r cooldown = search (proven_rules, keep_unless) depth 9

pub as_conflict-After :
    {A : Type 0} (Q : TelegramDb → Type 0) (m : TelegramTx A) (db : TelegramDb)
    → After Q (m db)
    → After Q (as_conflict m db)
as_conflict-After {A} Q m db h = conflict (m db) h
  where
    conflict :
        (r : Result (A × TelegramDb))
        → After Q r
        → After Q (elim r [
          | ok x ↦ ok x
          | err e ↦ if e == unique_violation then err binding_conflict else err e
        ])
    conflict (ok (a, t)) k = k
    conflict (err e) k = elim (Bool-cases (e == unique_violation)) [
      | inl b ↦ rw b tt
      | inr b ↦ rw b tt
    ]

module _ {given : PrincipalRow → Bool} (k : ChallengeRow → Bool) (now : ℕ) (user chat : ℤ)
    (c : ChallengeRow) (fits : (is_open c && ltb now c.expires_at) ≡ true) where
  pub principal-IsClaimed :
      (db : TelegramDb)
      → find k db.challenges ≡ some c
      → IsProven given db
      → After (IsClaimed given k user c) (insert_principal (principal_of user c) db)
  unfolding insert_principal
  principal-IsClaimed db there h =
      elim (Bool-cases (any (holds_place (principal_of user c)) db.principals)) [
        | inl e ↦ rw e tt
        | inr e ↦ rw e (record {
          there = there;
          others =
              All-append _ db.principals _ (All-map _ _ db.principals (λ p t. inl t) h.proven)
                (inr refl, tt);
        })
      ]

  pub chat-IsClaimed :
      (row : ChatRow) (db : TelegramDb)
      → IsClaimed given k user c db
      → After (IsClaimed given k user c) (insert_chat row db)
  unfolding insert_chat
  chat-IsClaimed row db h =
      elim (Bool-cases (any (λ (x : ChatRow). same_int x.chat_id row.chat_id) db.chats)) [
        | inl e ↦ rw e tt
        | inr e ↦ rw e (record { there = h.there; others = h.others })
      ]

  pub consumed-IsProven :
      (db : TelegramDb)
      → IsClaimed given k user c db
      → After
          (IsProven given)
          (update_challenges (is_still_open c.id now) (consume now user chat) db)
  unfolding update_challenges
  consumed-IsProven db h = record { proven = All-map _ _ db.principals each h.others }
    where
      fresh :
          (p : PrincipalRow) → p ≡ principal_of user c → proves p (consume now user chat c) ≡ true
      fresh p e =
          rw
            (
              e,
              same_int_refl user,
              (eq_iff c.tenant_id c.tenant_id).1 refl,
              (eq_iff c.member_id c.member_id).1 refl,
            )
            refl

      each :
          (p : PrincipalRow)
          → IsGrounded given db.challenges p ⊎ (p ≡ principal_of user c)
          → IsGrounded given
              (open_im.Prelude.update_where
                (is_still_open c.id now)
                (consume now user chat)
                db.challenges)
              p
      each p (inl (inl hand)) = inl hand
      each p (inl (inr t)) = inr (
          any-update_where_keep (proves p) (is_still_open c.id now) (consume now user chat)
            db.challenges (λ x open_row done. absurd (ground arith)) t)
      each p (inr e) = inr (
          any-update_where-find k (proves p) (is_still_open c.id now) (consume now user chat)
            db.challenges {x = c} h.there (rw ((eq_iff c.id c.id).1 refl) fits) (fresh p e))
