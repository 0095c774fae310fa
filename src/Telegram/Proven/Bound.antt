-- ===== src/Telegram/Proven/Bound.antt =====
-- Bind of internal/telegram/store.go, which binds a user by hand, under the invariant of bindings.
use open_im.Prelude.{
  List, [], ◌∷◌, any, All-map, All-append, ◌==◌, eq_iff, false, ℕ, String, ◌≡◌, refl, Bool, true,
  ◌||◌, ◌&&◌, not, Option, none, some, arith, Bool-cases, inl, inr, eqb,
}
use open_im.Prelude.Decimal.{ℤ, is_zero}
use open_im.Database.Tx.Frame.{
  Keeps, Keeps-raise, Keeps-query, Keeps-bind, Keeps-require_one, Keeps-transact,
}
use open_im.Ingress.Message.{is_positive}
use open_im.Telegram.Tables.{PrincipalRow, ChatRow, TelegramDb}
use open_im.Telegram.Bindings.{bind, bind_tx, bind_active, upsert_principal, upsert_chat}
use open_im.Ingress.Tables.{same_int}
use open_im.Telegram.Proven.{IsGrounded, same_int_refl, IsProven}

-- The member for whom Bind of telegram/store.go, run by cmd/telegram-admin, has named the user.
abbrev pub is_given : List PrincipalRow → PrincipalRow → Bool
is_given by_hand p =
    any
      (λ (q : PrincipalRow).
        same_int q.user_id p.user_id && q.tenant_id == p.tenant_id && q.member_id == p.member_id)
      by_hand

upsert-IsProven :
    {given : PrincipalRow → Bool} (row : PrincipalRow) (o : Option PrincipalRow)
    → given row ≡ true
    → Keeps (IsProven given) (upsert_principal row o)
unfolding upsert_principal
upsert-IsProven {given = given} row none hand = record {
  at = λ db h.
      elim (Bool-cases (
        any (λ (p : PrincipalRow). p.tenant_id == row.tenant_id && p.member_id == row.member_id)
          db.principals)) [
            | inl e ↦ rw e tt
            | inr e ↦ rw e (record {
              proven =
                  All-append (IsGrounded given db.challenges) db.principals (row ∷ []) h.proven
                    (inl hand, tt);
            })
          ];
}
upsert-IsProven row (some p) hand = record {
  at = λ db h. elim (Bool-cases (p.tenant_id == row.tenant_id && p.member_id == row.member_id)) [
    | inl e ↦ rw e h
    | inr e ↦ rw e h
  ];
}

chat-IsProven :
    {given : PrincipalRow → Bool} (row : ChatRow) (o : Option ChatRow)
    → Keeps (IsProven given) (upsert_chat row o)
unfolding upsert_chat
chat-IsProven row none = record { at = λ db h. record { proven = h.proven } }
chat-IsProven row (some c) = record {
  at = λ db h.
      elim (Bool-cases (c.tenant_id == row.tenant_id && eqb c.session_type row.session_type)) [
        | inl e ↦ rw e h
        | inr e ↦ rw e h
      ];
}

active-IsProven :
    {given : PrincipalRow → Bool} (row : PrincipalRow) (chat : ChatRow) (active : Bool)
    → given row ≡ true
    → Keeps (IsProven given) (bind_active row chat active)
unfolding bind_active
active-IsProven row chat false hand = Keeps-raise "Telegram binding member is not active"
active-IsProven row chat true hand =
    search (Keeps-bind, Keeps-query, Keeps-require_one, upsert-IsProven, chat-IsProven) depth 9

tx-IsProven :
    {given : PrincipalRow → Bool} (row : PrincipalRow) (chat : ChatRow)
    → given row ≡ true
    → Keeps (IsProven given) (bind_tx row chat)
unfolding bind_tx
tx-IsProven row chat hand = search (Keeps-bind, Keeps-query, active-IsProven) depth 5

-- The principal that a Bind names.
abbrev pub named : ℤ → String → String → PrincipalRow
named user_id tenant_id member_id = record {
  user_id = user_id;
  tenant_id = tenant_id;
  member_id = member_id;
  enabled = true;
}

pub bind-IsProven :
    {given : PrincipalRow → Bool} (user chat : ℤ) (tenant_id member_id : String) (session_type : ℕ)
    (db : TelegramDb)
    → given (named user tenant_id member_id) ≡ true
    → IsProven given db
    → IsProven given (bind user chat tenant_id member_id session_type db).1
unfolding bind
bind-IsProven {given = given} user chat tenant_id member_id session_type db hand h =
    elim (Bool-cases (
      not (is_positive user)
      || is_zero chat
      || tenant_id == ""
      || member_id == ""
      || not (eqb session_type 1 || eqb session_type 2))) [
        | inl e ↦ rw e h
        | inr e ↦ rw e (
            Keeps-transact {P = IsProven given} _ db
              (tx-IsProven (named user tenant_id member_id)
                (record {
                  chat_id = chat;
                  tenant_id = tenant_id;
                  session_type = session_type;
                  enabled = true;
                })
                hand)
              h)
      ]

-- One more principal is named.
pub IsProven-name :
    (row : PrincipalRow) (by_hand : List PrincipalRow) (db : TelegramDb)
    → IsProven (is_given by_hand) db
    → IsProven (is_given (row ∷ by_hand)) db
IsProven-name row by_hand db h = record {
  proven =
      All-map (IsGrounded (is_given by_hand) db.challenges)
        (IsGrounded (is_given (row ∷ by_hand)) db.challenges) db.principals widened h.proven;
}
  where
    widened :
        (p : PrincipalRow)
        → IsGrounded (is_given by_hand) db.challenges p
        → IsGrounded (is_given (row ∷ by_hand)) db.challenges p
    widened p (inl hand) = inl (ground arith)
    widened p (inr t) = inr t

pub is_given-named :
    (user : ℤ) (tenant_id member_id : String) (by_hand : List PrincipalRow)
    → is_given (named user tenant_id member_id ∷ by_hand) (named user tenant_id member_id) ≡ true
is_given-named user tenant_id member_id by_hand =
    rw
      (same_int_refl user, (eq_iff tenant_id tenant_id).1 refl, (eq_iff member_id member_id).1 refl)
      refl
