-- ===== src/Telegram/Proven/Steps.antt =====
-- Every sequence of the operations of linking, and the bindings that it leaves.
use open_im.Prelude.{
  List, ◌∷◌, ℕ, ◌+◌, String, ◌≡◌, refl, Bool, true, ◌||◌, ◌&&◌, not, Option, none, some, arith,
  Bool-cases, inl, inr, find, find-true, ltb, eqb, count_where,
}
use open_im.Prelude.Decimal.{ℤ, is_zero}
use open_im.Database.Tx.{raise, Result, ok, err, transact}
use open_im.Database.Tx.Frame.{
  Keeps, After, After-then, Keeps-pure, Keeps-bind, Keeps-require_one, Keeps-transact,
}
use open_im.Ingress.Message.{is_positive}
use open_im.Telegram.Codes.{normalize_code, challenge_digest, group_code}
use open_im.Telegram.Tables.{
  PrincipalRow, ChallengeRow, OffsetRow, TelegramDb, is_open, insert_principal, insert_chat,
  update_challenges,
}
use open_im.Telegram.Store.{ChallengeRecord, create_link_challenge, is_invalid}
use open_im.Telegram.Consumption.{
  opens, principal_of, private_chat, consume, is_still_open, as_conflict, finish_link, bind_with,
  consume_challenge_tx, consume_canonical, consume_link_challenge,
}
use open_im.Telegram.Bindings.{
  save_offset, load_offset, load_or_insert, is_bot, issue_link, challenge_record, LinkMember,
  issued_challenge, bind,
}
use open_im.Telegram.Proven.{
  IsProven, IsClaimed, keep_events, keep_creation, as_conflict-After, principal-IsClaimed,
  chat-IsClaimed, consumed-IsProven,
}
use open_im.Telegram.Proven.Bound.{is_given, named, bind-IsProven, IsProven-name, is_given-named}

keep_finish :
    {given : PrincipalRow → Bool} (c : ChallengeRow) (n : ℕ)
    → Keeps (IsProven given) (finish_link c n)
unfolding finish_link
keep_finish c n = search (Keeps-bind, Keeps-require_one, Keeps-pure, keep_events) depth 6

bound-IsProven :
    {given : PrincipalRow → Bool} (now : ℕ) (user chat : ℤ) (k : ChallengeRow → Bool)
    (o : Option ChallengeRow)
    → ((c : ChallengeRow) → k c ≡ true → (is_open c && ltb now c.expires_at) ≡ true)
    → (db : TelegramDb) → find k db.challenges ≡ o
    → IsProven given db
    → After (IsProven given) (bind_with now user chat o db)
unfolding bind_with raise
bound-IsProven {given = given} now user chat k none fits db there h = tt
bound-IsProven {given = given} now user chat k (some c) fits db there h =
    let open_row = fits c (find-true k db.challenges {x = c} there) in
    After-then (IsClaimed given k user c) (IsProven given) _
      (as_conflict (insert_principal (principal_of user c))) db
      (as_conflict-After (IsClaimed given k user c) (insert_principal (principal_of user c)) db
        (principal-IsClaimed k now user chat c open_row db there h))
      (λ _ db1 h1.
        After-then (IsClaimed given k user c) (IsProven given) _
          (as_conflict (insert_chat (private_chat chat c))) db1
          (as_conflict-After (IsClaimed given k user c) (insert_chat (private_chat chat c)) db1
            (chat-IsClaimed k now user chat c open_row (private_chat chat c) db1 h1))
          (λ _ db2 h2.
            After-then (IsProven given) (IsProven given) _
              (update_challenges (is_still_open c.id now) (consume now user chat)) db2
              (consumed-IsProven k now user chat c open_row db2 h2)
              (λ n db3 h3. (keep_finish c n).at db3 h3)))

keep_consumption :
    {given : PrincipalRow → Bool} (now : ℕ) (digest : String) (user chat : ℤ)
    → Keeps (IsProven given) (consume_challenge_tx now digest user chat)
unfolding consume_challenge_tx open_im.Database.Tx.query
keep_consumption now digest user chat = record {
  at = λ db h.
      bound-IsProven now user chat (opens db digest now) (find (opens db digest now) db.challenges)
        (λ c e. ground arith) db refl h;
}

canonical-IsProven :
    {given : PrincipalRow → Bool} (sha256 : String → String) (now : ℕ) (user chat : ℤ)
    (code : Option String) (db : TelegramDb)
    → IsProven given db
    → IsProven given (consume_canonical sha256 now user chat code db).1
unfolding consume_canonical
canonical-IsProven sha256 now user chat none db h = h
canonical-IsProven {given = given} sha256 now user chat (some code) db h =
    elim (Bool-cases (not (is_positive user) || is_zero chat)) [
      | inl e ↦ rw e h
      | inr e ↦ rw e (
          Keeps-transact {P = IsProven given} _ db
            (keep_consumption now (challenge_digest sha256 code) user chat) h)
    ]

created-IsProven :
    {given : PrincipalRow → Bool} (is_digest : String → Bool) (now : ℕ) (r : ChallengeRecord)
    (cooldown : ℕ) (db : TelegramDb)
    → IsProven given db
    → IsProven given (create_link_challenge is_digest now r cooldown db).1
unfolding create_link_challenge
created-IsProven {given = given} is_digest now r cooldown db h =
    elim (Bool-cases (is_invalid is_digest r cooldown)) [
      | inl e ↦ rw e h
      | inr e ↦ rw e (Keeps-transact {P = IsProven given} _ db (keep_creation now r cooldown) h)
    ]

challenge-IsProven :
    {given : PrincipalRow → Bool} (expires : ℕ) (code : String) (x : Result (Unit {0}) × TelegramDb)
    → IsProven given x.1
    → IsProven given (issued_challenge expires code x).1
unfolding group_code
challenge-IsProven expires code (ok _, db) h = h
challenge-IsProven expires code (err e, db) h = h

issued-IsProven :
    {given : PrincipalRow → Bool} (is_digest : String → Bool) (sha256 : String → String) (now : ℕ)
    (code id : String) (ttl cooldown : ℕ) (member : Result LinkMember) (db : TelegramDb)
    → IsProven given db
    → IsProven given (issue_link is_digest sha256 now code id ttl cooldown member db).1
unfolding issue_link
issued-IsProven is_digest sha256 now code id ttl cooldown (err e) db h = h
issued-IsProven is_digest sha256 now code id ttl cooldown (ok m) db h =
    let r = challenge_record sha256 now code id ttl m in
    challenge-IsProven (now + ttl) code (create_link_challenge is_digest now r cooldown db)
      (created-IsProven is_digest now r cooldown db h)

loaded-IsProven :
    {given : PrincipalRow → Bool} (bot : ℤ) (o : Option OffsetRow) (db : TelegramDb)
    → IsProven given db
    → IsProven given (load_or_insert bot o db).1
loaded-IsProven bot none db h = record { proven = h.proven }
loaded-IsProven bot (some o) db h = h

saved-IsProven :
    {given : PrincipalRow → Bool} (bot : ℤ) (next : ℕ) (db : TelegramDb)
    → IsProven given db
    → IsProven given (save_offset bot next db).1
unfolding save_offset
saved-IsProven bot next db h = elim (Bool-cases (eqb (count_where (is_bot bot) db.offsets) 1)) [
  | inl e ↦ rw e (record { proven = h.proven })
  | inr e ↦ rw e h
]

-- The tables, and the principals that were named by hand.
pub record LinkWorld : Type 0 where
  pub db : TelegramDb
  pub by_hand : List PrincipalRow

-- The operations on bindings, challenges and offsets, by anyone, in any order.
pub data LinkSteps (is_digest : String → Bool) (sha256 : String → String) (s : LinkWorld)
    : LinkWorld → Type 0 where
  here : LinkSteps is_digest sha256 s s
  issued :
      {w : LinkWorld}
      → LinkSteps is_digest sha256 s w
      → (now : ℕ) (code id : String) (ttl cooldown : ℕ) (member : Result LinkMember)
      → LinkSteps is_digest sha256 s
          (record w { db = (issue_link is_digest sha256 now code id ttl cooldown member w.db).1 })
  consumed :
      {w : LinkWorld}
      → LinkSteps is_digest sha256 s w
      → (now : ℕ) (code : String) (user chat : ℤ)
      → LinkSteps is_digest sha256 s
          (record w { db = (consume_link_challenge sha256 now code user chat w.db).1 })
  loaded :
      {w : LinkWorld}
      → LinkSteps is_digest sha256 s w
      → (bot : ℤ) → LinkSteps is_digest sha256 s (record w { db = (load_offset bot w.db).1 })
  saved :
      {w : LinkWorld}
      → LinkSteps is_digest sha256 s w
      → (bot : ℤ) (next : ℕ)
      → LinkSteps is_digest sha256 s (record w { db = (save_offset bot next w.db).1 })
  bound :
      {w : LinkWorld}
      → LinkSteps is_digest sha256 s w
      → (user chat : ℤ) (tenant_id member_id : String) (session_type : ℕ)
      → LinkSteps is_digest sha256 s (record w {
        db = (bind user chat tenant_id member_id session_type w.db).1;
        by_hand = named user tenant_id member_id ∷ w.by_hand;
      })

-- Whatever challenges are issued and consumed, by whomever, whatever bindings the administrator makes
-- by hand, and whatever offsets are loaded and saved, in any order: each Telegram user that is bound
-- to a member has consumed a challenge that was issued to that very member of that tenant, or was
-- named for that very member of that tenant in a call of Bind, if this was so at first.
pub LinkSteps-IsProven :
    (is_digest : String → Bool) (sha256 : String → String) {s w : LinkWorld}
    → LinkSteps is_digest sha256 s w
    → IsProven (is_given s.by_hand) s.db
    → IsProven (is_given w.by_hand) w.db
unfolding consume_link_challenge load_offset
LinkSteps-IsProven is_digest sha256 here h = h
LinkSteps-IsProven is_digest sha256 (issued {w} before now code id ttl cooldown member) h =
    issued-IsProven is_digest sha256 now code id ttl cooldown member w.db
      (LinkSteps-IsProven is_digest sha256 before h)
LinkSteps-IsProven is_digest sha256 (consumed {w} before now code user chat) h =
    canonical-IsProven sha256 now user chat (normalize_code code) w.db
      (LinkSteps-IsProven is_digest sha256 before h)
LinkSteps-IsProven is_digest sha256 (loaded {w} before bot) h =
    loaded-IsProven bot (find (is_bot bot) w.db.offsets) w.db
      (LinkSteps-IsProven is_digest sha256 before h)
LinkSteps-IsProven is_digest sha256 (saved {w} before bot next) h =
    saved-IsProven bot next w.db (LinkSteps-IsProven is_digest sha256 before h)
LinkSteps-IsProven is_digest sha256 (bound {w} before user chat tenant_id member_id session_type)
      h =
    bind-IsProven user chat tenant_id member_id session_type w.db
      (is_given-named user tenant_id member_id w.by_hand)
      (IsProven-name (named user tenant_id member_id) w.by_hand w.db
        (LinkSteps-IsProven is_digest sha256 before h))
