-- ===== src/Telegram/Covered.antt =====
-- No update of an answer is passed over by internal/telegram/poller.go, since it sorts them first.
use open_im.Prelude.{
  ℕ, ◌+◌, ◌≤◌, String, ◌≡◌, refl, sym, ap, Bool, true, false, ◌||◌, Option, none, some, List, [],
  ◌∷◌, arith, All, All-map, Bool-cases, ◌⊎◌, inl, inr, if◌then◌else◌, ltb, leb, any, eqb,
}
use open_im.Database.Tx.{Result, ok, err}
use open_im.Telegram.Poller.{Bot, Update, Repositories, process}
use open_im.Telegram.Polling.{
  Polling, sort_updates, insert_update, saved, after_process, poll_update, unless_stopped,
  poll_updates, poll_answer,
}

abbrev IsFrom : ℕ → List Update → Type 0
IsFrom id us = All (λ (u : Update). id ≤ u.id) us

abbrev IsSorted : List Update → Type 0
IsSorted [] = Unit {0}
IsSorted (u ∷ us) = IsFrom u.id us × IsSorted us

insert-IsFrom :
    (id : ℕ) (u : Update) (us : List Update)
    → id ≤ u.id
    → IsFrom id us
    → IsFrom id (insert_update u us)
insert-IsFrom id u [] le h = (le, tt)
insert-IsFrom id u (v ∷ vs) le (lv, h) = elim (Bool-cases (leb u.id v.id)) [
  | inl e ↦ rw e (le, (lv, h))
  | inr e ↦ rw e (lv, insert-IsFrom id u vs le h)
]

insert-IsSorted : (u : Update) (us : List Update) → IsSorted us → IsSorted (insert_update u us)
insert-IsSorted u [] h = (tt, tt)
insert-IsSorted u (v ∷ vs) (from, h) = elim (Bool-cases (leb u.id v.id)) [
  | inl e ↦ rw e (
    (
      ground arith,
      All-map _ _ vs (λ w lw. let le : u.id ≤ v.id = ground arith in omega arith) from,
    ),
    (from, h),
  )
  | inr e ↦ rw e (insert-IsFrom v.id u vs (ground arith) from, insert-IsSorted u vs h)
]

sort_updates-IsSorted : (us : List Update) → IsSorted (sort_updates us)
sort_updates-IsSorted [] = tt
sort_updates-IsSorted (u ∷ us) = insert-IsSorted u (sort_updates us) (sort_updates-IsSorted us)

module _ {κ} (P : Update → Type κ) where
  unsort_one : (u : Update) (us : List Update) → All P (insert_update u us) → P u × All P us
  unsort_one u [] (h, _) = (h, tt)
  unsort_one u (v ∷ vs) h = elim (Bool-cases (leb u.id v.id)) [
    | inl e ↦ rw e at h
    | inr e ↦
        let (hv, rest) : P v × All P (insert_update u vs) = rw e at h in
        let (hu, hs) = unsort_one u vs rest in (hu, (hv, hs))
  ]

  unsort : (us : List Update) → All P (sort_updates us) → All P us
  unsort [] h = tt
  unsort (u ∷ us) h = let (hu, rest) = unsort_one u (sort_updates us) h in (hu, unsort us rest)

-- An update below the offset, which was handled before, or one that is handled.
abbrev pub IsCovered : ℕ → List ℕ → Update → Type 0
IsCovered offset handled u = (ltb u.id offset || any (eqb u.id) handled) ≡ true

module _ {S : Type 0} (p : Repositories S) (encode : String → String) (alias : String)
    (bot : Bot) where
  -- What one update does to the offset and the handled ids.
  abbrev Moves : Update → Polling S → Result (Unit {0}) × Polling S → Type 0
  Moves u q (err e, t) = Unit {0}
  Moves u q (ok _, t) =
      ((ltb u.id q.offset ≡ true) × (t ≡ q))
      ⊎ ((t.offset ≡ u.id + 1) × (t.handled ≡ u.id ∷ q.handled))

  processed-Moves :
      (u : Update) (q : Polling S) (x : Result (Unit {0}) × S)
      → Moves u q (after_process p encode alias bot u q x)
  processed-Moves u q (err e, s) = tt
  processed-Moves u q (ok _, s) = stored (p.save bot.id (u.id + 1) s)
    where
      stored :
          (y : Result (Unit {0}) × S)
          → Moves u q (saved p encode alias bot (u.id + 1) (u.id ∷ q.handled) y)
      stored (err e, t) = tt
      stored (ok _, t) = inr (refl, refl)

  update-Moves : (u : Update) (q : Polling S) → Moves u q (poll_update p encode alias bot u q)
  unfolding poll_update
  update-Moves u q = elim (Bool-cases (ltb u.id q.offset)) [
    | inl e ↦ rw e (inl (e, refl))
    | inr e ↦ rw e (processed-Moves u q (process p encode alias bot u q.state))
  ]

  -- What was handled and what is covered, where the loop goes on.
  abbrev Covers : List Update → Polling S → Result (Unit {0}) × Polling S → Type 0
  Covers us q (err e, t) = Unit {0}
  Covers us q (ok _, t) =
      ((id : ℕ) → any (eqb id) q.handled ≡ true → any (eqb id) t.handled ≡ true)
      × All (IsCovered q.offset t.handled) us

  moved-Covers :
      (u : Update) (us : List Update) (q t : Polling S) (y : Result (Unit {0}) × Polling S)
      → IsFrom u.id us
      → (((ltb u.id q.offset ≡ true) × (t ≡ q))
          ⊎ ((t.offset ≡ u.id + 1) × (t.handled ≡ u.id ∷ q.handled)))
      → Covers us t y
      → Covers (u ∷ us) q y
  moved-Covers u us q t (err e, z) from m h = tt
  moved-Covers u us q t (ok o, z) from (inl (below, same)) c =
      let (kept, covered) : Covers us q (ok o, z) = rw same at c in (kept, (ground arith, covered))
  moved-Covers u us q t (ok _, z) from (inr (next, grown)) (kept, covered) =
      let its : any (eqb u.id) z.handled ≡ true = kept u.id (rw grown (ground arith)) in
      (
        λ id there. kept id (rw grown (ground arith)),
        (
          ground arith,
          open_im.Prelude.All-zip _ _ _ us (λ v lv cv. lower v its lv cv) from covered,
        ),
      )
    where
      lower :
          (v : Update)
          → any (eqb u.id) z.handled ≡ true
          → u.id ≤ v.id
          → IsCovered t.offset z.handled v
          → IsCovered q.offset z.handled v
      lower v its lv cv = elim (Bool-cases (eqb u.id v.id)) [
        | inl e ↦ let same : u.id ≡ v.id = ground arith in ground arith
        | inr e ↦ ground arith
      ]

  updates-Covers :
      (us : List Update) (q : Polling S)
      → IsSorted us
      → Covers us q (poll_updates p encode alias bot us q)
  unfolding poll_updates
  updates-Covers [] q h = (λ id k. k, tt)
  updates-Covers (u ∷ us) q (from, h) =
      next (updates-Covers us) (poll_update p encode alias bot u q) (update-Moves u q)
    where
      next :
          ((t : Polling S) → IsSorted us → Covers us t (poll_updates p encode alias bot us t))
          → (x : Result (Unit {0}) × Polling S) → Moves u q x
          → Covers
              (u ∷ us)
              q
              (unless_stopped p encode alias bot (poll_updates p encode alias bot us) x)
      next ih (err e, t) m = tt
      next ih (ok _, t) m = moved-Covers u us q t _ from m (ih t h)

  -- An answer of getUpdates that is worked off without an error passes over no update, in whatever
  -- order Telegram lists them: each of them is handled, or lies below the offset at which the
  -- answer was asked for.
  pub poll_answer-IsCovered :
      (us : List Update) (q t : Polling S)
      → poll_answer p encode alias bot (some us) q ≡ (ok tt, t)
      → All (IsCovered q.offset t.handled) us
  poll_answer-IsCovered us q t e =
      unsort (IsCovered q.offset t.handled) us
        (reached (rw e at (updates-Covers (sort_updates us) q (sort_updates-IsSorted us))))
    where
      reached :
          Covers (sort_updates us) q (ok tt, t)
          → All (IsCovered q.offset t.handled) (sort_updates us)
      reached (kept, covered) = covered
