-- ===== src/Telegram/Once.antt =====
-- The updates that internal/telegram/poller.go handles: each once, and in order.
use open_im.Prelude.{
  ℕ, ◌+◌, ◌≤◌, ◌<◌, String, Option, none, some, List, [], ◌∷◌, arith, All, All-map, Bool-cases, inl,
  inr, ltb,
}
use open_im.Database.Tx.{Result, ok, err}
use open_im.Telegram.Poller.{Bot, Update, Repositories, process}
use open_im.Telegram.Polling.{
  Polling, sort_updates, saved, after_process, poll_update, unless_stopped, poll_updates,
  poll_answer, run_poller,
}

abbrev pub IsBelow : ℕ → List ℕ → Type 0
IsBelow bound ids = All (λ id. id < bound) ids

-- The latest first: each id above those before it.
abbrev pub IsDescending : List ℕ → Type 0
IsDescending [] = Unit {0}
IsDescending (id ∷ ids) = IsBelow id ids × IsDescending ids

-- What holds while the loop goes on, and what holds where it ends.
abbrev Goes : {S : Type 0} → Result (Unit {0}) × Polling S → Type 0
Goes (ok _, q) = IsBelow q.offset q.handled × IsDescending q.handled
Goes (err e, q) = IsDescending q.handled

module _ {S : Type 0} (p : Repositories S) (encode : String → String) (alias : String)
    (bot : Bot) where
  raised : (a b : ℕ) (ids : List ℕ) → a ≤ b → IsBelow a ids → IsBelow b ids
  raised a b ids le h = All-map _ _ ids (λ id lt. omega arith) h

  saved-Goes :
      (id : ℕ) (ids : List ℕ) (x : Result (Unit {0}) × S)
      → IsBelow id ids
      → IsDescending ids
      → Goes (saved p encode alias bot (id + 1) (id ∷ ids) x)
  saved-Goes id ids (ok _, s) below h =
      ((omega arith, raised id (id + 1) ids (omega arith) below), (below, h))
  saved-Goes id ids (err e, s) below h = (below, h)

  processed-Goes :
      (u : Update) (q : Polling S) (x : Result (Unit {0}) × S)
      → IsBelow u.id q.handled
      → IsDescending q.handled
      → Goes (after_process p encode alias bot u q x)
  processed-Goes u q (err e, s) below h = (below, h)
  processed-Goes u q (ok _, s) below h =
      saved-Goes u.id q.handled (p.save bot.id (u.id + 1) s) below h

  update-Goes :
      (u : Update) (q : Polling S)
      → IsBelow q.offset q.handled
      → IsDescending q.handled
      → Goes (poll_update p encode alias bot u q)
  unfolding poll_update
  update-Goes u q below h = elim (Bool-cases (ltb u.id q.offset)) [
    | inl e ↦ rw e (below, h)
    | inr e ↦ rw e (
        processed-Goes u q (process p encode alias bot u q.state)
          (raised q.offset u.id q.handled (ground arith) below) h)
  ]

  next-Goes :
      (rest : Polling S → Result (Unit {0}) × Polling S) (x : Result (Unit {0}) × Polling S)
      → ((q : Polling S) → IsBelow q.offset q.handled → IsDescending q.handled → Goes (rest q))
      → Goes x
      → Goes (unless_stopped p encode alias bot rest x)
  next-Goes rest (ok _, q) k (below, h) = k q below h
  next-Goes rest (err e, q) k h = h

  updates-Goes :
      (us : List Update) (q : Polling S)
      → IsBelow q.offset q.handled
      → IsDescending q.handled
      → Goes (poll_updates p encode alias bot us q)
  unfolding poll_updates
  updates-Goes [] q below h = (below, h)
  updates-Goes (u ∷ us) q below h =
      next-Goes (poll_updates p encode alias bot us) (poll_update p encode alias bot u q)
        (updates-Goes us) (update-Goes u q below h)

  answer-Goes :
      (a : Option (List Update)) (q : Polling S)
      → IsBelow q.offset q.handled
      → IsDescending q.handled
      → Goes (poll_answer p encode alias bot a q)
  answer-Goes none q below h = (below, h)
  answer-Goes (some us) q below h = updates-Goes (sort_updates us) q below h

  run-Goes :
      (answers : List (Option (List Update))) (q : Polling S)
      → IsBelow q.offset q.handled
      → IsDescending q.handled
      → Goes (run_poller p encode alias bot answers q)
  unfolding run_poller
  run-Goes [] q below h = (below, h)
  run-Goes (a ∷ answers) q below h =
      next-Goes (run_poller p encode alias bot answers) (poll_answer p encode alias bot a q)
        (run-Goes answers) (answer-Goes a q below h)

  ended : (x : Result (Unit {0}) × Polling S) → Goes x → IsDescending x.1.handled
  ended (ok _, q) (below, h) = h
  ended (err e, q) h = h

  -- However Telegram repeats, drops, fails and disorders its answers, and wherever the loop stops,
  -- one run of the poller handles the updates in strictly rising order of their ids, so none twice.
  pub run_poller-IsDescending :
      (answers : List (Option (List Update))) (s : S) (offset : ℕ)
      → IsDescending
          (run_poller p encode alias bot answers
            (record { state = s; offset = offset; handled = [] })).1.handled
  run_poller-IsDescending answers s offset =
      let q : Polling S = record { state = s; offset = offset; handled = [] } in
      ended (run_poller p encode alias bot answers q) (run-Goes answers q tt tt)
