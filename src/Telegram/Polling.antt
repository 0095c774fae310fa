-- ===== src/Telegram/Polling.antt =====
-- internal/telegram/poller.go, Run. What getUpdates answers is an argument: the updates, or none
-- where it fails, after which the loop waits. `handled` are the ids of the updates that were given
-- to process, the latest first.
use open_im.Prelude.{ℕ, ◌+◌, String, Option, none, some, List, [], ◌∷◌, if◌then◌else◌, ltb, leb}
use open_im.Database.Tx.{Result, ok, err}
use open_im.Telegram.Poller.{Bot, Update, Repositories, process}

pub record Polling (S : Type 0) : Type 0 where
  pub state : S
  pub offset : ℕ
  pub handled : List ℕ

-- `sort.Slice` by the id.
abbrev pub insert_update : Update → List Update → List Update
insert_update u [] = u ∷ []
insert_update u (v ∷ vs) =
    let rest = insert_update u vs in if leb u.id v.id then u ∷ v ∷ vs else v ∷ rest

abbrev pub sort_updates : List Update → List Update
sort_updates [] = []
sort_updates (u ∷ us) = insert_update u (sort_updates us)

module _ {S : Type 0} (p : Repositories S) (encode : String → String) (alias : String)
    (bot : Bot) where
  -- The new offset, and SaveOffset of it.
  abbrev pub saved : ℕ → List ℕ → Result (Unit {0}) × S → Result (Unit {0}) × Polling S
  saved offset handled (r, s) = (r, record { state = s; offset = offset; handled = handled })

  abbrev pub after_process :
      Update → Polling S → Result (Unit {0}) × S → Result (Unit {0}) × Polling S
  after_process u q (err e, s) =
      (err e, record { state = s; offset = q.offset; handled = u.id ∷ q.handled })
  after_process u q (ok _, s) = saved (u.id + 1) (u.id ∷ q.handled) (p.save bot.id (u.id + 1) s)

  -- One update, which is passed over below the offset.
  unfoldable pub poll_update : Update → Polling S → Result (Unit {0}) × Polling S
  unfolding process
  poll_update u q =
      if ltb u.id q.offset
      then (ok tt, q)
      else after_process u q (process p encode alias bot u q.state)

  abbrev pub unless_stopped :
      (Polling S → Result (Unit {0}) × Polling S)
      → Result (Unit {0}) × Polling S
      → Result (Unit {0}) × Polling S
  unless_stopped rest (err e, q) = (err e, q)
  unless_stopped rest (ok _, q) = rest q

  unfoldable pub poll_updates : List Update → Polling S → Result (Unit {0}) × Polling S
  unfolding poll_update
  poll_updates [] q = (ok tt, q)
  poll_updates (u ∷ us) q = unless_stopped (poll_updates us) (poll_update u q)

  abbrev pub poll_answer : Option (List Update) → Polling S → Result (Unit {0}) × Polling S
  poll_answer none q = (ok tt, q)
  poll_answer (some us) q = poll_updates (sort_updates us) q

  -- Poller.Run after the offset is loaded, until the context ends.
  unfoldable pub run_poller :
      List (Option (List Update)) → Polling S → Result (Unit {0}) × Polling S
  unfolding poll_updates
  run_poller [] q = (ok tt, q)
  run_poller (a ∷ answers) q = unless_stopped (run_poller answers) (poll_answer a q)
