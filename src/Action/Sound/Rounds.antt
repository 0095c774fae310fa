-- ===== src/Action/Sound/Rounds.antt =====
-- A round of internal/action/executor.go as steps of Action.Sound.World.
use open_im.Prelude.{String, ◌≡◌}
use open_im.Action.Tables.{ActionDb}
use open_im.Action.Sound.World.{World, Steps}

-- Some steps lead to these tables.
pub record Reaches (encode : String → String) (digest_of : String → String → String) (s : World)
    (db : ActionDb) : Type 0 where
  pub end : World
  pub steps : Steps encode digest_of s end
  pub its_db : end.db ≡ db
