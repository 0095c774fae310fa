-- ===== src/Agent/Target.antt =====
-- internal/agent/worker.go, deliveryTarget: where the reply to a Run goes.
use open_im.Prelude.{
  String, ◌&&◌, ◌||◌, not, none, some, if◌then◌else◌, ltb, eqb, byte_length, strip_prefix, ◌==◌,
}
use open_im.Database.Tx.{Result, ok, err}
use open_im.Agent.Run.{Run}

abbrev pub no_target : Result String
no_target = err "channel delivery target is invalid"

-- `strings.HasPrefix(id, prefix) && len(id) > 3`, then `strings.TrimPrefix`.
abbrev pub after_prefix : String → String → Result String
after_prefix prefix id = elim (strip_prefix prefix id) [
  | none ↦ no_target
  | some rest ↦ if ltb 3 (byte_length id) then ok rest else no_target
]

-- deliveryTarget
unfoldable pub delivery_target : Run → Result String
delivery_target run =
    if run.source_channel == "openim"
    then if eqb run.session_type 1 && not (run.sender_id == "")
      then ok run.sender_id
      else if eqb run.session_type 2
      then after_prefix "sg_" run.conversation_id
      else no_target
    else if run.source_channel == "telegram" && (eqb run.session_type 1 || eqb run.session_type 2)
    then after_prefix "tg_" run.conversation_id
    else no_target
