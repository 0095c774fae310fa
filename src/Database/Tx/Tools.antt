-- ===== src/Database/Tx/Tools.antt =====
-- The statements on the tables of tool calls, approvals and citations.
use open_im.Prelude.{
  ℕ, Bool, true, false, Option, none, some, List, [], ◌∷◌, ◌++◌, update_where, count_where,
}
use open_im.Database.{
  RunRow, LaneRow, RejectionRow, ToolCallRow, ToolApprovalRow, CitationRow, ToolEvent,
}
use open_im.Database.Tx.{ok, err, Tx}

unfoldable pub update_calls : (ToolCallRow → Bool) → (ToolCallRow → ToolCallRow) → Tx ℕ
update_calls p f db =
    ok (count_where p db.tool_calls, record db { tool_calls = update_where p f db.tool_calls })

unfoldable pub update_approvals :
    (ToolApprovalRow → Bool) → (ToolApprovalRow → ToolApprovalRow) → Tx ℕ
update_approvals p f db = ok (
  count_where p db.tool_approvals,
  record db { tool_approvals = update_where p f db.tool_approvals },
)

unfoldable pub insert_citations : List CitationRow → Tx (Unit {0})
insert_citations rows db = ok (tt, record db { citations = db.citations ++ rows })

unfoldable pub insert_tool_events : List ToolEvent → Tx (Unit {0})
insert_tool_events rows db = ok (tt, record db { tool_events = db.tool_events ++ rows })

unfoldable pub insert_call : ToolCallRow → Tx (Unit {0})
insert_call row db = ok (tt, record db { tool_calls = db.tool_calls ++ row ∷ [] })

unfoldable pub insert_approval : ToolApprovalRow → Tx (Unit {0})
insert_approval row db = ok (tt, record db { tool_approvals = db.tool_approvals ++ row ∷ [] })

-- An INSERT of a Run, whose primary key may be taken; one of a lane that is not there yet; one of a
-- rejection with ON CONFLICT DO NOTHING.
unfoldable pub insert_run : Bool → RunRow → Tx (Unit {0})
insert_run true row db = err "enqueue Agent Run: duplicate key"
insert_run false row db = ok (tt, record db { runs = db.runs ++ row ∷ [] })

unfoldable pub insert_lane : Option LaneRow → LaneRow → Tx (Unit {0})
insert_lane (some _) row db = ok (tt, db)
insert_lane none row db = ok (tt, record db { lanes = db.lanes ++ row ∷ [] })

unfoldable pub insert_rejection : Bool → RejectionRow → Tx (Unit {0})
insert_rejection true row db = ok (tt, db)
insert_rejection false row db = ok (tt, record db { rejections = db.rejections ++ row ∷ [] })
