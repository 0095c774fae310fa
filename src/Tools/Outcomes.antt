-- ===== src/Tools/Outcomes.antt =====
-- internal/toolruntime/store.go, Start, Succeed and Fail. `now()` is an argument.
use open_im.Prelude.{ℕ, ◌+◌, String, Bool, true, false, ◌&&◌, none, some, ◌==◌}
use open_im.Database.{Db, CallState}
use open_im.Database.Tx.{Result, Tx, ◌>>=◌, ◌>>◌, require_one, transact}
use open_im.Database.Tx.Tools.{update_calls}
use open_im.Tools.Service.{PreparedCall}
use open_im.Tools.Lifecycle.{insert_tool_lifecycle_event, is_executing, is_prepared, state_word}

unfoldable pub start_tx : ℕ → PreparedCall → Tx (Unit {0})
start_tx now p = do
  n ←
      update_calls (λ c. c.id == p.id && is_prepared c.state)
        (λ c. record c { state = CallState.executing; attempts = c.attempts + 1; updated_at = now })
  require_one n "start tool call: call is not prepared"
  insert_tool_lifecycle_event p.id "started" "" false

-- Start
unfoldable pub start_call : ℕ → PreparedCall → Db → Result (Unit {0}) × Db
unfolding start_tx transact
start_call now p = transact (start_tx now p)

unfoldable pub succeed_tx : ℕ → PreparedCall → String → Tx (Unit {0})
succeed_tx now p result = do
  n ←
      update_calls (λ c. c.id == p.id && is_executing c.state)
        (λ c. record c {
          state = CallState.succeeded;
          result = some result;
          error_code = none;
          completed_at = some now;
          updated_at = now;
        })
  require_one n "complete tool call: call is not executing"
  insert_tool_lifecycle_event p.id "succeeded" "" false

-- Succeed
unfoldable pub succeed_call : ℕ → PreparedCall → String → Db → Result (Unit {0}) × Db
unfolding succeed_tx transact
succeed_call now p result = transact (succeed_tx now p result)

abbrev pub failed_state : Bool → CallState
failed_state true = CallState.unknown
failed_state false = CallState.failed

unfoldable pub fail_call_tx : ℕ → PreparedCall → String → Bool → Tx (Unit {0})
fail_call_tx now p error_code unknown = do
  n ←
      update_calls (λ c. c.id == p.id && is_executing c.state)
        (λ c. record c {
          state = failed_state unknown;
          error_code = some error_code;
          completed_at = some now;
          updated_at = now;
        })
  require_one n "fail tool call: call is not executing"
  insert_tool_lifecycle_event p.id (state_word (failed_state unknown)) error_code unknown

-- Fail
unfoldable pub fail_call : ℕ → PreparedCall → String → Bool → Db → Result (Unit {0}) × Db
unfolding fail_call_tx transact
fail_call now p error_code unknown = transact (fail_call_tx now p error_code unknown)
