-- ===== src/Action/Sound/Statements.antt =====
-- The operations of internal/action keep its invariant.
use open_im.Prelude.{
  ℕ, String, refl, Bool, true, false, Option, none, some, List, update_where, any-update_where,
}
use open_im.Database.{RunRow}
use open_im.Database.Tx.Frame.{
  Keeps, After, Keeps-pure, Keeps-raise, Keeps-query, Keeps-if, Keeps-bind, Keeps-require_one,
  Keeps-transact,
}
use open_im.Action.Tables.{
  IntentRow, IntentState, ExecutionRow, ActionEvent, update_intents, update_executions,
  update_action_runs, insert_action_event,
}
use open_im.Action.Store.{set_intent}
use open_im.Action.Executor.{
  Execution, lease_execution, mark_unknown_tx, unknown_row, failed_row, end_failed,
  fail_execution_tx, lose_lease,
}
use open_im.Action.Round.{complete_tx, succeed_row, requeue_absent, requeue_absent_tx}
use open_im.Action.Sound.{
  IsSoundFor, HasKey, has_key, KeepsKeys, KeepsRequest, IsSound-executions, IsSound-intents,
}

pub HasKey-update_where :
    (key : Option String) (p : ExecutionRow → Bool) (f : ExecutionRow → ExecutionRow)
    (es : List ExecutionRow)
    → KeepsKeys f
    → HasKey key es
    → HasKey key (update_where p f es)
HasKey-update_where none p f es k h = tt
HasKey-update_where (some key) p f es k h =
    rw (any-update_where (has_key key) p f es (λ e. rw (k.key e) refl)) h

module _ {key : Option String} where
  pub keep_executions :
      (p : ExecutionRow → Bool) (f : ExecutionRow → ExecutionRow)
      → KeepsKeys f
      → Keeps (IsSoundFor key) (update_executions p f)
  unfolding update_executions
  keep_executions p f k = record {
    at = λ db h. record {
      sound = IsSound-executions p f db k h.sound;
      there = HasKey-update_where key p f db.executions k h.there;
    };
  }

  pub keep_intents :
      (p : IntentRow → Bool) (f : IntentRow → IntentRow)
      → KeepsRequest f
      → Keeps (IsSoundFor key) (update_intents p f)
  unfolding update_intents
  keep_intents p f k = record {
    at = λ db h. record { sound = IsSound-intents p f db k h.sound; there = h.there };
  }

  pub keep_runs :
      (p : RunRow → Bool) (f : RunRow → RunRow) → Keeps (IsSoundFor key) (update_action_runs p f)
  unfolding update_action_runs
  keep_runs p f = record {
    at = λ db h. record {
      sound = record {
        requested = h.sound.requested;
        allowed = h.sound.allowed;
        keyed = h.sound.keyed;
        made = h.sound.made;
        once = h.sound.once;
      };
      there = h.there;
    };
  }

  pub keep_event : (row : ActionEvent) → Keeps (IsSoundFor key) (insert_action_event row)
  unfolding insert_action_event
  keep_event row = record {
    at = λ db h. record {
      sound = record {
        requested = h.sound.requested;
        allowed = h.sound.allowed;
        keyed = h.sound.keyed;
        made = h.sound.made;
        once = h.sound.once;
      };
      there = h.there;
    };
  }

pub KeepsRequest-set_intent : (state : IntentState) (now : ℕ) → KeepsRequest (set_intent state now)
KeepsRequest-set_intent state now = record { id = λ i. refl; asker = λ i. refl; digest = λ i. refl }

pub KeepsKeys-lose_lease : (now : ℕ) → KeepsKeys (lose_lease now)
KeepsKeys-lose_lease now = record { intent = λ e. refl; key = λ e. refl }

pub KeepsKeys-lease_execution :
    (now : ℕ) (token : String) (seconds : ℕ) → KeepsKeys (lease_execution now token seconds)
KeepsKeys-lease_execution now token seconds = record { intent = λ e. refl; key = λ e. refl }

pub KeepsKeys-unknown_row : (now : ℕ) (message : String) → KeepsKeys (unknown_row now message)
KeepsKeys-unknown_row now message = record { intent = λ e. refl; key = λ e. refl }

pub KeepsKeys-requeue_absent : (now : ℕ) → KeepsKeys (requeue_absent now)
KeepsKeys-requeue_absent now = record { intent = λ e. refl; key = λ e. refl }

pub KeepsKeys-succeed_row : (now : ℕ) (id : String) → KeepsKeys (succeed_row now id)
KeepsKeys-succeed_row now id = record { intent = λ e. refl; key = λ e. refl }

pub KeepsKeys-failed_row :
    (now : ℕ) (terminal : Bool) (failure : String) → KeepsKeys (failed_row now terminal failure)
KeepsKeys-failed_row now true failure = record { intent = λ e. refl; key = λ e. refl }
KeepsKeys-failed_row now false failure = record { intent = λ e. refl; key = λ e. refl }

pub ruleset action_rules = (
  Keeps-pure, Keeps-raise, Keeps-query, Keeps-if, Keeps-bind, Keeps-require_one, keep_executions,
  keep_intents, keep_runs, keep_event, KeepsRequest-set_intent, KeepsKeys-lose_lease,
  KeepsKeys-lease_execution, KeepsKeys-unknown_row, KeepsKeys-requeue_absent, KeepsKeys-succeed_row,
  KeepsKeys-failed_row,
)

module _ {key : Option String} where
  pub keep_end_failed :
      (now : ℕ) (x : Execution) (terminal : Bool) (failure : String)
      → Keeps (IsSoundFor key) (end_failed now x terminal failure)
  unfolding end_failed
  keep_end_failed now x true failure = search action_rules depth 9
  keep_end_failed now x false failure = search action_rules depth 9

  pub keep_fail_tx :
      (now : ℕ) (x : Execution) (terminal : Bool) (failure : String)
      → Keeps (IsSoundFor key) (fail_execution_tx now x terminal failure)
  unfolding fail_execution_tx
  keep_fail_tx now x terminal failure = search (action_rules, keep_end_failed) depth 9

  pub keep_mark_unknown_tx :
      (now : ℕ) (x : Execution) (message : String)
      → Keeps (IsSoundFor key) (mark_unknown_tx now x message)
  unfolding mark_unknown_tx
  keep_mark_unknown_tx now x message = search action_rules depth 9

  pub keep_complete_tx :
      (now : ℕ) (x : Execution) (ticket_id : String)
      → Keeps (IsSoundFor key) (complete_tx now x ticket_id)
  unfolding complete_tx
  keep_complete_tx now x ticket_id = search action_rules depth 12

  pub keep_requeue_tx : (now : ℕ) (x : Execution) → Keeps (IsSoundFor key) (requeue_absent_tx now x)
  unfolding requeue_absent_tx
  keep_requeue_tx now x = search action_rules depth 9
