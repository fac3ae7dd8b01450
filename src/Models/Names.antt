-- ===== src/Models/Names.antt =====
-- The texts of the task states (taskturbine-core/src/models.rs).
use taskturbine.Base.{◌≡◌, some}
use taskturbine.Base.Text.{Text}
use taskturbine.Models.State.{
  TaskState, pending, running, sleeping, completed, failed, cancelled, show_state, parse_state,
  to_lowercase,
}

-- Parsing is the inverse of printing: each state's text is parsed to the state, and so is every text
-- that lowers to it, whatever the case of its letters.
pub parse-show : (x : TaskState) (s : Text) → to_lowercase s ≡ show_state x → parse_state s ≡ some x
unfolding parse_state show_state
parse-show pending s h = rw h
parse-show running s h = rw h
parse-show sleeping s h = rw h
parse-show completed s h = rw h
parse-show failed s h = rw h
parse-show cancelled s h = rw h
