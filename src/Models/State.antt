-- ===== src/Models/State.antt =====
-- TaskState of taskturbine-core/src/models.rs, its parser and its printer.
use taskturbine.Base.{ℕ, ◌+◌, Bool, true, false, ◌&&◌, Option, none, some, map, leb, if◌then◌else◌}
use taskturbine.Base.Text.{Text, codes, text_eq}

pub data TaskState : Type 0 where
  pending running sleeping completed failed cancelled : TaskState

-- The derived PartialEq.
abbrev pub state_eq : TaskState → TaskState → Bool
state_eq pending pending = true
state_eq running running = true
state_eq sleeping sleeping = true
state_eq completed completed = true
state_eq failed failed = true
state_eq cancelled cancelled = true
state_eq _ _ = false

-- Display::fmt.
unfoldable pub show_state : TaskState → Text
show_state pending = codes "pending"
show_state running = codes "running"
show_state sleeping = codes "sleeping"
show_state completed = codes "completed"
show_state failed = codes "failed"
show_state cancelled = codes "cancelled"

-- str::to_lowercase on ASCII letters.
abbrev lower_byte : ℕ → ℕ
lower_byte c = if leb 65 c && leb c 90 then c + 32 else c

unfoldable pub to_lowercase : Text → Text
to_lowercase s = map lower_byte s

-- FromStr::from_str; `none` is the error.
unfoldable pub parse_state : Text → Option TaskState
unfolding text_eq
parse_state s =
    let l = to_lowercase s in
    if text_eq l (codes "pending")
    then some pending
    else if text_eq l (codes "running")
    then some running
    else if text_eq l (codes "sleeping")
    then some sleeping
    else if text_eq l (codes "completed")
    then some completed
    else if text_eq l (codes "failed")
    then some failed
    else if text_eq l (codes "cancelled")
    then some cancelled
    else none
