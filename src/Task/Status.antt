-- ===== src/Task/Status.antt =====
-- The life cycle of a task: src/runtime/taskLifecycle.js. A status that the program does not know,
-- which a record read from disk can hold, is `unknown` with its text.
pub mod Graph
use ender.Prelude.{Bool, true, false, Text, Option, none, some, lit, text_eq, if◌then◌else◌}

pub data Status : Type 0 where
  running awaiting_approval done error canceled terminated blocked needs_input : Status
  unknown : Text → Status

-- How a status reads in a record and in an event.
unfoldable pub name_of : Status → Text
name_of running = lit "running"
name_of awaiting_approval = lit "awaiting_approval"
name_of done = lit "done"
name_of error = lit "error"
name_of canceled = lit "canceled"
name_of terminated = lit "terminated"
name_of blocked = lit "blocked"
name_of needs_input = lit "needs_input"
name_of (unknown s) = s

unfoldable pub of_name : Text → Status
of_name s =
    if text_eq s (lit "running")
    then running
    else if text_eq s (lit "awaiting_approval")
    then awaiting_approval
    else if text_eq s (lit "done")
    then done
    else if text_eq s (lit "error")
    then error
    else if text_eq s (lit "canceled")
    then canceled
    else if text_eq s (lit "terminated")
    then terminated
    else if text_eq s (lit "blocked")
    then blocked
    else if text_eq s (lit "needs_input")
    then needs_input
    else unknown s

-- ACTIVE_TASK_STATUSES
abbrev pub is_active : Status → Bool
is_active running = true
is_active awaiting_approval = true
is_active _ = false

-- TERMINAL_TASK_STATUSES
abbrev pub is_terminal : Status → Bool
is_terminal done = true
is_terminal error = true
is_terminal canceled = true
is_terminal terminated = true
is_terminal blocked = true
is_terminal needs_input = true
is_terminal _ = false

-- KNOWN_TASK_STATUSES
abbrev pub is_known : Status → Bool
is_known (unknown _) = false
is_known _ = true

-- ALLOWED_TRANSITIONS, with `false` where the map or the set has no entry.
unfoldable pub allowed : Status → Status → Bool
allowed running to = is_known to
allowed awaiting_approval awaiting_approval = true
allowed awaiting_approval running = true
allowed awaiting_approval error = true
allowed awaiting_approval canceled = true
allowed awaiting_approval terminated = true
allowed done running = true
allowed error running = true
allowed canceled running = true
allowed terminated running = true
allowed blocked running = true
allowed needs_input running = true
allowed _ _ = false

-- canTransitionTaskStatus
unfoldable pub can_transition : Status → Status → Bool
unfolding allowed
can_transition from to =
    if is_known to then (if is_known from then allowed from to else true) else false

-- outcomeStatusToTaskStatus; the runner's outcome is a text, or absent.
unfoldable pub of_outcome : Option Text → Status
of_outcome none = done
of_outcome (some s) =
    if text_eq s (lit "blocked")
    then blocked
    else if text_eq s (lit "needs_input")
    then needs_input
    else done
