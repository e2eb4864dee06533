-- ===== src/Task/Status/Graph.antt =====
-- What the transition table of src/runtime/taskLifecycle.js allows.
use ender.Prelude.{true, false, Text, Option, lit, text_eq, text_eq_iff, ◌≡◌, ◌⊎◌, ◌↔◌, refl, arith}
use ender.Task.Status.{
  Status, running, awaiting_approval, done, error, canceled, terminated, blocked, needs_input,
  unknown, name_of, of_name, is_active, is_terminal, is_known, can_transition, of_outcome,
}

-- The same table as a relation: what a task may do next.
pub data Move : Status → Status → Type 0 where
  go_on : {t : Status} → is_known t ≡ true → Move running t
  ask_again : Move awaiting_approval awaiting_approval
  granted : Move awaiting_approval running
  stop_waiting :
      {t : Status} → (t ≡ error) ⊎ ((t ≡ canceled) ⊎ (t ≡ terminated)) → Move awaiting_approval t
  restart : {s : Status} → is_terminal s ≡ true → Move s running
  adopt : {s t : Status} → is_known s ≡ false → is_known t ≡ true → Move s t

pub can_transition-Move : (s t : Status) → can_transition s t ≡ true → Move s t
unfolding can_transition
can_transition-Move running t h = go_on (ground arith)
can_transition-Move awaiting_approval awaiting_approval h = ask_again
can_transition-Move awaiting_approval running h = granted
can_transition-Move awaiting_approval t h = stop_waiting (ground arith)
can_transition-Move (unknown s) t h = adopt refl (ground arith)
can_transition-Move done running h = restart refl
can_transition-Move error running h = restart refl
can_transition-Move canceled running h = restart refl
can_transition-Move terminated running h = restart refl
can_transition-Move blocked running h = restart refl
can_transition-Move needs_input running h = restart refl
can_transition-Move _ _ h = cc

Move-can_transition : {s t : Status} → Move s t → can_transition s t ≡ true
unfolding can_transition
Move-can_transition {t = t} (go_on h) = ground arith
Move-can_transition ask_again = refl
Move-can_transition granted = refl
Move-can_transition (stop_waiting h) = ground arith
Move-can_transition {s = s} (restart h) = ground arith
Move-can_transition {s = s} {t = t} (adopt h k) = ground arith

-- canTransitionTaskStatus accepts exactly the moves of the life cycle: a running task goes anywhere,
-- one that waits for an approval resumes or ends with an error or by force, an ended task only
-- restarts, and a record with an unknown status may take any known one.
pub can_transition_iff : (s t : Status) → (can_transition s t ≡ true) ↔ Move s t
can_transition_iff s t = (can_transition-Move s t, Move-can_transition)

-- A task that waits for an approval never ends as done, blocked or needs_input.
pub awaiting_cannot_succeed :
    (o : Option Text) → can_transition awaiting_approval (of_outcome o) ≡ false
unfolding can_transition of_outcome
awaiting_cannot_succeed o = ground arith

pub of_outcome_terminal : (o : Option Text) → is_terminal (of_outcome o) ≡ true
unfolding of_outcome
of_outcome_terminal o = ground arith

-- Every known status is either active or terminal, and none is both.
pub active_xor_terminal :
    (s : Status)
    → is_known s ≡ true
    → ((is_active s ≡ true) × (is_terminal s ≡ false))
      ⊎ ((is_active s ≡ false) × (is_terminal s ≡ true))
active_xor_terminal s h = ground arith

-- Reading back the name of a known status gives the status.
pub of_name-name_of : (s : Status) → is_known s ≡ true → of_name (name_of s) ≡ s
unfolding of_name name_of text_eq lit
of_name-name_of running h = refl
of_name-name_of awaiting_approval h = refl
of_name-name_of done h = refl
of_name-name_of error h = refl
of_name-name_of canceled h = refl
of_name-name_of terminated h = refl
of_name-name_of blocked h = refl
of_name-name_of needs_input h = refl
of_name-name_of (unknown s) h = cc

-- Whatever text a record holds, its status is written back unchanged.
pub name_of-of_name : (s : Text) → name_of (of_name s) ≡ s
unfolding of_name name_of
name_of-of_name s = ground (
  arith,
  text_eq_iff s (lit "running"),
  text_eq_iff s (lit "awaiting_approval"),
  text_eq_iff s (lit "done"),
  text_eq_iff s (lit "error"),
  text_eq_iff s (lit "canceled"),
  text_eq_iff s (lit "terminated"),
  text_eq_iff s (lit "blocked"),
  text_eq_iff s (lit "needs_input"),
)
