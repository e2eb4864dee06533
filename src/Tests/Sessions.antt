-- ===== src/Tests/Sessions.antt =====
-- Tests of the workflow sessions.
use ender.Prelude.{true, false, [], ◌∷◌, none, some, lit, text_eq, lookup, Map, ◌≡◌, refl}
use ender.Json.{string, null}
use ender.Json.Read.{is_truthy}
use ender.Workflows.{Workflow, Session, Sessions, advance_session, retreat_session}
use ender.Workflows.Undo.{place_of, retreat-advance_lem}

-- A workflow whose state is its last input, and whose steps are all last ones.
abbrev echo : Workflow
echo = record {
  name = lit "Echo";
  initial = null;
  advance = λ session input. record {
    state = input;
    status = lit "completed";
    is_ok = true;
    error = none;
    started = none;
  };
  step_type = λ state. lit "choice";
}

abbrev definitions : Map Workflow
definitions = (lit "echo", echo) ∷ []

abbrev session : Session
session = record {
  id = lit "s1";
  workflow_id = lit "echo";
  mode = lit "interactive";
  status = lit "active";
  persists = true;
  is_resumed = false;
  created_at = lit "1";
  updated_at = lit "1";
  history = null ∷ [];
  state = string (lit "a");
}

abbrev sessions : Sessions
sessions = record { items = (lit "s1", session) ∷ []; files = [] }

session_found : lookup session.id sessions.items ≡ some session
unfolding lookup lit text_eq
session_found = refl

echo_found : lookup session.workflow_id definitions ≡ some echo
unfolding lookup lit text_eq
echo_found = refl

echo_fresh : is_truthy none ≡ false
unfolding is_truthy
echo_fresh = refl

retreat-advance_lem_example :
    place_of (
      lookup
        (lit "s1")
        (retreat_session definitions
          (lit "3")
          (lit "s1")
          (advance_session definitions (lit "2") (lit "s1") (string (lit "b")) sessions).0).0.items)
    ≡ some (lit "completed", string (lit "a"), null ∷ [])
unfolding lit
retreat-advance_lem_example =
    retreat-advance_lem definitions (lit "2") (lit "3") (string (lit "b")) sessions session echo
      session_found echo_found refl echo_fresh
