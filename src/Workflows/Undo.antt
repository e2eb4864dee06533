-- ===== src/Workflows/Undo.antt =====
-- Going back in a workflow session, `retreatSession` of src/workflows/workflowManager.js.
use ender.Prelude.{
  true, false, List, Option, none, some, Text, ◌∷◌, text_eq_refl, Map, lookup, lookup-insert, ◌≡◌,
  refl, ap, ◌∙◌,
}
use ender.Json.{Json}
use ender.Workflows.{
  Workflow, Session, Sessions, has_started, given_input, kept, workflow_of, paired, session_of,
  step_by, back_by, advance_session, retreat_session,
}

-- The status, the state and the history of a session.
abbrev pub place_of : Option Session → Option (Text × Json × List Json)
place_of none = none
place_of (some s) = some (s.status, s.state, s.history)

module _ (definitions : Map Workflow) where
  session_of-found :
      (id : Text) (m : Sessions) (s : Session) (w : Workflow)
      → lookup id m.items ≡ some s
      → lookup s.workflow_id definitions ≡ some w
      → session_of definitions id m ≡ some (s, w)
  unfolding session_of
  session_of-found id m s w found defined =
      ap (workflow_of definitions) found ∙ ap (paired definitions s) defined

  lookup-kept : (s : Session) (m : Sessions) → lookup s.id (kept s m).items ≡ some s
  lookup-kept s m = rw (lookup-insert s.id s.id s m.items, text_eq_refl s.id) refl

  step_by-kept :
      (now : Text) (input : Json) (m : Sessions) (s : Session) (w : Workflow)
      → (w.advance s input).is_ok ≡ true
      → (step_by definitions now input m (some (s, w))).0
        ≡ kept
            (record s {
              state = (w.advance s input).state;
              status = (w.advance s input).status;
              history = s.state ∷ s.history;
              updated_at = now;
            })
            m
  step_by-kept now input m s w ok = rw ok refl

  back_by-kept :
      (now : Text) (m : Sessions) (s : Session) (w : Workflow) (before : Json) (history : List Json)
      → has_started s.state ≡ false
      → place_of (
          lookup s.id
            (back_by definitions now m (some (record s { history = before ∷ history }, w))).0.items)
        ≡ some (s.status, before, history)
  back_by-kept now m s w before history fresh = rw fresh (
      ap place_of
        (lookup-kept (record s { state = before; history = history; updated_at = now }) m))

  -- After a step that succeeds without starting a task, going back gives the session the state and the
  -- history that it had. The status stays the one that the step left, `completed` for a last step.
  pub retreat-advance_lem :
      (now later : Text) (input : Json) (m : Sessions) (s : Session) (w : Workflow)
      → lookup s.id m.items ≡ some s
      → lookup s.workflow_id definitions ≡ some w
      → (w.advance s (given_input input)).is_ok ≡ true
      → has_started (w.advance s (given_input input)).state ≡ false
      → place_of (
          lookup s.id
            (retreat_session definitions later s.id
              (advance_session definitions now s.id input m).0).0.items)
        ≡ some ((w.advance s (given_input input)).status, s.state, s.history)
  unfolding retreat_session advance_session
  retreat-advance_lem now later input m s w found defined ok fresh =
      ap (λ x. place_of (lookup s.id (retreat_session definitions later s.id x).0.items))
        (ap (λ o. (step_by definitions now (given_input input) m o).0)
            (session_of-found s.id m s w found defined)
          ∙ step_by-kept now (given_input input) m s w ok)
      ∙ ap (λ o. place_of (lookup s.id (back_by definitions later (kept moved m) o).0.items))
          (session_of-found s.id (kept moved m) moved w (lookup-kept moved m) defined)
      ∙ back_by-kept later (kept moved m) moved w s.state s.history fresh
    where
      moved : Session
      moved = record s {
        state = (w.advance s (given_input input)).state;
        status = (w.advance s (given_input input)).status;
        history = s.state ∷ s.history;
        updated_at = now;
      }
