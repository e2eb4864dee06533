-- ===== src/Workflows.antt =====
-- Workflow sessions: src/workflows/workflowManager.js. A workflow is what `definitions` holds: how
-- its state starts, and what a step does to it. A state is a JSON value, so `cloneState` is a copy.
pub mod Saved
pub mod Undo
use ender.Prelude.{
  ℕ, Bool, true, false, not, ◌&&◌, ◌||◌, List, [], ◌∷◌, Option, none, some, Text, lit, text_eq,
  includes, is_some, length, ltb, Map, insert, lookup, if◌then◌else◌,
}
use ender.Json.{Json, object, end}
use ender.Json.Read.{member, string_or, string_if, is_truthy, truthy, array_items}

pub record Session : Type 0 where
  pub id : Text
  pub workflow_id : Text
  pub mode : Text
  pub status : Text
  pub persists : Bool  -- shouldPersist
  pub is_resumed : Bool
  pub created_at : Text
  pub updated_at : Text
  pub history : List Json  -- the latest first
  pub state : Json

-- What a step gives: what it leaves of the session's state and status, whether or not it succeeds.
pub record Advance : Type 0 where
  pub state : Json
  pub status : Text
  pub is_ok : Bool
  pub error : Option Text
  pub started : Option Text  -- startedTaskId

-- A step gets the whole session: src/workflows/jiraToRepoWorkflow.js reads its mode and its state and
-- changes its state and its status.
pub record Workflow : Type 0 where
  pub name : Text
  pub initial : Json
  pub advance : Session → Json → Advance
  pub step_type : Json → Text  -- the type of `getCurrentStep`

-- The session as it is shown, `_serialize`.
pub record SessionView : Type 0 where
  pub id : Text
  pub workflow_name : Text
  pub status : Text
  pub started : Option Text
  pub mode : Text
  pub can_go_back : Bool
  pub step_type : Text

pub record Sessions : Type 0 where
  pub items : Map Session
  pub files : Map Session

pub data SessionReply : Type 0 where
  shown : SessionView → Option Text → SessionReply
  refused : Text → Option Text → SessionReply  -- the error, and the message of a step
  unfinished : SessionView → SessionReply  -- workflow_requires_more_input

abbrev pub has_started : Json → Bool
has_started state = is_truthy (member (lit "startedTaskId") state)

abbrev pub has_items : List Json → Bool
has_items [] = false
has_items (_ ∷ _) = true

unfoldable pub view : Workflow → Session → SessionView
view w s = record {
  id = s.id;
  workflow_name = w.name;
  status = s.status;
  started = string_if (member (lit "startedTaskId") s.state);
  mode = s.mode;
  can_go_back = not (has_started s.state) && has_items s.history;
  step_type = w.step_type s.state;
}

-- `_persistSession`, after the session is in the map.
abbrev pub kept : Session → Sessions → Sessions
kept s m = record {
  items = insert s.id s m.items;
  files = if s.persists then insert s.id s m.files else m.files;
}

-- `workflowModeValues` is an argument: the contract's file lists them.
abbrev pub mode_for : List Text → Option Json → Text
mode_for modes requested =
    let mode = string_or requested (lit "interactive") in
    if includes modes mode then mode else lit "interactive"

abbrev pub new_session : Text → Text → Text → Text → Workflow → Session
new_session now id workflow_id mode w = record {
  id = id;
  workflow_id = workflow_id;
  mode = mode;
  status = lit "active";
  persists = not (text_eq mode (lit "scheduled_run"));
  is_resumed = false;
  created_at = now;
  updated_at = now;
  history = [];
  state = w.initial;
}

-- `input || {}`
abbrev pub given_input : Json → Json
given_input i = if truthy i then i else object end

module _ (definitions : Map Workflow) where
  abbrev pub create_by :
      Text → Text → Text → Text → Sessions → Option Workflow → Sessions × SessionReply
  create_by now id workflow_id mode m none = (m, refused (lit "not_found") none)
  create_by now id workflow_id mode m (some w) =
      let s = new_session now id workflow_id mode w in (kept s m, shown (view w s) none)

  -- `createSession`
  unfoldable pub create_session :
      List Text → Text → Text → Text → Option Json → Sessions → Sessions × SessionReply
  unfolding view
  create_session modes now id workflow_id mode m =
      create_by now id workflow_id (mode_for modes mode) m (lookup workflow_id definitions)

  abbrev pub paired : Session → Option Workflow → Option (Session × Workflow)
  paired s none = none
  paired s (some w) = some (s, w)

  abbrev pub workflow_of : Option Session → Option (Session × Workflow)
  workflow_of none = none
  workflow_of (some s) = paired s (lookup s.workflow_id definitions)

  -- The session and its workflow, without which each call answers `not_found`.
  unfoldable pub session_of : Text → Sessions → Option (Session × Workflow)
  session_of id m = workflow_of (lookup id m.items)

  abbrev pub view_if : Option (Session × Workflow) → Option SessionView
  view_if none = none
  view_if (some (s, w)) = some (view w s)

  -- `getSession`
  unfoldable pub get_session : Text → Sessions → Option SessionView
  unfolding session_of view
  get_session id m = view_if (session_of id m)

  -- A step that fails leaves what it did to the state and to the status, and nothing in the history.
  abbrev pub step_by :
      Text → Json → Sessions → Option (Session × Workflow) → Sessions × SessionReply
  step_by now input m none = (m, refused (lit "not_found") none)
  step_by now input m (some (s, w)) =
      let r = w.advance s input in
      let failed = record s { state = r.state; status = r.status } in
      let moved = record failed { history = s.state ∷ s.history; updated_at = now } in
      if r.is_ok
      then (kept moved m, shown (view w moved) r.started)
      else (record m { items = insert s.id failed m.items }, refused (lit "advance_failed") r.error)

  -- `advanceSession`
  unfoldable pub advance_session : Text → Text → Json → Sessions → Sessions × SessionReply
  unfolding session_of view
  advance_session now id input m = step_by now (given_input input) m (session_of id m)

  abbrev pub popped : Text → Sessions → Session → Workflow → List Json → Sessions × SessionReply
  popped now m s w [] = (m, refused (lit "at_start") none)
  popped now m s w (before ∷ history) =
      let back = record s { state = before; history = history; updated_at = now } in
      (kept back m, shown (view w back) none)

  abbrev pub back_by : Text → Sessions → Option (Session × Workflow) → Sessions × SessionReply
  back_by now m none = (m, refused (lit "not_found") none)
  back_by now m (some (s, w)) =
      if has_started s.state
      then (m, refused (lit "already_started") none)
      else popped now m s w s.history

  -- `retreatSession`
  unfoldable pub retreat_session : Text → Text → Sessions → Sessions × SessionReply
  unfolding session_of view
  retreat_session now id m = back_by now m (session_of id m)

  abbrev pub after_step :
      (Sessions → Sessions × SessionReply) → Sessions × SessionReply → Sessions × SessionReply
  after_step rest (m, shown v (some (c ∷ t))) = (m, shown v (some (c ∷ t)))
  after_step rest (m, shown v _) = rest m
  after_step rest (m, r) = (m, r)

  abbrev pub finished : Sessions → Option SessionView → Sessions × SessionReply
  finished m none = (m, refused (lit "workflow_requires_more_input") none)
  finished m (some v) =
      if text_eq v.step_type (lit "complete") then (m, shown v none) else (m, unfinished v)

  -- The loop of `runScheduled` over its inputs.
  unfoldable pub run_inputs : Text → Text → List Json → Sessions → Sessions × SessionReply
  unfolding advance_session get_session
  run_inputs now id [] m = finished m (get_session id m)
  run_inputs now id (i ∷ is) m = after_step (run_inputs now id is) (advance_session now id i m)

  abbrev pub scheduled_by :
      Text → Text → List Json → Sessions × SessionReply → Sessions × SessionReply
  scheduled_by now id inputs (m, shown v t) = run_inputs now id inputs m
  scheduled_by now id inputs (m, r) = (m, r)

  -- `runScheduled`
  unfoldable pub run_scheduled :
      List Text → Text → Text → Text → Option Json → Sessions → Sessions × SessionReply
  unfolding create_session run_inputs
  run_scheduled modes now id workflow_id inputs m =
      scheduled_by now id (array_items inputs)
        (create_session modes now id workflow_id (some (Json.string (lit "scheduled_run"))) m)
