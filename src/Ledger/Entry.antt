-- ===== src/Ledger/Entry.antt =====
-- A ledger entry and its life cycle record: src/runtime/taskLedgerManager.js.
use ender.Prelude.{
  ℕ, Bool, true, false, List, [], ◌∷◌, ◌++◌, Option, none, some, Text, lit, text_eq, text_of,
  if◌then◌else◌,
}
use ender.Ledger.Normalize.{Source}

-- LEDGER_STAGE_VALUES
pub data Stage : Type 0 where
  queued intake feasibility_check workspace_scan plan implement verify finalize : Stage

-- FEASIBILITY_VALUES
pub data Feasibility : Type 0 where
  unknown ready needs_input blocked rejected : Feasibility

-- VERIFICATION_VALUES
pub data Verification : Type 0 where
  pending running passed failed skipped : Verification

-- The status of an entry; `other` is what a record on disk may hold besides.
pub data EntryStatus : Type 0 where
  pending running completed failed canceled blocked needs_input : EntryStatus
  other : Text → EntryStatus

unfoldable pub stage_of : Text → Option Stage
stage_of s =
    if text_eq s (lit "queued")
    then some queued
    else if text_eq s (lit "intake")
    then some intake
    else if text_eq s (lit "feasibility_check")
    then some feasibility_check
    else if text_eq s (lit "workspace_scan")
    then some workspace_scan
    else if text_eq s (lit "plan")
    then some plan
    else if text_eq s (lit "implement")
    then some implement
    else if text_eq s (lit "verify")
    then some verify
    else if text_eq s (lit "finalize")
    then some finalize
    else none

unfoldable pub feasibility_of : Text → Option Feasibility
feasibility_of s =
    if text_eq s (lit "unknown")
    then some unknown
    else if text_eq s (lit "ready")
    then some ready
    else if text_eq s (lit "needs_input")
    then some Feasibility.needs_input
    else if text_eq s (lit "blocked")
    then some Feasibility.blocked
    else if text_eq s (lit "rejected")
    then some rejected
    else none

unfoldable pub verification_of : Text → Option Verification
verification_of s =
    if text_eq s (lit "pending")
    then some Verification.pending
    else if text_eq s (lit "running")
    then some Verification.running
    else if text_eq s (lit "passed")
    then some passed
    else if text_eq s (lit "failed")
    then some Verification.failed
    else if text_eq s (lit "skipped")
    then some skipped
    else none

-- EDITABLE_LEDGER_STATUSES
unfoldable pub editable_of : Text → Option EntryStatus
editable_of s =
    if text_eq s (lit "pending")
    then some EntryStatus.pending
    else if text_eq s (lit "completed")
    then some completed
    else if text_eq s (lit "failed")
    then some EntryStatus.failed
    else if text_eq s (lit "canceled")
    then some canceled
    else if text_eq s (lit "blocked")
    then some EntryStatus.blocked
    else if text_eq s (lit "needs_input")
    then some EntryStatus.needs_input
    else none

abbrev pub is_running : EntryStatus → Bool
is_running EntryStatus.running = true
is_running _ = false

abbrev pub is_pending : EntryStatus → Bool
is_pending EntryStatus.pending = true
is_pending _ = false

pub record StageItem : Type 0 where
  pub stage : Stage
  pub summary : Text
  pub at : Text

pub record FeasibilityReport : Type 0 where
  pub outcome : Feasibility
  pub summary : Option Text
  pub updated_at : Option Text

pub record PlanReport : Type 0 where
  pub summary : Option Text
  pub checklist : List Text
  pub verification_steps : List Text
  pub updated_at : Option Text

pub record VerificationReport : Type 0 where
  pub status : Verification
  pub summary : Option Text
  pub evidence : List Text
  pub updated_at : Option Text

pub record Outcome : Type 0 where
  pub status : Option EntryStatus
  pub summary : Option Text
  pub updated_at : Option Text

pub record Lifecycle : Type 0 where
  pub current_stage : Stage
  pub stage_summary : Option Text
  pub stage_updated_at : Text
  pub history : List StageItem
  pub feasibility : FeasibilityReport
  pub plan : PlanReport
  pub verification : VerificationReport
  pub outcome : Outcome

pub record Entry : Type 0 where
  pub id : Text
  pub title : Text
  pub prompt : Text
  pub task_type : Text
  pub workspace : Option Text
  pub auto_run : Bool
  pub source : Option Source
  pub success_criteria : List Text
  pub constraints : List Text
  pub verification_plan : List Text
  pub created_by_task_id : Option Text
  pub created_at : Text
  pub updated_at : Text
  pub status : EntryStatus
  pub started_task_id : Option Text
  pub started_at : Option Text
  pub completed_task_id : Option Text
  pub completed_at : Option Text
  pub attempt_count : ℕ
  pub last_task_status : Option Text
  pub last_error : Option Text
  pub result : Option Text
  pub lifecycle : Lifecycle

abbrev pub no_outcome : Outcome
no_outcome = record { status = none; summary = none; updated_at = none }

-- createLifecycle, with its default summary.
unfoldable pub create_lifecycle : Text → Lifecycle
create_lifecycle now = record {
  current_stage = queued;
  stage_summary = some (lit "Entry created");
  stage_updated_at = now;
  history = record { stage = queued; summary = lit "Entry created"; at = now } ∷ [];
  feasibility = record { outcome = unknown; summary = none; updated_at = none };
  plan = record { summary = none; checklist = []; verification_steps = []; updated_at = none };
  verification = record {
    status = Verification.pending;
    summary = none;
    evidence = [];
    updated_at = none;
  };
  outcome = no_outcome;
}

abbrev pub shown : Option Text → Option Text
shown (some []) = none
shown s = s

-- appendStageHistory
unfoldable pub append_stage : Stage → Option Text → Text → Lifecycle → Lifecycle
append_stage stage summary at l = record l {
  current_stage = stage;
  stage_summary = shown summary;
  stage_updated_at = at;
  history = l.history ++ record { stage = stage; summary = text_of summary; at = at } ∷ [];
}
