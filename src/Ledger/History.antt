-- ===== src/Ledger/History.antt =====
-- The stage history of an entry over all the calls that change it: src/runtime/taskLedgerManager.js.
use mathlib.Core.Path.{sym}
use mathlib.Core.List.{append-nil, append_assoc}
use ender.Prelude.{List, [], ◌∷◌, ◌++◌, Option, none, some, Text, lit, text_of, ◌≡◌, refl}
use ender.Json.{Json}
use ender.Json.Read.{member}
use ender.Ledger.Normalize.{normalize_strings}
use ender.Ledger.Validate.{Changes}
use ender.Ledger.Entry.{
  Entry, Stage, StageItem, Lifecycle, Feasibility, Verification, append_stage, shown,
}
use ender.Ledger.Stages.{
  summary_of, stage_as, feasibility_as, verification_as, EntryReply, saved_entry, refused,
  record_stage_in, report_feasibility_in, save_plan_in, report_verification_in,
}
use ender.Ledger.Manager.{Summary, Started, update_entry}
use ender.Ledger.Reconcile.{sync_entry, after_start}

-- The entry after a call, which leaves it as it is if it refuses.
abbrev pub entry_after : Entry → EntryReply → Entry
entry_after e (saved_entry d) = d
entry_after e (refused r) = e

-- What can become of an entry: the four reports, an update, the answer of the task manager to its
-- dispatch, and a round of `_syncRunningEntries`.
pub data EntryStep : Entry → Entry → Type 0 where
  stage_recorded :
      (now : Text) (input : Json) (e : Entry)
      → EntryStep e (entry_after e (record_stage_in now input e))
  feasibility_reported :
      (now : Text) (input : Json) (e : Entry)
      → EntryStep e (entry_after e (report_feasibility_in now input e))
  plan_saved :
      (now : Text) (input : Json) (e : Entry)
      → EntryStep e (entry_after e (save_plan_in now input e))
  verification_reported :
      (now : Text) (input : Json) (e : Entry)
      → EntryStep e (entry_after e (report_verification_in now input e))
  updated :
      (now : Text) (c : Changes) (e : Entry) → EntryStep e (entry_after e (update_entry now c e))
  task_asked : (now : Text) (s : Started) (e : Entry) → EntryStep e (after_start now e s).0
  synced : (now : Text) (f : Text → Option Summary) (e : Entry) → EntryStep e (sync_entry now f e)

-- The entries that come from an entry.
pub data Becomes : Entry → Entry → Type 0 where
  same : (e : Entry) → Becomes e e
  then_step : {c d e : Entry} → Becomes c d → EntryStep d e → Becomes c e

-- The stage that the record shows is the last item of its history.
abbrev pub ShowsLast : Lifecycle → Type 0
ShowsLast l =
    (past : List StageItem) × (l.history
      ≡ past
        ++ record {
          stage = l.current_stage;
          summary = text_of l.stage_summary;
          at = l.stage_updated_at;
        }
          ∷ [])

abbrev pub Extends : Lifecycle → Lifecycle → Type 0
Extends l k = (items : List StageItem) × (k.history ≡ l.history ++ items)

abbrev pub IsGrown : Lifecycle → Lifecycle → Type 0
IsGrown l k = Extends l k × (ShowsLast l → ShowsLast k)

pub IsGrown-same : (l : Lifecycle) → IsGrown l l
IsGrown-same l = (([], sym (append-nil l.history)), λ h. h)

pub IsGrown-trans : (l k j : Lifecycle) → IsGrown l k → IsGrown k j → IsGrown l j
IsGrown-trans l k j p q =
    ((p.0.0 ++ q.0.0, rw (q.0.1, p.0.1) (append_assoc l.history p.0.0 q.0.0)), λ h. q.1 (p.1 h))

text_of-shown : (s : Option Text) → text_of (shown s) ≡ text_of s
text_of-shown none = refl
text_of-shown (some []) = refl
text_of-shown (some (c ∷ s)) = refl

pub append_stage-IsGrown :
    (s : Stage) (m : Option Text) (at : Text) (l : Lifecycle) → IsGrown l (append_stage s m at l)
unfolding append_stage
append_stage-IsGrown s m at l = (
  (record { stage = s; summary = text_of m; at = at } ∷ [], refl),
  λ h. (l.history, rw (text_of-shown m)),
)

pub stage-IsGrown :
    (now : Text) (input : Json) (e : Entry) (s : Option Stage)
    → IsGrown e.lifecycle (entry_after e (stage_as now input e s)).lifecycle
stage-IsGrown now input e none = IsGrown-same e.lifecycle
stage-IsGrown now input e (some s) = append_stage-IsGrown s (summary_of input) now e.lifecycle

pub feasibility-IsGrown :
    (now : Text) (input : Json) (e : Entry) (o : Option Feasibility)
    → IsGrown e.lifecycle (entry_after e (feasibility_as now input e o)).lifecycle
feasibility-IsGrown now input e none = IsGrown-same e.lifecycle
feasibility-IsGrown now input e (some o) =
    append_stage-IsGrown Stage.feasibility_check (summary_of input) now (record e.lifecycle {
      feasibility = record { outcome = o; summary = summary_of input; updated_at = some now };
    })

pub plan-IsGrown :
    (now : Text) (input : Json) (e : Entry)
    → IsGrown e.lifecycle (entry_after e (save_plan_in now input e)).lifecycle
unfolding save_plan_in
plan-IsGrown now input e =
    append_stage-IsGrown Stage.plan (summary_of input) now (record e.lifecycle {
      plan = record {
        summary = summary_of input;
        checklist = normalize_strings (member (lit "checklist") input);
        verification_steps = normalize_strings (member (lit "verificationSteps") input);
        updated_at = some now;
      };
    })

pub verification-IsGrown :
    (now : Text) (input : Json) (e : Entry) (s : Option Verification)
    → IsGrown e.lifecycle (entry_after e (verification_as now input e s)).lifecycle
verification-IsGrown now input e none = IsGrown-same e.lifecycle
verification-IsGrown now input e (some s) =
    append_stage-IsGrown Stage.verify (summary_of input) now (record e.lifecycle {
      verification = record {
        status = s;
        summary = summary_of input;
        evidence = normalize_strings (member (lit "evidence") input);
        updated_at = some now;
      };
    })
