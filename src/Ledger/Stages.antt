-- ===== src/Ledger/Stages.antt =====
-- The reports of a worker on its entry: `recordStage`, `reportFeasibility`, `savePlan` and
-- `reportVerification` of src/runtime/taskLedgerManager.js.
use ender.Prelude.{Option, none, some, Text, lit, lower, non_empty, Map, lookup, insert}
use ender.Json.{Json}
use ender.Json.Read.{member}
use ender.Ledger.Normalize.{normalize_strings, trimmed}
use ender.Ledger.Entry.{
  Stage, feasibility_check, verify, Feasibility, Verification, Entry, stage_of, feasibility_of,
  verification_of, append_stage,
}

-- The entry as it was saved, or the `error` of the refusal.
pub data EntryReply : Type 0 where
  saved_entry : Entry → EntryReply
  refused : Text → EntryReply

abbrev pub summary_of : Json → Option Text
summary_of input = non_empty (trimmed (member (lit "summary") input))

abbrev pub stage_as : Text → Json → Entry → Option Stage → EntryReply
stage_as now input e none = refused (lit "invalid_stage")
stage_as now input e (some stage) = saved_entry (record e {
  lifecycle = append_stage stage (summary_of input) now e.lifecycle;
  updated_at = now;
})

unfoldable pub record_stage_in : Text → Json → Entry → EntryReply
record_stage_in now input e = stage_as now input e (stage_of (trimmed (member (lit "stage") input)))

abbrev pub feasibility_as : Text → Json → Entry → Option Feasibility → EntryReply
feasibility_as now input e none = refused (lit "invalid_feasibility")
feasibility_as now input e (some outcome) = saved_entry (record e {
  lifecycle = append_stage feasibility_check (summary_of input) now (record e.lifecycle {
    feasibility = record { outcome = outcome; summary = summary_of input; updated_at = some now };
  });
  updated_at = now;
})

unfoldable pub report_feasibility_in : Text → Json → Entry → EntryReply
report_feasibility_in now input e =
    feasibility_as now input e (feasibility_of (lower (trimmed (member (lit "outcome") input))))

unfoldable pub save_plan_in : Text → Json → Entry → EntryReply
save_plan_in now input e = saved_entry (record e {
  lifecycle = append_stage Stage.plan (summary_of input) now (record e.lifecycle {
    plan = record {
      summary = summary_of input;
      checklist = normalize_strings (member (lit "checklist") input);
      verification_steps = normalize_strings (member (lit "verificationSteps") input);
      updated_at = some now;
    };
  });
  updated_at = now;
})

abbrev pub verification_as : Text → Json → Entry → Option Verification → EntryReply
verification_as now input e none = refused (lit "invalid_verification_status")
verification_as now input e (some status) = saved_entry (record e {
  lifecycle = append_stage verify (summary_of input) now (record e.lifecycle {
    verification = record {
      status = status;
      summary = summary_of input;
      evidence = normalize_strings (member (lit "evidence") input);
      updated_at = some now;
    };
  });
  updated_at = now;
})

unfoldable pub report_verification_in : Text → Json → Entry → EntryReply
report_verification_in now input e =
    verification_as now input e (verification_of (lower (trimmed (member (lit "status") input))))

abbrev pub store_reply : Text → EntryReply → Map Entry → Map Entry × EntryReply
store_reply id (saved_entry e) m = (insert id e m, saved_entry e)
store_reply id (refused r) m = (m, refused r)

-- The four reports, each of which first looks its entry up.
unfoldable pub report : (Entry → EntryReply) → Text → Map Entry → Map Entry × EntryReply
report f id m = elim (lookup id m) [
  | none ↦ (m, refused (lit "not_found"))
  | some e ↦ store_reply id (f e) m
]

unfoldable pub record_stage : Text → Text → Json → Map Entry → Map Entry × EntryReply
unfolding report record_stage_in
record_stage now id input m = report (record_stage_in now input) id m

unfoldable pub report_feasibility : Text → Text → Json → Map Entry → Map Entry × EntryReply
unfolding report report_feasibility_in
report_feasibility now id input m = report (report_feasibility_in now input) id m

unfoldable pub save_plan : Text → Text → Json → Map Entry → Map Entry × EntryReply
unfolding report save_plan_in
save_plan now id input m = report (save_plan_in now input) id m

unfoldable pub report_verification : Text → Text → Json → Map Entry → Map Entry × EntryReply
unfolding report report_verification_in
report_verification now id input m = report (report_verification_in now input) id m
