-- ===== src/Tests/Statuses.antt =====
-- Tests of the status table, of the approvals and of the cleaning of text.
use ender.Prelude.{
  false, [], ◌∷◌, none, some, Text, lit, text_eq, ◌≡◌, refl, fresh_key, insert, has, List, All,
}
use ender.Json.{
  sanitize_string, drop_nul, blank_controls, replace_high, replace_low, is_high, is_low, is_control,
}
use ender.Json.Clean.{IsUtf16, IsPrinted, sanitize_string-clean}
use ender.Approval.{Approval, normalize, Store, request}
use ender.Task.Status.{done, awaiting_approval, of_name, can_transition, of_outcome}
use ender.Task.Status.Graph.{awaiting_cannot_succeed}
use ender.Tests.Sample.{permission, asking}

awaiting_cannot_succeed_example : can_transition awaiting_approval (of_outcome none) ≡ false
awaiting_cannot_succeed_example = awaiting_cannot_succeed none

reads_done : of_name (lit "done") ≡ done
unfolding of_name text_eq lit
reads_done = refl

sanitize_string-clean_example :
    IsUtf16 (sanitize_string (0xd800 ∷ 0 ∷ 65 ∷ []))
    × All IsPrinted (sanitize_string (0xd800 ∷ 0 ∷ 65 ∷ []))
sanitize_string-clean_example = sanitize_string-clean (0xd800 ∷ 0 ∷ 65 ∷ [])

-- A pair that NUL units separate is joined, a lone surrogate is replaced, a control unit is blanked.
cleans :
    sanitize_string (0xd800 ∷ 0 ∷ 0xdc00 ∷ 0xdc01 ∷ 7 ∷ 10 ∷ [])
    ≡ 0xd800 ∷ 0xdc00 ∷ 0xfffd ∷ 32 ∷ 10 ∷ []
unfolding sanitize_string drop_nul blank_controls replace_high replace_low is_high is_low is_control
cleans = refl

abbrev drawn : List Text
drawn = lit "p1" ∷ lit "p2" ∷ []

-- `p1` is pending already, so the new approval is `p2`.
asked :
    (s : Store) × (a : Approval) × (request drawn (lit "t1") asking.task.pending permission
      ≡ some (s, a))
    × (a.id ≡ lit "p2")
unfolding request fresh_key has insert text_eq lit normalize
asked = (_, _, refl, refl)
