-- ===== src/Repository/Refinement.antt =====
-- The files on disk stand for one text for each record, whatever fails and wherever the program is
-- killed: src/runtime/jsonTaskRepository.js.
use mathlib.Core.Path.{fun_ext}
use ender.Prelude.{
  Bool, true, false, List, [], ◌∷◌, Option, none, some, Text, text_eq, text_eq_refl, Map, lookup,
  insert, remove, lookup-insert, lookup-remove, if◌then◌else◌, ◌≡◌, refl,
}
use ender.Repository.{
  Ending, completed, fails, torn, run_calls, Request, save, delete, calls_of, run_queue, target,
  temp, move,
}
use ender.Repository.Names.{text_eq-temp-target, text_eq-target}

-- The abstract repository: the text of each record that is there.
abbrev pub Records : Type 0
Records = Text → Option Text

abbrev pub records_in : Map Text → Records
records_in files id = lookup (target id) files

abbrev pub replace : Text → Option Text → Records → Records
replace id v r j = if text_eq id j then v else r j

-- A request takes effect as a whole or not at all: a save if its three calls succeed, a deletion if its
-- two do.
abbrev pub apply : Request → List Ending → Records → Records
apply (save id s) (completed ∷ completed ∷ completed ∷ es) r = replace id (some s) r
apply (delete id) (completed ∷ completed ∷ es) r = replace id none r
apply _ _ r = r

abbrev pub apply_all : List (Request × List Ending) → Records → Records
apply_all [] r = r
apply_all ((q, es) ∷ qs) r = apply_all qs (apply q es r)

-- A temporary file is no record.
records-insert-temp :
    (files : Map Text) (id j : Text) (s : Text)
    → records_in (insert (temp id) s files) j ≡ records_in files j
records-insert-temp files id j s =
    rw (lookup-insert (temp id) (target j) s files, text_eq-temp-target id j)

records-remove-temp :
    (files : Map Text) (id j : Text) → records_in (remove (temp id) files) j ≡ records_in files j
records-remove-temp files id j =
    rw (lookup-remove (temp id) (target j) files, text_eq-temp-target id j)

-- The state after a rename of the temporary file that was just written.
records-move :
    (files : Map Text) (id j : Text) (s : Text)
    → records_in
        (move
          (temp id)
          (target id)
          (insert (temp id) s files)
          (lookup (temp id) (insert (temp id) s files))).0
        j
      ≡ replace id (some s) (records_in files) j
records-move files id j s = rw (
  lookup-insert (temp id) (temp id) s files,
  text_eq_refl (temp id),
  lookup-insert (target id) (target j) s (remove (temp id) (insert (temp id) s files)),
  text_eq-target id j,
  records-remove-temp (insert (temp id) s files) id j,
  records-insert-temp files id j s,
)

if_same : (b : Bool) (m : Map Text) → (if b then m else m) ≡ m
if_same true m = refl
if_same false m = refl

run_save :
    (id s : Text) (es : List Ending) (files : Map Text) (j : Text)
    → records_in (run_calls (calls_of (save id s)) es files) j
      ≡ apply (save id s) es (records_in files) j
unfolding run_calls calls_of
run_save id s [] files j = refl
run_save id s (fails ∷ es) files j = refl
run_save id s (torn p ∷ es) files j = refl
run_save id s (completed ∷ []) files j = refl
run_save id s (completed ∷ fails ∷ es) files j = refl
run_save id s (completed ∷ torn p ∷ es) files j = records-insert-temp files id j p
run_save id s (completed ∷ completed ∷ []) files j = records-insert-temp files id j s
run_save id s (completed ∷ completed ∷ fails ∷ es) files j = records-insert-temp files id j s
run_save id s (completed ∷ completed ∷ torn p ∷ es) files j = records-insert-temp files id j s
run_save id s (completed ∷ completed ∷ completed ∷ es) files j =
    let written = insert (temp id) s files in
    let moved = move (temp id) (target id) written (lookup (temp id) written) in
    rw (if_same moved.1 moved.0) (records-move files id j s)

run_delete :
    (id : Text) (es : List Ending) (files : Map Text) (j : Text)
    → records_in (run_calls (calls_of (delete id)) es files) j
      ≡ apply (delete id) es (records_in files) j
unfolding run_calls calls_of
run_delete id [] files j = refl
run_delete id (fails ∷ es) files j = refl
run_delete id (torn p ∷ es) files j = refl
run_delete id (completed ∷ []) files j = records-remove-temp files id j
run_delete id (completed ∷ fails ∷ es) files j = records-remove-temp files id j
run_delete id (completed ∷ torn p ∷ es) files j = records-remove-temp files id j
run_delete id (completed ∷ completed ∷ es) files j = rw (
  lookup-remove (target id) (target j) (remove (temp id) files),
  text_eq-target id j,
  records-remove-temp files id j,
)

run_request :
    (q : Request) (es : List Ending) (files : Map Text) (j : Text)
    → records_in (run_calls (calls_of q) es files) j ≡ apply q es (records_in files) j
run_request (save id s) es files j = run_save id s es files j
run_request (delete id) es files j = run_delete id es files j

-- The queue implements the abstract repository: whichever calls fail, write a part only or are never
-- reached, after any requests the files hold for every id exactly the text of the last request that took
-- effect as a whole, and the text that they held before if there is none.
pub run_queue-apply_all :
    (qs : List (Request × List Ending)) (files : Map Text) (j : Text)
    → records_in (run_queue qs files) j ≡ apply_all qs (records_in files) j
unfolding run_queue
run_queue-apply_all [] files j = refl
run_queue-apply_all ((q, es) ∷ qs) files j =
    let step = fun_ext (λ i. run_request q es files i) in
    rw (← step) (run_queue-apply_all qs (run_calls (calls_of q) es files) j)
