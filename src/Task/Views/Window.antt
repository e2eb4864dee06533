-- ===== src/Task/Views/Window.antt =====
-- A run of a ledger entry's task gets few messages, and its own prompt among them.
use ender.Prelude.{
  suc, ◌≤◌, Bool, true, false, ◌&&◌, List, [], ◌∷◌, map, Option, none, some, Text, lit, text_eq,
  text_eq→eq, trim, length, last_items, length-keep-le, length-last_items, if-holds, ◌⊎◌, inl, inr,
  ◌≡◌, refl, ap, arith, if◌then◌else◌,
}
use ender.Json.{Json, string}
use ender.Task.Record.{Task, Message}
use ender.Task.Views.{
  context_limit, run_messages, for_run, is_sent, is_user, replace_request, with_prompt,
  prompt_message, is_given, execution_messages, original_content,
}

abbrev pub Has : Message → List Message → Type 0
Has m [] = ⊥
Has m (e ∷ es) = (e ≡ m) ⊎ Has m es

length-map {ℓ κ} :
    {A : Type ℓ} {B : Type κ} (f : A → B) (xs : List A) → length (map f xs) ≡ length xs
length-map f [] = refl
length-map f (x ∷ xs) = ap suc (length-map f xs)

run_messages-bound : (thread : List Message) → length (run_messages thread) ≤ context_limit
unfolding run_messages
run_messages-bound thread = omega (
  arith,
  length-keep-le is_sent (map for_run (last_items context_limit thread)),
  length-map for_run (last_items context_limit thread),
  length-last_items context_limit thread,
)

-- What a replacement gives is as long, and has the prompt.
abbrev Replaced : Text → List Message → Option (List Message) → Type 0
Replaced prompt thread none = Unit
Replaced prompt thread (some es) = (length es ≡ length thread) × Has (prompt_message prompt) es

to_prompt :
    (prompt : Text) (e : Message)
    → is_user e ≡ true
    → record e { content = string prompt } ≡ prompt_message prompt
to_prompt prompt e h =
    λ i. record { role = text_eq→eq e.role (lit "user") h i; content = string prompt }

later-Replaced :
    (prompt : Text) (e : Message) (rest : List Message) (o : Option (List Message))
    → Replaced prompt rest o
    → Replaced prompt (e ∷ rest) (elim o [ none ↦ none | some es ↦ some (e ∷ es) ])
later-Replaced prompt e rest none h = tt
later-Replaced prompt e rest (some es) (l, h) = (ap suc l, inr h)

replace-Replaced :
    (print : Json → Text) (original : Json) (prompt : Text) (thread : List Message)
    → Replaced prompt thread (replace_request print original (string prompt) thread)
unfolding replace_request
replace-Replaced print original prompt [] = tt
replace-Replaced print original prompt (e ∷ rest) =
    if-holds (Replaced prompt (e ∷ rest)) (is_user e)
      (if text_eq (print e.content) (print original)
        then some (record e { content = string prompt } ∷ rest)
        else none)
      _
      (λ u.
        if-holds (Replaced prompt (e ∷ rest)) (text_eq (print e.content) (print original))
          (some (record e { content = string prompt } ∷ rest)) none
          (λ _. (refl, inl (to_prompt prompt e u))) (λ _. tt))
      (λ _.
        later-Replaced prompt e rest (replace_request print original (string prompt) rest)
          (replace-Replaced print original prompt rest))

with_prompt-fits :
    (prompt : Text) (thread : List Message) (o : Option (List Message))
    → length thread ≤ context_limit
    → Replaced prompt thread o
    → (length (with_prompt prompt thread o) ≤ context_limit)
      × Has (prompt_message prompt) (with_prompt prompt thread o)
with_prompt-fits prompt thread none l h = (omega (arith, length-last_items 11 thread), inl refl)
with_prompt-fits prompt thread (some es) l (e, h) = (omega (arith, l, e), h)

-- A run gets at most 12 messages. When the task is one of a ledger entry and has a prompt of its own,
-- that prompt is one of them, as a message of the user; otherwise they are the last messages of the
-- thread.
pub execution_messages_lem :
    (print : Json → Text) (t : Task)
    → let prompt = trim t.execution_prompt in
      let es = execution_messages print t in
      (length es ≤ context_limit)
      × (if is_given t.ledger_entry_id && is_given (some prompt)
          then Has (prompt_message prompt) es
          else es ≡ run_messages t.thread)
unfolding execution_messages
execution_messages_lem print t = by_test (is_given t.ledger_entry_id && is_given (some prompt))
  where
    prompt : Text
    prompt = trim t.execution_prompt

    thread : List Message
    thread = run_messages t.thread

    bound : length thread ≤ context_limit
    bound = run_messages-bound t.thread

    by_test :
        (b : Bool)
        → let o = replace_request print (original_content t.thread) (string prompt) thread in
          let es = if b then with_prompt prompt thread o else thread in
          (length es ≤ context_limit) × (if b then Has (prompt_message prompt) es else es ≡ thread)
    by_test true =
        with_prompt-fits prompt thread _ bound
          (replace-Replaced print (original_content t.thread) prompt thread)
    by_test false = (bound, refl)
