-- ===== src/Task/Views/Paging.antt =====
-- What a client gets that reads the log of a task page by page.
use ender.Prelude.{
  ℕ, zero, suc, ◌-◌, ◌≤◌, List, [], ◌∷◌, ◌++◌, Option, Text, length, drop, length-drop,
  length-append, ◌≡◌, refl, ap, arith,
}
use ender.Json.{Json}
use ender.Task.Record.{World, Env, Log}
use ender.Task.Publish.{max_logs, trim_logs, push, normalize_log}
use ender.Task.Views.{page_of}

-- Pushes, each with the time, the level and the data.
unfoldable pub push_all : List (Env × Option Text × Option Json) → World → World
unfolding push
push_all [] w = w
push_all ((env, level, entry) ∷ rest) w = push_all rest (push env level entry w)

trimmed_full :
    (logs : List Log) (l : Log)
    → length logs ≡ max_logs
    → length (trim_logs (logs ++ l ∷ [])) ≡ max_logs
unfolding trim_logs
trimmed_full logs l h = ground (
  arith,
  length-append logs (l ∷ []),
  length-drop (length (logs ++ l ∷ []) - max_logs) (logs ++ l ∷ []),
)

drop_all {ℓ} : {A : Type ℓ} (n : ℕ) (xs : List A) → length xs ≤ n → drop n xs ≡ []
drop_all zero [] h = refl
drop_all zero (x ∷ xs) h = ground arith
drop_all (suc n) [] h = refl
drop_all (suc n) (x ∷ xs) h = drop_all n xs (omega (arith, h))

push_all_full :
    (logs : List (Env × Option Text × Option Json)) (w : World)
    → length w.task.logs ≡ max_logs
    → length (push_all logs w).task.logs ≡ max_logs
unfolding push_all push
push_all_full [] w h = h
push_all_full ((env, level, entry) ∷ rest) w h =
    push_all_full rest (push env level entry w)
      (trimmed_full w.task.logs (normalize_log env level entry) h)

-- When the log of a task is full, a client that has read it to its end gets no later item: whatever is
-- pushed, the page from its position is empty and does not move it.
pub full_log_hides_pushes :
    (logs : List (Env × Option Text × Option Json)) (w : World)
    → length w.task.logs ≡ max_logs
    → let seen = page_of 0 w.task.logs in
      let next = page_of seen.to (push_all logs w).task.logs in
      (next.entries ≡ []) × (next.to ≡ seen.to)
full_log_hides_pushes logs w h =
    let full = push_all_full logs w h in
    let seen = page_of 0 w.task.logs in
    let e = drop_all seen.to (push_all logs w).task.logs (omega (arith, full, h)) in
    (e, omega (arith, ap length e))
