-- ===== src/Schedules/Failures.antt =====
-- Where a failure or a wait leaves the schedules out of step: src/runtime/scheduleManager.js.
use ender.Prelude.{
  Bool, true, false, List, Option, none, some, Text, text_eq_refl, Map, lookup, insert, remove,
  lookup-insert, lookup-remove, fresh_key, ◌≡◌, refl,
}
use ender.Schedules.{Draft, Accepted, accepted, validate}
use ender.Schedules.Manager.{
  Schedule, Manager, threw, activate, deactivate, settle, create, delete, end_execution, Outcome,
  succeeded, failed_with, concluded, new_schedule,
}

gone : (id : Text) (m : Map Schedule) → lookup id (remove id m) ≡ none
gone id m = rw (lookup-remove id id m, text_eq_refl id)

concluded-id : (o : Outcome) (s : Schedule) → (concluded o s).id ≡ s.id
unfolding concluded
concluded-id (succeeded t) s = refl
concluded-id (failed_with t) s = refl

module _ (is_cron : Text → Bool) (starts : Text → Option Text → Bool) where
  stranded :
      (s : Schedule) (m : Manager)
      → s.enabled ≡ true
      → starts s.cron s.timezone ≡ false
      → settle is_cron starts s m
        ≡ (record m { schedules = insert s.id s m.schedules; jobs = remove s.id m.jobs }, threw)
  unfolding settle activate deactivate
  stranded s m on stuck = simp (on, stuck)

  -- A request that `_validateInput` accepts for an enabled schedule that cron.schedule does not accept,
  -- such as one with an unknown time zone, makes `create` throw with the schedule in the map: it shows as
  -- enabled, it has no job, and nothing was saved.
  pub create_strands :
      (now : Text) (ids : List Text) (d : Draft) (v : Accepted) (m : Manager) (id : Text)
      → validate is_cron d ≡ accepted v
      → v.enabled ≡ true
      → starts v.cron v.timezone ≡ false
      → fresh_key ids m.schedules ≡ some id
      → ((create is_cron starts now ids d m).1 ≡ threw)
        × (lookup id (create is_cron starts now ids d m).0.schedules ≡ some (new_schedule now id v))
        × (lookup id (create is_cron starts now ids d m).0.jobs ≡ none)
        × ((create is_cron starts now ids d m).0.files ≡ m.files)
  unfolding create new_schedule
  create_strands now ids d v m id ok on stuck fresh =
      let s = new_schedule now id v in
      (
        rw (ok, fresh, stranded s m on stuck),
        rw (ok, fresh, stranded s m on stuck, lookup-insert id id s m.schedules, text_eq_refl id),
        rw (ok, fresh, stranded s m on stuck, lookup-remove id id m.jobs, text_eq_refl id),
        rw (ok, fresh, stranded s m on stuck),
      )

  -- A schedule that is deleted while its target runs is written to disk again when the target ends,
  -- though the manager no longer has it: the next start loads it.
  pub end_execution-delete :
      (o : Outcome) (s : Schedule) (m : Manager)
      → lookup s.id m.schedules ≡ some s
      → (lookup s.id (delete is_cron starts s.id m).0.files ≡ none)
        × (lookup s.id (end_execution o s (delete is_cron starts s.id m).0).schedules ≡ none)
        × (lookup s.id (end_execution o s (delete is_cron starts s.id m).0).files
            ≡ some (concluded o s))
  unfolding delete end_execution
  end_execution-delete o s m h = (
    rw (h, gone s.id m.files),
    rw (h, gone s.id m.schedules, gone s.id m.schedules),
    rw (
      h,
      gone s.id m.schedules,
      concluded-id o s,
      lookup-insert s.id s.id (concluded o s) (remove s.id m.files),
      text_eq_refl s.id,
    ),
  )
