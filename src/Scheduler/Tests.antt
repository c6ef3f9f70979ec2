-- ===== src/Scheduler/Tests.antt =====
-- Runs of the schedulers on a small table.
use lugh_os.Base.{
  ℕ, ◌≤◌, ◌<◌, ◌≡◌, ◌⊎◌, refl, pos, neg, false, true, List, [], ◌∷◌, length, map, none, some,
  get_or, arith,
}
use lugh_os.Task.{Task, running, blocked}
use lugh_os.Tasks.{empty_task}
use lugh_os.Scheduler.{yield_task, rr_scan, rr_schedule, best_from, priority_schedule}
use lugh_os.Scheduler.HotSwap.{int_size, rr_get_state, rr_set_state, rr_set_state-rr_get_state}
use lugh_os.Scheduler.RoundRobin.{runnable, distance, picked, rr_schedule_lem}
use lugh_os.Scheduler.Fairness.{Served, rr_schedule_fair}
use lugh_os.Scheduler.Priority.{NoneBelow, IsBest, priority_schedule_lem}

abbrev table : List Task
table =
    record empty_task { task_id = 1; state = running }
    ∷ record empty_task { task_id = 2; state = blocked }
    ∷ record empty_task { task_id = 3; priority = pos 4 }
    ∷ []

priority_run : priority_schedule table ≡ (pos 0, some 3)
unfolding priority_schedule best_from
priority_run = refl

rr_run : rr_schedule table (pos 0) ≡ some (picked (map yield_task table) 2)
unfolding rr_schedule rr_scan
rr_run = refl

rr_schedule_lem_example :
    (((i : ℕ) → i < length table → runnable table i ≡ false)
      × ((k : ℕ) × (k < length table)
          × (rr_schedule table (pos 0)
              ≡ some (record {
                rv = neg 1;
                next_id = none;
                table = map yield_task table;
                cursor = pos k;
              }))))
    ⊎ ((k : ℕ) × (k < length table)
        × (runnable table k ≡ true)
        × ((i : ℕ)
            → i < length table
            → runnable table i ≡ true
            → distance (length table) 0 k ≤ distance (length table) 0 i)
        × (rr_schedule table (pos 0) ≡ some (picked (map yield_task table) k)))
rr_schedule_lem_example = rr_schedule_lem table 0 (omega arith)

rr_schedule_fair_example : Served (length table) table 0 2
rr_schedule_fair_example = rr_schedule_fair table 0 2 (omega arith) (omega arith) refl

priority_schedule_lem_example :
    (NoneBelow table (pos 11) × (priority_schedule table ≡ (neg 1, none)))
    ⊎ ((k : ℕ) × IsBest table (pos 11) k
        × (priority_schedule table ≡ (pos 0, some (get_or table k empty_task).task_id)))
priority_schedule_lem_example = priority_schedule_lem table

-- A cursor of -1, to a scheduler whose cursor was 5.
rr_set_state-rr_get_state_example :
    ((rr_get_state (neg 1) (some (9 ∷ 9 ∷ 9 ∷ 9 ∷ 9 ∷ [])) (some 5)).rv ≡ pos 0)
    × (rr_set_state
          (pos 5)
          (rr_get_state (neg 1) (some (9 ∷ 9 ∷ 9 ∷ 9 ∷ 9 ∷ [])) (some 5)).buffer
          int_size
        ≡ (pos 0, neg 1))
rr_set_state-rr_get_state_example =
    rr_set_state-rr_get_state (neg 1) (pos 5) (9 ∷ 9 ∷ 9 ∷ 9 ∷ 9 ∷ []) 5 (omega arith) refl
