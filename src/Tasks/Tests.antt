-- ===== src/Tasks/Tests.antt =====
-- Runs of kernel/sched/task.c on a table of two tasks.
use lugh_os.Base.{
  ℕ, ◌<◌, ◌≤◌, ◌&&◌, [], ◌∷◌, ◌++◌, none, some, min, pos, neg, ◌≡◌, ◌⊎◌, refl, arith,
}
use lugh_os.Base.Bits.{bit}
use lugh_os.Base.Masks.{Covers}
use lugh_os.Task.{Task}
use lugh_os.Telemetry.{auditor_boot, auditor_task_create}
use lugh_os.Tasks.{
  Tasks, max_tasks, task_count, task_at, empty_task, current_task, task_init, new_task, create_task,
}
use lugh_os.Tasks.Create.{MayPlace, create_task_lem}
use lugh_os.Tasks.Family.{
  IsChild, IsFamily, Reach, here, next, created, Reach-IsFamily, Reach-caps, task_init-IsFamily,
}
use lugh_os.Tasks.Lineage.{lineage_nibble_max, lineage_depth_of, Depth, lineage_depth_of_lem}

abbrev boot : Tasks
boot = record { tasks = []; current = none; next_task_id = 1; stacks = 0x1000 }

-- A request for CAP_IPC_SEND, CAP_IPC_RECV and a capability that does not exist.
abbrev request : Task
request = record empty_task { cap_mask = 0x13; domain = 2; priority = pos 3 }

abbrev two : Tasks
two = (create_task auditor_boot (task_init boot) (some request)).tasks

two_tasks : 1 < task_count two
unfolding create_task task_init
two_tasks = omega arith

masked : (task_at two 1).cap_mask ≡ 3
unfolding create_task task_init new_task
masked = refl

root : Task
unfolding task_init
root = task_at (task_init boot) 0

root_runs : current_task (task_init boot) ≡ some root
unfolding task_init root
root_runs = refl

reached : Reach (task_init boot) two
reached = next here (created auditor_boot (some request))

two-IsFamily : IsFamily two
two-IsFamily = Reach-IsFamily (task_init-IsFamily boot refl) reached

Reach-caps_example :
    ((j : ℕ) × IsChild two 1 j) × Covers (task_at two 0).cap_mask (task_at two 1).cap_mask
Reach-caps_example = Reach-caps boot two 1 refl reached (omega arith) two_tasks

create_task_lem_example :
    let s = task_init boot in
    let o = create_task auditor_boot s (some request) in
    ((max_tasks ≤ task_count s)
      × (o ≡ record { rv = neg 3; spec = some request; tasks = s; auditor = auditor_boot }))
    ⊎ (((task_count s < max_tasks)
          × (¬ MayPlace root request.domain)
          × (o ≡ record { rv = neg 4; spec = some request; tasks = s; auditor = auditor_boot }))
        ⊎ ((t : Task) × (task_count s < max_tasks)
            × MayPlace root request.domain
            × (o.rv ≡ pos 0)
            × (o.tasks.tasks ≡ s.tasks ++ t ∷ [])
            × (t.domain ≡ request.domain)
            × (t.parent_task_id ≡ root.task_id)
            × ((i : ℕ) → bit t.cap_mask i ≡ (bit request.cap_mask i && bit root.cap_mask i))
            × (o.auditor
                ≡ auditor_task_create auditor_boot t.task_id t.parent_task_id t.cap_mask t.domain
                    t.priority t.kernel_stack_top)))
create_task_lem_example = create_task_lem auditor_boot (task_init boot) root request root_runs

lineage_depth_of_lem_example :
    (d : ℕ) × Depth two 1 d
    × (lineage_depth_of two (some (task_at two 1)) ≡ min lineage_nibble_max d)
lineage_depth_of_lem_example = lineage_depth_of_lem two 1 two-IsFamily two_tasks
