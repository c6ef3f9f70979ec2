-- ===== src/Tasks/Create.antt =====
-- The branches of `create_task` (kernel/sched/task.c).
use lugh_os.Base.{
  ℕ, pos, neg, leb, ◌==◌, Bool, true, false, not, ◌&&◌, [], ◌∷◌, ◌≤◌, ◌<◌, ◌++◌, Option, none, some,
  ◌≡◌, ◌⊎◌, inl, inr, refl, ap, ◌∙◌, arith, Bool-cases,
}
use lugh_os.Base.Bits.{bit, bit-bit_and}
use lugh_os.Base.Masks.{test-bit, Covers, Covers-bit_and}
use lugh_os.Task.{Task}
use lugh_os.Telemetry.{Auditor, auditor_task_create}
use lugh_os.Tasks.{
  Tasks, task_count, current_task, task_at, max_tasks, may_cross, new_task, install, create_under,
  create_task,
}

pub may_cross-bit : (t : Task) → may_cross t ≡ bit t.cap_mask 2
may_cross-bit t = rw (test-bit t.cap_mask 2) (not_not (bit t.cap_mask 2))
  where
    not_not : (b : Bool) → not (not b) ≡ b
    not_not true = refl
    not_not false = refl

-- The parent may place a task in the domain: its own, or any with the capability to cross.
abbrev pub MayPlace : Task → ℕ → Type 0
MayPlace parent domain = (domain ≡ parent.domain) ⊎ (bit parent.cap_mask 2 ≡ true)

pub new_task-Covers :
    (s : Tasks) (parent spec : Task) → Covers parent.cap_mask (new_task s parent spec).cap_mask
unfolding new_task
new_task-Covers s parent spec = Covers-bit_and parent.cap_mask spec.cap_mask

pub create_task-under :
    (a : Auditor) (s : Tasks) (parent spec : Task)
    → current_task s ≡ some parent
    → create_task a s (some spec) ≡ create_under a s parent spec
unfolding create_task
create_task-under a s parent spec e = rw (e, create_task)

pub create_task-idle :
    (a : Auditor) (s : Tasks) (spec : Task)
    → current_task s ≡ none
    → (create_task a s (some spec)).tasks ≡ s
unfolding create_task
create_task-idle a s spec e = rw (e, create_task)

pub create_task-null : (a : Auditor) (s : Tasks) → (create_task a s none).tasks ≡ s
unfolding create_task
create_task-null a s = refl

pub current_task-of : (s : Tasks) (c : ℕ) → s.current ≡ some c → current_task s ≡ some (task_at s c)
current_task-of s c e =
    ap (λ (o : Option ℕ). elim o [ none ↦ none | some i ↦ some (task_at s i) ]) e

pub current_task-none : (s : Tasks) → s.current ≡ none → current_task s ≡ none
current_task-none s e =
    ap (λ (o : Option ℕ). elim o [ none ↦ none | some i ↦ some (task_at s i) ]) e

-- A creation leaves the table as it was or installs one task that the parent may place.
pub create_under-cases :
    (a : Auditor) (s : Tasks) (parent spec : Task)
    → ((create_under a s parent spec).tasks ≡ s)
      ⊎ ((task_count s < max_tasks)
          × MayPlace parent spec.domain
          × ((create_under a s parent spec).tasks ≡ (install a s parent spec).tasks))
create_under-cases a s parent spec = elim (Bool-cases (leb max_tasks (task_count s))) [
  | inl full ↦ inl (simp full)
  | inr room ↦ elim (Bool-cases (not (spec.domain == parent.domain) && not (may_cross parent))) [
    | inl refused ↦ inl (simp (room, refused))
    | inr allowed ↦ inr (ground arith, ground (arith, may_cross-bit parent), simp (room, allowed))
  ]
]

-- Under a current task, `create_task` fails with -3 on a full table and with -4 where the parent
-- may not place a task in the requested domain, both leaving table and auditor as they were; else
-- it appends one task, of the requested domain, whose capabilities are exactly the requested ones
-- that the parent holds, and records the creation.
pub create_task_lem :
    (a : Auditor) (s : Tasks) (parent spec : Task)
    → current_task s ≡ some parent
    → let o = create_task a s (some spec) in
      ((max_tasks ≤ task_count s)
        × (o ≡ record { rv = neg 3; spec = some spec; tasks = s; auditor = a }))
      ⊎ (((task_count s < max_tasks)
            × (¬ MayPlace parent spec.domain)
            × (o ≡ record { rv = neg 4; spec = some spec; tasks = s; auditor = a }))
          ⊎ ((t : Task) × (task_count s < max_tasks)
              × MayPlace parent spec.domain
              × (o.rv ≡ pos 0)
              × (o.tasks.tasks ≡ s.tasks ++ t ∷ [])
              × (t.domain ≡ spec.domain)
              × (t.parent_task_id ≡ parent.task_id)
              × ((i : ℕ) → bit t.cap_mask i ≡ (bit spec.cap_mask i && bit parent.cap_mask i))
              × (o.auditor
                  ≡ auditor_task_create a t.task_id t.parent_task_id t.cap_mask t.domain t.priority
                      t.kernel_stack_top)))
unfolding new_task
create_task_lem a s parent spec e =
    let under = create_task-under a s parent spec e in
    elim (Bool-cases (leb max_tasks (task_count s))) [
      | inl full ↦ inl (ground arith, under ∙ simp full)
      | inr room ↦
          elim (Bool-cases (not (spec.domain == parent.domain) && not (may_cross parent))) [
            | inl refused ↦ inr (
                inl (
                  ground arith,
                  λ m. ground (arith, may_cross-bit parent, m),
                  under ∙ simp (room, refused),
                ))
            | inr allowed ↦
                let installed : create_task a s (some spec) ≡ install a s parent spec =
                  under ∙ simp (room, allowed) in
                inr (
                  inr (
                    new_task s parent spec,
                    ground arith,
                    ground (arith, may_cross-bit parent),
                    ap (λ o. o.rv) installed,
                    ap (λ o. o.tasks.tasks) installed,
                    refl,
                    refl,
                    λ i. bit-bit_and spec.cap_mask parent.cap_mask i,
                    ap (λ o. o.auditor) installed,
                  ))
          ]
    ]
