-- ===== src/Tasks/Family.antt =====
-- The task table of kernel/sched/task.c as a family tree, and the steps that change the table.
use lugh_os.Base.{
  ℕ, zero, suc, [], ◌∷◌, ◌≤◌, ◌<◌, ◌++◌, Option, none, some, set, get_or-set, length-set,
  length-append, get_or-snoc, ◌≡◌, inl, inr, refl, ap, sym, ◌∙◌, arith, subst, Option-cases,
}
use native.Mathlib.Decide.{dec_lt}
use lugh_os.Base.Masks.{Covers, Covers-trans}
use lugh_os.Task.{Task, TaskState, cap_all, task_parent_none}
use lugh_os.Telemetry.{Auditor}
use lugh_os.Tasks.{
  Tasks, task_count, task_at, empty_task, max_tasks, new_task, install, create_task, task_init,
  following_id,
}
use lugh_os.Tasks.Create.{
  MayPlace, new_task-Covers, create_task-under, create_task-idle, create_task-null, current_task-of,
  current_task-none, create_under-cases,
}

-- Slot `j` holds the parent of the task in slot `i`.
pub record IsChild (s : Tasks) (i j : ℕ) : Type 0 where
  pub earlier : j < i
  pub names : (task_at s i).parent_task_id ≡ suc j
  pub bounded : Covers (task_at s j).cap_mask (task_at s i).cap_mask
  pub placed : MayPlace (task_at s j) (task_at s i).domain

-- Ids count up from 1, slot 0 is the root, and every later slot has a parent.
pub record IsFamily (s : Tasks) : Type 0 where
  pub some_task : 0 < task_count s
  pub fits : task_count s ≤ max_tasks
  pub next : s.next_task_id ≡ suc (task_count s)
  pub ids : (i : ℕ) → i < task_count s → (task_at s i).task_id ≡ suc i
  pub root : (task_at s 0).parent_task_id ≡ task_parent_none
  pub root_caps : (task_at s 0).cap_mask ≡ cap_all
  pub parents : (i : ℕ) → 0 < i → i < task_count s → (j : ℕ) × IsChild s i j
  pub runs : (c : ℕ) → s.current ≡ some c → c < task_count s

-- What may change a task table: a creation by the running task, a context switch, and the
-- scheduler or the switch code writing a task's state or saved stack pointer.
pub data Step (s : Tasks) : Tasks → Type 0 where
  created : (a : Auditor) (spec : Option Task) → Step s (create_task a s spec).tasks
  switched : (i : ℕ) → i < task_count s → Step s (record s { current = some i })
  stated :
      (i : ℕ) (st : TaskState)
      → i < task_count s
      → Step s (record s { tasks = set s.tasks i (record (task_at s i) { state = st }) })
  saved :
      (i sp : ℕ)
      → i < task_count s
      → Step s (record s { tasks = set s.tasks i (record (task_at s i) { saved_sp = sp }) })

pub data Reach (s : Tasks) : Tasks → Type 0 where
  here : Reach s s
  next : {t u : Tasks} → Reach s t → Step t u → Reach s u

pub task_init-IsFamily : (s : Tasks) → s.next_task_id ≡ 1 → IsFamily (task_init s)
unfolding task_init
task_init-IsFamily s h = record {
  some_task = omega arith;
  fits = omega arith;
  next = ground (arith, h);
  ids = λ i l. ground (arith, h);
  root = refl;
  root_caps = refl;
  parents = λ i p l. absurd (omega arith);
  runs = λ c e. ground arith;
}

-- Writing fields other than the id, the parent, the domain and the capabilities keeps the family.
abbrev pub IsSameKin : Task → Task → Type 0
IsSameKin t u =
    (u.task_id ≡ t.task_id)
    × (u.cap_mask ≡ t.cap_mask)
    × (u.domain ≡ t.domain)
    × (u.parent_task_id ≡ t.parent_task_id)

kin-IsChild :
    (s t : Tasks) (i j : ℕ)
    → ((k : ℕ) → IsSameKin (task_at s k) (task_at t k))
    → IsChild s i j
    → IsChild t i j
kin-IsChild s t i j same c = record {
  earlier = c.earlier;
  names = (same i).3 ∙ c.names;
  bounded = λ k h. ground (arith, c.bounded k, same i, same j);
  placed = ground (arith, c.placed, same i, same j);
}

pub kin-IsFamily :
    (s t : Tasks)
    → task_count t ≡ task_count s
    → t.next_task_id ≡ s.next_task_id
    → ((c : ℕ) → t.current ≡ some c → c < task_count s)
    → ((k : ℕ) → IsSameKin (task_at s k) (task_at t k))
    → IsFamily s
    → IsFamily t
kin-IsFamily s t count same_next runs same f = record {
  some_task = omega (arith, count, f.some_task);
  fits = omega (arith, count, f.fits);
  next = omega (arith, same_next, count, f.next);
  ids = λ i l. (same i).0 ∙ f.ids i (omega (arith, count));
  root = (same 0).3 ∙ f.root;
  root_caps = (same 0).1 ∙ f.root_caps;
  parents =
      λ i p l. let (j, c) = f.parents i p (omega (arith, count)) in (j, kin-IsChild s t i j same c);
  runs = λ c e. omega (arith, count, runs c e);
}

-- One entry written, its kinship fields kept.
pub set-IsFamily :
    (s : Tasks) (i : ℕ) (u : Task)
    → i < task_count s
    → IsSameKin (task_at s i) u
    → IsFamily s
    → IsFamily (record s { tasks = set s.tasks i u })
set-IsFamily s i u l k f =
    kin-IsFamily s _ (length-set s.tasks i u) refl f.runs
      (λ j. ground (arith, get_or-set s.tasks i j u empty_task l)) f

-- Appending a task leaves the others where they are.
module _ (s : Tasks) (u : Task) (id : ℕ) where
  abbrev grown : Tasks
  grown = record s { tasks = s.tasks ++ u ∷ []; next_task_id = id }

  grown_old : (i : ℕ) → i < task_count s → task_at grown i ≡ task_at s i
  grown_old i l = ground (arith, get_or-snoc s.tasks i u empty_task)

  grown_new : (i : ℕ) → i ≡ task_count s → task_at grown i ≡ u
  grown_new i e = ground (arith, get_or-snoc s.tasks i u empty_task)

  grown-IsChild : (i j : ℕ) → i < task_count s → IsChild s i j → IsChild grown i j
  grown-IsChild i j l c =
      let same_i = grown_old i l in
      let same_j = grown_old j (omega (arith, c.earlier)) in
      record {
        earlier = c.earlier;
        names = ap (λ t. t.parent_task_id) same_i ∙ c.names;
        bounded =
            subst (λ t. Covers t.cap_mask (task_at grown i).cap_mask) (sym same_j)
              (subst (λ t. Covers (task_at s j).cap_mask t.cap_mask) (sym same_i) c.bounded);
        placed =
            subst (λ t. MayPlace t (task_at grown i).domain) (sym same_j)
              (subst (λ t. MayPlace (task_at s j) t.domain) (sym same_i) c.placed);
      }

  -- The new last entry is a child of slot `c`.
  grown_last :
      (i c : ℕ)
      → i ≡ task_count s
      → c < task_count s
      → u.parent_task_id ≡ suc c
      → Covers (task_at s c).cap_mask u.cap_mask
      → MayPlace (task_at s c) u.domain
      → IsChild grown i c
  grown_last i c e l names bounded placed =
      let same_i = grown_new i e in
      let same_c = grown_old c l in
      record {
        earlier = omega arith;
        names = ap (λ t. t.parent_task_id) same_i ∙ names;
        bounded =
            subst (λ t. Covers t.cap_mask (task_at grown i).cap_mask) (sym same_c)
              (subst (λ t. Covers (task_at s c).cap_mask t.cap_mask) (sym same_i) bounded);
        placed =
            subst (λ t. MayPlace t (task_at grown i).domain) (sym same_c)
              (subst (λ t. MayPlace (task_at s c) t.domain) (sym same_i) placed);
      }

installed-IsFamily :
    (a : Auditor) (s : Tasks) (c : ℕ) (spec : Task)
    → c < task_count s
    → task_count s < max_tasks
    → MayPlace (task_at s c) spec.domain
    → IsFamily s
    → IsFamily (install a s (task_at s c) spec).tasks
unfolding new_task
installed-IsFamily a s c spec lc room placed f =
    let u = new_task s (task_at s c) spec in
    let id = following_id s.next_task_id in
    let count : task_count (grown s u id) ≡ suc (task_count s) =
      omega (arith, length-append s.tasks (u ∷ [])) in
    record {
      some_task = omega (arith, count);
      fits = omega (arith, count);
      next = ground (arith, count, f.next);
      ids = λ i l. elim (dec_lt i (task_count s)) [
        | yes old ↦ ap (λ t. t.task_id) (grown_old s u id i old) ∙ f.ids i old
        | no new ↦
            let last : i ≡ task_count s = omega (arith, count) in
            ap (λ t. t.task_id) (grown_new s u id i last) ∙ omega (arith, f.next, last)
      ];
      root = ap (λ t. t.parent_task_id) (grown_old s u id 0 f.some_task) ∙ f.root;
      root_caps = ap (λ t. t.cap_mask) (grown_old s u id 0 f.some_task) ∙ f.root_caps;
      parents = λ i p l. elim (dec_lt i (task_count s)) [
        | yes old ↦ let (j, child) = f.parents i p old in (j, grown-IsChild s u id i j old child)
        | no new ↦ (
          c,
          grown_last s u id i c (omega (arith, count)) lc (f.ids c lc)
              (new_task-Covers s (task_at s c) spec) placed,
        )
      ];
      runs = λ k e. omega (arith, count, f.runs k e);
    }

pub created-IsFamily :
    (a : Auditor) (s : Tasks) (spec : Option Task)
    → IsFamily s
    → IsFamily (create_task a s spec).tasks
created-IsFamily a s none f = subst IsFamily (sym (create_task-null a s)) f
created-IsFamily a s (some spec) f = elim (Option-cases s.current) [
  | inl idle ↦ subst IsFamily (sym (create_task-idle a s spec (current_task-none s idle))) f
  | inr (c, e) ↦
      let under = ap (λ o. o.tasks) (create_task-under a s _ spec (current_task-of s c e)) in
      elim (create_under-cases a s (task_at s c) spec) [
        | inl same ↦ subst IsFamily (sym (under ∙ same)) f
        | inr (room, placed, done) ↦
            subst IsFamily (sym (under ∙ done))
              (installed-IsFamily a s c spec (f.runs c e) room placed f)
      ]
]

pub Step-IsFamily : {s t : Tasks} → Step s t → IsFamily s → IsFamily t
Step-IsFamily {s} (created a spec) f = created-IsFamily a s spec f
Step-IsFamily {s} (switched i l) f =
    kin-IsFamily s _ refl refl (λ c e. ground arith) (λ k. (refl, refl, refl, refl)) f
Step-IsFamily {s} (stated i st l) f = set-IsFamily s i _ l (refl, refl, refl, refl) f
Step-IsFamily {s} (saved i sp l) f = set-IsFamily s i _ l (refl, refl, refl, refl) f

-- Whatever is created, switched and scheduled after `task_init`, the table stays a family tree.
pub Reach-IsFamily : {s t : Tasks} → IsFamily s → Reach s t → IsFamily t
Reach-IsFamily f here = f
Reach-IsFamily f (next r st) = Step-IsFamily st (Reach-IsFamily f r)

-- In a family every task's capabilities are held by the root.
pub caps_within_root :
    (n : ℕ) (s : Tasks) (i : ℕ)
    → i < n
    → IsFamily s
    → i < task_count s
    → Covers (task_at s 0).cap_mask (task_at s i).cap_mask
caps_within_root zero s i h f l = absurd (omega arith)
caps_within_root (suc n) s zero h f l = λ k e. e
caps_within_root (suc n) s (suc i) h f l =
    let (j, c) = f.parents (suc i) (omega arith) l in
    Covers-trans _ (task_at s j).cap_mask _
      (caps_within_root n s j (omega (arith, c.earlier)) f (omega (arith, c.earlier))) c.bounded

-- The Capsicum property: after `task_init` and any sequence of creations, context switches and
-- scheduling steps, no task in the table holds a capability outside its parent's, its parent
-- stands earlier in the table, and it is placed in the parent's domain unless the parent holds
-- CAP_CROSS_DOMAIN; so every task stays within the root's capabilities.
pub Reach-caps :
    (boot t : Tasks) (i : ℕ)
    → boot.next_task_id ≡ 1
    → Reach (task_init boot) t
    → 0 < i
    → i < task_count t
    → ((j : ℕ) × IsChild t i j) × Covers (task_at t 0).cap_mask (task_at t i).cap_mask
Reach-caps boot t i first r p l =
    let f = Reach-IsFamily (task_init-IsFamily boot first) r in
    (f.parents i p l, caps_within_root (suc i) t i (omega arith) f l)
