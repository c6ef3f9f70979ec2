-- ===== src/Tasks/Lineage.antt =====
-- The lineage helpers of kernel/ipc/ipc.c, and `task_find` of kernel/sched/task.c on a family.
use lugh_os.Base.{
  ℕ, zero, suc, ◌+◌, leb, ltb, ◌==◌, if◌then◌else◌, Bool, false, not, ◌-◌, ◌&&◌, List, [], ◌∷◌, ◌≤◌,
  ◌<◌, min, length, Option, none, some, get_or, ◌≡◌, ◌≢◌, inl, inr, refl, ap, ◌∙◌, arith,
  Bool-cases, ==_ne,
}
use native.Mathlib.Decide.{dec_lt}
use lugh_os.Base.Count.{count, count_ext, count_front, count_none}
use lugh_os.Task.{Task, task_parent_none}
use lugh_os.Tasks.{Tasks, task_count, task_at, empty_task, max_tasks, task_find, find_from}
use lugh_os.Tasks.Family.{IsFamily, IsChild}

abbrev pub lineage_nibble_max : ℕ
lineage_nibble_max = 15

-- The loop of `lineage_depth_of`, with `g` rounds of its guard to go.
pub lineage_walk : ℕ → ℕ → ℕ → Tasks → ℕ
lineage_walk zero depth pid s = lineage_nibble_max
lineage_walk (suc g) depth pid s =
    if pid == task_parent_none
    then depth
    else if leb lineage_nibble_max (depth + 1)
    then lineage_nibble_max
    else (elim (task_find s pid) [
      | none ↦ depth + 1
      | some j ↦ lineage_walk g (depth + 1) (task_at s j).parent_task_id s
    ])

unfoldable pub lineage_depth_of : Tasks → Option Task → ℕ
lineage_depth_of s none = 0
lineage_depth_of s (some t) = lineage_walk max_tasks 0 t.parent_task_id s

-- The loop of `sibling_count_of` from slot `i`; `self` is the slot of the task itself.
pub siblings_from : List Task → ℕ → ℕ → ℕ → ℕ → ℕ
siblings_from [] i self target found = found
siblings_from (t ∷ ts) i self target found =
    if i == self
    then (let rest = siblings_from ts (suc i) self target found in rest)
    else if t.parent_task_id == target
    then (let rest = siblings_from ts (suc i) self target (found + 1) in
        if leb lineage_nibble_max (found + 1) then lineage_nibble_max else rest)
    else (let rest = siblings_from ts (suc i) self target found in rest)

unfoldable pub sibling_count_of : Tasks → Option ℕ → ℕ
sibling_count_of s none = 0
sibling_count_of s (some self) = siblings_from s.tasks 0 self (task_at s self).parent_task_id 0

find_from_hit :
    (ts : List Task) (i k : ℕ)
    → ((j : ℕ) → j < length ts → (get_or ts j empty_task).task_id ≡ suc (i + j))
    → k < length ts
    → find_from ts i (suc (i + k)) ≡ some (i + k)
unfolding find_from
find_from_hit [] i k ids l = absurd (omega arith)
find_from_hit (t ∷ ts) i zero ids l = ground (arith, ids 0)
find_from_hit (t ∷ ts) i (suc k) ids l =
    let rest =
      find_from_hit ts (suc i) k (λ j p. ids (suc j) (omega arith) ∙ omega arith) (omega arith) in
    let id : suc (i + suc k) ≡ suc (suc i + k) = omega arith in
    let slot : suc i + k ≡ i + suc k = omega arith in
    ground (arith, ids 0, rest, id, slot, ap (find_from ts (suc i)) id)

find_from_miss :
    (ts : List Task) (i id : ℕ)
    → ((j : ℕ) → j < length ts → (get_or ts j empty_task).task_id ≢ id)
    → find_from ts i id ≡ none
unfolding find_from
find_from_miss [] i id out = refl
find_from_miss (t ∷ ts) i id out =
    let rest = find_from_miss ts (suc i) id (λ j p. out (suc j) (omega arith)) in
    ground (arith, out 0, rest)

-- In a family `task_find` finds the task of slot `j` under the id `j + 1`, and nothing under any
-- other number.
pub task_find_lem :
    (s : Tasks) (id : ℕ)
    → IsFamily s
    → task_find s id ≡ (if ltb 0 id && leb id (task_count s) then some (id - 1) else none)
unfolding task_find
task_find_lem s zero f = refl
task_find_lem s (suc j) f = elim (dec_lt j (task_count s)) [
  | yes l ↦
      let hit = find_from_hit s.tasks 0 j (λ k p. f.ids k p ∙ omega arith) l in
      let slot : 0 + j ≡ j = omega arith in ground (arith, hit, slot)
  | no l ↦
      let miss = find_from_miss s.tasks 0 (suc j) (λ k p e. omega (arith, f.ids k p)) in
      ground (arith, miss)
]

-- How far the task of a slot is from the root.
pub data Depth (s : Tasks) : ℕ → ℕ → Type 0 where
  at_root : Depth s 0 0
  below : {i j d : ℕ} → IsChild s i j → Depth s j d → Depth s i (suc d)

-- Every task of a family has a depth.
Depth-within :
    (n : ℕ) (s : Tasks) (i : ℕ) → i < n → IsFamily s → i < task_count s → (d : ℕ) × Depth s i d
Depth-within zero s i h f l = absurd (omega arith)
Depth-within (suc n) s zero h f l = (0, at_root)
Depth-within (suc n) s (suc i) h f l =
    let (j, c) = f.parents (suc i) (omega arith) l in
    let (d, up) = Depth-within n s j (omega (arith, c.earlier)) f (omega (arith, c.earlier)) in
    (suc d, below c up)

walk-Depth :
    (g depth : ℕ) (s : Tasks) {i d : ℕ}
    → IsFamily s
    → i < task_count s
    → depth < lineage_nibble_max
    → lineage_nibble_max ≤ depth + g
    → Depth s i d
    → lineage_walk g depth (task_at s i).parent_task_id s ≡ min lineage_nibble_max (depth + d)
unfolding lineage_walk
walk-Depth zero depth s f l p q up = absurd (omega arith)
walk-Depth (suc g) depth s f l p q at_root = simp (f.root) (omega arith)
walk-Depth (suc g) depth s f l p q (below {i = i} {j = j} {d = d} c up) =
    let fits = f.fits in
    let child = c.earlier in
    let named : (suc j == task_parent_none) ≡ false = ==_ne _ _ (λ e. omega arith) in
    let found : task_find s (suc j) ≡ some j = ground (arith, task_find_lem s (suc j) f) in
    elim (Bool-cases (leb lineage_nibble_max (depth + 1))) [
      | inl capped ↦ rw (c.names, named, capped) (ground arith)
      | inr more ↦
          rw (c.names, named, more, found, lineage_walk)
            (walk-Depth g (depth + 1) s f (omega arith) (ground arith) (omega arith) up
              ∙ omega arith)
    ]

-- In a family every task of the table has a distance from the root, the number of parent links
-- between them, and the lineage depth that a denial carries is that distance, capped at 15.
pub lineage_depth_of_lem :
    (s : Tasks) (i : ℕ)
    → IsFamily s
    → i < task_count s
    → (d : ℕ) × Depth s i d × (lineage_depth_of s (some (task_at s i)) ≡ min lineage_nibble_max d)
unfolding lineage_depth_of
lineage_depth_of_lem s i f l =
    let (d, up) = Depth-within (suc i) s i (omega arith) f l in
    (d, up, walk-Depth max_tasks 0 s f l (omega arith) (omega arith) up ∙ omega arith)

-- Slot `k` of `ts`, which starts at slot `i`, is a sibling.
abbrev pub is_sibling : List Task → ℕ → ℕ → ℕ → ℕ → Bool
is_sibling ts i self target k =
    not (i + k == self) && (get_or ts k empty_task).parent_task_id == target

shifted :
    (t : Task) (ts : List Task) (i self target k : ℕ)
    → is_sibling (t ∷ ts) i self target (suc k) ≡ is_sibling ts (suc i) self target k
shifted t ts i self target k = let e : i + suc k ≡ suc i + k = omega arith in rw e

siblings_from-count :
    (ts : List Task) (i self target found : ℕ)
    → found < lineage_nibble_max
    → siblings_from ts i self target found
      ≡ min lineage_nibble_max (found + count (is_sibling ts i self target) (length ts))
unfolding siblings_from
siblings_from-count [] i self target found h =
    ground (arith, count_none (is_sibling [] i self target) 0)
siblings_from-count (t ∷ ts) i self target found h =
    let front = count_front (is_sibling (t ∷ ts) i self target) (length ts) in
    let shift =
      count_ext (λ k. is_sibling (t ∷ ts) i self target (suc k)) (is_sibling ts (suc i) self target)
        (length ts) (λ k l. shifted t ts i self target k) in
    let first : i + 0 ≡ i = omega arith in
    ground (
      arith,
      front,
      shift,
      first,
      siblings_from-count ts (suc i) self target found,
      siblings_from-count ts (suc i) self target (found + 1),
    )

-- The sibling count that a denial carries is the number of other tasks with the same parent,
-- terminated ones included, capped at 15.
sibling_count_of_lem :
    (s : Tasks) (self : ℕ)
    → sibling_count_of s (some self)
      ≡ min lineage_nibble_max
          (count (is_sibling s.tasks 0 self (task_at s self).parent_task_id) (task_count s))
unfolding sibling_count_of
sibling_count_of_lem s self =
    siblings_from-count s.tasks 0 self (task_at s self).parent_task_id 0 (omega arith) ∙ omega arith
