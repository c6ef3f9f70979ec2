-- ===== src/Workflow/Atomic.antt =====
-- `workflow_run` (services/workflow/workflow.c) on steps that can be undone.
use lugh_os.Base.{
  ℕ, zero, suc, ◌+◌, ◌%◌, ◌^◌, ◌≤◌, ◌<◌, ℤ, pos, neg, is_ok, Bool, true, false, List, [], ◌∷◌, take,
  length, Option, none, some, ◌≡◌, ◌⊎◌, inl, inr, refl, sym, ap, subst, ◌∙◌, arith, Bool-cases,
}
use lugh_os.Workflow.{
  Event, ev_undo_ok, ev_step_fail, ev_begin, ev_step_ok, ev_commit, Kernel, Callback, Step,
  Workflow, wf_running, wf_committed, wf_rolling_back, wf_rolled_back, workflow_max_steps, step_at,
  steps_of, wf_emit,
}
use lugh_os.Workflow.Engine.{
  undo_at, undo_step, unwind_from, finish_unwind, wf_unwind, fail_step, run_from, workflow_run,
}

-- What `undo` owes to `run` for an observation of the memory: after a run that succeeded, an undo
-- succeeds and gives back what was observed before the run; without an undo the run leaves it.
abbrev pub Restores : {M O : Type 0} → (M → O) → ℕ → Callback M → Option (Callback M) → Type 0
Restores {M = M} obs ctx run none =
    (k : Kernel M) → is_ok (run ctx k).0 ≡ true → obs (run ctx k).1.memory ≡ obs k.memory
Restores {M = M} obs ctx run (some undo) =
    (k l : Kernel M)
    → is_ok (run ctx k).0 ≡ true
    → obs l.memory ≡ obs (run ctx k).1.memory
    → (is_ok (undo ctx l).0 ≡ true) × (obs (undo ctx l).1.memory ≡ obs k.memory)

-- A step that can be undone; one that fails leaves nothing behind.
pub record IsUndoable {M O : Type 0} (obs : M → O) (ctx : ℕ) (s : Step M) : Type 0 where
  pub restores : Restores obs ctx s.run s.undo
  pub fails :
      (k : Kernel M) → is_ok (s.run ctx k).0 ≡ false → obs (s.run ctx k).1.memory ≡ obs k.memory

module _ {M O : Type 0} (obs : M → O) where
  abbrev pub AllUndoable : ℕ → List (Step M) → Type 0
  AllUndoable ctx ss = (i : ℕ) (s : Step M) → step_at ss i ≡ some s → IsUndoable obs ctx s

  -- The first `n` steps have run, from `o₀` observed to `o`.
  abbrev Chain : ℕ → List (Step M) → O → ℕ → O → Type 0
  Chain ctx ss start zero o = o ≡ start
  Chain ctx ss start (suc n) o =
      (s : Step M) × (k : Kernel M) × (step_at ss n ≡ some s)
      × (is_ok (s.run ctx k).0 ≡ true)
      × (o ≡ obs (s.run ctx k).1.memory)
      × Chain ctx ss start n (obs k.memory)

  -- The first `n` steps have run in order, each on the memory that the one before left, and each
  -- has returned 0: from the memory `start` to `m`.
  abbrev pub Ran : ℕ → List (Step M) → M → ℕ → M → Type 0
  Ran ctx ss start zero m = m ≡ start
  Ran ctx ss start (suc n) m =
      (s : Step M) × (k : Kernel M) × (step_at ss n ≡ some s)
      × (is_ok (s.run ctx k).0 ≡ true)
      × (m ≡ (s.run ctx k).1.memory)
      × Ran ctx ss start n k.memory

  Ran-Chain :
      (ctx : ℕ) (ss : List (Step M)) (start : M) (n : ℕ) (m : M)
      → Ran ctx ss start n m
      → Chain ctx ss (obs start) n (obs m)
  Ran-Chain ctx ss start zero m e = ap obs e
  Ran-Chain ctx ss start (suc n) m (s, k, at, ok, e, r) =
      (s, k, at, ok, ap obs e, Ran-Chain ctx ss start n k.memory r)

  emit-memory :
      (k : Kernel M) (wf : Workflow M) (i : ℕ) (e : Event) (rv : ℤ)
      → (wf_emit k wf i e rv).memory ≡ k.memory
  unfolding wf_emit
  emit-memory k wf i e rv = refl

  -- One undo goes one step back.
  undo_step-back :
      (k prev : Kernel M) (wf : Workflow M) (i : ℕ) (run : Callback M) (undo : Option (Callback M))
      → Restores obs wf.ctx run undo
      → is_ok (run wf.ctx prev).0 ≡ true
      → obs k.memory ≡ obs (run wf.ctx prev).1.memory
      → ((undo_step k wf i undo).0 ≡ false)
        × (obs (undo_step k wf i undo).1.memory ≡ obs prev.memory)
  unfolding undo_step
  undo_step-back k prev wf i run none u ok seen = (refl, seen ∙ u prev ok)
  undo_step-back k prev wf i run (some f) u ok seen =
      let (undone, back) = u prev k ok seen in
      (
        rw undone refl,
        rw undone (ap obs (emit-memory (f wf.ctx k).1 wf i ev_undo_ok (pos 0)) ∙ back),
      )

  undo_at_lem :
      (wf : Workflow M) (i : ℕ) (s : Step M)
      → step_at (steps_of wf) i ≡ some s
      → undo_at wf i ≡ s.undo
  undo_at_lem wf i s e = rw (e, undo_at) refl

  -- The whole chain goes all the way back, and no undo fails.
  unwind_from-back :
      (fuel : ℕ) (k : Kernel M) (wf : Workflow M) (n : ℕ) (start : O)
      → n ≤ fuel
      → AllUndoable wf.ctx (steps_of wf)
      → Chain wf.ctx (steps_of wf) start n (obs k.memory)
      → ((unwind_from fuel k wf n false).0 ≡ false)
        × (obs (unwind_from fuel k wf n false).1.memory ≡ start)
  unfolding unwind_from
  unwind_from-back zero k wf zero start l u c = (refl, c)
  unwind_from-back zero k wf (suc n) start l u c = absurd (omega arith)
  unwind_from-back (suc fuel) k wf zero start l u c = (refl, c)
  unwind_from-back (suc fuel) k wf (suc n) start l u (s, prev, at, ok, seen, c) =
      let (calm, back) = undo_step-back k prev wf n s.run s.undo (u n s at).restores ok seen in
      let k' = (undo_step k wf n s.undo).1 in
      let step : unwind_from (suc fuel) k wf (suc n) false ≡ unwind_from fuel k' wf n false =
        ap (λ f. unwind_from fuel (undo_step k wf n f).1 wf n (undo_step k wf n f).0)
          (undo_at_lem wf n s at)
        ∙ ap (unwind_from fuel k' wf n) calm in
      let (p, q) =
        unwind_from-back fuel k' wf n start (omega arith) u
          (subst (Chain wf.ctx (steps_of wf) start n) (sym back) c) in
      (ap (λ r. r.0) step ∙ p, ap (λ r. obs r.1.memory) step ∙ q)

  -- A workflow that ended as rolled back, with `start` observed.
  abbrev pub BackAt : O → ℤ × Workflow M × Kernel M → Type 0
  BackAt start r = (r.1.status ≡ wf_rolled_back) × (r.1.done_count ≡ 0) × (obs r.2.memory ≡ start)

  finish_unwind-back :
      (wf : Workflow M) (r : Bool × Kernel M) (start : O)
      → r.0 ≡ false
      → obs r.1.memory ≡ start
      → BackAt start (finish_unwind wf r)
  unfolding finish_unwind wf_emit
  finish_unwind-back wf (true, k) start calm back = cc
  finish_unwind-back wf (false, k) start calm back = (refl, refl, back)

  -- Unwinding a workflow takes the observation back, and ends it as rolled back.
  wf_unwind-back :
      (k : Kernel M) (wf : Workflow M) (start : O)
      → wf.done_count ≤ workflow_max_steps
      → AllUndoable wf.ctx (steps_of wf)
      → Chain wf.ctx (steps_of wf) start wf.done_count (obs k.memory)
      → BackAt start (wf_unwind k wf)
  unfolding wf_unwind
  wf_unwind-back k wf start l u c =
      let wf' : Workflow M = record wf { status = wf_rolling_back } in
      let (calm, back) = unwind_from-back workflow_max_steps k wf' wf.done_count start l u c in
      finish_unwind-back wf' (unwind_from workflow_max_steps k wf' wf.done_count false) start calm
        back

  -- A step has failed: the ones before it have run from `start`, and it returned a code other
  -- than 0.
  abbrev pub Failed : ℕ → List (Step M) → M → ℕ → Type 0
  Failed ctx ss start n =
      (i : ℕ) × (s : Step M) × (k : Kernel M) × (i < n)
      × (step_at ss i ≡ some s)
      × Ran ctx ss start i k.memory
      × (is_ok (s.run ctx k).0 ≡ false)

  -- How a run of `n` steps from the memory `start` ends.
  abbrev pub Atomic : ℕ → List (Step M) → M → ℕ → ℤ × Workflow M × Kernel M → Type 0
  Atomic ctx ss start n r =
      ((r.0 ≡ pos 0)
        × (r.1.status ≡ wf_committed)
        × (r.1.done_count ≡ n)
        × Ran ctx ss start n r.2.memory)
      ⊎ (Failed ctx ss start n × (r.0 ≡ neg 1) × BackAt (obs start) r)

  -- The kernel after the `run` of step `i`, with its result.
  abbrev after_run : Kernel M → Workflow M → ℕ → Step M → ℤ × Kernel M
  after_run k wf i s = s.run wf.ctx (wf_emit k wf i ev_begin (pos 0))

  abbrev one_more : Workflow M → Workflow M
  one_more wf = record wf { done_count = (wf.done_count + 1) % 2 ^ 32 }

  run_from-ok :
      (s : Step M) (ss : List (Step M)) (i : ℕ) (k : Kernel M) (wf : Workflow M)
      → is_ok (after_run k wf i s).0 ≡ true
      → run_from (s ∷ ss) i k wf
        ≡ run_from ss (suc i) (wf_emit (after_run k wf i s).1 wf i ev_step_ok (pos 0)) (one_more wf)
  unfolding run_from
  run_from-ok s ss i k wf ok = rw (ok, run_from) refl

  run_from-fail :
      (s : Step M) (ss : List (Step M)) (i : ℕ) (k : Kernel M) (wf : Workflow M)
      → is_ok (after_run k wf i s).0 ≡ false
      → run_from (s ∷ ss) i k wf ≡ fail_step (after_run k wf i s).1 wf i (after_run k wf i s).0
  unfolding run_from
  run_from-fail s ss i k wf bad = rw (bad, run_from) refl

  fail_step-back :
      (k : Kernel M) (wf : Workflow M) (i : ℕ) (rv : ℤ) (start : O)
      → wf.done_count ≤ workflow_max_steps
      → AllUndoable wf.ctx (steps_of wf)
      → Chain wf.ctx (steps_of wf) start wf.done_count (obs k.memory)
      → ((fail_step k wf i rv).0 ≡ neg 1) × BackAt start (fail_step k wf i rv)
  fail_step-back k wf i rv start l u c = (
    refl,
    wf_unwind-back (wf_emit k wf i ev_step_fail rv) wf start l u (
        subst (λ m. Chain wf.ctx (steps_of wf) start wf.done_count (obs m))
          (sym (emit-memory k wf i ev_step_fail rv)) c),
  )

  -- The step `s` of slot `i` fails on the memory that the steps before it left.
  run_from-failed :
      (s : Step M) (ss : List (Step M)) (i n : ℕ) (k : Kernel M) (wf : Workflow M) (start : M)
      → wf.done_count ≡ i
      → i < n
      → i ≤ workflow_max_steps
      → step_at (steps_of wf) i ≡ some s
      → AllUndoable wf.ctx (steps_of wf)
      → Ran wf.ctx (steps_of wf) start i k.memory
      → is_ok (after_run k wf i s).0 ≡ false
      → Atomic wf.ctx (steps_of wf) start n (run_from (s ∷ ss) i k wf)
  run_from-failed s ss i n k wf start d p l here u ran bad =
      let begun = wf_emit k wf i ev_begin (pos 0) in
      let out = after_run k wf i s in
      let ran' : Ran wf.ctx (steps_of wf) start i begun.memory =
        subst (Ran wf.ctx (steps_of wf) start i) (sym (emit-memory k wf i ev_begin (pos 0))) ran in
      let chain = Ran-Chain wf.ctx (steps_of wf) start i begun.memory ran' in
      let back = fail_step-back out.1 wf i out.0 (obs start) (omega (arith, d, l)) u (
        subst (λ o. Chain wf.ctx (steps_of wf) (obs start) wf.done_count o)
          (sym ((u i s here).fails begun bad))
          (subst (λ m. Chain wf.ctx (steps_of wf) (obs start) m (obs begun.memory)) (sym d)
            chain)) in
      subst (Atomic wf.ctx (steps_of wf) start n) (sym (run_from-fail s ss i k wf bad))
        (inr ((i, s, begun, p, here, ran', bad), back.0, back.1))

  run_from-Atomic :
      (rest : List (Step M)) (i n : ℕ) (k : Kernel M) (wf : Workflow M) (start : M)
      → wf.done_count ≡ i
      → i + length rest ≡ n
      → n ≤ workflow_max_steps
      → ((j : ℕ) (s : Step M) → step_at rest j ≡ some s → step_at (steps_of wf) (i + j) ≡ some s)
      → AllUndoable wf.ctx (steps_of wf)
      → Ran wf.ctx (steps_of wf) start i k.memory
      → Atomic wf.ctx (steps_of wf) start n (run_from rest i k wf)
  unfolding run_from
  run_from-Atomic [] i n k wf start d e l sub u ran =
      let all : i ≡ n = omega arith in
      inl (
        refl,
        refl,
        d ∙ all,
        subst (λ m. Ran wf.ctx (steps_of wf) start n m)
            (sym
              (emit-memory k (record wf { status = wf_committed }) wf.step_count ev_commit (pos 0)))
            (subst (λ m. Ran wf.ctx (steps_of wf) start m k.memory) all ran),
      )
  run_from-Atomic (s ∷ ss) i n k wf start d e l sub u ran =
      let begun = wf_emit k wf i ev_begin (pos 0) in
      let out = after_run k wf i s in
      let next = wf_emit out.1 wf i ev_step_ok (pos 0) in
      let here : step_at (steps_of wf) i ≡ some s =
        subst (λ j. step_at (steps_of wf) j ≡ some s) (omega arith) (sub 0 s refl) in
      elim (Bool-cases (is_ok out.0)) [
        | inl ok ↦ subst (Atomic wf.ctx (steps_of wf) start n) (sym (run_from-ok s ss i k wf ok)) (
            run_from-Atomic ss (suc i) n next (one_more wf) start (omega arith) (omega arith) l
              (λ j t at.
                subst (λ m. step_at (steps_of wf) m ≡ some t) (omega arith) (sub (suc j) t at))
              u
              (
                s,
                begun,
                here,
                ok,
                emit-memory out.1 wf i ev_step_ok (pos 0),
                subst (Ran wf.ctx (steps_of wf) start i) (sym (emit-memory k wf i ev_begin (pos 0)))
                    ran,
              ))
        | inr bad ↦ run_from-failed s ss i n k wf start d (omega arith) (omega arith) here u ran bad
      ]

  step_at-take :
      (n : ℕ) (ss : List (Step M)) (i : ℕ) (s : Step M)
      → step_at (take n ss) i ≡ some s
      → step_at ss i ≡ some s
  step_at-take zero ss i s e = cc
  step_at-take (suc n) [] i s e = e
  step_at-take (suc n) (t ∷ ss) zero s e = e
  step_at-take (suc n) (t ∷ ss) (suc i) s e = step_at-take n ss i s e

  -- `workflow_run` on a slot that is RUNNING, with a step table.
  workflow_run-running :
      (k : Kernel M) (wf : Workflow M) (ss : List (Step M))
      → wf.steps ≡ some ss
      → wf.status ≡ wf_running
      → workflow_run k (some wf) ≡ (
          let (rv, wf', k') =
            run_from (take wf.step_count ss) 0 (wf_emit k wf wf.step_count ev_begin (pos 0)) wf in
          (rv, some wf', k'))
  unfolding workflow_run
  workflow_run-running k wf ss has running = simp (has, running)

  length-take_le : (n : ℕ) (ss : List (Step M)) → length (take n ss) ≤ n
  length-take_le zero ss = omega arith
  length-take_le (suc n) [] = omega arith
  length-take_le (suc n) (s ∷ ss) = omega (arith, length-take_le n ss)

  -- Take a claimed slot of at most eight steps, none done, and any observation of the memory for
  -- which every step of its table can be undone (its undo, if it has one, gives back what was
  -- observed before the run, and a run that fails or has no undo changes nothing observed). Then
  -- `workflow_run` does one of two things. It returns 0 and leaves the slot COMMITTED: every step
  -- has run in order, each on the memory that the one before left, every run has returned 0, and the
  -- memory is the one that the last left. Or some step, on the memory that the ones before it left,
  -- has returned another code: then it returns -1 and leaves the slot ROLLED_BACK, none done, with
  -- the memory observed as it was before the call.
  pub workflow_run-Atomic :
      (k : Kernel M) (wf : Workflow M) (ss : List (Step M))
      → wf.steps ≡ some ss
      → wf.status ≡ wf_running
      → wf.done_count ≡ 0
      → wf.step_count ≤ workflow_max_steps
      → AllUndoable wf.ctx ss
      → (wf' : Workflow M) × ((workflow_run k (some wf)).1 ≡ some wf')
        × Atomic wf.ctx ss k.memory
            (length (take wf.step_count ss))
            ((workflow_run k (some wf)).0, wf', (workflow_run k (some wf)).2)
  workflow_run-Atomic k wf ss has running fresh small u =
      let n = length (take wf.step_count ss) in
      let k' = wf_emit k wf wf.step_count ev_begin (pos 0) in
      let r = run_from (take wf.step_count ss) 0 k' wf in
      let same : steps_of wf ≡ ss = rw has refl in
      let a : Atomic wf.ctx (steps_of wf) k.memory n r =
        run_from-Atomic (take wf.step_count ss) 0 n k' wf k.memory fresh (omega arith)
          (omega (arith, length-take_le wf.step_count ss))
          (λ j s e.
            subst (λ xs. step_at xs (0 + j) ≡ some s) (sym same)
              (subst (λ i. step_at ss i ≡ some s) (omega arith)
                (step_at-take wf.step_count ss j s e)))
          (subst (AllUndoable wf.ctx) (sym same) u)
          (emit-memory k wf wf.step_count ev_begin (pos 0)) in
      let e = workflow_run-running k wf ss has running in
      (
        r.1,
        ap (λ x. x.1) e,
        subst (λ x. Atomic wf.ctx ss k.memory n (x.0, r.1, x.2)) (sym e)
            (subst (λ xs. Atomic wf.ctx xs k.memory n r) same a),
      )
