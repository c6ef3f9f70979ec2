-- ===== src/Workflow/Undo.antt =====
-- The undo chain of `wf_unwind` (services/workflow/workflow.c), against the calls it should make.
use lugh_os.Base.{
  ℕ, zero, suc, ◌≤◌, ℤ, pos, is_ok, Bool, true, false, not, ◌||◌, List, Option, none, some, ◌≡◌,
  inl, inr, refl, sym, ap, ◌∙◌, arith, Bool-cases, Option-cases,
}
use lugh_os.Workflow.{
  Kernel, Callback, Step, Workflow, Event, ev_undo_ok, ev_undo_fail, step_at, steps_of, wf_emit,
}
use lugh_os.Workflow.Engine.{undo_at, undo_step, unwind_from}

or_assoc : (a b c : Bool) → ((a || b) || c) ≡ (a || (b || c))
or_assoc true b c = refl
or_assoc false b c = refl

or_false : (b : Bool) → (b || false) ≡ b
or_false true = refl
or_false false = refl

module _ {M : Type 0} where
  abbrev pub undo_of : Option (Step M) → Option (Callback M)
  undo_of none = none
  undo_of (some s) = s.undo

  -- The undos of the first `n` steps, called from the last of them to the first, each on the memory
  -- that the one before left, from kernel `k` to kernel `k'`; and whether one of them failed.
  pub data Undone (ss : List (Step M)) (ctx : ℕ) : ℕ → Kernel M → Bool → Kernel M → Type 0 where
    finished : (k : Kernel M) → Undone ss ctx 0 k false k
    passed :
        {n : ℕ} {k k' : Kernel M} {bad : Bool}
        → undo_of (step_at ss n) ≡ none
        → Undone ss ctx n k bad k'
        → Undone ss ctx (suc n) k bad k'
    undid :
        {n : ℕ} {k k' : Kernel M} {bad : Bool} (undo : Callback M) (l : Kernel M)
        → undo_of (step_at ss n) ≡ some undo
        → l.memory ≡ (undo ctx k).1.memory
        → Undone ss ctx n l bad k'
        → Undone ss ctx (suc n) k (not (is_ok (undo ctx k).0) || bad) k'

  undo_at_lem : (wf : Workflow M) (i : ℕ) → undo_at wf i ≡ undo_of (step_at (steps_of wf) i)
  undo_at_lem wf i = elim (Option-cases (step_at (steps_of wf) i)) [
    | inl e ↦ rw (e, undo_at) refl
    | inr (s, e) ↦ rw (e, undo_at) refl
  ]

  pub emit-memory :
      (k : Kernel M) (wf : Workflow M) (i : ℕ) (e : Event) (rv : ℤ)
      → (wf_emit k wf i e rv).memory ≡ k.memory
  unfolding wf_emit
  emit-memory k wf i e rv = refl

  -- One undo: its failure, and its memory.
  undo_step_lem :
      (k : Kernel M) (wf : Workflow M) (i : ℕ) (f : Callback M)
      → ((undo_step k wf i (some f)).0 ≡ not (is_ok (f wf.ctx k).0))
        × ((undo_step k wf i (some f)).1.memory ≡ (f wf.ctx k).1.memory)
  unfolding undo_step
  undo_step_lem k wf i f = elim (Bool-cases (is_ok (f wf.ctx k).0)) [
    | inl e ↦ rw e (refl, emit-memory (f wf.ctx k).1 wf i ev_undo_ok (pos 0))
    | inr e ↦ rw e (refl, emit-memory (f wf.ctx k).1 wf i ev_undo_fail (f wf.ctx k).0)
  ]

  undo_step-none : (k : Kernel M) (wf : Workflow M) (i : ℕ) → undo_step k wf i none ≡ (false, k)
  unfolding undo_step
  undo_step-none k wf i = refl

  -- What the loop of `wf_unwind` comes to.
  abbrev pub Unwound : ℕ → ℕ → Kernel M → Workflow M → Bool → Type 0
  Unwound fuel n k wf f =
      (bad : Bool) × (l : Kernel M) × Undone (steps_of wf) wf.ctx n k bad l
      × (unwind_from fuel k wf n f ≡ (f || bad, l))

  pub unwind_from-Unwound :
      (fuel n : ℕ) (k : Kernel M) (wf : Workflow M) (f : Bool) → n ≤ fuel → Unwound fuel n k wf f
  unfolding unwind_from
  unwind_from-Unwound zero zero k wf f l =
      (false, k, finished k, ap (λ b. (b, k)) (sym (or_false f)))
  unwind_from-Unwound (suc fuel) zero k wf f l =
      (false, k, finished k, ap (λ b. (b, k)) (sym (or_false f)))
  unwind_from-Unwound zero (suc n) k wf f l = absurd (omega arith)
  unwind_from-Unwound (suc fuel) (suc n) k wf f l =
      elim (Option-cases (undo_of (step_at (steps_of wf) n))) [
        | inl e ↦
            let (bad, k', u, run) = unwind_from-Unwound fuel n k wf (f || false) (omega arith) in
            let step =
              ap (λ o. undo_step k wf n o) (undo_at_lem wf n ∙ e) ∙ undo_step-none k wf n in
            (
              bad,
              k',
              passed e u,
              ap (λ r. unwind_from fuel r.1 wf n (f || r.0)) step
                  ∙ run
                  ∙ ap (λ b. (b || bad, k')) (or_false f),
            )
        | inr (undo, e) ↦
            let failed = not (is_ok (undo wf.ctx k).0) in
            let l' = (undo_step k wf n (some undo)).1 in
            let (bad, k', u, run) = unwind_from-Unwound fuel n l' wf (f || failed) (omega arith) in
            let step = ap (λ o. undo_step k wf n o) (undo_at_lem wf n ∙ e) in
            (
              failed || bad,
              k',
              undid undo l' e (undo_step_lem k wf n undo).1 u,
              ap (λ r. unwind_from fuel r.1 wf n (f || r.0)) step
                  ∙ ap (λ b. unwind_from fuel l' wf n (f || b)) (undo_step_lem k wf n undo).0
                  ∙ run
                  ∙ ap (λ b. (b, k')) (or_assoc f failed bad),
            )
      ]
