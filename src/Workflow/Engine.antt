-- ===== src/Workflow/Engine.antt =====
-- services/workflow/workflow.c: the undo chain, `workflow_run` and `workflow_recover`.
use lugh_os.Base.{
  ℕ, zero, suc, ◌+◌, ◌%◌, ◌^◌, ◌==◌, if◌then◌else◌, ℤ, pos, neg, is_ok, Bool, true, false, not,
  ◌||◌, List, [], ◌∷◌, take, Option, none, some,
}
use lugh_os.Workflow.{
  Kernel, Callback, Step, Workflow, wf_committed, wf_rolling_back, wf_rolled_back, wf_failed,
  status_code, ev_begin, ev_step_ok, ev_step_fail, ev_undo_ok, ev_undo_fail, ev_commit,
  ev_rolled_back, ev_failed, workflow_max_steps, step_at, steps_of, wf_emit, workflow_release,
}

module _ {M : Type 0} where
  abbrev pub undo_at : Workflow M → ℕ → Option (Callback M)
  undo_at wf i = elim (step_at (steps_of wf) i) [ none ↦ none | some s ↦ s.undo ]

  -- One undo of the chain, if there is one: whether it failed, and the kernel after.
  unfoldable pub undo_step : Kernel M → Workflow M → ℕ → Option (Callback M) → Bool × Kernel M
  undo_step k wf i none = (false, k)
  undo_step k wf i (some f) =
      let (rv, k') = f wf.ctx k in
      if is_ok rv
      then (false, wf_emit k' wf i ev_undo_ok (pos 0))
      else (true, wf_emit k' wf i ev_undo_fail rv)

  -- The loop of `wf_unwind`, with the iterations left, the steps that remain and `undo_failed`.
  unfoldable pub unwind_from : ℕ → Kernel M → Workflow M → ℕ → Bool → Bool × Kernel M
  unwind_from zero k wf remaining undo_failed = (undo_failed, k)
  unwind_from (suc n) k wf zero undo_failed = (undo_failed, k)
  unwind_from (suc n) k wf (suc remaining) undo_failed =
      let (failed, k') = undo_step k wf remaining (undo_at wf remaining) in
      unwind_from n k' wf remaining (undo_failed || failed)

  unfoldable pub finish_unwind : Workflow M → Bool × Kernel M → ℤ × Workflow M × Kernel M
  finish_unwind wf (true, k) =
      let wf' = record wf { done_count = 0; status = wf_failed } in
      (neg 1, wf', wf_emit k wf' wf.step_count ev_failed (neg 1))
  finish_unwind wf (false, k) =
      let wf' = record wf { done_count = 0; status = wf_rolled_back } in
      (pos 0, wf', wf_emit k wf' wf.step_count ev_rolled_back (pos 0))

  unfoldable pub wf_unwind : Kernel M → Workflow M → ℤ × Workflow M × Kernel M
  wf_unwind k wf =
      let wf' : Workflow M = record wf { status = wf_rolling_back } in
      finish_unwind wf' (unwind_from workflow_max_steps k wf' wf.done_count false)

  abbrev pub fail_step : Kernel M → Workflow M → ℕ → ℤ → ℤ × Workflow M × Kernel M
  fail_step k wf i rv =
      let (undo_rv, wf', k') = wf_unwind (wf_emit k wf i ev_step_fail rv) wf in (neg 1, wf', k')

  -- The loop of `workflow_run` over the steps from `i` on, and the commit after it.
  unfoldable pub run_from : List (Step M) → ℕ → Kernel M → Workflow M → ℤ × Workflow M × Kernel M
  run_from [] i k wf =
      let wf' = record wf { status = wf_committed } in
      (pos 0, wf', wf_emit k wf' wf.step_count ev_commit (pos 0))
  run_from (s ∷ ss) i k wf =
      let (rv, k') = s.run wf.ctx (wf_emit k wf i ev_begin (pos 0)) in
      elim (is_ok rv) [
        | true ↦
            run_from ss (suc i) (wf_emit k' wf i ev_step_ok (pos 0))
              (record wf { done_count = (wf.done_count + 1) % 2 ^ 32 })
        | false ↦ fail_step k' wf i rv
      ]

  abbrev pub is_wf_running : Workflow M → Bool
  is_wf_running wf = status_code wf.status == 1

  unfoldable pub workflow_run : Kernel M → Option (Workflow M) → ℤ × Option (Workflow M) × Kernel M
  workflow_run k none = (neg 1, none, k)
  workflow_run k (some wf) = elim wf.steps [
    | none ↦ (neg 1, some wf, k)
    | some ss ↦
        if not (is_wf_running wf)
        then (neg 1, some wf, k)
        else (let (rv, wf', k') =
              run_from (take wf.step_count ss) 0 (wf_emit k wf wf.step_count ev_begin (pos 0)) wf in
            (rv, some wf', k'))
  ]

  -- `status == WF_STATUS_RUNNING || status == WF_STATUS_ROLLING_BACK`
  abbrev pub is_abandoned : Workflow M → Bool
  is_abandoned wf = is_wf_running wf || status_code wf.status == 3

  -- An abandoned slot, with its step table: whether it fails, the slot and the kernel after.
  unfoldable pub recover_abandoned :
      Kernel M → Workflow M → Option (List (Step M)) → Bool × Workflow M × Kernel M
  recover_abandoned k wf none = (true, record wf { status = wf_failed }, k)
  recover_abandoned k wf (some ss) =
      let (rv, wf', k') = wf_unwind k wf in
      if is_ok rv then (false, workflow_release wf', k') else (true, wf', k')

  -- One slot of `workflow_recover`.
  unfoldable pub recover_slot : Kernel M → Workflow M → Bool × Workflow M × Kernel M
  recover_slot k wf =
      if not (is_abandoned wf) then (false, wf, k) else recover_abandoned k wf wf.steps

  unfoldable pub recover_from : Kernel M → List (Workflow M) → Bool × List (Workflow M) × Kernel M
  recover_from k [] = (false, [], k)
  recover_from k (wf ∷ wfs) =
      let (bad, wf', k') = recover_slot k wf in
      let (rest_bad, wfs', k'') = recover_from k' wfs in (bad || rest_bad, wf' ∷ wfs', k'')

  unfoldable pub workflow_recover : Kernel M → List (Workflow M) → ℤ × List (Workflow M) × Kernel M
  unfolding recover_from
  workflow_recover k table =
      let (bad, table', k') = recover_from k table in (if bad then neg 1 else pos 0, table', k')
