-- ===== src/Workflow/Recovery.antt =====
-- `workflow_recover` (services/workflow/workflow.c) on the slot table.
use lugh_os.Base.{
  ◌≤◌, if◌then◌else◌, ℤ, pos, neg, is_ok, Bool, true, false, not, ◌||◌, List, [], ◌∷◌, Option, none,
  some, ◌≡◌, ◌⊎◌, inl, inr, refl, sym, ap, subst, ◌∙◌, Bool-cases, Option-cases,
}
use lugh_os.Workflow.{
  Kernel, Step, Workflow, Status, wf_idle, wf_running, wf_committed, wf_rolling_back,
  wf_rolled_back, wf_failed, ev_failed, ev_rolled_back, idle_workflow, workflow_release,
  workflow_max_steps, steps_of,
}
use lugh_os.Workflow.Undo.{Undone, emit-memory, unwind_from-Unwound}
use lugh_os.Workflow.Engine.{
  finish_unwind, wf_unwind, is_abandoned, recover_abandoned, recover_slot, recover_from,
  workflow_recover,
}

-- A workflow that a crash or a halt has left unfinished.
abbrev pub unfinished : Status → Bool
unfinished wf_idle = false
unfinished wf_running = true
unfinished wf_committed = false
unfinished wf_rolling_back = true
unfinished wf_rolled_back = false
unfinished wf_failed = false

unfinished_lem :
    (st : Status) {M : Type 0} (wf : Workflow M) → wf.status ≡ st → is_abandoned wf ≡ unfinished st
unfinished_lem wf_idle wf e = rw e refl
unfinished_lem wf_running wf e = rw e refl
unfinished_lem wf_committed wf e = rw e refl
unfinished_lem wf_rolling_back wf e = rw e refl
unfinished_lem wf_rolled_back wf e = rw e refl
unfinished_lem wf_failed wf e = rw e refl

module _ {M : Type 0} where
  -- The workflow of a slot after a rollback in which an undo failed.
  abbrev stuck : Workflow M → Workflow M
  stuck wf = record wf { status = wf_failed; done_count = 0 }

  -- What recovery does to a slot: whether it reports a failure, the slot and the kernel after.
  abbrev pub Recovered : Kernel M → Workflow M → Bool → Workflow M → Kernel M → Type 0
  Recovered k wf bad wf' k' =
      ((unfinished wf.status ≡ false) × (bad ≡ false) × (wf' ≡ wf) × (k' ≡ k))
      ⊎ ((unfinished wf.status ≡ true)
          × (((wf.steps ≡ none)
                × (bad ≡ true)
                × (wf' ≡ record wf { status = wf_failed })
                × (k' ≡ k))
              ⊎ ((ss : List (Step M)) × (l : Kernel M) × (wf.steps ≡ some ss)
                  × Undone ss wf.ctx wf.done_count k bad l
                  × (k'.memory ≡ l.memory)
                  × (wf' ≡ (if bad then stuck wf else idle_workflow)))))

  -- The same slot by slot, each from the kernel that the one before left, with all the failures.
  abbrev pub AllRecovered :
      Kernel M → List (Workflow M) → Bool → List (Workflow M) → Kernel M → Type 0
  AllRecovered k [] bad [] k' = (bad ≡ false) × (k' ≡ k)
  AllRecovered k [] bad (wf' ∷ wfs') k' = ⊥
  AllRecovered k (wf ∷ wfs) bad [] k' = ⊥
  AllRecovered k (wf ∷ wfs) bad (wf' ∷ wfs') k' =
      (b : Bool) × (c : Bool) × (l : Kernel M) × (bad ≡ (b || c))
      × Recovered k wf b wf' l
      × AllRecovered l wfs c wfs' k'

  -- No slot counts more steps done than a workflow may have.
  abbrev pub AllWithin : List (Workflow M) → Type 0
  AllWithin [] = Unit
  AllWithin (wf ∷ wfs) = (wf.done_count ≤ workflow_max_steps) × AllWithin wfs

  -- The end of a rollback in whose chain `bad` tells of a failure.
  abbrev Finished : Workflow M → Bool → Kernel M → ℤ × Workflow M × Kernel M → Type 0
  Finished wf bad l r =
      (is_ok r.0 ≡ not bad) × (r.2.memory ≡ l.memory) × (bad ≡ true → r.1 ≡ stuck wf)

  finish_unwind-Finished :
      (wf : Workflow M) (bad : Bool) (l : Kernel M) → Finished wf bad l (finish_unwind wf (bad, l))
  unfolding finish_unwind
  finish_unwind-Finished wf true l =
      (refl, emit-memory l (stuck wf) wf.step_count ev_failed (neg 1), λ e. refl)
  finish_unwind-Finished wf false l = (
    refl,
    emit-memory l (record wf { status = wf_rolled_back; done_count = 0 }) wf.step_count
        ev_rolled_back (pos 0),
    λ e. cc,
  )

  wf_unwind-Finished :
      (k : Kernel M) (wf : Workflow M)
      → wf.done_count ≤ workflow_max_steps
      → (bad : Bool) × (l : Kernel M) × Undone (steps_of wf) wf.ctx wf.done_count k bad l
        × Finished wf bad l (wf_unwind k wf)
  unfolding wf_unwind
  wf_unwind-Finished k wf h =
      let wf' : Workflow M = record wf { status = wf_rolling_back } in
      let (bad, l, u, run) = unwind_from-Unwound workflow_max_steps wf.done_count k wf' false h in
      (
        bad,
        l,
        u,
        subst (λ r. Finished wf bad l (finish_unwind wf' r)) (sym run)
            (finish_unwind-Finished wf' bad l),
      )

  release_lem : (wf : Workflow M) → workflow_release wf ≡ idle_workflow
  unfolding workflow_release
  release_lem wf = refl

  -- A slot with a step table, from what its rollback came to.
  abbrev settled : ℤ × Workflow M × Kernel M → Bool × Workflow M × Kernel M
  settled r = if is_ok r.0 then (false, workflow_release r.1, r.2) else (true, r.1, r.2)

  settled_lem :
      (wf : Workflow M) (bad : Bool) (l : Kernel M) (r : ℤ × Workflow M × Kernel M)
      → Finished wf bad l r
      → ((settled r).0 ≡ bad)
        × ((settled r).1 ≡ (if bad then stuck wf else idle_workflow))
        × ((settled r).2.memory ≡ l.memory)
  settled_lem wf true l r (ok, same, at) = rw ok (refl, at refl, same)
  settled_lem wf false l r (ok, same, at) = rw ok (refl, release_lem r.1, same)

  steps_of-some : (wf : Workflow M) (ss : List (Step M)) → wf.steps ≡ some ss → steps_of wf ≡ ss
  steps_of-some wf ss e = rw e refl

  recover_abandoned-settled :
      (k : Kernel M) (wf : Workflow M) (ss : List (Step M))
      → recover_abandoned k wf (some ss) ≡ settled (wf_unwind k wf)
  unfolding recover_abandoned
  recover_abandoned-settled k wf ss = refl

  recover_abandoned-null :
      (k : Kernel M) (wf : Workflow M)
      → recover_abandoned k wf none ≡ (true, record wf { status = wf_failed }, k)
  unfolding recover_abandoned
  recover_abandoned-null k wf = refl

  recover_slot-abandoned :
      (k : Kernel M) (wf : Workflow M) (o : Option (List (Step M)))
      → is_abandoned wf ≡ true
      → wf.steps ≡ o
      → recover_slot k wf ≡ recover_abandoned k wf o
  unfolding recover_slot
  recover_slot-abandoned k wf o h e = rw h (ap (recover_abandoned k wf) e)

  recover_slot-other :
      (k : Kernel M) (wf : Workflow M)
      → is_abandoned wf ≡ false
      → recover_slot k wf ≡ (false, wf, k)
  unfolding recover_slot
  recover_slot-other k wf h = rw h refl

  recover_slot-Recovered :
      (k : Kernel M) (wf : Workflow M)
      → wf.done_count ≤ workflow_max_steps
      → let r = recover_slot k wf in Recovered k wf r.0 r.1 r.2
  recover_slot-Recovered k wf l =
      let same = unfinished_lem wf.status wf refl in
      elim (Bool-cases (is_abandoned wf)) [
        | inr h ↦
            let e = recover_slot-other k wf h in
            inl (sym same ∙ h, ap (λ r. r.0) e, ap (λ r. r.1) e, ap (λ r. r.2) e)
        | inl h ↦ inr (
          sym same ∙ h,
          elim (Option-cases wf.steps) [
            | inl none_set ↦
                let e = recover_slot-abandoned k wf none h none_set ∙ recover_abandoned-null k wf in
                inl (none_set, ap (λ r. r.0) e, ap (λ r. r.1) e, ap (λ r. r.2) e)
            | inr (ss, has) ↦
                let (bad, end, u, f) = wf_unwind-Finished k wf l in
                let (b, slot, mem) = settled_lem wf bad end (wf_unwind k wf) f in
                let e =
                  recover_slot-abandoned k wf (some ss) h has ∙ recover_abandoned-settled k wf ss in
                let chain =
                  subst (λ xs. Undone xs wf.ctx wf.done_count k bad end) (steps_of-some wf ss has)
                    u in
                let said = ap (λ r. r.0) e ∙ b in
                inr (
                  ss,
                  end,
                  has,
                  subst (λ x. Undone ss wf.ctx wf.done_count k x end) (sym said) chain,
                  ap (λ r. r.2.memory) e ∙ mem,
                  ap (λ r. r.1) e
                      ∙ slot
                      ∙ ap (λ x. if x then stuck wf else idle_workflow) (sym said),
                )
          ],
        )
      ]

  recover_from-AllRecovered :
      (k : Kernel M) (wfs : List (Workflow M))
      → AllWithin wfs
      → let r = recover_from k wfs in AllRecovered k wfs r.0 r.1 r.2
  unfolding recover_from
  recover_from-AllRecovered k [] h = (refl, refl)
  recover_from-AllRecovered k (wf ∷ wfs) (l, h) =
      let r = recover_slot k wf in
      (
        r.0,
        (recover_from r.2 wfs).0,
        r.2,
        refl,
        recover_slot-Recovered k wf l,
        recover_from-AllRecovered r.2 wfs h,
      )

  -- Take a table in which no slot counts more than eight steps done. `workflow_recover` goes
  -- through it in order. A slot that is neither RUNNING nor ROLLING_BACK stays as it is. One of the
  -- others without a step table becomes FAILED. For any other the undos of its completed steps are
  -- called, from the last to the first, each on the memory that the one before left; if all of them
  -- return 0 the slot is freed, and if one fails the slot becomes FAILED, with none done. The result
  -- is -1 if a slot became FAILED, and 0 otherwise.
  pub workflow_recover_lem :
      (k : Kernel M) (table : List (Workflow M))
      → AllWithin table
      → let r = workflow_recover k table in
        (bad : Bool) × AllRecovered k table bad r.1 r.2 × (r.0 ≡ (if bad then neg 1 else pos 0))
  unfolding workflow_recover
  workflow_recover_lem k table h =
      ((recover_from k table).0, recover_from-AllRecovered k table h, refl)
