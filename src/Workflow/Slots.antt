-- ===== src/Workflow/Slots.antt =====
-- services/workflow/workflow.c: claiming a slot with `workflow_begin`.
use lugh_os.Base.{
  ℕ, zero, suc, ◌+◌, ◌<◌, ◌≤◌, ltb, ◌==◌, true, false, ◌||◌, List, [], ◌∷◌, get_or, set, length,
  Option, none, some, ◌≡◌, ◌⊎◌, inl, inr, refl, sym, ap, ◌∙◌, arith, Bool-cases, Option-cases,
  ==_iff,
}
use lugh_os.Task.{Task}
use lugh_os.Workflow.{
  Kernel, Callback, Step, GivenStep, wf_running, owner, Workflow, workflow_max_steps, idle_workflow,
  is_idle, workflow_active_count, first_idle, checked, claimed, claim, workflow_begin,
  generate_transaction_id,
}

owner_lem : (o : Option Task) → owner o ≡ (elim o [ none ↦ 0 | some t ↦ t.task_id ])
owner_lem none = refl
owner_lem (some t) = refl

module _ {M : Type 0} where
  -- The slot that the scan finds, and what filling it does to the count.
  abbrev Free : List (Workflow M) → ℕ → Type 0
  Free wfs i =
      (is_idle (get_or wfs i idle_workflow) ≡ true)
      × ((v : Workflow M)
          → is_idle v ≡ false
          → workflow_active_count (set wfs i v) ≡ suc (workflow_active_count wfs))

  abbrev Scanned : List (Workflow M) → Type 0
  Scanned wfs =
      ((first_idle wfs ≡ none) × (workflow_active_count wfs ≡ length wfs))
      ⊎ ((i : ℕ) × (first_idle wfs ≡ some i) × Free wfs i)

  count-idle :
      (wf : Workflow M) (wfs : List (Workflow M))
      → is_idle wf ≡ true
      → workflow_active_count (wf ∷ wfs) ≡ workflow_active_count wfs
  unfolding workflow_active_count
  count-idle wf wfs idle = rw idle refl

  count-busy :
      (wf : Workflow M) (wfs : List (Workflow M))
      → is_idle wf ≡ false
      → workflow_active_count (wf ∷ wfs) ≡ suc (workflow_active_count wfs)
  unfolding workflow_active_count
  count-busy wf wfs busy = rw busy refl

  first_idle-here :
      (wf : Workflow M) (wfs : List (Workflow M))
      → is_idle wf ≡ true
      → first_idle (wf ∷ wfs) ≡ some 0
  unfolding first_idle
  first_idle-here wf wfs idle = rw idle refl

  first_idle-later :
      (wf : Workflow M) (wfs : List (Workflow M))
      → is_idle wf ≡ false
      → first_idle (wf ∷ wfs) ≡ (elim (first_idle wfs) [ none ↦ none | some i ↦ some (suc i) ])
  unfolding first_idle
  first_idle-later wf wfs busy = rw busy refl

  first_idle-Scanned : (wfs : List (Workflow M)) → Scanned wfs
  unfolding first_idle workflow_active_count
  first_idle-Scanned [] = inl (refl, refl)
  first_idle-Scanned (wf ∷ wfs) = elim (Bool-cases (is_idle wf)) [
    | inl idle ↦ inr (
      0,
      first_idle-here wf wfs idle,
      (idle, λ v busy. count-busy v wfs busy ∙ ap suc (sym (count-idle wf wfs idle))),
    )
    | inr busy ↦ elim (first_idle-Scanned wfs) [
      | inl (e, n) ↦
          inl (first_idle-later wf wfs busy ∙ rw e refl, count-busy wf wfs busy ∙ ap suc n)
      | inr (i, e, (idle, count)) ↦ inr (
        suc i,
        first_idle-later wf wfs busy ∙ rw e refl,
        (
          idle,
          λ v h.
              count-busy wf (set wfs i v) busy
              ∙ ap suc (count v h)
              ∙ ap suc (sym (count-busy wf wfs busy)),
        ),
      )
    ]
  ]

  abbrev pub given_at : List (GivenStep M) → ℕ → Option (GivenStep M)
  given_at [] i = none
  given_at (g ∷ gs) zero = some g
  given_at (g ∷ gs) (suc i) = given_at gs i

  -- No step is given, or one with a NULL `run`.
  abbrev pub Lacks : Option (GivenStep M) → Type 0
  Lacks none = Unit
  Lacks (some g) = g.run ≡ none

  -- A step of a workflow is the given one.
  pub record IsGiven (g : GivenStep M) (s : Step M) : Type 0 where
    pub run : g.run ≡ some s.run
    pub name : s.name ≡ g.name
    pub undo : s.undo ≡ g.undo

  -- The steps are the first `n` given ones, in order.
  abbrev pub AllGiven : List (GivenStep M) → ℕ → List (Step M) → Type 0
  AllGiven gs zero ss = ss ≡ []
  AllGiven [] (suc n) ss = ⊥
  AllGiven (g ∷ gs) (suc n) [] = ⊥
  AllGiven (g ∷ gs) (suc n) (s ∷ ss) = IsGiven g s × AllGiven gs n ss

  abbrev pub NullRun : List (GivenStep M) → ℕ → Type 0
  NullRun gs n = (j : ℕ) × (j < n) × Lacks (given_at gs j)

  abbrev Checked : List (GivenStep M) → ℕ → Type 0
  Checked gs n =
      ((checked gs n ≡ none) × NullRun gs n)
      ⊎ ((ss : List (Step M)) × (checked gs n ≡ some ss) × AllGiven gs n ss)

  checked-null :
      (g : GivenStep M) (gs : List (GivenStep M)) (n : ℕ)
      → g.run ≡ none
      → checked (g ∷ gs) (suc n) ≡ none
  unfolding checked
  checked-null g gs n e = rw e refl

  checked-later :
      (g : GivenStep M) (gs : List (GivenStep M)) (n : ℕ) (f : Callback M)
      → g.run ≡ some f
      → checked gs n ≡ none
      → checked (g ∷ gs) (suc n) ≡ none
  unfolding checked
  checked-later g gs n f e h = rw (e, h, checked) refl

  checked-more :
      (g : GivenStep M) (gs : List (GivenStep M)) (n : ℕ) (f : Callback M) (ss : List (Step M))
      → g.run ≡ some f
      → checked gs n ≡ some ss
      → checked (g ∷ gs) (suc n) ≡ some (record { name = g.name; run = f; undo = g.undo } ∷ ss)
  unfolding checked
  checked-more g gs n f ss e h = rw (e, h, checked) refl

  Checked-cases : (gs : List (GivenStep M)) (n : ℕ) → Checked gs n
  unfolding checked
  Checked-cases gs zero = inr ([], refl, refl)
  Checked-cases [] (suc n) = inl (refl, (0, omega arith, tt))
  Checked-cases (g ∷ gs) (suc n) = elim (Option-cases g.run) [
    | inl e ↦ inl (checked-null g gs n e, (0, omega arith, e))
    | inr (f, e) ↦ elim (Checked-cases gs n) [
      | inl (h, (j, l, lacks)) ↦ inl (checked-later g gs n f e h, (suc j, omega arith, lacks))
      | inr (ss, h, all) ↦ inr (
        record { name = g.name; run = f; undo = g.undo } ∷ ss,
        checked-more g gs n f ss e h,
        (record { run = e; name = refl; undo = refl }, all),
      )
    ]
  ]

  -- Why `workflow_begin` claims nothing.
  abbrev pub Refused : List (GivenStep M) → ℕ → List (Workflow M) → Type 0
  Refused gs count table =
      (count ≡ 0)
      ⊎ ((workflow_max_steps < count)
          ⊎ (NullRun gs count ⊎ (workflow_active_count table ≡ length table)))

  Refused-count :
      (gs : List (GivenStep M)) (count : ℕ) (table : List (Workflow M))
      → (count == 0 || ltb workflow_max_steps count) ≡ true
      → Refused gs count table
  Refused-count gs count table bad = elim (Bool-cases (count == 0)) [
    | inl e ↦ inl ((==_iff count 0).0 e)
    | inr e ↦ inr (inl (ground arith))
  ]

  -- A slot claimed by the running task, in RUNNING with none done, for the steps given.
  pub record IsClaim (k : Kernel M) (gs : List (GivenStep M)) (count ctx : ℕ) (wf : Workflow M)
      : Type 0 where
    pub fresh : wf.workflow_id ≡ k.next_txn
    pub by : wf.owner_task_id ≡ (elim k.current [ none ↦ 0 | some t ↦ t.task_id ])
    pub running : wf.status ≡ wf_running
    pub sized : wf.step_count ≡ count
    pub undone : wf.done_count ≡ 0
    pub context : wf.ctx ≡ ctx
    pub table : (ss : List (Step M)) × (wf.steps ≡ some ss) × AllGiven gs count ss

  claimed-IsClaim :
      (k : Kernel M) (gs : List (GivenStep M)) (count ctx : ℕ) (ss : List (Step M))
      → AllGiven gs count ss
      → IsClaim k gs count ctx (claimed k k.next_txn count ctx ss)
  claimed-IsClaim k gs count ctx ss all = record {
    fresh = refl;
    by = owner_lem k.current;
    running = refl;
    sized = refl;
    undone = refl;
    context = refl;
    table = (ss, refl, all);
  }

  -- What `workflow_begin` returns and leaves when it claims slot `i`, which becomes `wf`.
  abbrev pub Claimed :
      Kernel M
      → List (Workflow M)
      → List (GivenStep M)
      → ℕ
      → ℕ
      → Option (Option ℕ × List (Workflow M) × Kernel M)
      → Type 0
  Claimed k table gs count ctx r =
      (i : ℕ) × (wf : Workflow M) × (0 < count)
      × (count ≤ workflow_max_steps)
      × IsClaim k gs count ctx wf
      × (is_idle (get_or table i idle_workflow) ≡ true)
      × (workflow_active_count (set table i wf) ≡ suc (workflow_active_count table))
      × (r ≡ some (some i, set table i wf, record k { next_txn = k.next_txn + 1 }))

  generate-next :
      (k : Kernel M)
      → k.next_txn < 0xFFFFFFFFFFFFFFFF
      → generate_transaction_id k ≡ some (k.next_txn, record k { next_txn = k.next_txn + 1 })
  unfolding generate_transaction_id
  generate-next k l =
      let ne : (k.next_txn == 0xFFFFFFFFFFFFFFFF) ≡ false = ground arith in rw ne refl

  claim-full :
      (k : Kernel M) (table : List (Workflow M)) (count ctx : ℕ) (ss : List (Step M))
      → first_idle table ≡ none
      → claim k table count ctx ss ≡ some (none, table, k)
  unfolding claim
  claim-full k table count ctx ss e = rw (e, claim) refl

  claim-at :
      (k : Kernel M) (table : List (Workflow M)) (count ctx i : ℕ) (ss : List (Step M))
      → k.next_txn < 0xFFFFFFFFFFFFFFFF
      → first_idle table ≡ some i
      → claim k table count ctx ss
        ≡ some (
          some i,
          set table i (claimed k k.next_txn count ctx ss),
          record k { next_txn = k.next_txn + 1 },
        )
  unfolding claim
  claim-at k table count ctx i ss l e = rw (e, generate-next k l, claim) refl

  begin-checked :
      (k : Kernel M) (table : List (Workflow M)) (gs : List (GivenStep M)) (count ctx : ℕ)
      (ss : List (Step M))
      → (count == 0 || ltb workflow_max_steps count) ≡ false
      → checked gs count ≡ some ss
      → workflow_begin k table (some gs) count ctx ≡ claim k table count ctx ss
  unfolding workflow_begin
  begin-checked k table gs count ctx ss fits e = rw (fits, e, workflow_begin) refl

  -- While transaction ids are left, `workflow_begin` on a step table either returns NULL and
  -- changes nothing, which it does only for a count of 0 or above 8, where one of the first `count`
  -- steps is missing or has a NULL run, or when every slot is in use. Or the count is from 1 to 8,
  -- and it claims a free slot for exactly the first `count` steps, under the next transaction id,
  -- with the running task as the owner and the context given, in RUNNING with none done; one slot
  -- more is then active, and no other slot changes.
  pub workflow_begin_lem :
      (k : Kernel M) (table : List (Workflow M)) (gs : List (GivenStep M)) (count ctx : ℕ)
      → k.next_txn < 0xFFFFFFFFFFFFFFFF
      → (Refused gs count table
          × (workflow_begin k table (some gs) count ctx ≡ some (none, table, k)))
        ⊎ Claimed k table gs count ctx (workflow_begin k table (some gs) count ctx)
  unfolding workflow_begin
  workflow_begin_lem k table gs count ctx l =
      elim (Bool-cases (count == 0 || ltb workflow_max_steps count)) [
        | inl bad ↦ inl (Refused-count gs count table bad, rw bad refl)
        | inr fits ↦ elim (Checked-cases gs count) [
          | inl (e, null) ↦ inl (inr (inr (inl null)), rw (fits, e, workflow_begin) refl)
          | inr (ss, e, all) ↦ elim (first_idle-Scanned table) [
            | inl (none_free, full) ↦ inl (
              inr (inr (inr full)),
              begin-checked k table gs count ctx ss fits e
                  ∙ claim-full k table count ctx ss none_free,
            )
            | inr (i, at, (idle, more)) ↦ inr (
              i,
              claimed k k.next_txn count ctx ss,
              ground arith,
              ground arith,
              claimed-IsClaim k gs count ctx ss all,
              idle,
              more (claimed k k.next_txn count ctx ss) refl,
              begin-checked k table gs count ctx ss fits e ∙ claim-at k table count ctx i ss l at,
            )
          ]
        ]
      ]
