-- ===== src/Ipc/Trust.antt =====
-- Sequences of the calls of kernel/ipc/ipc.c, and the tasks behind the open channels.
use lugh_os.Base.{
  ℕ, zero, suc, ◌<◌, ℤ, pos, negsuc, is_ok, ltb, not, Bool, true, false, List, [], ◌∷◌, get_or, set,
  Option, none, some, ◌≡◌, ◌⊎◌, inl, inr, refl, sym, subst, ◌∙◌, Option-cases,
}
use lugh_os.Base.Masks.{Covers}
use lugh_os.Messages.{Message}
use lugh_os.Task.{Task}
use lugh_os.Tasks.{Tasks, task_count, task_at, current_task}
use lugh_os.Tasks.Family.{IsFamily}
use lugh_os.Ipc.{Channel, Transport, World, empty_channel, channel_at, max_ipc_channels}
use lugh_os.Ipc.Channels.{
  reset_from, init_ipc, opened, create_by, ipc_create_channel, close_at, ipc_close_channel,
  ipc_connect,
}
use lugh_os.Ipc.Transfer.{ipc_send, ipc_recv}
use lugh_os.Ipc.Gates.{
  Keeps, Created, refused, no_socket, made, create_by-Created, ipc_connect-Keeps, ipc_send-Keeps,
  ipc_recv-Keeps, either,
}

-- A channel in use has an owner in the task table, who holds every capability of the channel.
abbrev pub Rooted : Tasks → Channel → Type 0
Rooted s c =
    c.in_use ≡ true
    → (k : ℕ) × (k < task_count s)
      × ((task_at s k).task_id ≡ c.owner_task_id)
      × Covers (task_at s k).cap_mask c.cap_mask

abbrev pub AllRooted : List Channel → Tasks → Type 0
AllRooted cs s = (i : ℕ) → Rooted s (get_or cs i empty_channel)

abbrev pub IsRooted : {N : Type 0} → World N → Type 0
IsRooted w = AllRooted w.channels w.tasks

set_either :
    (cs : List Channel) (i j : ℕ) (c d : Channel)
    → (get_or (set cs i c) j d ≡ c) ⊎ (get_or (set cs i c) j d ≡ get_or cs j d)
set_either [] i j c d = inr refl
set_either (x ∷ cs) zero zero c d = inl refl
set_either (x ∷ cs) zero (suc j) c d = inr refl
set_either (x ∷ cs) (suc i) zero c d = inr refl
set_either (x ∷ cs) (suc i) (suc j) c d = set_either cs i j c d

set-AllRooted :
    (cs : List Channel) (s : Tasks) (i : ℕ) (c : Channel)
    → AllRooted cs s
    → Rooted s c
    → AllRooted (set cs i c) s
set-AllRooted cs s i c all one j = elim (set_either cs i j c empty_channel) [
  | inl e ↦ subst (Rooted s) (sym e) one
  | inr e ↦ subst (Rooted s) (sym e) (all j)
]

moved : (cs ds : List Channel) (s u : Tasks) → ds ≡ cs → u ≡ s → AllRooted cs s → AllRooted ds u
moved cs ds s u e f all = subst (AllRooted ds) (sym f) (subst (λ x. AllRooted x s) (sym e) all)

-- A free slot stays vacuous, whatever else is written to it.
free-Rooted : (s : Tasks) (c : Channel) → c.in_use ≡ false → Rooted s c
free-Rooted s c e h = absurd (let z : true ≡ false = sym h ∙ e in cc)

reset_from-Rooted : (i : ℕ) (cs : List Channel) (s : Tasks) → AllRooted (reset_from i cs) s
reset_from-Rooted i [] s j h = cc
reset_from-Rooted i (c ∷ cs) s zero h = cc
reset_from-Rooted i (c ∷ cs) s (suc j) h = reset_from-Rooted (suc i) cs s j h

module _ {N P : Type 0} (T : Transport N P) where
  Keeps-IsRooted : (w v : World N) → Keeps w v → IsRooted w → IsRooted v
  Keeps-IsRooted w v (e, f) all = moved w.channels v.channels w.tasks v.tasks e f all

  Created-IsRooted :
      (w : World N) (k level domain caps : ℕ) (r : ℤ × World N)
      → k < task_count w.tasks
      → Created T w (task_at w.tasks k) level domain caps r
      → IsRooted w
      → IsRooted r.1
  Created-IsRooted w k level domain caps _ l (refused r bad keeps) all =
      Keeps-IsRooted w r.1 keeps all
  Created-IsRooted w k level domain caps _ l (no_socket r i sock bad free e f) all =
      let c : Channel = record (channel_at w i) { socket = sock } in
      moved (set w.channels i c) r.1.channels w.tasks r.1.tasks e f
        (set-AllRooted w.channels w.tasks i c all (free-Rooted w.tasks c free))
  Created-IsRooted w k level domain caps _ l (made r i c ok free covers may e f) all =
      let d = opened T c (task_at w.tasks k) level domain caps in
      moved (set w.channels i d) r.1.channels w.tasks r.1.tasks e f
        (set-AllRooted w.channels w.tasks i d all (λ h. (k, l, refl, covers)))

  Created-tasks :
      (w : World N) (t : Task) (level domain caps : ℕ) (r : ℤ × World N)
      → Created T w t level domain caps r
      → r.1.tasks ≡ w.tasks
  Created-tasks w t level domain caps _ (refused r bad keeps) = keeps.1
  Created-tasks w t level domain caps _ (no_socket r i sock bad free e f) = f
  Created-tasks w t level domain caps _ (made r i c ok free covers may e f) = f

  -- What a call keeps: the channels stay rooted, and the tasks stay as they are.
  abbrev Safe : World N → World N → Type 0
  Safe w v = (IsRooted w → IsRooted v) × (v.tasks ≡ w.tasks)

  Keeps-Safe : (w v : World N) → Keeps w v → Safe w v
  Keeps-Safe w v k = (Keeps-IsRooted w v k, k.1)

  -- The running task is the one in its slot.
  running_slot : (s : Tasks) (k : ℕ) → s.current ≡ some k → current_task s ≡ some (task_at s k)
  running_slot s k e = rw (e, current_task) refl

  idle_slot : (s : Tasks) → s.current ≡ none → current_task s ≡ none
  idle_slot s e = rw (e, current_task) refl

  create-Safe :
      (w : World N) (level domain caps : ℕ) (protocol : ℤ)
      → IsFamily w.tasks
      → Safe w (ipc_create_channel T w level domain caps protocol).1
  unfolding ipc_create_channel
  create-Safe w level domain caps protocol family = elim (Option-cases w.tasks.current) [
    | inl e ↦ rw (idle_slot w.tasks e, ipc_create_channel) (λ all. all, refl)
    | inr (k, e) ↦
        let c = create_by-Created T w (task_at w.tasks k) level domain caps protocol in
        let r = create_by T w (task_at w.tasks k) level domain caps protocol in
        let l = family.runs k e in
        rw (running_slot w.tasks k e, ipc_create_channel)
          (
            Created-IsRooted w k level domain caps r l c,
            Created-tasks w (task_at w.tasks k) level domain caps r c,
          )
  ]

  close_at-Safe : (w : World N) (i : ℕ) → Safe w (close_at T w i).1
  unfolding close_at
  close_at-Safe w i =
      let c = channel_at w i in
      let shut : Channel = record c { in_use = false } in
      either (λ (r : ℤ × World N). Safe w r.1) (not c.in_use) _ _ (λ all. all, refl)
        (either (λ (r : ℤ × World N). Safe w r.1) (is_ok (T.nng_socket_close w.net c.socket).0) _ _
          (λ all. set-AllRooted w.channels w.tasks i shut all (free-Rooted w.tasks shut refl), refl)
          (λ all. all, refl))

  close-Safe : (w : World N) (id : ℤ) → Safe w (ipc_close_channel T w id).1
  unfolding ipc_close_channel
  close-Safe w (negsuc i) = (λ all. all, refl)
  close-Safe w (pos i) =
      either (λ (r : ℤ × World N). Safe w r.1) (ltb i max_ipc_channels) _ _ (close_at-Safe w i)
        (λ all. all, refl)

-- A call of the channel interface.
pub data Call : Type 0 where
  create : ℕ → ℕ → ℕ → ℤ → Call
  close : ℤ → Call
  connect : ℤ → ℤ → Call
  send : ℤ → Option Message → Call
  recv : ℤ → Option Message → Bool → Call

module _ {N P : Type 0} (T : Transport N P) where
  abbrev pub step : World N → Call → World N
  step w (create level domain caps protocol) = (ipc_create_channel T w level domain caps protocol).1
  step w (close id) = (ipc_close_channel T w id).1
  step w (connect src dst) = (ipc_connect T w src dst).1
  step w (send id m) = (ipc_send T w id m).world
  step w (recv id m nonblock) = (ipc_recv T w id m nonblock).world

  pub run : World N → List Call → World N
  run w [] = w
  run w (c ∷ cs) = run (step w c) cs

  step-Safe : (w : World N) (c : Call) → IsFamily w.tasks → Safe T w (step w c)
  step-Safe w (create level domain caps protocol) f = create-Safe T w level domain caps protocol f
  step-Safe w (close id) f = close-Safe T w id
  step-Safe w (connect a b) f = Keeps-Safe T w (ipc_connect T w a b).1 (ipc_connect-Keeps T w a b)
  step-Safe w (send id m) f = Keeps-Safe T w (ipc_send T w id m).world (ipc_send-Keeps T w id m)
  step-Safe w (recv id m b) f =
      Keeps-Safe T w (ipc_recv T w id m b).world (ipc_recv-Keeps T w id m b)

  run-IsRooted :
      (w : World N) (cs : List Call) → IsFamily w.tasks → IsRooted w → IsRooted (run w cs)
  unfolding run
  run-IsRooted w [] f all = all
  run-IsRooted w (c ∷ cs) f all =
      let (safe, same) = step-Safe w c f in
      run-IsRooted (step w c) cs (subst IsFamily (sym same) f) (safe all)

  -- From `init_ipc` on a task table that is a family, whatever calls are made and whatever the
  -- transport answers, every channel in use names as its owner a task of the table that holds every
  -- capability the channel has.
  pub run_init-IsRooted :
      (w : World N) (cs : List Call) → IsFamily w.tasks → IsRooted (run (init_ipc T w).1 cs)
  unfolding init_ipc
  run_init-IsRooted w cs f =
      run-IsRooted (init_ipc T w).1 cs f (reset_from-Rooted 0 w.channels w.tasks)
