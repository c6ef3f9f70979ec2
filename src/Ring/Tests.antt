-- ===== src/Ring/Tests.antt =====
-- Runs of kernel/ring_buffer.c on small cases.
use lugh_os.Base.{◌≡◌, refl, [], ◌∷◌, some, arith}
use lugh_os.Messages.{Message, blank}
use lugh_os.Ring.{ring_boot, ring_push, ring_pop}
use lugh_os.Ring.Refine.{IsValid, contents, put, get, run, run_queue, run_refines}

abbrev alert : Message
alert = record blank { operation = 7 }

boot-IsValid : IsValid ring_boot
boot-IsValid = record { storage = refl; head_in = omega arith; tail_in = omega arith }

popped : (ring_pop (ring_push ring_boot alert).1).0 ≡ some alert
unfolding ring_push ring_pop
popped = refl

run_refines_example :
    run ring_boot (put alert ∷ get ∷ get ∷ [])
    ≡ run_queue (contents ring_boot) (put alert ∷ get ∷ get ∷ [])
run_refines_example = run_refines (put alert ∷ get ∷ get ∷ []) ring_boot boot-IsValid
