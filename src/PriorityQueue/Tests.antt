-- ===== src/PriorityQueue/Tests.antt =====
-- Runs of the priority queue (services/scheduler/utils.c).
use lugh_os.Base.{ℕ, List, [], ◌∷◌, ◌≡◌, refl, replicate, length-replicate}
use lugh_os.Messages.{Message, blank}
use lugh_os.PriorityQueue.{PriorityQueue, queue_init}
use lugh_os.PriorityQueue.Insert.{insert}
use lugh_os.PriorityQueue.Refine.{
  Call, push, pop, run, list_run, list_step, pushed, popped, queue_refines,
}

abbrev first_byte : List ℕ → ℕ
first_byte [] = 0
first_byte (b ∷ bs) = b

abbrev storage : PriorityQueue
storage = record { messages = replicate 1024 blank; count = 7 }

abbrev low : Message
low = record blank { priority = 2; operation = 1 }

abbrev high : Message
high = record blank { priority = 0; operation = 2 }

abbrev calls : List Call
calls = push low ∷ push high ∷ push low ∷ pop ∷ pop ∷ []

high_first : list_run first_byte [] calls ≡ pushed ∷ pushed ∷ pushed ∷ popped high ∷ popped low ∷ []
unfolding list_run list_step insert
high_first = refl

queue_refines_example : run first_byte (queue_init storage) calls ≡ list_run first_byte [] calls
queue_refines_example = queue_refines first_byte storage calls (length-replicate 1024 blank)
