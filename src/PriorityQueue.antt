-- ===== src/PriorityQueue.antt =====
-- services/scheduler/utils.c: the queue of messages by priority, in an array. The code answers a
-- NULL queue or message with -1; both are taken as given here.
pub mod Insert
pub mod Steps
pub mod Refine
mod Tests
use lugh_os.Base.{
  ℕ, zero, suc, ◌-◌, min, ◌^◌, ltb, leb, ◌==◌, if◌then◌else◌, ℤ, pos, neg, not, List, get_or, set,
  replicate,
}
use lugh_os.Messages.{Message, blank}

abbrev pub max_queue_size : ℕ
max_queue_size = 1024

-- `priority_queue_t`; the count never falls below 0.
pub record PriorityQueue : Type 0 where
  pub messages : List Message
  pub count : ℕ

-- What a call returns and leaves: the result, `*msg` and the queue.
pub record Queued : Type 0 where
  pub rv : ℤ
  pub msg : Message
  pub queue : PriorityQueue

unfoldable pub queue_init : PriorityQueue → PriorityQueue
queue_init q = record q { count = 0 }

-- The loop of `queue_push`: entries of a lower priority move up, from entry `i` down.
pub shift : List Message → ℕ → ℕ → List Message × ℕ
shift ms zero priority = (ms, 0)
shift ms (suc i) priority =
    let rest = shift (set ms (suc i) (get_or ms i blank)) i priority in
    if ltb priority (get_or ms i blank).priority then rest else (ms, suc i)

-- The loop of `queue_pop`: `k` entries move down, to entry `j` first.
pub pull : List Message → ℕ → ℕ → List Message
pull ms j zero = ms
pull ms j (suc k) = pull (set ms j (get_or ms (suc j) blank)) (suc j) k

-- `payload_checksum` is `calculate_checksum(payload, strlen(payload))`.
module _ (payload_checksum : List ℕ → ℕ) where
  unfoldable pub queue_push : PriorityQueue → Message → Queued
  queue_push q m =
      if leb max_queue_size q.count
      then record { rv = neg 1; msg = m; queue = q }
      else if q.count == 2 ^ 31 - 1
      then record { rv = neg 1; msg = m; queue = q }
      else (let m' : Message = record m { checksum = payload_checksum m.payload } in
          let (ms, i) = shift q.messages q.count m.priority in
          let ms' = set ms i m' in
          let stored = get_or ms' i blank in
          record {
            rv = if payload_checksum stored.payload == stored.checksum then pos 0 else neg 2;
            msg = m';
            queue = record { messages = ms'; count = suc q.count };
          })

  unfoldable pub queue_pop : PriorityQueue → Message → Queued
  queue_pop q m =
      if q.count == 0
      then record { rv = neg 1; msg = m; queue = q }
      else (let m' = get_or q.messages 0 blank in
          if payload_checksum m'.payload == m'.checksum
          then record {
            rv = pos 0;
            msg = m';
            queue = record {
              messages = pull q.messages 0 (min q.count max_queue_size - 1);
              count = q.count - 1;
            };
          }
          else record { rv = neg 2; msg = m'; queue = q })
