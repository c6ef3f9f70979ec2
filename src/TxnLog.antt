-- ===== src/TxnLog.antt =====
-- kernel/fs/storage.c: the bounded transaction log, and `txn_log_entry_t` of include/lugh.h.
pub mod Bounded
pub mod History
mod Tests
use lugh_os.Base.{
  ℕ, ◌+◌, ◌-◌, ◌%◌, ◌^◌, leb, ◌==◌, ◌&&◌, if◌then◌else◌, ℤ, pos, neg, List, [], get_or, set,
  replicate, bit_and, Option, none, some, is_some,
}
use lugh_os.Task.{Task}
use lugh_os.Telemetry.{Auditor}

-- `txn_log_entry_t`, its two strings up to their terminators.
pub record TxnEntry : Type 0 where
  pub txn_id : ℕ
  pub task_id : ℕ
  pub operation : ℕ
  pub key : List ℕ
  pub value : List ℕ
  pub checksum : ℕ

abbrev pub empty_entry : TxnEntry
empty_entry = record { txn_id = 0; task_id = 0; operation = 0; key = []; value = []; checksum = 0 }

abbrev pub txn_log_entries : ℕ
txn_log_entries = 256

-- The statics of storage.c: `head` is the next slot to write and `tail` the oldest still live.
pub record TxnLog : Type 0 where
  pub txn_log : List TxnEntry
  pub head : ℕ
  pub tail : ℕ
  pub overflow : ℕ

abbrev pub txn_log_boot : TxnLog
txn_log_boot = record {
  txn_log = replicate txn_log_entries empty_entry;
  head = 0;
  tail = 0;
  overflow = 0;
}

unfoldable pub txn_log_get_overflow : TxnLog → ℕ
txn_log_get_overflow l = l.overflow

unfoldable pub txn_log_get_depth : TxnLog → ℕ
txn_log_get_depth l = (l.head + 2 ^ 32 - l.tail) % 2 ^ 32

-- The drop of the oldest entry of a full log, which `ipc_ring.overflow` counts too.
unfoldable pub make_room : Auditor → TxnLog → Auditor × TxnLog
make_room a l =
    if leb txn_log_entries (txn_log_get_depth l)
    then (
      (let r = a.ring in record a { ring = record r { overflow = (r.overflow + 1) % 2 ^ 32 } }),
      record l { tail = (l.tail + 1) % 2 ^ 32; overflow = (l.overflow + 1) % 2 ^ 32 },
    )
    else (a, l)

-- The owner that an entry is stamped with.
unfoldable pub stamp : Option Task → TxnEntry → TxnEntry
stamp none e = e
stamp (some t) e = if e.task_id == 0 then record e { task_id = t.task_id } else e

-- The slot `txn_log_head & (TXN_LOG_ENTRIES - 1u)` is written, and the head moves on.
unfoldable pub store : TxnLog → TxnEntry → TxnLog
store l e = record l {
  txn_log = set l.txn_log (bit_and l.head (txn_log_entries - 1)) e;
  head = (l.head + 1) % 2 ^ 32;
}

-- What `log_transaction` returns and leaves: `*entry` as stamped, the log and the telemetry ring.
pub record Logged : Type 0 where
  pub rv : ℤ
  pub entry : Option TxnEntry
  pub log : TxnLog
  pub auditor : Auditor

unfoldable pub log_transaction : Auditor → TxnLog → Option Task → Option TxnEntry → Logged
log_transaction a l current none = record { rv = neg 1; entry = none; log = l; auditor = a }
log_transaction a l current (some e) =
    let (a', l') = make_room a l in
    let e' = stamp current e in
    record { rv = pos 0; entry = some e'; log = store l' e'; auditor = a' }
