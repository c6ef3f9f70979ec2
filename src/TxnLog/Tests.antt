-- ===== src/TxnLog/Tests.antt =====
-- Runs of kernel/fs/storage.c on small cases.
use lugh_os.Base.{List, [], ◌∷◌, map, Option, none, some, ◌≡◌, refl, arith}
use lugh_os.Task.{Task}
use lugh_os.Tasks.{empty_task}
use lugh_os.Telemetry.{auditor_boot}
use lugh_os.TxnLog.{
  TxnEntry, empty_entry, txn_log_boot, txn_log_get_depth, make_room, stamp, store, log_transaction,
}
use lugh_os.TxnLog.Bounded.{IsValid, contents}
use lugh_os.TxnLog.History.{log_all, stamped, recent, log_all_lem}

abbrev write_entry : TxnEntry
write_entry = record empty_entry { txn_id = 1; operation = 0x200 }

abbrev writer : Task
writer = record empty_task { task_id = 5 }

abbrev entries : List (Option Task × TxnEntry)
entries = (some writer, write_entry) ∷ (none, record write_entry { txn_id = 2 }) ∷ []

boot-IsValid : IsValid txn_log_boot
unfolding txn_log_get_depth
boot-IsValid = record {
  storage = refl;
  head_in = omega arith;
  tail_in = omega arith;
  within = omega arith;
}

stamp_run : stamp (some writer) write_entry ≡ record write_entry { task_id = 5 }
unfolding stamp
stamp_run = refl

depth_run : txn_log_get_depth (log_all auditor_boot txn_log_boot entries).1 ≡ 2
unfolding log_all log_transaction make_room store txn_log_get_depth
depth_run = refl

log_all_lem_example :
    contents (log_all auditor_boot txn_log_boot entries).1 ≡ recent (map stamped entries)
log_all_lem_example = log_all_lem auditor_boot entries
