-- ===== src/Checkpoints/Tests.antt =====
-- A checkpoint of a buffer of three bytes.
use lugh_os.Base.{
  ℕ, zero, suc, ◌<◌, ◌+◌, ◌*◌, ◌%◌, if◌then◌else◌, [], ◌∷◌, none, some, pos, true, false, ◌≡◌, refl,
  arith,
}
use lugh_os.Telemetry.{auditor_boot}
use lugh_os.TxnLog.{txn_log_boot}
use lugh_os.Security.{MemRegion, security_validate_memory_access, check_regions}
use lugh_os.Security.Copies.{may_copy}
use lugh_os.Workflow.{Kernel}
use lugh_os.Checkpoints.{
  Store, empty_slot, key_equal, find_registered, create_checkpoint, restore_checkpoint,
}
use lugh_os.Checkpoints.Bytes.{inside}
use lugh_os.Checkpoints.RoundTrip.{
  buffer_of, with_bytes, IsCopyable, restore_checkpoint-create_checkpoint,
}

-- One region that may be read and written.
abbrev everything : MemRegion
everything = record {
  start_addr = 0;
  end_addr = 0xFFFFFFFF;
  read_allowed = true;
  write_allowed = true;
  exec_allowed = false;
}

abbrev store : Store
store = record {
  bytes = λ x. x % 256;
  slot_data = λ j. 5000 + j * 5000;
  regions = record { protected_regions = everything ∷ []; count = 1 };
  registered_buffers = record { key = 97 ∷ []; data_ptr = 100; size = 3; in_use = true } ∷ [];
  checkpoint_slots = empty_slot ∷ empty_slot ∷ [];
}

abbrev kernel : Kernel Store
kernel = record {
  memory = store;
  log = txn_log_boot;
  auditor = auditor_boot;
  current = none;
  next_txn = 1;
}

registered : find_registered store (97 ∷ []) ≡ some 0
unfolding key_equal
registered = refl

copyable_out : (j : ℕ) → j < 2 → may_copy store.regions (store.slot_data j) 100 3 ≡ true
unfolding security_validate_memory_access check_regions
copyable_out zero l = refl
copyable_out (suc zero) l = refl
copyable_out (suc (suc j)) l = absurd (omega arith)

copyable_back : (j : ℕ) → j < 2 → may_copy store.regions 100 (store.slot_data j) 3 ≡ true
unfolding security_validate_memory_access check_regions
copyable_back zero l = refl
copyable_back (suc zero) l = refl
copyable_back (suc (suc j)) l = absurd (omega arith)

copyable : IsCopyable store (buffer_of store 0)
copyable = record { out = copyable_out; back = copyable_back }

restore_checkpoint-create_checkpoint_example :
    (saved : Kernel Store) × (create_checkpoint kernel (some (97 ∷ [])) (some (98 ∷ []))
      ≡ some (pos 0, saved))
    × ((m : ℕ → ℕ)
        → (l : Kernel Store) × (restore_checkpoint
              (with_bytes saved m)
              (some (98 ∷ []))
              (some (97 ∷ []))
            ≡ some (pos 0, l))
          × (let b = buffer_of store 0 in
              (x : ℕ) → l.memory.bytes x ≡ (if inside b x then store.bytes x else m x)))
restore_checkpoint-create_checkpoint_example =
    restore_checkpoint-create_checkpoint kernel (97 ∷ []) (98 ∷ []) 0 0 registered refl
      (omega arith) (omega arith) copyable
