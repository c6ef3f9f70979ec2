-- ===== src/Lib.antt =====
-- LughOS: a model of the kernel's tasks, channels, memory frames, telemetry and durable workflows,
-- with the properties that make them correct.
--
-- The parts, and where they are modelled:
--   * Tasks (kernel/sched/task.c): `task_init` makes the root task, `create_task` adds a task under
--     the running one, with no capability that its parent lacks. Task holds `task_t`, the
--     capabilities of include/capabilities.h and the reasons of a denial; Tasks the table and its
--     operations; Tasks/Create and Tasks/Family the proofs; Tasks/Lineage the two lineage helpers of
--     kernel/ipc/ipc.c, which walk the table.
--   * Ipc (kernel/ipc/ipc.c): channels with a capability mask, a domain and an owner. Ipc holds the
--     channel table and the denials, Ipc/Channels creating, closing and connecting, Ipc/Transfer
--     sending and receiving, Ipc/Gates, Ipc/Trust, Ipc/Refusals and Ipc/Audit the proofs. The code's C
--     functions keep their names.
--   * Domains (kernel/security/domain_graph.c): the matrix of allowed domain transitions, which
--     both `ipc_create_channel` and `ipc_connect` ask, and its seal.
--   * Ring (kernel/ring_buffer.c): the telemetry ring. `ipc_send` pushes to it, the auditor pops.
--   * Telemetry (services/auditor/exporter.c): Telemetry/Record has one function for each
--     `emit_*_record`, Telemetry the `auditor_*` calls and the tick, Telemetry/Wire the bytes of a
--     record. The other parts call the auditor as the code does.
--   * Memory/Frames (kernel/mm/frames.c): the page frame allocator over its bitmap. Memory/Blocks
--     (kernel/mm/memory.c): the block allocator, four classes of 32 blocks over the kernel heap.
--     Blocks/Layout and Blocks/Placed follow `memory_init`, Blocks/Alloc, Blocks/Free and Blocks/Runs
--     the calls.
--   * Security (kernel/security.c): the table of protected regions, built from the link layout, and
--     `security_validate_memory_access`. Security/Checks and Security/Policy hold its proofs,
--     Security/Copies the guarded `memcpy`, `memmove`, `memset`, `strlen` and `strcpy` of
--     kernel/mm/memory_utils.c, which ask it.
--   * Checksum (kernel/nngcompat.c): the CRC-32 table and `calculate_checksum`.
--   * Nng (kernel/nngcompat.c): Nng holds the statics, Nng/Messages the pool of messages and the
--     conversions, Nng/Sockets and Nng/Topics the sockets, pipes, queues and subscriptions, Nng/Send
--     `nng_send` for each protocol. Messages come from Memory/Blocks. Nng/Instance is the transport
--     that Ipc takes as its parameter.
--   * PriorityQueue (services/scheduler/utils.c): the queue of messages by priority.
--   * Scheduler (services/scheduler/round_robin.c, kernel/sched/priority.c): the two schedulers, on
--     the task table.
--     Scheduler/HotSwap has the copy of the cursor, Scheduler/SameTable what a scheduler leaves alone.
--   * Syscalls (kernel/syscall/syscall.c): `syscall_handler` and its calls, over the tasks, the
--     channels, the scheduler and the auditor. User memory is read as a message or a task descriptor
--     at an address, so writing one does not change the other.
--   * TxnLog (kernel/fs/storage.c): the bounded transaction log, which reports drops to the auditor
--     through the telemetry ring's overflow count.
--   * Workflow (services/workflow/workflow.c): slots and events; Workflow/Engine runs, undoes and
--     recovers; Workflow/Atomic, Undo, Recovery and Slots hold the proofs. Every step boundary goes to TxnLog and to the auditor.
--   * Checkpoints (services/storage/transactions.c): registered buffers and their copies, over a
--     memory of bytes. Both copies ask the access checks of Security, as `memcpy` does; a buffer is
--     taken to lie outside the data of the checkpoint slots.
--   * Base: names of the libraries passed on, Boolean tests, arrays, bits, masks, exclusive or, counting,
--     search.
--
-- How the code is modelled. A C global becomes a field of a record; a function takes the records it
-- reads and gives back those it writes, with its return code as ℤ. Pointers that may be NULL are
-- Options; a pointer into a table is its slot. Unsigned arithmetic writes out its wrap-around. An
-- array read out of range gives a default element, and no theorem relies on it. `none` as a whole
-- result means that the CPU is halted (`generate_transaction_id` out of ids) or that a table would
-- be read at a negative index (`rr_schedule` with a cursor below -1).
--
-- The tables (channels, workflow slots, checkpoint slots) are lists; the code's have 16, 4 and 16
-- entries, and the theorems hold for a list of any length.
--
-- Loops are structural recursion on a list or on the number of rounds that the code bounds: 1024
-- frames, 1024 hops of `lineage_depth_of`, 32 messages of a tick, 8 undo steps, 10000 characters of
-- `strlen`, 64 pipes. Each bound is the
-- code's own constant.
--
-- Workflow callbacks are functions of the whole kernel but the slot table, which a callback that
-- started another workflow would change. A callback that is NULL is refused by `workflow_begin`, so
-- a claimed slot holds functions.
--
-- Ipc takes kernel/nngcompat.c as the record `Transport` of its operations, any functions at all;
-- its theorems hold for every transport, and Nng/Instance gives it the kernel's own.
--
-- In Nng the struct behind a message pointer is kept in a map from addresses, with the bytes of its
-- body as a list and the size of the block behind them; a flag, `overrun`, turns true when an append
-- writes past that block, and every other message then becomes an unknown of the model,
-- `after_overrun`, since the block behind may be any message's. The verdict of the access checks on
-- messages and on the bytes to append is a function of the state, since the addresses of local
-- variables are not modelled. PriorityQueue takes the checksum of a payload as a
-- parameter. The sizes of pointers are those of 32-bit targets; the heap bounds are those of x86 and
-- ARM, and the section bounds of the linker script are a parameter.
--
-- Not modelled: log lines and the serial drivers; the assembly and device code under kernel/arch and
-- the page tables; `kmalloc`, `strcmp` and `strstr` of kernel/mm/memory_utils.c; `validate_message`;
-- the storage backend table; the update pipeline, and cryptography; the access check of `memset` in
-- Memory/Blocks, which is called on blocks of the heap alone; the tests of Nng and PriorityQueue for
-- a NULL socket, queue or message. lib/nng is a copy of another project's headers.
pub mod Base
pub mod Checkpoints
pub mod Checksum
pub mod Domains
pub mod Ipc
pub mod Memory
pub mod Messages
pub mod Nng
pub mod PriorityQueue
pub mod Ring
pub mod Scheduler
pub mod Security
pub mod Syscalls
pub mod Task
pub mod Tasks
pub mod Telemetry
pub mod TxnLog
pub mod Workflow
