-- ===== src/Telemetry.antt =====
-- services/auditor/exporter.c and include/auditor.h: the auditor turns kernel events into
-- fixed-size records on a serial line.
pub mod Record
pub mod Wire
pub mod Denials
pub mod Drain
mod Tests
use lugh_os.Base.{
  ℕ, zero, suc, ℤ, pos, negsuc, to_u32, ◌+◌, ◌/◌, ◌%◌, ◌^◌, ltb, leb, ◌==◌, if◌then◌else◌, Bool,
  true, false, not, List, [], ◌∷◌, ◌++◌, replicate, Option, none, some, bit_and, bit_or, bit_xor,
}
use lugh_os.Messages.{Message}
use lugh_os.Task.{Task}
use lugh_os.Ring.{Ring, ring_boot, ring_init, ring_pop}
use Record.{AuditorRecord, RecordType, Deny}
use Record

-- The globals of exporter.c. `jiffies` is what `hw_get_jiffies` returns now, and `sent` the
-- records written to the line, first one first.
pub record Auditor : Type 0 where
  pub enabled : Bool
  pub jiffies : ℕ
  pub ring : Ring
  pub tick_count : ℕ
  pub heartbeat_counter : ℕ
  pub sent : List AuditorRecord

abbrev pub auditor_boot : Auditor
auditor_boot = record {
  enabled = false;
  jiffies = 0;
  ring = ring_boot;
  tick_count = 0;
  heartbeat_counter = 0;
  sent = [];
}

-- `tlm_write_bytes` of one record.
abbrev pub write_record : Auditor → AuditorRecord → Auditor
write_record a r = record a { sent = a.sent ++ r ∷ [] }

-- A record is written only by an armed auditor.
abbrev pub emit_if : Auditor → AuditorRecord → Auditor
emit_if a r = if not a.enabled then a else write_record a r

unfoldable pub auditor_init : Auditor → Auditor
auditor_init a = record a { ring = ring_init a.ring; enabled = true }

unfoldable pub auditor_chan_create : Auditor → ℕ → ℕ → ℕ → ℕ → ℕ → ℕ → Auditor
auditor_chan_create a channel owner caps domain level protocol =
    emit_if a (Record.chan_create_record a.jiffies channel owner caps domain level protocol)

unfoldable pub auditor_chan_connect : Auditor → ℕ → ℕ → ℕ → ℕ → ℕ → ℕ → ℕ → Auditor
auditor_chan_connect a src src_domain src_caps protocol dst dst_domain dst_caps =
    emit_if a (
      Record.chan_connect_record a.jiffies src src_domain src_caps protocol dst dst_domain dst_caps)

unfoldable pub auditor_domain_edge : Auditor → ℕ → ℕ → ℕ → Auditor
auditor_domain_edge a src dst added = emit_if a (Record.domain_edge_record a.jiffies src dst added)

unfoldable pub auditor_task_create : Auditor → ℕ → ℕ → ℕ → ℕ → ℤ → ℕ → Auditor
auditor_task_create a id parent caps domain priority stack =
    emit_if a (Record.task_create_record a.jiffies id parent caps domain priority stack)

unfoldable pub auditor_task_exit : Auditor → ℕ → ℤ → Auditor
auditor_task_exit a id code = emit_if a (Record.task_exit_record a.jiffies id code)

unfoldable pub auditor_fault : Auditor → Option Task → ℕ → ℕ → ℕ → ℕ → ℕ → Auditor
auditor_fault a current pc dfar dfsr spsr kind =
    emit_if a (Record.fault_record a.jiffies current pc dfar dfsr spsr kind)

unfoldable pub auditor_workflow : Auditor → Option Task → ℕ → ℕ → ℕ → ℕ → ℕ → ℤ → ℕ → Auditor
auditor_workflow a current id owner step status done rv event =
    emit_if a (Record.workflow_record a.jiffies current id owner step status done rv event)

unfoldable pub auditor_deny : Auditor → Deny → Auditor
auditor_deny a d = emit_if a (Record.deny_record a.jiffies d)

abbrev pub drain_batch : ℕ
drain_batch = 32

-- The drain loop of `auditor_tick`, with `n` messages of the batch to go.
pub drain : ℕ → Auditor → Auditor
drain zero a = a
drain (suc n) a =
    let (o, r) = ring_pop a.ring in
    elim o [
      | none ↦ a
      | some m ↦ drain n (write_record (record a { ring = r }) (Record.msg_record a.jiffies m))
    ]

-- The pending drop count is reported first, and reset.
pub report_overflow : Auditor → Auditor
report_overflow a =
    if ltb 0 a.ring.overflow
    then (let r = a.ring in
        record (write_record a (Record.overflow_record a.jiffies r.overflow)) {
          ring = record r { overflow = 0 };
        })
    else a

pub heartbeat : Auditor → Auditor
heartbeat a =
    let b = record a {
      tick_count = (a.tick_count + 1) % 2 ^ 64;
      heartbeat_counter = (a.heartbeat_counter + 1) % 2 ^ 32;
    } in
    if leb 100 b.heartbeat_counter
    then record (write_record b (Record.heartbeat_record b.jiffies)) { heartbeat_counter = 0 }
    else b

unfoldable pub auditor_tick : Auditor → Auditor
auditor_tick a = if not a.enabled then a else heartbeat (drain drain_batch (report_overflow a))
