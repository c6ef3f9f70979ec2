-- ===== src/Telemetry/Tests.antt =====
-- Runs of services/auditor/exporter.c on small cases.
use lugh_os.Base.{◌+◌, ◌%◌, ◌^◌, true, ◌++◌, map, length, take, drop, some, ◌≡◌, refl, arith}
use lugh_os.Task.{deny_domain}
use lugh_os.Ring.{ring_boot}
use lugh_os.Ring.Refine.{IsValid}
use lugh_os.Telemetry.{Auditor, auditor_boot, drain_batch, auditor_tick}
use lugh_os.Telemetry.Record.{AuditorRecord, init_record, heartbeat, msg_record, Deny}
use lugh_os.Telemetry.Wire.{encode, decode, decode-encode}
use lugh_os.Telemetry.Drain.{pending, drop_report, keepalive, auditor_tick_lem}

abbrev armed : Auditor
armed = record auditor_boot { enabled = true }

boot-IsValid : IsValid ring_boot
boot-IsValid = record { storage = refl; head_in = omega arith; tail_in = omega arith }

auditor_tick_lem_example :
    let b = auditor_tick armed in
    (b.sent
      ≡ armed.sent
        ++ (drop_report armed
            ++ (map (msg_record armed.jiffies) (take drain_batch (pending armed))
                ++ keepalive armed)))
    × (pending b ≡ drop drain_batch (pending armed))
    × (b.ring.overflow ≡ 0)
    × IsValid b.ring
    × (b.heartbeat_counter ≡ (armed.heartbeat_counter + 1) % 100)
    × (b.tick_count ≡ (armed.tick_count + 1) % 2 ^ 64)
    × (b.jiffies ≡ armed.jiffies)
    × (b.enabled ≡ true)
auditor_tick_lem_example = auditor_tick_lem armed refl boot-IsValid (omega arith)

abbrev beat : AuditorRecord
beat = init_record 77 heartbeat

decode-encode_example : (length (encode beat) ≡ 44) × (decode (encode beat) ≡ some beat)
decode-encode_example = decode-encode beat (record {
  magic_in = omega arith;
  version_in = omega arith;
  type_in = omega arith;
  jiffies_in = omega arith;
  operation_in = omega arith;
  checksum_in = omega arith;
  hash_in = refl;
})

abbrev refused : Deny
refused = record {
  src_domain = 1;
  dst_domain = 2;
  src_channel = 3;
  dst_channel = 4;
  protocol = 0;
  reason = deny_domain;
  priority = 0;
  operation = 0x200;
  granted_caps = 3;
  required_caps = 9;
  parent_task_id = 1;
  lineage_depth = 1;
  sibling_count = 2;
}
