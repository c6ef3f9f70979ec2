-- ===== src/Telemetry/Record.antt =====
-- The telemetry record (`auditor_record_t`) and what each `emit_*_record` of
-- services/auditor/exporter.c puts in it.
use lugh_os.Base.{
  ℕ, ℤ, pos, negsuc, to_u32, ◌*◌, ◌/◌, ◌%◌, ◌^◌, ltb, ◌==◌, if◌then◌else◌, List, [], ◌∷◌, ◌++◌,
  replicate, Option, none, some, bit_and, bit_or, bit_xor,
}
use lugh_os.Messages.{Message}
use lugh_os.Task.{Task, DenyReason, deny_code}

abbrev pub auditor_magic : ℕ
auditor_magic = 0x4C474849

abbrev pub telemetry_version : ℕ
telemetry_version = 2

-- `AUDITOR_REC_*`
pub data RecordType : Type 0 where
  msg overflow heartbeat deny task_create chan_create chan_connect task_exit domain_edge fault
        workflow :
      RecordType

abbrev pub type_code : RecordType → ℕ
type_code msg = 0
type_code overflow = 1
type_code heartbeat = 2
type_code deny = 3
type_code task_create = 4
type_code chan_create = 5
type_code chan_connect = 6
type_code task_exit = 7
type_code domain_edge = 8
type_code fault = 9
type_code workflow = 10

-- `auditor_record_t`
pub record AuditorRecord : Type 0 where
  pub magic : ℕ
  pub version : ℕ
  pub record_type : ℕ
  pub jiffies : ℕ
  pub priority : ℕ
  pub src_domain : ℕ
  pub protocol : ℕ
  pub channel_id : ℕ
  pub operation : ℕ
  pub checksum : ℕ
  pub payload_hash : List ℕ

-- `x & 0xFFu`, and the cast `(uint8_t)x`
abbrev pub low8 : ℕ → ℕ
low8 x = bit_and x 0xFF

abbrev pub u8 : ℕ → ℕ
u8 x = x % 2 ^ 8

-- One 32-bit value as four bytes, lowest first.
abbrev pub put32 : ℕ → List ℕ
put32 v = u8 v ∷ u8 (v / 2 ^ 8) ∷ u8 (v / 2 ^ 16) ∷ u8 (v / 2 ^ 24) ∷ []

-- The loop that packs `vals[0..3]` into `payload_hash`.
abbrev pub pack : ℕ → ℕ → ℕ → ℕ → List ℕ
pack v0 v1 v2 v3 = put32 v0 ++ (put32 v1 ++ (put32 v2 ++ put32 v3))

-- `init_record`, with the context fields zero.
abbrev pub init_record : ℕ → RecordType → AuditorRecord
init_record now t = record {
  magic = auditor_magic;
  version = telemetry_version;
  record_type = type_code t;
  jiffies = now;
  priority = 0;
  src_domain = 0;
  protocol = 0;
  channel_id = 0;
  operation = 0;
  checksum = 0;
  payload_hash = replicate 16 0;
}

-- One FNV-1a hash of the payload up to its terminator.
pub fnv : ℕ → List ℕ → ℕ
fnv h [] = h
fnv h (c ∷ cs) = if c == 0 then h else fnv (bit_xor h (u8 c) * 16777619 % 2 ^ 32) cs

pub payload_fingerprint : List ℕ → List ℕ
unfolding fnv
payload_fingerprint p =
    pack (fnv 2166136261 p) (fnv 0xD3F81F4A p) (fnv 0xA9035421 p) (fnv 0x5FA31B02 p)

unfoldable pub msg_record : ℕ → Message → AuditorRecord
unfolding payload_fingerprint
msg_record now m =
    let r = init_record now msg in
    record r {
      priority = u8 m.priority;
      channel_id = low8 m.padding1;
      src_domain = low8 (m.padding1 / 2 ^ 8);
      protocol = low8 (m.padding1 / 2 ^ 16);
      operation = m.operation;
      checksum = m.checksum;
      payload_hash = payload_fingerprint m.payload;
    }

unfoldable pub overflow_record : ℕ → ℕ → AuditorRecord
overflow_record now dropped = let r = init_record now overflow in record r { operation = dropped }

unfoldable pub heartbeat_record : ℕ → AuditorRecord
heartbeat_record now = init_record now heartbeat

unfoldable pub chan_create_record : ℕ → ℕ → ℕ → ℕ → ℕ → ℕ → ℕ → AuditorRecord
chan_create_record now channel owner caps domain level protocol =
    let r = init_record now chan_create in
    record r {
      src_domain = low8 domain;
      protocol = low8 protocol;
      channel_id = low8 channel;
      operation = caps;
      checksum = owner;
      payload_hash = pack domain level 0 0;
    }

unfoldable pub chan_connect_record : ℕ → ℕ → ℕ → ℕ → ℕ → ℕ → ℕ → ℕ → AuditorRecord
chan_connect_record now src src_domain src_caps protocol dst dst_domain dst_caps =
    let r = init_record now chan_connect in
    record r {
      src_domain = low8 src_domain;
      protocol = low8 protocol;
      channel_id = low8 src;
      operation = dst;
      checksum = dst_domain;
      payload_hash = pack src_caps dst_caps 0 0;
    }

unfoldable pub domain_edge_record : ℕ → ℕ → ℕ → ℕ → AuditorRecord
domain_edge_record now src dst added =
    let r = init_record now domain_edge in
    record r {
      src_domain = low8 src;
      channel_id = low8 dst;
      operation = src;
      checksum = dst;
      payload_hash = pack added 0 0 0;
    }

-- The priority is held to the range of a byte.
abbrev pub clamp_priority : ℤ → ℕ
clamp_priority (pos n) = if ltb 255 n then 255 else n
clamp_priority (negsuc n) = 0

unfoldable pub task_create_record : ℕ → ℕ → ℕ → ℕ → ℕ → ℤ → ℕ → AuditorRecord
task_create_record now id parent caps domain priority stack =
    let r = init_record now task_create in
    record r {
      priority = clamp_priority priority;
      src_domain = low8 domain;
      operation = id;
      checksum = parent;
      payload_hash = pack caps domain stack 0;
    }

unfoldable pub task_exit_record : ℕ → ℕ → ℤ → AuditorRecord
task_exit_record now id code =
    let r = init_record now task_exit in record r { operation = id; checksum = to_u32 code }

-- The fields of `current_task` that a record reads, 0 where it is NULL.
abbrev pub domain_of : Option Task → ℕ
domain_of none = 0
domain_of (some t) = low8 t.domain

abbrev pub id_of : Option Task → ℕ
id_of none = 0
id_of (some t) = t.task_id

unfoldable pub fault_record : ℕ → Option Task → ℕ → ℕ → ℕ → ℕ → ℕ → AuditorRecord
fault_record now current pc dfar dfsr spsr kind =
    let r = init_record now fault in
    record r {
      src_domain = domain_of current;
      protocol = kind;
      operation = pc;
      checksum = dfar;
      payload_hash = pack dfsr spsr (id_of current) 0;
    }

unfoldable pub workflow_record : ℕ → Option Task → ℕ → ℕ → ℕ → ℕ → ℕ → ℤ → ℕ → AuditorRecord
workflow_record now current id owner step status done rv event =
    let r = init_record now workflow in
    record r {
      src_domain = domain_of current;
      protocol = event;
      channel_id = low8 step;
      operation = bit_and id 0xFFFFFFFF;
      checksum = bit_and (id / 2 ^ 32) 0xFFFFFFFF;
      payload_hash = pack owner status done (to_u32 rv);
    }

-- `auditor_deny_info_t`
pub record Deny : Type 0 where
  pub src_domain : ℕ
  pub dst_domain : ℕ
  pub src_channel : ℕ
  pub dst_channel : ℕ
  pub protocol : ℕ
  pub reason : DenyReason
  pub priority : ℕ
  pub operation : ℕ
  pub granted_caps : ℕ
  pub required_caps : ℕ
  pub parent_task_id : ℕ
  pub lineage_depth : ℕ
  pub sibling_count : ℕ

-- The three bytes of the parent's id and the byte of the two lineage nibbles.
abbrev pub lineage_bytes : ℕ → ℕ → ℕ → List ℕ
lineage_bytes parent depth siblings =
    let parent24 = bit_and parent 0x00FFFFFF in
    let low = bit_and depth 0x0F in
    u8 parent24
    ∷ u8 (parent24 / 2 ^ 8)
    ∷ u8 (parent24 / 2 ^ 16)
    ∷ u8 (bit_or (low * 2 ^ 4) (bit_and siblings 0x0F))
    ∷ []

unfoldable pub deny_record : ℕ → Deny → AuditorRecord
deny_record now d =
    let r = init_record now deny in
    record r {
      priority = d.priority;
      src_domain = d.src_domain;
      protocol = d.protocol;
      channel_id = d.src_channel;
      operation = d.operation;
      checksum =
          bit_or (bit_or (deny_code d.reason) (d.dst_domain * 2 ^ 8)) (d.dst_channel * 2 ^ 16);
      payload_hash =
          put32 d.granted_caps
          ++ (put32 d.required_caps
              ++ (put32 (if d.dst_channel == 0xFF then 0xFFFFFFFF else d.dst_channel)
                  ++ lineage_bytes d.parent_task_id d.lineage_depth d.sibling_count));
    }
