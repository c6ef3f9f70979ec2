-- ===== src/Telemetry/Wire.antt =====
-- The 44 bytes of a record on the line (`auditor_record_t` is packed), and the decoder that
-- scripts/read_telemetry.py states as the struct format '<IHHQBBBBII16s'.
use lugh_os.Base.{
  ℕ, zero, suc, ℤ, to_u32, ◌+◌, ◌*◌, ◌/◌, ◌%◌, ◌^◌, ◌<◌, ◌==◌, if◌then◌else◌, List, [], ◌∷◌, ◌++◌,
  Option, none, some, length, take, drop, ◌≡◌, ap, arith, true,
}
use native.Mathlib.Nat.{pow-suc}
use lugh_os.Base.Masks.{bit_and-mask}
use lugh_os.Task.{Task}
use lugh_os.Telemetry.Record.{AuditorRecord, put32, workflow_record}

-- The low `n` bytes of a value, lowest first.
abbrev pub le_bytes : ℕ → ℕ → List ℕ
le_bytes zero v = []
le_bytes (suc n) v = v % 256 ∷ le_bytes n (v / 256)

abbrev pub of_bytes : List ℕ → ℕ
of_bytes [] = 0
of_bytes (b ∷ bs) = b + 256 * of_bytes bs

pub encode : AuditorRecord → List ℕ
encode r =
    le_bytes 4 r.magic
    ++ (le_bytes 2 r.version
        ++ (le_bytes 2 r.record_type
            ++ (le_bytes 8 r.jiffies
                ++ (r.priority
                    ∷ r.src_domain
                    ∷ r.protocol
                    ∷ r.channel_id
                    ∷ (le_bytes 4 r.operation ++ (le_bytes 4 r.checksum ++ r.payload_hash))))))

-- The next `n` bytes as a number.
abbrev pub field_at : ℕ → ℕ → List ℕ → ℕ
field_at offset n xs = of_bytes (take n (drop offset xs))

abbrev pub record_at : List ℕ → AuditorRecord
record_at xs = record {
  magic = field_at 0 4 xs;
  version = field_at 4 2 xs;
  record_type = field_at 6 2 xs;
  jiffies = field_at 8 8 xs;
  priority = field_at 16 1 xs;
  src_domain = field_at 17 1 xs;
  protocol = field_at 18 1 xs;
  channel_id = field_at 19 1 xs;
  operation = field_at 20 4 xs;
  checksum = field_at 24 4 xs;
  payload_hash = drop 28 xs;
}

pub decode : List ℕ → Option AuditorRecord
decode xs = if length xs == 44 then some (record_at xs) else none

-- Each field holds a value of its C type.
pub record IsInRange (r : AuditorRecord) : Type 0 where
  pub magic_in : r.magic < 2 ^ 32
  pub version_in : r.version < 2 ^ 16
  pub type_in : r.record_type < 2 ^ 16
  pub jiffies_in : r.jiffies < 2 ^ 64
  pub operation_in : r.operation < 2 ^ 32
  pub checksum_in : r.checksum < 2 ^ 32
  pub hash_in : length r.payload_hash ≡ 16

pub of_bytes-le_bytes : (n v : ℕ) → v < 256 ^ n → of_bytes (le_bytes n v) ≡ v
of_bytes-le_bytes zero v h = omega arith
of_bytes-le_bytes (suc n) v h =
    let rest = of_bytes-le_bytes n (v / 256) (omega (arith, pow-suc 256 n)) in omega (arith, rest)

record_at-encode : (r : AuditorRecord) → IsInRange r → record_at (encode r) ≡ r
unfolding encode
record_at-encode r v =
    let magic = of_bytes-le_bytes 4 r.magic (omega (arith, v.magic_in)) in
    let version = of_bytes-le_bytes 2 r.version (omega (arith, v.version_in)) in
    let kind = of_bytes-le_bytes 2 r.record_type (omega (arith, v.type_in)) in
    let jiffies = of_bytes-le_bytes 8 r.jiffies (omega (arith, v.jiffies_in)) in
    let priority : r.priority + 256 * 0 ≡ r.priority = omega arith in
    let src_domain : r.src_domain + 256 * 0 ≡ r.src_domain = omega arith in
    let protocol : r.protocol + 256 * 0 ≡ r.protocol = omega arith in
    let channel : r.channel_id + 256 * 0 ≡ r.channel_id = omega arith in
    let operation = of_bytes-le_bytes 4 r.operation (omega (arith, v.operation_in)) in
    let checksum = of_bytes-le_bytes 4 r.checksum (omega (arith, v.checksum_in)) in
    λ i. record {
      magic = magic i;
      version = version i;
      record_type = kind i;
      jiffies = jiffies i;
      priority = priority i;
      src_domain = src_domain i;
      protocol = protocol i;
      channel_id = channel i;
      operation = operation i;
      checksum = checksum i;
      payload_hash = r.payload_hash;
    }

pub length-encode : (r : AuditorRecord) → length r.payload_hash ≡ 16 → length (encode r) ≡ 44
unfolding encode
length-encode r h = omega (arith, h)

-- A record whose fields are in the range of their C types takes 44 bytes, and the decoder reads it
-- back from them as it was written.
pub decode-encode :
    (r : AuditorRecord) → IsInRange r → (length (encode r) ≡ 44) × (decode (encode r) ≡ some r)
unfolding decode
decode-encode r v =
    let n = length-encode r v.hash_in in
    let e : (length (encode r) == 44) ≡ true = ground (arith, n) in
    (n, rw e (ap some (record_at-encode r v)))

-- The value that the decoder takes from the four bytes at `4 * k` of the payload.
abbrev pub word_of : ℕ → List ℕ → ℕ
word_of k hash = of_bytes (take 4 (drop (4 * k) hash))

pub of_bytes-put32 : (v : ℕ) → v < 2 ^ 32 → of_bytes (put32 v) ≡ v
of_bytes-put32 v h = omega arith

-- What the off-box encoder recovers from a workflow record: the 64-bit id from its two halves, the
-- owner, the status, the undo cursor and the step's return value.
pub workflow_record_fields :
    (now : ℕ) (current : Option Task) (id owner step status done event : ℕ) (rv : ℤ)
    → id < 2 ^ 64
    → owner < 2 ^ 32
    → status < 2 ^ 32
    → done < 2 ^ 32
    → to_u32 rv < 2 ^ 32
    → let r = workflow_record now current id owner step status done rv event in
      (r.operation + r.checksum * 2 ^ 32 ≡ id)
      × (word_of 0 r.payload_hash ≡ owner)
      × (word_of 1 r.payload_hash ≡ status)
      × (word_of 2 r.payload_hash ≡ done)
      × (word_of 3 r.payload_hash ≡ to_u32 rv)
unfolding workflow_record
workflow_record_fields now current id owner step status done event rv h1 h2 h3 h4 h5 = (
  omega (arith, bit_and-mask 32 id, bit_and-mask 32 (id / 2 ^ 32)),
  of_bytes-put32 owner h2,
  of_bytes-put32 status h3,
  of_bytes-put32 done h4,
  of_bytes-put32 (to_u32 rv) h5,
)
