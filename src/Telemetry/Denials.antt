-- ===== src/Telemetry/Denials.antt =====
-- The packing of a denial: `auditor_deny` against the field layout that include/auditor.h states.
use lugh_os.Base.{
  ℕ, ◌+◌, ◌*◌, ◌/◌, ◌%◌, ◌^◌, ◌<◌, ◌==◌, if◌then◌else◌, List, [], ◌∷◌, bit_and, bit_or, take, drop,
  ◌≡◌, ap, ◌∙◌, arith,
}
use lugh_os.Base.Masks.{bit_and-mask, bit_or-shifted, bit_or_comm}
use lugh_os.Task.{
  DenyReason, deny_code, deny_cap_send, deny_cap_recv, deny_cap_priv, deny_domain,
  deny_cap_escalation, deny_domain_create,
}
use lugh_os.Telemetry.Record.{Deny, deny_record, u8}
use lugh_os.Telemetry.Wire.{of_bytes, word_of, of_bytes-put32}

-- The values that the emit sites put in a denial: bytes, words, and nibbles that saturate at 15.
pub record IsInRange (d : Deny) : Type 0 where
  pub dst_domain_in : d.dst_domain < 256
  pub dst_channel_in : d.dst_channel < 256
  pub granted_in : d.granted_caps < 2 ^ 32
  pub required_in : d.required_caps < 2 ^ 32
  pub depth_in : d.lineage_depth < 16
  pub siblings_in : d.sibling_count < 16

code-lt : (r : DenyReason) → deny_code r < 256
code-lt deny_cap_send = omega arith
code-lt deny_cap_recv = omega arith
code-lt deny_cap_priv = omega arith
code-lt deny_domain = omega arith
code-lt deny_cap_escalation = omega arith
code-lt deny_domain_create = omega arith

context_sum :
    (now : ℕ) (d : Deny)
    → IsInRange d
    → (deny_record now d).checksum
      ≡ deny_code d.reason + d.dst_domain * 2 ^ 8 + d.dst_channel * 2 ^ 16
unfolding deny_record
context_sum now d v =
    let code = deny_code d.reason in
    let inner : bit_or code (d.dst_domain * 2 ^ 8) ≡ d.dst_domain * 2 ^ 8 + code =
      bit_or_comm code (d.dst_domain * 2 ^ 8)
      ∙ bit_or-shifted 8 d.dst_domain code (code-lt d.reason) in
    let outer =
      bit_or_comm (d.dst_domain * 2 ^ 8 + code) (d.dst_channel * 2 ^ 16)
      ∙ bit_or-shifted 16 d.dst_channel (d.dst_domain * 2 ^ 8 + code)
          (omega (arith, code-lt d.reason, v.dst_domain_in)) in
    ap (λ t. bit_or t (d.dst_channel * 2 ^ 16)) inner ∙ outer ∙ omega arith

-- The bytes of the payload where the parent's id and the lineage stand.
abbrev pub parent_of : List ℕ → ℕ
parent_of hash = of_bytes (take 3 (drop 12 hash))

abbrev pub nibbles_of : List ℕ → ℕ
nibbles_of hash = of_bytes (take 1 (drop 15 hash))

nibbles-sum :
    (depth siblings : ℕ)
    → depth < 16
    → siblings < 16
    → of_bytes (u8 (bit_or (bit_and depth 0x0F * 2 ^ 4) (bit_and siblings 0x0F)) ∷ [])
      ≡ depth * 16 + siblings
nibbles-sum depth siblings p q =
    let low : bit_and siblings 0x0F ≡ siblings = bit_and-mask 4 siblings ∙ omega arith in
    let high : bit_and depth 0x0F ≡ depth = bit_and-mask 4 depth ∙ omega arith in
    rw (low, high) (omega (arith, bit_or-shifted 4 depth siblings q))

-- What the encoder recovers from a denial whose fields are in range: the reason, the destination
-- domain and channel from the context word, both capability masks, the low 24 bits of the parent's
-- id (all ones for a task without a parent), the lineage depth and the sibling count; and no
-- destination channel is reported as 0xFFFFFFFF.
pub deny_record_fields :
    (now : ℕ) (d : Deny)
    → IsInRange d
    → let r = deny_record now d in
      (r.checksum % 256 ≡ deny_code d.reason)
      × (r.checksum / 2 ^ 8 % 256 ≡ d.dst_domain)
      × (r.checksum / 2 ^ 16 ≡ d.dst_channel)
      × (word_of 0 r.payload_hash ≡ d.granted_caps)
      × (word_of 1 r.payload_hash ≡ d.required_caps)
      × (word_of 2 r.payload_hash ≡ (if d.dst_channel == 0xFF then 0xFFFFFFFF else d.dst_channel))
      × (parent_of r.payload_hash ≡ d.parent_task_id % 2 ^ 24)
      × (nibbles_of r.payload_hash ≡ d.lineage_depth * 16 + d.sibling_count)
unfolding deny_record
deny_record_fields now d v =
    let none_or_id = if d.dst_channel == 0xFF then 0xFFFFFFFF else d.dst_channel in
    let context = context_sum now d v in
    let code = code-lt d.reason in
    (
      omega (arith, context, code, v.dst_domain_in),
      omega (arith, context, code, v.dst_domain_in),
      omega (arith, context, code, v.dst_domain_in),
      of_bytes-put32 d.granted_caps v.granted_in,
      of_bytes-put32 d.required_caps v.required_in,
      of_bytes-put32 none_or_id (ground (arith, v.dst_channel_in)),
      omega (arith, bit_and-mask 24 d.parent_task_id),
      nibbles-sum d.lineage_depth d.sibling_count v.depth_in v.siblings_in,
    )
