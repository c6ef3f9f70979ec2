-- ===== src/Nng/Messages/RoundTrip.antt =====
-- kernel/nngcompat.c: a message through `lugh_message_to_nng` and `nng_message_to_lugh`.
use lugh_os.Base.{
  ℕ, suc, ◌-◌, ◌%◌, ◌^◌, ◌≤◌, ◌<◌, ℤ, Bool, true, false, List, ◌∷◌, ◌++◌, length, take, ◌≡◌, ◌≢◌,
  refl, ◌∙◌, arith, ==_ne, ltb-false,
}
use lugh_os.Messages.{Message, max_msg_size}
use lugh_os.Memory.Blocks.Placed.{IsPlaced}
use lugh_os.Nng.{Nng, nng_ok}
use lugh_os.Nng.Messages.{
  nng_msg_alloc, string_length, word_bytes, word_at, lugh_message_to_nng, nng_message_to_lugh,
}
use lugh_os.Nng.Messages.Strings.{IsPayload, SameString, unpacked-SameString}
use lugh_os.Nng.Messages.Wire.{IsBody, packed, lugh_message_to_nng-IsPacked}

-- The message that arrives, against the one sent.
pub record IsSent (m : Message) (out : ℤ × Message) : Type 0 where
  pub result : out.0 ≡ nng_ok
  pub priority : out.1.priority ≡ m.priority % 2 ^ 8
  pub operation : out.1.operation ≡ m.operation
  pub string : SameString m.payload out.1.payload

word_at-word_bytes :
    (x : ℕ) (b : ℕ) (s : List ℕ) → x < 2 ^ 32 → word_at (b ∷ (word_bytes x ++ s)) 1 ≡ x
word_at-word_bytes x b s l = omega arith

-- The conversion reads a packed body.
unpack :
    (n : Nng) (p : ℕ) (m old : Message) (over : Bool)
    → p ≢ 0
    → IsBody n p (packed m) 64 over
    → m.operation < 2 ^ 32
    → IsPayload m.payload
    → length old.payload ≡ max_msg_size
    → IsSent m (nng_message_to_lugh n p old)
unfolding nng_message_to_lugh
unpack n p m old over ne v l pay w =
    let s = take (suc (string_length m.payload)) m.payload in
    rw (==_ne p 0 ne) (
      rw (==_ne (n.msgs p).body 0 v.buffer) (
        rw v.bytes (
          rw (ltb-false (length (packed m)) 5 (omega arith)) (
            rw (let e : length (packed m) - 5 ≡ length s = omega arith in e) record {
              result = refl;
              priority = refl;
              operation = word_at-word_bytes m.operation (m.priority % 2 ^ 8) s l;
              string = unpacked-SameString m.payload old.payload pay w;
            }))))

-- Where a message can be allocated and the access checks pass, what `lugh_message_to_nng` packs
-- `nng_message_to_lugh` unpacks: the operation, the string, and the low byte of the priority.
-- The packet stays within its buffer for strings of at most 58 characters.
pub nng_message_to_lugh-lugh_message_to_nng :
    (n : Nng) (m old : Message)
    → IsPlaced n.heap
    → (nng_msg_alloc n 0).0 ≡ nng_ok
    → ((q : ℕ) (cs : List ℕ) → n.access q cs ≡ true)
    → m.operation < 2 ^ 32
    → IsPayload m.payload
    → length old.payload ≡ max_msg_size
    → IsSent m (nng_message_to_lugh (lugh_message_to_nng n m).2 (lugh_message_to_nng n m).1 old)
      × (string_length m.payload ≤ 58
          → n.overrun ≡ false
          → (lugh_message_to_nng n m).2.overrun ≡ false)
nng_message_to_lugh-lugh_message_to_nng n m old p ok a l pay w =
    let sent = lugh_message_to_nng-IsPacked n m p ok a pay in
    (
      unpack (lugh_message_to_nng n m).2 (lugh_message_to_nng n m).1 m old _ sent.nonnull
          sent.packet l pay w,
      λ short clean. sent.packet.overrun ∙ ground (arith, short, clean),
    )
