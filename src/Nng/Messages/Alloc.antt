-- ===== src/Nng/Messages/Alloc.antt =====
-- kernel/nngcompat.c: what `nng_msg_alloc` comes to over the block allocator.
use lugh_os.Base.{
  ℕ, ltb, ◌==◌, ℤ, is_ok, true, false, List, [], ◌≡◌, ◌≢◌, refl, sym, subst, ◌∙◌, arith, inl, inr,
  Bool-cases, Option-cases, ==_ne, ==_refl,
}
use lugh_os.Base.Search.{first_where}
use lugh_os.Memory.Blocks.{Heap, block_at, alloc_memory, free_memory}
use lugh_os.Memory.Blocks.Placed.{IsPlaced, Index, address_of, address_of-injective}
use lugh_os.Memory.Blocks.Alloc.{Request, refused, full, given, alloc_memory_lem}
use lugh_os.Nng.{NngMsg, MsgSlot, Nng, nng_ok, nng_enomem, nng_einval, msg_buffer_size}
use lugh_os.Nng.Messages.{
  is_free_slot, nng_msg_size, write_msg, block_size, buffer_request, alloc_into, nng_msg_alloc,
}

-- The allocator has given the address out.
pub record IsHeld (h : Heap) (ptr : ℕ) : Type 0 where
  pub place :
      (c : ℕ) × (i : ℕ) × (Index c i × (address_of c i ≡ ptr) × ((block_at h c i).in_use ≡ true))

-- An address that an allocation gives was not given out before.
request_new :
    (h : Heap) (size ptr : ℕ) (out : ℕ × Heap)
    → Request h size out
    → IsHeld h ptr
    → out.0 ≢ 0
    → out.0 ≢ ptr
request_new h size ptr out (refused _) held n e = n refl
request_new h size ptr out (full _ _ _) held n e = n refl
request_new h size ptr out (given c i h' _ at unused _ _ _) held n e =
    let (d, j, (at', place, used)) = held.place in
    let (ec, ei) = address_of-injective c i d j at at' (e ∙ sym place) in
    let clash : (block_at h c i).in_use ≡ true =
      subst (λ x. (block_at h x i).in_use ≡ true) (sym ec)
        (subst (λ y. (block_at h d y).in_use ≡ true) (sym ei) used) in
    absurd (let z : false ≡ true = sym unused ∙ clash in cc)

-- What an allocation of a message comes to: a failure that changes the allocator alone, or a new
-- empty message.
pub data MsgAlloc (n : Nng) (size : ℕ) : ℤ × ℕ × Nng → Type 0 where
  no_msg : (rv : ℤ) (h : Heap) → is_ok rv ≡ false → MsgAlloc n size (rv, 0, record n { heap = h })
  new_msg :
      (p : ℕ) (fresh : NngMsg) (h : Heap) (slots : List MsgSlot)
      → fresh.bytes ≡ []
      → fresh.capacity ≡ block_size (buffer_request size)
      → fresh.body ≢ 0
      → p ≢ 0
      → ((ptr : ℕ) → IsHeld n.heap ptr → p ≢ ptr)
      → MsgAlloc n size
          (nng_ok, p, record n { heap = h; msgs = write_msg n.msgs p fresh; msg_slots = slots })

alloc_into-MsgAlloc :
    (n : Nng) (size slot : ℕ) → IsPlaced n.heap → MsgAlloc n size (alloc_into n size slot)
unfolding alloc_into
alloc_into-MsgAlloc n size slot p =
    let got = alloc_memory n.heap nng_msg_size in
    let buf = alloc_memory got.1 (buffer_request size) in
    elim (Bool-cases (ltb msg_buffer_size size)) [
      | inl large ↦ rw large (no_msg nng_einval n.heap refl)
      | inr fits ↦ (elim (Bool-cases (got.0 == 0)) [
        | inl e ↦ rw (fits, e) (no_msg nng_enomem got.1 refl)
        | inr e ↦ (elim (Bool-cases (buf.0 == 0)) [
          | inl f ↦ rw (fits, e, f) (no_msg nng_enomem (free_memory buf.1 got.0) refl)
          | inr f ↦
              let nonnull : got.0 ≢ 0 = ground arith in
              let there : buf.0 ≢ 0 = ground arith in
              rw (fits, e, f)
                (new_msg got.0 _ buf.1 _ refl refl there nonnull (λ ptr held.
                  request_new n.heap nng_msg_size ptr got (alloc_memory_lem n.heap nng_msg_size p)
                    held nonnull))
        ])
      ])
    ]

pub nng_msg_alloc-MsgAlloc :
    (n : Nng) (size : ℕ) → IsPlaced n.heap → MsgAlloc n size (nng_msg_alloc n size)
unfolding nng_msg_alloc
nng_msg_alloc-MsgAlloc n size p = elim (Option-cases (first_where is_free_slot n.msg_slots)) [
  | inl miss ↦ rw (miss, nng_msg_alloc) (no_msg nng_enomem n.heap refl)
  | inr (slot, found) ↦ rw (found, nng_msg_alloc) (alloc_into-MsgAlloc n size slot p)
]

pub write_msg_ne :
    (msgs : ℕ → NngMsg) (p x : ℕ) (m : NngMsg) → p ≢ x → write_msg msgs p m x ≡ msgs x
write_msg_ne msgs p x m n = rw (==_ne x p (λ e. n (sym e))) refl

pub write_msg_self : (msgs : ℕ → NngMsg) (p : ℕ) (m : NngMsg) → write_msg msgs p m p ≡ m
write_msg_self msgs p m = rw (==_refl p) refl
