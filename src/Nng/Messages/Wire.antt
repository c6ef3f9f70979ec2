-- ===== src/Nng/Messages/Wire.antt =====
-- kernel/nngcompat.c: the message that `lugh_message_to_nng` builds.
use lugh_os.Base.{
  ℕ, suc, ◌+◌, ◌%◌, ◌^◌, ◌≤◌, ltb, ℤ, is_ok, Bool, true, false, ◌||◌, List, [], ◌∷◌, ◌++◌, length,
  take, length-append, ◌≡◌, ◌≢◌, refl, sym, ap, ap₂, subst, ◌∙◌, arith, ==_ne, ltb-false,
}
use lugh_os.Messages.{Message}
use lugh_os.Memory.Blocks.{find_size_class}
use lugh_os.Memory.Blocks.Placed.{IsPlaced}
use lugh_os.Nng.{Nng, msg_buffer_size, nng_ok}
use lugh_os.Nng.Messages.{
  write_msg, others, block_size, buffer_request, nng_msg_alloc, nng_msg_append, string_length,
  word_bytes, append_all, pack_into, wire_parts, lugh_message_to_nng,
}
use lugh_os.Nng.Messages.Alloc.{MsgAlloc, no_msg, new_msg, nng_msg_alloc-MsgAlloc, write_msg_self}
use lugh_os.Nng.Messages.Strings.{IsPayload, length-take}

-- The body of message `p` is `bs`; `over` says whether a write has run over a block's end.
pub record IsBody (n : Nng) (p : ℕ) (bs : List ℕ) (capacity : ℕ) (over : Bool) : Type 0 where
  pub bytes : (n.msgs p).bytes ≡ bs
  pub size : (n.msgs p).capacity ≡ capacity
  pub buffer : (n.msgs p).body ≢ 0
  pub overrun : n.overrun ≡ over
  pub access : (q : ℕ) (cs : List ℕ) → n.access q cs ≡ true

append-IsBody :
    (n : Nng) (p : ℕ) (bs cs : List ℕ) (capacity : ℕ) (over : Bool)
    → p ≢ 0
    → IsBody n p bs capacity over
    → length bs + length cs ≤ msg_buffer_size
    → ((nng_msg_append n p cs).0 ≡ nng_ok)
      × IsBody
          (nng_msg_append n p cs).1
          p
          (bs ++ cs)
          capacity
          (over || ltb capacity (length (bs ++ cs)))
unfolding nng_msg_append
append-IsBody n p bs cs capacity over ne v l =
    let fits : ltb msg_buffer_size (length (n.msgs p).bytes + length cs) ≡ false =
      ltb-false msg_buffer_size _ (omega (arith, ap length v.bytes, l)) in
    let kept = others n p ((n.msgs p).bytes ++ cs) in
    rw (==_ne p 0 ne) (
      rw (v.access p cs) (
        rw fits (
          refl,
          record {
            bytes = ap (λ m. m.bytes) (write_msg_self kept p _) ∙ ap (λ xs. xs ++ cs) v.bytes;
            size = ap (λ m. m.capacity) (write_msg_self kept p _) ∙ v.size;
            buffer = λ e. v.buffer (sym (ap (λ m. m.body) (write_msg_self kept p _)) ∙ e);
            overrun = ap₂ ◌||◌ v.overrun (ap₂ (λ c k. ltb c (length (k ++ cs))) v.size v.bytes);
            access = v.access;
          },
        )))

-- A body with the parts appended in turn, and whether one of them ran over.
abbrev pub joined : List ℕ → List (List ℕ) → List ℕ
joined bs [] = bs
joined bs (c ∷ cs) = joined (bs ++ c) cs

abbrev pub over_after : ℕ → Bool → List ℕ → List (List ℕ) → Bool
over_after capacity over bs [] = over
over_after capacity over bs (c ∷ cs) =
    over_after capacity (over || ltb capacity (length (bs ++ c))) (bs ++ c) cs

joined-longer : (bs : List ℕ) (cs : List (List ℕ)) → length bs ≤ length (joined bs cs)
joined-longer bs [] = omega arith
joined-longer bs (c ∷ cs) = omega (arith, joined-longer (bs ++ c) cs, length-append bs c)

append_all-IsBody :
    (n : Nng) (p : ℕ) (bs : List ℕ) (cs : List (List ℕ)) (capacity : ℕ) (over : Bool)
    → p ≢ 0
    → IsBody n p bs capacity over
    → length (joined bs cs) ≤ msg_buffer_size
    → ((append_all n p cs).0 ≡ nng_ok)
      × IsBody (append_all n p cs).1 p (joined bs cs) capacity (over_after capacity over bs cs)
unfolding append_all
append_all-IsBody n p bs [] capacity over ne v l = (refl, v)
append_all-IsBody n p bs (c ∷ cs) capacity over ne v l =
    let (ok, v') =
      append-IsBody n p bs c capacity over ne v
        (omega (arith, l, joined-longer (bs ++ c) cs, length-append bs c)) in
    let rest =
      append_all-IsBody (nng_msg_append n p c).1 p (bs ++ c) cs capacity
        (over || ltb capacity (length (bs ++ c))) ne v' l in
    rw ok rest

-- The bytes of a message: its priority, its operation and its string with the terminator.
abbrev pub packed : Message → List ℕ
packed m =
    (m.priority % 2 ^ 8 ∷ [])
    ++ (word_bytes m.operation ++ take (suc (string_length m.payload)) m.payload)

-- What `lugh_message_to_nng` gives: a message with these bytes in a buffer of 64.
pub record IsPacked (n : Nng) (m : Message) (out : ℤ × ℕ × Nng) : Type 0 where
  pub result : out.0 ≡ nng_ok
  pub nonnull : out.1 ≢ 0
  pub packet : IsBody out.2 out.1 (packed m) 64 (n.overrun || ltb 58 (string_length m.payload))

joined_parts : (m : Message) → joined [] (wire_parts m) ≡ packed m
joined_parts m = refl

over_parts :
    (o : Bool) (m : Message)
    → IsPayload m.payload
    → over_after 64 o [] (wire_parts m) ≡ (o || ltb 58 (string_length m.payload))
over_parts o m v = ground (
  arith,
  length-take (suc (string_length m.payload)) m.payload (omega (arith, v.full_size, v.short)),
)

-- The buffer of a message allocated with the size 0.
pub block_of_eight : block_size (buffer_request 0) ≡ 64
unfolding find_size_class
block_of_eight = refl

pack_into-IsPacked :
    (n : Nng) (m : Message) (out : ℤ × ℕ × Nng)
    → MsgAlloc n 0 out
    → out.0 ≡ nng_ok
    → ((q : ℕ) (cs : List ℕ) → n.access q cs ≡ true)
    → IsPayload m.payload
    → IsPacked n m (pack_into m out)
unfolding pack_into
pack_into-IsPacked n m out (no_msg rv h bad) ok a v =
    absurd (let z : true ≡ false = sym (ap is_ok ok) ∙ bad in cc)
pack_into-IsPacked n m out (new_msg p fresh h slots empty size buffer ne new) ok a v =
    let n1 : Nng = record n { heap = h; msgs = write_msg n.msgs p fresh; msg_slots = slots } in
    let self = write_msg_self n.msgs p fresh in
    let start : IsBody n1 p [] 64 n.overrun = record {
      bytes = ap (λ x. x.bytes) self ∙ empty;
      size = ap (λ x. x.capacity) self ∙ size ∙ block_of_eight;
      buffer = λ e. buffer (sym (ap (λ x. x.body) self) ∙ e);
      overrun = refl;
      access = a;
    } in
    let short : length (packed m) ≤ msg_buffer_size = omega (
      arith,
      v.short,
      length-take (suc (string_length m.payload)) m.payload (omega (arith, v.full_size, v.short)),
    ) in
    let (done, body) = append_all-IsBody n1 p [] (wire_parts m) 64 n.overrun ne start short in
    rw done record {
      result = refl;
      nonnull = ne;
      packet = subst (IsBody _ p (packed m) 64) (over_parts n.overrun m v) body;
    }

-- Where a message can be allocated and the access checks pass, the packet holds the priority, the
-- operation and the string of the message, and its buffer overruns exactly for strings of more
-- than 58 characters.
pub lugh_message_to_nng-IsPacked :
    (n : Nng) (m : Message)
    → IsPlaced n.heap
    → (nng_msg_alloc n 0).0 ≡ nng_ok
    → ((q : ℕ) (cs : List ℕ) → n.access q cs ≡ true)
    → IsPayload m.payload
    → IsPacked n m (lugh_message_to_nng n m)
unfolding lugh_message_to_nng
lugh_message_to_nng-IsPacked n m p ok a v =
    pack_into-IsPacked n m (nng_msg_alloc n 0) (nng_msg_alloc-MsgAlloc n 0 p) ok a v
