-- ===== src/Nng/Send.antt =====
-- kernel/nngcompat.c: `nng_send` by protocol, and the peers it reaches.
pub mod Delivery
pub mod Success
pub mod EndToEnd
use lugh_os.Base.{
  ℕ, zero, suc, ◌+◌, ltb, leb, ◌==◌, if◌then◌else◌, ℤ, pos, is_ok, Bool, true, false, not, ◌&&◌,
  ◌||◌, List, [], ◌∷◌, length, get_or, Option, none, some,
}
use lugh_os.Ipc.{Socket}
use lugh_os.Nng.{
  Protocol, pair1, pub0, sub0, req0, rep0, push0, pull0, bus0, surveyor0, respondent0, NngMsg, Pipe,
  Nng, max_sockets, state_at, socket_at, with_state, is_socket, speaks, socket_valid, nng_ok,
  nng_einval, nng_etimedout, nng_enotsup, surveyor_timeout_ticks,
}
use lugh_os.Nng.Messages.{nng_msg_alloc, nng_msg_free, nng_msg_append}
use lugh_os.Nng.Sockets.{enqueue_incoming}
use lugh_os.Nng.Topics.{plain_eq}

-- The end of `deliver_copy`, after the append: into the queue, or the copy is freed.
pub queue_copy : ℕ → ℕ → ℤ × Nng → ℤ × Nng
queue_copy i copy (rv, n) =
    let (rv', n') = enqueue_incoming n i copy in
    if not (is_ok rv)
    then (rv, (nng_msg_free n copy).1)
    else if not (is_ok rv')
    then (rv', (nng_msg_free n' copy).1)
    else (rv', n')

-- The append of the body to the copy, unless it is empty.
pub append_body : Nng → ℕ → List ℕ → ℤ × Nng
append_body n copy [] = (nng_ok, n)
append_body n copy (b ∷ bs) = nng_msg_append n copy (b ∷ bs)

-- What `deliver_copy` does with the result of its allocation.
pub fill_copy : ℕ → ℕ → ℤ × ℕ × Nng → ℤ × Nng
fill_copy i msg (rv, copy, n) =
    if not (is_ok rv) then (rv, n) else queue_copy i copy (append_body n copy (n.msgs msg).bytes)

unfoldable pub deliver_copy : Nng → ℕ → ℕ → ℤ × Nng
deliver_copy n i msg = fill_copy i msg (nng_msg_alloc n 0)

-- One of the first `k` topics of a SUB socket, from `j` on, is empty or begins the message.
pub matches : List (List ℕ) → List ℕ → List ℕ → ℕ → ℕ → Bool
matches topics topic_len bytes j zero = false
matches topics topic_len bytes j (suc k) =
    let rest = matches topics topic_len bytes (suc j) k in
    let len = get_or topic_len j 0 in
    if len == 0
    then true
    else if leb len (length bytes) && plain_eq bytes (get_or topics j []) len
    then true
    else rest

unfoldable pub sub_accepts : Nng → ℕ → ℕ → Bool
sub_accepts n i msg =
    let st = state_at n i in matches st.topics st.topic_len (n.msgs msg).bytes 0 st.num_topics

-- The far end of a pipe from socket `i`; a BUS pipe has two.
abbrev pub far_end : ℕ → Protocol → Pipe → Option ℕ
far_end i bus0 p = if p.src == i then some p.dst else if p.dst == i then some p.src else none
far_end i _ p = if p.src == i then some p.dst else none

abbrev pub peer_of : Nng → ℕ → Protocol → Pipe → Option ℕ
peer_of n i proto p = if not p.in_use then none else elim (far_end i proto p) [
  | none ↦ none
  | some x ↦ if is_socket n x && speaks (socket_at n x) proto then some x else none
]

-- The loop of `collect_peers`, with room for `k` more.
unfoldable pub peers_from : Nng → ℕ → Protocol → List Pipe → ℕ → List ℕ
peers_from n i proto [] k = []
peers_from n i proto (p ∷ ps) zero = []
peers_from n i proto (p ∷ ps) (suc k) = elim (peer_of n i proto p) [
  | none ↦ peers_from n i proto ps (suc k)
  | some x ↦ x ∷ peers_from n i proto ps k
]

unfoldable pub collect_peers : Nng → ℕ → Protocol → List ℕ
collect_peers n i proto = peers_from n i proto n.pipes max_sockets

-- Each peer that wants the message gets a copy if it has room.
pub publish : Nng → List ℕ → ℕ → Nng
publish n [] msg = n
publish n (i ∷ is) msg =
    publish (if sub_accepts n i msg then (deliver_copy n i msg).1 else n) is msg

pub broadcast : Nng → List ℕ → ℕ → Nng
broadcast n [] msg = n
broadcast n (i ∷ is) msg = broadcast (deliver_copy n i msg).1 is msg

-- A RESPONDENT that gets the survey remembers the surveyor.
pub survey : Nng → ℕ → List ℕ → ℕ → Nng
survey n id [] msg = n
survey n id (i ∷ is) msg =
    let (rv, n') = deliver_copy n i msg in
    survey
      (if is_ok rv
        then with_state n' i (record (state_at n' i) { respondent_src = some id })
        else n')
      id is msg

-- The round-robin cursor among `k` peers, and the one behind it.
abbrev pub cursor : ℕ → ℕ → ℕ
cursor idx k = if leb k idx then 0 else idx

abbrev pub next_cursor : ℕ → ℕ → ℕ
next_cursor idx k = if leb k (idx + 1) then 0 else idx + 1

abbrev pub with_cursor : Nng → ℕ → ℕ → Nng
with_cursor n i idx = with_state n i (record (state_at n i) { rr_idx = idx })

unfoldable pub send_push : Nng → ℕ → ℕ → ℤ × Nng
send_push n id msg =
    let peers = collect_peers n id pull0 in
    let k = length peers in
    let idx = cursor (state_at n id).rr_idx k in
    let (rv, n') = deliver_copy n (get_or peers idx 0) msg in
    if k == 0 then (nng_enotsup, n) else (rv, with_cursor n' id (next_cursor idx k))

unfoldable pub send_req : Nng → ℕ → ℕ → ℤ × Nng
send_req n id msg =
    let peers = collect_peers n id rep0 in
    let k = length peers in
    let idx = cursor (state_at n id).rr_idx k in
    let rep_id = get_or peers idx 0 in
    let (rv, n') = deliver_copy n rep_id msg in
    let n'' = with_state n' rep_id (record (state_at n' rep_id) { reply_src = some id }) in
    if k == 0
    then (nng_enotsup, n)
    else if is_ok rv
    then (rv, with_cursor n'' id (next_cursor idx k))
    else (rv, n')

unfoldable pub send_rep : Nng → ℕ → ℕ → ℤ × Nng
send_rep n id msg = elim (state_at n id).reply_src [
  | none ↦ (nng_enotsup, n)
  | some req_id ↦
      (let (rv, n') = deliver_copy n req_id msg in
        if is_socket n req_id
        then (rv, with_state n' id (record (state_at n' id) { reply_src = none }))
        else (nng_enotsup, n))
]

unfoldable pub send_survey : Nng → ℕ → ℕ → ℤ × Nng
send_survey n id msg =
    let peers = collect_peers n id respondent0 in
    let n' = survey n id peers msg in
    if length peers == 0 then (nng_enotsup, n) else (
      nng_ok,
      with_state n' id (record (state_at n' id) {
        survey_active = true;
        survey_deadline = n'.jiffies + surveyor_timeout_ticks;
      }),
    )

abbrev pub survey_over : Nng → ℕ → Bool
survey_over n id = let s = state_at n id in not s.survey_active || ltb s.survey_deadline n.jiffies

unfoldable pub send_response : Nng → ℕ → ℕ → ℤ × Nng
send_response n id msg = elim (state_at n id).respondent_src [
  | none ↦ (nng_enotsup, n)
  | some surveyor_id ↦
      (let (rv, n') = deliver_copy n surveyor_id msg in
        if not (is_socket n surveyor_id)
        then (nng_enotsup, n)
        else if survey_over n surveyor_id
        then (nng_etimedout, with_state n id (record (state_at n id) { respondent_src = none }))
        else (rv, with_state n' id (record (state_at n' id) { respondent_src = none })))
]

unfoldable pub send_pair : Nng → ℕ → ℕ → ℤ × Nng
send_pair n id msg =
    let peers = collect_peers n id pair1 in
    if length peers == 0 then (nng_enotsup, n) else deliver_copy n (get_or peers 0 0) msg

-- The switch over the socket's protocol.
unfoldable pub route : Nng → ℕ → ℕ → ℤ × Nng
route n id msg =
    let s = socket_at n id in
    if speaks s pub0
    then (nng_ok, publish n (collect_peers n id sub0) msg)
    else if speaks s push0
    then send_push n id msg
    else if speaks s req0
    then send_req n id msg
    else if speaks s rep0
    then send_rep n id msg
    else if speaks s bus0
    then (nng_ok, broadcast n (collect_peers n id bus0) msg)
    else if speaks s surveyor0
    then send_survey n id msg
    else if speaks s respondent0
    then send_response n id msg
    else if speaks s pair1
    then send_pair n id msg
    else (nng_enotsup, n)

-- The sender gives up the message, whatever becomes of it.
unfoldable pub nng_send : Nng → Socket → ℕ → ℤ × Nng
nng_send n sock msg = if msg == 0 then (nng_einval, n) else elim (socket_valid n sock.id) [
  | none ↦ (nng_einval, n)
  | some id ↦ (let (rv, n') = route n id msg in (rv, (nng_msg_free n' msg).1))
]
