-- ===== src/Nng/Topics.antt =====
-- kernel/nngcompat.c: the topics of a SUB socket.
use lugh_os.Base.{
  ℕ, zero, suc, ◌-◌, ◌%◌, ◌^◌, ltb, leb, ◌==◌, if◌then◌else◌, ℤ, Bool, true, false, ◌&&◌, ◌||◌,
  List, [], get_or, set, take, drop, Option, none, some,
}
use lugh_os.Ipc.{Socket}
use lugh_os.Nng.{
  SocketState, Nng, sub0, max_topic_len, max_subs, state_at, socket_at, with_state, speaks,
  socket_valid, nng_ok, nng_enomem, nng_einval, nng_enoent,
}
use lugh_os.Nng.Messages.{plain_copy}

-- The id of a valid SUB socket.
abbrev pub sub_socket : Nng → Socket → Option ℕ
sub_socket n sock = elim (socket_valid n sock.id) [
  | none ↦ none
  | some i ↦ if speaks (socket_at n i) sub0 then some i else none
]

-- `topic` is `none` for NULL; its bytes are otherwise at least `topic_len` many.
unfoldable pub nng_sub_subscribe : Nng → Socket → Option (List ℕ) → ℕ → ℤ × Nng
nng_sub_subscribe n sock topic topic_len = elim (sub_socket n sock) [
  | none ↦ (nng_einval, n)
  | some i ↦
      (let st = state_at n i in
        let old = get_or st.topics st.num_topics [] in
        if ltb max_topic_len topic_len
        then (nng_einval, n)
        else if leb max_subs st.num_topics
        then (nng_enomem, n)
        else (
          nng_ok,
          with_state n i (record st {
            topics = elim topic [
              | none ↦ st.topics
              | some bs ↦ set st.topics st.num_topics (plain_copy (take topic_len bs) old)
            ];
            topic_len = set st.topic_len st.num_topics (topic_len % 2 ^ 8);
            num_topics = suc st.num_topics;
          }),
        ))
]

-- `plain_eq` on the first `n` bytes.
pub plain_eq : List ℕ → List ℕ → ℕ → Bool
plain_eq xs ys zero = true
plain_eq xs ys (suc n) =
    let rest = plain_eq (drop 1 xs) (drop 1 ys) n in
    if get_or xs 0 0 == get_or ys 0 0 then rest else false

abbrev pub same_topic : SocketState → List ℕ → ℕ → ℕ → Bool
same_topic st topic topic_len i =
    get_or st.topic_len i 0 == topic_len % 2 ^ 8
    && (topic_len == 0 || plain_eq (get_or st.topics i []) topic topic_len)

-- The first subscription to the topic among `k`, from `i` on.
pub find_topic : SocketState → List ℕ → ℕ → ℕ → ℕ → Option ℕ
find_topic st topic topic_len i zero = none
find_topic st topic topic_len i (suc k) =
    let rest = find_topic st topic topic_len (suc i) k in
    if same_topic st topic topic_len i then some i else rest

-- The last subscription takes the place of the one dropped.
unfoldable pub nng_sub_unsubscribe : Nng → Socket → List ℕ → ℕ → ℤ × Nng
nng_sub_unsubscribe n sock topic topic_len = elim (sub_socket n sock) [
  | none ↦ (nng_einval, n)
  | some i ↦
      (let st = state_at n i in
        elim (find_topic st topic topic_len 0 st.num_topics) [
          | none ↦ (nng_enoent, n)
          | some k ↦
              (let last = st.num_topics - 1 in
                (
                  nng_ok,
                  with_state n i (record st {
                    topics = set st.topics k (get_or st.topics last []);
                    topic_len = set st.topic_len k (get_or st.topic_len last 0);
                    num_topics = last;
                  }),
                ))
        ])
]
