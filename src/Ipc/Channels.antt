-- ===== src/Ipc/Channels.antt =====
-- kernel/ipc/ipc.c: `init_ipc`, and creating, closing and connecting channels.
use lugh_os.Base.{
  ℕ, suc, ltb, ◌==◌, if◌then◌else◌, ℤ, pos, negsuc, neg, is_ok, to_u32, Bool, true, false, not,
  ◌||◌, List, [], ◌∷◌, set, none, some, bit_and,
}
use lugh_os.Base.Search.{first_where}
use lugh_os.Task.{Task, cap_cross_domain, deny_cap_escalation, deny_domain_create, deny_domain}
use lugh_os.Telemetry.{auditor_chan_create, auditor_chan_connect}
use lugh_os.Tasks.{current_task, may_cross}
use lugh_os.Domains.{domain_edge_allowed}
use lugh_os.Ipc.{
  Channel, Transport, World, max_ipc_channels, channel_at, valid_slot, emit_create_deny, emit_deny,
}

-- The channel table after `init_ipc`, from slot `i` on.
abbrev pub reset_from : ℕ → List Channel → List Channel
reset_from i [] = []
reset_from i (c ∷ cs) =
    record c {
      id = pos i;
      in_use = false;
      security_level = 0;
      domain = 0;
      cap_mask = 0;
      owner_task_id = 0;
    }
    ∷ reset_from (suc i) cs

abbrev pub is_free_channel : Channel → Bool
is_free_channel c = not c.in_use

-- `caps` asks for nothing that `mask` lacks.
abbrev pub within : ℕ → ℕ → Bool
within mask caps = bit_and mask caps == caps

-- `NNG_EACCESS`
abbrev pub nng_eaccess : ℕ
nng_eaccess = 7

module _ {N P : Type 0} (T : Transport N P) where
  unfoldable pub init_ipc : World N → ℤ × World N
  init_ipc w = (pos 0, record w { net = T.nng_init w.net; channels = reset_from 0 w.channels })

  -- The task may place a channel in this domain.
  unfoldable pub may_create_in : World N → Task → ℕ → Bool
  may_create_in w t domain =
      domain == t.domain
      || (not (domain_edge_allowed w.domains t.domain domain == 0) || may_cross t)

  abbrev pub opened : Channel → Task → ℕ → ℕ → ℕ → Channel
  opened c t level domain caps = record c {
    in_use = true;
    security_level = level;
    domain = domain;
    cap_mask = caps;
    owner_task_id = t.task_id;
  }

  -- The part of `ipc_create_channel` after the gates, at free slot `i`.
  unfoldable pub open_channel : World N → Task → ℕ → ℕ → ℕ → ℕ → ℤ → ℤ × World N
  open_channel w t i level domain caps protocol =
      let (rv, sock, net) = T.nng_socket_create w.net protocol in
      let c : Channel = record (channel_at w i) { socket = sock } in
      if is_ok rv
      then (
        pos i,
        record w {
          net = net;
          channels = set w.channels i (opened c t level domain caps);
          auditor =
              auditor_chan_create w.auditor i t.task_id caps domain level (to_u32 sock.protocol);
        },
      )
      else (neg 2, record w { net = net; channels = set w.channels i c })

  unfoldable pub create_by : World N → Task → ℕ → ℕ → ℕ → ℤ → ℤ × World N
  create_by w t level domain caps protocol =
      if not (within t.cap_mask caps)
      then (neg 4, emit_create_deny w caps domain deny_cap_escalation protocol)
      else if not (may_create_in w t domain)
      then (neg 5, emit_create_deny w caps domain deny_domain_create protocol)
      else elim (first_where is_free_channel w.channels) [
        | none ↦ (neg 1, w)
        | some i ↦ open_channel w t i level domain caps protocol
      ]

  unfoldable pub ipc_create_channel : World N → ℕ → ℕ → ℕ → ℤ → ℤ × World N
  ipc_create_channel w level domain caps protocol = elim (current_task w.tasks) [
    | none ↦ (neg 3, w)
    | some t ↦ create_by w t level domain caps protocol
  ]

  -- `ipc_close_channel` on an id in range.
  unfoldable pub close_at : World N → ℕ → ℤ × World N
  close_at w i =
      let c = channel_at w i in
      if not c.in_use
      then (neg 2, w)
      else (let (rv, net) = T.nng_socket_close w.net c.socket in
          if is_ok rv
          then (
            pos 0,
            record w { net = net; channels = set w.channels i (record c { in_use = false }) },
          )
          else (neg 3, record w { net = net }))

  unfoldable pub ipc_close_channel : World N → ℤ → ℤ × World N
  ipc_close_channel w (negsuc i) = (neg 1, w)
  ipc_close_channel w (pos i) = if ltb i max_ipc_channels then close_at w i else (neg 1, w)

  -- `CAP_CROSS_DOMAIN` of a channel.
  abbrev pub channel_may_cross : Channel → Bool
  channel_may_cross c = not (bit_and c.cap_mask cap_cross_domain == 0)

  unfoldable pub may_connect : World N → Channel → Channel → Bool
  may_connect w c d =
      c.domain == d.domain
      || (not (domain_edge_allowed w.domains c.domain d.domain == 0) || channel_may_cross c)

  unfoldable pub connect_slots : World N → ℕ → ℕ → ℤ × World N
  connect_slots w i j =
      let c = channel_at w i in
      let d = channel_at w j in
      if not (may_connect w c d)
      then (pos nng_eaccess, emit_deny w i (some j) 0 deny_domain 0)
      else (let (rv, net) = T.nng_connect w.net c.socket d.socket in
          if is_ok rv
          then (
            pos 0,
            record w {
              net = net;
              auditor =
                  auditor_chan_connect w.auditor i c.domain c.cap_mask (to_u32 c.socket.protocol) j
                    d.domain d.cap_mask;
            },
          )
          else (rv, record w { net = net }))

  unfoldable pub ipc_connect : World N → ℤ → ℤ → ℤ × World N
  ipc_connect w src dst = elim (valid_slot w src) [
    | none ↦ (neg 1, w)
    | some i ↦ elim (valid_slot w dst) [ none ↦ (neg 1, w) | some j ↦ connect_slots w i j ]
  ]
