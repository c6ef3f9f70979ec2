-- ===== src/Ipc/Gates.antt =====
-- kernel/ipc/ipc.c: who may open a channel, and what the calls leave of the channel table.
use lugh_os.Base.{
  ℕ, if◌then◌else◌, ℤ, pos, is_ok, is_neg, Bool, true, false, not, set, Option, none, some, ◌≡◌,
  inl, inr, refl, arith, Bool-cases, Option-cases, ==_iff,
}
use lugh_os.Base.Masks.{Covers, Covers-iff}
use lugh_os.Base.Search.{first_where, first_where-holds}
use lugh_os.Task.{
  Task, DenyReason, deny_cap_escalation, deny_domain_create, deny_domain, deny_cap_recv,
  required_caps_for_op,
}
use lugh_os.Messages.{Message}
use lugh_os.Telemetry.Record.{u8}
use lugh_os.Ipc.{
  Socket, Channel, Transport, World, empty_channel, channel_at, valid_slot, emit_create_deny,
  emit_deny,
}
use lugh_os.Ipc.Channels.{
  is_free_channel, within, may_create_in, opened, open_channel, create_by, may_connect,
  connect_slots, ipc_connect,
}
use lugh_os.Ipc.Transfer.{
  Transferred, sealed_message, audit_message, transmit, lacks_caps, send_reason, send_on, ipc_send,
  unpack, receive, recv_on, ipc_recv,
}

-- A predicate on a test's two branches, and on a pointer's.
pub either : {A : Type 0} (Q : A → Type 0) (b : Bool) (x y : A) → Q x → Q y → Q (if b then x else y)
either Q true x y p q = p
either Q false x y p q = q

module _ {N : Type 0} where
  -- A call that leaves the channels and the tasks as they are.
  abbrev pub Keeps : World N → World N → Type 0
  Keeps w v = (v.channels ≡ w.channels) × (v.tasks ≡ w.tasks)

  emit_deny-Keeps :
      (w : World N) (i : ℕ) (j : Option ℕ) (op : ℕ) (r : DenyReason) (p : ℕ)
      → Keeps w (emit_deny w i j op r p)
  unfolding emit_deny
  emit_deny-Keeps w i j op r p =
      either (Keeps w) (not w.auditor.enabled) _ _ (refl, refl) (refl, refl)

  emit_create_deny-Keeps :
      (w : World N) (caps target : ℕ) (r : DenyReason) (protocol : ℤ)
      → Keeps w (emit_create_deny w caps target r protocol)
  unfolding emit_create_deny
  emit_create_deny-Keeps w caps target r protocol =
      either (Keeps w) (not w.auditor.enabled) _ _ (refl, refl)
        (elim (Option-cases w.tasks.current) [
          | inl e ↦ simp e (refl, refl)
          | inr (slot, e) ↦ simp e (refl, refl)
        ])

module _ {N P : Type 0} (T : Transport N P) where
  audit_message-Keeps : (w : World N) (i : ℕ) (m : Message) → Keeps w (audit_message T w i m).1
  unfolding audit_message
  audit_message-Keeps w i m =
      either (λ (r : Message × World N). Keeps w r.1) w.auditor.enabled _ _ (refl, refl)
        (refl, refl)

  transmit-Keeps : (w : World N) (i : ℕ) (m : Message) → Keeps w (transmit T w i m).world
  unfolding transmit
  transmit-Keeps w i m =
      let r = T.lugh_message_to_nng w.net (sealed_message T w m) in
      either (λ (x : Transferred N). Keeps w x.world) (not (is_ok r.0)) _ _ (refl, refl)
        (audit_message-Keeps (record w { net = r.2 }) i (sealed_message T w m))

  send_on-Keeps : (w : World N) (i : ℕ) (m : Message) → Keeps w (send_on T w i m).world
  unfolding send_on
  send_on-Keeps w i m =
      either (λ (x : Transferred N). Keeps w x.world) (lacks_caps T w i m.operation) _ _
        (emit_deny-Keeps w i none m.operation (send_reason (required_caps_for_op m.operation))
          (u8 m.priority))
        (transmit-Keeps w i m)

  pub ipc_send-Keeps :
      (w : World N) (id : ℤ) (o : Option Message) → Keeps w (ipc_send T w id o).world
  unfolding ipc_send
  ipc_send-Keeps w id none = (refl, refl)
  ipc_send-Keeps w id (some m) = elim (Option-cases (valid_slot w id)) [
    | inl e ↦ rw (e, ipc_send) (refl, refl)
    | inr (i, e) ↦ rw (e, ipc_send) (send_on-Keeps w i m)
  ]

  unpack-Keeps : (w : World N) (p : P) (m : Message) → Keeps w (unpack T w p m).world
  unfolding unpack
  unpack-Keeps w p m =
      either (λ (x : Transferred N). Keeps w x.world)
        (not (is_ok (T.nng_message_to_lugh w.net p m).0)) _ _ (refl, refl)
        (either (λ (x : Transferred N). Keeps w x.world) _ _ _ (refl, refl) (refl, refl))

  receive-Keeps : (w : World N) (i : ℕ) (m : Message) (b : Bool) → Keeps w (receive T w i m b).world
  unfolding receive
  receive-Keeps w i m b =
      let r = T.nng_recv w.net (channel_at w i).socket b in
      either (λ (x : Transferred N). Keeps w x.world) (not (is_ok r.0)) _ _ (refl, refl)
        (unpack-Keeps (record w { net = r.2 }) r.1 m)

  recv_on-Keeps : (w : World N) (i : ℕ) (m : Message) (b : Bool) → Keeps w (recv_on T w i m b).world
  unfolding recv_on
  recv_on-Keeps w i m b =
      either (λ (x : Transferred N). Keeps w x.world) _ _ _
        (emit_deny-Keeps w i none 0 deny_cap_recv 0) (receive-Keeps w i m b)

  pub ipc_recv-Keeps :
      (w : World N) (id : ℤ) (o : Option Message) (b : Bool) → Keeps w (ipc_recv T w id o b).world
  unfolding ipc_recv
  ipc_recv-Keeps w id none b = (refl, refl)
  ipc_recv-Keeps w id (some m) b = elim (Option-cases (valid_slot w id)) [
    | inl e ↦ rw (e, ipc_recv) (refl, refl)
    | inr (i, e) ↦ rw (e, ipc_recv) (recv_on-Keeps w i m b)
  ]

  connect_slots-Keeps : (w : World N) (i j : ℕ) → Keeps w (connect_slots T w i j).1
  unfolding connect_slots
  connect_slots-Keeps w i j =
      either (λ (x : ℤ × World N). Keeps w x.1)
        (not (may_connect T w (channel_at w i) (channel_at w j))) _ _
        (emit_deny-Keeps w i (some j) 0 deny_domain 0)
        (either (λ (x : ℤ × World N). Keeps w x.1) _ _ _ (refl, refl) (refl, refl))

  pub ipc_connect-Keeps : (w : World N) (a b : ℤ) → Keeps w (ipc_connect T w a b).1
  unfolding ipc_connect
  ipc_connect-Keeps w a b = elim (Option-cases (valid_slot w a)) [
    | inl e ↦ rw (e, ipc_connect) (refl, refl)
    | inr (i, e) ↦ elim (Option-cases (valid_slot w b)) [
      | inl f ↦ rw (e, f, ipc_connect) (refl, refl)
      | inr (j, f) ↦ rw (e, f, ipc_connect) (connect_slots-Keeps w i j)
    ]
  ]

  -- What `ipc_create_channel` does to the channel table: nothing, a new socket in a free slot, or a
  -- new channel in a free slot, which the running task was entitled to.
  pub data Created (w : World N) (t : Task) (level domain caps : ℕ) : ℤ × World N → Type 0 where
    refused : (r : ℤ × World N) → is_neg r.0 ≡ true → Keeps w r.1 → Created w t level domain caps r
    no_socket :
        (r : ℤ × World N) (i : ℕ) (sock : Socket)
        → is_neg r.0 ≡ true
        → (channel_at w i).in_use ≡ false
        → r.1.channels ≡ set w.channels i (record (channel_at w i) { socket = sock })
        → r.1.tasks ≡ w.tasks
        → Created w t level domain caps r
    made :
        (r : ℤ × World N) (i : ℕ) (c : Channel)
        → r.0 ≡ pos i
        → (channel_at w i).in_use ≡ false
        → Covers t.cap_mask caps
        → may_create_in T w t domain ≡ true
        → r.1.channels ≡ set w.channels i (opened T c t level domain caps)
        → r.1.tasks ≡ w.tasks
        → Created w t level domain caps r

  free_slot :
      (w : World N) (i : ℕ)
      → first_where is_free_channel w.channels ≡ some i
      → (channel_at w i).in_use ≡ false
  free_slot w i e =
      let h = first_where-holds is_free_channel w.channels i empty_channel e in ground (arith, h)

  open_channel-Created :
      (w : World N) (t : Task) (i level domain caps : ℕ) (protocol : ℤ)
      → (channel_at w i).in_use ≡ false
      → Covers t.cap_mask caps
      → may_create_in T w t domain ≡ true
      → Created w t level domain caps (open_channel T w t i level domain caps protocol)
  unfolding open_channel
  open_channel-Created w t i level domain caps protocol free covers may =
      let r = T.nng_socket_create w.net protocol in
      let c : Channel = record (channel_at w i) { socket = r.1 } in
      either (λ (x : ℤ × World N). Created w t level domain caps x) (is_ok r.0) _ _
        (made _ i c refl free covers may refl refl) (no_socket _ i r.1 refl free refl refl)

  pub create_by-Created :
      (w : World N) (t : Task) (level domain caps : ℕ) (protocol : ℤ)
      → Created w t level domain caps (create_by T w t level domain caps protocol)
  unfolding create_by
  create_by-Created w t level domain caps protocol = elim (Bool-cases (within t.cap_mask caps)) [
    | inr over ↦
        rw over (refused _ refl (emit_create_deny-Keeps w caps domain deny_cap_escalation protocol))
    | inl ok ↦
        let covers = (Covers-iff t.cap_mask caps).0 ((==_iff _ _).0 ok) in
        elim (Bool-cases (may_create_in T w t domain)) [
          | inr out ↦
              rw (ok, out)
                (refused _ refl (emit_create_deny-Keeps w caps domain deny_domain_create protocol))
          | inl may ↦ elim (Option-cases (first_where is_free_channel w.channels)) [
            | inl full ↦ rw (ok, may, full, create_by) (refused _ refl (refl, refl))
            | inr (i, e) ↦
                rw (ok, may, e, create_by)
                  (open_channel-Created w t i level domain caps protocol (free_slot w i e) covers
                    may)
          ]
        ]
  ]
