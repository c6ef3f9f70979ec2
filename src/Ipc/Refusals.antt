-- ===== src/Ipc/Refusals.antt =====
-- kernel/ipc/ipc.c: the capability gates of `ipc_send` and `ipc_recv`.
use lugh_os.Base.{
  ℕ, ◌==◌, if◌then◌else◌, ℤ, pos, neg, is_ok, Bool, true, false, not, [], ◌∷◌, ◌++◌, none, some,
  bit_and, ◌≡◌, ◌≢◌, ◌⊎◌, inl, inr, refl, sym, ap, subst, ◌∙◌, Bool-cases, ==_iff,
}
use lugh_os.Base.Masks.{Covers, Covers-iff}
use mathlib.Core.Bool.{false≢true}
use lugh_os.Task.{DenyReason, required_caps_for_op}
use lugh_os.Messages.{Message}
use lugh_os.Telemetry.{Auditor, auditor_deny}
use lugh_os.Telemetry.Record.{Deny, deny_record, u8}
use lugh_os.Ipc.{Transport, World, channel_at, valid_slot, channel_deny, emit_deny}
use lugh_os.Ipc.Gates.{either}
use lugh_os.Ipc.Transfer.{
  Transferred, sealed_message, transmit, lacks_caps, send_reason, send_on, ipc_send,
}

deny-ring : (a : Auditor) (d : Deny) → (auditor_deny a d).ring ≡ a.ring
unfolding auditor_deny
deny-ring a d = elim (Bool-cases a.enabled) [ inl e ↦ simp e refl | inr e ↦ simp e refl ]

deny-sent :
    (a : Auditor) (d : Deny)
    → a.enabled ≡ true
    → (auditor_deny a d).sent ≡ a.sent ++ deny_record a.jiffies d ∷ []
unfolding auditor_deny
deny-sent a d e = simp e refl

module _ {N : Type 0} where
  -- A call that was refused before it did anything, but for one record of the denial.
  abbrev pub RefusedWith : World N → Message → Deny → Transferred N → Type 0
  RefusedWith w m d o =
      (o.rv ≡ neg 7)
      × (o.msg ≡ some m)
      × (o.world.net ≡ w.net)
      × (o.world.channels ≡ w.channels)
      × (o.world.auditor.ring ≡ w.auditor.ring)
      × (w.auditor.enabled ≡ true
          → o.world.auditor.sent ≡ w.auditor.sent ++ deny_record w.auditor.jiffies d ∷ [])

  emit_deny-RefusedWith :
      (w : World N) (i : ℕ) (m : Message) (op : ℕ) (r : DenyReason) (p : ℕ)
      → RefusedWith w m
          (channel_deny w i none op r p)
          (record { rv = neg 7; msg = some m; world = emit_deny w i none op r p })
  unfolding emit_deny
  emit_deny-RefusedWith w i m op r p =
      let d = channel_deny w i none op r p in
      elim (Bool-cases w.auditor.enabled) [
        | inl e ↦
            simp e (refl, refl, refl, refl, deny-ring w.auditor d, λ h. deny-sent w.auditor d e)
        | inr e ↦ simp e (refl, refl, refl, refl, refl, λ h. cc)
      ]

module _ {N P : Type 0} (T : Transport N P) where
  send_result : (b : Bool) → (if b then pos 0 else neg 4) ≢ neg 7
  send_result true e = cc
  send_result false e = cc

  transmit-passes : (w : World N) (i : ℕ) (m : Message) → (transmit T w i m).rv ≢ neg 7
  unfolding transmit
  transmit-passes w i m =
      let r = T.lugh_message_to_nng w.net (sealed_message T w m) in
      either (λ (x : Transferred N). x.rv ≢ neg 7) (not (is_ok r.0)) _ _ (λ e. cc) (send_result _)

  send_on-refused :
      (w : World N) (i : ℕ) (m : Message)
      → lacks_caps T w i m.operation ≡ true
      → send_on T w i m ≡ record {
        rv = neg 7;
        msg = some m;
        world =
            emit_deny w i none m.operation
              (send_reason (required_caps_for_op m.operation))
              (u8 m.priority);
      }
  unfolding send_on
  send_on-refused w i m lacks = rw lacks refl

  pub send_on-passed :
      (w : World N) (i : ℕ) (m : Message)
      → lacks_caps T w i m.operation ≡ false
      → send_on T w i m ≡ transmit T w i m
  unfolding send_on
  send_on-passed w i m holds = rw holds refl

  pub ipc_send-valid :
      (w : World N) (id : ℤ) (i : ℕ) (m : Message)
      → valid_slot w id ≡ some i
      → ipc_send T w id (some m) ≡ send_on T w i m
  unfolding ipc_send
  ipc_send-valid w id i m e = rw (e, ipc_send) refl

  -- On a channel in use, `ipc_send` returns -7 exactly when the channel lacks a capability that the
  -- message's operation needs; then the message, the transport, the channels and the telemetry ring
  -- are as before, and an armed auditor has written the one record of the denial.
  pub ipc_send_gate :
      (w : World N) (id : ℤ) (i : ℕ) (m : Message)
      → valid_slot w id ≡ some i
      → let o = ipc_send T w id (some m) in
        let req = required_caps_for_op m.operation in
        ((¬ Covers (channel_at w i).cap_mask req)
          × RefusedWith w m (channel_deny w i none m.operation (send_reason req) (u8 m.priority)) o)
        ⊎ (Covers (channel_at w i).cap_mask req × (o.rv ≢ neg 7))
  ipc_send_gate w id i m e =
      let req = required_caps_for_op m.operation in
      let d = channel_deny w i none m.operation (send_reason req) (u8 m.priority) in
      let start = ipc_send-valid w id i m e in
      elim (Bool-cases (bit_and (channel_at w i).cap_mask req == req)) [
        | inr miss ↦
            let lacks : lacks_caps T w i m.operation ≡ true = ap not miss in
            inl (
              λ c. absurd (false≢true (sym miss ∙ (==_iff _ _).1 ((Covers-iff _ _).1 c))),
              subst (RefusedWith w m d) (sym (start ∙ send_on-refused w i m lacks))
                  (emit_deny-RefusedWith w i m m.operation (send_reason req) (u8 m.priority)),
            )
        | inl hit ↦
            let holds : lacks_caps T w i m.operation ≡ false = ap not hit in
            inr (
              (Covers-iff _ _).0 ((==_iff _ _).0 hit),
              subst (λ (x : Transferred N). x.rv ≢ neg 7) (sym (start ∙ send_on-passed w i m holds))
                  (transmit-passes w i m),
            )
      ]
