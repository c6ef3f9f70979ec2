-- ===== src/Telemetry/Drain.antt =====
-- One call of `auditor_tick` (services/auditor/exporter.c).
use lugh_os.Base.{
  ◌<◌, ◌==◌, ℕ, zero, suc, ◌+◌, ◌%◌, ◌^◌, ltb, leb, if◌then◌else◌, List, [], ◌∷◌, ◌⊎◌, inl, inr,
  append-nil, append_assoc, map, ◌++◌, take, drop, take-nil, drop-nil, ◌≡◌, refl, ap, ap₂, sym,
  subst, ◌∙◌, arith, true, false, Bool-cases,
}
use lugh_os.Messages.{Message}
use lugh_os.Ring.{ring_pop}
use lugh_os.Ring.Refine.{IsValid, contents, ring_pop-empty, ring_pop-front, pop-IsValid}
use lugh_os.Telemetry.Record.{AuditorRecord, msg_record, overflow_record, heartbeat_record}
use lugh_os.Telemetry.{
  Auditor, drain, drain_batch, write_record, report_overflow, heartbeat, auditor_tick,
}

abbrev pub pending : Auditor → List Message
pending a = (contents a.ring).items

List-cases {ℓ} : {A : Type ℓ} (xs : List A) → (xs ≡ []) ⊎ ((x : A) × (ys : List A) × (xs ≡ x ∷ ys))
List-cases [] = inl refl
List-cases (x ∷ ys) = inr (x, ys, refl)

-- Draining writes the oldest `n` messages in their order and leaves the rest.
pub record Drained (n : ℕ) (a b : Auditor) : Type 0 where
  pub written : b.sent ≡ a.sent ++ map (msg_record a.jiffies) (take n (pending a))
  pub left : pending b ≡ drop n (pending a)
  pub valid : IsValid b.ring
  pub overflow : b.ring.overflow ≡ a.ring.overflow
  pub ticks : b.tick_count ≡ a.tick_count
  pub beats : b.heartbeat_counter ≡ a.heartbeat_counter
  pub armed : b.enabled ≡ a.enabled
  pub clock : b.jiffies ≡ a.jiffies

Drained-none : (n : ℕ) (a : Auditor) → IsValid a.ring → pending a ≡ [] → Drained n a a
Drained-none n a v e = record {
  written = rw (e, take-nil Message n) (sym (append-nil a.sent));
  left = rw (e, drop-nil Message n);
  valid = v;
  overflow = refl;
  ticks = refl;
  beats = refl;
  armed = refl;
  clock = refl;
}

-- One message more than a drain that started after it.
Drained-more :
    (n : ℕ) (a b c : Auditor) (m : Message) (ms : List Message)
    → pending a ≡ m ∷ ms
    → pending b ≡ ms
    → b.ring.overflow ≡ a.ring.overflow
    → b ≡ record (write_record a (msg_record a.jiffies m)) { ring = b.ring }
    → Drained n b c
    → Drained (suc n) a c
Drained-more n a b c m ms front rest same step d = record {
  written =
      d.written
      ∙ ap₂ (λ out now. out ++ map (msg_record now) (take n (pending b))) (ap (λ x. x.sent) step)
          (ap (λ x. x.jiffies) step)
      ∙ append_assoc a.sent (msg_record a.jiffies m ∷ [])
          (map (msg_record a.jiffies) (take n (pending b)))
      ∙ ap (λ xs. a.sent ++ msg_record a.jiffies m ∷ map (msg_record a.jiffies) (take n xs)) rest
      ∙ ap (λ xs. a.sent ++ map (msg_record a.jiffies) (take (suc n) xs)) (sym front);
  left = d.left ∙ ap (drop n) rest ∙ ap (drop (suc n)) (sym front);
  valid = d.valid;
  overflow = d.overflow ∙ same;
  ticks = d.ticks ∙ ap (λ x. x.tick_count) step;
  beats = d.beats ∙ ap (λ x. x.heartbeat_counter) step;
  armed = d.armed ∙ ap (λ x. x.enabled) step;
  clock = d.clock ∙ ap (λ x. x.jiffies) step;
}

pub drain-Drained : (n : ℕ) (a : Auditor) → IsValid a.ring → Drained n a (drain n a)
unfolding drain
drain-Drained zero a v = record {
  written = sym (append-nil a.sent);
  left = refl;
  valid = v;
  overflow = refl;
  ticks = refl;
  beats = refl;
  armed = refl;
  clock = refl;
}
drain-Drained (suc n) a v = elim (List-cases (pending a)) [
  | inl e ↦ rw (ring_pop-empty a.ring v e, drain) (Drained-none (suc n) a v e)
  | inr (m, ms, e) ↦
      let front = ring_pop-front a.ring m ms v e in
      let b = write_record (record a { ring = (ring_pop a.ring).1 }) (msg_record a.jiffies m) in
      rw (front.0, drain)
        (Drained-more n a b (drain n b) m ms e front.1 front.2 refl
          (drain-Drained n b (pop-IsValid a.ring v)))
]

-- The drop report and the keepalive of a tick, each where it is due.
abbrev pub drop_report : Auditor → List AuditorRecord
drop_report a = if ltb 0 a.ring.overflow then overflow_record a.jiffies a.ring.overflow ∷ [] else []

abbrev beat_at : ℕ → ℕ → List AuditorRecord
beat_at count now = if count == 99 then heartbeat_record now ∷ [] else []

abbrev pub keepalive : Auditor → List AuditorRecord
keepalive a = beat_at a.heartbeat_counter a.jiffies

regroup : (ws xs ys zs : List AuditorRecord) → ((ws ++ xs) ++ ys) ++ zs ≡ ws ++ (xs ++ (ys ++ zs))
regroup ws xs ys zs = simp append_assoc

report_overflow_lem :
    (a : Auditor)
    → let b = report_overflow a in
      (b.sent ≡ a.sent ++ drop_report a)
      × (b.ring ≡ record a.ring { overflow = 0 })
      × (b.heartbeat_counter ≡ a.heartbeat_counter)
      × (b.jiffies ≡ a.jiffies)
      × (b.tick_count ≡ a.tick_count)
      × (b.enabled ≡ a.enabled)
unfolding report_overflow
report_overflow_lem a = elim (Bool-cases (ltb 0 a.ring.overflow)) [
  | inl e ↦ rw e (refl, refl, refl, refl, refl, refl)
  | inr e ↦
      let none_lost : a.ring.overflow ≡ 0 = ground arith in
      rw e (
        sym (append-nil a.sent),
        λ i. record a.ring { overflow = none_lost i },
        refl,
        refl,
        refl,
        refl,
      )
]

heartbeat_lem :
    (a : Auditor)
    → a.heartbeat_counter < 100
    → let b = heartbeat a in
      (b.sent ≡ a.sent ++ keepalive a)
      × (b.ring ≡ a.ring)
      × (b.heartbeat_counter ≡ (a.heartbeat_counter + 1) % 100)
      × (b.tick_count ≡ (a.tick_count + 1) % 2 ^ 64)
      × (b.jiffies ≡ a.jiffies)
      × (b.enabled ≡ a.enabled)
unfolding heartbeat
heartbeat_lem a l = elim (Bool-cases (leb 100 ((a.heartbeat_counter + 1) % 2 ^ 32))) [
  | inl e ↦
      let due : (a.heartbeat_counter == 99) ≡ true = ground arith in
      let back : 0 ≡ (a.heartbeat_counter + 1) % 100 = ground arith in
      rw (e, due) (refl, refl, back, refl, refl, refl)
  | inr e ↦
      let early : (a.heartbeat_counter == 99) ≡ false = ground arith in
      let on : (a.heartbeat_counter + 1) % 2 ^ 32 ≡ (a.heartbeat_counter + 1) % 100 =
        ground arith in
      rw (e, early) (sym (append-nil a.sent), refl, on, refl, refl, refl)
]

tick_armed :
    (a : Auditor)
    → a.enabled ≡ true
    → auditor_tick a ≡ heartbeat (drain drain_batch (report_overflow a))
unfolding auditor_tick
tick_armed a armed = simp armed

-- One tick of an armed auditor with a valid ring writes, in this order, the pending drop count if
-- it is not zero, the oldest 32 messages of the ring in the order they were pushed, and the
-- keepalive if the beat counter, which is taken to be below 100 as at boot, is at 99. It removes
-- exactly those messages, resets the drop count, counts the tick, and moves the beat counter on by
-- one modulo 100. The clock does not move, and the auditor stays armed.
pub auditor_tick_lem :
    (a : Auditor)
    → a.enabled ≡ true
    → IsValid a.ring
    → a.heartbeat_counter < 100
    → let b = auditor_tick a in
      (b.sent
        ≡ a.sent
          ++ (drop_report a
              ++ (map (msg_record a.jiffies) (take drain_batch (pending a)) ++ keepalive a)))
      × (pending b ≡ drop drain_batch (pending a))
      × (b.ring.overflow ≡ 0)
      × IsValid b.ring
      × (b.heartbeat_counter ≡ (a.heartbeat_counter + 1) % 100)
      × (b.tick_count ≡ (a.tick_count + 1) % 2 ^ 64)
      × (b.jiffies ≡ a.jiffies)
      × (b.enabled ≡ true)
auditor_tick_lem a armed v low =
    let b = report_overflow a in
    let r = report_overflow_lem a in
    let valid : IsValid b.ring =
      subst IsValid (sym r.1)
        (record { storage = v.storage; head_in = v.head_in; tail_in = v.tail_in }) in
    let same : pending b ≡ pending a = ap (λ t. (contents t).items) r.1 in
    let d = drain-Drained drain_batch b valid in
    let c = drain drain_batch b in
    let beats = d.beats ∙ r.2 in
    let h = heartbeat_lem c (omega (arith, beats, low)) in
    let beat : keepalive c ≡ keepalive a = ap₂ beat_at (d.beats ∙ r.2) (d.clock ∙ r.3) in
    let written : (heartbeat c).sent
        ≡ a.sent
          ++ (drop_report a
              ++ (map (msg_record a.jiffies) (take drain_batch (pending a)) ++ keepalive a)) =
      h.0
      ∙ ap₂ ◌++◌
          (d.written
            ∙ ap₂ (λ out xs. out ++ xs) r.0
                (ap₂ (λ now xs. map (msg_record now) (take drain_batch xs)) r.3 same))
          beat
      ∙ regroup a.sent (drop_report a) (map (msg_record a.jiffies) (take drain_batch (pending a)))
          (keepalive a) in
    let tick = tick_armed a armed in
    (
      ap (λ t. t.sent) tick ∙ written,
      ap pending tick ∙ ap (λ t. (contents t).items) h.1 ∙ d.left ∙ ap (drop drain_batch) same,
      ap (λ t. t.ring.overflow) tick
          ∙ ap (λ t. t.overflow) h.1
          ∙ d.overflow
          ∙ ap (λ t. t.overflow) r.1,
      subst (λ t. IsValid t.ring) (sym tick) (subst IsValid (sym h.1) d.valid),
      ap (λ t. t.heartbeat_counter) tick ∙ h.2 ∙ ap (λ n. (n + 1) % 100) beats,
      ap (λ t. t.tick_count) tick ∙ h.3 ∙ ap (λ n. (n + 1) % 2 ^ 64) (d.ticks ∙ r.4),
      ap (λ t. t.jiffies) tick ∙ h.4 ∙ d.clock ∙ r.3,
      ap (λ t. t.enabled) tick ∙ h.5 ∙ d.armed ∙ r.5 ∙ armed,
    )
