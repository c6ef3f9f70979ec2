-- ===== src/TxnLog/History.antt =====
-- Sequences of calls of `log_transaction` (kernel/fs/storage.c).
use lugh_os.Base.{
  ℕ, zero, suc, none, if◌then◌else◌, ◌==◌, ◌-◌, ◌^◌, ◌≤◌, ◌<◌, leb, List, [], ◌∷◌, ◌++◌, map, drop,
  append-nil, append_assoc, length, length-append, Option, some, ◌≡◌, refl, ap, ◌∙◌, sym, arith,
  Bool-cases, inl, inr,
}
use lugh_os.Task.{Task}
use lugh_os.Telemetry.{Auditor}
use lugh_os.TxnLog.{
  TxnEntry, TxnLog, txn_log_boot, txn_log_entries, stamp, log_transaction, txn_log_get_depth,
}
use lugh_os.TxnLog.Bounded.{IsValid, contents, trimmed, log_transaction_lem, length-window}

-- Calls of `log_transaction`, each with the task that runs.
unfoldable pub log_all : Auditor → TxnLog → List (Option Task × TxnEntry) → Auditor × TxnLog
log_all a l [] = (a, l)
log_all a l ((current, e) ∷ es) =
    let r = log_transaction a l current (some e) in log_all r.auditor r.log es

-- Who an entry with this task id belongs to when a task runs: an entry without an owner, id 0, is
-- the running task's.
abbrev pub owner_of : Option Task → ℕ → ℕ
owner_of none id = id
owner_of (some t) zero = t.task_id
owner_of (some t) (suc id) = suc id

-- The entry as the log should hold it.
abbrev pub stamped : Option Task × TxnEntry → TxnEntry
stamped (current, e) = record e { task_id = owner_of current e.task_id }

owner_lem : (t : Task) (id : ℕ) → owner_of (some t) id ≡ (if id == 0 then t.task_id else id)
owner_lem t zero = refl
owner_lem t (suc id) = ground arith

stamp_lem : (current : Option Task) (e : TxnEntry) → stamp current e ≡ stamped (current, e)
unfolding stamp
stamp_lem none e = refl
stamp_lem (some t) e = elim (Bool-cases (e.task_id == 0)) [
  | inl fresh ↦
      let owner : owner_of (some t) e.task_id ≡ t.task_id = owner_lem t e.task_id ∙ rw fresh refl in
      rw fresh (λ i. record e { task_id = sym owner i })
  | inr owned ↦
      let owner : owner_of (some t) e.task_id ≡ e.task_id = owner_lem t e.task_id ∙ rw owned refl in
      rw owned (λ i. record e { task_id = sym owner i })
]

-- The last 256 entries of a list.
abbrev pub recent : List TxnEntry → List TxnEntry
recent es = drop (length es - txn_log_entries) es

recent_skip :
    (e : TxnEntry) (es : List TxnEntry) → txn_log_entries ≤ length es → recent (e ∷ es) ≡ recent es
recent_skip e es l =
    let n : suc (length es) - txn_log_entries ≡ suc (length es - txn_log_entries) = omega arith in
    ap (λ k. drop k (e ∷ es)) n

recent-drop :
    (es ys : List TxnEntry)
    → length es ≡ 256
    → 1 ≤ length ys
    → recent (drop 1 es ++ ys) ≡ recent (es ++ ys)
recent-drop [] ys h k = absurd (omega arith)
recent-drop (e ∷ es) ys h k = sym (recent_skip e (es ++ ys) (omega (arith, length-append es ys)))

recent-trimmed :
    (es ys : List TxnEntry)
    → length es ≤ 256
    → 1 ≤ length ys
    → recent (trimmed es ++ ys) ≡ recent (es ++ ys)
recent-trimmed es ys h k = elim (Bool-cases (leb txn_log_entries (length es))) [
  | inl full ↦ rw full (recent-drop es ys (ground arith) k)
  | inr space ↦ rw space refl
]

recent_short : (es : List TxnEntry) → length es ≤ 256 → recent es ≡ es
recent_short es h = let n : length es - txn_log_entries ≡ 0 = omega arith in ap (λ k. drop k es) n

length-contents : (l : TxnLog) → IsValid l → length (contents l) ≤ 256
length-contents l v = omega (arith, length-window l.txn_log l.tail (txn_log_get_depth l), v.within)

log_all-recent :
    (a : Auditor) (l : TxnLog) (es : List (Option Task × TxnEntry))
    → IsValid l
    → l.overflow < 2 ^ 32
    → contents (log_all a l es).1 ≡ recent (contents l ++ map stamped es)
unfolding log_all
log_all-recent a l [] v o =
    sym (ap recent (append-nil (contents l)) ∙ recent_short (contents l) (length-contents l v))
log_all-recent a l ((current, e) ∷ es) v o =
    let (v', c, n) = log_transaction_lem a l current e v o in
    let r = log_transaction a l current (some e) in
    let rest = map stamped es in
    log_all-recent r.auditor r.log es v' (omega arith)
    ∙ ap (λ xs. recent (xs ++ rest)) c
    ∙ ap (λ x. recent ((trimmed (contents l) ++ x ∷ []) ++ rest)) (stamp_lem current e)
    ∙ ap recent (append_assoc (trimmed (contents l)) (stamped (current, e) ∷ []) rest)
    ∙ recent-trimmed (contents l) (stamped (current, e) ∷ rest) (length-contents l v) (omega arith)

-- After any number of entries logged from boot, the log holds the last 256 of them, oldest first,
-- each as it was given, but with the id of the task that ran when it was logged where it came with
-- the task id 0 and a task ran; an entry that came with another id keeps it.
pub log_all_lem :
    (a : Auditor) (es : List (Option Task × TxnEntry))
    → contents (log_all a txn_log_boot es).1 ≡ recent (map stamped es)
unfolding txn_log_get_depth
log_all_lem a es =
    log_all-recent a txn_log_boot es
      (record {
        storage = refl;
        head_in = omega arith;
        tail_in = omega arith;
        within = omega arith;
      })
      (omega arith)
