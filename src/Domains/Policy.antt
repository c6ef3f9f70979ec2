-- ===== src/Domains/Policy.antt =====
-- Sequences of calls of kernel/security/domain_graph.c, against the list of edges they ask for.
use lugh_os.Base.{
  ℕ, zero, suc, ◌+◌, ◌<◌, ◌^◌, ◌==◌, if◌then◌else◌, Bool, true, false, not, ◌||◌, ◌&&◌, List, [],
  ◌∷◌, length, get_or, set, get_or-set, length-set, bit_or, ◌≡◌, refl, ap, ◌∙◌, arith, ==_iff,
  Bool-cases, inl, inr,
}
use lugh_os.Base.Bits.{bit, bit-pow}
use lugh_os.Base.Masks.{test-bit, bit-set}
use lugh_os.Telemetry.{Auditor, auditor_domain_edge}
use lugh_os.Domains.{
  Domains, max_domains, rows_from, domain_edges_init, outside, domain_edge_allowed, domain_edge_set,
  domain_edges_seal,
}

-- A call that may change the matrix.
pub data Op : Type 0 where
  edge : ℕ → ℕ → Op
  seal : Op

abbrev pub step : Auditor × Domains → Op → Auditor × Domains
step (a, s) (edge src dst) = let (rv, s', a') = domain_edge_set a s src dst in (a', s')
step (a, s) seal = (a, domain_edges_seal s)

unfoldable pub run : Auditor × Domains → List Op → Auditor × Domains
run w [] = w
run w (op ∷ ops) = run (step w op) ops

-- The edges that a list of calls grants: those in range, set before the first seal.
unfoldable pub granted : List Op → List (ℕ × ℕ)
granted [] = []
granted (edge src dst ∷ ops) =
    let rest = granted ops in if outside src dst then rest else (src, dst) ∷ rest
granted (seal ∷ ops) = []

abbrev pub listed : List (ℕ × ℕ) → ℕ → ℕ → Bool
listed [] a b = false
listed ((c, d) ∷ es) a b = (c == a && d == b) || listed es a b

-- One record per edge, in order.
abbrev pub report : Auditor → List (ℕ × ℕ) → Auditor
report u [] = u
report u ((c, d) ∷ es) = report (auditor_domain_edge u c d 1) es

abbrev pub allows : Domains → ℕ → ℕ → Bool
allows s a b = domain_edge_allowed s a b == 1

allows_lem :
    (s : Domains) (a b : ℕ)
    → allows s a b ≡ (not (outside a b) && bit (get_or s.domain_edges a 0) b)
unfolding domain_edge_allowed
allows_lem s a b = ground (arith, test-bit (get_or s.domain_edges a 0) b)

rows_from_lem : (i n k : ℕ) → k < n → get_or (rows_from i n) k 0 ≡ 2 ^ (i + k)
rows_from_lem i zero k l = absurd (omega arith)
rows_from_lem i (suc n) zero l = ap (λ t. 2 ^ t) (omega arith)
rows_from_lem i (suc n) (suc k) l =
    rows_from_lem (suc i) n k (omega arith) ∙ ap (λ t. 2 ^ t) (omega arith)

allows-init : (a b : ℕ) → allows domain_edges_init a b ≡ (not (outside a b) && a == b)
unfolding domain_edges_init
allows-init a b = elim (Bool-cases (outside a b)) [
  | inl out ↦ allows_lem domain_edges_init a b ∙ rw out refl
  | inr in_range ↦
      let row : get_or (rows_from 0 max_domains) a 0 ≡ 2 ^ a =
        rows_from_lem 0 max_domains a (ground arith) ∙ ap (λ t. 2 ^ t) (omega arith) in
      allows_lem domain_edges_init a b ∙ rw in_range (ap (λ t. bit t b) row ∙ bit-pow a b)
]

-- A refused call changes neither the matrix nor the line.
step-outside :
    (u : Auditor) (s : Domains) (c d : ℕ) → outside c d ≡ true → step (u, s) (edge c d) ≡ (u, s)
unfolding domain_edge_set
step-outside u s c d out = rw out refl

step-sealed :
    (u : Auditor) (s : Domains) (c d : ℕ) → s.edges_sealed ≡ true → step (u, s) (edge c d) ≡ (u, s)
unfolding domain_edge_set
step-sealed u s c d closed = elim (Bool-cases (outside c d)) [
  | inl out ↦ step-outside u s c d out
  | inr in_range ↦ simp (in_range, closed)
]

-- The matrix after an edge that is accepted.
abbrev with_edge : Domains → ℕ → ℕ → Domains
with_edge s c d = record s {
  domain_edges = set s.domain_edges c (bit_or (get_or s.domain_edges c 0) (2 ^ d));
}

step-open :
    (u : Auditor) (s : Domains) (c d : ℕ)
    → s.edges_sealed ≡ false
    → outside c d ≡ false
    → step (u, s) (edge c d) ≡ (auditor_domain_edge u c d 1, with_edge s c d)
unfolding domain_edge_set
step-open u s c d open_now in_range = simp (in_range, open_now)

abbrev pub IsSized : Domains → Type 0
IsSized s = length s.domain_edges ≡ max_domains

bit_if : (t : Bool) (x y b : ℕ) → bit (if t then x else y) b ≡ (if t then bit x b else bit y b)
bit_if true x y b = refl
bit_if false x y b = refl

same_row : (xs : List ℕ) (c a : ℕ) → (c == a) ≡ true → get_or xs c 0 ≡ get_or xs a 0
same_row xs c a h = ap (λ t. get_or xs t 0) ((==_iff c a).0 h)

-- An accepted edge is added, and no other.
allows-with_edge :
    (s : Domains) (c d a b : ℕ)
    → IsSized s
    → outside c d ≡ false
    → allows (with_edge s c d) a b ≡ ((c == a && d == b) || allows s a b)
allows-with_edge s c d a b sized in_range =
    let row = get_or s.domain_edges c 0 in
    let old = get_or s.domain_edges a 0 in
    let inside : c < length s.domain_edges = ground (arith, sized) in
    let e =
      ap (λ t. bit t b) (get_or-set s.domain_edges c a (bit_or row (2 ^ d)) 0 inside)
      ∙ bit_if (c == a) (bit_or row (2 ^ d)) old b in
    allows_lem (with_edge s c d) a b ∙ elim (Bool-cases (c == a)) [
      | inl here ↦
          let f = ap (λ t. bit t b) (same_row s.domain_edges c a here) in
          ground (arith, e, bit-set row d b, f, here, allows_lem s a b)
      | inr there ↦ ground (arith, e, there, allows_lem s a b)
    ]

step-seal_sealed : (u : Auditor) (s : Domains) → s.edges_sealed ≡ true → step (u, s) seal ≡ (u, s)
unfolding domain_edges_seal
step-seal_sealed u s closed = simp closed

step-seal_open :
    (u : Auditor) (s : Domains)
    → s.edges_sealed ≡ false
    → step (u, s) seal ≡ (u, record s { edges_sealed = true })
unfolding domain_edges_seal
step-seal_open u s open_now = simp open_now

-- Once the matrix is sealed, no sequence of edge and seal calls changes it or sends a record.
run_sealed :
    (u : Auditor) (s : Domains) (ops : List Op) → s.edges_sealed ≡ true → run (u, s) ops ≡ (u, s)
unfolding run
run_sealed u s [] closed = refl
run_sealed u s (edge c d ∷ ops) closed =
    ap (λ w. run w ops) (step-sealed u s c d closed) ∙ run_sealed u s ops closed
run_sealed u s (seal ∷ ops) closed =
    ap (λ w. run w ops) (step-seal_sealed u s closed) ∙ run_sealed u s ops closed

allows-seal : (s : Domains) (a b : ℕ) → allows (record s { edges_sealed = true }) a b ≡ allows s a b
unfolding domain_edge_allowed
allows-seal s a b = refl

run_open :
    (u : Auditor) (s : Domains) (ops : List Op) (a b : ℕ)
    → IsSized s
    → s.edges_sealed ≡ false
    → (allows (run (u, s) ops).1 a b ≡ (listed (granted ops) a b || allows s a b))
      × ((run (u, s) ops).0 ≡ report u (granted ops))
unfolding run granted
run_open u s [] a b sized open_now = (refl, refl)
run_open u s (seal ∷ ops) a b sized open_now =
    let s' : Domains = record s { edges_sealed = true } in
    let e : run (u, s) (seal ∷ ops) ≡ (u, s') =
      ap (λ w. run w ops) (step-seal_open u s open_now) ∙ run_sealed u s' ops refl in
    (ap (λ w. allows w.1 a b) e ∙ allows-seal s a b, ap (λ w. w.0) e)
run_open u s (edge c d ∷ ops) a b sized open_now = elim (Bool-cases (outside c d)) [
  | inl out ↦
      let e = ap (λ w. run w ops) (step-outside u s c d out) in
      let (p, q) = run_open u s ops a b sized open_now in
      (rw out (ap (λ w. allows w.1 a b) e ∙ p), rw out (ap (λ w. w.0) e ∙ q))
  | inr in_range ↦
      let e = ap (λ w. run w ops) (step-open u s c d open_now in_range) in
      let sized' =
        length-set s.domain_edges c (bit_or (get_or s.domain_edges c 0) (2 ^ d)) ∙ sized in
      let (p, q) =
        run_open (auditor_domain_edge u c d 1) (with_edge s c d) ops a b sized' open_now in
      let f = allows-with_edge s c d a b sized in_range in
      (
        rw in_range (ap (λ w. allows w.1 a b) e ∙ p ∙ ground (arith, f)),
        rw in_range (ap (λ w. w.0) e ∙ q),
      )
]

-- After any sequence of edge and seal calls that starts from `domain_edges_init`, domain `a` may
-- reach domain `b` exactly when both are in range and either they are the same or an edge from `a`
-- to `b` was set before the first seal; the auditor has been told of each edge set before the first
-- seal, in order, and of nothing else.
pub run_init :
    (u : Auditor) (ops : List Op) (a b : ℕ)
    → (allows (run (u, domain_edges_init) ops).1 a b
        ≡ (listed (granted ops) a b || (not (outside a b) && a == b)))
      × ((run (u, domain_edges_init) ops).0 ≡ report u (granted ops))
unfolding domain_edges_init
run_init u ops a b =
    let (p, q) = run_open u domain_edges_init ops a b refl refl in
    (p ∙ ap (λ t. listed (granted ops) a b || t) (allows-init a b), q)
