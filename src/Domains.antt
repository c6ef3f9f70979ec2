-- ===== src/Domains.antt =====
-- kernel/security/domain_graph.c: the matrix of allowed domain transitions, and its seal.
pub mod Policy
mod Tests
use lugh_os.Base.{
  ℕ, zero, suc, ◌^◌, leb, ◌==◌, if◌then◌else◌, ℤ, pos, neg, Bool, true, false, not, ◌||◌, List, [],
  ◌∷◌, map, get_or, set, bit_and, bit_or,
}
use lugh_os.Telemetry.{Auditor, auditor_domain_edge}

abbrev pub max_domains : ℕ
max_domains = 8

-- The statics of domain_graph.c.
pub record Domains : Type 0 where
  pub domain_edges : List ℕ
  pub edges_sealed : Bool

abbrev pub rows_from : ℕ → ℕ → List ℕ
rows_from i zero = []
rows_from i (suc n) = 2 ^ i ∷ rows_from (suc i) n

unfoldable pub domain_edges_init : Domains
domain_edges_init = record { domain_edges = rows_from 0 max_domains; edges_sealed = false }

-- `src >= MAX_DOMAINS || dst >= MAX_DOMAINS`
abbrev pub outside : ℕ → ℕ → Bool
outside src dst = leb max_domains src || leb max_domains dst

unfoldable pub domain_edge_allowed : Domains → ℕ → ℕ → ℕ
domain_edge_allowed s src dst =
    if outside src dst
    then 0
    else if not (bit_and (get_or s.domain_edges src 0) (2 ^ dst) == 0)
    then 1
    else 0

unfoldable pub domain_edge_set : Auditor → Domains → ℕ → ℕ → ℤ × Domains × Auditor
domain_edge_set a s src dst =
    if outside src dst then (neg 1, s, a) else if s.edges_sealed then (neg 2, s, a) else (
      pos 0,
      record s {
        domain_edges = set s.domain_edges src (bit_or (get_or s.domain_edges src 0) (2 ^ dst));
      },
      auditor_domain_edge a src dst 1,
    )

unfoldable pub domain_edges_seal : Domains → Domains
domain_edges_seal s = if not s.edges_sealed then record s { edges_sealed = true } else s
