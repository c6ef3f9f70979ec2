-- ===== src/Domains/Tests.antt =====
-- Runs of kernel/security/domain_graph.c on small cases.
use lugh_os.Base.{◌==◌, true, false, not, ◌&&◌, ◌||◌, List, [], ◌∷◌, ◌≡◌, refl}
use lugh_os.Telemetry.{auditor_boot}
use lugh_os.Domains.{
  domain_edges_init, outside, domain_edge_allowed, domain_edge_set, domain_edges_seal,
}
use lugh_os.Domains.Policy.{Op, edge, seal, run, granted, listed, report, allows, run_init}

abbrev calls : List Op
calls = edge 1 2 ∷ edge 9 0 ∷ seal ∷ edge 2 3 ∷ []

granted-calls : granted calls ≡ (1, 2) ∷ []
unfolding granted
granted-calls = refl

edge_1_2 : allows (run (auditor_boot, domain_edges_init) calls).1 1 2 ≡ true
unfolding run domain_edges_init domain_edge_set domain_edges_seal domain_edge_allowed
edge_1_2 = refl

edge_2_3 : allows (run (auditor_boot, domain_edges_init) calls).1 2 3 ≡ false
unfolding run domain_edges_init domain_edge_set domain_edges_seal domain_edge_allowed
edge_2_3 = refl

run_init_example :
    (allows (run (auditor_boot, domain_edges_init) calls).1 1 2
      ≡ (listed (granted calls) 1 2 || (not (outside 1 2) && 1 == 2)))
    × ((run (auditor_boot, domain_edges_init) calls).0 ≡ report auditor_boot (granted calls))
run_init_example = run_init auditor_boot calls 1 2
