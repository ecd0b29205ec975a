-- ===== src/Seed/Cycles/Tests.antt =====
-- A diamond, and a graph with a cycle.
use urbanist_atlas.Base.{
  ◌≡◌, ◌≢◌, ◌↔◌, refl, true, List, [], ◌∷◌, Bytes, bytes_eq, bytes_eqb, codes, ok, err,
}
use urbanist_atlas.Atlas.Types.{Region, zero_region}
use urbanist_atlas.Seed.Cycles.{Parents, cycle, out_of_fuel, detect_cycles_graph}
use urbanist_atlas.Seed.Cycles.Paths.{Above}
use urbanist_atlas.Seed.Cycles.Accepts.{detect_cycles_graph_iff}

abbrev diamond : Parents
diamond =
    (codes "d", codes "b" ∷ codes "c" ∷ [])
    ∷ (codes "b", codes "a" ∷ [])
    ∷ (codes "c", codes "a" ∷ [])
    ∷ []

diamond_ok : detect_cycles_graph diamond ≡ ok tt
unfolding detect_cycles_graph bytes_eqb
diamond_ok = refl

looped :
    detect_cycles_graph ((codes "a", codes "d" ∷ []) ∷ diamond)
    ≡ err (cycle (codes "a" ∷ codes "d" ∷ codes "b" ∷ codes "a" ∷ []))
unfolding detect_cycles_graph bytes_eqb
looped = refl

detect_cycles_graph_iff_example :
    (detect_cycles_graph diamond ≢ err out_of_fuel)
    × ((detect_cycles_graph diamond ≡ ok tt) ↔ ((t : Bytes) → ¬ Above (λ p. true) diamond t t))
detect_cycles_graph_iff_example = detect_cycles_graph_iff diamond

abbrev rows : List Region
rows = record zero_region { slug = codes "a"; parent_slugs = codes "a" ∷ [] } ∷ []
