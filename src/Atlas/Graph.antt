-- ===== src/Atlas/Graph.antt =====
-- api/pkg/atlas/graph.go: the walks over the region graph, and the indexes derived from the store.
-- A visited set is the list of its elements; a set of org ids is a list without repetition.
pub mod Reach
pub mod Walk
pub mod Children
pub mod Built
use urbanist_atlas.Base.{
  ℕ, zero, suc, ◌+◌, Bool, true, false, not, ◌||◌, List, [], ◌∷◌, ◌++◌, Option, none, some, ◌==◌,
  nat_eq, Table, find, find_or, put, member, length, if◌then◌else◌, option_or,
}
use urbanist_atlas.Atlas.Types.{Region, Org, is_national}
use urbanist_atlas.Atlas.Store.{MemStore}

-- The region that a walk may collect: registered and not national.
unfoldable pub walkable : MemStore → ℕ → Bool
unfolding find is_national
walkable s id = elim (find id s.regions_by_id) [ none ↦ false | some r ↦ not (is_national r) ]

-- The loop of bfsCollectIDs; `none` means that the fuel ran out.
unfoldable pub bfs_loop :
    MemStore → Table ℕ (List ℕ) → ℕ → List ℕ → List ℕ → List ℕ → Option (List ℕ)
unfolding walkable find_or
bfs_loop s adj zero visited out queue = elim queue [ [] ↦ some out | _ ∷ _ ↦ none ]
bfs_loop s adj (suc fuel) visited out queue = elim queue [
  | [] ↦ some out
  | id ∷ rest ↦ elim (member id visited) [
    | true ↦ bfs_loop s adj fuel visited out rest
    | false ↦ elim (walkable s id) [
      | false ↦ bfs_loop s adj fuel (id ∷ visited) out rest
      | true ↦ bfs_loop s adj fuel (id ∷ visited) (out ++ id ∷ []) (rest ++ find_or id adj [])
    ]
  ]
]

-- The edges out of the regions that are not visited: what may still be queued.
unfoldable pub edges_left : Table ℕ (List ℕ) → List ℕ → Table ℕ Region → ℕ
unfolding find_or
edges_left adj visited [] = 0
edges_left adj visited ((id, r) ∷ rest) =
    (if member id visited then 0 else length (find_or id adj [])) + edges_left adj visited rest

unfoldable pub bfs_fuel : MemStore → Table ℕ (List ℕ) → ℕ
unfolding edges_left
bfs_fuel s adj = suc (edges_left adj [] s.regions_by_id)

unfoldable pub bfs_collect_ids : MemStore → ℕ → Table ℕ (List ℕ) → List ℕ
unfolding bfs_loop bfs_fuel
bfs_collect_ids s start adj = option_or (bfs_loop s adj (bfs_fuel s adj) [] [] (start ∷ [])) []

-- `out[p] = append(out[p], childID)` for the parents of one child
unfoldable pub add_child : ℕ → List ℕ → Table ℕ (List ℕ) → Table ℕ (List ℕ)
unfolding find_or put
add_child child [] out = out
add_child child (p ∷ ps) out = add_child child ps (put p (find_or p out [] ++ child ∷ []) out)

unfoldable pub children_loop : Table ℕ (List ℕ) → Table ℕ (List ℕ) → Table ℕ (List ℕ)
unfolding add_child
children_loop [] out = out
children_loop ((child, ps) ∷ rest) out = children_loop rest (add_child child ps out)

unfoldable pub build_children_of : MemStore → Table ℕ (List ℕ)
unfolding children_loop
build_children_of s = children_loop s.parents []

unfoldable pub descendant_region_ids : MemStore → ℕ → List ℕ
unfolding bfs_collect_ids build_children_of
descendant_region_ids s root = bfs_collect_ids s root (build_children_of s)

-- `set[x] = struct{}{}`
unfoldable pub add_element : ℕ → List ℕ → List ℕ
add_element x set = if member x set then set else set ++ x ∷ []

unfoldable pub index_org : ℕ → List ℕ → Table ℕ (List ℕ) → Table ℕ (List ℕ)
unfolding find_or put add_element
index_org org [] out = out
index_org org (rid ∷ rids) out =
    index_org org rids (put rid (add_element org (find_or rid out [])) out)

unfoldable pub index_orgs : MemStore → List Org → Table ℕ (List ℕ) → Table ℕ (List ℕ)
unfolding index_org find_or
index_orgs s [] out = out
index_orgs s (org ∷ rest) out =
    index_orgs s rest (index_org org.id (find_or org.id s.org_regions []) out)

unfoldable pub build_orgs_by_region : MemStore → Table ℕ (List ℕ)
unfolding index_orgs
build_orgs_by_region s = index_orgs s s.orgs []

unfoldable pub add_elements : List ℕ → List ℕ → List ℕ
unfolding add_element
add_elements [] seen = seen
add_elements (x ∷ xs) seen = add_elements xs (add_element x seen)

unfoldable pub distinct_orgs : Table ℕ (List ℕ) → List ℕ → List ℕ → List ℕ
unfolding add_elements find_or
distinct_orgs by_region [] seen = seen
distinct_orgs by_region (rid ∷ rids) seen =
    distinct_orgs by_region rids (add_elements (find_or rid by_region []) seen)

unfoldable pub count_distinct_orgs : Table ℕ (List ℕ) → List ℕ → ℕ
unfolding distinct_orgs
count_distinct_orgs by_region region_ids = length (distinct_orgs by_region region_ids [])
