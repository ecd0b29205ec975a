-- ===== src/Atlas/Graph/Walk.antt =====
-- The end of bfsCollectIDs, and what it collects.
use urbanist_atlas.Base.{ℕ, ◌≡◌, refl, ◌↔◌, List, [], ◌∷◌, some, arith, nat_eq, Table, In, Distinct}
use urbanist_atlas.Atlas.Store.{MemStore}
use urbanist_atlas.Atlas.Graph.{bfs_loop, bfs_fuel, bfs_collect_ids}
use urbanist_atlas.Atlas.Graph.Reach.{
  Reach, here, step, Inv, Inv-start, bfs_loop-Inv, bfs_loop_total,
}

module _ (s : MemStore) (start : ℕ) (adj : Table ℕ (List ℕ)) where
  -- The loop returns within its fuel, and what it returns is the result.
  pub bfs_loop_ends :
      bfs_loop s adj (bfs_fuel s adj) [] [] (start ∷ []) ≡ some (bfs_collect_ids s start adj)
  unfolding bfs_collect_ids bfs_fuel
  bfs_loop_ends =
      let (r, e) = bfs_loop_total s adj (bfs_fuel s adj) [] [] (start ∷ []) (omega arith) in
      rw e refl

  collected : (v : List ℕ) × Inv s adj start v (bfs_collect_ids s start adj) []
  collected =
      bfs_loop-Inv s adj start (bfs_fuel s adj) [] [] (start ∷ []) (bfs_collect_ids s start adj)
        (Inv-start s adj start) bfs_loop_ends

  complete :
      {v : ℕ} {visited out : List ℕ}
      → Inv s adj start visited out []
      → Reach s adj start v
      → In v out
  complete h (here w) = h.kept start (ground (arith, h.source)) w
  complete h (step {u} {v} r m w) = h.kept v (ground (arith, h.closed u v (complete h r) m)) w

  -- The walk collects a region exactly when some path from the start leads to it over registered
  -- regions that are not national.
  pub bfs_collect_ids_iff_Reach : (v : ℕ) → In v (bfs_collect_ids s start adj) ↔ Reach s adj start v
  bfs_collect_ids_iff_Reach v = (collected.1.sound v, complete collected.1)

  -- No region is collected twice, whatever diamonds or cycles the graph has.
  pub bfs_collect_ids-Distinct : Distinct (bfs_collect_ids s start adj)
  bfs_collect_ids-Distinct = collected.1.distinct
