-- ===== src/Atlas/Search.antt =====
-- api/pkg/atlas/regionsearch.go, and SearchRegions of api/pkg/atlas/memstore.go.
pub mod Ranked
use urbanist_atlas.Base.{
  ℕ, Bool, not, ◌||◌, List, [], ◌∷◌, Option, none, some, Bytes, Unicode, ◌==◌, bytes_eq, nat_eq,
  nat_eqb, ltb, ℤ, pos, negsuc, Table, find, find_or, take, has_prefix, contains, bytes_ltb,
  if◌then◌else◌, map,
}
use urbanist_atlas.Base.Sort.{sort_by}
use urbanist_atlas.Atlas.Types.{Region, RegionSearchResult, is_national}
use urbanist_atlas.Atlas.Kinds.{is_state_kind}
use urbanist_atlas.Atlas.Store.{MemStore}
use urbanist_atlas.Atlas.Queries.Upward.{bfs_upward_first_match}

abbrev pub rank_exact_slug : ℕ
rank_exact_slug = 0

abbrev pub rank_exact_name : ℕ
rank_exact_name = 1

abbrev pub rank_name_prefix : ℕ
rank_name_prefix = 2

abbrev pub rank_slug_prefix : ℕ
rank_slug_prefix = 3

abbrev pub rank_substring : ℕ
rank_substring = 4

abbrev pub default_region_search_limit : ℕ
default_region_search_limit = 10

abbrev pub max_region_search_limit : ℕ
max_region_search_limit = 20

unfoldable pub region_search_rank : Bytes → Bytes → Bytes → Option ℕ
unfolding has_prefix contains
region_search_rank name_lower slug_lower q =
    if slug_lower == q
    then some rank_exact_slug
    else if name_lower == q
    then some rank_exact_name
    else if has_prefix name_lower q
    then some rank_name_prefix
    else if has_prefix slug_lower q
    then some rank_slug_prefix
    else if contains name_lower q || contains slug_lower q
    then some rank_substring
    else none

pub record Scored : Type 0 where
  pub region : Region
  pub rank : ℕ

unfoldable pub search_hits : Unicode → Bytes → Table ℕ Region → List Scored
unfolding region_search_rank is_national
search_hits u q [] = []
search_hits u q ((id, r) ∷ rest) =
    if is_national r
    then search_hits u q rest
    else elim (region_search_rank (u.to_lower r.name) (u.to_lower r.slug) q) [
      | none ↦ search_hits u q rest
      | some rank ↦ record { region = r; rank = rank } ∷ search_hits u q rest
    ]

unfoldable pub scored_less : Scored → Scored → Bool
unfolding bytes_ltb
scored_less a b =
    if not (nat_eqb a.rank b.rank)
    then ltb a.rank b.rank
    else if not (a.region.name == b.region.name)
    then bytes_ltb a.region.name b.region.name
    else bytes_ltb a.region.slug b.region.slug

-- The parent with the least slug so far.
unfoldable pub better_parent : MemStore → Option Region → ℕ → Option Region
unfolding find is_national bytes_ltb
better_parent s best pid = elim (find pid s.regions_by_id) [
  | none ↦ best
  | some r ↦
      if is_national r
      then best
      else elim best [ none ↦ some r | some b ↦ if bytes_ltb r.slug b.slug then some r else some b ]
]

unfoldable pub best_parent : MemStore → Option Region → List ℕ → Option Region
unfolding better_parent
best_parent s best [] = best
best_parent s best (pid ∷ pids) = best_parent s (better_parent s best pid) pids

unfoldable pub first_parent_name : MemStore → ℕ → Bytes
unfolding best_parent find_or
first_parent_name s root = elim (best_parent s none (find_or root s.parents [])) [
  | none ↦ []
  | some r ↦ r.name
]

unfoldable pub region_context_label : MemStore → ℕ → Bytes
unfolding bfs_upward_first_match is_state_kind first_parent_name
region_context_label s root = elim (bfs_upward_first_match s root (λ r. is_state_kind r.kind)) [
  | some r ↦ r.name
  | none ↦ first_parent_name s root
]

unfoldable pub search_regions_locked : Unicode → MemStore → Bytes → ℕ → List RegionSearchResult
unfolding search_hits scored_less region_context_label sort_by
search_regions_locked u s q limit =
    map (λ h. record { region = h.region; context_label = region_context_label s h.region.id })
      (take limit (sort_by scored_less (search_hits u q s.regions_by_id)))

unfoldable pub clamp_limit : ℤ → ℕ
clamp_limit (negsuc n) = default_region_search_limit
clamp_limit (pos n) =
    if nat_eqb n 0
    then default_region_search_limit
    else if ltb max_region_search_limit n
    then max_region_search_limit
    else n

unfoldable pub search_regions : Unicode → MemStore → Bytes → ℤ → List RegionSearchResult
unfolding search_regions_locked clamp_limit
search_regions u s query limit =
    let q = u.to_lower (u.trim_space query) in
    if q == [] then [] else search_regions_locked u s q (clamp_limit limit)
