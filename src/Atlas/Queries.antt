-- ===== src/Atlas/Queries.antt =====
-- The read methods of MemStore, api/pkg/atlas/memstore.go. An error of a lookup is `none`: each method
-- has one sentinel error at most. An iteration over a map goes through its entries in their order.
pub mod Members
pub mod Upward
pub mod Stats
use urbanist_atlas.Base.{
  ℕ, zero, suc, Bool, true, false, not, ◌&&◌, ◌||◌, List, [], ◌∷◌, ◌++◌, Option, none, some, Bytes,
  Unicode, ◌==◌, bytes_eq, nat_eq, nat_eqb, ltb, Table, find, find_or, any, take, length, bytes_ltb,
  select, map, if◌then◌else◌,
}
use urbanist_atlas.Base.Sort.{sort_by}
use urbanist_atlas.Atlas.Types.{Region, Org, zero_region, is_national}
use urbanist_atlas.Atlas.Store.{MemStore}
use urbanist_atlas.Atlas.Postal.{postal_key}
use urbanist_atlas.Atlas.Graph.{bfs_collect_ids, descendant_region_ids}

unfoldable pub resolve_leaf_region : Unicode → MemStore → Bytes → Bytes → Option Region
unfolding find postal_key
resolve_leaf_region u s country postal_code =
    elim (find (postal_key u country postal_code) s.postal_to_leaf) [
      | none ↦ none
      | some id ↦ find id s.regions_by_id
    ]

unfoldable pub ancestor_regions : MemStore → ℕ → List Region
unfolding bfs_collect_ids find_or
ancestor_regions s leaf =
    map (λ id. find_or id s.regions_by_id zero_region) (bfs_collect_ids s leaf s.parents)

unfoldable pub resolve_region_by_slug : Unicode → MemStore → Bytes → Option Region
unfolding find is_national
resolve_region_by_slug u s slug = elim (find (u.to_lower slug) s.regions_by_slug) [
  | none ↦ none
  | some id ↦ elim (find id s.regions_by_id) [
    | none ↦ none
    | some r ↦ if is_national r then none else some r
  ]
]

-- The registered regions among the ids, national ones left out.
unfoldable pub live_regions : MemStore → List ℕ → List Region
unfolding find is_national
live_regions s [] = []
live_regions s (id ∷ ids) = elim (find id s.regions_by_id) [
  | none ↦ live_regions s ids
  | some r ↦ let rest = live_regions s ids in if is_national r then rest else r ∷ rest
]

unfoldable pub descendant_regions : MemStore → ℕ → List Region
unfolding find is_national descendant_region_ids live_regions
descendant_regions s focus = elim (find focus s.regions_by_id) [
  | none ↦ []
  | some r ↦ if is_national r then [] else live_regions s (descendant_region_ids s focus)
]

unfoldable pub region_id_less : Region → Region → Bool
region_id_less a b = ltb a.id b.id

unfoldable pub rollup_metros_for : MemStore → ℕ → List Region
unfolding find_or live_regions region_id_less sort_by
rollup_metros_for s state =
    sort_by region_id_less (live_regions s (find_or state s.rollup_by_state []))

unfoldable pub known_regions : MemStore → List ℕ → List Region
unfolding find
known_regions s [] = []
known_regions s (id ∷ ids) = elim (find id s.regions_by_id) [
  | none ↦ known_regions s ids
  | some r ↦ r ∷ known_regions s ids
]

unfoldable pub regions_for_org : MemStore → ℕ → List Region
unfolding find_or known_regions region_id_less sort_by
regions_for_org s org = sort_by region_id_less (known_regions s (find_or org s.org_regions []))

unfoldable pub hydrate : MemStore → Org → Org
unfolding regions_for_org
hydrate s org = record org { regions = regions_for_org s org.id; matched_region_slugs = [] }

unfoldable pub first_org : MemStore → Bytes → List Org → Option Org
unfolding hydrate
first_org s slug [] = none
first_org s slug (org ∷ orgs) =
    if org.slug == slug then some (hydrate s org) else first_org s slug orgs

unfoldable pub get_org_by_slug : Unicode → MemStore → Bytes → Option Org
unfolding first_org
get_org_by_slug u s slug = first_org s (u.to_lower slug) s.orgs

-- The org is attached to a region that is not national.
unfoldable pub has_non_national : MemStore → Org → Bool
unfolding find find_or is_national
has_non_national s org =
    any (λ rid. elim (find rid s.regions_by_id) [ none ↦ false | some r ↦ not (is_national r) ])
      (find_or org.id s.org_regions [])

-- Newest first, and by falling id within a date.
unfoldable pub recent_less : Org → Org → Bool
recent_less a b =
    if not (nat_eqb a.added_at b.added_at) then ltb b.added_at a.added_at else ltb b.id a.id

unfoldable pub list_recent : MemStore → List Org
unfolding has_non_national hydrate recent_less sort_by
list_recent s = take 10 (sort_by recent_less (map (hydrate s) (select (has_non_national s) s.orgs)))

-- Some region of the org is wanted.
unfoldable pub serves_any : MemStore → List ℕ → Org → Bool
unfolding find_or
serves_any s wanted org =
    any (λ rid. any (λ id. id == rid) wanted) (find_or org.id s.org_regions [])

unfoldable pub with_regions : MemStore → Org → Org
unfolding regions_for_org
with_regions s org = record org { regions = regions_for_org s org.id }

unfoldable pub orgs_for_regions : MemStore → List ℕ → List Org
unfolding serves_any with_regions
orgs_for_regions s [] = []
orgs_for_regions s (id ∷ ids) = map (with_regions s) (select (serves_any s (id ∷ ids)) s.orgs)
