-- ===== src/Atlas/Queries/Upward.antt =====
-- bfsUpwardFirstMatch and listRegionsLocked of api/pkg/atlas/memstore.go.
use urbanist_atlas.Base.{
  ℕ, zero, suc, Bool, not, ◌||◌, List, [], ◌∷◌, ◌++◌, Option, none, some, Bytes, nat_eq, nat_eqb,
  ltb, Table, find, find_or, member, length, bytes_ltb, if◌then◌else◌, option_or,
}
use urbanist_atlas.Base.Sort.{sort_by}
use urbanist_atlas.Atlas.Types.{Region, RegionSummary, is_national}
use urbanist_atlas.Atlas.Kinds.{is_default_browse_kind}
use urbanist_atlas.Atlas.Store.{MemStore}
use urbanist_atlas.Atlas.Graph.{
  bfs_collect_ids, build_children_of, build_orgs_by_region, count_distinct_orgs,
}

-- The variables of one level: the visited ids, the hits, and the ids of the next level.
pub record Level : Type 0 where
  pub visited : List ℕ
  pub hits : List Region
  pub next : List ℕ

-- What a round does with a registered region that it visits for the first time.
unfoldable pub visit_region : MemStore → (Region → Bool) → ℕ → Region → Level → Level
unfolding find_or is_national
visit_region s matches id r l =
    if is_national r
    then l
    else if matches r
    then record l { hits = l.hits ++ r ∷ [] }
    else record l { next = l.next ++ find_or id s.parents [] }

-- One round of the inner loop.
unfoldable pub visit_up : MemStore → (Region → Bool) → ℕ → Level → Level
unfolding find visit_region
visit_up s matches id l =
    if member id l.visited
    then l
    else let seen = record l { visited = id ∷ l.visited } in
      elim (find id s.regions_by_id) [ none ↦ seen | some r ↦ visit_region s matches id r seen ]

unfoldable pub scan_level : MemStore → (Region → Bool) → List ℕ → Level → Level
unfolding visit_up
scan_level s matches [] l = l
scan_level s matches (id ∷ ids) l = scan_level s matches ids (visit_up s matches id l)

unfoldable pub slug_less : Region → Region → Bool
unfolding bytes_ltb
slug_less a b = bytes_ltb a.slug b.slug

unfoldable pub first_hit : List Region → Option Region
unfolding slug_less sort_by
first_hit hits = elim (sort_by slug_less hits) [ [] ↦ none | r ∷ _ ↦ some r ]

-- The outer loop; the outer `none` means that the fuel ran out.
unfoldable pub upward_loop :
    MemStore → (Region → Bool) → ℕ → List ℕ → List ℕ → Option (Option Region)
unfolding scan_level first_hit
upward_loop s matches zero visited current = elim current [ [] ↦ some none | _ ∷ _ ↦ none ]
upward_loop s matches (suc fuel) visited current = elim current [
  | [] ↦ some none
  | id ∷ ids ↦
      let l =
        scan_level s matches (id ∷ ids) (record { visited = visited; hits = []; next = [] }) in
      elim l.hits [
        | [] ↦ upward_loop s matches fuel l.visited l.next
        | hit ∷ hits ↦ some (first_hit (hit ∷ hits))
      ]
]

-- Each level but the last visits a registered region.
unfoldable pub bfs_upward_first_match : MemStore → ℕ → (Region → Bool) → Option Region
unfolding upward_loop find_or
bfs_upward_first_match s root matches =
    option_or
      (upward_loop s matches (suc (length s.regions_by_id)) (root ∷ []) (find_or root s.parents []))
      none

unfoldable pub nearest_browseable_ancestor_slug : MemStore → ℕ → Bytes
unfolding bfs_upward_first_match is_default_browse_kind
nearest_browseable_ancestor_slug s root =
    elim (bfs_upward_first_match s root (λ r. is_default_browse_kind r.kind)) [
      | some r ↦ r.slug
      | none ↦ []
    ]

-- Largest org count first, then by name.
unfoldable pub summary_less : RegionSummary → RegionSummary → Bool
unfolding bytes_ltb
summary_less a b =
    if not (nat_eqb a.org_count b.org_count)
    then ltb b.org_count a.org_count
    else bytes_ltb a.region.name b.region.name

-- One round of the loop over the regions: `none` is a region that `continue` skips.
unfoldable pub summary_of :
    MemStore → Table ℕ (List ℕ) → Table ℕ (List ℕ) → ℕ → Region → Option RegionSummary
unfolding is_default_browse_kind is_national bfs_collect_ids count_distinct_orgs find_or
    nearest_browseable_ancestor_slug
summary_of s children orgs id r =
    let count = count_distinct_orgs orgs (bfs_collect_ids s id children) in
    if not (is_default_browse_kind r.kind) || is_national r
    then none
    else if nat_eqb count 0
    then none
    else some (record {
      region = r;
      org_count = count;
      direct_org_count = length (find_or id orgs []);
      browse_parent_slug = nearest_browseable_ancestor_slug s id;
    })

unfoldable pub summaries :
    MemStore → Table ℕ (List ℕ) → Table ℕ (List ℕ) → Table ℕ Region → List RegionSummary
unfolding summary_of
summaries s children orgs [] = []
summaries s children orgs ((id, r) ∷ rest) = elim (summary_of s children orgs id r) [
  | none ↦ summaries s children orgs rest
  | some x ↦ x ∷ summaries s children orgs rest
]

unfoldable pub list_regions : MemStore → List RegionSummary
unfolding summaries build_children_of build_orgs_by_region summary_less sort_by
list_regions s =
    sort_by summary_less
      (summaries s (build_children_of s) (build_orgs_by_region s) s.regions_by_id)
