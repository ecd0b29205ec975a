-- ===== src/Atlas/Lookup.antt =====
-- Lookup of api/pkg/atlas/lookup.go and GetRegion of api/pkg/atlas/region.go, over MemStore. MemStore's
-- walks return no error, so the error of Lookup is the unknown postal code.
pub mod Scope
pub mod Surface
pub mod Detail
use urbanist_atlas.Base.{
  ℕ, ℤ, pos, int_leb, Bool, true, false, not, ◌&&◌, ◌||◌, List, [], ◌∷◌, ◌++◌, Option, none, some,
  Bytes, codes, Unicode, ◌==◌, bytes_eq, nat_eq, Table, put, map, member, if◌then◌else◌,
}
use urbanist_atlas.Atlas.Types.{Region, LookupQuery, LookupResult, RegionDetail, scope_regional}
use urbanist_atlas.Atlas.Kinds.{is_metro_kind}
use urbanist_atlas.Atlas.Store.{MemStore}
use urbanist_atlas.Atlas.Buckets.{bucket_orgs_by_scope}
use urbanist_atlas.Atlas.Queries.{
  resolve_leaf_region, ancestor_regions, resolve_region_by_slug, descendant_regions,
  rollup_metros_for, orgs_for_regions,
}

-- `for _, r := range rs { inScope[r.ID] = r }`
unfoldable pub scope_of : List Region → Table ℕ Region → Table ℕ Region
unfolding put
scope_of [] scope = scope
scope_of (r ∷ rs) scope = scope_of rs (put r.id r scope)

unfoldable pub first_metro : List Region → Option Region
unfolding is_metro_kind
first_metro [] = none
first_metro (r ∷ rs) = if is_metro_kind r.kind then some r else first_metro rs

unfoldable pub first_regional : List Region → Option Region
first_regional [] = none
first_regional (r ∷ rs) = if r.scope_tier == scope_regional then some r else first_regional rs

-- The loops start at index 1.
unfoldable pub pick_broad_ancestor : List Region → Option Region
unfolding first_metro first_regional
pick_broad_ancestor [] = none
pick_broad_ancestor (leaf ∷ ancestors) = elim (first_metro ancestors) [
  | some r ↦ some r
  | none ↦ first_regional ancestors
]

unfoldable pub same_slug : Region → Option Region → Bool
same_slug r none = false
same_slug r (some b) = r.slug == b.slug

unfoldable pub first_inner : Region → Option Region → List Region → Option Region
unfolding same_slug
first_inner leaf broad [] = none
first_inner leaf broad (r ∷ rs) =
    if r.slug == leaf.slug || same_slug r broad || int_leb (pos 60) r.sort_priority
    then first_inner leaf broad rs
    else some r

unfoldable pub pick_inner_ancestor : List Region → Region → Option Region → Option Region
unfolding first_inner
pick_inner_ancestor [] leaf broad = none
pick_inner_ancestor (first ∷ ancestors) leaf broad = first_inner leaf broad ancestors

-- " — ": a space, an em dash in UTF-8, a space.
abbrev em_dash : Bytes
em_dash = 32 ∷ 0xe2 ∷ 0x80 ∷ 0x94 ∷ 32 ∷ []

unfoldable pub format_label : Region → Option Region → Option Region → Bytes
format_label leaf (some inner) (some broad) =
    leaf.name ++ codes ", " ++ inner.name ++ em_dash ++ broad.name
format_label leaf none (some broad) = leaf.name ++ em_dash ++ broad.name
format_label leaf (some inner) none = leaf.name ++ codes ", " ++ inner.name
format_label leaf none none = leaf.name

unfoldable pub place_label : List Region → Bytes
unfolding pick_broad_ancestor pick_inner_ancestor format_label
place_label [] = []
place_label (leaf ∷ ancestors) =
    let broad = pick_broad_ancestor (leaf ∷ ancestors) in
    format_label leaf (pick_inner_ancestor (leaf ∷ ancestors) leaf broad) broad

-- What Lookup answers from the leaf region on.
unfoldable pub lookup_from : MemStore → LookupQuery → Region → LookupResult
unfolding ancestor_regions orgs_for_regions bucket_orgs_by_scope scope_of place_label
lookup_from s query leaf =
    let ancestry = ancestor_regions s leaf.id in
    let buckets =
      bucket_orgs_by_scope (scope_of ancestry []) (orgs_for_regions s (map (λ r. r.id) ancestry)) in
    record {
      query = query;
      resolved_place_label = place_label ancestry;
      resolved_ancestry = ancestry;
      local = buckets.local;
      regional = buckets.regional;
      statewide = buckets.statewide;
    }

unfoldable pub lookup_orgs : Unicode → MemStore → LookupQuery → Option LookupResult
unfolding resolve_leaf_region lookup_from
lookup_orgs u s query = elim (resolve_leaf_region u s query.country query.postal_code) [
  | none ↦ none
  | some leaf ↦ some (lookup_from s query leaf)
]

-- `ancestors[1:]`
unfoldable pub but_first : List Region → List Region
but_first [] = []
but_first (focus ∷ ancestors) = ancestors

unfoldable pub add_names : List Bytes → List Region → Table Bytes Bytes → Table Bytes Bytes
unfolding put
add_names skip [] names = names
add_names skip (r ∷ rs) names =
    add_names skip rs (if member r.slug skip then names else put r.slug r.name names)

unfoldable pub region_detail : MemStore → Region → RegionDetail
unfolding descendant_regions rollup_metros_for ancestor_regions orgs_for_regions
    bucket_orgs_by_scope scope_of but_first add_names
region_detail s region =
    let descendants = descendant_regions s region.id in
    let rollups = rollup_metros_for s region.id in
    let ancestors = ancestor_regions s region.id in
    let in_scope = scope_of rollups (scope_of descendants []) in
    let buckets = bucket_orgs_by_scope in_scope (orgs_for_regions s (map (λ e. e.0) in_scope)) in
    let skip = region.slug ∷ map (λ r. r.slug) ancestors in
    record {
      region = region;
      local = buckets.local;
      regional = buckets.regional;
      statewide = buckets.statewide;
      ancestry = but_first ancestors;
      descendant_region_names = add_names skip rollups (add_names skip descendants []);
    }

-- `none` is the answer (nil, nil).
unfoldable pub get_region : Unicode → MemStore → Bytes → Option RegionDetail
unfolding resolve_region_by_slug region_detail
get_region u s slug = elim (resolve_region_by_slug u s slug) [
  | none ↦ none
  | some region ↦ some (region_detail s region)
]
