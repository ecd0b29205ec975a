-- ===== src/Atlas/Tests.antt =====
-- A small store, the runs of the read methods on it, and the theorems at it: Manhattan under New York
-- City under New York, under a national region.
use urbanist_atlas.Base.{
  nat_eq, bytes_eq, ℕ, ◌≡◌, refl, ◌↔◌, inl, inr, true, List, [], ◌∷◌, ◌++◌, some, map, Bytes, codes,
  ascii_only, pos, bytes_eqb, find, find_or, put, lower_byte, upper_byte, trim_left, trim_right, ok,
  In,
}
use urbanist_atlas.Atlas.Types.{RegionSearchResult}
use urbanist_atlas.Base.{◌≤◌, length}
use urbanist_atlas.Atlas.Postal.{is_military_postal_code}
use urbanist_atlas.Atlas.Search.{max_region_search_limit, search_regions}
use urbanist_atlas.Atlas.Search.Ranked.{Hit, search_regions-Hit}
use urbanist_atlas.Atlas.Types.{Region, Org, LookupQuery, LookupResult}
use urbanist_atlas.Atlas.Store.{MemStore, new_mem_store}
use urbanist_atlas.Atlas.Store.Invariant.{
  Write, region, org, postal_code, apply_writes, IsClosed, apply_writes-IsClosed,
}
use urbanist_atlas.Atlas.Graph.{bfs_collect_ids, bfs_loop, bfs_fuel}
use urbanist_atlas.Atlas.Graph.Reach.{Reach}
use urbanist_atlas.Atlas.Graph.Walk.{bfs_collect_ids_iff_Reach, bfs_loop_ends}
use urbanist_atlas.Atlas.Lookup.{lookup_orgs, lookup_from, scope_of}
use urbanist_atlas.Atlas.Lookup.Surface.{Surfaces, Advocates, result_tier, lookup_orgs-Surfaces}
use urbanist_atlas.Atlas.Buckets.{Tier, statewide_tier, regional_tier, bucket_orgs_by_scope}
use urbanist_atlas.Atlas.Buckets.Matches.{InTier, surfaced}
use urbanist_atlas.Atlas.Buckets.Tiers.{tier_list, In-bucket_orgs_by_scope}
use urbanist_atlas.Atlas.Store.{add_region}
use urbanist_atlas.Atlas.Store.Writes.{apply_writes-postal, add_region-stale_parents}
use urbanist_atlas.Atlas.Graph.{build_children_of, walkable}
use urbanist_atlas.Atlas.Graph.Built.{built-descendant_iff_ancestor}
use urbanist_atlas.Atlas.Lookup.{region_detail}
use urbanist_atlas.Atlas.Lookup.Detail.{ListedFor, detail_tier, In-region_detail}
use urbanist_atlas.Atlas.Queries.{descendant_regions, rollup_metros_for}
use urbanist_atlas.Atlas.Queries.{resolve_leaf_region, ancestor_regions, with_regions}

abbrev area : ℕ → Bytes → Bytes → Bytes → List Bytes → ℕ → Region
area id kind slug tier parents priority = record {
  id = id;
  kind = kind;
  name = slug;
  slug = slug;
  country = codes "US";
  scope_tier = tier;
  parent_slugs = parents;
  sort_priority = pos priority;
  rollup_states = [];
}

abbrev transit : Org
transit = record {
  id = 1;
  slug = codes "transit";
  name = codes "Transit";
  short_desc = [];
  website_url = [];
  contact_url = [];
  tags = [];
  regions = [];
  matched_region_slugs = [];
  added_at = 5;
}

abbrev housing : Org
housing = record transit { id = 2; slug = codes "housing"; name = codes "Housing" }

abbrev us : Region
us = area 1 (codes "us:country") (codes "us") (codes "national") [] 90

abbrev ny : Region
ny = area 2 (codes "us:state") (codes "ny") (codes "regional") (codes "us" ∷ []) 60

abbrev nyc : Region
nyc = area 3 (codes "us:city") (codes "nyc") (codes "regional") (codes "ny" ∷ []) 20

abbrev manhattan : Region
manhattan = area 4 (codes "us:borough") (codes "manhattan") (codes "local") (codes "nyc" ∷ []) 10

abbrev writes : List Write
writes =
    region us
    ∷ region ny
    ∷ region nyc
    ∷ region manhattan
    ∷ postal_code (codes "US") (codes "10001") 4
    ∷ org transit (3 ∷ [])
    ∷ org housing (2 ∷ 1 ∷ [])
    ∷ []

abbrev sample : MemStore
sample = record {
  regions_by_id = (1, us) ∷ (2, ny) ∷ (3, nyc) ∷ (4, manhattan) ∷ [];
  regions_by_slug =
      (codes "us", 1) ∷ (codes "ny", 2) ∷ (codes "nyc", 3) ∷ (codes "manhattan", 4) ∷ [];
  parents = (2, 1 ∷ []) ∷ (3, 2 ∷ []) ∷ (4, 3 ∷ []) ∷ [];
  orgs = transit ∷ housing ∷ [];
  org_regions = (1, 3 ∷ []) ∷ (2, 2 ∷ 1 ∷ []) ∷ [];
  postal_to_leaf = (codes "US:10001", 4) ∷ [];
  rollup_by_state = [];
}

sample_built : apply_writes ascii_only new_mem_store writes ≡ ok sample
unfolding apply_writes new_mem_store bytes_eqb lower_byte upper_byte trim_left trim_right
sample_built = refl

sample-IsClosed : IsClosed sample
sample-IsClosed = apply_writes-IsClosed ascii_only sample writes sample_built

sample_walk : bfs_collect_ids sample 4 sample.parents ≡ 4 ∷ 3 ∷ 2 ∷ []
unfolding bfs_collect_ids bytes_eqb
sample_walk = refl

abbrev sample_query : LookupQuery
sample_query = record { postal_code = codes "10001-1234"; country = codes "US" }

nyc_listed : In nyc (lookup_from sample sample_query manhattan).resolved_ancestry
unfolding lookup_from bytes_eqb
nyc_listed = inr (inl refl)

sample_lookup :
    (res : LookupResult) × (lookup_orgs ascii_only sample sample_query ≡ some res)
    × (map (λ o. o.slug) res.statewide ≡ codes "housing" ∷ [])
    × (map (λ o. o.slug) res.regional ≡ codes "transit" ∷ [])
    × (res.resolved_place_label ≡ codes "manhattan" ++ (32 ∷ 0xe2 ∷ 0x80 ∷ 0x94 ∷ 32 ∷ codes "nyc"))
unfolding lookup_orgs bytes_eqb lower_byte upper_byte trim_left trim_right
sample_lookup = (_, refl, refl, refl, refl)

bfs_collect_ids_iff_Reach_example :
    In 2 (bfs_collect_ids sample 4 sample.parents) ↔ Reach sample sample.parents 4 2
bfs_collect_ids_iff_Reach_example = bfs_collect_ids_iff_Reach sample 4 sample.parents 2

bfs_loop_ends_example :
    bfs_loop sample sample.parents (bfs_fuel sample sample.parents) [] [] (4 ∷ [])
    ≡ some (bfs_collect_ids sample 4 sample.parents)
bfs_loop_ends_example = bfs_loop_ends sample 4 sample.parents

In-bucket_orgs_by_scope_example :
    In (surfaced ((3, nyc) ∷ []) (with_regions sample transit)) (
      tier_list regional_tier
        (bucket_orgs_by_scope ((3, nyc) ∷ []) (with_regions sample transit ∷ [])))
    ↔ ((o : Org) × In o (with_regions sample transit ∷ [])
        × InTier ((3, nyc) ∷ []) o regional_tier
        × (surfaced ((3, nyc) ∷ []) (with_regions sample transit) ≡ surfaced ((3, nyc) ∷ []) o))
In-bucket_orgs_by_scope_example =
    In-bucket_orgs_by_scope ((3, nyc) ∷ []) (with_regions sample transit ∷ []) regional_tier
      (surfaced ((3, nyc) ∷ []) (with_regions sample transit))

lookup_orgs-Surfaces_example :
    (leaf : Region) × (resolve_leaf_region ascii_only sample sample_query.country
        sample_query.postal_code
      ≡ some leaf)
    × ((t : Tier) (o : Org)
        → In o (result_tier t sample_lookup.0) ↔ (
            (x : Org) × In x sample.orgs
            × Surfaces (Advocates sample leaf.id x) t
            × (o
                ≡ surfaced
                    (scope_of (ancestor_regions sample leaf.id) [])
                    (with_regions sample x))))
lookup_orgs-Surfaces_example =
    lookup_orgs-Surfaces sample sample-IsClosed.ids ascii_only sample_query sample_lookup.0
      sample_lookup.1

apply_writes-IsClosed_example : IsClosed sample
apply_writes-IsClosed_example = apply_writes-IsClosed ascii_only sample writes sample_built

walkable_ny : walkable sample ny.id ≡ true
unfolding walkable bytes_eqb
walkable_ny = refl

-- Housing on the page of New York, with the regions that matched.
abbrev listed_housing : Org
listed_housing =
    surfaced (scope_of (descendant_regions sample ny.id ++ rollup_metros_for sample ny.id) [])
      (with_regions sample housing)

In-region_detail_example :
    In listed_housing (detail_tier statewide_tier (region_detail sample ny)) ↔ (
      (org : Org) × In org sample.orgs
      × Surfaces (ListedFor sample ny.id org) statewide_tier
      × (listed_housing
          ≡ surfaced
              (scope_of (descendant_regions sample ny.id ++ rollup_metros_for sample ny.id) [])
              (with_regions sample org)))
In-region_detail_example =
    In-region_detail sample sample-IsClosed.ids ny walkable_ny statewide_tier listed_housing

built-descendant_iff_ancestor_example :
    Reach sample (build_children_of sample) 2 4 ↔ Reach sample sample.parents 4 2
built-descendant_iff_ancestor_example =
    built-descendant_iff_ancestor ascii_only sample writes 2 4 sample_built

-- A region that takes an id over, without parents.
abbrev orphan : Region
orphan = area 4 (codes "us:borough") (codes "kings") (codes "local") [] 10

-- More writes, after the sample.
abbrev later : List Write
later = postal_code (codes "US") (codes "10001") 4 ∷ region orphan ∷ []

abbrev after_later : MemStore
after_later = record sample {
  regions_by_id = (1, us) ∷ (2, ny) ∷ (3, nyc) ∷ (4, orphan) ∷ [];
  regions_by_slug =
      (codes "us", 1)
      ∷ (codes "ny", 2)
      ∷ (codes "nyc", 3)
      ∷ (codes "manhattan", 4)
      ∷ (codes "kings", 4)
      ∷ [];
}

later_built : apply_writes ascii_only sample later ≡ ok after_later
unfolding apply_writes bytes_eqb lower_byte upper_byte trim_left trim_right put find
later_built = refl

apply_writes-postal_example : find (codes "US:10001") after_later.postal_to_leaf ≡ some 4
unfolding find bytes_eqb
apply_writes-postal_example =
    apply_writes-postal ascii_only sample after_later later (codes "US:10001") 4 later_built refl

orphan_added : add_region ascii_only sample orphan ≡ ok after_later
unfolding add_region bytes_eqb lower_byte put find
orphan_added = refl

add_region-stale_parents_example :
    (find 4 after_later.regions_by_id ≡ some orphan)
    × (find_or 4 after_later.parents [] ≡ find_or 4 sample.parents [])
add_region-stale_parents_example =
    add_region-stale_parents ascii_only sample after_later orphan refl orphan_added

apo : is_military_postal_code (codes "US") (codes "09012") ≡ true
unfolding is_military_postal_code bytes_eqb
apo = refl

sample_search :
    map (λ x. x.region.slug) (search_regions ascii_only sample (codes " NY ") (pos 0))
    ≡ codes "ny" ∷ codes "nyc" ∷ []
unfolding search_regions bytes_eqb lower_byte trim_left trim_right
sample_search = refl

search_regions-Hit_example :
    (length (search_regions ascii_only sample (codes " NY ") (pos 0)) ≤ max_region_search_limit)
    × ((x : RegionSearchResult)
        → In x (search_regions ascii_only sample (codes " NY ") (pos 0))
        → (rank : ℕ) × Hit ascii_only
            (ascii_only.to_lower (ascii_only.trim_space (codes " NY ")))
            sample.regions_by_id
            x.region
            rank)
search_regions-Hit_example = search_regions-Hit ascii_only sample (codes " NY ") (pos 0)
