-- ===== src/Atlas/Store.antt =====
-- MemStore of api/pkg/atlas/memstore.go and its writes. The lock makes each method atomic, so a
-- method is a function from the store to the store. `u` stands for Go's Unicode tables.
pub mod Writes
pub mod Invariant
use urbanist_atlas.Base.{
  ℕ, ◌≡◌, Bool, true, false, not, List, [], ◌∷◌, ◌++◌, Option, none, some, Bytes, Unicode, ◌==◌,
  bytes_eq, nat_eq, Table, find, find_or, put, has, member, if◌then◌else◌, Result, ok, err, ◌>>=◌,
  map,
}
use urbanist_atlas.Atlas.Types.{Region, Org}
use urbanist_atlas.Atlas.Postal.{postal_key}

pub record MemStore : Type 0 where
  pub regions_by_id : Table ℕ Region
  pub regions_by_slug : Table Bytes ℕ
  pub parents : Table ℕ (List ℕ)
  pub orgs : List Org
  pub org_regions : Table ℕ (List ℕ)
  pub postal_to_leaf : Table Bytes ℕ
  pub rollup_by_state : Table ℕ (List ℕ)

unfoldable pub new_mem_store : MemStore
new_mem_store = record {
  regions_by_id = [];
  regions_by_slug = [];
  parents = [];
  orgs = [];
  org_regions = [];
  postal_to_leaf = [];
  rollup_by_state = [];
}

pub data StoreError : Type 0 where
  slug_not_lowercase : Bytes → StoreError
  unknown_parent : Bytes → Bytes → StoreError
  duplicate_postal_code : Bytes → Bytes → ℕ → ℕ → StoreError

-- The loop of AddRegion that resolves the parent slugs of the region `slug`.
unfoldable pub parent_ids : Table Bytes ℕ → Bytes → List Bytes → Result StoreError (List ℕ)
unfolding find
parent_ids by_slug slug [] = ok []
parent_ids by_slug slug (ps ∷ rest) = elim (find ps by_slug) [
  | none ↦ err (unknown_parent slug ps)
  | some pid ↦ parent_ids by_slug slug rest >>= λ ids. ok (pid ∷ ids)
]

-- What AddRegion writes once the parents are resolved.
unfoldable pub store_region : MemStore → Region → List ℕ → MemStore
unfolding put
store_region s r [] = record s {
  regions_by_id = put r.id r s.regions_by_id;
  regions_by_slug = put r.slug r.id s.regions_by_slug;
}
store_region s r (p ∷ ps) = record s {
  regions_by_id = put r.id r s.regions_by_id;
  regions_by_slug = put r.slug r.id s.regions_by_slug;
  parents = put r.id (p ∷ ps) s.parents;
}

unfoldable pub add_region : Unicode → MemStore → Region → Result StoreError MemStore
unfolding parent_ids store_region
add_region u s r =
    if not (r.slug == u.to_lower r.slug)
    then err (slug_not_lowercase r.slug)
    else parent_ids s.regions_by_slug r.slug r.parent_slugs >>= λ ids. ok (store_region s r ids)

-- An unregistered slug is ignored, and a metro is recorded once.
unfoldable pub add_rollup_state : MemStore → Bytes → Bytes → MemStore
unfolding find find_or put
add_rollup_state s metro_slug state_slug = elim (find metro_slug s.regions_by_slug) [
  | none ↦ s
  | some metro ↦ elim (find state_slug s.regions_by_slug) [
    | none ↦ s
    | some state ↦
        let metros = find_or state s.rollup_by_state [] in
        if member metro metros
        then s
        else record s { rollup_by_state = put state (metros ++ metro ∷ []) s.rollup_by_state }
  ]
]

unfoldable pub add_org : MemStore → Org → List ℕ → MemStore
unfolding put
add_org s org region_ids = record s {
  orgs = s.orgs ++ record org { regions = []; matched_region_slugs = [] } ∷ [];
  org_regions = put org.id region_ids s.org_regions;
}

unfoldable pub add_postal_code : Unicode → MemStore → Bytes → Bytes → ℕ → Result StoreError MemStore
unfolding find put postal_key
add_postal_code u s country code leaf =
    let key = postal_key u country code in
    let stored = record s { postal_to_leaf = put key leaf s.postal_to_leaf } in
    elim (find key s.postal_to_leaf) [
      | none ↦ ok stored
      | some prev ↦
          if prev == leaf then ok stored else err (duplicate_postal_code country code prev leaf)
    ]

-- Slugs, in one of its orders.
unfoldable pub slugs : MemStore → List Bytes
slugs s = map (λ e. e.0) s.regions_by_slug
