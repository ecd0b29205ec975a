-- ===== src/Seed/Load.antt =====
-- buildMemStore of api/internal/seedfiles/build.go up to the graph check: the regions files of every
-- country, in load order. What reads the bundle is a parameter: fs.FS with io.ReadAll, and the TOML and
-- CSV decoders, which answer `none` for a text that they cannot read in full. The maps of the function
-- are the fields of `Loading`; a Go map to true is the list of its keys.
pub mod Rounds
pub mod Backward
use urbanist_atlas.Base.{
  ℕ, suc, Bool, true, List, [], ◌∷◌, ◌++◌, Option, none, some, Bytes, bytes_eq, ◌==◌, codes,
  Unicode, Table, find, find_or, put, has, if◌then◌else◌, Result, ok, err, ◌>>=◌, wrap, fold_ok,
}
use urbanist_atlas.Atlas.Types.{Region, scope_local}
use urbanist_atlas.Atlas.Store.{MemStore, new_mem_store, StoreError, add_region}
use urbanist_atlas.Seed.Regions.{RegionError, validate_regions}
use urbanist_atlas.Seed.Cycles.{Parents, Stopped, detect_cycles}
use urbanist_atlas.Seed.Orgs.{OrgEntry, OrgError}
use urbanist_atlas.Seed.Postal.{CsvRecord, PostalRowError}

pub record CountrySpec : Type 0 where
  pub code : Bytes
  pub region_files : List Bytes
  pub postal : Bytes

-- The countries that BuildMemStore loads.
abbrev pub countries : List CountrySpec
countries =
    record {
      code = codes "US";
      region_files = codes "us_states" ∷ codes "us_multistate" ∷ codes "us_msas" ∷ codes "us" ∷ [];
      postal = codes "us";
    }
    ∷ record {
      code = codes "CA";
      region_files = codes "ca_provinces" ∷ codes "ca_cmas" ∷ codes "ca" ∷ [];
      postal = codes "ca";
    }
    ∷ []

pub record Bundle : Type 0 where
  pub read_file : Bytes → Option Bytes
  pub decode_regions : Bytes → Option (List Region)
  pub decode_postal : Bytes → Option (CsvRecord × List CsvRecord)
  pub decode_orgs : Bytes → Option (List OrgEntry)

pub data SeedError : Type 0 where
  file_missing empty_file undecodable : Bytes → SeedError
  bad_regions : RegionError → SeedError
  bad_postal : PostalRowError → SeedError
  bad_orgs : OrgError → SeedError
  bad_graph : Stopped → SeedError
  repeated_region : Bytes → SeedError
  unknown_parent_slug unknown_rollup_slug bad_rollup_kind : Bytes → Bytes → SeedError
  unknown_leaf : Bytes → Bytes → SeedError
  unknown_org_regions : Bytes → List Bytes → SeedError
  added_at_missing : Bytes → SeedError
  unreachable_leaves : List Bytes → SeedError
  not_stored : StoreError → SeedError

-- readRegions, readPostal and readOrgs up to the checks on what the decoder gives.
unfoldable pub read_decoded :
    {A : Type 0} → Bundle → (Bytes → Option A) → Bytes → Result SeedError A
read_decoded fs decode path = elim (fs.read_file path) [
  | none ↦ err (file_missing path)
  | some [] ↦ err (empty_file path)
  | some (b ∷ bs) ↦ elim (decode (b ∷ bs)) [ none ↦ err (undecodable path) | some a ↦ ok a ]
]

unfoldable pub read_regions : Bundle → Bytes → Result SeedError (List Region)
unfolding read_decoded validate_regions
read_regions fs path = read_decoded fs fs.decode_regions path >>= λ rs.
    wrap bad_regions (validate_regions rs) >>= λ checked. ok rs

-- The maps that stage 1 fills.
pub record Loading : Type 0 where
  pub store : MemStore
  pub region_ids : Table Bytes ℕ
  pub parent_slugs : Parents
  pub child_count : Table Bytes ℕ
  pub local_tier : List Bytes
  pub kinds : Table Bytes Bytes
  pub rollup_sources : List Region
  pub next_region_id : ℕ

unfoldable pub start_loading : Loading
unfolding new_mem_store
start_loading = record {
  store = new_mem_store;
  region_ids = [];
  parent_slugs = [];
  child_count = [];
  local_tier = [];
  kinds = [];
  rollup_sources = [];
  next_region_id = 1;
}

-- One round of the loop over the parents of `slug`.
unfoldable pub count_child :
    Table Bytes ℕ → Bytes → Table Bytes ℕ → Bytes → Result SeedError (Table Bytes ℕ)
unfolding find find_or put
count_child ids slug counts ps = elim (find ps ids) [
  | none ↦ err (unknown_parent_slug slug ps)
  | some id ↦ ok (put ps (suc (find_or ps counts 0)) counts)
]

-- The row with its id and country.
abbrev pub stamped : Bytes → ℕ → Region → Region
stamped code id r = record r { id = id; country = code }

-- What a round over the rows of a file leaves behind.
unfoldable pub loaded : Loading → Region → Table Bytes ℕ → MemStore → Loading
unfolding put
loaded l r counts stored = record {
  store = stored;
  region_ids = put r.slug l.next_region_id l.region_ids;
  parent_slugs = put r.slug r.parent_slugs l.parent_slugs;
  child_count = counts;
  local_tier = if r.scope_tier == scope_local then r.slug ∷ l.local_tier else l.local_tier;
  kinds = put r.slug r.kind l.kinds;
  rollup_sources = elim r.rollup_states [
    | [] ↦ l.rollup_sources
    | t ∷ ts ↦ l.rollup_sources ++ r ∷ []
  ];
  next_region_id = suc l.next_region_id;
}

unfoldable pub load_region : Unicode → Bytes → Loading → Region → Result SeedError Loading
unfolding has fold_ok count_child add_region loaded
load_region u code l row =
    let r = stamped code l.next_region_id row in
    if has r.slug l.region_ids
    then err (repeated_region r.slug)
    else fold_ok (count_child l.region_ids r.slug) l.child_count r.parent_slugs >>= λ counts.
        wrap not_stored (add_region u l.store r) >>= λ stored. ok (loaded l r counts stored)

-- One file of a country.
unfoldable pub load_region_file :
    Unicode → Bundle → Bytes → Loading → Bytes → Result SeedError Loading
unfolding read_regions detect_cycles fold_ok load_region
load_region_file u fs code l suffix =
    read_regions fs (codes "regions_" ++ suffix ++ codes ".toml") >>= λ rs.
    wrap bad_graph (detect_cycles rs) >>= λ acyclic. fold_ok (load_region u code) l rs

unfoldable pub load_country_regions :
    Unicode → Bundle → Loading → CountrySpec → Result SeedError Loading
unfolding fold_ok load_region_file
load_country_regions u fs l c = fold_ok (load_region_file u fs c.code) l c.region_files
