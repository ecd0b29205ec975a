-- ===== src/Seed/Build/Tests.antt =====
-- A bundle with one country: a state, a city with a postal code, and an org.
use urbanist_atlas.Base.{
  ℕ, ◌≡◌, refl, List, [], ◌∷◌, some, Bytes, bytes_eq, nat_eq, bytes_eqb, lower_byte, upper_byte,
  trim_left, trim_right, codes, ascii_only, find, find_or, In, fold_ok, Result, ok, err,
}
use urbanist_atlas.Atlas.Types.{Region, zero_region, scope_local, scope_regional}
use urbanist_atlas.Atlas.Fields.{UrlParser}
use urbanist_atlas.Atlas.Store.{MemStore, new_mem_store}
use urbanist_atlas.Atlas.Store.Invariant.{apply_writes, Registered}
use urbanist_atlas.Seed.Cycles.{detect_cycles_graph}
use urbanist_atlas.Seed.Orgs.{LocalDate, OrgEntry}
use urbanist_atlas.Seed.Postal.{CsvRecord}
use urbanist_atlas.Seed.Load.{
  CountrySpec, Bundle, SeedError, unknown_leaf, Loading, start_loading, load_country_regions,
}
use urbanist_atlas.Seed.Load.Backward.{load_country_regions-detect_cycles_graph}
use urbanist_atlas.Seed.Build.{build_mem_store_of}
use urbanist_atlas.Seed.Build.Writes.{bundle_writes}
use urbanist_atlas.Seed.Build.Exact.{build_mem_store_of-bundle_writes}
use urbanist_atlas.Seed.Build.Resolved.{build_mem_store_of-Registered}

abbrev state : Region
state = record zero_region {
  slug = codes "ny";
  kind = codes "us:state";
  name = codes "New York";
  scope_tier = scope_regional;
}

abbrev city : Region
city = record zero_region {
  slug = codes "nyc";
  kind = codes "us:city";
  name = codes "NYC";
  scope_tier = scope_local;
  parent_slugs = codes "ny" ∷ [];
  rollup_states = codes "ny" ∷ [];
}

abbrev riders : OrgEntry
riders = record {
  org = record {
    id = 0;
    slug = codes "riders";
    name = codes "Riders";
    short_desc = codes "Riders";
    website_url = codes "w";
    contact_url = [];
    tags = [];
    regions = [];
    matched_region_slugs = [];
    added_at = 0;
  };
  region_slugs = codes "nyc" ∷ [];
  added_at = record { year = 2026; month = 1; day = 2 };
}

abbrev header : CsvRecord
header = record {
  field0 = codes "postal_code";
  field1 = codes "country";
  field2 = codes "leaf_region_slug";
}

-- Every file has one byte, and the decoders know what is in it.
abbrev bundle : Bytes → Bundle
bundle leaf = record {
  read_file = λ path. some (0 ∷ []);
  decode_regions = λ text. some (state ∷ city ∷ []);
  decode_postal = λ text.
      some (header, record { field0 = codes "10001"; field1 = codes "US"; field2 = leaf } ∷ []);
  decode_orgs = λ text. some (riders ∷ []);
}

abbrev one_country : List CountrySpec
one_country = record { code = codes "US"; region_files = codes "us" ∷ []; postal = codes "us" } ∷ []

abbrev one_host : UrlParser
one_host raw = some (record { scheme = codes "https"; host = codes "h"; opaque_part = [] })

abbrev year_alone : LocalDate → ℕ
year_alone d = d.year

abbrev build : Bytes → Result SeedError MemStore
build leaf = build_mem_store_of ascii_only bytes_eqb one_host year_alone (bundle leaf) one_country

abbrev built : MemStore
built = record {
  regions_by_id =
      (1, record state { id = 1; country = codes "US" })
      ∷ (2, record city { id = 2; country = codes "US" })
      ∷ [];
  regions_by_slug = (codes "ny", 1) ∷ (codes "nyc", 2) ∷ [];
  parents = (2, 1 ∷ []) ∷ [];
  orgs = record riders.org { id = 1; added_at = 2026 } ∷ [];
  org_regions = (1, 2 ∷ []) ∷ [];
  postal_to_leaf = (codes "US:10001", 2) ∷ [];
  rollup_by_state = (1, 2 ∷ []) ∷ [];
}

build_done : build (codes "nyc") ≡ ok built
unfolding build_mem_store_of bytes_eqb lower_byte trim_left trim_right upper_byte
build_done = refl

build_stray : build (codes "sf") ≡ err (unknown_leaf (codes "10001") (codes "sf"))
unfolding build_mem_store_of bytes_eqb lower_byte trim_left trim_right upper_byte
build_stray = refl

build_mem_store_of-bundle_writes_example :
    apply_writes ascii_only new_mem_store
      (bundle_writes ascii_only bytes_eqb year_alone (bundle (codes "nyc")) one_country)
    ≡ ok built
build_mem_store_of-bundle_writes_example =
    build_mem_store_of-bundle_writes ascii_only bytes_eqb one_host year_alone (bundle (codes "nyc"))
      one_country built build_done

build_mem_store_of-Registered_example :
    ((key : Bytes) (id : ℕ) → find key built.postal_to_leaf ≡ some id → Registered built id)
    × ((o id : ℕ) → In id (find_or o built.org_regions []) → Registered built id)
build_mem_store_of-Registered_example =
    build_mem_store_of-Registered ascii_only bytes_eqb one_host year_alone (bundle (codes "nyc"))
      one_country built build_done

abbrev regions_read : Loading
regions_read = record {
  store = record built { orgs = []; org_regions = []; postal_to_leaf = []; rollup_by_state = [] };
  region_ids = (codes "ny", 1) ∷ (codes "nyc", 2) ∷ [];
  parent_slugs = (codes "ny", []) ∷ (codes "nyc", codes "ny" ∷ []) ∷ [];
  child_count = (codes "ny", 1) ∷ [];
  local_tier = codes "nyc" ∷ [];
  kinds = (codes "ny", codes "us:state") ∷ (codes "nyc", codes "us:city") ∷ [];
  rollup_sources = record city { id = 2; country = codes "US" } ∷ [];
  next_region_id = 3;
}

regions_read_ok :
    fold_ok (load_country_regions ascii_only (bundle [])) start_loading one_country
    ≡ ok regions_read
unfolding fold_ok load_country_regions start_loading bytes_eqb lower_byte
regions_read_ok = refl

load_country_regions-detect_cycles_graph_example :
    detect_cycles_graph regions_read.parent_slugs ≡ ok tt
load_country_regions-detect_cycles_graph_example =
    load_country_regions-detect_cycles_graph ascii_only (bundle []) one_country regions_read
      regions_read_ok
