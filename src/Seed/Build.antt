-- ===== src/Seed/Build.antt =====
-- buildMemStore of api/internal/seedfiles/build.go as a whole: the stages behind the regions files. `u`
-- stands for Go's Unicode tables, `parse` for net/url, `equal_fold` for strings.EqualFold, `midnight`
-- for time.Date at the start of a day. The log lines are left out.
pub mod Writes
pub mod Flat
pub mod Numbered
pub mod Stages
pub mod Exact
pub mod Written
pub mod Resolved
pub mod Tests
use urbanist_atlas.Base.{
  ℕ, suc, Bool, true, List, [], ◌∷◌, ◌++◌, none, some, Bytes, bytes_eq, nat_eqb, codes, Unicode,
  Table, find, find_or, if◌then◌else◌, Result, ok, err, ◌>>=◌, wrap, fold_ok,
}
use urbanist_atlas.Atlas.Types.{Region, Org}
use urbanist_atlas.Atlas.Kinds.{is_rollup_target_kind}
use urbanist_atlas.Atlas.Fields.{UrlParser}
use urbanist_atlas.Atlas.Store.{MemStore, add_rollup_state, add_postal_code, add_org}
use urbanist_atlas.Seed.Cycles.{detect_cycles_graph}
use urbanist_atlas.Seed.Orgs.{LocalDate, OrgEntry, validate_orgs}
use urbanist_atlas.Seed.Postal.{PostalRow, parse_postal}
use urbanist_atlas.Seed.Assembly.{resolve_org_regions, assert_reachable_leaves}
use urbanist_atlas.Seed.Load.{
  CountrySpec, countries, Bundle, SeedError, bad_postal, bad_orgs, bad_graph, unknown_rollup_slug,
  bad_rollup_kind, unknown_leaf, unknown_org_regions, added_at_missing, unreachable_leaves,
  not_stored, read_decoded, Loading, start_loading, load_country_regions,
}

-- One target of the rollup_states of `slug`.
unfoldable pub load_rollup :
    Table Bytes ℕ → Table Bytes Bytes → Bytes → MemStore → Bytes → Result SeedError MemStore
unfolding find find_or is_rollup_target_kind add_rollup_state
load_rollup ids kinds slug store target = elim (find target ids) [
  | none ↦ err (unknown_rollup_slug slug target)
  | some id ↦
      if is_rollup_target_kind (find_or target kinds [])
      then ok (add_rollup_state store slug target)
      else err (bad_rollup_kind slug target)
]

unfoldable pub load_rollups :
    Table Bytes ℕ → Table Bytes Bytes → MemStore → Region → Result SeedError MemStore
unfolding fold_ok load_rollup
load_rollups ids kinds store r = fold_ok (load_rollup ids kinds r.slug) store r.rollup_states

-- Stage 2: the store, and the slugs that a postal code names.
pub record Anchored : Type 0 where
  pub store : MemStore
  pub anchored_slugs : List Bytes

unfoldable pub load_postal_row :
    Unicode → Table Bytes ℕ → Anchored → PostalRow → Result SeedError Anchored
unfolding find add_postal_code
load_postal_row u ids a row = elim (find row.leaf_region_slug ids) [
  | none ↦ err (unknown_leaf row.postal_code row.leaf_region_slug)
  | some leaf ↦
      wrap not_stored (add_postal_code u a.store row.country row.postal_code leaf) >>= λ stored.
      ok (record { store = stored; anchored_slugs = row.leaf_region_slug ∷ a.anchored_slugs })
]

unfoldable pub read_postal :
    Unicode → (Bytes → Bytes → Bool) → Bundle → CountrySpec → Result SeedError (List PostalRow)
unfolding read_decoded parse_postal
read_postal u equal_fold fs c =
    read_decoded fs fs.decode_postal (codes "postal_codes_" ++ c.postal ++ codes ".csv")
    >>= λ (header, recs). wrap bad_postal (parse_postal u equal_fold c.code header recs)

unfoldable pub load_country_postal :
    Unicode
    → (Bytes → Bytes → Bool)
    → Bundle
    → Table Bytes ℕ
    → Anchored
    → CountrySpec
    → Result SeedError Anchored
unfolding read_postal fold_ok load_postal_row
load_country_postal u equal_fold fs ids a c =
    read_postal u equal_fold fs c >>= λ rows. fold_ok (load_postal_row u ids) a rows

-- Stage 3: the store, the slugs that an org names, and the next id.
pub record Attached : Type 0 where
  pub store : MemStore
  pub org_slugs : List Bytes
  pub next_org_id : ℕ

unfoldable pub load_org :
    (LocalDate → ℕ) → Table Bytes ℕ → Attached → OrgEntry → Result SeedError Attached
unfolding resolve_org_regions add_org
load_org midnight ids a entry =
    wrap (unknown_org_regions entry.org.slug) (resolve_org_regions entry.region_slugs ids)
    >>= λ region_ids.
        if nat_eqb entry.added_at.year 0
        then err (added_at_missing entry.org.slug)
        else ok (record {
          store =
              add_org a.store
                (record entry.org { id = a.next_org_id; added_at = midnight entry.added_at })
                region_ids;
          org_slugs = entry.region_slugs ++ a.org_slugs;
          next_org_id = suc a.next_org_id;
        })

unfoldable pub read_orgs : Unicode → UrlParser → Bundle → Result SeedError (List OrgEntry)
unfolding read_decoded validate_orgs
read_orgs u parse fs = read_decoded fs fs.decode_orgs (codes "orgs.toml") >>= λ os.
    wrap bad_orgs (validate_orgs u parse os) >>= λ checked. ok os

-- The stages behind the regions files, which are all loaded in `l`.
unfoldable pub finish_build :
    Unicode
    → (Bytes → Bytes → Bool)
    → UrlParser
    → (LocalDate → ℕ)
    → Bundle
    → List CountrySpec
    → Loading
    → Result SeedError MemStore
unfolding detect_cycles_graph fold_ok load_rollups load_country_postal read_orgs load_org
    assert_reachable_leaves
finish_build u equal_fold parse midnight fs country_set l =
    wrap bad_graph (detect_cycles_graph l.parent_slugs) >>= λ acyclic.
    fold_ok (load_rollups l.region_ids l.kinds) l.store l.rollup_sources >>= λ rolled.
    fold_ok (load_country_postal u equal_fold fs l.region_ids)
      (record { store = rolled; anchored_slugs = [] }) country_set
    >>= λ anchored. read_orgs u parse fs >>= λ orgs.
        fold_ok (load_org midnight l.region_ids)
          (record { store = anchored.store; org_slugs = []; next_org_id = 1 }) orgs
        >>= λ attached.
            wrap unreachable_leaves (
              assert_reachable_leaves l.local_tier l.child_count anchored.anchored_slugs
                attached.org_slugs)
            >>= λ reached. ok attached.store

unfoldable pub build_mem_store_of :
    Unicode
    → (Bytes → Bytes → Bool)
    → UrlParser
    → (LocalDate → ℕ)
    → Bundle
    → List CountrySpec
    → Result SeedError MemStore
unfolding fold_ok load_country_regions start_loading finish_build
build_mem_store_of u equal_fold parse midnight fs country_set =
    fold_ok (load_country_regions u fs) start_loading country_set >>= λ l.
    finish_build u equal_fold parse midnight fs country_set l

-- BuildMemStore
unfoldable pub build_mem_store :
    Unicode
    → (Bytes → Bytes → Bool)
    → UrlParser
    → (LocalDate → ℕ)
    → Bundle
    → Result SeedError MemStore
unfolding build_mem_store_of
build_mem_store u equal_fold parse midnight fs =
    build_mem_store_of u equal_fold parse midnight fs countries
