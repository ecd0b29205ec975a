-- ===== src/Atlas/Queries/Stats.antt =====
-- Stats of api/pkg/atlas/memstore.go, whose types are in api/pkg/atlas/stats.go.
use urbanist_atlas.Base.{
  ℕ, suc, Bool, true, false, ◌||◌, List, [], ◌∷◌, ◌++◌, none, some, Bytes, ◌==◌, bytes_eq, nat_eq,
  Table, find, find_or, put, member, length, bytes_ltb, if◌then◌else◌, map,
}
use urbanist_atlas.Base.Sort.{sort_by}
use urbanist_atlas.Atlas.Types.{Region, Org, RegionSummary, is_national}
use urbanist_atlas.Atlas.Store.{MemStore}
use urbanist_atlas.Atlas.Queries.Upward.{list_regions}

pub record CountryStats : Type 0 where
  pub country : Bytes
  pub org_count : ℕ
  pub region_count : ℕ

pub record Stats : Type 0 where
  pub total_org_count : ℕ
  pub total_region_count : ℕ
  pub browse_region_count : ℕ
  pub by_country : List CountryStats

-- `m[c]++`
unfoldable pub bump : Bytes → Table Bytes ℕ → Table Bytes ℕ
unfolding find_or put
bump c m = put c (suc (find_or c m 0)) m

-- The inner loop over an org's regions: whether one is live, and their countries.
unfoldable pub org_countries : MemStore → List ℕ → Bool → List Bytes → Bool × List Bytes
unfolding find is_national
org_countries s [] live countries = (live, countries)
org_countries s (rid ∷ rids) live countries = elim (find rid s.regions_by_id) [
  | none ↦ org_countries s rids live countries
  | some r ↦ elim (is_national r) [
    | true ↦ org_countries s rids live countries
    | false ↦
        org_countries s rids true (
          if r.country == [] || member r.country countries
          then countries
          else r.country ∷ countries)
  ]
]

unfoldable pub bump_all : List Bytes → Table Bytes ℕ → Table Bytes ℕ
unfolding bump
bump_all [] m = m
bump_all (c ∷ cs) m = bump_all cs (bump c m)

unfoldable pub count_orgs : MemStore → List Org → ℕ → Table Bytes ℕ → ℕ × Table Bytes ℕ
unfolding org_countries bump_all find_or
count_orgs s [] total by_country = (total, by_country)
count_orgs s (org ∷ orgs) total by_country =
    let (live, countries) = org_countries s (find_or org.id s.org_regions []) false [] in
    count_orgs s orgs (if live then suc total else total)
      (if live then bump_all countries by_country else by_country)

unfoldable pub count_summaries : List RegionSummary → Table Bytes ℕ → Table Bytes ℕ
unfolding bump
count_summaries [] m = m
count_summaries (x ∷ xs) m =
    count_summaries xs (if x.region.country == [] then m else bump x.region.country m)

unfoldable pub count_live : Table ℕ Region → ℕ
unfolding is_national
count_live [] = 0
count_live ((id, r) ∷ rest) = let live = count_live rest in if is_national r then live else suc live

-- The keys of a map that are not collected yet.
unfoldable pub new_codes : Table Bytes ℕ → List Bytes → List Bytes
new_codes [] seen = seen
new_codes ((c, n) ∷ m) seen = new_codes m (if member c seen then seen else seen ++ c ∷ [])

unfoldable pub stats : MemStore → Stats
unfolding count_orgs list_regions count_summaries count_live new_codes find_or sort_by bytes_ltb
stats s =
    let orgs = count_orgs s s.orgs 0 [] in
    let browse = list_regions s in
    let regions = count_summaries browse [] in
    let seen = sort_by bytes_ltb (new_codes regions (new_codes orgs.1 [])) in
    record {
      total_org_count = orgs.0;
      total_region_count = count_live s.regions_by_id;
      browse_region_count = length browse;
      by_country =
          map
            (λ c. record {
              country = c;
              org_count = find_or c orgs.1 0;
              region_count = find_or c regions 0;
            })
            seen;
    }
