-- ===== src/Seed/Build/Writes.antt =====
-- The writes that a bundle stands for, read off its rows without the loader's maps and checks: what
-- buildMemStore of api/internal/seedfiles/build.go has to hand to the store.
use urbanist_atlas.Base.{
  ℕ, suc, Bool, List, [], ◌∷◌, ◌++◌, Bytes, bytes_eq, codes, Unicode, Table, find_or, put, map,
  Result, ok, err,
}
use urbanist_atlas.Atlas.Types.{Region}
use urbanist_atlas.Atlas.Store.Invariant.{Write, region, rollup_state, org, postal_code}
use urbanist_atlas.Seed.Orgs.{LocalDate, OrgEntry}
use urbanist_atlas.Seed.Postal.{PostalRow}
use urbanist_atlas.Seed.Assembly.{resolve_org_regions}
use urbanist_atlas.Seed.Load.{CountrySpec, Bundle, read_decoded, stamped}
use urbanist_atlas.Seed.Build.{read_postal}

unfoldable pub or_empty {ℓ κ} : {E : Type ℓ} {A : Type κ} → Result E (List A) → List A
or_empty (ok as_read) = as_read
or_empty (err e) = []

unfoldable pub concat_map {ℓ κ} : {A : Type ℓ} {B : Type κ} → (A → List B) → List A → List B
concat_map f [] = []
concat_map f (a ∷ rest) = f a ++ concat_map f rest

-- The rows of one regions file, with the country.
unfoldable pub file_rows : Bundle → Bytes → Bytes → List (Bytes × Region)
file_rows fs code suffix =
    map (λ r. (code, r))
      (or_empty (read_decoded fs fs.decode_regions (codes "regions_" ++ suffix ++ codes ".toml")))

-- Those of all countries, in load order.
unfoldable pub country_rows : Bundle → CountrySpec → List (Bytes × Region)
country_rows fs c = concat_map (file_rows fs c.code) c.region_files

-- The regions are numbered through.
unfoldable pub region_writes : ℕ → List (Bytes × Region) → List Write
region_writes n [] = []
region_writes n ((code, r) ∷ rows) = region (stamped code n r) ∷ region_writes (suc n) rows

unfoldable pub number_slugs : Table Bytes ℕ → ℕ → List (Bytes × Region) → Table Bytes ℕ
number_slugs ids n [] = ids
number_slugs ids n ((code, r) ∷ rows) = number_slugs (put r.slug n ids) (suc n) rows

-- A region and each of its rollup states.
unfoldable pub rollups_of : Region → List (Bytes × Bytes)
rollups_of r = map (λ target. (r.slug, target)) r.rollup_states

abbrev pub rollup_write : Bytes × Bytes → Write
rollup_write (slug, target) = rollup_state slug target

unfoldable pub postal_write : Table Bytes ℕ → PostalRow → Write
postal_write ids row = postal_code row.country row.postal_code (find_or row.leaf_region_slug ids 0)

unfoldable pub org_writes : (LocalDate → ℕ) → Table Bytes ℕ → ℕ → List OrgEntry → List Write
org_writes midnight ids n [] = []
org_writes midnight ids n (entry ∷ entries) =
    org (record entry.org { id = n; added_at = midnight entry.added_at })
      (or_empty (resolve_org_regions entry.region_slugs ids))
    ∷ org_writes midnight ids (suc n) entries

unfoldable pub country_postal :
    Unicode → (Bytes → Bytes → Bool) → Bundle → CountrySpec → List PostalRow
country_postal u equal_fold fs c = or_empty (read_postal u equal_fold fs c)

unfoldable pub bundle_writes :
    Unicode → (Bytes → Bytes → Bool) → (LocalDate → ℕ) → Bundle → List CountrySpec → List Write
bundle_writes u equal_fold midnight fs cs =
    let rows = concat_map (country_rows fs) cs in
    let ids = number_slugs [] 1 rows in
    region_writes 1 rows
    ++ (map rollup_write (concat_map (λ q. rollups_of q.1) rows)
        ++ (map (postal_write ids) (concat_map (country_postal u equal_fold fs) cs)
            ++ org_writes midnight ids 1
                (or_empty (read_decoded fs fs.decode_orgs (codes "orgs.toml")))))
