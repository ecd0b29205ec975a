-- ===== src/Seed/Regions/Tests.antt =====
-- A regions file with two rows.
use urbanist_atlas.Base.{
  ◌≡◌, ◌≢◌, ◌↔◌, refl, List, [], ◌∷◌, map, All, Distinct, ok, err, codes, bytes_eqb, negsuc,
}
use urbanist_atlas.Atlas.Types.{Region, zero_region, scope_local}
use urbanist_atlas.Seed.Regions.{validate_regions, duplicate_slug, negative_priority}
use urbanist_atlas.Seed.Regions.Valid.{ValidRow, validate_regions_iff}

abbrev row : Region
row = record zero_region {
  slug = codes "nyc";
  kind = codes "us:city";
  name = codes "New York";
  scope_tier = scope_local;
}

abbrev rows : List Region
rows = row ∷ record row { slug = codes "albany" } ∷ []

rows_ok : validate_regions rows ≡ ok tt
unfolding validate_regions bytes_eqb
rows_ok = refl

twice : validate_regions (row ∷ row ∷ []) ≡ err (duplicate_slug 1)
unfolding validate_regions bytes_eqb
twice = refl

negative :
    validate_regions (record row { sort_priority = negsuc 0 } ∷ []) ≡ err (negative_priority 0)
unfolding validate_regions bytes_eqb
negative = refl

validate_regions_iff_example :
    (validate_regions rows ≡ ok tt)
    ↔ ((rows ≢ []) × All ValidRow rows × Distinct (map (λ r. r.slug) rows))
validate_regions_iff_example = validate_regions_iff rows
