-- ===== src/Seed/Assembly/Tests.antt =====
-- Two regions, and the orgs and leaves held against them.
use urbanist_atlas.Base.{
  ℕ, ◌≡◌, ◌↔◌, ◌⊎◌, ◌<◌, refl, List, [], ◌∷◌, some, In, Distinct, Bytes, bytes_eq, Table, find,
  find_or, codes, bytes_eqb, ok, err,
}
use urbanist_atlas.Seed.Assembly.{resolve_org_regions, assert_reachable_leaves}
use urbanist_atlas.Seed.Assembly.Checked.{
  Named, resolve_org_regions_iff, assert_reachable_leaves_iff,
}

abbrev ids : Table Bytes ℕ
ids = (codes "ny", 2) ∷ (codes "nyc", 1) ∷ []

abbrev asked : List Bytes
asked = codes "ny" ∷ codes "nyc" ∷ codes "ny" ∷ []

asked_ids : resolve_org_regions asked ids ≡ ok (1 ∷ 2 ∷ [])
unfolding resolve_org_regions bytes_eqb
asked_ids = refl

lost_leaf : assert_reachable_leaves asked [] (codes "ny" ∷ []) [] ≡ err (codes "nyc" ∷ [])
unfolding assert_reachable_leaves bytes_eqb
lost_leaf = refl

resolve_org_regions_iff_example :
    (((out : List ℕ) × (resolve_org_regions asked ids ≡ ok out))
      ↔ ((s : Bytes) → In s asked → (id : ℕ) × (find s ids ≡ some id)))
    × ((out : List ℕ)
        → resolve_org_regions asked ids ≡ ok out
        → Distinct out × ((id : ℕ) → In id out ↔ Named ids asked id))
resolve_org_regions_iff_example = resolve_org_regions_iff ids asked

assert_reachable_leaves_iff_example :
    (assert_reachable_leaves asked ((codes "ny", 3) ∷ []) (codes "nyc" ∷ []) [] ≡ ok tt) ↔ (
      (slug : Bytes)
      → In slug asked
      → (0 < find_or slug ((codes "ny", 3) ∷ []) 0) ⊎ In slug (codes "nyc" ∷ []) ⊎ In slug [])
assert_reachable_leaves_iff_example =
    assert_reachable_leaves_iff asked ((codes "ny", 3) ∷ []) (codes "nyc" ∷ []) []
