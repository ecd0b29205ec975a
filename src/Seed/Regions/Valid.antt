-- ===== src/Seed/Regions/Valid.antt =====
-- Which regions files validateRegions accepts.
use urbanist_atlas.Base.{
  ℕ, suc, ◌≡◌, ◌≢◌, refl, ◌↔◌, ◌⊎◌, inl, inr, false, List, [], ◌∷◌, none, arith, Bytes, bytes_eq,
  bytes_eqb_iff, map, member_iff, All, All-intro, In, Distinct, fresh_cons_iff, Option-cases, ok, ℤ,
  pos, negsuc, int_ltb,
}
use urbanist_atlas.Atlas.Types.{Region, scope_local, scope_regional, scope_national}
use urbanist_atlas.Seed.Regions.{check_region, region_rows, validate_regions}

-- What a row has to be.
abbrev pub ValidRow : Region → Type 0
ValidRow r =
    (r.slug ≢ [])
    × (r.kind ≢ [])
    × (r.name ≢ [])
    × ((r.scope_tier ≡ scope_local)
        ⊎ (r.scope_tier ≡ scope_regional)
        ⊎ (r.scope_tier ≡ scope_national))
    × ((n : ℕ) × (r.sort_priority ≡ pos n))

not_negative : (z : ℤ) → (int_ltb z (pos 0) ≡ false) ↔ ((n : ℕ) × (z ≡ pos n))
not_negative (pos n) = (λ h. (n, refl), λ h. ground arith)
not_negative (negsuc n) = ground arith

check_region-passes :
    (i : ℕ) (seen : List Bytes) (r : Region)
    → (check_region i seen r ≡ none) ↔ (ValidRow r × (¬ In r.slug seen))
unfolding check_region
check_region-passes i seen r = ground (
  arith,
  bytes_eqb_iff r.slug [],
  bytes_eqb_iff r.kind [],
  bytes_eqb_iff r.name [],
  bytes_eqb_iff r.scope_tier scope_local,
  bytes_eqb_iff r.scope_tier scope_regional,
  bytes_eqb_iff r.scope_tier scope_national,
  member_iff r.slug seen,
  not_negative r.sort_priority,
)

-- The rows behind a row that passes are held against its slug as well.
region_rows_iff :
    (i : ℕ) (seen : List Bytes) (rs : List Region)
    → (region_rows i seen rs ≡ ok tt)
      ↔ (All ValidRow rs × Distinct (map (λ r. r.slug) rs) × All (λ r. ¬ In r.slug seen) rs)
unfolding region_rows
region_rows_iff i seen [] = (λ h. (tt, tt, tt), λ h. refl)
region_rows_iff i seen (r ∷ rs) = elim (Option-cases (check_region i seen r)) [
  | inr (error, e) ↦ (
    λ h. cc (rw (region_rows, e) at h),
    λ (v, d, f). cc (e, (check_region-passes i seen r).1 (v.0, f.0)),
  )
  | inl e ↦
      rw (region_rows, e)
        (
          λ h.
              let (v, d, f) = (region_rows_iff (suc i) (r.slug ∷ seen) rs).0 h in
              let (valid, fresh) = (check_region-passes i seen r).0 e in
              let (apart, older) = (fresh_cons_iff _ r.slug seen rs).0 f in
              ((valid, v), (apart, d), (fresh, older)),
          λ (v, d, f).
              (region_rows_iff (suc i) (r.slug ∷ seen) rs).1
                (v.1, d.1, (fresh_cons_iff _ r.slug seen rs).1 (d.0, f.1)),
        )
]

-- A file passes exactly when it has a row, each row is valid, and no two rows have the same slug.
pub validate_regions_iff :
    (rs : List Region)
    → (validate_regions rs ≡ ok tt)
      ↔ ((rs ≢ []) × All ValidRow rs × Distinct (map (λ r. r.slug) rs))
unfolding validate_regions
validate_regions_iff [] = (λ h. cc, λ h. absurd (h.0 refl))
validate_regions_iff (r ∷ rs) = (
  λ h. let (v, d, f) = (region_rows_iff 0 [] (r ∷ rs)).0 h in (λ e. cc, v, d),
  λ (n, v, d). (region_rows_iff 0 [] (r ∷ rs)).1 (v, d, All-intro _ (r ∷ rs) (λ q i m. m)),
)
