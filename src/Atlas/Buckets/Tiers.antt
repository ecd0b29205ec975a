-- ===== src/Atlas/Buckets/Tiers.antt =====
-- Which orgs BucketOrgsByScope puts into which tier.
use urbanist_atlas.Base.{
  ℕ, ◌≡◌, refl, sym, ◌⊎◌, inl, inr, ◌↔◌, List, [], ◌∷◌, none, some, map, arith, bytes_eq, nat_eq,
  Table, In, In-concat, In-map, In-map_inv, Option-cases, List-cases, some_inj, subst, ap, ◌∙◌,
}
use urbanist_atlas.Base.Sort.{In-sort_by}
use urbanist_atlas.Atlas.Types.{Region, Org}
use urbanist_atlas.Atlas.Buckets.{
  ScopeBucketed, Tier, local_tier, statewide_tier, regional_tier, matched_regions, tier_of,
  bucket_org, ScopeBuckets, add_to_tier, bucket_loop, scope_less, extract_scope_orgs, no_buckets,
  OrgBuckets, sort_scope_buckets, bucket_orgs_by_scope,
}
use urbanist_atlas.Atlas.Buckets.Matches.{
  InTier, surfaced, any_match, no_match, InTier-tier_of, InTier-unique, InTier-match,
}

abbrev pub tier_list : Tier → OrgBuckets → List Org
tier_list local_tier b = b.local
tier_list statewide_tier b = b.statewide
tier_list regional_tier b = b.regional

abbrev bucket_list : Tier → ScopeBuckets → List ScopeBucketed
bucket_list local_tier b = b.local
bucket_list statewide_tier b = b.statewide
bucket_list regional_tier b = b.regional

extracted :
    (o : Org) (bs : List ScopeBucketed)
    → In o (extract_scope_orgs (sort_scope_buckets bs))
      ↔ ((b : ScopeBucketed) × In b bs × (o ≡ b.org))
unfolding extract_scope_orgs sort_scope_buckets
extracted o bs = (
  λ m.
      let (b, k, e) = In-map_inv (λ b. b.org) o (sort_scope_buckets bs) m in
      (b, (In-sort_by scope_less b bs).0 k, e),
  λ (b, k, e).
      rw e (In-map (λ b. b.org) b (sort_scope_buckets bs) ((In-sort_by scope_less b bs).1 k)),
)

module _ (scope : Table ℕ Region) where
  bucket_org_sound :
      (org : Org) (t : Tier) (b : ScopeBucketed)
      → bucket_org scope org ≡ some (t, b)
      → InTier scope org t × (b.org ≡ surfaced scope org)
  unfolding bucket_org surfaced
  bucket_org_sound org t b h = elim (List-cases (matched_regions scope org.regions)) [
    | inl e ↦ cc (rw (e, bucket_org) at h)
    | inr (m, ms, e) ↦
        let pair = some_inj (rw (e, bucket_org) at h) in
        (
          subst (InTier scope org) (ap (λ p. p.0) pair) (
              subst (λ l. InTier scope org (tier_of l)) e
                (InTier-tier_of scope org (any_match scope org m ms e))),
          sym (ap (λ p. p.1.org) pair)
              ∙ ap (λ l. record org { matched_region_slugs = map (λ r. r.slug) l }) (sym e),
        )
  ]

  bucket_org-none :
      (org : Org) → bucket_org scope org ≡ none → matched_regions scope org.regions ≡ []
  unfolding bucket_org
  bucket_org-none org h = elim (List-cases (matched_regions scope org.regions)) [
    | inl e ↦ e
    | inr (m, ms, e) ↦ cc (rw (e, bucket_org) at h)
  ]

  bucket_org_complete :
      (org : Org) (t : Tier)
      → InTier scope org t
      → (b : ScopeBucketed) × (bucket_org scope org ≡ some (t, b)) × (b.org ≡ surfaced scope org)
  bucket_org_complete org t h = elim (Option-cases (bucket_org scope org)) [
    | inl e ↦ absurd (
        no_match scope org (InTier-match scope org t h).0 (bucket_org-none org e)
          (InTier-match scope org t h).1)
    | inr ((t', b), e) ↦
        let (tier, o) = bucket_org_sound org t' b e in
        (b, rw (InTier-unique scope org t t' h tier) e, o)
  ]

  In-add_to_tier :
      (t t' : Tier) (b b' : ScopeBucketed) (acc : ScopeBuckets)
      → In b (bucket_list t (add_to_tier t' b' acc))
        ↔ (In b (bucket_list t acc) ⊎ (t ≡ t') × (b ≡ b'))
  unfolding add_to_tier
  In-add_to_tier local_tier local_tier b b' acc = ground (arith, In-concat b b' acc.local)
  In-add_to_tier statewide_tier statewide_tier b b' acc =
      ground (arith, In-concat b b' acc.statewide)
  In-add_to_tier regional_tier regional_tier b b' acc = ground (arith, In-concat b b' acc.regional)
  In-add_to_tier local_tier statewide_tier b b' acc = ground arith
  In-add_to_tier local_tier regional_tier b b' acc = ground arith
  In-add_to_tier statewide_tier local_tier b b' acc = ground arith
  In-add_to_tier statewide_tier regional_tier b b' acc = ground arith
  In-add_to_tier regional_tier local_tier b b' acc = ground arith
  In-add_to_tier regional_tier statewide_tier b b' acc = ground arith

  In-bucket_loop :
      (t : Tier) (b : ScopeBucketed) (orgs : List Org) (acc : ScopeBuckets)
      → In b (bucket_list t (bucket_loop scope orgs acc)) ↔ (
          In b (bucket_list t acc)
          ⊎ ((org : Org) × In org orgs × (bucket_org scope org ≡ some (t, b))))
  unfolding bucket_loop
  In-bucket_loop t b [] acc = (inl, λ h. elim h [ inl m ↦ m | inr (org, m, e) ↦ elim m [ ] ])
  In-bucket_loop t b (org ∷ orgs) acc = elim (Option-cases (bucket_org scope org)) [
    | inl e ↦
        rw (e, bucket_loop)
          (
            λ m. elim ((In-bucket_loop t b orgs acc).0 m) [
              | inl old ↦ inl old
              | inr (o, k, f) ↦ inr (o, inr k, f)
            ],
            λ h. (In-bucket_loop t b orgs acc).1 (elim h [
              | inl old ↦ inl old
              | inr (o, k, f) ↦ elim k [ inl same ↦ cc (e, f, same) | inr k' ↦ inr (o, k', f) ]
            ]),
          )
    | inr ((t', b'), e) ↦
        rw (e, bucket_loop)
          (
            λ m. elim ((In-bucket_loop t b orgs (add_to_tier t' b' acc)).0 m) [
              | inl new ↦ elim ((In-add_to_tier t t' b b' acc).0 new) [
                | inl old ↦ inl old
                | inr (same_tier, same) ↦ inr (org, inl refl, rw (same_tier, same) e)
              ]
              | inr (o, k, f) ↦ inr (o, inr k, f)
            ],
            λ h. (In-bucket_loop t b orgs (add_to_tier t' b' acc)).1 (elim h [
              | inl old ↦ inl ((In-add_to_tier t t' b b' acc).1 (inl old))
              | inr (o, k, f) ↦ elim k [
                | inl same ↦
                    inl ((In-add_to_tier t t' b b' acc).1 (inr (cc (e, f, same), cc (e, f, same))))
                | inr k' ↦ inr (o, k', f)
              ]
            ]),
          )
  ]

  In-extract :
      (t : Tier) (o : Org) (orgs : List Org)
      → In o (tier_list t (bucket_orgs_by_scope scope orgs)) ↔ (
          (b : ScopeBucketed) × In b (bucket_list t (bucket_loop scope orgs no_buckets))
          × (o ≡ b.org))
  unfolding bucket_orgs_by_scope extract_scope_orgs sort_scope_buckets
  In-extract local_tier o orgs = extracted o _
  In-extract statewide_tier o orgs = extracted o _
  In-extract regional_tier o orgs = extracted o _

  no_bucket : (t : Tier) (b : ScopeBucketed) → ¬ In b (bucket_list t no_buckets)
  no_bucket local_tier b m = m
  no_bucket statewide_tier b m = m
  no_bucket regional_tier b m = m

  -- A tier lists exactly the orgs that belong in it by the regions of the scope that they serve (local if
  -- one of these is local, else statewide if one is of a state kind, else regional if there is one), each
  -- with the slugs of those regions.
  pub In-bucket_orgs_by_scope :
      (orgs : List Org) (t : Tier) (o : Org)
      → In o (tier_list t (bucket_orgs_by_scope scope orgs))
        ↔ ((org : Org) × In org orgs × InTier scope org t × (o ≡ surfaced scope org))
  In-bucket_orgs_by_scope orgs t o = (
    λ m.
        let (b, k, e) = (In-extract t o orgs).0 m in
        elim ((In-bucket_loop t b orgs no_buckets).0 k) [
          | inl old ↦ absurd (no_bucket t b old)
          | inr (org, j, f) ↦
              let (tier, shape) = bucket_org_sound org t b f in (org, j, tier, e ∙ shape)
        ],
    λ (org, j, tier, shape).
        let (b, f, e) = bucket_org_complete org t tier in
        (In-extract t o orgs).1
          (b, (In-bucket_loop t b orgs no_buckets).1 (inr (org, j, f)), shape ∙ sym e),
  )
