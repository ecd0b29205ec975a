-- ===== src/Atlas/Lookup/Surface.antt =====
-- Which orgs a lookup returns, in terms of the region graph.
use urbanist_atlas.Base.{
  ℕ, ◌≡◌, refl, sym, ap, subst, ◌∙◌, inl, inr, ◌↔◌, true, false, List, [], some, map, Unicode, In,
  In-map, Option-cases, some_inj, nat_eq, Table,
}
use urbanist_atlas.Atlas.Types.{Region, Org, LookupQuery, LookupResult, scope_local, is_national}
use urbanist_atlas.Atlas.Kinds.{is_state_kind}
use urbanist_atlas.Atlas.Store.{MemStore}
use urbanist_atlas.Atlas.Graph.Reach.{Reach}
use urbanist_atlas.Atlas.Buckets.{Tier, local_tier, statewide_tier, regional_tier}
use urbanist_atlas.Atlas.Buckets.Matches.{Matches, InTier, surfaced, InTier-match}
use urbanist_atlas.Atlas.Buckets.Tiers.{tier_list, In-bucket_orgs_by_scope}
use urbanist_atlas.Atlas.Queries.{
  resolve_leaf_region, ancestor_regions, with_regions, orgs_for_regions,
}
use urbanist_atlas.Atlas.Queries.Members.{
  Stored, attached, In-ancestor_regions, In-orgs_for_regions, Reach-walkable, walkable_iff,
}
use urbanist_atlas.Atlas.Lookup.{scope_of, lookup_from, lookup_orgs}
use urbanist_atlas.Atlas.Lookup.Scope.{IdsMatch, Matches-scope_of}

-- The tiers that a family of matched regions gives, as in BucketOrgsByScope.
abbrev pub Surfaces : (Region → Type 0) → Tier → Type 0
Surfaces Hit local_tier = (mr : Region) × Hit mr × (mr.scope_tier ≡ scope_local)
Surfaces Hit statewide_tier =
    ((mr : Region) × Hit mr × (is_state_kind mr.kind ≡ true))
    × (¬ ((mr : Region) × Hit mr × (mr.scope_tier ≡ scope_local)))
Surfaces Hit regional_tier =
    ((mr : Region) × Hit mr)
    × (¬ ((mr : Region) × Hit mr × (mr.scope_tier ≡ scope_local)))
    × (¬ ((mr : Region) × Hit mr × (is_state_kind mr.kind ≡ true)))

pub Surfaces-map :
    (P Q : Region → Type 0) (t : Tier) → ((mr : Region) → P mr ↔ Q mr) → Surfaces P t → Surfaces Q t
Surfaces-map P Q local_tier f (mr, h, e) = (mr, (f mr).0 h, e)
Surfaces-map P Q statewide_tier f ((mr, h, e), none_local) =
    ((mr, (f mr).0 h, e), λ (r, k, d). none_local (r, (f r).1 k, d))
Surfaces-map P Q regional_tier f ((mr, h), none_local, none_state) = (
  (mr, (f mr).0 h),
  λ (r, k, d). none_local (r, (f r).1 k, d),
  λ (r, k, d). none_state (r, (f r).1 k, d),
)

-- The tiers of BucketOrgsByScope are such a family.
pub InTier-Surfaces :
    (scope : _) (org : Org) (t : Tier) → InTier scope org t ↔ Surfaces (Matches scope org) t
InTier-Surfaces scope org local_tier = (λ h. h, λ h. h)
InTier-Surfaces scope org statewide_tier = (λ h. h, λ h. h)
InTier-Surfaces scope org regional_tier = (λ h. h, λ h. h)

-- A region that the org serves is the leaf or one of its ancestors.
abbrev pub Advocates : MemStore → ℕ → Org → Region → Type 0
Advocates s leaf org mr =
    (id : ℕ) × In id (attached s org) × Reach s s.parents leaf id × Stored s id mr

abbrev pub result_tier : Tier → LookupResult → List Org
result_tier t r =
    tier_list t (record { local = r.local; regional = r.regional; statewide = r.statewide })

module _ (s : MemStore) (ids : IdsMatch s) where
  Stored-ancestors : (leaf : ℕ) (r : Region) → In r (ancestor_regions s leaf) → Stored s r.id r
  Stored-ancestors leaf r m =
      let (id, path, e) = (In-ancestor_regions s leaf r).0 m in
      subst (λ i. Stored s i r) (sym (ids id r e)) e

  Matches-Advocates :
      (leaf : ℕ) (org : Org) (mr : Region)
      → Matches (scope_of (ancestor_regions s leaf) []) (with_regions s org) mr
        ↔ Advocates s leaf org mr
  Matches-Advocates leaf org mr = (
    λ h.
        let rs = ancestor_regions s leaf in
        let (id, k, e, j) = (Matches-scope_of s ids rs org mr (Stored-ancestors leaf)).0 h in
        let (id', path, e') = (In-ancestor_regions s leaf mr).0 j in
        (id, k, subst (Reach s s.parents leaf) (sym (ids id' mr e') ∙ ids id mr e) path, e),
    λ (id, k, path, e).
        (Matches-scope_of s ids (ancestor_regions s leaf) org mr (Stored-ancestors leaf)).1
          (id, k, e, (In-ancestor_regions s leaf mr).1 (id, path, e)),
  )

  Advocates-served :
      (leaf : ℕ) (org : Org) (mr : Region)
      → Advocates s leaf org mr
      → (id : ℕ) × In id (attached s org) × In id (map (λ r. r.id) (ancestor_regions s leaf))
  Advocates-served leaf org mr (id, k, path, e) = (
    id,
    k,
    subst (λ i. In i (map (λ r. r.id) (ancestor_regions s leaf))) (ids id mr e)
        (In-map (λ r. r.id) mr (ancestor_regions s leaf)
          ((In-ancestor_regions s leaf mr).1 (id, path, e))),
  )

  -- From the leaf on, a tier lists exactly the orgs of the store that serve the leaf or an ancestor of
  -- it, by the tiers of the regions that they serve there.
  pub In-lookup_from :
      (query : LookupQuery) (leaf : Region) (t : Tier) (o : Org)
      → In o (result_tier t (lookup_from s query leaf)) ↔ (
          (org : Org) × In org s.orgs
          × Surfaces (Advocates s leaf.id org) t
          × (o ≡ surfaced (scope_of (ancestor_regions s leaf.id) []) (with_regions s org)))
  unfolding lookup_from
  In-lookup_from query leaf t o = (
    λ m.
        let (x, k, tier, e) = (In-bucket_orgs_by_scope scope found t o).0 m in
        let (org, j, h, same) = (In-orgs_for_regions s leaf_ids x).0 k in
        (
          org,
          j,
          Surfaces-map _ _ t (Matches-Advocates leaf.id org) (
              (InTier-Surfaces scope (with_regions s org) t).0
                (subst (λ y. InTier scope y t) same tier)),
          e ∙ ap (surfaced scope) same,
        ),
    λ (org, j, h, e).
        let tier = (InTier-Surfaces scope (with_regions s org) t).1 (
          Surfaces-map _ _ t
            (λ mr. ((Matches-Advocates leaf.id org mr).1, (Matches-Advocates leaf.id org mr).0))
            h) in
        let (mr, hit) = InTier-match scope (with_regions s org) t tier in
        let served = Advocates-served leaf.id org mr ((Matches-Advocates leaf.id org mr).0 hit) in
        (In-bucket_orgs_by_scope scope found t o).1 (
          with_regions s org,
          (In-orgs_for_regions s leaf_ids _).1 (org, j, served, refl),
          tier,
          e,
        ),
  )
    where
      scope : Table ℕ Region
      scope = scope_of (ancestor_regions s leaf.id) []

      leaf_ids : List ℕ
      leaf_ids = map (λ r. r.id) (ancestor_regions s leaf.id)

      found : List Org
      found = orgs_for_regions s leaf_ids

  -- In a store whose regions stand under their ids, and for a query that is answered, the postal code has
  -- a leaf region, and each tier of the answer lists exactly the orgs that serve the leaf region or
  -- an ancestor of it on a path of registered regions that are not national, in the tier of the regions
  -- that they serve there; each lists the slugs of those regions.
  pub lookup_orgs-Surfaces :
      (u : Unicode) (query : LookupQuery) (res : LookupResult)
      → lookup_orgs u s query ≡ some res
      → (leaf : Region) × (resolve_leaf_region u s query.country query.postal_code ≡ some leaf)
        × ((t : Tier) (o : Org)
            → In o (result_tier t res) ↔ (
                (org : Org) × In org s.orgs
                × Surfaces (Advocates s leaf.id org) t
                × (o ≡ surfaced (scope_of (ancestor_regions s leaf.id) []) (with_regions s org))))
  unfolding lookup_orgs
  lookup_orgs-Surfaces u query res h =
      elim (Option-cases (resolve_leaf_region u s query.country query.postal_code)) [
        | inl e ↦ cc (rw (e, lookup_orgs) at h)
        | inr (leaf, e) ↦ (
          leaf,
          e,
          λ t o.
              subst
                (λ r. In o (result_tier t r) ↔ (
                  (org : Org) × In org s.orgs
                  × Surfaces (Advocates s leaf.id org) t
                  × (o ≡ surfaced (scope_of (ancestor_regions s leaf.id) []) (with_regions s org))))
                (some_inj (rw (e, lookup_orgs) at h)) (In-lookup_from query leaf t o),
        )
      ]

-- No region of the ancestry that a lookup resolves is national.
pub lookup_from-ancestry :
    (s : MemStore) (query : LookupQuery) (leaf r : Region)
    → In r (lookup_from s query leaf).resolved_ancestry
    → is_national r ≡ false
unfolding lookup_from
lookup_from-ancestry s query leaf r m =
    let (id, path, e) = (In-ancestor_regions s leaf.id r).0 m in
    (walkable_iff s id r e).0 (Reach-walkable s s.parents leaf.id path)
