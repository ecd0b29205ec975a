-- ===== src/Atlas/Lookup/Detail.antt =====
-- Which orgs a region's page lists, in terms of the region graph.
use urbanist_atlas.Base.{
  ℕ, ◌≡◌, refl, sym, ap, subst, ◌∙◌, ◌⊎◌, inl, inr, ◌↔◌, true, false, List, [], ◌∷◌, ◌++◌, map, In,
  In-append, nat_eq, Table, find_or, find_key, put, bytes_eq,
}
use urbanist_atlas.Atlas.Types.{Region, Org, RegionDetail, is_national}
use urbanist_atlas.Atlas.Store.{MemStore}
use urbanist_atlas.Atlas.Graph.{walkable, build_children_of}
use urbanist_atlas.Atlas.Graph.Reach.{Reach}
use urbanist_atlas.Atlas.Buckets.{Tier}
use urbanist_atlas.Atlas.Buckets.Matches.{Matches, InTier, surfaced, InTier-match}
use urbanist_atlas.Atlas.Buckets.Tiers.{tier_list, In-bucket_orgs_by_scope}
use urbanist_atlas.Atlas.Queries.{
  descendant_regions, rollup_metros_for, with_regions, orgs_for_regions,
}
use urbanist_atlas.Atlas.Queries.Members.{
  Stored, attached, In-descendant_regions, In-rollup_metros_for, In-orgs_for_regions,
  In-regions_for_org,
}
use urbanist_atlas.Atlas.Lookup.{scope_of, region_detail}
use urbanist_atlas.Atlas.Lookup.Scope.{IdsMatch, Matches-scope_of}
use urbanist_atlas.Atlas.Lookup.Surface.{Surfaces, Surfaces-map, InTier-Surfaces}

-- The org serves the region, a descendant of it, or a metro that names it in its rollup states.
abbrev pub ListedFor : MemStore → ℕ → Org → Region → Type 0
ListedFor s focus org mr =
    (id : ℕ) × In id (attached s org)
    × Stored s id mr
    × (Reach s (build_children_of s) focus id
        ⊎ In id (find_or focus s.rollup_by_state []) × (is_national mr ≡ false))

abbrev pub detail_tier : Tier → RegionDetail → List Org
detail_tier t r =
    tier_list t (record { local = r.local; regional = r.regional; statewide = r.statewide })

-- The second loop goes on where the first one stopped.
scope_of-append :
    (xs ys : List Region) (m : Table ℕ Region) → scope_of ys (scope_of xs m) ≡ scope_of (xs ++ ys) m
unfolding scope_of
scope_of-append [] ys m = refl
scope_of-append (x ∷ xs) ys m = scope_of-append xs ys (put x.id x m)

module _ (s : MemStore) (ids : IdsMatch s) (focus : Region) (w : walkable s focus.id ≡ true) where
  abbrev shown : List Region
  shown = descendant_regions s focus.id ++ rollup_metros_for s focus.id

  In-shown :
      (r : Region)
      → In r shown ↔ (
          (id : ℕ) × Stored s id r
          × (Reach s (build_children_of s) focus.id id
              ⊎ In id (find_or focus.id s.rollup_by_state []) × (is_national r ≡ false)))
  In-shown r = (
    λ m. elim ((In-append r (descendant_regions s focus.id) (rollup_metros_for s focus.id)).0 m) [
      | inl down ↦
          let (id, path, e) = (In-descendant_regions s focus.id r w).0 down in (id, e, inl path)
      | inr up ↦ let (id, k, e, n) = (In-rollup_metros_for s focus.id r).0 up in (id, e, inr (k, n))
    ],
    λ (id, e, why).
        (In-append r (descendant_regions s focus.id) (rollup_metros_for s focus.id)).1 (elim why [
          | inl path ↦ inl ((In-descendant_regions s focus.id r w).1 (id, path, e))
          | inr (k, n) ↦ inr ((In-rollup_metros_for s focus.id r).1 (id, k, e, n))
        ]),
  )

  Stored-shown : (r : Region) → In r shown → Stored s r.id r
  Stored-shown r m =
      let (id, e, why) = (In-shown r).0 m in subst (λ i. Stored s i r) (sym (ids id r e)) e

  Matches-ListedFor :
      (org : Org) (mr : Region)
      → Matches (scope_of shown []) (with_regions s org) mr ↔ ListedFor s focus.id org mr
  Matches-ListedFor org mr = (
    λ h.
        let (id, k, e, j) = (Matches-scope_of s ids shown org mr Stored-shown).0 h in
        let (id', e', why) = (In-shown mr).0 j in
        let same : id' ≡ id = sym (ids id' mr e') ∙ ids id mr e in
        (
          id,
          k,
          e,
          subst
              (λ i.
                Reach s (build_children_of s) focus.id i
                ⊎ In i (find_or focus.id s.rollup_by_state []) × (is_national mr ≡ false))
              same why,
        ),
    λ (id, k, e, why).
        (Matches-scope_of s ids shown org mr Stored-shown).1
          (id, k, e, (In-shown mr).1 (id, e, why)),
  )

  -- An org that matches serves a region of the scope.
  match_served :
      (org : Org) (mr : Region)
      → Matches (scope_of shown []) (with_regions s org) mr
      → (id : ℕ) × In id (attached s org) × In id (map (λ e. e.0) (scope_of shown []))
  unfolding with_regions
  match_served org mr (r, m, f) =
      let (id, k, e) = (In-regions_for_org s org r).0 m in
      (
        id,
        k,
        subst (λ i. In i (map (λ p. p.0) (scope_of shown []))) (ids id r e)
            (find_key r.id mr (scope_of shown []) f),
      )

  -- In a store whose regions stand under their ids, on the page of a registered region that is not
  -- national, a tier lists exactly the orgs that serve the region, a
  -- descendant of it, or a metro that rolls up to it, by the tiers of those regions.
  pub In-region_detail :
      (t : Tier) (o : Org)
      → In o (detail_tier t (region_detail s focus)) ↔ (
          (org : Org) × In org s.orgs
          × Surfaces (ListedFor s focus.id org) t
          × (o ≡ surfaced (scope_of shown []) (with_regions s org)))
  unfolding region_detail
  In-region_detail t o =
      rw (scope_of-append (descendant_regions s focus.id) (rollup_metros_for s focus.id) []) (
        λ m.
            let (x, k, tier, e) = (In-bucket_orgs_by_scope scope found t o).0 m in
            let (org, j, h, same) = (In-orgs_for_regions s scope_ids x).0 k in
            (
              org,
              j,
              Surfaces-map _ _ t (Matches-ListedFor org) (
                  (InTier-Surfaces scope (with_regions s org) t).0
                    (subst (λ y. InTier scope y t) same tier)),
              e ∙ ap (surfaced scope) same,
            ),
        λ (org, j, h, e).
            let tier = (InTier-Surfaces scope (with_regions s org) t).1 (
              Surfaces-map _ _ t
                (λ mr. ((Matches-ListedFor org mr).1, (Matches-ListedFor org mr).0)) h) in
            let (mr, hit) = InTier-match scope (with_regions s org) t tier in
            (In-bucket_orgs_by_scope scope found t o).1 (
              with_regions s org,
              (In-orgs_for_regions s scope_ids _).1 (org, j, match_served org mr hit, refl),
              tier,
              e,
            ),
      )
    where
      scope : Table ℕ Region
      scope = scope_of shown []

      scope_ids : List ℕ
      scope_ids = map (λ e. e.0) (scope_of shown [])

      found : List Org
      found = orgs_for_regions s scope_ids
