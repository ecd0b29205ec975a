-- ===== src/Atlas/Queries/Members.antt =====
-- What the read methods of MemStore return, by membership: ancestors and descendants by walks, the
-- regions of an org, and the orgs of a set of regions.
use urbanist_atlas.Base.{
  ℕ, ◌≡◌, refl, sym, subst, ap, ◌∙◌, inl, inr, ◌↔◌, true, false, List, [], ◌∷◌, some, arith, nat_eq,
  nat_eqb_iff, Table, find, find_or, any_intro, any_witness, select, In, In-map, In-map_inv,
  In-select, Bool-cases, Option-cases,
}
use urbanist_atlas.Base.Sort.{In-sort_by}
use urbanist_atlas.Atlas.Types.{Region, Org, zero_region, is_national}
use urbanist_atlas.Atlas.Store.{MemStore}
use urbanist_atlas.Atlas.Graph.{walkable, bfs_collect_ids, build_children_of, descendant_region_ids}
use urbanist_atlas.Atlas.Graph.Reach.{Reach, here, step, walkable_found}
use urbanist_atlas.Atlas.Graph.Walk.{bfs_collect_ids_iff_Reach}
use urbanist_atlas.Atlas.Queries.{
  ancestor_regions, live_regions, descendant_regions, region_id_less, known_regions,
  rollup_metros_for, regions_for_org, serves_any, with_regions, orgs_for_regions,
}

-- The region is registered under the id.
abbrev pub Stored : MemStore → ℕ → Region → Type 0
Stored s id r = find id s.regions_by_id ≡ some r

-- The region ids that an org serves.
abbrev pub attached : MemStore → Org → List ℕ
attached s org = find_or org.id s.org_regions []

module _ (s : MemStore) where
  pub Reach-walkable :
      (adj : Table ℕ (List ℕ)) (start : ℕ) {id : ℕ} → Reach s adj start id → walkable s id ≡ true
  Reach-walkable adj start (here w) = w
  Reach-walkable adj start (step r m w) = w

  -- A walkable region is registered, and is not national.
  pub walkable_iff :
      (id : ℕ) (r : Region) → Stored s id r → (walkable s id ≡ true) ↔ (is_national r ≡ false)
  unfolding walkable
  walkable_iff id r e = rw (e, walkable) (ground arith)

  pub In-ancestor_regions :
      (leaf : ℕ) (r : Region)
      → In r (ancestor_regions s leaf) ↔ ((id : ℕ) × Reach s s.parents leaf id × Stored s id r)
  unfolding ancestor_regions find_or
  In-ancestor_regions leaf r = (
    λ m.
        let (id, k, e) = In-map_inv _ r (bfs_collect_ids s leaf s.parents) m in
        let path = (bfs_collect_ids_iff_Reach s leaf s.parents id).0 k in
        let (q, f) = walkable_found s id (Reach-walkable s.parents leaf path) in
        (id, path, f ∙ ap some (sym (rw (f, find_or) at e))),
    λ (id, path, e).
        let hit : find_or id s.regions_by_id zero_region ≡ r = rw (e, find_or) refl in
        subst (λ q. In q (ancestor_regions s leaf)) hit
          (In-map (λ i. find_or i s.regions_by_id zero_region) id (bfs_collect_ids s leaf s.parents)
            ((bfs_collect_ids_iff_Reach s leaf s.parents id).1 path)),
  )

  In-live_regions :
      (r : Region) (ids : List ℕ)
      → In r (live_regions s ids) ↔ ((id : ℕ) × In id ids × Stored s id r × (is_national r ≡ false))
  unfolding live_regions
  In-live_regions r [] = (λ m. elim m [ ], λ h. elim h.1 [ ])
  In-live_regions r (id ∷ ids) = elim (Option-cases (find id s.regions_by_id)) [
    | inl e ↦
        rw (e, live_regions)
          (
            λ m. let (i, k, f, n) = (In-live_regions r ids).0 m in (i, inr k, f, n),
            λ (i, k, f, n). elim k [
              | inl same ↦ cc (e, f, same)
              | inr k' ↦ (In-live_regions r ids).1 (i, k', f, n)
            ],
          )
    | inr (q, e) ↦ elim (Bool-cases (is_national q)) [
      | inl national ↦
          rw (e, national, live_regions)
            (
              λ m. let (i, k, f, n) = (In-live_regions r ids).0 m in (i, inr k, f, n),
              λ (i, k, f, n). elim k [
                | inl same ↦ let q≡r : q ≡ r = cc (e, f, same) in cc (q≡r, n, national)
                | inr k' ↦ (In-live_regions r ids).1 (i, k', f, n)
              ],
            )
      | inr fine ↦
          rw (e, fine, live_regions)
            (
              λ m. elim m [
                | inl first ↦ (id, inl refl, rw first e, rw first fine)
                | inr m' ↦ let (i, k, f, n) = (In-live_regions r ids).0 m' in (i, inr k, f, n)
              ],
              λ (i, k, f, n). elim k [
                | inl same ↦ inl (cc (e, f, same))
                | inr k' ↦ inr ((In-live_regions r ids).1 (i, k', f, n))
              ],
            )
    ]
  ]

  In-known_regions :
      (r : Region) (ids : List ℕ)
      → In r (known_regions s ids) ↔ ((id : ℕ) × In id ids × Stored s id r)
  unfolding known_regions
  In-known_regions r [] = (λ m. elim m [ ], λ h. elim h.1 [ ])
  In-known_regions r (id ∷ ids) = elim (Option-cases (find id s.regions_by_id)) [
    | inl e ↦
        rw (e, known_regions)
          (
            λ m. let (i, k, f) = (In-known_regions r ids).0 m in (i, inr k, f),
            λ (i, k, f). elim k [
              | inl same ↦ cc (e, f, same)
              | inr k' ↦ (In-known_regions r ids).1 (i, k', f)
            ],
          )
    | inr (q, e) ↦
        rw (e, known_regions)
          (
            λ m. elim m [
              | inl first ↦ (id, inl refl, rw first e)
              | inr m' ↦ let (i, k, f) = (In-known_regions r ids).0 m' in (i, inr k, f)
            ],
            λ (i, k, f). elim k [
              | inl same ↦ inl (cc (e, f, same))
              | inr k' ↦ inr ((In-known_regions r ids).1 (i, k', f))
            ],
          )
  ]

  pub In-regions_for_org :
      (org : Org) (r : Region)
      → In r (regions_for_org s org.id) ↔ ((id : ℕ) × In id (attached s org) × Stored s id r)
  unfolding regions_for_org
  In-regions_for_org org r = (
    λ m. (In-known_regions r (attached s org)).0 ((In-sort_by region_id_less r _).0 m),
    λ h. (In-sort_by region_id_less r _).1 ((In-known_regions r (attached s org)).1 h),
  )

  serves_any_iff :
      (wanted : List ℕ) (org : Org)
      → (serves_any s wanted org ≡ true) ↔ ((id : ℕ) × In id (attached s org) × In id wanted)
  unfolding serves_any
  serves_any_iff wanted org = (
    λ h.
        let (id, m, found) = any_witness _ (attached s org) h in
        let (w, k, e) = any_witness _ wanted found in (id, m, rw (← (nat_eqb_iff w id).0 e) k),
    λ (id, m, k).
        any_intro _ id (attached s org) m (any_intro _ id wanted k ((nat_eqb_iff id id).1 refl)),
  )

  -- The orgs of a set of regions: those attached to one of them, with all of their regions.
  pub In-orgs_for_regions :
      (ids : List ℕ) (o : Org)
      → In o (orgs_for_regions s ids) ↔ (
          (org : Org) × In org s.orgs
          × ((id : ℕ) × In id (attached s org) × In id ids)
          × (o ≡ with_regions s org))
  unfolding orgs_for_regions
  In-orgs_for_regions [] o = (λ m. elim m [ ], λ h. elim h.2.2 [ ])
  In-orgs_for_regions (i ∷ ids) o = (
    λ m.
        let (org, k, e) =
          In-map_inv (with_regions s) o (select (serves_any s (i ∷ ids)) s.orgs) m in
        let (j, h) = (In-select (serves_any s (i ∷ ids)) org s.orgs).0 k in
        (org, j, (serves_any_iff (i ∷ ids) org).0 h, e),
    λ (org, j, h, e). rw e (
        In-map (with_regions s) org (select (serves_any s (i ∷ ids)) s.orgs) (
          (In-select (serves_any s (i ∷ ids)) org s.orgs).1
            (j, (serves_any_iff (i ∷ ids) org).1 h))),
  )

  -- The descendants of a region that is registered and not national: what a walk down reaches.
  pub In-descendant_regions :
      (focus : ℕ) (r : Region)
      → walkable s focus ≡ true
      → In r (descendant_regions s focus)
        ↔ ((id : ℕ) × Reach s (build_children_of s) focus id × Stored s id r)
  unfolding descendant_regions descendant_region_ids
  In-descendant_regions focus r w =
      let (q, e) = walkable_found s focus w in
      rw (e, (walkable_iff focus q e).0 w, descendant_regions)
        (
          λ m.
              let (id, k, f, n) = (In-live_regions r (descendant_region_ids s focus)).0 m in
              (id, (bfs_collect_ids_iff_Reach s focus (build_children_of s) id).0 k, f),
          λ (id, path, f). (In-live_regions r (descendant_region_ids s focus)).1 (
            id,
            (bfs_collect_ids_iff_Reach s focus (build_children_of s) id).1 path,
            f,
            (walkable_iff id r f).0 (Reach-walkable (build_children_of s) focus path),
          ),
        )

  -- The metros of a state: the registered ones that are not national.
  pub In-rollup_metros_for :
      (state : ℕ) (r : Region)
      → In r (rollup_metros_for s state) ↔ (
          (id : ℕ) × In id (find_or state s.rollup_by_state [])
          × Stored s id r
          × (is_national r ≡ false))
  unfolding rollup_metros_for
  In-rollup_metros_for state r = (
    λ m. (In-live_regions r _).0 ((In-sort_by region_id_less r _).0 m),
    λ h. (In-sort_by region_id_less r _).1 ((In-live_regions r _).1 h),
  )
