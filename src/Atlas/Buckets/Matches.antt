-- ===== src/Atlas/Buckets/Matches.antt =====
-- The tier that an org belongs in by the regions that match, and that tier_of gives it that one.
use urbanist_atlas.Base.{
  ℕ, ◌≡◌, refl, inl, inr, ◌↔◌, true, List, [], ◌∷◌, some, map, ◌==◌, bytes_eq, bytes_eqb_iff,
  nat_eq, Table, find, any, any_intro, any_witness, In, Bool-cases, Option-cases,
}
use urbanist_atlas.Atlas.Types.{Region, Org, scope_local}
use urbanist_atlas.Atlas.Kinds.{is_state_kind}
use urbanist_atlas.Atlas.Buckets.{
  Tier, local_tier, statewide_tier, regional_tier, matched_regions, tier_of,
}

-- A region of the org is in scope, where it stands as `mr`.
abbrev pub Matches : Table ℕ Region → Org → Region → Type 0
Matches scope org mr = (r : Region) × In r org.regions × (find r.id scope ≡ some mr)

abbrev pub HasLocal : Table ℕ Region → Org → Type 0
HasLocal scope org = (mr : Region) × Matches scope org mr × (mr.scope_tier ≡ scope_local)

abbrev pub HasState : Table ℕ Region → Org → Type 0
HasState scope org = (mr : Region) × Matches scope org mr × (is_state_kind mr.kind ≡ true)

-- A local match makes an org local; else a match at state level makes it statewide; else any match
-- makes it regional.
abbrev pub InTier : Table ℕ Region → Org → Tier → Type 0
InTier scope org local_tier = HasLocal scope org
InTier scope org statewide_tier = HasState scope org × (¬ HasLocal scope org)
InTier scope org regional_tier =
    ((mr : Region) × Matches scope org mr) × (¬ HasLocal scope org) × (¬ HasState scope org)

-- The org as it surfaces: it names the regions that matched.
unfoldable pub surfaced : Table ℕ Region → Org → Org
surfaced scope org = record org {
  matched_region_slugs = map (λ r. r.slug) (matched_regions scope org.regions);
}

module _ (scope : Table ℕ Region) where
  In-matched_regions :
      (mr : Region) (rs : List Region)
      → In mr (matched_regions scope rs) ↔ ((r : Region) × In r rs × (find r.id scope ≡ some mr))
  unfolding matched_regions
  In-matched_regions mr [] = (λ m. elim m [ ], λ (r, m, e). elim m [ ])
  In-matched_regions mr (r ∷ rs) = elim (Option-cases (find r.id scope)) [
    | inl e ↦
        rw (e, matched_regions)
          (
            λ m. let (q, k, f) = (In-matched_regions mr rs).0 m in (q, inr k, f),
            λ (q, k, f). elim k [
              | inl same ↦ cc (e, f, same)
              | inr k' ↦ (In-matched_regions mr rs).1 (q, k', f)
            ],
          )
    | inr (x, e) ↦
        rw (e, matched_regions)
          (
            λ m. elim m [
              | inl here ↦ (r, inl refl, rw here e)
              | inr m' ↦ let (q, k, f) = (In-matched_regions mr rs).0 m' in (q, inr k, f)
            ],
            λ (q, k, f). elim k [
              | inl same ↦ inl (cc (e, f, same))
              | inr k' ↦ inr ((In-matched_regions mr rs).1 (q, k', f))
            ],
          )
  ]

  any_local :
      (org : Org)
      → (any (λ r. r.scope_tier == scope_local) (matched_regions scope org.regions) ≡ true)
        ↔ HasLocal scope org
  any_local org = (
    λ h.
        let (mr, m, e) = any_witness _ (matched_regions scope org.regions) h in
        (mr, (In-matched_regions mr org.regions).0 m, (bytes_eqb_iff _ _).0 e),
    λ (mr, m, e).
        any_intro _ mr (matched_regions scope org.regions) ((In-matched_regions mr org.regions).1 m)
          ((bytes_eqb_iff _ _).1 e),
  )

  any_state :
      (org : Org)
      → (any (λ r. is_state_kind r.kind) (matched_regions scope org.regions) ≡ true)
        ↔ HasState scope org
  any_state org = (
    λ h.
        let (mr, m, e) = any_witness _ (matched_regions scope org.regions) h in
        (mr, (In-matched_regions mr org.regions).0 m, e),
    λ (mr, m, e).
        any_intro _ mr (matched_regions scope org.regions) ((In-matched_regions mr org.regions).1 m)
          e,
  )

  pub any_match :
      (org : Org) (m : Region) (ms : List Region)
      → matched_regions scope org.regions ≡ m ∷ ms
      → (mr : Region) × Matches scope org mr
  any_match org m ms e = (m, (In-matched_regions m org.regions).0 (rw e (inl refl)))

  pub no_match :
      (org : Org) (mr : Region) → matched_regions scope org.regions ≡ [] → ¬ Matches scope org mr
  no_match org mr e k = rw e at ((In-matched_regions mr org.regions).1 k)

  -- The tier of an org that has a match.
  pub InTier-tier_of :
      (org : Org)
      → (mr : Region) × Matches scope org mr
      → InTier scope org (tier_of (matched_regions scope org.regions))
  unfolding tier_of
  InTier-tier_of org some_match =
      let matched = matched_regions scope org.regions in
      elim (Bool-cases (any (λ r. r.scope_tier == scope_local) matched)) [
        | inl is_local ↦ rw is_local ((any_local org).0 is_local)
        | inr not_local ↦
            let no_local : ¬ HasLocal scope org = λ h. cc (not_local, (any_local org).1 h) in
            elim (Bool-cases (any (λ r. is_state_kind r.kind) matched)) [
              | inl is_state ↦ rw (not_local, is_state) ((any_state org).0 is_state, no_local)
              | inr not_state ↦
                  rw (not_local, not_state)
                    (some_match, no_local, λ h. cc (not_state, (any_state org).1 h))
            ]
      ]

  -- The tiers exclude one another.
  pub InTier-unique : (org : Org) (t t' : Tier) → InTier scope org t → InTier scope org t' → t ≡ t'
  InTier-unique org local_tier local_tier h k = refl
  InTier-unique org local_tier statewide_tier h k = absurd (k.1 h)
  InTier-unique org local_tier regional_tier h k = absurd (k.1 h)
  InTier-unique org statewide_tier local_tier h k = absurd (h.1 k)
  InTier-unique org statewide_tier statewide_tier h k = refl
  InTier-unique org statewide_tier regional_tier h k = absurd (k.2 h.0)
  InTier-unique org regional_tier local_tier h k = absurd (h.1 k)
  InTier-unique org regional_tier statewide_tier h k = absurd (h.2 k.0)
  InTier-unique org regional_tier regional_tier h k = refl

  pub InTier-match :
      (org : Org) (t : Tier) → InTier scope org t → (mr : Region) × Matches scope org mr
  InTier-match org local_tier h = (h.0, h.1)
  InTier-match org statewide_tier h = (h.0.0, h.0.1)
  InTier-match org regional_tier h = h.0
