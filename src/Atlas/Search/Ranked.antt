-- ===== src/Atlas/Search/Ranked.antt =====
-- What a search for regions returns.
use urbanist_atlas.Base.{
  ℕ, zero, suc, ◌≤◌, ◌≡◌, refl, sym, ap, subst, inl, inr, ◌↔◌, false, List, [], ◌∷◌, some, Bytes,
  Unicode, ◌==◌, bytes_eq, In, In-map_inv, arith, ℤ, pos, negsuc, length, length-map,
  length-take-le, take, Table, Bool-cases, Option-cases,
}
use urbanist_atlas.Base.Sort.{sort_by, In-sort_by}
use urbanist_atlas.Atlas.Types.{Region, RegionSearchResult, is_national}
use urbanist_atlas.Atlas.Store.{MemStore}
use urbanist_atlas.Atlas.Search.{
  max_region_search_limit, region_search_rank, Scored, search_hits, scored_less,
  region_context_label, search_regions_locked, clamp_limit, search_regions,
}

clamp_limit-le : (limit : ℤ) → clamp_limit limit ≤ max_region_search_limit
unfolding clamp_limit
clamp_limit-le (negsuc n) = omega arith
clamp_limit-le (pos n) = ground arith

-- A region that may be shown for the query `q`.
abbrev pub Hit : Unicode → Bytes → Table ℕ Region → Region → ℕ → Type 0
Hit u q table r rank =
    ((id : ℕ) × In (id, r) table)
    × (is_national r ≡ false)
    × (region_search_rank (u.to_lower r.name) (u.to_lower r.slug) q ≡ some rank)

In-search_hits :
    (u : Unicode) (q : Bytes) (table : Table ℕ Region) (h : Scored)
    → In h (search_hits u q table) ↔ Hit u q table h.region h.rank
unfolding search_hits
In-search_hits u q [] h = (λ m. absurd m, λ ((id, m), n, f). absurd m)
In-search_hits u q ((id, r) ∷ table) h = elim (Bool-cases (is_national r)) [
  | inl nat ↦
      rw (search_hits, nat)
        (
          λ m. let ((i, k), n, f) = (In-search_hits u q table h).0 m in ((i, inr k), n, f),
          λ ((i, k), n, f). elim k [
            | inl e ↦ cc (ap (λ p. p.1) e, n, nat)
            | inr k' ↦ (In-search_hits u q table h).1 ((i, k'), n, f)
          ],
        )
  | inr plain ↦ elim (Option-cases (region_search_rank (u.to_lower r.name) (u.to_lower r.slug) q)) [
    | inl missed ↦
        rw (search_hits, plain, missed)
          (
            λ m. let ((i, k), n, f) = (In-search_hits u q table h).0 m in ((i, inr k), n, f),
            λ ((i, k), n, f). elim k [
              | inl e ↦ cc (ap (λ p. p.1) e, f, missed)
              | inr k' ↦ (In-search_hits u q table h).1 ((i, k'), n, f)
            ],
          )
    | inr (rank, found) ↦
        rw (search_hits, plain, found)
          (
            λ m. elim m [
              | inl e ↦ rw e ((id, inl refl), plain, found)
              | inr m' ↦
                  let ((i, k), n, f) = (In-search_hits u q table h).0 m' in ((i, inr k), n, f)
            ],
            λ ((i, k), n, f). elim k [
              | inl e ↦ inl (cc (ap (λ p. p.1) e, f, found))
              | inr k' ↦ inr ((In-search_hits u q table h).1 ((i, k'), n, f))
            ],
          )
  ]
]

In-take : {A : Type 0} (n : ℕ) (a : A) (xs : List A) → In a (take n xs) → In a xs
In-take zero a xs m = absurd m
In-take (suc n) a [] m = m
In-take (suc n) a (x ∷ xs) (inl e) = inl e
In-take (suc n) a (x ∷ xs) (inr m) = inr (In-take n a xs m)

-- A search returns at most the largest limit of results, and each is a registered region that is not
-- national and whose name or slug matches the query.
pub search_regions-Hit :
    (u : Unicode) (s : MemStore) (query : Bytes) (limit : ℤ)
    → (length (search_regions u s query limit) ≤ max_region_search_limit)
      × ((x : RegionSearchResult)
          → In x (search_regions u s query limit)
          → (rank : ℕ) × Hit u (u.to_lower (u.trim_space query)) s.regions_by_id x.region rank)
unfolding search_regions search_regions_locked
search_regions-Hit u s query limit = elim (Bool-cases (q == [])) [
  | inl blank ↦ rw (search_regions, blank) (omega arith, λ x m. absurd m)
  | inr there ↦
      rw (search_regions, there)
        (
          omega (
            arith,
            length-map show
                (take (clamp_limit limit) (sort_by scored_less (search_hits u q s.regions_by_id))),
            length-take-le (clamp_limit limit)
                (sort_by scored_less (search_hits u q s.regions_by_id)),
            clamp_limit-le limit,
          ),
          λ x m.
              let (h, k, e) = In-map_inv show x _ m in
              let hit = (In-search_hits u q s.regions_by_id h).0 (
                (In-sort_by scored_less h (search_hits u q s.regions_by_id)).0
                  (In-take (clamp_limit limit) h _ k)) in
              (
                h.rank,
                subst (λ r. Hit u q s.regions_by_id r h.rank) (sym (ap (λ y. y.region) e)) hit,
              ),
        )
]
  where
    show : Scored → RegionSearchResult
    show h = record { region = h.region; context_label = region_context_label s h.region.id }

    q : Bytes
    q = u.to_lower (u.trim_space query)
