-- ===== src/Seed/Cycles/Complete.antt =====
-- Searches that stop at a cycle.
use urbanist_atlas.Base.{
  ℕ, zero, suc, ◌≡◌, ◌≢◌, refl, sym, subst, ◌⊎◌, inl, inr, Bool, List, [], ◌∷◌, ◌++◌, arith, Bytes,
  bytes_eq, bytes_eqb_iff, find_or, put, find_or-put, In, Bool-cases, Result, ok, err, ◌>>=◌, ◌==◌,
}
use urbanist_atlas.Seed.Cycles.{
  white, gray, black, Colors, Parents, Stopped, cycle, visit_parents, dfs, visit_all,
}
use urbanist_atlas.Seed.Cycles.Paths.{Edge, Above, one, more, Reached, here, step}
use urbanist_atlas.Seed.Cycles.Colors.{Color-cases, Visits, dfs-Visits}

-- The error of a bind comes from its first part or from its second.
>>=-eq-err :
    {A B : Type 0} (m : Result Stopped A) (f : A → Result Stopped B) {e : Stopped}
    → (m >>= f) ≡ err e
    → (m ≡ err e) ⊎ ((a : A) × (m ≡ ok a) × (f a ≡ err e))
>>=-eq-err (ok a) f h = inr (a, refl, h)
>>=-eq-err (err x) f h = inl (cc)

module _ (keep : Bytes → Bool) (parents : Parents) (origin : Bytes) where
  -- A slug above the origin that is above itself.
  abbrev pub Found : Type 0
  Found = (t : Bytes) × Reached keep parents origin t × Above keep parents t t

  -- Every gray slug has `slug` above it.
  abbrev pub GraysBelow : Bytes → Colors → Type 0
  GraysBelow slug c = (s : Bytes) → find_or s c white ≡ gray → Above keep parents s slug

  abbrev Finds : (Bytes → List Bytes → Colors → Result Stopped Colors) → Type 0
  Finds visit =
      (slug : Bytes) (path : List Bytes) (c : Colors) (p : List Bytes)
      → visit slug path c ≡ err (cycle p)
      → Reached keep parents origin slug
      → GraysBelow slug c
      → Found

  visit_parents-Found :
      (visit : Bytes → List Bytes → Colors → Result Stopped Colors) (slug : Bytes)
      → Visits visit
      → Finds visit
      → Reached keep parents origin slug
      → (ps path : List Bytes) (c : Colors) (p : List Bytes)
      → visit_parents keep visit ps path c ≡ err (cycle p)
      → ((q : Bytes) → In q ps → In q (find_or slug parents []))
      → ((s : Bytes) → find_or s c white ≡ gray → (s ≡ slug) ⊎ Above keep parents s slug)
      → Found
  unfolding visit_parents
  visit_parents-Found visit slug v f r [] path c p h sub below = cc
  visit_parents-Found visit slug v f r (q ∷ ps) path c p h sub below = elim (Bool-cases (keep q)) [
    | inr out ↦
        visit_parents-Found visit slug v f r ps path c p (rw (visit_parents, out) at h)
          (λ x m. sub x (inr m)) below
    | inl walked ↦
        let edge : Edge keep parents slug q = (sub q (inl refl), walked) in
        elim (>>=-eq-err (visit q path c) (λ x. visit_parents keep visit ps path x)
          (rw (visit_parents, walked) at h)) [
            | inl now ↦ f q path c p now (step r edge) (λ s g. elim (below s g) [
              | inl same ↦ subst (λ x. Above keep parents x q) (sym same) (one edge)
              | inr a ↦ more a edge
            ])
            | inr (x, e, later) ↦
                visit_parents-Found visit slug v f r ps path x p later (λ y m. sub y (inr m))
                  (λ s g. below s ((v q path c x e).0.grays s g))
          ]
  ]

  dfs-Found : (fuel : ℕ) → Finds (dfs keep parents fuel)
  unfolding dfs
  dfs-Found zero slug path c p h r below = cc
  dfs-Found (suc fuel) slug path c p h r below = elim (Color-cases (find_or slug c white)) [
    | inl w ↦
        elim (>>=-eq-err
          (visit_parents keep (dfs keep parents fuel) (find_or slug parents []) (path ++ slug ∷ [])
            (put slug gray c))
          (λ x. ok (put slug black x)) (rw (dfs, w) at h)) [
            | inl now ↦
                visit_parents-Found (dfs keep parents fuel) slug (dfs-Visits keep parents fuel)
                  (dfs-Found fuel) r (find_or slug parents []) (path ++ slug ∷ []) (put slug gray c)
                  p now (λ q m. m) (gray_or_below slug c below)
            | inr (x, e, never) ↦ cc
          ]
    | inr (inl g) ↦ (slug, r, below slug g)
    | inr (inr b) ↦ cc (rw (dfs, b) at h)
  ]
    where
      gray_or_below :
          (slug : Bytes) (c : Colors)
          → GraysBelow slug c
          → (s : Bytes) → find_or s (put slug gray c) white ≡ gray
          → (s ≡ slug) ⊎ Above keep parents s slug
      gray_or_below slug c below s g = elim (Bool-cases (slug == s)) [
        | inl same ↦ inl (sym ((bytes_eqb_iff slug s).0 same))
        | inr ne ↦ inr (below s (ground (arith, find_or-put slug s gray white c, ne)))
      ]

  -- A call at the origin.
  pub dfs-Found_origin :
      (fuel : ℕ) (c : Colors) (p : List Bytes)
      → dfs keep parents fuel origin [] c ≡ err (cycle p)
      → ((s : Bytes) → find_or s c white ≢ gray)
      → Found
  dfs-Found_origin fuel c p h no_gray =
      dfs-Found fuel origin [] c p h here (λ s g. absurd (no_gray s g))

module _ (keep : Bytes → Bool) (parents : Parents) where
  pub visit_all-Found :
      (fuel : ℕ) (order : List Bytes) (c : Colors) (p : List Bytes)
      → visit_all keep parents fuel order c ≡ err (cycle p)
      → ((s : Bytes) → find_or s c white ≢ gray)
      → (s : Bytes) × In s order × Found keep parents s
  unfolding visit_all
  visit_all-Found fuel [] c p h no_gray = cc
  visit_all-Found fuel (slug ∷ rest) c p h no_gray =
      elim (>>=-eq-err (dfs keep parents fuel slug [] c) (λ x. visit_all keep parents fuel rest x)
        h) [
          | inl now ↦ (slug, inl refl, dfs-Found_origin keep parents slug fuel c p now no_gray)
          | inr (x, e, later) ↦
              let (s, m, f) =
                visit_all-Found fuel rest x p later
                  (λ s g. no_gray s ((dfs-Visits keep parents fuel slug [] c x e).0.grays s g)) in
              (s, inr m, f)
        ]
