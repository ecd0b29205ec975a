-- ===== src/Seed/Cycles/Sound.antt =====
-- Searches for cycles that succeed.
use urbanist_atlas.Base.{
  ℕ, zero, suc, ◌≡◌, sym, subst, inl, inr, Bool, List, [], ◌∷◌, ◌++◌, arith, Bytes, bytes_eq,
  bytes_eqb_iff, ◌==◌, find_or, put, find_or-put, In, Bool-cases, Result, ok, >>=-eq-ok, ok_inj,
}
use urbanist_atlas.Seed.Cycles.{
  white, gray, black, Colors, Parents, Stopped, visit_parents, dfs, visit_all,
}
use urbanist_atlas.Seed.Cycles.Paths.{Ends, ends}
use urbanist_atlas.Seed.Cycles.Colors.{Color-cases, dfs-Visits, visit_parents-Grows}

module _ (keep : Bytes → Bool) (parents : Parents) where
  -- Every walk from a black slug ends.
  abbrev pub Settled : Colors → Type 0
  Settled c = (s : Bytes) → find_or s c white ≡ black → Ends keep parents s

  Settled-gray : (slug : Bytes) (c : Colors) → Settled c → Settled (put slug gray c)
  Settled-gray slug c h s e = h s (ground (arith, find_or-put slug s gray white c))

  Settled-black :
      (slug : Bytes) (c : Colors) → Settled c → Ends keep parents slug → Settled (put slug black c)
  Settled-black slug c h k s e = elim (Bool-cases (slug == s)) [
    | inl same ↦ subst (Ends keep parents) ((bytes_eqb_iff slug s).0 same) k
    | inr ne ↦ h s (ground (arith, find_or-put slug s black white c, ne))
  ]

  visit_parents-Settled :
      (visit : Bytes → List Bytes → Colors → Result Stopped Colors)
      → ((slug : Bytes) (path : List Bytes) (c c' : Colors)
          → visit slug path c ≡ ok c'
          → Settled c
          → Settled c')
      → (ps path : List Bytes) (c c' : Colors) → visit_parents keep visit ps path c ≡ ok c'
      → Settled c
      → Settled c'
  unfolding visit_parents
  visit_parents-Settled visit f [] path c c' h k = subst Settled (ok_inj h) k
  visit_parents-Settled visit f (p ∷ ps) path c c' h k = elim (Bool-cases (keep p)) [
    | inr out ↦ visit_parents-Settled visit f ps path c c' (rw (visit_parents, out) at h) k
    | inl walked ↦
        let (x, e, g) =
          >>=-eq-ok (visit p path c) (λ x. visit_parents keep visit ps path x)
            (rw (visit_parents, walked) at h) in
        visit_parents-Settled visit f ps path x c' g (f p path c x e k)
  ]

  pub dfs-Settled :
      (fuel : ℕ) (slug : Bytes) (path : List Bytes) (c c' : Colors)
      → dfs keep parents fuel slug path c ≡ ok c'
      → Settled c
      → Settled c'
  unfolding dfs
  dfs-Settled zero slug path c c' h k = cc
  dfs-Settled (suc fuel) slug path c c' h k = elim (Color-cases (find_or slug c white)) [
    | inl w ↦
        let ps = find_or slug parents [] in
        let (x, e, f) =
          >>=-eq-ok
            (visit_parents keep (dfs keep parents fuel) ps (path ++ slug ∷ []) (put slug gray c))
            (λ x. ok (put slug black x)) (rw (dfs, w) at h) in
        let settled =
          visit_parents-Settled (dfs keep parents fuel) (dfs-Settled fuel) ps (path ++ slug ∷ [])
            (put slug gray c) x e (Settled-gray slug c k) in
        let (g, b) =
          visit_parents-Grows keep parents (dfs keep parents fuel) (dfs-Visits keep parents fuel) ps
            (path ++ slug ∷ []) (put slug gray c) x e in
        subst Settled (ok_inj f)
          (Settled-black slug x settled (ends (λ p (m, walked). settled p (b p m walked))))
    | inr (inl g) ↦ cc (rw (dfs, g) at h)
    | inr (inr b) ↦ subst Settled (ok_inj (rw (dfs, b) at h)) k
  ]

  pub visit_all-Ends :
      (fuel : ℕ) (order : List Bytes) (c : Colors)
      → visit_all keep parents fuel order c ≡ ok tt
      → Settled c
      → (s : Bytes) → In s order
      → Ends keep parents s
  unfolding visit_all
  visit_all-Ends fuel [] c h k s m = absurd m
  visit_all-Ends fuel (slug ∷ rest) c h k s m =
      let (x, e, f) =
        >>=-eq-ok (dfs keep parents fuel slug [] c) (λ y. visit_all keep parents fuel rest y) h in
      let settled = dfs-Settled fuel slug [] c x e k in
      elim m [
        | inl same ↦ settled s (
            subst (λ y. find_or y x white ≡ black) (sym same)
              (dfs-Visits keep parents fuel slug [] c x e).1)
        | inr m' ↦ visit_all-Ends fuel rest x f settled s m'
      ]
