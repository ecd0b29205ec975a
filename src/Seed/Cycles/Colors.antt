-- ===== src/Seed/Cycles/Colors.antt =====
-- How a search that succeeds changes the colors.
use urbanist_atlas.Base.{
  ℕ, zero, suc, ◌≡◌, refl, sym, ap, subst, ◌⊎◌, inl, inr, Bool, true, List, [], ◌∷◌, ◌++◌, arith,
  Bytes, bytes_eq, bytes_eqb_iff, find_or, put, find_or-put, In, Bool-cases, Result, ok, >>=-eq-ok,
  ok_inj,
}
use urbanist_atlas.Seed.Cycles.{
  Color, white, gray, black, Colors, Parents, Stopped, visit_parents, dfs,
}

pub color_of : Bytes → Colors → Color
color_of s c = find_or s c white

-- Black stays black, no slug turns gray for good, and none turns white.
pub record Grows (c c' : Colors) : Type 0 where
  pub blacks : (s : Bytes) → find_or s c white ≡ black → find_or s c' white ≡ black
  pub grays : (s : Bytes) → find_or s c' white ≡ gray → find_or s c white ≡ gray
  pub whites : (s : Bytes) → find_or s c' white ≡ white → find_or s c white ≡ white

pub Grows-refl : (c : Colors) → Grows c c
Grows-refl c = record { blacks = λ s h. h; grays = λ s h. h; whites = λ s h. h }

pub Grows-trans : (a b c : Colors) → Grows a b → Grows b c → Grows a c
Grows-trans a b c g h = record {
  blacks = λ s e. h.blacks s (g.blacks s e);
  grays = λ s e. g.grays s (h.grays s e);
  whites = λ s e. g.whites s (h.whites s e);
}

pub Color-cases : (c : Color) → (c ≡ white) ⊎ (c ≡ gray) ⊎ (c ≡ black)
Color-cases white = inl refl
Color-cases gray = inr (inl refl)
Color-cases black = inr (inr refl)

-- A white slug turns gray, then others change, then it turns black.
Grows-around :
    (slug : Bytes) (c c2 : Colors)
    → find_or slug c white ≡ white
    → Grows (put slug gray c) c2
    → Grows c (put slug black c2)
Grows-around slug c c2 w g = record {
  blacks = λ s h. ground (
    arith,
    find_or-put slug s black white c2,
    find_or-put slug s gray white c,
    g.blacks s,
    bytes_eqb_iff slug s,
  );
  grays = λ s h. ground (
    arith,
    find_or-put slug s black white c2,
    find_or-put slug s gray white c,
    g.grays s,
    bytes_eqb_iff slug s,
  );
  whites = λ s h. ground (
    arith,
    find_or-put slug s black white c2,
    find_or-put slug s gray white c,
    g.whites s,
    bytes_eqb_iff slug s,
  );
}

-- What a search that succeeds has done.
abbrev pub Visits : (Bytes → List Bytes → Colors → Result Stopped Colors) → Type 0
Visits visit =
    (slug : Bytes) (path : List Bytes) (c c' : Colors)
    → visit slug path c ≡ ok c'
    → Grows c c' × (find_or slug c' white ≡ black)

module _ (keep : Bytes → Bool) (parents : Parents) where
  pub visit_parents-Grows :
      (visit : Bytes → List Bytes → Colors → Result Stopped Colors)
      → Visits visit
      → (ps path : List Bytes) (c c' : Colors) → visit_parents keep visit ps path c ≡ ok c'
      → Grows c c' × ((p : Bytes) → In p ps → keep p ≡ true → find_or p c' white ≡ black)
  unfolding visit_parents
  visit_parents-Grows visit v [] path c c' h =
      (subst (Grows c) (ok_inj h) (Grows-refl c), λ p m k. absurd m)
  visit_parents-Grows visit v (p ∷ ps) path c c' h = elim (Bool-cases (keep p)) [
    | inr out ↦
        let (g, b) = visit_parents-Grows visit v ps path c c' (rw (visit_parents, out) at h) in
        (g, λ q m k. elim m [ inl same ↦ cc (ap keep same, out, k) | inr m' ↦ b q m' k ])
    | inl walked ↦
        let (c1, e, f) =
          >>=-eq-ok (visit p path c) (λ x. visit_parents keep visit ps path x)
            (rw (visit_parents, walked) at h) in
        let (g1, b1) = v p path c c1 e in
        let (g2, b2) = visit_parents-Grows visit v ps path c1 c' f in
        (
          Grows-trans c c1 c' g1 g2,
          λ q m k. elim m [
            | inl same ↦ subst (λ x. find_or x c' white ≡ black) (sym same) (g2.blacks p b1)
            | inr m' ↦ b2 q m' k
          ],
        )
  ]

  pub dfs-Visits : (fuel : ℕ) → Visits (dfs keep parents fuel)
  unfolding dfs
  dfs-Visits zero slug path c c' h = cc
  dfs-Visits (suc fuel) slug path c c' h = elim (Color-cases (find_or slug c white)) [
    | inl w ↦
        let (c2, e, f) =
          >>=-eq-ok
            (visit_parents keep (dfs keep parents fuel) (find_or slug parents [])
              (path ++ slug ∷ []) (put slug gray c))
            (λ x. ok (put slug black x)) (rw (dfs, w) at h) in
        let (g, b) =
          visit_parents-Grows (dfs keep parents fuel) (dfs-Visits fuel) (find_or slug parents [])
            (path ++ slug ∷ []) (put slug gray c) c2 e in
        (
          subst (Grows c) (ok_inj f) (Grows-around slug c c2 w g),
          subst (λ x. find_or slug x white ≡ black) (ok_inj f) (turned_black slug c2),
        )
    | inr (inl g) ↦ cc (rw (dfs, g) at h)
    | inr (inr b) ↦
        let same : c ≡ c' = ok_inj (rw (dfs, b) at h) in
        (subst (Grows c) same (Grows-refl c), subst (λ x. find_or slug x white ≡ black) same b)
  ]
    where
      turned_black : (s : Bytes) (x : Colors) → find_or s (put s black x) white ≡ black
      turned_black s x = ground (arith, find_or-put s s black white x, bytes_eqb_iff s s)
