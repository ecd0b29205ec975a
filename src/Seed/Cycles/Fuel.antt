-- ===== src/Seed/Cycles/Fuel.antt =====
-- The fuel of the search for cycles.
use urbanist_atlas.Base.{
  ℕ, zero, suc, ◌+◌, ◌≤◌, ◌<◌, ◌≡◌, refl, ap, inl, inr, Bool, List, [], ◌∷◌, ◌++◌, arith, Bytes,
  bytes_eq, bytes_eqb_iff, find, find_or, put, find_or-put, In, In-append, length, Bool-cases,
  Result, ok, err, ◌>>=◌,
}
use urbanist_atlas.Seed.Cycles.{
  Color, white, gray, black, Colors, Parents, Stopped, cycle, out_of_fuel, visit_parents, dfs,
  visit_all, all_slugs,
}
use urbanist_atlas.Seed.Cycles.Colors.{Grows, Color-cases, Visits, dfs-Visits}

abbrev is_white : Color → ℕ
is_white white = 1
is_white gray = 0
is_white black = 0

-- How many slugs of a list are white.
abbrev pub whites : List Bytes → Colors → ℕ
whites [] c = 0
whites (s ∷ all) c = is_white (find_or s c white) + whites all c

whites-Grows : (all : List Bytes) (c c' : Colors) → Grows c c' → whites all c' ≤ whites all c
whites-Grows [] c c' g = omega arith
whites-Grows (s ∷ all) c c' g = ground (arith, whites-Grows all c c' g, g.whites s)

whites-put-le :
    (all : List Bytes) (slug : Bytes) (c : Colors) → whites all (put slug gray c) ≤ whites all c
whites-put-le [] slug c = omega arith
whites-put-le (s ∷ all) slug c =
    ground (arith, whites-put-le all slug c, find_or-put slug s gray white c, bytes_eqb_iff slug s)

whites-put-lt :
    (all : List Bytes) (slug : Bytes) (c : Colors)
    → In slug all
    → find_or slug c white ≡ white
    → whites all (put slug gray c) < whites all c
whites-put-lt [] slug c m w = absurd m
whites-put-lt (s ∷ all) slug c (inl e) w = ground (
  arith,
  whites-put-le all slug c,
  find_or-put slug s gray white c,
  bytes_eqb_iff slug s,
  e,
  ap (λ x. find_or x c white) e,
)
whites-put-lt (s ∷ all) slug c (inr m) w =
    ground
      (arith, whites-put-lt all slug c m w, find_or-put slug s gray white c, bytes_eqb_iff slug s)

whites-le : (all : List Bytes) (c : Colors) → whites all c ≤ length all
whites-le [] c = omega arith
whites-le (s ∷ all) c = ground (arith, whites-le all c)

-- No answer is for want of fuel.
abbrev pub Fueled {ℓ} : {A : Type ℓ} → Result Stopped A → Type 0
Fueled (ok a) = Unit
Fueled (err (cycle path)) = Unit
Fueled (err out_of_fuel) = ⊥

Fueled-bind :
    {A B : Type 0} (m : Result Stopped A) (f : A → Result Stopped B)
    → Fueled m
    → ((a : A) → m ≡ ok a → Fueled (f a))
    → Fueled (m >>= f)
Fueled-bind (ok a) f h k = k a refl
Fueled-bind (err (cycle path)) f h k = tt
Fueled-bind (err out_of_fuel) f h k = h

module _ (keep : Bytes → Bool) (parents : Parents) (all : List Bytes) where
  -- The list holds every parent.
  abbrev pub HasParents : Type 0
  HasParents = (s p : Bytes) → In p (find_or s parents []) → In p all

  visit_parents-Fueled :
      (visit : Bytes → List Bytes → Colors → Result Stopped Colors) (bound : ℕ)
      → Visits visit
      → ((slug : Bytes) (path : List Bytes) (c : Colors)
          → In slug all
          → whites all c < bound
          → Fueled (visit slug path c))
      → (ps path : List Bytes) (c : Colors) → ((p : Bytes) → In p ps → In p all)
      → whites all c < bound
      → Fueled (visit_parents keep visit ps path c)
  unfolding visit_parents
  visit_parents-Fueled visit bound v f [] path c m w = tt
  visit_parents-Fueled visit bound v f (p ∷ ps) path c m w = elim (Bool-cases (keep p)) [
    | inr out ↦
        rw (visit_parents, out)
          (visit_parents-Fueled visit bound v f ps path c (λ q k. m q (inr k)) w)
    | inl walked ↦
        rw (visit_parents, walked)
          (Fueled-bind (visit p path c) (λ x. visit_parents keep visit ps path x)
            (f p path c (m p (inl refl)) w)
            λ x e.
              visit_parents-Fueled visit bound v f ps path x (λ q k. m q (inr k))
                (omega (arith, whites-Grows all c x (v p path c x e).0)))
  ]

  pub dfs-Fueled :
      (fuel : ℕ) (slug : Bytes) (path : List Bytes) (c : Colors)
      → HasParents
      → In slug all
      → whites all c < fuel
      → Fueled (dfs keep parents fuel slug path c)
  unfolding dfs
  dfs-Fueled zero slug path c hp m w = absurd (omega arith)
  dfs-Fueled (suc fuel) slug path c hp m w = elim (Color-cases (find_or slug c white)) [
    | inl e ↦
        rw (dfs, e)
          (Fueled-bind _ (λ x. ok (put slug black x))
            (visit_parents-Fueled (dfs keep parents fuel) fuel (dfs-Visits keep parents fuel)
              (λ s q x k. dfs-Fueled fuel s q x hp k) (find_or slug parents []) (path ++ slug ∷ [])
              (put slug gray c) (hp slug) (omega (arith, whites-put-lt all slug c m e)))
            (λ x e'. tt))
    | inr (inl e) ↦ rw (dfs, e) tt
    | inr (inr e) ↦ rw (dfs, e) tt
  ]

  pub visit_all-Fueled :
      (order : List Bytes) (c : Colors)
      → HasParents
      → ((s : Bytes) → In s order → In s all)
      → Fueled (visit_all keep parents (suc (length all)) order c)
  unfolding visit_all
  visit_all-Fueled [] c hp m = tt
  visit_all-Fueled (slug ∷ rest) c hp m =
      Fueled-bind (dfs keep parents (suc (length all)) slug [] c) _
        (dfs-Fueled (suc (length all)) slug [] c hp (m slug (inl refl))
          (omega (arith, whites-le all c)))
        (λ x e. visit_all-Fueled rest x hp (λ s k. m s (inr k)))

pub In-all_slugs_order :
    (s : Bytes) (order : List Bytes) (parents : Parents)
    → In s order
    → In s (all_slugs order parents)
unfolding all_slugs
In-all_slugs_order s order [] m = m
In-all_slugs_order s order ((k, ps) ∷ parents) m =
    (In-append s ps (all_slugs order parents)).1 (inr (In-all_slugs_order s order parents m))

pub In-all_slugs_parents :
    (s p : Bytes) (order : List Bytes) (parents : Parents)
    → In p (find_or s parents [])
    → In p (all_slugs order parents)
unfolding all_slugs find_or find
In-all_slugs_parents s p order [] m = absurd m
In-all_slugs_parents s p order ((k, ps) ∷ parents) m =
    (In-append p ps (all_slugs order parents)).1
      (ground (arith, In-all_slugs_parents s p order parents))
