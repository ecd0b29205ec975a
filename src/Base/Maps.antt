-- ===== src/Base/Maps.antt =====
-- A Go map as an association list: the entries in one of the orders in which `range` may visit
-- them. A write replaces the entry of its key, or adds one.
use mathlib.Core.Path.{◌≡◌, refl, sym}
use mathlib.Core.Logic.{inl, inr}
use mathlib.Core.Bool.{Bool, true, false}
use mathlib.Core.Option.{Option, none, some}
use mathlib.Core.List.{List, [], ◌∷◌, map}
use native.Mathlib.Omega.{arith}
use urbanist_atlas.Base.Lists.{In}
use urbanist_atlas.Base.Tests.{Eq, ◌==◌, if◌then◌else◌, Bool-cases}

abbrev pub Table {ℓ κ} : Type ℓ → Type κ → Type (ℓ ⊔ κ)
Table K V = List (K × V)

module _ {ℓ κ} {K : Type ℓ} {V : Type κ} ⦃e : Eq K⦄ where
  unfoldable pub find : K → Table K V → Option V
  find k [] = none
  find k ((j, v) ∷ m) = if j == k then some v else find k m

  unfoldable pub put : K → V → Table K V → Table K V
  put k v [] = (k, v) ∷ []
  put k v ((j, w) ∷ m) = if j == k then (k, v) ∷ m else (j, w) ∷ put k v m

  -- delete(m, k)
  unfoldable pub remove : K → Table K V → Table K V
  remove k [] = []
  remove k ((j, w) ∷ m) = if j == k then remove k m else (j, w) ∷ remove k m

  -- `_, ok := m[k]`
  unfoldable pub has : K → Table K V → Bool
  has k [] = false
  has k ((j, v) ∷ m) = if j == k then true else has k m

  pub find-put :
      (k j : K) (v : V) (m : Table K V) → find j (put k v m) ≡ (if k == j then some v else find j m)
  unfolding find put
  find-put k j v [] = refl
  find-put k j v ((i, w) ∷ m) =
      ground (arith, e.equal_iff k j, e.equal_iff i k, e.equal_iff i j, find-put k j v m)

  pub find-put_self : (k : K) (v : V) (m : Table K V) → find k (put k v m) ≡ some v
  find-put_self k v m = rw find-put (rw ((e.equal_iff k k).1 refl) refl)

  pub find-put_ne : (k j : K) (v : V) (m : Table K V) → (k ≡ j → ⊥) → find j (put k v m) ≡ find j m
  find-put_ne k j v m h = rw find-put (elim (Bool-cases (k == j)) [
    | inl eq ↦ absurd (h ((e.equal_iff k j).0 eq))
    | inr ne ↦ rw ne refl
  ])

  pub has-find : (k : K) (m : Table K V) → has k m ≡ true → (v : V) × (find k m ≡ some v)
  unfolding has find
  has-find k [] h = cc
  has-find k ((j, w) ∷ m) h = elim (Bool-cases (j == k)) [
    | inl eq ↦ (w, rw eq refl)
    | inr ne ↦ let (v, f) = has-find k m (rw ne at h) in (v, rw ne f)
  ]

  -- `m[k]`, where `zero` is the zero value of the element type
  unfoldable pub find_or : K → Table K V → V → V
  unfolding find
  find_or k m zero = elim (find k m) [ some v ↦ v | none ↦ zero ]

  pub find-has : (k : K) (m : Table K V) (v : V) → find k m ≡ some v → has k m ≡ true
  unfolding has find
  find-has k [] v h = cc
  find-has k ((j, w) ∷ m) v h = ground (arith, find-has k m v)

pub find_or-put {ℓ κ} :
    {K : Type ℓ} {V : Type κ} ⦃e : Eq K⦄ (k j : K) (v zero : V) (m : Table K V)
    → find_or j (put k v m) zero ≡ (if k == j then v else find_or j m zero)
unfolding find_or
find_or-put k j v zero m = elim (Bool-cases (k == j)) [
  | inl eq ↦ rw (find-put k j v m, eq, find_or) refl
  | inr ne ↦ rw (find-put k j v m, ne, find_or) refl
]

pub find_key :
    {K V : Type 0} ⦃e : Eq K⦄ (k : K) (v : V) (m : Table K V)
    → find k m ≡ some v
    → In k (map (λ p. p.0) m)
unfolding find
find_key k v [] h = cc
find_key ⦃e⦄ k v ((j, w) ∷ m) h = elim (Bool-cases (j == k)) [
  | inl eq ↦ inl (sym ((e.equal_iff j k).0 eq))
  | inr ne ↦ inr (find_key k v m (rw ne at h))
]

pub find_or-remove {ℓ κ} :
    {K : Type ℓ} {V : Type κ} ⦃e : Eq K⦄ (k j : K) (zero : V) (m : Table K V)
    → find_or j (remove k m) zero ≡ (if k == j then zero else find_or j m zero)
unfolding find_or remove find
find_or-remove k j zero [] = ground arith
find_or-remove ⦃e⦄ k j zero ((i, w) ∷ m) =
    ground (arith, e.equal_iff i k, e.equal_iff i j, e.equal_iff k j, find_or-remove k j zero m)
