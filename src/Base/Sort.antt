-- ===== src/Base/Sort.antt =====
-- sort.SliceStable and sort.Slice with a `less` test: insertion sort, which is stable. (sort.Slice
-- promises no order among equal elements; this is one that it may give.)
use mathlib.Core.Path.{◌≡◌}
use mathlib.Core.Logic.{◌↔◌, ◌⊎◌, inl, inr}
use mathlib.Core.Bool.{Bool, true, false}
use mathlib.Core.List.{List, [], ◌∷◌, Perm}
use mathlib.Core.List.Perm
use native.Mathlib.Omega.{arith}
use urbanist_atlas.Base.Tests.{if◌then◌else◌, Bool-cases}
use urbanist_atlas.Base.Lists.{All, In, All-intro, All-In}

module _ {A : Type 0} (less : A → A → Bool) where
  unfoldable pub insert_by : A → List A → List A
  insert_by x [] = x ∷ []
  insert_by x (y ∷ ys) = if less y x then y ∷ insert_by x ys else x ∷ y ∷ ys

  unfoldable pub sort_by : List A → List A
  unfolding insert_by
  sort_by [] = []
  sort_by (x ∷ xs) = insert_by x (sort_by xs)

  -- No element is less than one before it.
  abbrev pub SortedBy : List A → Type 0
  SortedBy [] = Unit {0}
  SortedBy (x ∷ xs) = All (λ y. less y x ≡ false) xs × SortedBy xs

  pub In-insert_by : (a x : A) (ys : List A) → In a (insert_by x ys) ↔ ((a ≡ x) ⊎ In a ys)
  unfolding insert_by
  In-insert_by a x [] = ground arith
  In-insert_by a x (y ∷ ys) = ground (arith, In-insert_by a x ys)

  pub In-sort_by : (a : A) (xs : List A) → In a (sort_by xs) ↔ In a xs
  unfolding sort_by
  In-sort_by a [] = ground arith
  In-sort_by a (x ∷ xs) = ground (arith, In-insert_by a x (sort_by xs), In-sort_by a xs)

  insert_by-perm : (x : A) (ys : List A) → Perm (insert_by x ys) (x ∷ ys)
  unfolding insert_by
  insert_by-perm x [] = Perm.refl (x ∷ [])
  insert_by-perm x (y ∷ ys) = elim (Bool-cases (less y x)) [
    | inl e ↦ rw e (Perm.trans (Perm.cons y (insert_by-perm x ys)) (Perm.swap x y ys))
    | inr e ↦ rw e (Perm.refl (x ∷ y ∷ ys))
  ]

  pub sort_by-perm : (xs : List A) → Perm (sort_by xs) xs
  unfolding sort_by
  sort_by-perm [] = Perm.refl []
  sort_by-perm (x ∷ xs) = Perm.trans (insert_by-perm x (sort_by xs)) (Perm.cons x (sort_by-perm xs))

-- What `less` has to be for the result to be sorted: a strict weak order.
pub record StrictWeak {A : Type 0} (less : A → A → Bool) : Type 0 where
  pub asym : (x y : A) → less x y ≡ true → less y x ≡ false
  pub not_less_trans : (x y z : A) → less y x ≡ false → less z y ≡ false → less z x ≡ false

module _ {A : Type 0} (less : A → A → Bool) (w : StrictWeak less) where
  insert_by-SortedBy :
      (x : A) (ys : List A) → SortedBy less ys → SortedBy less (insert_by less x ys)
  unfolding insert_by
  insert_by-SortedBy x [] s = (tt, tt)
  insert_by-SortedBy x (y ∷ ys) s = elim (Bool-cases (less y x)) [
    | inl e ↦ rw e (
      All-intro _ (insert_by less x ys) (λ a m. elim ((In-insert_by less a x ys).0 m) [
        | inl same ↦ rw same (w.asym y x e)
        | inr old ↦ All-In _ a ys s.0 old
      ]),
      insert_by-SortedBy x ys s.1,
    )
    | inr e ↦ rw e ((e, All-intro _ ys (λ a m. w.not_less_trans x y a e (All-In _ a ys s.0 m))), s)
  ]

  pub sort_by-SortedBy : (xs : List A) → SortedBy less (sort_by less xs)
  unfolding sort_by
  sort_by-SortedBy [] = tt
  sort_by-SortedBy (x ∷ xs) = insert_by-SortedBy x (sort_by less xs) (sort_by-SortedBy xs)
