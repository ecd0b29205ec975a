-- ===== src/Base/Lists.antt =====
-- Lists measured by native numbers, Boolean searches in them, and membership by recursion.
use Prim.Native.Nat.{ℕ, zero, suc, ◌+◌, ◌≤◌}
use mathlib.Core.Path.{◌≡◌, refl, sym, ap}
use mathlib.Core.Logic.{◌↔◌, ◌⊎◌, inl, inr}
use mathlib.Core.Bool.{Bool, true, false, not, ◌&&◌, ◌||◌}
use mathlib.Core.List.{List, [], ◌∷◌, ◌++◌, map}
use native.Mathlib.Omega.{arith}
use urbanist_atlas.Base.Tests.{Eq, ◌==◌, if◌then◌else◌, Bool-cases}

module _ {ℓ} {A : Type ℓ} where
  abbrev pub length : List A → ℕ
  length [] = 0
  length (x ∷ xs) = suc (length xs)

  abbrev pub take : ℕ → List A → List A
  take zero xs = []
  take (suc n) [] = []
  take (suc n) (x ∷ xs) = x ∷ take n xs

  abbrev pub drop : ℕ → List A → List A
  drop zero xs = xs
  drop (suc n) [] = []
  drop (suc n) (x ∷ xs) = drop n xs

  -- The elements that pass the test, as a loop with `continue` collects them.
  abbrev pub select : (A → Bool) → List A → List A
  select p [] = []
  select p (x ∷ xs) = let rest = select p xs in if p x then x ∷ rest else rest

  abbrev pub any : (A → Bool) → List A → Bool
  any p [] = false
  any p (x ∷ xs) = p x || any p xs

  abbrev pub all : (A → Bool) → List A → Bool
  all p [] = true
  all p (x ∷ xs) = p x && all p xs

  pub length-append : (xs ys : List A) → length (xs ++ ys) ≡ length xs + length ys
  length-append [] ys = omega arith
  length-append (x ∷ xs) ys = omega (arith, length-append xs ys)

  pub length-select-le : (p : A → Bool) (xs : List A) → length (select p xs) ≤ length xs
  length-select-le p [] = omega arith
  length-select-le p (x ∷ xs) = ground (arith, length-select-le p xs)

  pub length-take-le : (n : ℕ) (xs : List A) → length (take n xs) ≤ n
  length-take-le zero xs = omega arith
  length-take-le (suc n) [] = omega arith
  length-take-le (suc n) (x ∷ xs) = omega (arith, length-take-le n xs)

pub List-cases {ℓ} :
    {A : Type ℓ} (xs : List A) → (xs ≡ []) ⊎ ((x : A) × (rest : List A) × (xs ≡ x ∷ rest))
List-cases [] = inl refl
List-cases (x ∷ xs) = inr (x, xs, refl)

-- A predicate by recursion computes to pairs, and membership to alternatives.
abbrev pub All {ℓ κ} : {A : Type ℓ} → (A → Type κ) → List A → Type κ
All P [] = Unit
All P (x ∷ xs) = P x × All P xs

module _ {A : Type 0} where
  abbrev pub In : A → List A → Type 0
  In a [] = ⊥
  In a (x ∷ xs) = (a ≡ x) ⊎ In a xs

  -- No element occurs twice.
  abbrev pub Distinct : List A → Type 0
  Distinct [] = Unit {0}
  Distinct (x ∷ xs) = (¬ In x xs) × Distinct xs

  pub In-append : (a : A) (xs ys : List A) → In a (xs ++ ys) ↔ (In a xs ⊎ In a ys)
  In-append a [] ys = ground arith
  In-append a (x ∷ xs) ys = ground (arith, In-append a xs ys)

  pub In-concat : (a x : A) (xs : List A) → In a (xs ++ x ∷ []) ↔ (In a xs ⊎ (a ≡ x))
  In-concat a x [] = ground arith
  In-concat a x (y ∷ xs) = ground (arith, In-concat a x xs)

  pub In-select :
      (p : A → Bool) (a : A) (xs : List A) → In a (select p xs) ↔ (In a xs × (p a ≡ true))
  In-select p a [] = ground arith
  In-select p a (x ∷ xs) = ground (arith, In-select p a xs)

  pub All-In {κ} : (P : A → Type κ) (a : A) (xs : List A) → All P xs → In a xs → P a
  All-In P a (x ∷ xs) h (inl e) = rw e h.0
  All-In P a (x ∷ xs) h (inr m) = All-In P a xs h.1 m
  All-In P a [] h m = elim m [ ]

  pub All-intro {κ} : (P : A → Type κ) (xs : List A) → ((a : A) → In a xs → P a) → All P xs
  All-intro P [] h = tt
  All-intro P (x ∷ xs) h = (h x (inl refl), All-intro P xs (λ a m. h a (inr m)))

  pub Distinct-concat : (x : A) (xs : List A) → Distinct xs → ¬ In x xs → Distinct (xs ++ x ∷ [])
  Distinct-concat x [] d h = (λ m. m, tt)
  Distinct-concat x (y ∷ xs) d h = (
    λ m. elim ((In-concat y x xs).0 m) [ inl old ↦ d.0 old | inr e ↦ h (inl (sym e)) ],
    Distinct-concat x xs d.1 (λ m. h (inr m)),
  )

  -- An element that a loop with early exit looks for.
  pub any_intro : (p : A → Bool) (a : A) (xs : List A) → In a xs → p a ≡ true → any p xs ≡ true
  any_intro p a [] m h = elim m [ ]
  any_intro p a (x ∷ xs) m h = ground (arith, any_intro p a xs)

  pub all-In : (p : A → Bool) (a : A) (xs : List A) → all p xs ≡ true → In a xs → p a ≡ true
  all-In p a [] h m = elim m [ ]
  all-In p a (x ∷ xs) h m = ground (arith, all-In p a xs)

  pub any_witness :
      (p : A → Bool) (xs : List A) → any p xs ≡ true → (a : A) × In a xs × (p a ≡ true)
  any_witness p [] h = cc
  any_witness p (x ∷ xs) h = elim (Bool-cases (p x)) [
    | inl e ↦ (x, inl refl, e)
    | inr e ↦ let (a, m, q) = any_witness p xs (rw e at h) in (a, inr m, q)
  ]

module _ {A : Type 0} ⦃e : Eq A⦄ where
  abbrev pub member : A → List A → Bool
  member a = any (λ x. x == a)

  pub member_iff : (a : A) (xs : List A) → (member a xs ≡ true) ↔ In a xs
  member_iff a [] = (λ h. cc, λ m. elim m [ ])
  member_iff a (x ∷ xs) = ground (arith, e.equal_iff x a, member_iff a xs)

  -- A finite set within another, and two finite sets apart, by evaluation.
  pub member_subset :
      (a : A) (xs ys : List A)
      → all (λ x. member x ys) xs ≡ true
      → member a xs ≡ true
      → member a ys ≡ true
  member_subset a xs ys h m = all-In (λ x. member x ys) a xs h ((member_iff a xs).0 m)

  pub member_apart :
      (a : A) (xs ys : List A)
      → all (λ x. not (member x ys)) xs ≡ true
      → member a xs ≡ true
      → member a ys ≡ false
  member_apart a xs ys h m =
      ground (arith, all-In (λ x. not (member x ys)) a xs h ((member_iff a xs).0 m))

pub length-map {ℓ κ} :
    {A : Type ℓ} {B : Type κ} (f : A → B) (xs : List A) → length (map f xs) ≡ length xs
length-map f [] = refl
length-map f (x ∷ xs) = ap suc (length-map f xs)

pub In-map : {A B : Type 0} (f : A → B) (a : A) (xs : List A) → In a xs → In (f a) (map f xs)
In-map f a [] m = elim m [ ]
In-map f a (x ∷ xs) (inl e) = inl (ap f e)
In-map f a (x ∷ xs) (inr m) = inr (In-map f a xs m)

pub In-map_inv :
    {A B : Type 0} (f : A → B) (b : B) (xs : List A)
    → In b (map f xs)
    → (a : A) × In a xs × (b ≡ f a)
In-map_inv f b [] m = elim m [ ]
In-map_inv f b (x ∷ xs) (inl e) = (x, inl refl, e)
In-map_inv f b (x ∷ xs) (inr m) = let (a, k, e) = In-map_inv f b xs m in (a, inr k, e)

-- The rows behind `x` that are held against its key as well.
pub fresh_cons_iff {ℓ} :
    {A : Type ℓ} {B : Type 0} (key : A → B) (x : B) (seen : List B) (rows : List A)
    → All (λ q. ¬ In (key q) (x ∷ seen)) rows
      ↔ ((¬ In x (map key rows)) × All (λ q. ¬ In (key q) seen) rows)
fresh_cons_iff key x seen [] = (λ h. (λ m. m, tt), λ h. tt)
fresh_cons_iff key x seen (q ∷ rows) =
    let rest = fresh_cons_iff key x seen rows in
    (
      λ h. (
        λ m. elim m [ inl same ↦ h.0 (inl (sym same)) | inr old ↦ (rest.0 h.1).0 old ],
        (λ m. h.0 (inr m), (rest.0 h.1).1),
      ),
      λ (apart, fresh). (
        λ m. elim m [ inl same ↦ apart (inl (sym same)) | inr old ↦ fresh.0 old ],
        rest.1 (λ m. apart (inr m), fresh.1),
      ),
    )
