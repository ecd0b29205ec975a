-- ===== src/Base/Results.antt =====
-- A value or an error, as Go returns the pair of them, and the loop that stops at the first error.
use mathlib.Core.Path.{◌≡◌, refl, subst}
use mathlib.Core.List.{List, [], ◌∷◌}

pub data Result {ℓ κ} (E : Type ℓ) (A : Type κ) : Type (ℓ ⊔ κ) where
  ok : A → Result E A
  err : E → Result E A

infixl 5 ◌>>=◌
abbrev pub ◌>>=◌ {ℓ κ μ} :
    {E : Type ℓ} {A : Type κ} {B : Type μ} (first : Result E A) (next : A → Result E B) → Result E B
err failure >>= next = err failure
ok value >>= next = next value

-- Inversion of a bind that succeeds, for proofs where its parts stay shut.
pub >>=-eq-ok {ℓ κ μ} :
    {Err : Type ℓ} {Mid : Type κ} {End : Type μ} (first : Result Err Mid)
    (next : Mid → Result Err End) {last : End} (done : (first >>= next) ≡ ok last)
    → (mid : Mid) × (first ≡ ok mid) × (next mid ≡ ok last)
>>=-eq-ok (err failure) next done = cc
>>=-eq-ok (ok mid) next done = (mid, refl, done)

pub ok_inj {ℓ κ} : {E : Type ℓ} {A : Type κ} {a b : A} → ◌≡◌ {A = Result E A} (ok a) (ok b) → a ≡ b
ok_inj e = cc

-- fmt.Errorf("...: %w", err)
abbrev pub wrap {ℓ κ μ} : {E : Type ℓ} {F : Type κ} {A : Type μ} → (E → F) → Result E A → Result F A
wrap f (ok a) = ok a
wrap f (err e) = err (f e)

pub wrap-eq-ok {ℓ κ μ} :
    {E : Type ℓ} {F : Type κ} {A : Type μ} (f : E → F) (r : Result E A) {a : A}
    → wrap f r ≡ ok a
    → r ≡ ok a
wrap-eq-ok f (ok b) h = cc
wrap-eq-ok f (err e) h = cc

-- A loop that returns at the first error.
unfoldable pub fold_ok {ℓ κ μ} :
    {E : Type ℓ} {S : Type κ} {A : Type μ} → (S → A → Result E S) → S → List A → Result E S
fold_ok step s [] = ok s
fold_ok step s (a ∷ rest) = step s a >>= λ t. fold_ok step t rest

-- What each round keeps, the loop keeps.
pub fold_ok-kept {ℓ κ μ ν} :
    {E : Type ℓ} {S : Type κ} {A : Type μ} (Kept : S → Type ν) (step : S → A → Result E S)
    → ((s s' : S) (a : A) → Kept s → step s a ≡ ok s' → Kept s')
    → (s s' : S) (rest : List A) → Kept s
    → fold_ok step s rest ≡ ok s'
    → Kept s'
unfolding fold_ok
fold_ok-kept Kept step round s s' [] k h = subst Kept (ok_inj h) k
fold_ok-kept Kept step round s s' (a ∷ rest) k h =
    let (t, e, g) = >>=-eq-ok (step s a) (λ x. fold_ok step x rest) h in
    fold_ok-kept Kept step round t s' rest (round s t a k e) g
