-- ===== src/Seed/Build/Flat.antt =====
-- Loops of loops as one loop over rows, and loops whose rounds are writes to the store.
use urbanist_atlas.Base.{
  ◌≡◌, refl, ap, List, [], ◌∷◌, ◌++◌, bytes_eq, Unicode, map, Result, ok, >>=-eq-ok, ok_inj,
  fold_ok,
}
use urbanist_atlas.Atlas.Store.{MemStore}
use urbanist_atlas.Atlas.Store.Invariant.{Write, apply_write, apply_writes}
use urbanist_atlas.Seed.Load.{SeedError}
use urbanist_atlas.Seed.Build.Writes.{or_empty, concat_map}

module _ {S A : Type 0} (step : S → A → Result SeedError S) where
  fold_ok_append :
      (s t v : S) (xs ys : List A)
      → fold_ok step s xs ≡ ok t
      → fold_ok step t ys ≡ ok v
      → fold_ok step s (xs ++ ys) ≡ ok v
  unfolding fold_ok
  fold_ok_append s t v [] ys h k = rw (ok_inj h) k
  fold_ok_append s t v (x ∷ xs) ys h k =
      let (m, e, g) = >>=-eq-ok (step s x) (λ z. fold_ok step z xs) h in
      rw (e) (fold_ok_append m t v xs ys g k)

  -- A loop of loops is one loop over all the rows.
  pub fold_ok-concat_map :
      {X : Type 0} (outer : S → X → Result SeedError S) (rows : X → List A)
      → ((s t : S) (x : X) → outer s x ≡ ok t → fold_ok step s (rows x) ≡ ok t)
      → (s t : S) (xs : List X) → fold_ok outer s xs ≡ ok t
      → fold_ok step s (concat_map rows xs) ≡ ok t
  unfolding fold_ok concat_map
  fold_ok-concat_map outer rows same s t [] h = h
  fold_ok-concat_map outer rows same s t (x ∷ xs) h =
      let (m, e, g) = >>=-eq-ok (outer s x) (λ z. fold_ok outer z xs) h in
      fold_ok_append s m t (rows x) (concat_map rows xs) (same s m x e)
        (fold_ok-concat_map outer rows same m t xs g)

pub or_empty-ok : {E A : Type 0} (r : Result E (List A)) (l : List A) → r ≡ ok l → or_empty r ≡ l
unfolding or_empty
or_empty-ok r l h = rw (h) refl

module _ (u : Unicode) where
  pub apply_writes-append :
      (s t v : MemStore) (ws vs : List Write)
      → apply_writes u s ws ≡ ok t
      → apply_writes u t vs ≡ ok v
      → apply_writes u s (ws ++ vs) ≡ ok v
  unfolding apply_writes
  apply_writes-append s t v [] vs h k = rw (ok_inj h) k
  apply_writes-append s t v (w ∷ ws) vs h k =
      let (m, e, g) = >>=-eq-ok (apply_write u s w) (λ z. apply_writes u z ws) h in
      rw (e) (apply_writes-append m t v ws vs g k)

  pub apply_writes-cons :
      (s t v : MemStore) (w : Write) (ws : List Write)
      → apply_write u s w ≡ ok t
      → apply_writes u t ws ≡ ok v
      → apply_writes u s (w ∷ ws) ≡ ok v
  unfolding apply_writes
  apply_writes-cons s t v w ws h k = rw (h) k

  -- A loop whose rounds are single writes.
  pub fold_ok-map :
      {S A : Type 0} (step : S → A → Result SeedError S) (store : S → MemStore) (write : A → Write)
      → ((s t : S) (a : A) → step s a ≡ ok t → apply_write u (store s) (write a) ≡ ok (store t))
      → (s t : S) (rows : List A) → fold_ok step s rows ≡ ok t
      → apply_writes u (store s) (map write rows) ≡ ok (store t)
  unfolding fold_ok apply_writes
  fold_ok-map step store write one s t [] h = ap ok (ap store (ok_inj h))
  fold_ok-map step store write one s t (a ∷ rows) h =
      let (m, e, g) = >>=-eq-ok (step s a) (λ z. fold_ok step z rows) h in
      rw (one s m a e) (fold_ok-map step store write one m t rows g)
