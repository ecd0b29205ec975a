-- ===== src/Atlas/Store/Writes.antt =====
-- What the writes leave alone, and what they refuse.
use urbanist_atlas.Base.{
  ℕ, ◌≡◌, refl, sym, ap, subst, ◌∙◌, inl, inr, not, List, [], ◌∷◌, none, some, arith, Bytes,
  Unicode, ◌==◌, nat_eq, bytes_eq, bytes_eqb_iff, nat_eqb_iff, find, find_or, find-put,
  find-put_self, Bool-cases, Option-cases, ok, >>=-eq-ok, ok_inj,
}
use urbanist_atlas.Atlas.Types.{Region}
use urbanist_atlas.Atlas.Postal.{postal_key}
use urbanist_atlas.Atlas.Store.{
  MemStore, parent_ids, store_region, add_region, add_rollup_state, add_org, add_postal_code,
}
use urbanist_atlas.Atlas.Store.Invariant.{
  Write, region, rollup_state, org, postal_code, apply_write, apply_writes,
}

module _ (u : Unicode) where
  store_region-postal :
      (s : MemStore) (r : Region) (ids : List ℕ)
      → (store_region s r ids).postal_to_leaf ≡ s.postal_to_leaf
  unfolding store_region
  store_region-postal s r [] = refl
  store_region-postal s r (p ∷ ps) = refl

  add_region-postal :
      (s s' : MemStore) (r : Region)
      → add_region u s r ≡ ok s'
      → s'.postal_to_leaf ≡ s.postal_to_leaf
  unfolding add_region
  add_region-postal s s' r h = elim (Bool-cases (not (r.slug == u.to_lower r.slug))) [
    | inl upper ↦ cc (rw (upper, add_region) at h)
    | inr lower ↦
        let (ids, e, g) =
          >>=-eq-ok (parent_ids s.regions_by_slug r.slug r.parent_slugs)
            (λ l. ok (store_region s r l)) (rw (lower, add_region) at h) in
        ap (λ t. t.postal_to_leaf) (sym (ok_inj g)) ∙ store_region-postal s r ids
  ]

  add_rollup_state-postal :
      (s : MemStore) (metro state : Bytes)
      → (add_rollup_state s metro state).postal_to_leaf ≡ s.postal_to_leaf
  unfolding add_rollup_state
  add_rollup_state-postal s metro state = ground arith

  add_postal_code-kept :
      (s s' : MemStore) (country code : Bytes) (leaf : ℕ) (key : Bytes) (id : ℕ)
      → add_postal_code u s country code leaf ≡ ok s'
      → find key s.postal_to_leaf ≡ some id
      → find key s'.postal_to_leaf ≡ some id
  unfolding add_postal_code
  add_postal_code-kept s s' country code leaf key id h f =
      let pk = postal_key u country code in
      elim (Option-cases (find pk s.postal_to_leaf)) [
        | inl e ↦
            subst (λ t. find key t.postal_to_leaf ≡ some id) (ok_inj (rw (e, add_postal_code) at h))
              (elim (Bool-cases (pk == key)) [
                | inl eq ↦
                    let absent : find key s.postal_to_leaf ≡ none =
                      subst (λ k. find k s.postal_to_leaf ≡ none) ((bytes_eqb_iff pk key).0 eq) e in
                    cc (absent, f)
                | inr ne ↦ rw (find-put, ne) f
              ])
        | inr (prev, e) ↦ elim (Bool-cases (prev == leaf)) [
          | inr ne ↦ cc (rw (e, ne, add_postal_code) at h)
          | inl same ↦
              subst (λ t. find key t.postal_to_leaf ≡ some id)
                (ok_inj (rw (e, same, add_postal_code) at h))
                (elim (Bool-cases (pk == key)) [
                  | inl eq ↦
                      let found : find key s.postal_to_leaf ≡ some prev =
                        subst (λ k. find k s.postal_to_leaf ≡ some prev)
                          ((bytes_eqb_iff pk key).0 eq) e in
                      let leaf_id : leaf ≡ id = cc (found, f, (nat_eqb_iff prev leaf).0 same) in
                      rw (find-put, eq) (ap some leaf_id)
                  | inr ne ↦ rw (find-put, ne) f
                ])
        ]
      ]

  apply_write-postal :
      (s s' : MemStore) (w : Write) (key : Bytes) (id : ℕ)
      → apply_write u s w ≡ ok s'
      → find key s.postal_to_leaf ≡ some id
      → find key s'.postal_to_leaf ≡ some id
  unfolding apply_write add_org
  apply_write-postal s s' (region r) key id h f = rw (add_region-postal s s' r h) f
  apply_write-postal s s' (rollup_state metro state) key id h f =
      subst (λ t. find key t.postal_to_leaf ≡ some id) (ok_inj h)
        (rw (add_rollup_state-postal s metro state) f)
  apply_write-postal s s' (org o ids) key id h f =
      subst (λ t. find key t.postal_to_leaf ≡ some id) (ok_inj h) f
  apply_write-postal s s' (postal_code country code leaf) key id h f =
      add_postal_code-kept s s' country code leaf key id h f

  -- A postal code that is mapped stays mapped to the same region through all writes that succeed.
  pub apply_writes-postal :
      (s s' : MemStore) (ws : List Write) (key : Bytes) (id : ℕ)
      → apply_writes u s ws ≡ ok s'
      → find key s.postal_to_leaf ≡ some id
      → find key s'.postal_to_leaf ≡ some id
  unfolding apply_writes
  apply_writes-postal s s' [] key id h f =
      subst (λ t. find key t.postal_to_leaf ≡ some id) (ok_inj h) f
  apply_writes-postal s s' (w ∷ ws) key id h f =
      let (t, e, g) = >>=-eq-ok (apply_write u s w) (λ x. apply_writes u x ws) h in
      apply_writes-postal t s' ws key id g (apply_write-postal s t w key id e f)

  -- A region with no parents that is registered is found under its id, and keeps the parent edges that
  -- were registered under that id before.
  pub add_region-stale_parents :
      (s s' : MemStore) (r : Region)
      → r.parent_slugs ≡ []
      → add_region u s r ≡ ok s'
      → (find r.id s'.regions_by_id ≡ some r)
        × (find_or r.id s'.parents [] ≡ find_or r.id s.parents [])
  unfolding add_region parent_ids store_region
  add_region-stale_parents s s' r p h = elim (Bool-cases (not (r.slug == u.to_lower r.slug))) [
    | inl upper ↦ cc (rw (upper, add_region) at h)
    | inr lower ↦
        let (ids, e, g) =
          >>=-eq-ok (parent_ids s.regions_by_slug r.slug r.parent_slugs)
            (λ l. ok (store_region s r l)) (rw (lower, add_region) at h) in
        let none_left = ok_inj (subst (λ l. parent_ids s.regions_by_slug r.slug l ≡ ok ids) p e) in
        let done = subst (λ l. store_region s r l ≡ s') (sym none_left) (ok_inj g) in
        (
          subst (λ t. find r.id t.regions_by_id ≡ some r) done
              (find-put_self r.id r s.regions_by_id),
          ap (λ t. find_or r.id t.parents []) (sym done),
        )
  ]
