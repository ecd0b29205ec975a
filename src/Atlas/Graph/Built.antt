-- ===== src/Atlas/Graph/Built.antt =====
-- The graph of a store that was built by writes.
use urbanist_atlas.Base.{
  ℕ, ◌≡◌, sym, ap, subst, ◌⊎◌, inl, inr, ◌↔◌, not, List, [], ◌∷◌, Unicode, Bytes, ◌==◌, nat_eq,
  bytes_eq, nat_eqb_iff, In, Distinct, Table, put, find, arith, Bool-cases, Option-cases, ok,
  >>=-eq-ok, ok_inj,
}
use urbanist_atlas.Atlas.Types.{Region}
use urbanist_atlas.Atlas.Store.{
  MemStore, new_mem_store, parent_ids, store_region, add_region, add_rollup_state, add_org,
  add_postal_code,
}
use urbanist_atlas.Atlas.Store.Invariant.{
  Write, region, rollup_state, org, postal_code, apply_write, apply_writes,
}
use urbanist_atlas.Atlas.Postal.{postal_key}
use urbanist_atlas.Atlas.Graph.{build_children_of}
use urbanist_atlas.Atlas.Graph.Reach.{Reach}
use urbanist_atlas.Atlas.Graph.Children.{edge_keys, descendant_iff_ancestor}

In-edge_keys-put :
    (j k : ℕ) (v : List ℕ) (m : Table ℕ (List ℕ))
    → In j (edge_keys (put k v m))
    → (j ≡ k) ⊎ In j (edge_keys m)
unfolding put
In-edge_keys-put j k v [] m = m
In-edge_keys-put j k v ((i, w) ∷ t) m = ground (arith, In-edge_keys-put j k v t, nat_eqb_iff i k)

Distinct-put :
    (k : ℕ) (v : List ℕ) (m : Table ℕ (List ℕ))
    → Distinct (edge_keys m)
    → Distinct (edge_keys (put k v m))
unfolding put
Distinct-put k v [] d = (λ m. m, tt)
Distinct-put k v ((i, w) ∷ t) d =
    ground (arith, Distinct-put k v t, In-edge_keys-put i k v t, nat_eqb_iff i k)

-- One entry for each child.
abbrev OneEntry : MemStore → Type 0
OneEntry s = Distinct (edge_keys s.parents)

module _ (u : Unicode) where
  store_region-OneEntry :
      (s : MemStore) (r : Region) (ids : List ℕ) → OneEntry s → OneEntry (store_region s r ids)
  unfolding store_region
  store_region-OneEntry s r [] d = d
  store_region-OneEntry s r (p ∷ ps) d = Distinct-put r.id (p ∷ ps) s.parents d

  add_region-OneEntry :
      (s s' : MemStore) (r : Region) → add_region u s r ≡ ok s' → OneEntry s → OneEntry s'
  unfolding add_region
  add_region-OneEntry s s' r h d = elim (Bool-cases (not (r.slug == u.to_lower r.slug))) [
    | inl upper ↦ cc (rw (upper, add_region) at h)
    | inr lower ↦
        let (ids, e, g) =
          >>=-eq-ok (parent_ids s.regions_by_slug r.slug r.parent_slugs)
            (λ l. ok (store_region s r l)) (rw (lower, add_region) at h) in
        subst OneEntry (ok_inj g) (store_region-OneEntry s r ids d)
  ]

  add_rollup_state-parents :
      (s : MemStore) (metro state : Bytes) → (add_rollup_state s metro state).parents ≡ s.parents
  unfolding add_rollup_state
  add_rollup_state-parents s metro state = ground arith

  add_postal_code-parents :
      (s s' : MemStore) (country code : Bytes) (leaf : ℕ)
      → add_postal_code u s country code leaf ≡ ok s'
      → s'.parents ≡ s.parents
  unfolding add_postal_code
  add_postal_code-parents s s' country code leaf h =
      elim (Option-cases (find (postal_key u country code) s.postal_to_leaf)) [
        | inl e ↦ ap (λ t. t.parents) (sym (ok_inj (rw (e, add_postal_code) at h)))
        | inr (prev, e) ↦ elim (Bool-cases (prev == leaf)) [
          | inl same ↦ ap (λ t. t.parents) (sym (ok_inj (rw (e, same, add_postal_code) at h)))
          | inr ne ↦ cc (rw (e, ne, add_postal_code) at h)
        ]
      ]

  apply_write-OneEntry :
      (s s' : MemStore) (w : Write) → apply_write u s w ≡ ok s' → OneEntry s → OneEntry s'
  unfolding apply_write add_org
  apply_write-OneEntry s s' (region r) h d = add_region-OneEntry s s' r h d
  apply_write-OneEntry s s' (rollup_state metro state) h d =
      subst OneEntry (ok_inj h)
        (subst (λ p. Distinct (edge_keys p)) (sym (add_rollup_state-parents s metro state)) d)
  apply_write-OneEntry s s' (org o ids) h d = subst OneEntry (ok_inj h) d
  apply_write-OneEntry s s' (postal_code country code leaf) h d =
      subst (λ p. Distinct (edge_keys p)) (sym (add_postal_code-parents s s' country code leaf h)) d

  apply_writes-OneEntry :
      (s s' : MemStore) (ws : List Write) → apply_writes u s ws ≡ ok s' → OneEntry s → OneEntry s'
  unfolding apply_writes
  apply_writes-OneEntry s s' [] h d = subst OneEntry (ok_inj h) d
  apply_writes-OneEntry s s' (w ∷ ws) h d =
      let (t, e, g) = >>=-eq-ok (apply_write u s w) (λ x. apply_writes u x ws) h in
      apply_writes-OneEntry t s' ws g (apply_write-OneEntry s t w e d)

  -- In a store that writes have built from the empty one, a region is among the descendants of another
  -- exactly when that is among its ancestors.
  pub built-descendant_iff_ancestor :
      (s : MemStore) (ws : List Write) (a b : ℕ)
      → apply_writes u new_mem_store ws ≡ ok s
      → Reach s (build_children_of s) a b ↔ Reach s s.parents b a
  unfolding new_mem_store
  built-descendant_iff_ancestor s ws a b h =
      descendant_iff_ancestor s (apply_writes-OneEntry new_mem_store s ws h tt) a b
