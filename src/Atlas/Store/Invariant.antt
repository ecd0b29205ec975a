-- ===== src/Atlas/Store/Invariant.antt =====
-- What every store built by the writes satisfies.
use urbanist_atlas.Base.{
  ℕ, ◌≡◌, refl, sym, ap, subst, ◌∙◌, inl, inr, List, [], ◌∷◌, some, Bytes, Unicode, ◌==◌, nat_eq,
  bytes_eq, nat_eqb_iff, find, find_or, put, find-put, find-put_self, find_or-put, ok_inj, In,
  In-concat, Bool-cases, Option-cases, some_inj, member, Result, ok, ◌>>=◌, >>=-eq-ok, not,
}
use urbanist_atlas.Atlas.Types.{Region, Org}
use urbanist_atlas.Atlas.Postal.{postal_key}
use urbanist_atlas.Atlas.Store.{
  MemStore, new_mem_store, StoreError, parent_ids, store_region, add_region, add_rollup_state,
  add_org, add_postal_code,
}

abbrev pub Registered : MemStore → ℕ → Type 0
Registered s id = (r : Region) × (find id s.regions_by_id ≡ some r)

-- Regions stand under their own ids, and slugs, edges and rollups lead to registered regions.
pub record IsClosed (s : MemStore) : Type 0 where
  pub ids : (id : ℕ) (r : Region) → find id s.regions_by_id ≡ some r → r.id ≡ id
  pub by_slug : (slug : Bytes) (id : ℕ) → find slug s.regions_by_slug ≡ some id → Registered s id
  pub edges : (id p : ℕ) → In p (find_or id s.parents []) → Registered s p
  pub rollups : (id m : ℕ) → In m (find_or id s.rollup_by_state []) → Registered s m

-- The writes of the store, as a caller may make them.
pub data Write : Type 0 where
  region : Region → Write
  rollup_state : Bytes → Bytes → Write
  org : Org → List ℕ → Write
  postal_code : Bytes → Bytes → ℕ → Write

unfoldable pub apply_write : Unicode → MemStore → Write → Result StoreError MemStore
unfolding add_region add_rollup_state add_org add_postal_code
apply_write u s (region r) = add_region u s r
apply_write u s (rollup_state metro state) = ok (add_rollup_state s metro state)
apply_write u s (org o ids) = ok (add_org s o ids)
apply_write u s (postal_code country code leaf) = add_postal_code u s country code leaf

unfoldable pub apply_writes : Unicode → MemStore → List Write → Result StoreError MemStore
unfolding apply_write
apply_writes u s [] = ok s
apply_writes u s (w ∷ ws) = apply_write u s w >>= λ s'. apply_writes u s' ws

new_mem_store-IsClosed : IsClosed new_mem_store
unfolding new_mem_store find find_or
new_mem_store-IsClosed = record {
  ids = λ id r e. cc;
  by_slug = λ slug id e. cc;
  edges = λ id p m. elim m [ ];
  rollups = λ id p m. elim m [ ];
}

-- The parents that AddRegion resolves are registered.
parent_ids-Registered :
    (s : MemStore) (slug : Bytes) (ps : List Bytes) (ids : List ℕ) (p : ℕ)
    → IsClosed s
    → parent_ids s.regions_by_slug slug ps ≡ ok ids
    → In p ids
    → Registered s p
unfolding parent_ids
parent_ids-Registered s slug [] ids p c h m = absurd (subst (In p) (sym (ok_inj h)) m)
parent_ids-Registered s slug (q ∷ ps) ids p c h m = elim (Option-cases (find q s.regions_by_slug)) [
  | inl e ↦ cc (rw (e, parent_ids) at h)
  | inr (pid, e) ↦
      let (rest, f, g) =
        >>=-eq-ok (parent_ids s.regions_by_slug slug ps) (λ l. ok (pid ∷ l))
          (rw (e, parent_ids) at h) in
      elim (subst (In p) (sym (ok_inj g)) m) [
        | inl same ↦ rw same (c.by_slug q pid e)
        | inr old ↦ parent_ids-Registered s slug ps rest p c f old
      ]
]

put-Registered :
    (s : MemStore) (r : Region) (id : ℕ)
    → Registered s id
    → (q : Region) × (find id (put r.id r s.regions_by_id) ≡ some q)
put-Registered s r id (q, e) = elim (Bool-cases (r.id == id)) [
  | inl eq ↦ (r, rw find-put (rw eq refl))
  | inr ne ↦ (q, rw find-put (rw ne e))
]

-- The fields that every write of a region leaves in order.
module _ (s : MemStore) (r : Region) (c : IsClosed s) where
  put_ids : (id : ℕ) (q : Region) → find id (put r.id r s.regions_by_id) ≡ some q → q.id ≡ id
  put_ids id q e = elim (Bool-cases (r.id == id)) [
    | inl eq ↦
        let same : r ≡ q = some_inj (rw (find-put, eq) at e) in
        ap (λ x. x.id) (sym same) ∙ (nat_eqb_iff r.id id).0 eq
    | inr ne ↦ c.ids id q (rw (find-put, ne) at e)
  ]

  put_slugs :
      (slug : Bytes) (id : ℕ)
      → find slug (put r.slug r.id s.regions_by_slug) ≡ some id
      → (q : Region) × (find id (put r.id r s.regions_by_id) ≡ some q)
  put_slugs slug id e = elim (Bool-cases (r.slug == slug)) [
    | inl eq ↦
        let same : r.id ≡ id = some_inj (rw (find-put, eq) at e) in
        (
          r,
          subst (λ i. find i (put r.id r s.regions_by_id) ≡ some r) same
              (find-put_self r.id r s.regions_by_id),
        )
    | inr ne ↦ put-Registered s r id (c.by_slug slug id (rw (find-put, ne) at e))
  ]

  put_edges :
      (ids : List ℕ)
      → ((p : ℕ) → In p ids → Registered s p)
      → (id p : ℕ) → In p (find_or id (put r.id ids s.parents) [])
      → (q : Region) × (find p (put r.id r s.regions_by_id) ≡ some q)
  put_edges ids h id p m = put-Registered s r p (elim (Bool-cases (r.id == id)) [
    | inl eq ↦ h p (rw (find_or-put, eq) at m)
    | inr ne ↦ c.edges id p (rw (find_or-put, ne) at m)
  ])

store_region-IsClosed :
    (s : MemStore) (r : Region) (ids : List ℕ)
    → IsClosed s
    → ((p : ℕ) → In p ids → Registered s p)
    → IsClosed (store_region s r ids)
unfolding store_region
store_region-IsClosed s r [] c h = record {
  ids = put_ids s r c;
  by_slug = put_slugs s r c;
  edges = λ id p m. put-Registered s r p (c.edges id p m);
  rollups = λ id p m. put-Registered s r p (c.rollups id p m);
}
store_region-IsClosed s r (p ∷ ps) c h = record {
  ids = put_ids s r c;
  by_slug = put_slugs s r c;
  edges = put_edges s r c (p ∷ ps) h;
  rollups = λ id p m. put-Registered s r p (c.rollups id p m);
}

add_region-IsClosed :
    (u : Unicode) (s s' : MemStore) (r : Region)
    → IsClosed s
    → add_region u s r ≡ ok s'
    → IsClosed s'
unfolding add_region
add_region-IsClosed u s s' r c h = elim (Bool-cases (not (r.slug == u.to_lower r.slug))) [
  | inl upper ↦ cc (rw (upper, add_region) at h)
  | inr lower ↦
      let (ids, e, g) =
        >>=-eq-ok (parent_ids s.regions_by_slug r.slug r.parent_slugs)
          (λ l. ok (store_region s r l)) (rw (lower, add_region) at h) in
      subst IsClosed (ok_inj g) (
        store_region-IsClosed s r ids c
          (λ p m. parent_ids-Registered s r.slug r.parent_slugs ids p c e m))
]

add_rollup_state-IsClosed :
    (s : MemStore) (metro state : Bytes) → IsClosed s → IsClosed (add_rollup_state s metro state)
unfolding add_rollup_state
add_rollup_state-IsClosed s metro state c = elim (Option-cases (find metro s.regions_by_slug)) [
  | inl e ↦ rw (e, add_rollup_state) c
  | inr (m, e) ↦ elim (Option-cases (find state s.regions_by_slug)) [
    | inl f ↦ rw (e, f, add_rollup_state) c
    | inr (t, f) ↦ elim (Bool-cases (member m (find_or t s.rollup_by_state []))) [
      | inl dup ↦ rw (e, f, dup, add_rollup_state) c
      | inr new ↦
          rw (e, f, new, add_rollup_state)
            (record {
              ids = c.ids;
              by_slug = c.by_slug;
              edges = c.edges;
              rollups = λ id x k. elim (Bool-cases (t == id)) [
                | inl eq ↦ elim ((In-concat x m _).0 (rw (find_or-put, eq) at k)) [
                  | inl old ↦ c.rollups t x old
                  | inr same ↦ rw same (c.by_slug metro m e)
                ]
                | inr ne ↦ c.rollups id x (rw (find_or-put, ne) at k)
              ];
            })
    ]
  ]
]

add_postal_code-IsClosed :
    (u : Unicode) (s s' : MemStore) (country code : Bytes) (leaf : ℕ)
    → IsClosed s
    → add_postal_code u s country code leaf ≡ ok s'
    → IsClosed s'
unfolding add_postal_code
add_postal_code-IsClosed u s s' country code leaf c h =
    elim (Option-cases (find (postal_key u country code) s.postal_to_leaf)) [
      | inl e ↦ subst IsClosed (ok_inj (rw (e, add_postal_code) at h)) same
      | inr (prev, e) ↦ elim (Bool-cases (prev == leaf)) [
        | inl eq ↦ subst IsClosed (ok_inj (rw (e, eq, add_postal_code) at h)) same
        | inr ne ↦ cc (rw (e, ne, add_postal_code) at h)
      ]
    ]
  where
    same :
        IsClosed
          (record s { postal_to_leaf = put (postal_key u country code) leaf s.postal_to_leaf })
    same = record { ids = c.ids; by_slug = c.by_slug; edges = c.edges; rollups = c.rollups }

apply_write-IsClosed :
    (u : Unicode) (s s' : MemStore) (w : Write)
    → IsClosed s
    → apply_write u s w ≡ ok s'
    → IsClosed s'
unfolding apply_write add_org
apply_write-IsClosed u s s' (region r) c h = add_region-IsClosed u s s' r c h
apply_write-IsClosed u s s' (rollup_state metro state) c h =
    subst IsClosed (ok_inj h) (add_rollup_state-IsClosed s metro state c)
apply_write-IsClosed u s s' (org o ids) c h =
    subst IsClosed (ok_inj h)
      (record { ids = c.ids; by_slug = c.by_slug; edges = c.edges; rollups = c.rollups })
apply_write-IsClosed u s s' (postal_code country code leaf) c h =
    add_postal_code-IsClosed u s s' country code leaf c h

apply_writes-IsClosed_from :
    (u : Unicode) (s s' : MemStore) (ws : List Write)
    → IsClosed s
    → apply_writes u s ws ≡ ok s'
    → IsClosed s'
unfolding apply_writes
apply_writes-IsClosed_from u s s' [] c h = subst IsClosed (ok_inj h) c
apply_writes-IsClosed_from u s s' (w ∷ ws) c h =
    let (t, e, g) = >>=-eq-ok (apply_write u s w) (λ x. apply_writes u x ws) h in
    apply_writes-IsClosed_from u t s' ws (apply_write-IsClosed u s t w c e) g

-- After any sequence of writes that succeed on the empty store, every region stands under its own id,
-- and every slug, parent edge and rollup entry leads to a registered region.
pub apply_writes-IsClosed :
    (u : Unicode) (s : MemStore) (ws : List Write)
    → apply_writes u new_mem_store ws ≡ ok s
    → IsClosed s
apply_writes-IsClosed u s ws h =
    apply_writes-IsClosed_from u new_mem_store s ws new_mem_store-IsClosed h
