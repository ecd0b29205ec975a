-- ===== src/Seed/Build/Written.antt =====
-- What the writes of a build keep: the store is written, and all that it holds resolves.
use urbanist_atlas.Base.{
  ℕ, ◌≡◌, refl, sym, ap, subst, ◌∙◌, inl, inr, Bool-cases, Option-cases, List, [], ◌∷◌, ◌++◌, some,
  some_inj, arith, Bytes, bytes_eq, nat_eq, ◌==◌, Unicode, Table, find, find_or, put, find-put,
  find_or-put, In, ok, >>=-eq-ok, ok_inj,
}
use urbanist_atlas.Atlas.Types.{Org}
use urbanist_atlas.Atlas.Postal.{postal_key}
use urbanist_atlas.Atlas.Store.{MemStore, new_mem_store, add_rollup_state, add_postal_code, add_org}
use urbanist_atlas.Atlas.Store.Invariant.{
  Write, rollup_state, org, postal_code, apply_write, apply_writes,
}

-- The store comes from the empty one by writes that succeed.
abbrev pub Written : Unicode → MemStore → Type 0
Written u s = (ws : List Write) × (apply_writes u new_mem_store ws ≡ ok s)

apply_writes_append :
    (u : Unicode) (s t s' : MemStore) (ws : List Write) (w : Write)
    → apply_writes u s ws ≡ ok t
    → apply_write u t w ≡ ok s'
    → apply_writes u s (ws ++ w ∷ []) ≡ ok s'
unfolding apply_writes
apply_writes_append u s t s' [] w h e = rw (ok_inj h) (rw (e) refl)
apply_writes_append u s t s' (v ∷ ws) w h e =
    let (m, f, g) = >>=-eq-ok (apply_write u s v) (λ x. apply_writes u x ws) h in
    rw (f) (apply_writes_append u m t s' ws w g e)

pub Written-next :
    (u : Unicode) (s s' : MemStore) (w : Write)
    → Written u s
    → apply_write u s w ≡ ok s'
    → Written u s'
Written-next u s s' w (ws, h) e = (ws ++ w ∷ [], apply_writes_append u new_mem_store s s' ws w h e)

-- Some slug has the id.
abbrev pub Owned : Table Bytes ℕ → ℕ → Type 0
Owned ids id = (slug : Bytes) × (find slug ids ≡ some id)

-- The store is written, its slugs have the ids of the loader's map, and so has all that leads to a region.
pub record Resolved (u : Unicode) (ids : Table Bytes ℕ) (s : MemStore) : Type 0 where
  pub written : Written u s
  pub by_slug : s.regions_by_slug ≡ ids
  pub postal : (key : Bytes) (id : ℕ) → find key s.postal_to_leaf ≡ some id → Owned ids id
  pub orgs : (o id : ℕ) → In id (find_or o s.org_regions []) → Owned ids id

add_rollup_state-rest :
    (s : MemStore) (metro state : Bytes)
    → let s' = add_rollup_state s metro state in
      (s'.regions_by_slug ≡ s.regions_by_slug)
      × (s'.postal_to_leaf ≡ s.postal_to_leaf)
      × (s'.org_regions ≡ s.org_regions)
unfolding add_rollup_state
add_rollup_state-rest s metro state = ground arith

add_postal_code-ok :
    (u : Unicode) (s s' : MemStore) (country code : Bytes) (leaf : ℕ)
    → add_postal_code u s country code leaf ≡ ok s'
    → record s { postal_to_leaf = put (postal_key u country code) leaf s.postal_to_leaf } ≡ s'
unfolding add_postal_code
add_postal_code-ok u s s' country code leaf h =
    elim (Option-cases (find (postal_key u country code) s.postal_to_leaf)) [
      | inl e ↦ ok_inj (rw (e, add_postal_code) at h)
      | inr (prev, e) ↦ elim (Bool-cases (prev == leaf)) [
        | inl eq ↦ ok_inj (rw (e, eq, add_postal_code) at h)
        | inr ne ↦ cc (rw (e, ne, add_postal_code) at h)
      ]
    ]

module _ (u : Unicode) (ids : Table Bytes ℕ) where
  pub add_rollup_state-Resolved :
      (s : MemStore) (metro state : Bytes)
      → Resolved u ids s
      → Resolved u ids (add_rollup_state s metro state)
  unfolding apply_write
  add_rollup_state-Resolved s metro state r =
      let (slugs, codes, orgs) = add_rollup_state-rest s metro state in
      record {
        written =
            Written-next u s (add_rollup_state s metro state) (rollup_state metro state) r.written
              refl;
        by_slug = slugs ∙ r.by_slug;
        postal = λ key id e. r.postal key id (rw (codes) at e);
        orgs = λ o id m. r.orgs o id (rw (orgs) at m);
      }

  pub add_postal_code-Resolved :
      (s s' : MemStore) (country code : Bytes) (leaf : ℕ)
      → Owned ids leaf
      → Resolved u ids s
      → add_postal_code u s country code leaf ≡ ok s'
      → Resolved u ids s'
  unfolding apply_write
  add_postal_code-Resolved s s' country code leaf own r h =
      let done = add_postal_code-ok u s s' country code leaf h in
      subst (Resolved u ids) done (record {
        written =
            Written-next u s
              (record s { postal_to_leaf = put (postal_key u country code) leaf s.postal_to_leaf })
              (postal_code country code leaf) r.written (h ∙ ap ok (sym done));
        by_slug = r.by_slug;
        postal = λ key id e. elim (Bool-cases (postal_key u country code == key)) [
          | inl same ↦
              let leaf_id : leaf ≡ id = some_inj (rw (find-put, same) at e) in
              subst (Owned ids) leaf_id own
          | inr other ↦ r.postal key id (rw (find-put, other) at e)
        ];
        orgs = r.orgs;
      })

  pub add_org-Resolved :
      (s : MemStore) (o : Org) (region_ids : List ℕ)
      → ((id : ℕ) → In id region_ids → Owned ids id)
      → Resolved u ids s
      → Resolved u ids (add_org s o region_ids)
  unfolding apply_write add_org
  add_org-Resolved s o region_ids own r = record {
    written = Written-next u s (add_org s o region_ids) (org o region_ids) r.written refl;
    by_slug = r.by_slug;
    postal = r.postal;
    orgs = λ k id m. elim (Bool-cases (o.id == k)) [
      | inl same ↦ own id (rw (find_or-put, same) at m)
      | inr other ↦ r.orgs k id (rw (find_or-put, other) at m)
    ];
  }
