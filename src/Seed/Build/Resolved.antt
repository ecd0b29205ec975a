-- ===== src/Seed/Build/Resolved.antt =====
-- The regions that a built store leads to.
use urbanist_atlas.Base.{
  ℕ, ◌≡◌, refl, Bool, sym, ap, subst, ◌∙◌, inl, inr, not, Bool-cases, Option-cases, List, [], ◌∷◌,
  some, Bytes, bytes_eq, nat_eq, nat_eqb, ◌==◌, Unicode, Table, find, find_or, put, In, ok,
  >>=-eq-ok, ok_inj, wrap, wrap-eq-ok, fold_ok, fold_ok-kept,
}
use urbanist_atlas.Atlas.Types.{Region}
use urbanist_atlas.Atlas.Fields.{UrlParser}
use urbanist_atlas.Atlas.Store.{
  MemStore, new_mem_store, parent_ids, store_region, add_region, add_postal_code,
}
use urbanist_atlas.Atlas.Store.Invariant.{
  region, apply_write, apply_writes, Registered, apply_writes-IsClosed,
}
use urbanist_atlas.Seed.Cycles.{detect_cycles_graph}
use urbanist_atlas.Seed.Orgs.{LocalDate, OrgEntry}
use urbanist_atlas.Seed.Postal.{PostalRow}
use urbanist_atlas.Seed.Assembly.{resolve_org_regions, assert_reachable_leaves}
use urbanist_atlas.Seed.Assembly.Checked.{resolve_org_regions_iff}
use urbanist_atlas.Seed.Load.{
  CountrySpec, Bundle, not_stored, unknown_org_regions, bad_graph, unreachable_leaves, Loading,
  start_loading, stamped, loaded, load_region, load_country_regions,
}
use urbanist_atlas.Seed.Load.Rounds.{load_region-ok, countries-kept}
use urbanist_atlas.Seed.Build.{
  load_rollup, load_rollups, Anchored, load_postal_row, read_postal, load_country_postal, Attached,
  load_org, read_orgs, finish_build, build_mem_store_of,
}
use urbanist_atlas.Atlas.Kinds.{is_rollup_target_kind}
use urbanist_atlas.Seed.Build.Written.{
  Written, Written-next, Owned, Resolved, add_rollup_state-Resolved, add_postal_code-Resolved,
  add_org-Resolved,
}

-- Stage 1 fills the regions alone.
record Fresh (u : Unicode) (l : Loading) : Type 0 where
  pub written : Written u l.store
  pub by_slug : l.store.regions_by_slug ≡ l.region_ids
  pub postal : l.store.postal_to_leaf ≡ []
  pub orgs : l.store.org_regions ≡ []

store_region-rest :
    (s : MemStore) (r : Region) (ids : List ℕ)
    → let s' = store_region s r ids in
      (s'.regions_by_slug ≡ put r.slug r.id s.regions_by_slug)
      × (s'.postal_to_leaf ≡ s.postal_to_leaf)
      × (s'.org_regions ≡ s.org_regions)
unfolding store_region
store_region-rest s r [] = (refl, refl, refl)
store_region-rest s r (p ∷ ps) = (refl, refl, refl)

add_region-rest :
    (u : Unicode) (s s' : MemStore) (r : Region)
    → add_region u s r ≡ ok s'
    → (s'.regions_by_slug ≡ put r.slug r.id s.regions_by_slug)
      × (s'.postal_to_leaf ≡ s.postal_to_leaf)
      × (s'.org_regions ≡ s.org_regions)
unfolding add_region
add_region-rest u s s' r h = elim (Bool-cases (not (r.slug == u.to_lower r.slug))) [
  | inl upper ↦ cc (rw (upper, add_region) at h)
  | inr lower ↦
      let (ids, e, g) =
        >>=-eq-ok (parent_ids s.regions_by_slug r.slug r.parent_slugs)
          (λ l. ok (store_region s r l)) (rw (lower, add_region) at h) in
      rw (sym (ok_inj g)) (store_region-rest s r ids)
]

start_loading-Fresh : (u : Unicode) → Fresh u start_loading
unfolding start_loading new_mem_store apply_writes
start_loading-Fresh u = record { written = ([], refl); by_slug = refl; postal = refl; orgs = refl }

load_region-Fresh :
    (u : Unicode) (code : Bytes) (l l' : Loading) (row : Region)
    → Fresh u l
    → load_region u code l row ≡ ok l'
    → Fresh u l'
unfolding loaded apply_write
load_region-Fresh u code l l' row f h =
    let (new, counts, stored, c, a, e) = load_region-ok u code l l' row h in
    let (slugs, postal, orgs) = add_region-rest u l.store stored _ a in
    subst (Fresh u) e (record {
      written =
          Written-next u l.store stored (region (stamped code l.next_region_id row)) f.written a;
      by_slug = slugs ∙ ap (put row.slug l.next_region_id) f.by_slug;
      postal = postal ∙ f.postal;
      orgs = orgs ∙ f.orgs;
    })

Fresh-Resolved : (u : Unicode) (l : Loading) → Fresh u l → Resolved u l.region_ids l.store
unfolding find find_or
Fresh-Resolved u l f = record {
  written = f.written;
  by_slug = f.by_slug;
  postal = λ key id e. cc (rw (f.postal) at e);
  orgs = λ o id m. absurd (rw (f.orgs) at m);
}

module _ (u : Unicode) (ids : Table Bytes ℕ) where
  load_rollup-Resolved :
      (kinds : Table Bytes Bytes) (slug : Bytes) (s s' : MemStore) (target : Bytes)
      → Resolved u ids s
      → load_rollup ids kinds slug s target ≡ ok s'
      → Resolved u ids s'
  unfolding load_rollup
  load_rollup-Resolved kinds slug s s' target r h = elim (Option-cases (find target ids)) [
    | inl missing ↦ cc (rw (load_rollup, missing) at h)
    | inr (id, e) ↦ elim (Bool-cases (is_rollup_target_kind (find_or target kinds []))) [
      | inl target_kind ↦
          subst (Resolved u ids) (ok_inj (rw (load_rollup, e, target_kind) at h))
            (add_rollup_state-Resolved u ids s slug target r)
      | inr other ↦ cc (rw (load_rollup, e, other) at h)
    ]
  ]

  load_rollups-Resolved :
      (kinds : Table Bytes Bytes) (s s' : MemStore) (row : Region)
      → Resolved u ids s
      → load_rollups ids kinds s row ≡ ok s'
      → Resolved u ids s'
  unfolding load_rollups
  load_rollups-Resolved kinds s s' row r h =
      fold_ok-kept (Resolved u ids) (load_rollup ids kinds row.slug)
        (load_rollup-Resolved kinds row.slug) s s' row.rollup_states r h

  load_postal_row-Resolved :
      (a a' : Anchored) (row : PostalRow)
      → Resolved u ids a.store
      → load_postal_row u ids a row ≡ ok a'
      → Resolved u ids a'.store
  unfolding load_postal_row
  load_postal_row-Resolved a a' row r h = elim (Option-cases (find row.leaf_region_slug ids)) [
    | inl missing ↦ cc (rw (load_postal_row, missing) at h)
    | inr (leaf, e) ↦
        let (stored, f, g) =
          >>=-eq-ok (wrap not_stored (add_postal_code u a.store row.country row.postal_code leaf)) _
            (rw (load_postal_row, e) at h) in
        subst (λ x. Resolved u ids x.store) (ok_inj g)
          (add_postal_code-Resolved u ids a.store stored row.country row.postal_code leaf
            (row.leaf_region_slug, e) r (wrap-eq-ok not_stored _ f))
  ]

  load_country_postal-Resolved :
      (equal_fold : Bytes → Bytes → Bool) (fs : Bundle) (a a' : Anchored) (c : CountrySpec)
      → Resolved u ids a.store
      → load_country_postal u equal_fold fs ids a c ≡ ok a'
      → Resolved u ids a'.store
  unfolding load_country_postal
  load_country_postal-Resolved equal_fold fs a a' c r h =
      let (rows, e, g) = >>=-eq-ok (read_postal u equal_fold fs c) _ h in
      fold_ok-kept (λ x. Resolved u ids x.store) (load_postal_row u ids) load_postal_row-Resolved a
        a' rows r g

  load_org-Resolved :
      (midnight : LocalDate → ℕ) (a a' : Attached) (entry : OrgEntry)
      → Resolved u ids a.store
      → load_org midnight ids a entry ≡ ok a'
      → Resolved u ids a'.store
  unfolding load_org
  load_org-Resolved midnight a a' entry r h =
      let (region_ids, e, g) =
        >>=-eq-ok
          (wrap (unknown_org_regions entry.org.slug) (resolve_org_regions entry.region_slugs ids)) _
          h in
      let named =
        (resolve_org_regions_iff ids entry.region_slugs).1 region_ids (wrap-eq-ok _ _ e) in
      elim (Bool-cases (nat_eqb entry.added_at.year 0)) [
        | inl zero_date ↦ cc (rw (zero_date) at g)
        | inr dated ↦
            subst (λ x. Resolved u ids x.store) (ok_inj (rw (dated) at g))
              (add_org-Resolved u ids a.store
                (record entry.org { id = a.next_org_id; added_at = midnight entry.added_at })
                region_ids (λ id m. let (slug, k, f) = (named.1 id).0 m in (slug, f)) r)
      ]

-- The stages behind the regions.
finish_build-Resolved :
    (u : Unicode) (equal_fold : Bytes → Bytes → Bool) (parse : UrlParser) (midnight : LocalDate → ℕ)
    (fs : Bundle) (cs : List CountrySpec) (l : Loading) (s : MemStore)
    → Resolved u l.region_ids l.store
    → finish_build u equal_fold parse midnight fs cs l ≡ ok s
    → Resolved u l.region_ids s
unfolding finish_build
finish_build-Resolved u equal_fold parse midnight fs cs l s r h =
    let ids = l.region_ids in
    let (acyclic, e₀, h₁) = >>=-eq-ok (wrap bad_graph (detect_cycles_graph l.parent_slugs)) _ h in
    let (rolled, e₁, h₂) =
      >>=-eq-ok (fold_ok (load_rollups ids l.kinds) l.store l.rollup_sources) _ h₁ in
    let (anchored, e₂, h₃) =
      >>=-eq-ok
        (fold_ok (load_country_postal u equal_fold fs ids)
          (record { store = rolled; anchored_slugs = [] }) cs)
        _ h₂ in
    let (orgs, e₃, h₄) = >>=-eq-ok (read_orgs u parse fs) _ h₃ in
    let (attached, e₄, h₅) =
      >>=-eq-ok
        (fold_ok (load_org midnight ids)
          (record { store = anchored.store; org_slugs = []; next_org_id = 1 }) orgs)
        _ h₄ in
    let (reached, e₅, h₆) =
      >>=-eq-ok
        (wrap unreachable_leaves (
          assert_reachable_leaves l.local_tier l.child_count anchored.anchored_slugs
            attached.org_slugs))
        _ h₅ in
    let r₁ =
      fold_ok-kept (Resolved u ids) (load_rollups ids l.kinds) (load_rollups-Resolved u ids l.kinds)
        l.store rolled l.rollup_sources r e₁ in
    let r₂ =
      fold_ok-kept (λ x. Resolved u ids x.store) (load_country_postal u equal_fold fs ids)
        (load_country_postal-Resolved u ids equal_fold fs)
        (record { store = rolled; anchored_slugs = [] }) anchored cs r₁ e₂ in
    let r₄ =
      fold_ok-kept (λ x. Resolved u ids x.store) (load_org midnight ids)
        (load_org-Resolved u ids midnight)
        (record { store = anchored.store; org_slugs = []; next_org_id = 1 }) attached orgs r₂ e₄ in
    subst (Resolved u ids) (ok_inj h₆) r₄

build_mem_store_of-Resolved :
    (u : Unicode) (equal_fold : Bytes → Bytes → Bool) (parse : UrlParser) (midnight : LocalDate → ℕ)
    (fs : Bundle) (cs : List CountrySpec) (s : MemStore)
    → build_mem_store_of u equal_fold parse midnight fs cs ≡ ok s
    → (ids : Table Bytes ℕ) × Resolved u ids s
unfolding build_mem_store_of
build_mem_store_of-Resolved u equal_fold parse midnight fs cs s h =
    let (l, e, g) = >>=-eq-ok (fold_ok (load_country_regions u fs) start_loading cs) _ h in
    let fresh =
      countries-kept u (Fresh u) (load_region-Fresh u) fs start_loading l cs (start_loading-Fresh u)
        e in
    (
      l.region_ids,
      finish_build-Resolved u equal_fold parse midnight fs cs l s (Fresh-Resolved u l fresh) g,
    )

Owned-Registered :
    (u : Unicode) (ids : Table Bytes ℕ) (s : MemStore) (id : ℕ)
    → Resolved u ids s
    → Owned ids id
    → Registered s id
Owned-Registered u ids s id r (slug, e) =
    let (ws, h) = r.written in (apply_writes-IsClosed u s ws h).by_slug slug id (rw (r.by_slug) e)

-- In the store that a build returns, every postal code leads to a registered region, and every region
-- of an org is registered.
pub build_mem_store_of-Registered :
    (u : Unicode) (equal_fold : Bytes → Bytes → Bool) (parse : UrlParser) (midnight : LocalDate → ℕ)
    (fs : Bundle) (cs : List CountrySpec) (s : MemStore)
    → build_mem_store_of u equal_fold parse midnight fs cs ≡ ok s
    → ((key : Bytes) (id : ℕ) → find key s.postal_to_leaf ≡ some id → Registered s id)
      × ((o id : ℕ) → In id (find_or o s.org_regions []) → Registered s id)
build_mem_store_of-Registered u equal_fold parse midnight fs cs s h =
    let (ids, r) = build_mem_store_of-Resolved u equal_fold parse midnight fs cs s h in
    (
      λ key id e. Owned-Registered u ids s id r (r.postal key id e),
      λ o id m. Owned-Registered u ids s id r (r.orgs o id m),
    )
