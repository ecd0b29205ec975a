-- ===== src/Seed/Build/Stages.antt =====
-- The rollups, the postal codes and the orgs, each stage as writes to the store.
use urbanist_atlas.Base.{
  ℕ, suc, ◌≡◌, refl, Bool, sym, ap, subst, ◌∙◌, inl, inr, Bool-cases, Option-cases, List, [], ◌∷◌,
  Bytes, bytes_eq, nat_eqb, Unicode, Table, find, find_or, map, Result, ok, >>=-eq-ok, ok_inj, wrap,
  wrap-eq-ok, fold_ok,
}
use urbanist_atlas.Atlas.Types.{Region}
use urbanist_atlas.Atlas.Kinds.{is_rollup_target_kind}
use urbanist_atlas.Atlas.Store.{MemStore, add_postal_code}
use urbanist_atlas.Atlas.Store.Invariant.{org, apply_write, apply_writes}
use urbanist_atlas.Seed.Orgs.{LocalDate, OrgEntry}
use urbanist_atlas.Seed.Postal.{PostalRow}
use urbanist_atlas.Seed.Assembly.{resolve_org_regions}
use urbanist_atlas.Seed.Load.{CountrySpec, Bundle, SeedError, not_stored, unknown_org_regions}
use urbanist_atlas.Seed.Build.{
  load_rollup, load_rollups, Anchored, load_postal_row, read_postal, load_country_postal, Attached,
  load_org,
}
use urbanist_atlas.Seed.Build.Writes.{
  or_empty, concat_map, rollups_of, rollup_write, postal_write, org_writes, country_postal,
}
use urbanist_atlas.Seed.Build.Flat.{fold_ok-concat_map, or_empty-ok, apply_writes-cons, fold_ok-map}

module _ (u : Unicode) (ids : Table Bytes ℕ) where
  load_rollup-write :
      (kinds : Table Bytes Bytes) (slug : Bytes) (s s' : MemStore) (target : Bytes)
      → load_rollup ids kinds slug s target ≡ ok s'
      → apply_write u s (rollup_write (slug, target)) ≡ ok s'
  unfolding load_rollup apply_write
  load_rollup-write kinds slug s s' target h = elim (Option-cases (find target ids)) [
    | inl missing ↦ cc (rw (load_rollup, missing) at h)
    | inr (id, e) ↦ elim (Bool-cases (is_rollup_target_kind (find_or target kinds []))) [
      | inl target_kind ↦ ap ok (ok_inj (rw (load_rollup, e, target_kind) at h))
      | inr other ↦ cc (rw (load_rollup, e, other) at h)
    ]
  ]

  abbrev load_pair : Table Bytes Bytes → MemStore → Bytes × Bytes → Result SeedError MemStore
  load_pair kinds s (slug, target) = load_rollup ids kinds slug s target

  load_rollups-pairs :
      (kinds : Table Bytes Bytes) (s s' : MemStore) (r : Region)
      → load_rollups ids kinds s r ≡ ok s'
      → fold_ok (load_pair kinds) s (rollups_of r) ≡ ok s'
  unfolding load_rollups rollups_of fold_ok
  load_rollups-pairs kinds s s' r h = pairs s r.rollup_states h
    where
      pairs :
          (t : MemStore) (targets : List Bytes)
          → fold_ok (load_rollup ids kinds r.slug) t targets ≡ ok s'
          → fold_ok (load_pair kinds) t (map (λ target. (r.slug, target)) targets) ≡ ok s'
      pairs t [] k = k
      pairs t (target ∷ targets) k =
          let (m, e, g) =
            >>=-eq-ok (load_rollup ids kinds r.slug t target)
              (λ z. fold_ok (load_rollup ids kinds r.slug) z targets) k in
          rw (e) (pairs m targets g)

  pub rollup_sources-writes :
      (kinds : Table Bytes Bytes) (s s' : MemStore) (sources : List Region)
      → fold_ok (load_rollups ids kinds) s sources ≡ ok s'
      → apply_writes u s (map rollup_write (concat_map rollups_of sources)) ≡ ok s'
  rollup_sources-writes kinds s s' sources h =
      fold_ok-map u (load_pair kinds) (λ t. t) rollup_write
        (λ t t' (slug, target). load_rollup-write kinds slug t t' target) s s'
        (concat_map rollups_of sources)
        (fold_ok-concat_map (load_pair kinds) (load_rollups ids kinds) rollups_of
          (load_rollups-pairs kinds) s s' sources h)

  load_postal_row-write :
      (a a' : Anchored) (row : PostalRow)
      → load_postal_row u ids a row ≡ ok a'
      → apply_write u a.store (postal_write ids row) ≡ ok a'.store
  unfolding load_postal_row apply_write postal_write find_or
  load_postal_row-write a a' row h = elim (Option-cases (find row.leaf_region_slug ids)) [
    | inl missing ↦ cc (rw (load_postal_row, missing) at h)
    | inr (leaf, e) ↦
        let (stored, f, g) =
          >>=-eq-ok (wrap not_stored (add_postal_code u a.store row.country row.postal_code leaf)) _
            (rw (load_postal_row, e) at h) in
        let leaf_id : find_or row.leaf_region_slug ids 0 ≡ leaf = rw (find_or, e) refl in
        ap (add_postal_code u a.store row.country row.postal_code) leaf_id
        ∙ wrap-eq-ok not_stored (add_postal_code u a.store row.country row.postal_code leaf) f
        ∙ ap (λ z. ok z.store) (ok_inj g)
  ]

  pub countries-postal_writes :
      (equal_fold : Bytes → Bytes → Bool) (fs : Bundle) (a a' : Anchored) (cs : List CountrySpec)
      → fold_ok (load_country_postal u equal_fold fs ids) a cs ≡ ok a'
      → apply_writes u a.store
          (map (postal_write ids) (concat_map (country_postal u equal_fold fs) cs))
        ≡ ok a'.store
  unfolding load_country_postal country_postal
  countries-postal_writes equal_fold fs a a' cs h =
      fold_ok-map u (load_postal_row u ids) (λ z. z.store) (postal_write ids) load_postal_row-write
        a a' (concat_map (country_postal u equal_fold fs) cs)
        (fold_ok-concat_map (load_postal_row u ids) (load_country_postal u equal_fold fs ids)
          (country_postal u equal_fold fs)
          (λ s t c k.
            let (rows, e, g) = >>=-eq-ok (read_postal u equal_fold fs c) _ k in
            rw (or_empty-ok _ rows e) g)
          a a' cs h)

  load_org-write :
      (midnight : LocalDate → ℕ) (a a' : Attached) (entry : OrgEntry)
      → load_org midnight ids a entry ≡ ok a'
      → (apply_write u a.store (
            org
              (record entry.org { id = a.next_org_id; added_at = midnight entry.added_at })
              (or_empty (resolve_org_regions entry.region_slugs ids)))
          ≡ ok a'.store)
        × (a'.next_org_id ≡ suc a.next_org_id)
  unfolding load_org apply_write
  load_org-write midnight a a' entry h =
      let (region_ids, e, g) =
        >>=-eq-ok
          (wrap (unknown_org_regions entry.org.slug) (resolve_org_regions entry.region_slugs ids)) _
          h in
      let named =
        or_empty-ok _ region_ids (wrap-eq-ok _ (resolve_org_regions entry.region_slugs ids) e) in
      elim (Bool-cases (nat_eqb entry.added_at.year 0)) [
        | inl zero_date ↦ cc (rw (zero_date) at g)
        | inr dated ↦
            let done = ok_inj (rw (dated) at g) in
            (rw (named) (ap (λ z. ok z.store) done), sym (ap (λ z. z.next_org_id) done))
      ]

  pub load_orgs-writes :
      (midnight : LocalDate → ℕ) (a a' : Attached) (entries : List OrgEntry)
      → fold_ok (load_org midnight ids) a entries ≡ ok a'
      → apply_writes u a.store (org_writes midnight ids a.next_org_id entries) ≡ ok a'.store
  unfolding fold_ok apply_writes org_writes
  load_orgs-writes midnight a a' [] h = ap (λ z. ok z.store) (ok_inj h)
  load_orgs-writes midnight a a' (entry ∷ entries) h =
      let (m, e, g) =
        >>=-eq-ok (load_org midnight ids a entry) (λ z. fold_ok (load_org midnight ids) z entries)
          h in
      let (written, next) = load_org-write midnight a m entry e in
      apply_writes-cons u a.store m.store a'.store
        (org (record entry.org { id = a.next_org_id; added_at = midnight entry.added_at })
          (or_empty (resolve_org_regions entry.region_slugs ids)))
        (org_writes midnight ids (suc a.next_org_id) entries) written
        (subst (λ n. apply_writes u m.store (org_writes midnight ids n entries) ≡ ok a'.store) next
          (load_orgs-writes midnight m a' entries g))
