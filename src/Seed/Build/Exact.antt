-- ===== src/Seed/Build/Exact.antt =====
-- A build against the writes that its bundle stands for.
use urbanist_atlas.Base.{
  ℕ, ◌≡◌, refl, Bool, sym, ap, subst, ◌∙◌, List, [], ◌++◌, Bytes, bytes_eq, codes, Unicode, Table,
  map, ok, >>=-eq-ok, ok_inj, wrap, fold_ok,
}
use urbanist_atlas.Atlas.Fields.{UrlParser}
use urbanist_atlas.Atlas.Store.{MemStore, new_mem_store}
use urbanist_atlas.Atlas.Store.Invariant.{Write, apply_writes}
use urbanist_atlas.Seed.Cycles.{detect_cycles_graph}
use urbanist_atlas.Seed.Orgs.{LocalDate, OrgEntry, validate_orgs}
use urbanist_atlas.Seed.Assembly.{assert_reachable_leaves}
use urbanist_atlas.Seed.Load.{
  CountrySpec, Bundle, bad_graph, bad_orgs, unreachable_leaves, read_decoded, Loading,
  start_loading, load_country_regions,
}
use urbanist_atlas.Seed.Build.{
  load_rollups, Anchored, load_country_postal, Attached, load_org, read_orgs, finish_build,
  build_mem_store_of,
}
use urbanist_atlas.Seed.Build.Writes.{
  or_empty, concat_map, country_rows, region_writes, rollups_of, rollup_write, postal_write,
  org_writes, country_postal, bundle_writes,
}
use urbanist_atlas.Seed.Build.Flat.{fold_ok-concat_map, or_empty-ok, apply_writes-append}
use urbanist_atlas.Seed.Build.Numbered.{load_row, load_country_regions-rows, load_rows-Loads}
use urbanist_atlas.Seed.Build.Stages.{
  rollup_sources-writes, countries-postal_writes, load_orgs-writes,
}

module _ (u : Unicode) (equal_fold : Bytes → Bytes → Bool) (parse : UrlParser)
    (midnight : LocalDate → ℕ) (fs : Bundle) where
  read_orgs-rows :
      (os : List OrgEntry)
      → read_orgs u parse fs ≡ ok os
      → or_empty (read_decoded fs fs.decode_orgs (codes "orgs.toml")) ≡ os
  unfolding read_orgs
  read_orgs-rows os h =
      let (raw, e, g) = >>=-eq-ok (read_decoded fs fs.decode_orgs (codes "orgs.toml")) _ h in
      let (checked, f, k) = >>=-eq-ok (wrap bad_orgs (validate_orgs u parse raw)) _ g in
      or_empty-ok _ raw e ∙ ok_inj k

  -- The writes of the stages behind the regions.
  finish_writes : Table Bytes ℕ → List (Bytes × Bytes) → List CountrySpec → List Write
  finish_writes ids rollups cs =
      map rollup_write rollups
      ++ (map (postal_write ids) (concat_map (country_postal u equal_fold fs) cs)
          ++ org_writes midnight ids 1
              (or_empty (read_decoded fs fs.decode_orgs (codes "orgs.toml"))))

  finish_build-writes :
      (cs : List CountrySpec) (l : Loading) (s : MemStore)
      → finish_build u equal_fold parse midnight fs cs l ≡ ok s
      → apply_writes u l.store
          (finish_writes l.region_ids (concat_map rollups_of l.rollup_sources) cs)
        ≡ ok s
  unfolding finish_build finish_writes
  finish_build-writes cs l s h =
      let ids = l.region_ids in
      let (acyclic, e₀, h₁) = >>=-eq-ok (wrap bad_graph (detect_cycles_graph l.parent_slugs)) _ h in
      let (rolled, e₁, h₂) =
        >>=-eq-ok (fold_ok (load_rollups ids l.kinds) l.store l.rollup_sources) _ h₁ in
      let empty : Anchored = record { store = rolled; anchored_slugs = [] } in
      let (anchored, e₂, h₃) =
        >>=-eq-ok (fold_ok (load_country_postal u equal_fold fs ids) empty cs) _ h₂ in
      let (orgs, e₃, h₄) = >>=-eq-ok (read_orgs u parse fs) _ h₃ in
      let first : Attached = record { store = anchored.store; org_slugs = []; next_org_id = 1 } in
      let (attached, e₄, h₅) = >>=-eq-ok (fold_ok (load_org midnight ids) first orgs) _ h₄ in
      let (reached, e₅, h₆) =
        >>=-eq-ok
          (wrap unreachable_leaves (
            assert_reachable_leaves l.local_tier l.child_count anchored.anchored_slugs
              attached.org_slugs))
          _ h₅ in
      let org_part =
        subst (λ os. apply_writes u anchored.store (org_writes midnight ids 1 os) ≡ ok s)
          (sym (read_orgs-rows orgs e₃))
          (load_orgs-writes u ids midnight first attached orgs e₄ ∙ ap (λ z. ok z) (ok_inj h₆)) in
      apply_writes-append u l.store rolled s
        (map rollup_write (concat_map rollups_of l.rollup_sources)) _
        (rollup_sources-writes u ids l.kinds l.store rolled l.rollup_sources e₁)
        (apply_writes-append u rolled anchored.store s _ _
          (countries-postal_writes u ids equal_fold fs empty anchored cs e₂) org_part)

  start_loading-empty :
      (start_loading.store ≡ new_mem_store)
      × (start_loading.region_ids ≡ [])
      × (start_loading.next_region_id ≡ 1)
      × (start_loading.rollup_sources ≡ [])
  unfolding start_loading
  start_loading-empty = (refl, refl, refl, refl)

  -- The store that a build returns is the empty store after exactly these writes, all of which succeed:
  -- each row of the regions files, numbered through from 1 in load order with its country; each rollup
  -- state of those rows; each row of the postal codes files, with the number of its leaf region; and each
  -- entry of the orgs file, numbered through from 1, with the numbers of its regions.
  pub build_mem_store_of-bundle_writes :
      (cs : List CountrySpec) (s : MemStore)
      → build_mem_store_of u equal_fold parse midnight fs cs ≡ ok s
      → apply_writes u new_mem_store (bundle_writes u equal_fold midnight fs cs) ≡ ok s
  unfolding build_mem_store_of bundle_writes finish_writes start_loading concat_map
  build_mem_store_of-bundle_writes cs s h =
      let rows = concat_map (country_rows fs) cs in
      let (l, e, g) = >>=-eq-ok (fold_ok (load_country_regions u fs) start_loading cs) _ h in
      let loads = load_rows-Loads u start_loading l rows (
        fold_ok-concat_map (load_row u) (load_country_regions u fs) (country_rows fs)
          (load_country_regions-rows u fs) start_loading l cs e) in
      apply_writes-append u new_mem_store l.store s (region_writes 1 rows) _ loads.writes (
        subst
          (λ ids.
            apply_writes u l.store (finish_writes ids (concat_map (λ q. rollups_of q.1) rows) cs)
            ≡ ok s)
          loads.ids
          (subst (λ z. apply_writes u l.store (finish_writes l.region_ids z cs) ≡ ok s)
            loads.rollups (finish_build-writes cs l s g)))
