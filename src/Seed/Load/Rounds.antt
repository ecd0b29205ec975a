-- ===== src/Seed/Load/Rounds.antt =====
-- What a round over one row does, and what all rounds keep.
use urbanist_atlas.Base.{
  ℕ, ◌≡◌, inl, inr, false, Bool-cases, List, Bytes, bytes_eq, Unicode, Table, has, codes, ◌++◌, ok,
  >>=-eq-ok, ok_inj, wrap, wrap-eq-ok, fold_ok, fold_ok-kept,
}
use urbanist_atlas.Atlas.Types.{Region}
use urbanist_atlas.Atlas.Store.{MemStore, add_region}
use urbanist_atlas.Seed.Cycles.{detect_cycles}
use urbanist_atlas.Seed.Load.{
  CountrySpec, Bundle, bad_graph, not_stored, read_regions, Loading, count_child, stamped, loaded,
  load_region, load_region_file, load_country_regions,
}

module _ (u : Unicode) where
  -- A row that loads has a new slug, known parents, and is stored with the next id.
  pub load_region-ok :
      (code : Bytes) (l l' : Loading) (row : Region)
      → load_region u code l row ≡ ok l'
      → (has row.slug l.region_ids ≡ false)
        × (counts : Table Bytes ℕ) × (stored : MemStore) × (fold_ok
              (count_child l.region_ids row.slug)
              l.child_count
              row.parent_slugs
            ≡ ok counts)
        × (add_region u l.store (stamped code l.next_region_id row) ≡ ok stored)
        × (loaded l (stamped code l.next_region_id row) counts stored ≡ l')
  unfolding load_region
  load_region-ok code l l' row h =
      let r = stamped code l.next_region_id row in
      elim (Bool-cases (has row.slug l.region_ids)) [
        | inl again ↦ cc (rw (load_region, again) at h)
        | inr new ↦
            let (counts, e, g) =
              >>=-eq-ok (fold_ok (count_child l.region_ids row.slug) l.child_count row.parent_slugs)
                _ (rw (load_region, new) at h) in
            let (stored, f, k) = >>=-eq-ok (wrap not_stored (add_region u l.store r)) _ g in
            (new, counts, stored, e, wrap-eq-ok not_stored (add_region u l.store r) f, ok_inj k)
      ]

  -- What each row keeps, the regions files of all countries keep.
  module _ {ℓ} (Kept : Loading → Type ℓ)
      (round : (code : Bytes) (l l' : Loading) (row : Region)
        → Kept l
        → load_region u code l row ≡ ok l'
        → Kept l')
      (fs : Bundle) where
    file-kept :
        (code : Bytes) (l l' : Loading) (suffix : Bytes)
        → Kept l
        → load_region_file u fs code l suffix ≡ ok l'
        → Kept l'
    unfolding load_region_file
    file-kept code l l' suffix k h =
        let (rs, e, g) =
          >>=-eq-ok (read_regions fs (codes "regions_" ++ suffix ++ codes ".toml")) _ h in
        let (acyclic, f, m) = >>=-eq-ok (wrap bad_graph (detect_cycles rs)) _ g in
        fold_ok-kept Kept (load_region u code) (round code) l l' rs k m

    country-kept :
        (l l' : Loading) (c : CountrySpec)
        → Kept l
        → load_country_regions u fs l c ≡ ok l'
        → Kept l'
    unfolding load_country_regions
    country-kept l l' c k h =
        fold_ok-kept Kept (load_region_file u fs c.code) (file-kept c.code) l l' c.region_files k h

    pub countries-kept :
        (l l' : Loading) (cs : List CountrySpec)
        → Kept l
        → fold_ok (load_country_regions u fs) l cs ≡ ok l'
        → Kept l'
    countries-kept l l' cs k h =
        fold_ok-kept Kept (load_country_regions u fs) country-kept l l' cs k h
