-- ===== src/Seed/Build/Numbered.antt =====
-- The regions files as one loop over their rows, and what it makes of a loading.
use urbanist_atlas.Base.{
  ℕ, ◌≡◌, refl, sym, ap, subst, ◌∙◌, inl, inr, List-cases, List, [], ◌∷◌, ◌++◌, append_assoc,
  append-nil, Bytes, bytes_eq, codes, Unicode, Table, map, Result, ok, >>=-eq-ok, ok_inj, wrap,
  fold_ok,
}
use urbanist_atlas.Atlas.Types.{Region}
use urbanist_atlas.Atlas.Store.{MemStore}
use urbanist_atlas.Atlas.Store.Invariant.{apply_write, apply_writes}
use urbanist_atlas.Seed.Cycles.{detect_cycles}
use urbanist_atlas.Seed.Regions.{validate_regions}
use urbanist_atlas.Seed.Load.{
  CountrySpec, Bundle, SeedError, bad_graph, bad_regions, read_decoded, read_regions, Loading,
  stamped, loaded, load_region, load_region_file, load_country_regions,
}
use urbanist_atlas.Seed.Load.Rounds.{load_region-ok}
use urbanist_atlas.Seed.Build.Writes.{
  or_empty, concat_map, file_rows, country_rows, region_writes, number_slugs, rollups_of,
}
use urbanist_atlas.Seed.Build.Flat.{fold_ok-concat_map, or_empty-ok}

abbrev pub load_row : Unicode → Loading → Bytes × Region → Result SeedError Loading
load_row u l (code, row) = load_region u code l row

abbrev with_code : Bytes → Region → Bytes × Region
with_code code r = (code, r)

module _ (u : Unicode) where
  load_rows :
      (code : Bytes) (l l' : Loading) (rs : List Region)
      → fold_ok (load_region u code) l rs ≡ ok l'
      → fold_ok (load_row u) l (map (with_code code) rs) ≡ ok l'
  unfolding fold_ok
  load_rows code l l' [] h = h
  load_rows code l l' (r ∷ rs) h =
      let (m, e, g) =
        >>=-eq-ok (load_region u code l r) (λ z. fold_ok (load_region u code) z rs) h in
      rw (e) (load_rows code m l' rs g)

  read_regions-rows :
      (fs : Bundle) (path : Bytes) (rs : List Region)
      → read_regions fs path ≡ ok rs
      → or_empty (read_decoded fs fs.decode_regions path) ≡ rs
  unfolding read_regions
  read_regions-rows fs path rs h =
      let (raw, e, g) = >>=-eq-ok (read_decoded fs fs.decode_regions path) _ h in
      let (checked, f, k) = >>=-eq-ok (wrap bad_regions (validate_regions raw)) _ g in
      or_empty-ok _ raw e ∙ ok_inj k

  load_region_file-rows :
      (fs : Bundle) (code : Bytes) (l l' : Loading) (suffix : Bytes)
      → load_region_file u fs code l suffix ≡ ok l'
      → fold_ok (load_row u) l (file_rows fs code suffix) ≡ ok l'
  unfolding load_region_file file_rows
  load_region_file-rows fs code l l' suffix h =
      let path = codes "regions_" ++ suffix ++ codes ".toml" in
      let (rs, e, g) = >>=-eq-ok (read_regions fs path) _ h in
      let (acyclic, f, k) = >>=-eq-ok (wrap bad_graph (detect_cycles rs)) _ g in
      rw (read_regions-rows fs path rs e) (load_rows code l l' rs k)

  pub load_country_regions-rows :
      (fs : Bundle) (l l' : Loading) (c : CountrySpec)
      → load_country_regions u fs l c ≡ ok l'
      → fold_ok (load_row u) l (country_rows fs c) ≡ ok l'
  unfolding load_country_regions country_rows
  load_country_regions-rows fs l l' c h =
      fold_ok-concat_map (load_row u) (load_region_file u fs c.code) (file_rows fs c.code)
        (load_region_file-rows fs c.code) l l' c.region_files h

concat_map-append :
    {A B : Type 0} (f : A → List B) (xs ys : List A)
    → concat_map f (xs ++ ys) ≡ concat_map f xs ++ concat_map f ys
unfolding concat_map
concat_map-append f [] ys = refl
concat_map-append f (x ∷ xs) ys =
    ap (λ l. f x ++ l) (concat_map-append f xs ys)
    ∙ sym (append_assoc (f x) (concat_map f xs) (concat_map f ys))

-- What the rows make of a loading: the writes, the ids and the rollups.
pub record Loads (u : Unicode) (l : Loading) (rows : List (Bytes × Region)) (l' : Loading)
    : Type 0 where
  pub writes : apply_writes u l.store (region_writes l.next_region_id rows) ≡ ok l'.store
  pub ids : l'.region_ids ≡ number_slugs l.region_ids l.next_region_id rows
  pub rollups :
      concat_map rollups_of l'.rollup_sources
      ≡ concat_map rollups_of l.rollup_sources ++ concat_map (λ q. rollups_of q.1) rows

rollups_of-nil : (r : Region) → r.rollup_states ≡ [] → rollups_of r ≡ []
unfolding rollups_of
rollups_of-nil r e = ap (map (λ target. (r.slug, target))) e

module _ (u : Unicode) where
  loaded-rollups :
      (l : Loading) (r : Region) (counts : Table Bytes ℕ) (stored : MemStore)
      → concat_map rollups_of (loaded l r counts stored).rollup_sources
        ≡ concat_map rollups_of l.rollup_sources ++ rollups_of r
  unfolding loaded concat_map
  loaded-rollups l r counts stored = elim (List-cases r.rollup_states) [
    | inl e ↦
        let same : (loaded l r counts stored).rollup_sources ≡ l.rollup_sources =
          simp (loaded, e) in
        ap (concat_map rollups_of) same
        ∙ sym (append-nil (concat_map rollups_of l.rollup_sources))
        ∙ ap (λ z. concat_map rollups_of l.rollup_sources ++ z) (sym (rollups_of-nil r e))
    | inr (t, ts, e) ↦
        let more : (loaded l r counts stored).rollup_sources ≡ l.rollup_sources ++ r ∷ [] =
          simp (loaded, e) in
        ap (concat_map rollups_of) more
        ∙ concat_map-append rollups_of l.rollup_sources (r ∷ [])
        ∙ ap (λ z. concat_map rollups_of l.rollup_sources ++ z) (append-nil (rollups_of r))
  ]

  pub load_rows-Loads :
      (l l' : Loading) (rows : List (Bytes × Region))
      → fold_ok (load_row u) l rows ≡ ok l'
      → Loads u l rows l'
  unfolding fold_ok apply_writes apply_write region_writes number_slugs concat_map loaded rollups_of
  load_rows-Loads l l' [] h = subst (Loads u l []) (ok_inj h) (record {
    writes = refl;
    ids = refl;
    rollups = sym (append-nil (concat_map rollups_of l.rollup_sources));
  })
  load_rows-Loads l l' ((code, row) ∷ rows) h =
      let (m, e, g) = >>=-eq-ok (load_region u code l row) (λ z. fold_ok (load_row u) z rows) h in
      let (new, counts, stored, c, a, k) = load_region-ok u code l m row e in
      let r = stamped code l.next_region_id row in
      let later =
        load_rows-Loads (loaded l r counts stored) l' rows
          (subst (λ z. fold_ok (load_row u) z rows ≡ ok l') (sym k) g) in
      record {
        writes = rw (a) later.writes;
        ids = later.ids;
        rollups =
            later.rollups
            ∙ ap (λ z. z ++ concat_map (λ q. rollups_of q.1) rows)
                (loaded-rollups l r counts stored)
            ∙ append_assoc (concat_map rollups_of l.rollup_sources) (rollups_of r)
                (concat_map (λ q. rollups_of q.1) rows);
      }
