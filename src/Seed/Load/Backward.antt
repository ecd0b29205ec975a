-- ===== src/Seed/Load/Backward.antt =====
-- The edges of the loaded graph.
use urbanist_atlas.Base.{
  ℕ, ◌<◌, ◌≡◌, refl, sym, subst, inl, inr, true, false, List, [], ◌∷◌, some, some_inj, arith, Bytes,
  bytes_eq, bytes_eqb_iff, ◌==◌, Unicode, Table, find, find_or, put, has, find-put, find-has,
  find_or-put, In, Bool-cases, Option-cases, ok, >>=-eq-ok, fold_ok,
}
use urbanist_atlas.Atlas.Types.{Region}
use urbanist_atlas.Atlas.Store.{MemStore}
use urbanist_atlas.Seed.Cycles.{detect_cycles_graph}
use urbanist_atlas.Seed.Cycles.Paths.{Above, one, more}
use urbanist_atlas.Seed.Cycles.Accepts.{detect_cycles_graph_iff}
use urbanist_atlas.Seed.Load.{
  CountrySpec, Bundle, Loading, start_loading, count_child, stamped, loaded, load_region,
  load_country_regions,
}
use urbanist_atlas.Seed.Load.Rounds.{load_region-ok, countries-kept}

-- Both slugs have ids, and the first has the smaller one.
abbrev Before : Table Bytes ℕ → Bytes → Bytes → Type 0
Before ids p s = (i : ℕ) × (j : ℕ) × (find p ids ≡ some i) × (find s ids ≡ some j) × (i < j)

record Backward (l : Loading) : Type 0 where
  pub below : (s : Bytes) (i : ℕ) → find s l.region_ids ≡ some i → i < l.next_region_id
  pub edges : (s p : Bytes) → In p (find_or s l.parent_slugs []) → Before l.region_ids p s

-- A slug without an id gets one, and no other id changes.
find-put_new :
    (slug q : Bytes) (n i : ℕ) (ids : Table Bytes ℕ)
    → has slug ids ≡ false
    → find q ids ≡ some i
    → find q (put slug n ids) ≡ some i
find-put_new slug q n i ids new e = elim (Bool-cases (slug == q)) [
  | inl same ↦ cc (
    new,
    find-has slug ids i (subst (λ x. find x ids ≡ some i) (sym ((bytes_eqb_iff slug q).0 same)) e),
  )
  | inr other ↦ rw (find-put, other) e
]

-- The parents that are counted have ids.
count_child-known :
    (ids : Table Bytes ℕ) (slug p : Bytes) (ps : List Bytes) (counts counts' : Table Bytes ℕ)
    → fold_ok (count_child ids slug) counts ps ≡ ok counts'
    → In p ps
    → (i : ℕ) × (find p ids ≡ some i)
unfolding fold_ok count_child
count_child-known ids slug p [] counts counts' h m = absurd m
count_child-known ids slug p (q ∷ ps) counts counts' h m =
    let (c, e, g) =
      >>=-eq-ok (count_child ids slug counts q) (λ x. fold_ok (count_child ids slug) x ps) h in
    elim m [
      | inl same ↦ elim (Option-cases (find q ids)) [
        | inl missing ↦ cc (rw (count_child, missing) at e)
        | inr (i, f) ↦ (i, rw same f)
      ]
      | inr later ↦ count_child-known ids slug p ps c counts' g later
    ]

loaded-Backward :
    (l : Loading) (r : Region) (counts : Table Bytes ℕ) (stored : MemStore)
    → has r.slug l.region_ids ≡ false
    → ((p : Bytes) → In p r.parent_slugs → (i : ℕ) × (find p l.region_ids ≡ some i))
    → Backward l
    → Backward (loaded l r counts stored)
unfolding loaded
loaded-Backward l r counts stored new known b = record {
  below = λ s i e. elim (Bool-cases (r.slug == s)) [
    | inl same ↦ let n : l.next_region_id ≡ i = some_inj (rw (find-put, same) at e) in omega arith
    | inr other ↦ let lt = b.below s i (rw (find-put, other) at e) in omega arith
  ];
  edges = λ s p m. elim (Bool-cases (r.slug == s)) [
    | inl same ↦
        let (i, e) = known p (rw (find_or-put, same) at m) in
        (
          i,
          l.next_region_id,
          find-put_new r.slug p l.next_region_id i l.region_ids new e,
          rw (find-put, same) refl,
          b.below p i e,
        )
    | inr other ↦
        let (i, j, e, f, lt) = b.edges s p (rw (find_or-put, other) at m) in
        (
          i,
          j,
          find-put_new r.slug p l.next_region_id i l.region_ids new e,
          find-put_new r.slug s l.next_region_id j l.region_ids new f,
          lt,
        )
  ];
}

load_region-Backward :
    (u : Unicode) (code : Bytes) (l l' : Loading) (row : Region)
    → Backward l
    → load_region u code l row ≡ ok l'
    → Backward l'
load_region-Backward u code l l' row b h =
    let (new, counts, stored, c, a, e) = load_region-ok u code l l' row h in
    subst Backward e (
      loaded-Backward l (stamped code l.next_region_id row) counts stored new
        (λ p m. count_child-known l.region_ids row.slug p row.parent_slugs l.child_count counts c m)
        b)

start_loading-Backward : Backward start_loading
unfolding start_loading find find_or
start_loading-Backward = record { below = λ s i e. cc; edges = λ s p m. absurd m }

Above-Before :
    (l : Loading) (s t : Bytes)
    → Backward l
    → Above (λ p. true) l.parent_slugs s t
    → Before l.region_ids t s
Above-Before l s t b (one (m, k)) = b.edges s t m
Above-Before l s t b (more {p = p} a (m, k)) =
    let (i, j, e, f, lt) = Above-Before l s p b a in
    let (i', j', e', f', lt') = b.edges p t m in
    let same : j' ≡ i = some_inj (cc (f', e)) in (i', j, e', f, omega arith)

-- Once the regions files of all countries are loaded, the check of the whole graph passes: the checks
-- on the rows leave it nothing to find.
pub load_country_regions-detect_cycles_graph :
    (u : Unicode) (fs : Bundle) (cs : List CountrySpec) (l : Loading)
    → fold_ok (load_country_regions u fs) start_loading cs ≡ ok l
    → detect_cycles_graph l.parent_slugs ≡ ok tt
load_country_regions-detect_cycles_graph u fs cs l h =
    let b =
      countries-kept u Backward (load_region-Backward u) fs start_loading l cs
        start_loading-Backward h in
    (detect_cycles_graph_iff l.parent_slugs).1.1 (λ t a.
      let (i, j, e, f, lt) = Above-Before l t t b a in
      let same : i ≡ j = some_inj (cc (e, f)) in omega arith)
