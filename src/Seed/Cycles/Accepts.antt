-- ===== src/Seed/Cycles/Accepts.antt =====
-- What the search for cycles accepts.
use urbanist_atlas.Base.{
  ℕ, suc, ◌≡◌, ◌≢◌, refl, subst, ◌↔◌, ◌⊎◌, inl, inr, Bool, true, List, [], ◌∷◌, arith, Bytes,
  bytes_eq, bytes_ltb, find, find_or, put, find_or-put, bytes_eqb_iff, In, find_key, length, map,
  member, Result, ok, err, Option-cases,
}
use urbanist_atlas.Base.Sort.{sort_by, In-sort_by}
use urbanist_atlas.Atlas.Types.{Region}
use urbanist_atlas.Seed.Cycles.{
  white, Parents, Stopped, cycle, out_of_fuel, visit_all, all_slugs, detect_cycles_3_color,
  parents_of, detect_cycles, detect_cycles_graph,
}
use urbanist_atlas.Seed.Cycles.Paths.{
  Above, Reached, here, Ends-Reached, Ends-no_cycle, Above-first,
}
use urbanist_atlas.Seed.Cycles.Fuel.{
  Fueled, visit_all-Fueled, In-all_slugs_order, In-all_slugs_parents,
}
use urbanist_atlas.Seed.Cycles.Sound.{visit_all-Ends}
use urbanist_atlas.Seed.Cycles.Complete.{visit_all-Found}

Stopped-cases :
    (x : Result Stopped (Unit {0}))
    → Fueled x
    → (x ≡ ok tt) ⊎ ((p : List Bytes) × (x ≡ err (cycle p)))
Stopped-cases (ok tt) f = inl refl
Stopped-cases (err (cycle p)) f = inr (p, refl)
Stopped-cases (err out_of_fuel) f = absurd f

blank : (s : Bytes) → find_or s [] white ≡ white
unfolding find_or find
blank s = refl

-- The search ends, and succeeds exactly where no slug that is reached from `order` along kept parent
-- edges is above itself.
pub detect_cycles_3_color_iff :
    (order : List Bytes) (parents : Parents) (keep : Bytes → Bool)
    → (detect_cycles_3_color order parents keep ≢ err out_of_fuel)
      × ((detect_cycles_3_color order parents keep ≡ ok tt)
          ↔ ((s t : Bytes) → In s order → Reached keep parents s t → ¬ Above keep parents t t))
unfolding detect_cycles_3_color
detect_cycles_3_color_iff order parents keep = (
  λ stuck. subst Fueled stuck fueled,
  (
    λ h s t m r a.
        Ends-no_cycle keep parents t
          (Ends-Reached keep parents s t
            (visit_all-Ends keep parents fuel order [] h (λ x e. cc (blank x, e)) s m) r)
          a,
    λ free. elim (Stopped-cases (visit_all keep parents fuel order []) fueled) [
      | inl done ↦ done
      | inr (p, e) ↦
          let (s, m, (t, r, a)) =
            visit_all-Found keep parents fuel order [] p e (λ x g. cc (blank x, g)) in
          absurd (free s t m r a)
    ],
  ),
)
  where
    fuel : ℕ
    fuel = suc (length (all_slugs order parents))

    fueled : Fueled (visit_all keep parents fuel order [])
    fueled =
        visit_all-Fueled keep parents (all_slugs order parents) order []
          (λ s p m. In-all_slugs_parents s p order parents m)
          (λ s m. In-all_slugs_order s order parents m)

-- A slug with a parent has an entry.
has_entry :
    (s p : Bytes) (parents : Parents) → In p (find_or s parents []) → In s (map (λ e. e.0) parents)
unfolding find_or
has_entry s p parents m = elim (Option-cases (find s parents)) [
  | inl e ↦ absurd (rw (find_or, e) at m)
  | inr (ps, e) ↦ find_key s ps parents e
]

-- The whole graph is accepted exactly where no slug is above itself; the search ends in any case.
pub detect_cycles_graph_iff :
    (parents : Parents)
    → (detect_cycles_graph parents ≢ err out_of_fuel)
      × ((detect_cycles_graph parents ≡ ok tt) ↔ ((t : Bytes) → ¬ Above (λ p. true) parents t t))
unfolding detect_cycles_graph
detect_cycles_graph_iff parents =
    let order = sort_by bytes_ltb (map (λ e. e.0) parents) in
    let (ends, (there, back)) = detect_cycles_3_color_iff order parents (λ p. true) in
    (
      ends,
      (
        λ h t a.
            let (p, e, r) = Above-first (λ q. true) parents t t a in
            there h t t
              ((In-sort_by bytes_ltb t (map (λ e. e.0) parents)).1 (has_entry t p parents e.0)) here
              a,
        λ free. back (λ s t m r a. free t a),
      ),
    )

In-parents_of :
    (s p : Bytes) (rs : List Region) (parents : Parents)
    → In p (find_or s (parents_of rs parents) [])
    → In s (map (λ r. r.slug) rs) ⊎ In p (find_or s parents [])
unfolding parents_of
In-parents_of s p [] parents m = inr m
In-parents_of s p (r ∷ rs) parents m = ground (
  arith,
  In-parents_of s p rs (put r.slug r.parent_slugs parents) m,
  find_or-put r.slug s r.parent_slugs [] parents,
  bytes_eqb_iff r.slug s,
)

no_parents : (t p : Bytes) → ¬ In p (find_or t [] [])
unfolding find_or find
no_parents t p m = m

-- The rows of a file are accepted exactly where no slug is above itself over the parents that the file
-- defines; the search ends in any case.
pub detect_cycles_iff :
    (rs : List Region)
    → (detect_cycles rs ≢ err out_of_fuel)
      × ((detect_cycles rs ≡ ok tt)
          ↔ ((t : Bytes) → ¬ Above (λ p. member p (map (λ r. r.slug) rs)) (parents_of rs []) t t))
unfolding detect_cycles
detect_cycles_iff rs =
    let order = map (λ r. r.slug) rs in
    let keep = λ (p : Bytes). member p order in
    let (ends, (there, back)) = detect_cycles_3_color_iff order (parents_of rs []) keep in
    (
      ends,
      (
        λ h t a.
            let (p, e, r) = Above-first keep (parents_of rs []) t t a in
            there h t t
              (elim (In-parents_of t p rs [] e.0) [
                | inl m ↦ m
                | inr none_left ↦ absurd (no_parents t p none_left)
              ])
              here a,
        λ free. back (λ s t m r a. free t a),
      ),
    )
