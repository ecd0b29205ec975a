-- ===== src/Atlas/Submission/Canonical.antt =====
-- What canonicalRegionSlugs answers.
use urbanist_atlas.Base.{
  ◌≡◌, refl, sym, ap, ◌∙◌, subst, ◌↔◌, ◌⊎◌, inl, inr, List, [], ◌∷◌, ◌++◌, some, Bytes, bytes_eq,
  member, member_iff, In, In-append, Distinct, Distinct-concat, Bool-cases, List-cases, ok, ok_inj,
}
use urbanist_atlas.Atlas.Types.{Region}
use urbanist_atlas.Atlas.Submission.{
  Resolution, resolved, not_found, failed, canonical_loop, canonical_region_slugs,
}

-- Each slug resolves to a region, whose own slug stands in its place.
abbrev pub Canonical : (Bytes → Resolution) → List Bytes → List Bytes → Type 0
Canonical resolve [] [] = Unit
Canonical resolve [] (s ∷ out) = ⊥
Canonical resolve (slug ∷ slugs) [] = ⊥
Canonical resolve (slug ∷ slugs) (s ∷ out) =
    ((r : Region) × (resolve slug ≡ resolved r) × (s ≡ r.slug)) × Canonical resolve slugs out

concat-append : (seen rest : List Bytes) (s : Bytes) → (seen ++ s ∷ []) ++ rest ≡ seen ++ s ∷ rest
concat-append [] rest s = refl
concat-append (x ∷ seen) rest s = ap (λ l. x ∷ l) (concat-append seen rest s)

append_nil : (xs : List Bytes) → xs ++ [] ≡ xs
append_nil [] = refl
append_nil (x ∷ xs) = ap (λ l. x ∷ l) (append_nil xs)

Distinct-middle : (xs ys : List Bytes) (y : Bytes) → Distinct (xs ++ y ∷ ys) → ¬ In y xs
Distinct-middle [] ys y d m = m
Distinct-middle (x ∷ xs) ys y d (inl e) = d.0 ((In-append x xs (y ∷ ys)).1 (inr (inl (sym e))))
Distinct-middle (x ∷ xs) ys y d (inr m) = Distinct-middle xs ys y d.1 m

Resolution-cases :
    (a : Resolution) → (a ≡ not_found) ⊎ (a ≡ failed) ⊎ ((r : Region) × (a ≡ resolved r))
Resolution-cases not_found = inl refl
Resolution-cases failed = inr (inl refl)
Resolution-cases (resolved r) = inr (inr (r, refl))

resolved_inj : {r r' : Region} → resolved r ≡ resolved r' → r ≡ r'
resolved_inj e = cc

module _ (resolve : Bytes → Resolution) where
  -- What the loop adds to the slugs so far.
  abbrev Adds : List Bytes → List Bytes → List Bytes → Type 0
  Adds seen slugs out =
      (new : List Bytes) × (out ≡ seen ++ new)
      × Canonical resolve slugs new
      × Distinct (seen ++ new)

  no_more : (new : List Bytes) → Canonical resolve [] new → new ≡ []
  no_more [] c = refl
  no_more (x ∷ new) c = absurd c

  -- One more slug that resolves.
  Adds-resolved :
      (slug : Bytes) (r : Region) (seen slugs out : List Bytes)
      → resolve slug ≡ resolved r
      → Adds (seen ++ r.slug ∷ []) slugs out ↔ Adds seen (slug ∷ slugs) out
  Adds-resolved slug r seen slugs out e = (
    λ (new, o, c, d). (
      r.slug ∷ new,
      o ∙ concat-append seen new r.slug,
      ((r, e, refl), c),
      subst Distinct (concat-append seen new r.slug) d,
    ),
    λ (new, o, c, d). elim (List-cases new) [
      | inl none_new ↦ absurd (subst (Canonical resolve (slug ∷ slugs)) none_new c)
      | inr (s, more, f) ↦
          let ((r', e', is_slug), rest) = subst (Canonical resolve (slug ∷ slugs)) f c in
          let same : s ≡ r.slug = is_slug ∙ ap (λ x. x.slug) (resolved_inj (sym e' ∙ e)) in
          let whole : seen ++ new ≡ (seen ++ r.slug ∷ []) ++ more =
            ap (λ l. seen ++ l) (f ∙ ap (λ x. x ∷ more) same)
            ∙ sym (concat-append seen more r.slug) in
          (more, o ∙ whole, rest, subst Distinct whole d)
    ],
  )

  -- A slug that resolves to nothing adds nothing.
  no_Adds :
      (slug : Bytes) (seen slugs out : List Bytes)
      → ((r : Region) → ¬ (resolve slug ≡ resolved r))
      → ¬ Adds seen (slug ∷ slugs) out
  no_Adds slug seen slugs out missing ([], o, c, d) = c
  no_Adds slug seen slugs out missing (s ∷ new, o, c, d) = missing c.0.0 c.0.1

  canonical_loop_iff :
      (slugs seen out : List Bytes)
      → Distinct seen
      → (canonical_loop resolve seen slugs ≡ ok out) ↔ Adds seen slugs out
  unfolding canonical_loop
  canonical_loop_iff [] seen out d = (
    λ h. ([], sym (ok_inj h) ∙ sym (append_nil seen), tt, rw (append_nil seen) d),
    λ (new, o, c, k). ap ok (sym (o ∙ ap (λ l. seen ++ l) (no_more new c) ∙ append_nil seen)),
  )
  canonical_loop_iff (slug ∷ slugs) seen out d = elim (Resolution-cases (resolve slug)) [
    | inl e ↦ (
      λ h. cc (rw (canonical_loop, e) at h),
      λ k. absurd (no_Adds slug seen slugs out (λ r f. cc (e, f)) k),
    )
    | inr (inl e) ↦ (
      λ h. cc (rw (canonical_loop, e) at h),
      λ k. absurd (no_Adds slug seen slugs out (λ r f. cc (e, f)) k),
    )
    | inr (inr (r, e)) ↦ elim (Bool-cases (member r.slug seen)) [
      | inl again ↦ (
        λ h. cc (rw (canonical_loop, e, again) at h),
        λ k.
            let (new, o, c, all) = (Adds-resolved slug r seen slugs out e).1 k in
            absurd (
              Distinct-middle seen new r.slug (subst Distinct (concat-append seen new r.slug) all)
                ((member_iff r.slug seen).0 again)),
      )
      | inr fresh ↦
          let new_slug : ¬ In r.slug seen = λ m. cc (fresh, (member_iff r.slug seen).1 m) in
          let (there, back) =
            canonical_loop_iff slugs (seen ++ r.slug ∷ []) out
              (Distinct-concat r.slug seen d new_slug) in
          rw (canonical_loop, e, fresh)
            (
              λ h. (Adds-resolved slug r seen slugs out e).0 (there h),
              λ k. back ((Adds-resolved slug r seen slugs out e).1 k),
            )
    ]
  ]

  -- The canonical slugs are those of the regions that the slugs resolve to, in order; there is an answer
  -- exactly when each slug resolves and no two resolve to the same slug.
  pub canonical_region_slugs_iff :
      (slugs out : List Bytes)
      → (canonical_region_slugs (some resolve) slugs ≡ ok out)
        ↔ (Canonical resolve slugs out × Distinct out)
  unfolding canonical_region_slugs
  canonical_region_slugs_iff slugs out = (
    λ h.
        let (new, e, c, d) = (canonical_loop_iff slugs [] out tt).0 h in
        (subst (Canonical resolve slugs) (sym e) c, subst Distinct (sym e) d),
    λ (c, d). (canonical_loop_iff slugs [] out tt).1 (out, refl, c, d),
  )
