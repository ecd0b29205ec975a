-- ===== src/Atlas/Submission/Accepted.antt =====
-- Which submissions ValidateSubmission accepts, and what reaches the store.
use urbanist_atlas.Base.{
  ◌≡◌, refl, sym, ap, ◌∙◌, ◌↔◌, ◌⊎◌, inl, inr, true, List, Option, none, some, some_inj, Bytes,
  bytes_eq, Unicode, Distinct, Bool-cases, Option-cases, Result, ok, err, ok_inj,
}
use urbanist_atlas.Atlas.Fields.{UrlParser}
use urbanist_atlas.Atlas.Submission.{
  NewSubmissionInput, FieldErrors, no_errors, normalize_submission, submission_shape_errors,
  Resolution, canonical_region_slugs, with_slugs, validate_submission, create_submission,
}
use urbanist_atlas.Atlas.Submission.Canonical.{Canonical, canonical_region_slugs_iff}
use urbanist_atlas.Atlas.Submission.Shape.{
  WellShaped, Clean-WellShaped, WellShaped-Clean, no_errors-Clean,
}

-- The submission that is accepted for `raw`: normalized, of the right shape, with canonical slugs.
abbrev pub Accepts :
    Unicode → UrlParser → (Bytes → Resolution) → NewSubmissionInput → NewSubmissionInput → Type 0
Accepts u parse resolve raw out =
    (slugs : List Bytes) × WellShaped u parse (normalize_submission u raw)
    × Canonical resolve (normalize_submission u raw).payload.region_slugs slugs
    × Distinct slugs
    × (out ≡ with_slugs (normalize_submission u raw) slugs)

Result-cases : {E A : Type 0} (x : Result E A) → ((a : A) × (x ≡ ok a)) ⊎ ((e : E) × (x ≡ err e))
Result-cases (ok a) = inl (a, refl)
Result-cases (err e) = inr (e, refl)

module _ (u : Unicode) (parse : UrlParser) (resolve : Bytes → Resolution) where
  -- With a region resolver, ValidateSubmission accepts a submission, as the normalized one with canonical slugs, exactly when each
  -- field of that has the right shape, each slug resolves, and no two resolve to the same slug.
  pub validate_submission_iff :
      (raw out : NewSubmissionInput)
      → (validate_submission u parse (some resolve) raw ≡ ok out) ↔ Accepts u parse resolve raw out
  unfolding validate_submission
  validate_submission_iff raw out = elim (Option-cases errs.region_slugs) [
    | inr (m, e) ↦
        (λ h. cc (rw (validate_submission, e) at h), λ (slugs, w, c, d, o). cc (e, (shaped w).0))
    | inl e ↦ elim (Result-cases (canonical_region_slugs (some resolve) asked)) [
      | inr (m, f) ↦ (
        λ h. cc (rw (validate_submission, e, f) at h),
        λ (slugs, w, c, d, o). cc (f, (canonical_region_slugs_iff resolve asked slugs).1 (c, d)),
      )
      | inl (slugs, f) ↦ elim (Bool-cases (no_errors errs)) [
        | inr dirty ↦ (
          λ h. cc (rw (validate_submission, e, f, dirty) at h),
          λ (slugs', w, c, d, o). cc (dirty, (shaped w).1),
        )
        | inl clean ↦
            rw (validate_submission, e, f, clean)
              (
                λ h.
                    let (c, d) = (canonical_region_slugs_iff resolve asked slugs).0 f in
                    (
                      slugs,
                      Clean-WellShaped u parse input ((no_errors-Clean errs).0 clean),
                      c,
                      d,
                      sym (ok_inj h),
                    ),
                λ (slugs', w, c, d, o).
                    let same =
                      ok_inj (sym f ∙ (canonical_region_slugs_iff resolve asked slugs').1 (c, d)) in
                    ap ok (ap (with_slugs input) same ∙ sym o),
              )
      ]
    ]
  ]
    where
      input : NewSubmissionInput
      input = normalize_submission u raw

      errs : FieldErrors
      errs = submission_shape_errors u parse (normalize_submission u raw)

      asked : List Bytes
      asked = (normalize_submission u raw).payload.region_slugs

      shaped :
          WellShaped u parse (normalize_submission u raw)
          → (errs.region_slugs ≡ none) × (no_errors errs ≡ true)
      shaped w =
          let clean = WellShaped-Clean u parse (normalize_submission u raw) w in
          (clean.4, (no_errors-Clean errs).1 clean)

  module _ {St Row : Type 0} (create : NewSubmissionInput → St → St × Option Row) where
    -- With a region resolver: either a submission is accepted for the raw one and the store is what it makes
    -- of that, or none is accepted and the store is left as it is.
    pub create_submission-store :
        (raw : NewSubmissionInput) (st : St)
        → ((out : NewSubmissionInput) × Accepts u parse resolve raw out
            × ((create_submission u parse (some resolve) create raw st).0 ≡ (create out st).0))
          ⊎ ((out : NewSubmissionInput) → ¬ Accepts u parse resolve raw out)
            × ((create_submission u parse (some resolve) create raw st).0 ≡ st)
    unfolding create_submission
    create_submission-store raw st =
        elim (Result-cases (validate_submission u parse (some resolve) raw)) [
          | inl (out, e) ↦
              inl (out, (validate_submission_iff raw out).0 e, rw (create_submission, e) refl)
          | inr (errs, e) ↦ inr (
            λ out k. cc (e, (validate_submission_iff raw out).1 k),
            rw (create_submission, e) refl,
          )
        ]

    -- With a region resolver, a row comes back exactly where a submission is accepted and the store makes that row of it.
    pub create_submission_iff :
        (raw : NewSubmissionInput) (st : St) (row : Row)
        → ((create_submission u parse (some resolve) create raw st).1 ≡ ok row) ↔ (
            (out : NewSubmissionInput) × Accepts u parse resolve raw out
            × ((create out st).1 ≡ some row))
    unfolding create_submission
    create_submission_iff raw st row =
        elim (Result-cases (validate_submission u parse (some resolve) raw)) [
          | inr (errs, e) ↦ (
            λ h. cc (rw (create_submission, e) at h),
            λ (out, k, c). cc (e, (validate_submission_iff raw out).1 k),
          )
          | inl (out, e) ↦
              let same : (out' : NewSubmissionInput)
                  → Accepts u parse resolve raw out'
                  → out ≡ out' =
                λ out' k. ok_inj (sym e ∙ (validate_submission_iff raw out').1 k) in
              elim (Option-cases (create out st).1) [
                | inl f ↦ (
                  λ h. cc (rw (create_submission, e, f) at h),
                  λ (out', k, c). cc (f, c, ap (λ o. (create o st).1) (same out' k)),
                )
                | inr (row', f) ↦ (
                  λ h. (
                    out,
                    (validate_submission_iff raw out).0 e,
                    f ∙ ap some (ok_inj (rw (create_submission, e, f) at h)),
                  ),
                  λ (out', k, c).
                      rw (create_submission, e, f)
                        (ap ok (some_inj (sym f ∙ ap (λ o. (create o st).1) (same out' k) ∙ c))),
                )
              ]
        ]
