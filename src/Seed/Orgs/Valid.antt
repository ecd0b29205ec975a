-- ===== src/Seed/Orgs/Valid.antt =====
-- Which entries validateOrgs accepts.
use urbanist_atlas.Base.{
  ℕ, suc, ◌≤◌, ◌<◌, ◌≡◌, ◌≢◌, refl, ◌↔◌, ◌⊎◌, inl, inr, Bool, true, false, List, [], ◌∷◌, Option,
  none, some, arith, Bytes, bytes_eq, bytes_eqb_iff, ◌==◌, Unicode, ltb, nat_eqb, length, map,
  member_iff, All, All-intro, In, Distinct, fresh_cons_iff, Option-cases, ok, if◌then◌else◌,
}
use urbanist_atlas.Atlas.Fields.{
  max_name_len, max_short_desc_len, max_tags, max_tag_len, max_region_slugs, max_region_slug_len,
  UrlParser, UrlReason, url_ok, classify_url,
}
use urbanist_atlas.Seed.Orgs.{
  OrgEntry, OrgFieldError, bad_website, bad_contact, validate_url, check_tags, check_region_slugs,
  fails, then_check, validate_org_fields, check_org, check_orgs, validate_orgs,
}

-- What an entry has to be.
pub record ValidOrg (u : Unicode) (parse : UrlParser) (o : OrgEntry) : Type 0 where
  pub slug_there : o.org.slug ≢ []
  pub slug_lower : o.org.slug ≡ u.to_lower o.org.slug
  pub name_there : o.org.name ≢ []
  pub name_fits : u.rune_count o.org.name ≤ max_name_len
  pub desc_there : o.org.short_desc ≢ []
  pub desc_fits : u.rune_count o.org.short_desc ≤ max_short_desc_len
  pub website_there : o.org.website_url ≢ []
  pub website_ok : classify_url u parse o.org.website_url false ≡ url_ok
  pub contact_ok : (o.org.contact_url ≡ []) ⊎ (classify_url u parse o.org.contact_url true ≡ url_ok)
  pub tags_few : length o.org.tags ≤ max_tags
  pub tags_shaped :
      All (λ t. (t ≢ []) × (u.rune_count t ≤ max_tag_len) × (t ≡ u.to_lower t)) o.org.tags
  pub slugs_some : 0 < length o.region_slugs
  pub slugs_few : length o.region_slugs ≤ max_region_slugs
  pub slugs_shaped : All (λ s. (s ≢ []) × (length s ≤ max_region_slug_len)) o.region_slugs

validate_url_iff :
    (u : Unicode) (parse : UrlParser) (mailto : Bool) (error : UrlReason → OrgFieldError)
    (raw : Bytes)
    → (validate_url u parse mailto error raw ≡ none) ↔ (classify_url u parse raw mailto ≡ url_ok)
unfolding validate_url
validate_url_iff u parse mailto error raw = grind arith

check_tags_iff :
    (u : Unicode) (i : ℕ) (tags : List Bytes)
    → (check_tags u i tags ≡ none)
      ↔ All (λ t. (t ≢ []) × (u.rune_count t ≤ max_tag_len) × (t ≡ u.to_lower t)) tags
unfolding check_tags
check_tags_iff u i [] = ground arith
check_tags_iff u i (t ∷ tags) =
    ground
      (arith, bytes_eqb_iff t [], bytes_eqb_iff t (u.to_lower t), check_tags_iff u (suc i) tags)

check_region_slugs_iff :
    (i : ℕ) (slugs : List Bytes)
    → (check_region_slugs i slugs ≡ none)
      ↔ All (λ s. (s ≢ []) × (length s ≤ max_region_slug_len)) slugs
unfolding check_region_slugs
check_region_slugs_iff i [] = ground arith
check_region_slugs_iff i (s ∷ slugs) =
    ground (arith, bytes_eqb_iff s [], check_region_slugs_iff (suc i) slugs)

-- A chain of checks passes where each does.
then_check-none : (a b : Option OrgFieldError) → (then_check a b ≡ none) ↔ ((a ≡ none) × (b ≡ none))
then_check-none none b = ground arith
then_check-none (some e) b = ground arith

empty_fails : (s : Bytes) (e : OrgFieldError) → (fails (s == []) e ≡ none) ↔ (s ≢ [])
empty_fails s e = ground (arith, bytes_eqb_iff s [])

long_fails : (n cap : ℕ) (e : OrgFieldError) → (fails (ltb cap n) e ≡ none) ↔ (n ≤ cap)
long_fails n cap e = ground arith

zero_fails : (n : ℕ) (e : OrgFieldError) → (fails (nat_eqb n 0) e ≡ none) ↔ (0 < n)
zero_fails n e = ground arith

optional_passes :
    (s : Bytes) (check : Option OrgFieldError)
    → ((if s == [] then none else check) ≡ none) ↔ ((s ≡ []) ⊎ (check ≡ none))
optional_passes s check = ground (arith, bytes_eqb_iff s [])

module _ (u : Unicode) (parse : UrlParser) where
  check_org_iff :
      (i : ℕ) (seen : List Bytes) (o : OrgEntry)
      → (check_org u parse i seen o ≡ none) ↔ (ValidOrg u parse o × (¬ In o.org.slug seen))
  unfolding check_org validate_org_fields
  check_org_iff i seen o = ground (
    arith,
    bytes_eqb_iff o.org.slug [],
    bytes_eqb_iff o.org.slug (u.to_lower o.org.slug),
    member_iff o.org.slug seen,
    bytes_eqb_iff o.org.name [],
    bytes_eqb_iff o.org.short_desc [],
    bytes_eqb_iff o.org.website_url [],
    bytes_eqb_iff o.org.contact_url [],
    validate_url_iff u parse false bad_website o.org.website_url,
    validate_url_iff u parse true bad_contact o.org.contact_url,
    check_tags_iff u 0 o.org.tags,
    check_region_slugs_iff 0 o.region_slugs,
  )

  check_orgs_iff :
      (i : ℕ) (seen : List Bytes) (os : List OrgEntry)
      → (check_orgs u parse i seen os ≡ ok tt) ↔ (
          All (ValidOrg u parse) os
          × Distinct (map (λ o. o.org.slug) os)
          × All (λ o. ¬ In o.org.slug seen) os)
  unfolding check_orgs
  check_orgs_iff i seen [] = (λ h. (tt, tt, tt), λ h. refl)
  check_orgs_iff i seen (o ∷ os) = elim (Option-cases (check_org u parse i seen o)) [
    | inr (error, e) ↦ (
      λ h. cc (rw (check_orgs, e) at h),
      λ (v, d, f). cc (e, (check_org_iff i seen o).1 (v.0, f.0)),
    )
    | inl e ↦
        rw (check_orgs, e)
          (
            λ h.
                let (v, d, f) = (check_orgs_iff (suc i) (o.org.slug ∷ seen) os).0 h in
                let (valid, fresh) = (check_org_iff i seen o).0 e in
                let (apart, older) = (fresh_cons_iff _ o.org.slug seen os).0 f in
                ((valid, v), (apart, d), (fresh, older)),
            λ (v, d, f).
                (check_orgs_iff (suc i) (o.org.slug ∷ seen) os).1
                  (v.1, d.1, (fresh_cons_iff _ o.org.slug seen os).1 (d.0, f.1)),
          )
  ]

-- An orgs file passes exactly when it has an entry, each entry is valid, and no two have the same slug.
pub validate_orgs_iff :
    (u : Unicode) (parse : UrlParser) (os : List OrgEntry)
    → (validate_orgs u parse os ≡ ok tt)
      ↔ ((os ≢ []) × All (ValidOrg u parse) os × Distinct (map (λ o. o.org.slug) os))
unfolding validate_orgs
validate_orgs_iff u parse [] = (λ h. cc, λ h. absurd (h.0 refl))
validate_orgs_iff u parse (o ∷ os) = (
  λ h. let (v, d, f) = (check_orgs_iff u parse 0 [] (o ∷ os)).0 h in (λ e. cc, v, d),
  λ (n, v, d). (check_orgs_iff u parse 0 [] (o ∷ os)).1 (v, d, All-intro _ (o ∷ os) (λ q i m. m)),
)
