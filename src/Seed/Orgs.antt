-- ===== src/Seed/Orgs.antt =====
-- validateOrgs and ValidateOrgFields of api/internal/seedfiles/orgs.go. `u` stands for Go's Unicode
-- tables, `parse` for net/url; the texts of the errors are constructors, with the index where they name
-- one.
pub mod Valid
pub mod Tests
use urbanist_atlas.Base.{
  ℕ, suc, Bool, true, false, not, List, [], ◌∷◌, Option, none, some, Bytes, bytes_eq, ◌==◌, Unicode,
  ltb, nat_eqb, length, member, if◌then◌else◌, Result, ok, err,
}
use urbanist_atlas.Atlas.Types.{Org}
use urbanist_atlas.Atlas.Fields.{
  max_name_len, max_short_desc_len, max_tags, max_tag_len, max_region_slugs, max_region_slug_len,
  UrlParser, UrlReason, url_ok, url_too_long, url_parse_failed, url_bad_scheme, url_missing_host,
  url_mailto_no_address, classify_url,
}

pub record LocalDate : Type 0 where
  pub year : ℕ
  pub month : ℕ
  pub day : ℕ

-- An Org with the fields that only the file has; added_at hides the org's.
pub record OrgEntry : Type 0 where
  pub org : Org
  pub region_slugs : List Bytes
  pub added_at : LocalDate

pub data OrgFieldError : Type 0 where
  name_required name_too_long desc_required desc_too_long website_required : OrgFieldError
  bad_website bad_contact : UrlReason → OrgFieldError
  too_many_tags : OrgFieldError
  tag_empty tag_too_long tag_not_lowercase : ℕ → OrgFieldError
  no_region_slugs too_many_region_slugs : OrgFieldError
  region_slug_empty region_slug_too_long : ℕ → OrgFieldError

-- validateHTTPURL and validateContactURL, which differ in what ClassifyURL may accept.
unfoldable pub validate_url :
    Unicode → UrlParser → Bool → (UrlReason → OrgFieldError) → Bytes → Option OrgFieldError
unfolding classify_url
validate_url u parse allow_mailto error raw = elim (classify_url u parse raw allow_mailto) [
  | url_ok ↦ none
  | url_too_long ↦ some (error url_too_long)
  | url_parse_failed ↦ some (error url_parse_failed)
  | url_bad_scheme ↦ some (error url_bad_scheme)
  | url_missing_host ↦ some (error url_missing_host)
  | url_mailto_no_address ↦ some (error url_mailto_no_address)
]

unfoldable pub check_tags : Unicode → ℕ → List Bytes → Option OrgFieldError
check_tags u i [] = none
check_tags u i (tag ∷ rest) =
    let more = check_tags u (suc i) rest in
    if tag == []
    then some (tag_empty i)
    else if ltb max_tag_len (u.rune_count tag)
    then some (tag_too_long i)
    else if not (tag == u.to_lower tag)
    then some (tag_not_lowercase i)
    else more

unfoldable pub check_region_slugs : ℕ → List Bytes → Option OrgFieldError
check_region_slugs i [] = none
check_region_slugs i (slug ∷ rest) =
    let more = check_region_slugs (suc i) rest in
    if slug == []
    then some (region_slug_empty i)
    else if ltb max_region_slug_len (length slug)
    then some (region_slug_too_long i)
    else more

-- The first of two checks that fails.
abbrev pub then_check : Option OrgFieldError → Option OrgFieldError → Option OrgFieldError
then_check none next = next
then_check (some e) next = some e

-- A guard `if failed { return error }`.
abbrev pub fails : Bool → OrgFieldError → Option OrgFieldError
fails true e = some e
fails false e = none

unfoldable pub validate_org_fields :
    Unicode
    → UrlParser
    → Bytes
    → Bytes
    → Bytes
    → Bytes
    → List Bytes
    → List Bytes
    → Option OrgFieldError
unfolding validate_url check_tags check_region_slugs
validate_org_fields u parse name short_desc website contact tags region_slugs =
    then_check (fails (name == []) name_required) (
      then_check (fails (ltb max_name_len (u.rune_count name)) name_too_long) (
        then_check (fails (short_desc == []) desc_required) (
          then_check (fails (ltb max_short_desc_len (u.rune_count short_desc)) desc_too_long) (
            then_check (fails (website == []) website_required) (
              then_check (validate_url u parse false bad_website website) (
                then_check
                  (if contact == [] then none else validate_url u parse true bad_contact contact)
                  (then_check (fails (ltb max_tags (length tags)) too_many_tags) (
                    then_check (check_tags u 0 tags) (
                      then_check (fails (nat_eqb (length region_slugs) 0) no_region_slugs) (
                        then_check
                          (fails (ltb max_region_slugs (length region_slugs)) too_many_region_slugs)
                          (check_region_slugs 0 region_slugs)))))))))))

pub data OrgError : Type 0 where
  no_orgs : OrgError
  org_slug_required org_slug_not_lowercase org_slug_repeated : ℕ → OrgError
  org_field : ℕ → OrgFieldError → OrgError

-- One round of the loop, for the entry `i`.
unfoldable pub check_org : Unicode → UrlParser → ℕ → List Bytes → OrgEntry → Option OrgError
unfolding validate_org_fields
check_org u parse i seen o =
    if o.org.slug == []
    then some (org_slug_required i)
    else if not (o.org.slug == u.to_lower o.org.slug)
    then some (org_slug_not_lowercase i)
    else if member o.org.slug seen
    then some (org_slug_repeated i)
    else elim (validate_org_fields u parse o.org.name o.org.short_desc o.org.website_url
        o.org.contact_url o.org.tags o.region_slugs) [ none ↦ none | some e ↦ some (org_field i e) ]

unfoldable pub check_orgs :
    Unicode → UrlParser → ℕ → List Bytes → List OrgEntry → Result OrgError (Unit {0})
unfolding check_org
check_orgs u parse i seen [] = ok tt
check_orgs u parse i seen (o ∷ os) =
    let rest = check_orgs u parse (suc i) (o.org.slug ∷ seen) os in
    elim (check_org u parse i seen o) [ some e ↦ err e | none ↦ rest ]

unfoldable pub validate_orgs : Unicode → UrlParser → List OrgEntry → Result OrgError (Unit {0})
unfolding check_orgs
validate_orgs u parse [] = err no_orgs
validate_orgs u parse (o ∷ os) = check_orgs u parse 0 [] (o ∷ os)
