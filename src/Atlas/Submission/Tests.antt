-- ===== src/Atlas/Submission/Tests.antt =====
-- A submission that is accepted, with a parser that reads https URLs alone and a store that counts.
use urbanist_atlas.Base.{
  ◌||◌, ℕ, suc, ◌≡◌, refl, ◌⊎◌, ◌↔◌, true, [], ◌∷◌, Option, none, some, Bytes, codes, ascii_only,
  ◌==◌, bytes_eq, bytes_eqb, has_prefix, drop, Distinct, if◌then◌else◌, lower_byte, trim_left,
  trim_right, ok,
}
use urbanist_atlas.Atlas.Types.{zero_region}
use urbanist_atlas.Atlas.Fields.{UrlParser, classify_url, looks_like_email}
use urbanist_atlas.Atlas.Fields.Email.{Address, looks_like_email_iff}
use urbanist_atlas.Atlas.Submission.{
  NewSubmissionInput, Resolution, resolved, not_found, canonical_region_slugs, validate_submission,
  create_submission,
}
use urbanist_atlas.Atlas.Submission.Canonical.{Canonical, canonical_region_slugs_iff}
use urbanist_atlas.Atlas.Submission.Accepted.{
  Accepts, validate_submission_iff, create_submission-store,
}

abbrev https_only : UrlParser
https_only raw =
    if has_prefix raw (codes "https://")
    then some (record { scheme = codes "https"; host = drop 8 raw; opaque_part = [] })
    else none

-- Two regions: "nyc" is also known as "new-york".
abbrev resolve : Bytes → Resolution
resolve slug =
    if slug == codes "nyc" || slug == codes "new-york"
    then resolved (record zero_region { slug = codes "nyc" })
    else if slug == codes "ny"
    then resolved (record zero_region { slug = codes "ny" })
    else not_found

abbrev count_rows : NewSubmissionInput → ℕ → ℕ × Option ℕ
count_rows input n = (suc n, some n)

abbrev raw : NewSubmissionInput
raw = record {
  payload = record {
    name = codes " Transit ";
    short_desc = codes "Buses";
    website_url = codes "https://a.org";
    contact_url = [];
    tags = [];
    region_slugs = codes "new-york" ∷ codes " " ∷ codes "ny" ∷ [];
  };
  submitter_name = [];
  submitter_email = codes "me@a.org";
  submitter_note = [];
}

abbrev accepted : NewSubmissionInput
accepted = record raw {
  payload = record raw.payload {
    name = codes "Transit";
    region_slugs = codes "nyc" ∷ codes "ny" ∷ [];
  };
}

raw-accepted : validate_submission ascii_only https_only (some resolve) raw ≡ ok accepted
unfolding validate_submission bytes_eqb has_prefix lower_byte trim_left trim_right classify_url
raw-accepted = refl

validate_submission_iff_example :
    (validate_submission ascii_only https_only (some resolve) raw ≡ ok accepted)
    ↔ Accepts ascii_only https_only resolve raw accepted
validate_submission_iff_example = validate_submission_iff ascii_only https_only resolve raw accepted

create_submission-store_example :
    ((out : NewSubmissionInput) × Accepts ascii_only https_only resolve raw out
      × ((create_submission ascii_only https_only (some resolve) count_rows raw 7).0
          ≡ (count_rows out 7).0))
    ⊎ ((out : NewSubmissionInput) → ¬ Accepts ascii_only https_only resolve raw out)
      × ((create_submission ascii_only https_only (some resolve) count_rows raw 7).0 ≡ 7)
create_submission-store_example =
    create_submission-store ascii_only https_only resolve count_rows raw 7

canonical_region_slugs_iff_example :
    (canonical_region_slugs (some resolve) (codes "nyc" ∷ codes "ny" ∷ [])
      ≡ ok (codes "nyc" ∷ codes "ny" ∷ []))
    ↔ (Canonical resolve (codes "nyc" ∷ codes "ny" ∷ []) (codes "nyc" ∷ codes "ny" ∷ [])
        × Distinct (codes "nyc" ∷ codes "ny" ∷ []))
canonical_region_slugs_iff_example =
    canonical_region_slugs_iff resolve (codes "nyc" ∷ codes "ny" ∷ [])
      (codes "nyc" ∷ codes "ny" ∷ [])

looks_like_email_iff_example :
    (looks_like_email (codes "me@a.org") ≡ true) ↔ Address (codes "me@a.org")
looks_like_email_iff_example = looks_like_email_iff (codes "me@a.org")
