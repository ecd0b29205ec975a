-- ===== src/Atlas/Submission.antt =====
-- api/pkg/atlas/submission_validate.go: a public submission is normalized, checked field by field, and
-- stored if no field fails. `u` stands for Go's Unicode tables, `parse` for net/url.
pub mod Canonical
pub mod Shape
pub mod Accepted
pub mod Tests
use urbanist_atlas.Base.{
  ℕ, suc, ◌+◌, Bool, true, false, not, ◌&&◌, ◌||◌, List, [], ◌∷◌, ◌++◌, Option, none, some, Bytes,
  codes, Unicode, ◌==◌, bytes_eq, nat_eqb, ltb, leb, length, select, map, member, any,
  if◌then◌else◌, Result, ok, err, ◌>>=◌,
}
use urbanist_atlas.Atlas.Types.{Region}
use urbanist_atlas.Atlas.Fields.{
  max_name_len, max_short_desc_len, max_region_slugs, max_submitter_name_len,
  max_submitter_note_len, UrlParser, Message, required, too_many, resolver_unavailable,
  unknown_slug, lookup_failed, repeated_slug, check_http_url, check_contact_url, required_text,
  capped_text, email_error, slug_shape,
}

pub record SubmissionPayload : Type 0 where
  pub name : Bytes
  pub short_desc : Bytes
  pub website_url : Bytes
  pub contact_url : Bytes
  pub tags : List Bytes
  pub region_slugs : List Bytes

pub record NewSubmissionInput : Type 0 where
  pub payload : SubmissionPayload
  pub submitter_name : Bytes
  pub submitter_email : Bytes
  pub submitter_note : Bytes

-- `errs`: the message of each field that fails.
pub record FieldErrors : Type 0 where
  pub name : Option Message
  pub short_desc : Option Message
  pub website_url : Option Message
  pub contact_url : Option Message
  pub region_slugs : Option Message
  pub submitter_name : Option Message
  pub submitter_email : Option Message
  pub submitter_note : Option Message

abbrev pub is_none {ℓ} : {A : Type ℓ} → Option A → Bool
is_none none = true
is_none (some a) = false

-- `len(errs) == 0`
unfoldable pub no_errors : FieldErrors → Bool
no_errors e =
    is_none e.name
    && is_none e.short_desc
    && is_none e.website_url
    && is_none e.contact_url
    && is_none e.region_slugs
    && is_none e.submitter_name
    && is_none e.submitter_email
    && is_none e.submitter_note

unfoldable pub normalize_submission : Unicode → NewSubmissionInput → NewSubmissionInput
normalize_submission u input = record {
  payload = record {
    name = u.trim_space input.payload.name;
    short_desc = u.trim_space input.payload.short_desc;
    website_url = u.trim_space input.payload.website_url;
    contact_url = u.trim_space input.payload.contact_url;
    tags = input.payload.tags;
    region_slugs = select (λ s. not (s == [])) (map u.trim_space input.payload.region_slugs);
  };
  submitter_name = u.trim_space input.submitter_name;
  submitter_email = u.trim_space input.submitter_email;
  submitter_note = input.submitter_note;
}

unfoldable pub submission_shape_errors : Unicode → UrlParser → NewSubmissionInput → FieldErrors
unfolding required_text capped_text check_http_url check_contact_url slug_shape email_error
submission_shape_errors u parse input = record {
  name = required_text u max_name_len input.payload.name;
  short_desc = required_text u max_short_desc_len input.payload.short_desc;
  website_url =
      if input.payload.website_url == []
      then some required
      else check_http_url u parse input.payload.website_url;
  contact_url =
      if input.payload.contact_url == []
      then none
      else check_contact_url u parse input.payload.contact_url;
  region_slugs =
      if ltb max_region_slugs (length input.payload.region_slugs)
      then some too_many
      else slug_shape 0 input.payload.region_slugs;
  submitter_name = capped_text u max_submitter_name_len input.submitter_name;
  submitter_email = email_error input.submitter_email;
  submitter_note = capped_text u max_submitter_note_len input.submitter_note;
}

-- What ResolveRegionBySlug of the region store answers.
pub data Resolution : Type 0 where
  resolved : Region → Resolution
  not_found failed : Resolution

-- The loop of canonicalRegionSlugs; `seen` are the canonical slugs so far, in order.
unfoldable pub canonical_loop :
    (Bytes → Resolution) → List Bytes → List Bytes → Result Message (List Bytes)
canonical_loop resolve seen [] = ok seen
canonical_loop resolve seen (slug ∷ rest) = elim (resolve slug) [
  | not_found ↦ err (unknown_slug slug)
  | failed ↦ err (lookup_failed slug)
  | resolved r ↦
      let more = canonical_loop resolve (seen ++ r.slug ∷ []) rest in
      if member r.slug seen then err (repeated_slug slug) else more
]

-- A nil store is `none`.
unfoldable pub canonical_region_slugs :
    Option (Bytes → Resolution) → List Bytes → Result Message (List Bytes)
unfolding canonical_loop
canonical_region_slugs none slugs = err resolver_unavailable
canonical_region_slugs (some resolve) slugs = canonical_loop resolve [] slugs

abbrev with_slugs : NewSubmissionInput → List Bytes → NewSubmissionInput
with_slugs input slugs = record input { payload = record input.payload { region_slugs = slugs } }

-- The slugs are resolved only where their shape is right.
unfoldable pub validate_submission :
    Unicode
    → UrlParser
    → Option (Bytes → Resolution)
    → NewSubmissionInput
    → Result FieldErrors NewSubmissionInput
unfolding normalize_submission submission_shape_errors canonical_region_slugs no_errors
validate_submission u parse regions raw =
    let input = normalize_submission u raw in
    let errs = submission_shape_errors u parse input in
    elim errs.region_slugs [
      | some m ↦ err errs
      | none ↦ elim (canonical_region_slugs regions input.payload.region_slugs) [
        | err m ↦ err (record errs { region_slugs = some m })
        | ok slugs ↦ if no_errors errs then ok (with_slugs input slugs) else err errs
      ]
    ]

pub data CreateError : Type 0 where
  invalid : FieldErrors → CreateError
  store_failed : CreateError

-- `create` is what the submission store does: its new state, and a row or an error.
unfoldable pub create_submission {ℓ κ} :
    {St : Type ℓ} {Row : Type κ}
    → Unicode
    → UrlParser
    → Option (Bytes → Resolution)
    → (NewSubmissionInput → St → St × Option Row)
    → NewSubmissionInput
    → St
    → St × Result CreateError Row
unfolding validate_submission
create_submission u parse regions create raw st = elim (validate_submission u parse regions raw) [
  | err e ↦ (st, err (invalid e))
  | ok input ↦
      let (st', row) = create input st in
      (st', elim row [ none ↦ err store_failed | some r ↦ ok r ])
]
