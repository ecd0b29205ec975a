-- ===== src/Atlas/Submission/Shape.antt =====
-- Which submissions have every field as it has to be.
use urbanist_atlas.Base.{
  ℕ, suc, ◌≤◌, ◌≡◌, ◌≢◌, ◌↔◌, ◌⊎◌, inl, inr, true, false, List, [], ◌∷◌, Option, none, some, arith,
  Bytes, bytes_eq, bytes_eqb_iff, ◌==◌, Unicode, length, ltb, All, if◌then◌else◌,
}
use urbanist_atlas.Atlas.Fields.{
  max_name_len, max_short_desc_len, max_region_slug_len, max_region_slugs, max_submitter_name_len,
  max_submitter_email_len, max_submitter_note_len, UrlParser, url_ok, Message, classify_url,
  check_http_url, check_contact_url, required_text, capped_text, email_error, slug_shape,
}
use urbanist_atlas.Atlas.Fields.Email.{Address, looks_like_email_iff}
use urbanist_atlas.Atlas.Submission.{
  SubmissionPayload, NewSubmissionInput, FieldErrors, is_none, no_errors, submission_shape_errors,
}

-- What each field has to be.
pub record WellShaped (u : Unicode) (parse : UrlParser) (input : NewSubmissionInput) : Type 0 where
  pub name_there : input.payload.name ≢ []
  pub name_fits : u.rune_count input.payload.name ≤ max_name_len
  pub desc_there : input.payload.short_desc ≢ []
  pub desc_fits : u.rune_count input.payload.short_desc ≤ max_short_desc_len
  pub website_there : input.payload.website_url ≢ []
  pub website_ok : classify_url u parse input.payload.website_url false ≡ url_ok
  pub contact_ok :
      (input.payload.contact_url ≡ [])
      ⊎ (classify_url u parse input.payload.contact_url true ≡ url_ok)
  pub slugs_few : length input.payload.region_slugs ≤ max_region_slugs
  pub slugs_shaped :
      All (λ s. (s ≢ []) × (length s ≤ max_region_slug_len)) input.payload.region_slugs
  pub submitter_name_fits : u.rune_count input.submitter_name ≤ max_submitter_name_len
  pub email_fits : length input.submitter_email ≤ max_submitter_email_len
  pub email_ok : (input.submitter_email ≡ []) ⊎ Address input.submitter_email
  pub note_fits : u.rune_count input.submitter_note ≤ max_submitter_note_len

required_text_iff :
    (u : Unicode) (cap : ℕ) (s : Bytes)
    → (required_text u cap s ≡ none) ↔ ((s ≢ []) × (u.rune_count s ≤ cap))
unfolding required_text
required_text_iff u cap s = ground (arith, bytes_eqb_iff s [])

capped_text_iff :
    (u : Unicode) (cap : ℕ) (s : Bytes) → (capped_text u cap s ≡ none) ↔ (u.rune_count s ≤ cap)
unfolding capped_text
capped_text_iff u cap s = ground arith

email_error_iff :
    (s : Bytes)
    → (email_error s ≡ none) ↔ ((length s ≤ max_submitter_email_len) × ((s ≡ []) ⊎ Address s))
unfolding email_error
email_error_iff s = ground (arith, bytes_eqb_iff s [], looks_like_email_iff s)

slug_shape_iff :
    (i : ℕ) (slugs : List Bytes)
    → (slug_shape i slugs ≡ none) ↔ All (λ s. (s ≢ []) × (length s ≤ max_region_slug_len)) slugs
unfolding slug_shape
slug_shape_iff i [] = ground arith
slug_shape_iff i (s ∷ slugs) = ground (arith, bytes_eqb_iff s [], slug_shape_iff (suc i) slugs)

check_http_url_iff :
    (u : Unicode) (parse : UrlParser) (s : Bytes)
    → (check_http_url u parse s ≡ none) ↔ (classify_url u parse s false ≡ url_ok)
unfolding check_http_url
check_http_url_iff u parse s = grind arith

check_contact_url_iff :
    (u : Unicode) (parse : UrlParser) (s : Bytes)
    → (check_contact_url u parse s ≡ none) ↔ (classify_url u parse s true ≡ url_ok)
unfolding check_contact_url
check_contact_url_iff u parse s = grind arith

-- A check that an empty text fails, and one that it passes.
required_field :
    (s : Bytes) (m : Message) (check : Option Message)
    → ((if s == [] then some m else check) ≡ none) ↔ ((s ≢ []) × (check ≡ none))
required_field s m check = ground (arith, bytes_eqb_iff s [])

optional_field :
    (s : Bytes) (check : Option Message)
    → ((if s == [] then none else check) ≡ none) ↔ ((s ≡ []) ⊎ (check ≡ none))
optional_field s check = ground (arith, bytes_eqb_iff s [])

few_field :
    (n cap : ℕ) (m : Message) (check : Option Message)
    → ((if ltb cap n then some m else check) ≡ none) ↔ ((n ≤ cap) × (check ≡ none))
few_field n cap m check = ground arith

is_none_iff : {A : Type 0} (o : Option A) → (is_none o ≡ true) ↔ (o ≡ none)
is_none_iff none = ground arith
is_none_iff (some a) = ground arith

-- No field has a message.
abbrev pub Clean : FieldErrors → Type 0
Clean e =
    (e.name ≡ none)
    × (e.short_desc ≡ none)
    × (e.website_url ≡ none)
    × (e.contact_url ≡ none)
    × (e.region_slugs ≡ none)
    × (e.submitter_name ≡ none)
    × (e.submitter_email ≡ none)
    × (e.submitter_note ≡ none)

pub no_errors-Clean : (e : FieldErrors) → (no_errors e ≡ true) ↔ Clean e
unfolding no_errors
no_errors-Clean e = ground (
  arith,
  is_none_iff e.name,
  is_none_iff e.short_desc,
  is_none_iff e.website_url,
  is_none_iff e.contact_url,
  is_none_iff e.region_slugs,
  is_none_iff e.submitter_name,
  is_none_iff e.submitter_email,
  is_none_iff e.submitter_note,
)

module _ (u : Unicode) (parse : UrlParser) (input : NewSubmissionInput) where
  abbrev payload : SubmissionPayload
  payload = input.payload

  pub Clean-WellShaped : Clean (submission_shape_errors u parse input) → WellShaped u parse input
  unfolding submission_shape_errors
  Clean-WellShaped (name, desc, website, contact, slugs, submitter, email, note) =
      let (name_there, name_fits) = (required_text_iff u max_name_len payload.name).0 name in
      let (desc_there, desc_fits) =
        (required_text_iff u max_short_desc_len payload.short_desc).0 desc in
      let (website_there, checked) = (required_field payload.website_url _ _).0 website in
      let (few, shaped) = (few_field (length payload.region_slugs) max_region_slugs _ _).0 slugs in
      let (email_fits, email_ok) = (email_error_iff input.submitter_email).0 email in
      record {
        name_there = name_there;
        name_fits = name_fits;
        desc_there = desc_there;
        desc_fits = desc_fits;
        website_there = website_there;
        website_ok = (check_http_url_iff u parse payload.website_url).0 checked;
        contact_ok = elim ((optional_field payload.contact_url _).0 contact) [
          | inl empty ↦ inl empty
          | inr fine ↦ inr ((check_contact_url_iff u parse payload.contact_url).0 fine)
        ];
        slugs_few = few;
        slugs_shaped = (slug_shape_iff 0 payload.region_slugs).0 shaped;
        submitter_name_fits =
            (capped_text_iff u max_submitter_name_len input.submitter_name).0 submitter;
        email_fits = email_fits;
        email_ok = email_ok;
        note_fits = (capped_text_iff u max_submitter_note_len input.submitter_note).0 note;
      }

  pub WellShaped-Clean : WellShaped u parse input → Clean (submission_shape_errors u parse input)
  unfolding submission_shape_errors
  WellShaped-Clean w = (
    (required_text_iff u max_name_len payload.name).1 (w.name_there, w.name_fits),
    (required_text_iff u max_short_desc_len payload.short_desc).1 (w.desc_there, w.desc_fits),
    (required_field payload.website_url _ _).1
        (w.website_there, (check_http_url_iff u parse payload.website_url).1 w.website_ok),
    (optional_field payload.contact_url _).1 (elim w.contact_ok [
      | inl empty ↦ inl empty
      | inr fine ↦ inr ((check_contact_url_iff u parse payload.contact_url).1 fine)
    ]),
    (few_field (length payload.region_slugs) max_region_slugs _ _).1
        (w.slugs_few, (slug_shape_iff 0 payload.region_slugs).1 w.slugs_shaped),
    (capped_text_iff u max_submitter_name_len input.submitter_name).1 w.submitter_name_fits,
    (email_error_iff input.submitter_email).1 (w.email_fits, w.email_ok),
    (capped_text_iff u max_submitter_note_len input.submitter_note).1 w.note_fits,
  )
