-- ===== src/Atlas/Fields.antt =====
-- The checks of one field in api/pkg/atlas/submission_validate.go: its caps, its URLs, the shape of an
-- e-mail address and of the region slugs. `u` stands for Go's Unicode tables, `parse` for net/url.
pub mod Email
use urbanist_atlas.Base.{
  ℕ, suc, ◌+◌, Bool, true, false, not, ◌&&◌, ◌||◌, List, [], ◌∷◌, ◌++◌, Option, none, some, Bytes,
  codes, Unicode, ◌==◌, bytes_eq, nat_eqb, ltb, leb, length, select, map, member, any,
  if◌then◌else◌, Result, ok, err, ◌>>=◌,
}

abbrev pub max_name_len : ℕ
max_name_len = 200

abbrev pub max_short_desc_len : ℕ
max_short_desc_len = 1000

abbrev pub max_url_len : ℕ
max_url_len = 500

abbrev pub max_tag_len : ℕ
max_tag_len = 50

abbrev pub max_tags : ℕ
max_tags = 20

abbrev pub max_region_slug_len : ℕ
max_region_slug_len = 100

abbrev pub max_region_slugs : ℕ
max_region_slugs = 20

abbrev pub max_submitter_name_len : ℕ
max_submitter_name_len = 200

abbrev pub max_submitter_email_len : ℕ
max_submitter_email_len = 320

abbrev pub max_submitter_note_len : ℕ
max_submitter_note_len = 2000

-- What url.Parse answers, as far as the check reads it.
pub record Url : Type 0 where
  pub scheme : Bytes
  pub host : Bytes
  pub opaque_part : Bytes

abbrev pub UrlParser : Type 0
UrlParser = Bytes → Option Url

pub data UrlReason : Type 0 where
  url_ok url_too_long url_parse_failed url_bad_scheme url_missing_host url_mailto_no_address :
      UrlReason

unfoldable pub classify_url : Unicode → UrlParser → Bytes → Bool → UrlReason
classify_url u parse raw allow_mailto =
    if ltb max_url_len (length raw) then url_too_long else elim (parse raw) [
      | none ↦ url_parse_failed
      | some p ↦
          let scheme = u.to_lower p.scheme in
          if scheme == codes "http" || scheme == codes "https"
          then (if p.host == [] then url_missing_host else url_ok)
          else if scheme == codes "mailto"
          then (if not allow_mailto
              then url_bad_scheme
              else if p.opaque_part == []
              then url_mailto_no_address
              else url_ok)
          else url_bad_scheme
    ]

-- The messages, one constructor for each text.
pub data Message : Type 0 where
  required too_long not_a_url missing_host bad_scheme no_address too_many not_an_email : Message
  empty_entry long_entry : ℕ → Message
  resolver_unavailable : Message
  unknown_slug lookup_failed repeated_slug : Bytes → Message

unfoldable pub check_http_url : Unicode → UrlParser → Bytes → Option Message
unfolding classify_url
check_http_url u parse raw = elim (classify_url u parse raw false) [
  | url_ok ↦ none
  | url_too_long ↦ some too_long
  | url_parse_failed ↦ some not_a_url
  | url_missing_host ↦ some missing_host
  | _ ↦ some bad_scheme
]

unfoldable pub check_contact_url : Unicode → UrlParser → Bytes → Option Message
unfolding classify_url
check_contact_url u parse raw = elim (classify_url u parse raw true) [
  | url_ok ↦ none
  | url_too_long ↦ some too_long
  | url_parse_failed ↦ some not_a_url
  | url_missing_host ↦ some missing_host
  | url_mailto_no_address ↦ some no_address
  | _ ↦ some bad_scheme
]

-- strings.IndexByte, from the index `i` on
unfoldable pub index_byte : ℕ → ℕ → Bytes → Option ℕ
index_byte b i [] = none
index_byte b i (c ∷ s) = if nat_eqb c b then some i else index_byte b (suc i) s

-- The number of times that a byte occurs.
unfoldable pub count_byte : ℕ → Bytes → ℕ
count_byte b s = length (select (λ c. nat_eqb c b) s)

-- What follows the first '@'.
unfoldable pub domain_part : Bytes → Bytes
domain_part [] = []
domain_part (c ∷ s) = if nat_eqb c b'@' then s else domain_part s

-- IndexByte and LastIndexByte agree exactly where the text has one '@'.
unfoldable pub looks_like_email : Bytes → Bool
unfolding index_byte count_byte domain_part
looks_like_email addr = elim (index_byte b'@' 0 addr) [
  | none ↦ false
  | some at ↦
      if nat_eqb at 0 || not (nat_eqb (count_byte b'@' addr) 1) || domain_part addr == []
      then false
      else any (λ c. nat_eqb c b'.') (domain_part addr)
]

-- The loop over the slugs, from the index `i` on; it stops at the first that fails.
unfoldable pub slug_shape : ℕ → List Bytes → Option Message
slug_shape i [] = none
slug_shape i (s ∷ rest) =
    if s == []
    then some (empty_entry i)
    else if ltb max_region_slug_len (length s)
    then some (long_entry i)
    else slug_shape (suc i) rest

-- A text that must be there and has a cap in runes.
unfoldable pub required_text : Unicode → ℕ → Bytes → Option Message
required_text u cap s =
    if s == [] then some required else if ltb cap (u.rune_count s) then some too_long else none

unfoldable pub capped_text : Unicode → ℕ → Bytes → Option Message
capped_text u cap s = if ltb cap (u.rune_count s) then some too_long else none

unfoldable pub email_error : Bytes → Option Message
unfolding looks_like_email
email_error s =
    if ltb max_submitter_email_len (length s)
    then some too_long
    else if not (s == []) && not (looks_like_email s)
    then some not_an_email
    else none
