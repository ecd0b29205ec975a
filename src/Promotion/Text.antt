-- ===== src/Promotion/Text.antt =====
-- The texts of a pull request: DeriveSlug of api/internal/githubpr/toml.go, and the helpers of
-- worker.go. The runes above ASCII that DeriveSlug walks have only bytes of 128 and more, so a walk over
-- the bytes gives the same text. `fields` is strings.Fields, `rfc3339` the time format.
pub mod Slug
pub mod Span
pub mod Tests
use urbanist_atlas.Base.{
  ℕ, ◌-◌, Bool, true, false, not, ◌&&◌, ◌||◌, List, [], ◌∷◌, ◌++◌, In, Bytes, bytes_eq, ◌==◌, codes,
  nat_eqb, leb, ltb, Unicode, is_space, length, take, drop, select, if◌then◌else◌, ◌≡◌,
}
use urbanist_atlas.Sqlite.Submissions.{Submission}

-- What is used of strings.Fields: a field is made of bytes of the text, none of them a space.
pub record Fields : Type 0 where
  pub fields : Bytes → List Bytes
  pub fields_bytes : (s f : Bytes) (b : ℕ) → In f (fields s) → In b f → In b s
  pub fields_spaces : (s f : Bytes) (b : ℕ) → In f (fields s) → In b f → is_space b ≡ false

abbrev pub hyphen : ℕ
hyphen = 45

unfoldable pub is_slug_char : ℕ → Bool
is_slug_char b = (leb b'a' b && leb b b'z') || (leb b'0' b && leb b b'9')

unfoldable pub derive_loop : Bool → Bytes → Bytes
unfolding is_slug_char
derive_loop prev_hyphen [] = []
derive_loop prev_hyphen (b ∷ s) =
    let kept = derive_loop false s in
    let after_hyphen = derive_loop true s in
    if is_slug_char b
    then b ∷ kept
    else if not prev_hyphen
    then hyphen ∷ after_hyphen
    else after_hyphen

-- strings.Trim(s, "-")
unfoldable pub trim_hyphens_left : Bytes → Bytes
trim_hyphens_left [] = []
trim_hyphens_left (b ∷ s) = if nat_eqb b hyphen then trim_hyphens_left s else b ∷ s

unfoldable pub trim_hyphens_right : Bytes → Bytes
trim_hyphens_right [] = []
trim_hyphens_right (b ∷ s) = elim (trim_hyphens_right s) [
  | [] ↦ if nat_eqb b hyphen then [] else b ∷ []
  | c ∷ t ↦ b ∷ c ∷ t
]

unfoldable pub derive_slug : Unicode → Bytes → Bytes
unfolding derive_loop trim_hyphens_left trim_hyphens_right
derive_slug u name = trim_hyphens_left (trim_hyphens_right (derive_loop true (u.to_lower name)))

-- strings.ReplaceAll(s, old, "") for a single byte `old`
unfoldable pub without_byte : ℕ → Bytes → Bytes
without_byte old = select (λ b. not (nat_eqb b old))

unfoldable pub short_id : Bytes → Bytes
unfolding without_byte
short_id public_id =
    let clean = without_byte hyphen public_id in
    if ltb (length clean) 8 then clean else drop (length clean - 8) clean

unfoldable pub branch_suffix : Bytes → Bytes
unfolding without_byte
branch_suffix public_id =
    let clean = without_byte hyphen public_id in
    if ltb (length clean) 16 then clean else take 16 clean

unfoldable pub submission_branch_name : Bytes → Bytes
unfolding branch_suffix
submission_branch_name public_id = codes "submission/" ++ branch_suffix public_id

-- strings.HasSuffix(s, "\n")
unfoldable pub ends_line : Bytes → Bool
ends_line [] = false
ends_line (b ∷ s) = elim s [ [] ↦ nat_eqb b 10 | c ∷ t ↦ ends_line s ]

unfoldable pub ensure_trailing_newline : Bytes → Bytes
unfolding ends_line
ensure_trailing_newline s = if s == [] then [] else if ends_line s then s else s ++ 10 ∷ []

-- strings.Join(fs, sep)
unfoldable pub join : Bytes → List Bytes → Bytes
join sep [] = []
join sep (f ∷ fs) = elim fs [ [] ↦ f | g ∷ gs ↦ f ++ sep ++ join sep fs ]

unfoldable pub code_span : Fields → Bytes → Bytes
unfolding without_byte join
code_span fs s = b'`' ∷ join (codes " ") (fs.fields (without_byte b'`' s)) ++ b'`' ∷ []

-- The regions of the body, from index `i` on.
unfoldable pub region_spans : Fields → Bool → List Bytes → Bytes
unfolding code_span
region_spans fs first [] = []
region_spans fs first (slug ∷ rest) =
    (if first then [] else codes ", ") ++ code_span fs slug ++ region_spans fs false rest

unfoldable pub build_pr_body : Fields → (ℕ → Bytes) → Submission → Bytes
unfolding code_span region_spans
build_pr_body fs rfc3339 sub =
    codes "Promotes public submission "
    ++ code_span fs sub.public_id
    ++ codes " (received "
    ++ rfc3339 sub.created_at
    ++ codes ") to the seed bundle."
    ++ 10 ∷ 10 ∷ []
    ++ codes "Regions: "
    ++ (if nat_eqb (length sub.payload.region_slugs) 0 then codes "none" else [])
    ++ region_spans fs true sub.payload.region_slugs
    ++ 10 ∷ 10 ∷ []
    ++ codes
        "Submitter contact details and notes are private. Editors can read them through the admin API, "
    ++ codes "`GET /api/v1/admin/submissions`, by the submission ID above."
    ++ 10 ∷ 10 ∷ []
    ++ codes "_Auto-opened by the Urbanist Atlas submissions worker. Merge after editorial review._"
    ++ 10 ∷ []
