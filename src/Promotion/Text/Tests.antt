-- ===== src/Promotion/Text/Tests.antt =====
-- Texts of a pull request.
use urbanist_atlas.Base.{
  ℕ, ◌≡◌, ◌≢◌, refl, ◌⊎◌, true, false, List, [], ◌∷◌, ◌++◌, In, Bytes, bytes_eqb, codes, lower_byte,
  is_space, ascii_only, inl, inr, ap, ◌∙◌, subst, Bool-cases,
}
use urbanist_atlas.Promotion.Text.{
  Fields, derive_slug, short_id, submission_branch_name, ensure_trailing_newline, code_span,
}
use urbanist_atlas.Promotion.Text.Slug.{Hyphenated, derive_slug-Hyphenated}
use urbanist_atlas.Promotion.Text.Span.{code_span-In}

abbrev name : Bytes
name = codes "  Riders & Co. (NYC) "

slug : derive_slug ascii_only name ≡ codes "riders-co-nyc"
unfolding derive_slug lower_byte
slug = refl

branch :
    submission_branch_name (codes "0190a1b2-c3d4-7e5f-8a9b-0c1d2e3f4a5b")
    ≡ codes "submission/0190a1b2c3d47e5f"
unfolding submission_branch_name bytes_eqb
branch = refl

tail : short_id (codes "0190a1b2-c3d4-7e5f-8a9b-0c1d2e3f4a5b") ≡ codes "2e3f4a5b"
unfolding short_id
tail = refl

newline : ensure_trailing_newline (codes "a") ≡ codes "a" ++ 10 ∷ []
unfolding ensure_trailing_newline bytes_eqb
newline = refl

derive_slug-Hyphenated_example :
    (derive_slug ascii_only name ≡ [])
    ⊎ (Hyphenated true (derive_slug ascii_only name)
        × (derive_slug ascii_only name ≡ ascii_only.to_lower (derive_slug ascii_only name)))
derive_slug-Hyphenated_example = derive_slug-Hyphenated ascii_only name

-- Every byte that is no space, as a field of its own.
pub single_bytes : Bytes → List Bytes
single_bytes [] = []
single_bytes (b ∷ s) = elim (is_space b) [
  | true ↦ single_bytes s
  | false ↦ (b ∷ []) ∷ single_bytes s
]

pub single_bytes_from :
    (s f : Bytes) (b : ℕ) → In f (single_bytes s) → In b f → In b s × (is_space b ≡ false)
unfolding single_bytes
single_bytes_from [] f b m k = absurd m
single_bytes_from (c ∷ s) f b m k = elim (Bool-cases (is_space c)) [
  | inl e ↦
      let (there, kept) = single_bytes_from s f b (rw (single_bytes, e) at m) k in (inr there, kept)
  | inr e ↦ elim (subst (In f) (opened e) m) [
    | inl same ↦ elim (subst (In b) same k) [
      | inl z ↦ (inl z, ap is_space z ∙ e)
      | inr z ↦ absurd z
    ]
    | inr later ↦ let (there, kept) = single_bytes_from s f b later k in (inr there, kept)
  ]
]
  where
    opened : is_space c ≡ false → single_bytes (c ∷ s) ≡ (c ∷ []) ∷ single_bytes s
    opened e = rw (single_bytes, e) refl

abbrev pub by_bytes : Fields
by_bytes = record {
  fields = single_bytes;
  fields_bytes = λ s f b m k. (single_bytes_from s f b m k).0;
  fields_spaces = λ s f b m k. (single_bytes_from s f b m k).1;
}

code_span-In_example :
    (inner : Bytes) × (code_span by_bytes name ≡ b'`' ∷ inner ++ b'`' ∷ [])
    × ((b : ℕ) → In b inner → (b ≢ b'`') × ((b ≡ 32) ⊎ (In b name × (is_space b ≡ false))))
code_span-In_example = code_span-In by_bytes name
