-- ===== src/Etl/Slugify/Slug.antt =====
-- The slugs that Slugify gives.
use urbanist_atlas.Base.{
  ℕ, ◌≡◌, refl, ◌⊎◌, inl, inr, Bool, true, false, not, ◌&&◌, ◌||◌, Bool-cases, List, [], ◌∷◌,
}
use urbanist_atlas.Promotion.Text.{is_slug_char}
use urbanist_atlas.Promotion.Text.Slug.{Hyphenated, Loose, trim_hyphens_right-Hyphenated}
use urbanist_atlas.Etl.Slugify.{folded, is_separator, slugify_loop, slugify}

open_dash :
    (sep prev_dash empty : Bool)
    → (sep && (not prev_dash && not empty)) ≡ true
    → (prev_dash || empty) ≡ false
open_dash true false false h = refl
open_dash true false true h = cc
open_dash true true empty h = cc
open_dash false prev_dash empty h = cc

slugify_loop-Loose :
    (to_lower : ℕ → ℕ) (prev_dash empty : Bool) (s : List ℕ)
    → Loose (prev_dash || empty) (slugify_loop to_lower prev_dash empty s)
unfolding slugify_loop
slugify_loop-Loose to_lower prev_dash empty [] = tt
slugify_loop-Loose to_lower prev_dash empty (r ∷ s) =
    elim (Bool-cases (is_slug_char (folded to_lower r))) [
      | inl e ↦ rw (e) (inl (e, slugify_loop-Loose to_lower false false s))
      | inr e ↦
          elim (Bool-cases (is_separator (folded to_lower r) && (not prev_dash && not empty))) [
            | inl sep ↦
                rw (e, sep)
                  (inr (refl, open_dash _ _ _ sep, slugify_loop-Loose to_lower true false s))
            | inr no_sep ↦ rw (e, no_sep) (slugify_loop-Loose to_lower prev_dash empty s)
          ]
    ]

-- Slugify gives the empty text, or lower-case ASCII letters and digits with single hyphens between them
-- and none at the ends, whatever unicode.ToLower does.
pub slugify-Hyphenated :
    (to_lower : ℕ → ℕ) (s : List ℕ)
    → (slugify to_lower s ≡ []) ⊎ Hyphenated true (slugify to_lower s)
unfolding slugify
slugify-Hyphenated to_lower s =
    trim_hyphens_right-Hyphenated true _ (slugify_loop-Loose to_lower false true s)
