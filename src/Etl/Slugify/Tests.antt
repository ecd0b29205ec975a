-- ===== src/Etl/Slugify/Tests.antt =====
-- Names from slugify_test.go.
use urbanist_atlas.Base.{◌≡◌, refl, [], ◌∷◌, ◌++◌, codes, lower_byte}
use urbanist_atlas.Etl.Slugify.{
  one_of, fold_in, fold_diacritic, folded, is_separator, slugify_loop, slugify,
}
use urbanist_atlas.Promotion.Text.{is_slug_char, trim_hyphens_right}

padding : slugify lower_byte (codes "  Padding  Spaces  ") ≡ codes "padding-spaces"
unfolding slugify slugify_loop trim_hyphens_right is_slug_char folded fold_diacritic fold_in one_of
    is_separator lower_byte
padding = refl

folds : slugify lower_byte (codes "San Jos" ++ 233 ∷ []) ≡ codes "san-jose"
unfolding slugify slugify_loop trim_hyphens_right is_slug_char folded fold_diacritic fold_in one_of
    is_separator lower_byte
folds = refl

obrien : slugify lower_byte (codes "O'Brien") ≡ codes "obrien"
unfolding slugify slugify_loop trim_hyphens_right is_slug_char folded fold_diacritic fold_in one_of
    is_separator lower_byte
obrien = refl

nothing : slugify lower_byte (codes "!@#$%") ≡ []
unfolding slugify slugify_loop trim_hyphens_right is_slug_char folded fold_diacritic fold_in one_of
    is_separator lower_byte
nothing = refl
