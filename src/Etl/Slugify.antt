-- ===== src/Etl/Slugify.antt =====
-- Slugify of api/internal/etl/slugify.go, on the code points of a text. `to_lower` is unicode.ToLower.
pub mod Slug
pub mod Tests
use urbanist_atlas.Base.{
  ℕ, Bool, true, false, not, ◌&&◌, ◌||◌, List, [], ◌∷◌, Bytes, nat_eqb, leb, if◌then◌else◌,
}
use urbanist_atlas.Promotion.Text.{hyphen, is_slug_char, trim_hyphens_right}

unfoldable pub one_of : ℕ → List ℕ → Bool
one_of r [] = false
one_of r (c ∷ cs) = nat_eqb r c || one_of r cs

-- The letters, each with the code points that are folded to it.
abbrev pub diacritics : List (ℕ × List ℕ)
diacritics =
    (b'a', 224 ∷ 225 ∷ 226 ∷ 227 ∷ 228 ∷ 229 ∷ 257 ∷ 259 ∷ 261 ∷ [])
    ∷ (b'e', 232 ∷ 233 ∷ 234 ∷ 235 ∷ 275 ∷ 277 ∷ 279 ∷ 281 ∷ 283 ∷ [])
    ∷ (b'i', 236 ∷ 237 ∷ 238 ∷ 239 ∷ 297 ∷ 299 ∷ 301 ∷ 303 ∷ [])
    ∷ (b'n', 241 ∷ 324 ∷ 326 ∷ 328 ∷ [])
    ∷ (b'o', 242 ∷ 243 ∷ 244 ∷ 245 ∷ 246 ∷ 248 ∷ 333 ∷ 335 ∷ 337 ∷ [])
    ∷ (b'u', 249 ∷ 250 ∷ 251 ∷ 252 ∷ 361 ∷ 363 ∷ 365 ∷ 367 ∷ 369 ∷ 371 ∷ [])
    ∷ (b'y', 255 ∷ 253 ∷ [])
    ∷ (b'c', 231 ∷ 263 ∷ 265 ∷ 267 ∷ 269 ∷ [])
    ∷ (b'l', 322 ∷ 316 ∷ 318 ∷ [])
    ∷ (b's', 347 ∷ 349 ∷ 351 ∷ 353 ∷ [])
    ∷ (b'z', 378 ∷ 380 ∷ 382 ∷ [])
    ∷ []

unfoldable pub fold_in : ℕ → List (ℕ × List ℕ) → ℕ
fold_in r [] = r
fold_in r ((base, cs) ∷ rest) = if one_of r cs then base else fold_in r rest

unfoldable pub fold_diacritic : ℕ → ℕ
fold_diacritic r = fold_in r diacritics

unfoldable pub folded : (ℕ → ℕ) → ℕ → ℕ
folded to_lower r =
    if leb 192 (to_lower r) && leb (to_lower r) 383 then fold_diacritic (to_lower r) else to_lower r

unfoldable pub is_separator : ℕ → Bool
is_separator r = nat_eqb r b' ' || nat_eqb r b'-' || nat_eqb r b'_' || nat_eqb r b'/'

-- `empty` is b.Len() == 0.
unfoldable pub slugify_loop : (ℕ → ℕ) → (prev_dash empty : Bool) → List ℕ → Bytes
slugify_loop to_lower prev_dash empty [] = []
slugify_loop to_lower prev_dash empty (r ∷ s) =
    let letter = folded to_lower r in
    let kept = slugify_loop to_lower false false s in
    let dashed = slugify_loop to_lower true false s in
    let skipped = slugify_loop to_lower prev_dash empty s in
    if is_slug_char letter
    then letter ∷ kept
    else if is_separator letter && (not prev_dash && not empty)
    then hyphen ∷ dashed
    else skipped

unfoldable pub slugify : (ℕ → ℕ) → List ℕ → Bytes
slugify to_lower s = trim_hyphens_right (slugify_loop to_lower false true s)
