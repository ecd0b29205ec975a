-- ===== src/Atlas/Postal/Normal.antt =====
-- Normalizing a postal code twice.
use urbanist_atlas.Base.{
  ℕ, ◌≤◌, ◌≡◌, refl, ap, ◌∙◌, ◌⊎◌, true, List, [], ◌∷◌, arith, map, Bytes, Unicode, IsAscii,
  bytes_eq, bytes_eqb, length, all, All, All-In, In, codes, trim_left, trim_right, is_space,
  upper_byte, ok,
}
use urbanist_atlas.Atlas.Types.{country_us, country_ca}
use urbanist_atlas.Atlas.Postal.{
  is_letter, is_digit, byte_at, without, zip_from_zip4, truncate_code, normalize_postal_code,
  digits_of_length, validate_postal_code,
}

-- A digit or an upper-case letter.
abbrev Plain : ℕ → Type 0
Plain b = ((48 ≤ b) × (b ≤ 57)) ⊎ ((65 ≤ b) × (b ≤ 90))

Plain-IsAscii : (s : Bytes) → All Plain s → IsAscii s
Plain-IsAscii [] h = tt
Plain-IsAscii (b ∷ s) h = (omega arith, Plain-IsAscii s h.1)

Plain-upper : (s : Bytes) → All Plain s → map upper_byte s ≡ s
unfolding upper_byte
Plain-upper [] h = refl
Plain-upper (b ∷ s) h = ground (arith, Plain-upper s h.1)

Plain-without : (s : Bytes) → All Plain s → without 32 s ≡ s
unfolding without
Plain-without [] h = refl
Plain-without (b ∷ s) h = ground (arith, Plain-without s h.1)

Plain-trim_left : (s : Bytes) → All Plain s → trim_left s ≡ s
unfolding trim_left is_space
Plain-trim_left [] h = refl
Plain-trim_left (b ∷ s) h = ground arith

Plain-trim_right : (s : Bytes) → All Plain s → trim_right s ≡ s
unfolding trim_right is_space
Plain-trim_right [] h = refl
Plain-trim_right (b ∷ []) h = ground arith
Plain-trim_right (b ∷ c ∷ s) h = rw (trim_right, Plain-trim_right (c ∷ s) h.1) refl

-- What a plain code goes through before the switch on the country leaves it alone.
normalize-Plain :
    (u : Unicode) (country s : Bytes)
    → All Plain s
    → normalize_postal_code u country s ≡ truncate_code country s
unfolding normalize_postal_code
normalize-Plain u country s h = ap (truncate_code country) unchanged
  where
    trimmed : u.trim_space s ≡ s
    trimmed =
        u.trim_space_ascii s (Plain-IsAscii s h) ∙ rw (Plain-trim_right s h) (Plain-trim_left s h)

    unchanged : u.to_upper (without 32 (u.trim_space s)) ≡ s
    unchanged =
        rw (trimmed, Plain-without s h) (u.to_upper_ascii s (Plain-IsAscii s h) ∙ Plain-upper s h)

digits-Plain : (s : Bytes) → all is_digit s ≡ true → All Plain s
unfolding is_digit
digits-Plain [] h = tt
digits-Plain (b ∷ s) h = ground (arith, digits-Plain s)

digits_of_length-Plain :
    (n : ℕ) (s : Bytes) → digits_of_length n s ≡ ok tt → (length s ≡ n) × All Plain s
unfolding digits_of_length
digits_of_length-Plain n s h = ground (arith, digits-Plain s)

unchanged_us : (s : Bytes) → length s ≡ 5 → truncate_code country_us s ≡ s
unfolding truncate_code zip_from_zip4 bytes_eqb
unchanged_us s h = rw (h) refl

forward_sortation :
    (s : Bytes) → validate_postal_code country_ca s ≡ ok tt → (length s ≡ 3) × All Plain s
unfolding validate_postal_code is_letter is_digit byte_at bytes_eqb
forward_sortation [] h = cc
forward_sortation (a ∷ []) h = cc
forward_sortation (a ∷ b ∷ []) h = cc
forward_sortation (a ∷ b ∷ c ∷ []) h = (refl, ground arith)
forward_sortation (a ∷ b ∷ c ∷ d ∷ s) h = ground arith

-- For a country with codes of `n` digits it is enough that its case of the switch keeps such a code.
keep_digits :
    (u : Unicode) (country : Bytes) (n : ℕ) (s : Bytes)
    → (length s ≡ n → All Plain s → truncate_code country s ≡ s)
    → digits_of_length n s ≡ ok tt
    → normalize_postal_code u country s ≡ s
keep_digits u country n s keeps h =
    let (size, plain) = digits_of_length-Plain n s h in
    normalize-Plain u country s plain ∙ keeps size plain

keep_canada :
    (u : Unicode) (s : Bytes)
    → validate_postal_code country_ca s ≡ ok tt
    → normalize_postal_code u country_ca s ≡ s
unfolding truncate_code bytes_eqb
keep_canada u s h =
    let (size, plain) = forward_sortation s h in
    normalize-Plain u country_ca s plain ∙ rw (size) refl

minus_free : (s : Bytes) → All Plain s → without b'-' s ≡ s
unfolding without
minus_free [] h = refl
minus_free (b ∷ s) h = ground (arith, minus_free s h.1)

-- The countries of the switch but the UK, whose codes may hold any characters.
abbrev pub plain_countries : List Bytes
plain_countries = map codes ("US" ∷ "CA" ∷ "DE" ∷ "FR" ∷ "MX" ∷ "AU" ∷ "PT" ∷ [])

-- A code that passes for one of the countries whose codes are digits, or for Canada, stays as it is.
pub normalize-validated :
    (u : Unicode) (country s : Bytes)
    → In country plain_countries
    → validate_postal_code country s ≡ ok tt
    → normalize_postal_code u country s ≡ s
unfolding validate_postal_code truncate_code bytes_eqb
normalize-validated u country s m h =
    All-In Keeps country plain_countries
      (
        keep_digits u _ 5 s (λ n p. unchanged_us s n),
        (
          keep_canada u s,
          (
            keep_digits u _ 5 s (λ n p. refl),
            (
              keep_digits u _ 5 s (λ n p. refl),
              (
                keep_digits u _ 5 s (λ n p. refl),
                (
                  keep_digits u _ 4 s (λ n p. refl),
                  (keep_digits u _ 7 s (λ n p. minus_free s p), tt),
                ),
              ),
            ),
          ),
        ),
      )
      m h
  where
    Keeps : Bytes → Type 0
    Keeps c = validate_postal_code c s ≡ ok tt → normalize_postal_code u c s ≡ s
