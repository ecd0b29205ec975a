-- ===== src/Atlas/Postal.antt =====
-- api/pkg/atlas/postal.go: postal codes are normalized, validated and classified by country. A Go
-- string is indexed and sliced by bytes, as here. `u` stands for Go's Unicode tables.
pub mod Military
pub mod Normal
use urbanist_atlas.Base.{
  ℕ, ◌-◌, Bool, false, not, ◌&&◌, ◌||◌, [], ◌∷◌, ◌++◌, Option, none, some, Bytes, codes, Unicode,
  ◌==◌, bytes_eq, nat_eqb, leb, ltb, length, take, drop, select, all, bytes_ltb, if◌then◌else◌,
  Result, ok, err,
}
use urbanist_atlas.Atlas.Types.{country_us, country_ca}

unfoldable pub is_letter : ℕ → Bool
is_letter b = leb b'A' b && leb b b'Z'

unfoldable pub is_digit : ℕ → Bool
is_digit b = leb b'0' b && leb b b'9'

-- s[i], for an index that the code has tested against the length
unfoldable pub byte_at : Bytes → ℕ → ℕ
byte_at s i = elim (drop i s) [ [] ↦ 0 | b ∷ rest ↦ b ]

-- strings.ReplaceAll(s, old, "") for a single byte `old`
unfoldable pub without : ℕ → Bytes → Bytes
without old = select (λ b. not (nat_eqb b old))

unfoldable pub zip_from_zip4 : Bytes → Option Bytes
unfolding is_digit byte_at
zip_from_zip4 s =
    if nat_eqb (length s) 10 && nat_eqb (byte_at s 5) b'-'
    then (if all is_digit (take 5 s ++ drop 6 s) then some (take 5 s) else none)
    else if nat_eqb (length s) 9
    then (if all is_digit s then some (take 5 s) else none)
    else none

-- The switch of NormalizePostalCode on the country, on the upper-case text without spaces.
unfoldable pub truncate_code : Bytes → Bytes → Bytes
unfolding zip_from_zip4 without
truncate_code country s =
    if country == country_us
    then elim (zip_from_zip4 s) [ some zip ↦ zip | none ↦ s ]
    else if country == country_ca
    then (if ltb 3 (length s) then take 3 s else s)
    else if country == codes "UK"
    then (if ltb 4 (length s) then take (length s - 3) s else s)
    else if country == codes "PT"
    then without b'-' s
    else s

unfoldable pub normalize_postal_code : Unicode → Bytes → Bytes → Bytes
unfolding truncate_code without
normalize_postal_code u country raw =
    truncate_code country (u.to_upper (without 32 (u.trim_space raw)))

pub data PostalError : Type 0 where
  wrong_length : PostalError
  wrong_character : PostalError

-- Some byte is outside '0'..'9'. (The source walks the runes; a rune that is no ASCII digit has only
-- bytes that are none.)
unfoldable pub digits_of_length : ℕ → Bytes → Result PostalError (Unit {0})
unfolding is_digit
digits_of_length n code =
    if nat_eqb (length code) n
    then (if all is_digit code then ok tt else err wrong_character)
    else err wrong_length

unfoldable pub validate_postal_code : Bytes → Bytes → Result PostalError (Unit {0})
unfolding digits_of_length is_letter is_digit byte_at
validate_postal_code country code =
    if country == country_us
    then digits_of_length 5 code
    else if country == country_ca
    then (if not (nat_eqb (length code) 3)
        then err wrong_length
        else if not (is_letter (byte_at code 0))
            || not (is_digit (byte_at code 1))
            || not (is_letter (byte_at code 2))
        then err wrong_character
        else ok tt)
    else if country == codes "DE" || country == codes "FR" || country == codes "MX"
    then digits_of_length 5 code
    else if country == codes "UK"
    then (if ltb (length code) 2 || ltb 4 (length code) then err wrong_length else ok tt)
    else if country == codes "AU"
    then digits_of_length 4 code
    else if country == codes "PT"
    then digits_of_length 7 code
    else ok tt

-- `lo <= s && s <= hi` on strings
unfoldable pub between : Bytes → Bytes → Bytes → Bool
unfolding bytes_ltb
between lo hi s = not (bytes_ltb s lo) && not (bytes_ltb hi s)

unfoldable pub is_military_postal_code : Bytes → Bytes → Bool
unfolding is_digit between
is_military_postal_code country code =
    if not (country == country_us) || not (nat_eqb (length code) 5)
    then false
    else if not (all is_digit code)
    then false
    else between (codes "090") (codes "098") (take 3 code)
      || take 3 code == codes "340"
      || between (codes "962") (codes "966") (take 3 code)

unfoldable pub postal_key : Unicode → Bytes → Bytes → Bytes
unfolding normalize_postal_code
postal_key u country code = country ++ b':' ∷ normalize_postal_code u country code
