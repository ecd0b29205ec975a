-- ===== src/Atlas/Postal/Military.antt =====
-- Military codes and the codes of the United States.
use urbanist_atlas.Base.{◌≡◌, true, Bytes, bytes_eq, bytes_eqb_iff, arith, ok}
use urbanist_atlas.Atlas.Types.{country_us}
use urbanist_atlas.Atlas.Postal.{digits_of_length, validate_postal_code, is_military_postal_code}

-- A code that is taken for a military one is a valid code of the United States.
pub is_military-valid :
    (country code : Bytes)
    → is_military_postal_code country code ≡ true
    → (country ≡ country_us) × (validate_postal_code country code ≡ ok tt)
unfolding is_military_postal_code validate_postal_code digits_of_length
is_military-valid country code h = ground (arith, bytes_eqb_iff country country_us)
