-- ===== src/Seed/Postal/Tests.antt =====
-- A file with a nine-digit code, and two that do not load.
use urbanist_atlas.Base.{
  ◌≡◌, ◌↔◌, refl, true, List, [], ◌∷◌, bytes_eqb, trim_left, trim_right, upper_byte, codes, ok, err,
  ascii_only,
}
use urbanist_atlas.Atlas.Types.{country_us}
use urbanist_atlas.Seed.Postal.{
  PostalRow, CsvRecord, wrong_country, at_line, bad_header, header_ok, parse_postal,
}
use urbanist_atlas.Seed.Postal.Rows.{ReadAll, parse_postal_iff}

abbrev header : CsvRecord
header = record {
  field0 = codes "postal_code";
  field1 = codes "country";
  field2 = codes "leaf_region_slug";
}

abbrev records : List CsvRecord
records =
    record { field0 = codes " 94110-1234"; field1 = codes "US"; field2 = codes "sf " }
    ∷ record { field0 = codes "10001"; field1 = codes "US"; field2 = codes "nyc" }
    ∷ []

abbrev rows : List PostalRow
rows =
    record { postal_code = codes "94110"; country = codes "US"; leaf_region_slug = codes "sf" }
    ∷ record { postal_code = codes "10001"; country = codes "US"; leaf_region_slug = codes "nyc" }
    ∷ []

rows_parsed : parse_postal ascii_only bytes_eqb country_us header records ≡ ok rows
unfolding parse_postal bytes_eqb trim_left trim_right upper_byte
rows_parsed = refl

other_country :
    parse_postal ascii_only bytes_eqb (codes "CA") header records
    ≡ err (at_line 2 (wrong_country country_us))
unfolding parse_postal bytes_eqb trim_left trim_right upper_byte
other_country = refl

no_header :
    parse_postal ascii_only bytes_eqb country_us (record header { field1 = [] }) records
    ≡ err bad_header
unfolding parse_postal bytes_eqb trim_left trim_right upper_byte
no_header = refl

parse_postal_iff_example :
    (parse_postal ascii_only bytes_eqb country_us header records ≡ ok rows)
    ↔ ((header_ok ascii_only bytes_eqb header ≡ true) × ReadAll ascii_only country_us records rows)
parse_postal_iff_example = parse_postal_iff ascii_only bytes_eqb country_us header records rows
