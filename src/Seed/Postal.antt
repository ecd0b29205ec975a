-- ===== src/Seed/Postal.antt =====
-- api/internal/seedfiles/postal.go: the header and the rows of a postal codes file. A record is what
-- encoding/csv returns, three fields by its setting FieldsPerRecord. `equal_fold` is strings.EqualFold.
pub mod Rows
pub mod Tests
use urbanist_atlas.Base.{
  ℕ, suc, Bool, true, false, not, ◌&&◌, List, [], ◌∷◌, Bytes, bytes_eq, ◌==◌, codes, Unicode,
  if◌then◌else◌, Result, ok, err, ◌>>=◌,
}
use urbanist_atlas.Atlas.Postal.{PostalError, normalize_postal_code, validate_postal_code}

pub record PostalRow : Type 0 where
  pub postal_code : Bytes
  pub country : Bytes
  pub leaf_region_slug : Bytes

-- The three fields of a record.
pub record CsvRecord : Type 0 where
  pub field0 : Bytes
  pub field1 : Bytes
  pub field2 : Bytes

pub data PostalRowError : Type 0 where
  bad_header : PostalRowError
  wrong_country : Bytes → PostalRowError
  empty_postal_code empty_leaf_region_slug : PostalRowError
  bad_postal_code : PostalError → PostalRowError
  at_line : ℕ → PostalRowError → PostalRowError

-- The guards of parsePostalRecord, on the trimmed and normalized fields and the verdict on the code.
unfoldable pub postal_row :
    Bytes → Bytes → Bytes → Result PostalError (Unit {0}) → Bytes → Result PostalRowError PostalRow
postal_row row_country postal slug verdict expected =
    if not (row_country == expected)
    then err (wrong_country row_country)
    else if postal == []
    then err empty_postal_code
    else elim verdict [
      | err e ↦ err (bad_postal_code e)
      | ok _ ↦
          if slug == []
          then err empty_leaf_region_slug
          else ok (record { postal_code = postal; country = row_country; leaf_region_slug = slug })
    ]

unfoldable pub parse_postal_record : Unicode → CsvRecord → Bytes → Result PostalRowError PostalRow
unfolding normalize_postal_code validate_postal_code postal_row
parse_postal_record u rec expected =
    let row_country = u.trim_space rec.field1 in
    let postal = normalize_postal_code u row_country (u.trim_space rec.field0) in
    postal_row row_country postal (u.trim_space rec.field2)
      (validate_postal_code row_country postal) expected

-- The body of the loop, on the outcome for the line and that of the lines behind it.
unfoldable pub one_row :
    ℕ
    → Result PostalRowError PostalRow
    → Result PostalRowError (List PostalRow)
    → Result PostalRowError (List PostalRow)
one_row line first rest = elim first [
  | err e ↦ err (at_line line e)
  | ok row ↦ rest >>= λ rows. ok (row ∷ rows)
]

-- The loop over the records, from line `line` on.
unfoldable pub parse_rows :
    Unicode → Bytes → ℕ → List CsvRecord → Result PostalRowError (List PostalRow)
unfolding parse_postal_record one_row
parse_rows u country line [] = ok []
parse_rows u country line (rec ∷ recs) =
    one_row line (parse_postal_record u rec country) (parse_rows u country (suc line) recs)

unfoldable pub header_ok : Unicode → (Bytes → Bytes → Bool) → CsvRecord → Bool
header_ok u equal_fold header =
    equal_fold (u.trim_space header.field0) (codes "postal_code")
    && equal_fold (u.trim_space header.field1) (codes "country")
    && equal_fold (u.trim_space header.field2) (codes "leaf_region_slug")

unfoldable pub parse_postal :
    Unicode
    → (Bytes → Bytes → Bool)
    → Bytes
    → CsvRecord
    → List CsvRecord
    → Result PostalRowError (List PostalRow)
unfolding header_ok parse_rows
parse_postal u equal_fold country header recs =
    if header_ok u equal_fold header then parse_rows u country 2 recs else err bad_header
