-- ===== src/Seed/Postal/Rows.antt =====
-- What the rows of a postal codes file are.
use urbanist_atlas.Base.{
  ℕ, suc, ◌≡◌, ◌≢◌, refl, ◌↔◌, Bool, true, List, [], ◌∷◌, arith, Bytes, bytes_eq, bytes_eqb_iff,
  Unicode, All, In, Bool-cases, inl, inr, Result, ok,
}
use urbanist_atlas.Atlas.Postal.{PostalError, normalize_postal_code, validate_postal_code}
use urbanist_atlas.Atlas.Postal.Normal.{plain_countries, normalize-validated}
use urbanist_atlas.Seed.Postal.{
  PostalRow, CsvRecord, PostalRowError, one_row, postal_row, parse_postal_record, parse_rows,
  header_ok, parse_postal,
}

-- The record holds the expected country, a code that is valid once normalized and a slug, and the row is
-- these three.
pub record Read (u : Unicode) (country : Bytes) (rec : CsvRecord) (row : PostalRow) : Type 0 where
  pub from_country : u.trim_space rec.field1 ≡ country
  pub code_there : row.postal_code ≢ []
  pub code_valid : validate_postal_code country row.postal_code ≡ ok tt
  pub slug_there : row.leaf_region_slug ≢ []
  pub row_country : row.country ≡ country
  pub row_code : row.postal_code ≡ normalize_postal_code u country (u.trim_space rec.field0)
  pub row_slug : row.leaf_region_slug ≡ u.trim_space rec.field2

-- Row by row, in order, and none left over on either side.
pub ReadAll : Unicode → Bytes → List CsvRecord → List PostalRow → Type 0
ReadAll u country [] [] = Unit
ReadAll u country [] (row ∷ rows) = ⊥
ReadAll u country (rec ∷ recs) [] = ⊥
ReadAll u country (rec ∷ recs) (row ∷ rows) = Read u country rec row × ReadAll u country recs rows

-- The guards alone, on any fields.
postal_row_iff :
    (row_country postal slug expected : Bytes) (verdict : Result PostalError (Unit {0}))
    (row : PostalRow)
    → (postal_row row_country postal slug verdict expected ≡ ok row) ↔ (
        (row_country ≡ expected)
        × (postal ≢ [])
        × (verdict ≡ ok tt)
        × (slug ≢ [])
        × (record { postal_code = postal; country = row_country; leaf_region_slug = slug } ≡ row))
unfolding postal_row
postal_row_iff row_country postal slug expected verdict row =
    ground
      (arith, bytes_eqb_iff row_country expected, bytes_eqb_iff slug [], bytes_eqb_iff postal [])

parse_postal_record-postal_row :
    (u : Unicode) (expected : Bytes) (rec : CsvRecord)
    → let rc = u.trim_space rec.field1 in
      let postal = normalize_postal_code u rc (u.trim_space rec.field0) in
      parse_postal_record u rec expected
      ≡ postal_row rc postal (u.trim_space rec.field2) (validate_postal_code rc postal) expected
unfolding parse_postal_record
parse_postal_record-postal_row u expected rec = refl

parse_postal_record_iff :
    (u : Unicode) (country : Bytes) (rec : CsvRecord) (row : PostalRow)
    → (parse_postal_record u rec country ≡ ok row) ↔ Read u country rec row
parse_postal_record_iff u country rec row = (forward, backward)
  where
    forward : parse_postal_record u rec country ≡ ok row → Read u country rec row
    forward h =
        let (c, p, v, s, e) =
          (postal_row_iff _ _ _ country _ row).0
            (rw (parse_postal_record-postal_row u country rec) at h) in
        record {
          from_country = c;
          code_there = λ n. p cc;
          code_valid = cc;
          slug_there = λ n. s cc;
          row_country = cc;
          row_code = cc;
          row_slug = cc;
        }

    backward : Read u country rec row → parse_postal_record u rec country ≡ ok row
    backward r = rw (parse_postal_record-postal_row u country rec) (
        (postal_row_iff _ _ _ country _ row).1
          (r.from_country, λ n. r.code_there cc, cc, λ n. r.slug_there cc, cc))

one_row_iff :
    (line : ℕ) (first : Result PostalRowError PostalRow)
    (rest : Result PostalRowError (List PostalRow)) (row : PostalRow) (rows : List PostalRow)
    → (one_row line first rest ≡ ok (row ∷ rows)) ↔ ((first ≡ ok row) × (rest ≡ ok rows))
unfolding one_row
one_row_iff line first rest row rows = ground arith

one_row_there :
    (line : ℕ) (first : Result PostalRowError PostalRow)
    (rest : Result PostalRowError (List PostalRow))
    → one_row line first rest ≢ ok []
unfolding one_row
one_row_there line first rest = ground arith

parse_rows-one_row :
    (u : Unicode) (country : Bytes) (line : ℕ) (rec : CsvRecord) (recs : List CsvRecord)
    → parse_rows u country line (rec ∷ recs)
      ≡ one_row line (parse_postal_record u rec country) (parse_rows u country (suc line) recs)
unfolding parse_rows
parse_rows-one_row u country line rec recs = refl

parse_rows-nil : (u : Unicode) (country : Bytes) (line : ℕ) → parse_rows u country line [] ≡ ok []
unfolding parse_rows
parse_rows-nil u country line = refl

parse_rows_iff :
    (u : Unicode) (country : Bytes) (line : ℕ) (recs : List CsvRecord) (rows : List PostalRow)
    → (parse_rows u country line recs ≡ ok rows) ↔ ReadAll u country recs rows
unfolding ReadAll
parse_rows_iff u country line [] [] = (λ h. tt, λ h. parse_rows-nil u country line)
parse_rows_iff u country line [] (row ∷ rows) = rw parse_rows-nil (λ h. cc, λ h. absurd h)
parse_rows_iff u country line (rec ∷ recs) [] =
    rw (parse_rows-one_row) (λ h. absurd (one_row_there line _ _ h), λ h. absurd h)
parse_rows_iff u country line (rec ∷ recs) (row ∷ rows) =
    let read = parse_postal_record_iff u country rec row in
    let later = parse_rows_iff u country (suc line) recs rows in
    rw (parse_rows-one_row) (
      λ h. let (first, rest) = (one_row_iff line _ _ row rows).0 h in (read.0 first, later.0 rest),
      λ (first, rest). (one_row_iff line _ _ row rows).1 (read.1 first, later.1 rest),
    )

-- A file with the right header gives exactly the rows that its records spell, or else no rows at all.
pub parse_postal_iff :
    (u : Unicode) (equal_fold : Bytes → Bytes → Bool) (country : Bytes) (header : CsvRecord)
    (recs : List CsvRecord) (rows : List PostalRow)
    → (parse_postal u equal_fold country header recs ≡ ok rows)
      ↔ ((header_ok u equal_fold header ≡ true) × ReadAll u country recs rows)
unfolding parse_postal
parse_postal_iff u equal_fold country header recs rows =
    let later = parse_rows_iff u country 2 recs rows in
    elim (Bool-cases (header_ok u equal_fold header)) [
      | inl e ↦ rw (e) (λ h. (refl, later.0 h), λ h. later.1 h.1)
      | inr e ↦ rw (e) (λ h. cc, λ h. cc)
    ]

normal_rows :
    (u : Unicode) (country : Bytes) (recs : List CsvRecord) (rows : List PostalRow)
    → In country plain_countries
    → ReadAll u country recs rows
    → All (λ row. normalize_postal_code u country row.postal_code ≡ row.postal_code) rows
unfolding ReadAll
normal_rows u country [] [] m h = tt
normal_rows u country [] (row ∷ rows) m h = absurd h
normal_rows u country (rec ∷ recs) [] m h = absurd h
normal_rows u country (rec ∷ recs) (row ∷ rows) m (read, later) = (
  normalize-validated u country row.postal_code m read.code_valid,
  normal_rows u country recs rows m later,
)

-- For every country of the switch but the UK, the codes of a file that loads are in the form that a
-- lookup normalizes to: normalizing them once more changes nothing.
pub parse_postal-normalize_postal_code :
    (u : Unicode) (equal_fold : Bytes → Bytes → Bool) (country : Bytes) (header : CsvRecord)
    (recs : List CsvRecord) (rows : List PostalRow)
    → In country plain_countries
    → parse_postal u equal_fold country header recs ≡ ok rows
    → All (λ row. normalize_postal_code u country row.postal_code ≡ row.postal_code) rows
parse_postal-normalize_postal_code u equal_fold country header recs rows m h =
    normal_rows u country recs rows m
      ((parse_postal_iff u equal_fold country header recs rows).0 h).1
