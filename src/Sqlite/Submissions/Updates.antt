-- ===== src/Sqlite/Submissions/Updates.antt =====
-- The row of an id, and what an update makes of it.
use urbanist_atlas.Base.{
  ◌≡◌, refl, sym, ap, ◌∙◌, subst, inl, inr, Bool, true, Bool-cases, List, [], ◌∷◌, Option, none,
  some, some_inj, arith, Bytes, bytes_eq, bytes_eqb_iff, ◌==◌, if◌then◌else◌, In, map, select,
  Distinct,
}
use urbanist_atlas.Sqlite.Rows.{Row, pending, first_row, update_rows, is_pending}

-- The row of an id.
abbrev pub row_of : Bytes → List Row → Option Row
row_of public_id rows = first_row (select (λ r. r.public_id == public_id) rows)

pub row_of-id :
    (public_id : Bytes) (rows : List Row) (r : Row)
    → row_of public_id rows ≡ some r
    → (r.public_id == public_id) ≡ true
row_of-id public_id [] r h = cc
row_of-id public_id (x ∷ rows) r h = elim (Bool-cases (x.public_id == public_id)) [
  | inl e ↦ subst (λ y. (y.public_id == public_id) ≡ true) (some_inj (rw (e) at h)) e
  | inr e ↦ row_of-id public_id rows r (rw (e) at h)
]

-- What an update makes of a row.
abbrev pub updated : (Row → Bool) → (Row → Row) → Row → Row
updated matches change r = if matches r then change r else r

abbrev pub map_option : (Row → Row) → Option Row → Option Row
map_option f none = none
map_option f (some r) = some (f r)

module _ (matches : Row → Bool) (change : Row → Row)
    (kept : (r : Row) → (change r).public_id ≡ r.public_id) where
  -- An update changes the row of an id in place.
  pub row_of-update_rows :
      (public_id : Bytes) (rows : List Row)
      → row_of public_id (update_rows matches change rows)
        ≡ map_option (updated matches change) (row_of public_id rows)
  unfolding update_rows
  row_of-update_rows public_id [] = refl
  row_of-update_rows public_id (r ∷ rows) = elim (Bool-cases (matches r)) [
    | inl m ↦ elim (Bool-cases (r.public_id == public_id)) [
      | inl e ↦
          let same = ap (λ x. x == public_id) (kept r) ∙ e in
          rw (m, same, e) (ap some (sym (rw (m) refl)))
      | inr e ↦
          let other = ap (λ x. x == public_id) (kept r) ∙ e in
          rw (m, other, e) (row_of-update_rows public_id rows)
    ]
    | inr m ↦ elim (Bool-cases (r.public_id == public_id)) [
      | inl e ↦ rw (m, e, m) refl
      | inr e ↦ rw (m, e) (row_of-update_rows public_id rows)
    ]
  ]

  pub update_rows-none :
      (rows : List Row) → select matches rows ≡ [] → update_rows matches change rows ≡ rows
  unfolding update_rows
  update_rows-none [] h = refl
  update_rows-none (r ∷ rows) h = elim (Bool-cases (matches r)) [
    | inl e ↦ cc (rw (e) at h)
    | inr e ↦ rw (e) (ap (λ t. r ∷ t) (update_rows-none rows (rw (e) at h)))
  ]

  pub update_rows-ids :
      (rows : List Row)
      → map (λ r. r.public_id) (update_rows matches change rows) ≡ map (λ r. r.public_id) rows
  unfolding update_rows
  update_rows-ids [] = refl
  update_rows-ids (r ∷ rows) = elim (Bool-cases (matches r)) [
    | inl e ↦ rw (e, kept r) (ap (λ t. r.public_id ∷ t) (update_rows-ids rows))
    | inr e ↦ rw (e) (ap (λ t. r.public_id ∷ t) (update_rows-ids rows))
  ]

-- A decision finds the pending row of the id, and no other.
pending-absent :
    (public_id : Bytes) (rows : List Row)
    → (¬ In public_id (map (λ r. r.public_id) rows))
    → select (is_pending public_id) rows ≡ []
pending-absent public_id [] h = refl
pending-absent public_id (r ∷ rows) h =
    ground
      (arith, pending-absent public_id rows (λ m. h (inr m)), bytes_eqb_iff r.public_id public_id)

pub pending-row_of :
    (public_id : Bytes) (rows : List Row)
    → Distinct (map (λ r. r.public_id) rows)
    → first_row (select (is_pending public_id) rows) ≡ elim (row_of public_id rows) [
      | none ↦ none
      | some r ↦ if r.status == pending then some r else none
    ]
pending-row_of public_id [] d = refl
pending-row_of public_id (r ∷ rows) d = elim (Bool-cases (r.public_id == public_id)) [
  | inl e ↦
      let gone = pending-absent public_id rows (
        subst (λ x. ¬ In x (map (λ q. q.public_id) rows))
          ((bytes_eqb_iff r.public_id public_id).0 e) d.0) in
      elim (Bool-cases (r.status == pending)) [
        | inl p ↦ rw (e, p) refl
        | inr n ↦ rw (e, n, gone) refl
      ]
  | inr e ↦ rw (e) (pending-row_of public_id rows d.1)
]
