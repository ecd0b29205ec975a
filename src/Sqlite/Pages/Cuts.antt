-- ===== src/Sqlite/Pages/Cuts.antt =====
-- The rows that one page holds, and those that its cursor leads to.
use urbanist_atlas.Base.{
  ℕ, zero, suc, ◌+◌, ◌-◌, ◌<◌, ◌≤◌, ◌≡◌, ◌≢◌, refl, sym, ap, ◌∙◌, ◌⊎◌, inl, inr, Bool, true, ◌&&◌,
  Bool-cases, List, [], ◌∷◌, ◌++◌, append_assoc, none, some, arith, Bytes, bytes_eq, bytes_eqb,
  ◌==◌, if◌then◌else◌, ltb, length, take, drop, In, In-map, In-map_inv, map, select, In-select,
  Distinct, ℤ, pos, negsuc,
}
use urbanist_atlas.Base.Sort.{insert_by, sort_by}
use urbanist_atlas.Sqlite.Rows.{Row, Queue, newer, after_cursor}
use urbanist_atlas.Sqlite.Submissions.{Library, encode_cursor}
use urbanist_atlas.Sqlite.Pages.{page_limit, fetch_rows, cut_page}
use urbanist_atlas.Sqlite.Pages.Sorted.{newer-StrictWeak, select-sort_by}

-- What a row is listed under.
abbrev pub listed : Bytes → Row → Bool
listed status r = if status == [] then true else r.status == status

-- The whole listing.
abbrev pub listing : Bytes → Queue → List Row
listing status q = sort_by newer (select (listed status) q.rows)

select-all : {A : Type 0} (xs : List A) → select (λ x. true) xs ≡ xs
select-all [] = refl
select-all (x ∷ xs) = ap (λ t. x ∷ t) (select-all xs)

select-both :
    {A : Type 0} (p r : A → Bool) (xs : List A)
    → select (λ x. p x && r x) xs ≡ select r (select p xs)
select-both p r [] = refl
select-both p r (x ∷ xs) = elim (Bool-cases (p x)) [
  | inl e ↦ elim (Bool-cases (r x)) [
    | inl k ↦ rw (e, k) (ap (λ t. x ∷ t) (select-both p r xs))
    | inr k ↦ rw (e, k) (select-both p r xs)
  ]
  | inr e ↦ rw (e) (select-both p r xs)
]

pub fetch_rows-first :
    (status : Bytes) (n : ℕ) (q : Queue) → fetch_rows status none n q ≡ take n (listing status q)
unfolding fetch_rows bytes_eqb
fetch_rows-first [] n q = ap (λ l. take n (sort_by newer l)) (sym (select-all q.rows))
fetch_rows-first (c ∷ s) n q = refl

-- Behind a cursor come the rows of the listing that are older than its row.
pub fetch_rows-after :
    (status : Bytes) (last : Row) (n : ℕ) (q : Queue)
    → fetch_rows status (some (last.created_at, last.public_id)) n q
      ≡ take n (select (newer last) (listing status q))
unfolding fetch_rows after_cursor newer bytes_eqb
fetch_rows-after [] last n q = ap (take n) (
    sym (
      select-sort_by newer newer-StrictWeak (newer last) (select (λ r. true) q.rows)
      ∙ ap (λ l. sort_by newer (select (newer last) l)) (select-all q.rows)))
fetch_rows-after (c ∷ s) last n q = ap (take n) (
    ap (sort_by newer) (select-both (listed (c ∷ s)) (newer last) q.rows)
    ∙ sym (select-sort_by newer newer-StrictWeak (newer last) (select (listed (c ∷ s)) q.rows)))

-- A cut that leaves something behind has a last row.
cut_last :
    (n : ℕ) (rows : List Row)
    → n < length rows
    → (front : List Row) × (last : Row) × (rest : List Row) × (take (suc n) rows
        ≡ front ++ last ∷ [])
      × (drop n rows ≡ last ∷ rest)
      × (rows ≡ front ++ last ∷ rest)
cut_last n [] h = absurd (omega arith)
cut_last zero (r ∷ rows) h = ([], r, rows, refl, refl, refl)
cut_last (suc n) (r ∷ rows) h =
    let (front, last, rest, t, d, whole) = cut_last n rows (omega arith) in
    (r ∷ front, last, rest, ap (λ l. r ∷ l) t, d, ap (λ l. r ∷ l) whole)

take-drop_append : (n : ℕ) (rows : List Row) → rows ≡ take n rows ++ drop n rows
take-drop_append zero rows = refl
take-drop_append (suc n) [] = refl
take-drop_append (suc n) (r ∷ rows) = ap (λ l. r ∷ l) (take-drop_append n rows)

take_short : (n : ℕ) (rows : List Row) → length (take (suc n) rows) ≤ n → take (suc n) rows ≡ rows
take_short n [] h = refl
take_short zero (r ∷ rows) h = absurd (omega arith)
take_short (suc n) (r ∷ rows) h = ap (λ l. r ∷ l) (take_short n rows (omega arith))

pub length-middle :
    (front : List Row) (last : Row) (rest : List Row)
    → length (front ++ last ∷ rest) ≡ suc (length front + length rest)
length-middle [] last rest = omega arith
length-middle (r ∷ front) last rest = let shorter = length-middle front last rest in omega arith

pub page_limit-positive : (limit : ℤ) → (k : ℕ) × (page_limit limit ≡ suc k)
unfolding page_limit
page_limit-positive (negsuc n) = (49, ground arith)
page_limit-positive (pos zero) = (49, ground arith)
page_limit-positive (pos (suc n)) = elim (Bool-cases (ltb 200 (suc n))) [
  | inl e ↦ (199, ground arith)
  | inr e ↦ (n, ground arith)
]

-- What a cursor to the row needs to be read back.
abbrev pub Addressable : Row → Type 0
Addressable r = (r.created_at ≢ []) × (¬ In b'|' r.created_at) × (r.public_id ≢ [])

-- A page of the rows `behind` is either all of them, or a part of them and a cursor to the others.
pub cut_page-cases :
    (lib : Library) (k : ℕ) (behind : List Row)
    → (cut_page lib (suc k) (take (suc (suc k)) behind) ≡ (behind, []))
      ⊎ ((front : List Row) × (last : Row) × (rest : List Row) × (cut_page lib
              (suc k)
              (take (suc (suc k)) behind)
            ≡ (front ++ last ∷ [], encode_cursor lib last.created_at last.public_id))
          × (behind ≡ front ++ last ∷ rest))
unfolding cut_page
cut_page-cases lib k behind = elim (Bool-cases (ltb (suc k) (length (take (suc (suc k)) behind)))) [
  | inl e ↦
      let (front, last, rest, t, d, whole) =
        cut_last k (take (suc (suc k)) behind) (ground arith) in
      let before : suc k - 1 ≡ k = omega arith in
      inr (
        front,
        last,
        rest ++ drop (suc (suc k)) behind,
        rw (cut_page, e, t, before, d) refl,
        take-drop_append (suc (suc k)) behind
            ∙ rw (whole) (append_assoc front (last ∷ rest) (drop (suc (suc k)) behind)),
      )
  | inr e ↦
      let short = take_short (suc k) behind (ground arith) in
      inl (rw (cut_page, e) (ap (λ l. (l, [])) short))
]

pub Distinct-select :
    (p : Row → Bool) (rows : List Row)
    → Distinct (map (λ r. r.public_id) rows)
    → Distinct (map (λ r. r.public_id) (select p rows))
Distinct-select p [] d = tt
Distinct-select p (r ∷ rows) d = elim (Bool-cases (p r)) [
  | inl e ↦ rw (e) (
    λ m.
        let (x, k, same) = In-map_inv (λ q. q.public_id) r.public_id (select p rows) m in
        d.0 (rw same (In-map (λ q. q.public_id) x rows ((In-select p x rows).0 k).0)),
    Distinct-select p rows d.1,
  )
  | inr e ↦ rw (e) (Distinct-select p rows d.1)
]

length-insert_by : (r : Row) (rows : List Row) → length (insert_by newer r rows) ≡ suc (length rows)
unfolding insert_by
length-insert_by r [] = refl
length-insert_by r (x ∷ rows) = ground (arith, length-insert_by r rows)

pub length-sort_by : (rows : List Row) → length (sort_by newer rows) ≡ length rows
unfolding sort_by
length-sort_by [] = refl
length-sort_by (r ∷ rows) = length-insert_by r (sort_by newer rows) ∙ ap suc (length-sort_by rows)
