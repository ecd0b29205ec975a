-- ===== src/Sqlite/Pages/Visit.antt =====
-- The pages that the cursors of ListPage lead through.
use urbanist_atlas.Base.{
  ℕ, zero, suc, ◌+◌, ◌<◌, ◌≡◌, refl, sym, ap, ◌∙◌, subst, inl, inr, false, Bool-cases, List, [],
  ◌∷◌, ◌++◌, append_assoc, Option, none, some, arith, Bytes, bytes_eq, bytes_eqb, bytes_eqb_iff,
  ◌==◌, if◌then◌else◌, length, take, All, All-In, All-intro, In, map, select, In-select,
  length-select-le, Distinct, ℤ, Result, ok, ◌>>=◌,
}
use urbanist_atlas.Base.Sort.{In-sort_by}
use urbanist_atlas.Sqlite.Rows.{Row, Queue, newer}
use urbanist_atlas.Sqlite.Submissions.{Library, StoreFailure, encode_cursor, decode_cursor}
use urbanist_atlas.Sqlite.Submissions.Cursor.{encode_cursor-nonempty, decode_cursor-encode_cursor}
use urbanist_atlas.Sqlite.Pages.{page_limit, fetch_rows, cut_page, fetch_page}
use urbanist_atlas.Sqlite.Pages.Sorted.{Descending, sort_by-Descending, select-behind, In-middle}
use urbanist_atlas.Sqlite.Pages.Cuts.{
  listed, listing, fetch_rows-first, fetch_rows-after, length-middle, page_limit-positive,
  Addressable, cut_page-cases, Distinct-select, length-sort_by,
}

-- The rows of the pages from `cursor` on, as a client collects them; `none` where the fuel ends first.
pub all_pages : Library → Bytes → ℤ → ℕ → Bytes → Queue → Result StoreFailure (Option (List Row))
all_pages lib status limit zero cursor q = ok none
all_pages lib status limit (suc fuel) cursor q =
    fetch_page lib (record { status = status; limit = limit; cursor = cursor }) q
    >>= λ (rows, next).
        let rest = all_pages lib status limit fuel next q in
        if next == [] then ok (some rows) else rest >>= λ more. ok (after rows more)
  where
    after : List Row → Option (List Row) → Option (List Row)
    after rows none = none
    after rows (some more) = some (rows ++ more)

module _ (lib : Library) (status : Bytes) (limit : ℤ) (q : Queue) where
  fetch_page-at :
      (k : ℕ) (cursor : Bytes) (at : Option (Bytes × Bytes)) (behind : List Row)
      → page_limit limit ≡ suc k
      → decode_cursor lib cursor ≡ ok at
      → ((n : ℕ) → fetch_rows status at n q ≡ take n behind)
      → fetch_page lib (record { status = status; limit = limit; cursor = cursor }) q
        ≡ ok (cut_page lib (suc k) (take (suc (suc k)) behind))
  unfolding fetch_page
  fetch_page-at k cursor at behind positive c f =
      let one_more : suc k + 1 ≡ suc (suc k) = omega arith in rw (c, positive, f, one_more) refl

  next_there : (last : Row) → (encode_cursor lib last.created_at last.public_id == []) ≡ false
  next_there last = elim (Bool-cases (encode_cursor lib last.created_at last.public_id == [])) [
    | inl e ↦
        absurd
          (encode_cursor-nonempty lib last.created_at last.public_id ((bytes_eqb_iff _ []).0 e))
    | inr e ↦ e
  ]

  -- The pages behind a cursor are the rows behind it.
  all_pages-behind :
      (before behind : List Row) (fuel : ℕ) (cursor : Bytes) (at : Option (Bytes × Bytes))
      → Descending (listing status q)
      → All Addressable (listing status q)
      → listing status q ≡ before ++ behind
      → decode_cursor lib cursor ≡ ok at
      → ((n : ℕ) → fetch_rows status at n q ≡ take n behind)
      → length behind < fuel
      → all_pages lib status limit fuel cursor q ≡ ok (some behind)
  unfolding all_pages bytes_eqb
  all_pages-behind before behind zero cursor at d a whole c f enough = absurd (omega arith)
  all_pages-behind before behind (suc fuel) cursor at d a whole c f enough =
      let (k, positive) = page_limit-positive limit in
      let page = fetch_page-at k cursor at behind positive c f in
      elim (cut_page-cases lib k behind) [
        | inl e ↦ rw (page, e) refl
        | inr (front, last, rest, e, split) ↦
            let whole' : listing status q ≡ (before ++ front) ++ last ∷ rest =
              whole ∙ rw (split) (sym (append_assoc before front (last ∷ rest))) in
            let (t, bar, p) =
              All-In Addressable last (listing status q) a
                (subst (In last) (sym whole') (In-middle (before ++ front) last rest)) in
            let later =
              all_pages-behind ((before ++ front) ++ last ∷ []) rest fuel
                (encode_cursor lib last.created_at last.public_id)
                (some (last.created_at, last.public_id)) d a
                (whole' ∙ sym (append_assoc (before ++ front) (last ∷ []) rest))
                (decode_cursor-encode_cursor lib last.created_at last.public_id t bar p)
                (λ n.
                  fetch_rows-after status last n q
                  ∙ ap (take n) (
                      ap (select (newer last)) whole'
                      ∙ select-behind (before ++ front) last rest (subst Descending whole' d)))
                (let sizes = ap length split ∙ length-middle front last rest in omega arith) in
            rw (page, e, next_there last, later)
              (ap (λ l. ok (some l)) (append_assoc front (last ∷ []) rest ∙ sym split))
      ]

-- Over a table that does not change, whose public ids are distinct and whose rows have the parts that a
-- cursor needs, the pages that the cursors lead through from the first page on end, and put together
-- they are the rows of the status, each once, from the newest to the oldest, whatever the page size.
pub all_pages-listing :
    (lib : Library) (status : Bytes) (limit : ℤ) (q : Queue)
    → Distinct (map (λ r. r.public_id) q.rows)
    → All Addressable q.rows
    → all_pages lib status limit (suc (length q.rows)) [] q ≡ ok (some (listing status q))
unfolding decode_cursor bytes_eqb
all_pages-listing lib status limit q d a =
    all_pages-behind lib status limit q [] (listing status q) (suc (length q.rows)) [] none
      (sort_by-Descending (select (listed status) q.rows)
        (Distinct-select (listed status) q.rows d))
      (All-intro Addressable (listing status q) (λ r m.
        All-In Addressable r q.rows a
          ((In-select (listed status) r q.rows).0
            ((In-sort_by newer r (select (listed status) q.rows)).0 m)).0))
      refl refl (λ n. fetch_rows-first status n q)
      (let sizes = length-sort_by (select (listed status) q.rows) in
        let few = length-select-le (listed status) q.rows in omega arith)
