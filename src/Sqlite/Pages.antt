-- ===== src/Sqlite/Pages.antt =====
-- ListPage and List of api/internal/store/sqlite/store.go: keyset pagination over the submissions.
pub mod Sorted
pub mod Cuts
pub mod Visit
pub mod Tests
use urbanist_atlas.Base.{
  ℕ, suc, ◌+◌, ◌-◌, Bool, true, List, [], ◌∷◌, Option, none, some, Bytes, bytes_eq, ◌==◌,
  if◌then◌else◌, length, take, drop, ltb, ℤ, pos, int_ltb, int_leb, pos_part, Result, ok, err,
  ◌>>=◌,
}
use urbanist_atlas.Sqlite.Rows.{
  Row, Queue, list_submissions_all, list_submissions_all_after, list_submissions_by_status,
  list_submissions_by_status_after,
}
use urbanist_atlas.Sqlite.Submissions.{
  Library, Submission, StoreFailure, row_to_submission, encode_cursor, decode_cursor,
}

pub record ListSubmissionsQuery : Type 0 where
  pub status : Bytes
  pub limit : ℤ
  pub cursor : Bytes

pub record ListSubmissionsPage : Type 0 where
  pub items : List Submission
  pub next_cursor : Bytes

unfoldable pub page_limit : ℤ → ℕ
page_limit limit =
    if int_leb limit (pos 0) then 50 else if int_ltb (pos 200) limit then 200 else pos_part limit

-- The switch on the status and the cursor.
unfoldable pub fetch_rows : Bytes → Option (Bytes × Bytes) → ℕ → Queue → List Row
unfolding list_submissions_all list_submissions_all_after list_submissions_by_status
    list_submissions_by_status_after
fetch_rows status cursor fetch q = elim cursor [
  | none ↦
      if status == []
      then list_submissions_all fetch q
      else list_submissions_by_status status fetch q
  | some (created_at, public_id) ↦
      if status == []
      then list_submissions_all_after created_at public_id fetch q
      else list_submissions_by_status_after status created_at public_id fetch q
]

-- The cut to `limit` rows, and the next cursor, which is empty where no row is cut off.
unfoldable pub cut_page : Library → ℕ → List Row → List Row × Bytes
unfolding encode_cursor
cut_page lib limit rows =
    if ltb limit (length rows)
    then (
      take limit rows,
      elim (drop (limit - 1) rows) [
        | [] ↦ []
        | last ∷ rest ↦ encode_cursor lib last.created_at last.public_id
      ],
    )
    else (rows, [])

-- ListPage up to the loop over the rows.
unfoldable pub fetch_page :
    Library → ListSubmissionsQuery → Queue → Result StoreFailure (List Row × Bytes)
unfolding page_limit decode_cursor fetch_rows cut_page
fetch_page lib query q =
    let limit = page_limit query.limit in
    decode_cursor lib query.cursor >>= λ cursor.
    ok (cut_page lib limit (fetch_rows query.status cursor (limit + 1) q))

unfoldable pub read_items : Library → List Row → Result StoreFailure (List Submission)
unfolding row_to_submission
read_items lib [] = ok []
read_items lib (r ∷ rows) =
    row_to_submission lib r >>= λ item. read_items lib rows >>= λ items. ok (item ∷ items)

unfoldable pub list_page :
    Library → ListSubmissionsQuery → Queue → Result StoreFailure ListSubmissionsPage
unfolding fetch_page read_items
list_page lib query q = fetch_page lib query q >>= λ (rows, next).
    read_items lib rows >>= λ items. ok (record { items = items; next_cursor = next })

-- List
unfoldable pub list : Library → ListSubmissionsQuery → Queue → Result StoreFailure (List Submission)
unfolding list_page
list lib query q = list_page lib query q >>= λ page. ok page.items
