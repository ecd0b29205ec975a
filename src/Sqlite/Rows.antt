-- ===== src/Sqlite/Rows.antt =====
-- The queries of api/internal/store/sqlite/gen/submissions.sql.go on the table `submissions` of
-- api/migrations-sqlite/0001_init.sql. Text is compared byte by byte, as in SQLite's BINARY collation,
-- and public_id is UNIQUE. A `:one` query without a row (sql.ErrNoRows) answers `none`.
use urbanist_atlas.Base.{
  ℕ, suc, Bool, ◌&&◌, ◌||◌, List, [], ◌∷◌, ◌++◌, Option, none, some, Bytes, bytes_eq, bytes_ltb,
  ◌==◌, codes, if◌then◌else◌, map, member, select, take,
}
use urbanist_atlas.Base.Sort.{sort_by}

pub record Row : Type 0 where
  pub id : ℕ
  pub public_id : Bytes
  pub payload_json : Bytes
  pub submitter_name : Bytes
  pub submitter_email : Bytes
  pub submitter_note : Bytes
  pub status : Bytes
  pub rejection_reason : Bytes
  pub created_at : Bytes
  pub processed_at : Option Bytes
  pub promotion_pr_url : Bytes
  pub promotion_error : Bytes

-- The rows in the order of their insertion, and the next AUTOINCREMENT id.
pub record Queue : Type 0 where
  pub rows : List Row
  pub next_id : ℕ

abbrev pub pending : Bytes
pending = codes "pending"

abbrev pub approved : Bytes
approved = codes "approved"

abbrev pub rejected : Bytes
rejected = codes "rejected"

pub record CreateParams : Type 0 where
  pub public_id : Bytes
  pub payload_json : Bytes
  pub submitter_name : Bytes
  pub submitter_email : Bytes
  pub submitter_note : Bytes
  pub created_at : Bytes

-- INSERT with the defaults of the table; `none` where public_id is taken.
unfoldable pub create_submission_row : CreateParams → Queue → Option (Queue × Row)
create_submission_row p q =
    let row : Row = record {
      id = q.next_id;
      public_id = p.public_id;
      payload_json = p.payload_json;
      submitter_name = p.submitter_name;
      submitter_email = p.submitter_email;
      submitter_note = p.submitter_note;
      status = pending;
      rejection_reason = [];
      created_at = p.created_at;
      processed_at = none;
      promotion_pr_url = [];
      promotion_error = [];
    } in
    if member p.public_id (map (λ r. r.public_id) q.rows)
    then none
    else some (record { rows = q.rows ++ row ∷ []; next_id = suc q.next_id }, row)

-- The first row of a result.
abbrev pub first_row : List Row → Option Row
first_row [] = none
first_row (r ∷ rs) = some r

unfoldable pub get_submission : Bytes → Queue → Option Row
get_submission public_id q = first_row (select (λ r. r.public_id == public_id) q.rows)

-- UPDATE ... WHERE, and the rows that RETURNING gives.
unfoldable pub update_rows : (Row → Bool) → (Row → Row) → List Row → List Row
update_rows matches change = map (λ r. if matches r then change r else r)

unfoldable pub update_one : (Row → Bool) → (Row → Row) → Queue → Queue × Option Row
unfolding update_rows
update_one matches change q = (
  record q { rows = update_rows matches change q.rows },
  first_row (map change (select matches q.rows)),
)

abbrev pub is_pending : Bytes → Row → Bool
is_pending public_id r = r.public_id == public_id && r.status == pending

unfoldable pub approve_submission : Bytes → Bytes → Queue → Queue × Option Row
unfolding update_one
approve_submission processed_at public_id =
    update_one (is_pending public_id)
      (λ r. record r { status = approved; processed_at = some processed_at })

unfoldable pub reject_submission : Bytes → Bytes → Bytes → Queue → Queue × Option Row
unfolding update_one
reject_submission rejection_reason processed_at public_id = update_one (is_pending public_id) (λ r.
    record r {
      status = rejected;
      rejection_reason = rejection_reason;
      processed_at = some processed_at;
    })

unfoldable pub attach_promotion_result_row : Bytes → Bytes → Bytes → Queue → Queue
unfolding update_rows
attach_promotion_result_row pr_url pr_err public_id q = record q {
  rows =
      update_rows (λ r. r.public_id == public_id)
        (λ r. record r { promotion_pr_url = pr_url; promotion_error = pr_err }) q.rows;
}

unfoldable pub submission_status : Bytes → Queue → Option Bytes
unfolding get_submission
submission_status public_id q = elim (get_submission public_id q) [
  | none ↦ none
  | some r ↦ some r.status
]

-- ORDER BY created_at DESC, public_id DESC: whether the first row stands before the second.
unfoldable pub newer : Row → Row → Bool
unfolding bytes_ltb
newer a b =
    bytes_ltb b.created_at a.created_at
    || (b.created_at == a.created_at && bytes_ltb b.public_id a.public_id)

-- created_at < cursor OR (created_at = cursor AND public_id < cursor)
unfoldable pub after_cursor : Bytes → Bytes → Row → Bool
unfolding bytes_ltb
after_cursor created_at public_id r =
    bytes_ltb r.created_at created_at
    || (r.created_at == created_at && bytes_ltb r.public_id public_id)

unfoldable pub list_submissions_all : ℕ → Queue → List Row
unfolding newer sort_by
list_submissions_all limit q = take limit (sort_by newer q.rows)

unfoldable pub list_submissions_all_after : Bytes → Bytes → ℕ → Queue → List Row
unfolding newer sort_by after_cursor
list_submissions_all_after created_at public_id limit q =
    take limit (sort_by newer (select (after_cursor created_at public_id) q.rows))

unfoldable pub list_submissions_by_status : Bytes → ℕ → Queue → List Row
unfolding newer sort_by
list_submissions_by_status status limit q =
    take limit (sort_by newer (select (λ r. r.status == status) q.rows))

unfoldable pub list_submissions_by_status_after : Bytes → Bytes → Bytes → ℕ → Queue → List Row
unfolding newer sort_by after_cursor
list_submissions_by_status_after status created_at public_id limit q =
    take limit (
      sort_by newer
        (select (λ r. r.status == status && after_cursor created_at public_id r) q.rows))
