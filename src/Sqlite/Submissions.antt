-- ===== src/Sqlite/Submissions.antt =====
-- The SubmissionStore of api/internal/store/sqlite/store.go. Each method takes the table and gives it
-- back, as the store has one connection. The clock, the id generator, encoding/json, encoding/base64
-- and package time are parameters. Failures of the database itself are left out.
pub mod Cursor
pub mod Updates
pub mod Decide
pub mod Stays
pub mod History
pub mod Tests
use urbanist_atlas.Base.{
  ℕ, suc, ◌+◌, ◌≡◌, Bool, true, false, not, ◌&&◌, ◌||◌, List, [], ◌∷◌, ◌++◌, Option, none, some,
  Bytes, bytes_eq, bytes_ltb, nat_eqb, ◌==◌, codes, if◌then◌else◌, length, take, drop, ltb, ℤ, pos,
  int_ltb, int_leb, pos_part, Result, ok, err, ◌>>=◌, wrap,
}
use urbanist_atlas.Atlas.Submission.{SubmissionPayload, NewSubmissionInput}
use urbanist_atlas.Sqlite.Rows.{
  Row, Queue, create_submission_row, get_submission, approve_submission, reject_submission,
  attach_promotion_result_row, submission_status, list_submissions_all, list_submissions_all_after,
  list_submissions_by_status, list_submissions_by_status_after,
}

pub record Submission : Type 0 where
  pub public_id : Bytes
  pub payload : SubmissionPayload
  pub submitter_name : Bytes
  pub submitter_email : Bytes
  pub submitter_note : Bytes
  pub status : Bytes
  pub created_at : ℕ
  pub processed_at : Option ℕ
  pub promotion_pr_url : Bytes
  pub promotion_error : Bytes
  pub rejection_reason : Bytes

-- What the store uses of Go's library. `parse_layout` is time.Parse, `format_time` is Format with
-- sqliteTimeFormat. RawURLEncoding decodes what it has encoded, and encodes no byte as no byte.
pub record Library : Type 0 where
  pub marshal : SubmissionPayload → Bytes
  pub unmarshal : Bytes → Option SubmissionPayload
  pub parse_layout : Bytes → Bytes → Option ℕ
  pub format_time : ℕ → Bytes
  pub base64_encode : Bytes → Bytes
  pub base64_decode : Bytes → Option Bytes
  pub decode-encode : (b : Bytes) → base64_decode (base64_encode b) ≡ some b
  pub encode_nil : base64_encode [] ≡ []

pub data StoreFailure : Type 0 where
  submission_not_found submission_not_pending invalid_cursor : StoreFailure
  no_id id_taken : StoreFailure
  bad_payload bad_created_at bad_processed_at : Bytes → StoreFailure

-- sqliteTimeFormat, time.RFC3339Nano and time.RFC3339
abbrev pub layouts : List Bytes
layouts =
    codes "2006-01-02T15:04:05.000Z"
    ∷ codes "2006-01-02T15:04:05.999999999Z07:00"
    ∷ codes "2006-01-02T15:04:05Z07:00"
    ∷ []

unfoldable pub parse_layouts : Library → List Bytes → Bytes → Option ℕ
parse_layouts lib [] s = none
parse_layouts lib (layout ∷ rest) s = elim (lib.parse_layout layout s) [
  | some t ↦ some t
  | none ↦ parse_layouts lib rest s
]

unfoldable pub parse_sqlite_time : Library → Bytes → Option ℕ
unfolding parse_layouts
parse_sqlite_time lib s = parse_layouts lib layouts s

-- The pointer processedAt.
unfoldable pub processed_time : Library → Row → Result StoreFailure (Option ℕ)
unfolding parse_sqlite_time
processed_time lib r = elim r.processed_at [
  | none ↦ ok none
  | some [] ↦ ok none
  | some (b ∷ bs) ↦ elim (parse_sqlite_time lib (b ∷ bs)) [
    | none ↦ err (bad_processed_at r.public_id)
    | some t ↦ ok (some t)
  ]
]

unfoldable pub row_to_submission : Library → Row → Result StoreFailure Submission
unfolding parse_sqlite_time processed_time
row_to_submission lib r = elim (lib.unmarshal r.payload_json) [
  | none ↦ err (bad_payload r.public_id)
  | some payload ↦ elim (parse_sqlite_time lib r.created_at) [
    | none ↦ err (bad_created_at r.public_id)
    | some created_at ↦ processed_time lib r >>= λ processed_at. ok (record {
      public_id = r.public_id;
      payload = payload;
      submitter_name = r.submitter_name;
      submitter_email = r.submitter_email;
      submitter_note = r.submitter_note;
      status = r.status;
      created_at = created_at;
      processed_at = processed_at;
      promotion_pr_url = r.promotion_pr_url;
      promotion_error = r.promotion_error;
      rejection_reason = r.rejection_reason;
    })
  ]
]

-- `new_id` is the answer of the id generator, `now` the time on the clock.
unfoldable pub create :
    Library → Option Bytes → ℕ → NewSubmissionInput → Queue → Queue × Result StoreFailure Submission
unfolding create_submission_row row_to_submission
create lib new_id now input q = elim new_id [
  | none ↦ (q, err no_id)
  | some public_id ↦
      elim (create_submission_row
        (record {
          public_id = public_id;
          payload_json = lib.marshal input.payload;
          submitter_name = input.submitter_name;
          submitter_email = input.submitter_email;
          submitter_note = input.submitter_note;
          created_at = lib.format_time now;
        })
        q) [ none ↦ (q, err id_taken) | some (q', row) ↦ (q', row_to_submission lib row) ]
]

unfoldable pub get : Library → Bytes → Queue → Result StoreFailure Submission
unfolding get_submission row_to_submission
get lib public_id q = elim (get_submission public_id q) [
  | none ↦ err submission_not_found
  | some row ↦ row_to_submission lib row
]

unfoldable pub not_pending_or_not_found : Bytes → Queue → StoreFailure
unfolding submission_status
not_pending_or_not_found public_id q = elim (submission_status public_id q) [
  | none ↦ submission_not_found
  | some status ↦ submission_not_pending
]

-- The end of Approve and Reject.
unfoldable pub decided :
    Library → Bytes → Queue × Option Row → Queue × Result StoreFailure Submission
unfolding not_pending_or_not_found row_to_submission
decided lib public_id (q, none) = (q, err (not_pending_or_not_found public_id q))
decided lib public_id (q, some row) = (q, row_to_submission lib row)

unfoldable pub approve : Library → ℕ → Bytes → Queue → Queue × Result StoreFailure Submission
unfolding approve_submission decided
approve lib now public_id q =
    decided lib public_id (approve_submission (lib.format_time now) public_id q)

unfoldable pub reject : Library → ℕ → Bytes → Bytes → Queue → Queue × Result StoreFailure Submission
unfolding reject_submission decided
reject lib now public_id reason q =
    decided lib public_id (reject_submission reason (lib.format_time now) public_id q)

unfoldable pub attach_promotion_result :
    Bytes → Bytes → Bytes → Queue → Queue × Result StoreFailure (Unit {0})
unfolding submission_status attach_promotion_result_row
attach_promotion_result public_id pr_url pr_err q = elim (submission_status public_id q) [
  | none ↦ (q, err submission_not_found)
  | some status ↦ (attach_promotion_result_row pr_url pr_err public_id q, ok tt)
]

unfoldable pub encode_cursor : Library → Bytes → Bytes → Bytes
encode_cursor lib created_at public_id = lib.base64_encode (created_at ++ b'|' ∷ public_id)

-- The index of the first `|` splits the text; `none` where there is none.
unfoldable pub split_bar : Bytes → Option (Bytes × Bytes)
split_bar [] = none
split_bar (c ∷ s) =
    let rest = split_bar s in
    if nat_eqb c b'|'
    then some ([], s)
    else elim rest [ none ↦ none | some (before, behind) ↦ some (c ∷ before, behind) ]

-- `none` for hasCursor = false.
unfoldable pub decode_cursor : Library → Bytes → Result StoreFailure (Option (Bytes × Bytes))
unfolding split_bar
decode_cursor lib cursor = if cursor == [] then ok none else elim (lib.base64_decode cursor) [
  | none ↦ err invalid_cursor
  | some raw ↦ elim (split_bar raw) [
    | none ↦ err invalid_cursor
    | some (created_at, public_id) ↦
        if created_at == [] || public_id == []
        then err invalid_cursor
        else ok (some (created_at, public_id))
  ]
]
