-- ===== src/Sqlite/Submissions/History.antt =====
-- What any sequence of calls keeps of the submissions.
use urbanist_atlas.Base.{
  ℕ, ◌≡◌, refl, sym, ap, ◌∙◌, subst, ◌⊎◌, inl, inr, true, Bool-cases, Option-cases, List, [], ◌∷◌,
  ◌++◌, Option, none, some, Bytes, bytes_eq, ◌==◌, In, map, member, member_iff, Distinct,
  Distinct-concat,
}
use urbanist_atlas.Atlas.Submission.{NewSubmissionInput}
use urbanist_atlas.Sqlite.Rows.{
  Row, Queue, create_submission_row, pending, get_submission, update_one, is_pending,
  approve_submission, reject_submission, attach_promotion_result_row, submission_status,
}
use urbanist_atlas.Sqlite.Submissions.{
  Library, create, decided, approve, reject, attach_promotion_result,
}
use urbanist_atlas.Sqlite.Submissions.Updates.{row_of, updated, row_of-update_rows, update_rows-ids}
use urbanist_atlas.Sqlite.Submissions.Decide.{decided-row_of, decided-table}
use urbanist_atlas.Sqlite.Submissions.Stays.{
  Stays, Stays-refl, Stays-trans, decision-Stays, result-Stays, updated-Stays, pending_row,
}

-- A call, with the answers of the clock and of the id generator.
pub data Call : Type 0 where
  creating : Option Bytes → ℕ → NewSubmissionInput → Call
  approving : ℕ → Bytes → Call
  rejecting : ℕ → Bytes → Bytes → Call
  attaching : Bytes → Bytes → Bytes → Call

unfoldable pub do_call : Library → Queue → Call → Queue
unfolding create approve reject attach_promotion_result
do_call lib q (creating new_id now input) = (create lib new_id now input q).0
do_call lib q (approving now public_id) = (approve lib now public_id q).0
do_call lib q (rejecting now public_id reason) = (reject lib now public_id reason q).0
do_call lib q (attaching public_id pr_url pr_err) =
    (attach_promotion_result public_id pr_url pr_err q).0

unfoldable pub do_calls : Library → Queue → List Call → Queue
unfolding do_call
do_calls lib q [] = q
do_calls lib q (c ∷ cs) = do_calls lib (do_call lib q c) cs

-- The row of the id is still there, and has stayed.
Present : Bytes → Row → Queue → Type 0
Present public_id r q = (r' : Row) × (get_submission public_id q ≡ some r') × Stays r r'

row_of_append :
    (public_id : Bytes) (rows : List Row) (x r : Row)
    → row_of public_id rows ≡ some r
    → row_of public_id (rows ++ x ∷ []) ≡ some r
row_of_append public_id [] x r h = cc
row_of_append public_id (y ∷ rows) x r h = elim (Bool-cases (y.public_id == public_id)) [
  | inl e ↦ rw (e) (rw (e) at h)
  | inr e ↦ rw (e) (row_of_append public_id rows x r (rw (e) at h))
]

-- Create leaves the table, or puts one row with a new id at its end.
create-table :
    (lib : Library) (new_id : Option Bytes) (now : ℕ) (input : NewSubmissionInput) (q : Queue)
    → ((create lib new_id now input q).0 ≡ q)
      ⊎ ((row : Row) × ((create lib new_id now input q).0.rows ≡ q.rows ++ row ∷ [])
          × (¬ In row.public_id (map (λ r. r.public_id) q.rows)))
unfolding create create_submission_row
create-table lib none now input q = inl refl
create-table lib (some id) now input q =
    elim (Bool-cases (member id (map (λ r. r.public_id) q.rows))) [
      | inl e ↦ inl (rw (create, create_submission_row, e) refl)
      | inr e ↦ inr (
        record {
          id = q.next_id;
          public_id = id;
          payload_json = lib.marshal input.payload;
          submitter_name = input.submitter_name;
          submitter_email = input.submitter_email;
          submitter_note = input.submitter_note;
          status = pending;
          rejection_reason = [];
          created_at = lib.format_time now;
          processed_at = none;
          promotion_pr_url = [];
          promotion_error = [];
        },
        rw (create, create_submission_row, e) refl,
        λ m. cc (e, (member_iff id (map (λ r. r.public_id) q.rows)).1 m),
      )
    ]

-- Approve and Reject change a pending row in its open fields alone.
decided-Present :
    (lib : Library) (change : Row → Row) (id public_id : Bytes) (q : Queue) (r : Row)
    → ((x : Row) → (change x).public_id ≡ x.public_id)
    → (is_pending id r ≡ true → Stays r (change r))
    → get_submission public_id q ≡ some r
    → Present public_id r (decided lib id (update_one (is_pending id) change q)).0
unfolding Present
decided-Present lib change id public_id q r kept stays h = (
  updated (is_pending id) change r,
  decided-row_of lib change kept id q public_id ∙ rw (h) refl,
  updated-Stays (is_pending id) change r stays,
)

do_call-Present :
    (lib : Library) (q : Queue) (c : Call) (public_id : Bytes) (r : Row)
    → get_submission public_id q ≡ some r
    → Present public_id r (do_call lib q c)
unfolding Present do_call approve_submission reject_submission get_submission
    attach_promotion_result_row
do_call-Present lib q (creating new_id now input) public_id r h =
    elim (create-table lib new_id now input q) [
      | inl e ↦ (r, ap (get_submission public_id) e ∙ h, Stays-refl r)
      | inr (row, e, fresh) ↦
          (r, ap (row_of public_id) e ∙ row_of_append public_id q.rows row r h, Stays-refl r)
    ]
do_call-Present lib q (approving now id) public_id r h =
    decided-Present lib _ id public_id q r (λ x. refl)
      (λ e. decision-Stays r _ _ _ (pending_row id r e)) h
do_call-Present lib q (rejecting now id reason) public_id r h =
    decided-Present lib _ id public_id q r (λ x. refl)
      (λ e. decision-Stays r _ _ _ (pending_row id r e)) h
do_call-Present lib q (attaching id pr_url pr_err) public_id r h =
    elim (Option-cases (submission_status id q)) [
      | inl e ↦ (r, rw (do_call, attach_promotion_result, e) h, Stays-refl r)
      | inr (status, e) ↦ (
        updated (λ x. x.public_id == id)
            (λ x. record x { promotion_pr_url = pr_url; promotion_error = pr_err }) r,
        rw (do_call, attach_promotion_result, e)
            (row_of-update_rows (λ x. x.public_id == id)
                (λ x. record x { promotion_pr_url = pr_url; promotion_error = pr_err }) (λ x. refl)
                public_id q.rows
              ∙ rw (h) refl),
        updated-Stays (λ x. x.public_id == id)
            (λ x. record x { promotion_pr_url = pr_url; promotion_error = pr_err }) r
            (λ m. result-Stays r pr_url pr_err),
      )
    ]

-- Whatever calls are made, a submission that is stored stays stored with all that was submitted and its
-- time; and once it is approved or rejected its status, its reason and the time of the decision stay.
pub do_calls-Stays :
    (lib : Library) (q : Queue) (cs : List Call) (public_id : Bytes) (r : Row)
    → get_submission public_id q ≡ some r
    → (r' : Row) × (get_submission public_id (do_calls lib q cs) ≡ some r') × Stays r r'
unfolding do_calls Present
do_calls-Stays lib q [] public_id r h = (r, h, Stays-refl r)
do_calls-Stays lib q (c ∷ cs) public_id r h =
    let (r', e, s) = do_call-Present lib q c public_id r h in
    let (r'', f, t) = do_calls-Stays lib (do_call lib q c) cs public_id r' e in
    (r'', f, Stays-trans r r' r'' s t)

map_append :
    (rows : List Row) (x : Row)
    → map (λ r. r.public_id) (rows ++ x ∷ []) ≡ map (λ r. r.public_id) rows ++ x.public_id ∷ []
map_append [] x = refl
map_append (r ∷ rows) x = ap (λ t. r.public_id ∷ t) (map_append rows x)

-- The public ids of the table.
abbrev pub ids : Queue → List Bytes
ids q = map (λ r. r.public_id) q.rows

decided-ids :
    (lib : Library) (change : Row → Row) (id : Bytes) (q : Queue)
    → ((r : Row) → (change r).public_id ≡ r.public_id)
    → Distinct (ids q)
    → Distinct (ids (decided lib id (update_one (is_pending id) change q)).0)
unfolding update_one
decided-ids lib change id q kept d =
    subst (λ t. Distinct (ids t)) (sym (decided-table lib id _ _))
      (subst Distinct (sym (update_rows-ids (is_pending id) change kept q.rows)) d)

do_call-ids :
    (lib : Library) (q : Queue) (c : Call) → Distinct (ids q) → Distinct (ids (do_call lib q c))
unfolding do_call approve_submission reject_submission update_one attach_promotion_result_row
do_call-ids lib q (creating new_id now input) d = elim (create-table lib new_id now input q) [
  | inl e ↦ rw (do_call, e) d
  | inr (row, e, fresh) ↦
      rw (do_call, e, map_append q.rows row) (Distinct-concat row.public_id (ids q) d fresh)
]
do_call-ids lib q (approving now id) d = decided-ids lib _ id q (λ r. refl) d
do_call-ids lib q (rejecting now id reason) d = decided-ids lib _ id q (λ r. refl) d
do_call-ids lib q (attaching id pr_url pr_err) d = elim (Option-cases (submission_status id q)) [
  | inl e ↦ rw (do_call, attach_promotion_result, e) d
  | inr (status, e) ↦
      rw
        (
          do_call,
          attach_promotion_result,
          e,
          update_rows-ids (λ x. x.public_id == id)
              (λ x. record x { promotion_pr_url = pr_url; promotion_error = pr_err }) (λ r. refl)
              q.rows,
        )
        d
]

-- No call makes two submissions share a public id.
pub do_calls-Distinct :
    (lib : Library) (q : Queue) (cs : List Call)
    → Distinct (ids q)
    → Distinct (ids (do_calls lib q cs))
unfolding do_calls
do_calls-Distinct lib q [] d = d
do_calls-Distinct lib q (c ∷ cs) d =
    do_calls-Distinct lib (do_call lib q c) cs (do_call-ids lib q c d)
