-- ===== src/Sqlite/Submissions/Decide.antt =====
-- What Approve and Reject do, on every branch.
use urbanist_atlas.Base.{
  ℕ, ◌≡◌, ◌≢◌, refl, sym, ap, ◌∙◌, inl, inr, true, false, Option-cases, List, [], ◌∷◌, Option, none,
  some, arith, Bytes, bytes_eq, bytes_eqb_iff, ◌==◌, map, select, Distinct, Result, err,
}
use urbanist_atlas.Sqlite.Rows.{
  Row, Queue, pending, approved, rejected, first_row, get_submission, update_one, is_pending,
  approve_submission, reject_submission, submission_status,
}
use urbanist_atlas.Sqlite.Submissions.{
  Library, StoreFailure, submission_not_found, submission_not_pending, Submission,
  row_to_submission, not_pending_or_not_found, decided, approve, reject,
}
use urbanist_atlas.Sqlite.Submissions.Updates.{
  row_of, row_of-id, updated, map_option, row_of-update_rows, update_rows-none, pending-row_of,
}

-- What a decision that makes `change` of a pending submission does to the table and answers.
pub record Decides (lib : Library) (change : Row → Row) (public_id : Bytes) (q : Queue)
    (outcome : Queue × Result StoreFailure Submission) : Type 0 where
  pub missing : get_submission public_id q ≡ none → outcome ≡ (q, err submission_not_found)
  pub settled :
      (r : Row)
      → get_submission public_id q ≡ some r
      → r.status ≢ pending
      → outcome ≡ (q, err submission_not_pending)
  pub changed :
      (r : Row)
      → get_submission public_id q ≡ some r
      → r.status ≡ pending
      → (outcome.1 ≡ row_to_submission lib (change r))
        × (get_submission public_id outcome.0 ≡ some (change r))
  pub others :
      (other : Bytes) → other ≢ public_id → get_submission other outcome.0 ≡ get_submission other q

pub decided-table :
    (lib : Library) (public_id : Bytes) (q : Queue) (answer : Option Row)
    → (decided lib public_id (q, answer)).0 ≡ q
unfolding decided
decided-table lib public_id q none = refl
decided-table lib public_id q (some r) = refl

first_row-none : (rows : List Row) → first_row rows ≡ none → rows ≡ []
first_row-none [] h = refl
first_row-none (r ∷ rows) h = cc

first_row-map :
    (change : Row → Row) (rows : List Row)
    → first_row (map change rows) ≡ map_option change (first_row rows)
first_row-map change [] = refl
first_row-map change (r ∷ rows) = refl

get_submission-row_of :
    (public_id : Bytes) (q : Queue) → get_submission public_id q ≡ row_of public_id q.rows
unfolding get_submission
get_submission-row_of public_id q = refl

not_pending_or_not_found_lem :
    (public_id : Bytes) (q : Queue)
    → not_pending_or_not_found public_id q ≡ elim (get_submission public_id q) [
      | none ↦ submission_not_found
      | some r ↦ submission_not_pending
    ]
unfolding not_pending_or_not_found submission_status
not_pending_or_not_found_lem public_id q = elim (Option-cases (get_submission public_id q)) [
  | inl e ↦ rw (not_pending_or_not_found, e) refl
  | inr (r, e) ↦ rw (not_pending_or_not_found, e) refl
]

status_other : (r : Row) → r.status ≢ pending → (r.status == pending) ≡ false
status_other r n = ground (arith, bytes_eqb_iff r.status pending)

status_pending : (r : Row) → r.status ≡ pending → (r.status == pending) ≡ true
status_pending r p = (bytes_eqb_iff r.status pending).1 p

-- An update for another id leaves the row of this one.
update-other :
    (change : Row → Row) (public_id other : Bytes) (rows : List Row)
    → other ≢ public_id
    → map_option (updated (is_pending public_id) change) (row_of other rows) ≡ row_of other rows
update-other change public_id other rows apart = elim (Option-cases (row_of other rows)) [
  | inl e ↦ rw (e) refl
  | inr (r, e) ↦
      let mine = (bytes_eqb_iff r.public_id other).0 (row_of-id other rows r e) in
      let not_its : (r.public_id == public_id) ≡ false =
        ground (arith, bytes_eqb_iff r.public_id public_id) in
      rw (e) (ap some (rw (not_its) refl))
]

module _ (lib : Library) (change : Row → Row)
    (kept : (r : Row) → (change r).public_id ≡ r.public_id) (public_id : Bytes) (q : Queue) where
  -- No pending row of the id: the table stays, and the error says why.
  decided-refused :
      first_row (select (is_pending public_id) q.rows) ≡ none
      → decided lib public_id (update_one (is_pending public_id) change q)
        ≡ (q, err (not_pending_or_not_found public_id q))
  unfolding decided update_one
  decided-refused h =
      let gone = first_row-none (select (is_pending public_id) q.rows) h in
      rw (gone, update_rows-none (is_pending public_id) change kept q.rows gone) refl

  decided-done :
      (r : Row)
      → first_row (select (is_pending public_id) q.rows) ≡ some r
      → (decided lib public_id (update_one (is_pending public_id) change q)).1
        ≡ row_to_submission lib (change r)
  unfolding decided update_one
  decided-done r h = rw (first_row-map change (select (is_pending public_id) q.rows), h) refl

  pub decided-row_of :
      (other : Bytes)
      → get_submission other (decided lib public_id (update_one (is_pending public_id) change q)).0
        ≡ map_option (updated (is_pending public_id) change) (get_submission other q)
  unfolding update_one
  decided-row_of other =
      ap (get_submission other) (decided-table lib public_id _ _)
      ∙ get_submission-row_of other _
      ∙ row_of-update_rows (is_pending public_id) change kept other q.rows
      ∙ ap (map_option (updated (is_pending public_id) change))
          (sym (get_submission-row_of other q))

  -- On a table with distinct ids, all cases.
  decided-Decides :
      Distinct (map (λ r. r.public_id) q.rows)
      → Decides lib change public_id q
          (decided lib public_id (update_one (is_pending public_id) change q))
  unfolding get_submission
  decided-Decides d =
      let found = pending-row_of public_id q.rows d in
      record {
        missing = λ h.
            decided-refused (rw (sym (get_submission-row_of public_id q) ∙ h) at found)
            ∙ ap (λ e. (q, err e)) (not_pending_or_not_found_lem public_id q ∙ rw (h) refl);
        settled = λ r h n.
            decided-refused
              (rw (sym (get_submission-row_of public_id q) ∙ h, status_other r n) at found)
            ∙ ap (λ e. (q, err e)) (not_pending_or_not_found_lem public_id q ∙ rw (h) refl);
        changed = λ r h p. (
          decided-done r
              (rw (sym (get_submission-row_of public_id q) ∙ h, status_pending r p) at found),
          decided-row_of public_id
              ∙ rw (h) (
                  ap some (
                    rw
                      (
                        row_of-id public_id q.rows r (sym (get_submission-row_of public_id q) ∙ h),
                        status_pending r p,
                      )
                      refl)),
        );
        others =
            λ other apart. decided-row_of other ∙ update-other change public_id other q.rows apart;
      }

-- On a table with distinct public ids, Approve and Reject answer that there is no such submission, or
-- that it is not pending, and leave the table as it is; or else they answer the submission with the new
-- status, the time and, for Reject, the reason, which is then stored. No other submission changes.
pub approve-reject-Decides :
    (lib : Library) (now : ℕ) (public_id reason : Bytes) (q : Queue)
    → Distinct (map (λ r. r.public_id) q.rows)
    → Decides lib
        (λ r. record r { status = approved; processed_at = some (lib.format_time now) })
        public_id
        q
        (approve lib now public_id q)
      × Decides lib
          (λ r. record r {
            status = rejected;
            rejection_reason = reason;
            processed_at = some (lib.format_time now);
          })
          public_id
          q
          (reject lib now public_id reason q)
unfolding approve reject approve_submission reject_submission
approve-reject-Decides lib now public_id reason q d = (
  decided-Decides lib _ (λ r. refl) public_id q d,
  decided-Decides lib _ (λ r. refl) public_id q d,
)
