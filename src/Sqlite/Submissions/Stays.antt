-- ===== src/Sqlite/Submissions/Stays.antt =====
-- What stays of a submission.
use urbanist_atlas.Base.{
  ◌≡◌, ◌≢◌, refl, sym, ◌∙◌, inl, inr, Bool, true, Bool-cases, Option, arith, Bytes, bytes_eq,
  bytes_eqb_iff,
}
use urbanist_atlas.Sqlite.Rows.{Row, pending, is_pending}
use urbanist_atlas.Sqlite.Submissions.Updates.{updated}

-- What stays of a row: all that was submitted, and a decision once it is made.
pub record Stays (r r' : Row) : Type 0 where
  pub public_id : r'.public_id ≡ r.public_id
  pub payload : r'.payload_json ≡ r.payload_json
  pub name : r'.submitter_name ≡ r.submitter_name
  pub email : r'.submitter_email ≡ r.submitter_email
  pub note : r'.submitter_note ≡ r.submitter_note
  pub created : r'.created_at ≡ r.created_at
  pub status : r.status ≢ pending → r'.status ≡ r.status
  pub reason : r.status ≢ pending → r'.rejection_reason ≡ r.rejection_reason
  pub processed : r.status ≢ pending → r'.processed_at ≡ r.processed_at

pub Stays-refl : (r : Row) → Stays r r
Stays-refl r = record {
  public_id = refl;
  payload = refl;
  name = refl;
  email = refl;
  note = refl;
  created = refl;
  status = λ n. refl;
  reason = λ n. refl;
  processed = λ n. refl;
}

pub Stays-trans : (r s t : Row) → Stays r s → Stays s t → Stays r t
Stays-trans r s t h k = record {
  public_id = k.public_id ∙ h.public_id;
  payload = k.payload ∙ h.payload;
  name = k.name ∙ h.name;
  email = k.email ∙ h.email;
  note = k.note ∙ h.note;
  created = k.created ∙ h.created;
  status = λ n. k.status (later n) ∙ h.status n;
  reason = λ n. k.reason (later n) ∙ h.reason n;
  processed = λ n. k.processed (later n) ∙ h.processed n;
}
  where
    later : r.status ≢ pending → s.status ≢ pending
    later n p = n (sym (h.status n) ∙ p)

-- A decision on a pending row, and the result of a promotion on any.
pub decision-Stays :
    (r : Row) (status' reason' : Bytes) (processed' : Option Bytes)
    → r.status ≡ pending
    → Stays r (record r { status = status'; rejection_reason = reason'; processed_at = processed' })
decision-Stays r status' reason' processed' p = record {
  public_id = refl;
  payload = refl;
  name = refl;
  email = refl;
  note = refl;
  created = refl;
  status = λ n. absurd (n p);
  reason = λ n. absurd (n p);
  processed = λ n. absurd (n p);
}

pub result-Stays :
    (r : Row) (pr_url pr_err : Bytes)
    → Stays r (record r { promotion_pr_url = pr_url; promotion_error = pr_err })
result-Stays r pr_url pr_err = record {
  public_id = refl;
  payload = refl;
  name = refl;
  email = refl;
  note = refl;
  created = refl;
  status = λ n. refl;
  reason = λ n. refl;
  processed = λ n. refl;
}

pub updated-Stays :
    (matches : Row → Bool) (change : Row → Row) (r : Row)
    → (matches r ≡ true → Stays r (change r))
    → Stays r (updated matches change r)
updated-Stays matches change r h = elim (Bool-cases (matches r)) [
  | inl e ↦ rw (e) (h e)
  | inr e ↦ rw (e) (Stays-refl r)
]

pub pending_row : (id : Bytes) (r : Row) → is_pending id r ≡ true → r.status ≡ pending
pending_row id r h = ground (arith, bytes_eqb_iff r.status pending)
