-- ===== src/Sqlite/Submissions/Tests.antt =====
-- Two submissions, one approved, and a cursor.
use urbanist_atlas.Base.{
  ◌≡◌, ◌≢◌, refl, true, false, List, [], ◌∷◌, none, some, In, nat_eq, member_iff, Distinct,
  bytes_eq, bytes_eqb, codes, ok, err,
}
use urbanist_atlas.Atlas.Submission.{SubmissionPayload, NewSubmissionInput}
use urbanist_atlas.Sqlite.Rows.{Row, Queue, pending, approved, rejected, get_submission}
use urbanist_atlas.Sqlite.Submissions.{
  Library, submission_not_found, submission_not_pending, approve, reject, encode_cursor,
  decode_cursor,
}
use urbanist_atlas.Sqlite.Submissions.Cursor.{decode_cursor-encode_cursor}
use urbanist_atlas.Sqlite.Submissions.Decide.{Decides, approve-reject-Decides}
use urbanist_atlas.Sqlite.Submissions.Stays.{Stays}
use urbanist_atlas.Sqlite.Submissions.History.{
  Call, creating, approving, rejecting, do_calls, do_calls-Stays, ids,
}

abbrev empty_payload : SubmissionPayload
empty_payload = record {
  name = [];
  short_desc = [];
  website_url = [];
  contact_url = [];
  tags = [];
  region_slugs = [];
}

-- A library that stores each payload by its name, a time as one digit, and a cursor as it is.
abbrev pub plain : Library
plain = record {
  marshal = λ p. p.name;
  unmarshal = λ s. some (record empty_payload { name = s });
  parse_layout = λ layout s. some 0;
  format_time = λ t. t ∷ [];
  base64_encode = λ s. s;
  base64_decode = λ s. some s;
  decode-encode = λ s. refl;
  encode_nil = refl;
}

abbrev input : NewSubmissionInput
input = record {
  payload = record empty_payload { name = codes "Riders" };
  submitter_name = [];
  submitter_email = [];
  submitter_note = codes "hi";
}

abbrev pub row : Row
row = record {
  id = 1;
  public_id = codes "a";
  payload_json = codes "Riders";
  submitter_name = [];
  submitter_email = [];
  submitter_note = codes "hi";
  status = pending;
  rejection_reason = [];
  created_at = 50 ∷ [];
  processed_at = none;
  promotion_pr_url = [];
  promotion_error = [];
}

abbrev empty_queue : Queue
empty_queue = record { rows = []; next_id = 1 }

abbrev queue : Queue
queue = record { rows = row ∷ []; next_id = 2 }

abbrev calls : List Call
calls = approving 55 (codes "a") ∷ rejecting 56 (codes "a") (codes "late") ∷ []

created : do_calls plain empty_queue (creating (some (codes "a")) 50 input ∷ []) ≡ queue
unfolding do_calls bytes_eqb
created = refl

decided_once : do_calls plain queue calls ≡ record {
  rows = record row { status = approved; processed_at = some (55 ∷ []) } ∷ [];
  next_id = 2;
}
unfolding do_calls bytes_eqb
decided_once = refl

decided_twice :
    (reject plain 56 (codes "a") (codes "late") (do_calls plain queue calls)).1
    ≡ err submission_not_pending
unfolding do_calls reject bytes_eqb
decided_twice = refl

unknown : (approve plain 56 (codes "b") queue).1 ≡ err submission_not_found
unfolding approve bytes_eqb
unknown = refl

row_there : get_submission (codes "a") queue ≡ some row
unfolding get_submission bytes_eqb
row_there = refl

do_calls-Stays_example :
    (r' : Row) × (get_submission (codes "a") (do_calls plain queue calls) ≡ some r') × Stays row r'
do_calls-Stays_example = do_calls-Stays plain queue calls (codes "a") row row_there

one_id : Distinct (ids queue)
one_id = (λ m. m, tt)

approve-reject-Decides_example :
    Decides plain
      (λ r. record r { status = approved; processed_at = some (plain.format_time 55) })
      (codes "a")
      queue
      (approve plain 55 (codes "a") queue)
    × Decides plain
        (λ r. record r {
          status = rejected;
          rejection_reason = codes "late";
          processed_at = some (plain.format_time 55);
        })
        (codes "a")
        queue
        (reject plain 55 (codes "a") (codes "late") queue)
approve-reject-Decides_example =
    approve-reject-Decides plain 55 (codes "a") (codes "late") queue one_id

time_there : codes "2026" ≢ []
time_there e = cc

id_there : codes "a" ≢ []
id_there e = cc

no_bar : ¬ In b'|' (codes "2026")
no_bar m = let found : false ≡ true = (member_iff b'|' (codes "2026")).1 m in cc

decode_cursor-encode_cursor_example :
    decode_cursor plain (encode_cursor plain (codes "2026") (codes "a"))
    ≡ ok (some (codes "2026", codes "a"))
decode_cursor-encode_cursor_example =
    decode_cursor-encode_cursor plain (codes "2026") (codes "a") time_there no_bar id_there
