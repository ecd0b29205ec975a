-- ===== src/Promotion/PullRequest.antt =====
-- openPR of api/internal/githubpr/worker.go and the calls of the GitHub API that it makes. `Github` says
-- how the server and the decoders answer; an answer may depend on all requests sent before. A GET goes
-- through the retry loop. The history holds each request once, whatever the number of its attempts. The
-- deadline of the chain is a request that fails.
pub mod Branch
pub mod Tests
use urbanist_atlas.Base.{
  ℕ, Bool, true, false, not, ◌&&◌, List, [], ◌∷◌, ◌++◌, Option, none, some, Bytes, bytes_eq, ◌==◌,
  codes, nat_eqb, Unicode, contains, take, if◌then◌else◌, Result, ok, err,
}
use urbanist_atlas.Seed.Orgs.{LocalDate}
use urbanist_atlas.Sqlite.Submissions.{Submission}
use urbanist_atlas.Promotion.Retry.{
  Response, Outcome, responded, request_failed, interrupted, out_of_fuel, max_body,
  do_idempotent_request,
}
use urbanist_atlas.Promotion.Text.{
  Fields, derive_slug, short_id, submission_branch_name, ensure_trailing_newline, code_span,
  build_pr_body, without_byte,
}

pub data Request : Type 0 where
  get_ref : Bytes → Request
  get_contents : Bytes → Bytes → Request
  create_ref : Bytes → Bytes → Request
  update_ref : Bytes → Bytes → Request
  put_contents : Bytes → Bytes → Bytes → Bytes → Bytes → Request
  create_pull : Bytes → Bytes → Bytes → Bytes → Request
  list_pulls : Bytes → Bytes → Request

-- What json.Decode reads of the contents of a file.
pub record Contents : Type 0 where
  pub content : Bytes
  pub encoding : Bytes
  pub sha : Bytes

pub record Github : Type 0 where
  pub reply : List Request → Request → ℕ → Option Response
  pub sleeps : List Request → Request → ℕ → Bool
  pub decode_ref : Bytes → Option Bytes
  pub decode_contents : Bytes → Option Contents
  pub decode_pull : Bytes → Option Bytes
  pub decode_pulls : Bytes → Option (List Bytes)
  pub base64_std_decode : Bytes → Option Bytes
  pub base64_std_encode : Bytes → Bytes

pub record Config : Type 0 where
  pub token : Bytes
  pub base_branch : Bytes
  pub seed_file_path : Bytes

pub data PrError : Type 0 where
  send_failed : PrError
  api_error : Request → Response → PrError
  promotion_disabled undecodable empty_sha bad_base64 empty_slug not_rendered : PrError
  unexpected_encoding : Bytes → PrError
  existing_lookup : PrError → PrError → PrError

-- A part of the chain: from the requests sent so far to those sent after it, with its result.
abbrev pub Sending : Type 0 → Type 0
Sending A = List Request → List Request × Result PrError A

-- An error ends the chain.
unfoldable pub proceed :
    {A B : Type 0}
    → (A → Sending B)
    → List Request × Result PrError A
    → List Request × Result PrError B
proceed next (sent, err e) = (sent, err e)
proceed next (sent, ok a) = next a sent

unfoldable pub and_then : {A B : Type 0} → Sending A → (A → Sending B) → Sending B
and_then first next sent = proceed next (first sent)

unfoldable pub give : {A : Type 0} → Result PrError A → Sending A
give r sent = (sent, r)

-- The result of a decoder or an encoder, with the error where it fails.
unfoldable pub decoded : {A : Type 0} → PrError → Option A → Result PrError A
decoded e none = err e
decoded e (some a) = ok a

unfoldable pub do_request : Github → Request → Sending Response
do_request gh req sent =
    (sent ++ req ∷ [], elim (gh.reply sent req 1) [ none ↦ err send_failed | some resp ↦ ok resp ])

unfoldable pub do_get : Unicode → Github → Request → Sending Response
do_get u gh req sent = (
  sent ++ req ∷ [],
  elim (do_idempotent_request u (gh.reply sent req) (gh.sleeps sent req)).outcome [
    | responded resp ↦ ok resp
    | request_failed ↦ err send_failed
    | interrupted ↦ err send_failed
    | out_of_fuel ↦ err send_failed
  ],
)

unfoldable pub expect_status : Request → ℕ → Response → Result PrError Response
expect_status req want resp = if nat_eqb resp.status want then ok resp else err (api_error req resp)

unfoldable pub get_branch_sha : Unicode → Github → Bytes → Sending Bytes
get_branch_sha u gh branch = and_then (do_get u gh (get_ref branch)) (λ resp.
    and_then (give (expect_status (get_ref branch) 200 resp)) (λ good.
      and_then (give (decoded undecodable (gh.decode_ref good.body)))
        (λ sha. give (if sha == [] then err empty_sha else ok sha))))

-- The content is decoded, and the sha is that of the file's blob.
unfoldable pub get_file : Unicode → Github → Bytes → Bytes → Sending (Bytes × Bytes)
get_file u gh path branch = and_then (do_get u gh (get_contents path branch)) (λ resp.
    and_then (give (expect_status (get_contents path branch) 200 resp)) (λ good.
      and_then (give (decoded undecodable (gh.decode_contents good.body))) (λ out.
        if not (out.encoding == codes "base64")
        then give (err (unexpected_encoding out.encoding))
        else and_then
            (give (decoded bad_base64 (gh.base64_std_decode (without_byte 10 out.content))))
            (λ content. give (ok (content, out.sha))))))

unfoldable pub reset_branch : Github → Bytes → Bytes → Sending (Unit {0})
reset_branch gh branch sha = and_then (do_request gh (update_ref branch sha)) (λ resp.
    and_then (give (expect_status (update_ref branch sha) 200 resp)) (λ good. give (ok tt)))

unfoldable pub create_branch : Unicode → Github → Bytes → Bytes → Sending (Unit {0})
create_branch u gh branch sha = and_then (do_request gh (create_ref branch sha)) (λ resp.
    if nat_eqb resp.status 201
    then give (ok tt)
    else if nat_eqb resp.status 422
        && contains (u.to_lower (take max_body resp.body)) (codes "reference already exists")
    then reset_branch gh branch sha
    else give (err (api_error (create_ref branch sha) resp)))

unfoldable pub put_file : Github → Bytes → Bytes → Bytes → Bytes → Bytes → Sending (Unit {0})
put_file gh path branch content sha message =
    let req = put_contents path branch (gh.base64_std_encode content) sha message in
    and_then (do_request gh req) (λ resp.
      if not (nat_eqb resp.status 200) && not (nat_eqb resp.status 201)
      then give (err (api_error req resp))
      else give (ok tt))

-- The first of the open pull requests, or the empty text.
unfoldable pub first_url : List Bytes → Bytes
first_url [] = []
first_url (url ∷ urls) = url

unfoldable pub find_open_pr : Unicode → Github → Bytes → Bytes → Sending Bytes
find_open_pr u gh head base = and_then (do_get u gh (list_pulls head base)) (λ resp.
    and_then (give (expect_status (list_pulls head base) 200 resp)) (λ good.
      and_then (give (decoded undecodable (gh.decode_pulls good.body)))
        (λ urls. give (ok (first_url urls)))))

-- The end of createPR on a 422, with the outcome of the lookup.
unfoldable pub found_pr :
    PrError → List Request × Result PrError Bytes → List Request × Result PrError Bytes
found_pr create_err (sent, err e) = (sent, err (existing_lookup create_err e))
found_pr create_err (sent, ok url) = (sent, if url == [] then err create_err else ok url)

unfoldable pub existing_pr : PrError → Sending Bytes → Sending Bytes
existing_pr create_err lookup sent = found_pr create_err (lookup sent)

unfoldable pub create_pr : Unicode → Github → Bytes → Bytes → Bytes → Bytes → Sending Bytes
create_pr u gh title body head base =
    let req = create_pull title body head base in
    and_then (do_request gh req) (λ resp.
      if nat_eqb resp.status 422
      then existing_pr (api_error req resp) (find_open_pr u gh head base)
      else and_then (give (expect_status req 201 resp))
          (λ good. give (decoded undecodable (gh.decode_pull good.body))))

pub record OrgTomlEntry : Type 0 where
  pub slug : Bytes
  pub added_at : LocalDate
  pub name : Bytes
  pub short_desc : Bytes
  pub website_url : Bytes
  pub contact_url : Bytes
  pub tags : List Bytes
  pub region_slugs : List Bytes

-- Go's calendar in UTC, and the TOML encoder on a document of one entry.
pub record Toml : Type 0 where
  pub calendar : ℕ → LocalDate
  pub encode : OrgTomlEntry → Option Bytes

unfoldable pub render_org_block : Toml → Submission → Bytes → ℕ → Result PrError Bytes
render_org_block toml sub slug added_at =
    if slug == []
    then err empty_slug
    else decoded not_rendered (
        toml.encode (record {
          slug = slug;
          added_at = toml.calendar added_at;
          name = sub.payload.name;
          short_desc = sub.payload.short_desc;
          website_url = sub.payload.website_url;
          contact_url = sub.payload.contact_url;
          tags = sub.payload.tags;
          region_slugs = sub.payload.region_slugs;
        }))

unfoldable pub added_time : ℕ → Submission → ℕ
added_time now sub = elim sub.processed_at [ none ↦ now | some t ↦ t ]

unfoldable pub commit_message : Fields → Submission → Bytes
commit_message fs sub =
    codes "Add "
    ++ code_span fs sub.payload.name
    ++ codes " (submission "
    ++ short_id sub.public_id
    ++ codes ")"

unfoldable pub open_pr :
    Unicode → Fields → Github → Config → Toml → (ℕ → Bytes) → ℕ → Submission → Sending Bytes
open_pr u fs gh cfg toml rfc3339 now sub =
    let branch = submission_branch_name sub.public_id in
    and_then (get_branch_sha u gh cfg.base_branch) (λ base_sha.
      and_then (get_file u gh cfg.seed_file_path cfg.base_branch) (λ existing.
        and_then
          (give (render_org_block toml sub (derive_slug u sub.payload.name) (added_time now sub)))
          (λ block. and_then (create_branch u gh branch base_sha) (λ created.
            and_then
              (put_file gh cfg.seed_file_path branch (ensure_trailing_newline existing.0 ++ block)
                existing.1 (commit_message fs sub))
              (λ put.
                create_pr u gh (codes "Add " ++ code_span fs sub.payload.name)
                  (build_pr_body fs rfc3339 sub) branch cfg.base_branch)))))

unfoldable pub process_now :
    Unicode → Fields → Github → Config → Toml → (ℕ → Bytes) → ℕ → Submission → Sending Bytes
process_now u fs gh cfg toml rfc3339 now sub =
    if cfg.token == []
    then give (err promotion_disabled)
    else open_pr u fs gh cfg toml rfc3339 now sub

-- The arguments of PersistResult.
pub record Persisted : Type 0 where
  pub public_id : Bytes
  pub pr_url : Bytes
  pub pr_err : Bytes

unfoldable pub persisted : (PrError → Bytes) → Bytes → Result PrError Bytes → Persisted
persisted message public_id (err e) = record {
  public_id = public_id;
  pr_url = [];
  pr_err = message e;
}
persisted message public_id (ok url) = record { public_id = public_id; pr_url = url; pr_err = [] }

-- The requests sent, and the call of PersistResult where one is configured; `message` is the text of an
-- error.
unfoldable pub process :
    (PrError → Bytes)
    → Unicode
    → Fields
    → Github
    → Config
    → Toml
    → (ℕ → Bytes)
    → ℕ
    → Submission
    → List Request
    → List Request × Persisted
process message u fs gh cfg toml rfc3339 now sub sent =
    let (sent', outcome) = open_pr u fs gh cfg toml rfc3339 now sub sent in
    (sent', persisted message sub.public_id outcome)
