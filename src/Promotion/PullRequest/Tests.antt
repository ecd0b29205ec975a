-- ===== src/Promotion/PullRequest/Tests.antt =====
-- A second attempt for a submission, whose branch and pull request an earlier one has left behind.
use urbanist_atlas.Base.{
  ℕ, ◌≡◌, ◌≢◌, ◌++◌, refl, true, [], ◌∷◌, All, Option, some, Bytes, bytes_eqb, codes, lower_byte,
  ascii_only, contains,
}
use urbanist_atlas.Sqlite.Submissions.{Submission}
use urbanist_atlas.Promotion.Retry.{Response, do_idempotent_request}
use urbanist_atlas.Promotion.Text.{derive_slug, submission_branch_name}
use urbanist_atlas.Promotion.Text.Tests.{by_bytes}
use urbanist_atlas.Promotion.PullRequest.{
  Request, get_ref, get_contents, create_ref, update_ref, put_contents, create_pull, list_pulls,
  Github, Config, Toml, and_then, proceed, give, decoded, do_request, do_get, expect_status,
  get_branch_sha, get_file, reset_branch, create_branch, put_file, first_url, find_open_pr,
  found_pr, existing_pr, create_pr, render_org_block, open_pr, process, persisted,
}
use urbanist_atlas.Promotion.PullRequest.Branch.{Confined, open_pr-Confined}

abbrev answer : ℕ → Bytes → Option Response
answer status body =
    some (record { status = status; retry_after = []; rate_limit_remaining = []; body = body })

abbrev answers : Request → Option Response
answers (get_ref b) = answer 200 (codes "abc")
answers (get_contents p b) = answer 200 (codes "[[org]]")
answers (create_ref b sha) = answer 422 (codes "Reference already exists")
answers (update_ref b sha) = answer 200 []
answers (put_contents p b content sha message) = answer 200 []
answers (create_pull title body head into) = answer 422 []
answers (list_pulls head into) = answer 200 (codes "/pull/7")

abbrev server : Github
server = record {
  reply = λ sent q n. answers q;
  sleeps = λ sent q n. true;
  decode_ref = λ body. some body;
  decode_contents =
      λ body. some (record { content = body; encoding = codes "base64"; sha = codes "def" });
  decode_pull = λ body. some body;
  decode_pulls = λ body. some (body ∷ []);
  base64_std_decode = λ s. some s;
  base64_std_encode = λ s. s;
}

abbrev config : Config
config = record {
  token = codes "t";
  base_branch = codes "main";
  seed_file_path = codes "orgs.toml";
}

abbrev sub : Submission
sub = record {
  public_id = codes "0190a1b2-c3d4";
  payload = record {
    name = codes "Riders";
    short_desc = [];
    website_url = [];
    contact_url = [];
    tags = [];
    region_slugs = [];
  };
  submitter_name = [];
  submitter_email = [];
  submitter_note = [];
  status = codes "approved";
  created_at = 1;
  processed_at = some 2;
  promotion_pr_url = [];
  promotion_error = [];
  rejection_reason = [];
}

abbrev toml : Toml
toml = record {
  calendar = λ t. record { year = 2026; month = 1; day = t };
  encode = λ entry. some entry.slug;
}

abbrev rfc3339 : ℕ → Bytes
rfc3339 t = t ∷ []

-- The branch is reset, and the lookup after the 422 finds the open pull request.
second_attempt :
    (process (λ e. codes "failed") ascii_only by_bytes server config toml rfc3339 9 sub []).1
    ≡ record { public_id = codes "0190a1b2-c3d4"; pr_url = codes "/pull/7"; pr_err = [] }
unfolding open_pr and_then proceed give decoded do_request do_get expect_status get_branch_sha
    get_file reset_branch create_branch process put_file persisted first_url find_open_pr found_pr
    existing_pr create_pr render_org_block derive_slug do_idempotent_request contains bytes_eqb
    lower_byte submission_branch_name
second_attempt = refl

main_free : (suffix : Bytes) → config.base_branch ≢ codes "submission/" ++ suffix
main_free suffix e = cc

open_pr-Confined_example :
    All
      (Confined (codes "orgs.toml") (codes "main") (submission_branch_name (codes "0190a1b2-c3d4")))
      (open_pr ascii_only by_bytes server config toml rfc3339 9 sub []).0
open_pr-Confined_example =
    open_pr-Confined ascii_only by_bytes server config toml rfc3339 9 sub main_free
