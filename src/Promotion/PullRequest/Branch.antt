-- ===== src/Promotion/PullRequest/Branch.antt =====
-- The requests of openPR and the branches, files and pull requests they may change.
use urbanist_atlas.Base.{
  ℕ, ◌≡◌, ◌≢◌, sym, codes, refl, Bool, true, false, List, [], ◌∷◌, ◌++◌, All, Bytes, bytes_eq,
  Unicode, if◌then◌else◌, Result, ok, err,
}
use urbanist_atlas.Sqlite.Submissions.{Submission}
use urbanist_atlas.Promotion.Text.{Fields, submission_branch_name, branch_suffix}
use urbanist_atlas.Promotion.PullRequest.{
  Request, get_ref, get_contents, create_ref, update_ref, put_contents, create_pull, list_pulls,
  Github, Config, Toml, PrError, Sending, proceed, and_then, found_pr, give, do_request, do_get,
  get_branch_sha, get_file, reset_branch, create_branch, put_file, find_open_pr, existing_pr,
  create_pr, open_pr,
}

-- A request changes at most the branch, which is not `base`, the file at `path` on it, and a pull request
-- from it into `base`.
pub Confined : (path base branch : Bytes) → Request → Type 0
Confined path base branch (get_ref b) = Unit
Confined path base branch (get_contents p b) = Unit
Confined path base branch (create_ref b sha) = (b ≡ branch) × (b ≢ base)
Confined path base branch (update_ref b sha) = (b ≡ branch) × (b ≢ base)
Confined path base branch (put_contents p b content sha message) =
    (p ≡ path) × (b ≡ branch) × (b ≢ base)
Confined path base branch (create_pull title body head into) = (head ≡ branch) × (into ≡ base)
Confined path base branch (list_pulls head into) = Unit

branch_apart :
    (base public_id : Bytes)
    → ((suffix : Bytes) → base ≢ codes "submission/" ++ suffix)
    → submission_branch_name public_id ≢ base
unfolding submission_branch_name
branch_apart base public_id free e = free (branch_suffix public_id) (sym e)

-- A part of the chain that sends only requests of `P`.
Sends : (Request → Type 0) → {A : Type 0} → Sending A → Type 0
Sends P op = (h : List Request) → All P h → All P (op h).0

All-snoc :
    (P : Request → Type 0) (h : List Request) (q : Request) → All P h → P q → All P (h ++ q ∷ [])
All-snoc P [] q a p = (p, tt)
All-snoc P (x ∷ h) q a p = (a.0, All-snoc P h q a.1 p)

module _ (P : Request → Type 0) where
  give-Sends : {A : Type 0} (r : Result PrError A) → Sends P (give r)
  unfolding Sends give
  give-Sends r h a = a

  and_then-Sends :
      {A B : Type 0} (first : Sending A) (next : A → Sending B)
      → Sends P first
      → ((x : A) → Sends P (next x))
      → Sends P (and_then first next)
  unfolding Sends and_then proceed
  and_then-Sends {A} {B} first next f n h a = at_result (first h) (f h a)
    where
      at_result : (r : List Request × Result PrError A) → All P r.0 → All P (proceed next r).0
      at_result (sent, err e) s = s
      at_result (sent, ok x) s = n x sent s

  do_request-Sends : (gh : Github) (q : Request) → P q → Sends P (do_request gh q)
  unfolding Sends do_request
  do_request-Sends gh q p h a = All-snoc P h q a p

  do_get-Sends : (u : Unicode) (gh : Github) (q : Request) → P q → Sends P (do_get u gh q)
  unfolding Sends do_get
  do_get-Sends u gh q p h a = All-snoc P h q a p

  existing_pr-Sends :
      (e : PrError) (lookup : Sending Bytes) → Sends P lookup → Sends P (existing_pr e lookup)
  unfolding Sends existing_pr found_pr
  existing_pr-Sends e lookup s h a = at_result (lookup h) (s h a)
    where
      at_result : (r : List Request × Result PrError Bytes) → All P r.0 → All P (found_pr e r).0
      at_result (sent, err x) s' = s'
      at_result (sent, ok url) s' = s'

  if-Sends :
      {A : Type 0} (c : Bool) (op other : Sending A)
      → Sends P op
      → Sends P other
      → Sends P (if c then op else other)
  if-Sends true op other y n = y
  if-Sends false op other y n = n

  get_branch_sha-Sends :
      (u : Unicode) (gh : Github) (b : Bytes) → P (get_ref b) → Sends P (get_branch_sha u gh b)
  unfolding get_branch_sha
  get_branch_sha-Sends u gh b p = and_then-Sends _ _ (do_get-Sends u gh _ p) (λ resp.
      and_then-Sends _ _ (give-Sends _)
        (λ good. and_then-Sends _ _ (give-Sends _) (λ sha. give-Sends _)))

  get_file-Sends :
      (u : Unicode) (gh : Github) (path b : Bytes)
      → P (get_contents path b)
      → Sends P (get_file u gh path b)
  unfolding get_file
  get_file-Sends u gh path b p = and_then-Sends _ _ (do_get-Sends u gh _ p) (λ resp.
      and_then-Sends _ _ (give-Sends _) (λ good. and_then-Sends _ _ (give-Sends _) (λ out.
        if-Sends _ _ _ (give-Sends _)
          (and_then-Sends _ _ (give-Sends _) (λ content. give-Sends _)))))

  create_branch-Sends :
      (u : Unicode) (gh : Github) (b sha : Bytes)
      → P (create_ref b sha)
      → P (update_ref b sha)
      → Sends P (create_branch u gh b sha)
  unfolding create_branch reset_branch
  create_branch-Sends u gh b sha p q = and_then-Sends _ _ (do_request-Sends gh _ p) (λ resp.
      if-Sends _ _ _ (give-Sends _) (
        if-Sends _ _ _
          (and_then-Sends _ _ (do_request-Sends gh _ q)
            (λ again. and_then-Sends _ _ (give-Sends _) (λ good. give-Sends _)))
          (give-Sends _)))

  put_file-Sends :
      (gh : Github) (path b content sha message : Bytes)
      → P (put_contents path b (gh.base64_std_encode content) sha message)
      → Sends P (put_file gh path b content sha message)
  unfolding put_file
  put_file-Sends gh path b content sha message p =
      and_then-Sends _ _ (do_request-Sends gh _ p)
        (λ resp. if-Sends _ _ _ (give-Sends _) (give-Sends _))

  find_open_pr-Sends :
      (u : Unicode) (gh : Github) (head base : Bytes)
      → P (list_pulls head base)
      → Sends P (find_open_pr u gh head base)
  unfolding find_open_pr
  find_open_pr-Sends u gh head base p = and_then-Sends _ _ (do_get-Sends u gh _ p) (λ resp.
      and_then-Sends _ _ (give-Sends _)
        (λ good. and_then-Sends _ _ (give-Sends _) (λ urls. give-Sends _)))

  create_pr-Sends :
      (u : Unicode) (gh : Github) (title body head base : Bytes)
      → P (create_pull title body head base)
      → P (list_pulls head base)
      → Sends P (create_pr u gh title body head base)
  unfolding create_pr
  create_pr-Sends u gh title body head base p q =
      and_then-Sends _ _ (do_request-Sends gh _ p) (λ resp.
        if-Sends _ _ _ (existing_pr-Sends _ _ (find_open_pr-Sends u gh head base q))
          (and_then-Sends _ _ (give-Sends _) (λ good. give-Sends _)))

-- If the configured base branch does not begin with "submission/", then each request that openPR sends
-- changes nothing but the branch of the submission, which is another one than the base branch, the seed
-- file on that branch, and a pull request from it into the base branch. This holds whatever the server
-- answers and wherever the chain stops.
pub open_pr-Confined :
    (u : Unicode) (fs : Fields) (gh : Github) (cfg : Config) (toml : Toml) (rfc3339 : ℕ → Bytes)
    (now : ℕ) (sub : Submission)
    → ((suffix : Bytes) → cfg.base_branch ≢ codes "submission/" ++ suffix)
    → All
        (Confined cfg.seed_file_path cfg.base_branch (submission_branch_name sub.public_id))
        (open_pr u fs gh cfg toml rfc3339 now sub []).0
unfolding open_pr Confined Sends
open_pr-Confined u fs gh cfg toml rfc3339 now sub free =
    let P = Confined cfg.seed_file_path cfg.base_branch (submission_branch_name sub.public_id) in
    let apart = branch_apart cfg.base_branch sub.public_id free in
    and_then-Sends P _ _ (get_branch_sha-Sends P u gh _ tt)
      (λ base_sha. and_then-Sends P _ _ (get_file-Sends P u gh _ _ tt) (λ existing.
        and_then-Sends P _ _ (give-Sends P _) (λ block.
          and_then-Sends P _ _ (create_branch-Sends P u gh _ _ (refl, apart) (refl, apart))
            (λ created.
              and_then-Sends P _ _ (put_file-Sends P gh _ _ _ _ _ (refl, refl, apart))
                (λ put. create_pr-Sends P u gh _ _ _ _ (refl, refl) tt)))))
      [] tt
