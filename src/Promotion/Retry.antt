-- ===== src/Promotion/Retry.antt =====
-- doIdempotentRequest of api/internal/githubpr/worker.go. `server` gives the response to each attempt,
-- or none where the request fails; `sleeps` tells whether the wait after an attempt is not cut off.
pub mod Bounded
pub mod Tests
use urbanist_atlas.Base.{
  ℕ, zero, suc, ◌+◌, ◌-◌, ◌*◌, ◌^◌, Bool, true, false, not, ◌||◌, List, [], ◌∷◌, ◌++◌, Option, none,
  some, Bytes, bytes_eq, ◌==◌, codes, nat_eqb, leb, Unicode, contains, take, if◌then◌else◌,
}

pub record Response : Type 0 where
  pub status : ℕ
  pub retry_after : Bytes
  pub rate_limit_remaining : Bytes
  pub body : Bytes

unfoldable pub retryable_status : ℕ → Bool
retryable_status status = nat_eqb status 429 || nat_eqb status 502 || nat_eqb status 503

unfoldable pub is_secondary_rate_limit : Unicode → Response → Bytes → Bool
unfolding contains
is_secondary_rate_limit u resp body =
    if not (nat_eqb resp.status 403)
    then false
    else if not (resp.retry_after == [])
    then true
    else if resp.rate_limit_remaining == codes "0"
    then true
    else contains (u.to_lower body) (codes "rate limit")

-- What is kept of the body of a 403, and of any body that an error quotes.
abbrev pub max_body : ℕ
max_body = 4096

-- Whether the response is one to retry; a 403 is judged by its buffered body.
unfoldable pub is_retryable : Unicode → Response → Bool
unfolding retryable_status is_secondary_rate_limit
is_retryable u resp =
    if nat_eqb resp.status 403
    then is_secondary_rate_limit u resp (take max_body resp.body)
    else retryable_status resp.status

-- The response that the caller reads: the body of a 403 has been buffered.
unfoldable pub buffered : Response → Response
buffered resp =
    if nat_eqb resp.status 403 then record resp { body = take max_body resp.body } else resp

abbrev pub retry_max_attempts : ℕ
retry_max_attempts = 4

-- In milliseconds.
abbrev pub retry_base_backoff : ℕ
retry_base_backoff = 250

pub data Outcome : Type 0 where
  responded : Response → Outcome
  request_failed interrupted out_of_fuel : Outcome

-- How the loop ends, the number of requests sent, and the waits between them.
pub record Attempts : Type 0 where
  pub outcome : Outcome
  pub sent : ℕ
  pub waits : List ℕ

unfoldable pub attempt_loop : Unicode → (ℕ → Option Response) → (ℕ → Bool) → ℕ → ℕ → Attempts
unfolding is_retryable buffered
attempt_loop u server sleeps zero attempt = record { outcome = out_of_fuel; sent = 0; waits = [] }
attempt_loop u server sleeps (suc fuel) attempt =
    let more = attempt_loop u server sleeps fuel (attempt + 1) in
    let backoff = retry_base_backoff * 2 ^ (attempt - 1) in
    elim (server attempt) [
      | none ↦ record { outcome = request_failed; sent = 1; waits = [] }
      | some resp ↦
          if not (is_retryable u resp) || leb retry_max_attempts attempt
          then record { outcome = responded (buffered resp); sent = 1; waits = [] }
          else if sleeps attempt
          then record { outcome = more.outcome; sent = suc more.sent; waits = backoff ∷ more.waits }
          else record { outcome = interrupted; sent = 1; waits = backoff ∷ [] }
    ]

unfoldable pub do_idempotent_request : Unicode → (ℕ → Option Response) → (ℕ → Bool) → Attempts
unfolding attempt_loop
do_idempotent_request u server sleeps = attempt_loop u server sleeps retry_max_attempts 1
