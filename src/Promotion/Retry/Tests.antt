-- ===== src/Promotion/Retry/Tests.antt =====
-- Two answers of 503 and then one of 200; a 403 without the marks of a rate limit.
use urbanist_atlas.Base.{
  ℕ, ◌≡◌, refl, Bool, true, [], ◌∷◌, Option, some, leb, if◌then◌else◌, bytes_eqb, lower_byte,
  ascii_only,
}
use urbanist_atlas.Promotion.Retry.{Response, retry_max_attempts, responded, do_idempotent_request}
use urbanist_atlas.Promotion.Retry.Bounded.{Bounded, do_idempotent_request-Bounded}

abbrev answer : ℕ → Response
answer status = record { status = status; retry_after = []; rate_limit_remaining = []; body = [] }

abbrev busy_twice : ℕ → Option Response
busy_twice n = if leb n 2 then some (answer 503) else some (answer 200)

abbrev uncut : ℕ → Bool
uncut n = true

third_time :
    do_idempotent_request ascii_only busy_twice uncut
    ≡ record { outcome = responded (answer 200); sent = 3; waits = 250 ∷ 500 ∷ [] }
unfolding do_idempotent_request bytes_eqb lower_byte
third_time = refl

forbidden :
    do_idempotent_request ascii_only (λ n. some (answer 403)) uncut
    ≡ record { outcome = responded (answer 403); sent = 1; waits = [] }
unfolding do_idempotent_request bytes_eqb lower_byte
forbidden = refl

always_busy :
    (do_idempotent_request ascii_only (λ n. some (answer 503)) uncut).waits ≡ 250 ∷ 500 ∷ 1000 ∷ []
unfolding do_idempotent_request bytes_eqb lower_byte
always_busy = refl

do_idempotent_request-Bounded_example :
    Bounded ascii_only busy_twice retry_max_attempts
      (do_idempotent_request ascii_only busy_twice uncut)
do_idempotent_request-Bounded_example = do_idempotent_request-Bounded ascii_only busy_twice uncut
