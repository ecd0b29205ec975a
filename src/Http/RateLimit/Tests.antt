-- ===== src/Http/RateLimit/Tests.antt =====
-- A limiter of two requests an hour for each client, and a run of five requests.
use urbanist_atlas.Base.{◌*◌, ◌≡◌, refl, true, false, [], ◌∷◌, arith, codes, pos, bytes_eqb}
use urbanist_atlas.Http.RateLimit.{new_ip_rate_limiter, second, allow_key}
use urbanist_atlas.Base.{◌+◌, ◌≤◌, some, false}
use urbanist_atlas.Http.RateLimit.{
  retry_after, is_recent, rate_limit_window, new_pending_queue, is_fresh, full,
}
use urbanist_atlas.Base.{◌/◌}
use urbanist_atlas.Http.RateLimit.Retry.{retry_after-frees}
use urbanist_atlas.Http.RateLimit.Pending.{full-stands}
use urbanist_atlas.Http.RateLimit.Runs.{Requests, decisions, log_decisions, decisions-log_decisions}

abbrev flood : Requests
flood =
    (10 * second, codes "a")
    ∷ (11 * second, codes "a")
    ∷ (11 * second, codes "b")
    ∷ (12 * second, codes "a")
    ∷ (3611 * second, codes "a")
    ∷ []

flood-decisions :
    decisions (new_ip_rate_limiter (pos 2) (pos 0)) flood ≡ true ∷ true ∷ true ∷ false ∷ true ∷ []
unfolding decisions new_ip_rate_limiter bytes_eqb allow_key
flood-decisions = refl

decisions-log_decisions_example :
    decisions (new_ip_rate_limiter (pos 2) (pos 0)) flood
    ≡ log_decisions (new_ip_rate_limiter (pos 2) (pos 0)) [] flood
decisions-log_decisions_example = decisions-log_decisions (pos 2) (pos 0) flood (omega arith)

-- An hour's window, half an hour after the hit.
retry_after-frees_example :
    (is_recent rate_limit_window
        (1900 * second + retry_after rate_limit_window (100 * second) (1900 * second) * second)
        (100 * second)
      ≡ false)
    × (1 ≤ retry_after rate_limit_window (100 * second) (1900 * second))
    × (retry_after rate_limit_window (100 * second) (1900 * second)
        ≤ rate_limit_window / second + 1)
retry_after-frees_example =
    retry_after-frees rate_limit_window (100 * second) (1900 * second) (omega arith)

never_asked : is_fresh (new_pending_queue 200) (100 * second) ≡ false
unfolding is_fresh new_pending_queue
never_asked = refl

-- The queue is full, and is not asked again half a minute later.
full-stands_example :
    full (full (new_pending_queue 200) (100 * second) (some 200)).0 (130 * second) (some 3)
    ≡ full (new_pending_queue 200) (100 * second) (some 200)
full-stands_example =
    full-stands (new_pending_queue 200) (100 * second) (130 * second) (some 200) (some 3)
      (omega arith) never_asked (omega arith)
