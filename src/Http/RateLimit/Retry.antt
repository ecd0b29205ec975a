-- ===== src/Http/RateLimit/Retry.antt =====
-- What the Retry-After answer promises.
use urbanist_atlas.Base.{ℕ, ◌+◌, ◌*◌, ◌/◌, ◌≤◌, ◌≡◌, false, arith}
use urbanist_atlas.Http.RateLimit.{second, retry_after, is_recent}

-- After the answered number of seconds the hit has left the window, and the answer is at least one and at
-- most one more than the window's seconds, for a hit that is not in the future.
pub retry_after-frees :
    (window oldest now : ℕ)
    → oldest ≤ now
    → (is_recent window (now + retry_after window oldest now * second) oldest ≡ false)
      × (1 ≤ retry_after window oldest now)
      × (retry_after window oldest now ≤ window / second + 1)
unfolding retry_after
retry_after-frees window oldest now h = (ground arith, omega arith, omega arith)
