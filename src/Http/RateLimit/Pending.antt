-- ===== src/Http/RateLimit/Pending.antt =====
-- How long an answer of the pending queue stands.
use urbanist_atlas.Base.{ℕ, ◌+◌, ◌≤◌, ◌<◌, ◌≡◌, refl, true, false, Option, none, some, arith}
use urbanist_atlas.Http.RateLimit.{
  PendingQueue, pending_queue_check_interval, pending_queue_retry_interval, is_fresh, refresh, full,
}

-- How long an answer stands: a check interval, or a retry interval if the store failed.
abbrev pub stands_for : Option ℕ → ℕ
stands_for none = pending_queue_retry_interval
stands_for (some items) = pending_queue_check_interval

fresh_after :
    (q : PendingQueue) (now later : ℕ) (listed : Option ℕ)
    → pending_queue_check_interval ≤ now
    → later < now + stands_for listed
    → is_fresh (refresh q now listed) later ≡ true
unfolding is_fresh refresh
fresh_after q now later none h k = ground arith
fresh_after q now later (some items) h k = ground arith

full-stale :
    (q : PendingQueue) (now : ℕ) (listed : Option ℕ)
    → is_fresh q now ≡ false
    → full q now listed ≡ (refresh q now listed, (refresh q now listed).is_full)
unfolding full
full-stale q now listed h = rw (full, h) refl

-- At a time of at least one check interval, where the cached answer is stale: the answer that is given,
-- and the state, stay as they are for a check interval, or for a retry interval if the store failed,
-- whatever the store would answer meanwhile.
pub full-stands :
    (q : PendingQueue) (now later : ℕ) (listed meanwhile : Option ℕ)
    → pending_queue_check_interval ≤ now
    → is_fresh q now ≡ false
    → later < now + stands_for listed
    → full (full q now listed).0 later meanwhile ≡ full q now listed
unfolding full
full-stands q now later listed meanwhile h stale k =
    rw (full-stale q now listed stale, full, fresh_after q now later listed h k) refl
