-- ===== src/Http/RateLimit.antt =====
-- The sliding-window limiter of api/internal/httpapi/ratelimit.go. A time is a number of nanoseconds
-- since the zero time, and `now`, the clock's answer, is an argument. `t.After(now.Add(-window))` is
-- `now < t + window`. The lock makes `allow` and `full` atomic.
pub mod Window
pub mod Refine
pub mod Runs
pub mod Retry
pub mod Pending
pub mod Tests
use urbanist_atlas.Base.{
  ℕ, ◌+◌, ◌-◌, ◌*◌, ◌/◌, max, Bool, true, false, not, ◌&&◌, List, [], ◌∷◌, ◌++◌, map, Bytes,
  bytes_eq, ltb, leb, nat_eqb, length, select, Table, find_or, put, remove, if◌then◌else◌, ℤ, pos,
  negsuc, Option, none, some,
}

pub record IpRateLimiter : Type 0 where
  pub hits : Table Bytes (List ℕ)
  pub global : List ℕ
  pub window : ℕ
  pub max_per_win : ℕ
  pub global_max : ℕ
  pub last_swept : ℕ
  pub sweep_every : ℕ

-- 10⁹ nanoseconds
abbrev pub second : ℕ
second = 1000000000

abbrev pub rate_limit_window : ℕ
rate_limit_window = 3600 * second

abbrev pub submissions_global_per_window : ℕ
submissions_global_per_window = 30

abbrev pub rate_limit_sweep_interval : ℕ
rate_limit_sweep_interval = 300 * second

-- The value of an option, or its default where it is not positive.
unfoldable pub positive_or : ℤ → ℕ → ℕ
positive_or (negsuc n) d = d
positive_or (pos n) d = if nat_eqb n 0 then d else n

unfoldable pub new_ip_rate_limiter : ℤ → ℤ → IpRateLimiter
unfolding positive_or
new_ip_rate_limiter max_per_window window = record {
  hits = [];
  global = [];
  window = positive_or window rate_limit_window;
  max_per_win = positive_or max_per_window 5;
  global_max = submissions_global_per_window;
  last_swept = 0;
  sweep_every = rate_limit_sweep_interval;
}

-- `t` lies in the window that ends at `now`.
abbrev pub is_recent : ℕ → ℕ → ℕ → Bool
is_recent window now t = ltb now (t + window)

unfoldable pub keep_recent : ℕ → ℕ → List ℕ → List ℕ
keep_recent window now = select (is_recent window now)

-- The pruned list of a key, or no entry where it is empty.
unfoldable pub restore : Bytes → List ℕ → Table Bytes (List ℕ) → Table Bytes (List ℕ)
unfolding put remove
restore key [] hits = remove key hits
restore key (t ∷ ts) hits = put key (t ∷ ts) hits

-- One round of the sweep. `range` reads the entry of the key as it is then.
unfoldable pub sweep_key : ℕ → ℕ → Bytes → Table Bytes (List ℕ) → Table Bytes (List ℕ)
unfolding keep_recent find_or restore
sweep_key window now k hits = restore k (keep_recent window now (find_or k hits [])) hits

unfoldable pub sweep_keys : ℕ → ℕ → List Bytes → Table Bytes (List ℕ) → Table Bytes (List ℕ)
unfolding sweep_key
sweep_keys window now [] hits = hits
sweep_keys window now (k ∷ ks) hits = sweep_keys window now ks (sweep_key window now k hits)

unfoldable pub sweep : IpRateLimiter → ℕ → IpRateLimiter
unfolding sweep_keys
sweep l now =
    if ltb (l.last_swept + l.sweep_every) now
    then record l {
      hits = sweep_keys l.window now (map (λ e. e.0) l.hits) l.hits;
      last_swept = now;
    }
    else l

-- Whole seconds, rounded down, and at least 1. A negative duration gives 1 as well. The code divides as
-- float64, which rounds down to the same second for windows as short as the one of tuning.go.
unfoldable pub retry_after : ℕ → ℕ → ℕ → ℕ
retry_after window oldest now = max ((oldest + window - now) / second + 1) 1

-- `ts[0]` of a list that the code has tested to be long enough
unfoldable pub oldest_of : List ℕ → ℕ
oldest_of ts = elim ts [ [] ↦ 0 | t ∷ _ ↦ t ]

-- `allow` from the budgets on: `recent` and `global` are the pruned lists.
unfoldable pub decide_hit : IpRateLimiter → ℕ → Bytes → List ℕ → List ℕ → IpRateLimiter × Bool × ℕ
unfolding put restore retry_after oldest_of
decide_hit l now key recent global =
    if leb l.max_per_win (length recent)
    then (
      record l { hits = put key recent l.hits },
      false,
      retry_after l.window (oldest_of recent) now,
    )
    else if leb l.global_max (length global)
    then (
      record l { hits = restore key recent l.hits; global = global },
      false,
      retry_after l.window (oldest_of global) now,
    )
    else (
      record l { hits = put key (recent ++ now ∷ []) l.hits; global = global ++ now ∷ [] },
      true,
      0,
    )

unfoldable pub allow_key : IpRateLimiter → ℕ → Bytes → IpRateLimiter × Bool × ℕ
unfolding sweep keep_recent find_or decide_hit
allow_key l now key =
    let s = sweep l now in
    decide_hit s now key (keep_recent s.window now (find_or key s.hits []))
      (keep_recent s.window now s.global)

-- The part of net/netip that the limiter's keys go by.
pub record NetIp : Type 1 where
  pub Addr : Type 0
  pub parse_addr : Bytes → Option Addr
  pub unmap : Addr → Addr
  pub without_zone : Addr → Addr
  pub is4 : Addr → Bool
  pub to_string : Addr → Bytes
  pub prefix64_string : Addr → Bytes

unfoldable pub rate_limit_key : NetIp → Bytes → Bytes
rate_limit_key n ip = elim (n.parse_addr ip) [
  | none ↦ ip
  | some addr ↦
      let plain = n.without_zone (n.unmap addr) in
      if n.is4 plain then n.to_string plain else n.prefix64_string plain
]

unfoldable pub allow : NetIp → IpRateLimiter → ℕ → Bytes → IpRateLimiter × Bool × ℕ
unfolding allow_key rate_limit_key
allow n l now ip = allow_key l now (rate_limit_key n ip)

pub record PendingQueue : Type 0 where
  pub max_pending : ℕ
  pub checked_at : Option ℕ
  pub is_full : Bool

abbrev pub pending_queue_check_interval : ℕ
pending_queue_check_interval = 60 * second

abbrev pub pending_queue_retry_interval : ℕ
pending_queue_retry_interval = 5 * second

unfoldable pub new_pending_queue : ℕ → PendingQueue
new_pending_queue max_pending = record {
  max_pending = max_pending;
  checked_at = none;
  is_full = false;
}

-- The cached answer still stands.
unfoldable pub is_fresh : PendingQueue → ℕ → Bool
is_fresh q now = elim q.checked_at [
  | none ↦ false
  | some at ↦ ltb now (at + pending_queue_check_interval)
]

-- What List answers: the number of items, or an error. It is asked only where the answer is stale.
unfoldable pub refresh : PendingQueue → ℕ → Option ℕ → PendingQueue
refresh q now none = record q {
  checked_at = some (now + pending_queue_retry_interval - pending_queue_check_interval);
}
refresh q now (some items) = record q { is_full = leb q.max_pending items; checked_at = some now }

unfoldable pub full : PendingQueue → ℕ → Option ℕ → PendingQueue × Bool
unfolding is_fresh refresh
full q now listed =
    if is_fresh q now then (q, q.is_full) else let q' = refresh q now listed in (q', q'.is_full)
