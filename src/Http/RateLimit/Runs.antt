-- ===== src/Http/RateLimit/Runs.antt =====
-- The limiter over a sequence of requests.
use urbanist_atlas.Base.{
  ℕ, ◌≤◌, ◌≡◌, refl, ap, ◌∙◌, Bool, List, [], ◌∷◌, ◌++◌, length, select, Bytes, bytes_eq, subst,
  if◌then◌else◌, ℤ, find_or, find, ap₂,
}
use urbanist_atlas.Http.RateLimit.{IpRateLimiter, is_recent, new_ip_rate_limiter, sweep, allow_key}
use urbanist_atlas.Http.RateLimit.Refine.{
  Log, times_of, all_times, admits, extend, Agrees, allow_key-admits, allow_key-config,
  admits-sweep,
}

-- Times and clients.
abbrev pub Requests : Type 0
Requests = List (ℕ × Bytes)

-- The clock does not go back.
abbrev pub Ordered : ℕ → Requests → Type 0
Ordered before [] = Unit {0}
Ordered before ((now, k) ∷ rs) = (before ≤ now) × Ordered now rs

unfoldable pub decisions : IpRateLimiter → Requests → List Bool
decisions l [] = []
decisions l ((now, k) ∷ rs) = let next = allow_key l now k in next.1 ∷ decisions next.0 rs

-- The same by the log alone.
unfoldable pub log_decisions : IpRateLimiter → Log → Requests → List Bool
log_decisions l log [] = []
log_decisions l log ((now, k) ∷ rs) = admits l log now k ∷ log_decisions l (extend l log now k) rs

-- The accepted requests of a run.
unfoldable pub accepted : IpRateLimiter → Requests → Log
accepted l [] = []
accepted l ((now, k) ∷ rs) =
    let next = allow_key l now k in
    let rest = accepted next.0 rs in if next.1 then (k, now) ∷ rest else rest

-- Behind `acc`, each accepted request is within both budgets, itself included.
abbrev pub Within : IpRateLimiter → Log → Log → Type 0
Within l acc [] = Unit {0}
Within l acc ((k, t) ∷ log) =
    (length (select (is_recent l.window t) (times_of k (acc ++ (k, t) ∷ []))) ≤ l.max_per_win)
    × (length (select (is_recent l.window t) (all_times (acc ++ (k, t) ∷ []))) ≤ l.global_max)
    × Within l (acc ++ (k, t) ∷ []) log

abbrev SameConfig : IpRateLimiter → IpRateLimiter → Type 0
SameConfig l m =
    (m.window ≡ l.window) × (m.max_per_win ≡ l.max_per_win) × (m.global_max ≡ l.global_max)

admits-config :
    (l m : IpRateLimiter) (log : Log) (now : ℕ) (k : Bytes)
    → SameConfig l m
    → admits m log now k ≡ admits l log now k
unfolding admits
admits-config l m log now k (w, p, g) = rw (w, p, g) refl

extend-config :
    (l m : IpRateLimiter) (log : Log) (now : ℕ) (k : Bytes)
    → SameConfig l m
    → extend m log now k ≡ extend l log now k
unfolding extend
extend-config l m log now k c = rw (admits-config l m log now k c) refl

log_decisions-config :
    (l m : IpRateLimiter) (log : Log) (rs : Requests)
    → SameConfig l m
    → log_decisions m log rs ≡ log_decisions l log rs
unfolding log_decisions
log_decisions-config l m log [] c = refl
log_decisions-config l m log ((now, k) ∷ rs) c =
    rw (admits-config l m log now k c, extend-config l m log now k c)
      (ap (◌∷◌ (admits l log now k)) (log_decisions-config l m (extend l log now k) rs c))

extend-sweep :
    (l : IpRateLimiter) (log : Log) (now : ℕ) (k : Bytes)
    → extend (sweep l now) log now k ≡ extend l log now k
unfolding extend
extend-sweep l log now k = rw (admits-sweep l log now k) refl

decisions-log :
    (l : IpRateLimiter) (log : Log) (before : ℕ) (rs : Requests)
    → Ordered before rs
    → Agrees l log before
    → decisions l rs ≡ log_decisions l log rs
unfolding decisions log_decisions
decisions-log l log before [] o a = refl
decisions-log l log before ((now, k) ∷ rs) o a =
    let (decided, agrees) = allow_key-admits l log before now k o.0 a in
    let next = (allow_key l now k).0 in
    ap₂ ◌∷◌ (decided ∙ admits-sweep l log now k) (
      decisions-log next (extend l log now k) now rs o.1
        (subst (λ g. Agrees next g now) (extend-sweep l log now k) agrees)
      ∙ log_decisions-config l next (extend l log now k) rs (allow_key-config l now k))

new-Agrees : (m w : ℤ) → Agrees (new_ip_rate_limiter m w) [] 0
unfolding new_ip_rate_limiter find_or find
new-Agrees m w = record { each = λ k later g. refl; shared = λ later g. refl }

-- On requests in the order of the clock, a new limiter decides exactly as the log of all accepted
-- requests does: its pruning and its sweeps change no answer.
pub decisions-log_decisions :
    (max_per_window window : ℤ) (rs : Requests)
    → Ordered 0 rs
    → decisions (new_ip_rate_limiter max_per_window window) rs
      ≡ log_decisions (new_ip_rate_limiter max_per_window window) [] rs
decisions-log_decisions m w rs o =
    decisions-log (new_ip_rate_limiter m w) [] 0 rs o (new-Agrees m w)
