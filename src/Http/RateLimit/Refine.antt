-- ===== src/Http/RateLimit/Refine.antt =====
-- The limiter against a log of all accepted requests, from which nothing is ever pruned.
use urbanist_atlas.Base.{
  ℕ, ◌+◌, ◌≤◌, ◌≡◌, refl, ap, ◌∙◌, inl, inr, Bool, true, false, List, [], ◌∷◌, ◌++◌, arith, ltb,
  leb, length, select, ◌==◌, Bytes, bytes_eq, bytes_eqb_iff, find_or, Bool-cases, if◌then◌else◌,
  map, append-nil,
}
use urbanist_atlas.Http.RateLimit.{
  IpRateLimiter, is_recent, keep_recent, sweep, decide_hit, allow_key,
}
use urbanist_atlas.Http.RateLimit.Window.{
  select-keep_recent, select-append, window_of, window_of-put, window_of-restore,
  window_of-sweep_keys,
}

-- The accepted requests, oldest first.
abbrev pub Log : Type 0
Log = List (Bytes × ℕ)

abbrev pub times_of : Bytes → Log → List ℕ
times_of k [] = []
times_of k ((j, t) ∷ log) = let rest = times_of k log in if j == k then t ∷ rest else rest

abbrev pub all_times : Log → List ℕ
all_times [] = []
all_times ((j, t) ∷ log) = t ∷ all_times log

-- A request is accepted while both windows that end at its time have room.
unfoldable pub admits : IpRateLimiter → Log → ℕ → Bytes → Bool
admits l log now k =
    if leb l.max_per_win (length (select (is_recent l.window now) (times_of k log)))
    then false
    else if leb l.global_max (length (select (is_recent l.window now) (all_times log)))
    then false
    else true

unfoldable pub extend : IpRateLimiter → Log → ℕ → Bytes → Log
unfolding admits
extend l log now k = if admits l log now k then log ++ (k, now) ∷ [] else log

-- Every window of the limiter that ends at `now` or later is that of the log.
pub record Agrees (l : IpRateLimiter) (log : Log) (now : ℕ) : Type 0 where
  pub each :
      (k : Bytes) (later : ℕ)
      → now ≤ later
      → window_of l.window later k l.hits ≡ select (is_recent l.window later) (times_of k log)
  pub shared :
      (later : ℕ)
      → now ≤ later
      → select (is_recent l.window later) l.global
        ≡ select (is_recent l.window later) (all_times log)

sweep-Agrees :
    (l : IpRateLimiter) (log : Log) (before now : ℕ)
    → before ≤ now
    → Agrees l log before
    → Agrees (sweep l now) log now
unfolding sweep
sweep-Agrees l log before now h a = elim (Bool-cases (ltb (l.last_swept + l.sweep_every) now)) [
  | inl due ↦
      rw (due, sweep)
        (record {
          each = λ k later g.
              window_of-sweep_keys l.window now later g k (map (λ e. e.0) l.hits) l.hits
              ∙ a.each k later (omega arith);
          shared = λ later g. a.shared later (omega arith);
        })
  | inr early ↦
      rw (early, sweep)
        (record {
          each = λ k later g. a.each k later (omega arith);
          shared = λ later g. a.shared later (omega arith);
        })
]

pub times_of-append :
    (k j : Bytes) (t : ℕ) (log : Log)
    → times_of k (log ++ (j, t) ∷ []) ≡ times_of k log ++ (if j == k then t ∷ [] else [])
times_of-append k j t [] = refl
times_of-append k j t ((i, u) ∷ log) = ground (arith, times_of-append k j t log)

pub all_times-append :
    (j : Bytes) (t : ℕ) (log : Log) → all_times (log ++ (j, t) ∷ []) ≡ all_times log ++ t ∷ []
all_times-append j t [] = refl
all_times-append j t ((i, u) ∷ log) = ap (◌∷◌ u) (all_times-append j t log)

module _ (l : IpRateLimiter) (log : Log) (now : ℕ) (k : Bytes) (a : Agrees l log now) where
  abbrev recent : List ℕ
  recent = keep_recent l.window now (find_or k l.hits [])

  abbrev shared_recent : List ℕ
  shared_recent = keep_recent l.window now l.global

  length-recent : length recent ≡ length (select (is_recent l.window now) (times_of k log))
  unfolding keep_recent
  length-recent = ap length (a.each k now (omega arith))

  length-shared_recent :
      length shared_recent ≡ length (select (is_recent l.window now) (all_times log))
  unfolding keep_recent
  length-shared_recent = ap length (a.shared now (omega arith))

  decide_hit-admits : (decide_hit l now k recent shared_recent).1 ≡ admits l log now k
  unfolding decide_hit admits
  decide_hit-admits = ground (arith, length-recent, length-shared_recent)

  -- The pruned list of the client has the windows of the log.
  pruned :
      (later : ℕ)
      → now ≤ later
      → select (is_recent l.window later) recent
        ≡ select (is_recent l.window later) (times_of k log)
  pruned later g = select-keep_recent l.window now later (find_or k l.hits []) g ∙ a.each k later g

  each_kept :
      (j : Bytes) (later : ℕ)
      → now ≤ later
      → (if k == j
          then select (is_recent l.window later) recent
          else window_of l.window later j l.hits)
        ≡ select (is_recent l.window later) (times_of j log)
  each_kept j later g = elim (Bool-cases (k == j)) [
    | inl eq ↦ rw eq (
        pruned later g
        ∙ ap (λ i. select (is_recent l.window later) (times_of i log)) ((bytes_eqb_iff k j).0 eq))
    | inr ne ↦ rw ne (a.each j later g)
  ]

  each_added :
      (j : Bytes) (later : ℕ)
      → now ≤ later
      → (if k == j
          then select (is_recent l.window later) (recent ++ now ∷ [])
          else window_of l.window later j l.hits)
        ≡ select (is_recent l.window later) (times_of j (log ++ (k, now) ∷ []))
  each_added j later g = elim (Bool-cases (k == j)) [
    | inl eq ↦
        let same : k ≡ j = (bytes_eqb_iff k j).0 eq in
        rw (times_of-append, eq, select-append, select-append, pruned later g)
          (ap
            (λ i.
              select (is_recent l.window later) (times_of i log)
              ++ select (is_recent l.window later) (now ∷ []))
            same)
    | inr ne ↦ rw (times_of-append, ne, append-nil) (a.each j later g)
  ]

  shared_kept :
      (later : ℕ)
      → now ≤ later
      → select (is_recent l.window later) shared_recent
        ≡ select (is_recent l.window later) (all_times log)
  shared_kept later g = select-keep_recent l.window now later l.global g ∙ a.shared later g

  shared_added :
      (later : ℕ)
      → now ≤ later
      → select (is_recent l.window later) (shared_recent ++ now ∷ [])
        ≡ select (is_recent l.window later) (all_times (log ++ (k, now) ∷ []))
  shared_added later g =
      rw (all_times-append, select-append, select-append, shared_kept later g) refl

  decide_hit-Agrees : Agrees (decide_hit l now k recent shared_recent).0 (extend l log now k) now
  unfolding decide_hit extend admits
  decide_hit-Agrees =
      elim (Bool-cases
        (leb l.max_per_win (length (select (is_recent l.window now) (times_of k log))))) [
          | inl spent ↦
              rw (length-recent, spent, decide_hit, extend, admits)
                (record {
                  each = λ j later g.
                      window_of-put l.window later j k recent l.hits ∙ each_kept j later g;
                  shared = a.shared;
                })
          | inr room ↦
              elim (Bool-cases
                (leb l.global_max (length (select (is_recent l.window now) (all_times log))))) [
                  | inl spent ↦
                      rw
                        (
                          length-recent, room, length-shared_recent, spent, decide_hit, extend,
                          admits,
                        )
                        (record {
                          each = λ j later g.
                              window_of-restore l.window later j k recent l.hits
                              ∙ each_kept j later g;
                          shared = shared_kept;
                        })
                  | inr free ↦
                      rw
                        (
                          length-recent, room, length-shared_recent, free, decide_hit, extend,
                          admits,
                        )
                        (record {
                          each = λ j later g.
                              window_of-put l.window later j k (recent ++ now ∷ []) l.hits
                              ∙ each_added j later g;
                          shared = shared_added;
                        })
                ]
        ]

sweep-config :
    (l : IpRateLimiter) (now : ℕ)
    → ((sweep l now).window ≡ l.window)
      × ((sweep l now).max_per_win ≡ l.max_per_win)
      × ((sweep l now).global_max ≡ l.global_max)
unfolding sweep
sweep-config l now = ground arith

-- The limiter decides as the log does, and agrees with the log that results.
pub allow_key-admits :
    (l : IpRateLimiter) (log : Log) (before now : ℕ) (k : Bytes)
    → before ≤ now
    → Agrees l log before
    → ((allow_key l now k).1 ≡ admits (sweep l now) log now k)
      × Agrees (allow_key l now k).0 (extend (sweep l now) log now k) now
unfolding allow_key
allow_key-admits l log before now k h a =
    let swept = sweep-Agrees l log before now h a in
    (
      decide_hit-admits (sweep l now) log now k swept,
      decide_hit-Agrees (sweep l now) log now k swept,
    )

-- The window and the budgets never change.
pub allow_key-config :
    (l : IpRateLimiter) (now : ℕ) (k : Bytes)
    → ((allow_key l now k).0.window ≡ l.window)
      × ((allow_key l now k).0.max_per_win ≡ l.max_per_win)
      × ((allow_key l now k).0.global_max ≡ l.global_max)
unfolding allow_key decide_hit sweep
allow_key-config l now k = ground arith

pub admits-sweep :
    (l : IpRateLimiter) (log : Log) (now : ℕ) (k : Bytes)
    → admits (sweep l now) log now k ≡ admits l log now k
unfolding admits
admits-sweep l log now k = let (w, m, g) = sweep-config l now in rw (w, m, g) refl
