-- ===== src/Promotion/Queue/Shapes.antt =====
-- The outcomes of each step of the queue.
use urbanist_atlas.Base.{
  ◌≡◌, ◌≢◌, true, refl, inl, inr, Bool-cases, Option-cases, List-cases, ◌⊎◌, List, [], ◌∷◌, ◌++◌,
  none, some, arith,
}
use urbanist_atlas.Promotion.Queue.{
  RunState, looping, draining, returned, EnqueueError, Worker, enqueue, receive, finish, cancel,
  drop_one, in_flight, report_inflight,
}

run-cases : (r : RunState) → (r ≡ looping) ⊎ (r ≡ draining) ⊎ (r ≡ returned)
run-cases looping = inl refl
run-cases draining = inr (inl refl)
run-cases returned = inr (inr refl)

module _ {Job : Type 0} (w : Worker Job) where
  pub enqueue-shape :
      (job : Job)
      → (((enqueue w job).0 ≡ w) × ((e : EnqueueError) × ((enqueue w job).1 ≡ some e)))
        ⊎ (enqueue w job ≡ (record w { jobs = w.jobs ++ job ∷ [] }, none))
  unfolding enqueue
  enqueue-shape job = ground arith

  pub receive-shape :
      (receive w ≡ w)
      ⊎ ((w.inflight ≡ none) × (w.jobs ≡ []) × (receive w ≡ record w { run = returned }))
      ⊎ ((job : Job) × (rest : List Job) × (w.inflight ≡ none)
          × (w.jobs ≡ job ∷ rest)
          × (receive w ≡ record w { jobs = rest; inflight = some job }))
  unfolding receive
  receive-shape = elim (Option-cases w.inflight) [
    | inr (job, e) ↦ inl (ground arith)
    | inl e ↦ elim (List-cases w.jobs) [
      | inr (job, rest, j) ↦ elim (run-cases w.run) [
        | inl l ↦ inr (inr (job, rest, e, j, ground arith))
        | inr (inl d) ↦ inr (inr (job, rest, e, j, ground arith))
        | inr (inr r) ↦ inl (ground arith)
      ]
      | inl j ↦ elim (run-cases w.run) [
        | inl l ↦ elim (Bool-cases w.stopped) [
          | inl s ↦ inr (inl (e, j, ground arith))
          | inr s ↦ inl (ground arith)
        ]
        | inr (inl d) ↦ inr (inl (e, j, ground arith))
        | inr (inr r) ↦ inl (ground arith)
      ]
    ]
  ]

  pub finish-shape :
      (finish w ≡ w)
      ⊎ ((job : Job) × (w.inflight ≡ some job)
          × (finish w ≡ record w { inflight = none; processed = w.processed ++ job ∷ [] }))
  unfolding finish
  finish-shape = elim (Option-cases w.inflight) [
    | inl e ↦ inl (ground arith)
    | inr (job, e) ↦ inr (job, e, ground arith)
  ]

  pub cancel-shape : (cancel w ≡ w) ⊎ ((w.run ≡ looping) × (cancel w ≡ record w { run = draining }))
  unfolding cancel
  cancel-shape = elim (Option-cases w.inflight) [
    | inr (job, e) ↦ inl (ground arith)
    | inl e ↦ elim (run-cases w.run) [
      | inl l ↦ inr (l, ground arith)
      | inr (inl d) ↦ inl (ground arith)
      | inr (inr r) ↦ inl (ground arith)
    ]
  ]

  pub drop_one-shape :
      (drop_one w ≡ w)
      ⊎ ((job : Job) × (rest : List Job) × (w.jobs ≡ job ∷ rest)
          × (drop_one w ≡ record w {
            jobs = rest;
            dropped = w.dropped ++ job ∷ [];
            reported = w.reported ++ job ∷ [];
          }))
  unfolding drop_one
  drop_one-shape = elim (List-cases w.jobs) [
    | inl j ↦ inl (ground arith)
    | inr (job, rest, j) ↦ elim (Bool-cases w.stopped) [
      | inl s ↦ inr (job, rest, j, ground arith)
      | inr s ↦ inl (ground arith)
    ]
  ]

  pub report_inflight-shape :
      (report_inflight w ≡ w)
      ⊎ ((inflight : List Job) × (report_inflight w
            ≡ record w { reported = w.reported ++ inflight }))
  unfolding report_inflight
  report_inflight-shape = elim (Bool-cases w.stopped) [
    | inl s ↦ inr (in_flight w.inflight, rw (report_inflight, s) refl)
    | inr s ↦ inl (rw (report_inflight, s) refl)
  ]

  -- Run can go on after a Stop.
  pub receive-advances :
      w.stopped ≡ true
      → w.inflight ≡ none
      → w.run ≢ returned
      → ((w.jobs ≡ []) × (receive w ≡ record w { run = returned }))
        ⊎ ((job : Job) × (rest : List Job) × (w.jobs ≡ job ∷ rest)
            × (receive w ≡ record w { jobs = rest; inflight = some job }))
  unfolding receive
  receive-advances s e running = elim (run-cases w.run) [
    | inr (inr r) ↦ absurd (running r)
    | inl l ↦ elim (List-cases w.jobs) [
      | inl j ↦ inl (j, ground arith)
      | inr (job, rest, j) ↦ inr (job, rest, j, ground arith)
    ]
    | inr (inl d) ↦ elim (List-cases w.jobs) [
      | inl j ↦ inl (j, ground arith)
      | inr (job, rest, j) ↦ inr (job, rest, j, ground arith)
    ]
  ]
