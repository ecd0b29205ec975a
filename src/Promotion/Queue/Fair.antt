-- ===== src/Promotion/Queue/Fair.antt =====
-- Run after a Stop, on any schedule that gives it enough turns.
use urbanist_atlas.Base.{
  ℕ, zero, suc, ◌+◌, ◌*◌, ◌≤◌, ◌≡◌, ◌≢◌, sym, ap, subst, ◌∙◌, inl, inr, true, Bool, Option-cases,
  List-cases, List, [], ◌∷◌, ◌++◌, none, In, length, arith,
}
use urbanist_atlas.Promotion.Queue.{
  returned, Worker, in_flight, Event, receiving, finishing, do_event, do_events,
}
use urbanist_atlas.Promotion.Queue.Jobs.{tally, tally_all, tally_nil, idle-tally, do_events-tally}
use urbanist_atlas.Promotion.Queue.Calm.{
  alive, work, alive-cases, do_event-Calm, do_events-work, do_events-stopped, do_events-ended,
}
use urbanist_atlas.Promotion.Queue.Turns.{turns-advance, do_events-append, accepted-stopped}

-- The events fall into `n` stretches and a rest. In each stretch Run gets to a receive, and a process()
-- comes to its return; whatever else happens, and in which order, is open.
abbrev pub Rounds : {Job : Type 0} → ℕ → List (Event Job) → Type 0
Rounds {Job} zero es = Unit
Rounds {Job} (suc n) es =
    (stretch : List (Event Job)) × (rest : List (Event Job)) × (es ≡ stretch ++ rest)
    × In receiving stretch
    × In finishing stretch
    × Rounds n rest

module _ {Job : Type 0} where
  alive-stays :
      (w : Worker Job) (es : List (Event Job))
      → w.stopped ≡ true
      → alive w.run ≡ 0
      → alive (do_events w es).run ≡ 0
  unfolding do_events work
  alive-stays w [] s a = a
  alive-stays w (e ∷ es) s a =
      let calm = do_event-Calm w e s in
      alive-stays (do_event w e) es calm.stopped
        (elim calm.ended [ inl z ↦ omega arith | inr same ↦ same ∙ a ])

  work-alive : (w : Worker Job) → alive w.run ≤ work w
  unfolding work
  work-alive w = omega arith

  alive_left :
      (n : ℕ) (w : Worker Job) (es : List (Event Job))
      → w.stopped ≡ true
      → work w ≤ n
      → Rounds n es
      → alive (do_events w es).run ≡ 0
  alive_left zero w es s h r =
      let less = do_events-work w es s in let few = work-alive (do_events w es) in omega arith
  alive_left (suc n) w es s h (stretch, rest, e, receives, finishes, r) = elim (alive-cases w.run) [
    | inl (ended, a) ↦ alive-stays w es s a
    | inr (running, a) ↦
        let less = turns-advance w stretch s a receives finishes in
        subst (λ v. alive v.run ≡ 0) (sym (ap (do_events w) e ∙ do_events-append w stretch rest))
          (alive_left n (do_events w stretch) rest (do_events-stopped w stretch s) (omega arith) r)
  ]

  few_steps : (w : Worker Job) → work w ≤ 2 * length w.jobs + 2
  unfolding work
  few_steps w = elim (Option-cases w.inflight) [
    | inl e ↦
        let flying : length (in_flight w.inflight) ≡ 0 = ap (λ o. length (in_flight o)) e in
        elim (alive-cases w.run) [ inl (r, a) ↦ omega arith | inr (r, a) ↦ omega arith ]
    | inr (job, e) ↦
        let flying : length (in_flight w.inflight) ≡ 1 = ap (λ o. length (in_flight o)) e in
        elim (alive-cases w.run) [ inl (r, a) ↦ omega arith | inr (r, a) ↦ omega arith ]
  ]

  idle-work :
      (w : Worker Job) → work w ≡ 0 → (w.jobs ≡ []) × (w.inflight ≡ none) × (w.run ≡ returned)
  unfolding work
  idle-work w z = (
    elim (List-cases w.jobs) [
      | inl j ↦ j
      | inr (job, rest, j) ↦
          let size : length w.jobs ≡ suc (length rest) = ap length j in absurd (omega arith)
    ],
    elim (Option-cases w.inflight) [
      | inl e ↦ e
      | inr (job, e) ↦
          let flying : length (in_flight w.inflight) ≡ 1 = ap (λ o. length (in_flight o)) e in
          absurd (omega arith)
    ],
    elim (alive-cases w.run) [ inl (r, a) ↦ r | inr (r, a) ↦ absurd (omega arith) ],
  )

  -- Take a worker that a Stop has closed and whose Run has not returned, and any further events, among
  -- them new jobs, the end of Run's context and Stops that give up. If Run gets enough turns among them,
  -- that is, two stretches for each job in the buffer and two more, in each of which it gets to a receive
  -- and a process(), if one is running, comes to its return, then Run has returned in the end, the buffer
  -- is empty and nothing is in flight. For any test on jobs, there are then as many processed jobs, and
  -- jobs taken out by a Stop that gave up, that pass it as there were jobs at the start that pass it:
  -- processed or taken out before, in flight, or in the buffer.
  pub do_events-Rounds :
      (w : Worker Job) (es : List (Event Job))
      → w.stopped ≡ true
      → w.run ≢ returned
      → Rounds (2 * length w.jobs + 2) es
      → ((do_events w es).run ≡ returned)
        × ((do_events w es).jobs ≡ [])
        × ((do_events w es).inflight ≡ none)
        × ((p : Job → Bool)
            → tally p (do_events w es).processed + tally p (do_events w es).dropped ≡ tally_all p w)
  do_events-Rounds w es s running r =
      let a = alive_left (2 * length w.jobs + 2) w es s (few_steps w) r in
      let ended =
        do_events-ended w es s
          (λ z. elim (alive-cases w.run) [
            | inl (e, k) ↦ absurd (running e)
            | inr (e, k) ↦ omega arith
          ])
          a in
      let (empty, quiet, over) = idle-work (do_events w es) ended in
      (
        over,
        empty,
        quiet,
        λ p.
            let still = idle-tally p (do_events w es) quiet empty in
            let count = do_events-tally p w es in
            let none_new = ap (tally p) (accepted-stopped w es s) in
            let zero_new = tally_nil p in omega arith,
      )
