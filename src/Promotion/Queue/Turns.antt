-- ===== src/Promotion/Queue/Turns.antt =====
-- The turns of Run after a Stop.
use urbanist_atlas.Base.{
  suc, ◌+◌, ◌*◌, ◌<◌, ◌≡◌, ◌≢◌, refl, sym, ap, subst, ◌∙◌, inl, inr, true, Option-cases, List, [],
  ◌∷◌, ◌++◌, Option, none, some, In, length, arith,
}
use urbanist_atlas.Promotion.Queue.{
  returned, Worker, enqueue, receive, finish, in_flight, Event, enqueueing, receiving, finishing,
  canceling, stopping, reporting, dropping, do_event, do_events, accepted,
}
use urbanist_atlas.Promotion.Queue.Shapes.{receive-advances}
use urbanist_atlas.Promotion.Queue.Calm.{
  alive, work, alive-returned, enqueue-refused, do_event-Calm, do_events-work,
}

module _ {Job : Type 0} where
  -- An event that advances wherever Run stands as it does in `w` is among `es`.
  module _ (turn : Event Job) (flight : Option Job)
      (advance : (w : Worker Job)
        → w.stopped ≡ true
        → w.inflight ≡ flight
        → alive w.run ≡ 1
        → work (do_event w turn) < work w) where
    do_events-advance :
        (w : Worker Job) (es : List (Event Job))
        → w.stopped ≡ true
        → w.inflight ≡ flight
        → alive w.run ≡ 1
        → In turn es
        → work (do_events w es) < work w
    unfolding do_events
    do_events-advance w (e ∷ es) s i a (inl same) =
        let head = advance w s i a in
        let now : work (do_event w e) < work w =
          subst (λ x. work (do_event w x) < work w) same head in
        let later = do_events-work (do_event w e) es (do_event-Calm w e s).stopped in omega arith
    do_events-advance w (e ∷ es) s i a (inr m) =
        let calm = do_event-Calm w e s in
        elim calm.less [
          | inl less ↦ let later = do_events-work (do_event w e) es calm.stopped in omega arith
          | inr (eq, j, b) ↦
              let later = do_events-advance (do_event w e) es calm.stopped (j ∙ i) (b ∙ a) m in
              omega arith
        ]
    do_events-advance w [] s i a m = elim m [ ]

  receive-advance :
      (w : Worker Job)
      → w.stopped ≡ true
      → w.inflight ≡ none
      → alive w.run ≡ 1
      → work (receive w) < work w
  unfolding work
  receive-advance w s i a =
      let flying : length (in_flight w.inflight) ≡ 0 = ap (λ o. length (in_flight o)) i in
      let gone = alive-returned in
      let running : w.run ≢ returned = λ r. let now = ap alive r in omega arith in
      elim (receive-advances w s i running) [
        | inl (j, k) ↦
            subst
              (λ v.
                2 * length v.jobs + length (in_flight v.inflight) + alive v.run
                < 2 * length w.jobs + length (in_flight w.inflight) + alive w.run)
              (sym k) (omega arith)
        | inr (job, rest, j, k) ↦
            let size : length w.jobs ≡ suc (length rest) = ap length j in
            subst
              (λ v.
                2 * length v.jobs + length (in_flight v.inflight) + alive v.run
                < 2 * length w.jobs + length (in_flight w.inflight) + alive w.run)
              (sym k) (omega arith)
      ]

  finish-advance :
      (job : Job) (w : Worker Job)
      → w.stopped ≡ true
      → w.inflight ≡ some job
      → alive w.run ≡ 1
      → work (finish w) < work w
  unfolding work finish
  finish-advance job w s i a =
      let flying : length (in_flight w.inflight) ≡ 1 = ap (λ o. length (in_flight o)) i in
      rw (finish, i) (omega arith)

  -- A stretch in which Run gets both turns brings it forward.
  pub turns-advance :
      (w : Worker Job) (es : List (Event Job))
      → w.stopped ≡ true
      → alive w.run ≡ 1
      → In receiving es
      → In finishing es
      → work (do_events w es) < work w
  unfolding do_event
  turns-advance w es s a receives finishes = elim (Option-cases w.inflight) [
    | inl e ↦ do_events-advance receiving none receive-advance w es s e a receives
    | inr (job, e) ↦ do_events-advance finishing (some job) (finish-advance job) w es s e a finishes
  ]

  pub do_events-append :
      (w : Worker Job) (xs ys : List (Event Job))
      → do_events w (xs ++ ys) ≡ do_events (do_events w xs) ys
  unfolding do_events
  do_events-append w [] ys = refl
  do_events-append w (x ∷ xs) ys = do_events-append (do_event w x) xs ys

  pub accepted-stopped :
      (w : Worker Job) (es : List (Event Job)) → w.stopped ≡ true → accepted w es ≡ []
  unfolding accepted
  accepted-stopped w [] s = refl
  accepted-stopped w (enqueueing job ∷ es) s =
      let (same, (e, refused)) = enqueue-refused w job s in
      rw (accepted, refused)
        (accepted-stopped (enqueue w job).0 es (do_event-Calm w (enqueueing job) s).stopped)
  accepted-stopped w (receiving ∷ es) s =
      accepted-stopped (do_event w receiving) es (do_event-Calm w receiving s).stopped
  accepted-stopped w (finishing ∷ es) s =
      accepted-stopped (do_event w finishing) es (do_event-Calm w finishing s).stopped
  accepted-stopped w (canceling ∷ es) s =
      accepted-stopped (do_event w canceling) es (do_event-Calm w canceling s).stopped
  accepted-stopped w (stopping ∷ es) s =
      accepted-stopped (do_event w stopping) es (do_event-Calm w stopping s).stopped
  accepted-stopped w (reporting ∷ es) s =
      accepted-stopped (do_event w reporting) es (do_event-Calm w reporting s).stopped
  accepted-stopped w (dropping ∷ es) s =
      accepted-stopped (do_event w dropping) es (do_event-Calm w dropping s).stopped
