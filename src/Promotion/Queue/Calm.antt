-- ===== src/Promotion/Queue/Calm.antt =====
-- What is left for Run to do after a Stop, and what an event makes of it.
use urbanist_atlas.Base.{
  ℕ, suc, ◌+◌, ◌*◌, ◌≤◌, ◌<◌, ◌≡◌, ◌≢◌, refl, sym, ap, subst, ◌∙◌, ◌⊎◌, inl, inr, true, Bool-cases,
  List, [], ◌∷◌, some, length, arith,
}
use urbanist_atlas.Promotion.Queue.{
  RunState, looping, draining, returned, EnqueueError, stopped_error, promotion_disabled, Worker,
  enqueue, receive, finish, cancel, begin_stop, report_inflight, drop_one, in_flight, Event,
  enqueueing, receiving, finishing, canceling, stopping, reporting, dropping, do_event, do_events,
}
use urbanist_atlas.Promotion.Queue.Shapes.{
  receive-shape, finish-shape, cancel-shape, report_inflight-shape, drop_one-shape,
}

unfoldable pub alive : RunState → ℕ
alive looping = 1
alive draining = 1
alive returned = 0

-- The steps that Run has still to make.
unfoldable pub work : {Job : Type 0} → Worker Job → ℕ
work w = 2 * length w.jobs + length (in_flight w.inflight) + alive w.run

-- What an event makes of a stopped worker: less work, or the same at the same place.
pub record Calm {Job : Type 0} (w w' : Worker Job) : Type 0 where
  pub stopped : w'.stopped ≡ true
  pub less :
      (work w' < work w)
      ⊎ ((work w' ≡ work w) × (w'.inflight ≡ w.inflight) × (alive w'.run ≡ alive w.run))
  pub ended : (work w' ≡ 0) ⊎ (alive w'.run ≡ alive w.run)

pub alive-cases :
    (r : RunState) → ((r ≡ returned) × (alive r ≡ 0)) ⊎ ((r ≢ returned) × (alive r ≡ 1))
unfolding alive
alive-cases looping = inr (λ e. cc, refl)
alive-cases draining = inr (λ e. cc, refl)
alive-cases returned = inl (refl, refl)

pub alive-returned : alive returned ≡ 0
unfolding alive
alive-returned = refl

module _ {Job : Type 0} where
  Calm-refl : (w w' : Worker Job) → w.stopped ≡ true → w' ≡ w → Calm w w'
  Calm-refl w w' s e =
      subst (Calm w) (sym e)
        (record { stopped = s; less = inr (refl, refl, refl); ended = inr refl })

  pub enqueue-refused :
      (w : Worker Job) (job : Job)
      → w.stopped ≡ true
      → ((enqueue w job).0 ≡ w) × ((e : EnqueueError) × ((enqueue w job).1 ≡ some e))
  unfolding enqueue
  enqueue-refused w job s = elim (Bool-cases w.has_token) [
    | inl t ↦ rw (enqueue, t, s) (refl, (stopped_error, refl))
    | inr t ↦ rw (enqueue, t) (refl, (promotion_disabled, refl))
  ]

  receive-Calm : (w : Worker Job) → w.stopped ≡ true → Calm w (receive w)
  unfolding work
  receive-Calm w s = elim (receive-shape w) [
    | inl e ↦ Calm-refl w _ s e
    | inr (inl (e, j, k)) ↦
        let size : length w.jobs ≡ 0 = ap length j in
        let flying : length (in_flight w.inflight) ≡ 0 = ap (λ o. length (in_flight o)) e in
        let gone = alive-returned in
        subst (Calm w) (sym k) (elim (alive-cases w.run) [
          | inl (r, a) ↦ record {
            stopped = s;
            less = inr (omega arith, refl, omega arith);
            ended = inr (omega arith);
          }
          | inr (r, a) ↦ record { stopped = s; less = inl (omega arith); ended = inl (omega arith) }
        ])
    | inr (inr (job, rest, e, j, k)) ↦
        let size : length w.jobs ≡ suc (length rest) = ap length j in
        let flying : length (in_flight w.inflight) ≡ 0 = ap (λ o. length (in_flight o)) e in
        subst (Calm w) (sym k) (record { stopped = s; less = inl (omega arith); ended = inr refl })
  ]

  finish-Calm : (w : Worker Job) → w.stopped ≡ true → Calm w (finish w)
  unfolding work
  finish-Calm w s = elim (finish-shape w) [
    | inl e ↦ Calm-refl w _ s e
    | inr (job, e, k) ↦
        let flying : length (in_flight w.inflight) ≡ 1 = ap (λ o. length (in_flight o)) e in
        subst (Calm w) (sym k) (record { stopped = s; less = inl (omega arith); ended = inr refl })
  ]

  cancel-Calm : (w : Worker Job) → w.stopped ≡ true → Calm w (cancel w)
  unfolding work alive
  cancel-Calm w s = elim (cancel-shape w) [
    | inl e ↦ Calm-refl w _ s e
    | inr (l, e) ↦
        let here : alive w.run ≡ 1 = ap alive l in
        subst (Calm w) (sym e) (record {
          stopped = s;
          less = inr (omega arith, refl, omega arith);
          ended = inr (omega arith);
        })
  ]

  drop_one-Calm : (w : Worker Job) → w.stopped ≡ true → Calm w (drop_one w)
  unfolding work
  drop_one-Calm w s = elim (drop_one-shape w) [
    | inl e ↦ Calm-refl w _ s e
    | inr (job, rest, j, e) ↦
        let size : length w.jobs ≡ suc (length rest) = ap length j in
        subst (Calm w) (sym e) (record { stopped = s; less = inl (omega arith); ended = inr refl })
  ]

  report_inflight-Calm : (w : Worker Job) → w.stopped ≡ true → Calm w (report_inflight w)
  unfolding work
  report_inflight-Calm w s = elim (report_inflight-shape w) [
    | inl e ↦ Calm-refl w _ s e
    | inr (inflight, e) ↦
        subst (Calm w) (sym e)
          (record { stopped = s; less = inr (refl, refl, refl); ended = inr refl })
  ]

  begin_stop-Calm : (w : Worker Job) → Calm w (begin_stop w)
  unfolding work begin_stop
  begin_stop-Calm w = record { stopped = refl; less = inr (refl, refl, refl); ended = inr refl }

  pub do_event-Calm : (w : Worker Job) (e : Event Job) → w.stopped ≡ true → Calm w (do_event w e)
  unfolding do_event
  do_event-Calm w (enqueueing job) s = Calm-refl w _ s (enqueue-refused w job s).0
  do_event-Calm w receiving s = receive-Calm w s
  do_event-Calm w finishing s = finish-Calm w s
  do_event-Calm w canceling s = cancel-Calm w s
  do_event-Calm w stopping s = begin_stop-Calm w
  do_event-Calm w reporting s = report_inflight-Calm w s
  do_event-Calm w dropping s = drop_one-Calm w s

  pub do_events-work :
      (w : Worker Job) (es : List (Event Job)) → w.stopped ≡ true → work (do_events w es) ≤ work w
  unfolding do_events
  do_events-work w [] s = omega arith
  do_events-work w (e ∷ es) s =
      let calm = do_event-Calm w e s in
      let later = do_events-work (do_event w e) es calm.stopped in
      elim calm.less [ inl less ↦ omega arith | inr (same, i, a) ↦ omega arith ]

  pub do_events-stopped :
      (w : Worker Job) (es : List (Event Job)) → w.stopped ≡ true → (do_events w es).stopped ≡ true
  unfolding do_events
  do_events-stopped w [] s = s
  do_events-stopped w (e ∷ es) s = do_events-stopped (do_event w e) es (do_event-Calm w e s).stopped

  -- Once there is nothing left to do where Run has returned, this stays so.
  pub do_events-ended :
      (w : Worker Job) (es : List (Event Job))
      → w.stopped ≡ true
      → (alive w.run ≡ 0 → work w ≡ 0)
      → alive (do_events w es).run ≡ 0
      → work (do_events w es) ≡ 0
  unfolding do_events
  do_events-ended w [] s h r = h r
  do_events-ended w (e ∷ es) s h r =
      let calm = do_event-Calm w e s in
      do_events-ended (do_event w e) es calm.stopped
        (λ a. elim calm.ended [
          | inl z ↦ z
          | inr same ↦
              let before = h (sym same ∙ a) in
              elim calm.less [ inl less ↦ omega arith | inr (eq, i, b) ↦ omega arith ]
        ])
        r
