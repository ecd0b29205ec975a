-- ===== src/Promotion/Queue/Order.antt =====
-- The order in which the jobs are run.
use urbanist_atlas.Base.{
  ◌≡◌, refl, sym, ap, ◌∙◌, inl, inr, List, [], ◌∷◌, ◌++◌, append_assoc, append-nil, none, All,
}
use urbanist_atlas.Promotion.Queue.{
  Worker, enqueue, receive, finish, cancel, begin_stop, Event, enqueueing, receiving, finishing,
  canceling, stopping, reporting, dropping, in_flight, report_inflight, do_event, do_events,
  accepted,
}
use urbanist_atlas.Promotion.Queue.Shapes.{
  enqueue-shape, receive-shape, finish-shape, cancel-shape, report_inflight-shape,
}

-- A Stop whose context ends before the drain.
abbrev pub IsDropping : {Job : Type 0} → Event Job → Type 0
IsDropping (enqueueing job) = ⊥
IsDropping receiving = ⊥
IsDropping finishing = ⊥
IsDropping canceling = ⊥
IsDropping stopping = ⊥
IsDropping reporting = ⊥
IsDropping dropping = Unit

-- The jobs in the order in which Run takes them.
pub line : {Job : Type 0} → Worker Job → List Job
line w = w.processed ++ (in_flight w.inflight ++ w.jobs)

module _ {Job : Type 0} where
  receive-line : (w : Worker Job) → line (receive w) ≡ line w
  unfolding line
  receive-line w = elim (receive-shape w) [
    | inl e ↦ ap line e
    | inr (inl (e, j, k)) ↦ ap line k
    | inr (inr (job, rest, e, j, k)) ↦
        ap line k ∙ ap (λ l. w.processed ++ l) (sym (ap (λ o. in_flight o ++ w.jobs) e ∙ j))
  ]

  finish-line : (w : Worker Job) → line (finish w) ≡ line w
  unfolding line
  finish-line w = elim (finish-shape w) [
    | inl e ↦ ap line e
    | inr (job, e, k) ↦
        ap line k
        ∙ append_assoc w.processed (job ∷ []) w.jobs
        ∙ sym (ap (λ o. w.processed ++ (in_flight o ++ w.jobs)) e)
  ]

  cancel-line : (w : Worker Job) → line (cancel w) ≡ line w
  unfolding line
  cancel-line w = elim (cancel-shape w) [ inl e ↦ ap line e | inr (l, e) ↦ ap line e ]

  begin_stop-line : (w : Worker Job) → line (begin_stop w) ≡ line w
  unfolding line begin_stop
  begin_stop-line w = refl

  report_inflight-line : (w : Worker Job) → line (report_inflight w) ≡ line w
  unfolding line
  report_inflight-line w = elim (report_inflight-shape w) [
    | inl e ↦ ap line e
    | inr (inflight, e) ↦ ap line e
  ]

  longer :
      (w : Worker Job) (job : Job)
      → w.processed ++ (in_flight w.inflight ++ (w.jobs ++ job ∷ [])) ≡ line w ++ job ∷ []
  unfolding line
  longer w job =
      ap (λ l. w.processed ++ l) (sym (append_assoc (in_flight w.inflight) w.jobs (job ∷ [])))
      ∙ sym (append_assoc w.processed (in_flight w.inflight ++ w.jobs) (job ∷ []))

  enqueue-line :
      (w : Worker Job) (job : Job) (es : List (Event Job))
      → line (enqueue w job).0 ++ accepted (enqueue w job).0 es
        ≡ line w ++ accepted w (enqueueing job ∷ es)
  unfolding accepted do_event line
  enqueue-line w job es = elim (enqueue-shape w job) [
    | inl (e, (error, k)) ↦
        let same : accepted w (enqueueing job ∷ es) ≡ accepted (enqueue w job).0 es =
          rw (accepted, k) refl in
        rw (same) (ap (λ v. line v ++ accepted (enqueue w job).0 es) e)
    | inr e ↦
        let k : (enqueue w job).1 ≡ none = ap (λ v. v.1) e in
        let more : accepted w (enqueueing job ∷ es) ≡ job ∷ accepted (enqueue w job).0 es =
          rw (accepted, k) refl in
        ap (λ v. line v.0 ++ accepted (enqueue w job).0 es) e
        ∙ ap (λ l. l ++ accepted (enqueue w job).0 es) (longer w job)
        ∙ append_assoc (line w) (job ∷ []) (accepted (enqueue w job).0 es)
        ∙ ap (λ l. line w ++ l) (sym more)
  ]

  -- As long as no Stop gives up, the jobs run in the order in which they were accepted: those processed,
  -- the one in flight and those in the buffer are, in this order, the ones of before and the accepted.
  pub do_events-line :
      (w : Worker Job) (es : List (Event Job))
      → All (λ e. ¬ IsDropping e) es
      → line (do_events w es) ≡ line w ++ accepted w es
  unfolding do_events accepted
  do_events-line w [] h = sym (append-nil (line w))
  do_events-line w (enqueueing job ∷ es) h =
      do_events-line (enqueue w job).0 es h.1 ∙ enqueue-line w job es
  do_events-line w (receiving ∷ es) h =
      do_events-line (receive w) es h.1 ∙ ap (λ l. l ++ accepted (receive w) es) (receive-line w)
  do_events-line w (finishing ∷ es) h =
      do_events-line (finish w) es h.1 ∙ ap (λ l. l ++ accepted (finish w) es) (finish-line w)
  do_events-line w (canceling ∷ es) h =
      do_events-line (cancel w) es h.1 ∙ ap (λ l. l ++ accepted (cancel w) es) (cancel-line w)
  do_events-line w (stopping ∷ es) h =
      do_events-line (begin_stop w) es h.1
      ∙ ap (λ l. l ++ accepted (begin_stop w) es) (begin_stop-line w)
  do_events-line w (reporting ∷ es) h =
      do_events-line (report_inflight w) es h.1
      ∙ ap (λ l. l ++ accepted (report_inflight w) es) (report_inflight-line w)
  do_events-line w (dropping ∷ es) h = absurd (h.0 tt)
