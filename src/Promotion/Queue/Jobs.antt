-- ===== src/Promotion/Queue/Jobs.antt =====
-- Where the accepted jobs are, as a count over the places where a job may be.
use urbanist_atlas.Base.{
  ℕ, ◌+◌, ◌≡◌, refl, ap, ◌∙◌, inl, inr, Bool, ℤ, List, [], ◌∷◌, ◌++◌, none, arith, length, select,
}
use urbanist_atlas.Promotion.Queue.{
  Worker, new_worker, enqueue, receive, finish, cancel, begin_stop, drop_one, Event, enqueueing,
  receiving, finishing, canceling, stopping, reporting, dropping, in_flight, report_inflight,
  do_event, do_events, accepted,
}
use urbanist_atlas.Promotion.Queue.Shapes.{
  enqueue-shape, receive-shape, finish-shape, cancel-shape, report_inflight-shape, drop_one-shape,
}

-- How many of the jobs pass the test.
pub tally : {Job : Type 0} → (Job → Bool) → List Job → ℕ
tally p jobs = length (select p jobs)

-- Over all the places where an accepted job may be.
pub tally_all : {Job : Type 0} → (Job → Bool) → Worker Job → ℕ
tally_all p w =
    tally p w.processed + tally p (in_flight w.inflight) + tally p w.dropped + tally p w.jobs

module _ {Job : Type 0} (p : Job → Bool) where
  pub tally_append : (xs ys : List Job) → tally p (xs ++ ys) ≡ tally p xs + tally p ys
  unfolding tally
  tally_append [] ys = omega arith
  tally_append (x ∷ xs) ys = ground (arith, tally_append xs ys)

  tally_cons : (x : Job) (xs : List Job) → tally p (x ∷ xs) ≡ tally p (x ∷ []) + tally p xs
  unfolding tally
  tally_cons x xs = ground arith

  pub tally_nil : tally p [] ≡ 0
  unfolding tally
  tally_nil = refl

  -- Nothing in flight and nothing in the buffer.
  pub idle-tally :
      (w : Worker Job)
      → w.inflight ≡ none
      → w.jobs ≡ []
      → tally_all p w ≡ tally p w.processed + tally p w.dropped
  unfolding tally_all
  idle-tally w e j =
      let flying : tally p (in_flight w.inflight) ≡ 0 =
        ap (λ o. tally p (in_flight o)) e ∙ tally_nil in
      let gone = ap (tally p) j ∙ tally_nil in omega arith

  pub new_worker-tally : (has_token : Bool) (size : ℤ) → tally_all p (new_worker has_token size) ≡ 0
  unfolding tally_all tally new_worker
  new_worker-tally has_token size = refl

  receive-tally : (w : Worker Job) → tally_all p (receive w) ≡ tally_all p w
  unfolding tally_all
  receive-tally w = elim (receive-shape w) [
    | inl e ↦ ap (tally_all p) e
    | inr (inl (e, j, k)) ↦ ap (tally_all p) k
    | inr (inr (job, rest, e, j, k)) ↦
        let flying : tally p (in_flight w.inflight) ≡ 0 =
          ap (λ o. tally p (in_flight o)) e ∙ tally_nil in
        let split = ap (tally p) j ∙ tally_cons job rest in ap (tally_all p) k ∙ omega arith
  ]

  finish-tally : (w : Worker Job) → tally_all p (finish w) ≡ tally_all p w
  unfolding tally_all
  finish-tally w = elim (finish-shape w) [
    | inl e ↦ ap (tally_all p) e
    | inr (job, e, k) ↦
        let flying : tally p (in_flight w.inflight) ≡ tally p (job ∷ []) =
          ap (λ o. tally p (in_flight o)) e in
        let longer = tally_append w.processed (job ∷ []) in
        let gone = tally_nil in ap (tally_all p) k ∙ omega arith
  ]

  cancel-tally : (w : Worker Job) → tally_all p (cancel w) ≡ tally_all p w
  unfolding tally_all
  cancel-tally w = elim (cancel-shape w) [
    | inl e ↦ ap (tally_all p) e
    | inr (l, e) ↦ ap (tally_all p) e
  ]

  drop_one-tally : (w : Worker Job) → tally_all p (drop_one w) ≡ tally_all p w
  unfolding tally_all
  drop_one-tally w = elim (drop_one-shape w) [
    | inl e ↦ ap (tally_all p) e
    | inr (job, rest, j, k) ↦
        let split = ap (tally p) j ∙ tally_cons job rest in
        let longer = tally_append w.dropped (job ∷ []) in ap (tally_all p) k ∙ omega arith
  ]

  begin_stop-tally : (w : Worker Job) → tally_all p (begin_stop w) ≡ tally_all p w
  unfolding tally_all begin_stop
  begin_stop-tally w = refl

  report_inflight-tally : (w : Worker Job) → tally_all p (report_inflight w) ≡ tally_all p w
  unfolding tally_all
  report_inflight-tally w = elim (report_inflight-shape w) [
    | inl e ↦ ap (tally_all p) e
    | inr (inflight, e) ↦ ap (tally_all p) e
  ]

  enqueue-tally :
      (w : Worker Job) (job : Job) (es : List (Event Job))
      → tally_all p (enqueue w job).0 + tally p (accepted (enqueue w job).0 es)
        ≡ tally_all p w + tally p (accepted w (enqueueing job ∷ es))
  unfolding accepted do_event tally_all
  enqueue-tally w job es = elim (enqueue-shape w job) [
    | inl (e, (error, k)) ↦
        let same : accepted w (enqueueing job ∷ es) ≡ accepted (enqueue w job).0 es =
          rw (accepted, k) refl in
        rw (same) (ap (λ v. tally_all p v + tally p (accepted (enqueue w job).0 es)) e)
    | inr e ↦
        let k : (enqueue w job).1 ≡ none = ap (λ v. v.1) e in
        let more : accepted w (enqueueing job ∷ es) ≡ job ∷ accepted (enqueue w job).0 es =
          rw (accepted, k) refl in
        let counted = ap (tally p) more ∙ tally_cons job (accepted (enqueue w job).0 es) in
        let stored = ap (λ v. tally_all p v.0) e in
        let longer = tally_append w.jobs (job ∷ []) in omega arith
  ]

  -- Every job that Enqueue accepts is at any time in exactly one place: it has been processed, it is in
  -- flight, it was dropped by a Stop, or it is in the buffer. For any test on jobs, those four hold
  -- together as many jobs that pass it as they held before and as were accepted.
  pub do_events-tally :
      (w : Worker Job) (es : List (Event Job))
      → tally_all p (do_events w es) ≡ tally_all p w + tally p (accepted w es)
  unfolding do_events accepted
  do_events-tally w [] = let gone = tally_nil in omega arith
  do_events-tally w (enqueueing job ∷ es) =
      do_events-tally (enqueue w job).0 es ∙ enqueue-tally w job es
  do_events-tally w (receiving ∷ es) =
      do_events-tally (receive w) es
      ∙ ap (λ n. n + tally p (accepted (receive w) es)) (receive-tally w)
  do_events-tally w (finishing ∷ es) =
      do_events-tally (finish w) es
      ∙ ap (λ n. n + tally p (accepted (finish w) es)) (finish-tally w)
  do_events-tally w (canceling ∷ es) =
      do_events-tally (cancel w) es
      ∙ ap (λ n. n + tally p (accepted (cancel w) es)) (cancel-tally w)
  do_events-tally w (stopping ∷ es) =
      do_events-tally (begin_stop w) es
      ∙ ap (λ n. n + tally p (accepted (begin_stop w) es)) (begin_stop-tally w)
  do_events-tally w (reporting ∷ es) =
      do_events-tally (report_inflight w) es
      ∙ ap (λ n. n + tally p (accepted (report_inflight w) es)) (report_inflight-tally w)
  do_events-tally w (dropping ∷ es) =
      do_events-tally (drop_one w) es
      ∙ ap (λ n. n + tally p (accepted (drop_one w) es)) (drop_one-tally w)
