-- ===== src/Usage/Recorder/Accounting.antt =====
-- Where the events of a recorder are, after any sequence of increments and flushes.
use urbanist_atlas.Base.{
  ℕ, suc, ◌+◌, ◌≤◌, ◌≡◌, refl, ap, ◌⊎◌, inl, inr, Bool, true, false, not, ◌&&◌, List, [], ◌∷◌, ◌++◌,
  arith, Bytes, bytes_eq, leb, length, find_or, put, has, if◌then◌else◌, Bool-cases, List-cases,
}
use urbanist_atlas.Usage.Recorder.{
  max_buffered_keys, BucketKey, bucket_eq, UsageCount, Recorder, is_counted, increment, counts_of,
  flush,
}
use urbanist_atlas.Usage.Recorder.Weights.{
  Step, event, flushing, Run, do_step, do_steps, weight, batches_weight, events, recorded, lost,
  batches_weight-append, batch_weight-counts_of, weight-put,
}

increment-has_store :
    (r : Recorder) (day kind key : Bytes) → (increment r day kind key).has_store ≡ r.has_store
unfolding increment
increment-has_store r day kind key = ground arith

flush-has_store :
    {St : Type 0} (up : List UsageCount → St → St × Bool) (pr : Bytes → St → St × Bool)
    (r : Recorder) (day : Bytes) (st : St)
    → (flush up pr r day st).recorder.has_store ≡ r.has_store
unfolding flush
flush-has_store up pr r day st = elim (Bool-cases r.has_store) [
  | inr off ↦ rw (flush, off) refl
  | inl on ↦ elim (List-cases r.buf) [
    | inl e ↦ rw (flush, on, e) on
    | inr (entry, entries, e) ↦ rw (flush, on, e) on
  ]
]

-- A step leaves alone which events are counted.
is_counted-do_step :
    (run : Run) (s : Step) (kind key : Bytes)
    → is_counted (do_step run s).recorder kind key ≡ is_counted run.recorder kind key
unfolding do_step is_counted
is_counted-do_step run (event day kind' key') kind key =
    rw (increment-has_store run.recorder day kind' key') refl
is_counted-do_step run (flushing first_day written pruned) kind key =
    rw
      (flush-has_store (λ counts st. (st ++ counts ∷ [], written)) (λ day st. (st, pruned))
        run.recorder first_day run.batches)
      refl

events-do_step :
    (of : BucketKey → Bool) (run : Run) (s : Step) (steps : List Step)
    → events of (do_step run s).recorder steps ≡ events of run.recorder steps
events-do_step of run s [] = refl
events-do_step of run s (event day kind key ∷ steps) =
    rw (is_counted-do_step run s kind key, events-do_step of run s steps) refl
events-do_step of run s (flushing first_day written pruned ∷ steps) = events-do_step of run s steps

-- One event is buffered, or dropped, or not counted.
increment-fate :
    (r : Recorder) (day kind key : Bytes)
    → (is_counted r kind key ≡ false) × (increment r day kind key ≡ r)
      ⊎ (is_counted r kind key ≡ true)
        × (increment r day kind key ≡ record r { dropped = suc r.dropped })
      ⊎ (is_counted r kind key ≡ true)
        × (increment r day kind key ≡ record r {
          buf =
              put
                (record { day = day; kind = kind; key = key })
                (find_or (record { day = day; kind = kind; key = key }) r.buf 0 + 1)
                r.buf;
        })
unfolding increment
increment-fate r day kind key = elim (Bool-cases (is_counted r kind key)) [
  | inr out ↦ inl (out, rw (increment, out) refl)
  | inl counted ↦ elim (Bool-cases (not (has bk r.buf) && leb max_buffered_keys (length r.buf))) [
    | inl full ↦ inr (inl (counted, rw (increment, counted, full) refl))
    | inr room ↦ inr (inr (counted, rw (increment, counted, room) refl))
  ]
]
  where
    bk : BucketKey
    bk = record { day = day; kind = kind; key = key }

-- The total: the counts of all buckets, with what was dropped.
increment-total :
    (r : Recorder) (day kind key : Bytes)
    → weight (λ k. true) (increment r day kind key).buf + (increment r day kind key).dropped
      ≡ (if is_counted r kind key then 1 else 0) + (weight (λ k. true) r.buf + r.dropped)
increment-total r day kind key = elim (increment-fate r day kind key) [
  | inl (out, e) ↦ rw (out, e) (omega arith)
  | inr (inl (counted, e)) ↦ rw (counted, e) (omega arith)
  | inr (inr (counted, e)) ↦
      rw (counted, e) (omega (arith, weight-put (λ k. true) bk (find_or bk r.buf 0 + 1) r.buf))
]
  where
    bk : BucketKey
    bk = record { day = day; kind = kind; key = key }

-- One bucket, or some of them.
increment-part :
    (of : BucketKey → Bool) (r : Recorder) (day kind key : Bytes) (hit : ℕ)
    → hit ≡ (
        if is_counted r kind key && of (record { day = day; kind = kind; key = key }) then 1 else 0)
    → (weight of (increment r day kind key).buf ≤ hit + weight of r.buf)
      × (hit + weight of r.buf + r.dropped
          ≤ weight of (increment r day kind key).buf + (increment r day kind key).dropped)
increment-part of r day kind key hit h = elim (increment-fate r day kind key) [
  | inl (out, e) ↦ rw e (ground (arith, out))
  | inr (inl (counted, e)) ↦ rw e (ground (arith, counted))
  | inr (inr (counted, e)) ↦
      rw e (ground (arith, counted, weight-put of bk (find_or bk r.buf 0 + 1) r.buf))
]
  where
    bk : BucketKey
    bk = record { day = day; kind = kind; key = key }

if_same : {A : Type 0} (b : Bool) (x : A) → (if b then x else x) ≡ x
if_same true x = refl
if_same false x = refl

-- A flush moves the buffer to the batches, and the dropped events to the warnings.
flush-moves :
    (of : BucketKey → Bool) (written pruned : Bool) (r : Recorder) (day : Bytes)
    (bs : List (List UsageCount))
    → let f = flush (λ counts st. (st ++ counts ∷ [], written)) (λ day st. (st, pruned)) r day bs in
      (batches_weight of f.store + weight of f.recorder.buf
        ≡ batches_weight of bs + weight of r.buf)
      × (f.recorder.dropped + f.warned ≡ r.dropped)
unfolding flush
flush-moves of written pruned r day bs = elim (Bool-cases r.has_store) [
  | inr off ↦ rw (flush, off) (refl, omega arith)
  | inl on ↦ elim (List-cases r.buf) [
    | inl e ↦ rw (flush, on, e) (ap (λ b. batches_weight of bs + weight of b) e, omega arith)
    | inr (entry, entries, e) ↦
        rw (flush, on, e, if_same)
          (
            omega (
              arith,
              batches_weight-append of bs (counts_of (entry ∷ entries)),
              batch_weight-counts_of of (entry ∷ entries),
              ap (weight of) e,
            ),
            omega arith,
          )
  ]
]

-- Nothing is counted twice, and what is missing was dropped.
abbrev pub Accounted : (BucketKey → Bool) → Run → Run → ℕ → Type 0
Accounted of run after n =
    (recorded of after ≤ recorded of run + n)
    × (recorded of run + n + lost run ≤ recorded of after + lost after)

Accounted-do_step :
    (of : BucketKey → Bool) (run : Run) (s : Step)
    → Accounted of run (do_step run s) (events of run.recorder (s ∷ []))
unfolding do_step
Accounted-do_step of run (event day kind key) =
    omega (arith, increment-part of run.recorder day kind key _ refl)
Accounted-do_step of run (flushing first_day written pruned) =
    omega (arith, flush-moves of written pruned run.recorder first_day run.batches)

events-cons :
    (of : BucketKey → Bool) (r : Recorder) (s : Step) (steps : List Step)
    → events of r (s ∷ steps) ≡ events of r (s ∷ []) + events of r steps
events-cons of r (event day kind key) steps = omega arith
events-cons of r (flushing first_day written pruned) steps = omega arith

-- After any increments and flushes, the batches given to the store and the buffer together hold, of any
-- set of buckets, at most what they held before and the events counted since, and fall short of that by
-- at most the number of events dropped since.
pub do_steps-Accounted :
    (of : BucketKey → Bool) (steps : List Step) (run : Run)
    → Accounted of run (do_steps run steps) (events of run.recorder steps)
unfolding do_steps
do_steps-Accounted of [] run = omega arith
do_steps-Accounted of (s ∷ steps) run = omega (
  arith,
  do_steps-Accounted of steps (do_step run s),
  Accounted-do_step of run s,
  events-do_step of run s steps,
  events-cons of run.recorder s steps,
)
