-- ===== src/Usage/Recorder/Bounds.antt =====
-- The cap on the buffer of a recorder.
use urbanist_atlas.Base.{
  ◌+◌, ◌≤◌, ap, inl, inr, Bool, List, [], ◌∷◌, ◌++◌, arith, Bytes, bytes_eq, length, find_or,
  Bool-cases, List-cases,
}
use urbanist_atlas.Usage.Recorder.{
  max_buffered_keys, BucketKey, bucket_eq, UsageCount, Recorder, increment, flush,
}
use urbanist_atlas.Usage.Recorder.Weights.{
  Step, event, flushing, Run, do_step, do_steps, length-put,
}

increment-length :
    (r : Recorder) (day kind key : Bytes)
    → length r.buf ≤ max_buffered_keys
    → length (increment r day kind key).buf ≤ max_buffered_keys
unfolding increment
increment-length r day kind key h = ground (arith, length-put bk (find_or bk r.buf 0 + 1) r.buf)
  where
    bk : BucketKey
    bk = record { day = day; kind = kind; key = key }

flush-length :
    {St : Type 0} (up : List UsageCount → St → St × Bool) (pr : Bytes → St → St × Bool)
    (r : Recorder) (day : Bytes) (st : St)
    → length (flush up pr r day st).recorder.buf ≤ length r.buf
unfolding flush
flush-length up pr r day st = elim (Bool-cases r.has_store) [
  | inr off ↦ rw (flush, off) (omega arith)
  | inl on ↦ elim (List-cases r.buf) [
    | inl e ↦ rw (flush, on, e) (omega (arith, ap length e))
    | inr (entry, entries, e) ↦ rw (flush, on, e) (omega arith)
  ]
]

-- A buffer within its cap stays within it, whatever the events and the answers of the store are.
pub do_steps-length :
    (steps : List Step) (run : Run)
    → length run.recorder.buf ≤ max_buffered_keys
    → length (do_steps run steps).recorder.buf ≤ max_buffered_keys
unfolding do_steps do_step
do_steps-length [] run h = h
do_steps-length (event day kind key ∷ steps) run h =
    do_steps-length steps _ (increment-length run.recorder day kind key h)
do_steps-length (flushing first_day written pruned ∷ steps) run h = do_steps-length steps _ (
    omega (
      arith,
      flush-length (λ counts st. (st ++ counts ∷ [], written)) (λ day st. (st, pruned)) run.recorder
          first_day run.batches,
    ))
