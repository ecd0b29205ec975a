-- ===== src/Usage/Recorder/Weights.antt =====
-- The steps of a recorder, what they hand on, and how counts add up.
use urbanist_atlas.Base.{
  ℕ, suc, ◌+◌, ◌≡◌, refl, ap, inl, inr, Bool, ◌&&◌, List, [], ◌∷◌, ◌++◌, arith, Bytes, bytes_eq,
  length, Table, find, find_or, put, has, if◌then◌else◌, Bool-cases,
}
use urbanist_atlas.Usage.Recorder.{
  BucketKey, bucket_eqb, bucket_eqb_iff, bucket_eq, UsageCount, Recorder, is_counted, increment,
  counts_of, flush,
}

-- An Increment, or a Flush with what the store answers.
pub data Step : Type 0 where
  event : (day kind key : Bytes) → Step
  flushing : (first_day : Bytes) → (written pruned : Bool) → Step

-- A recorder, the batches that the store was given, and the dropped events that were warned of.
pub record Run : Type 0 where
  pub recorder : Recorder
  pub batches : List (List UsageCount)
  pub warned : ℕ

unfoldable pub do_step : Run → Step → Run
unfolding increment flush
do_step run (event day kind key) = record run { recorder = increment run.recorder day kind key }
do_step run (flushing first_day written pruned) =
    let f =
      flush (λ counts st. (st ++ counts ∷ [], written)) (λ day st. (st, pruned)) run.recorder
        first_day run.batches in
    record { recorder = f.recorder; batches = f.store; warned = run.warned + f.warned }

unfoldable pub do_steps : Run → List Step → Run
unfolding do_step
do_steps run [] = run
do_steps run (s ∷ steps) = do_steps (do_step run s) steps

-- The counts of one bucket, or of all, in the buffer and in a batch.
abbrev pub weight : (BucketKey → Bool) → Table BucketKey ℕ → ℕ
weight of [] = 0
weight of ((k, n) ∷ buf) = (if of k then n else 0) + weight of buf

abbrev pub bucket_of : UsageCount → BucketKey
bucket_of c = record { day = c.day; kind = c.kind; key = c.key }

abbrev pub batch_weight : (BucketKey → Bool) → List UsageCount → ℕ
batch_weight of [] = 0
batch_weight of (c ∷ cs) = (if of (bucket_of c) then c.count else 0) + batch_weight of cs

abbrev pub batches_weight : (BucketKey → Bool) → List (List UsageCount) → ℕ
batches_weight of [] = 0
batches_weight of (b ∷ bs) = batch_weight of b + batches_weight of bs

-- The events of the buckets `of` among the steps that a recorder counts.
abbrev pub events : (BucketKey → Bool) → Recorder → List Step → ℕ
events of r [] = 0
events of r (event day kind key ∷ steps) =
    (if is_counted r kind key && of (record { day = day; kind = kind; key = key }) then 1 else 0)
    + events of r steps
events of r (flushing first_day written pruned ∷ steps) = events of r steps

-- What a run still knows of the buckets `of`, and what it lost.
abbrev pub recorded : (BucketKey → Bool) → Run → ℕ
recorded of run = batches_weight of run.batches + weight of run.recorder.buf

abbrev pub lost : Run → ℕ
lost run = run.recorder.dropped + run.warned

pub batches_weight-append :
    (of : BucketKey → Bool) (bs : List (List UsageCount)) (b : List UsageCount)
    → batches_weight of (bs ++ b ∷ []) ≡ batches_weight of bs + batch_weight of b
batches_weight-append of [] b = omega arith
batches_weight-append of (c ∷ bs) b = omega (arith, batches_weight-append of bs b)

pub batch_weight-counts_of :
    (of : BucketKey → Bool) (buf : Table BucketKey ℕ)
    → batch_weight of (counts_of buf) ≡ weight of buf
unfolding counts_of
batch_weight-counts_of of [] = refl
batch_weight-counts_of of ((k, n) ∷ buf) = omega (arith, batch_weight-counts_of of buf)

pub weight-put :
    (of : BucketKey → Bool) (k : BucketKey) (v : ℕ) (buf : Table BucketKey ℕ)
    → weight of (put k v buf) + (if of k then find_or k buf 0 else 0)
      ≡ weight of buf + (if of k then v else 0)
unfolding put find_or find
weight-put of k v [] = ground arith
weight-put of k v ((j, n) ∷ buf) = elim (Bool-cases (bucket_eqb j k)) [
  | inl eq ↦ rw (find_or, find, eq, ap of ((bucket_eqb_iff j k).0 eq)) (ground arith)
  | inr ne ↦ rw (find_or, find, ne) (ground (arith, weight-put of k v buf))
]

pub length-put :
    (k : BucketKey) (n : ℕ) (buf : Table BucketKey ℕ)
    → length (put k n buf) ≡ (if has k buf then length buf else suc (length buf))
unfolding put has
length-put k n [] = refl
length-put k n ((j, m) ∷ buf) = ground (arith, length-put k n buf)
