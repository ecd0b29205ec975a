-- ===== src/Usage/Recorder/Tests.antt =====
-- A day of events with two flushes.
use urbanist_atlas.Base.{
  ◌≡◌, ◌≤◌, refl, true, false, List, [], ◌∷◌, arith, codes, pos, bytes_eqb, length,
}
use urbanist_atlas.Usage.Recorder.{max_buffered_keys, new_recorder}
use urbanist_atlas.Usage.Recorder.Weights.{Step, event, flushing, Run, do_steps, events}
use urbanist_atlas.Usage.Recorder.Accounting.{Accounted, do_steps-Accounted}
use urbanist_atlas.Usage.Recorder.Bounds.{do_steps-length}

abbrev day : List Step
day =
    event (codes "2026-01-01") (codes "lookup") (codes "hit")
    ∷ event (codes "2026-01-01") (codes "lookup") []
    ∷ event (codes "2026-01-01") (codes "lookup") (codes "hit")
    ∷ flushing (codes "2025-01-01") true true
    ∷ event (codes "2026-01-01") (codes "lookup") (codes "miss")
    ∷ flushing (codes "2025-01-01") false true
    ∷ []

abbrev start : Run
start = record { recorder = new_recorder true (pos 365); batches = []; warned = 0 }

day_batches :
    (do_steps start day).batches
    ≡ (record { day = codes "2026-01-01"; kind = codes "lookup"; key = codes "hit"; count = 2 }
        ∷ [])
      ∷ (record { day = codes "2026-01-01"; kind = codes "lookup"; key = codes "miss"; count = 1 }
          ∷ [])
      ∷ []
unfolding do_steps new_recorder bytes_eqb
day_batches = refl

do_steps-Accounted_example :
    Accounted (λ k. true) start (do_steps start day) (events (λ k. true) start.recorder day)
do_steps-Accounted_example = do_steps-Accounted (λ k. true) day start

start-length : length start.recorder.buf ≤ max_buffered_keys
unfolding new_recorder
start-length = omega arith

do_steps-length_example : length (do_steps start day).recorder.buf ≤ max_buffered_keys
do_steps-length_example = do_steps-length day start start-length
