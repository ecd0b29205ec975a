-- ===== src/Promotion/Queue.antt =====
-- The queue of api/internal/githubpr/worker.go: Enqueue, Run, Stop and drainAndExit, as the atomic steps
-- that the channel and the locks leave. A job is any value. `processed` lists the jobs whose process()
-- has returned, `dropped` the jobs that a Stop whose context has ended took out of the buffer, and
-- `reported` what all such Stops have appended to their droppedIDs. The receive of a job and the Store
-- of its id are one step here; in the code a Stop may fall between the two.
pub mod Shapes
pub mod Jobs
pub mod Returned
pub mod Order
pub mod Calm
pub mod Turns
pub mod Fair
pub mod Tests
use urbanist_atlas.Base.{
  ℕ, ◌≡◌, Bool, true, false, not, List, [], ◌∷◌, ◌++◌, Option, none, some, length, ltb, ℤ, pos,
  pos_part, int_leb, if◌then◌else◌,
}

pub data EnqueueError : Type 0 where
  promotion_disabled stopped_error buffer_full : EnqueueError

-- What Run is doing: in its loop, in drainAndExit, or returned (`done` is closed).
pub data RunState : Type 0 where
  looping draining returned : RunState

pub record Worker (Job : Type 0) : Type 0 where
  pub has_token : Bool
  pub buffer_size : ℕ
  pub jobs : List Job
  pub stopped : Bool
  pub run : RunState
  pub inflight : Option Job
  pub processed : List Job
  pub dropped : List Job
  pub reported : List Job

-- New, with the default size for a size that is not positive.
unfoldable pub new_worker : {Job : Type 0} → Bool → ℤ → Worker Job
new_worker has_token buffer_size = record {
  has_token = has_token;
  buffer_size = if int_leb buffer_size (pos 0) then 32 else pos_part buffer_size;
  jobs = [];
  stopped = false;
  run = looping;
  inflight = none;
  processed = [];
  dropped = [];
  reported = [];
}

unfoldable pub enqueue : {Job : Type 0} → Worker Job → Job → Worker Job × Option EnqueueError
enqueue w job =
    if not w.has_token
    then (w, some promotion_disabled)
    else if w.stopped
    then (w, some stopped_error)
    else if ltb (length w.jobs) w.buffer_size
    then (record w { jobs = w.jobs ++ job ∷ [] }, none)
    else (w, some buffer_full)

-- One receive of Run or of drainAndExit, when no job is in flight. On an empty channel the loop waits,
-- unless the channel is closed; drainAndExit returns in either case.
unfoldable pub receive : {Job : Type 0} → Worker Job → Worker Job
receive w = elim w.inflight [
  | some job ↦ w
  | none ↦ elim w.run [
    | returned ↦ w
    | looping ↦ elim w.jobs [
      | job ∷ rest ↦ record w { jobs = rest; inflight = some job }
      | [] ↦ if w.stopped then record w { run = returned } else w
    ]
    | draining ↦ elim w.jobs [
      | job ∷ rest ↦ record w { jobs = rest; inflight = some job }
      | [] ↦ record w { run = returned }
    ]
  ]
]

-- process() returns, after it has persisted the outcome.
unfoldable pub finish : {Job : Type 0} → Worker Job → Worker Job
finish w = elim w.inflight [
  | none ↦ w
  | some job ↦ record w { inflight = none; processed = w.processed ++ job ∷ [] }
]

-- The loop of Run sees that its context has ended.
unfoldable pub cancel : {Job : Type 0} → Worker Job → Worker Job
cancel w = elim w.inflight [
  | some job ↦ w
  | none ↦ elim w.run [ looping ↦ record w { run = draining } | draining ↦ w | returned ↦ w ]
]

-- The first half of Stop.
unfoldable pub begin_stop : {Job : Type 0} → Worker Job → Worker Job
begin_stop w = record w { stopped = true }

abbrev pub in_flight : {Job : Type 0} → Option Job → List Job
in_flight none = []
in_flight (some job) = job ∷ []

-- A Stop whose context has ended reports the job in flight.
unfoldable pub report_inflight : {Job : Type 0} → Worker Job → Worker Job
report_inflight w =
    if w.stopped then record w { reported = w.reported ++ in_flight w.inflight } else w

-- One receive of such a Stop after that.
unfoldable pub drop_one : {Job : Type 0} → Worker Job → Worker Job
drop_one w = elim w.jobs [
  | [] ↦ w
  | job ∷ rest ↦
      if w.stopped
      then record w {
        jobs = rest;
        dropped = w.dropped ++ job ∷ [];
        reported = w.reported ++ job ∷ [];
      }
      else w
]

pub data Event (Job : Type 0) : Type 0 where
  enqueueing : Job → Event Job
  receiving finishing canceling stopping reporting dropping : Event Job

unfoldable pub do_event : {Job : Type 0} → Worker Job → Event Job → Worker Job
unfolding enqueue receive finish cancel begin_stop report_inflight drop_one
do_event w (enqueueing job) = (enqueue w job).0
do_event w receiving = receive w
do_event w finishing = finish w
do_event w canceling = cancel w
do_event w stopping = begin_stop w
do_event w reporting = report_inflight w
do_event w dropping = drop_one w

unfoldable pub do_events : {Job : Type 0} → Worker Job → List (Event Job) → Worker Job
unfolding do_event
do_events w [] = w
do_events w (e ∷ es) = do_events (do_event w e) es

-- The jobs that Enqueue answers with nil.
unfoldable pub accepted : {Job : Type 0} → Worker Job → List (Event Job) → List Job
unfolding enqueue do_event
accepted w [] = []
accepted w (enqueueing job ∷ es) =
    let later = accepted (do_event w (enqueueing job)) es in
    elim (enqueue w job).1 [ none ↦ job ∷ later | some e ↦ later ]
accepted w (receiving ∷ es) = accepted (do_event w receiving) es
accepted w (finishing ∷ es) = accepted (do_event w finishing) es
accepted w (canceling ∷ es) = accepted (do_event w canceling) es
accepted w (stopping ∷ es) = accepted (do_event w stopping) es
accepted w (reporting ∷ es) = accepted (do_event w reporting) es
accepted w (dropping ∷ es) = accepted (do_event w dropping) es
