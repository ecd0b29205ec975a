-- ===== src/Promotion/Queue/Tests.antt =====
-- Three jobs into a buffer of two, a Stop and the drain.
use urbanist_atlas.Base.{
  ℕ, suc, ◌+◌, ◌≡◌, ◌≢◌, refl, true, false, List, [], ◌∷◌, ◌++◌, none, some, pos, All, nat_eqb, inl,
  inr, Bool,
}
use urbanist_atlas.Promotion.Queue.{
  Worker, stopped_error, looping, returned, new_worker, enqueue, Event, enqueueing, receiving,
  finishing, canceling, stopping, reporting, dropping, do_events, accepted,
}
use urbanist_atlas.Promotion.Queue.Jobs.{tally, tally_all}
use urbanist_atlas.Promotion.Queue.Order.{IsDropping, line, do_events-line}
use urbanist_atlas.Promotion.Queue.Fair.{Rounds, do_events-Rounds}

abbrev events : List (Event ℕ)
events =
    enqueueing 7
    ∷ enqueueing 8
    ∷ enqueueing 9
    ∷ receiving
    ∷ enqueueing 10
    ∷ finishing
    ∷ stopping
    ∷ []

abbrev start : Worker ℕ
start = record {
  has_token = true;
  buffer_size = 2;
  jobs = [];
  stopped = false;
  run = looping;
  inflight = none;
  processed = [];
  dropped = [];
  reported = [];
}

start_new : new_worker true (pos 2) ≡ start
unfolding new_worker
start_new = refl

third_refused : accepted start events ≡ 7 ∷ 8 ∷ 10 ∷ []
unfolding accepted
third_refused = refl

abbrev after : Worker ℕ
after = record start { jobs = 8 ∷ 10 ∷ []; stopped = true; processed = 7 ∷ [] }

drained_later : do_events start events ≡ after
unfolding do_events
drained_later = refl

none_after_stop : (enqueue after 11).1 ≡ some stopped_error
unfolding enqueue
none_after_stop = refl

given_up : (do_events after (dropping ∷ dropping ∷ [])).dropped ≡ 8 ∷ 10 ∷ []
unfolding do_events
given_up = refl

abbrev eights : ℕ → Bool
eights n = nat_eqb n 8

-- After the Stop gives up, one job is taken out of the buffer, and Run gets the other.
abbrev given_up_events : List (Event ℕ)
given_up_events = events ++ (reporting ∷ dropping ∷ receiving ∷ reporting ∷ finishing ∷ [])

abbrev at_end : Worker ℕ
at_end = record start {
  stopped = true;
  processed = 7 ∷ 10 ∷ [];
  dropped = 8 ∷ [];
  reported = 8 ∷ 10 ∷ [];
}

none_drops : All (λ e. ¬ IsDropping e) events
none_drops = (λ x. x, (λ x. x, (λ x. x, (λ x. x, (λ x. x, (λ x. x, (λ x. x, tt)))))))

do_events-line_example : line (do_events start events) ≡ line start ++ accepted start events
do_events-line_example = do_events-line start events none_drops

still_running : after.run ≢ returned
still_running e = cc

abbrev turn : List (Event ℕ)
turn = receiving ∷ finishing ∷ []

-- The context of Run ends, a job comes too late, and Run finds the buffer empty in the end.
abbrev turns : List (Event ℕ)
turns =
    (canceling ∷ finishing ∷ enqueueing 11 ∷ receiving ∷ [])
    ++ (turn ++ (turn ++ (turn ++ (turn ++ (turn ++ [])))))

one_more : (n : ℕ) (rest : List (Event ℕ)) → Rounds n rest → Rounds (suc n) (turn ++ rest)
one_more n rest r = (turn, rest, refl, inl refl, inr (inl refl), r)

six_stretches : Rounds 6 turns
six_stretches = (
  canceling ∷ finishing ∷ enqueueing 11 ∷ receiving ∷ [],
  turn ++ (turn ++ (turn ++ (turn ++ (turn ++ [])))),
  refl,
  inr (inr (inr (inl refl))),
  inr (inl refl),
  one_more 4 _ (one_more 3 _ (one_more 2 _ (one_more 1 _ (one_more 0 [] tt)))),
)

do_events-Rounds_example :
    ((do_events after turns).run ≡ returned)
    × ((do_events after turns).jobs ≡ [])
    × ((do_events after turns).inflight ≡ none)
    × ((p : ℕ → Bool)
        → tally p (do_events after turns).processed + tally p (do_events after turns).dropped
          ≡ tally_all p after)
do_events-Rounds_example = do_events-Rounds after turns refl still_running six_stretches
