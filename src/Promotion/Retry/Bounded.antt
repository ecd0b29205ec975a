-- ===== src/Promotion/Retry/Bounded.antt =====
-- The end of the loop of doIdempotentRequest, and the attempts that it makes.
use urbanist_atlas.Base.{
  ℕ, zero, suc, ◌+◌, ◌≤◌, ◌≡◌, ◌≢◌, ap, ◌⊎◌, inl, inr, Bool, false, Bool-cases, Option-cases, List,
  [], Option, some, arith, Unicode, leb,
}
use urbanist_atlas.Promotion.Retry.{
  Response, is_retryable, buffered, retry_max_attempts, Outcome, responded, request_failed,
  interrupted, out_of_fuel, Attempts, attempt_loop, do_idempotent_request,
}

-- What holds of a loop that may send `fuel` requests.
pub record Bounded (u : Unicode) (server : ℕ → Option Response) (fuel : ℕ) (a : Attempts)
    : Type 0 where
  pub ends : a.outcome ≢ out_of_fuel
  pub few : a.sent ≤ fuel
  pub some_sent : 1 ≤ a.sent
  pub last :
      (resp : Response)
      → a.outcome ≡ responded resp
      → (n : ℕ) × (r : Response) × (server n ≡ some r)
        × (resp ≡ buffered r)
        × ((is_retryable u r ≡ false) ⊎ (a.sent ≡ fuel))

module _ (u : Unicode) (server : ℕ → Option Response) (sleeps : ℕ → Bool) where
  Bounded-stop :
      (fuel : ℕ) (o : Outcome) (waits : List ℕ)
      → o ≢ out_of_fuel
      → ((resp : Response) → o ≢ responded resp)
      → Bounded u server (suc fuel) (record { outcome = o; sent = 1; waits = waits })
  Bounded-stop fuel o waits e f = record {
    ends = e;
    few = omega arith;
    some_sent = omega arith;
    last = λ resp h. absurd (f resp h);
  }

  attempt_loop-Bounded :
      (fuel attempt : ℕ)
      → attempt + fuel ≡ 5
      → 1 ≤ fuel
      → Bounded u server fuel (attempt_loop u server sleeps fuel attempt)
  unfolding attempt_loop
  attempt_loop-Bounded zero attempt total some_left = absurd (omega arith)
  attempt_loop-Bounded (suc fuel) attempt total some_left = elim (Option-cases (server attempt)) [
    | inl e ↦ rw (attempt_loop, e) (Bounded-stop fuel request_failed [] (λ x. cc) (λ r x. cc))
    | inr (resp, e) ↦ elim (Bool-cases (is_retryable u resp)) [
      | inr plain ↦
          rw (attempt_loop, e, plain)
            (record {
              ends = λ x. cc;
              few = omega arith;
              some_sent = omega arith;
              last = λ r h. (attempt, resp, e, cc, inl plain);
            })
      | inl again ↦ elim (Bool-cases (leb retry_max_attempts attempt)) [
        | inl last ↦
            rw (attempt_loop, e, again, last)
              (record {
                ends = λ x. cc;
                few = omega arith;
                some_sent = omega arith;
                last = λ r h. (attempt, resp, e, cc, inr (ground arith));
              })
        | inr early ↦ elim (Bool-cases (sleeps attempt)) [
          | inr cut ↦
              rw (attempt_loop, e, again, early, cut)
                (Bounded-stop fuel interrupted _ (λ x. cc) (λ r x. cc))
          | inl slept ↦
              let later = attempt_loop-Bounded fuel (attempt + 1) (omega arith) (ground arith) in
              rw (attempt_loop, e, again, early, slept)
                (record {
                  ends = later.ends;
                  few = let few = later.few in omega arith;
                  some_sent = omega arith;
                  last = λ r h.
                      let (n, x, k, b, c) = later.last r h in
                      (n, x, k, b, elim c [ inl plain ↦ inl plain | inr all ↦ inr (ap suc all) ]);
                })
        ]
      ]
    ]
  ]

-- A GET is sent at least once and at most four times, the loop then ends, and the response that it
-- returns is one that the server gave and that is not to be retried, unless all four attempts are used.
pub do_idempotent_request-Bounded :
    (u : Unicode) (server : ℕ → Option Response) (sleeps : ℕ → Bool)
    → Bounded u server retry_max_attempts (do_idempotent_request u server sleeps)
unfolding do_idempotent_request
do_idempotent_request-Bounded u server sleeps =
    attempt_loop-Bounded u server sleeps retry_max_attempts 1 (omega arith) (omega arith)
