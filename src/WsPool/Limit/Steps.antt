-- ===== src/WsPool/Limit/Steps.antt =====
-- Every step keeps the invariant, and so does every run.
use hide_self_tgws.Base.{ℕ, ◌+◌, ◌-◌, ◌≤◌, Bool, [], length, Bool-cases, inl, inr, refl, arith}
use hide_self_tgws.Base.Dict.{Eq, lookup, get_or, erase}
use hide_self_tgws.WsPool.{
  WsPool, is_task, bucket_of, refill_needed, refill_conclude, refill_release, rotate_release, reset,
}
use hide_self_tgws.WsPool.Limit.{
  System, Step, Run, start, serve, rotate, rotation_ends, refill_starts, dial_connects, dial_fails,
  refill_concludes, refill_ends, resets, done, step,
}
use hide_self_tgws.WsPool.Limit.Invariant.{
  IsBounded, owed, shrink-IsBounded, set_dials-IsBounded, get-IsBounded, rotate_round-IsBounded,
  refill_collect-IsBounded, owed-erase, small, owed-current,
}

module _ {K : Type 0} ⦃e : Eq K⦄ (pool_size : ℕ) (gone : ℕ → Bool) where
  rotate_release-IsBounded :
      (dials : K → ℕ → ℕ) (p : WsPool K) (key : K) (task : ℕ)
      → IsBounded pool_size gone dials p
      → IsBounded pool_size gone dials (rotate_release pool_size gone p key task)
  unfolding rotate_release
  rotate_release-IsBounded dials p key task bounded =
      elim (Bool-cases (is_task key task p.rotating)) [
        | inl current ↦
            rw (rotate_release, current)
              (shrink-IsBounded pool_size gone dials p
                (record p { rotating = erase key p.rotating })
                (λ k. unfold bucket_of in omega arith) refl refl bounded)
        | inr replaced ↦ rw (rotate_release, replaced) bounded
      ]

  refill_conclude-IsBounded :
      (now : ℕ) (dials : K → ℕ → ℕ) (p : WsPool K) (key : K) (connected : ℕ)
      → IsBounded pool_size gone dials p
      → IsBounded pool_size gone dials (refill_conclude pool_size gone now p key connected)
  refill_conclude-IsBounded now dials p key connected bounded =
      shrink-IsBounded pool_size gone dials p (refill_conclude pool_size gone now p key connected)
        (λ k. unfold bucket_of refill_conclude in ground arith)
        (unfold refill_conclude in ground arith) (unfold refill_conclude in ground arith) bounded

  refill_release-IsBounded :
      (dials : K → ℕ → ℕ) (p : WsPool K) (key : K) (task : ℕ)
      → IsBounded pool_size gone dials p
      → IsBounded pool_size gone dials (refill_release pool_size gone p key task)
  unfolding refill_release
  refill_release-IsBounded dials p key task bounded =
      elim (Bool-cases (is_task key task p.refilling)) [
        | inl current ↦
            rw (refill_release, current)
              (record {
                room = λ k.
                    let fits : length (get_or k [] p.idle) + owed pool_size gone dials p.refilling k
                        ≤ pool_size =
                      unfold bucket_of in bounded.room k in
                    unfold bucket_of in
                    omega (arith, owed-erase pool_size gone dials key k p.refilling, fits);
                unused = bounded.unused;
              })
        | inr replaced ↦ rw (refill_release, replaced) bounded
      ]

  reset-IsBounded :
      (dials : K → ℕ → ℕ) (p : WsPool K)
      → IsBounded pool_size gone dials p
      → IsBounded pool_size gone dials (reset pool_size gone p)
  unfolding reset
  reset-IsBounded dials p bounded = record {
    room = λ k. unfold bucket_of owed get_or in omega arith;
    unused = bounded.unused;
  }

  Step-IsBounded :
      (s t : System K)
      → Step pool_size gone s t
      → IsBounded pool_size gone s.dials s.pool
      → IsBounded pool_size gone t.dials t.pool
  Step-IsBounded s t (serve redirected now later _ key) bounded =
      get-IsBounded pool_size gone redirected now later s.dials s.pool key bounded
  Step-IsBounded s t (rotate now later _ key positive) bounded =
      rotate_round-IsBounded pool_size gone now later s.dials s.pool key bounded
  Step-IsBounded s t (rotation_ends _ key task) bounded =
      rotate_release-IsBounded s.dials s.pool key task bounded
  Step-IsBounded s t (refill_starts _ key task exists) bounded =
      set_dials-IsBounded pool_size gone s.dials s.pool s.pool key task
        (refill_needed pool_size gone s.pool key) (small pool_size gone s.dials s.pool bounded)
        (λ k apart. omega arith)
        (λ current.
          unfold refill_needed in omega (arith, small pool_size gone s.dials s.pool bounded key))
        (λ h. absurd (omega arith)) refl refl bounded
  Step-IsBounded s t (dial_connects now _ key task ws some_left) bounded =
      refill_collect-IsBounded pool_size gone now s.dials s.pool key task ws some_left bounded
  Step-IsBounded s t (dial_fails _ key task) bounded =
      set_dials-IsBounded pool_size gone s.dials s.pool s.pool key task (s.dials key task - 1)
        (small pool_size gone s.dials s.pool bounded) (λ k apart. omega arith)
        (λ current. omega (
          arith,
          owed-current pool_size gone s.dials key task s.pool.refilling current,
          bounded.room key,
        ))
        (λ h. omega (arith, bounded.unused key task h)) refl refl bounded
  Step-IsBounded s t (refill_concludes now _ key connected) bounded =
      refill_conclude-IsBounded now s.dials s.pool key connected bounded
  Step-IsBounded s t (refill_ends _ key task) bounded =
      refill_release-IsBounded s.dials s.pool key task bounded
  Step-IsBounded s t (resets _) bounded = reset-IsBounded s.dials s.pool bounded

  Run-IsBounded :
      (s t : System K)
      → Run pool_size gone s t
      → IsBounded pool_size gone s.dials s.pool
      → IsBounded pool_size gone t.dials t.pool
  Run-IsBounded s t (done _) bounded = bounded
  Run-IsBounded s t (step _ u _ first rest) bounded =
      Run-IsBounded u t rest (Step-IsBounded s u first bounded)

  start-IsBounded : IsBounded pool_size gone (start {K = K}).dials (start {K = K}).pool
  start-IsBounded = record {
    room = λ k. unfold bucket_of owed get_or lookup in omega arith;
    unused = λ k t h. refl;
  }

  -- Whatever requests, rotations, refills, failures and resets follow one another from a new pool,
  -- in whatever order their segments interleave, no key ever has more idle connections than the
  -- configured size; nor would it if every dial that its current refill still waits for succeeded.
  pub pool_size-Run :
      (t : System K)
      → Run pool_size gone (start {K = K}) t
      → (key : K)
      → length (bucket_of pool_size gone t.pool key)
          + owed pool_size gone t.dials t.pool.refilling key
        ≤ pool_size
  pool_size-Run t run key = (Run-IsBounded start t run start-IsBounded).room key
