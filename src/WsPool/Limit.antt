-- ===== src/WsPool/Limit.antt =====
-- Requests, rotations, refills and resets interleave at the awaits of the code. Whatever the
-- order, no bucket grows beyond the configured size, although a refill outlives the reset that
-- replaced it.
pub mod Invariant
pub mod Steps
use hide_self_tgws.Base.{
  ℕ, zero, suc, ◌+◌, ◌-◌, ◌≤◌, ◌<◌, Bool, true, false, ◌&&◌, Option, none, some, List, [], ◌∷◌,
  ◌==◌, if◌then◌else◌, ◌≡◌,
}
use hide_self_tgws.Base.Dict.{Eq, ◌=?◌, lookup}
use hide_self_tgws.WsPool.{
  WsPool, init, get, refill_needed, refill_collect, refill_conclude, refill_release, rotate_round,
  rotate_release, reset,
}

-- The pool, and the dials that each refill task of each key has yet to complete.
pub record System (K : Type 0) : Type 0 where
  pub pool : WsPool K
  pub dials : K → ℕ → ℕ

-- A new pool, without a task.
abbrev pub start : {K : Type 0} → System K
start = record { pool = init; dials = λ k t. 0 }

module _ {K : Type 0} ⦃e : Eq K⦄ (pool_size : ℕ) (gone : ℕ → Bool) where
  unfoldable pub set_dials : (K → ℕ → ℕ) → K → ℕ → ℕ → K → ℕ → ℕ
  set_dials dials key task n k t = if key =? k && task == t then n else dials k t

  -- One segment of code between two awaits, of any task.
  pub data Step : System K → System K → Type 0 where
    serve :
        (redirected : Bool) (now later : ℕ) (s : System K) (key : K)
        → Step s (record s { pool = (get pool_size gone redirected now later s.pool key).1 })
    rotate :
        (now later : ℕ) (s : System K) (key : K)
        → 0 < pool_size
        → Step s (record s { pool = (rotate_round pool_size gone now later s.pool key).0 })
    rotation_ends :
        (s : System K) (key : K) (task : ℕ)
        → Step s (record s { pool = rotate_release pool_size gone s.pool key task })
    -- A refill that was scheduled starts its dials.
    refill_starts :
        (s : System K) (key : K) (task : ℕ)
        → task < s.pool.next_task
        → Step s (record s {
          dials = set_dials s.dials key task (refill_needed pool_size gone s.pool key);
        })
    -- A dial completes; a task that is not the key's refill any more returns.
    dial_connects :
        (now : ℕ) (s : System K) (key : K) (task ws : ℕ)
        → 0 < s.dials key task
        → Step s (record {
          pool = (refill_collect pool_size gone now s.pool key task ws).1;
          dials = set_dials s.dials key task (
              if (refill_collect pool_size gone now s.pool key task ws).0
              then s.dials key task - 1
              else 0);
        })
    dial_fails :
        (s : System K) (key : K) (task : ℕ)
        → Step s (record s { dials = set_dials s.dials key task (s.dials key task - 1) })
    refill_concludes :
        (now : ℕ) (s : System K) (key : K) (connected : ℕ)
        → Step s (record s { pool = refill_conclude pool_size gone now s.pool key connected })
    refill_ends :
        (s : System K) (key : K) (task : ℕ)
        → Step s (record s { pool = refill_release pool_size gone s.pool key task })
    resets : (s : System K) → Step s (record s { pool = reset pool_size gone s.pool })

  -- Any number of steps.
  pub data Run : System K → System K → Type 0 where
    done : (s : System K) → Run s s
    step : (s t u : System K) → Step s t → Run t u → Run s u
