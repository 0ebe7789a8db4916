-- ===== src/Tests/Pools.antt =====
-- The two pools of proxy/pool.py on concrete inputs.
use hide_self_tgws.Base.{
  ℕ, zero, suc, ◌+◌, ◌≤◌, ◌<◌, min, Bool, true, false, not, ◌&&◌, ◌||◌, Option, none, some, List,
  [], ◌∷◌, ◌++◌, length, if◌then◌else◌, ltb, leb, ◌≡◌, refl, arith, ◌⊎◌,
}
use hide_self_tgws.Base.Dict.{◌=?◌, string_eq, nat_eq, lookup, get_or, contains}
use Prim.Native.String.{String}
use hide_self_tgws.WsPool.{
  Entry, WsPool, init, bucket_of, has, get, rotate_round, is_stale, connections,
}
use hide_self_tgws.WsPool.Serving.{Served, get-Served}
use hide_self_tgws.WsPool.Rotating.{those, Outlives, rotate_round-Fresh}
use hide_self_tgws.WsPool.Limit.{System, start, serve, step, done}
use hide_self_tgws.WsPool.Limit.Invariant.{owed}
use hide_self_tgws.WsPool.Limit.Steps.{pool_size-Run}
use hide_self_tgws.Balancer.{count}
use hide_self_tgws.WorkerPool.{
  WorkerPool, Refusal, report_failure, available_domains, backoff_steps,
}
use hide_self_tgws.WorkerPool.{get as get_worker}
use hide_self_tgws.Fallback.Worker.{worker_fallback, Answered, worker_fallback-Answered}
use hide_self_tgws.WorkerPool.Resting.{report_failure_rest, available_domains-count}

-- The second of three connections has been closed.
abbrev gone : ℕ → Bool
gone n = elim n [
  | zero ↦ false
  | suc zero ↦ false
  | suc (suc zero) ↦ true
  | suc (suc (suc m)) ↦ false
]

-- Connection 1 is too old at 150 s, connection 2 is closed, connection 3 is good.
abbrev bucket : List Entry
bucket = (1, 10000) ∷ (2, 140000) ∷ (3, 145000) ∷ []

abbrev filled : WsPool ℕ
filled = record (init {K = ℕ}) { idle = (7, bucket) ∷ [] }

abbrev four : ℕ
four = 4

get-Served_example :
    let r = get 4 gone true 150000 150000 filled 7 in
    ((true ≡ false) ⊎ (four ≡ 0) → r ≡ (none, filled))
    × (true ≡ true
        → 0 < 4
        → ((closed : List ℕ) × (r.1.closing ≡ filled.closing ++ closed)
            × Served gone 150000 (bucket_of 4 gone filled 7) r.0 closed (bucket_of 4 gone r.1 7))
          × (has 7 r.1.rotating ≡ true)
          × ((has 7 r.1.refilling || ltb 150000 (get_or 7 0 filled.refill_after)) ≡ true))
get-Served_example = get-Served 4 gone true 150000 150000 filled 7

rotate_round-Fresh_example :
    let r = rotate_round 4 gone 150000 150001 filled 7 in
    let left = bucket_of 4 gone r.0 7 in
    (left ≡ those (λ x. not (is_stale gone 150000 x)) (bucket_of 4 gone filled 7))
    × (r.0.closing
        ≡ filled.closing ++ connections (those (is_stale gone 150000) (bucket_of 4 gone filled 7)))
    × (150000 < r.1)
    × (r.1 ≤ 150000 + 5000)
    × Outlives r.1 left
rotate_round-Fresh_example = rotate_round-Fresh 4 gone 150000 150001 filled 7 (omega arith)

-- A request on a new pool of two, which schedules a refill.
abbrev served : System ℕ
served = record (start {K = ℕ}) { pool = (get 2 gone true 0 0 (init {K = ℕ}) 7).1 }

pool_size-Run_example :
    length (bucket_of 2 gone served.pool 7) + owed 2 gone served.dials served.pool.refilling 7 ≤ 2
pool_size-Run_example =
    pool_size-Run 2 gone served (step start served served (serve true 0 0 start 7) (done served)) 7

abbrev worker : String
worker = "w"

abbrev other_worker : String
other_worker = "v"

abbrev workers : WorkerPool
workers = record {
  idle = [];
  refilling = [];
  unavailable_until = (worker, 60000) ∷ [];
  failures = (worker, 1) ∷ [];
  refill_failures = [];
  refill_after = [];
  closing = [];
  cf_pool_hits = 0;
  cf_pool_misses = 0;
}

abbrev timeout : Refusal
timeout = record { quota = false; local_abort = false }

report_failure_rest_example :
    let r = report_failure 70000 workers worker timeout in
    (get_or worker 0 r.0.unavailable_until ≡ 70000 + r.1)
    × (0 < r.1)
    × ((worker =? other_worker) ≡ false
        → (get_or other_worker 0 r.0.unavailable_until
            ≡ get_or other_worker 0 workers.unavailable_until)
          × (get_or other_worker 0 r.0.failures ≡ get_or other_worker 0 workers.failures))
    × (get_or worker 0 r.0.failures ≡ (
        if false || (true && ltb 70000 (get_or worker 0 workers.unavailable_until))
        then get_or worker 0 workers.failures
        else min (get_or worker 0 workers.failures + 1) backoff_steps))
report_failure_rest_example = report_failure_rest 70000 workers worker other_worker timeout

rests : get_or worker 0 workers.unavailable_until ≡ 60000
unfolding get_or lookup
rests = refl

available_domains-count_example :
    count worker
      (available_domains (λ xs. xs) 30000 (worker ∷ other_worker ∷ worker ∷ []) workers).0
    ≡ (if contains (worker ∷ other_worker ∷ worker ∷ []) worker
          && leb (get_or worker 0 workers.unavailable_until) 30000
        then 1
        else 0)
available_domains-count_example =
    available_domains-count (λ xs. xs) 30000 (worker ∷ other_worker ∷ worker ∷ []) workers worker
      (λ xs x. refl)

abbrev connects : String → ℕ × Option ℕ × Refusal
connects d = (30000, some 5, timeout)

-- While the refill dials, a request takes nothing from the pool and is counted as a miss.
abbrev a_miss : WorkerPool → WorkerPool
a_miss p = record p { cf_pool_misses = p.cf_pool_misses + 1 }

worker_fallback-Answered_example :
    let r =
      worker_fallback connects gone
        (λ xs. xs)
        false
        70000
        70001
        70002
        (worker ∷ other_worker ∷ [])
        workers
        2 in
    let pooled = get_worker gone 70000 70001 workers 2 in
    ((hit : ℕ × String) × (pooled.0 ≡ some hit) × (r ≡ (some hit.0, pooled.1)))
    ⊎ ((pooled.0 ≡ none)
        × Answered connects
            (available_domains (λ xs. xs) 70002 (worker ∷ other_worker ∷ []) pooled.1).0
            r)
worker_fallback-Answered_example =
    worker_fallback-Answered connects gone (λ xs. xs) false 70000 70001 70002 worker
      (other_worker ∷ []) workers 2
