-- ===== src/WorkerPool.antt =====
-- proxy/pool.py, class _CfWorkerPool: idle connections through Cloudflare workers, and the workers
-- put aside after a refusal. Times are milliseconds; an exception is what the code asks of it: is it
-- an HTTP 429 answer, is it an abort by the host's own network. Connections are numbers, as in the
-- pool of WebSockets. What the other tasks do to the pool while a refill dials is a parameter.
pub mod Resting
pub mod Refill
use hide_self_tgws.Base.{
  ℕ, zero, suc, ◌+◌, ◌-◌, ◌*◌, ◌^◌, min, max, Bool, true, false, not, ◌&&◌, ◌||◌, Option, none,
  some, List, [], ◌∷◌, ◌++◌, length, ltb, leb, ◌==◌, if◌then◌else◌,
}
use hide_self_tgws.Base.Dict.{◌=?◌, string_eq, nat_eq, lookup, get_or, insert, erase, contains}
use Prim.Native.String.{String}

abbrev pub max_age : ℕ
max_age = 100000

abbrev pub per_dc_limit : ℕ
per_dc_limit = 1

abbrev pub failure_cooldown : ℕ
failure_cooldown = 60000

abbrev pub quota_cooldown : ℕ
quota_cooldown = 900000

abbrev pub cooldown_max : ℕ
cooldown_max = 21600000

abbrev pub backoff_steps : ℕ
backoff_steps = 8

abbrev pub local_abort_cooldown : ℕ
local_abort_cooldown = 5000

abbrev pub refill_backoff_initial : ℕ
refill_backoff_initial = 60000

abbrev pub refill_backoff_max : ℕ
refill_backoff_max = 3600000

pub record Refusal : Type 0 where
  pub quota : Bool
  pub local_abort : Bool

-- A connection, the time at which it was made, and its worker.
abbrev pub Entry : Type 0
Entry = ℕ × ℕ × String

pub record WorkerPool : Type 0 where
  pub idle : List (ℕ × List Entry)
  -- The data centres with a running refill.
  pub refilling : List (ℕ × Bool)
  pub unavailable_until : List (String × ℕ)
  pub failures : List (String × ℕ)
  pub refill_failures : List (ℕ × ℕ)
  pub refill_after : List (ℕ × ℕ)
  pub closing : List ℕ
  pub cf_pool_hits : ℕ
  pub cf_pool_misses : ℕ

unfoldable pub report_success : WorkerPool → String → WorkerPool
report_success p worker = record p {
  unavailable_until = erase worker p.unavailable_until;
  failures = erase worker p.failures;
}

unfoldable pub rest_for : Bool → ℕ → ℕ
rest_for quota failures =
    min ((if quota then quota_cooldown else failure_cooldown) * 2 ^ (failures - 1)) cooldown_max

unfoldable pub report_failure : ℕ → WorkerPool → String → Refusal → WorkerPool × ℕ
report_failure now p worker exc =
    let resting_until = get_or worker 0 p.unavailable_until in
    let local_until = max resting_until (now + local_abort_cooldown) in
    let failures = min (get_or worker 0 p.failures + 1) backoff_steps in
    let cooldown = rest_for exc.quota failures in
    if exc.local_abort
    then (
      record p { unavailable_until = insert worker local_until p.unavailable_until },
      local_until - now,
    )
    else if not exc.quota && ltb now resting_until
    then (p, resting_until - now)
    else (
      record p {
        failures = insert worker failures p.failures;
        unavailable_until = insert worker (now + cooldown) p.unavailable_until;
      },
      cooldown,
    )

-- The loop of `available_domains`: the domains kept so far, and the pool whose expired entries go.
unfoldable pub available_loop :
    ℕ → List String → List String → WorkerPool → List String × WorkerPool
available_loop now domains [] p = (domains, p)
available_loop now domains (d ∷ workers) p =
    let resting_until = get_or d 0 p.unavailable_until in
    let expired =
      (if resting_until == 0
        then p
        else record p { unavailable_until = erase d p.unavailable_until }) in
    elim (contains domains d || ltb now resting_until) [
      | true ↦ available_loop now domains workers p
      | false ↦ available_loop now (domains ++ (d ∷ [])) workers expired
    ]

unfoldable pub refill_delay : ℕ → ℕ
refill_delay failures = min (refill_backoff_initial * 2 ^ min (failures - 1) 6) refill_backoff_max

module _ (gone : ℕ → Bool) where
  unfoldable pub schedule_refill : ℕ → WorkerPool → ℕ → WorkerPool
  schedule_refill now p dc =
      if get_or dc false p.refilling || ltb now (get_or dc 0 p.refill_after)
      then p
      else record p { refilling = insert dc true p.refilling }

  -- The loop of `get`: what it closes, and the entry it returns with the bucket left.
  unfoldable pub pop_ready : ℕ → List Entry → List ℕ × Option (Entry × List Entry)
  pop_ready now [] = ([], none)
  pop_ready now (e ∷ bucket) =
      let rest = pop_ready now bucket in
      if ltb (e.1 + max_age) now || gone e.0 then (e.0 ∷ rest.0, rest.1) else ([], some (e, bucket))

  unfoldable pub get : ℕ → ℕ → WorkerPool → ℕ → Option (ℕ × String) × WorkerPool
  get now later p dc =
      let r = pop_ready now (get_or dc [] p.idle) in
      let closed = record p { closing = p.closing ++ r.0 } in
      elim r.1 [
        | none ↦ (
          none,
          schedule_refill later
              (record closed { idle = insert dc [] p.idle; cf_pool_misses = p.cf_pool_misses + 1 })
              dc,
        )
        | some hit ↦ (
          some (hit.0.0, hit.0.2),
          schedule_refill later
              (report_success
                (record closed { idle = insert dc hit.1 p.idle; cf_pool_hits = p.cf_pool_hits + 1 })
                hit.0.2)
              dc,
        )
      ]

module _ (shuffle : List String → List String) where
  unfoldable pub available_domains : ℕ → List String → WorkerPool → List String × WorkerPool
  available_domains now workers p = let r = available_loop now [] workers p in (shuffle r.0, r.1)

  -- The loop of `_connect_one`; a dial gives a connection or a refusal, at a time of its own.
  unfoldable pub dial_each :
      (String → ℕ × Option ℕ × Refusal)
      → List String
      → WorkerPool
      → Option (ℕ × String) × WorkerPool
  dial_each dial [] p = (none, p)
  dial_each dial (d ∷ workers) p =
      let r = dial d in
      elim r.1 [
        | some ws ↦ (some (ws, d), p)
        | none ↦ dial_each dial workers (report_failure r.0 p d r.2).0
      ]

  unfoldable pub connect_one :
      (String → ℕ × Option ℕ × Refusal)
      → ℕ
      → List String
      → WorkerPool
      → Option (ℕ × String) × WorkerPool
  connect_one dial now workers p =
      let available = available_domains now workers p in dial_each dial available.0 available.1

  -- The end of `_refill` after its dial, before its `finally`. `current` says whether the task is
  -- still the data centre's refill, which a `reset` ends; a connection is closed if it is not.
  unfoldable pub refill_conclude : Bool → ℕ → WorkerPool → ℕ → Option (ℕ × String) → WorkerPool
  refill_conclude current now p dc none =
      let failures = get_or dc 0 p.refill_failures + 1 in
      record p {
        refill_failures = insert dc failures p.refill_failures;
        refill_after = insert dc (now + refill_delay failures) p.refill_after;
      }
  refill_conclude current now p dc (some (ws, worker)) =
      if current
      then record p {
        idle = insert dc (get_or dc [] p.idle ++ ((ws, now, worker) ∷ [])) p.idle;
        refill_failures = erase dc p.refill_failures;
        refill_after = erase dc p.refill_after;
      }
      else record p { closing = p.closing ++ (ws ∷ []) }

  -- The `finally` of `_refill`.
  unfoldable pub refill_release : Bool → WorkerPool → ℕ → WorkerPool
  refill_release current p dc = if current then record p { refilling = erase dc p.refilling } else p

  -- `_refill`: `PER_DC_LIMIT` is one, so that at most one connection is needed. `meanwhile` is what
  -- the other tasks do during the dial, and `current` is asked after it; up to the dial the task is
  -- the data centre's refill. `now`, `again` and `later` are the times read in this order.
  unfoldable pub refill :
      ℕ
      → (String → ℕ × Option ℕ × Refusal)
      → (WorkerPool → WorkerPool)
      → Bool
      → ℕ
      → ℕ
      → ℕ
      → List String
      → WorkerPool
      → ℕ
      → WorkerPool
  refill pool_size dial meanwhile current now again later workers p dc =
      let needed = min pool_size per_dc_limit - length (get_or dc [] p.idle) in
      let looked = available_domains now workers p in
      let dialled = connect_one dial again workers looked.1 in
      if needed == 0 then refill_release true p dc else (elim looked.0 [
        | [] ↦ refill_release true looked.1 dc
        | d ∷ ds ↦
            refill_release current
              (refill_conclude current later (meanwhile dialled.1) dc dialled.0) dc
      ])
