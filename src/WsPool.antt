-- ===== src/WsPool.antt =====
-- proxy/pool.py, class _WsPool: idle WebSocket connections kept ready for each key (data centre,
-- media flag, test flag). A connection is a number; whether one is closed, closing, at its end or
-- failed is asked of the transport through the parameter `gone`. Times are milliseconds. A running
-- task is a number too, and its code between two awaits is one function.
pub mod Serving
pub mod Rotating
pub mod Limit
use hide_self_tgws.Base.{
  ℕ, zero, suc, ◌+◌, ◌-◌, ◌*◌, ◌^◌, min, Bool, true, false, not, ◌&&◌, ◌||◌, Option, none, some,
  List, [], ◌∷◌, ◌++◌, length, ltb, leb, ◌==◌, if◌then◌else◌,
}
use hide_self_tgws.Base.Dict.{Eq, ◌=?◌, lookup, get_or, insert, erase}
use Prim.Native.String.{String}

abbrev pub max_age : ℕ
max_age = 120000

abbrev pub check_interval : ℕ
check_interval = 5000

abbrev pub refill_backoff_initial : ℕ
refill_backoff_initial = 1000

abbrev pub refill_backoff_max : ℕ
refill_backoff_max = 3600000

-- A connection and the time at which it was made.
abbrev pub Entry : Type 0
Entry = ℕ × ℕ

unfoldable pub is_stale : (ℕ → Bool) → ℕ → Entry → Bool
is_stale gone now e = leb (e.1 + max_age) now || gone e.0

-- The loop of `get`: what it closes, and the connection it returns with the bucket left.
unfoldable pub pop_ready : (ℕ → Bool) → ℕ → List Entry → List ℕ × Option (ℕ × List Entry)
pop_ready gone now [] = ([], none)
pop_ready gone now (e ∷ bucket) =
    let rest = pop_ready gone now bucket in
    if is_stale gone now e then (e.0 ∷ rest.0, rest.1) else ([], some (e.0, bucket))

-- The first loop of `_rotate`: the expired connections and the ready ones.
unfoldable pub sweep : (ℕ → Bool) → ℕ → List Entry → List ℕ × List Entry
sweep gone now [] = ([], [])
sweep gone now (e ∷ bucket) =
    let rest = sweep gone now bucket in
    if is_stale gone now e then (e.0 ∷ rest.0, rest.1) else (rest.0, e ∷ rest.1)

-- `min(created + WS_POOL_MAX_AGE for ...)`, starting from a bound.
unfoldable pub earliest_expiry : ℕ → List Entry → ℕ
earliest_expiry bound [] = bound
earliest_expiry bound (e ∷ bucket) = earliest_expiry (min bound (e.1 + max_age)) bucket

unfoldable pub refill_delay : ℕ → ℕ
refill_delay failures = min (refill_backoff_initial * 2 ^ min (failures - 1) 12) refill_backoff_max

-- `key in d`
unfoldable pub has {ℓ κ} : {K : Type ℓ} {V : Type κ} ⦃e : Eq K⦄ → K → List (K × V) → Bool
has k m = elim (lookup k m) [ none ↦ false | some v ↦ true ]

-- `d.get(key) is task`
unfoldable pub is_task {ℓ} : {K : Type ℓ} ⦃e : Eq K⦄ → K → ℕ → List (K × ℕ) → Bool
is_task k task m = elim (lookup k m) [ none ↦ false | some t ↦ t == task ]

-- The connections of a bucket and of every bucket.
unfoldable pub connections : List Entry → List ℕ
connections [] = []
connections (x ∷ bucket) = x.0 ∷ connections bucket

unfoldable pub all_connections {ℓ} : {K : Type ℓ} → List (K × List Entry) → List ℕ
all_connections [] = []
all_connections ((k, bucket) ∷ idle) = connections bucket ++ all_connections idle

pub record WsPool (K : Type 0) : Type 0 where
  pub idle : List (K × List Entry)
  pub refilling : List (K × ℕ)
  pub rotating : List (K × ℕ)
  pub refill_failures : List (K × ℕ)
  pub refill_after : List (K × ℕ)
  pub try_fronting_first : Bool
  -- The number of the next task, the connections handed to `_quiet_close`, and the statistics.
  pub next_task : ℕ
  pub closing : List ℕ
  pub pool_hits : ℕ
  pub pool_misses : ℕ
  pub ws_errors : ℕ

abbrev pub init : {K : Type 0} → WsPool K
init = record {
  idle = [];
  refilling = [];
  rotating = [];
  refill_failures = [];
  refill_after = [];
  try_fronting_first = false;
  next_task = 0;
  closing = [];
  pool_hits = 0;
  pool_misses = 0;
  ws_errors = 0;
}

module _ {K : Type 0} ⦃e : Eq K⦄ (pool_size : ℕ) (gone : ℕ → Bool) where
  -- `self._idle.get(key)`, with the empty bucket that `get` and `setdefault` put for a missing one.
  unfoldable pub bucket_of : WsPool K → K → List Entry
  bucket_of p key = get_or key [] p.idle

  unfoldable pub schedule_rotation : WsPool K → K → WsPool K
  schedule_rotation p key =
      if has key p.rotating
      then p
      else record p { rotating = insert key p.next_task p.rotating; next_task = p.next_task + 1 }

  unfoldable pub schedule_refill : ℕ → WsPool K → K → WsPool K
  schedule_refill now p key =
      let q = schedule_rotation p key in
      if pool_size == 0
      then p
      else if has key q.refilling || ltb now (get_or key 0 q.refill_after)
      then q
      else record q { refilling = insert key q.next_task q.refilling; next_task = q.next_task + 1 }

  -- `now` is the time read at the start and `later` the time read for the refill. `redirected`
  -- tells whether the data centre has an address in `dc_redirects`.
  unfoldable pub get : Bool → ℕ → ℕ → WsPool K → K → Option ℕ × WsPool K
  get redirected now later p key =
      if not redirected || pool_size == 0
      then (none, p)
      else let r = pop_ready gone now (bucket_of p key) in
        let closed = record p { closing = p.closing ++ r.0 } in
        elim r.1 [
          | none ↦ (
            none,
            schedule_refill later
                (record closed { idle = insert key [] p.idle; pool_misses = p.pool_misses + 1 })
                key,
          )
          | some hit ↦ (
            some hit.0,
            schedule_refill later
                (record closed { idle = insert key hit.1 p.idle; pool_hits = p.pool_hits + 1 }) key,
          )
        ]

  -- `_refill` up to its first await: how many dials it starts.
  unfoldable pub refill_needed : WsPool K → K → ℕ
  refill_needed p key = pool_size - length (bucket_of p key)

  -- One completed dial: adopted when the task is still the key's refill; otherwise the task
  -- returns, and its `finally` closes the connection.
  unfoldable pub refill_collect : ℕ → WsPool K → K → ℕ → ℕ → Bool × WsPool K
  refill_collect now p key task ws =
      if is_task key task p.refilling
      then (true, record p { idle = insert key (bucket_of p key ++ ((ws, now) ∷ [])) p.idle })
      else (false, record p { closing = p.closing ++ (ws ∷ []) })

  -- After the last dial: the backoff is cleared or grows.
  unfoldable pub refill_conclude : ℕ → WsPool K → K → ℕ → WsPool K
  refill_conclude now p key connected =
      let failures = get_or key 0 p.refill_failures + 1 in
      if ltb 0 connected
      then record p {
        refill_failures = erase key p.refill_failures;
        refill_after = erase key p.refill_after;
      }
      else record p {
        refill_failures = insert key failures p.refill_failures;
        refill_after = insert key (now + refill_delay failures) p.refill_after;
      }

  -- The end of the `finally`.
  unfoldable pub refill_release : WsPool K → K → ℕ → WsPool K
  refill_release p key task =
      if is_task key task p.refilling then record p { refilling = erase key p.refilling } else p

  -- The bucket swept and a refill scheduled when it is short, at a time that is read anew.
  unfoldable pub sweep_bucket : ℕ → ℕ → WsPool K → K → WsPool K
  sweep_bucket now later p key =
      let s = sweep gone now (bucket_of p key) in
      let swept = record p { idle = insert key s.1 p.idle; closing = p.closing ++ s.0 } in
      if ltb (length s.1) pool_size then schedule_refill later swept key else swept

  unfoldable pub wake_time : ℕ → WsPool K → K → ℕ
  wake_time now p key =
      let wake_at = earliest_expiry (now + check_interval) (bucket_of p key) in
      let retry = get_or key 0 p.refill_after in
      if not (has key p.refilling) && ltb now retry then min wake_at retry else wake_at

  -- One round of `_rotate`, and the time at which it wakes up.
  unfoldable pub rotate_round : ℕ → ℕ → WsPool K → K → WsPool K × ℕ
  rotate_round now later p key = let q = sweep_bucket now later p key in (q, wake_time now q key)

  unfoldable pub rotate_release : WsPool K → K → ℕ → WsPool K
  rotate_release p key task =
      if is_task key task p.rotating then record p { rotating = erase key p.rotating } else p

  -- The dials of `_connect_one` for one domain, in the order of the modes.
  unfoldable pub connect_modes :
      (String → Bool → Option ℕ) → String → List Bool → WsPool K → Option ℕ × WsPool K
  connect_modes connect domain [] p = (none, p)
  connect_modes connect domain (fronted ∷ modes) p = elim (connect domain fronted) [
    | some ws ↦ (some ws, record p { try_fronting_first = fronted })
    | none ↦ connect_modes connect domain modes (record p { ws_errors = p.ws_errors + 1 })
  ]

  unfoldable pub connect_one :
      (String → Bool → Option ℕ) → List String → WsPool K → Option ℕ × WsPool K
  connect_one connect [] p = (none, p)
  connect_one connect (domain ∷ domains) p =
      let modes = if p.try_fronting_first then true ∷ false ∷ [] else false ∷ true ∷ [] in
      let r = connect_modes connect domain modes p in
      elim r.0 [ some ws ↦ r | none ↦ connect_one connect domains r.1 ]

  unfoldable pub reset : WsPool K → WsPool K
  reset p = record p {
    idle = [];
    refilling = [];
    rotating = [];
    refill_failures = [];
    refill_after = [];
    try_fronting_first = false;
    closing = p.closing ++ all_connections p.idle;
  }
