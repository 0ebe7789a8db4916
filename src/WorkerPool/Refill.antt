-- ===== src/WorkerPool/Refill.antt =====
-- What a refill leaves on each of its ways: connections, backoff, and whether it still runs.
use hide_self_tgws.Base.{
  ℕ, ◌+◌, ◌*◌, ◌^◌, true, ◌⊎◌, ◌≤◌, min, Bool, false, Option, none, some, List, [], ◌∷◌, ◌++◌,
  length, ◌≡◌,
}
use hide_self_tgws.Base.Dict.{nat_eq, string_eq, get_or}
use Prim.Native.String.{String}
use hide_self_tgws.WorkerPool.{WorkerPool, Refusal, per_dc_limit, available_domains, connect_one}

abbrev pub Untouched : WorkerPool → ℕ → WorkerPool → Type 0
Untouched p dc q =
    (q.idle ≡ p.idle)
    × (q.refill_failures ≡ p.refill_failures)
    × (q.refill_after ≡ p.refill_after)
    × (get_or dc false q.refilling ≡ false)

-- The connection joins the bucket and the backoff is over; or it is closed, since the task is not
-- the data centre's refill any more, and nothing else changes.
abbrev pub Joined : Bool → ℕ → WorkerPool → ℕ → ℕ → String → WorkerPool → Type 0
Joined true later m dc ws worker q =
    (get_or dc [] q.idle ≡ get_or dc [] m.idle ++ ((ws, later, worker) ∷ []))
    × (get_or dc 0 q.refill_failures ≡ 0)
    × (get_or dc 0 q.refill_after ≡ 0)
    × (get_or dc false q.refilling ≡ false)
Joined false later m dc ws worker q = q ≡ record m { closing = m.closing ++ (ws ∷ []) }

-- One failure more, and no refill for a minute doubled with each failure, at most an hour.
abbrev pub Missed : ℕ → WorkerPool → ℕ → WorkerPool → Type 0
Missed later m dc q =
    (q.idle ≡ m.idle)
    × (get_or dc 0 q.refill_failures ≡ get_or dc 0 m.refill_failures + 1)
    × (get_or dc 0 q.refill_after
        ≡ later + min (60000 * 2 ^ min (get_or dc 0 m.refill_failures) 6) 3600000)

module _ (shuffle : List String → List String) (dial : String → ℕ × Option ℕ × Refusal) where
  -- What a refill leaves: nothing to do, a connection, or none.
  abbrev pub Refilled :
      ℕ
      → (WorkerPool → WorkerPool)
      → Bool
      → ℕ
      → ℕ
      → ℕ
      → List String
      → WorkerPool
      → ℕ
      → WorkerPool
      → Type 0
  Refilled pool_size meanwhile current now again later workers p dc q =
      let looked = available_domains shuffle now workers p in
      let dialled = connect_one shuffle dial again workers looked.1 in
      let m = meanwhile dialled.1 in
      (((min pool_size per_dc_limit ≤ length (get_or dc [] p.idle)) ⊎ (looked.0 ≡ []))
        × Untouched p dc q)
      ⊎ (((ws : ℕ) × (worker : String) × (dialled.0 ≡ some (ws, worker))
            × Joined current later m dc ws worker q)
          ⊎ ((dialled.0 ≡ none) × Missed later m dc q))
