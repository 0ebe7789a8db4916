-- ===== src/WsPool/Rotating.antt =====
-- What a round of `_rotate` leaves and when it wakes up.
use hide_self_tgws.Base.{
  ℕ, ◌+◌, ◌≤◌, ◌<◌, min, Bool, false, not, List, [], ◌∷◌, ◌++◌, length, ltb, Bool-cases, inl, inr,
  if◌then◌else◌, ◌≡◌, refl, ◌∙◌, ap, arith, All,
}
use hide_self_tgws.Base.Dict.{Eq, get_or, insert, get_or-insert, beq_self}
use mathlib.Core.Path.{subst, sym}
use hide_self_tgws.WsPool.{
  Entry, WsPool, max_age, check_interval, is_stale, sweep, earliest_expiry, bucket_of, sweep_bucket,
  connections, wake_time, rotate_round,
}
use hide_self_tgws.WsPool.Serving.{schedule_refill_lem}

-- The entries for which a test holds, in order.
unfoldable pub those : (Entry → Bool) → List Entry → List Entry
those test [] = []
those test (x ∷ bucket) = let rest = those test bucket in if test x then x ∷ rest else rest

module _ (gone : ℕ → Bool) (now : ℕ) where
  abbrev pub Fresh : List Entry → Type 0
  Fresh = All (λ x. is_stale gone now x ≡ false)

  sweep-Fresh : (bucket : List Entry) → Fresh (sweep gone now bucket).1
  unfolding sweep
  sweep-Fresh [] = tt
  sweep-Fresh (e ∷ bucket) = elim (Bool-cases (is_stale gone now e)) [
    | inl stale ↦ rw (sweep, stale) (sweep-Fresh bucket)
    | inr fresh ↦ rw (sweep, fresh) (fresh, sweep-Fresh bucket)
  ]

  sweep_lem :
      (bucket : List Entry)
      → ((sweep gone now bucket).0 ≡ connections (those (is_stale gone now) bucket))
        × ((sweep gone now bucket).1 ≡ those (λ x. not (is_stale gone now x)) bucket)
  unfolding sweep those connections
  sweep_lem [] = (refl, refl)
  sweep_lem (e ∷ bucket) =
      let (closed, kept) = sweep_lem bucket in
      elim (Bool-cases (is_stale gone now e)) [
        | inl stale ↦ rw (stale) (ap (◌∷◌ e.0) closed, kept)
        | inr fresh ↦ rw (fresh) (closed, ap (◌∷◌ e) kept)
      ]

  wakes_after :
      (bound : ℕ) (bucket : List Entry)
      → now < bound
      → Fresh bucket
      → now < earliest_expiry bound bucket
  unfolding earliest_expiry is_stale
  wakes_after bound [] h fresh = h
  wakes_after bound (e ∷ bucket) h (fresh, all) =
      wakes_after (min bound (e.1 + max_age)) bucket (ground (arith, h, fresh)) all

wakes_by : (bound : ℕ) (bucket : List Entry) → earliest_expiry bound bucket ≤ bound
unfolding earliest_expiry
wakes_by bound [] = omega arith
wakes_by bound (e ∷ bucket) = omega (arith, wakes_by (min bound (e.1 + max_age)) bucket)

-- No connection of a bucket expires before the time given.
abbrev pub Outlives : ℕ → List Entry → Type 0
Outlives t = All (λ x. t ≤ x.1 + max_age)

Outlives-earlier : (t u : ℕ) (bucket : List Entry) → t ≤ u → Outlives u bucket → Outlives t bucket
Outlives-earlier t u [] h o = tt
Outlives-earlier t u (e ∷ bucket) h (o, all) = (omega arith, Outlives-earlier t u bucket h all)

earliest_expiry-Outlives :
    (bound : ℕ) (bucket : List Entry) → Outlives (earliest_expiry bound bucket) bucket
unfolding earliest_expiry
earliest_expiry-Outlives bound [] = tt
earliest_expiry-Outlives bound (e ∷ bucket) = (
  omega (arith, wakes_by (min bound (e.1 + max_age)) bucket),
  earliest_expiry-Outlives (min bound (e.1 + max_age)) bucket,
)

module _ {K : Type 0} ⦃e : Eq K⦄ (pool_size : ℕ) (gone : ℕ → Bool) where
  sweep_bucket_lem :
      (now later : ℕ) (p : WsPool K) (key : K)
      → 0 < pool_size
      → let q = sweep_bucket pool_size gone now later p key in
        let s = sweep gone now (bucket_of pool_size gone p key) in
        (bucket_of pool_size gone q key ≡ s.1) × (q.closing ≡ p.closing ++ s.0)
  sweep_bucket_lem now later p key positive =
      let s = sweep gone now (bucket_of pool_size gone p key) in
      let swept = record p { idle = insert key s.1 p.idle; closing = p.closing ++ s.0 } in
      let scheduled = schedule_refill_lem pool_size gone later swept key positive in
      let put : get_or key [] (insert key s.1 p.idle) ≡ s.1 =
        get_or-insert key key [] s.1 p.idle
        ∙ ap (λ t. if t then s.1 else get_or key [] p.idle) (beq_self key) in
      elim (Bool-cases (ltb (length s.1) pool_size)) [
        | inl short ↦
            unfold sweep_bucket in
            rw (short) (unfold bucket_of in ap (get_or key []) scheduled.0 ∙ put, scheduled.1)
        | inr full ↦ unfold sweep_bucket in rw (full) (unfold bucket_of in put, refl)
      ]

  wake_time_lem :
      (now : ℕ) (p : WsPool K) (key : K)
      → Fresh gone now (bucket_of pool_size gone p key)
      → let wake = wake_time pool_size gone now p key in
        (now < wake)
        × (wake ≤ now + check_interval)
        × Outlives wake (bucket_of pool_size gone p key)
  wake_time_lem now p key fresh =
      let bucket = bucket_of pool_size gone p key in
      let wake = wake_time pool_size gone now p key in
      let bound = earliest_expiry (now + check_interval) bucket in
      let positive : now < bound =
        wakes_after gone now (now + check_interval) bucket (omega arith) fresh in
      let capped : wake ≤ bound = unfold wake_time in ground arith in
      (
        unfold wake_time in ground (arith, positive),
        omega (arith, capped, wakes_by (now + check_interval) bucket),
        Outlives-earlier wake bound bucket capped
            (earliest_expiry-Outlives (now + check_interval) bucket),
      )

  -- With a pool in use, a round of the rotation closes exactly the connections of the key's bucket
  -- that are stale, in order, and leaves the others as they were; it wakes up strictly later than it
  -- ran, so that it never spins, at most five seconds later, and not after any connection left in
  -- the bucket has expired.
  pub rotate_round-Fresh :
      (now later : ℕ) (p : WsPool K) (key : K)
      → 0 < pool_size
      → let r = rotate_round pool_size gone now later p key in
        let bucket = bucket_of pool_size gone p key in
        let left = bucket_of pool_size gone r.0 key in
        (left ≡ those (λ x. not (is_stale gone now x)) bucket)
        × (r.0.closing ≡ p.closing ++ connections (those (is_stale gone now) bucket))
        × (now < r.1)
        × (r.1 ≤ now + check_interval)
        × Outlives r.1 left
  unfolding rotate_round
  rotate_round-Fresh now later p key positive =
      let q = sweep_bucket pool_size gone now later p key in
      let bucket = bucket_of pool_size gone p key in
      let swept = sweep_bucket_lem now later p key positive in
      let fresh : Fresh gone now (bucket_of pool_size gone q key) =
        subst (Fresh gone now) (sym swept.0) (sweep-Fresh gone now bucket) in
      let wake = wake_time_lem now q key fresh in
      let parts = sweep_lem gone now bucket in
      (swept.0 ∙ parts.1, swept.1 ∙ ap (◌++◌ p.closing) parts.0, wake.0, wake.1, wake.2)
