-- ===== src/WsPool/Serving.antt =====
-- What `get` hands out.
use hide_self_tgws.Base.{
  ℕ, ◌+◌, ◌<◌, Bool, true, false, ◌||◌, Option, none, some, List, [], ◌∷◌, ◌++◌, ltb, ◌==◌,
  Bool-cases, inl, inr, ◌⊎◌, if◌then◌else◌, ◌≡◌, refl, sym, ◌∙◌, ap, arith, All,
}
use hide_self_tgws.Base.Dict.{Eq, lookup-insert, get_or, insert, get_or-insert, beq_self}
use mathlib.Core.Path.{subst}
use hide_self_tgws.WsPool.{
  Entry, WsPool, is_stale, pop_ready, connections, has, bucket_of, schedule_rotation,
  schedule_refill, get,
}

module _ (gone : ℕ → Bool) (now : ℕ) where
  abbrev Stale : List Entry → Type 0
  Stale = All (λ x. is_stale gone now x ≡ true)

  -- How `get` takes a bucket apart, for a result, the connections it closes and the bucket it
  -- leaves: a hit is the first connection that is not stale, all those before it are closed and
  -- those behind it stay; a miss means that every one was stale and closed.
  abbrev pub Served : List Entry → Option ℕ → List ℕ → List Entry → Type 0
  Served bucket none closed left = Stale bucket × (closed ≡ connections bucket) × (left ≡ [])
  Served bucket (some ws) closed left =
      (older : List Entry) × (created : ℕ) × (bucket ≡ older ++ (ws, created) ∷ left)
      × Stale older
      × (is_stale gone now (ws, created) ≡ false)
      × (closed ≡ connections older)

  -- What the loop of `get` returns, in the same terms.
  abbrev Popped : List Entry → List ℕ → Option (ℕ × List Entry) → Type 0
  Popped bucket closed none = Served bucket none closed []
  Popped bucket closed (some (ws, left)) = Served bucket (some ws) closed left

  Popped-one_more :
      (e : Entry) (bucket : List Entry) (closed : List ℕ) (o : Option (ℕ × List Entry))
      → is_stale gone now e ≡ true
      → Popped bucket closed o
      → Popped (e ∷ bucket) (e.0 ∷ closed) o
  unfolding connections
  Popped-one_more e bucket closed none stale (all, eq, none_left) =
      ((stale, all), ap (λ cs. e.0 ∷ cs) eq, refl)
  Popped-one_more e bucket closed (some (ws, left)) stale (older, created, split, all, fresh, eq) =
      (e ∷ older, created, ap (λ b. e ∷ b) split, (stale, all), fresh, ap (λ cs. e.0 ∷ cs) eq)

  pop_ready-Popped :
      (bucket : List Entry)
      → Popped bucket (pop_ready gone now bucket).0 (pop_ready gone now bucket).1
  unfolding pop_ready connections
  pop_ready-Popped [] = (tt, refl, refl)
  pop_ready-Popped (e ∷ bucket) =
      let rest = pop_ready-Popped bucket in
      elim (Bool-cases (is_stale gone now e)) [
        | inl stale ↦
            rw (pop_ready, stale)
              (Popped-one_more e bucket (pop_ready gone now bucket).0 (pop_ready gone now bucket).1
                stale rest)
        | inr fresh ↦ rw (pop_ready, fresh) ([], e.1, refl, tt, fresh, refl)
      ]

has-insert :
    {K : Type 0} {V : Type 0} ⦃e : Eq K⦄ (k : K) (v : V) (m : List (K × V))
    → has k (insert k v m) ≡ true
unfolding has
has-insert ⦃e⦄ k v m = ground (arith, lookup-insert k k v m, beq_self k)

module _ {K : Type 0} ⦃e : Eq K⦄ (pool_size : ℕ) (gone : ℕ → Bool) where
  -- Scheduling a refill touches no bucket and closes nothing, and leaves the key with a running
  -- rotation, and with a running refill unless its backoff is not over.
  pub schedule_refill_lem :
      (now : ℕ) (p : WsPool K) (key : K)
      → 0 < pool_size
      → ((schedule_refill pool_size gone now p key).idle ≡ p.idle)
        × ((schedule_refill pool_size gone now p key).closing ≡ p.closing)
        × (has key (schedule_refill pool_size gone now p key).rotating ≡ true)
        × ((has key (schedule_refill pool_size gone now p key).refilling
              || ltb now (get_or key 0 p.refill_after))
            ≡ true)
  schedule_refill_lem now p key positive =
      let rotates = has-insert key p.next_task p.rotating in
      let refills = has-insert key p.next_task p.refilling in
      let refills_next = has-insert key (p.next_task + 1) p.refilling in
      unfold schedule_refill schedule_rotation in ground (arith, rotates, refills, refills_next)

  -- The pool with the statistics of a hit or a miss, its bucket replaced and a refill scheduled.
  served-pool :
      (later : ℕ) (p q : WsPool K) (key : K) (closed : List ℕ) (left : List Entry)
      → q.idle ≡ insert key left p.idle
      → q.closing ≡ p.closing ++ closed
      → q.refill_after ≡ p.refill_after
      → 0 < pool_size
      → let r = schedule_refill pool_size gone later q key in
        (r.closing ≡ p.closing ++ closed)
        × (bucket_of pool_size gone r key ≡ left)
        × (has key r.rotating ≡ true)
        × ((has key r.refilling || ltb later (get_or key 0 p.refill_after)) ≡ true)
  unfolding bucket_of
  served-pool later p q key closed left idle closing after positive =
      let scheduled = schedule_refill_lem later q key positive in
      (
        scheduled.1 ∙ closing,
        ap (get_or key []) (scheduled.0 ∙ idle)
            ∙ get_or-insert key key [] left p.idle
            ∙ ap (λ t. if t then left else get_or key [] p.idle) (beq_self key),
        scheduled.2,
        ap
              (λ m.
                has key (schedule_refill pool_size gone later q key).refilling
                || ltb later (get_or key 0 m))
              (sym after)
            ∙ scheduled.3,
      )

  abbrev Serves : ℕ → ℕ → WsPool K → K → Option ℕ × WsPool K → Type 0
  Serves now later p key r =
      ((closed : List ℕ) × (r.1.closing ≡ p.closing ++ closed)
        × Served gone now (bucket_of pool_size gone p key) r.0 closed
            (bucket_of pool_size gone r.1 key))
      × (has key r.1.rotating ≡ true)
      × ((has key r.1.refilling || ltb later (get_or key 0 p.refill_after)) ≡ true)

  get-Serves :
      (now later : ℕ) (p : WsPool K) (key : K) (o : Option (ℕ × List Entry))
      → (pop_ready gone now (bucket_of pool_size gone p key)).1 ≡ o
      → Popped gone now
          (bucket_of pool_size gone p key)
          (pop_ready gone now (bucket_of pool_size gone p key)).0
          o
      → 0 < pool_size
      → Serves now later p key (get pool_size gone true now later p key)
  unfolding get
  get-Serves now later p key none e popped positive =
      let closed = (pop_ready gone now (bucket_of pool_size gone p key)).0 in
      let q = record p {
        closing = p.closing ++ closed;
        idle = insert key [] p.idle;
        pool_misses = p.pool_misses + 1;
      } in
      let s = served-pool later p q key closed [] refl refl refl positive in
      let in_use : (pool_size == 0) ≡ false = ground (arith, positive) in
      let result : get pool_size gone true now later p key
          ≡ (none, schedule_refill pool_size gone later q key) =
        rw (get, in_use, e) refl in
      subst (λ r. Serves now later p key r) (sym result)
        ((closed, s.0, (popped.0, popped.1, s.1)), s.2, s.3)
  get-Serves now later p key (some (ws, left)) e popped positive =
      let closed = (pop_ready gone now (bucket_of pool_size gone p key)).0 in
      let q = record p {
        closing = p.closing ++ closed;
        idle = insert key left p.idle;
        pool_hits = p.pool_hits + 1;
      } in
      let s = served-pool later p q key closed left refl refl refl positive in
      let in_use : (pool_size == 0) ≡ false = ground (arith, positive) in
      let result : get pool_size gone true now later p key
          ≡ (some ws, schedule_refill pool_size gone later q key) =
        rw (get, in_use, e) refl in
      let there =
        subst (λ b. Served gone now (bucket_of pool_size gone p key) (some ws) closed b) (sym s.1)
          popped in
      subst (λ r. Serves now later p key r) (sym result) ((closed, s.0, there), s.2, s.3)

  -- For a redirected data centre and a pool in use, `get` returns the first connection of the
  -- key's bucket that is not stale, closes exactly the stale ones before it and keeps those
  -- behind it, or closes them all and returns none; hit or miss, a rotation runs afterwards and so
  -- does a refill, unless its backoff is not over. Otherwise it changes nothing and returns none.
  pub get-Served :
      (redirected : Bool) (now later : ℕ) (p : WsPool K) (key : K)
      → let r = get pool_size gone redirected now later p key in
        ((redirected ≡ false) ⊎ (pool_size ≡ 0) → r ≡ (none, p))
        × (redirected ≡ true
            → 0 < pool_size
            → ((closed : List ℕ) × (r.1.closing ≡ p.closing ++ closed)
                × Served gone now
                    (bucket_of pool_size gone p key)
                    r.0
                    closed
                    (bucket_of pool_size gone r.1 key))
              × (has key r.1.rotating ≡ true)
              × ((has key r.1.refilling || ltb later (get_or key 0 p.refill_after)) ≡ true))
  get-Served redirected now later p key =
      let popped = pop_ready-Popped gone now (bucket_of pool_size gone p key) in
      let r = pop_ready gone now (bucket_of pool_size gone p key) in
      (
        λ unused. unfold get in ground (arith, unused),
        λ is_redirected positive.
            rw (is_redirected) (get-Serves now later p key r.1 refl popped positive),
      )
