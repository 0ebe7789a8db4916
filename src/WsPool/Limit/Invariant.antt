-- ===== src/WsPool/Limit/Invariant.antt =====
-- The invariant behind the limit, and that every step keeps it.
use hide_self_tgws.Base.{
  ℕ, ◌+◌, ◌-◌, ◌≤◌, ◌<◌, Bool, true, false, not, ◌&&◌, ◌||◌, none, some, Option-cases, List, [],
  ◌∷◌, ◌++◌, length, length-append, ltb, ◌==◌, Bool-cases, inl, inr, if◌then◌else◌, ◌≡◌, refl, sym,
  ◌∙◌, ap, arith,
}
use mathlib.Core.Path.{subst}
use hide_self_tgws.Base.Dict.{
  Eq, ◌=?◌, lookup, get_or, insert, erase, lookup-insert, lookup-erase, get_or-insert,
}
use hide_self_tgws.WsPool.{
  Entry, WsPool, is_stale, pop_ready, sweep, has, is_task, bucket_of, schedule_rotation,
  schedule_refill, get, refill_collect, sweep_bucket, rotate_round,
}
use hide_self_tgws.WsPool.Limit.{set_dials}

length-pop_ready :
    (gone : ℕ → Bool) (now : ℕ) (bucket : List Entry) (ws : ℕ) (left : List Entry)
    → (pop_ready gone now bucket).1 ≡ some (ws, left)
    → length left ≤ length bucket
unfolding pop_ready
length-pop_ready gone now [] ws left h = absurd (unfold pop_ready in cc)
length-pop_ready gone now (x ∷ bucket) ws left h = elim (Bool-cases (is_stale gone now x)) [
  | inl stale ↦
      let rest =
        length-pop_ready gone now bucket ws left (unfold pop_ready in ground (arith, h, stale)) in
      omega (arith, rest)
  | inr fresh ↦
      let same : bucket ≡ left = unfold pop_ready in ground (arith, h, fresh) in
      omega (arith, ap length same)
]

length-sweep_left :
    (gone : ℕ → Bool) (now : ℕ) (bucket : List Entry)
    → length (sweep gone now bucket).1 ≤ length bucket
unfolding sweep
length-sweep_left gone now [] = omega arith
length-sweep_left gone now (x ∷ bucket) =
    let rest = length-sweep_left gone now bucket in
    elim (Bool-cases (is_stale gone now x)) [
      | inl stale ↦ rw (sweep, stale) (omega (arith, rest))
      | inr fresh ↦ rw (sweep, fresh) (omega (arith, rest))
    ]

module _ {K : Type 0} ⦃e : Eq K⦄ (pool_size : ℕ) (gone : ℕ → Bool) where
  -- The dials that the key's running refill has yet to complete.
  unfoldable pub owed : (K → ℕ → ℕ) → List (K × ℕ) → K → ℕ
  owed dials refilling k = elim (lookup k refilling) [ none ↦ 0 | some t ↦ dials k t ]

  -- Every bucket has room for the dials that its refill has yet to complete, and a task that does
  -- not exist yet has none.
  pub record IsBounded (dials : K → ℕ → ℕ) (p : WsPool K) : Type 0 where
    pub room :
        (k : K) → length (bucket_of pool_size gone p k) + owed dials p.refilling k ≤ pool_size
    pub unused : (k : K) (t : ℕ) → p.next_task ≤ t → dials k t ≡ 0

  -- A step that takes connections away at most, and keeps the tasks.
  pub shrink-IsBounded :
      (dials : K → ℕ → ℕ) (p q : WsPool K)
      → ((k : K) → length (bucket_of pool_size gone q k) ≤ length (bucket_of pool_size gone p k))
      → q.refilling ≡ p.refilling
      → q.next_task ≡ p.next_task
      → IsBounded dials p
      → IsBounded dials q
  shrink-IsBounded dials p q less same_tasks same_next bounded = record {
    room = λ k. omega (arith, less k, ap (λ m. owed dials m k) same_tasks, bounded.room k);
    unused = λ k t h. bounded.unused k t (omega (arith, h, same_next));
  }

  schedule_rotation-IsBounded :
      (dials : K → ℕ → ℕ) (p : WsPool K) (key : K)
      → IsBounded dials p
      → IsBounded dials (schedule_rotation pool_size gone p key)
  unfolding schedule_rotation
  schedule_rotation-IsBounded dials p key bounded = elim (Bool-cases (has key p.rotating)) [
    | inl running ↦ rw (schedule_rotation, running) bounded
    | inr idle ↦
        rw (schedule_rotation, idle)
          (record {
            room = unfold bucket_of in bounded.room;
            unused = λ k t h. bounded.unused k t (omega arith);
          })
  ]

  owed-insert :
      (dials : K → ℕ → ℕ) (key k : K) (task : ℕ) (refilling : List (K × ℕ))
      → dials k task ≡ 0
      → owed dials (insert key task refilling) k ≤ owed dials refilling k
  unfolding owed
  owed-insert dials key k task refilling none_left =
      ground (arith, lookup-insert key k task refilling, none_left)

  pub owed-erase :
      (dials : K → ℕ → ℕ) (key k : K) (refilling : List (K × ℕ))
      → owed dials (erase key refilling) k ≤ owed dials refilling k
  unfolding owed
  owed-erase dials key k refilling = ground (arith, lookup-erase key k refilling)

  -- The key's bucket replaced by one that is no longer.
  bucket-replaced :
      (p : WsPool K) (key k : K) (left : List Entry)
      → length left ≤ length (bucket_of pool_size gone p key)
      → length (get_or k [] (insert key left p.idle)) ≤ length (bucket_of pool_size gone p k)
  unfolding bucket_of
  bucket-replaced p key k left less = elim (Bool-cases (key =? k)) [
    | inl same ↦
        let at : key ≡ k = (e.beq_iff key k).0 same in
        let less_there = subst (λ x. length left ≤ length (get_or x [] p.idle)) at less in
        rw (get_or-insert key k [] left p.idle, same) less_there
    | inr differs ↦ rw (get_or-insert key k [] left p.idle, differs) (omega arith)
  ]

  schedule_refill-IsBounded :
      (now : ℕ) (dials : K → ℕ → ℕ) (p : WsPool K) (key : K)
      → IsBounded dials p
      → IsBounded dials (schedule_refill pool_size gone now p key)
  unfolding schedule_refill
  schedule_refill-IsBounded now dials p key bounded =
      let q = schedule_rotation pool_size gone p key in
      let rotates = schedule_rotation-IsBounded dials p key bounded in
      elim (Bool-cases (pool_size == 0)) [
        | inl off ↦ rw (schedule_refill, off) bounded
        | inr on ↦
            elim (Bool-cases (has key q.refilling || ltb now (get_or key 0 q.refill_after))) [
              | inl busy ↦ rw (schedule_refill, on, busy) rotates
              | inr free ↦
                  rw (schedule_refill, on, free)
                    (record {
                      room = λ k.
                          let owes =
                            owed-insert dials key k q.next_task q.refilling
                              (rotates.unused k q.next_task (omega arith)) in
                          let fits : length (get_or k [] q.idle) + owed dials q.refilling k
                              ≤ pool_size =
                            unfold bucket_of in rotates.room k in
                          unfold bucket_of in omega (arith, owes, fits);
                      unused = λ k t h. rotates.unused k t (omega arith);
                    })
            ]
      ]

  pub get-IsBounded :
      (redirected : Bool) (now later : ℕ) (dials : K → ℕ → ℕ) (p : WsPool K) (key : K)
      → IsBounded dials p
      → IsBounded dials (get pool_size gone redirected now later p key).1
  unfolding get
  get-IsBounded redirected now later dials p key bounded =
      let bucket = bucket_of pool_size gone p key in
      let closing = p.closing ++ (pop_ready gone now bucket).0 in
      elim (Bool-cases (not redirected || pool_size == 0)) [
        | inl off ↦ rw (get, off) bounded
        | inr on ↦ elim (Option-cases (pop_ready gone now bucket).1) [
          | inl empty ↦
              let q = record p {
                closing = closing;
                idle = insert key [] p.idle;
                pool_misses = p.pool_misses + 1;
              } in
              rw (get, on, empty)
                (schedule_refill-IsBounded later dials q key (
                  shrink-IsBounded dials p q
                    (λ k. unfold bucket_of in bucket-replaced p key k [] (omega arith)) refl refl
                    bounded))
          | inr hit ↦
              let (taken, found) = hit in
              let (ws, left) = taken in
              let q = record p {
                closing = closing;
                idle = insert key left p.idle;
                pool_hits = p.pool_hits + 1;
              } in
              rw (get, on, found)
                (schedule_refill-IsBounded later dials q key (
                  shrink-IsBounded dials p q
                    (λ k.
                      unfold bucket_of in
                      bucket-replaced p key k left (length-pop_ready gone now bucket ws left found))
                    refl refl bounded))
        ]
      ]

  pub rotate_round-IsBounded :
      (now later : ℕ) (dials : K → ℕ → ℕ) (p : WsPool K) (key : K)
      → IsBounded dials p
      → IsBounded dials (rotate_round pool_size gone now later p key).0
  unfolding rotate_round sweep_bucket
  rotate_round-IsBounded now later dials p key bounded =
      let s = sweep gone now (bucket_of pool_size gone p key) in
      let swept = record p { idle = insert key s.1 p.idle; closing = p.closing ++ s.0 } in
      let shrunk =
        shrink-IsBounded dials p swept
          (λ k.
            unfold bucket_of in
            bucket-replaced p key k s.1
              (length-sweep_left gone now (bucket_of pool_size gone p key)))
          refl refl bounded in
      elim (Bool-cases (ltb (length s.1) pool_size)) [
        | inl short ↦
            rw (sweep_bucket, short) (schedule_refill-IsBounded later dials swept key shrunk)
        | inr full ↦ rw (sweep_bucket, full) shrunk
      ]

  owed-set_dials :
      (dials : K → ℕ → ℕ) (key k : K) (task n room : ℕ) (refilling : List (K × ℕ))
      → ((key =? k && is_task key task refilling) ≡ false → owed dials refilling k ≤ room)
      → (key ≡ k → is_task key task refilling ≡ true → n ≤ room)
      → owed (set_dials pool_size gone dials key task n) refilling k ≤ room
  unfolding owed set_dials
  owed-set_dials dials key k task n room refilling fits spent =
      elim (Option-cases (lookup k refilling)) [
        | inl none_running ↦ rw (owed, none_running) (omega arith)
        | inr running ↦
            let (t, found) = running in
            elim (Bool-cases (key =? k)) [
              | inl same ↦
                  let at : key ≡ k = (e.beq_iff key k).0 same in
                  let found_there = subst (λ x. lookup x refilling ≡ some t) (sym at) found in
                  elim (Bool-cases (task == t)) [
                    | inl this ↦
                        let current : is_task key task refilling ≡ true =
                          unfold is_task in ground (arith, found_there, this) in
                        rw (owed, found, set_dials, same, this) (spent at current)
                    | inr other ↦
                        let replaced : (key =? k && is_task key task refilling) ≡ false =
                          unfold is_task in ground (arith, found_there, other, same) in
                        let fits_t : dials k t ≤ room = ground (arith, fits replaced, found) in
                        rw (owed, found, set_dials, same, other) fits_t
                  ]
              | inr differs ↦
                  let apart : (key =? k && is_task key task refilling) ≡ false =
                    ground (arith, differs) in
                  let fits_t : dials k t ≤ room = ground (arith, fits apart, found) in
                  rw (owed, found, set_dials, differs) fits_t
            ]
      ]

  pub set_dials-IsBounded :
      (dials : K → ℕ → ℕ) (p q : WsPool K) (key : K) (task n : ℕ)
      → ((k : K) → length (bucket_of pool_size gone q k) ≤ pool_size)
      → ((k : K)
          → (key =? k && is_task key task p.refilling) ≡ false
          → length (bucket_of pool_size gone q k) ≤ length (bucket_of pool_size gone p k))
      → (is_task key task p.refilling ≡ true
          → length (bucket_of pool_size gone q key) + n ≤ pool_size)
      → (p.next_task ≤ task → n ≡ 0)
      → q.refilling ≡ p.refilling
      → q.next_task ≡ p.next_task
      → IsBounded dials p
      → IsBounded (set_dials pool_size gone dials key task n) q
  set_dials-IsBounded dials p q key task n small kept fits_here fresh same_tasks same_next bounded =
      record {
        room = λ k.
            let there =
              owed-set_dials dials key k task n (pool_size - length (bucket_of pool_size gone q k))
                p.refilling (λ apart. omega (arith, kept k apart, bounded.room k))
                (λ at current.
                  let here =
                    subst (λ x. length (bucket_of pool_size gone q x) + n ≤ pool_size) at
                      (fits_here current) in
                  omega (arith, here)) in
            omega (
              arith,
              there,
              small k,
              ap (λ m. owed (set_dials pool_size gone dials key task n) m k) same_tasks,
            );
        unused = λ k t h.
            unfold set_dials in
            ground (arith, bounded.unused k t (omega (arith, h, same_next)), fresh, h, same_next);
      }

  pub small :
      (dials : K → ℕ → ℕ) (p : WsPool K)
      → IsBounded dials p
      → (k : K) → length (bucket_of pool_size gone p k) ≤ pool_size
  small dials p bounded k = omega (arith, bounded.room k)

  pub owed-current :
      (dials : K → ℕ → ℕ) (key : K) (task : ℕ) (refilling : List (K × ℕ))
      → is_task key task refilling ≡ true
      → owed dials refilling key ≡ dials key task
  unfolding owed is_task
  owed-current dials key task refilling current = elim (Option-cases (lookup key refilling)) [
    | inl none_running ↦ absurd (ground (arith, current, none_running))
    | inr running ↦
        let (t, found) = running in
        let this : t ≡ task = ground (arith, current, found) in
        rw (owed, found) (ap (dials key) this)
  ]

  pub refill_collect-IsBounded :
      (now : ℕ) (dials : K → ℕ → ℕ) (p : WsPool K) (key : K) (task ws : ℕ)
      → 0 < dials key task
      → IsBounded dials p
      → let r = refill_collect pool_size gone now p key task ws in
        IsBounded
          (set_dials pool_size gone dials key task (if r.0 then dials key task - 1 else 0))
          r.1
  unfolding refill_collect
  refill_collect-IsBounded now dials p key task ws some_left bounded =
      elim (Bool-cases (is_task key task p.refilling)) [
        | inl current ↦ rw (refill_collect, current) (adopted current)
        | inr replaced ↦
            let q = record p { closing = p.closing ++ (ws ∷ []) } in
            rw (refill_collect, replaced)
              (set_dials-IsBounded dials p q key task 0 (unfold bucket_of in small dials p bounded)
                (λ k apart. unfold bucket_of in omega arith)
                (λ current. absurd (ground (arith, current, replaced))) (λ h. refl) refl refl
                bounded)
      ]
    where
      adopted :
          is_task key task p.refilling ≡ true
          → IsBounded (set_dials pool_size gone dials key task (dials key task - 1)) (record p {
            idle = insert key (bucket_of pool_size gone p key ++ ((ws, now) ∷ [])) p.idle;
          })
      adopted current =
          let bucket = bucket_of pool_size gone p key in
          let longer = bucket ++ ((ws, now) ∷ []) in
          let q = record p { idle = insert key longer p.idle } in
          let one_more = length-append bucket ((ws, now) ∷ []) in
          let owing = owed-current dials key task p.refilling current in
          let at_key : (k : K) → key ≡ k → bucket_of pool_size gone q k ≡ longer = λ k at.
            unfold bucket_of in
            get_or-insert key k [] longer p.idle
            ∙ ap (λ t. if t then longer else get_or k [] p.idle) ((e.beq_iff key k).1 at) in
          let elsewhere : (k : K)
              → (key =? k) ≡ false
              → bucket_of pool_size gone q k ≡ bucket_of pool_size gone p k =
            λ k differs.
              unfold bucket_of in
              get_or-insert key k [] longer p.idle
              ∙ ap (λ t. if t then longer else get_or k [] p.idle) differs in
          set_dials-IsBounded dials p q key task (dials key task - 1)
            (λ k. elim (Bool-cases (key =? k)) [
              | inl same ↦ omega (
                arith,
                ap length (at_key k ((e.beq_iff key k).0 same)),
                one_more,
                owing,
                bounded.room key,
                some_left,
              )
              | inr differs ↦ omega (arith, ap length (elsewhere k differs), bounded.room k)
            ])
            (λ k apart. omega (arith, ap length (elsewhere k (ground (arith, apart, current)))))
            (λ c.
              omega
                (arith, ap length (at_key key refl), one_more, owing, bounded.room key, some_left))
            (λ h. omega (arith, bounded.unused key task h)) refl refl bounded
