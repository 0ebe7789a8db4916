-- ===== src/Http2/Channel/Sending.antt =====
-- The steps of `send`: room is taken before a request starts, and given back when it does not.
use hide_self_tgws.Base.{
  ℕ, suc, ◌+◌, max, Bool, true, false, not, ◌&&◌, ◌||◌, Option, none, some, List, [], ◌∷◌, ◌++◌,
  Result, ok, err, connection_error, ◌≡◌, ◌⊎◌, refl, ap, arith, length-append, Bool-cases, inl, inr,
  Option-cases,
}
use hide_self_tgws.Http2.Channel.{
  Lane, lane_has_capacity, reserve, release, Stage, idle, lane_wait, reserved, HttpChannel,
  has_capacity, start_send, reserve_lane, give_up, commit_send,
}
use hide_self_tgws.Http2.Channel.Steps.{start, get_room, time_out, commit, perform, with_lane}
use hide_self_tgws.Http2.Channel.Counts.{
  task_bytes, staged_count, staged_bytes, reserved_count, reserved_bytes, load, load_bytes, Effect,
  Start, unchanged,
}

Stage-cases :
    (st : Stage)
    → (st ≡ idle)
      ⊎ ((replay : Bool) × (n : ℕ) × (st ≡ lane_wait replay n))
      ⊎ ((replay : Bool) × (n : ℕ) × (st ≡ reserved replay n))
Stage-cases idle = inl refl
Stage-cases (lane_wait replay n) = inr (inl (replay, n, refl))
Stage-cases (reserved replay n) = inr (inr (replay, n, refl))

-- A `send` that began its wait for the lane.
begun :
    (replay : Bool) (n : ℕ) (lane : Lane) (c : HttpChannel)
    → Start lane c
    → c.sending ≡ idle
    → has_capacity n c ≡ true
    → Effect lane lane c (record c { sending = lane_wait replay n })
unfolding has_capacity load load_bytes staged_count staged_bytes reserved_count reserved_bytes
begun replay n lane c s was room =
    let no_count : reserved_count c.sending ≡ 0 = ap reserved_count was in
    let no_bytes : reserved_bytes c.sending ≡ 0 = ap reserved_bytes was in
    record {
      valid = record {
        counted = s.valid.counted;
        requests_bound = ground (arith, room);
        bytes_bound = ground (arith, room);
        replies_counted = s.valid.replies_counted;
        replies_bound = s.valid.replies_bound;
        queue_bound = s.valid.queue_bound;
      };
      bounds = s.bounds;
      inflight_moves = omega (arith, no_count);
      bytes_move = omega (arith, no_bytes);
    }

start_send-inv :
    (replay : Bool) (n : ℕ) (c c' : HttpChannel)
    → start_send replay n c ≡ some c'
    → (c ≡ c')
      ⊎ ((c.sending ≡ idle)
          × (has_capacity n c ≡ true)
          × (record c { sending = lane_wait replay n } ≡ c'))
unfolding start_send
start_send-inv replay n c c' e = elim (Stage-cases c.sending) [
  | inl is ↦ elim (Bool-cases (has_capacity n c)) [
    | inl room ↦ elim (Bool-cases c.closed) [
      | inl shut ↦ inl (ground (arith, e, is, room, shut))
      | inr live ↦ inr (is, room, ground (arith, e, is, room, live))
    ]
    | inr full ↦ inl (ground (arith, e, is, full))
  ]
  | inr (inl (r, m, is)) ↦ inl (ground (arith, e, is))
  | inr (inr (r, m, is)) ↦ inl (ground (arith, e, is))
]

pub start-Effect :
    (replay : Bool) (n : ℕ) (lane lane' : Lane) (c c' : HttpChannel)
    → Start lane c
    → perform (start replay n) lane c ≡ some (lane', c')
    → Effect lane lane' c c'
unfolding perform with_lane
start-Effect replay n lane lane' c c' s e = elim (Option-cases (start_send replay n c)) [
  | inl none_yet ↦ absurd (ground (arith, e, none_yet))
  | inr (c1, run) ↦
      let same_lane : lane ≡ lane' = ground (arith, e, run) in
      let same : c1 ≡ c' = ground (arith, e, run) in
      rw (← same_lane, ← same)
        (elim (start_send-inv replay n c c1 run) [
          | inl still ↦ rw (← still) (unchanged lane c s)
          | inr (was, room, is) ↦ rw (← is) (begun replay n lane c s was room)
        ])
]

-- A `send` that waited and goes on without the lane.
dropped :
    (lane : Lane) (c : HttpChannel) (replay : Bool) (n : ℕ)
    → Start lane c
    → c.sending ≡ lane_wait replay n
    → Effect lane lane c (record c { sending = idle })
unfolding load load_bytes staged_count staged_bytes reserved_count reserved_bytes
dropped lane c replay n s was =
    let no_count : reserved_count c.sending ≡ 0 = ap reserved_count was in
    let no_bytes : reserved_bytes c.sending ≡ 0 = ap reserved_bytes was in
    record {
      valid = record {
        counted = s.valid.counted;
        requests_bound = omega (arith, s.valid.requests_bound);
        bytes_bound = omega (arith, s.valid.bytes_bound);
        replies_counted = s.valid.replies_counted;
        replies_bound = s.valid.replies_bound;
        queue_bound = s.valid.queue_bound;
      };
      bounds = s.bounds;
      inflight_moves = omega (arith, no_count);
      bytes_move = omega (arith, no_bytes);
    }

abbrev counted_lane : ℕ → Lane → Lane
counted_lane n lane = record lane {
  inflight = suc lane.inflight;
  queued_bytes = lane.queued_bytes + n;
  max_inflight = max lane.max_inflight (suc lane.inflight);
}

given_room :
    (lane : Lane) (c : HttpChannel) (replay : Bool) (n : ℕ)
    → Start lane c
    → c.sending ≡ lane_wait replay n
    → lane_has_capacity n lane ≡ true
    → Effect lane (counted_lane n lane) c (record c { sending = reserved replay n })
unfolding lane_has_capacity load load_bytes staged_count staged_bytes reserved_count reserved_bytes
given_room lane c replay n s was room =
    let no_count : reserved_count c.sending ≡ 0 = ap reserved_count was in
    let no_bytes : reserved_bytes c.sending ≡ 0 = ap reserved_bytes was in
    let staged : staged_count c.sending ≡ 1 = ap staged_count was in
    let staged_n : staged_bytes c.sending ≡ n = ap staged_bytes was in
    record {
      valid = record {
        counted = s.valid.counted;
        requests_bound = omega (arith, s.valid.requests_bound, staged);
        bytes_bound = omega (arith, s.valid.bytes_bound, staged_n);
        replies_counted = s.valid.replies_counted;
        replies_bound = s.valid.replies_bound;
        queue_bound = s.valid.queue_bound;
      };
      bounds = record { requests_bound = ground (arith, room); bytes_bound = ground (arith, room) };
      inflight_moves = omega (arith, no_count);
      bytes_move = omega (arith, no_bytes);
    }

-- The answers of `_reserve`: without a place nothing is counted.
data Answer (lane : Lane) (n : ℕ) : Option (Result (Bool × Lane)) → Type 0 where
  waits : Answer lane n none
  raises : Answer lane n (some (err connection_error))
  refuses : Answer lane n (some (ok (false, lane)))
  gives : lane_has_capacity n lane ≡ true → Answer lane n (some (ok (true, counted_lane n lane)))

reserve-Answer : (wait : Bool) (n : ℕ) (lane : Lane) → Answer lane n (reserve wait n lane)
unfolding reserve
reserve-Answer wait n lane = elim (Bool-cases (lane_has_capacity n lane)) [
  | inl room ↦ elim (Bool-cases lane.closed) [
    | inl shut ↦ placed wait room shut
    | inr live ↦ fresh wait room live
  ]
  | inr full ↦ elim (Bool-cases lane.closed) [
    | inl shut ↦ shut_full wait full shut
    | inr live ↦ none_yet wait full live
  ]
]
  where
    placed :
        (wait : Bool)
        → lane_has_capacity n lane ≡ true
        → lane.closed ≡ true
        → Answer lane n (reserve wait n lane)
    placed true room shut = rw (reserve, room, shut) raises
    placed false room shut = rw (reserve, room, shut) raises

    fresh :
        (wait : Bool)
        → lane_has_capacity n lane ≡ true
        → lane.closed ≡ false
        → Answer lane n (reserve wait n lane)
    fresh true room live = rw (reserve, room, live) (gives room)
    fresh false room live = rw (reserve, room, live) (gives room)

    shut_full :
        (wait : Bool)
        → lane_has_capacity n lane ≡ false
        → lane.closed ≡ true
        → Answer lane n (reserve wait n lane)
    shut_full true full shut = rw (reserve, full, shut) raises
    shut_full false full shut = rw (reserve, full) refuses

    none_yet :
        (wait : Bool)
        → lane_has_capacity n lane ≡ false
        → lane.closed ≡ false
        → Answer lane n (reserve wait n lane)
    none_yet true full live = rw (reserve, full, live) waits
    none_yet false full live = rw (reserve, full) refuses

pub get_room-Effect :
    (lane lane' : Lane) (c c' : HttpChannel)
    → Start lane c
    → perform get_room lane c ≡ some (lane', c')
    → Effect lane lane' c c'
unfolding perform reserve_lane
get_room-Effect lane lane' c c' s e = elim (Stage-cases c.sending) [
  | inl is ↦ absurd (ground (arith, e, is))
  | inr (inr (r, m, is)) ↦ absurd (ground (arith, e, is))
  | inr (inl (replay, n, is)) ↦
      answered replay n is (reserve (not replay) n lane) (reserve-Answer (not replay) n lane) refl
]
  where
    answered :
        (replay : Bool) (n : ℕ)
        → c.sending ≡ lane_wait replay n
        → (o : Option (Result (Bool × Lane))) → Answer lane n o
        → reserve (not replay) n lane ≡ o
        → Effect lane lane' c c'
    answered replay n is _ waits run = absurd (ground (arith, e, is, run))
    answered replay n is _ raises run =
        let same_lane : lane ≡ lane' = ground (arith, e, is, run) in
        let same : record c { sending = idle } ≡ c' = ground (arith, e, is, run) in
        rw (← same_lane, ← same) (dropped lane c replay n s is)
    answered replay n is _ refuses run =
        let same_lane : lane ≡ lane' = ground (arith, e, is, run) in
        let same : record c { sending = idle } ≡ c' = ground (arith, e, is, run) in
        rw (← same_lane, ← same) (dropped lane c replay n s is)
    answered replay n is _ (gives room) run =
        let same_lane : counted_lane n lane ≡ lane' = ground (arith, e, is, run) in
        let same : record c { sending = reserved replay n } ≡ c' = ground (arith, e, is, run) in
        rw (← same_lane, ← same) (given_room lane c replay n s is room)

pub time_out-Effect :
    (lane lane' : Lane) (c c' : HttpChannel)
    → Start lane c
    → perform time_out lane c ≡ some (lane', c')
    → Effect lane lane' c c'
unfolding perform with_lane give_up
time_out-Effect lane lane' c c' s e = elim (Stage-cases c.sending) [
  | inl is ↦ absurd (ground (arith, e, is))
  | inr (inr (r, m, is)) ↦ absurd (ground (arith, e, is))
  | inr (inl (replay, n, is)) ↦
      let same_lane : lane ≡ lane' = ground (arith, e, is) in
      let same : record c { sending = idle } ≡ c' = ground (arith, e, is) in
      rw (← same_lane, ← same) (dropped lane c replay n s is)
]

-- The room is given back.
backed_out :
    (lane : Lane) (c : HttpChannel) (replay : Bool) (n : ℕ)
    → Start lane c
    → c.sending ≡ reserved replay n
    → Effect lane (release n lane) c (record c { sending = idle })
unfolding release load load_bytes staged_count staged_bytes reserved_count reserved_bytes
backed_out lane c replay n s was =
    let count : reserved_count c.sending ≡ 1 = ap reserved_count was in
    let bytes : reserved_bytes c.sending ≡ n = ap reserved_bytes was in
    record {
      valid = record {
        counted = s.valid.counted;
        requests_bound = omega (arith, s.valid.requests_bound);
        bytes_bound = omega (arith, s.valid.bytes_bound);
        replies_counted = s.valid.replies_counted;
        replies_bound = s.valid.replies_bound;
        queue_bound = s.valid.queue_bound;
      };
      bounds = record {
        requests_bound = omega (arith, s.bounds.requests_bound);
        bytes_bound = omega (arith, s.bounds.bytes_bound);
      };
      inflight_moves = omega (arith, count, s.inflight_counted);
      bytes_move = omega (arith, bytes, s.bytes_counted);
    }

task_bytes-append :
    (pending : List (ℕ × ℕ)) (task n : ℕ)
    → task_bytes (pending ++ ((task, n) ∷ [])) ≡ task_bytes pending + n
unfolding task_bytes
task_bytes-append [] task n = omega arith
task_bytes-append ((t, m) ∷ pending) task n = omega (arith, task_bytes-append pending task n)

-- The request is started: what was reserved is pending now.
started :
    (lane : Lane) (c : HttpChannel) (task : ℕ) (replay : Bool) (n : ℕ)
    → Start lane c
    → c.sending ≡ reserved replay n
    → Effect lane lane c (record c {
      pending = c.pending ++ ((task, n) ∷ []);
      pending_bytes = c.pending_bytes + n;
      requests = suc c.requests;
      up = c.up + n;
      sending = idle;
    })
unfolding load load_bytes staged_count staged_bytes reserved_count reserved_bytes
started lane c task replay n s was =
    let count : reserved_count c.sending ≡ 1 = ap reserved_count was in
    let bytes : reserved_bytes c.sending ≡ n = ap reserved_bytes was in
    let staged : staged_count c.sending ≡ 1 = ap staged_count was in
    let staged_n : staged_bytes c.sending ≡ n = ap staged_bytes was in
    let sum = task_bytes-append c.pending task n in
    let len = length-append c.pending ((task, n) ∷ []) in
    record {
      valid = record {
        counted = omega (arith, s.valid.counted, sum);
        requests_bound = omega (arith, s.valid.requests_bound, staged, len);
        bytes_bound = omega (arith, s.valid.bytes_bound, staged_n);
        replies_counted = s.valid.replies_counted;
        replies_bound = s.valid.replies_bound;
        queue_bound = s.valid.queue_bound;
      };
      bounds = s.bounds;
      inflight_moves = omega (arith, count, len);
      bytes_move = omega (arith, bytes, sum);
    }

pub commit-Effect :
    (task : ℕ) (due : Bool) (lane lane' : Lane) (c c' : HttpChannel)
    → Start lane c
    → perform (commit task due) lane c ≡ some (lane', c')
    → Effect lane lane' c c'
unfolding perform commit_send
commit-Effect task due lane lane' c c' s e = elim (Stage-cases c.sending) [
  | inl is ↦ absurd (ground (arith, e, is))
  | inr (inl (r, m, is)) ↦ absurd (ground (arith, e, is))
  | inr (inr (replay, n, is)) ↦ elim (Bool-cases (c.closed || (replay && not due))) [
    | inl back ↦
        let same_lane : release n lane ≡ lane' = ground (arith, e, is, back) in
        let same : record c { sending = idle } ≡ c' = ground (arith, e, is, back) in
        rw (← same_lane, ← same) (backed_out lane c replay n s is)
    | inr go ↦
        let same_lane : lane ≡ lane' = ground (arith, e, is, go) in
        let same : record c {
          pending = c.pending ++ ((task, n) ∷ []);
          pending_bytes = c.pending_bytes + n;
          requests = suc c.requests;
          up = c.up + n;
          sending = idle;
        }
            ≡ c' =
          ground (arith, e, is, go) in
        rw (← same_lane, ← same) (started lane c task replay n s is)
  ]
]
