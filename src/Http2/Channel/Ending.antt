-- ===== src/Http2/Channel/Ending.antt =====
-- The end of a request, its reply, and the failure of a channel.
use hide_self_tgws.Base.{
  ℕ, suc, ◌+◌, ◌-◌, ◌≤◌, ◌<◌, true, ◌||◌, some, List, [], ◌∷◌, ◌++◌, length, ltb, leb, ◌==◌, Error,
  buffer_error, ◌≡◌, ◌⊎◌, refl, sym, ap, ◌∙◌, arith, length-append, Bool-cases, inl, inr,
  Option-cases,
}
use mathlib.Core.Path.{subst}
use hide_self_tgws.Http2.Channel.{
  Lane, release, Item, reply, failure, HttpChannel, fail, pop_task, finish_request, release_request,
  deliver, receive, max_channel_bytes, queue_size,
}
use hide_self_tgws.Http2.Channel.Steps.{
  finish, release_one, deliver_reply, receive_one, fail_with, perform, received,
}
use hide_self_tgws.Http2.Channel.Counts.{
  task_bytes, item_bytes, total, staged_count, staged_bytes, reserved_count, reserved_bytes, load,
  load_bytes, Effect, Start, unchanged,
}

-- Popping a task takes out its bytes.
pop_task_lem :
    (task : ℕ) (pending : List (ℕ × ℕ)) (n : ℕ) (left : List (ℕ × ℕ))
    → pop_task task pending ≡ some (n, left)
    → (task_bytes pending ≡ n + task_bytes left) × (length pending ≡ suc (length left))
unfolding pop_task task_bytes
pop_task_lem task [] n left e = absurd (ground arith)
pop_task_lem task ((t, m) ∷ pending) n left e = elim (Bool-cases (t == task)) [
  | inl is ↦
      let m-eq : m ≡ n = ground (arith, e, is) in
      let left-eq : pending ≡ left = ground (arith, e, is) in
      rw (← left-eq) (omega (arith, m-eq), refl)
  | inr other ↦ elim (Option-cases (pop_task task pending)) [
    | inl missing ↦ absurd (ground (arith, e, other, missing))
    | inr ((k, rest), found) ↦
        let k-eq : k ≡ n = ground (arith, e, other, found) in
        let left-eq : (t, m) ∷ rest ≡ left = ground (arith, e, other, found) in
        let (sum, len) = pop_task_lem task pending k rest found in
        rw (← left-eq) (omega (arith, k-eq, sum), omega (arith, len))
  ]
]

finished :
    (lane : Lane) (c : HttpChannel) (n : ℕ) (left : List (ℕ × ℕ))
    → Start lane c
    → task_bytes c.pending ≡ n + task_bytes left
    → length c.pending ≡ suc (length left)
    → Effect lane lane c (record c {
      pending = left;
      pending_bytes = c.pending_bytes - n;
      releasing = n ∷ c.releasing;
    })
unfolding load load_bytes total
finished lane c n left s sum len = record {
  valid = record {
    counted = omega (arith, s.valid.counted, sum);
    requests_bound = omega (arith, s.valid.requests_bound, len);
    bytes_bound = omega (arith, s.valid.bytes_bound);
    replies_counted = s.valid.replies_counted;
    replies_bound = s.valid.replies_bound;
    queue_bound = s.valid.queue_bound;
  };
  bounds = s.bounds;
  inflight_moves = omega (arith, len);
  bytes_move = omega (arith, sum);
}

pub finish-Effect :
    (task : ℕ) (lane lane' : Lane) (c c' : HttpChannel)
    → Start lane c
    → perform (finish task) lane c ≡ some (lane', c')
    → Effect lane lane' c c'
unfolding perform finish_request
finish-Effect task lane lane' c c' s e = elim (Option-cases (pop_task task c.pending)) [
  | inl missing ↦
      let same_lane : lane ≡ lane' = ground (arith, e, missing) in
      let same : c ≡ c' = ground (arith, e, missing) in
      rw (← same_lane, ← same) (unchanged lane c s)
  | inr ((n, left), found) ↦
      let (sum, len) = pop_task_lem task c.pending n left found in
      let same_lane : lane ≡ lane' = ground (arith, e, found) in
      let same : record c {
        pending = left;
        pending_bytes = c.pending_bytes - n;
        releasing = n ∷ c.releasing;
      }
          ≡ c' =
        ground (arith, e, found) in
      rw (← same_lane, ← same) (finished lane c n left s sum len)
]

given_back :
    (lane : Lane) (c : HttpChannel) (n : ℕ) (more : List ℕ)
    → Start lane c
    → c.releasing ≡ n ∷ more
    → Effect lane (release n lane) c (record c { releasing = more })
unfolding release load load_bytes total
given_back lane c n more s is =
    let len : length c.releasing ≡ suc (length more) = ap length is in
    let sum : total c.releasing ≡ n + total more = ap total is in
    record {
      valid = record {
        counted = s.valid.counted;
        requests_bound = s.valid.requests_bound;
        bytes_bound = s.valid.bytes_bound;
        replies_counted = s.valid.replies_counted;
        replies_bound = s.valid.replies_bound;
        queue_bound = s.valid.queue_bound;
      };
      bounds = record {
        requests_bound = omega (arith, s.bounds.requests_bound);
        bytes_bound = omega (arith, s.bounds.bytes_bound);
      };
      inflight_moves = omega (arith, len, s.inflight_counted);
      bytes_move = omega (arith, sum, s.bytes_counted);
    }

List-cases {ℓ} : {A : Type ℓ} (xs : List A) → (xs ≡ []) ⊎ ((y : A) × (ys : List A) × (xs ≡ y ∷ ys))
List-cases [] = inl refl
List-cases (x ∷ xs) = inr (x, xs, refl)

pub release-Effect :
    (lane lane' : Lane) (c c' : HttpChannel)
    → Start lane c
    → perform release_one lane c ≡ some (lane', c')
    → Effect lane lane' c c'
unfolding perform release_request
release-Effect lane lane' c c' s e = elim (List-cases c.releasing) [
  | inl nothing ↦ absurd (ground (arith, e, nothing))
  | inr (n, more, is) ↦
      let same_lane : release n lane ≡ lane' = ground (arith, e, is) in
      let same : record c { releasing = more } ≡ c' = ground (arith, e, is) in
      rw (← same_lane, ← same) (given_back lane c n more s is)
]

-- A step that only touches the replies.
replies_only :
    (lane : Lane) (c c' : HttpChannel)
    → Start lane c
    → c'.pending ≡ c.pending
    → c'.pending_bytes ≡ c.pending_bytes
    → c'.sending ≡ c.sending
    → c'.releasing ≡ c.releasing
    → c'.reply_bytes ≡ item_bytes c'.queue
    → c'.reply_bytes ≤ max_channel_bytes
    → length c'.queue ≤ queue_size
    → Effect lane lane c c'
unfolding load load_bytes
replies_only lane c c' s p b st r counted bound room = record {
  valid = record {
    counted = b ∙ s.valid.counted ∙ ap task_bytes (sym p);
    requests_bound = omega (arith, s.valid.requests_bound, ap length p, ap staged_count st);
    bytes_bound = omega (arith, s.valid.bytes_bound, b, ap staged_bytes st);
    replies_counted = counted;
    replies_bound = bound;
    queue_bound = room;
  };
  bounds = s.bounds;
  inflight_moves = omega (arith, ap length p, ap reserved_count st, ap length r);
  bytes_move = omega (arith, ap task_bytes p, ap reserved_bytes st, ap total r);
}

fail_state :
    (raised : Error) (lane : Lane) (c : HttpChannel)
    → Start lane c
    → Effect lane lane c (fail raised c)
unfolding fail item_bytes
fail_state raised lane c s = elim (Bool-cases c.closed) [
  | inl shut ↦
      let same : c ≡ fail raised c = unfold fail in ground (arith, shut) in
      subst (λ d. Effect lane lane c d) same (unchanged lane c s)
  | inr live ↦
      let ended = record c { closed = true; queue = failure raised ∷ []; reply_bytes = 0 } in
      let same : ended ≡ fail raised c = unfold fail in ground (arith, live) in
      subst (λ d. Effect lane lane c d) same
        (replies_only lane c ended s refl refl refl refl refl (omega arith) (omega arith))
]

item_bytes-append :
    (items : List Item) (bytes : List ℕ)
    → item_bytes (items ++ (reply bytes ∷ [])) ≡ item_bytes items + length bytes
unfolding item_bytes
item_bytes-append [] bytes = omega arith
item_bytes-append (reply b ∷ items) bytes = omega (arith, item_bytes-append items bytes)
item_bytes-append (failure x ∷ items) bytes = item_bytes-append items bytes

deliver_state :
    (bytes : List ℕ) (lane : Lane) (c : HttpChannel)
    → Start lane c
    → Effect lane lane c (deliver bytes c)
unfolding deliver
deliver_state bytes lane c s = elim (Bool-cases (length bytes == 0 || c.closed)) [
  | inl off ↦ rw (deliver, off) (unchanged lane c s)
  | inr on ↦
      elim (Bool-cases
        (leb queue_size (length c.queue) || ltb max_channel_bytes (c.reply_bytes + length bytes))) [
          | inl full ↦ rw (deliver, on, full) (fail_state buffer_error lane c s)
          | inr room ↦
              let fits : length c.queue < queue_size = ground (arith, room) in
              let size : c.reply_bytes + length bytes ≤ max_channel_bytes = ground (arith, room) in
              rw (deliver, on, room)
                (replies_only lane c
                  (record c {
                    reply_bytes = c.reply_bytes + length bytes;
                    queue = c.queue ++ (reply bytes ∷ []);
                  })
                  s refl refl refl refl
                  (omega (arith, s.valid.replies_counted, item_bytes-append c.queue bytes)) size
                  (omega (arith, fits, length-append c.queue (reply bytes ∷ []))))
        ]
]

pub fail-Effect :
    (raised : Error) (lane lane' : Lane) (c c' : HttpChannel)
    → Start lane c
    → perform (fail_with raised) lane c ≡ some (lane', c')
    → Effect lane lane' c c'
unfolding perform
fail-Effect raised lane lane' c c' s e =
    let same_lane : lane ≡ lane' = ground (arith, e) in
    let same : fail raised c ≡ c' = ground (arith, e) in
    rw (← same_lane, ← same) (fail_state raised lane c s)

pub deliver-Effect :
    (bytes : List ℕ) (lane lane' : Lane) (c c' : HttpChannel)
    → Start lane c
    → perform (deliver_reply bytes) lane c ≡ some (lane', c')
    → Effect lane lane' c c'
unfolding perform
deliver-Effect bytes lane lane' c c' s e =
    let same_lane : lane ≡ lane' = ground (arith, e) in
    let same : deliver bytes c ≡ c' = ground (arith, e) in
    rw (← same_lane, ← same) (deliver_state bytes lane c s)

item_failure :
    (raised : Error) (items : List Item) → item_bytes (failure raised ∷ items) ≡ item_bytes items
unfolding item_bytes
item_failure raised items = refl

item_reply :
    (bytes : List ℕ) (items : List Item)
    → item_bytes (reply bytes ∷ items) ≡ length bytes + item_bytes items
unfolding item_bytes
item_reply bytes items = refl

pub receive-Effect :
    (lane lane' : Lane) (c c' : HttpChannel)
    → Start lane c
    → perform receive_one lane c ≡ some (lane', c')
    → Effect lane lane' c c'
unfolding perform received receive
receive-Effect lane lane' c c' s e = by_item c.queue refl
  where
    by_item : (q : List Item) → c.queue ≡ q → Effect lane lane' c c'
    by_item [] is = absurd (ground (arith, e, is))
    by_item (failure raised ∷ items) is =
        let same_lane : lane ≡ lane' = ground (arith, e, is) in
        let same : record c { queue = items } ≡ c' = ground (arith, e, is) in
        let sum : item_bytes c.queue ≡ item_bytes items =
          ap item_bytes is ∙ item_failure raised items in
        rw (← same_lane, ← same)
          (replies_only lane c (record c { queue = items }) s refl refl refl refl
            (s.valid.replies_counted ∙ sum) s.valid.replies_bound
            (omega (arith, s.valid.queue_bound, ap length is)))
    by_item (reply bytes ∷ items) is =
        let same_lane : lane ≡ lane' = ground (arith, e, is) in
        let same : record c { queue = items; reply_bytes = c.reply_bytes - length bytes } ≡ c' =
          ground (arith, e, is) in
        let sum : item_bytes c.queue ≡ length bytes + item_bytes items =
          ap item_bytes is ∙ item_reply bytes items in
        rw (← same_lane, ← same)
          (replies_only lane c
            (record c { queue = items; reply_bytes = c.reply_bytes - length bytes }) s refl refl
            refl refl (omega (arith, s.valid.replies_counted, sum))
            (omega (arith, s.valid.replies_bound))
            (omega (arith, s.valid.queue_bound, ap length is)))
