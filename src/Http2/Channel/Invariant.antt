-- ===== src/Http2/Channel/Invariant.antt =====
-- The counters of lane and channels are what they count, and stay within the bounds.
use hide_self_tgws.Base.{ℕ, ◌+◌, some, List, [], ◌∷◌, ◌++◌, ◌≡◌, refl, arith, All}
use hide_self_tgws.Http2.Channel.{Lane, new_lane, HttpChannel, new_channel}
use hide_self_tgws.Http2.Channel.Steps.{
  Action, start, get_room, time_out, commit, finish, release_one, deliver_reply, receive_one,
  fail_with, perform, LaneState, Step, act, open_channel, close_lane, Reach, here, then_step,
}
use hide_self_tgws.Http2.Channel.Counts.{
  task_bytes, item_bytes, total, staged_count, staged_bytes, reserved_count, reserved_bytes,
  ChannelValid, load, load_bytes, LaneBounds, Effect, Start,
}
use hide_self_tgws.Http2.Channel.Sending.{
  start-Effect, get_room-Effect, time_out-Effect, commit-Effect,
}
use hide_self_tgws.Http2.Channel.Ending.{
  finish-Effect, release-Effect, deliver-Effect, receive-Effect, fail-Effect,
}

step-Effect :
    (a : Action) (lane lane' : Lane) (c c' : HttpChannel)
    → Start lane c
    → perform a lane c ≡ some (lane', c')
    → Effect lane lane' c c'
step-Effect (start replay n) = start-Effect replay n
step-Effect get_room = get_room-Effect
step-Effect time_out = time_out-Effect
step-Effect (commit task due) = commit-Effect task due
step-Effect (finish task) = finish-Effect task
step-Effect release_one = release-Effect
step-Effect (deliver_reply bytes) = deliver-Effect bytes
step-Effect receive_one = receive-Effect
step-Effect (fail_with raised) = fail-Effect raised

-- What the channels take together.
unfoldable pub loads : List HttpChannel → ℕ
unfolding load
loads [] = 0
loads (c ∷ channels) = load c + loads channels

unfoldable pub loads_bytes : List HttpChannel → ℕ
unfolding load_bytes
loads_bytes [] = 0
loads_bytes (c ∷ channels) = load_bytes c + loads_bytes channels

loads-append : (front back : List HttpChannel) → loads (front ++ back) ≡ loads front + loads back
unfolding loads
loads-append [] back = omega arith
loads-append (c ∷ front) back = omega (arith, loads-append front back)

loads_bytes-append :
    (front back : List HttpChannel)
    → loads_bytes (front ++ back) ≡ loads_bytes front + loads_bytes back
unfolding loads_bytes
loads_bytes-append [] back = omega arith
loads_bytes-append (c ∷ front) back = omega (arith, loads_bytes-append front back)

-- The lane counts exactly the requests and bytes of its channels, those that are being released
-- included, and keeps to its bounds; each channel's counters are what they count, and within the
-- channel's bounds also with a `send` on its way.
pub record StateValid (s : LaneState) : Type 0 where
  pub inflight_counted : s.0.inflight ≡ loads s.1
  pub bytes_counted : s.0.queued_bytes ≡ loads_bytes s.1
  pub bounds : LaneBounds s.0
  pub channels : All ChannelValid s.1

All-middle :
    (front back : List HttpChannel) (c : HttpChannel)
    → All ChannelValid (front ++ (c ∷ back))
    → ChannelValid c
All-middle [] back c h = h.0
All-middle (x ∷ front) back c h = All-middle front back c h.1

All-replace :
    (front back : List HttpChannel) (c c' : HttpChannel)
    → All ChannelValid (front ++ (c ∷ back))
    → ChannelValid c'
    → All ChannelValid (front ++ (c' ∷ back))
All-replace [] back c c' h v = (v, h.1)
All-replace (x ∷ front) back c c' h v = (h.0, All-replace front back c c' h.1 v)

new_channel-valid : ChannelValid new_channel
unfolding task_bytes item_bytes staged_count staged_bytes
new_channel-valid = record {
  counted = refl;
  requests_bound = omega arith;
  bytes_bound = omega arith;
  replies_counted = refl;
  replies_bound = omega arith;
  queue_bound = omega arith;
}

step-valid : (s t : LaneState) → StateValid s → Step s t → StateValid t
unfolding loads loads_bytes
step-valid _ _ v (act a lane lane' front back c c' run) =
    let sum = loads-append front (c ∷ back) in
    let sum' = loads-append front (c' ∷ back) in
    let bytes = loads_bytes-append front (c ∷ back) in
    let bytes' = loads_bytes-append front (c' ∷ back) in
    let begin : Start lane c = record {
      valid = All-middle front back c v.channels;
      bounds = v.bounds;
      inflight_counted = omega (arith, v.inflight_counted, sum);
      bytes_counted = omega (arith, v.bytes_counted, bytes);
    } in
    let x = step-Effect a lane lane' c c' begin run in
    record {
      inflight_counted = omega (arith, v.inflight_counted, sum, sum', x.inflight_moves);
      bytes_counted = omega (arith, v.bytes_counted, bytes, bytes', x.bytes_move);
      bounds = x.bounds;
      channels = All-replace front back c c' v.channels x.valid;
    }
step-valid _ _ v (open_channel lane channels) = record {
  inflight_counted = unfold load in unfold reserved_count in omega (arith, v.inflight_counted);
  bytes_counted =
      unfold load_bytes in
      unfold reserved_bytes in unfold task_bytes in unfold total in omega (arith, v.bytes_counted);
  bounds = v.bounds;
  channels = (new_channel-valid, v.channels);
}
step-valid _ _ v (close_lane lane channels) = record {
  inflight_counted = v.inflight_counted;
  bytes_counted = v.bytes_counted;
  bounds = record { requests_bound = v.bounds.requests_bound; bytes_bound = v.bounds.bytes_bound };
  channels = v.channels;
}

-- In every state that a new lane can reach, with any number of channels and in any order of their
-- steps: the lane's counters are the requests and bytes that its channels hold, at most 64 and 32
-- MiB; each channel holds at most 8 requests and 8 MiB, counting a `send` that waits for the lane;
-- and its replies are at most 16 and 8 MiB and counted as they are.
pub Reach-StateValid : (s : LaneState) → Reach (new_lane, []) s → StateValid s
unfolding loads loads_bytes
Reach-StateValid _ here = record {
  inflight_counted = refl;
  bytes_counted = refl;
  bounds = record { requests_bound = omega arith; bytes_bound = omega arith };
  channels = tt;
}
Reach-StateValid _ (then_step t u r step) = step-valid t u (Reach-StateValid t r) step
