-- ===== src/Http2/Channel/Counts.antt =====
-- What the counters of lane and channels count, and what one step does to them.
use hide_self_tgws.Base.{ℕ, ◌+◌, ◌≤◌, List, [], ◌∷◌, length, ◌≡◌, refl}
use hide_self_tgws.Http2.Channel.{
  Lane, Item, reply, failure, Stage, idle, lane_wait, reserved, HttpChannel, max_channel_requests,
  max_channel_bytes, max_lane_requests, max_lane_bytes, queue_size,
}

unfoldable pub task_bytes : List (ℕ × ℕ) → ℕ
task_bytes [] = 0
task_bytes ((task, n) ∷ pending) = n + task_bytes pending

unfoldable pub item_bytes : List Item → ℕ
item_bytes [] = 0
item_bytes (reply bytes ∷ items) = length bytes + item_bytes items
item_bytes (failure raised ∷ items) = item_bytes items

unfoldable pub total : List ℕ → ℕ
total [] = 0
total (n ∷ ns) = n + total ns

-- What a `send` on its way takes of the channel's room, and of the lane's.
unfoldable pub staged_count : Stage → ℕ
staged_count idle = 0
staged_count (lane_wait replay n) = 1
staged_count (reserved replay n) = 1

unfoldable pub staged_bytes : Stage → ℕ
staged_bytes idle = 0
staged_bytes (lane_wait replay n) = n
staged_bytes (reserved replay n) = n

unfoldable pub reserved_count : Stage → ℕ
reserved_count idle = 0
reserved_count (lane_wait replay n) = 0
reserved_count (reserved replay n) = 1

unfoldable pub reserved_bytes : Stage → ℕ
reserved_bytes idle = 0
reserved_bytes (lane_wait replay n) = 0
reserved_bytes (reserved replay n) = n

-- A channel within its bounds.
pub record ChannelValid (c : HttpChannel) : Type 0 where
  pub counted : c.pending_bytes ≡ task_bytes c.pending
  pub requests_bound : length c.pending + staged_count c.sending ≤ max_channel_requests
  pub bytes_bound : c.pending_bytes + staged_bytes c.sending ≤ max_channel_bytes
  pub replies_counted : c.reply_bytes ≡ item_bytes c.queue
  pub replies_bound : c.reply_bytes ≤ max_channel_bytes
  pub queue_bound : length c.queue ≤ queue_size

-- What a channel takes of the lane's room.
unfoldable pub load : HttpChannel → ℕ
unfolding reserved_count
load c = length c.pending + reserved_count c.sending + length c.releasing

unfoldable pub load_bytes : HttpChannel → ℕ
unfolding reserved_bytes task_bytes total
load_bytes c = task_bytes c.pending + reserved_bytes c.sending + total c.releasing

pub record LaneBounds (lane : Lane) : Type 0 where
  pub requests_bound : lane.inflight ≤ max_lane_requests
  pub bytes_bound : lane.queued_bytes ≤ max_lane_bytes

-- What a step does: it moves the lane's counters with the channel's load, inside the bounds.
pub record Effect (lane lane' : Lane) (c c' : HttpChannel) : Type 0 where
  pub valid : ChannelValid c'
  pub bounds : LaneBounds lane'
  pub inflight_moves : lane'.inflight + load c ≡ lane.inflight + load c'
  pub bytes_move : lane'.queued_bytes + load_bytes c ≡ lane.queued_bytes + load_bytes c'

-- Where a step starts.
pub record Start (lane : Lane) (c : HttpChannel) : Type 0 where
  pub valid : ChannelValid c
  pub bounds : LaneBounds lane
  pub inflight_counted : load c ≤ lane.inflight
  pub bytes_counted : load_bytes c ≤ lane.queued_bytes

pub unchanged : (lane : Lane) (c : HttpChannel) → Start lane c → Effect lane lane c c
unchanged lane c s = record {
  valid = s.valid;
  bounds = s.bounds;
  inflight_moves = refl;
  bytes_move = refl;
}
