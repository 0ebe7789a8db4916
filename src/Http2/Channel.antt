-- ===== src/Http2/Channel.antt =====
-- proxy/cf_h2.py: `_HttpChannel` and `_HttpLane`, the room for requests and for replies. A call that
-- waits between two of its steps is cut there: `send` into the channel's room, the lane's room and
-- the start of the request; the end of a request into `_finish_request` and the lane's `_release`.
-- A task is a number. Traces, statistics and the packet history are not here.
pub mod Steps
pub mod Counts
mod Sending
mod Ending
pub mod Invariant
use hide_self_tgws.Base.{
  ℕ, zero, suc, ◌+◌, ◌-◌, max, Bool, true, false, not, ◌&&◌, ◌||◌, Option, none, some, List, [],
  ◌∷◌, ◌++◌, length, ltb, leb, ◌==◌, if◌then◌else◌, Result, Error, ok, err, connection_error,
  buffer_error,
}

abbrev pub max_channel_requests : ℕ
max_channel_requests = 8

abbrev pub max_channel_bytes : ℕ
max_channel_bytes = 8388608

abbrev pub max_lane_requests : ℕ
max_lane_requests = 64

abbrev pub max_lane_bytes : ℕ
max_lane_bytes = 33554432

-- `asyncio.Queue(maxsize=16)`
abbrev pub queue_size : ℕ
queue_size = 16

pub record Lane : Type 0 where
  pub inflight : ℕ
  pub queued_bytes : ℕ
  pub max_inflight : ℕ
  pub closed : Bool

abbrev pub new_lane : Lane
new_lane = record { inflight = 0; queued_bytes = 0; max_inflight = 0; closed = false }

unfoldable pub lane_has_capacity : ℕ → Lane → Bool
lane_has_capacity n lane =
    ltb lane.inflight max_lane_requests && leb (lane.queued_bytes + n) max_lane_bytes

-- `_reserve`: `none` while it waits; the answer False is for a caller that does not wait.
unfoldable pub reserve : Bool → ℕ → Lane → Option (Result (Bool × Lane))
unfolding lane_has_capacity
reserve wait n lane =
    if not wait && not (lane_has_capacity n lane)
    then some (ok (false, lane))
    else if wait && not (lane.closed || lane_has_capacity n lane)
    then none
    else if lane.closed
    then some (err connection_error)
    else some (
        ok (
          true,
          record lane {
            inflight = suc lane.inflight;
            queued_bytes = lane.queued_bytes + n;
            max_inflight = max lane.max_inflight (suc lane.inflight);
          },
        ))

unfoldable pub release : ℕ → Lane → Lane
release n lane = record lane { inflight = lane.inflight - 1; queued_bytes = lane.queued_bytes - n }

-- An item of the reply queue: a reply, or the exception that ends the channel.
pub data Item : Type 0 where
  reply : List ℕ → Item
  failure : Error → Item

-- Where the holder of `send_lock` stands, with its replay flag and the length of its body.
pub data Stage : Type 0 where
  idle : Stage
  lane_wait : (replay : Bool) → ℕ → Stage
  reserved : (replay : Bool) → ℕ → Stage

pub record HttpChannel : Type 0 where
  pub closed : Bool
  pub pending : List (ℕ × ℕ)
  pub pending_bytes : ℕ
  pub requests : ℕ
  pub up : ℕ
  pub queue : List Item
  pub reply_bytes : ℕ
  pub sending : Stage
  -- Lengths of ended requests that the lane still counts.
  pub releasing : List ℕ

abbrev pub new_channel : HttpChannel
new_channel = record {
  closed = false;
  pending = [];
  pending_bytes = 0;
  requests = 0;
  up = 0;
  queue = [];
  reply_bytes = 0;
  sending = idle;
  releasing = [];
}

unfoldable pub has_capacity : ℕ → HttpChannel → Bool
has_capacity n c =
    ltb (length c.pending) max_channel_requests && leb (c.pending_bytes + n) max_channel_bytes

-- `_fail`
unfoldable pub fail : Error → HttpChannel → HttpChannel
fail raised c =
    if c.closed then c else record c { closed = true; queue = failure raised ∷ []; reply_bytes = 0 }

-- `send` up to the lane's room. An unchanged channel is the answer False or the exception; `none`
-- is a call that waits, for the lock or for room.
unfoldable pub start_send : Bool → ℕ → HttpChannel → Option HttpChannel
unfolding has_capacity
start_send replay n c = elim c.sending [
  | idle ↦
      if replay && not (has_capacity n c)
      then some c
      else if not replay && not (c.closed || has_capacity n c)
      then none
      else if c.closed
      then some c
      else some (record c { sending = lane_wait replay n })
  | lane_wait r m ↦ if replay then some c else none
  | reserved r m ↦ if replay then some c else none
]

-- The lane's answer to a waiting `send`.
unfoldable pub reserve_lane : Lane → HttpChannel → Option (Lane × HttpChannel)
unfolding reserve
reserve_lane lane c = elim c.sending [
  | idle ↦ none
  | reserved r m ↦ none
  | lane_wait replay n ↦ elim (reserve (not replay) n lane) [
    | none ↦ none
    | some (err raised) ↦ some (lane, record c { sending = idle })
    | some (ok (false, lane')) ↦ some (lane, record c { sending = idle })
    | some (ok (true, lane')) ↦ some (lane', record c { sending = reserved replay n })
  ]
]

-- A `send` that gives up while it waits for the lane: its timeout.
unfoldable pub give_up : HttpChannel → Option HttpChannel
give_up c = elim c.sending [
  | idle ↦ none
  | reserved r m ↦ none
  | lane_wait replay n ↦ some (record c { sending = idle })
]

-- The rest of `_send`: back out when the channel was closed meanwhile or the replay is no longer
-- due, or start the request as a new task.
unfoldable pub commit_send : ℕ → Bool → Lane → HttpChannel → Option (Lane × HttpChannel)
unfolding release
commit_send task due lane c = elim c.sending [
  | idle ↦ none
  | lane_wait r m ↦ none
  | reserved replay n ↦
      if c.closed || (replay && not due)
      then some (release n lane, record c { sending = idle })
      else some (
        lane,
        record c {
          pending = c.pending ++ ((task, n) ∷ []);
          pending_bytes = c.pending_bytes + n;
          requests = suc c.requests;
          up = c.up + n;
          sending = idle;
        },
      )
]

-- `self.pending.pop(task, None)`
unfoldable pub pop_task : ℕ → List (ℕ × ℕ) → Option (ℕ × List (ℕ × ℕ))
pop_task task [] = none
pop_task task ((t, n) ∷ pending) =
    let rest = pop_task task pending in
    if t == task
    then some (n, pending)
    else elim rest [ none ↦ none | some (m, left) ↦ some (m, (t, n) ∷ left) ]

-- `_finish_request` up to the lane's lock.
unfoldable pub finish_request : ℕ → HttpChannel → HttpChannel
unfolding pop_task
finish_request task c = elim (pop_task task c.pending) [
  | none ↦ c
  | some (n, left) ↦ record c {
    pending = left;
    pending_bytes = c.pending_bytes - n;
    releasing = n ∷ c.releasing;
  }
]

-- The lane's part of it.
unfoldable pub release_request : Lane → HttpChannel → Option (Lane × HttpChannel)
unfolding release
release_request lane c = elim c.releasing [
  | [] ↦ none
  | n ∷ more ↦ some (release n lane, record c { releasing = more })
]

-- A reply of `_run_request`: it is dropped when empty or when the channel is closed, and closes the
-- channel when the queue has no room.
unfoldable pub deliver : List ℕ → HttpChannel → HttpChannel
unfolding fail
deliver bytes c =
    if length bytes == 0 || c.closed
    then c
    else if leb queue_size (length c.queue) || ltb max_channel_bytes (c.reply_bytes + length bytes)
    then fail buffer_error c
    else record c {
      reply_bytes = c.reply_bytes + length bytes;
      queue = c.queue ++ (reply bytes ∷ []);
    }

-- `receive`: it waits while the queue is empty.
unfoldable pub receive : HttpChannel → Option (Result (List ℕ) × HttpChannel)
receive c = elim c.queue [
  | [] ↦ none
  | failure raised ∷ items ↦ some (err raised, record c { queue = items })
  | reply bytes ∷ items ↦
      some (ok bytes, record c { queue = items; reply_bytes = c.reply_bytes - length bytes })
]
