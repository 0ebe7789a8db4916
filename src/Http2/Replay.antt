-- ===== src/Http2/Replay.antt =====
-- proxy/cf_h2.py: when a packet of the history may be sent again (`_overdue_original`,
-- `_replay_limit`, `_replay_blocker`, `_replay_due`), and what its requests do to it. What the rest
-- of the channel holds when a replay is considered is a record handed in.
pub mod Budget
pub mod Events
use hide_self_tgws.Base.{
  ℕ, suc, ◌+◌, ◌-◌, Bool, true, false, not, ◌&&◌, ◌||◌, Option, none, some, List, [], ◌∷◌, length,
  take, ltb, leb, if◌then◌else◌, Result, ok, ◌>>=◌,
}
use hide_self_tgws.Base.Dict.{◌=?◌, nat_eq, bytes_eq, lookup, contains, discard}
use hide_self_tgws.Http2.History.{
  ReplayPacket, History, replay_max_age, replay_max_attempts, find_packet, note_sent, same_key,
}

abbrev pub replay_idle : ℕ
replay_idle = 1000

abbrev pub replay_request : ℕ
replay_request = 3000

abbrev pub replay_retry : ℕ
replay_retry = 2000

pub record ChannelView : Type 0 where
  -- When the body of each open request was sent.
  pub sent_since : List (ℕ × ℕ)
  pub receiving_tasks : List ℕ
  pub pending : List ℕ
  pub native_backpressure : Bool
  pub last_progress : ℕ

unfoldable pub any_task : (ℕ → Bool) → List ℕ → Bool
any_task test [] = false
any_task test (t ∷ tasks) = test t || any_task test tasks

unfoldable pub no_tasks : List ℕ → Bool
no_tasks [] = true
no_tasks (t ∷ tasks) = false

-- `task is entry.pending`
unfoldable pub is_pending : Option ℕ → ℕ → Bool
is_pending none task = false
is_pending (some t) task = t =? task

unfoldable pub replayed : ReplayPacket → Bool
replayed p = ltb 0 p.last_attempt_at || ltb 0 p.attempts

-- `entry is self.replay_history[-1]`
unfoldable pub is_last : List ℕ → List ReplayPacket → Bool
is_last body [] = false
is_last body (p ∷ []) = p.body =? body
is_last body (p ∷ q ∷ packets) = is_last body (q ∷ packets)

unfoldable pub overdue_task : ChannelView → ℕ → ℕ → Bool
overdue_task v now task = elim (lookup task v.sent_since) [
  | none ↦ false
  | some sent ↦ not (contains v.receiving_tasks task) && leb replay_request (now - sent)
]

unfoldable pub overdue_original : ChannelView → ReplayPacket → ℕ → Bool
unfolding any_task overdue_task
overdue_original v p now = p.retired || any_task (overdue_task v now) p.originals

unfoldable pub replay_limit : List ReplayPacket → ReplayPacket → ℕ
unfolding no_tasks is_last
replay_limit packets p =
    if not (no_tasks p.originals) || p.retired || is_last p.body packets
    then replay_max_attempts
    else 0

pub data Blocker : Type 0 where
  expired budget_used native_backpressure original_body : Blocker
  replay_body backoff_or_progress receiver_active : Blocker

unfoldable pub replay_blocker : ChannelView → List ReplayPacket → ReplayPacket → ℕ → Option Blocker
unfolding overdue_original replay_limit replayed is_pending
replay_blocker v packets p now =
    if not (leb p.sent_at now && leb (now - p.sent_at) replay_max_age)
    then some expired
    else if leb (replay_limit packets p) p.attempts
    then some budget_used
    else if v.native_backpressure
    then some native_backpressure
    else if any_task (contains v.receiving_tasks) p.originals
    then some original_body
    else if elim p.pending [ none ↦ false | some t ↦ contains v.receiving_tasks t ]
    then some replay_body
    else if replayed p && ltb (now - p.last_attempt_at) replay_retry
    then some backoff_or_progress
    else if overdue_original v p now
    then none
    else if not (is_last p.body packets) || any_task (λ t. not (is_pending p.pending t)) v.pending
    then some receiver_active
    else if replayed p && ltb (now - v.last_progress) replay_idle
    then some backoff_or_progress
    else none

unfoldable pub replay_due : ChannelView → List ReplayPacket → ReplayPacket → ℕ → Bool
unfolding replay_blocker
replay_due v packets p now = elim (replay_blocker v packets p now) [ none ↦ true | some b ↦ false ]

-- The packet with a body, changed.
unfoldable pub update_packet :
    List ℕ → (ReplayPacket → ReplayPacket) → List ReplayPacket → List ReplayPacket
update_packet body change [] = []
update_packet body change (p ∷ packets) =
    let rest = update_packet body change packets in
    if p.body =? body then change p ∷ packets else p ∷ rest

-- A replay that got its room, as `_send` ends it: refused, or the packet's next attempt.
unfoldable pub attempt : ℕ → ℕ → ReplayPacket → ReplayPacket
attempt now task p = record p {
  attempts = suc p.attempts;
  last_attempt_at = now;
  pending = some task;
}

unfoldable pub is_none : Option ℕ → Bool
is_none none = true
is_none (some t) = false

unfoldable pub start_replay :
    ChannelView → List ℕ → ℕ → ℕ → List ReplayPacket → Bool × List ReplayPacket
unfolding replay_due update_packet attempt is_none find_packet
start_replay v body now task packets = elim (find_packet body packets) [
  | none ↦ (false, packets)
  | some p ↦
      if not (is_none p.pending) || not (replay_due v packets p now)
      then (false, packets)
      else (true, update_packet body (attempt now task) packets)
]

-- A reply for the packet: another one than the last gives its attempts back.
unfoldable pub note_reply : List ℕ → ReplayPacket → ReplayPacket
unfolding same_key
note_reply reply p =
    if same_key (take 24 reply) p.reply_id
    then p
    else record p { reply_id = some (take 24 reply); attempts = 0 }

-- The packet's part of `_finish_request`.
unfoldable pub drop_task : ℕ → ReplayPacket → ReplayPacket
unfolding is_pending
drop_task task p = record p {
  originals = discard task p.originals;
  pending = (if is_pending p.pending task then none else p.pending);
}

-- `entry.retired = True` of `_make_upload_room`.
unfoldable pub retire : ReplayPacket → ReplayPacket
retire p = record p { retired = true }

-- What happens to a history: a body of the client, a replay, a reply, the end of a request, a
-- request cancelled for room, the channel's end.
pub data Event : Type 0 where
  sent : (body : List ℕ) → (now requests task : ℕ) → Event
  replay : ChannelView → (body : List ℕ) → (now task : ℕ) → Event
  replied : (body reply : List ℕ) → Event
  finished : (body : List ℕ) → (task : ℕ) → Event
  retired : (body : List ℕ) → Event
  cleared : Event

unfoldable pub happen : Event → History → Result History
unfolding start_replay update_packet
happen (sent body now requests task) h = note_sent body now requests task h
happen (replay v body now task) h =
    ok (record h { packets = (start_replay v body now task h.packets).1 })
happen (replied body reply) h =
    ok (record h { packets = update_packet body (note_reply reply) h.packets })
happen (finished body task) h =
    ok (record h { packets = update_packet body (drop_task task) h.packets })
happen (retired body) h = ok (record h { packets = update_packet body retire h.packets })
happen cleared h = ok (record h { packets = [] })

-- Events in order.
unfoldable pub happen_all : List Event → History → Result History
unfolding happen
happen_all [] h = ok h
happen_all (e ∷ events) h = do h' ← happen e h; happen_all events h'

abbrev pub no_history : History
no_history = record { replay_key = none; packets = [] }
