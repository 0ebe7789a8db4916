-- ===== src/Http2/Channel/Steps.antt =====
-- The channels of a lane as a step relation: any channel may do any of its steps next, a channel
-- may be opened, and the lane may be closed.
use hide_self_tgws.Base.{ℕ, Bool, true, Option, none, some, List, ◌∷◌, ◌++◌, Error, ◌≡◌}
use hide_self_tgws.Http2.Channel.{
  Lane, HttpChannel, new_channel, fail, start_send, reserve_lane, give_up, commit_send,
  finish_request, release_request, deliver, receive,
}

pub data Action : Type 0 where
  start : (replay : Bool) → ℕ → Action
  get_room : Action
  time_out : Action
  commit : (task : ℕ) → (due : Bool) → Action
  finish : (task : ℕ) → Action
  release_one : Action
  deliver_reply : List ℕ → Action
  receive_one : Action
  fail_with : Error → Action

unfoldable pub with_lane : Lane → Option HttpChannel → Option (Lane × HttpChannel)
with_lane lane none = none
with_lane lane (some c) = some (lane, c)

unfoldable pub received : Lane → HttpChannel → Option (Lane × HttpChannel)
received lane c = elim (receive c) [ none ↦ none | some (answer, c') ↦ some (lane, c') ]

-- One step of a channel; `none` where it has to wait.
unfoldable pub perform : Action → Lane → HttpChannel → Option (Lane × HttpChannel)
unfolding with_lane received
perform (start replay n) lane c = with_lane lane (start_send replay n c)
perform get_room lane c = reserve_lane lane c
perform time_out lane c = with_lane lane (give_up c)
perform (commit task due) lane c = commit_send task due lane c
perform (finish task) lane c = some (lane, finish_request task c)
perform release_one lane c = release_request lane c
perform (deliver_reply bytes) lane c = some (lane, deliver bytes c)
perform receive_one lane c = received lane c
perform (fail_with raised) lane c = some (lane, fail raised c)

abbrev pub LaneState : Type 0
LaneState = Lane × List HttpChannel

pub data Step : LaneState → LaneState → Type 0 where
  act :
      (a : Action) (lane lane' : Lane) (front back : List HttpChannel) (c c' : HttpChannel)
      → perform a lane c ≡ some (lane', c')
      → Step (lane, front ++ (c ∷ back)) (lane', front ++ (c' ∷ back))
  open_channel :
      (lane : Lane) (channels : List HttpChannel)
      → Step (lane, channels) (lane, new_channel ∷ channels)
  close_lane :
      (lane : Lane) (channels : List HttpChannel)
      → Step (lane, channels) (record lane { closed = true }, channels)

-- What can come of a lane's start.
pub data Reach (s : LaneState) : LaneState → Type 0 where
  here : Reach s s
  then_step : (t u : LaneState) → Reach s t → Step t u → Reach s u
