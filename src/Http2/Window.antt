-- ===== src/Http2/Window.antt =====
-- proxy/h2_transport.py: the receive window of a response stream (`read_loop` on data, `consumed`,
-- `_ResponseStream.__aiter__`, `aclose`, `fail`) and the frames of `send_body`. The `h2` package is
-- not here: what it says of a stream and of its send window are arguments.
pub mod Credit
pub mod Returned
pub mod Upload
use hide_self_tgws.Base.{
  ℕ, zero, suc, ◌+◌, ◌-◌, min, Bool, true, false, not, ◌&&◌, ◌||◌, Option, none, some, List, [],
  ◌∷◌, ◌++◌, length, slice, ltb, leb, ◌==◌, if◌then◌else◌,
}

abbrev pub io_batch_size : ℕ
io_batch_size = 65536

-- `returned` is what `increment_flow_control_window` has got for the stream, `received` what the
-- peer has sent of its window; `error` is the stream's, `failed` the connection's; `in_hand` is the credit of the chunk that the reader was given last.
pub record ResponseStream : Type 0 where
  pub chunks : List (List ℕ × ℕ)
  pub consumed_credit : ℕ
  pub in_hand : Option ℕ
  pub ended : Bool
  pub closed : Bool
  pub error : Bool
  pub failed : Bool
  pub received : ℕ
  pub returned : ℕ

abbrev pub new_stream : ResponseStream
new_stream = record {
  chunks = [];
  consumed_credit = 0;
  in_hand = none;
  ended = false;
  closed = false;
  error = false;
  failed = false;
  received = 0;
  returned = 0;
}

unfoldable pub has_chunks : List (List ℕ × ℕ) → Bool
has_chunks [] = false
has_chunks (c ∷ chunks) = true

-- `consumed`; `is_open` says that `h2` does not raise StreamClosedError.
unfoldable pub consumed : Bool → ℕ → ResponseStream → ResponseStream
unfolding has_chunks
consumed is_open credit s =
    let total = s.consumed_credit + credit in
    if not (credit == 0) && not s.ended && not s.closed && not s.failed
    then if (has_chunks s.chunks && ltb total io_batch_size) || not is_open
      then record s { consumed_credit = total }
      else record s { consumed_credit = 0; returned = s.returned + total }
    else s

-- A DataReceived event; `terminated` says that the batch of events ends the connection. A closed
-- stream is no more among the connection's.
unfoldable pub data_received : Bool → Bool → List ℕ → ℕ → ResponseStream → ResponseStream
unfolding consumed
data_received is_open terminated [] credit s =
    let s' = record s { received = s.received + credit } in
    if s.closed then s else (if terminated then s' else consumed is_open credit s')
data_received is_open terminated (b ∷ bs) credit s =
    if s.closed
    then s
    else record s { received = s.received + credit; chunks = s.chunks ++ ((b ∷ bs, credit) ∷ []) }

-- `__aiter__` up to its yield, and behind it.
unfoldable pub next_chunk : ResponseStream → Option ResponseStream
next_chunk s = if s.closed || s.error then none else elim s.chunks [
  | [] ↦ none
  | (bytes, credit) ∷ chunks ↦ elim s.in_hand [
    | none ↦ some (record s { chunks = chunks; in_hand = some credit })
    | some c ↦ none
  ]
]

unfoldable pub resume : Bool → ResponseStream → ResponseStream
unfolding consumed
resume is_open s = elim s.in_hand [
  | none ↦ s
  | some credit ↦ consumed is_open credit (record s { in_hand = none })
]

unfoldable pub close : ResponseStream → ResponseStream
close s = if s.closed then s else record s { closed = true; chunks = [] }

-- The stream's part of `_Connection.fail`.
unfoldable pub fail : ResponseStream → ResponseStream
fail s = if s.failed then s else record s { failed = true; error = s.error || not s.ended }

-- What can happen to a stream.
pub data Happening : Type 0 where
  data_event : (is_open terminated : Bool) → List ℕ → ℕ → Happening
  read_next : Happening
  read_on : (is_open : Bool) → Happening
  stream_ended : Happening
  stream_reset : Happening
  stream_closed : Happening
  connection_failed : Happening

unfoldable pub after_happening : Happening → ResponseStream → ResponseStream
unfolding data_received next_chunk resume close fail
after_happening (data_event is_open terminated bytes credit) s =
    data_received is_open terminated bytes credit s
after_happening read_next s = elim (next_chunk s) [ none ↦ s | some s' ↦ s' ]
after_happening (read_on is_open) s = resume is_open s
after_happening stream_ended s = record s { ended = true }
after_happening stream_reset s = record s { error = true }
after_happening stream_closed s = close s
after_happening connection_failed s = fail s

unfoldable pub after_all : List Happening → ResponseStream → ResponseStream
unfolding after_happening
after_all [] s = s
after_all (h ∷ happenings) s = after_all happenings (after_happening h s)

-- The frames of a batch: `while offset < batch_end`, each round at least a byte.
unfoldable pub frame_loop : ℕ → ℕ → ℕ → List ℕ → ℕ → List (List ℕ)
frame_loop zero max_frame offset bytes batch_end = []
frame_loop (suc fuel) max_frame offset bytes batch_end =
    let frame_end = min batch_end (offset + max_frame) in
    let rest = frame_loop fuel max_frame frame_end bytes batch_end in
    if ltb offset batch_end then slice offset frame_end bytes ∷ rest else []

-- `send_body` on one piece of the body: the frames of each round and where the rounds came to.
-- `windows` are what `local_flow_control_window` says, round by round; a round without room waits.
unfoldable pub send_rounds : ℕ → List ℕ → ℕ → List ℕ → List (List (List ℕ)) × ℕ
unfolding frame_loop
send_rounds max_frame [] offset bytes = ([], offset)
send_rounds max_frame (window ∷ windows) offset bytes =
    let count = min (length bytes - offset) (min io_batch_size window) in
    let again = send_rounds max_frame windows offset bytes in
    let on = send_rounds max_frame windows (offset + count) bytes in
    if ltb offset (length bytes)
    then if count == 0
      then ([] ∷ again.0, again.1)
      else (frame_loop (suc count) max_frame offset bytes (offset + count) ∷ on.0, on.1)
    else ([], offset)
