-- ===== src/WebSocket.antt =====
-- proxy/raw_websocket.py: masking, frames and the RawWebSocket object. The bytes that the peer
-- sends are a list; `os.urandom` is a parameter, the n-th call answering `urandom n`.
pub mod Mask
pub mod Frames
pub mod Messages
use hide_self_tgws.Base.{
  ℕ, zero, suc, ◌+◌, ◌-◌, ◌*◌, ◌/◌, ◌%◌, bit_and, bit_or, bit_xor, Bool, true, false, not, ◌&&◌,
  ◌||◌, Option, none, some, List, [], ◌∷◌, ◌++◌, map, length, take, drop, ltb, leb, ◌==◌,
  if◌then◌else◌, Result, ok, err, stuck, incomplete_read_error, connection_error, ◌>>=◌, ◌>>◌,
  guard,
}
use hide_self_tgws.Base.Bytes.{byte_at, from_bytes_big, to_bytes_big}
use hide_self_tgws.Base.Reader.{readexactly}

-- `data[offset::4]`
unfoldable pub every_fourth : ℕ → List ℕ → List ℕ
every_fourth k [] = []
every_fourth zero (x ∷ xs) = x ∷ every_fourth 3 xs
every_fourth (suc k) (x ∷ xs) = every_fourth k xs

-- `data[offset::4] = new`, for as many new bytes as there are places.
unfoldable pub set_every_fourth : ℕ → List ℕ → List ℕ → List ℕ
set_every_fourth k new [] = []
set_every_fourth zero [] (x ∷ xs) = x ∷ xs
set_every_fourth zero (v ∷ new) (x ∷ xs) = v ∷ set_every_fourth 3 new xs
set_every_fourth (suc k) new (x ∷ xs) = x ∷ set_every_fourth k new xs

-- One round of the loop over the four offsets: `_XOR_TABLES[key]` maps a byte to `byte ^ key`.
unfoldable pub mask_offset : List ℕ → ℕ → List ℕ → Result (List ℕ)
mask_offset mask offset masked = do
  key ← byte_at mask offset
  ok (
      set_every_fourth offset (map (λ value. bit_xor value key) (every_fourth offset masked))
        masked)

unfoldable pub mask_by_tables : List ℕ → List ℕ → Result (List ℕ)
mask_by_tables payload mask = do
  m0 ← mask_offset mask 0 payload
  m1 ← mask_offset mask 1 m0
  m2 ← mask_offset mask 2 m1
  mask_offset mask 3 m2

-- `mask * k`
unfoldable pub repeat : ℕ → List ℕ → List ℕ
repeat zero mask = []
repeat (suc k) mask = mask ++ repeat k mask

unfoldable pub mask_by_integers : List ℕ → List ℕ → List ℕ
mask_by_integers payload mask =
    let n = length payload in
    let mask_rep = take n (repeat (n / 4 + 1) mask) in
    to_bytes_big n (bit_xor (from_bytes_big payload) (from_bytes_big mask_rep))

unfoldable pub xor_mask : List ℕ → List ℕ → Result (List ℕ)
xor_mask [] mask = ok []
xor_mask (x ∷ xs) mask =
    if leb 512 (length (x ∷ xs))
    then mask_by_tables (x ∷ xs) mask
    else ok (mask_by_integers (x ∷ xs) mask)

abbrev pub op_cont : ℕ
op_cont = 0x0

abbrev pub op_text : ℕ
op_text = 0x1

abbrev pub op_binary : ℕ
op_binary = 0x2

abbrev pub op_close : ℕ
op_close = 0x8

abbrev pub op_ping : ℕ
op_ping = 0x9

abbrev pub op_pong : ℕ
op_pong = 0xA

abbrev pub max_message_len : ℕ
max_message_len = 16777216

-- `_build_frame`; `mask_key` is what `os.urandom(4)` returns, used if the frame is masked.
unfoldable pub build_frame : ℕ → List ℕ → Bool → List ℕ → Result (List ℕ)
build_frame opcode payload mask mask_key =
    let length_ = length payload in
    let fb = bit_or 0x80 opcode in
    if not mask
    then (if ltb length_ 126
        then ok (fb ∷ length_ ∷ payload)
        else (if ltb length_ 65536
            then ok (fb ∷ 126 ∷ (to_bytes_big 2 length_ ++ payload))
            else ok (fb ∷ 127 ∷ (to_bytes_big 8 length_ ++ payload))))
    else (do
      masked ← xor_mask payload mask_key
      ok (
          if ltb length_ 126
          then fb ∷ bit_or 0x80 length_ ∷ (mask_key ++ masked)
          else (if ltb length_ 65536
              then fb ∷ bit_or 0x80 126 ∷ (to_bytes_big 2 length_ ++ (mask_key ++ masked))
              else fb ∷ bit_or 0x80 127 ∷ (to_bytes_big 8 length_ ++ (mask_key ++ masked)))))

-- The extended lengths of `_read_frame`.
unfoldable pub read_length : ℕ → List ℕ → Result (ℕ × List ℕ)
read_length short stream =
    if short == 126
    then (do (field, rest) ← readexactly 2 stream; ok (from_bytes_big field, rest))
    else (if short == 127
        then (do (field, rest) ← readexactly 8 stream; ok (from_bytes_big field, rest))
        else ok (short, stream))

pub record Frame : Type 0 where
  pub opcode : ℕ
  pub payload : List ℕ
  pub fin : Bool

unfoldable pub read_payload : ℕ → ℕ → ℕ → List ℕ → Result (Frame × List ℕ)
read_payload first second length_ stream =
    let opcode = bit_and first 0x0F in
    let fin = not (bit_and first 0x80 == 0) in
    if not (bit_and second 0x80 == 0)
    then (do
      (mask_key, rest) ← readexactly 4 stream
      (payload, rest) ← readexactly length_ rest
      unmasked ← xor_mask payload mask_key
      ok (record { opcode = opcode; payload = unmasked; fin = fin }, rest))
    else (do
      (payload, rest) ← readexactly length_ stream
      ok (record { opcode = opcode; payload = payload; fin = fin }, rest))

unfoldable pub read_frame : List ℕ → Result (Frame × List ℕ)
read_frame stream = do
  (hdr, rest) ← readexactly 2 stream
  first ← byte_at hdr 0
  second ← byte_at hdr 1
  (length_, rest) ← read_length (bit_and second 0x7F) rest
  guard (leb length_ max_message_len) connection_error
  read_payload first second length_ rest

-- The object: the bytes still to come from the peer, the bytes written to it, `_closed`, `_frag`,
-- and how often `os.urandom` has been called.
pub record RawWebSocket : Type 0 where
  pub reader : List ℕ
  pub written : List ℕ
  pub closed : Bool
  pub frag : List ℕ
  pub drawn : ℕ

pub data Step : Type 0 where
  returned : Option (List ℕ) → RawWebSocket → Step
  continued : RawWebSocket → Step

module _ (urandom : ℕ → List ℕ) where
  unfoldable pub write_frame : RawWebSocket → ℕ → List ℕ → Result RawWebSocket
  write_frame ws opcode payload = do
    frame ← build_frame opcode payload true (urandom ws.drawn)
    ok (record ws { written = ws.written ++ frame; drawn = ws.drawn + 1 })

  -- A write under `try … except Exception: pass`.
  unfoldable pub quiet_write : RawWebSocket → ℕ → List ℕ → RawWebSocket
  quiet_write ws opcode payload = elim (write_frame ws opcode payload) [ ok ws' ↦ ws' | err e ↦ ws ]

  unfoldable pub send : RawWebSocket → List ℕ → Result RawWebSocket
  send ws payload = if ws.closed then err connection_error else write_frame ws op_binary payload

  unfoldable pub write_all : RawWebSocket → List (List ℕ) → Result RawWebSocket
  write_all ws [] = ok ws
  write_all ws (part ∷ parts) = do ws' ← write_frame ws op_binary part; write_all ws' parts

  unfoldable pub send_batch : RawWebSocket → List (List ℕ) → Result RawWebSocket
  send_batch ws parts = if ws.closed then err connection_error else write_all ws parts

  unfoldable pub close : RawWebSocket → RawWebSocket
  close ws = if ws.closed then ws else quiet_write (record ws { closed = true }) op_close []

  -- A frame of a message, or of the rest of one.
  unfoldable pub on_data : RawWebSocket → List ℕ → Bool → Result Step
  on_data ws payload fin =
      let frag' = ws.frag ++ payload in
      if fin && length ws.frag == 0
      then ok (returned (some payload) ws)
      else (if ltb max_message_len (length frag')
          then err connection_error
          else (if not fin
              then ok (continued (record ws { frag = frag' }))
              else ok (returned (some frag') (record ws { frag = [] }))))

  -- The body of the loop of `recv`, once a frame has been read.
  unfoldable pub on_frame : RawWebSocket → Frame → Result Step
  on_frame ws f =
      if f.opcode == op_close
      then ok
          (returned none (quiet_write (record ws { closed = true }) op_close (take 2 f.payload)))
      else (if f.opcode == op_ping
          then ok (continued (quiet_write ws op_pong f.payload))
          else (if f.opcode == op_pong
              then ok (continued ws)
              else (if f.opcode == op_cont || f.opcode == op_text || f.opcode == op_binary
                  then on_data ws f.payload f.fin
                  else ok (continued ws))))

  unfoldable pub recv_step : RawWebSocket → Result Step
  recv_step ws = do (f, rest) ← read_frame ws.reader; on_frame (record ws { reader = rest }) f

  unfoldable pub recv_loop : ℕ → RawWebSocket → Result (Option (List ℕ) × RawWebSocket)
  recv_loop zero ws = err stuck
  recv_loop (suc fuel) ws = elim ws.closed [
    | true ↦ ok (none, ws)
    | false ↦ do
      step ← recv_step ws
      elim step [ returned message ws' ↦ ok (message, ws') | continued ws' ↦ recv_loop fuel ws' ]
  ]

  -- A frame takes two bytes at least, so the bytes to come bound the rounds.
  unfoldable pub recv : RawWebSocket → Result (Option (List ℕ) × RawWebSocket)
  recv ws = recv_loop (suc (length ws.reader)) ws
