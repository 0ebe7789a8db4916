-- ===== src/Bridge.antt =====
-- proxy/bridge.py: `bridge_ws_reencrypt` and `_bridge_tcp_reencrypt`, the loops that carry a
-- connection's bytes between client and Telegram under two pairs of ciphers. A loop takes what its
-- reads return, in order, and gives what it sends; sends that fail end a loop early and are not
-- modelled.
pub mod Streams
pub mod Upstream
pub mod Packets
pub mod Downstream
use hide_self_tgws.Base.{
  ℕ, zero, suc, ◌+◌, Bool, true, false, Option, none, some, List, [], ◌∷◌, ◌++◌, length, Result, ok,
  err, ◌>>=◌,
}
use hide_self_tgws.Cipher.{Encryptor, update}
use hide_self_tgws.Handshake.{CryptoCtx}
use hide_self_tgws.Splitter.{MsgSplitter, split, flush}

-- `ws.send(part)` and `ws.send_batch(parts)`.
pub data Sending : Type 0 where
  send : List ℕ → Sending
  send_batch : List (List ℕ) → Sending

-- The WebSocket messages of a call.
unfoldable pub messages_of : Sending → List (List ℕ)
messages_of (send part) = part ∷ []
messages_of (send_batch parts) = parts

unfoldable pub all_messages : List Sending → List (List ℕ)
unfolding messages_of
all_messages [] = []
all_messages (s ∷ sendings) = messages_of s ++ all_messages sendings

-- What one upward loop works on.
pub record Upload : Type 0 where
  pub clt_dec : Encryptor
  pub tg_enc : Encryptor
  pub splitter : Option MsgSplitter
  pub up_bytes : ℕ
  pub up_packets : ℕ

abbrev pub start_upload : CryptoCtx → Option MsgSplitter → Upload
start_upload ctx splitter = record {
  clt_dec = ctx.clt_dec;
  tg_enc = ctx.tg_enc;
  splitter = splitter;
  up_bytes = 0;
  up_packets = 0;
}

-- `if not parts: continue`, `send_batch` for several parts and `send` for one.
unfoldable pub send_parts : List (List ℕ) → List Sending
send_parts [] = []
send_parts (part ∷ []) = send part ∷ []
send_parts (part ∷ part2 ∷ parts) = send_batch (part ∷ part2 ∷ parts) ∷ []

-- The end of the stream: `tail = splitter.flush()` and `ws.send(tail[0])`.
unfoldable pub send_tail : List (List ℕ) → List Sending
send_tail [] = []
send_tail (t ∷ tail) = send t ∷ []

unfoldable pub end_upload : Upload → List Sending × Upload
unfolding send_tail
end_upload u = elim u.splitter [
  | none ↦ ([], u)
  | some s ↦ (send_tail (flush s).0, record u { splitter = some (flush s).1 })
]

-- The splitter's part of a round: what to send, and the splitter after it.
unfoldable pub cut_chunk :
    Option MsgSplitter → List ℕ → List ℕ → Result (List Sending × Option MsgSplitter)
unfolding send_parts
cut_chunk none chunk plain = ok (send chunk ∷ [], none)
cut_chunk (some s) chunk plain = do
  (parts, s') ← split s chunk plain
  ok (send_parts parts, some s')

pub record Download : Type 0 where
  pub tg_dec : Encryptor
  pub clt_enc : Encryptor
  pub down_bytes : ℕ
  pub down_packets : ℕ

module _ (keystream : List ℕ → List ℕ → ℕ → ℕ) where
  -- A round of `tcp_to_ws` with a chunk that is not empty.
  unfoldable pub upload_chunk : Upload → List ℕ → Result (List Sending × Upload)
  upload_chunk u chunk =
      let (plain, clt_dec) = update keystream u.clt_dec chunk in
      let (cipher, tg_enc) = update keystream u.tg_enc plain in
      do
        (sent, splitter) ← cut_chunk u.splitter cipher plain
        ok (
          sent,
          record {
            clt_dec = clt_dec;
            tg_enc = tg_enc;
            splitter = splitter;
            up_bytes = u.up_bytes + length chunk;
            up_packets = suc u.up_packets;
          },
        )

  -- `tcp_to_ws` over what `reader.read` returns: an empty read is the end of the stream.
  unfoldable pub tcp_to_ws : Upload → List (List ℕ) → Result (List Sending × Upload)
  unfolding end_upload
  tcp_to_ws u [] = ok (end_upload u)
  tcp_to_ws u ([] ∷ reads) = ok (end_upload u)
  tcp_to_ws u ((b ∷ bs) ∷ reads) = do
    (sent, u') ← upload_chunk u (b ∷ bs)
    (rest, u'') ← tcp_to_ws u' reads
    ok (sent ++ rest, u'')

  -- `ws_to_tcp` over what `ws.recv` returns: `None` is the close; the writes to the client.
  unfoldable pub ws_to_tcp : Download → List (Option (List ℕ)) → List (List ℕ) × Download
  ws_to_tcp d [] = ([], d)
  ws_to_tcp d (none ∷ received) = ([], d)
  ws_to_tcp d (some bytes ∷ received) =
      let (plain, tg_dec) = update keystream d.tg_dec bytes in
      let (out, clt_enc) = update keystream d.clt_enc plain in
      let (rest, d') =
        ws_to_tcp
          record {
            tg_dec = tg_dec;
            clt_enc = clt_enc;
            down_bytes = d.down_bytes + length bytes;
            down_packets = suc d.down_packets;
          }
          received in
      (out ∷ rest, d')

  -- `forward`: the two ciphers of its direction, over what `src.read` returns.
  unfoldable pub forward : Encryptor → Encryptor → List (List ℕ) → List (List ℕ)
  forward first second [] = []
  forward first second ([] ∷ reads) = []
  forward first second ((b ∷ bs) ∷ reads) =
      let (plain, first') = update keystream first (b ∷ bs) in
      let (out, second') = update keystream second plain in out ∷ forward first' second' reads

  -- The two directions of `_bridge_tcp_reencrypt`.
  unfoldable pub forward_direction : CryptoCtx → Bool → List (List ℕ) → List (List ℕ)
  unfolding forward
  forward_direction ctx true = forward ctx.clt_dec ctx.tg_enc
  forward_direction ctx false = forward ctx.tg_dec ctx.clt_enc
