-- ===== src/Bridge/Downstream.antt =====
-- The downward loop over a WebSocket, and both loops over TCP.
use hide_self_tgws.Base.{
  ℕ, suc, ◌+◌, Bool, true, false, Option, none, some, List, [], ◌∷◌, ◌++◌, length, ◌≡◌, refl, sym,
  ap, ◌∙◌, arith, join, map, All, length-append,
}
use hide_self_tgws.Cipher.{
  Encryptor, update, xor_stream, length-xor_stream, xor_stream-append, xor_stream-cancel,
}
use hide_self_tgws.Handshake.{CryptoCtx, build_crypto_ctx}
use hide_self_tgws.Handshake.Peers.{client_up, client_down, telegram_up, telegram_down}
use hide_self_tgws.Bridge.{Download, ws_to_tcp, forward, forward_direction}
use hide_self_tgws.Bridge.Streams.{build_crypto_ctx_lem}
use hide_self_tgws.Bridge.Upstream.{NonEmpty}

abbrev pub start_download : CryptoCtx → Download
start_download ctx = record {
  tg_dec = ctx.tg_dec;
  clt_enc = ctx.clt_enc;
  down_bytes = 0;
  down_packets = 0;
}

module _ (keystream : List ℕ → List ℕ → ℕ → ℕ) where
  -- Two ciphers in a row over a stream.
  abbrev pub recoded : Encryptor → Encryptor → List ℕ → List ℕ
  recoded first second bytes =
      xor_stream (keystream second.key second.iv) second.position
        (xor_stream (keystream first.key first.iv) first.position bytes)

  abbrev after : Encryptor → List ℕ → Encryptor
  after e bytes = record e { position = e.position + length bytes }

  recoded-append :
      (first second : Encryptor) (c rest : List ℕ)
      → recoded first second (c ++ rest)
        ≡ recoded first second c
          ++ recoded
              (after first c)
              (after second (xor_stream (keystream first.key first.iv) first.position c))
              rest
  recoded-append first second c rest =
      let dec = keystream first.key first.iv in
      let enc = keystream second.key second.iv in
      ap (xor_stream enc second.position) (xor_stream-append dec first.position c rest)
      ∙ xor_stream-append enc second.position (xor_stream dec first.position c)
          (xor_stream dec (first.position + length c) rest)

  ws_to_tcp-recoded :
      (d : Download) (messages : List (List ℕ)) (later : List (Option (List ℕ)))
      → (join (ws_to_tcp keystream d (map some messages ++ (none ∷ later))).0
          ≡ recoded d.tg_dec d.clt_enc (join messages))
        × ((ws_to_tcp keystream d (map some messages ++ (none ∷ later))).1.down_bytes
            ≡ d.down_bytes + length (join messages))
  unfolding ws_to_tcp update
  ws_to_tcp-recoded d [] later = (unfold xor_stream in refl, omega arith)
  ws_to_tcp-recoded d (m ∷ messages) later =
      let plain = xor_stream (keystream d.tg_dec.key d.tg_dec.iv) d.tg_dec.position m in
      let d' : Download = record {
        tg_dec = after d.tg_dec m;
        clt_enc = after d.clt_enc plain;
        down_bytes = d.down_bytes + length m;
        down_packets = suc d.down_packets;
      } in
      let (out, count) = ws_to_tcp-recoded d' messages later in
      (
        ap (◌++◌ (recoded d.tg_dec d.clt_enc m)) out
            ∙ sym (recoded-append d.tg_dec d.clt_enc m (join messages)),
        omega (arith, count, length-append m (join messages)),
      )

  forward-recoded :
      (first second : Encryptor) (reads : List (List ℕ))
      → All NonEmpty reads
      → join (forward keystream first second reads) ≡ recoded first second (join reads)
  unfolding forward update
  forward-recoded first second [] full = unfold xor_stream in refl
  forward-recoded first second ([] ∷ reads) full = absurd (omega (arith, full.0))
  forward-recoded first second ((b ∷ bs) ∷ reads) full =
      let c = b ∷ bs in
      let plain = xor_stream (keystream first.key first.iv) first.position c in
      ap (◌++◌ (recoded first second c))
        (forward-recoded (after first c) (after second plain) reads full.1)
      ∙ sym (recoded-append first second c (join reads))

  module _ (sha256 : List ℕ → List ℕ) (secret prekey_iv relay_init : List ℕ) where
    abbrev pub new_ctx : CryptoCtx
    new_ctx = build_crypto_ctx keystream sha256 prekey_iv secret relay_init

    recoded_up :
        (plain wire : List ℕ)
        → wire ≡ xor_stream (client_up keystream sha256 secret prekey_iv) 64 plain
        → recoded new_ctx.clt_dec new_ctx.tg_enc wire
          ≡ xor_stream (telegram_up keystream relay_init) 64 plain
    recoded_up plain wire e =
        let m = build_crypto_ctx_lem keystream sha256 secret prekey_iv relay_init in
        rw (m.clt_dec, m.clt_dec_at, m.tg_enc, m.tg_enc_at, e)
          (ap (xor_stream (telegram_up keystream relay_init) 64)
            (xor_stream-cancel (client_up keystream sha256 secret prekey_iv) 64 plain))

    recoded_down :
        (plain wire : List ℕ)
        → wire ≡ xor_stream (telegram_down keystream relay_init) 0 plain
        → recoded new_ctx.tg_dec new_ctx.clt_enc wire
          ≡ xor_stream (client_down keystream sha256 secret prekey_iv) 0 plain
    recoded_down plain wire e =
        let m = build_crypto_ctx_lem keystream sha256 secret prekey_iv relay_init in
        rw (m.clt_enc, m.clt_enc_at, m.tg_dec, m.tg_dec_at, e)
          (ap (xor_stream (client_down keystream sha256 secret prekey_iv) 0)
            (xor_stream-cancel (telegram_down keystream relay_init) 0 plain))

    -- For any cipher keystream and hash: if the messages received before the close are a plain
    -- stream encrypted by Telegram with the downward key of the relay's init, cut anywhere, then
    -- what the loop writes to the client, joined and decrypted with the client's downward key, is
    -- the plain stream. As many bytes are counted, and nothing behind the close is read.
    pub ws_to_tcp_lem :
        (plain : List ℕ) (messages : List (List ℕ)) (later : List (Option (List ℕ)))
        → join messages ≡ xor_stream (telegram_down keystream relay_init) 0 plain
        → (xor_stream (client_down keystream sha256 secret prekey_iv) 0 (
              join
                (ws_to_tcp keystream
                  (start_download new_ctx)
                  (map some messages ++ (none ∷ later))).0)
            ≡ plain)
          × ((ws_to_tcp keystream
                (start_download new_ctx)
                (map some messages ++ (none ∷ later))).1.down_bytes
              ≡ length plain)
    ws_to_tcp_lem plain messages later wire =
        let (out, count) = ws_to_tcp-recoded (start_download new_ctx) messages later in
        let down = client_down keystream sha256 secret prekey_iv in
        (
          ap (xor_stream down 0) (out ∙ recoded_down plain (join messages) wire)
              ∙ xor_stream-cancel down 0 plain,
          omega (
            arith,
            count,
            ap length wire,
            length-xor_stream (telegram_down keystream relay_init) 0 plain,
          ),
        )

    -- The plain stream as the sender of a direction encrypts it, and as its receiver expects it.
    abbrev pub from_sender : Bool → List ℕ → List ℕ
    from_sender true = xor_stream (client_up keystream sha256 secret prekey_iv) 64
    from_sender false = xor_stream (telegram_down keystream relay_init) 0

    abbrev pub for_receiver : Bool → List ℕ → List ℕ
    for_receiver true = xor_stream (telegram_up keystream relay_init) 64
    for_receiver false = xor_stream (client_down keystream sha256 secret prekey_iv) 0

    -- For any cipher keystream and hash, in both directions over TCP: if what the loop reads, in
    -- pieces that are not empty, is a plain stream under the sender's cipher, then what it writes,
    -- joined, is the plain stream under the cipher that the receiver expects.
    pub forward_direction_lem :
        (is_up : Bool) (plain : List ℕ) (reads : List (List ℕ))
        → All NonEmpty reads
        → join reads ≡ from_sender is_up plain
        → join (forward_direction keystream new_ctx is_up reads) ≡ for_receiver is_up plain
    unfolding forward_direction
    forward_direction_lem true plain reads full e =
        forward-recoded new_ctx.clt_dec new_ctx.tg_enc reads full ∙ recoded_up plain (join reads) e
    forward_direction_lem false plain reads full e =
        forward-recoded new_ctx.tg_dec new_ctx.clt_enc reads full
        ∙ recoded_down plain (join reads) e
