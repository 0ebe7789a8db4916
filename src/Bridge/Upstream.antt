-- ===== src/Bridge/Upstream.antt =====
-- The upward loop over a WebSocket: what it sends is what the splitter makes of the re-encrypted
-- stream, and Telegram decrypts it to the client's bytes.
use hide_self_tgws.Base.{
  ℕ, suc, ◌+◌, ◌<◌, Option, none, some, List, [], ◌∷◌, ◌++◌, length, ok, ◌≡◌, refl, sym, ap, ap₂,
  ◌∙◌, arith, join, All, length-append, append_assoc, append-nil, Result-cases, inl, inr,
}
use hide_self_tgws.Cipher.{
  update, xor_stream, length-xor_stream, xor_stream-append, xor_stream-cancel,
}
use hide_self_tgws.Handshake.{build_crypto_ctx}
use hide_self_tgws.Handshake.Peers.{client_up, telegram_up}
use hide_self_tgws.Bridge.Streams.{build_crypto_ctx_lem}
use hide_self_tgws.Splitter.{MsgSplitter, init, split, flush, feed}
use hide_self_tgws.Splitter.Chunking.{ok-inj}
use hide_self_tgws.Splitter.Feeding.{ciphers, plains, InStep, feed_total}
use hide_self_tgws.Bridge.{
  Upload, Sending, send, messages_of, all_messages, send_parts, send_tail, end_upload, cut_chunk,
  upload_chunk, tcp_to_ws, start_upload,
}

abbrev pub NonEmpty : List ℕ → Type 0
NonEmpty bs = 0 < length bs

-- The chunks re-encrypted one by one, each beside its plain bytes.
unfoldable pub pieces : (ℕ → ℕ) → ℕ → (ℕ → ℕ) → ℕ → List (List ℕ) → List (List ℕ × List ℕ)
pieces dec at_dec enc at_enc [] = []
pieces dec at_dec enc at_enc (c ∷ reads) =
    (xor_stream enc at_enc (xor_stream dec at_dec c), xor_stream dec at_dec c)
    ∷ pieces dec (at_dec + length c) enc (at_enc + length (xor_stream dec at_dec c)) reads

module _ (dec enc : ℕ → ℕ) where
  pub plains-pieces :
      (at_dec at_enc : ℕ) (reads : List (List ℕ))
      → plains (pieces dec at_dec enc at_enc reads) ≡ xor_stream dec at_dec (join reads)
  unfolding pieces
  plains-pieces at_dec at_enc [] = unfold xor_stream in refl
  plains-pieces at_dec at_enc (c ∷ reads) =
      ap (◌++◌ (xor_stream dec at_dec c))
        (plains-pieces (at_dec + length c) (at_enc + length (xor_stream dec at_dec c)) reads)
      ∙ sym (xor_stream-append dec at_dec c (join reads))

  pub ciphers-pieces :
      (at_dec at_enc : ℕ) (reads : List (List ℕ))
      → ciphers (pieces dec at_dec enc at_enc reads)
        ≡ xor_stream enc at_enc (xor_stream dec at_dec (join reads))
  unfolding pieces
  ciphers-pieces at_dec at_enc [] = unfold xor_stream in refl
  ciphers-pieces at_dec at_enc (c ∷ reads) =
      let plain = xor_stream dec at_dec c in
      ap (◌++◌ (xor_stream enc at_enc plain))
        (ciphers-pieces (at_dec + length c) (at_enc + length plain) reads)
      ∙ sym (xor_stream-append enc at_enc plain (xor_stream dec (at_dec + length c) (join reads)))
      ∙ ap (xor_stream enc at_enc) (sym (xor_stream-append dec at_dec c (join reads)))

  pub pieces-InStep :
      (at_dec at_enc : ℕ) (reads : List (List ℕ)) → All InStep (pieces dec at_dec enc at_enc reads)
  unfolding pieces
  pieces-InStep at_dec at_enc [] = tt
  pieces-InStep at_dec at_enc (c ∷ reads) = (
    length-xor_stream enc at_enc (xor_stream dec at_dec c),
    pieces-InStep (at_dec + length c) (at_enc + length (xor_stream dec at_dec c)) reads,
  )

all_messages-append :
    (a b : List Sending) → all_messages (a ++ b) ≡ all_messages a ++ all_messages b
unfolding all_messages
all_messages-append [] b = refl
all_messages-append (s ∷ a) b =
    ap (◌++◌ (messages_of s)) (all_messages-append a b)
    ∙ sym (append_assoc (messages_of s) (all_messages a) (all_messages b))

send_parts_messages : (parts : List (List ℕ)) → all_messages (send_parts parts) ≡ parts
unfolding all_messages messages_of send_parts
send_parts_messages [] = refl
send_parts_messages (p ∷ []) = refl
send_parts_messages (p ∷ q ∷ parts) = append-nil (p ∷ q ∷ parts)

send_tail_messages : (s : MsgSplitter) → all_messages (send_tail (flush s).0) ≡ (flush s).0
unfolding all_messages messages_of send_tail flush
send_tail_messages s = tail_of s.cipher_buf refl
  where
    tail_of : (b : List ℕ) → s.cipher_buf ≡ b → all_messages (send_tail (flush s).0) ≡ (flush s).0
    tail_of [] e = rw (e, flush) refl
    tail_of (x ∷ xs) e = rw (e, flush) refl

feed-inv :
    (s : MsgSplitter) (c p : List ℕ) (ws : List (List ℕ × List ℕ)) (r : List (List ℕ) × MsgSplitter)
    → feed s ((c, p) ∷ ws) ≡ ok r
    → (r1 r2 : List (List ℕ) × MsgSplitter) × (split s c p ≡ ok r1)
      × (feed r1.1 ws ≡ ok r2)
      × (r ≡ (r1.0 ++ r2.0, r2.1))
unfolding feed
feed-inv s c p ws r e = elim (Result-cases (split s c p)) [
  | inr (x, run) ↦ absurd (ground (arith, e, run))
  | inl (r1, run) ↦ elim (Result-cases (feed r1.1 ws)) [
    | inr (x, run2) ↦ absurd (ground (arith, e, run, run2))
    | inl (r2, run2) ↦ (r1, r2, run, run2, ok-inj r _ (sym e ∙ rw (run, run2) refl))
  ]
]

-- The splitter of a connection, for a protocol that has one.
abbrev pub new_splitter : Option ℕ → Option MsgSplitter
new_splitter none = none
new_splitter (some proto_int) = some (init proto_int)

module _ (keystream : List ℕ → List ℕ → ℕ → ℕ) where
  -- The chunks of an upward loop re-encrypted from where its ciphers stand.
  abbrev pub pieces_of : Upload → List (List ℕ) → List (List ℕ × List ℕ)
  pieces_of u =
      pieces (keystream u.clt_dec.key u.clt_dec.iv) u.clt_dec.position
        (keystream u.tg_enc.key u.tg_enc.iv) u.tg_enc.position

  -- The state after a round.
  abbrev next_upload : Upload → List ℕ → Option MsgSplitter → Upload
  next_upload u chunk splitter =
      let plain = xor_stream (keystream u.clt_dec.key u.clt_dec.iv) u.clt_dec.position chunk in
      record {
        clt_dec = record (u.clt_dec) { position = u.clt_dec.position + length chunk };
        tg_enc = record (u.tg_enc) { position = u.tg_enc.position + length plain };
        splitter = splitter;
        up_bytes = u.up_bytes + length chunk;
        up_packets = suc u.up_packets;
      }

  tcp_to_ws_round :
      (u : Upload) (s : MsgSplitter) (c : List ℕ) (reads : List (List ℕ))
      (r1 : List (List ℕ) × MsgSplitter) (sent : List Sending) (u' : Upload)
      → u.splitter ≡ some s
      → NonEmpty c
      → (let plain = xor_stream (keystream u.clt_dec.key u.clt_dec.iv) u.clt_dec.position c in
          split s (xor_stream (keystream u.tg_enc.key u.tg_enc.iv) u.tg_enc.position plain) plain)
        ≡ ok r1
      → tcp_to_ws keystream (next_upload u c (some r1.1)) reads ≡ ok (sent, u')
      → tcp_to_ws keystream u (c ∷ reads) ≡ ok (send_parts r1.0 ++ sent, u')
  unfolding tcp_to_ws upload_chunk cut_chunk update
  tcp_to_ws_round u s [] reads r1 sent u' has some_bytes cut run = absurd (omega arith)
  tcp_to_ws_round u s (b ∷ bs) reads r1 sent u' has some_bytes cut run = rw (has, cut, run) refl

  -- The messages of a loop that has a splitter: its parts, and what it flushes at the end.
  pub tcp_to_ws-feed :
      (u : Upload) (s : MsgSplitter) (reads : List (List ℕ)) (r : List (List ℕ) × MsgSplitter)
      → u.splitter ≡ some s
      → All NonEmpty reads
      → feed s (pieces_of u reads) ≡ ok r
      → (sent : List Sending) × (u' : Upload) × (tcp_to_ws keystream u reads ≡ ok (sent, u'))
        × (all_messages sent ≡ r.0 ++ (flush r.1).0)
        × (u'.up_bytes ≡ u.up_bytes + length (join reads))
  unfolding tcp_to_ws end_upload pieces
  tcp_to_ws-feed u s [] r has full run =
      let same : ([], s) ≡ r = ok-inj ([], s) r (unfold feed in run) in
      (
        send_tail (flush s).0,
        record u { splitter = some (flush s).1 },
        rw (has) refl,
        send_tail_messages s ∙ rw (← same) refl,
        omega arith,
      )
  tcp_to_ws-feed u s (c ∷ reads) r has full run =
      let plain = xor_stream (keystream u.clt_dec.key u.clt_dec.iv) u.clt_dec.position c in
      let cipher = xor_stream (keystream u.tg_enc.key u.tg_enc.iv) u.tg_enc.position plain in
      let u1 = next_upload u c in
      let (r1, r2, cut, rest, both) = feed-inv s cipher plain (pieces_of (u1 none) reads) r run in
      let (sent, u', run', out, count) =
        tcp_to_ws-feed (u1 (some r1.1)) r1.1 reads r2 refl full.1 rest in
      (
        send_parts r1.0 ++ sent,
        u',
        tcp_to_ws_round u s c reads r1 sent u' has full.0 cut run',
        all_messages-append (send_parts r1.0) sent
            ∙ ap₂ ◌++◌ (send_parts_messages r1.0) out
            ∙ rw both (sym (append_assoc r1.0 r2.0 (flush r2.1).0)),
        omega (arith, count, length-append c (join reads)),
      )

  -- Without a splitter every chunk is a message.
  tcp_to_ws-unsplit :
      (u : Upload) (reads : List (List ℕ))
      → u.splitter ≡ none
      → All NonEmpty reads
      → (sent : List Sending) × (u' : Upload) × (tcp_to_ws keystream u reads ≡ ok (sent, u'))
        × (join (all_messages sent) ≡ ciphers (pieces_of u reads))
        × (u'.up_bytes ≡ u.up_bytes + length (join reads))
  unfolding tcp_to_ws end_upload upload_chunk cut_chunk update pieces all_messages messages_of
  tcp_to_ws-unsplit u [] has full = ([], u, rw (has) refl, refl, omega arith)
  tcp_to_ws-unsplit u ([] ∷ reads) has full = absurd (omega (arith, full.0))
  tcp_to_ws-unsplit u ((b ∷ bs) ∷ reads) has full =
      let plain = xor_stream (keystream u.clt_dec.key u.clt_dec.iv) u.clt_dec.position (b ∷ bs) in
      let cipher = xor_stream (keystream u.tg_enc.key u.tg_enc.iv) u.tg_enc.position plain in
      let (sent, u', run, out, count) =
        tcp_to_ws-unsplit (next_upload u (b ∷ bs) none) reads refl full.1 in
      (
        send cipher ∷ sent,
        u',
        rw (has, run) refl,
        ap (◌++◌ cipher) out,
        omega (arith, count, length-append (b ∷ bs) (join reads)),
      )

  module _ (sha256 : List ℕ → List ℕ) (secret prekey_iv relay_init : List ℕ) where
    -- The loop of a new connection.
    abbrev pub new_upload : Option MsgSplitter → Upload
    new_upload = start_upload (build_crypto_ctx keystream sha256 prekey_iv secret relay_init)

    -- What a new connection's loop re-encrypts.
    pub ciphers-new_upload :
        (splitter : Option MsgSplitter) (reads : List (List ℕ)) (plain : List ℕ)
        → join reads ≡ xor_stream (client_up keystream sha256 secret prekey_iv) 64 plain
        → (plains (pieces_of (new_upload splitter) reads) ≡ plain)
          × (ciphers (pieces_of (new_upload splitter) reads)
              ≡ xor_stream (telegram_up keystream relay_init) 64 plain)
    ciphers-new_upload splitter reads plain wire =
        let ctx = build_crypto_ctx keystream sha256 prekey_iv secret relay_init in
        let m = build_crypto_ctx_lem keystream sha256 secret prekey_iv relay_init in
        let clear : xor_stream (keystream ctx.clt_dec.key ctx.clt_dec.iv) ctx.clt_dec.position
              (join reads)
            ≡ plain =
          rw (m.clt_dec, m.clt_dec_at, wire)
            (xor_stream-cancel (client_up keystream sha256 secret prekey_iv) 64 plain) in
        (
          plains-pieces (keystream ctx.clt_dec.key ctx.clt_dec.iv)
                (keystream ctx.tg_enc.key ctx.tg_enc.iv) ctx.clt_dec.position ctx.tg_enc.position
                reads
              ∙ clear,
          ciphers-pieces (keystream ctx.clt_dec.key ctx.clt_dec.iv)
                (keystream ctx.tg_enc.key ctx.tg_enc.iv) ctx.clt_dec.position ctx.tg_enc.position
                reads
              ∙ ap (xor_stream (keystream ctx.tg_enc.key ctx.tg_enc.iv) ctx.tg_enc.position) clear
              ∙ rw (m.tg_enc, m.tg_enc_at) refl,
        )

    -- What `tcp_to_ws` has done with a stream of plain bytes.
    pub record Carries (u : Upload) (reads : List (List ℕ)) (plain : List ℕ) : Type 0 where
      pub sent : List Sending
      pub after : Upload
      pub run : tcp_to_ws keystream u reads ≡ ok (sent, after)
      pub delivered :
          xor_stream (telegram_up keystream relay_init) 64 (join (all_messages sent)) ≡ plain
      pub counted : after.up_bytes ≡ length plain

    -- For any cipher keystream and hash: if what the loop reads of a new connection, in any pieces
    -- that are not empty, is a plain stream encrypted as the client does behind its opening, then
    -- the loop raises nothing, with a splitter of any protocol or with none. The messages that it
    -- sends, joined and decrypted as Telegram does behind the relay's init, are the plain stream,
    -- and as many bytes have been counted.
    pub tcp_to_ws_lem :
        (proto : Option ℕ) (reads : List (List ℕ)) (plain : List ℕ)
        → All NonEmpty reads
        → join reads ≡ xor_stream (client_up keystream sha256 secret prekey_iv) 64 plain
        → Carries (new_upload (new_splitter proto)) reads plain
    tcp_to_ws_lem proto reads plain full wire =
        let (sent, u', run, out, count) = carried proto in
        record {
          sent = sent;
          after = u';
          run = run;
          delivered =
              ap (xor_stream (telegram_up keystream relay_init) 64)
                (out ∙ (ciphers-new_upload (new_splitter proto) reads plain wire).1)
              ∙ xor_stream-cancel (telegram_up keystream relay_init) 64 plain;
          counted = omega (
            arith,
            count,
            ap length wire,
            length-xor_stream (client_up keystream sha256 secret prekey_iv) 64 plain,
          );
        }
      where
        carried :
            (proto : Option ℕ)
            → (sent : List Sending) × (u' : Upload) × (tcp_to_ws keystream
                  (new_upload (new_splitter proto))
                  reads
                ≡ ok (sent, u'))
              × (join (all_messages sent)
                  ≡ ciphers (pieces_of (new_upload (new_splitter proto)) reads))
              × (u'.up_bytes ≡ 0 + length (join reads))
        carried none = tcp_to_ws-unsplit (new_upload none) reads refl full
        carried (some p) =
            let u = new_upload (some (init p)) in
            let (r, run, v, whole) =
              feed_total (init p) (pieces_of u reads)
                record { same_length = refl; nothing_kept = λ e. refl }
                (pieces-InStep (keystream u.clt_dec.key u.clt_dec.iv)
                  (keystream u.tg_enc.key u.tg_enc.iv) u.clt_dec.position u.tg_enc.position
                  reads) in
            let (sent, u', run', out, count) = tcp_to_ws-feed u (init p) reads r refl full run in
            (sent, u', run', ap join out ∙ whole, count)
