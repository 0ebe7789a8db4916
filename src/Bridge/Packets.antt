-- ===== src/Bridge/Packets.antt =====
-- The upward loop on a stream of transport packets.
use hide_self_tgws.Base.{
  ℕ, ◌+◌, some, List, [], ◌∷◌, ◌++◌, length, ok, ◌≡◌, refl, sym, ap, ap₂, ◌∙◌, join, map, All,
  append-nil,
}
use hide_self_tgws.Cipher.{xor_stream, length-xor_stream, xor_stream-append, xor_stream-cancel}
use hide_self_tgws.Handshake.Peers.{client_up, telegram_up}
use hide_self_tgws.Splitter.{init, flush}
use hide_self_tgws.Splitter.Feeding.{ciphers, plains}
use hide_self_tgws.Splitter.Packets.{IsWire, IsPacket, feed-packets}
use hide_self_tgws.Bridge.{Sending, Upload, all_messages, tcp_to_ws}
use hide_self_tgws.Bridge.Upstream.{
  NonEmpty, pieces_of, pieces-InStep, new_upload, ciphers-new_upload, tcp_to_ws-feed,
}

-- Messages decrypted in turn with one keystream.
unfoldable pub xor_each : (ℕ → ℕ) → ℕ → List (List ℕ) → List (List ℕ)
xor_each stream at_byte [] = []
xor_each stream at_byte (m ∷ messages) =
    xor_stream stream at_byte m ∷ xor_each stream (at_byte + length m) messages

-- Packets encrypted in turn, each beside its plain bytes.
unfoldable sealed : (ℕ → ℕ) → ℕ → List (List ℕ) → List (List ℕ × List ℕ)
sealed stream at_byte [] = []
sealed stream at_byte (p ∷ packets) =
    (xor_stream stream at_byte p, p) ∷ sealed stream (at_byte + length p) packets

module _ (stream : ℕ → ℕ) where
  plains-sealed :
      (at_byte : ℕ) (packets : List (List ℕ))
      → plains (sealed stream at_byte packets) ≡ join packets
  unfolding sealed
  plains-sealed at_byte [] = refl
  plains-sealed at_byte (p ∷ packets) = ap (◌++◌ p) (plains-sealed (at_byte + length p) packets)

  ciphers-sealed :
      (at_byte : ℕ) (packets : List (List ℕ))
      → ciphers (sealed stream at_byte packets) ≡ xor_stream stream at_byte (join packets)
  unfolding sealed
  ciphers-sealed at_byte [] = unfold xor_stream in refl
  ciphers-sealed at_byte (p ∷ packets) =
      ap (◌++◌ (xor_stream stream at_byte p)) (ciphers-sealed (at_byte + length p) packets)
      ∙ sym (xor_stream-append stream at_byte p (join packets))

  xor_each-sealed :
      (at_byte : ℕ) (packets : List (List ℕ))
      → xor_each stream at_byte (map (λ w. w.0) (sealed stream at_byte packets)) ≡ packets
  unfolding sealed xor_each
  xor_each-sealed at_byte [] = refl
  xor_each-sealed at_byte (p ∷ packets) = ap₂ ◌∷◌ (xor_stream-cancel stream at_byte p) (
      ap
        (λ n.
          xor_each stream (at_byte + n)
            (map (λ w. w.0) (sealed stream (at_byte + length p) packets)))
        (length-xor_stream stream at_byte p)
      ∙ xor_each-sealed (at_byte + length p) packets)

  sealed-IsPacket :
      (proto at_byte : ℕ) (packets : List (List ℕ))
      → All (IsWire proto) packets
      → All (IsPacket proto) (sealed stream at_byte packets)
  unfolding sealed
  sealed-IsPacket proto at_byte [] h = tt
  sealed-IsPacket proto at_byte (p ∷ packets) h = (
    (length-xor_stream stream at_byte p, h.0),
    sealed-IsPacket proto (at_byte + length p) packets h.1,
  )

module _ (keystream : List ℕ → List ℕ → ℕ → ℕ) (sha256 : List ℕ → List ℕ)
    (secret prekey_iv relay_init : List ℕ) where
  -- For any cipher keystream and hash: if what the loop of a new connection reads, in any pieces
  -- that are not empty, is a sequence of whole packets of the splitter's transport, encrypted as
  -- the client does behind its opening, then it sends one WebSocket message for each packet.
  -- Decrypted in turn as Telegram does behind the relay's init, they are the packets, in order.
  pub tcp_to_ws-packets :
      (proto : ℕ) (packets reads : List (List ℕ))
      → All NonEmpty reads
      → All (IsWire proto) packets
      → join reads ≡ xor_stream (client_up keystream sha256 secret prekey_iv) 64 (join packets)
      → (sent : List Sending) × (after : Upload) × (tcp_to_ws keystream
            (new_upload keystream sha256 secret prekey_iv relay_init (some (init proto)))
            reads
          ≡ ok (sent, after))
        × (xor_each (telegram_up keystream relay_init) 64 (all_messages sent) ≡ packets)
  tcp_to_ws-packets proto packets reads full wires wire =
      let u = new_upload keystream sha256 secret prekey_iv relay_init (some (init proto)) in
      let up = telegram_up keystream relay_init in
      let cut = sealed up 64 packets in
      let (clear, sealed_all) =
        ciphers-new_upload keystream sha256 secret prekey_iv relay_init (some (init proto)) reads
          (join packets) wire in
      let fed =
        feed-packets proto cut (pieces_of keystream u reads)
          (sealed-IsPacket up proto 64 packets wires)
          (pieces-InStep (keystream u.clt_dec.key u.clt_dec.iv) (keystream u.tg_enc.key u.tg_enc.iv)
            u.clt_dec.position u.tg_enc.position reads)
          (sealed_all ∙ sym (ciphers-sealed up 64 packets))
          (clear ∙ sym (plains-sealed up 64 packets)) in
      let (sent, after, run, out, count) =
        tcp_to_ws-feed keystream u (init proto) reads (map (λ w. w.0) cut, init proto) refl full
          fed in
      let messages : all_messages sent ≡ map (λ w. w.0) cut =
        out ∙ (unfold flush in append-nil (map (λ w. w.0) cut)) in
      (sent, after, run, ap (xor_each up 64) messages ∙ xor_each-sealed up 64 packets)
