-- ===== src/Http2/Packet/Headers.antt =====
-- The headers of the transports, read at the place in the keystream where they stand.
use hide_self_tgws.Base.{
  ℕ, zero, suc, ◌+◌, ◌*◌, ◌/◌, ◌^◌, ◌<◌, bit_and, true, false, List, [], ◌∷◌, ◌++◌, length, drop,
  slice, ok, ◌≡◌, refl, sym, ap, ◌∙◌, arith, append_assoc, append-nil, length-append, le→not-ltb,
  take_of_length-le,
}
use hide_self_tgws.Base.Bits.{bit_and_step, bit_and-ones}
use hide_self_tgws.Base.Bytes.{
  byte_at, to_bytes_little, unpack_i_little, length-to_bytes_little,
  from_bytes_little-to_bytes_little,
}
use hide_self_tgws.Base.Dict.{◌=?◌, bytes_eq}
use hide_self_tgws.Base.Reader.{readexactly-append}
use hide_self_tgws.Cipher.{
  Encryptor, update, xor_stream, xor_stream-append, xor_stream-cancel, length-xor_stream,
}
use hide_self_tgws.Handshake.{proto_tag_abridged}
use native.Mathlib.Nat.{pow-suc}
use hide_self_tgws.Http2.Packet.{
  NativeReader, finish_packet, length_allowed, plaintext, read_abridged_header,
  read_intermediate_header, read_header, read_packet,
}

bit_and-above : (k v : ℕ) → v < 2 ^ k → bit_and v (2 ^ k) ≡ 0
bit_and-above zero v h = let e : v ≡ 0 = omega arith in rw e refl
bit_and-above (suc k) v h =
    let p : 2 ^ suc k ≡ 2 * 2 ^ k = omega (arith, pow-suc 2 k) in
    let half : 2 ^ suc k / 2 ≡ 2 ^ k = omega (arith, p) in
    omega (
      arith,
      p,
      half,
      bit_and_step v (2 ^ suc k),
      rw (← half) at (bit_and-above k (v / 2) (omega (arith, h, p))),
    )

module _ (keystream : List ℕ → List ℕ → ℕ → ℕ) where
  -- A reader with encrypted bytes in front of others.
  abbrev pub holding : Encryptor → List ℕ → List ℕ → NativeReader
  holding e plain rest = record {
    reader = xor_stream (keystream e.key e.iv) e.position plain ++ rest;
    decryptor = e;
  }

  abbrev pub past : Encryptor → ℕ → Encryptor
  past e n = record e { position = e.position + n }

  plaintext-take :
      (e : Encryptor) (a b rest : List ℕ) (n : ℕ)
      → length a ≡ n
      → plaintext keystream n (holding e (a ++ b) rest) ≡ ok (a, holding (past e n) b rest)
  unfolding plaintext update
  plaintext-take e a b rest n len =
      let stream = keystream e.key e.iv in
      let front = xor_stream stream e.position a in
      let back = xor_stream stream (e.position + n) b in
      let front_len : length front ≡ n = length-xor_stream stream e.position a ∙ len in
      let bytes : xor_stream stream e.position (a ++ b) ++ rest ≡ front ++ (back ++ rest) =
        ap (λ t. t ++ rest)
          (xor_stream-append stream e.position a b
            ∙ ap (λ k. front ++ xor_stream stream (e.position + k) b) len)
        ∙ append_assoc front back rest in
      rw
        (
          bytes,
          readexactly-append n front (back ++ rest) front_len,
          xor_stream-cancel stream e.position a,
          front_len,
        )
        refl

  past-past : (e : Encryptor) (a b c : ℕ) → a + b ≡ c → past (past e a) b ≡ past e c
  past-past e a b c h =
      ap (λ p. record { key = e.key; iv = e.iv; position = p })
        (let q : e.position + a + b ≡ e.position + c = omega (arith, h) in q)

  -- A header in front of a frame is read as a length without the acknowledgement bit.
  abbrev pub Heads : List ℕ → List ℕ → ℕ → Type 0
  Heads tag header n =
      (e : Encryptor) (frame rest : List ℕ)
      → read_header keystream tag (holding e (header ++ frame) rest)
        ≡ ok ((false, n), holding (past e (length header)) frame rest)

  pub abridged_short : (w : ℕ) → w < 0x7F → Heads proto_tag_abridged (w ∷ []) (w * 4)
  unfolding read_header read_abridged_header byte_at
  abridged_short w small e frame rest =
      let low : bit_and w 0x7F ≡ w = omega (arith, bit_and-ones 7 w, small) in
      let top : bit_and w 0x80 ≡ 0 = bit_and-above 7 w (omega (arith, small)) in
      rw (plaintext-take e (w ∷ []) frame rest 1 refl) (ground (arith, small, low, top))

  pub abridged_long :
      (w : ℕ) → w < 256 ^ 3 → Heads proto_tag_abridged (0x7F ∷ to_bytes_little 3 w) (w * 4)
  unfolding read_header read_abridged_header byte_at
  abridged_long w small e frame rest =
      let field = to_bytes_little 3 w in
      let three : length field ≡ 3 = length-to_bytes_little 3 w in
      rw
        (
          plaintext-take e (0x7F ∷ []) (field ++ frame) rest 1 refl,
          plaintext-take (past e 1) field frame rest 3 three,
          from_bytes_little-to_bytes_little 3 w small,
        )
        (ap (λ d. ok ((false, w * 4), holding d frame rest))
          (past-past e 1 3 (length (0x7F ∷ field)) (omega (arith, three))))

  pub intermediate :
      (tag : List ℕ) (n : ℕ)
      → (tag =? proto_tag_abridged) ≡ false
      → n < 2 ^ 31
      → Heads tag (to_bytes_little 4 n) n
  unfolding read_header read_intermediate_header unpack_i_little slice drop
  intermediate tag n other small e frame rest =
      let field = to_bytes_little 4 n in
      let four : length field ≡ 4 = length-to_bytes_little 4 n in
      let low : bit_and n 0x7FFFFFFF ≡ n = omega (arith, bit_and-ones 31 n, small) in
      let top : bit_and n 0x80000000 ≡ 0 = bit_and-above 31 n small in
      rw
        (
          other,
          plaintext-take e field frame rest 4 four,
          le→not-ltb (length field) 4 (omega (arith, four)),
          take_of_length-le 4 field (omega (arith, four)),
          from_bytes_little-to_bytes_little 4 n (omega (arith, small)),
          low,
          top,
          four,
        )
        refl

  pub read_packet_eq :
      (tag header frame body rest : List ℕ) (e : Encryptor)
      → Heads tag header (length frame)
      → length_allowed tag (length frame) ≡ true
      → finish_packet tag frame ≡ ok body
      → read_packet keystream tag (holding e (header ++ frame) rest)
        ≡ ok
            ((body, false), record { reader = rest; decryptor = past e (length (header ++ frame)) })
  unfolding read_packet
  read_packet_eq tag header frame body rest e heads allowed finished =
      let taken =
        rw (append-nil frame) at
          (plaintext-take (past e (length header)) frame [] rest (length frame) refl) in
      rw
        (
          heads e frame rest,
          allowed,
          taken,
          finished,
          past-past e (length header) (length frame) (length (header ++ frame))
              (sym (length-append header frame)),
        )
        (unfold xor_stream in refl)
