-- ===== src/Http2/Packet/RoundTrip.antt =====
-- What `_encode_reply` writes for a peer, `_read_packet` at the peer's place reads back.
use hide_self_tgws.Base.{
  ℕ, ◌+◌, ◌-◌, ◌*◌, ◌/◌, ◌%◌, ◌≤◌, ◌<◌, true, false, not, ◌&&◌, ◌||◌, List, [], ◌∷◌, ◌++◌, length,
  take, drop, slice, replicate, ltb, leb, ◌==◌, if◌then◌else◌, ok, ◌≡◌, ◌⊎◌, inl, inr, refl, sym,
  ap, ◌∙◌, arith, append-nil, length-append, take_append_self, take_append_left, drop_append_left,
  length-drop, Bool-cases,
}
use hide_self_tgws.Base.Bytes.{from_bytes_little, to_bytes_little}
use hide_self_tgws.Base.Dict.{◌=?◌, bytes_eq}
use hide_self_tgws.Cipher.{Encryptor}
use hide_self_tgws.Handshake.{proto_tag_abridged, proto_tag_secure}
use hide_self_tgws.Splitter.Chunking.{ok-inj}
use hide_self_tgws.Http2.Packet.{
  max_packet, padded_length, strip_padding, finish_packet, length_allowed, read_packet,
  encode_reply,
}
use hide_self_tgws.Http2.Packet.Headers.{
  holding, past, abridged_short, abridged_long, intermediate, read_packet_eq,
}

plus_zero : (n : ℕ) → n + 0 ≡ n
plus_zero n = omega arith

-- The lengths that a padded frame lets its reader recover: a message without key that says its own
-- length, or an encrypted one of a header of 24 bytes and whole blocks of 16.
abbrev pub KindFits : List ℕ → Type 0
KindFits body =
    (((take 8 body =? replicate 8 0) ≡ true)
      × (20 + from_bytes_little (slice 16 20 body) ≡ length body))
    ⊎ (((take 8 body =? replicate 8 0) ≡ false) × (length body % 16 ≡ 8))

padded_length_lem :
    (body padding : List ℕ)
    → 24 ≤ length body
    → length padding ≤ 3
    → KindFits body
    → ((padded_length (body ++ padding)).0 ≡ length body)
      × (length padding ≤ (padded_length (body ++ padding)).1)
unfolding padded_length slice
padded_length_lem body padding long short (inl (zeros, says)) =
    let start = take_append_left 8 body padding (omega (arith, long)) in
    let field : take 4 (drop 16 (body ++ padding)) ≡ take 4 (drop 16 body) =
      ap (take 4) (drop_append_left 16 body padding (omega (arith, long)))
      ∙ take_append_left 4 (drop 16 body) padding (omega (arith, long, length-drop 16 body)) in
    rw (padded_length, start, zeros, field) (says, omega (arith, short))
padded_length_lem body padding long short (inr (keyed, blocks)) =
    let start = take_append_left 8 body padding (omega (arith, long)) in
    rw (padded_length, start, keyed)
      (omega (arith, long, short, blocks, length-append body padding), omega (arith, short))

strip_padding_lem :
    (body padding : List ℕ)
    → 24 ≤ length body
    → length padding ≤ 3
    → KindFits body
    → strip_padding (body ++ padding) ≡ ok body
unfolding strip_padding
strip_padding_lem body padding long short kind =
    let (len, most) = padded_length_lem body padding long short kind in
    let whole = length-append body padding in
    let fits : (leb 24 (padded_length (body ++ padding)).0
          && leb (padded_length (body ++ padding)).0 (length (body ++ padding)))
        ≡ true =
      ground (arith, long, len, whole) in
    let spare : ltb (padded_length (body ++ padding)).1
          (length (body ++ padding) - (padded_length (body ++ padding)).0)
        ≡ false =
      ground (arith, most, len, whole) in
    rw (strip_padding, fits, spare, len, take_append_self (length body) body padding refl) refl

finish_packet_lem :
    (tag frame body : List ℕ)
    → (if tag =? proto_tag_secure then strip_padding frame else ok frame) ≡ ok body
    → length body % 4 ≡ 0
    → length body ≤ max_packet
    → finish_packet tag frame ≡ ok body
unfolding finish_packet
finish_packet_lem tag frame body stripped aligned small =
    let test : (not (not (length body % 4 == 0) || ltb max_packet (length body))) ≡ true =
      ground (arith, aligned, small) in
    rw (finish_packet, stripped, test) refl

module _ (padding body tag : List ℕ) where
  -- What an encoded reply consists of.
  encoded_size :
      (wire : List ℕ)
      → encode_reply padding body tag ≡ ok wire
      → (length body % 4 ≡ 0) × (length body ≤ max_packet)
  unfolding encode_reply
  encoded_size wire e = (ground (arith, e), ground (arith, e))

  encoded_tests :
      (wire : List ℕ)
      → encode_reply padding body tag ≡ ok wire
      → (length body == 0 || not (length body % 4 == 0) || ltb max_packet (length body)) ≡ false
  unfolding encode_reply
  encoded_tests wire e = ground (arith, e)

  encoded_abridged :
      (wire : List ℕ)
      → encode_reply padding body tag ≡ ok wire
      → (tag =? proto_tag_abridged) ≡ true
      → ok wire
        ≡ ok (
            (if ltb (length body / 4) 0x7F
              then (length body / 4) ∷ []
              else 0x7F ∷ to_bytes_little 3 (length body / 4))
            ++ body)
  unfolding encode_reply
  encoded_abridged wire e is = sym e ∙ rw (encode_reply, encoded_tests wire e, is) refl

  abbrev padding_of : List ℕ
  padding_of = if tag =? proto_tag_secure then padding else []

  encoded_intermediate :
      (wire : List ℕ)
      → encode_reply padding body tag ≡ ok wire
      → (tag =? proto_tag_abridged) ≡ false
      → ok wire ≡ ok (to_bytes_little 4 (length body + length padding_of) ++ (body ++ padding_of))
  unfolding encode_reply
  encoded_intermediate wire e is = sym e ∙ rw (encode_reply, encoded_tests wire e, is) refl

module _ (keystream : List ℕ → List ℕ → ℕ → ℕ) (e : Encryptor)
    (padding body wire rest : List ℕ) where
  -- The peer's reading of a reply.
  abbrev ReadsBack : List ℕ → Type 0
  ReadsBack tag =
      read_packet keystream tag (holding keystream e wire rest)
      ≡ ok ((body, false), record { reader = rest; decryptor = past keystream e (length wire) })

  read_abridged :
      24 ≤ length body
      → encode_reply padding body proto_tag_abridged ≡ ok wire
      → ReadsBack proto_tag_abridged
  unfolding length_allowed
  read_abridged long enc =
      let (aligned, small) = encoded_size padding body proto_tag_abridged wire enc in
      let words = length body / 4 in
      let count : words * 4 ≡ length body = omega (arith, aligned) in
      let allowed : length_allowed proto_tag_abridged (length body) ≡ true =
        ground (arith, long, small) in
      let done = finish_packet_lem proto_tag_abridged body body refl aligned small in
      let is = encoded_abridged padding body proto_tag_abridged wire enc refl in
      elim (Bool-cases (ltb words 0x7F)) [
        | inl short ↦
            let lt : words < 0x7F = ground (arith, short) in
            let wire_is : wire ≡ (words ∷ []) ++ body = ok-inj wire _ (is ∙ rw (short) refl) in
            rw (wire_is) (
              read_packet_eq keystream proto_tag_abridged (words ∷ []) body body rest e
                (rw count at (abridged_short keystream words lt)) allowed done)
        | inr many ↦
            let wire_is : wire ≡ (0x7F ∷ to_bytes_little 3 words) ++ body =
              ok-inj wire _ (is ∙ rw (many) refl) in
            rw (wire_is) (
              read_packet_eq keystream proto_tag_abridged (0x7F ∷ to_bytes_little 3 words) body body
                rest e (rw count at (abridged_long keystream words (omega (arith, small)))) allowed
                done)
      ]

  read_intermediate :
      (tag : List ℕ)
      → 24 ≤ length body
      → length padding ≤ 3
      → ((tag =? proto_tag_secure) ≡ true → KindFits body)
      → (tag =? proto_tag_abridged) ≡ false
      → encode_reply padding body tag ≡ ok wire
      → ReadsBack tag
  unfolding length_allowed
  read_intermediate tag long short kind other enc =
      let (aligned, small) = encoded_size padding body tag wire enc in
      let is = encoded_intermediate padding body tag wire enc other in
      elim (Bool-cases (tag =? proto_tag_secure)) [
        | inl secure ↦
            let frame = body ++ padding in
            let size : length body + length padding ≡ length frame =
              sym (length-append body padding) in
            let wire_is : wire ≡ to_bytes_little 4 (length frame) ++ frame =
              ok-inj wire _ (is ∙ rw (secure, size) refl) in
            let allowed : length_allowed tag (length frame) ≡ true =
              ground (arith, long, short, small, size, secure) in
            rw (wire_is) (
              read_packet_eq keystream tag (to_bytes_little 4 (length frame)) frame body rest e
                (intermediate keystream tag (length frame) other
                  (omega (arith, size, small, short)))
                allowed
                (finish_packet_lem tag frame body
                  (rw (secure) (strip_padding_lem body padding long short (kind secure))) aligned
                  small))
        | inr not_secure ↦
            let wire_is : wire ≡ to_bytes_little 4 (length body) ++ body =
              ok-inj wire _ (is ∙ rw (not_secure, append-nil body, plus_zero (length body)) refl) in
            let allowed : length_allowed tag (length body) ≡ true =
              ground (arith, long, small, not_secure) in
            rw (wire_is) (
              read_packet_eq keystream tag (to_bytes_little 4 (length body)) body body rest e
                (intermediate keystream tag (length body) other (omega (arith, small))) allowed
                (finish_packet_lem tag body body (rw (not_secure) refl) aligned small))
      ]

  -- A body of at least 24 bytes that `_encode_reply` accepts for a transport, with a padding of at
  -- most three bytes: `_read_packet` for the same transport, over the encoding under any keystream
  -- and from any place in it, gives back the body, no acknowledgement bit, the bytes behind, and a
  -- decryptor that stands behind the packet. With the padded transport the body has to be one
  -- whose length a reader can recover.
  pub read_packet-encode_reply :
      (tag : List ℕ)
      → 24 ≤ length body
      → length padding ≤ 3
      → ((tag =? proto_tag_secure) ≡ true → KindFits body)
      → encode_reply padding body tag ≡ ok wire
      → read_packet keystream tag (holding keystream e wire rest)
        ≡ ok ((body, false), record { reader = rest; decryptor = past keystream e (length wire) })
  read_packet-encode_reply tag long short kind enc = elim (Bool-cases (tag =? proto_tag_abridged)) [
    | inr other ↦ read_intermediate tag long short kind other enc
    | inl is ↦
        let same : tag ≡ proto_tag_abridged = (bytes_eq.beq_iff tag proto_tag_abridged).0 is in
        rw (same) (read_abridged long (rw same at enc))
  ]
