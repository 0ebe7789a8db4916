-- ===== src/Http2/Packet.antt =====
-- proxy/cf_h2.py: `_read_packet`, which reads a native client's packet, and `_encode_reply`, which
-- writes one. The random padding is a parameter.
pub mod Headers
pub mod RoundTrip
use hide_self_tgws.Base.{
  ℕ, zero, suc, ◌+◌, ◌-◌, ◌*◌, ◌/◌, ◌%◌, bit_and, Bool, true, false, not, ◌&&◌, ◌||◌, List, [], ◌∷◌,
  ◌++◌, length, take, slice, replicate, ltb, leb, ◌==◌, if◌then◌else◌, Result, ok, err, value_error,
  ◌>>=◌, ◌>>◌, guard,
}
use hide_self_tgws.Base.Bytes.{byte_at, from_bytes_little, to_bytes_little, unpack_i_little}
use hide_self_tgws.Base.Dict.{◌=?◌, bytes_eq}
use hide_self_tgws.Base.Reader.{readexactly}
use hide_self_tgws.Cipher.{Encryptor, update}
use hide_self_tgws.Handshake.{proto_tag_abridged, proto_tag_secure}

abbrev pub max_packet : ℕ
max_packet = 4194304

abbrev pub max_plain_padding : ℕ
max_plain_padding = 256

-- What a client's connection is read from: the bytes to come and the decryptor.
pub record NativeReader : Type 0 where
  pub reader : List ℕ
  pub decryptor : Encryptor

-- The length of the packet in a padded frame and the padding that its kind may have: a message
-- without key says its length, an encrypted one is a header and whole cipher blocks.
unfoldable pub padded_length : List ℕ → ℕ × ℕ
padded_length body =
    if take 8 body =? replicate 8 0
    then (20 + from_bytes_little (slice 16 20 body), max_plain_padding)
    else (24 + (length body - 24) / 16 * 16, 15)

unfoldable pub strip_padding : List ℕ → Result (List ℕ)
unfolding padded_length
strip_padding body =
    let (packet_length, max_padding) = padded_length body in
    let fits = leb 24 packet_length && leb packet_length (length body) in
    if not fits || ltb max_padding (length body - packet_length)
    then err value_error
    else ok (take packet_length body)

-- The checks behind the header.
unfoldable pub finish_packet : List ℕ → List ℕ → Result (List ℕ)
unfolding strip_padding
finish_packet tag frame = do
  body ← (if tag =? proto_tag_secure then strip_padding frame else ok frame)
  guard (not (not (length body % 4 == 0) || ltb max_packet (length body))) value_error
  ok body

unfoldable pub length_allowed : List ℕ → ℕ → Bool
length_allowed tag n =
    leb 24 n && leb n (max_packet + (if tag =? proto_tag_secure then max_plain_padding else 0))

module _ (keystream : List ℕ → List ℕ → ℕ → ℕ) where
  unfoldable pub plaintext : ℕ → NativeReader → Result (List ℕ × NativeReader)
  plaintext count s = do
    (bytes, reader) ← readexactly count s.reader
    let (plain, decryptor) : List ℕ × Encryptor = update keystream s.decryptor bytes
    ok (plain, record { reader = reader; decryptor = decryptor })

  -- The header of the abridged transport: the quick acknowledgement bit and the length.
  unfoldable pub read_abridged_header : NativeReader → Result ((Bool × ℕ) × NativeReader)
  unfolding plaintext
  read_abridged_header s = do
    (header, s) ← plaintext 1 s
    first ← byte_at header 0
    elim (bit_and first 0x7F == 0x7F) [
      | true ↦ do
        (field, s) ← plaintext 3 s
        ok ((not (bit_and first 0x80 == 0), from_bytes_little field * 4), s)
      | false ↦ ok ((not (bit_and first 0x80 == 0), bit_and first 0x7F * 4), s)
    ]

  unfoldable pub read_intermediate_header : NativeReader → Result ((Bool × ℕ) × NativeReader)
  unfolding plaintext
  read_intermediate_header s = do
    (field, s) ← plaintext 4 s
    value ← unpack_i_little field 0
    ok ((not (bit_and value 0x80000000 == 0), bit_and value 0x7FFFFFFF), s)

  unfoldable pub read_header : List ℕ → NativeReader → Result ((Bool × ℕ) × NativeReader)
  unfolding read_abridged_header read_intermediate_header
  read_header tag s =
      if tag =? proto_tag_abridged then read_abridged_header s else read_intermediate_header s

  unfoldable pub read_packet : List ℕ → NativeReader → Result ((List ℕ × Bool) × NativeReader)
  unfolding read_header finish_packet length_allowed
  read_packet tag s = do
    ((quick, n), s) ← read_header tag s
    guard (length_allowed tag n) value_error
    (frame, s) ← plaintext n s
    body ← finish_packet tag frame
    ok ((body, quick), s)

-- `_encode_reply`; `padding` is `os.urandom(os.urandom(1)[0] % 4)`.
unfoldable pub encode_reply : List ℕ → List ℕ → List ℕ → Result (List ℕ)
encode_reply padding body tag =
    let n = length body in
    if n == 0 || not (n % 4 == 0) || ltb max_packet n
    then err value_error
    else if tag =? proto_tag_abridged
    then ok ((if ltb (n / 4) 0x7F then (n / 4) ∷ [] else 0x7F ∷ to_bytes_little 3 (n / 4)) ++ body)
    else (let padding = (if tag =? proto_tag_secure then padding else []) in
        ok (to_bytes_little 4 (n + length padding) ++ (body ++ padding)))
