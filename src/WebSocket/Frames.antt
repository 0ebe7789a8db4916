-- ===== src/WebSocket/Frames.antt =====
-- Frames against the wire format of RFC 6455, section 5.2, and that frames are read back.
use hide_self_tgws.Base.{
  ℕ, ◌+◌, ◌%◌, ◌^◌, ◌≤◌, ◌<◌, bit_and, bit_or, Bool, true, false, not, List, [], ◌∷◌, ◌++◌, length,
  ltb, ◌==◌, if◌then◌else◌, Result, ok, err, connection_error, ◌>>=◌, ◌≡◌, refl, ◌∙◌, arith,
  append_assoc, le→leb, lt→not-leb,
}
use hide_self_tgws.Base.Bits.{all_below, all_below_sound}
use hide_self_tgws.Base.{==_iff}
use hide_self_tgws.Base.Bytes.{
  byte_at, IsBytes, to_bytes_big, length-to_bytes_big, from_bytes_big-to_bytes_big,
}
use hide_self_tgws.Base.Reader.{readexactly-append}
use hide_self_tgws.WebSocket.{
  build_frame, read_length, read_payload, read_frame, Frame, max_message_len,
}
use hide_self_tgws.WebSocket.Mask.{
  xor_cycle, xor_mask-xor_cycle, length-xor_cycle, xor_cycle-xor_cycle, xor_cycle-IsBytes,
}

-- The first two bytes and the length field of a frame with a payload of `n` bytes.
pub header : Bool → Bool → ℕ → ℕ → List ℕ
header fin masked opcode n =
    let first = (if fin then 128 + opcode else opcode) in
    let bit = (if masked then 128 else 0) in
    if ltb n 126
    then first ∷ (bit + n) ∷ []
    else (if ltb n 65536
        then first ∷ (bit + 126) ∷ to_bytes_big 2 n
        else first ∷ (bit + 127) ∷ to_bytes_big 8 n)

pub header-nonempty : (fin : Bool) (opcode n : ℕ) → 0 < length (header fin false opcode n)
unfolding header
header-nonempty fin opcode n = ground arith

-- Bits of a byte, by evaluation of every byte.
or_top_bit : (b : ℕ) → b < 128 → bit_or 0x80 b ≡ 128 + b
unfolding all_below
or_top_bit b h = (==_iff _ _).0 (all_below_sound 128 (λ x. bit_or 0x80 x == 128 + x) b refl h)

and_top_bit : (b : ℕ) → b < 128 → bit_and b 0x80 ≡ 0
unfolding all_below
and_top_bit b h = (==_iff _ _).0 (all_below_sound 128 (λ x. bit_and x 0x80 == 0) b refl h)

and_top_bit_set : (b : ℕ) → b < 128 → bit_and (128 + b) 0x80 ≡ 128
unfolding all_below
and_top_bit_set b h =
    (==_iff _ _).0 (all_below_sound 128 (λ x. bit_and (128 + x) 0x80 == 128) b refl h)

and_low_bits : (b : ℕ) → b < 256 → bit_and b 0x7F ≡ b % 128
unfolding all_below
and_low_bits b h = (==_iff _ _).0 (all_below_sound 256 (λ x. bit_and x 0x7F == x % 128) b refl h)

and_nibble : (b : ℕ) → b < 256 → bit_and b 0x0F ≡ b % 16
unfolding all_below
and_nibble b h = (==_iff _ _).0 (all_below_sound 256 (λ x. bit_and x 0x0F == x % 16) b refl h)

-- The code of a length in the second byte, and the field that follows.
short_length : ℕ → ℕ
short_length n = if ltb n 126 then n else (if ltb n 65536 then 126 else 127)

length_field : ℕ → List ℕ
length_field n =
    if ltb n 126 then [] else (if ltb n 65536 then to_bytes_big 2 n else to_bytes_big 8 n)

first_byte : Bool → ℕ → ℕ
first_byte fin opcode = if fin then 128 + opcode else opcode

second_byte : Bool → ℕ → ℕ
second_byte masked n = (if masked then 128 else 0) + short_length n

header_lem :
    (fin masked : Bool) (opcode n : ℕ)
    → header fin masked opcode n
      ≡ (first_byte fin opcode ∷ second_byte masked n ∷ []) ++ length_field n
unfolding header first_byte second_byte short_length length_field
header_lem fin masked opcode n = ground arith

short_length-lt : (n : ℕ) → short_length n < 128
unfolding short_length
short_length-lt n = ground arith

second_byte-length : (masked : Bool) (n : ℕ) → bit_and (second_byte masked n) 0x7F ≡ short_length n
unfolding second_byte
second_byte-length true n =
    and_low_bits (128 + short_length n) (omega (arith, short_length-lt n))
    ∙ omega (arith, short_length-lt n)
second_byte-length false n =
    and_low_bits (0 + short_length n) (omega (arith, short_length-lt n))
    ∙ omega (arith, short_length-lt n)

second_byte-mask : (masked : Bool) (n : ℕ) → (bit_and (second_byte masked n) 0x80 == 0) ≡ not masked
unfolding second_byte
second_byte-mask true n = rw (and_top_bit_set (short_length n) (short_length-lt n)) refl
second_byte-mask false n =
    let zero_add : 0 + short_length n ≡ short_length n = omega arith in
    rw (zero_add, and_top_bit (short_length n) (short_length-lt n)) refl

first_byte-opcode :
    (fin : Bool) (opcode : ℕ) → opcode < 16 → bit_and (first_byte fin opcode) 0x0F ≡ opcode
unfolding first_byte
first_byte-opcode true opcode h = and_nibble (128 + opcode) (omega arith) ∙ omega arith
first_byte-opcode false opcode h = and_nibble opcode (omega arith) ∙ omega arith

first_byte-fin :
    (fin : Bool) (opcode : ℕ) → opcode < 16 → (bit_and (first_byte fin opcode) 0x80 == 0) ≡ not fin
unfolding first_byte
first_byte-fin true opcode h = rw (and_top_bit_set opcode (omega arith)) refl
first_byte-fin false opcode h = rw (and_top_bit opcode (omega arith)) refl

-- The length is read back from its code and its field.
read_length-field :
    (n : ℕ) (tail : List ℕ)
    → n < 2 ^ 64
    → read_length (short_length n) (length_field n ++ tail) ≡ ok (n, tail)
unfolding read_length short_length length_field
read_length-field n tail h = ground (
  arith,
  readexactly-append 2 (to_bytes_big 2 n) tail (length-to_bytes_big 2 n),
  readexactly-append 8 (to_bytes_big 8 n) tail (length-to_bytes_big 8 n),
  from_bytes_big-to_bytes_big 2 n,
  from_bytes_big-to_bytes_big 8 n,
)

read_frame-header :
    (fin masked : Bool) (opcode n : ℕ) (tail : List ℕ)
    → n ≤ max_message_len
    → read_frame (header fin masked opcode n ++ tail)
      ≡ read_payload (first_byte fin opcode) (second_byte masked n) n tail
unfolding read_frame byte_at
read_frame-header fin masked opcode n tail h =
    rw
      (
        header_lem,
        append_assoc (first_byte fin opcode ∷ second_byte masked n ∷ []) (length_field n) tail,
        readexactly-append 2 (first_byte fin opcode ∷ second_byte masked n ∷ [])
            (length_field n ++ tail) refl,
        second_byte-length masked n,
        read_length-field n tail (omega arith),
        le→leb n max_message_len h,
      )
      refl

not-not :
    (fin : Bool) (opcode : ℕ) (payload rest : List ℕ)
    → ◌≡◌ {A = Result (Frame × List ℕ)}
        (ok (record { opcode = opcode; payload = payload; fin = not (not fin) }, rest))
        (ok (record { opcode = opcode; payload = payload; fin = fin }, rest))
not-not true opcode payload rest = refl
not-not false opcode payload rest = refl

-- A frame of the wire format, not masked, is read as what it carries; the bytes behind it stay.
pub read_frame-plain :
    (fin : Bool) (opcode : ℕ) (payload rest : List ℕ)
    → opcode < 16
    → length payload ≤ max_message_len
    → read_frame (header fin false opcode (length payload) ++ (payload ++ rest))
      ≡ ok (record { opcode = opcode; payload = payload; fin = fin }, rest)
read_frame-plain fin opcode payload rest h fits =
    read_frame-header fin false opcode (length payload) (payload ++ rest) fits
    ∙ unfold read_payload in
      rw
        (
          second_byte-mask false (length payload),
          readexactly-append (length payload) payload rest refl,
          first_byte-opcode fin opcode h,
          first_byte-fin fin opcode h,
        )
        (not-not fin _ _ _)

-- A masked frame is read as what it carried before masking.
pub read_frame-masked :
    (fin : Bool) (opcode a b c d : ℕ) (payload rest : List ℕ)
    → opcode < 16
    → IsBytes payload
    → IsBytes (a ∷ b ∷ c ∷ d ∷ [])
    → length payload ≤ max_message_len
    → read_frame (
        header fin true opcode (length payload)
        ++ (a ∷ b ∷ c ∷ d ∷ (xor_cycle payload a b c d ++ rest)))
      ≡ ok (record { opcode = opcode; payload = payload; fin = fin }, rest)
read_frame-masked fin opcode a b c d payload rest h bytes key fits =
    let masked = xor_cycle payload a b c d in
    read_frame-header fin true opcode (length payload) (a ∷ b ∷ c ∷ d ∷ (masked ++ rest)) fits
    ∙ unfold read_payload in
      rw
        (
          second_byte-mask true (length payload),
          readexactly-append 4 (a ∷ b ∷ c ∷ d ∷ []) (masked ++ rest) refl,
          readexactly-append (length payload) masked rest (length-xor_cycle payload a b c d),
          xor_mask-xor_cycle masked a b c d (xor_cycle-IsBytes payload a b c d bytes key) key,
          xor_cycle-xor_cycle payload a b c d,
          first_byte-opcode fin opcode h,
          first_byte-fin fin opcode h,
        )
        (not-not fin _ _ _)

-- What `_build_frame` writes: a final frame of the wire format.
pub build_frame-plain :
    (opcode : ℕ) (payload key : List ℕ)
    → opcode < 16
    → build_frame opcode payload false key
      ≡ ok (header true false opcode (length payload) ++ payload)
unfolding build_frame header
build_frame-plain opcode payload key h = ground (arith, or_top_bit opcode)

pub build_frame-masked :
    (opcode a b c d : ℕ) (payload : List ℕ)
    → opcode < 16
    → IsBytes payload
    → IsBytes (a ∷ b ∷ c ∷ d ∷ [])
    → build_frame opcode payload true (a ∷ b ∷ c ∷ d ∷ [])
      ≡ ok (header true true opcode (length payload) ++ (a ∷ b ∷ c ∷ d ∷ xor_cycle payload a b c d))
unfolding build_frame header
build_frame-masked opcode a b c d payload h bytes key =
    rw (xor_mask-xor_cycle payload a b c d bytes key)
      (ground (arith, or_top_bit opcode, or_top_bit (length payload)))

-- A frame that `_build_frame` wrote for an opcode below 16, a payload of at most 16 MiB and a key
-- of bytes, masked or not, is read back by `_read_frame` as that opcode and payload, with the
-- final bit set, and the bytes behind it stay.
pub read_frame-build_frame :
    (opcode a b c d : ℕ) (payload rest : List ℕ) (mask : Bool)
    → opcode < 16
    → IsBytes payload
    → IsBytes (a ∷ b ∷ c ∷ d ∷ [])
    → length payload ≤ max_message_len
    → (build_frame opcode payload mask (a ∷ b ∷ c ∷ d ∷ []) >>= λ frame. read_frame (frame ++ rest))
      ≡ ok (record { opcode = opcode; payload = payload; fin = true }, rest)
read_frame-build_frame opcode a b c d payload rest true h bytes key fits =
    rw
      (
        build_frame-masked opcode a b c d payload h bytes key,
        append_assoc (header true true opcode (length payload))
            (a ∷ b ∷ c ∷ d ∷ xor_cycle payload a b c d) rest,
      )
      (read_frame-masked true opcode a b c d payload rest h bytes key fits)
read_frame-build_frame opcode a b c d payload rest false h bytes key fits =
    rw
      (
        build_frame-plain opcode payload (a ∷ b ∷ c ∷ d ∷ []) h,
        append_assoc (header true false opcode (length payload)) payload rest,
      )
      (read_frame-plain true opcode payload rest h fits)

-- A frame whose length is beyond 16 MiB, and fits its field of 64 bits, is refused whatever
-- follows its header.
pub read_frame_too_large :
    (fin masked : Bool) (opcode n : ℕ) (tail : List ℕ)
    → max_message_len < n
    → n < 2 ^ 64
    → read_frame (header fin masked opcode n ++ tail) ≡ err connection_error
unfolding read_frame byte_at
read_frame_too_large fin masked opcode n tail h fits =
    rw
      (
        header_lem,
        append_assoc (first_byte fin opcode ∷ second_byte masked n ∷ []) (length_field n) tail,
        readexactly-append 2 (first_byte fin opcode ∷ second_byte masked n ∷ [])
            (length_field n ++ tail) refl,
        second_byte-length masked n,
        read_length-field n tail fits,
        lt→not-leb n max_message_len h,
      )
      refl
