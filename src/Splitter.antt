-- ===== src/Splitter.antt =====
-- proxy/bridge.py, class MsgSplitter: cuts the re-encrypted stream into MTProto transport packets.
-- `split` and `flush` work on the two buffers with an offset, as the source does.
pub mod Framing
mod Loop
pub mod Chunking
pub mod Feeding
pub mod Packets
use hide_self_tgws.Base.{
  ℕ, zero, suc, ◌+◌, ◌-◌, ◌*◌, bit_and, Bool, true, false, ◌&&◌, ◌||◌, Option, none, some, List, [],
  ◌∷◌, ◌++◌, length, drop, slice, ltb, leb, ◌==◌, if◌then◌else◌, Result, ok, err, stuck, ◌>>=◌,
}
use hide_self_tgws.Base.Bytes.{byte_at, unpack_i_little, from_bytes_little}

abbrev pub proto_abridged_int : ℕ
proto_abridged_int = 0xEFEFEFEF

abbrev pub proto_intermediate_int : ℕ
proto_intermediate_int = 0xEEEEEEEE

abbrev pub proto_padded_intermediate_int : ℕ
proto_padded_intermediate_int = 0xDDDDDDDD

pub record MsgSplitter : Type 0 where
  pub proto : ℕ
  pub cipher_buf : List ℕ
  pub plain_buf : List ℕ
  pub disabled : Bool

abbrev pub init : ℕ → MsgSplitter
init proto_int = record { proto = proto_int; cipher_buf = []; plain_buf = []; disabled = false }

-- The last tests of both length readers. `some 0` stands for a length that is not positive.
unfoldable pub checked_len : ℕ → ℕ → ℕ → Option ℕ
checked_len header_len payload_len avail =
    if leb payload_len 0
    then some 0
    else (if ltb avail (header_len + payload_len) then none else some (header_len + payload_len))

unfoldable pub abridged_len_from : List ℕ → ℕ → ℕ → ℕ → Option ℕ
abridged_len_from plain_buf offset avail first =
    if first == 0x7F || first == 0xFF
    then (if ltb avail 4
        then none
        else checked_len 4 (from_bytes_little (slice (offset + 1) (offset + 4) plain_buf) * 4)
            avail)
    else checked_len 1 (bit_and first 0x7F * 4) avail

unfoldable pub next_abridged_len : List ℕ → ℕ → ℕ → Result (Option ℕ)
next_abridged_len plain_buf offset avail = do
  first ← byte_at plain_buf offset
  ok (abridged_len_from plain_buf offset avail first)

unfoldable pub next_intermediate_len : List ℕ → ℕ → ℕ → Result (Option ℕ)
next_intermediate_len plain_buf offset avail = if ltb avail 4 then ok none else (do
  word ← unpack_i_little plain_buf offset
  ok (checked_len 4 (bit_and word 0x7FFFFFFF) avail))

unfoldable pub next_packet_len : ℕ → List ℕ → ℕ → ℕ → Result (Option ℕ)
next_packet_len proto plain_buf offset avail =
    if leb avail 0
    then ok none
    else (if proto == proto_abridged_int
        then next_abridged_len plain_buf offset avail
        else (if proto == proto_intermediate_int || proto == proto_padded_intermediate_int
            then next_intermediate_len plain_buf offset avail
            else ok (some 0)))

-- The parts so far, the offset that the loop reached, and `self._disabled`.
abbrev pub Cut : Type 0
Cut = List (List ℕ) × ℕ × Bool

-- The rest of the loop's body; `again` is the next round.
unfoldable pub cut_packet :
    (ℕ → List (List ℕ) → Result Cut) → List ℕ → ℕ → List (List ℕ) → Option ℕ → Result Cut
cut_packet again cipher_buf offset parts none = ok (parts, offset, false)
cut_packet again cipher_buf offset parts (some packet_len) =
    if leb packet_len 0
    then ok (
      parts ++ ((if offset == 0 then cipher_buf else drop offset cipher_buf) ∷ []),
      length cipher_buf,
      true,
    )
    else again (offset + packet_len) (
        parts
        ++ ((if offset == 0 && packet_len == length cipher_buf
              then cipher_buf
              else slice offset (offset + packet_len) cipher_buf)
            ∷ []))

-- `while offset < buf_len`, with fuel for the rounds.
unfoldable pub split_loop : ℕ → ℕ → List ℕ → List ℕ → ℕ → List (List ℕ) → Result Cut
split_loop zero proto cipher_buf plain_buf offset parts = err stuck
split_loop (suc fuel) proto cipher_buf plain_buf offset parts =
    elim (ltb offset (length cipher_buf)) [
      | false ↦ ok (parts, offset, false)
      | true ↦ do
        packet_len ← next_packet_len proto plain_buf offset (length cipher_buf - offset)
        cut_packet (λ o ps. split_loop fuel proto cipher_buf plain_buf o ps) cipher_buf offset parts
            packet_len
    ]

-- Every round takes a byte at least, so the buffer's length bounds the rounds.
unfoldable pub split : MsgSplitter → List ℕ → List ℕ → Result (List (List ℕ) × MsgSplitter)
split s [] plain = ok ([], s)
split s (b ∷ bs) plain =
    let cipher = s.cipher_buf ++ (b ∷ bs) in
    let plain_buf = s.plain_buf ++ plain in
    if s.disabled then ok ((b ∷ bs) ∷ [], s) else (do
      (parts, offset, disabled) ← split_loop (suc (length cipher)) s.proto cipher plain_buf 0 []
      ok (
        parts,
        record s {
          cipher_buf = drop offset cipher;
          plain_buf = drop offset plain_buf;
          disabled = disabled;
        },
      ))

unfoldable pub flush : MsgSplitter → List (List ℕ) × MsgSplitter
flush s = elim s.cipher_buf [
  | [] ↦ ([], s)
  | c ∷ cs ↦ ((c ∷ cs) ∷ [], record s { cipher_buf = []; plain_buf = [] })
]

-- The calls of one connection: the chunks read from the client, each beside its plain bytes.
unfoldable pub feed : MsgSplitter → List (List ℕ × List ℕ) → Result (List (List ℕ) × MsgSplitter)
feed s [] = ok ([], s)
feed s ((chunk, plain) ∷ more) = do
  (parts, s') ← split s chunk plain
  (rest, s'') ← feed s' more
  ok (parts ++ rest, s'')
