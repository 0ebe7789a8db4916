-- ===== src/Splitter/Packets.antt =====
-- Streams of whole transport packets: each part that `split` returns is one packet.
use hide_self_tgws.Base.{
  ℕ, zero, suc, ◌+◌, ◌*◌, ◌%◌, ◌^◌, ◌<◌, false, some, List, [], ◌∷◌, ◌++◌, length, take, drop,
  slice, ok, ◌≡◌, ◌≢◌, ◌⊎◌, inl, inr, refl, ◌∙◌, sym, map, All, arith, length-append,
  take_append_self, drop_append_self,
}
use hide_self_tgws.Base.Bits.{bit_and-ones}
use hide_self_tgws.Base.Bytes.{byte_at, unpack_i_little, from_bytes_little}
use hide_self_tgws.Splitter.{
  init, proto_abridged_int, proto_intermediate_int, proto_padded_intermediate_int, checked_len,
  next_packet_len, next_abridged_len, next_intermediate_len, abridged_len_from, split, feed,
}
use hide_self_tgws.Splitter.Framing.{frames}
use hide_self_tgws.Splitter.Chunking.{IsValid, split_framed, frames-packet, ok-inj}
use hide_self_tgws.Splitter.Feeding.{ciphers, plains, InStep, length-ciphers, feed-split}

-- One packet of each transport, by the transport's own description: a length in words or bytes
-- in front of a payload that is not empty. The top bit of the length asks for a quick ack.
pub data IsWire (proto : ℕ) : List ℕ → Type 0 where
  short :
      (first : ℕ) (payload : List ℕ)
      → proto ≡ proto_abridged_int
      → first ≢ 0x7F
      → first ≢ 0xFF
      → 0 < first % 128
      → length payload ≡ first % 128 * 4
      → IsWire proto (first ∷ payload)
  long :
      (first b0 b1 b2 : ℕ) (payload : List ℕ)
      → proto ≡ proto_abridged_int
      → (first ≡ 0x7F) ⊎ (first ≡ 0xFF)
      → 0 < b0 + 256 * b1 + 65536 * b2
      → length payload ≡ (b0 + 256 * b1 + 65536 * b2) * 4
      → IsWire proto (first ∷ b0 ∷ b1 ∷ b2 ∷ payload)
  intermediate :
      (b0 b1 b2 b3 : ℕ) (payload : List ℕ)
      → (proto ≡ proto_intermediate_int) ⊎ (proto ≡ proto_padded_intermediate_int)
      → 0 < (b0 + 256 * b1 + 65536 * b2 + 16777216 * b3) % 2 ^ 31
      → length payload ≡ (b0 + 256 * b1 + 65536 * b2 + 16777216 * b3) % 2 ^ 31
      → IsWire proto (b0 ∷ b1 ∷ b2 ∷ b3 ∷ payload)

-- In front of anything the length of the packet is read.
wire-next :
    (proto : ℕ) (p more : List ℕ)
    → IsWire proto p
    → next_packet_len proto (p ++ more) 0 (length (p ++ more)) ≡ ok (some (length p))
unfolding next_packet_len next_abridged_len abridged_len_from checked_len byte_at slice take drop
    from_bytes_little
wire-next proto p more (short first payload e a b pos n) =
    ground (arith, bit_and-ones 7 first, length-append payload more)
wire-next proto p more (long first b0 b1 b2 payload e (inl f) pos n) =
    ground (arith, length-append payload more)
wire-next proto p more (long first b0 b1 b2 payload e (inr f) pos n) =
    ground (arith, length-append payload more)
wire-next proto p more (intermediate b0 b1 b2 b3 payload e pos n) =
    unfold next_intermediate_len unpack_i_little in
    ground (
      arith,
      bit_and-ones 31 (b0 + 256 * (b1 + 256 * (b2 + 256 * (b3 + 256 * 0)))),
      length-append payload more,
    )

-- What a packet carries to the splitter: its cipher bytes beside its plain bytes.
abbrev pub IsPacket : ℕ → List ℕ × List ℕ → Type 0
IsPacket proto w = InStep w × IsWire proto w.1

packets-InStep : (proto : ℕ) (ws : List (List ℕ × List ℕ)) → All (IsPacket proto) ws → All InStep ws
packets-InStep proto [] h = tt
packets-InStep proto (w ∷ ws) h = (h.0.0, packets-InStep proto ws h.1)

wire-nonempty : (proto : ℕ) (p : List ℕ) → IsWire proto p → 0 < length p
wire-nonempty proto p (short first payload e a b pos n) = omega arith
wire-nonempty proto p (long first b0 b1 b2 payload e f pos n) = omega arith
wire-nonempty proto p (intermediate b0 b1 b2 b3 payload e pos n) = omega arith

frames-packets :
    (fuel proto : ℕ) (ws : List (List ℕ × List ℕ))
    → All (IsPacket proto) ws
    → length (ciphers ws) < fuel
    → frames fuel proto (ciphers ws) (plains ws) ≡ ok (map (λ w. w.0) ws, [], [], false)
frames-packets zero proto ws h enough = absurd (omega arith)
frames-packets (suc fuel) proto [] h enough = unfold frames in refl
frames-packets (suc fuel) proto ((c, p) ∷ ws) h enough =
    let some_bytes : 0 < length p = wire-nonempty proto p h.0.1 in
    let same : length c ≡ length p = h.0.0 in
    let all_same = length-ciphers ws (packets-InStep proto ws h.1) in
    let whole : length (c ++ ciphers ws) ≡ length (p ++ plains ws) =
      omega (arith, all_same, length-append c (ciphers ws), length-append p (plains ws)) in
    frames-packet fuel proto (c ++ ciphers ws) (p ++ plains ws) (length p)
      (omega (arith, length-append c (ciphers ws))) some_bytes
      (rw whole (wire-next proto p (plains ws) h.0.1))
    ∙ rw
        (
          take_append_self (length p) c (ciphers ws) same,
          drop_append_self (length p) c (ciphers ws) same,
          drop_append_self (length p) p (plains ws) refl,
          frames-packets fuel proto ws h.1 (omega (arith, length-append c (ciphers ws))),
        )
        refl

split-packets :
    (proto : ℕ) (ws : List (List ℕ × List ℕ))
    → All (IsPacket proto) ws
    → split (init proto) (ciphers ws) (plains ws) ≡ ok (map (λ w. w.0) ws, init proto)
split-packets proto [] h = unfold split in refl
split-packets proto ((c, p) ∷ ws) h =
    let all = (c, p) ∷ ws in
    let v : IsValid (init proto) = record { same_length = refl; nothing_kept = λ e. cc } in
    let (r, run, i, cut) =
      split_framed (init proto) (ciphers all) (plains all) v refl
        (omega (arith, h.0.0, wire-nonempty proto p h.0.1, length-append c (ciphers ws)))
        (length-ciphers all (packets-InStep proto all h)) in
    let found : r ≡ (map (λ w. w.0) all, [], [], false) =
      ok-inj r _
        (sym run ∙ frames-packets (suc (length (ciphers all))) proto all h (omega arith)) in
    cut ∙ rw found refl

-- However the network cuts a stream of whole packets of one of the three transports, with a plain
-- byte for each cipher byte, the parts sent on by a new splitter are exactly the packets, one
-- part each and in order, and the splitter ends as it began.
pub feed-packets :
    (proto : ℕ) (packets chunks : List (List ℕ × List ℕ))
    → All (IsPacket proto) packets
    → All InStep chunks
    → ciphers chunks ≡ ciphers packets
    → plains chunks ≡ plains packets
    → feed (init proto) chunks ≡ ok (map (λ w. w.0) packets, init proto)
feed-packets proto packets chunks h same ec ep =
    feed-split (init proto) chunks (map (λ w. w.0) packets, init proto)
      (record { same_length = refl; nothing_kept = λ e. cc }) same
      (rw (ec, ep) (split-packets proto packets h)) refl
