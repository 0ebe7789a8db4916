-- ===== src/Handshake/Relay.antt =====
-- The relay's init: drawn until it looks like no other protocol, and read by Telegram's front as
-- meant.
use hide_self_tgws.Base.{
  ℕ, zero, suc, ◌+◌, ◌-◌, ◌<◌, ◌≤◌, bit_xor, false, List, [], ◌∷◌, ◌++◌, length, take, drop, slice,
  ok, ◌≡◌, refl, sym, ap, ap₂, ◌∙◌, arith, length-append, length-take, length-drop,
  length-slice_lem, take_append_left, take_append_self, drop_append_left, drop_append_self,
  append_assoc, append-nil, drop_of_length-le, take-append-drop, get_elem?_append_left, take-take,
  drop-drop, drop-take, Bool-cases, inl, inr,
}
use hide_self_tgws.Base.Bits.{bit_xor-cancel, bit_xor_comm}
use hide_self_tgws.Base.Dict.{bytes_eq}
use hide_self_tgws.Base.Integers.{ℤ, pack_h_little, from_bytes_little_signed-pack_h_little}
use hide_self_tgws.Cipher.{update, xor_stream, drop-xor_stream, take-xor_stream, length-xor_stream}
use hide_self_tgws.FakeTls.{xor_bytes}
use hide_self_tgws.Handshake.{is_reserved, draw_start, relay_init_from, generate_relay_init}
use hide_self_tgws.Handshake.Peers.{telegram_up, telegram_reads}
use hide_self_tgws.Handshake.Recognised.{drop-xor_stream_tail}

-- The keystream taken from an encryption of known bytes encrypts any bytes of that length.
xor_bytes-keystream :
    (stream : ℕ → ℕ) (position : ℕ) (plain rnd : List ℕ)
    → length plain ≡ length rnd
    → xor_bytes plain (xor_bytes (xor_stream stream position rnd) rnd)
      ≡ xor_stream stream position plain
unfolding xor_bytes xor_stream
xor_bytes-keystream stream position [] rnd h = refl
xor_bytes-keystream stream position (p ∷ plain) [] h = absurd (omega arith)
xor_bytes-keystream stream position (p ∷ plain) (r ∷ rnd) h =
    ap₂ ◌∷◌
      (ap (bit_xor p) (
        ap (λ t. bit_xor t r) (bit_xor_comm r (stream position))
        ∙ bit_xor-cancel (stream position) r))
      (xor_bytes-keystream stream (suc position) plain rnd (omega (arith, h)))

-- The draws up to an accepted one are enough, and the first accepted one is taken.
draw_start_total :
    (fuel : ℕ) (draws : ℕ → List ℕ) (n k : ℕ)
    → k < fuel
    → is_reserved (draws (n + k)) ≡ false
    → (m : ℕ) × (draw_start fuel draws n ≡ ok (draws m)) × (is_reserved (draws m) ≡ false)
unfolding draw_start
draw_start_total zero draws n k enough free = absurd (omega arith)
draw_start_total (suc fuel) draws n zero enough free =
    let e : n + 0 ≡ n = omega arith in
    let here : is_reserved (draws n) ≡ false = ap (λ t. is_reserved (draws t)) (sym e) ∙ free in
    (n, rw (here) refl, here)
draw_start_total (suc fuel) draws n (suc k) enough free =
    let e : n + suc k ≡ suc n + k = omega arith in
    let (m, run, first) =
      draw_start_total fuel draws (suc n) k (omega (arith, enough))
        (sym (ap (λ t. is_reserved (draws t)) e) ∙ free) in
    elim (Bool-cases (is_reserved (draws n))) [
      | inr here ↦ (n, rw (here) refl, here)
      | inl taken ↦ (m, rw (taken) run, first)
    ]

-- The reserved forms lie in the first eight bytes.
is_reserved-append :
    (front back rest : List ℕ)
    → 8 ≤ length front
    → is_reserved (front ++ back) ≡ is_reserved (front ++ rest)
unfolding is_reserved slice
is_reserved-append front back rest h =
    rw
      (
        get_elem?_append_left front back 0 (omega (arith, h)),
        get_elem?_append_left front rest 0 (omega (arith, h)),
        take_append_left 4 front back (omega (arith, h)),
        take_append_left 4 front rest (omega (arith, h)),
        drop_append_left 4 front back (omega (arith, h)),
        drop_append_left 4 front rest (omega (arith, h)),
        take_append_left 4 (drop 4 front) back (omega (arith, h, length-drop 4 front)),
        take_append_left 4 (drop 4 front) rest (omega (arith, h, length-drop 4 front)),
      )
      refl

slice-xor_stream :
    (stream : ℕ → ℕ) (a b : ℕ) (bs : List ℕ)
    → slice a b (xor_stream stream 0 bs) ≡ xor_stream stream a (slice a b bs)
unfolding slice
slice-xor_stream stream a b bs =
    ap (take (b - a)) (
      drop-xor_stream stream a 0 bs
      ∙ (let e : 0 + a ≡ a = omega arith in ap (λ p. xor_stream stream p (drop a bs)) e))
    ∙ take-xor_stream stream (b - a) a (drop a bs)

take_split : (a b : ℕ) (xs : List ℕ) → a ≤ b → take b xs ≡ take a xs ++ slice a b xs
unfolding slice
take_split a b xs h =
    sym (take-append-drop a (take b xs)) ∙ ap₂ ◌++◌ (take-take a b xs h) (drop-take a b xs)

-- The key and the iv among the bytes 8 to 56.
pub key_field : (rnd : List ℕ) → take 32 (slice 8 56 rnd) ≡ slice 8 40 rnd
unfolding slice
key_field rnd = take-take 32 48 (drop 8 rnd) (omega arith)

pub iv_field : (rnd : List ℕ) → drop 32 (slice 8 56 rnd) ≡ slice 40 56 rnd
unfolding slice
iv_field rnd = drop-take 32 48 (drop 8 rnd) ∙ ap (take 16) (drop-drop 8 32 40 rnd refl)

module _ (keystream : List ℕ → List ℕ → ℕ → ℕ) where
  abbrev IsRead : List ℕ → List ℕ → Type 0
  IsRead plain init =
      (length init ≡ 64) × (is_reserved init ≡ false) × (telegram_reads keystream init ≡ plain)

  -- What the written out init has.
  relay_init-IsRead :
      (rnd plain : List ℕ)
      → length rnd ≡ 64
      → length plain ≡ 8
      → is_reserved rnd ≡ false
      → IsRead plain (
          take 8 rnd
          ++ (slice 8 56 rnd ++ xor_stream (keystream (slice 8 40 rnd) (slice 40 56 rnd)) 56 plain))
  relay_init-IsRead rnd plain h64 h8 first =
      let stream = keystream (slice 8 40 rnd) (slice 40 56 rnd) in
      let sealed = xor_stream stream 56 plain in
      let start : length (take 8 rnd) ≡ 8 = omega (arith, length-take 8 rnd, h64) in
      let middle : length (slice 8 56 rnd) ≡ 48 = length-slice_lem 8 56 rnd (omega (arith, h64)) in
      let init = take 8 rnd ++ (slice 8 56 rnd ++ sealed) in
      (
        omega (
          arith,
          start,
          middle,
          h8,
          length-xor_stream stream 56 plain,
          length-append (take 8 rnd) (slice 8 56 rnd ++ sealed),
          length-append (slice 8 56 rnd) sealed,
        ),
        is_reserved-append (take 8 rnd) (slice 8 56 rnd ++ sealed) (drop 8 rnd)
              (omega (arith, start))
            ∙ ap is_reserved (take-append-drop 8 rnd)
            ∙ first,
        unfold telegram_reads in
            unfold telegram_up in
            rw
              (
                drop_append_self 8 (take 8 rnd) (slice 8 56 rnd ++ sealed) start,
                take_append_self 48 (slice 8 56 rnd) sealed middle,
                key_field rnd,
                iv_field rnd,
              )
              (drop-xor_stream_tail stream (take 8 rnd) (slice 8 56 rnd) plain start middle),
      )

  module _ (rnd tag dc_bytes random_tail : List ℕ) where
    -- The relay's init, with the encryption written out.
    relay_init_from_eq :
        length rnd ≡ 64
        → length (tag ++ (dc_bytes ++ random_tail)) ≡ 8
        → relay_init_from keystream rnd tag dc_bytes random_tail
          ≡ take 8 rnd
            ++ (slice 8 56 rnd
                ++ xor_stream
                    (keystream (slice 8 40 rnd) (slice 40 56 rnd))
                    56
                    (tag ++ (dc_bytes ++ random_tail)))
    unfolding relay_init_from update
    relay_init_from_eq h8 h =
        let stream = keystream (slice 8 40 rnd) (slice 40 56 rnd) in
        let plain = tag ++ (dc_bytes ++ random_tail) in
        let sealed = xor_stream stream 56 plain in
        let last_eight : length (slice 56 64 rnd) ≡ 8 =
          length-slice_lem 56 64 rnd (omega (arith, h8)) in
        rw
          (
            slice-xor_stream stream 56 64 rnd,
            xor_bytes-keystream stream 56 plain (slice 56 64 rnd) (omega (arith, h, last_eight)),
            drop_of_length-le 64 rnd (omega (arith, h8)),
            append-nil sealed,
          )
          (ap (λ t. t ++ sealed) (take_split 8 56 rnd (omega arith))
            ∙ append_assoc (take 8 rnd) (slice 8 56 rnd) sealed)

  -- Whatever random bytes the system hands out, as long as one of the first `fuel` draws is not
  -- reserved, each draw has 64 bytes, the tag four, the random tail two, and the DC number fits 16
  -- bits with sign: an init is built. It has 64 bytes, its first bytes are none of the reserved
  -- ones, and Telegram's front, which takes key and iv from the init itself, reads in its last
  -- eight bytes the tag, the DC number and the random tail.
  pub generate_relay_init_lem :
      (fuel : ℕ) (draws : ℕ → List ℕ) (random_tail tag dc_bytes : List ℕ) (dc_idx : ℤ) (k : ℕ)
      → k < fuel
      → is_reserved (draws k) ≡ false
      → ((n : ℕ) → length (draws n) ≡ 64)
      → length tag ≡ 4
      → length random_tail ≡ 2
      → pack_h_little dc_idx ≡ ok dc_bytes
      → (init : List ℕ) × (generate_relay_init keystream fuel draws random_tail tag dc_idx
          ≡ ok init)
        × (length init ≡ 64)
        × (is_reserved init ≡ false)
        × (telegram_reads keystream init ≡ tag ++ (dc_bytes ++ random_tail))
  generate_relay_init_lem fuel draws random_tail tag dc_bytes dc_idx k enough free len ht hr hd =
      let (m, run, first) =
        draw_start_total fuel draws 0 k enough (let e : 0 + k ≡ k = omega arith in rw e free) in
      let rnd = draws m in
      let plain = tag ++ (dc_bytes ++ random_tail) in
      let two = (from_bytes_little_signed-pack_h_little dc_idx dc_bytes hd).1 in
      let eight : length plain ≡ 8 = omega (
        arith,
        ht,
        hr,
        two,
        length-append tag (dc_bytes ++ random_tail),
        length-append dc_bytes random_tail,
      ) in
      let same = relay_init_from_eq rnd tag dc_bytes random_tail (len m) eight in
      let (size, fresh, read) = relay_init-IsRead rnd plain (len m) eight first in
      (
        relay_init_from keystream rnd tag dc_bytes random_tail,
        unfold generate_relay_init in rw (run, hd) refl,
        rw same size,
        rw same fresh,
        rw same read,
      )
