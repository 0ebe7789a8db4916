-- ===== src/Client/Accepted.antt =====
-- From a client's opening to its route: a client that knows the secret is served.
use hide_self_tgws.Base.{
  ℕ, zero, suc, ◌-◌, ◌≤◌, ◌<◌, Bool, true, false, some, List, ◌++◌, length, drop, ltb, leb,
  if◌then◌else◌, ok, ◌≡◌, refl, arith,
}
use hide_self_tgws.Base.Bytes.{IsBytes, to_bytes_little}
use hide_self_tgws.Base.Dict.{contains, bytes_eq}
use hide_self_tgws.Base.Integers.{ℤ, pos, negsuc, neg, abs, is_negative, pack_h_little}
use hide_self_tgws.Handshake.{
  proto_tags, is_reserved, try_handshake, generate_relay_init, build_crypto_ctx,
}
use hide_self_tgws.Handshake.Peers.{client_init, telegram_reads}
use hide_self_tgws.Handshake.Recognised.{try_handshake-client_init, length_proto_tag}
use hide_self_tgws.Handshake.Relay.{generate_relay_init_lem}
use hide_self_tgws.Splitter.{init}
use hide_self_tgws.Client.{route_of, ClientStream, served, serve}

-- A DC number below 32768 fits two bytes with either sign.
pack_neg : (n : ℕ) → n < 0x8000 → (bs : List ℕ) × (pack_h_little (neg n) ≡ ok bs)
unfolding pack_h_little
pack_neg zero h = (to_bytes_little 2 0, refl)
pack_neg (suc n) h =
    let small : ltb n 0x8000 ≡ true = ground (arith, h) in
    (to_bytes_little 2 (0x10000 - suc n), rw (pack_h_little, small) refl)

pack_pos : (n : ℕ) → n < 0x8000 → (bs : List ℕ) × (pack_h_little (pos n) ≡ ok bs)
unfolding pack_h_little
pack_pos n h =
    let small : ltb n 0x8000 ≡ true = ground (arith, h) in
    (to_bytes_little 2 n, rw (pack_h_little, small) refl)

packed_abs : (v : ℤ) (bs : List ℕ) → pack_h_little v ≡ ok bs → abs v ≤ 0x8000
unfolding pack_h_little
packed_abs (pos n) bs e = ground (arith, e)
packed_abs (negsuc n) bs e = ground (arith, e)

route_packs :
    (force_test_dc : Bool) (dc : ℕ) (is_media : Bool) (tag : List ℕ)
    → dc ≤ 0x8000
    → (bs : List ℕ) × (pack_h_little (route_of force_test_dc dc is_media tag).dc_idx ≡ ok bs)
unfolding route_of
route_packs force_test_dc dc is_media tag small =
    let real : (if leb 10000 dc then dc - 10000 else dc) < 0x8000 = ground (arith, small) in
    packs is_media real
  where
    packs :
        (is_media : Bool)
        → (if leb 10000 dc then dc - 10000 else dc) < 0x8000
        → (bs : List ℕ) × (pack_h_little (route_of force_test_dc dc is_media tag).dc_idx ≡ ok bs)
    packs true real = pack_neg (if leb 10000 dc then dc - 10000 else dc) real
    packs false real = pack_pos (if leb 10000 dc then dc - 10000 else dc) real

module _ (keystream : List ℕ → List ℕ → ℕ → ℕ) (sha256 : List ℕ → List ℕ) (secret : List ℕ)
    (pool_has : ℕ → Bool → Bool → Bool) (force_test_dc : Bool) where
  serve_eq :
      (fuel : ℕ) (draws : ℕ → List ℕ) (random_tail handshake tag prekey_iv relay_init : List ℕ)
      (dc : ℕ) (is_media : Bool) (stream : ClientStream)
      → try_handshake keystream sha256 handshake secret ≡ some (dc, is_media, tag, prekey_iv)
      → generate_relay_init keystream fuel draws random_tail tag
          (route_of force_test_dc dc is_media tag).dc_idx
        ≡ ok relay_init
      → (let route = route_of force_test_dc dc is_media tag in
          serve keystream sha256 pool_has force_test_dc fuel draws random_tail secret handshake
            stream
          ≡ ok (
              served
                (pool_has route.dc route.is_media route.is_test_dc)
                route
                relay_init
                (build_crypto_ctx keystream sha256 prekey_iv secret relay_init)
                (init route.proto_int)
                stream))
  unfolding serve
  serve_eq fuel draws random_tail handshake tag prekey_iv relay_init dc is_media stream known made =
      rw (serve, known, made) refl

  -- For any keystream and hash, a client that opens as the obfuscated transport says, with the
  -- proxy's secret, one of the three tags and a DC number that fits 16 bits with sign, and random
  -- draws of 64 bytes of which one of the first `fuel` is not reserved: the client is served, by
  -- the pool or the fallbacks as the pool says, on the route of its DC number and tag. The route's
  -- number fits 16 bits again, also when it is that of a test DC less 10000, and Telegram's front
  -- reads the client's tag and the route's number in the relay's init.
  pub serve-client_init :
      (start prekey_iv tag dc_bytes client_tail : List ℕ) (dc_idx : ℤ) (fuel : ℕ)
      (draws : ℕ → List ℕ) (random_tail : List ℕ) (k : ℕ) (stream : ClientStream)
      → length start ≡ 8
      → length prekey_iv ≡ 48
      → IsBytes (drop 32 prekey_iv)
      → contains proto_tags tag ≡ true
      → pack_h_little dc_idx ≡ ok dc_bytes
      → k < fuel
      → is_reserved (draws k) ≡ false
      → ((n : ℕ) → length (draws n) ≡ 64)
      → length random_tail ≡ 2
      → (let route = route_of force_test_dc (abs dc_idx) (is_negative dc_idx) tag in
          (relay_init route_bytes : List ℕ) × (pack_h_little route.dc_idx ≡ ok route_bytes)
          × (telegram_reads keystream relay_init ≡ tag ++ (route_bytes ++ random_tail))
          × (serve keystream sha256 pool_has force_test_dc fuel draws random_tail secret
                (client_init keystream sha256 secret start prekey_iv tag dc_bytes client_tail)
                stream
              ≡ ok (
                  served
                    (pool_has route.dc route.is_media route.is_test_dc)
                    route
                    relay_init
                    (build_crypto_ctx keystream sha256 prekey_iv secret relay_init)
                    (init route.proto_int)
                    stream)))
  serve-client_init start prekey_iv tag dc_bytes client_tail dc_idx fuel draws random_tail k stream
        hs hp hb ht hd enough free len hr =
      let (route_bytes, packs) =
        route_packs force_test_dc (abs dc_idx) (is_negative dc_idx) tag
          (packed_abs dc_idx dc_bytes hd) in
      let (relay_init, made, size, fresh, read) =
        generate_relay_init_lem keystream fuel draws random_tail tag route_bytes
          (route_of force_test_dc (abs dc_idx) (is_negative dc_idx) tag).dc_idx k enough free len
          (length_proto_tag tag ht) hr packs in
      (
        relay_init,
        route_bytes,
        packs,
        read,
        serve_eq fuel draws random_tail
            (client_init keystream sha256 secret start prekey_iv tag dc_bytes client_tail) tag
            prekey_iv relay_init (abs dc_idx) (is_negative dc_idx) stream
            (try_handshake-client_init keystream sha256 secret start prekey_iv tag dc_bytes
              client_tail dc_idx hs hp hb ht hd)
            made,
      )
