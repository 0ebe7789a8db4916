-- ===== src/Tests/Tunnel.antt =====
-- A connection on concrete inputs, with stand-ins for the cipher and the hashes.
use hide_self_tgws.Base.{
  ℕ, zero, suc, ◌+◌, ◌*◌, ◌%◌, ◌==◌, if◌then◌else◌, true, false, none, some, List, [], ◌∷◌, ◌++◌,
  length, take, drop, slice, replicate, ok, ◌≡◌, refl, arith, join, map, append-nil,
  length-replicate, drop_append_self,
}
use hide_self_tgws.Base.Bytes.{IsBytes, to_bytes_little}
use hide_self_tgws.Base.Dict.{contains}
use hide_self_tgws.Base.Integers.{ℤ, negsuc, pack_h_little}
use hide_self_tgws.Cipher.{xor_stream, length-xor_stream}
use hide_self_tgws.Handshake.{proto_tag_secure, is_reserved, generate_relay_init, build_crypto_ctx}
use hide_self_tgws.Handshake.Peers.{
  client_up, telegram_up, telegram_down, client_down, client_init, telegram_reads,
}
use hide_self_tgws.Handshake.Relay.{generate_relay_init_lem}
use hide_self_tgws.Splitter.{init, proto_abridged_int}
use hide_self_tgws.Splitter.Packets.{IsWire, short}
use hide_self_tgws.Bridge.{Sending, Upload, all_messages, tcp_to_ws, ws_to_tcp}
use hide_self_tgws.Bridge.Upstream.{NonEmpty, new_splitter, new_upload, Carries, tcp_to_ws_lem}
use hide_self_tgws.Bridge.Packets.{xor_each, tcp_to_ws-packets}
use hide_self_tgws.Bridge.Downstream.{new_ctx, start_download, ws_to_tcp_lem}
use hide_self_tgws.Client.{plain_stream, served, serve, route_of}
use hide_self_tgws.Client.Accepted.{serve-client_init}

abbrev keystream : List ℕ → List ℕ → ℕ → ℕ
keystream key iv position = (length key + 3 * length iv + 7 * position) % 256

abbrev sha256 : List ℕ → List ℕ
sha256 message = replicate 32 (length message)

abbrev secret : List ℕ
secret = 1 ∷ 2 ∷ 3 ∷ []

abbrev iv : List ℕ
iv = replicate 16 4

abbrev prekey_iv : List ℕ
prekey_iv = replicate 32 3 ++ iv

abbrev relay_init : List ℕ
relay_init = replicate 64 9

abbrev plain : List ℕ
plain = 1 ∷ 10 ∷ 20 ∷ 30 ∷ 40 ∷ []

abbrev client_wire : List ℕ
client_wire = xor_stream (client_up keystream sha256 secret prekey_iv) 64 plain

client_wire-NonEmpty : NonEmpty client_wire
client_wire-NonEmpty =
    omega (arith, length-xor_stream (client_up keystream sha256 secret prekey_iv) 64 plain)

tcp_to_ws_lem_example :
    Carries keystream sha256 secret prekey_iv relay_init
      (new_upload keystream sha256 secret prekey_iv relay_init
        (new_splitter (some proto_abridged_int)))
      (client_wire ∷ [])
      plain
tcp_to_ws_lem_example =
    tcp_to_ws_lem keystream sha256 secret prekey_iv relay_init (some proto_abridged_int)
      (client_wire ∷ []) plain (client_wire-NonEmpty, tt) (append-nil client_wire)

plain-IsWire : IsWire proto_abridged_int plain
plain-IsWire =
    short 1 (10 ∷ 20 ∷ 30 ∷ 40 ∷ []) refl (λ e. omega (arith, e)) (λ e. omega (arith, e))
      (omega arith) refl

tcp_to_ws-packets_example :
    (sent : List Sending) × (after : Upload) × (tcp_to_ws keystream
        (new_upload keystream sha256 secret prekey_iv relay_init (some (init proto_abridged_int)))
        (client_wire ∷ [])
      ≡ ok (sent, after))
    × (xor_each (telegram_up keystream relay_init) 64 (all_messages sent) ≡ plain ∷ [])
tcp_to_ws-packets_example =
    tcp_to_ws-packets keystream sha256 secret prekey_iv relay_init proto_abridged_int (plain ∷ [])
      (client_wire ∷ []) (client_wire-NonEmpty, tt) (plain-IsWire, tt) (append-nil client_wire)

abbrev telegram_wire : List ℕ
telegram_wire = xor_stream (telegram_down keystream relay_init) 0 plain

ws_to_tcp_lem_example :
    (xor_stream (client_down keystream sha256 secret prekey_iv) 0 (
        join
          (ws_to_tcp keystream
            (start_download (new_ctx keystream sha256 secret prekey_iv relay_init))
            (map some (telegram_wire ∷ []) ++ (none ∷ (some (5 ∷ []) ∷ [])))).0)
      ≡ plain)
    × ((ws_to_tcp keystream
          (start_download (new_ctx keystream sha256 secret prekey_iv relay_init))
          (map some (telegram_wire ∷ []) ++ (none ∷ (some (5 ∷ []) ∷ [])))).1.down_bytes
        ≡ 5)
ws_to_tcp_lem_example =
    ws_to_tcp_lem keystream sha256 secret prekey_iv relay_init plain (telegram_wire ∷ [])
      (some (5 ∷ []) ∷ []) (append-nil telegram_wire)

iv-IsBytes : (n : ℕ) → IsBytes (replicate n 4)
unfolding replicate
iv-IsBytes zero = tt
iv-IsBytes (suc n) = (omega arith, iv-IsBytes n)

prekey_iv-IsBytes : IsBytes (drop 32 prekey_iv)
prekey_iv-IsBytes =
    rw (drop_append_self 32 (replicate 32 3) iv (length-replicate 32 3)) (iv-IsBytes 16)

-- Every second draw looks like an HTTP GET.
abbrev draws : ℕ → List ℕ
draws n = if n % 2 == 0 then (0x47 ∷ 0x45 ∷ 0x54 ∷ 0x20 ∷ replicate 60 1) else replicate 64 1

draws-length : (n : ℕ) → length (draws n) ≡ 64
draws-length n =
    let ones : (k : ℕ) → length (replicate k (let one : ℕ = 1 in one)) ≡ k =
      λ k. length-replicate k 1 in
    ground (arith, ones 60, ones 64)

draws-free : is_reserved (draws 1) ≡ false
unfolding is_reserved contains take slice drop replicate
draws-free = refl

-- Minus 10002: the media data centre 2 of the test network.
abbrev dc_idx : ℤ
dc_idx = negsuc 10001

abbrev dc_bytes : List ℕ
dc_bytes = to_bytes_little 2 55534

serve-client_init_example :
    let route = route_of false 10002 true proto_tag_secure in
    (relay_init route_bytes : List ℕ) × (pack_h_little route.dc_idx ≡ ok route_bytes)
    × (telegram_reads keystream relay_init ≡ proto_tag_secure ++ (route_bytes ++ (8 ∷ 9 ∷ [])))
    × (serve keystream sha256
          (λ dc media test. media)
          false
          2
          draws
          (8 ∷ 9 ∷ [])
          secret
          (client_init keystream sha256 secret
            (replicate 8 6)
            prekey_iv
            proto_tag_secure
            dc_bytes
            (1 ∷ 2 ∷ []))
          (plain_stream [])
        ≡ ok (
            served route.is_media route relay_init
              (build_crypto_ctx keystream sha256 prekey_iv secret relay_init)
              (init route.proto_int)
              (plain_stream [])))
serve-client_init_example =
    serve-client_init keystream sha256 secret (λ dc media test. media) false (replicate 8 6)
      prekey_iv proto_tag_secure dc_bytes (1 ∷ 2 ∷ []) dc_idx 2 draws (8 ∷ 9 ∷ []) 1
      (plain_stream []) (length-replicate 8 6) (unfold replicate in refl) prekey_iv-IsBytes
      (unfold contains in refl) (unfold pack_h_little in refl) (omega arith) draws-free draws-length
      refl

generate_relay_init_lem_example :
    (init : List ℕ) × (generate_relay_init keystream 2 draws (8 ∷ 9 ∷ []) proto_tag_secure dc_idx
      ≡ ok init)
    × (length init ≡ 64)
    × (is_reserved init ≡ false)
    × (telegram_reads keystream init ≡ proto_tag_secure ++ (dc_bytes ++ (8 ∷ 9 ∷ [])))
generate_relay_init_lem_example =
    generate_relay_init_lem keystream 2 draws (8 ∷ 9 ∷ []) proto_tag_secure dc_bytes dc_idx 1
      (omega arith) draws-free draws-length refl refl (unfold pack_h_little in refl)
