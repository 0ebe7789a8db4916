-- ===== src/Client.antt =====
-- proxy/tg_ws_proxy.py: `_read_client_init` and `_handle_client`, from the first byte of a client to
-- the choice of its route. Timeouts and the label, which is for the log, are not modelled.
pub mod Accepted
pub mod Opening
use hide_self_tgws.Base.{
  ℕ, zero, suc, ◌+◌, ◌-◌, Bool, true, false, ◌&&◌, ◌||◌, Option, none, some, List, [], ◌∷◌, ◌++◌,
  take, drop, slice, leb, ◌==◌, if◌then◌else◌, Result, ok, err, incomplete_read_error, ◌>>=◌,
}
use hide_self_tgws.Base.Bytes.{byte_at, unpack_h_big}
use hide_self_tgws.Base.Dict.{◌=?◌, bytes_eq}
use hide_self_tgws.Base.Integers.{ℤ, pos, neg}
use hide_self_tgws.Base.Reader.{readexactly}
use hide_self_tgws.FakeTls.{tls_record_handshake, verify_client_hello, build_server_hello}
use hide_self_tgws.FakeTls.ClientHello.{parse_client_hello}
use hide_self_tgws.FakeTls.Stream.{FakeTlsStream, new_stream, read_stream_exactly}
use hide_self_tgws.Handshake.{
  CryptoCtx, handshake_len, proto_tag_abridged, proto_tag_intermediate, try_handshake,
  generate_relay_init, build_crypto_ctx,
}
use hide_self_tgws.Splitter.{
  MsgSplitter, init, proto_abridged_int, proto_intermediate_int, proto_padded_intermediate_int,
}

-- Where the client's bytes are read from and written to after its opening.
pub data ClientStream : Type 0 where
  plain_stream : List ℕ → ClientStream
  tls_stream : FakeTlsStream → ClientStream

-- How `_read_client_init` ends: it returns None after a disconnect, after handing the connection to
-- the masking domain with the hello, or after an HTTP redirect; or it returns the 64 bytes and the
-- stream, having written the server's hello to a TLS client.
pub data Opened : Type 0 where
  disconnected : (written : List ℕ) → Opened
  masked : (client_hello : List ℕ) → Opened
  redirected : Opened
  opened : (handshake : List ℕ) → ClientStream → (written : List ℕ) → Opened

-- `except asyncio.IncompleteReadError`
unfoldable pub or_disconnected : List ℕ → Result Opened → Result Opened
or_disconnected written (ok opening) = ok opening
or_disconnected written (err incomplete_read_error) = ok (disconnected written)
or_disconnected written (err raised) = err raised

-- `reader.readline()`: the bytes behind the first line feed.
unfoldable pub skip_line : List ℕ → List ℕ
skip_line [] = []
skip_line (b ∷ bs) = let rest = skip_line bs in if b == 10 then bs else rest

-- The random parts of a server's hello.
pub record HelloRandom : Type 0 where
  pub ciphertext : List ℕ
  pub public_key : List ℕ
  pub appdata : List ℕ

module _ (hmac : List ℕ → List ℕ → List ℕ) (arrived : List ℕ → ℕ) where
  -- Behind a hello that was read whole.
  unfoldable pub answer_hello : ℕ → List ℕ → HelloRandom → List ℕ → List ℕ → Result Opened
  unfolding or_disconnected
  answer_hello now secret random_parts client_hello reader =
      elim (verify_client_hello hmac now client_hello secret) [
        | none ↦ ok (masked client_hello)
        | some (client_random, session_id, ts) ↦ do
          info ← parse_client_hello client_hello
          let server_hello : List ℕ =
              build_server_hello hmac secret client_random session_id info random_parts.ciphertext
                random_parts.public_key random_parts.appdata
          or_disconnected server_hello (do
            (handshake, stream) ← read_stream_exactly arrived handshake_len (new_stream reader)
            ok (opened handshake (tls_stream stream) server_hello))
      ]

  -- A TLS record whose first byte is read.
  unfoldable pub read_hello : ℕ → List ℕ → HelloRandom → ℕ → List ℕ → Result Opened
  unfolding answer_hello
  read_hello now secret random_parts first_byte reader = do
    (hdr_rest, reader) ← readexactly 4 reader
    let tls_header : List ℕ = first_byte ∷ hdr_rest
    record_len ← unpack_h_big tls_header 3
    (record_body, reader) ← readexactly record_len reader
    answer_hello now secret random_parts (tls_header ++ record_body) reader

  -- The branches on the first byte.
  unfoldable pub read_opening : ℕ → List ℕ → HelloRandom → Bool → List ℕ → Result Opened
  unfolding read_hello
  read_opening now secret random_parts masking reader = do
    (first, reader) ← readexactly 1 reader
    first_byte ← byte_at first 0
    elim (first_byte == tls_record_handshake && masking) [
      | true ↦ read_hello now secret random_parts first_byte reader
      | false ↦ elim masking [
        | true ↦ ok redirected
        | false ↦ do
          (rest, reader) ← readexactly 63 reader
          ok (opened (first_byte ∷ rest) (plain_stream reader) [])
      ]
    ]

  unfoldable pub read_client_init : ℕ → List ℕ → HelloRandom → Bool → Bool → List ℕ → Result Opened
  unfolding or_disconnected read_opening
  read_client_init now secret random_parts proxy_protocol masking reader = or_disconnected [] (
      read_opening now secret random_parts masking
        (if proxy_protocol then skip_line reader else reader))

-- What a connection is served with.
pub record Route : Type 0 where
  pub dc : ℕ
  pub is_media : Bool
  pub is_test_dc : Bool
  pub proto_tag : List ℕ
  pub proto_int : ℕ
  pub dc_idx : ℤ

unfoldable pub proto_int_of : List ℕ → ℕ
proto_int_of tag =
    if tag =? proto_tag_abridged
    then proto_abridged_int
    else if tag =? proto_tag_intermediate
    then proto_intermediate_int
    else proto_padded_intermediate_int

unfoldable pub route_of : Bool → ℕ → Bool → List ℕ → Route
unfolding proto_int_of
route_of force_test_dc dc is_media proto_tag =
    let real_dc = (if leb 10000 dc then dc - 10000 else dc) in
    record {
      dc = real_dc;
      is_media = is_media;
      is_test_dc = force_test_dc || leb 10000 dc;
      proto_tag = proto_tag;
      proto_int = proto_int_of proto_tag;
      dc_idx = (if is_media then neg real_dc else pos real_dc);
    }

-- What happens to a client: no opening, a bad handshake, or a route with the relay's init, the
-- ciphers and the splitter. `from_pool` says whether `ws_pool.get` had a WebSocket; if not, the
-- fallbacks are tried.
pub data Handled : Type 0 where
  no_opening : Opened → Handled
  bad_handshake : Handled
  served :
      (from_pool : Bool)
      → Route
      → (relay_init : List ℕ) → CryptoCtx
      → MsgSplitter
      → ClientStream
      → Handled

module _ (keystream : List ℕ → List ℕ → ℕ → ℕ) (sha256 : List ℕ → List ℕ) where
  -- Behind an opening; `pool_has` is `ws_pool.get` for a DC, the media and the test flag.
  unfoldable pub serve :
      (ℕ → Bool → Bool → Bool)
      → Bool
      → ℕ
      → (ℕ → List ℕ)
      → List ℕ
      → List ℕ
      → List ℕ
      → ClientStream
      → Result Handled
  unfolding route_of
  serve pool_has force_test_dc fuel draws random_tail secret handshake stream =
      elim (try_handshake keystream sha256 handshake secret) [
        | none ↦ ok bad_handshake
        | some (dc, is_media, proto_tag, client_dec_prekey_iv) ↦
            let route = route_of force_test_dc dc is_media proto_tag in
            do
              relay_init ←
                  generate_relay_init keystream fuel draws random_tail proto_tag route.dc_idx
              ok (
                  served (pool_has route.dc route.is_media route.is_test_dc) route relay_init
                    (build_crypto_ctx keystream sha256 client_dec_prekey_iv secret relay_init)
                    (init route.proto_int) stream)
      ]

  unfoldable pub handle_opening :
      (ℕ → Bool → Bool → Bool) → Bool → ℕ → (ℕ → List ℕ) → List ℕ → List ℕ → Opened → Result Handled
  unfolding serve
  handle_opening pool_has force_test_dc fuel draws random_tail secret
        (opened handshake stream written) =
      serve pool_has force_test_dc fuel draws random_tail secret handshake stream
  handle_opening pool_has force_test_dc fuel draws random_tail secret (disconnected written) =
      ok (no_opening (disconnected written))
  handle_opening pool_has force_test_dc fuel draws random_tail secret (masked hello) =
      ok (no_opening (masked hello))
  handle_opening pool_has force_test_dc fuel draws random_tail secret redirected =
      ok (no_opening redirected)
