-- ===== src/Client/Opening.antt =====
-- The opening of a client of the TLS disguise, and of one without it.
use hide_self_tgws.Base.{
  ℕ, ◌<◌, Bool, true, false, ◌==◌, All, ◌∙◌, some, List, [], ◌∷◌, ◌++◌, length, drop, slice, ok,
  ◌≡◌, refl, ap, arith, append_assoc, le→not-ltb, take_of_length-le,
}
use hide_self_tgws.Base.Bytes.{
  byte_at, unpack_h_big, to_bytes_big, length-to_bytes_big, from_bytes_big-to_bytes_big,
}
use hide_self_tgws.Base.Reader.{readexactly, readexactly-append}
use hide_self_tgws.FakeTls.{
  ClientHelloInfo, tls_record_handshake, verify_client_hello, build_server_hello,
}
use hide_self_tgws.FakeTls.ClientHello.{parse_client_hello}
use hide_self_tgws.FakeTls.ClientHello.Total.{parse_client_hello_total}
use hide_self_tgws.FakeTls.Stream.{FakeTlsStream, new_stream, read_stream_exactly}
use hide_self_tgws.FakeTls.Stream.Reading.{Holds, Simulates, read_stream_exactly_lem}
use hide_self_tgws.Client.{
  tls_stream, opened, HelloRandom, or_disconnected, skip_line, answer_hello, read_hello,
  read_opening, read_client_init,
}

-- The record of a client's hello: type, version, length, body.
abbrev pub hello_record : ℕ → ℕ → List ℕ → List ℕ
hello_record major minor body =
    tls_record_handshake ∷ major ∷ minor ∷ (to_bytes_big 2 (length body) ++ body)

-- What stands before the opening with the PROXY protocol on.
abbrev pub proxy_header : Bool → List ℕ → List ℕ
proxy_header true line = line ++ (10 ∷ [])
proxy_header false line = []

module _ (hmac : List ℕ → List ℕ → List ℕ) (arrived : List ℕ → ℕ) (now : ℕ) (secret : List ℕ)
    (random_parts : HelloRandom) where
  answer_hello_eq :
      (client_hello reader client_random session_id handshake : List ℕ) (ts : ℕ)
      (info : ClientHelloInfo) (stream : FakeTlsStream)
      → verify_client_hello hmac now client_hello secret ≡ some (client_random, session_id, ts)
      → parse_client_hello client_hello ≡ ok info
      → read_stream_exactly arrived 64 (new_stream reader) ≡ ok (handshake, stream)
      → answer_hello hmac arrived now secret random_parts client_hello reader
        ≡ ok (
            opened handshake (tls_stream stream) (
              build_server_hello hmac secret client_random session_id info random_parts.ciphertext
                random_parts.public_key random_parts.appdata))
  unfolding answer_hello or_disconnected
  answer_hello_eq client_hello reader client_random session_id handshake ts info stream known parsed
        got =
      rw (answer_hello, known, parsed, got) refl

  read_hello_eq :
      (major minor : ℕ) (body reader : List ℕ)
      → length body < 65536
      → read_hello hmac arrived now secret random_parts tls_record_handshake
          (major ∷ minor ∷ (to_bytes_big 2 (length body) ++ (body ++ reader)))
        ≡ answer_hello hmac arrived now secret random_parts (hello_record major minor body) reader
  unfolding read_hello unpack_h_big slice drop
  read_hello_eq major minor body reader small =
      let field = to_bytes_big 2 (length body) in
      let two : length field ≡ 2 = length-to_bytes_big 2 (length body) in
      rw
        (
          read_hello,
          readexactly-append 4 (major ∷ minor ∷ field) (body ++ reader) (omega (arith, two)),
          le→not-ltb (length (tls_record_handshake ∷ major ∷ minor ∷ field)) 5 (omega (arith, two)),
          take_of_length-le 2 field (omega (arith, two)),
          from_bytes_big-to_bytes_big 2 (length body) (omega (arith, small)),
          readexactly-append (length body) body reader refl,
        )
        refl

  -- Without the PROXY protocol.
  opening-tls :
      (major minor : ℕ) (body wire client_random session_id handshake more : List ℕ) (ts : ℕ)
      → length body < 65536
      → verify_client_hello hmac now (hello_record major minor body) secret
        ≡ some (client_random, session_id, ts)
      → Holds (new_stream wire) (handshake ++ more)
      → length handshake ≡ 64
      → (stream : FakeTlsStream) × (info : ClientHelloInfo) × (parse_client_hello
            (hello_record major minor body)
          ≡ ok info)
        × (read_client_init hmac arrived now secret random_parts false true
              (hello_record major minor body ++ wire)
            ≡ ok (
                opened handshake (tls_stream stream) (
                  build_server_hello hmac secret client_random session_id info
                    random_parts.ciphertext random_parts.public_key random_parts.appdata)))
        × Holds stream more
  unfolding read_client_init read_opening or_disconnected byte_at
  opening-tls major minor body wire client_random session_id handshake more ts small known h len =
      let field = to_bytes_big 2 (length body) in
      let rest = major ∷ minor ∷ (field ++ (body ++ wire)) in
      let (info, parsed, reason) = parse_client_hello_total (hello_record major minor body) in
      let reads : readexactly 64 (handshake ++ more) ≡ ok (handshake, more) =
        readexactly-append 64 handshake more len in
      let (stream, got, holds) =
        rw (Simulates, reads) at
          (read_stream_exactly_lem arrived 64 (new_stream wire) (handshake ++ more) h) in
      let bytes : hello_record major minor body ++ wire ≡ tls_record_handshake ∷ rest =
        ap (λ t. tls_record_handshake ∷ major ∷ minor ∷ t) (append_assoc field body wire) in
      (
        stream,
        info,
        parsed,
        rw
            (
              bytes,
              readexactly-append 1 (tls_record_handshake ∷ []) rest refl,
              read_hello_eq major minor body wire small,
              answer_hello_eq (hello_record major minor body) wire client_random session_id
                  handshake ts info stream known parsed got,
            )
            refl,
        holds,
      )

  read_client_init-skipped :
      (reader behind : List ℕ)
      → skip_line reader ≡ behind
      → read_client_init hmac arrived now secret random_parts true true reader
        ≡ read_client_init hmac arrived now secret random_parts false true behind
  unfolding read_client_init
  read_client_init-skipped reader behind e = rw (e) refl

  skip_line-header :
      (line reader : List ℕ)
      → All (λ b. (b == 10) ≡ false) line
      → skip_line (line ++ (10 ∷ reader)) ≡ reader
  unfolding skip_line
  skip_line-header [] reader no_feed = refl
  skip_line-header (b ∷ line) reader (other, no_feed) =
      rw (other) (skip_line-header line reader no_feed)

  -- A client of the TLS disguise: behind a line of the PROXY protocol, when that is on, a hello that
  -- `verify_client_hello` accepts, in one record, and behind it whole records up to the end of the
  -- connection, of application data or change-cipher-spec, that carry the 64 bytes of the handshake
  -- and more before the first application data record without bytes. With masking on, however the
  -- network cuts the records, the proxy answers with a server hello, takes the 64 bytes as the
  -- handshake, and its stream has the rest to give.
  pub read_client_init-tls :
      (proxy_protocol : Bool) (line : List ℕ) (major minor : ℕ)
      (body wire client_random session_id handshake more : List ℕ) (ts : ℕ)
      → All (λ b. (b == 10) ≡ false) line
      → length body < 65536
      → verify_client_hello hmac now (hello_record major minor body) secret
        ≡ some (client_random, session_id, ts)
      → Holds (new_stream wire) (handshake ++ more)
      → length handshake ≡ 64
      → (stream : FakeTlsStream) × (info : ClientHelloInfo) × (parse_client_hello
            (hello_record major minor body)
          ≡ ok info)
        × (read_client_init hmac arrived now secret random_parts proxy_protocol true
              (proxy_header proxy_protocol line ++ (hello_record major minor body ++ wire))
            ≡ ok (
                opened handshake (tls_stream stream) (
                  build_server_hello hmac secret client_random session_id info
                    random_parts.ciphertext random_parts.public_key random_parts.appdata)))
        × Holds stream more
  read_client_init-tls false line major minor body wire client_random session_id handshake more ts
        no_feed small known h len =
      opening-tls major minor body wire client_random session_id handshake more ts small known h len
  read_client_init-tls true line major minor body wire client_random session_id handshake more ts
        no_feed small known h len =
      let (stream, info, parsed, run, holds) =
        opening-tls major minor body wire client_random session_id handshake more ts small known h
          len in
      let hello = hello_record major minor body ++ wire in
      let skipped : skip_line ((line ++ (10 ∷ [])) ++ hello) ≡ hello =
        ap skip_line (append_assoc line (10 ∷ []) hello) ∙ skip_line-header line hello no_feed in
      (
        stream,
        info,
        parsed,
        read_client_init-skipped ((line ++ (10 ∷ [])) ++ hello) hello skipped ∙ run,
        holds,
      )
