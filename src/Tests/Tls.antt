-- ===== src/Tests/Tls.antt =====
-- The handshake of the TLS disguise on concrete inputs, with a stand-in for the HMAC.
use hide_self_tgws.Base.{
  ℕ, ◌≤◌, Option, some, List, [], ◌∷◌, ◌++◌, length, take, drop, slice, replicate, ok, ◌≡◌, refl,
  arith, length-replicate,
}
use hide_self_tgws.Base.Bytes.{
  from_bytes_little, byte_at, unpack_h_big, from_bytes_big, from_bytes_big_acc,
}
use hide_self_tgws.FakeTls.{
  byte_is, distance, zero_random, xor_bytes, verify_client_hello, build_server_hello,
  empty_hello_info, appdata_loop, first_appdata_record_len,
}
use hide_self_tgws.FakeTls.Hello.{
  verify_client_hello_complete, verify_client_hello_sound, client_random_for,
}
use hide_self_tgws.FakeTls.Answer.{build_server_hello-hmac}
use hide_self_tgws.FakeTls.{tls_record, wrap_tls_record}
use hide_self_tgws.FakeTls.Wrap.{FitsRecord, wrap_tls_record_lem}
use hide_self_tgws.Base.{All, join, map}
use hide_self_tgws.FakeTls.Probe.{first_appdata_record_len-append}
use hide_self_tgws.Base.{◌⊎◌, true}
use hide_self_tgws.Base.Bytes.{to_bytes_big}
use hide_self_tgws.Base.Reader.{readexactly}
use hide_self_tgws.FakeTls.{ClientHelloInfo, compare_digest}
use hide_self_tgws.FakeTls.ClientHello.{hello_fields, parse_client_hello}
use hide_self_tgws.FakeTls.ClientHello.Total.{parse_client_hello_total}
use hide_self_tgws.FakeTls.Stream.{FakeTlsStream, new_stream, read_stream_exactly}
use hide_self_tgws.FakeTls.Stream.Records.{TlsRecord, appdata, change_cipher, wire_of, plain_of}
use hide_self_tgws.FakeTls.Stream.Reading.{Holds, Simulates, read_stream_exactly_lem}
use hide_self_tgws.Client.{HelloRandom, opened, tls_stream, read_client_init}
use hide_self_tgws.Client.Opening.{proxy_header, hello_record, read_client_init-tls}

abbrev hmac : List ℕ → List ℕ → List ℕ
hmac key message = replicate 32 (length key)

hmac-length : (key message : List ℕ) → length (hmac key message) ≡ 32
hmac-length key message = length-replicate 32 (length key)

abbrev record_headers : List ℕ
record_headers = 22 ∷ 3 ∷ 1 ∷ 2 ∷ 0 ∷ 1 ∷ 0 ∷ 1 ∷ 252 ∷ 3 ∷ 3 ∷ []

abbrev session_id : List ℕ
session_id = replicate 32 9

verify_client_hello_complete_example :
    let suffix = 0x20 ∷ (session_id ++ (19 ∷ 1 ∷ [])) in
    let random = client_random_for hmac (1 ∷ 2 ∷ []) record_headers suffix 1000 in
    verify_client_hello hmac 1050 (record_headers ++ (random ++ suffix)) (1 ∷ 2 ∷ [])
    ≡ some (random, session_id, 1000)
verify_client_hello_complete_example =
    verify_client_hello_complete hmac 1050 (1 ∷ 2 ∷ []) record_headers session_id (19 ∷ 1 ∷ []) 1000
      refl (unfold byte_is in refl) (unfold byte_is in refl) (length-replicate 32 9) hmac-length
      (omega arith) (unfold distance in omega arith)

build_server_hello-hmac_example :
    let answer =
      build_server_hello hmac
        (1 ∷ [])
        (4 ∷ [])
        session_id
        empty_hello_info
        []
        (replicate 32 5)
        (replicate 64 6) in
    slice 11 43 answer ≡ hmac (1 ∷ []) ((4 ∷ []) ++ zero_random answer)
build_server_hello-hmac_example =
    build_server_hello-hmac hmac (1 ∷ []) (4 ∷ []) session_id empty_hello_info [] (replicate 32 5)
      (replicate 64 6) hmac-length

-- A change of cipher specification and the header of an application record.
abbrev flight : List ℕ
flight = 20 ∷ 3 ∷ 3 ∷ 0 ∷ 1 ∷ 1 ∷ 23 ∷ 3 ∷ 3 ∷ 1 ∷ 0 ∷ []

flight_len : first_appdata_record_len flight ≡ ok (some 256)
unfolding first_appdata_record_len appdata_loop byte_at unpack_h_big slice take drop from_bytes_big
    from_bytes_big_acc
flight_len = refl

first_appdata_record_len-append_example :
    ((o : Option ℕ) × (first_appdata_record_len flight ≡ ok o))
    × ((n : ℕ) (ys : List ℕ)
        → first_appdata_record_len flight ≡ ok (some n)
        → first_appdata_record_len (flight ++ ys) ≡ ok (some n))
first_appdata_record_len-append_example = first_appdata_record_len-append flight

abbrev rest : List ℕ
rest = 0x20 ∷ (session_id ++ (19 ∷ 1 ∷ []))

abbrev sent_random : List ℕ
sent_random = client_random_for hmac (1 ∷ 2 ∷ []) record_headers rest 1000

abbrev hello : List ℕ
hello = record_headers ++ (sent_random ++ rest)

hello_accepted :
    verify_client_hello hmac 1050 hello (1 ∷ 2 ∷ []) ≡ some (sent_random, session_id, 1000)
hello_accepted =
    verify_client_hello_complete hmac 1050 (1 ∷ 2 ∷ []) record_headers session_id (19 ∷ 1 ∷ []) 1000
      refl (unfold byte_is in refl) (unfold byte_is in refl) (length-replicate 32 9) hmac-length
      (omega arith) (unfold distance in omega arith)

verify_client_hello_sound_example :
    (sent_random ≡ slice 11 43 hello)
    × (take 28 (hmac (1 ∷ 2 ∷ []) (zero_random hello)) ≡ take 28 sent_random)
    × (distance 1050 1000 ≤ 120)
    × (1000
        ≡ from_bytes_little (
            xor_bytes
              (drop 28 sent_random)
              (take 4 (drop 28 (hmac (1 ∷ 2 ∷ []) (zero_random hello))))))
verify_client_hello_sound_example =
    verify_client_hello_sound hmac 1050 hello (1 ∷ 2 ∷ []) sent_random session_id 1000
      hello_accepted

wrap_tls_record_lem_example :
    (chunks : List (List ℕ)) × (wrap_tls_record (1 ∷ 2 ∷ 3 ∷ [])
      ≡ ok (join (map (tls_record 23) chunks)))
    × (join chunks ≡ 1 ∷ 2 ∷ 3 ∷ [])
    × All FitsRecord chunks
wrap_tls_record_lem_example = wrap_tls_record_lem (1 ∷ 2 ∷ 3 ∷ [])

parse_client_hello_total_example :
    (info : ClientHelloInfo) × (parse_client_hello flight ≡ ok info)
    × ((hello_fields flight ≡ ok info) ⊎ (info ≡ empty_hello_info))
parse_client_hello_total_example = parse_client_hello_total flight

-- Two bytes of a record are to come, then a record that is skipped, a record with the rest, an empty
-- one, and one that is not read any more; one byte is buffered.
abbrev records : List TlsRecord
records = change_cipher (1 ∷ []) ∷ appdata (replicate 70 3) ∷ appdata [] ∷ appdata (5 ∷ []) ∷ []

abbrev half_read : FakeTlsStream
half_read = record { reader = (1 ∷ 2 ∷ []) ++ wire_of records; read_buf = 9 ∷ []; read_left = 2 }

abbrev carried : List ℕ
carried = (9 ∷ []) ++ ((1 ∷ 2 ∷ []) ++ plain_of records)

half_read-Holds : Holds half_read carried
half_read-Holds = record {
  rest = (1 ∷ 2 ∷ []) ++ plain_of records;
  pending = record {
    front = 1 ∷ 2 ∷ [];
    records = records;
    fits = (omega arith, (unfold replicate in omega arith, (omega arith, (omega arith, tt))));
    reader_is = refl;
    left_is = refl;
    plain_is = refl;
  };
  plain_is = refl;
}

abbrev arrived : List ℕ → ℕ
arrived bytes = 5

read_stream_exactly_lem_example :
    Simulates (readexactly 64 carried) (read_stream_exactly arrived 64 half_read)
read_stream_exactly_lem_example =
    read_stream_exactly_lem arrived 64 half_read carried half_read-Holds

-- A hello of 43 bytes, without a session id, and behind it a record with 70 bytes.
abbrev body : List ℕ
body = (1 ∷ 0 ∷ 0 ∷ 34 ∷ 3 ∷ 3 ∷ []) ++ replicate 32 2

abbrev behind : List TlsRecord
behind = appdata (replicate 70 3) ∷ []

abbrev parts : HelloRandom
parts = record { ciphertext = []; public_key = replicate 32 5; appdata = replicate 64 6 }

behind-Holds : Holds (new_stream (wire_of behind)) (replicate 64 3 ++ replicate 6 3)
unfolding replicate plain_of
behind-Holds = record {
  rest = plain_of behind;
  pending = record {
    front = [];
    records = behind;
    fits = (unfold replicate in omega arith, tt);
    reader_is = refl;
    left_is = refl;
    plain_is = refl;
  };
  plain_is = refl;
}

read_client_init-tls_example :
    (stream : FakeTlsStream) × (info : ClientHelloInfo) × (parse_client_hello
        (hello_record 3 1 body)
      ≡ ok info)
    × (read_client_init hmac arrived 0
          (1 ∷ 2 ∷ [])
          parts
          true
          true
          (proxy_header true (80 ∷ []) ++ (hello_record 3 1 body ++ wire_of behind))
        ≡ ok (
            opened (replicate 64 3) (tls_stream stream) (
              build_server_hello hmac
                (1 ∷ 2 ∷ [])
                (replicate 32 2)
                (replicate 32 0)
                info
                []
                (replicate 32 5)
                (replicate 64 6))))
    × Holds stream (replicate 6 3)
read_client_init-tls_example =
    read_client_init-tls hmac arrived 0 (1 ∷ 2 ∷ []) parts true (80 ∷ []) 3 1 body (wire_of behind)
      (replicate 32 2) (replicate 32 0) (replicate 64 3) (replicate 6 3) 0 (refl, tt)
      (unfold replicate in omega arith)
      (unfold verify_client_hello byte_is compare_digest zero_random xor_bytes distance slice take
          drop replicate from_bytes_little to_bytes_big in
        refl)
      behind-Holds (length-replicate 64 3)
