-- ===== src/FakeTls.antt =====
-- proxy/fake_tls.py: the handshake of the TLS disguise. HMAC-SHA256, the random bytes and the
-- X25519 public key are parameters; `now` is `int(time.time())`.
pub mod Hello
pub mod Answer
pub mod Probe
pub mod Wrap
pub mod ClientHello
pub mod Stream
use hide_self_tgws.Base.{
  ℕ, zero, suc, ◌+◌, ◌-◌, ◌≤◌, min, max, bit_xor, Bool, true, false, not, ◌&&◌, ◌||◌, Option, none,
  some, List, [], ◌∷◌, ◌++◌, length, get_elem?, take, drop, slice, join, replicate, ltb, leb, ◌==◌,
  if◌then◌else◌, Result, ok, err, stuck, ◌>>=◌,
}
use hide_self_tgws.Base.Bytes.{from_bytes_little, to_bytes_big, byte_at, unpack_h_big}
use hide_self_tgws.Base.Dict.{◌=?◌, nat_eq, lookup, contains}

abbrev pub tls_record_handshake : ℕ
tls_record_handshake = 0x16

abbrev pub tls_record_ccs : ℕ
tls_record_ccs = 0x14

abbrev pub tls_record_appdata : ℕ
tls_record_appdata = 0x17

abbrev pub client_random_offset : ℕ
client_random_offset = 11

abbrev pub client_random_len : ℕ
client_random_len = 32

abbrev pub session_id_offset : ℕ
session_id_offset = 44

abbrev pub session_id_len : ℕ
session_id_len = 32

abbrev pub timestamp_tolerance : ℕ
timestamp_tolerance = 120

abbrev pub tls_appdata_max : ℕ
tls_appdata_max = 16384

abbrev pub appdata_min : ℕ
appdata_min = 64

abbrev pub ext_key_share : ℕ
ext_key_share = 0x0033

abbrev pub group_x25519 : ℕ
group_x25519 = 0x001d

abbrev pub group_x25519mlkem768 : ℕ
group_x25519mlkem768 = 0x11ec

-- `data[i] == value`, for an index in range.
unfoldable pub byte_is : List ℕ → ℕ → ℕ → Bool
byte_is bytes i value = elim (get_elem? bytes i) [ none ↦ false | some b ↦ b == value ]

-- `hmac.compare_digest`
unfoldable pub compare_digest : List ℕ → List ℕ → Bool
compare_digest [] [] = true
compare_digest [] (b ∷ bs) = false
compare_digest (a ∷ as_) [] = false
compare_digest (a ∷ as_) (b ∷ bs) = a == b && compare_digest as_ bs

unfoldable pub xor_bytes : List ℕ → List ℕ → List ℕ
xor_bytes [] bs = []
xor_bytes (a ∷ as_) [] = []
xor_bytes (a ∷ as_) (b ∷ bs) = bit_xor a b ∷ xor_bytes as_ bs

-- `abs(a - b)`
unfoldable pub distance : ℕ → ℕ → ℕ
distance a b = (a - b) + (b - a)

-- The client random replaced by zeros.
unfoldable pub zero_random : List ℕ → List ℕ
zero_random bytes =
    take client_random_offset bytes
    ++ replicate client_random_len 0
    ++ drop (client_random_offset + client_random_len) bytes

module _ (hmac : List ℕ → List ℕ → List ℕ) where
  unfoldable pub verify_client_hello : ℕ → List ℕ → List ℕ → Option (List ℕ × List ℕ × ℕ)
  verify_client_hello now bytes secret =
      let n = length bytes in
      let client_random =
        slice client_random_offset (client_random_offset + client_random_len) bytes in
      let expected = hmac secret (zero_random bytes) in
      let timestamp =
        from_bytes_little (xor_bytes (drop 28 client_random) (take 4 (drop 28 expected))) in
      let session_id =
        (if leb (session_id_offset + session_id_len) n && byte_is bytes 43 0x20
          then slice session_id_offset (session_id_offset + session_id_len) bytes
          else replicate session_id_len 0) in
      if ltb n 43 || not (byte_is bytes 0 tls_record_handshake) || not (byte_is bytes 5 0x01)
      then none
      else if not (compare_digest (take 28 expected) (take 28 client_random))
      then none
      else if ltb timestamp_tolerance (distance now timestamp)
      then none
      else some (client_random, session_id, timestamp)

pub record ClientHelloInfo : Type 0 where
  pub cipher_suites : List ℕ
  -- Named group and length of its key exchange.
  pub key_shares : List (ℕ × ℕ)

abbrev pub empty_hello_info : ClientHelloInfo
empty_hello_info = record { cipher_suites = []; key_shares = [] }

unfoldable pub select_cipher_suite : ClientHelloInfo → ℕ
select_cipher_suite info =
    if contains info.cipher_suites 0x1301
    then 0x1301
    else if contains info.cipher_suites 0x1303
    then 0x1303
    else if contains info.cipher_suites 0x1302
    then 0x1302
    else 0x1301

-- The key share's group and bytes: `ciphertext` stands for `os.urandom(1088)` and `public_key` for
-- the X25519 key.
unfoldable pub server_key_share : ClientHelloInfo → List ℕ → List ℕ → ℕ × List ℕ
server_key_share info ciphertext public_key =
    if elim (lookup group_x25519mlkem768 info.key_shares) [ none ↦ false | some n ↦ n == 1216 ]
    then (group_x25519mlkem768, ciphertext ++ public_key)
    else (group_x25519, public_key)

unfoldable pub server_extensions : ℕ × List ℕ → List ℕ
server_extensions share =
    to_bytes_big 2 0x002b
    ++ to_bytes_big 2 2
    ++ to_bytes_big 2 0x0304
    ++ to_bytes_big 2 ext_key_share
    ++ to_bytes_big 2 (4 + length share.1)
    ++ to_bytes_big 2 share.0
    ++ to_bytes_big 2 (length share.1)
    ++ share.1

unfoldable pub server_body : List ℕ → ClientHelloInfo → ℕ × List ℕ → List ℕ
server_body session_id info share =
    3
    ∷ 3
    ∷ (replicate 32 0
        ++ (length session_id ∷ session_id)
        ++ to_bytes_big 2 (select_cipher_suite info)
        ++ (0 ∷ [])
        ++ to_bytes_big 2 (length (server_extensions share))
        ++ server_extensions share)

-- A TLS record: type, version 1.2, length, payload.
unfoldable pub tls_record : ℕ → List ℕ → List ℕ
tls_record rtype payload = rtype ∷ 3 ∷ 3 ∷ (to_bytes_big 2 (length payload) ++ payload)

-- The three records with the server random still zero; `appdata` are the random bytes of the last.
-- Lengths are those of a hello that was parsed, which fit their fields; `struct.pack` raises on
-- longer ones, where the bytes here are cut off.
unfoldable pub server_response : List ℕ → ClientHelloInfo → ℕ × List ℕ → List ℕ → List ℕ
server_response session_id info share appdata =
    let body = server_body session_id info share in
    tls_record tls_record_handshake (2 ∷ (to_bytes_big 3 (length body) ++ body))
    ++ (0x14 ∷ 3 ∷ 3 ∷ 0 ∷ 1 ∷ 1 ∷ [])
    ++ tls_record tls_record_appdata appdata

module _ (hmac : List ℕ → List ℕ → List ℕ) where
  unfoldable pub build_server_hello :
      List ℕ → List ℕ → List ℕ → ClientHelloInfo → List ℕ → List ℕ → List ℕ → List ℕ
  build_server_hello secret client_random session_id info ciphertext public_key appdata =
      let response =
        server_response session_id info (server_key_share info ciphertext public_key) appdata in
      let server_random = hmac secret (client_random ++ response) in
      take 11 response ++ server_random ++ drop (11 + 32) response

unfoldable pub set_profiled_appdata_len : Option ℕ → Option ℕ
set_profiled_appdata_len none = none
set_profiled_appdata_len (some length_) = some (max appdata_min (min length_ tls_appdata_max))

-- The loop of `first_appdata_record_len` from position `pos`; each round moves on by five bytes at
-- least, so that one round per byte is enough.
unfoldable pub appdata_loop : ℕ → ℕ → List ℕ → Result (Option ℕ)
appdata_loop zero pos bytes = err stuck
appdata_loop (suc fuel) pos bytes = if ltb (length bytes) (pos + 5) then ok none else (do
  rtype ← byte_at bytes pos
  rec_len ← unpack_h_big bytes (pos + 3)
  elim (rtype == tls_record_appdata) [
    | true ↦ ok (some rec_len)
    | false ↦ elim (rtype == tls_record_handshake || rtype == tls_record_ccs) [
      | false ↦ ok (some 0)
      | true ↦ appdata_loop fuel (pos + (5 + rec_len)) bytes
    ]
  ])

unfoldable pub first_appdata_record_len : List ℕ → Result (Option ℕ)
first_appdata_record_len bytes = appdata_loop (suc (length bytes)) 0 bytes

-- The loop of `wrap_tls_record` from an offset: the records, each on its own. A round takes a byte
-- at least.
unfoldable pub wrap_loop : ℕ → ℕ → List ℕ → Result (List (List ℕ))
wrap_loop zero offset bytes = err stuck
wrap_loop (suc fuel) offset bytes =
    let chunk = slice offset (offset + tls_appdata_max) bytes in
    elim (ltb offset (length bytes)) [
      | false ↦ ok []
      | true ↦ do
        parts ← wrap_loop fuel (offset + length chunk) bytes
        ok (tls_record tls_record_appdata chunk ∷ parts)
    ]

unfoldable pub wrap_tls_record : List ℕ → Result (List ℕ)
wrap_tls_record bytes = do parts ← wrap_loop (suc (length bytes)) 0 bytes; ok (join parts)
