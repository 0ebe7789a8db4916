-- ===== src/FakeTls/Answer.antt =====
-- What the answer to a ClientHello looks like to the client.
use hide_self_tgws.Base.{
  ℕ, List, [], ◌∷◌, ◌++◌, length, take, drop, slice, replicate, ◌≡◌, refl, sym, ◌∙◌, ap, ap₂, arith,
  length-append, length-replicate, append_assoc, drop-drop, take_append_self, drop_append_self,
}
use hide_self_tgws.Base.Bytes.{to_bytes_big, length-to_bytes_big}
use hide_self_tgws.FakeTls.{
  ClientHelloInfo, server_key_share, server_extensions, server_body, server_response, tls_record,
  select_cipher_suite, zero_random, build_server_hello,
}
use hide_self_tgws.FakeTls.Hello.{drop_prefix, zero_random-append, slice-random}

-- The headers in front of the server random: for a message and a body of `m` and `n` bytes.
server_prefix : ℕ → ℕ → List ℕ
server_prefix m n = 22 ∷ 3 ∷ 3 ∷ (to_bytes_big 2 m ++ (2 ∷ (to_bytes_big 3 n ++ (3 ∷ 3 ∷ []))))

length-server_prefix : (m n : ℕ) → length (server_prefix m n) ≡ 11
unfolding server_prefix
length-server_prefix m n = omega (
  arith,
  length-append (to_bytes_big 2 m) (2 ∷ (to_bytes_big 3 n ++ (3 ∷ 3 ∷ []))),
  length-append (to_bytes_big 3 n) (3 ∷ 3 ∷ []),
  length-to_bytes_big 2 m,
  length-to_bytes_big 3 n,
)

-- The body after its 32 zeros.
body_tail : List ℕ → ClientHelloInfo → ℕ × List ℕ → List ℕ
body_tail session_id info share =
    length session_id
    ∷ (session_id
        ++ (to_bytes_big 2 (select_cipher_suite info)
            ++ (0
                ∷ (to_bytes_big 2 (length (server_extensions share)) ++ server_extensions share))))

server_body-zeros :
    (session_id : List ℕ) (info : ClientHelloInfo) (share : ℕ × List ℕ)
    → server_body session_id info share
      ≡ 3 ∷ 3 ∷ (replicate 32 0 ++ body_tail session_id info share)
unfolding server_body body_tail
server_body-zeros session_id info share = simp (append_assoc)

nested :
    (a b zeros tail ccs app : List ℕ)
    → (22 ∷ 3 ∷ 3 ∷ (a ++ (2 ∷ (b ++ (3 ∷ 3 ∷ (zeros ++ tail)))))) ++ ccs ++ app
      ≡ (22 ∷ 3 ∷ 3 ∷ (a ++ (2 ∷ (b ++ (3 ∷ 3 ∷ []))))) ++ (zeros ++ (tail ++ (ccs ++ app)))
nested a b zeros tail ccs app = simp (append_assoc)

server_response-zeros :
    (session_id : List ℕ) (info : ClientHelloInfo) (share : ℕ × List ℕ) (appdata : List ℕ)
    → (prefix : List ℕ) × (rest : List ℕ) × (length prefix ≡ 11)
      × (server_response session_id info share appdata ≡ prefix ++ (replicate 32 0 ++ rest))
unfolding server_response tls_record server_prefix
server_response-zeros session_id info share appdata =
    let body = server_body session_id info share in
    let message = 2 ∷ (to_bytes_big 3 (length body) ++ body) in
    let rest =
      body_tail session_id info share
      ++ ((0x14 ∷ 3 ∷ 3 ∷ 0 ∷ 1 ∷ 1 ∷ []) ++ tls_record 23 appdata) in
    (
      server_prefix (length message) (length body),
      rest,
      length-server_prefix (length message) (length body),
      ap
            (λ x.
              (22
                ∷ 3
                ∷ 3
                ∷ (to_bytes_big 2 (length message) ++ (2 ∷ (to_bytes_big 3 (length body) ++ x))))
              ++ (0x14 ∷ 3 ∷ 3 ∷ 0 ∷ 1 ∷ 1 ∷ [])
              ++ tls_record 23 appdata)
            (server_body-zeros session_id info share)
          ∙ nested (to_bytes_big 2 (length message)) (to_bytes_big 3 (length body)) (replicate 32 0)
              (body_tail session_id info share) (0x14 ∷ 3 ∷ 3 ∷ 0 ∷ 1 ∷ 1 ∷ [])
              (tls_record 23 appdata),
    )

-- The client's check succeeds: the 32 bytes at offset 11 of the answer are the HMAC of the client
-- random followed by the answer with zeros in their place, for an HMAC of 32 bytes.
pub build_server_hello-hmac :
    (hmac : List ℕ → List ℕ → List ℕ) (secret client_random session_id : List ℕ)
    (info : ClientHelloInfo) (ciphertext public_key appdata : List ℕ)
    → ((key message : List ℕ) → length (hmac key message) ≡ 32)
    → let answer =
        build_server_hello hmac secret client_random session_id info ciphertext public_key
          appdata in
      slice 11 43 answer ≡ hmac secret (client_random ++ zero_random answer)
unfolding build_server_hello
build_server_hello-hmac hmac secret client_random session_id info ciphertext public_key appdata
      digest_len =
    let share = server_key_share info ciphertext public_key in
    let response = server_response session_id info share appdata in
    let (prefix, rest, hp, shape) = server_response-zeros session_id info share appdata in
    let digest = hmac secret (client_random ++ response) in
    let hr = digest_len secret (client_random ++ response) in
    let zeros : length (replicate 32 0) ≡ 32 = length-replicate 32 0 in
    let before : take 11 response ≡ prefix =
      ap (take 11) shape ∙ take_append_self 11 prefix (replicate 32 0 ++ rest) hp in
    let behind : drop 43 response ≡ rest =
      ap (drop 43) shape
      ∙ sym (drop-drop 11 32 43 (prefix ++ (replicate 32 0 ++ rest)) refl)
      ∙ ap (drop 32) (drop_prefix prefix (replicate 32 0) rest hp zeros)
      ∙ drop_append_self 32 (replicate 32 0) rest zeros in
    let answer : take 11 response ++ digest ++ drop 43 response ≡ prefix ++ (digest ++ rest) =
      ap₂ (λ a b. a ++ digest ++ b) before behind ∙ append_assoc prefix digest rest in
    let sent : slice 11 43 (take 11 response ++ digest ++ drop 43 response) ≡ digest =
      ap (slice 11 43) answer ∙ slice-random prefix digest rest hp hr in
    let zeroed : zero_random (take 11 response ++ digest ++ drop 43 response) ≡ response =
      ap zero_random answer
      ∙ zero_random-append prefix digest rest hp hr
      ∙ append_assoc prefix (replicate 32 0) rest
      ∙ sym shape in
    sent ∙ ap (λ r. hmac secret (client_random ++ r)) (sym zeroed)
