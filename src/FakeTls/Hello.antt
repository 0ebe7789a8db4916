-- ===== src/FakeTls/Hello.antt =====
-- Which ClientHellos `verify_client_hello` accepts.
use hide_self_tgws.Base.{
  ℕ, suc, ◌^◌, ◌≤◌, ◌<◌, true, false, some, List, [], ◌∷◌, ◌++◌, length, get_elem?, take, drop,
  slice, replicate, ltb, leb, ◌≡◌, refl, sym, ◌∙◌, ap, ap₂, drop-drop, arith, length-append,
  length-take, length-drop, take_append_self, drop_append_self, take_of_length-le, get_elem?-drop,
  get_elem?_append_left,
}
use hide_self_tgws.Base.Bits.{bit_xor-cancel}
use hide_self_tgws.Base.Bytes.{
  from_bytes_little, to_bytes_little, length-to_bytes_little, from_bytes_little-to_bytes_little,
}
use hide_self_tgws.FakeTls.{
  tls_record_handshake, timestamp_tolerance, byte_is, compare_digest, xor_bytes, distance,
  zero_random, verify_client_hello,
}

compare_digest_self : (xs : List ℕ) → compare_digest xs xs ≡ true
unfolding compare_digest
compare_digest_self [] = refl
compare_digest_self (x ∷ xs) = ground (arith, compare_digest_self xs)

compare_digest_sound : (xs ys : List ℕ) → compare_digest xs ys ≡ true → xs ≡ ys
unfolding compare_digest
compare_digest_sound [] [] h = refl
compare_digest_sound [] (y ∷ ys) h = absurd (unfold compare_digest in cc)
compare_digest_sound (x ∷ xs) [] h = absurd (unfold compare_digest in cc)
compare_digest_sound (x ∷ xs) (y ∷ ys) h =
    let same : x ≡ y = unfold compare_digest in ground (arith, h) in
    let rest : compare_digest xs ys ≡ true = unfold compare_digest in ground (arith, h) in
    cc (same, compare_digest_sound xs ys rest)

xor_bytes-cancel : (ts ds : List ℕ) → length ds ≡ length ts → xor_bytes (xor_bytes ts ds) ds ≡ ts
unfolding xor_bytes
xor_bytes-cancel [] [] h = refl
xor_bytes-cancel [] (d ∷ ds) h = absurd (omega arith)
xor_bytes-cancel (t ∷ ts) [] h = absurd (omega arith)
xor_bytes-cancel (t ∷ ts) (d ∷ ds) h =
    ap₂ ◌∷◌ (bit_xor-cancel t d) (xor_bytes-cancel ts ds (omega arith))

length-xor_bytes : (ds ts : List ℕ) → length ts ≡ length ds → length (xor_bytes ds ts) ≡ length ds
unfolding xor_bytes
length-xor_bytes [] [] h = refl
length-xor_bytes [] (t ∷ ts) h = absurd (omega arith)
length-xor_bytes (d ∷ ds) [] h = absurd (omega arith)
length-xor_bytes (d ∷ ds) (t ∷ ts) h = ap suc (length-xor_bytes ds ts (omega arith))

module _ (prefix random suffix : List ℕ) (hp : length prefix ≡ 11) (hr : length random ≡ 32) where
  pub drop_prefix : drop 11 (prefix ++ (random ++ suffix)) ≡ random ++ suffix
  drop_prefix = drop_append_self 11 prefix (random ++ suffix) hp

  pub zero_random-append :
      zero_random (prefix ++ (random ++ suffix)) ≡ prefix ++ replicate 32 0 ++ suffix
  unfolding zero_random
  zero_random-append =
      let dropped : drop 43 (prefix ++ (random ++ suffix)) ≡ suffix =
        sym (drop-drop 11 32 43 (prefix ++ (random ++ suffix)) refl)
        ∙ ap (drop 32) drop_prefix
        ∙ drop_append_self 32 random suffix hr in
      rw (take_append_self 11 prefix (random ++ suffix) hp, dropped) refl

  pub slice-random : slice 11 43 (prefix ++ (random ++ suffix)) ≡ random
  unfolding slice
  slice-random = ap (take 32) drop_prefix ∙ take_append_self 32 random suffix hr

byte_is_append_left :
    (xs ys : List ℕ) (i v : ℕ) → i < length xs → byte_is (xs ++ ys) i v ≡ byte_is xs i v
unfolding byte_is
byte_is_append_left xs ys i v h = ground (arith, get_elem?_append_left xs ys i h)

byte_is-drop : (i v : ℕ) (xs ys : List ℕ) → drop i xs ≡ v ∷ ys → byte_is xs i v ≡ true
unfolding byte_is
byte_is-drop i v xs ys e =
    let at : get_elem? xs i ≡ some v =
      sym (get_elem?-drop i 0 i xs (omega arith)) ∙ ap (λ zs. get_elem? zs 0) e in
    ground (arith, at)

module _ (hmac : List ℕ → List ℕ → List ℕ) where
  -- What is accepted carries the HMAC of the hello, with its random zeroed, in the first 28 bytes
  -- of the random, and a time at most two minutes off; the random is returned as it was sent.
  pub verify_client_hello_sound :
      (now : ℕ) (hello secret random session_id : List ℕ) (timestamp : ℕ)
      → verify_client_hello hmac now hello secret ≡ some (random, session_id, timestamp)
      → (random ≡ slice 11 43 hello)
        × (take 28 (hmac secret (zero_random hello)) ≡ take 28 random)
        × (distance now timestamp ≤ timestamp_tolerance)
        × (timestamp
            ≡ from_bytes_little
                (xor_bytes (drop 28 random) (take 4 (drop 28 (hmac secret (zero_random hello))))))
  verify_client_hello_sound now hello secret random session_id timestamp accepted =
      let expected = hmac secret (zero_random hello) in
      let random_sent = slice 11 43 hello in
      let same_random : random ≡ random_sent =
        unfold verify_client_hello in ground (arith, accepted) in
      let digest_ok : compare_digest (take 28 expected) (take 28 random_sent) ≡ true =
        unfold verify_client_hello in ground (arith, accepted) in
      let close : distance now timestamp ≤ timestamp_tolerance =
        unfold verify_client_hello in ground (arith, accepted) in
      let time : timestamp
          ≡ from_bytes_little (xor_bytes (drop 28 random_sent) (take 4 (drop 28 expected))) =
        unfold verify_client_hello in ground (arith, accepted) in
      (
        same_random,
        compare_digest_sound (take 28 expected) (take 28 random_sent) digest_ok
            ∙ ap (take 28) (sym same_random),
        close,
        time
            ∙ ap (λ r. from_bytes_little (xor_bytes (drop 28 r) (take 4 (drop 28 expected))))
                (sym same_random),
      )

  accepts :
      (now : ℕ) (hello secret random digest session_id : List ℕ) (timestamp : ℕ)
      → 76 ≤ length hello
      → byte_is hello 0 tls_record_handshake ≡ true
      → byte_is hello 5 1 ≡ true
      → byte_is hello 43 0x20 ≡ true
      → slice 11 43 hello ≡ random
      → slice 44 76 hello ≡ session_id
      → hmac secret (zero_random hello) ≡ digest
      → compare_digest (take 28 digest) (take 28 random) ≡ true
      → from_bytes_little (xor_bytes (drop 28 random) (take 4 (drop 28 digest))) ≡ timestamp
      → distance now timestamp ≤ timestamp_tolerance
      → verify_client_hello hmac now hello secret ≡ some (random, session_id, timestamp)
  unfolding verify_client_hello
  accepts now hello secret random digest session_id timestamp long first sixth marker sl sid zr same
        time close =
      let not_short : ltb (length hello) 43 ≡ false = ground (arith, long) in
      let long_enough : leb 76 (length hello) ≡ true = ground (arith, long) in
      let close_enough : ltb timestamp_tolerance (distance now timestamp) ≡ false =
        ground (arith, close) in
      rw
        (
          verify_client_hello, zr, sl, sid, first, sixth, marker, same, time, not_short,
          long_enough, close_enough,
        )
        refl

  -- The random of a client that knows the secret: the HMAC of the hello with zeros in its place,
  -- the last four bytes mixed with the client's clock.
  abbrev pub client_random_for : List ℕ → List ℕ → List ℕ → ℕ → List ℕ
  client_random_for secret prefix suffix timestamp =
      let digest = hmac secret (prefix ++ replicate 32 0 ++ suffix) in
      take 28 digest ++ xor_bytes (to_bytes_little 4 timestamp) (drop 28 digest)

  -- A client that knows the secret is accepted when its clock is at most two minutes off, and the
  -- server reads back the random, the session id and the clock's time: for a handshake record that
  -- starts with 11 bytes of headers, goes on with that random and a session id of 32 bytes, and
  -- ends in any way, with an HMAC of 32 bytes.
  pub verify_client_hello_complete :
      (now : ℕ) (secret prefix session_id rest : List ℕ) (timestamp : ℕ)
      → length prefix ≡ 11
      → byte_is prefix 0 tls_record_handshake ≡ true
      → byte_is prefix 5 1 ≡ true
      → length session_id ≡ 32
      → ((key message : List ℕ) → length (hmac key message) ≡ 32)
      → timestamp < 2 ^ 32
      → distance now timestamp ≤ timestamp_tolerance
      → let suffix = 0x20 ∷ (session_id ++ rest) in
        let random = client_random_for secret prefix suffix timestamp in
        verify_client_hello hmac now (prefix ++ (random ++ suffix)) secret
        ≡ some (random, session_id, timestamp)
  verify_client_hello_complete now secret prefix session_id rest timestamp hp first sixth hs
        digest_len small close =
      let suffix = 0x20 ∷ (session_id ++ rest) in
      let digest = hmac secret (prefix ++ replicate 32 0 ++ suffix) in
      let tail = xor_bytes (to_bytes_little 4 timestamp) (drop 28 digest) in
      let random = client_random_for secret prefix suffix timestamp in
      let hello = prefix ++ (random ++ suffix) in
      let four : length (drop 28 digest) ≡ length (to_bytes_little 4 timestamp) = omega (
        arith,
        length-drop 28 digest,
        digest_len secret (prefix ++ replicate 32 0 ++ suffix),
        length-to_bytes_little 4 timestamp,
      ) in
      let head_len : length (take 28 digest) ≡ 28 =
        omega
          (arith, length-take 28 digest, digest_len secret (prefix ++ replicate 32 0 ++ suffix)) in
      let hr : length random ≡ 32 = omega (
        arith,
        length-append (take 28 digest) tail,
        head_len,
        length-xor_bytes (to_bytes_little 4 timestamp) (drop 28 digest) four,
        length-to_bytes_little 4 timestamp,
      ) in
      let headed : take 28 random ≡ take 28 digest =
        take_append_self 28 (take 28 digest) tail head_len in
      let tailed : drop 28 random ≡ tail = drop_append_self 28 (take 28 digest) tail head_len in
      let last_four : take 4 (drop 28 digest) ≡ drop 28 digest =
        take_of_length-le 4 (drop 28 digest)
          (omega (arith, four, length-to_bytes_little 4 timestamp)) in
      let time : from_bytes_little (xor_bytes (drop 28 random) (take 4 (drop 28 digest)))
          ≡ timestamp =
        ap₂ (λ a b. from_bytes_little (xor_bytes a b)) tailed last_four
        ∙ ap from_bytes_little
            (xor_bytes-cancel (to_bytes_little 4 timestamp) (drop 28 digest) four)
        ∙ from_bytes_little-to_bytes_little 4 timestamp small in
      let behind : drop 43 hello ≡ suffix =
        sym (drop-drop 11 32 43 hello refl)
        ∙ ap (drop 32) (drop_prefix prefix random suffix hp hr)
        ∙ drop_append_self 32 random suffix hr in
      let behind_length : drop 44 hello ≡ session_id ++ rest =
        sym (drop-drop 43 1 44 hello refl) ∙ ap (drop 1) behind ∙ (unfold drop in refl) in
      let sid : slice 44 76 hello ≡ session_id =
        unfold slice in ap (take 32) behind_length ∙ take_append_self 32 session_id rest hs in
      let marker : byte_is hello 43 0x20 ≡ true =
        byte_is-drop 43 0x20 hello (session_id ++ rest) behind in
      let at_start : (i v : ℕ) → i < 11 → byte_is hello i v ≡ byte_is prefix i v =
        λ i v h. byte_is_append_left prefix (random ++ suffix) i v (omega (arith, h, hp)) in
      let long : 76 ≤ length hello = omega (
        arith,
        length-append prefix (random ++ suffix),
        length-append random suffix,
        hp,
        hr,
        length-append session_id rest,
        hs,
      ) in
      accepts now hello secret random digest session_id timestamp long
        (at_start 0 tls_record_handshake (omega arith) ∙ first) (at_start 5 1 (omega arith) ∙ sixth)
        marker (slice-random prefix random suffix hp hr) sid
        (ap (hmac secret) (zero_random-append prefix random suffix hp hr))
        (ap (compare_digest (take 28 digest)) headed ∙ compare_digest_self (take 28 digest)) time
        close
