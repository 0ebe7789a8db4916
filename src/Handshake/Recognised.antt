-- ===== src/Handshake/Recognised.antt =====
-- A client that knows the secret is recognised.
use hide_self_tgws.Base.{
  ℕ, true, some, List, [], ◌∷◌, ◌++◌, length, take, drop, slice, ok, ◌≡◌, refl, sym, ap, ◌∙◌, arith,
  length-append, append_assoc, take_append_self, drop_append_self, drop-drop, length-drop,
}
use hide_self_tgws.Base.Bytes.{IsBytes, to_bytes_big, from_bytes_big, to_bytes_big-from_bytes_big}
use hide_self_tgws.Base.Dict.{contains, bytes_eq}
use hide_self_tgws.Base.Integers.{
  ℤ, abs, is_negative, from_bytes_little_signed, pack_h_little,
  from_bytes_little_signed-pack_h_little,
}
use hide_self_tgws.Cipher.{update, xor_stream, xor_stream-cancel, drop-xor_stream}
use hide_self_tgws.Handshake.{proto_tags, try_handshake}
use hide_self_tgws.Handshake.Peers.{client_up, client_init}

-- The last bytes of an opening whose tail is encrypted at its place in the keystream.
pub drop-xor_stream_tail :
    (stream : ℕ → ℕ) (start middle tail : List ℕ)
    → length start ≡ 8
    → length middle ≡ 48
    → drop 56 (xor_stream stream 0 (start ++ (middle ++ xor_stream stream 56 tail))) ≡ tail
drop-xor_stream_tail stream start middle tail hs hm =
    drop-xor_stream stream 56 0 (start ++ (middle ++ xor_stream stream 56 tail))
    ∙ ap (xor_stream stream 56) (
        ap (drop 56) (sym (append_assoc start middle (xor_stream stream 56 tail)))
        ∙ drop_append_self 56 (start ++ middle) (xor_stream stream 56 tail)
            (omega (arith, hs, hm, length-append start middle)))
    ∙ xor_stream-cancel stream 56 tail

pub slice-prekey_iv :
    (start prekey_iv rest : List ℕ)
    → length start ≡ 8
    → length prekey_iv ≡ 48
    → slice 8 56 (start ++ (prekey_iv ++ rest)) ≡ prekey_iv
unfolding slice
slice-prekey_iv start prekey_iv rest hs hp =
    ap (take 48) (drop_append_self 8 start (prekey_iv ++ rest) hs)
    ∙ take_append_self 48 prekey_iv rest hp

-- The fields of the last eight bytes.
tag_field :
    (decrypted tag dc_bytes random_tail : List ℕ)
    → drop 56 decrypted ≡ tag ++ (dc_bytes ++ random_tail)
    → length tag ≡ 4
    → slice 56 60 decrypted ≡ tag
unfolding slice
tag_field decrypted tag dc_bytes random_tail e h =
    ap (take 4) e ∙ take_append_self 4 tag (dc_bytes ++ random_tail) h

dc_field :
    (decrypted tag dc_bytes random_tail : List ℕ)
    → drop 56 decrypted ≡ tag ++ (dc_bytes ++ random_tail)
    → length tag ≡ 4
    → length dc_bytes ≡ 2
    → slice 60 62 decrypted ≡ dc_bytes
unfolding slice
dc_field decrypted tag dc_bytes random_tail e h h2 =
    ap (take 2) (
      sym (drop-drop 56 4 60 decrypted refl)
      ∙ ap (drop 4) e
      ∙ drop_append_self 4 tag (dc_bytes ++ random_tail) h)
    ∙ take_append_self 2 dc_bytes random_tail h2

pub length_proto_tag : (tag : List ℕ) → contains proto_tags tag ≡ true → length tag ≡ 4
unfolding contains
length_proto_tag tag h = ground (arith, bytes_eq.beq_iff (0xEF ∷ 0xEF ∷ 0xEF ∷ 0xEF ∷ []) tag)

module _ (keystream : List ℕ → List ℕ → ℕ → ℕ) (sha256 : List ℕ → List ℕ) (secret : List ℕ) where
  try_handshake_accepts :
      (handshake prekey_iv tag : List ℕ) (dc_idx : ℤ)
      → slice 8 56 handshake ≡ prekey_iv
      → to_bytes_big 16 (from_bytes_big (drop 32 prekey_iv)) ≡ drop 32 prekey_iv
      → slice 56 60 (xor_stream (client_up keystream sha256 secret prekey_iv) 0 handshake) ≡ tag
      → from_bytes_little_signed
          (slice 60 62 (xor_stream (client_up keystream sha256 secret prekey_iv) 0 handshake))
        ≡ dc_idx
      → contains proto_tags tag ≡ true
      → try_handshake keystream sha256 handshake secret
        ≡ some (abs dc_idx, is_negative dc_idx, tag, prekey_iv)
  unfolding try_handshake update
  try_handshake_accepts handshake prekey_iv tag dc_idx at_8 iv_same at_56 at_60 known =
      rw (try_handshake, at_8, iv_same, at_56, at_60, known) refl

  -- For any keystream and hash, and any client that opens with eight bytes, 48 bytes of prekey and
  -- iv, and then under its keystream one of the three transport tags, a DC number that fits 16 bits
  -- with sign, and a tail: the proxy with the same secret reads back the number's magnitude and
  -- sign, the tag, and the prekey and iv.
  pub try_handshake-client_init :
      (start prekey_iv tag dc_bytes random_tail : List ℕ) (dc_idx : ℤ)
      → length start ≡ 8
      → length prekey_iv ≡ 48
      → IsBytes (drop 32 prekey_iv)
      → contains proto_tags tag ≡ true
      → pack_h_little dc_idx ≡ ok dc_bytes
      → try_handshake keystream sha256
          (client_init keystream sha256 secret start prekey_iv tag dc_bytes random_tail)
          secret
        ≡ some (abs dc_idx, is_negative dc_idx, tag, prekey_iv)
  try_handshake-client_init start prekey_iv tag dc_bytes random_tail dc_idx hs hp hb ht hd =
      let stream = client_up keystream sha256 secret prekey_iv in
      let sealed = xor_stream stream 56 (tag ++ (dc_bytes ++ random_tail)) in
      let init = start ++ (prekey_iv ++ sealed) in
      let (dc_same, dc_two) = from_bytes_little_signed-pack_h_little dc_idx dc_bytes hd in
      let four = length_proto_tag tag ht in
      let tail =
        drop-xor_stream_tail stream start prekey_iv (tag ++ (dc_bytes ++ random_tail)) hs hp in
      let decrypted = xor_stream stream 0 init in
      let sixteen : length (drop 32 prekey_iv) ≡ 16 = omega (arith, length-drop 32 prekey_iv, hp) in
      unfold client_init in
      try_handshake_accepts init prekey_iv tag dc_idx (slice-prekey_iv start prekey_iv sealed hs hp)
        (rw sixteen at (to_bytes_big-from_bytes_big (drop 32 prekey_iv) hb))
        (tag_field decrypted tag dc_bytes random_tail tail four)
        (ap from_bytes_little_signed (dc_field decrypted tag dc_bytes random_tail tail four dc_two)
          ∙ dc_same)
        ht
