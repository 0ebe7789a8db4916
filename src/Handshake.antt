-- ===== src/Handshake.antt =====
-- proxy/tg_ws_proxy.py: the obfuscated handshakes, `_try_handshake`, `_generate_relay_init` and
-- `_build_crypto_ctx`, with the constants of proxy/utils.py. The cipher's keystream, SHA-256 and
-- the random bytes are parameters.
pub mod Peers
pub mod Recognised
pub mod Relay
use hide_self_tgws.Base.{
  ℕ, zero, suc, ◌+◌, Bool, true, false, not, ◌&&◌, ◌||◌, Option, none, some, List, [], ◌∷◌, ◌++◌,
  get_elem?, take, drop, slice, replicate, reverse, ◌==◌, if◌then◌else◌, Result, ok, err, stuck,
  ◌>>=◌,
}
use hide_self_tgws.Base.Bytes.{to_bytes_big, from_bytes_big}
use hide_self_tgws.Base.Dict.{◌=?◌, nat_eq, bytes_eq, contains}
use hide_self_tgws.Base.Integers.{ℤ, abs, is_negative, from_bytes_little_signed, pack_h_little}
use hide_self_tgws.Cipher.{Encryptor, encryptor, update}
use hide_self_tgws.FakeTls.{xor_bytes}

abbrev pub zero_64 : List ℕ
zero_64 = replicate 64 0

abbrev pub handshake_len : ℕ
handshake_len = 64

abbrev pub skip_len : ℕ
skip_len = 8

abbrev pub prekey_len : ℕ
prekey_len = 32

abbrev pub key_len : ℕ
key_len = 32

abbrev pub iv_len : ℕ
iv_len = 16

abbrev pub proto_tag_pos : ℕ
proto_tag_pos = 56

abbrev pub dc_idx_pos : ℕ
dc_idx_pos = 60

abbrev pub proto_tag_abridged : List ℕ
proto_tag_abridged = 0xEF ∷ 0xEF ∷ 0xEF ∷ 0xEF ∷ []

abbrev pub proto_tag_intermediate : List ℕ
proto_tag_intermediate = 0xEE ∷ 0xEE ∷ 0xEE ∷ 0xEE ∷ []

abbrev pub proto_tag_secure : List ℕ
proto_tag_secure = 0xDD ∷ 0xDD ∷ 0xDD ∷ 0xDD ∷ []

abbrev pub proto_tags : List (List ℕ)
proto_tags = proto_tag_abridged ∷ proto_tag_intermediate ∷ proto_tag_secure ∷ []

abbrev pub reserved_first_bytes : List ℕ
reserved_first_bytes = 0xEF ∷ []

abbrev pub reserved_starts : List (List ℕ)
reserved_starts =
    (0x48 ∷ 0x45 ∷ 0x41 ∷ 0x44 ∷ [])
    ∷ (0x50 ∷ 0x4F ∷ 0x53 ∷ 0x54 ∷ [])
    ∷ (0x47 ∷ 0x45 ∷ 0x54 ∷ 0x20 ∷ [])
    ∷ (0xEE ∷ 0xEE ∷ 0xEE ∷ 0xEE ∷ [])
    ∷ (0xDD ∷ 0xDD ∷ 0xDD ∷ 0xDD ∷ [])
    ∷ (0x16 ∷ 0x03 ∷ 0x01 ∷ 0x02 ∷ [])
    ∷ (0x4F ∷ 0x50 ∷ 0x54 ∷ 0x49 ∷ [])
    ∷ []

abbrev pub reserved_continue : List ℕ
reserved_continue = 0 ∷ 0 ∷ 0 ∷ 0 ∷ []

-- The tests of the loop that draws the relay's random bytes.
unfoldable pub is_reserved : List ℕ → Bool
is_reserved rnd =
    elim (get_elem? rnd 0) [ none ↦ false | some b ↦ contains reserved_first_bytes b ]
    || contains reserved_starts (take 4 rnd)
    || (slice 4 8 rnd =? reserved_continue)

-- `while True`: the draws of `os.urandom(64)` from the n-th on, with fuel for the rounds.
unfoldable pub draw_start : ℕ → (ℕ → List ℕ) → ℕ → Result (List ℕ)
draw_start zero draws n = err stuck
draw_start (suc fuel) draws n =
    let rest = draw_start fuel draws (suc n) in if is_reserved (draws n) then rest else ok (draws n)

pub record CryptoCtx : Type 0 where
  pub clt_dec : Encryptor
  pub clt_enc : Encryptor
  pub tg_enc : Encryptor
  pub tg_dec : Encryptor

module _ (keystream : List ℕ → List ℕ → ℕ → ℕ) where
  -- The relay's init from the accepted bytes: the last eight carry the tag and the DC under the
  -- keystream; `random_tail` is `os.urandom(2)`.
  unfoldable pub relay_init_from : List ℕ → List ℕ → List ℕ → List ℕ → List ℕ
  relay_init_from rnd proto_tag dc_bytes random_tail =
      let enc_key = slice skip_len (skip_len + prekey_len) rnd in
      let enc_iv = slice (skip_len + prekey_len) (skip_len + prekey_len + iv_len) rnd in
      let tail_plain = proto_tag ++ (dc_bytes ++ random_tail) in
      let encrypted_full = (update keystream (encryptor enc_key enc_iv) rnd).0 in
      let keystream_tail = xor_bytes (slice 56 64 encrypted_full) (slice 56 64 rnd) in
      let encrypted_tail = xor_bytes tail_plain keystream_tail in
      take proto_tag_pos rnd ++ (encrypted_tail ++ drop handshake_len rnd)

  unfoldable pub generate_relay_init : ℕ → (ℕ → List ℕ) → List ℕ → List ℕ → ℤ → Result (List ℕ)
  generate_relay_init fuel draws random_tail proto_tag dc_idx = do
    rnd ← draw_start fuel draws 0
    dc_bytes ← pack_h_little dc_idx
    ok (relay_init_from rnd proto_tag dc_bytes random_tail)

  module _ (sha256 : List ℕ → List ℕ) where
    -- The DC's number, whether it is a media DC, the tag, and the client's prekey and iv.
    unfoldable pub try_handshake : List ℕ → List ℕ → Option (ℕ × Bool × List ℕ × List ℕ)
    try_handshake handshake secret =
        let dec_prekey_and_iv = slice skip_len (skip_len + prekey_len + iv_len) handshake in
        let dec_prekey = take prekey_len dec_prekey_and_iv in
        let dec_iv = drop prekey_len dec_prekey_and_iv in
        let dec_key = sha256 (dec_prekey ++ secret) in
        let decryptor = encryptor dec_key (to_bytes_big 16 (from_bytes_big dec_iv)) in
        let decrypted = (update keystream decryptor handshake).0 in
        let proto_tag = slice proto_tag_pos (proto_tag_pos + 4) decrypted in
        let dc_idx = from_bytes_little_signed (slice dc_idx_pos (dc_idx_pos + 2) decrypted) in
        if not (contains proto_tags proto_tag)
        then none
        else some (abs dc_idx, is_negative dc_idx, proto_tag, dec_prekey_and_iv)

    unfoldable pub build_crypto_ctx : List ℕ → List ℕ → List ℕ → CryptoCtx
    build_crypto_ctx client_dec_prekey_iv secret relay_init =
        let clt_dec_prekey = take prekey_len client_dec_prekey_iv in
        let clt_dec_iv = drop prekey_len client_dec_prekey_iv in
        let clt_enc_prekey_iv = reverse client_dec_prekey_iv in
        let clt_enc_iv = drop prekey_len clt_enc_prekey_iv in
        let relay_prekey_iv = slice skip_len (skip_len + prekey_len + iv_len) relay_init in
        let relay_dec_prekey_iv = reverse relay_prekey_iv in
        record {
          clt_dec =
              (update keystream (encryptor (sha256 (clt_dec_prekey ++ secret)) clt_dec_iv)
                zero_64).1;
          clt_enc = encryptor (sha256 (take prekey_len clt_enc_prekey_iv ++ secret)) clt_enc_iv;
          tg_enc =
              (update keystream
                (encryptor (slice skip_len (skip_len + prekey_len) relay_init)
                  (slice (skip_len + prekey_len) (skip_len + prekey_len + iv_len) relay_init))
                zero_64).1;
          tg_dec = encryptor (take key_len relay_dec_prekey_iv) (drop key_len relay_dec_prekey_iv);
        }
