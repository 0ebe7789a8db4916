-- ===== src/Bridge/Streams.antt =====
-- The four ciphers of a connection are the peers' keystreams.
use hide_self_tgws.Base.{ℕ, List, slice, replicate, ◌≡◌, refl, ap₂, sym}
use hide_self_tgws.Cipher.{Encryptor, update}
use hide_self_tgws.Handshake.{build_crypto_ctx}
use hide_self_tgws.Handshake.Peers.{client_up, client_down, telegram_up, telegram_down}
use hide_self_tgws.Handshake.Relay.{key_field, iv_field}

module _ (keystream : List ℕ → List ℕ → ℕ → ℕ) where
  -- An encryptor's keystream.
  abbrev pub stream_of : Encryptor → ℕ → ℕ
  stream_of e = keystream e.key e.iv

  module _ (sha256 : List ℕ → List ℕ) (secret prekey_iv init : List ℕ) where
    -- Client and Telegram both start behind the 64 bytes of the opening upwards, at the first byte
    -- of the keystream downwards.
    pub record ContextMatches : Type 0 where
      pub clt_dec :
          stream_of (build_crypto_ctx keystream sha256 prekey_iv secret init).clt_dec
          ≡ client_up keystream sha256 secret prekey_iv
      pub clt_enc :
          stream_of (build_crypto_ctx keystream sha256 prekey_iv secret init).clt_enc
          ≡ client_down keystream sha256 secret prekey_iv
      pub tg_enc :
          stream_of (build_crypto_ctx keystream sha256 prekey_iv secret init).tg_enc
          ≡ telegram_up keystream init
      pub tg_dec :
          stream_of (build_crypto_ctx keystream sha256 prekey_iv secret init).tg_dec
          ≡ telegram_down keystream init
      pub clt_dec_at :
          (build_crypto_ctx keystream sha256 prekey_iv secret init).clt_dec.position ≡ 64
      pub clt_enc_at :
          (build_crypto_ctx keystream sha256 prekey_iv secret init).clt_enc.position ≡ 0
      pub tg_enc_at : (build_crypto_ctx keystream sha256 prekey_iv secret init).tg_enc.position ≡ 64
      pub tg_dec_at : (build_crypto_ctx keystream sha256 prekey_iv secret init).tg_dec.position ≡ 0

    pub build_crypto_ctx_lem : ContextMatches
    unfolding build_crypto_ctx update telegram_up telegram_down slice replicate
    build_crypto_ctx_lem = record {
      clt_dec = refl;
      clt_enc = refl;
      tg_enc = ap₂ keystream (sym (key_field init)) (sym (iv_field init));
      tg_dec = refl;
      clt_dec_at = refl;
      clt_enc_at = refl;
      tg_enc_at = refl;
      tg_dec_at = refl;
    }
