-- ===== src/Handshake/Peers.antt =====
-- The two peers of the proxy by the obfuscated transport's rules, each described on its own: what
-- a client sends and reads, and how Telegram's front reads an init and the stream behind it.
use hide_self_tgws.Base.{ℕ, List, ◌++◌, take, drop, reverse}
use hide_self_tgws.Cipher.{xor_stream}

module _ (keystream : List ℕ → List ℕ → ℕ → ℕ) where
  module _ (sha256 : List ℕ → List ℕ) (secret : List ℕ) where
    -- The client's keystreams: its key and iv upwards, the same bytes reversed downwards.
    abbrev pub client_up : List ℕ → ℕ → ℕ
    client_up prekey_iv = keystream (sha256 (take 32 prekey_iv ++ secret)) (drop 32 prekey_iv)

    abbrev pub client_down : List ℕ → ℕ → ℕ
    client_down prekey_iv = client_up (reverse prekey_iv)

    -- The 64 bytes that a client opens with: the last eight are encrypted.
    unfoldable pub client_init : List ℕ → List ℕ → List ℕ → List ℕ → List ℕ → List ℕ
    client_init start prekey_iv tag dc_bytes random_tail =
        start
        ++ (prekey_iv ++ xor_stream (client_up prekey_iv) 56 (tag ++ (dc_bytes ++ random_tail)))

  -- Telegram's keystreams from an init: its bytes 8 to 56 upwards, the same reversed downwards.
  abbrev pub telegram_key : List ℕ → ℕ → ℕ
  telegram_key key_iv = keystream (take 32 key_iv) (drop 32 key_iv)

  unfoldable pub telegram_up : List ℕ → ℕ → ℕ
  telegram_up init = telegram_key (take 48 (drop 8 init))

  unfoldable pub telegram_down : List ℕ → ℕ → ℕ
  telegram_down init = telegram_key (reverse (take 48 (drop 8 init)))

  -- What Telegram reads in the last eight bytes of an init.
  unfoldable pub telegram_reads : List ℕ → List ℕ
  telegram_reads init = drop 56 (xor_stream (telegram_up init) 0 init)
