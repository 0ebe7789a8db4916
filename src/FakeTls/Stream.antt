-- ===== src/FakeTls/Stream.antt =====
-- proxy/fake_tls.py, class FakeTlsStream: the client's bytes out of the TLS records that carry
-- them. `arrived` stands for how much the network has delivered when `reader.read` is called.
pub mod Records
pub mod Reading
pub mod Wrapped
use hide_self_tgws.Base.{
  ℕ, zero, suc, ◌+◌, ◌-◌, min, Bool, true, false, List, [], ◌∷◌, ◌++◌, length, take, drop, slice,
  ltb, leb, ◌==◌, if◌then◌else◌, Result, ok, err, stuck, incomplete_read_error, ◌>>=◌,
}
use hide_self_tgws.Base.Bytes.{byte_at, unpack_h_big}
use hide_self_tgws.Base.Reader.{readexactly, read_some}
use hide_self_tgws.FakeTls.{tls_record_ccs, tls_record_appdata}

pub record FakeTlsStream : Type 0 where
  pub reader : List ℕ
  pub read_buf : List ℕ
  pub read_left : ℕ

abbrev pub new_stream : List ℕ → FakeTlsStream
new_stream reader = record { reader = reader; read_buf = []; read_left = 0 }

module _ (arrived : List ℕ → ℕ) where
  -- The end of `_read_tls_payload`: the first bytes of an application data record.
  unfoldable pub read_appdata : FakeTlsStream → List ℕ → ℕ → List ℕ × FakeTlsStream
  read_appdata s reader rec_len =
      let (bytes, rest) = read_some arrived (min rec_len 65536) reader in
      if length bytes == 0 then ([], record s { reader = rest }) else (
        bytes,
        record s {
          reader = rest;
          read_left =
              (if ltb 0 (rec_len - length bytes) then rec_len - length bytes else s.read_left);
        },
      )

  -- `while True` over the records: each takes five bytes at least.
  unfoldable pub next_record : ℕ → FakeTlsStream → List ℕ → Result (List ℕ × FakeTlsStream)
  unfolding read_appdata
  next_record zero s reader = err stuck
  next_record (suc fuel) s reader = do
    (hdr, reader) ← readexactly 5 reader
    rtype ← byte_at hdr 0
    rec_len ← unpack_h_big hdr 3
    elim (rtype == tls_record_ccs) [
      | true ↦ do (skipped, reader) ← readexactly rec_len reader; next_record fuel s reader
      | false ↦ elim (rtype == tls_record_appdata) [
        | false ↦ ok ([], record s { reader = reader })
        | true ↦ ok (read_appdata s reader rec_len)
      ]
    ]

  unfoldable pub read_tls_payload : FakeTlsStream → Result (List ℕ × FakeTlsStream)
  unfolding next_record
  read_tls_payload s =
      if ltb 0 s.read_left
      then (let (bytes, rest) = read_some arrived s.read_left s.reader in
          if length bytes == 0
          then ok ([], record s { reader = rest })
          else ok (bytes, record s { reader = rest; read_left = s.read_left - length bytes }))
      else next_record (suc (length s.reader)) s s.reader

  -- `while len(self._read_buf) < n`: a round brings a byte at least.
  unfoldable pub fill_buf : ℕ → ℕ → FakeTlsStream → Result FakeTlsStream
  unfolding read_tls_payload
  fill_buf zero n s = err stuck
  fill_buf (suc fuel) n s = elim (ltb (length s.read_buf) n) [
    | false ↦ ok s
    | true ↦ do
      (payload, s') ← read_tls_payload s
      elim payload [
        | [] ↦ err incomplete_read_error
        | b ∷ bs ↦ fill_buf fuel n (record s' { read_buf = s'.read_buf ++ (b ∷ bs) })
      ]
  ]

  -- `readexactly`
  unfoldable pub read_stream_exactly : ℕ → FakeTlsStream → Result (List ℕ × FakeTlsStream)
  unfolding fill_buf
  read_stream_exactly n s = do
    s' ← fill_buf (suc (length s.reader)) n s
    ok (take n s'.read_buf, record s' { read_buf = drop n s'.read_buf })

  -- `read`
  unfoldable pub read_stream : ℕ → FakeTlsStream → Result (List ℕ × FakeTlsStream)
  unfolding read_tls_payload
  read_stream n s = elim s.read_buf [
    | b ∷ bs ↦ ok (take n (b ∷ bs), record s { read_buf = drop n (b ∷ bs) })
    | [] ↦ do
      (payload, s') ← read_tls_payload s
      if ltb n (length payload)
          then ok (take n payload, record s' { read_buf = s'.read_buf ++ drop n payload })
          else ok (payload, s')
  ]
