-- ===== src/FakeTls/ClientHello.antt =====
-- proxy/fake_tls.py: `parse_client_hello`.
pub mod Total
use hide_self_tgws.Base.{
  ℕ, zero, suc, ◌+◌, ◌-◌, ◌*◌, ◌≤◌, ◌<◌, min, Bool, true, false, ◌&&◌, Option, none, some, List, [],
  ◌∷◌, ◌++◌, length, slice, ltb, leb, ◌==◌, if◌then◌else◌, Result, ok, err, stuck, index_error,
  struct_error, ◌>>=◌, ◌≡◌, ◌⊎◌, inl, inr, refl, ◌∙◌, sym, arith, Bool-cases, Result-cases,
}
use hide_self_tgws.Base.Bytes.{byte_at, unpack_h_big}
use hide_self_tgws.Base.Dict.{nat_eq, lookup}
use hide_self_tgws.FakeTls.{ClientHelloInfo, empty_hello_info, client_random_len, ext_key_share}

-- `d.setdefault(key, value)`
unfoldable pub setdefault : ℕ → ℕ → List (ℕ × ℕ) → List (ℕ × ℕ)
setdefault key value d = elim (lookup key d) [ none ↦ d ++ ((key, value) ∷ []) | some old ↦ d ]

-- `struct.unpack_from('>HH', data, off)`
unfoldable pub unpack_hh_big : List ℕ → ℕ → Result (ℕ × ℕ)
unpack_hh_big bytes off =
    if ltb (length bytes) (off + 4)
    then err struct_error
    else (do a ← unpack_h_big bytes off; b ← unpack_h_big bytes (off + 2); ok (a, b))

-- The cipher suites at `range(off, suites_end - 1, 2)`.
unfoldable pub read_suites : ℕ → List ℕ → ℕ → ℕ → Result (List ℕ)
read_suites zero bytes off suites_end = err stuck
read_suites (suc fuel) bytes off suites_end = elim (ltb off (suites_end - 1)) [
  | false ↦ ok []
  | true ↦ do
    suite ← unpack_h_big bytes off
    rest ← read_suites fuel bytes (off + 2) suites_end
    ok (suite ∷ rest)
]

-- `while off + 4 <= shares_end`
unfoldable pub read_shares : ℕ → List ℕ → ℕ → ℕ → List (ℕ × ℕ) → Result (List (ℕ × ℕ))
read_shares zero bytes off shares_end key_shares = err stuck
read_shares (suc fuel) bytes off shares_end key_shares = elim (leb (off + 4) shares_end) [
  | false ↦ ok key_shares
  | true ↦ do
    (group, key_len) ← unpack_hh_big bytes off
    read_shares fuel bytes (off + (4 + key_len)) shares_end (
        if leb (off + (4 + key_len)) shares_end
        then setdefault group key_len key_shares
        else key_shares)
]

-- One extension behind its header: the key shares after it.
unfoldable pub read_extension : List ℕ → ℕ → ℕ → ℕ → List (ℕ × ℕ) → Result (List (ℕ × ℕ))
unfolding read_shares
read_extension bytes pos ext_end ext_type key_shares =
    elim (ext_type == ext_key_share && leb (pos + 2) ext_end) [
      | false ↦ ok key_shares
      | true ↦ do
        shares_len ← unpack_h_big bytes pos
        read_shares (suc (length bytes)) bytes (pos + 2) (min (pos + 2 + shares_len) ext_end)
            key_shares
    ]

-- `while pos + 4 <= ext_end`
unfoldable pub read_extensions : ℕ → List ℕ → ℕ → ℕ → List (ℕ × ℕ) → Result (List (ℕ × ℕ))
unfolding read_extension
read_extensions zero bytes pos ext_end key_shares = err stuck
read_extensions (suc fuel) bytes pos ext_end key_shares = elim (leb (pos + 4) ext_end) [
  | false ↦ ok key_shares
  | true ↦ do
    (ext_type, ext_len) ← unpack_hh_big bytes pos
    key_shares' ← read_extension bytes (pos + 4) ext_end ext_type key_shares
    read_extensions fuel bytes (pos + (4 + ext_len)) ext_end key_shares'
]

-- Everything behind the cipher suites: from `pos`, the compression methods and the extensions.
unfoldable pub read_after_suites : List ℕ → ℕ → Result (List (ℕ × ℕ))
unfolding read_extensions
read_after_suites bytes pos = do
  skip ← byte_at bytes pos
  ext_total ← unpack_h_big bytes (pos + (1 + skip))
  read_extensions (suc (length bytes)) bytes (pos + (1 + skip) + 2)
      (min (pos + (1 + skip) + 2 + ext_total) (length bytes)) []

-- The body of the `try`.
unfoldable pub hello_fields : List ℕ → Result ClientHelloInfo
unfolding read_suites read_after_suites
hello_fields bytes = do
  id_len ← byte_at bytes (5 + 4 + 2 + client_random_len)
  suites_len ← unpack_h_big bytes (5 + 4 + 2 + client_random_len + (1 + id_len))
  let pos : ℕ = 5 + 4 + 2 + client_random_len + (1 + id_len) + 2
  elim (ltb (length bytes) (pos + suites_len)) [
    | true ↦ ok empty_hello_info
    | false ↦ do
      suites ← read_suites (suc (length bytes)) bytes pos (pos + suites_len)
      key_shares ← read_after_suites bytes (pos + suites_len)
      ok (record { cipher_suites = suites; key_shares = key_shares })
  ]

-- `except (IndexError, struct.error)`
unfoldable pub caught : Result ClientHelloInfo → Result ClientHelloInfo
caught (ok info) = ok info
caught (err index_error) = ok empty_hello_info
caught (err struct_error) = ok empty_hello_info
caught (err other) = err other

unfoldable pub parse_client_hello : List ℕ → Result ClientHelloInfo
unfolding hello_fields caught
parse_client_hello bytes = caught (hello_fields bytes)
