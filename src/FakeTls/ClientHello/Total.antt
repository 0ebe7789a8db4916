-- ===== src/FakeTls/ClientHello/Total.antt =====
-- Parsing ends with an answer, whatever the bytes.
use hide_self_tgws.Base.{
  ℕ, zero, suc, ◌+◌, ◌-◌, ◌≤◌, ◌<◌, min, ◌&&◌, List, [], ◌∷◌, length, ltb, leb, ◌==◌, Result, ok,
  err, index_error, struct_error, ◌>>=◌, ◌≡◌, ◌⊎◌, inl, inr, refl, arith, Bool-cases,
}
use hide_self_tgws.Base.Bytes.{byte_at, unpack_h_big}
use hide_self_tgws.FakeTls.{ClientHelloInfo, empty_hello_info, ext_key_share}
use hide_self_tgws.FakeTls.ClientHello.{
  unpack_hh_big, read_suites, read_shares, read_extension, read_extensions, read_after_suites,
  hello_fields, caught, parse_client_hello,
}

-- A value, or one of the exceptions that the parser catches.
pub data Caught {ℓ} {V : Type ℓ} (r : Result V) : Type ℓ where
  value : (v : V) → r ≡ ok v → Caught r
  index_raised : r ≡ err index_error → Caught r
  struct_raised : r ≡ err struct_error → Caught r

Caught-bind {κ ℓ} :
    {V : Type κ} {W : Type ℓ} (r : Result V) (f : V → Result W)
    → Caught r
    → ((v : V) → Caught (f v))
    → Caught (r >>= f)
Caught-bind r f (value v e) next = rw e (next v)
Caught-bind r f (index_raised e) next = index_raised (rw e refl)
Caught-bind r f (struct_raised e) next = struct_raised (rw e refl)

byte_at-Caught : (bs : List ℕ) (i : ℕ) → Caught (byte_at bs i)
unfolding byte_at
byte_at-Caught [] i = index_raised refl
byte_at-Caught (b ∷ bs) zero = value b refl
byte_at-Caught (b ∷ bs) (suc i) = byte_at-Caught bs i

unpack_h_big-Caught : (bs : List ℕ) (i : ℕ) → Caught (unpack_h_big bs i)
unfolding unpack_h_big
unpack_h_big-Caught bs i = elim (Bool-cases (ltb (length bs) (i + 2))) [
  | inl short ↦ struct_raised (rw (unpack_h_big, short) refl)
  | inr long ↦ rw (unpack_h_big, long) (value _ refl)
]

unpack_hh_big-Caught : (bs : List ℕ) (i : ℕ) → Caught (unpack_hh_big bs i)
unfolding unpack_hh_big
unpack_hh_big-Caught bs i = elim (Bool-cases (ltb (length bs) (i + 4))) [
  | inl short ↦ struct_raised (rw (unpack_hh_big, short) refl)
  | inr long ↦
      rw (unpack_hh_big, long)
        (Caught-bind (unpack_h_big bs i) _ (unpack_h_big-Caught bs i) (λ a.
          Caught-bind (unpack_h_big bs (i + 2)) _ (unpack_h_big-Caught bs (i + 2))
            (λ b. value (a, b) refl)))
]

read_suites-Caught :
    (fuel : ℕ) (bs : List ℕ) (off suites_end : ℕ)
    → suites_end < fuel + off
    → 0 < fuel
    → Caught (read_suites fuel bs off suites_end)
unfolding read_suites
read_suites-Caught zero bs off suites_end enough some_fuel = absurd (omega arith)
read_suites-Caught (suc fuel) bs off suites_end enough some_fuel =
    elim (Bool-cases (ltb off (suites_end - 1))) [
      | inr past ↦ rw (read_suites, past) (value _ refl)
      | inl more ↦
          let lt : off < suites_end - 1 = ground (arith, more) in
          rw (read_suites, more)
            (Caught-bind (unpack_h_big bs off) _ (unpack_h_big-Caught bs off) (λ suite.
              Caught-bind (read_suites fuel bs (off + 2) suites_end) _
                (read_suites-Caught fuel bs (off + 2) suites_end (omega (arith, enough, lt))
                  (omega (arith, enough, lt)))
                (λ rest. value _ refl)))
    ]

read_shares-Caught :
    (fuel : ℕ) (bs : List ℕ) (off shares_end : ℕ) (shares : List (ℕ × ℕ))
    → shares_end < fuel + off
    → 0 < fuel
    → Caught (read_shares fuel bs off shares_end shares)
unfolding read_shares
read_shares-Caught zero bs off shares_end shares enough some_fuel = absurd (omega arith)
read_shares-Caught (suc fuel) bs off shares_end shares enough some_fuel =
    elim (Bool-cases (leb (off + 4) shares_end)) [
      | inr past ↦ rw (read_shares, past) (value _ refl)
      | inl more ↦
          let le : off + 4 ≤ shares_end = ground (arith, more) in
          rw (read_shares, more)
            (Caught-bind (unpack_hh_big bs off) _ (unpack_hh_big-Caught bs off) (λ entry.
              read_shares-Caught fuel bs (off + (4 + entry.1)) shares_end _
                (omega (arith, enough, le)) (omega (arith, enough, le))))
    ]

read_extension-Caught :
    (bs : List ℕ) (pos ext_end ext_type : ℕ) (shares : List (ℕ × ℕ))
    → ext_end ≤ length bs
    → Caught (read_extension bs pos ext_end ext_type shares)
unfolding read_extension
read_extension-Caught bs pos ext_end ext_type shares inside =
    elim (Bool-cases (ext_type == ext_key_share && leb (pos + 2) ext_end)) [
      | inr other ↦ rw (read_extension, other) (value _ refl)
      | inl shares_here ↦
          rw (read_extension, shares_here)
            (Caught-bind (unpack_h_big bs pos) _ (unpack_h_big-Caught bs pos) (λ shares_len.
              read_shares-Caught (suc (length bs)) bs (pos + 2) (min (pos + 2 + shares_len) ext_end)
                shares (omega (arith, inside)) (omega arith)))
    ]

read_extensions-Caught :
    (fuel : ℕ) (bs : List ℕ) (pos ext_end : ℕ) (shares : List (ℕ × ℕ))
    → ext_end ≤ length bs
    → ext_end < fuel + pos
    → 0 < fuel
    → Caught (read_extensions fuel bs pos ext_end shares)
unfolding read_extensions
read_extensions-Caught zero bs pos ext_end shares inside enough some_fuel = absurd (omega arith)
read_extensions-Caught (suc fuel) bs pos ext_end shares inside enough some_fuel =
    elim (Bool-cases (leb (pos + 4) ext_end)) [
      | inr past ↦ rw (read_extensions, past) (value _ refl)
      | inl more ↦
          let le : pos + 4 ≤ ext_end = ground (arith, more) in
          rw (read_extensions, more)
            (Caught-bind (unpack_hh_big bs pos) _ (unpack_hh_big-Caught bs pos) (λ header.
              Caught-bind (read_extension bs (pos + 4) ext_end header.0 shares) _
                (read_extension-Caught bs (pos + 4) ext_end header.0 shares inside)
                (λ shares'.
                  read_extensions-Caught fuel bs (pos + (4 + header.1)) ext_end shares' inside
                    (omega (arith, enough, le)) (omega (arith, enough, le)))))
    ]

read_after_suites-Caught : (bs : List ℕ) (pos : ℕ) → Caught (read_after_suites bs pos)
unfolding read_after_suites
read_after_suites-Caught bs pos = Caught-bind (byte_at bs pos) _ (byte_at-Caught bs pos) (λ skip.
    Caught-bind (unpack_h_big bs (pos + (1 + skip))) _ (unpack_h_big-Caught bs (pos + (1 + skip)))
      (λ ext_total.
        read_extensions-Caught (suc (length bs)) bs (pos + (1 + skip) + 2)
          (min (pos + (1 + skip) + 2 + ext_total) (length bs)) [] (omega arith) (omega arith)
          (omega arith)))

hello_fields-Caught : (bs : List ℕ) → Caught (hello_fields bs)
unfolding hello_fields
hello_fields-Caught bs = Caught-bind (byte_at bs 43) _ (byte_at-Caught bs 43) (λ id_len.
    Caught-bind (unpack_h_big bs (43 + (1 + id_len))) _ (unpack_h_big-Caught bs (43 + (1 + id_len)))
      (λ suites_len.
        let pos : ℕ = 43 + (1 + id_len) + 2 in
        elim (Bool-cases (ltb (length bs) (pos + suites_len))) [
          | inl long ↦ rw long (value _ refl)
          | inr inside ↦
              let le : pos + suites_len ≤ length bs = ground (arith, inside) in
              rw inside (
                Caught-bind (read_suites (suc (length bs)) bs pos (pos + suites_len)) _
                  (read_suites-Caught (suc (length bs)) bs pos (pos + suites_len)
                    (omega (arith, le)) (omega arith))
                  (λ suites.
                    Caught-bind (read_after_suites bs (pos + suites_len)) _
                      (read_after_suites-Caught bs (pos + suites_len)) (λ shares. value _ refl)))
        ]))

-- On any bytes, malformed ones included, the parser's loops end and it returns an answer: no
-- exception leaves it. Where the fields cannot be read the answer is the empty one.
pub parse_client_hello_total :
    (bs : List ℕ)
    → (info : ClientHelloInfo) × (parse_client_hello bs ≡ ok info)
      × ((hello_fields bs ≡ ok info) ⊎ (info ≡ empty_hello_info))
unfolding parse_client_hello caught
parse_client_hello_total bs = elim (hello_fields-Caught bs) [
  | value info e ↦ (info, rw e refl, inl e)
  | index_raised e ↦ (empty_hello_info, rw e refl, inr refl)
  | struct_raised e ↦ (empty_hello_info, rw e refl, inr refl)
]
