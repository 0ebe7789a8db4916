-- ===== src/FakeTls/Probe.antt =====
-- What the site probe reads off a server's first flight.
use hide_self_tgws.Base.{
  ℕ, zero, suc, ◌+◌, ◌-◌, ◌≤◌, ◌<◌, true, false, ◌||◌, Option, none, some, List, [], ◌∷◌, ◌++◌,
  length, take, drop, slice, ltb, ◌==◌, ◌≡◌, refl, ◌∙◌, ap, arith, length-append, length-drop,
  Bool-cases, inl, inr, ok, take_append_left, drop_append_left, le→not-ltb,
}
use hide_self_tgws.Base.Bytes.{byte_at, unpack_h_big, from_bytes_big}
use hide_self_tgws.FakeTls.{
  tls_record_appdata, tls_record_handshake, tls_record_ccs, appdata_loop, first_appdata_record_len,
}

byte_at_ok : (xs : List ℕ) (i : ℕ) → i < length xs → (b : ℕ) × (byte_at xs i ≡ ok b)
unfolding byte_at
byte_at_ok [] i h = absurd (omega arith)
byte_at_ok (x ∷ xs) zero h = (x, refl)
byte_at_ok (x ∷ xs) (suc i) h = byte_at_ok xs i (omega arith)

byte_at_append_left : (xs ys : List ℕ) (i : ℕ) → i < length xs → byte_at (xs ++ ys) i ≡ byte_at xs i
unfolding byte_at
byte_at_append_left [] ys i h = absurd (omega arith)
byte_at_append_left (x ∷ xs) ys zero h = refl
byte_at_append_left (x ∷ xs) ys (suc i) h = byte_at_append_left xs ys i (omega arith)

unpack_h_big_ok : (xs : List ℕ) (i : ℕ) → i + 2 ≤ length xs → (n : ℕ) × (unpack_h_big xs i ≡ ok n)
unfolding unpack_h_big
unpack_h_big_ok xs i h =
    (from_bytes_big (slice i (i + 2) xs), rw (unpack_h_big, le→not-ltb (length xs) (i + 2) h) refl)

unpack_h_big_append_left :
    (xs ys : List ℕ) (i : ℕ) → i + 2 ≤ length xs → unpack_h_big (xs ++ ys) i ≡ unpack_h_big xs i
unfolding unpack_h_big slice
unpack_h_big_append_left xs ys i h =
    let long : i + 2 ≤ length (xs ++ ys) = omega (arith, h, length-append xs ys) in
    let same : slice i (i + 2) (xs ++ ys) ≡ slice i (i + 2) xs =
      ap (take (i + 2 - i)) (drop_append_left i xs ys (omega arith))
      ∙ take_append_left (i + 2 - i) (drop i xs) ys (omega (arith, length-drop i xs)) in
    rw (unpack_h_big, le→not-ltb (length (xs ++ ys)) (i + 2) long, le→not-ltb (length xs) (i + 2) h)
      (ap (λ s. ok (from_bytes_big s)) same)

-- What a round does with a whole header.
appdata_loop-header :
    (fuel pos rtype rec_len : ℕ) (xs : List ℕ)
    → pos + 5 ≤ length xs
    → byte_at xs pos ≡ ok rtype
    → unpack_h_big xs (pos + 3) ≡ ok rec_len
    → appdata_loop (suc fuel) pos xs ≡ elim (rtype == tls_record_appdata) [
      | true ↦ ok (some rec_len)
      | false ↦ elim (rtype == tls_record_handshake || rtype == tls_record_ccs) [
        | false ↦ ok (some 0)
        | true ↦ appdata_loop fuel (pos + (5 + rec_len)) xs
      ]
    ]
unfolding appdata_loop
appdata_loop-header fuel pos rtype rec_len xs long first field =
    rw (appdata_loop, le→not-ltb (length xs) (pos + 5) long, first, field) refl

appdata_loop-short :
    (fuel pos : ℕ) (xs : List ℕ)
    → ltb (length xs) (pos + 5) ≡ true
    → appdata_loop (suc fuel) pos xs ≡ ok none
unfolding appdata_loop
appdata_loop-short fuel pos xs short = rw (appdata_loop, short) refl

appdata_loop-append :
    (fuel more pos n : ℕ) (xs ys : List ℕ)
    → appdata_loop fuel pos xs ≡ ok (some n)
    → appdata_loop (fuel + more) pos (xs ++ ys) ≡ ok (some n)
appdata_loop-append zero more pos n xs ys found = absurd (unfold appdata_loop in cc)
appdata_loop-append (suc fuel) more pos n xs ys found =
    elim (Bool-cases (ltb (length xs) (pos + 5))) [
      | inl short ↦ absurd (ground (arith, found, appdata_loop-short fuel pos xs short))
      | inr enough ↦
          let long : pos + 5 ≤ length xs = ground (arith, enough) in
          let (rtype, first) = byte_at_ok xs pos (omega (arith, long)) in
          let (rec_len, field) = unpack_h_big_ok xs (pos + 3) (omega (arith, long)) in
          let here = appdata_loop-header fuel pos rtype rec_len xs long first field in
          let there =
            appdata_loop-header (fuel + more) pos rtype rec_len (xs ++ ys)
              (omega (arith, long, length-append xs ys))
              (byte_at_append_left xs ys pos (omega (arith, long)) ∙ first)
              (unpack_h_big_append_left xs ys (pos + 3) (omega (arith, long)) ∙ field) in
          let suc_sum : suc fuel + more ≡ suc (fuel + more) = omega arith in
          let next = appdata_loop-append fuel more (pos + (5 + rec_len)) n xs ys in
          ap (λ f. appdata_loop f pos (xs ++ ys)) suc_sum
          ∙ there
          ∙ ground (arith, here, found, next)
    ]

appdata_loop_total :
    (fuel pos : ℕ) (xs : List ℕ)
    → 0 < fuel
    → length xs < fuel + pos
    → (o : Option ℕ) × (appdata_loop fuel pos xs ≡ ok o)
appdata_loop_total zero pos xs positive h = absurd (omega arith)
appdata_loop_total (suc fuel) pos xs positive h = elim (Bool-cases (ltb (length xs) (pos + 5))) [
  | inl short ↦ (none, appdata_loop-short fuel pos xs short)
  | inr enough ↦
      let long : pos + 5 ≤ length xs = ground (arith, enough) in
      let (rtype, first) = byte_at_ok xs pos (omega (arith, long)) in
      let (rec_len, field) = unpack_h_big_ok xs (pos + 3) (omega (arith, long)) in
      let here = appdata_loop-header fuel pos rtype rec_len xs long first field in
      let (o, next) =
        appdata_loop_total fuel (pos + (5 + rec_len)) xs (omega (arith, long, h))
          (omega (arith, long, h)) in
      elim (Bool-cases (rtype == tls_record_appdata)) [
        | inl appdata ↦ (some rec_len, ground (arith, here, appdata))
        | inr other ↦ elim (Bool-cases (rtype == tls_record_handshake || rtype == tls_record_ccs)) [
          | inl skipped ↦ (o, ground (arith, here, other, skipped, next))
          | inr unknown ↦ (some 0, ground (arith, here, other, unknown))
        ]
      ]
]

-- The probe never fails on any bytes, and once it has an answer, the bytes that come later do not
-- change it: it may ask again after each chunk.
pub first_appdata_record_len-append :
    (xs : List ℕ)
    → ((o : Option ℕ) × (first_appdata_record_len xs ≡ ok o))
      × ((n : ℕ) (ys : List ℕ)
          → first_appdata_record_len xs ≡ ok (some n)
          → first_appdata_record_len (xs ++ ys) ≡ ok (some n))
unfolding first_appdata_record_len
first_appdata_record_len-append xs = (
  appdata_loop_total (suc (length xs)) 0 xs (omega arith) (omega arith),
  λ n ys found.
      let fuel : suc (length (xs ++ ys)) ≡ suc (length xs) + length ys =
        omega (arith, length-append xs ys) in
      ap (λ f. appdata_loop f 0 (xs ++ ys)) fuel
      ∙ appdata_loop-append (suc (length xs)) (length ys) 0 n xs ys found,
)
