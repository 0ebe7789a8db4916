-- ===== src/FakeTls/Stream/Reading.antt =====
-- What a FakeTlsStream returns is what was put into the records, however the network cuts them.
use hide_self_tgws.Base.{
  ◌⊎◌, ℕ, zero, suc, ◌+◌, ◌≤◌, ◌<◌, true, false, List, [], ◌∷◌, ◌++◌, length, take, drop, ltb,
  Result, ok, err, incomplete_read_error, ◌≡◌, inl, inr, refl, sym, ap, ◌∙◌, arith, append_assoc,
  length-append, take_append_left, drop_append_left, lt→ltb, le→not-ltb, Bool-cases,
}
use hide_self_tgws.Base.Bytes.{to_bytes_big}
use hide_self_tgws.Base.Reader.{readexactly}
use hide_self_tgws.FakeTls.{tls_record}
use hide_self_tgws.FakeTls.Stream.{FakeTlsStream, read_tls_payload, fill_buf, read_stream_exactly}
use hide_self_tgws.FakeTls.Stream.Records.{
  TlsRecord, appdata, change_cipher, wire_of, plain_of, Pending, read_tls_payload_lem,
}

-- A stream that has `plain` to give: what is buffered, then what is pending in whole records up to
-- the end or an empty record.
pub record Holds (s : FakeTlsStream) (plain : List ℕ) : Type 0 where
  pub rest : List ℕ
  pub pending : Pending s.reader s.read_left rest
  pub plain_is : plain ≡ s.read_buf ++ rest

-- Over the abstract reader of the plain bytes: the same exception, or the same bytes and a stream
-- that has the rest to give.
abbrev pub Simulates : Result (List ℕ × List ℕ) → Result (List ℕ × FakeTlsStream) → Type 0
Simulates (err raised) r = r ≡ err raised
Simulates (ok (bytes, plain)) r =
    (after : FakeTlsStream) × (r ≡ ok (bytes, after)) × Holds after plain

plain_of-le : (records : List TlsRecord) → length (plain_of records) ≤ length (wire_of records)
unfolding plain_of wire_of tls_record
plain_of-le [] = omega arith
plain_of-le (appdata [] ∷ records) = omega arith
plain_of-le (appdata (b ∷ bs) ∷ records) =
    let payload = b ∷ bs in
    let field = to_bytes_big 2 (length payload) in
    omega (
      arith,
      plain_of-le records,
      length-append payload (plain_of records),
      length-append field payload,
      length-append (field ++ payload) (wire_of records),
    )
plain_of-le (change_cipher payload ∷ records) = omega (
  arith,
  plain_of-le records,
  length-append (to_bytes_big 2 (length payload) ++ payload) (wire_of records),
)

Pending-le :
    (reader : List ℕ) (left : ℕ) (plain : List ℕ)
    → Pending reader left plain
    → length plain ≤ length reader
Pending-le reader left plain p = omega (
  arith,
  ap length p.plain_is,
  ap length p.reader_is,
  length-append p.front (plain_of p.records),
  length-append p.front (wire_of p.records),
  plain_of-le p.records,
)

module _ (arrived : List ℕ → ℕ) where
  fill_buf-enough :
      (fuel n : ℕ) (s : FakeTlsStream)
      → n ≤ length s.read_buf
      → fill_buf arrived (suc fuel) n s ≡ ok s
  unfolding fill_buf
  fill_buf-enough fuel n s h = rw (fill_buf, le→not-ltb (length s.read_buf) n h) refl

  fill_buf-ended :
      (fuel n : ℕ) (s : FakeTlsStream)
      → length s.read_buf < n
      → (read_tls_payload arrived s ≡ err incomplete_read_error)
        ⊎ ((after : FakeTlsStream) × (read_tls_payload arrived s ≡ ok ([], after)))
      → fill_buf arrived (suc fuel) n s ≡ err incomplete_read_error
  unfolding fill_buf
  fill_buf-ended fuel n s h (inl e) = rw (fill_buf, lt→ltb (length s.read_buf) n h, e) refl
  fill_buf-ended fuel n s h (inr (after, e)) = rw (fill_buf, lt→ltb (length s.read_buf) n h, e) refl

  fill_buf-round :
      (fuel n : ℕ) (s after : FakeTlsStream) (payload : List ℕ)
      → length s.read_buf < n
      → read_tls_payload arrived s ≡ ok (payload, after)
      → 0 < length payload
      → fill_buf arrived (suc fuel) n s
        ≡ fill_buf arrived fuel n (record after { read_buf = after.read_buf ++ payload })
  unfolding fill_buf
  fill_buf-round fuel n s after [] h e some_bytes = absurd (omega arith)
  fill_buf-round fuel n s after (b ∷ bs) h e some_bytes =
      rw (fill_buf, lt→ltb (length s.read_buf) n h, e) refl

  -- Enough bytes are buffered, and none is lost; or the stream ends before.
  abbrev Filled : ℕ → List ℕ → Result FakeTlsStream → Type 0
  Filled n plain r = elim (ltb (length plain) n) [
    | true ↦ r ≡ err incomplete_read_error
    | false ↦ (s' : FakeTlsStream) × (r ≡ ok s') × (n ≤ length s'.read_buf) × Holds s' plain
  ]

  Filled-ended :
      (n : ℕ) (plain : List ℕ) (r : Result FakeTlsStream)
      → length plain < n
      → r ≡ err incomplete_read_error
      → Filled n plain r
  Filled-ended n plain r h e = rw (Filled, lt→ltb (length plain) n h) e

  Filled-ok :
      (n : ℕ) (plain : List ℕ) (r : Result FakeTlsStream) (s : FakeTlsStream)
      → r ≡ ok s
      → n ≤ length s.read_buf
      → Holds s plain
      → Filled n plain r
  Filled-ok n plain r s e enough h =
      let long : n ≤ length plain =
        omega (arith, enough, ap length h.plain_is, length-append s.read_buf h.rest) in
      rw (Filled, le→not-ltb (length plain) n long) (s, e, enough, h)

  fill_buf_lem :
      (fuel n : ℕ) (s : FakeTlsStream) (plain : List ℕ) (h : Holds s plain)
      → length h.rest < fuel
      → Filled n plain (fill_buf arrived fuel n s)
  fill_buf_lem zero n s plain h enough = absurd (omega arith)
  fill_buf_lem (suc fuel) n s plain h enough = elim (Bool-cases (ltb (length s.read_buf) n)) [
    | inr full ↦
        let le : n ≤ length s.read_buf = ground (arith, full) in
        Filled-ok n plain (fill_buf arrived (suc fuel) n s) s (fill_buf-enough fuel n s le) le h
    | inl less ↦
        let lt : length s.read_buf < n = ground (arith, less) in
        let count : length plain ≡ length s.read_buf + length h.rest =
          omega (arith, ap length h.plain_is, length-append s.read_buf h.rest) in
        elim (read_tls_payload_lem arrived s h.rest h.pending) [
          | inl (nothing, e) ↦
              Filled-ended n plain (fill_buf arrived (suc fuel) n s)
                (omega (arith, lt, count, ap length nothing)) (fill_buf-ended fuel n s lt e)
          | inr d ↦
              let s' = record (d.after) { read_buf = d.after.read_buf ++ d.payload } in
              let h' : Holds s' plain = record {
                rest = d.remaining;
                pending = d.pending;
                plain_is =
                    h.plain_is
                    ∙ ap (◌++◌ s.read_buf) d.split
                    ∙ sym (append_assoc s.read_buf d.payload d.remaining)
                    ∙ ap (λ b. (b ++ d.payload) ++ d.remaining) (sym d.kept);
              } in
              rw (fill_buf-round fuel n s d.after d.payload lt d.run d.some_bytes) (
                fill_buf_lem fuel n s' plain h' (
                  omega (
                    arith,
                    enough,
                    d.some_bytes,
                    ap length d.split,
                    length-append d.payload d.remaining,
                  )))
        ]
  ]

  taken :
      (n : ℕ) (s : FakeTlsStream) (plain : List ℕ)
      → n ≤ length s.read_buf
      → (h : Holds s plain)
      → (take n s.read_buf ≡ take n plain)
        × Holds (record s { read_buf = drop n s.read_buf }) (drop n plain)
  taken n s plain enough h = (
    sym (ap (take n) h.plain_is ∙ take_append_left n s.read_buf h.rest enough),
    record {
      rest = h.rest;
      pending = h.pending;
      plain_is = ap (drop n) h.plain_is ∙ drop_append_left n s.read_buf h.rest enough;
    },
  )

  -- However the network cuts the records, and whatever lies in the buffer or is left of a record:
  -- for a stream whose bytes to come are whole records of application data and change-cipher-spec up
  -- to the end of the connection, `readexactly(n)` does what a plain reader does of the bytes that
  -- they carry up to the first application data record without bytes, which the stream takes for the
  -- end. It returns the first n bytes and keeps the others, or raises IncompleteReadError when fewer
  -- than n come before that.
  pub read_stream_exactly_lem :
      (n : ℕ) (s : FakeTlsStream) (plain : List ℕ)
      → Holds s plain
      → Simulates (readexactly n plain) (read_stream_exactly arrived n s)
  unfolding readexactly read_stream_exactly
  read_stream_exactly_lem n s plain h =
      let filled =
        fill_buf_lem (suc (length s.reader)) n s plain h
          (omega (arith, Pending-le s.reader s.read_left h.rest h.pending)) in
      elim (Bool-cases (ltb (length plain) n)) [
        | inl short ↦ rw (short) (rw (rw (Filled, short) at filled) refl)
        | inr long ↦
            let (s', run, enough, h') = rw (Filled, long) at filled in
            let (bytes, rest) = taken n s' plain enough h' in
            rw (long) (record s' { read_buf = drop n s'.read_buf }, rw (run, bytes) refl, rest)
      ]
