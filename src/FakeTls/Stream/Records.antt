-- ===== src/FakeTls/Stream/Records.antt =====
-- The records of a connection, and that one read of their payload gives the next bytes.
use hide_self_tgws.Base.{
  ℕ, zero, suc, ◌+◌, ◌-◌, ◌≤◌, ◌<◌, min, false, List, [], ◌∷◌, ◌++◌, length, take, drop, slice, ltb,
  ◌==◌, if◌then◌else◌, Result, ok, err, incomplete_read_error, ◌≡◌, ◌⊎◌, inl, inr, refl, sym, ap,
  ap₂, ◌∙◌, arith, All, append_assoc, length-append, length-take, take-append-drop,
  take_append_left, drop_append_left, take_of_length-le, lt→ltb, le→not-ltb,
}
use hide_self_tgws.Base.Bytes.{
  byte_at, unpack_h_big, to_bytes_big, length-to_bytes_big, from_bytes_big-to_bytes_big,
}
use hide_self_tgws.Base.Reader.{
  readexactly, read_size, read_some, readexactly-append, read_size_bounds,
}
use hide_self_tgws.FakeTls.{tls_record, tls_record_ccs, tls_record_appdata}
use hide_self_tgws.FakeTls.Stream.{FakeTlsStream, read_appdata, next_record, read_tls_payload}

-- The records that a peer sends: application data, and the one of the handshake that is skipped.
pub data TlsRecord : Type 0 where
  appdata : List ℕ → TlsRecord
  change_cipher : List ℕ → TlsRecord

abbrev pub record_bytes : TlsRecord → List ℕ
record_bytes (appdata payload) = tls_record tls_record_appdata payload
record_bytes (change_cipher payload) = tls_record tls_record_ccs payload

abbrev pub Fits : TlsRecord → Type 0
Fits (appdata payload) = length payload < 65536
Fits (change_cipher payload) = length payload < 65536

unfoldable pub wire_of : List TlsRecord → List ℕ
wire_of [] = []
wire_of (r ∷ records) = record_bytes r ++ wire_of records

-- What the records carry; the stream takes an application data record without bytes for the end.
unfoldable pub plain_of : List TlsRecord → List ℕ
plain_of [] = []
plain_of (appdata [] ∷ records) = []
plain_of (appdata (b ∷ payload) ∷ records) = (b ∷ payload) ++ plain_of records
plain_of (change_cipher payload ∷ records) = plain_of records

-- The bytes to come are the rest of a record that is being read, then whole records up to the end of
-- the connection; `plain` is what they carry.
pub record Pending (reader : List ℕ) (left : ℕ) (plain : List ℕ) : Type 0 where
  pub front : List ℕ
  pub records : List TlsRecord
  pub fits : All Fits records
  pub reader_is : reader ≡ front ++ wire_of records
  pub left_is : length front ≡ left
  pub plain_is : plain ≡ front ++ plain_of records

header_read :
    (rtype : ℕ) (payload wire : List ℕ)
    → (hdr : List ℕ) × (readexactly 5 (tls_record rtype payload ++ wire)
        ≡ ok (hdr, payload ++ wire))
      × (byte_at hdr 0 ≡ ok rtype)
      × (length payload < 65536 → unpack_h_big hdr 3 ≡ ok (length payload))
unfolding tls_record byte_at unpack_h_big slice drop
header_read rtype payload wire =
    let field = to_bytes_big 2 (length payload) in
    let two : length field ≡ 2 = length-to_bytes_big 2 (length payload) in
    (
      rtype ∷ 3 ∷ 3 ∷ field,
      ap (λ t. readexactly 5 (rtype ∷ 3 ∷ 3 ∷ t)) (append_assoc field payload wire)
          ∙ readexactly-append 5 (rtype ∷ 3 ∷ 3 ∷ field) (payload ++ wire) (omega (arith, two)),
      refl,
      λ small.
          rw
            (
              le→not-ltb (length (rtype ∷ 3 ∷ 3 ∷ field)) 5 (omega (arith, two)),
              take_of_length-le 2 field (omega (arith, two)),
              from_bytes_big-to_bytes_big 2 (length payload) (omega (arith, small)),
            )
            refl,
    )

length_record :
    (rtype : ℕ) (payload wire : List ℕ) → length wire < length (tls_record rtype payload ++ wire)
unfolding tls_record
length_record rtype payload wire =
    omega (arith, length-append (to_bytes_big 2 (length payload) ++ payload) wire)

module _ (arrived : List ℕ → ℕ) where
  -- A read of at most `n` of the bytes `front` in front of `wire`.
  read_some-front :
      (n : ℕ) (front wire : List ℕ)
      → 0 < n
      → n ≤ length front
      → (a b : List ℕ) × (read_some arrived n (front ++ wire) ≡ (a, b ++ wire))
        × (front ≡ a ++ b)
        × (0 < length a)
  unfolding read_some
  read_some-front n front wire pos most =
      let k = read_size arrived n (front ++ wire) in
      let (low, high) = read_size_bounds arrived n (front ++ wire) pos in
      (
        take k front,
        drop k front,
        ap₂ (λ a b. (a, b)) (take_append_left k front wire (omega (arith, high, most)))
            (drop_append_left k front wire (omega (arith, high, most))),
        sym (take-append-drop k front),
        omega (arith, length-take k front, low, high, most),
      )

  -- What a read of the payload ends with.
  pub record Delivered (s : FakeTlsStream) (rest : List ℕ) (r : Result (List ℕ × FakeTlsStream))
      : Type 0 where
    pub payload : List ℕ
    pub after : FakeTlsStream
    pub remaining : List ℕ
    pub run : r ≡ ok (payload, after)
    pub some_bytes : 0 < length payload
    pub kept : after.read_buf ≡ s.read_buf
    pub split : rest ≡ payload ++ remaining
    pub pending : Pending after.reader after.read_left remaining

  next_record-ccs :
      (fuel : ℕ) (s : FakeTlsStream) (payload wire : List ℕ)
      → length payload < 65536
      → next_record arrived (suc fuel) s (tls_record tls_record_ccs payload ++ wire)
        ≡ next_record arrived fuel s wire
  unfolding next_record
  next_record-ccs fuel s payload wire small =
      let (hdr, run, first, len) = header_read tls_record_ccs payload wire in
      rw (next_record, run, first, len small, readexactly-append (length payload) payload wire refl)
        refl

  next_record-appdata :
      (fuel : ℕ) (s : FakeTlsStream) (payload wire : List ℕ)
      → length payload < 65536
      → next_record arrived (suc fuel) s (tls_record tls_record_appdata payload ++ wire)
        ≡ ok (read_appdata arrived s (payload ++ wire) (length payload))
  unfolding next_record
  next_record-appdata fuel s payload wire small =
      let (hdr, run, first, len) = header_read tls_record_appdata payload wire in
      rw (next_record, run, first, len small) refl

  read_appdata_eq :
      (s : FakeTlsStream) (reader : List ℕ) (n : ℕ) (a rest : List ℕ)
      → s.read_left ≡ 0
      → n < 65536
      → read_some arrived n reader ≡ (a, rest)
      → 0 < length a
      → read_appdata arrived s reader n ≡ (a, record s { reader = rest; read_left = n - length a })
  unfolding read_appdata
  read_appdata_eq s reader n a rest none_left small got some_bytes =
      let least : min n 65536 ≡ n = omega (arith, small) in
      let not_empty : (length a == 0) ≡ false = ground (arith, some_bytes) in
      let left : (if ltb 0 (n - length a) then n - length a else s.read_left) ≡ n - length a =
        ground (arith, none_left) in
      rw (read_appdata, least, got, not_empty, left) refl

  read_appdata_lem :
      (s : FakeTlsStream) (payload : List ℕ) (records : List TlsRecord)
      → s.read_left ≡ 0
      → 0 < length payload
      → length payload < 65536
      → All Fits records
      → Delivered s
          (payload ++ plain_of records)
          (ok (read_appdata arrived s (payload ++ wire_of records) (length payload)))
  read_appdata_lem s payload records none_left some_payload small more =
      let (a, b, got, parts, some_bytes) =
        read_some-front (length payload) payload (wire_of records) some_payload (omega arith) in
      let whole : length payload ≡ length a + length b =
        omega (arith, ap length parts, length-append a b) in
      record {
        payload = a;
        after = record s { reader = b ++ wire_of records; read_left = length payload - length a };
        remaining = b ++ plain_of records;
        run = ap ok (
            read_appdata_eq s (payload ++ wire_of records) (length payload) a (b ++ wire_of records)
              none_left small got some_bytes);
        some_bytes = some_bytes;
        kept = refl;
        split = ap (λ t. t ++ plain_of records) parts ∙ append_assoc a b (plain_of records);
        pending = record {
          front = b;
          records = records;
          fits = more;
          reader_is = refl;
          left_is = omega (arith, whole);
          plain_is = refl;
        };
      }

  -- Nothing left to deliver: the next header does not come, or it is that of an empty record.
  abbrev pub Ended : List ℕ → Result (List ℕ × FakeTlsStream) → Type 0
  Ended rest r =
      (rest ≡ [])
      × ((r ≡ err incomplete_read_error) ⊎ ((after : FakeTlsStream) × (r ≡ ok ([], after))))

  read_appdata-empty :
      (s : FakeTlsStream) (reader : List ℕ)
      → read_appdata arrived s reader 0 ≡ ([], record s { reader = reader })
  unfolding read_appdata read_some read_size take drop
  read_appdata-empty s reader = refl

  next_record_lem :
      (fuel : ℕ) (s : FakeTlsStream) (records : List TlsRecord)
      → s.read_left ≡ 0
      → All Fits records
      → length (wire_of records) < fuel
      → Ended (plain_of records) (next_record arrived fuel s (wire_of records))
        ⊎ Delivered s (plain_of records) (next_record arrived fuel s (wire_of records))
  unfolding wire_of plain_of
  next_record_lem zero s records none_left fits enough = absurd (omega arith)
  next_record_lem (suc fuel) s [] none_left fits enough =
      inl (refl, inl (unfold next_record readexactly in refl))
  next_record_lem (suc fuel) s (appdata [] ∷ records) none_left fits enough = inl (
    refl,
    inr (
      record s { reader = wire_of records },
      next_record-appdata fuel s [] (wire_of records) fits.0
          ∙ ap ok (read_appdata-empty s (wire_of records)),
    ),
  )
  next_record_lem (suc fuel) s (appdata (b ∷ bs) ∷ records) none_left fits enough = inr (
      rw (next_record-appdata fuel s (b ∷ bs) (wire_of records) fits.0)
        (read_appdata_lem s (b ∷ bs) records none_left (omega arith) fits.0 fits.1))
  next_record_lem (suc fuel) s (change_cipher payload ∷ records) none_left fits enough =
      rw (next_record-ccs fuel s payload (wire_of records) fits.0) (
        next_record_lem fuel s records none_left fits.1
          (omega (arith, enough, length_record tls_record_ccs payload (wire_of records))))

  read_left_eq :
      (s : FakeTlsStream) (a rest : List ℕ)
      → 0 < s.read_left
      → read_some arrived s.read_left s.reader ≡ (a, rest)
      → 0 < length a
      → read_tls_payload arrived s
        ≡ ok (a, record s { reader = rest; read_left = s.read_left - length a })
  unfolding read_tls_payload
  read_left_eq s a rest left got some_bytes =
      let not_empty : (length a == 0) ≡ false = ground (arith, some_bytes) in
      rw (read_tls_payload, lt→ltb 0 s.read_left left, got, not_empty) refl

  next_record_eq :
      (s : FakeTlsStream)
      → s.read_left ≡ 0
      → read_tls_payload arrived s ≡ next_record arrived (suc (length s.reader)) s s.reader
  unfolding read_tls_payload
  next_record_eq s none_left = rw (read_tls_payload, none_left) refl

  -- A read of the payload gives the next bytes, at least one while there are any.
  pub read_tls_payload_lem :
      (s : FakeTlsStream) (rest : List ℕ)
      → Pending s.reader s.read_left rest
      → Ended rest (read_tls_payload arrived s) ⊎ Delivered s rest (read_tls_payload arrived s)
  read_tls_payload_lem s rest p = cases p.front p.left_is p.reader_is p.plain_is
    where
      cases :
          (front : List ℕ)
          → length front ≡ s.read_left
          → s.reader ≡ front ++ wire_of p.records
          → rest ≡ front ++ plain_of p.records
          → Ended rest (read_tls_payload arrived s) ⊎ Delivered s rest (read_tls_payload arrived s)
      cases [] left at_wire is =
          let run : read_tls_payload arrived s
              ≡ next_record arrived (suc (length (wire_of p.records))) s (wire_of p.records) =
            next_record_eq s (sym left)
            ∙ ap (λ w. next_record arrived (suc (length w)) s w) at_wire in
          rw (run, is)
            (next_record_lem (suc (length (wire_of p.records))) s p.records (sym left) p.fits
              (omega arith))
      cases (x ∷ xs) left at_wire is =
          let front = x ∷ xs in
          let (a, b, got, parts, some_bytes) =
            read_some-front s.read_left front (wire_of p.records) (omega (arith, left))
              (omega (arith, left)) in
          let whole : length front ≡ length a + length b =
            omega (arith, ap length parts, length-append a b) in
          inr record {
            payload = a;
            after = record s {
              reader = b ++ wire_of p.records;
              read_left = s.read_left - length a;
            };
            remaining = b ++ plain_of p.records;
            run =
                read_left_eq s a (b ++ wire_of p.records) (omega (arith, left)) (rw at_wire got)
                  some_bytes;
            some_bytes = some_bytes;
            kept = refl;
            split =
                is
                ∙ ap (λ t. t ++ plain_of p.records) parts
                ∙ append_assoc a b (plain_of p.records);
            pending = record {
              front = b;
              records = p.records;
              fits = p.fits;
              reader_is = refl;
              left_is = omega (arith, whole, left);
              plain_is = refl;
            };
          }
