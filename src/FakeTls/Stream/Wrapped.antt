-- ===== src/FakeTls/Stream/Wrapped.antt =====
-- A FakeTlsStream reads back what `wrap_tls_record` wrote, and never reads too much at once.
use hide_self_tgws.Base.{
  ℕ, ◌≤◌, ◌<◌, List, [], ◌∷◌, ◌++◌, length, take, drop, ltb, if◌then◌else◌, Result, ok, ◌≡◌, inl,
  inr, refl, sym, ap, ◌∙◌, arith, All, join, map, append_assoc, length-take, take-append-drop,
  Bool-cases,
}
use hide_self_tgws.Base.Reader.{readexactly}
use hide_self_tgws.FakeTls.{tls_record, tls_record_appdata, wrap_tls_record}
use hide_self_tgws.FakeTls.Wrap.{FitsRecord, wrap_tls_record_lem}
use hide_self_tgws.FakeTls.Stream.{
  FakeTlsStream, new_stream, read_tls_payload, read_stream_exactly, read_stream,
}
use hide_self_tgws.FakeTls.Stream.Records.{appdata, Fits, wire_of, plain_of, read_tls_payload_lem}
use hide_self_tgws.FakeTls.Stream.Reading.{Holds, Simulates, read_stream_exactly_lem}
use hide_self_tgws.Splitter.Chunking.{ok-inj}

wire_of-appdata :
    (chunks : List (List ℕ))
    → wire_of (map appdata chunks) ≡ join (map (tls_record tls_record_appdata) chunks)
unfolding wire_of
wire_of-appdata [] = refl
wire_of-appdata (c ∷ chunks) = ap (◌++◌ (tls_record tls_record_appdata c)) (wire_of-appdata chunks)

plain_of-appdata :
    (chunks : List (List ℕ)) → All FitsRecord chunks → plain_of (map appdata chunks) ≡ join chunks
unfolding plain_of
plain_of-appdata [] h = refl
plain_of-appdata ([] ∷ chunks) h = absurd (omega (arith, h.0.0))
plain_of-appdata ((b ∷ bs) ∷ chunks) h = ap (◌++◌ (b ∷ bs)) (plain_of-appdata chunks h.1)

appdata-Fits : (chunks : List (List ℕ)) → All FitsRecord chunks → All Fits (map appdata chunks)
appdata-Fits [] h = tt
appdata-Fits (c ∷ chunks) h = (omega (arith, h.0.1), appdata-Fits chunks h.1)

pub wrapped-Holds :
    (plain wire : List ℕ) → wrap_tls_record plain ≡ ok wire → Holds (new_stream wire) plain
wrapped-Holds plain wire e =
    let (chunks, run, whole, fits) = wrap_tls_record_lem plain in
    record {
      rest = plain;
      pending = record {
        front = [];
        records = map appdata chunks;
        fits = appdata-Fits chunks fits;
        reader_is = ok-inj wire _ (sym e ∙ run) ∙ sym (wire_of-appdata chunks);
        left_is = refl;
        plain_is = sym whole ∙ sym (plain_of-appdata chunks fits);
      };
      plain_is = refl;
    }

module _ (arrived : List ℕ → ℕ) where
  -- What `wrap_tls_record` makes of any bytes, a FakeTlsStream at the other end gives back, however
  -- the network cuts it: `readexactly(n)` on it does what it does on the bytes themselves.
  pub read_stream_exactly-wrap_tls_record :
      (n : ℕ) (plain wire : List ℕ)
      → wrap_tls_record plain ≡ ok wire
      → Simulates (readexactly n plain) (read_stream_exactly arrived n (new_stream wire))
  read_stream_exactly-wrap_tls_record n plain wire e =
      read_stream_exactly_lem arrived n (new_stream wire) plain (wrapped-Holds plain wire e)

  -- The next chunk of a stream: not empty, not too long, and the rest is still to come.
  abbrev pub Chunk : ℕ → List ℕ → Result (List ℕ × FakeTlsStream) → Type 0
  Chunk n plain r =
      (chunk : List ℕ) × (after : FakeTlsStream) × (rest : List ℕ) × (r ≡ ok (chunk, after))
      × (0 < length chunk)
      × (length chunk ≤ n)
      × (plain ≡ chunk ++ rest)
      × Holds after rest

  read_stream-buffered :
      (n : ℕ) (s : FakeTlsStream) (plain : List ℕ)
      → 0 < n
      → 0 < length s.read_buf
      → Holds s plain
      → Chunk n plain (read_stream arrived n s)
  read_stream-buffered n s plain pos some_bytes h = by_buf s.read_buf refl
    where
      by_buf : (b : List ℕ) → s.read_buf ≡ b → Chunk n plain (read_stream arrived n s)
      by_buf [] e = absurd (omega (arith, some_bytes, ap length e))
      by_buf (x ∷ xs) e =
          let buf = x ∷ xs in
          (
            take n buf,
            record s { read_buf = drop n buf },
            drop n buf ++ h.rest,
            unfold read_stream in rw (read_stream, e) refl,
            omega (arith, pos, length-take n buf),
            omega (arith, length-take n buf),
            h.plain_is
                ∙ ap (λ t. t ++ h.rest) (e ∙ sym (take-append-drop n buf))
                ∙ append_assoc (take n buf) (drop n buf) h.rest,
            record { rest = h.rest; pending = h.pending; plain_is = refl },
          )

  read_stream-next :
      (n : ℕ) (s after : FakeTlsStream) (payload : List ℕ)
      → s.read_buf ≡ []
      → read_tls_payload arrived s ≡ ok (payload, after)
      → read_stream arrived n s ≡ (
          if ltb n (length payload)
          then ok (take n payload, record after { read_buf = after.read_buf ++ drop n payload })
          else ok (payload, after))
  unfolding read_stream
  read_stream-next n s after payload e run = rw (read_stream, e, run) refl

  -- For a stream that has `plain` to give, at least one byte, `read(n)` with n at least 1 returns
  -- between one and n bytes, the next ones, and the stream has the others to give.
  pub read_stream_lem :
      (n : ℕ) (s : FakeTlsStream) (plain : List ℕ)
      → 0 < n
      → 0 < length plain
      → Holds s plain
      → Chunk n plain (read_stream arrived n s)
  read_stream_lem n s plain pos more h = elim (Bool-cases (ltb 0 (length s.read_buf))) [
    | inl kept ↦ read_stream-buffered n s plain pos (ground (arith, kept)) h
    | inr none_kept ↦
        let empty = no_bytes s.read_buf (ground (arith, none_kept)) in
        let plain_rest : plain ≡ h.rest = h.plain_is ∙ ap (λ t. t ++ h.rest) empty in
        elim (read_tls_payload_lem arrived s h.rest h.pending) [
          | inl ended ↦ absurd (omega (arith, more, ap length plain_rest, ap length ended.0))
          | inr d ↦ elim (Bool-cases (ltb n (length d.payload))) [
            | inl long ↦
                let lt : n < length d.payload = ground (arith, long) in
                (
                  take n d.payload,
                  record (d.after) { read_buf = d.after.read_buf ++ drop n d.payload },
                  drop n d.payload ++ d.remaining,
                  read_stream-next n s d.after d.payload empty d.run ∙ rw (long) refl,
                  omega (arith, pos, length-take n d.payload, d.some_bytes),
                  omega (arith, length-take n d.payload),
                  plain_rest
                      ∙ d.split
                      ∙ ap (λ t. t ++ d.remaining) (sym (take-append-drop n d.payload))
                      ∙ append_assoc (take n d.payload) (drop n d.payload) d.remaining,
                  record {
                    rest = d.remaining;
                    pending = d.pending;
                    plain_is =
                        ap (λ b. (b ++ drop n d.payload) ++ d.remaining) (sym empty ∙ sym d.kept);
                  },
                )
            | inr short ↦
                let le : length d.payload ≤ n = ground (arith, short) in
                (
                  d.payload,
                  d.after,
                  d.remaining,
                  read_stream-next n s d.after d.payload empty d.run ∙ rw (short) refl,
                  d.some_bytes,
                  le,
                  plain_rest ∙ d.split,
                  record {
                    rest = d.remaining;
                    pending = d.pending;
                    plain_is = ap (λ b. b ++ d.remaining) (sym empty ∙ sym d.kept);
                  },
                )
          ]
        ]
  ]
    where
      no_bytes : (b : List ℕ) → length b ≡ 0 → b ≡ []
      no_bytes [] e = refl
      no_bytes (x ∷ xs) e = absurd (omega (arith, e))
