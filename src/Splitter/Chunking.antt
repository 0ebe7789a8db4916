-- ===== src/Splitter/Chunking.antt =====
-- What a connection's calls of `split` give, however the network cuts the stream.
use hide_self_tgws.Base.{
  ℕ, zero, suc, ◌+◌, ◌-◌, ◌*◌, bit_and, ◌≤◌, ◌<◌, true, false, Option, none, some, List, [], ◌∷◌,
  ◌++◌, length, take, drop, slice, Result, ok, err, ◌>>=◌, ◌≡◌, refl, ap, ap₂, ◌∙◌, inl, inr, join,
  sym, arith, length-append, length-drop, append_assoc, append-nil, take_append_left,
  drop_append_left, lt→ltb, suc-leb-zero, Bool-cases, Result-cases,
}
use hide_self_tgws.Base.Bytes.{byte_at, unpack_i_little, from_bytes_little}
use hide_self_tgws.Splitter.{
  MsgSplitter, checked_len, next_packet_len, next_abridged_len, next_intermediate_len,
  abridged_len_from, split,
}
use hide_self_tgws.Splitter.Framing.{
  Framed, cons_packet, frame_packet, frames, IsFramed, frames_lem, next_packet_len_ok,
  next_packet_len-le,
}
use hide_self_tgws.Splitter.Loop.{split-frames, frames_inv, frames_inv_done, cons_packet-inv}

-- The buffers run in step, and nothing is buffered once splitting has been given up.
pub record IsValid (s : MsgSplitter) : Type 0 where
  pub same_length : length s.cipher_buf ≡ length s.plain_buf
  pub nothing_kept : s.disabled ≡ true → s.cipher_buf ≡ []

-- What one call gives.
pub record Splits (s : MsgSplitter) (chunk : List ℕ) (r : List (List ℕ) × MsgSplitter)
    : Type 0 where
  pub joined : join r.0 ++ r.1.cipher_buf ≡ s.cipher_buf ++ chunk
  pub valid : IsValid r.1
  pub same_proto : r.1.proto ≡ s.proto

-- For a splitter whose buffers have the same length, and are empty once it has given up, and a
-- chunk with as many plain bytes: splitting never raises; the parts and what stays buffered are
-- the stream, in order, and the splitter is again such a one, of the same protocol.
pub split_total :
    (s : MsgSplitter) (chunk plain : List ℕ)
    → IsValid s
    → length chunk ≡ length plain
    → (r : List (List ℕ) × MsgSplitter) × (split s chunk plain ≡ ok r) × Splits s chunk r
split_total s [] plain v same = (
  ([], s),
  unfold split in refl,
  record { joined = sym (append-nil s.cipher_buf); valid = v; same_proto = refl },
)
split_total s (b ∷ bs) plain v same = elim (Bool-cases s.disabled) [
  | inl off ↦ (
    ((b ∷ bs) ∷ [], s),
    unfold split in rw off refl,
    record {
      joined = rw (v.nothing_kept off, append-nil, append-nil) refl;
      valid = v;
      same_proto = refl;
    },
  )
  | inr on ↦
      let cipher = s.cipher_buf ++ (b ∷ bs) in
      let all_plain = s.plain_buf ++ plain in
      let (r, run, i) =
        frames_lem (suc (length cipher)) s.proto cipher all_plain
          (omega (
            arith,
            v.same_length,
            length-append s.cipher_buf (b ∷ bs),
            length-append s.plain_buf plain,
          ))
          (omega arith) in
      (
        (r.0, record s { cipher_buf = r.1; plain_buf = r.2; disabled = r.3 }),
        split-frames s (b ∷ bs) plain r on (omega arith) v.same_length same i run,
        record {
          joined = i.joined;
          valid = record { same_length = i.same_length; nothing_kept = i.all_given };
          same_proto = refl;
        },
      )
]

slice-append :
    (a b : ℕ) (xs ys : List ℕ) → a ≤ b → b ≤ length xs → slice a b (xs ++ ys) ≡ slice a b xs
unfolding slice
slice-append a b xs ys h k =
    rw (drop_append_left a xs ys (omega arith))
      (take_append_left (b - a) (drop a xs) ys (omega (arith, length-drop a xs)))

checked_len-append :
    (header payload avail extra n : ℕ)
    → checked_len header payload avail ≡ some n
    → checked_len header payload (avail + extra) ≡ some n
unfolding checked_len
checked_len-append header payload avail extra n e = ground arith

abridged_len_from-append :
    (plain more : List ℕ) (avail extra n first : ℕ)
    → avail ≤ length plain
    → abridged_len_from plain 0 avail first ≡ some n
    → abridged_len_from (plain ++ more) 0 (avail + extra) first ≡ some n
unfolding abridged_len_from
abridged_len_from-append plain more avail extra n first h e = ground (
  arith,
  slice-append 1 4 plain more,
  checked_len-append 4 (from_bytes_little (slice 1 4 plain) * 4) avail extra n,
  checked_len-append 1 (bit_and first 0x7F * 4) avail extra n,
)

next_intermediate_len-append :
    (plain more : List ℕ) (avail extra n : ℕ)
    → avail ≤ length plain
    → next_intermediate_len plain 0 avail ≡ ok (some n)
    → next_intermediate_len (plain ++ more) 0 (avail + extra) ≡ ok (some n)
unfolding next_intermediate_len unpack_i_little
next_intermediate_len-append plain more avail extra n h e = ground (
  arith,
  slice-append 0 4 plain more,
  length-append plain more,
  checked_len-append 4 (bit_and (from_bytes_little (slice 0 4 plain)) 0x7FFFFFFF) avail extra n,
)

next_abridged_len-append :
    (plain more : List ℕ) (avail extra n : ℕ)
    → avail ≤ length plain
    → 0 < avail
    → next_abridged_len plain 0 avail ≡ ok (some n)
    → next_abridged_len (plain ++ more) 0 (avail + extra) ≡ ok (some n)
unfolding next_abridged_len
next_abridged_len-append [] more avail extra n h pos e = absurd (omega arith)
next_abridged_len-append (b ∷ bs) more avail extra n h pos e =
    unfold byte_at in ground (arith, abridged_len_from-append (b ∷ bs) more avail extra n b)

-- A length that was read stays as it is when more of the stream arrives.
pub next_packet_len-append :
    (proto : ℕ) (plain more : List ℕ) (avail extra n : ℕ)
    → avail ≤ length plain
    → next_packet_len proto plain 0 avail ≡ ok (some n)
    → next_packet_len proto (plain ++ more) 0 (avail + extra) ≡ ok (some n)
unfolding next_packet_len
next_packet_len-append proto plain more avail extra n h e = ground (
  arith,
  next_abridged_len-append plain more avail extra n,
  next_intermediate_len-append plain more avail extra n,
)

-- The frames in front of a framing.
abbrev prepend : List (List ℕ) → Result Framed → Result Framed
prepend ps m = m >>= λ (qs, rest, plain, off). ok (ps ++ qs, rest, plain, off)

prepend-nil : (m : Result Framed) → prepend [] m ≡ m
prepend-nil (ok r) = refl
prepend-nil (err e) = refl

cons_packet-prepend :
    (p : List ℕ) (ps : List (List ℕ)) (m : Result Framed)
    → cons_packet p (prepend ps m) ≡ prepend (p ∷ ps) m
cons_packet-prepend p ps (ok r) = refl
cons_packet-prepend p ps (err e) = refl

-- One round of the framing, and the last one.
pub frames_round :
    (fuel proto : ℕ) (cipher plain : List ℕ) (o : Option ℕ)
    → 0 < length cipher
    → next_packet_len proto plain 0 (length cipher) ≡ ok o
    → frames (suc fuel) proto cipher plain
      ≡ frame_packet (λ c p. frames fuel proto c p) cipher plain o
unfolding frames
frames_round fuel proto cipher plain o h found = rw (lt→ltb 0 (length cipher) h, found, frames) refl

pub frames-packet :
    (fuel proto : ℕ) (cipher plain : List ℕ) (n : ℕ)
    → 0 < length cipher
    → 0 < n
    → next_packet_len proto plain 0 (length cipher) ≡ ok (some n)
    → frames (suc fuel) proto cipher plain
      ≡ cons_packet (take n cipher) (frames fuel proto (drop n cipher) (drop n plain))
unfolding frame_packet
frames-packet fuel proto cipher plain zero h pos found = absurd (omega arith)
frames-packet fuel proto cipher plain (suc n) h pos found =
    frames_round fuel proto cipher plain (some (suc n)) h found ∙ rw suc-leb-zero refl

fuel_case :
    (f g proto : ℕ) (cipher plain : List ℕ)
    → 0 < length cipher
    → ((n : ℕ)
        → 0 < n
        → n ≤ length cipher
        → frames f proto (drop n cipher) (drop n plain)
          ≡ frames g proto (drop n cipher) (drop n plain))
    → (o : Option ℕ) → next_packet_len proto plain 0 (length cipher) ≡ ok o
    → frames (suc f) proto cipher plain ≡ frames (suc g) proto cipher plain
unfolding frame_packet
fuel_case f g proto cipher plain h ih none found =
    frames_round f proto cipher plain none h found
    ∙ sym (frames_round g proto cipher plain none h found)
fuel_case f g proto cipher plain h ih (some zero) found =
    frames_round f proto cipher plain (some 0) h found
    ∙ sym (frames_round g proto cipher plain (some 0) h found)
fuel_case f g proto cipher plain h ih (some (suc n)) found =
    frames-packet f proto cipher plain (suc n) h (omega arith) found
    ∙ ap (cons_packet (take (suc n) cipher))
        (ih (suc n) (omega arith) (next_packet_len-le proto plain (length cipher) found))
    ∙ sym (frames-packet g proto cipher plain (suc n) h (omega arith) found)

-- Any fuel beyond the stream's length gives the same framing.
pub frames_fuel :
    (f g proto : ℕ) (cipher plain : List ℕ)
    → length cipher ≡ length plain
    → length cipher < f
    → length cipher < g
    → frames f proto cipher plain ≡ frames g proto cipher plain
frames_fuel zero g proto cipher plain same hf hg = absurd (omega arith)
frames_fuel (suc f) zero proto cipher plain same hf hg = absurd (omega arith)
frames_fuel (suc f) (suc g) proto [] plain same hf hg = unfold frames in refl
frames_fuel (suc f) (suc g) proto (c ∷ cs) plain same hf hg =
    let (o, found) = next_packet_len_ok proto plain (length (c ∷ cs)) (omega arith) in
    fuel_case f g proto (c ∷ cs) plain (omega arith)
      (λ n pos fits.
        frames_fuel f g proto (drop n (c ∷ cs)) (drop n plain)
          (omega (arith, length-drop n (c ∷ cs), length-drop n plain))
          (omega (arith, length-drop n (c ∷ cs))) (omega (arith, length-drop n (c ∷ cs))))
      o found

module _ (proto : ℕ) (c2 p2 : List ℕ) where
  -- The framing of a longer stream begins with the packets of the shorter one.
  abbrev Extends : ℕ → ℕ → ℕ → List ℕ → List ℕ → Framed → Type 0
  Extends f g h cipher plain r =
      frames f proto cipher plain ≡ ok r
      → r.3 ≡ false
      → length (cipher ++ c2) < g
      → length (r.1 ++ c2) < h
      → frames g proto (cipher ++ c2) (plain ++ p2)
        ≡ prepend r.0 (frames h proto (r.1 ++ c2) (r.2 ++ p2))

  append_waits :
      (g h : ℕ) (cipher plain : List ℕ) (r : Framed)
      → length c2 ≡ length p2
      → length cipher ≡ length plain
      → r ≡ ([], cipher, plain, false)
      → length (cipher ++ c2) < g
      → length (r.1 ++ c2) < h
      → frames g proto (cipher ++ c2) (plain ++ p2)
        ≡ prepend r.0 (frames h proto (r.1 ++ c2) (r.2 ++ p2))
  append_waits g h cipher plain r same2 same e hg hh =
      rw (e, prepend-nil)
        (frames_fuel g h proto (cipher ++ c2) (plain ++ p2)
          (omega (arith, length-append cipher c2, length-append plain p2)) hg (rw e at hh))

  append_case :
      (f g h : ℕ) (cipher plain : List ℕ) (r : Framed)
      → length c2 ≡ length p2
      → length cipher ≡ length plain
      → 0 < length cipher
      → ((n : ℕ) (r' : Framed)
          → 0 < n
          → n ≤ length cipher
          → Extends f g h (drop n cipher) (drop n plain) r')
      → (o : Option ℕ) → next_packet_len proto plain 0 (length cipher) ≡ ok o
      → Extends (suc f) (suc g) h cipher plain r
  append_case f g h cipher plain r same2 same some_left ih none found run on hg hh =
      append_waits (suc g) h cipher plain r same2 same
        (unfold frame_packet in
          ground (arith, frames_inv f proto cipher plain r none some_left found run))
        hg hh
  append_case f g h cipher plain r same2 same some_left ih (some zero) found run on hg hh = absurd (
      unfold frame_packet in
      ground (arith, frames_inv f proto cipher plain r (some 0) some_left found run))
  append_case f g h cipher plain r same2 same some_left ih (some (suc n)) found run on hg hh =
      let fits : suc n ≤ length cipher = next_packet_len-le proto plain (length cipher) found in
      let p = take (suc n) cipher in
      let (r', inner, outer) =
        cons_packet-inv p (frames f proto (drop (suc n) cipher) (drop (suc n) plain)) r
          (sym (frames-packet f proto cipher plain (suc n) some_left (omega arith) found) ∙ run) in
      frames-packet g proto (cipher ++ c2) (plain ++ p2) (suc n)
        (omega (arith, length-append cipher c2)) (omega arith)
        (rw (length-append cipher c2) (
          next_packet_len-append proto plain p2 (length cipher) (length c2) (suc n) (omega arith)
            found))
      ∙ ap₂ cons_packet (take_append_left (suc n) cipher c2 fits) (
          ap₂ (frames g proto) (drop_append_left (suc n) cipher c2 fits)
            (drop_append_left (suc n) plain p2 (omega arith)))
      ∙ ap (cons_packet p) (
          ih (suc n) r' (omega arith) fits inner (rw outer at on)
            (omega (
              arith,
              length-append cipher c2,
              length-append (drop (suc n) cipher) c2,
              length-drop (suc n) cipher,
            ))
            (rw outer at hh))
      ∙ rw outer (cons_packet-prepend p r'.0 (frames h proto (r'.1 ++ c2) (r'.2 ++ p2)))

  frames-append :
      (f g h : ℕ) (cipher plain : List ℕ) (r : Framed)
      → length c2 ≡ length p2
      → length cipher ≡ length plain
      → Extends f g h cipher plain r
  frames-append zero g h cipher plain r same2 same run on hg hh = unfold frames in cc
  frames-append (suc f) zero h cipher plain r same2 same run on hg hh = absurd (omega arith)
  frames-append (suc f) (suc g) h [] plain r same2 same run on hg hh =
      append_waits (suc g) h [] plain r same2 same
        (frames_inv_done (suc f) proto [] plain r (omega arith) run) hg hh
  frames-append (suc f) (suc g) h (c ∷ cs) plain r same2 same run on hg hh =
      let (o, found) = next_packet_len_ok proto plain (length (c ∷ cs)) (omega arith) in
      append_case f g h (c ∷ cs) plain r same2 same (omega arith)
        (λ n r' pos fits.
          frames-append f g h (drop n (c ∷ cs)) (drop n plain) r' same2
            (omega (arith, length-drop n (c ∷ cs), length-drop n plain)))
        o found run on hg hh

-- Two calls, and the one call with their bytes joined.
abbrev pub then_split :
    List (List ℕ) × MsgSplitter → List ℕ → List ℕ → Result (List (List ℕ) × MsgSplitter)
then_split r chunk plain = do (more, s') ← split r.1 chunk plain; ok (r.0 ++ more, s')

-- The splitter that a framing leaves.
abbrev pub after : MsgSplitter → Framed → List (List ℕ) × MsgSplitter
after s r = (r.0, record s { cipher_buf = r.1; plain_buf = r.2; disabled = r.3 })

-- A call on some bytes, as the framing of the buffers with them behind.
pub split_framed :
    (s : MsgSplitter) (chunk plain : List ℕ)
    → IsValid s
    → s.disabled ≡ false
    → 0 < length chunk
    → length chunk ≡ length plain
    → (r : Framed) × (frames
          (suc (length (s.cipher_buf ++ chunk)))
          s.proto
          (s.cipher_buf ++ chunk)
          (s.plain_buf ++ plain)
        ≡ ok r)
      × IsFramed s.proto (s.cipher_buf ++ chunk) (s.plain_buf ++ plain) r
      × (split s chunk plain ≡ ok (after s r))
split_framed s chunk plain v on some_given same =
    let (r, run, i) =
      frames_lem (suc (length (s.cipher_buf ++ chunk))) s.proto (s.cipher_buf ++ chunk)
        (s.plain_buf ++ plain)
        (omega
          (arith, v.same_length, length-append s.cipher_buf chunk, length-append s.plain_buf plain))
        (omega arith) in
    (r, run, i, split-frames s chunk plain r on some_given v.same_length same i run)

pub split_disabled :
    (s : MsgSplitter) (chunk plain : List ℕ)
    → s.disabled ≡ true
    → 0 < length chunk
    → split s chunk plain ≡ ok (chunk ∷ [], s)
unfolding split
split_disabled s [] plain off h = absurd (omega arith)
split_disabled s (b ∷ bs) plain off h = rw off refl

pub ok-inj {ℓ} : {A : Type ℓ} (a b : A) → ok a ≡ ok b → a ≡ b
ok-inj a b e = cc

then_split_nothing :
    (s : MsgSplitter) (chunk plain : List ℕ) → split s chunk plain ≡ then_split ([], s) chunk plain
then_split_nothing s chunk plain = elim (Result-cases (split s chunk plain)) [
  | inl (r, e) ↦ rw e refl
  | inr (x, e) ↦ rw e refl
]

-- For a splitter whose buffers have the same length, and are empty once it has given up, and
-- chunks with as many plain bytes each: if the first call has not given up splitting, one call
-- with the two chunks joined gives the parts of the two calls, and the same splitter.
pub split-append :
    (s : MsgSplitter) (chunk plain chunk2 plain2 : List ℕ) (r : List (List ℕ) × MsgSplitter)
    → IsValid s
    → length chunk ≡ length plain
    → length chunk2 ≡ length plain2
    → split s chunk plain ≡ ok r
    → r.1.disabled ≡ false
    → split s (chunk ++ chunk2) (plain ++ plain2) ≡ then_split r chunk2 plain2
split-append s [] [] chunk2 plain2 r v same same2 run on =
    rw (sym (ok-inj ([], s) r (unfold split in run))) (then_split_nothing s chunk2 plain2)
split-append s [] (p ∷ ps) chunk2 plain2 r v same same2 run on = absurd (omega arith)
split-append s (c ∷ cs) plain [] [] r v same same2 run on =
    rw (append-nil cs, append-nil plain, run) (unfold split in rw append-nil refl)
split-append s (c ∷ cs) plain [] (p ∷ ps) r v same same2 run on = absurd (omega arith)
split-append s (c ∷ cs) plain (d ∷ ds) plain2 r v same same2 run on = elim (Bool-cases s.disabled) [
  | inl off ↦ absurd (ground (arith, split_disabled s (c ∷ cs) plain off (omega arith)))
  | inr still_on ↦
      let chunk = c ∷ cs in
      let chunk2 = d ∷ ds in
      let (r0, frame0, i0, split0) = split_framed s chunk plain v still_on (omega arith) same in
      let r-eq : r ≡ after s r0 = ok-inj r (after s r0) (sym run ∙ split0) in
      let on0 : r0.3 ≡ false = rw r-eq at on in
      let s' = (after s r0).1 in
      let v' : IsValid s' = record { same_length = i0.same_length; nothing_kept = i0.all_given } in
      let (r1, frame1, i1, split1) = split_framed s' chunk2 plain2 v' on0 (omega arith) same2 in
      let (r2, frame2, i2, split2) =
        split_framed s (chunk ++ chunk2) (plain ++ plain2) v still_on (omega arith)
          (omega (arith, length-append chunk chunk2, length-append plain plain2)) in
      let cb = s.cipher_buf in
      let pb = s.plain_buf in
      let whole : frames (suc (length (cb ++ (chunk ++ chunk2)))) s.proto ((cb ++ chunk) ++ chunk2)
            ((pb ++ plain) ++ plain2)
          ≡ ok r2 =
        rw (append_assoc cb chunk chunk2, append_assoc pb plain plain2) frame2 in
      let joined =
        frames-append s.proto chunk2 plain2 (suc (length (cb ++ chunk)))
          (suc (length (cb ++ (chunk ++ chunk2)))) (suc (length (r0.1 ++ chunk2))) (cb ++ chunk)
          (pb ++ plain) r0 same2
          (omega (arith, v.same_length, length-append cb chunk, length-append pb plain)) frame0 on0
          (rw (append_assoc cb chunk chunk2) (omega arith)) (omega arith) in
      let r2-eq : ok r2 ≡ ok (r0.0 ++ r1.0, r1.1, r1.2, r1.3) =
        sym whole ∙ joined ∙ ap (prepend r0.0) frame1 in
      rw (split2, r-eq, split1, ok-inj r2 _ r2-eq) refl
]
