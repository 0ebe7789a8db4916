-- ===== src/Splitter/Feeding.antt =====
-- All the calls of one connection: nothing is lost or reordered, and the parts do not depend on
-- the chunks.
use hide_self_tgws.Base.{
  ℕ, zero, suc, ◌≤◌, ◌<◌, true, false, Option, none, some, List, [], ◌∷◌, ◌++◌, length, take, drop,
  ok, ◌≡◌, refl, ap, ◌∙◌, sym, join, map, All, inl, inr, arith, length-append, length-drop,
  append_assoc, append-nil, drop_append_left, Bool-cases, Result-cases,
}
use hide_self_tgws.Splitter.{MsgSplitter, next_packet_len, split, flush, feed}
use hide_self_tgws.Splitter.Framing.{
  Framed, frame_packet, frames, next_packet_len_ok, next_packet_len-le,
}
use hide_self_tgws.Splitter.Loop.{frames_inv, frames_inv_done, cons_packet-inv}
use hide_self_tgws.Splitter.Chunking.{
  IsValid, split_total, split-append, then_split, after, split_framed, frames-packet,
  next_packet_len-append, ok-inj,
}

-- The chunks of a connection, each with its plain bytes.
abbrev pub ciphers : List (List ℕ × List ℕ) → List ℕ
ciphers ws = join (map (λ w. w.0) ws)

abbrev pub plains : List (List ℕ × List ℕ) → List ℕ
plains ws = join (map (λ w. w.1) ws)

abbrev pub InStep : List ℕ × List ℕ → Type 0
InStep w = length w.0 ≡ length w.1

pub length-ciphers :
    (ws : List (List ℕ × List ℕ)) → All InStep ws → length (ciphers ws) ≡ length (plains ws)
length-ciphers [] h = refl
length-ciphers ((c, p) ∷ ws) h =
    omega
      (arith, h.0, length-ciphers ws h.1, length-append c (ciphers ws), length-append p (plains ws))

feed_step :
    (s : MsgSplitter) (c p : List ℕ) (ws : List (List ℕ × List ℕ))
    (r r' : List (List ℕ) × MsgSplitter)
    → split s c p ≡ ok r
    → feed r.1 ws ≡ ok r'
    → feed s ((c, p) ∷ ws) ≡ ok (r.0 ++ r'.0, r'.1)
unfolding feed
feed_step s c p ws r r' e e' = rw (e, e') refl

pub join-append : (xs ys : List (List ℕ)) → join (xs ++ ys) ≡ join xs ++ join ys
join-append [] ys = refl
join-append (x ∷ xs) ys = rw (join-append xs ys) (sym (append_assoc x (join xs) (join ys)))

join-flush : (s : MsgSplitter) → join (flush s).0 ≡ s.cipher_buf
unfolding flush
join-flush s = flushed s.cipher_buf refl
  where
    flushed : (b : List ℕ) → s.cipher_buf ≡ b → join (flush s).0 ≡ s.cipher_buf
    flushed [] e = rw (e, flush) refl
    flushed (x ∷ xs) e = rw (e, flush) (append-nil (x ∷ xs))

-- For a splitter whose buffers have the same length, and are empty once it has given up, and
-- chunks that each come with as many plain bytes: feeding never raises, and the parts with what
-- stays buffered behind them (what `flush` sends at the end of the stream) are the bytes that
-- arrived, in order.
pub feed_total :
    (s : MsgSplitter) (ws : List (List ℕ × List ℕ))
    → IsValid s
    → All InStep ws
    → (r : List (List ℕ) × MsgSplitter) × (feed s ws ≡ ok r)
      × IsValid r.1
      × (join (r.0 ++ (flush r.1).0) ≡ s.cipher_buf ++ ciphers ws)
feed_total s [] v h =
    (([], s), unfold feed in refl, v, join-flush s ∙ sym (append-nil s.cipher_buf))
feed_total s ((c, p) ∷ ws) v h =
    let (r, run, d) = split_total s c p v h.0 in
    let (r', run', v', whole) = feed_total r.1 ws d.valid h.1 in
    (
      (r.0 ++ r'.0, r'.1),
      feed_step s c p ws r r' run run',
      v',
      ap join (append_assoc r.0 r'.0 (flush r'.1).0)
          ∙ join-append r.0 (r'.0 ++ (flush r'.1).0)
          ∙ ap (◌++◌ (join r.0)) whole
          ∙ sym (append_assoc (join r.0) r.1.cipher_buf (ciphers ws))
          ∙ rw d.joined (append_assoc s.cipher_buf c (ciphers ws)),
    )

module _ (proto : ℕ) (c2 p2 : List ℕ) where
  -- Where framing gives up on a stream it gives up on every longer one.
  abbrev StaysOff : ℕ → ℕ → List ℕ → List ℕ → Framed → Framed → Type 0
  StaysOff f g cipher plain r r2 =
      frames f proto cipher plain ≡ ok r
      → r.3 ≡ true
      → frames g proto (cipher ++ c2) (plain ++ p2) ≡ ok r2
      → r2.3 ≡ true

  off_case :
      (f g : ℕ) (cipher plain : List ℕ) (r r2 : Framed)
      → length cipher ≡ length plain
      → 0 < length cipher
      → ((n : ℕ) (r' r2' : Framed)
          → 0 < n
          → n ≤ length cipher
          → StaysOff f g (drop n cipher) (drop n plain) r' r2')
      → (o : Option ℕ) → next_packet_len proto plain 0 (length cipher) ≡ ok o
      → StaysOff (suc f) (suc g) cipher plain r r2
  off_case f g cipher plain r r2 same some_left ih none found run off run2 = absurd (
      unfold frame_packet in
      ground (arith, frames_inv f proto cipher plain r none some_left found run))
  off_case f g cipher plain r r2 same some_left ih (some zero) found run off run2 =
      unfold frame_packet in
      ground (
        arith,
        frames_inv g proto (cipher ++ c2) (plain ++ p2) r2 (some 0),
        next_packet_len-append proto plain p2 (length cipher) (length c2) 0,
        length-append cipher c2,
      )
  off_case f g cipher plain r r2 same some_left ih (some (suc n)) found run off run2 =
      let fits : suc n ≤ length cipher = next_packet_len-le proto plain (length cipher) found in
      let (r', inner, outer) =
        cons_packet-inv (take (suc n) cipher)
          (frames f proto (drop (suc n) cipher) (drop (suc n) plain)) r
          (sym (frames-packet f proto cipher plain (suc n) some_left (omega arith) found) ∙ run) in
      let found2 : next_packet_len proto (plain ++ p2) 0 (length (cipher ++ c2))
          ≡ ok (some (suc n)) =
        rw (length-append cipher c2) (
          next_packet_len-append proto plain p2 (length cipher) (length c2) (suc n) (omega arith)
            found) in
      let (r2', inner2, outer2) =
        cons_packet-inv (take (suc n) (cipher ++ c2))
          (frames g proto (drop (suc n) (cipher ++ c2)) (drop (suc n) (plain ++ p2))) r2
          (sym (
              frames-packet g proto (cipher ++ c2) (plain ++ p2) (suc n)
                (omega (arith, length-append cipher c2)) (omega arith) found2)
            ∙ run2) in
      rw outer2 (
        ih (suc n) r' r2' (omega arith) fits inner (rw outer at off) (
          rw
            (
              drop_append_left (suc n) cipher c2 fits,
              drop_append_left (suc n) plain p2 (omega arith),
            )
            at inner2))

  frames-off :
      (f g : ℕ) (cipher plain : List ℕ) (r r2 : Framed)
      → length cipher ≡ length plain
      → StaysOff f g cipher plain r r2
  frames-off zero g cipher plain r r2 same run off run2 = absurd (unfold frames in cc)
  frames-off (suc f) zero cipher plain r r2 same run off run2 = absurd (unfold frames in cc)
  frames-off (suc f) (suc g) [] plain r r2 same run off run2 =
      absurd (ground (arith, frames_inv_done (suc f) proto [] plain r (omega arith) run))
  frames-off (suc f) (suc g) (c ∷ cs) plain r r2 same run off run2 =
      let (o, found) = next_packet_len_ok proto plain (length (c ∷ cs)) (omega arith) in
      off_case f g (c ∷ cs) plain r r2 same (omega arith)
        (λ n r' r2' pos fits.
          frames-off f g (drop n (c ∷ cs)) (drop n plain) r' r2'
            (omega (arith, length-drop n (c ∷ cs), length-drop n plain)))
        o found run off run2

split-same :
    (s : MsgSplitter) (c p : List ℕ) (r : List (List ℕ) × MsgSplitter)
    → s.disabled ≡ true
    → split s c p ≡ ok r
    → r.1 ≡ s
unfolding split
split-same s [] p r off run = ground arith
split-same s (x ∷ xs) p r off run = ground arith

-- A splitter that has given up stays so when the call is given more bytes.
split-off :
    (s : MsgSplitter) (c p c2 p2 : List ℕ) (r r2 : List (List ℕ) × MsgSplitter)
    → IsValid s
    → length c ≡ length p
    → length c2 ≡ length p2
    → split s c p ≡ ok r
    → r.1.disabled ≡ true
    → split s (c ++ c2) (p ++ p2) ≡ ok r2
    → r2.1.disabled ≡ true
split-off s [] [] c2 p2 r r2 v same same2 run off run2 =
    let r-eq : ([], s) ≡ r = ok-inj ([], s) r (unfold split in run) in
    let s-off : s.disabled ≡ true = rw (← r-eq) at off in
    rw (split-same s c2 p2 r2 s-off run2) s-off
split-off s [] (x ∷ xs) c2 p2 r r2 v same same2 run off run2 = absurd (omega arith)
split-off s (x ∷ xs) p c2 p2 r r2 v same same2 run off run2 = elim (Bool-cases s.disabled) [
  | inl s-off ↦ rw (split-same s ((x ∷ xs) ++ c2) (p ++ p2) r2 s-off run2) s-off
  | inr on ↦
      let c = x ∷ xs in
      let (f, frame, i, cut) = split_framed s c p v on (omega arith) same in
      let (f2, frame2, i2, cut2) =
        split_framed s (c ++ c2) (p ++ p2) v on (omega arith)
          (omega (arith, length-append c c2, length-append p p2)) in
      let f-off : f.3 ≡ true = rw (ok-inj r (after s f) (sym run ∙ cut)) at off in
      let whole : frames (suc (length (s.cipher_buf ++ (c ++ c2)))) s.proto
            ((s.cipher_buf ++ c) ++ c2) ((s.plain_buf ++ p) ++ p2)
          ≡ ok f2 =
        rw (append_assoc s.cipher_buf c c2, append_assoc s.plain_buf p p2) frame2 in
      rw (ok-inj r2 (after s f2) (sym run2 ∙ cut2)) (
        frames-off s.proto c2 p2 _ _ (s.cipher_buf ++ c) (s.plain_buf ++ p) f f2
          (omega (arith, v.same_length, length-append s.cipher_buf c, length-append s.plain_buf p))
          frame f-off whole)
]

then_split-inv :
    (r1 : List (List ℕ) × MsgSplitter) (c p : List ℕ) (r : List (List ℕ) × MsgSplitter)
    → then_split r1 c p ≡ ok r
    → (r2 : List (List ℕ) × MsgSplitter) × (split r1.1 c p ≡ ok r2) × (r ≡ (r1.0 ++ r2.0, r2.1))
then_split-inv r1 c p r e = elim (Result-cases (split r1.1 c p)) [
  | inl (r2, run) ↦ (r2, run, ok-inj r _ (sym e ∙ rw run refl))
  | inr (x, run) ↦ absurd (ground arith)
]

-- The calls one by one give what one call with all the bytes gives, if that does not give up.
pub feed-split :
    (s : MsgSplitter) (ws : List (List ℕ × List ℕ)) (r : List (List ℕ) × MsgSplitter)
    → IsValid s
    → All InStep ws
    → split s (ciphers ws) (plains ws) ≡ ok r
    → r.1.disabled ≡ false
    → feed s ws ≡ ok r
feed-split s [] r v h run on = unfold feed in (unfold split in run)
feed-split s ((c, p) ∷ ws) r v h run on =
    let (r1, run1, d) = split_total s c p v h.0 in
    let all_same = length-ciphers ws h.1 in
    elim (Bool-cases r1.1.disabled) [
      | inl off ↦ absurd (
          ground (arith, split-off s c p (ciphers ws) (plains ws) r1 r v h.0 all_same run1 off run))
      | inr still_on ↦
          let both =
            sym (split-append s c p (ciphers ws) (plains ws) r1 v h.0 all_same run1 still_on)
            ∙ run in
          let (r2, run2, e) = then_split-inv r1 (ciphers ws) (plains ws) r both in
          feed_step s c p ws r1 r2 run1 (feed-split r1.1 ws r2 d.valid h.1 run2 (rw e at on))
          ∙ rw e refl
    ]
