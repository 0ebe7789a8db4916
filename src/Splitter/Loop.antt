-- ===== src/Splitter/Loop.antt =====
-- The loop of `split`, with its buffers and offsets, computes the framing.
use hide_self_tgws.Base.{
  ℕ, zero, suc, ◌+◌, ◌-◌, ◌≤◌, ◌<◌, false, Option, none, some, List, [], ◌∷◌, ◌++◌, length, take,
  drop, slice, ◌==◌, if◌then◌else◌, Result, ok, err, ◌≡◌, refl, ap, ◌∙◌, join, lt→ltb, le→not-ltb,
  suc-leb-zero, arith, drop-drop, length-drop, length-append, drop_append_self, take_of_length-le,
  ◌&&◌, dec_lt, sym, append_assoc, append-nil,
}
use hide_self_tgws.Splitter.{MsgSplitter, next_packet_len, cut_packet, split_loop, split}
use hide_self_tgws.Splitter.Framing.{
  Framed, cons_packet, frame_packet, frames, IsFramed, next_packet_len-drop, next_packet_len_ok,
  next_packet_len-le,
}

-- The loop of `split` from an offset is the framing of what is left there.
loop_step :
    (fuel proto : ℕ) (cipher plain : List ℕ) (offset : ℕ) (parts : List (List ℕ)) (o : Option ℕ)
    → offset < length cipher
    → next_packet_len proto plain offset (length cipher - offset) ≡ ok o
    → split_loop (suc fuel) proto cipher plain offset parts
      ≡ cut_packet (λ o ps. split_loop fuel proto cipher plain o ps) cipher offset parts o
unfolding split_loop
loop_step fuel proto cipher plain offset parts o h e =
    rw (lt→ltb offset (length cipher) h, e, split_loop) refl

-- Framing from an offset stops where the loop stops.
pub frames_inv_done :
    (fuel proto : ℕ) (cipher plain : List ℕ) (r : Framed)
    → length cipher ≤ 0
    → frames fuel proto cipher plain ≡ ok r
    → r ≡ ([], cipher, plain, false)
unfolding frames
frames_inv_done zero proto cipher plain r h e = cc
frames_inv_done (suc fuel) proto cipher plain r h e = ground arith

pub frames_inv :
    (fuel proto : ℕ) (cipher plain : List ℕ) (r : Framed) (o : Option ℕ)
    → 0 < length cipher
    → next_packet_len proto plain 0 (length cipher) ≡ ok o
    → frames (suc fuel) proto cipher plain ≡ ok r
    → frame_packet (λ c p. frames fuel proto c p) cipher plain o ≡ ok r
unfolding frames
frames_inv fuel proto cipher plain r o h found e =
    rw (lt→ltb 0 (length cipher) h, found, frames) at e

loop_stop :
    (fuel proto : ℕ) (cipher plain : List ℕ) (offset : ℕ) (parts : List (List ℕ))
    → length cipher ≤ offset
    → split_loop (suc fuel) proto cipher plain offset parts ≡ ok (parts, offset, false)
unfolding split_loop
loop_stop fuel proto cipher plain offset parts h =
    rw (le→not-ltb offset (length cipher) h, split_loop) refl

whole-eq-drop :
    (offset : ℕ) (cipher : List ℕ)
    → (if offset == 0 then cipher else drop offset cipher) ≡ drop offset cipher
unfolding drop
whole-eq-drop zero cipher = refl
whole-eq-drop (suc n) cipher = ground arith

part-eq-take :
    (offset n : ℕ) (cipher : List ℕ)
    → (if offset == 0 && n == length cipher then cipher else slice offset (offset + n) cipher)
      ≡ take n (drop offset cipher)
unfolding slice
part-eq-take zero n cipher = unfold drop in ground (arith, take_of_length-le n cipher)
part-eq-take (suc offset) n cipher = ground arith

pub cons_packet-inv :
    (p : List ℕ) (m : Result Framed) (r : Framed)
    → cons_packet p m ≡ ok r
    → (r' : Framed) × (m ≡ ok r') × (r ≡ (p ∷ r'.0, r'.1, r'.2, r'.3))
cons_packet-inv p (ok r') r e = (r', refl, ground arith)
cons_packet-inv p (err x) r e = cc

loop_case :
    (fuel proto : ℕ) (cipher plain : List ℕ) (offset : ℕ) (parts : List (List ℕ)) (r : Framed)
    (again : (n : ℕ) (ps : List (List ℕ)) (r : Framed)
      → offset + n ≤ length cipher
      → frames fuel proto (drop (offset + n) cipher) (drop (offset + n) plain) ≡ ok r
      → split_loop fuel proto cipher plain (offset + n) ps
        ≡ ok (ps ++ r.0, length cipher - length r.1, r.3))
    (o : Option ℕ)
    → offset < length cipher
    → next_packet_len proto plain offset (length cipher - offset) ≡ ok o
    → frame_packet (λ c p. frames fuel proto c p) (drop offset cipher) (drop offset plain) o ≡ ok r
    → cut_packet (λ o ps. split_loop fuel proto cipher plain o ps) cipher offset parts o
      ≡ ok (parts ++ r.0, length cipher - length r.1, r.3)
unfolding frame_packet cut_packet
loop_case fuel proto cipher plain offset parts r again none h found e =
    ground (arith, length-drop offset cipher, append-nil parts)
loop_case fuel proto cipher plain offset parts r again (some zero) h found e =
    ground (arith, whole-eq-drop offset cipher)
loop_case fuel proto cipher plain offset parts r again (some (suc n)) h found e =
    let p = take (suc n) (drop offset cipher) in
    let fits : suc n ≤ length cipher - offset =
      next_packet_len-le proto (drop offset plain) _
        (next_packet_len-drop proto plain offset _ ∙ found) in
    let run : cons_packet p
          (frames fuel proto (drop (suc n) (drop offset cipher)) (drop (suc n) (drop offset plain)))
        ≡ ok r =
      rw suc-leb-zero at e in
    let (r', inner, outer) = cons_packet-inv p _ r run in
    rw (suc-leb-zero, part-eq-take, outer)
      (again (suc n) (parts ++ (p ∷ [])) r' (omega arith) (
          rw (drop-drop offset (suc n) (offset + suc n), drop-drop offset (suc n) (offset + suc n))
            at inner)
        ∙ rw append_assoc refl)

-- The next length, read at the front of what is left and at the offset.
next_at :
    (proto : ℕ) (cipher plain : List ℕ) (offset : ℕ)
    → length cipher ≡ length plain
    → (o : Option ℕ) × (next_packet_len proto (drop offset plain) 0 (length (drop offset cipher))
        ≡ ok o)
      × (next_packet_len proto plain offset (length cipher - offset) ≡ ok o)
next_at proto cipher plain offset same =
    let (o, found) =
      next_packet_len_ok proto (drop offset plain) (length (drop offset cipher))
        (omega (arith, length-drop offset plain, length-drop offset cipher)) in
    (
      o,
      found,
      rw (← length-drop offset cipher)
          (sym (next_packet_len-drop proto plain offset (length (drop offset cipher))) ∙ found),
    )

pub split_loop-frames :
    (fuel proto : ℕ) (cipher plain : List ℕ) (offset : ℕ) (parts : List (List ℕ)) (r : Framed)
    → offset ≤ length cipher
    → length cipher ≡ length plain
    → frames fuel proto (drop offset cipher) (drop offset plain) ≡ ok r
    → split_loop fuel proto cipher plain offset parts
      ≡ ok (parts ++ r.0, length cipher - length r.1, r.3)
split_loop-frames zero proto cipher plain offset parts r h same e = unfold frames in cc
split_loop-frames (suc fuel) proto cipher plain offset parts r h same e =
    elim (dec_lt offset (length cipher)) [
      | yes inside ↦
          let (o, found, found') = next_at proto cipher plain offset same in
          loop_step fuel proto cipher plain offset parts o inside found'
          ∙ loop_case fuel proto cipher plain offset parts r
              (λ n ps r' fits e'.
                split_loop-frames fuel proto cipher plain (offset + n) ps r' fits same e')
              o inside found'
              (frames_inv fuel proto (drop offset cipher) (drop offset plain) r o
                (omega (arith, length-drop offset cipher)) found e)
      | no outside ↦
          let done : r ≡ ([], drop offset cipher, drop offset plain, false) =
            frames_inv_done (suc fuel) proto (drop offset cipher) (drop offset plain) r
              (omega (arith, length-drop offset cipher)) e in
          loop_stop fuel proto cipher plain offset parts (omega arith)
          ∙ rw (done, append-nil) (ground (arith, length-drop offset cipher))
    ]

IsFramed-left :
    (proto : ℕ) (cipher plain : List ℕ) (r : Framed)
    → IsFramed proto cipher plain r
    → drop (length cipher - length r.1) cipher ≡ r.1
IsFramed-left proto cipher plain r i =
    let n : length (join r.0) ≡ length cipher - length r.1 =
      omega (arith, ap length i.joined, length-append (join r.0) r.1) in
    rw (← n, ← i.joined) (drop_append_self (length (join r.0)) (join r.0) r.1 refl)

-- `split` is the framing of the buffered bytes with the new ones behind them.
pub split-frames :
    (s : MsgSplitter) (chunk plain : List ℕ) (r : Framed)
    → s.disabled ≡ false
    → 0 < length chunk
    → length s.cipher_buf ≡ length s.plain_buf
    → length chunk ≡ length plain
    → IsFramed s.proto (s.cipher_buf ++ chunk) (s.plain_buf ++ plain) r
    → frames
        (suc (length (s.cipher_buf ++ chunk)))
        s.proto
        (s.cipher_buf ++ chunk)
        (s.plain_buf ++ plain)
      ≡ ok r
    → split s chunk plain ≡ ok (r.0, record s { cipher_buf = r.1; plain_buf = r.2; disabled = r.3 })
unfolding split
split-frames s [] plain r on some_given same given i e = absurd (omega arith)
split-frames s (b ∷ bs) plain r on some_given same given i e =
    let cipher = s.cipher_buf ++ (b ∷ bs) in
    let all_plain = s.plain_buf ++ plain in
    let whole : frames (suc (length cipher)) s.proto (drop 0 cipher) (drop 0 all_plain) ≡ ok r =
      unfold drop in e in
    let run =
      split_loop-frames (suc (length cipher)) s.proto cipher all_plain 0 [] r (omega arith)
        (omega (arith, length-append s.cipher_buf (b ∷ bs), length-append s.plain_buf plain))
        whole in
    rw (on, run, IsFramed-left s.proto cipher all_plain r i, ← i.plain_left) refl
