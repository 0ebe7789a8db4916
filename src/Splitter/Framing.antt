-- ===== src/Splitter/Framing.antt =====
-- A description of the framing without buffers and offsets, and that `split` computes it.
use hide_self_tgws.Base.{
  ℕ, zero, suc, ◌+◌, ◌-◌, ◌≤◌, ◌<◌, Bool, true, false, Option, none, some, List, [], ◌∷◌, ◌++◌,
  length, take, drop, slice, ltb, leb, if◌then◌else◌, Result, ok, err, stuck, ◌>>=◌, ◌≡◌, refl, ap,
  ◌∙◌, ◌⊎◌, inl, inr, Result-cases, join, lt→ltb, suc-leb-zero, arith, drop-drop, take-append-drop,
  length-drop, append_assoc, append-nil,
}
use hide_self_tgws.Base.Bytes.{byte_at, unpack_i_little}
use hide_self_tgws.Splitter.{
  checked_len, next_packet_len, next_abridged_len, next_intermediate_len, abridged_len_from,
}

-- The packets of a stream, and what is left: the bytes, their plain form, and whether splitting
-- has been given up.
abbrev pub Framed : Type 0
Framed = List (List ℕ) × List ℕ × List ℕ × Bool

abbrev pub cons_packet : List ℕ → Result Framed → Result Framed
cons_packet p r = r >>= λ (ps, rest, plain, off). ok (p ∷ ps, rest, plain, off)

-- One packet after the other from the front of the stream.
unfoldable pub frame_packet :
    (List ℕ → List ℕ → Result Framed) → List ℕ → List ℕ → Option ℕ → Result Framed
frame_packet again cipher plain none = ok ([], cipher, plain, false)
frame_packet again cipher plain (some n) =
    if leb n 0
    then ok (cipher ∷ [], [], drop (length cipher) plain, true)
    else cons_packet (take n cipher) (again (drop n cipher) (drop n plain))

unfoldable pub frames : ℕ → ℕ → List ℕ → List ℕ → Result Framed
frames zero proto cipher plain = err stuck
frames (suc fuel) proto cipher plain = elim (ltb 0 (length cipher)) [
  | false ↦ ok ([], cipher, plain, false)
  | true ↦ do
    n ← next_packet_len proto plain 0 (length cipher)
    frame_packet (λ c p. frames fuel proto c p) cipher plain n
]

-- The lengths are read at an offset as they are read at the front of what is left.
byte_at-drop : (a : ℕ) (xs : List ℕ) → byte_at (drop a xs) 0 ≡ byte_at xs a
unfolding byte_at drop
byte_at-drop zero xs = refl
byte_at-drop (suc a) [] = refl
byte_at-drop (suc a) (x ∷ xs) = byte_at-drop a xs

slice-drop : (a b c : ℕ) (xs : List ℕ) → slice (a + b) (a + c) xs ≡ slice b c (drop a xs)
unfolding slice
slice-drop a b c xs = ground (arith, drop-drop a b (a + b) xs refl)

pub next_packet_len-drop :
    (proto : ℕ) (plain : List ℕ) (offset avail : ℕ)
    → next_packet_len proto (drop offset plain) 0 avail ≡ next_packet_len proto plain offset avail
unfolding next_packet_len next_abridged_len next_intermediate_len abridged_len_from unpack_i_little
next_packet_len-drop proto plain offset avail = ground (
  arith,
  byte_at-drop offset plain,
  slice-drop offset 1 4 plain,
  slice-drop offset 0 4 plain,
  length-drop offset plain,
)

byte_at-zero_ok : (xs : List ℕ) → 0 < length xs → (b : ℕ) × (byte_at xs 0 ≡ ok b)
unfolding byte_at
byte_at-zero_ok [] h = absurd (omega arith)
byte_at-zero_ok (x ∷ xs) h = (x, refl)

-- With the plain bytes of the whole buffer at hand no length reader raises.
pub next_packet_len_ok :
    (proto : ℕ) (plain : List ℕ) (avail : ℕ)
    → avail ≤ length plain
    → (o : Option ℕ) × (next_packet_len proto plain 0 avail ≡ ok o)
unfolding next_packet_len next_abridged_len next_intermediate_len unpack_i_little
next_packet_len_ok proto plain avail h = elim (Result-cases (next_packet_len proto plain 0 avail)) [
  | inl found ↦ found
  | inr (e, raised) ↦ absurd (ground (arith, byte_at-zero_ok plain))
]

pub next_packet_len-le :
    (proto : ℕ) (plain : List ℕ) (avail : ℕ) {n : ℕ}
    → next_packet_len proto plain 0 avail ≡ ok (some n)
    → n ≤ avail
unfolding next_packet_len next_abridged_len next_intermediate_len abridged_len_from checked_len
next_packet_len-le proto plain avail h = ground (arith)

-- What `frames` finds, with the fuel that a stream needs.
pub record IsFramed (proto : ℕ) (cipher plain : List ℕ) (r : Framed) : Type 0 where
  pub joined : join r.0 ++ r.1 ≡ cipher
  pub plain_left : r.2 ≡ drop (length cipher - length r.1) plain
  pub same_length : length r.1 ≡ length r.2
  pub shorter : length r.1 ≤ length cipher
  pub all_given : r.3 ≡ true → r.1 ≡ []
  -- Nothing that could be sent stays behind.
  pub waiting : r.3 ≡ false → (r.1 ≡ []) ⊎ (next_packet_len proto r.2 0 (length r.1) ≡ ok none)

sub_self : (n : ℕ) → n - n ≡ 0
sub_self n = omega arith

module _ (proto : ℕ) (cipher plain : List ℕ) where
  IsFramed-waits :
      length cipher ≡ length plain
      → (cipher ≡ []) ⊎ (next_packet_len proto plain 0 (length cipher) ≡ ok none)
      → IsFramed proto cipher plain ([], cipher, plain, false)
  unfolding drop
  IsFramed-waits same waits = record {
    joined = refl;
    plain_left = rw (sub_self (length cipher)) refl;
    same_length = same;
    shorter = omega arith;
    all_given = λ e. cc;
    waiting = λ _. waits;
  }

  IsFramed-gives_up :
      length cipher ≡ length plain
      → IsFramed proto cipher plain (cipher ∷ [], [], drop (length cipher) plain, true)
  IsFramed-gives_up same = record {
    joined = append-nil (cipher ++ []) ∙ append-nil cipher;
    plain_left = ap (λ n. drop n plain) (omega arith);
    same_length = omega (arith, length-drop (length cipher) plain);
    shorter = omega arith;
    all_given = λ _. refl;
    waiting = λ e. cc;
  }

  IsFramed-cons :
      (n : ℕ) (r : Framed)
      → n ≤ length cipher
      → IsFramed proto (drop n cipher) (drop n plain) r
      → IsFramed proto cipher plain (take n cipher ∷ r.0, r.1, r.2, r.3)
  IsFramed-cons n (ps, rest, rp, off) h i = record {
    joined = append_assoc (take n cipher) (join ps) rest ∙ rw i.joined (take-append-drop n cipher);
    plain_left =
        i.plain_left ∙ drop-drop n _ _ plain (omega (arith, length-drop n cipher, i.shorter));
    same_length = i.same_length;
    shorter = omega (arith, length-drop n cipher, i.shorter);
    all_given = i.all_given;
    waiting = i.waiting;
  }

abbrev pub FramesAll : ℕ → ℕ → List ℕ → List ℕ → Type 0
FramesAll fuel proto cipher plain =
    (r : Framed) × (frames fuel proto cipher plain ≡ ok r) × IsFramed proto cipher plain r

frames_step :
    (fuel proto : ℕ) (cipher plain : List ℕ)
    → ((n : ℕ) → 0 < n → n ≤ length cipher → FramesAll fuel proto (drop n cipher) (drop n plain))
    → length cipher ≡ length plain
    → 0 < length cipher
    → (o : Option ℕ) → next_packet_len proto plain 0 (length cipher) ≡ ok o
    → FramesAll (suc fuel) proto cipher plain
unfolding frames frame_packet
frames_step fuel proto cipher plain ih same some_left none found = (
  ([], cipher, plain, false),
  rw (lt→ltb 0 (length cipher) some_left, found, frames),
  IsFramed-waits proto cipher plain same (inr found),
)
frames_step fuel proto cipher plain ih same some_left (some zero) found = (
  (cipher ∷ [], [], drop (length cipher) plain, true),
  rw (lt→ltb 0 (length cipher) some_left, found, frames),
  IsFramed-gives_up proto cipher plain same,
)
frames_step fuel proto cipher plain ih same some_left (some (suc n)) found =
    let fits : suc n ≤ length cipher = next_packet_len-le proto plain (length cipher) found in
    let (r, run, i) = ih (suc n) (omega arith) fits in
    (
      (take (suc n) cipher ∷ r.0, r.1, r.2, r.3),
      rw (lt→ltb 0 (length cipher) some_left, found, run, suc-leb-zero, frames),
      IsFramed-cons proto cipher plain (suc n) r fits i,
    )

-- With fuel beyond the stream's length framing never raises and never runs out.
pub frames_lem :
    (fuel proto : ℕ) (cipher plain : List ℕ)
    → length cipher ≡ length plain
    → length cipher < fuel
    → FramesAll fuel proto cipher plain
frames_lem zero proto cipher plain same enough = absurd (omega arith)
frames_lem (suc fuel) proto [] plain same enough =
    unfold frames in (([], [], plain, false), refl, IsFramed-waits proto [] plain same (inl refl))
frames_lem (suc fuel) proto (c ∷ cs) plain same enough =
    let (o, found) = next_packet_len_ok proto plain (length (c ∷ cs)) (omega arith) in
    frames_step fuel proto (c ∷ cs) plain
      (λ n pos fits.
        frames_lem fuel proto (drop n (c ∷ cs)) (drop n plain)
          (omega (arith, length-drop n (c ∷ cs), length-drop n plain))
          (omega (arith, length-drop n (c ∷ cs))))
      same (omega arith) o found
