-- ===== src/Http2/Window/Credit.antt =====
-- The credit of a response stream's window, while the stream is in use.
use hide_self_tgws.Base.{
  ℕ, zero, suc, ◌+◌, ◌<◌, Bool, true, false, not, ◌&&◌, ◌||◌, Option, none, some, List, [], ◌∷◌,
  ◌++◌, if◌then◌else◌, ◌≡◌, refl, sym, ap, ◌∙◌, arith, All, Bool-cases, Option-cases, inl, inr, ◌⊎◌,
}
use hide_self_tgws.Http2.Window.{
  ResponseStream, io_batch_size, has_chunks, consumed, next_chunk, resume, Happening, data_event,
  read_next, read_on, stream_ended, stream_reset, stream_closed, connection_failed,
}

unfoldable pub in_use : ResponseStream → Bool
in_use s = not s.ended && not s.closed && not s.error && not s.failed

-- The credit of the chunks that wait, and of the chunk in the reader's hands.
unfoldable pub chunk_credit : List (List ℕ × ℕ) → ℕ
chunk_credit [] = 0
chunk_credit ((bytes, credit) ∷ chunks) = credit + chunk_credit chunks

unfoldable pub held : Option ℕ → ℕ
held none = 0
held (some credit) = credit

-- The most credit that is kept back.
unfoldable pub most_kept : ResponseStream → ℕ
most_kept s =
    if has_chunks s.chunks then 65535 else elim s.in_hand [ none ↦ 0 | some credit ↦ 65535 ]

-- What `h2` says of a stream in use: it is open, no batch of events ends the connection, and data
-- takes some of the window.
abbrev pub Regular : Happening → Type 0
Regular (data_event is_open terminated [] credit) = (is_open ≡ true) × (terminated ≡ false)
Regular (data_event is_open terminated (b ∷ bs) credit) = 0 < credit
Regular read_next = Unit
Regular (read_on is_open) = is_open ≡ true
Regular stream_ended = Unit
Regular stream_reset = Unit
Regular stream_closed = Unit
Regular connection_failed = Unit

pub record Balanced (s : ResponseStream) : Type 0 where
  pub owed :
      s.received ≡ s.returned + (s.consumed_credit + (chunk_credit s.chunks + held s.in_hand))
  pub below : s.consumed_credit < io_batch_size
  pub drained : has_chunks s.chunks ≡ false → s.in_hand ≡ none → s.consumed_credit ≡ 0
  pub chunks_take : All (λ c. 0 < c.1) s.chunks
  pub hand_takes : (credit : ℕ) → s.in_hand ≡ some credit → 0 < credit

consumed-owed :
    (credit : ℕ) (s : ResponseStream)
    → in_use s ≡ true
    → (consumed true credit s).returned + (consumed true credit s).consumed_credit
      ≡ s.returned + (s.consumed_credit + credit)
unfolding consumed in_use
consumed-owed credit s live = ground (arith, live)

consumed-below :
    (credit : ℕ) (s : ResponseStream)
    → in_use s ≡ true
    → s.consumed_credit < io_batch_size
    → (consumed true credit s).consumed_credit < io_batch_size
unfolding consumed in_use
consumed-below credit s live low = ground (arith, live, low)

consumed-drained :
    (credit : ℕ) (s : ResponseStream)
    → in_use s ≡ true
    → has_chunks s.chunks ≡ false
    → 0 < credit
    → (consumed true credit s).consumed_credit ≡ 0
unfolding consumed in_use
consumed-drained credit s live none_left positive = ground (arith, live, none_left, positive)

consumed-zero : (s : ResponseStream) → consumed true 0 s ≡ s
unfolding consumed
consumed-zero s = refl

consumed-same :
    (credit : ℕ) (s : ResponseStream)
    → ((consumed true credit s).chunks ≡ s.chunks)
      × ((consumed true credit s).in_hand ≡ s.in_hand)
      × ((consumed true credit s).received ≡ s.received)
unfolding consumed
consumed-same credit s = ground arith

consumed-Balanced :
    (credit : ℕ) (s : ResponseStream)
    → in_use s ≡ true
    → s.received
      ≡ s.returned + (s.consumed_credit + credit + (chunk_credit s.chunks + held s.in_hand))
    → s.consumed_credit < io_batch_size
    → All (λ c. 0 < c.1) s.chunks
    → s.in_hand ≡ none
    → 0 < credit
    → Balanced (consumed true credit s)
unfolding held
consumed-Balanced credit s live owed below chunks_take free positive =
    let (chunks_same, hand_same, received_same) = consumed-same credit s in
    let total = consumed-owed credit s live in
    record {
      owed = rw (chunks_same, hand_same, received_same) omega (arith, total, owed);
      below = consumed-below credit s live below;
      drained = λ none_left in_hand.
          consumed-drained credit s live (ap has_chunks (sym chunks_same) ∙ none_left) positive;
      chunks_take = rw (chunks_same) chunks_take;
      hand_takes = λ c e. ground (arith, hand_same, free, e);
    }

chunk_credit-append :
    (chunks : List (List ℕ × ℕ)) (c : List ℕ × ℕ)
    → chunk_credit (chunks ++ (c ∷ [])) ≡ chunk_credit chunks + c.1
unfolding chunk_credit
chunk_credit-append [] c = omega arith
chunk_credit-append (d ∷ chunks) c =
    let again = chunk_credit-append chunks c in omega (arith, again)

takes-append :
    (chunks : List (List ℕ × ℕ)) (c : List ℕ × ℕ)
    → All (λ d. 0 < d.1) chunks
    → 0 < c.1
    → All (λ d. 0 < d.1) (chunks ++ (c ∷ []))
takes-append [] c all positive = (positive, tt)
takes-append (d ∷ chunks) c all positive = (all.0, takes-append chunks c all.1 positive)

has_chunks-append :
    (chunks : List (List ℕ × ℕ)) (c : List ℕ × ℕ) → has_chunks (chunks ++ (c ∷ [])) ≡ true
unfolding has_chunks
has_chunks-append [] c = refl
has_chunks-append (d ∷ chunks) c = refl

-- Data without bytes gives its credit back at once, whatever the reader holds.
pub credit-Balanced :
    (credit : ℕ) (s : ResponseStream)
    → in_use s ≡ true
    → Balanced s
    → Balanced (consumed true credit (record s { received = s.received + credit }))
unfolding in_use
credit-Balanced zero s live b = rw (consumed-zero (record s { received = s.received + 0 })) record {
  owed = let owed = b.owed in omega (arith, owed);
  below = b.below;
  drained = b.drained;
  chunks_take = b.chunks_take;
  hand_takes = b.hand_takes;
}
credit-Balanced (suc n) s live b =
    let s' = record s { received = s.received + suc n } in
    let (chunks_same, hand_same, received_same) = consumed-same (suc n) s' in
    let total = consumed-owed (suc n) s' live in
    let owed = b.owed in
    record {
      owed = rw (chunks_same, hand_same, received_same) omega (arith, total, owed);
      below = consumed-below (suc n) s' live b.below;
      drained = λ none_left in_hand.
          consumed-drained (suc n) s' live (ap has_chunks (sym chunks_same) ∙ none_left)
            (omega arith);
      chunks_take = rw (chunks_same) b.chunks_take;
      hand_takes = λ c e. b.hand_takes c (sym hand_same ∙ e);
    }

pub data-Balanced :
    (b : ℕ) (bs : List ℕ) (credit : ℕ) (s : ResponseStream)
    → in_use s ≡ true
    → 0 < credit
    → Balanced s
    → Balanced
        (record s { received = s.received + credit; chunks = s.chunks ++ ((b ∷ bs, credit) ∷ []) })
data-Balanced b bs credit s live positive balanced =
    let owed = balanced.owed in
    let more = chunk_credit-append s.chunks (b ∷ bs, credit) in
    record {
      owed = rw (more) omega (arith, owed);
      below = balanced.below;
      drained = λ none_left in_hand.
          absurd (ground (arith, none_left, has_chunks-append s.chunks (b ∷ bs, credit)));
      chunks_take = takes-append s.chunks (b ∷ bs, credit) balanced.chunks_take positive;
      hand_takes = balanced.hand_takes;
    }

chunks-cases :
    (chunks : List (List ℕ × ℕ))
    → (chunks ≡ []) ⊎ ((c : List ℕ × ℕ) × (rest : List (List ℕ × ℕ)) × (chunks ≡ c ∷ rest))
chunks-cases [] = inl refl
chunks-cases (c ∷ rest) = inr (c, rest, refl)

takes-same :
    (chunks chunks' : List (List ℕ × ℕ))
    → chunks ≡ chunks'
    → All (λ d. 0 < d.1) chunks
    → All (λ d. 0 < d.1) chunks'
takes-same chunks chunks' same all = rw (← same) all

-- The reader takes a chunk into its hands.
take_chunk-Balanced :
    (c : List ℕ × ℕ) (rest : List (List ℕ × ℕ)) (s : ResponseStream)
    → s.chunks ≡ c ∷ rest
    → s.in_hand ≡ none
    → Balanced s
    → Balanced (record s { chunks = rest; in_hand = some c.1 })
unfolding held chunk_credit
take_chunk-Balanced c rest s waits free b =
    let owed = b.owed in
    let nothing : held s.in_hand ≡ 0 = rw (free) refl in
    let credits : chunk_credit s.chunks ≡ c.1 + chunk_credit rest = rw (waits) refl in
    let all : All (λ d. 0 < d.1) (c ∷ rest) = takes-same s.chunks (c ∷ rest) waits b.chunks_take in
    record {
      owed = omega (arith, owed, nothing, credits);
      below = b.below;
      drained = λ none_left in_hand. absurd (ground (arith, in_hand));
      chunks_take = all.1;
      hand_takes = λ credit e. let first = all.0 in ground (arith, e, first);
    }

pub next-Balanced : (s s' : ResponseStream) → Balanced s → next_chunk s ≡ some s' → Balanced s'
unfolding next_chunk
next-Balanced s s' b e = elim (Bool-cases (s.closed || s.error)) [
  | inl over ↦ absurd (ground (arith, e, over))
  | inr going ↦ elim (chunks-cases s.chunks) [
    | inl same ↦ absurd (ground (arith, e, going, same))
    | inr (c, rest, waits) ↦ elim (Option-cases s.in_hand) [
      | inl free ↦
          let is : record s { chunks = rest; in_hand = some c.1 } ≡ s' =
            ground (arith, e, going, waits, free) in
          rw (← is) (take_chunk-Balanced c rest s waits free b)
      | inr (held_credit, holds) ↦ absurd (ground (arith, e, going, waits, holds))
    ]
  ]
]

pub resume-Balanced : (s : ResponseStream) → in_use s ≡ true → Balanced s → Balanced (resume true s)
unfolding resume held in_use
resume-Balanced s live b = elim (Option-cases s.in_hand) [
  | inl free ↦ rw (resume, free) b
  | inr (credit, holds) ↦
      let owed = b.owed in
      let now : held s.in_hand ≡ credit = rw (holds) refl in
      rw (resume, holds)
        (consumed-Balanced credit (record s { in_hand = none }) live (omega (arith, owed, now))
          b.below b.chunks_take refl (b.hand_takes credit holds))
]
