-- ===== src/Http2/Window/Returned.antt =====
-- What has gone back to the peer of a response stream's window, after any run of happenings.
use hide_self_tgws.Base.{
  ℕ, ◌+◌, ◌≤◌, true, false, List, [], ◌∷◌, ◌++◌, ◌≡◌, ◌≢◌, refl, arith, All, Bool-cases,
  Option-cases, inl, inr,
}
use hide_self_tgws.Http2.Window.{
  ResponseStream, new_stream, has_chunks, consumed, data_received, next_chunk, resume, close, fail,
  Happening, data_event, read_next, read_on, stream_ended, stream_reset, stream_closed,
  connection_failed, after_happening, after_all,
}
use hide_self_tgws.Http2.Window.Credit.{
  in_use, most_kept, chunk_credit, held, Regular, Balanced, credit-Balanced, data-Balanced,
  next-Balanced, resume-Balanced,
}

-- A stream out of use is never in use again.
used_before :
    (h : Happening) (s : ResponseStream) → in_use (after_happening h s) ≡ true → in_use s ≡ true
unfolding after_happening in_use data_received consumed next_chunk resume close fail
used_before (data_event is_open terminated [] credit) s live = ground (arith, live)
used_before (data_event is_open terminated (b ∷ bs) credit) s live = ground (arith, live)
used_before read_next s live = ground (arith, live)
used_before (read_on is_open) s live = ground (arith, live)
used_before stream_ended s live = ground (arith, live)
used_before stream_reset s live = ground (arith, live)
used_before stream_closed s live = ground (arith, live)
used_before connection_failed s live = ground (arith, live)

no_data :
    (credit : ℕ) (s : ResponseStream)
    → s.closed ≡ false
    → data_received true false [] credit s
      ≡ consumed true credit (record s { received = s.received + credit })
unfolding data_received
no_data credit s going = rw (going) refl

some_data :
    (byte : ℕ) (bytes : List ℕ) (credit : ℕ) (s : ResponseStream)
    → s.closed ≡ false
    → data_received true false (byte ∷ bytes) credit s ≡ record s {
      received = s.received + credit;
      chunks = s.chunks ++ ((byte ∷ bytes, credit) ∷ []);
    }
unfolding data_received
some_data byte bytes credit s going = ground (arith, going)

closed_unused : (s : ResponseStream) → in_use (close s) ≢ true
unfolding close in_use
closed_unused s live = ground (arith, live)

failed_unused : (s : ResponseStream) → in_use (fail s) ≢ true
unfolding fail in_use
failed_unused s live = ground (arith, live)

happening-Balanced :
    (h : Happening) (s : ResponseStream)
    → Regular h
    → in_use s ≡ true
    → in_use (after_happening h s) ≡ true
    → Balanced s
    → Balanced (after_happening h s)
unfolding after_happening in_use
happening-Balanced (data_event is_open terminated [] credit) s (open_, going) live after b =
    let not_closed : s.closed ≡ false = ground (arith, live) in
    rw (after_happening, going, open_, no_data credit s not_closed)
      (credit-Balanced credit s live b)
happening-Balanced (data_event is_open terminated (byte ∷ bytes) credit) s positive live after b =
    let not_closed : s.closed ≡ false = ground (arith, live) in
    rw (after_happening, some_data byte bytes credit s not_closed)
      (data-Balanced byte bytes credit s live positive b)
happening-Balanced read_next s r live after b = elim (Option-cases (next_chunk s)) [
  | inl stays ↦ rw (after_happening, stays) b
  | inr (s', moves) ↦ rw (after_happening, moves) (next-Balanced s s' b moves)
]
happening-Balanced (read_on is_open) s open_ live after b = rw (open_) (resume-Balanced s live b)
happening-Balanced stream_ended s r live after b = absurd (ground (arith, after))
happening-Balanced stream_reset s r live after b = absurd (ground (arith, after))
happening-Balanced stream_closed s r live after b = absurd (closed_unused s after)
happening-Balanced connection_failed s r live after b = absurd (failed_unused s after)

fresh-Balanced : Balanced new_stream
unfolding has_chunks chunk_credit held
fresh-Balanced = record {
  owed = omega arith;
  below = omega arith;
  drained = λ none_left in_hand. refl;
  chunks_take = tt;
  hand_takes = λ credit e. absurd (ground (arith, e));
}

after_all-Balanced :
    (happenings : List Happening) (s : ResponseStream)
    → All Regular happenings
    → (in_use s ≡ true → Balanced s)
    → in_use (after_all happenings s) ≡ true
    → Balanced (after_all happenings s)
unfolding after_all
after_all-Balanced [] s regular b live = b live
after_all-Balanced (h ∷ happenings) s (r, regular) b live =
    after_all-Balanced happenings (after_happening h s) regular
      (λ after.
        let before = used_before h s after in happening-Balanced h s r before after (b before))
      live

-- While a response stream is in use, `h2` keeps it open and each piece of data takes some of the
-- window: all that the peer has sent of the window has been given back, waits in the chunks or the
-- reader's hands, or is kept back; less than a batch is kept back, and nothing when neither a chunk
-- waits nor the reader holds one.
pub after_all-owed :
    (happenings : List Happening) (s : ResponseStream)
    → after_all happenings new_stream ≡ s
    → All Regular happenings
    → in_use s ≡ true
    → (s.received ≡ s.returned + (s.consumed_credit + (chunk_credit s.chunks + held s.in_hand)))
      × (s.consumed_credit ≤ most_kept s)
unfolding most_kept
after_all-owed happenings s run regular live =
    let here : in_use (after_all happenings new_stream) ≡ true = rw (run) live in
    let b : Balanced s =
      rw (← run)
        (after_all-Balanced happenings new_stream regular (λ fresh. fresh-Balanced) here) in
    let low = b.below in
    (
      b.owed,
      elim (Bool-cases (has_chunks s.chunks)) [
        | inl waits ↦ rw (waits) omega (arith, low)
        | inr none_left ↦ elim (Option-cases s.in_hand) [
          | inl free ↦
              let kept = b.drained none_left free in rw (none_left, free) omega (arith, kept)
          | inr (credit, holds) ↦ rw (none_left, holds) omega (arith, low)
        ]
      ],
    )
