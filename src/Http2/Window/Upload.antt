-- ===== src/Http2/Window/Upload.antt =====
-- How `send_body` cuts a piece of a body into frames, whatever windows the peer grants.
use hide_self_tgws.Base.{
  ℕ, zero, suc, ◌+◌, ◌-◌, ◌≤◌, ◌<◌, min, true, List, [], ◌∷◌, ◌++◌, length, take, drop, slice, ltb,
  ◌==◌, if◌then◌else◌, ◌≡◌, refl, sym, ap, ◌∙◌, arith, All, join, map, append_assoc, length-append,
  length-drop, length-slice_lem, take-append-drop, drop-drop, Bool-cases, inl, inr,
}
use hide_self_tgws.Http2.Window.{io_batch_size, frame_loop, send_rounds}

cut_middle : (a b : ℕ) (bytes : List ℕ) → a ≤ b → slice a b bytes ++ drop b bytes ≡ drop a bytes
unfolding slice
cut_middle a b bytes order =
    ap (λ t. take (b - a) (drop a bytes) ++ t) (sym (drop-drop a (b - a) b bytes (omega arith)))
    ∙ take-append-drop (b - a) (drop a bytes)

abbrev pub FrameFits : ℕ → List ℕ → Type 0
FrameFits max_frame frame = (0 < length frame) × (length frame ≤ max_frame)

frame-FrameFits :
    (max_frame offset frame_end : ℕ) (bytes : List ℕ)
    → offset < frame_end
    → frame_end ≤ offset + max_frame
    → frame_end ≤ length bytes
    → FrameFits max_frame (slice offset frame_end bytes)
frame-FrameFits max_frame offset frame_end bytes order short inside =
    let size = length-slice_lem offset frame_end bytes inside in
    (omega (arith, size), omega (arith, size))

abbrev Cuts : ℕ → ℕ → ℕ → List ℕ → List (List ℕ) → Type 0
Cuts max_frame offset batch_end bytes frames =
    (join frames ++ drop batch_end bytes ≡ drop offset bytes) × All (FrameFits max_frame) frames

frame_loop-Cuts :
    (fuel max_frame offset : ℕ) (bytes : List ℕ) (batch_end : ℕ)
    → 0 < max_frame
    → offset ≤ batch_end
    → batch_end ≤ length bytes
    → batch_end ≤ fuel + offset
    → Cuts max_frame offset batch_end bytes (frame_loop fuel max_frame offset bytes batch_end)
unfolding frame_loop
frame_loop-Cuts zero max_frame offset bytes batch_end some_room order inside enough =
    let same : batch_end ≡ offset = omega (arith, order, enough) in
    (ap (λ n. drop n bytes) same, tt)
frame_loop-Cuts (suc fuel) max_frame offset bytes batch_end some_room order inside enough =
    let frame_end = min batch_end (offset + max_frame) in
    elim (Bool-cases (ltb offset batch_end)) [
      | inr done ↦
          let same : batch_end ≡ offset = ground (arith, done, order) in
          rw (done) (ap (λ n. drop n bytes) same, tt)
      | inl more ↦
          let less : offset < batch_end = ground (arith, more) in
          let (rest, fit) =
            frame_loop-Cuts fuel max_frame frame_end bytes batch_end some_room (omega arith) inside
              (omega (arith, some_room, less, enough)) in
          rw (more) (
            append_assoc (slice offset frame_end bytes)
                  (join (frame_loop fuel max_frame frame_end bytes batch_end))
                  (drop batch_end bytes)
                ∙ ap (λ t. slice offset frame_end bytes ++ t) rest
                ∙ cut_middle offset frame_end bytes (omega (arith, less)),
            (
              frame-FrameFits max_frame offset frame_end bytes (omega (arith, some_room, less))
                  (omega arith) (omega (arith, inside)),
              fit,
            ),
          )
    ]

-- Each round keeps to its window and to the batch, and each of its frames to the frame's limit.
abbrev pub RoundsFit : ℕ → List ℕ → List (List (List ℕ)) → Type 0
RoundsFit max_frame windows [] = Unit
RoundsFit max_frame [] (frames ∷ rounds) = ⊥
RoundsFit max_frame (window ∷ windows) (frames ∷ rounds) =
    (length (join frames) ≤ min io_batch_size window)
    × All (FrameFits max_frame) frames
    × RoundsFit max_frame windows rounds

-- The rounds that have room.
unfoldable pub open_rounds : List ℕ → ℕ
open_rounds [] = 0
open_rounds (window ∷ windows) =
    if window == 0 then open_rounds windows else suc (open_rounds windows)

pub record Sent (max_frame offset : ℕ) (windows bytes : List ℕ) (rounds : List (List (List ℕ)))
    (reached : ℕ) : Type 0 where
  pub whole : join (map join rounds) ++ drop reached bytes ≡ drop offset bytes
  pub fit : RoundsFit max_frame windows rounds
  pub inside : reached ≤ length bytes
  pub progress : min (length bytes) (offset + open_rounds windows) ≤ reached

nothing-Sent :
    (max_frame offset : ℕ) (windows bytes : List ℕ)
    → offset ≤ length bytes
    → min (length bytes) (offset + open_rounds windows) ≤ offset
    → Sent max_frame offset windows bytes [] offset
nothing-Sent max_frame offset windows bytes inside done = record {
  whole = refl;
  fit = tt;
  inside = inside;
  progress = done;
}

length-frames :
    (frames : List (List ℕ)) (offset batch_end : ℕ) (bytes : List ℕ)
    → join frames ++ drop batch_end bytes ≡ drop offset bytes
    → offset ≤ batch_end
    → batch_end ≤ length bytes
    → length (join frames) ≡ batch_end - offset
length-frames frames offset batch_end bytes whole order inside =
    let size = ap length whole in
    omega (
      arith,
      size,
      length-append (join frames) (drop batch_end bytes),
      length-drop batch_end bytes,
      length-drop offset bytes,
      order,
      inside,
    )

batch-Sent :
    (max_frame offset count window : ℕ) (windows bytes : List ℕ) (rounds : List (List (List ℕ)))
    → (reached : ℕ) → 0 < max_frame
    → 0 < count
    → offset + count ≤ length bytes
    → count ≤ min io_batch_size window
    → Sent max_frame (offset + count) windows bytes rounds reached
    → Sent max_frame offset
        (window ∷ windows)
        bytes
        (frame_loop (suc count) max_frame offset bytes (offset + count) ∷ rounds)
        reached
unfolding open_rounds
batch-Sent max_frame offset count window windows bytes rounds reached room some_bytes inside short
      on =
    let frames = frame_loop (suc count) max_frame offset bytes (offset + count) in
    let (cut, fit) =
      frame_loop-Cuts (suc count) max_frame offset bytes (offset + count) room (omega arith) inside
        (omega arith) in
    let size = length-frames frames offset (offset + count) bytes cut (omega arith) inside in
    let later = on.progress in
    record {
      whole =
          append_assoc (join frames) (join (map join rounds)) (drop reached bytes)
          ∙ ap (λ t. join frames ++ t) on.whole
          ∙ cut;
      fit = (omega (arith, size, short), fit, on.fit);
      inside = on.inside;
      progress = ground (arith, later, some_bytes);
    }

pub send_rounds-Sent :
    (max_frame : ℕ) (windows : List ℕ) (offset : ℕ) (bytes : List ℕ)
    → 0 < max_frame
    → offset ≤ length bytes
    → Sent max_frame offset windows bytes
        (send_rounds max_frame windows offset bytes).0
        (send_rounds max_frame windows offset bytes).1
unfolding send_rounds open_rounds
send_rounds-Sent max_frame [] offset bytes room inside =
    nothing-Sent max_frame offset [] bytes inside (omega arith)
send_rounds-Sent max_frame (window ∷ windows) offset bytes room inside =
    let count = min (length bytes - offset) (min io_batch_size window) in
    elim (Bool-cases (ltb offset (length bytes))) [
      | inr done ↦
          let over : length bytes ≤ offset = ground (arith, done) in
          rw (done)
            (nothing-Sent max_frame offset (window ∷ windows) bytes inside (omega (arith, over)))
      | inl more ↦ elim (Bool-cases (count == 0)) [
        | inl waits ↦
            let again = send_rounds-Sent max_frame windows offset bytes room inside in
            let later = again.progress in
            let shut : (window == 0) ≡ true = ground (arith, more, waits) in
            rw (more, waits)
              record {
                whole = again.whole;
                fit = (omega arith, tt, again.fit);
                inside = again.inside;
                progress = rw (shut) later;
              }
        | inr some_bytes ↦
            let positive : 0 < count = ground (arith, some_bytes) in
            rw (more, some_bytes)
              (batch-Sent max_frame offset count window windows bytes
                (send_rounds max_frame windows (offset + count) bytes).0
                (send_rounds max_frame windows (offset + count) bytes).1 room positive
                (omega (arith, inside)) (omega arith)
                (send_rounds-Sent max_frame windows (offset + count) bytes room
                  (omega (arith, inside))))
      ]
    ]

-- Whatever windows the peer grants, round by round: the frames hold the bytes in order from the
-- first on, no round takes more than its window or a batch, no frame is empty or longer than the
-- limit, and each round with room sends a byte at least while there are any.
pub send_rounds_lem :
    (max_frame : ℕ) (windows bytes : List ℕ) (rounds : List (List (List ℕ))) (reached : ℕ)
    → 0 < max_frame
    → send_rounds max_frame windows 0 bytes ≡ (rounds, reached)
    → (join (map join rounds) ++ drop reached bytes ≡ bytes)
      × RoundsFit max_frame windows rounds
      × (min (length bytes) (open_rounds windows) ≤ reached)
unfolding drop
send_rounds_lem max_frame windows bytes rounds reached room run =
    let s = send_rounds-Sent max_frame windows 0 bytes room (omega arith) in
    let s' : Sent max_frame 0 windows bytes rounds reached =
      rw (← ap (λ r. r.0) run, ← ap (λ r. r.1) run) s in
    let progress = s'.progress in (s'.whole, s'.fit, omega (arith, progress))
