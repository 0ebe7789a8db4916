-- ===== src/WebSocket/Messages.antt =====
-- `recv` over whole conversations: fragments joined, pings answered, the size bound, the close.
use hide_self_tgws.Base.{
  ℕ, suc, ◌+◌, ◌-◌, ◌≤◌, ◌<◌, true, false, some, List, [], ◌∷◌, ◌++◌, length, ok, ◌≡◌, ◌⊎◌, refl,
  ap, ◌∙◌, arith, append_assoc, append-nil, length-append,
}
use native.Mathlib.Nat.{suc-add, zero-add}
use hide_self_tgws.Base.Bytes.{IsBytes}
use hide_self_tgws.WebSocket.{
  RawWebSocket, Frame, Step, returned, continued, read_frame, write_frame, quiet_write, on_data,
  on_frame, recv_step, recv_loop, recv, op_cont, op_text, op_binary, op_ping, op_pong,
  max_message_len,
}
use hide_self_tgws.WebSocket.Mask.{xor_cycle}
use hide_self_tgws.WebSocket.Frames.{header, header-nonempty, read_frame-plain, build_frame-masked}

-- A frame that the peer may put before the last frame of a message.
pub data Incoming : Type 0 where
  ping : List ℕ → Incoming
  pong : List ℕ → Incoming
  fragment : ℕ → List ℕ → Incoming

-- Its bytes.
abbrev pub wire : Incoming → List ℕ
wire (ping p) = header true false op_ping (length p) ++ p
wire (pong p) = header true false op_pong (length p) ++ p
wire (fragment opcode p) = header false false opcode (length p) ++ p

abbrev pub wires : List Incoming → List ℕ
wires [] = []
wires (e ∷ es) = wire e ++ wires es

abbrev pub IsData : ℕ → Type 0
IsData opcode = (opcode ≡ op_cont) ⊎ (opcode ≡ op_text) ⊎ (opcode ≡ op_binary)

-- Control frames carry at most 125 bytes; a fragment is a data frame.
abbrev pub IsIncoming : Incoming → Type 0
IsIncoming (ping p) = IsBytes p × (length p ≤ 125)
IsIncoming (pong p) = IsBytes p × (length p ≤ 125)
IsIncoming (fragment opcode p) = IsData opcode

abbrev pub AllIncoming : List Incoming → Type 0
AllIncoming [] = Unit {0}
AllIncoming (e ∷ es) = IsIncoming e × AllIncoming es

-- The message so far, and the bytes that answer the pings.
abbrev pub fragments : List Incoming → List ℕ
fragments [] = []
fragments (fragment opcode p ∷ es) = p ++ fragments es
fragments (ping p ∷ es) = fragments es
fragments (pong p ∷ es) = fragments es

module _ (key : ℕ → ℕ × ℕ × ℕ × ℕ) where
  abbrev pub urandom : ℕ → List ℕ
  urandom n = (key n).0 ∷ (key n).1 ∷ (key n).2 ∷ (key n).3 ∷ []

  -- The answer to a ping, under the n-th key.
  abbrev pub pong_bytes : ℕ → List ℕ → List ℕ
  pong_bytes n p =
      header true true op_pong (length p)
      ++ ((key n).0
          ∷ (key n).1
          ∷ (key n).2
          ∷ (key n).3
          ∷ xor_cycle p (key n).0 (key n).1 (key n).2 (key n).3)

  abbrev pub pongs : ℕ → List Incoming → List ℕ
  pongs n [] = []
  pongs n (ping p ∷ es) = pong_bytes n p ++ pongs (n + 1) es
  pongs n (pong p ∷ es) = pongs n es
  pongs n (fragment opcode p ∷ es) = pongs n es

  abbrev pub draws : ℕ → List Incoming → ℕ
  draws n [] = n
  draws n (ping p ∷ es) = draws (n + 1) es
  draws n (pong p ∷ es) = draws n es
  draws n (fragment opcode p ∷ es) = draws n es

  abbrev pub is_open : List ℕ → List ℕ → List ℕ → ℕ → RawWebSocket
  is_open reader written frag drawn = record {
    reader = reader;
    written = written;
    closed = false;
    frag = frag;
    drawn = drawn;
  }

  recv_loop_step :
      (fuel : ℕ) (ws : RawWebSocket) (f : Frame) (rest : List ℕ) (s : Step)
      → ws.closed ≡ false
      → read_frame ws.reader ≡ ok (f, rest)
      → on_frame urandom (record ws { reader = rest }) f ≡ ok s
      → recv_loop urandom (suc fuel) ws ≡ elim s [
        | returned message ws' ↦ ok (message, ws')
        | continued ws' ↦ recv_loop urandom fuel ws'
      ]
  unfolding recv_loop recv_step
  recv_loop_step fuel ws f rest s on e e' = rw (on, recv_loop, e, e') refl

  module _ (keys : (n : ℕ) → IsBytes (urandom n)) where
    quiet_pong :
        (reader written frag p : List ℕ) (n : ℕ)
        → IsBytes p
        → quiet_write urandom (is_open reader written frag n) op_pong p
          ≡ is_open reader (written ++ pong_bytes n p) frag (n + 1)
    unfolding quiet_write write_frame
    quiet_pong reader written frag p n h =
        rw
          (
            build_frame-masked op_pong (key n).0 (key n).1 (key n).2 (key n).3 p (omega arith) h
                (keys n),
            quiet_write,
            write_frame,
          )
          refl

    IsData-lt : (opcode : ℕ) → IsData opcode → opcode < 16
    IsData-lt opcode h = omega arith

    on_frame-fragment :
        (opcode : ℕ) (p reader written frag : List ℕ) (n : ℕ)
        → IsData opcode
        → length frag + length p ≤ max_message_len
        → on_frame urandom
            (is_open reader written frag n)
            (record { opcode = opcode; payload = p; fin = false })
          ≡ ok (continued (is_open reader written (frag ++ p) n))
    unfolding on_frame on_data
    on_frame-fragment opcode p reader written frag n h fits = ground (arith, length-append frag p)

    -- Frames before the last one are taken in, and the loop goes on.
    recv_loop-wires :
        (es : List Incoming) (fuel n : ℕ) (written frag rest : List ℕ)
        → AllIncoming es
        → length frag + length (fragments es) ≤ max_message_len
        → recv_loop urandom (length es + fuel) (is_open (wires es ++ rest) written frag n)
          ≡ recv_loop urandom fuel
              (is_open rest (written ++ pongs n es) (frag ++ fragments es) (draws n es))
    recv_loop-wires [] fuel n written frag rest h fits = rw (zero-add, append-nil, append-nil) refl
    recv_loop-wires (ping p ∷ es) fuel n written frag rest h fits =
        rw
          (
            suc-add,
            append_assoc (header true false op_ping (length p) ++ p) (wires es) rest,
            append_assoc (header true false op_ping (length p)) p (wires es ++ rest),
          )
          (recv_loop_step (length es + fuel)
              (is_open (header true false op_ping (length p) ++ (p ++ (wires es ++ rest))) written
                frag n)
              (record { opcode = op_ping; payload = p; fin = true }) (wires es ++ rest)
              (continued (is_open (wires es ++ rest) (written ++ pong_bytes n p) frag (n + 1))) refl
              (read_frame-plain true op_ping p (wires es ++ rest) (omega arith) (omega arith))
              (unfold on_frame in rw (quiet_pong (wires es ++ rest) written frag p n h.0.0) refl)
            ∙ recv_loop-wires es fuel (n + 1) (written ++ pong_bytes n p) frag rest h.1 fits
            ∙ rw append_assoc refl)
    recv_loop-wires (pong p ∷ es) fuel n written frag rest h fits =
        rw
          (
            suc-add,
            append_assoc (header true false op_pong (length p) ++ p) (wires es) rest,
            append_assoc (header true false op_pong (length p)) p (wires es ++ rest),
          )
          (recv_loop_step (length es + fuel)
              (is_open (header true false op_pong (length p) ++ (p ++ (wires es ++ rest))) written
                frag n)
              (record { opcode = op_pong; payload = p; fin = true }) (wires es ++ rest)
              (continued (is_open (wires es ++ rest) written frag n)) refl
              (read_frame-plain true op_pong p (wires es ++ rest) (omega arith) (omega arith))
              (unfold on_frame in refl)
            ∙ recv_loop-wires es fuel n written frag rest h.1 fits)
    recv_loop-wires (fragment opcode p ∷ es) fuel n written frag rest h fits =
        rw
          (
            suc-add,
            append_assoc (header false false opcode (length p) ++ p) (wires es) rest,
            append_assoc (header false false opcode (length p)) p (wires es ++ rest),
          )
          (recv_loop_step (length es + fuel)
              (is_open (header false false opcode (length p) ++ (p ++ (wires es ++ rest))) written
                frag n)
              (record { opcode = opcode; payload = p; fin = false }) (wires es ++ rest)
              (continued (is_open (wires es ++ rest) written (frag ++ p) n)) refl
              (read_frame-plain false opcode p (wires es ++ rest)
                (omega (arith, IsData-lt opcode h.0))
                (omega (arith, length-append p (fragments es))))
              (on_frame-fragment opcode p (wires es ++ rest) written frag n h.0
                (omega (arith, length-append p (fragments es))))
            ∙ recv_loop-wires es fuel n written (frag ++ p) rest h.1
                (omega (arith, length-append p (fragments es), length-append frag p))
            ∙ rw append_assoc refl)

    on_frame-last :
        (opcode : ℕ) (p reader written frag : List ℕ) (n : ℕ)
        → IsData opcode
        → length frag + length p ≤ max_message_len
        → on_frame urandom
            (is_open reader written frag n)
            (record { opcode = opcode; payload = p; fin = true })
          ≡ ok (returned (some (frag ++ p)) (is_open reader written [] n))
    unfolding on_frame on_data
    on_frame-last opcode p reader written [] n h fits = ground arith
    on_frame-last opcode p reader written (x ∷ frag) n h fits =
        ground (arith, length-append (x ∷ frag) p)

    length-wires : (es : List Incoming) → length es ≤ length (wires es)
    length-wires [] = omega arith
    length-wires (ping p ∷ es) = omega (
      arith,
      length-wires es,
      length-append (wire (ping p)) (wires es),
      length-append (header true false op_ping (length p)) p,
      header-nonempty true op_ping (length p),
    )
    length-wires (pong p ∷ es) = omega (
      arith,
      length-wires es,
      length-append (wire (pong p)) (wires es),
      length-append (header true false op_pong (length p)) p,
      header-nonempty true op_pong (length p),
    )
    length-wires (fragment opcode p ∷ es) = omega (
      arith,
      length-wires es,
      length-append (wire (fragment opcode p)) (wires es),
      length-append (header false false opcode (length p)) p,
      header-nonempty false opcode (length p),
    )

    -- On an open socket whose masking keys are bytes, a message cut into fragments, with pings
    -- and pongs of at most 125 bytes between them, is returned whole once its last frame is
    -- there; every ping has been answered with its own payload, in order, and the bytes behind
    -- the message stay for the next call. The message may have up to 16 MiB.
    pub recv-message :
        (es : List Incoming) (opcode n : ℕ) (p written frag rest : List ℕ)
        → AllIncoming es
        → IsData opcode
        → length frag + length (fragments es) + length p ≤ max_message_len
        → recv urandom (
            is_open
              (wires es ++ (header true false opcode (length p) ++ (p ++ rest)))
              written
              frag
              n)
          ≡ ok (
            some ((frag ++ fragments es) ++ p),
            is_open rest (written ++ pongs n es) [] (draws n es),
          )
    unfolding recv
    recv-message es opcode n p written frag rest h d fits =
        let last = header true false opcode (length p) ++ (p ++ rest) in
        let fuel = length (wires es ++ last) - length es in
        let enough : suc (length (wires es ++ last)) ≡ length es + suc fuel =
          omega (arith, length-wires es, length-append (wires es) last) in
        ap (λ f. recv_loop urandom f (is_open (wires es ++ last) written frag n)) enough
        ∙ recv_loop-wires es (suc fuel) n written frag last h (omega arith)
        ∙ recv_loop_step fuel
            (is_open last (written ++ pongs n es) (frag ++ fragments es) (draws n es))
            (record { opcode = opcode; payload = p; fin = true }) rest
            (returned (some ((frag ++ fragments es) ++ p))
              (is_open rest (written ++ pongs n es) [] (draws n es)))
            refl
            (read_frame-plain true opcode p rest (omega (arith, IsData-lt opcode d)) (omega arith))
            (on_frame-last opcode p rest (written ++ pongs n es) (frag ++ fragments es) (draws n es)
              d (omega (arith, length-append frag (fragments es))))
