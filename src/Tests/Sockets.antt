-- ===== src/Tests/Sockets.antt =====
-- WebSocket frames and messages on concrete inputs.
use hide_self_tgws.Base.{
  ℕ, true, false, some, List, [], ◌∷◌, ◌++◌, ok, err, connection_error, ◌>>=◌, ◌≡◌, refl, inl, inr,
  arith,
}
use hide_self_tgws.WebSocket.{xor_mask, build_frame, read_frame, recv, op_text, op_cont, op_binary}
use hide_self_tgws.WebSocket.Mask.{xor_cycle, xor_mask-xor_cycle}
use hide_self_tgws.WebSocket.Frames.{header, read_frame-build_frame, read_frame_too_large}
use hide_self_tgws.WebSocket.Messages.{
  Incoming, ping, fragment, wires, fragments, urandom, is_open, pongs, draws, recv-message,
}

xor_mask-xor_cycle_example :
    xor_mask (72 ∷ 105 ∷ 33 ∷ 0 ∷ 255 ∷ []) (1 ∷ 2 ∷ 3 ∷ 4 ∷ [])
    ≡ ok (xor_cycle (72 ∷ 105 ∷ 33 ∷ 0 ∷ 255 ∷ []) 1 2 3 4)
xor_mask-xor_cycle_example =
    xor_mask-xor_cycle (72 ∷ 105 ∷ 33 ∷ 0 ∷ 255 ∷ []) 1 2 3 4 (omega arith) (omega arith)

read_frame-build_frame_example :
    (build_frame op_binary (72 ∷ 105 ∷ []) true (1 ∷ 2 ∷ 3 ∷ 4 ∷ []) >>= λ frame.
    read_frame (frame ++ (9 ∷ [])))
    ≡ ok (record { opcode = op_binary; payload = 72 ∷ 105 ∷ []; fin = true }, 9 ∷ [])
read_frame-build_frame_example =
    read_frame-build_frame op_binary 1 2 3 4 (72 ∷ 105 ∷ []) (9 ∷ []) true (omega arith)
      (omega arith) (omega arith) (omega arith)

read_frame_too_large_example :
    read_frame (header true false op_binary 16777217 ++ (1 ∷ [])) ≡ err connection_error
read_frame_too_large_example =
    read_frame_too_large true false op_binary 16777217 (1 ∷ []) (omega arith) (omega arith)

abbrev one_key : ℕ → ℕ × ℕ × ℕ × ℕ
one_key n = (1, 2, 3, 4)

-- "a" as a fragment, a ping, then "b" as the last frame.
abbrev before_last : List Incoming
before_last = fragment op_text (97 ∷ []) ∷ ping (7 ∷ []) ∷ []

recv-message_example :
    recv (urandom one_key) (
      is_open one_key
        (wires before_last ++ (header true false op_cont 1 ++ ((98 ∷ []) ++ [])))
        []
        []
        0)
    ≡ ok (
      some (([] ++ fragments before_last) ++ (98 ∷ [])),
      is_open one_key [] ([] ++ pongs one_key 0 before_last) [] (draws one_key 0 before_last),
    )
recv-message_example =
    recv-message one_key (λ n. omega arith) before_last op_cont 0 (98 ∷ []) [] [] []
      (inr (inl refl), (omega arith, tt)) (inl refl) (omega arith)
