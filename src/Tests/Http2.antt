-- ===== src/Tests/Http2.antt =====
-- The HTTP/2 transport on concrete inputs.
use hide_self_tgws.Base.{
  none, min, map, join, drop, slice, ◌≤◌, ◌+◌, ℕ, true, false, List, [], ◌∷◌, ◌++◌, length, take,
  replicate, ok, ◌≡◌, refl, arith, inr,
}
use hide_self_tgws.Base.Bytes.{to_bytes_little}
use hide_self_tgws.Cipher.{Encryptor, encryptor}
use hide_self_tgws.Handshake.{proto_tag_secure}
use hide_self_tgws.Http2.Packet.{read_packet, encode_reply}
use hide_self_tgws.Http2.Packet.Headers.{holding, past}
use hide_self_tgws.Http2.Packet.RoundTrip.{read_packet-encode_reply}
use hide_self_tgws.Http2.Channel.{
  Lane, new_lane, lane_has_capacity, reserve, HttpChannel, new_channel, has_capacity, start_send,
  reserve_lane, commit_send, lane_wait, reserved,
}
use hide_self_tgws.Http2.Channel.Steps.{
  perform, with_lane, act, open_channel, here, then_step, start, get_room, commit,
}
use hide_self_tgws.Http2.Channel.Invariant.{StateValid, Reach-StateValid}
use hide_self_tgws.Http2.History.{History, body_bytes, note_sent}
use hide_self_tgws.Http2.History.Sent.{Noted, note_sent_lem}
use hide_self_tgws.Http2.Window.{
  ResponseStream, new_stream, Happening, data_event, read_next, read_on, consumed, has_chunks,
  after_happening, after_all, next_chunk, resume, data_received, send_rounds, frame_loop,
}
use hide_self_tgws.Http2.Window.Credit.{in_use, most_kept, chunk_credit, held}
use hide_self_tgws.Http2.Window.Returned.{after_all-owed}
use hide_self_tgws.Http2.Window.Upload.{RoundsFit, open_rounds, send_rounds_lem}
use hide_self_tgws.Http2.Replay.{
  ChannelView, Event, sent, replay, replied, finished, happen_all, no_history,
}
use hide_self_tgws.Http2.Replay.Budget.{HistoryValid}
use hide_self_tgws.Http2.Replay.Events.{happen_all-HistoryValid}

abbrev keystream : List ℕ → List ℕ → ℕ → ℕ
keystream key iv position = position

abbrev cipher : Encryptor
cipher = encryptor (1 ∷ []) (2 ∷ [])

abbrev body : List ℕ
body = replicate 24 1

abbrev wire : List ℕ
wire = to_bytes_little 4 25 ++ (body ++ (7 ∷ []))

read_packet-encode_reply_example :
    read_packet keystream proto_tag_secure (holding keystream cipher wire (9 ∷ []))
    ≡ ok
        ((body, false), record { reader = 9 ∷ []; decryptor = past keystream cipher (length wire) })
read_packet-encode_reply_example =
    read_packet-encode_reply keystream cipher (7 ∷ []) body wire (9 ∷ []) proto_tag_secure
      (unfold replicate in omega arith) (omega arith)
      (λ secure. inr (unfold take replicate in refl, unfold replicate in refl))
      (unfold encode_reply replicate in refl)

abbrev waiting : HttpChannel
waiting = record new_channel { sending = lane_wait false 100 }

abbrev with_room : HttpChannel
with_room = record new_channel { sending = reserved false 100 }

abbrev busy : HttpChannel
busy = record new_channel { pending = (7, 100) ∷ []; pending_bytes = 100; requests = 1; up = 100 }

abbrev busy_lane : Lane
busy_lane = record { inflight = 1; queued_bytes = 100; max_inflight = 1; closed = false }

-- A channel is opened, and sends a packet of 100 bytes as task 7.
Reach-StateValid_example : StateValid (busy_lane, busy ∷ [])
Reach-StateValid_example =
    Reach-StateValid (busy_lane, busy ∷ [])
      (then_step (busy_lane, with_room ∷ []) (busy_lane, busy ∷ [])
        (then_step (new_lane, waiting ∷ []) (busy_lane, with_room ∷ [])
          (then_step (new_lane, new_channel ∷ []) (new_lane, waiting ∷ [])
            (then_step (new_lane, []) (new_lane, new_channel ∷ []) here (open_channel new_lane []))
            (act (start false 100) new_lane new_lane [] [] new_channel waiting
              (unfold perform with_lane start_send has_capacity in refl)))
          (act get_room new_lane busy_lane [] [] waiting with_room
            (unfold perform reserve_lane reserve lane_has_capacity in refl)))
        (act (commit 7 true) busy_lane busy_lane [] [] with_room busy
          (unfold perform commit_send in refl)))

note_sent_lem_example : Noted body 7 no_history (note_sent body 1000 1 7 no_history)
note_sent_lem_example =
    note_sent_lem body 7 1000 1 no_history
      (record { packets_bound = omega arith; bytes_bound = unfold body_bytes in omega arith })

abbrev quiet_channel : ChannelView
quiet_channel = record {
  sent_since = [];
  receiving_tasks = [];
  pending = [];
  native_backpressure = false;
  last_progress = 0;
}

-- A body as task 7, replayed as task 8 when task 7 has ended, and answered.
abbrev replay_events : List Event
replay_events =
    sent body 1000 1 7
    ∷ finished body 7
    ∷ replay quiet_channel body 4000 8
    ∷ replied body (replicate 24 3)
    ∷ []

happen_all-HistoryValid_example :
    (after : History) × (happen_all replay_events no_history ≡ ok after) × HistoryValid after
happen_all-HistoryValid_example = happen_all-HistoryValid replay_events

-- Two pieces of data come, the reader takes the first and asks for more.
abbrev happenings : List Happening
happenings =
    data_event true false (1 ∷ 2 ∷ []) 2
    ∷ data_event true false (3 ∷ []) 5
    ∷ read_next
    ∷ read_on true
    ∷ []

abbrev reading : ResponseStream
reading = record new_stream { chunks = (3 ∷ [], 5) ∷ []; consumed_credit = 2; received = 7 }

after_all-owed_example :
    (7 ≡ 0 + (2 + (chunk_credit ((3 ∷ [], 5) ∷ []) + held none))) × (2 ≤ most_kept reading)
after_all-owed_example =
    after_all-owed happenings reading
      (unfold after_all after_happening data_received next_chunk resume consumed has_chunks in refl)
      (omega arith, (omega arith, (tt, (refl, tt)))) (unfold in_use in refl)

abbrev windows : List ℕ
windows = 3 ∷ 0 ∷ 9 ∷ []

-- The first round sends two frames, the second waits, the third sends the rest.
abbrev frames_sent : List (List (List ℕ))
frames_sent = ((1 ∷ 2 ∷ []) ∷ (3 ∷ []) ∷ []) ∷ [] ∷ ((4 ∷ 5 ∷ []) ∷ []) ∷ []

abbrev body_sent : List ℕ
body_sent = 1 ∷ 2 ∷ 3 ∷ 4 ∷ 5 ∷ []

send_rounds_lem_example :
    (join (map join frames_sent) ++ drop 5 body_sent ≡ body_sent)
    × RoundsFit 2 windows frames_sent
    × (min (length body_sent) (open_rounds windows) ≤ 5)
send_rounds_lem_example =
    send_rounds_lem 2 windows body_sent frames_sent 5 (omega arith)
      (unfold send_rounds frame_loop slice take drop in refl)
