-- ===== src/Http2/Replay/Events.antt =====
-- Every run of events keeps the history's bounds and the packets' attempts.
use hide_self_tgws.Base.{
  ℕ, true, not, ◌||◌, some, List, [], ◌∷◌, ok, ◌≡◌, refl, sym, ◌∙◌, arith, All, Bool-cases,
  Option-cases, inl, inr,
}
use hide_self_tgws.Base.Dict.{◌=?◌, bytes_eq}
use hide_self_tgws.Splitter.Chunking.{ok-inj}
use hide_self_tgws.Http2.History.{
  ReplayPacket, History, find_packet, remember_packet, add_original, body_bytes, note_sent,
}
use hide_self_tgws.Http2.History.Trimming.{trim_history_lem}
use hide_self_tgws.Http2.History.Sent.{note_sent_lem}
use hide_self_tgws.Http2.Replay.{
  ChannelView, replay_due, update_packet, attempt, is_none, start_replay, note_reply, drop_task,
  retire, Event, sent, replay, replied, finished, retired, cleared, happen, happen_all, no_history,
}
use hide_self_tgws.Http2.Replay.Budget.{
  InBudget, replay_due-lt, update_packet-Within, update_packet-InBudget, HistoryValid, Sub-InBudget,
  add_original-InBudget, remember_packet-InBudget,
}

note_sent-InBudget :
    (body : List ℕ) (now requests task : ℕ) (h after : History)
    → All InBudget h.packets
    → note_sent body now requests task h ≡ ok after
    → All InBudget after.packets
unfolding note_sent
note_sent-InBudget body now requests task h after b e =
    let r = remember_packet body now requests h in
    let remembered = remember_packet-InBudget body now requests h b in
    let t = trim_history_lem now (add_original body task r.1.packets) in
    elim (Bool-cases r.0) [
      | inl known ↦
          let is : after ≡ record (r.1) { packets = t.kept } =
            ok-inj after (record (r.1) { packets = t.kept })
              (sym e ∙ rw (note_sent, known, t.run) refl) in
          rw (is) (
            Sub-InBudget t.kept (add_original body task r.1.packets) t.sub
              (add_original-InBudget body task r.1.packets remembered))
      | inr unknown ↦
          let is : after ≡ r.1 = ok-inj after r.1 (sym e ∙ rw (note_sent, unknown) refl) in
          rw (is) remembered
    ]

-- One change of a packet that keeps its body and its budget.
changed :
    (body : List ℕ) (change : ReplayPacket → ReplayPacket) (h : History)
    → HistoryValid h
    → ((p : ReplayPacket) → (change p).body ≡ p.body)
    → ((p : ReplayPacket) → find_packet body h.packets ≡ some p → InBudget (change p))
    → HistoryValid (record h { packets = update_packet body change h.packets })
changed body change h v same fits = record {
  within = update_packet-Within body change h.packets same v.within;
  budget = update_packet-InBudget body change h.packets v.budget fits;
}

found-InBudget :
    (body : List ℕ) (packets : List ReplayPacket) (p : ReplayPacket)
    → All InBudget packets
    → find_packet body packets ≡ some p
    → InBudget p
unfolding find_packet
found-InBudget body [] p b e = absurd (ground (arith, e))
found-InBudget body (q ∷ packets) p b e = elim (Bool-cases (q.body =? body)) [
  | inl is ↦ let same : q ≡ p = ground (arith, e, is) in rw (← same) b.0
  | inr other ↦ found-InBudget body packets p b.1 (ground (arith, e, other))
]

replay-HistoryValid :
    (v : ChannelView) (body : List ℕ) (now task : ℕ) (h : History)
    → HistoryValid h
    → HistoryValid (record h { packets = (start_replay v body now task h.packets).1 })
unfolding start_replay attempt
replay-HistoryValid v body now task h valid = elim (Option-cases (find_packet body h.packets)) [
  | inl missing ↦ rw (start_replay, missing) valid
  | inr (p, found) ↦
      elim (Bool-cases (not (is_none p.pending) || not (replay_due v h.packets p now))) [
        | inl refused ↦ rw (start_replay, found, refused) valid
        | inr go ↦
            let due : replay_due v h.packets p now ≡ true = ground (arith, go) in
            let spare = replay_due-lt v h.packets p now due in
            rw (start_replay, found, go)
              (changed body (attempt now task) h valid (λ q. refl)
                (λ q e.
                  let same : p ≡ q = ground (arith, e, found) in
                  rw (← same) (omega (arith, spare))))
      ]
]

note_reply-InBudget :
    (reply : List ℕ) (p : ReplayPacket) → InBudget p → InBudget (note_reply reply p)
unfolding note_reply
note_reply-InBudget reply p b = ground (arith, b)

note_reply-body : (reply : List ℕ) (p : ReplayPacket) → (note_reply reply p).body ≡ p.body
unfolding note_reply
note_reply-body reply p = ground arith

happen-HistoryValid :
    (e : Event) (h : History)
    → HistoryValid h
    → (after : History) × (happen e h ≡ ok after) × HistoryValid after
unfolding happen drop_task retire body_bytes
happen-HistoryValid (sent body now requests task) h v =
    let n = note_sent_lem body task now requests h v.within in
    (
      n.after,
      n.run,
      record {
        within = n.within;
        budget = note_sent-InBudget body now requests task h n.after v.budget n.run;
      },
    )
happen-HistoryValid (replay view body now task) h v =
    (_, refl, replay-HistoryValid view body now task h v)
happen-HistoryValid (replied body reply) h v = (
  _,
  refl,
  changed body (note_reply reply) h v (note_reply-body reply)
      (λ p e. note_reply-InBudget reply p (found-InBudget body h.packets p v.budget e)),
)
happen-HistoryValid (finished body task) h v = (
  _,
  refl,
  changed body (drop_task task) h v (λ p. refl) (λ p e. found-InBudget body h.packets p v.budget e),
)
happen-HistoryValid (retired body) h v = (
  _,
  refl,
  changed body retire h v (λ p. refl) (λ p e. found-InBudget body h.packets p v.budget e),
)
happen-HistoryValid cleared h v = (
  _,
  refl,
  record {
    within = record { packets_bound = omega arith; bytes_bound = omega arith };
    budget = tt;
  },
)

events-HistoryValid :
    (events : List Event) (h : History)
    → HistoryValid h
    → (after : History) × (happen_all events h ≡ ok after) × HistoryValid after
unfolding happen_all
events-HistoryValid [] h v = (h, refl, v)
events-HistoryValid (e ∷ events) h v =
    let (h', run, v') = happen-HistoryValid e h v in
    let (after, run', v'') = events-HistoryValid events h' v' in
    (after, rw (happen_all, run) run', v'')

-- Whatever bodies the client sends, whenever replays are considered and whatever the channel holds
-- then, and however replies, ends of requests, retirements and the channel's end fall in between:
-- nothing raises, the history keeps to 16 packets and 64 KiB, and no packet has more than three
-- attempts since the last new reply to it.
pub happen_all-HistoryValid :
    (events : List Event)
    → (after : History) × (happen_all events no_history ≡ ok after) × HistoryValid after
unfolding body_bytes
happen_all-HistoryValid events = events-HistoryValid events no_history (record {
  within = record { packets_bound = omega arith; bytes_bound = omega arith };
  budget = tt;
})
