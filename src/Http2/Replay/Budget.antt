-- ===== src/Http2/Replay/Budget.antt =====
-- A history keeps its bounds and its packets their attempts, whatever happens to them.
use hide_self_tgws.Base.{
  ℕ, ◌-◌, ◌≤◌, ◌<◌, true, not, ◌&&◌, some, List, [], ◌∷◌, length, ltb, leb, if◌then◌else◌, ◌≡◌,
  refl, ap, arith, All, Bool-cases, Option-cases, inl, inr, take, replicate,
}
use hide_self_tgws.Base.Bytes.{All-append}
use hide_self_tgws.Base.Dict.{◌=?◌, bytes_eq}
use hide_self_tgws.Http2.History.{
  ReplayPacket, History, new_packet, find_packet, same_key, remember_packet, add_original,
  body_bytes, replay_max_age, replay_max_attempts, replay_history_bytes,
}
use hide_self_tgws.Http2.History.Trimming.{Within, Sub, all, keep, skip}
use hide_self_tgws.Http2.Replay.{
  ChannelView, replay_limit, replay_blocker, replay_due, update_packet,
}

abbrev pub InBudget : ReplayPacket → Type 0
InBudget p = p.attempts ≤ replay_max_attempts

-- Only a packet with an attempt left is due.
replay_limit-le :
    (packets : List ReplayPacket) (p : ReplayPacket) → replay_limit packets p ≤ replay_max_attempts
unfolding replay_limit
replay_limit-le packets p = ground arith

pub replay_due-lt :
    (v : ChannelView) (packets : List ReplayPacket) (p : ReplayPacket) (now : ℕ)
    → replay_due v packets p now ≡ true
    → p.attempts < replay_max_attempts
unfolding replay_due replay_blocker
replay_due-lt v packets p now due = elim (Bool-cases (leb (replay_limit packets p) p.attempts)) [
  | inl used ↦ elim (Bool-cases (not (leb p.sent_at now && leb (now - p.sent_at) replay_max_age))) [
    | inl old ↦ absurd (ground (arith, due, old))
    | inr young ↦ absurd (ground (arith, due, used, young))
  ]
  | inr left ↦
      let spare : p.attempts < replay_limit packets p = ground (arith, left) in
      omega (arith, replay_limit-le packets p, spare)
]

module _ (body : List ℕ) (change : ReplayPacket → ReplayPacket) where
  update_packet-size :
      (packets : List ReplayPacket)
      → ((p : ReplayPacket) → (change p).body ≡ p.body)
      → (length (update_packet body change packets) ≡ length packets)
        × (body_bytes (update_packet body change packets) ≡ body_bytes packets)
  unfolding update_packet body_bytes
  update_packet-size [] same = (refl, refl)
  update_packet-size (p ∷ packets) same = elim (Bool-cases (p.body =? body)) [
    | inl is ↦ rw (is) (refl, omega (arith, ap length (same p)))
    | inr other ↦
        let (len, sum) = update_packet-size packets same in
        rw (other) (omega (arith, len), omega (arith, sum))
  ]

  -- A change that keeps the body keeps the sizes.
  pub update_packet-Within :
      (packets : List ReplayPacket)
      → ((p : ReplayPacket) → (change p).body ≡ p.body)
      → Within packets
      → Within (update_packet body change packets)
  update_packet-Within packets same w =
      let (len, sum) = update_packet-size packets same in
      record {
        packets_bound = omega (arith, w.packets_bound, len);
        bytes_bound = omega (arith, w.bytes_bound, sum);
      }

  pub update_packet-InBudget :
      (packets : List ReplayPacket)
      → All InBudget packets
      → ((p : ReplayPacket) → find_packet body packets ≡ some p → InBudget (change p))
      → All InBudget (update_packet body change packets)
  unfolding update_packet find_packet
  update_packet-InBudget [] h found = tt
  update_packet-InBudget (p ∷ packets) h found = elim (Bool-cases (p.body =? body)) [
    | inl is ↦ rw (is) (found p (rw (is) refl), h.1)
    | inr other ↦
        rw (other) (h.0, update_packet-InBudget packets h.1 (λ q e. found q (rw (other) e)))
  ]

-- The history's invariant.
pub record HistoryValid (h : History) : Type 0 where
  pub within : Within h.packets
  pub budget : All InBudget h.packets

pub Sub-InBudget :
    (kept packets : List ReplayPacket) → Sub kept packets → All InBudget packets → All InBudget kept
Sub-InBudget _ _ (all packets) h = h
Sub-InBudget _ _ (keep p kept packets s) h = (h.0, Sub-InBudget kept packets s h.1)
Sub-InBudget _ _ (skip p kept packets s) h = Sub-InBudget kept packets s h.1

pub add_original-InBudget :
    (body : List ℕ) (task : ℕ) (packets : List ReplayPacket)
    → All InBudget packets
    → All InBudget (add_original body task packets)
unfolding add_original
add_original-InBudget body task [] h = tt
add_original-InBudget body task (p ∷ packets) h = elim (Bool-cases (p.body =? body)) [
  | inl is ↦ rw (is) (h.0, h.1)
  | inr other ↦ rw (other) (h.0, add_original-InBudget body task packets h.1)
]

pub remember_packet-InBudget :
    (body : List ℕ) (now requests : ℕ) (h : History)
    → All InBudget h.packets
    → All InBudget (remember_packet body now requests h).1.packets
unfolding remember_packet new_packet
remember_packet-InBudget body now requests h b =
    let kept = (if same_key (take 8 body) h.replay_key then h.packets else []) in
    let kept_ok : All InBudget kept = elim (Bool-cases (same_key (take 8 body) h.replay_key)) [
      | inl same ↦ rw (same) b
      | inr other ↦ rw (other) tt
    ] in
    elim (Bool-cases (take 8 body =? replicate 8 0)) [
      | inl zeros ↦ rw (zeros) b
      | inr keyed ↦ elim (Bool-cases (ltb replay_history_bytes (length body))) [
        | inl long ↦ rw (keyed, long) kept_ok
        | inr short ↦ elim (Option-cases (find_packet body kept)) [
          | inl missing ↦
              rw (keyed, short, missing)
                (All-append InBudget kept (new_packet now body requests ∷ []) kept_ok
                  (omega arith, tt))
          | inr (p, found) ↦ rw (keyed, short, found) kept_ok
        ]
      ]
    ]
