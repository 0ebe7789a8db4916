-- ===== src/Http2/History/Sent.antt =====
-- After each body that a client sends, the history is within its bounds and has the body.
use hide_self_tgws.Base.{
  ℕ, suc, ◌≤◌, ◌<◌, true, false, none, some, List, [], ◌∷◌, ◌++◌, length, take, replicate, ltb,
  if◌then◌else◌, Result, ok, ◌≡◌, ◌⊎◌, inl, inr, refl, ap, ◌∙◌, arith, Bool-cases, Option-cases,
}
use hide_self_tgws.Base.Dict.{
  ◌=?◌, nat_eq, bytes_eq, bytes_beq_self, contains, add, contains-add, beq_self,
}
use hide_self_tgws.Http2.History.{
  ReplayPacket, History, new_packet, find_packet, same_key, remember_packet, add_original,
  body_bytes, is_victim, trim_history, note_sent, replay_history_bytes,
}
use hide_self_tgws.Http2.History.Trimming.{
  Within, Sub, all, keep, skip, Trims, trim_history_lem, trim_history-Within, trim_loop-last,
}

-- A packet for the body is there, with the request among its originals.
abbrev pub Retained : List ℕ → ℕ → List ReplayPacket → Type 0
Retained body task packets =
    (p : ReplayPacket) × (find_packet body packets ≡ some p) × (contains p.originals task ≡ true)

module _ (body : List ℕ) (task : ℕ) where
  add_original-size :
      (packets : List ReplayPacket)
      → (length (add_original body task packets) ≡ length packets)
        × (body_bytes (add_original body task packets) ≡ body_bytes packets)
  unfolding add_original body_bytes
  add_original-size [] = (refl, refl)
  add_original-size (p ∷ packets) = elim (Bool-cases (p.body =? body)) [
    | inl is ↦ rw (is) (refl, refl)
    | inr other ↦
        let (len, sum) = add_original-size packets in
        rw (other) (omega (arith, len), omega (arith, sum))
  ]

  add_original-Within :
      (packets : List ReplayPacket) → Within packets → Within (add_original body task packets)
  add_original-Within packets w =
      let (len, sum) = add_original-size packets in
      record {
        packets_bound = omega (arith, w.packets_bound, len);
        bytes_bound = omega (arith, w.bytes_bound, sum);
      }

  contains_added : (originals : List ℕ) → contains (add task originals) task ≡ true
  contains_added originals = ground (arith, contains-add task task originals, beq_self task)

  find_packet-head :
      (p : ReplayPacket) (packets : List ReplayPacket)
      → (p.body =? body) ≡ true
      → find_packet body (p ∷ packets) ≡ some p
  unfolding find_packet
  find_packet-head p packets is = rw (is) refl

  find_packet-tail :
      (p : ReplayPacket) (packets : List ReplayPacket)
      → (p.body =? body) ≡ false
      → find_packet body (p ∷ packets) ≡ find_packet body packets
  unfolding find_packet
  find_packet-tail p packets other = rw (other) refl

  add_original-Retained :
      (packets : List ReplayPacket) (p : ReplayPacket)
      → find_packet body packets ≡ some p
      → Retained body task (add_original body task packets)
  unfolding add_original find_packet
  add_original-Retained [] p e = absurd (ground (arith, e))
  add_original-Retained (q ∷ packets) p e = elim (Bool-cases (q.body =? body)) [
    | inl is ↦ (
      record q { originals = add task q.originals },
      rw (is) (find_packet-head (record q { originals = add task q.originals }) packets is),
      contains_added q.originals,
    )
    | inr other ↦
        let (r, found, has) = add_original-Retained packets p (ground (arith, e, other)) in
        (r, rw (other) (find_packet-tail q (add_original body task packets) other ∙ found), has)
  ]

  -- With the body nowhere in front.
  find_packet-last :
      (front : List ReplayPacket) (p : ReplayPacket)
      → find_packet body front ≡ none
      → (p.body =? body) ≡ true
      → find_packet body (front ++ (p ∷ [])) ≡ some p
  unfolding find_packet
  find_packet-last [] p none_before is = rw (is) refl
  find_packet-last (q ∷ front) p none_before is = elim (Bool-cases (q.body =? body)) [
    | inl same ↦ absurd (ground (arith, none_before, same))
    | inr other ↦ rw (other) (find_packet-last front p (ground (arith, none_before, other)) is)
  ]

  find_packet-Sub :
      (kept packets : List ReplayPacket)
      → Sub kept packets
      → find_packet body packets ≡ none
      → find_packet body kept ≡ none
  unfolding find_packet
  find_packet-Sub _ _ (all packets) e = e
  find_packet-Sub _ _ (keep p kept packets s) e = elim (Bool-cases (p.body =? body)) [
    | inl same ↦ absurd (ground (arith, e, same))
    | inr other ↦ rw (other) (find_packet-Sub kept packets s (ground (arith, e, other)))
  ]
  find_packet-Sub _ _ (skip p kept packets s) e = elim (Bool-cases (p.body =? body)) [
    | inl same ↦ absurd (ground (arith, e, same))
    | inr other ↦ find_packet-Sub kept packets s (ground (arith, e, other))
  ]

  add_original-last :
      (front : List ReplayPacket) (p : ReplayPacket)
      → find_packet body front ≡ none
      → (p.body =? body) ≡ true
      → add_original body task (front ++ (p ∷ []))
        ≡ front ++ (record p { originals = add task p.originals } ∷ [])
  unfolding find_packet add_original
  add_original-last [] p none_before is = rw (is) refl
  add_original-last (q ∷ front) p none_before is = elim (Bool-cases (q.body =? body)) [
    | inl same ↦ absurd (ground (arith, none_before, same))
    | inr other ↦
        rw (other) (ap (◌∷◌ q) (add_original-last front p (ground (arith, none_before, other)) is))
  ]

  -- What one sent body leaves.
  pub record Noted (h : History) (r : Result History) : Type 0 where
    pub after : History
    pub run : r ≡ ok after
    pub within : Within after.packets
    pub retained :
        (take 8 body ≡ replicate 8 0)
        ⊎ (replay_history_bytes < length body)
        ⊎ Retained body task after.packets

  module _ (now requests : ℕ) where
    Trims-known :
        (packets : List ReplayPacket) (p : ReplayPacket)
        → Within packets
        → find_packet body packets ≡ some p
        → (t : Trims
            (add_original body task packets)
            (trim_history now (add_original body task packets)))
          × Retained body task t.kept
    Trims-known packets p w found =
        let added = add_original body task packets in
        let w' = add_original-Within packets w in
        (
          record {
            kept = added;
            run = trim_history-Within now added w';
            within = w';
            sub = all added;
          },
          add_original-Retained packets p found,
        )

    Trims-new :
        (packets : List ReplayPacket)
        → length body ≤ replay_history_bytes
        → find_packet body packets ≡ none
        → (let added = add_original body task (packets ++ (new_packet now body requests ∷ [])) in
            (t : Trims added (trim_history now added)) × Retained body task t.kept)
    unfolding new_packet is_victim trim_history add contains
    Trims-new packets small missing =
        let p = new_packet now body requests in
        let last = record p { originals = add task p.originals } in
        let added-eq = add_original-last packets p missing (bytes_beq_self body) in
        let t = trim_history_lem now (packets ++ (last ∷ [])) in
        let (rest, kept-eq, sub) =
          trim_loop-last now last refl (suc (length (packets ++ (last ∷ [])))) packets t.kept
            (body_bytes (packets ++ (last ∷ []))) small refl t.run in
        rw (added-eq) (
          t,
          (
            last,
            rw (kept-eq) (
                find_packet-last rest last (find_packet-Sub rest packets sub missing)
                  (bytes_beq_self body)),
            contains_added [],
          ),
        )

    -- The history's packets that a body with this key finds.
    abbrev kept_for : History → List ReplayPacket
    kept_for h = if same_key (take 8 body) h.replay_key then h.packets else []

    kept_for-Within : (h : History) → Within h.packets → Within (kept_for h)
    unfolding body_bytes
    kept_for-Within h w = elim (Bool-cases (same_key (take 8 body) h.replay_key)) [
      | inl same ↦ rw (same) w
      | inr other ↦ rw (other) record { packets_bound = omega arith; bytes_bound = omega arith }
    ]

    abbrev with_body : List ReplayPacket → List ReplayPacket
    with_body packets = elim (find_packet body packets) [
      | none ↦ packets ++ (new_packet now body requests ∷ [])
      | some p ↦ packets
    ]

    Trims-body :
        (packets : List ReplayPacket)
        → Within packets
        → length body ≤ replay_history_bytes
        → (let added = add_original body task (with_body packets) in
            (t : Trims added (trim_history now added)) × Retained body task t.kept)
    Trims-body packets w small = elim (Option-cases (find_packet body packets)) [
      | inl missing ↦ rw (with_body, missing) (Trims-new packets small missing)
      | inr (p, found) ↦ rw (with_body, found) (Trims-known packets p w found)
    ]

    note_sent-zero :
        (h : History)
        → (take 8 body =? replicate 8 0) ≡ true
        → note_sent body now requests task h ≡ ok h
    unfolding note_sent remember_packet
    note_sent-zero h zeros = rw (note_sent, zeros) refl

    note_sent-long :
        (h : History)
        → (take 8 body =? replicate 8 0) ≡ false
        → ltb replay_history_bytes (length body) ≡ true
        → note_sent body now requests task h
          ≡ ok (record { replay_key = some (take 8 body); packets = kept_for h })
    unfolding note_sent remember_packet
    note_sent-long h keyed long = rw (note_sent, keyed, long) refl

    note_sent-kept :
        (h : History) (packets : List ReplayPacket)
        → (take 8 body =? replicate 8 0) ≡ false
        → ltb replay_history_bytes (length body) ≡ false
        → trim_history now (add_original body task (with_body (kept_for h))) ≡ ok packets
        → note_sent body now requests task h
          ≡ ok (record { replay_key = some (take 8 body); packets = packets })
    unfolding note_sent remember_packet
    note_sent-kept h packets keyed short run = rw (note_sent, keyed, short, run) refl

    -- For a history within its bounds: noting a body that the client sends raises nothing and
    -- never runs out of rounds, and the history is within its bounds again, 16 packets and 64 KiB.
    -- Unless the body starts with eight zero bytes or is longer than 64 KiB, it has a packet there,
    -- and the request of the body is among the packet's originals: trimming never drops the packet
    -- that was just sent.
    pub note_sent_lem :
        (h : History) → Within h.packets → Noted h (note_sent body now requests task h)
    note_sent_lem h w = elim (Bool-cases (take 8 body =? replicate 8 0)) [
      | inl zeros ↦ record {
        after = h;
        run = note_sent-zero h zeros;
        within = w;
        retained = inl ((bytes_eq.beq_iff (take 8 body) (replicate 8 0)).0 zeros);
      }
      | inr keyed ↦ elim (Bool-cases (ltb replay_history_bytes (length body))) [
        | inl long ↦ record {
          after = record { replay_key = some (take 8 body); packets = kept_for h };
          run = note_sent-long h keyed long;
          within = kept_for-Within h w;
          retained = inr (inl (ground (arith, long)));
        }
        | inr short ↦
            let (t, there) =
              Trims-body (kept_for h) (kept_for-Within h w) (ground (arith, short)) in
            record {
              after = record { replay_key = some (take 8 body); packets = t.kept };
              run = note_sent-kept h t.kept keyed short t.run;
              within = t.within;
              retained = inr (inr there);
            }
      ]
    ]
