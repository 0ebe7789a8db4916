-- ===== src/Http2/History/Trimming.antt =====
-- The history is trimmed to its bounds, and the newest packet stays.
use hide_self_tgws.Base.{
  ℕ, zero, suc, ◌+◌, ◌-◌, ◌≤◌, ◌<◌, true, false, ◌||◌, some, List, [], ◌∷◌, ◌++◌, length, ltb,
  Result, ok, ◌≡◌, refl, sym, ap, ◌∙◌, arith, Bool-cases, Option-cases, inl, inr,
}
use hide_self_tgws.Splitter.Chunking.{ok-inj}
use hide_self_tgws.Http2.History.{
  ReplayPacket, body_bytes, is_victim, take_victim, remove_one, trim_loop, trim_history,
  replay_history_packets, replay_history_bytes,
}

pub record Within (packets : List ReplayPacket) : Type 0 where
  pub packets_bound : length packets ≤ replay_history_packets
  pub bytes_bound : body_bytes packets ≤ replay_history_bytes

-- `kept` is `packets` without some of them.
pub data Sub : List ReplayPacket → List ReplayPacket → Type 0 where
  all : (packets : List ReplayPacket) → Sub packets packets
  keep :
      (p : ReplayPacket) (kept packets : List ReplayPacket)
      → Sub kept packets
      → Sub (p ∷ kept) (p ∷ packets)
  skip :
      (p : ReplayPacket) (kept packets : List ReplayPacket)
      → Sub kept packets
      → Sub kept (p ∷ packets)

Sub-trans : (a b c : List ReplayPacket) → Sub a b → Sub b c → Sub a c
Sub-trans _ _ _ x (all packets) = x
Sub-trans a _ _ x (skip p b c y) = skip p a c (Sub-trans a b c x y)
Sub-trans _ _ _ (all _) (keep p b c y) = keep p b c y
Sub-trans _ _ _ (keep _ a b x) (keep p _ c y) = keep p a c (Sub-trans a b c x y)
Sub-trans _ _ _ (skip _ a b x) (keep p _ c y) = skip p a c (Sub-trans a b c x y)

-- One packet less.
pub record Removed (packets : List ReplayPacket) (v : ReplayPacket) (left : List ReplayPacket)
    : Type 0 where
  pub one_less : length packets ≡ suc (length left)
  pub bytes_less : body_bytes packets ≡ length v.body + body_bytes left
  pub sub : Sub left packets

take_victim-Removed :
    (now : ℕ) (packets : List ReplayPacket) (v : ReplayPacket) (left : List ReplayPacket)
    → take_victim now packets ≡ some (v, left)
    → Removed packets v left
unfolding take_victim body_bytes
take_victim-Removed now [] v left e = absurd (ground (arith, e))
take_victim-Removed now (p ∷ packets) v left e = elim (Bool-cases (is_victim now p)) [
  | inl is ↦
      let v-eq : p ≡ v = ground (arith, e, is) in
      let left-eq : packets ≡ left = ground (arith, e, is) in
      rw (← v-eq, ← left-eq)
        record { one_less = refl; bytes_less = refl; sub = skip p packets packets (all packets) }
  | inr other ↦ elim (Option-cases (take_victim now packets)) [
    | inl nothing ↦ absurd (ground (arith, e, other, nothing))
    | inr ((w, rest), found) ↦
        let v-eq : w ≡ v = ground (arith, e, other, found) in
        let left-eq : p ∷ rest ≡ left = ground (arith, e, other, found) in
        let r = take_victim-Removed now packets w rest found in
        rw (← v-eq, ← left-eq)
          record {
            one_less = omega (arith, r.one_less);
            bytes_less = omega (arith, r.bytes_less);
            sub = keep p rest packets r.sub;
          }
  ]
]

-- A packet is found to remove while there is one.
remove_one-Removed :
    (now : ℕ) (p : ReplayPacket) (packets : List ReplayPacket)
    → (v : ReplayPacket) × (left : List ReplayPacket) × (remove_one now (p ∷ packets)
        ≡ some (v, left))
      × Removed (p ∷ packets) v left
unfolding remove_one body_bytes
remove_one-Removed now p packets = elim (Option-cases (take_victim now (p ∷ packets))) [
  | inr ((v, left), found) ↦
      (v, left, rw (remove_one, found) refl, take_victim-Removed now (p ∷ packets) v left found)
  | inl nothing ↦ (
    p,
    packets,
    rw (remove_one, nothing) refl,
    record { one_less = refl; bytes_less = refl; sub = skip p packets packets (all packets) },
  )
]

trim_loop-done :
    (fuel now : ℕ) (packets : List ReplayPacket) (retained : ℕ)
    → (ltb replay_history_packets (length packets) || ltb replay_history_bytes retained) ≡ false
    → trim_loop (suc fuel) now packets retained ≡ ok packets
unfolding trim_loop
trim_loop-done fuel now packets retained fits = rw (trim_loop, fits) refl

trim_loop-round :
    (fuel now : ℕ) (packets : List ReplayPacket) (retained : ℕ) (v : ReplayPacket)
    (left : List ReplayPacket)
    → (ltb replay_history_packets (length packets) || ltb replay_history_bytes retained) ≡ true
    → remove_one now packets ≡ some (v, left)
    → trim_loop (suc fuel) now packets retained ≡ trim_loop fuel now left (retained - length v.body)
unfolding trim_loop
trim_loop-round fuel now packets retained v left over found = rw (trim_loop, over, found) refl

-- What trimming gives.
pub record Trims (packets : List ReplayPacket) (r : Result (List ReplayPacket)) : Type 0 where
  pub kept : List ReplayPacket
  pub run : r ≡ ok kept
  pub within : Within kept
  pub sub : Sub kept packets

Trims-done :
    (fuel now : ℕ) (packets : List ReplayPacket) (retained : ℕ)
    → retained ≡ body_bytes packets
    → (ltb replay_history_packets (length packets) || ltb replay_history_bytes retained) ≡ false
    → Trims packets (trim_loop (suc fuel) now packets retained)
Trims-done fuel now packets retained same fits = record {
  kept = packets;
  run = trim_loop-done fuel now packets retained fits;
  within = record {
    packets_bound = ground (arith, fits);
    bytes_bound = ground (arith, fits, same);
  };
  sub = all packets;
}

trim_loop_lem :
    (fuel now : ℕ) (packets : List ReplayPacket) (retained : ℕ)
    → retained ≡ body_bytes packets
    → length packets < fuel
    → Trims packets (trim_loop fuel now packets retained)
unfolding body_bytes
trim_loop_lem zero now packets retained same enough = absurd (omega arith)
trim_loop_lem (suc fuel) now [] retained same enough =
    Trims-done fuel now [] retained same (ground (arith, same))
trim_loop_lem (suc fuel) now (p ∷ packets) retained same enough =
    elim (Bool-cases
      (ltb replay_history_packets (length (p ∷ packets)) || ltb replay_history_bytes retained)) [
        | inr fits ↦ Trims-done fuel now (p ∷ packets) retained same fits
        | inl over ↦
            let (v, left, found, r) = remove_one-Removed now p packets in
            let t =
              trim_loop_lem fuel now left (retained - length v.body)
                (omega (arith, same, r.bytes_less)) (omega (arith, enough, r.one_less)) in
            record {
              kept = t.kept;
              run = trim_loop-round fuel now (p ∷ packets) retained v left over found ∙ t.run;
              within = t.within;
              sub = Sub-trans t.kept left (p ∷ packets) t.sub r.sub;
            }
      ]

pub trim_history_lem :
    (now : ℕ) (packets : List ReplayPacket) → Trims packets (trim_history now packets)
unfolding trim_history
trim_history_lem now packets =
    trim_loop_lem (suc (length packets)) now packets (body_bytes packets) refl (omega arith)

-- Trimming takes nothing out of a history within the bounds.
pub trim_history-Within :
    (now : ℕ) (packets : List ReplayPacket) → Within packets → trim_history now packets ≡ ok packets
unfolding trim_history
trim_history-Within now packets w =
    trim_loop-done (length packets) now packets (body_bytes packets)
      (ground (arith, w.packets_bound, w.bytes_bound))

-- The packet at the end, when it has an open request and fits the bounds by itself.
module _ (now : ℕ) (last : ReplayPacket) (open_request : is_victim now last ≡ false) where
  -- The end stays when a victim is taken out.
  take_victim-last :
      (front : List ReplayPacket) (v : ReplayPacket) (left : List ReplayPacket)
      → take_victim now (front ++ (last ∷ [])) ≡ some (v, left)
      → (rest : List ReplayPacket) × (left ≡ rest ++ (last ∷ [])) × Sub rest front
  unfolding take_victim
  take_victim-last [] v left e = absurd (ground (arith, e, open_request))
  take_victim-last (p ∷ front) v left e = elim (Bool-cases (is_victim now p)) [
    | inl is ↦
        let left-eq : front ++ (last ∷ []) ≡ left = ground (arith, e, is) in
        (front, sym left-eq, skip p front front (all front))
    | inr other ↦ elim (Option-cases (take_victim now (front ++ (last ∷ [])))) [
      | inl nothing ↦ absurd (ground (arith, e, other, nothing))
      | inr ((w, left'), found) ↦
          let left-eq : p ∷ left' ≡ left = ground (arith, e, other, found) in
          let (rest, is, sub) = take_victim-last front w left' found in
          (p ∷ rest, sym left-eq ∙ ap (◌∷◌ p) is, keep p rest front sub)
    ]
  ]

  remove_one-last :
      (p : ReplayPacket) (front : List ReplayPacket) (v : ReplayPacket) (left : List ReplayPacket)
      → remove_one now (p ∷ (front ++ (last ∷ []))) ≡ some (v, left)
      → (rest : List ReplayPacket) × (left ≡ rest ++ (last ∷ [])) × Sub rest (p ∷ front)
  unfolding remove_one
  remove_one-last p front v left e =
      elim (Option-cases (take_victim now (p ∷ (front ++ (last ∷ []))))) [
        | inr ((w, left'), found) ↦
            let left-eq : left' ≡ left = ground (arith, e, found) in
            let (rest, is, sub) = take_victim-last (p ∷ front) w left' found in
            (rest, sym left-eq ∙ is, sub)
        | inl nothing ↦
            let left-eq : front ++ (last ∷ []) ≡ left = ground (arith, e, nothing) in
            (front, sym left-eq, skip p front front (all front))
      ]

  pub trim_loop-last :
      (fuel : ℕ) (front kept : List ReplayPacket) (retained : ℕ)
      → length last.body ≤ replay_history_bytes
      → retained ≡ body_bytes (front ++ (last ∷ []))
      → trim_loop fuel now (front ++ (last ∷ [])) retained ≡ ok kept
      → (rest : List ReplayPacket) × (kept ≡ rest ++ (last ∷ [])) × Sub rest front
  unfolding trim_loop body_bytes
  trim_loop-last zero front kept retained small same run = absurd (ground (arith, run))
  trim_loop-last (suc fuel) [] kept retained small same run =
      let fits : (ltb replay_history_packets 1 || ltb replay_history_bytes retained) ≡ false =
        ground (arith, same, small) in
      let is : last ∷ [] ≡ kept = ground (arith, run, fits) in ([], sym is, all [])
  trim_loop-last (suc fuel) (p ∷ front) kept retained small same run =
      let packets = p ∷ (front ++ (last ∷ [])) in
      elim (Bool-cases
        (ltb replay_history_packets (length packets) || ltb replay_history_bytes retained)) [
          | inr fits ↦
              let is : packets ≡ kept =
                ok-inj packets kept (sym (trim_loop-done fuel now packets retained fits) ∙ run) in
              (p ∷ front, sym is, all (p ∷ front))
          | inl over ↦
              let (v, left, found, r) = remove_one-Removed now p (front ++ (last ∷ [])) in
              let (rest, left-eq, sub) = remove_one-last p front v left found in
              let next : trim_loop fuel now left (retained - length v.body) ≡ ok kept =
                sym (trim_loop-round fuel now packets retained v left over found) ∙ run in
              let (rest', kept-eq, sub') =
                trim_loop-last fuel rest kept (retained - length v.body) small
                  (omega (arith, same, r.bytes_less, ap body_bytes left-eq))
                  (rw (left-eq) at next) in
              (rest', kept-eq, Sub-trans rest' rest (p ∷ front) sub' sub)
        ]
