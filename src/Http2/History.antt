-- ===== src/Http2/History.antt =====
-- proxy/cf_h2.py: the packets that a channel may send again, `_find_packet`, `_remember_packet` and
-- `_trim_history`, as `_send` calls them. Times are in milliseconds, tasks are numbers; a packet is
-- known by its body, which no two packets of a history share.
pub mod Trimming
pub mod Sent
use hide_self_tgws.Base.{
  ℕ, zero, suc, ◌+◌, ◌-◌, Bool, true, false, not, ◌&&◌, ◌||◌, Option, none, some, List, [], ◌∷◌,
  ◌++◌, length, take, replicate, ltb, leb, ◌==◌, if◌then◌else◌, Result, ok, err, stuck, ◌>>=◌,
}
use hide_self_tgws.Base.Dict.{◌=?◌, nat_eq, bytes_eq, add}

abbrev pub replay_max_age : ℕ
replay_max_age = 30000

abbrev pub replay_max_attempts : ℕ
replay_max_attempts = 3

abbrev pub replay_history_bytes : ℕ
replay_history_bytes = 65536

abbrev pub replay_history_packets : ℕ
replay_history_packets = 16

pub record ReplayPacket : Type 0 where
  pub sent_at : ℕ
  pub body : List ℕ
  pub sequence : ℕ
  pub attempts : ℕ
  pub last_attempt_at : ℕ
  pub pending : Option ℕ
  pub originals : List ℕ
  pub retired : Bool
  pub reply_id : Option (List ℕ)

unfoldable pub new_packet : ℕ → List ℕ → ℕ → ReplayPacket
new_packet now body sequence = record {
  sent_at = now;
  body = body;
  sequence = sequence;
  attempts = 0;
  last_attempt_at = 0;
  pending = none;
  originals = [];
  retired = false;
  reply_id = none;
}

-- `replay_key` and `replay_history`.
pub record History : Type 0 where
  pub replay_key : Option (List ℕ)
  pub packets : List ReplayPacket

unfoldable pub find_packet : List ℕ → List ReplayPacket → Option ReplayPacket
find_packet body [] = none
find_packet body (p ∷ packets) = if p.body =? body then some p else find_packet body packets

unfoldable pub same_key : List ℕ → Option (List ℕ) → Bool
same_key key none = false
same_key key (some k) = k =? key

-- `_remember_packet`: whether a packet stands for the body, and the history.
unfoldable pub remember_packet : List ℕ → ℕ → ℕ → History → Bool × History
unfolding find_packet new_packet same_key
remember_packet body now requests h =
    let key = take 8 body in
    let kept = (if same_key key h.replay_key then h.packets else []) in
    if key =? replicate 8 0
    then (false, h)
    else if ltb replay_history_bytes (length body)
    then (false, record { replay_key = some key; packets = kept })
    else (
      true,
      record {
        replay_key = some key;
        packets = elim (find_packet body kept) [
          | none ↦ kept ++ (new_packet now body requests ∷ [])
          | some p ↦ kept
        ];
      },
    )

-- `packet.originals.add(task)`
unfoldable pub add_original : List ℕ → ℕ → List ReplayPacket → List ReplayPacket
add_original body task [] = []
add_original body task (p ∷ packets) =
    let rest = add_original body task packets in
    if p.body =? body then record p { originals = add task p.originals } ∷ packets else p ∷ rest

unfoldable pub body_bytes : List ReplayPacket → ℕ
body_bytes [] = 0
body_bytes (p ∷ packets) = length p.body + body_bytes packets

-- No original request is open, and it is not kept for the replays that are left to it.
unfoldable pub is_victim : ℕ → ReplayPacket → Bool
is_victim now p =
    elim p.originals [ [] ↦ true | t ∷ ts ↦ false ]
    && not (p.retired && ltb p.attempts replay_max_attempts && leb (now - p.sent_at) replay_max_age)

-- The first victim and the packets without it.
unfoldable pub take_victim : ℕ → List ReplayPacket → Option (ReplayPacket × List ReplayPacket)
unfolding is_victim
take_victim now [] = none
take_victim now (p ∷ packets) =
    let rest = take_victim now packets in
    if is_victim now p
    then some (p, packets)
    else elim rest [ none ↦ none | some (v, left) ↦ some (v, p ∷ left) ]

-- The victim, or else the oldest packet.
unfoldable pub remove_one : ℕ → List ReplayPacket → Option (ReplayPacket × List ReplayPacket)
unfolding take_victim
remove_one now packets = elim (take_victim now packets) [
  | some found ↦ some found
  | none ↦ elim packets [ [] ↦ none | p ∷ left ↦ some (p, left) ]
]

-- The loop of `_trim_history`, with fuel; each round takes a packet out.
unfoldable pub trim_loop : ℕ → ℕ → List ReplayPacket → ℕ → Result (List ReplayPacket)
unfolding remove_one
trim_loop zero now packets retained_bytes = err stuck
trim_loop (suc fuel) now packets retained_bytes =
    elim (ltb replay_history_packets (length packets) || ltb replay_history_bytes retained_bytes) [
      | false ↦ ok packets
      | true ↦ elim (remove_one now packets) [
        | none ↦ err stuck
        | some (v, left) ↦ trim_loop fuel now left (retained_bytes - length v.body)
      ]
    ]

unfoldable pub trim_history : ℕ → List ReplayPacket → Result (List ReplayPacket)
unfolding trim_loop body_bytes
trim_history now packets = trim_loop (suc (length packets)) now packets (body_bytes packets)

-- What `_send` does to the history for a body of the client that becomes the request `task`.
unfoldable pub note_sent : List ℕ → ℕ → ℕ → ℕ → History → Result History
unfolding remember_packet add_original trim_history
note_sent body now requests task h =
    let (known, h') = remember_packet body now requests h in
    if known
    then (do
      packets ← trim_history now (add_original body task h'.packets)
      ok (record h' { packets = packets }))
    else ok h'
