-- ===== src/Tests/Bridge.antt =====
-- The stream splitter, the balancer and the fallbacks of proxy/bridge.py on concrete inputs.
use hide_self_tgws.Base.{
  ℕ, ◌+◌, ◌≤◌, ◌<◌, Bool, true, false, none, some, List, [], ◌∷◌, ◌++◌, ok, ◌≡◌, refl, ap, ◌∙◌,
  join, length, arith,
}
use hide_self_tgws.Base.Dict.{
  ◌=?◌, string_eq, nat_eq, lookup, get_or, insert, erase, contains, add, discard,
}
use Prim.Native.String.{String}
use hide_self_tgws.Base.Bytes.{byte_at, from_bytes_little}
use hide_self_tgws.Base.{take, drop, slice}
use hide_self_tgws.Splitter.{
  MsgSplitter, init, proto_abridged_int, checked_len, abridged_len_from, next_abridged_len,
  next_packet_len, cut_packet, split_loop, split, flush, feed,
}
use hide_self_tgws.Balancer.{
  Balancer, get_domains_for_dc, candidates_for, select, next_domain, reserve, report_failure,
  next_failures, cooldown_for,
}
use hide_self_tgws.Balancer.Dialling.{dial_loop, settle, cfproxy_fallback}
use hide_self_tgws.Balancer.Dialling.Effects.{until-missed}
use hide_self_tgws.Balancer.Dialling.Outcome.{
  cfproxy_fallback-available, cfproxy_fallback-rests, cfproxy_fallback-answered,
  cfproxy_fallback-attempts,
}
use hide_self_tgws.Fallback.{
  Method, cf_worker, h2, cf, tcp, Conditions, do_fallback, TcpState, tcp_begin, tcp_end,
  tcp_backoff_initial, tcp_backoff_max,
}
use hide_self_tgws.Fallback.Methods.{Tried, do_fallback-Tried}
use hide_self_tgws.Fallback.Backoff.{tcp_begin-tcp_end}
use hide_self_tgws.Splitter.Chunking.{IsValid, split-append, then_split}
use hide_self_tgws.Splitter.Feeding.{feed_total}
use hide_self_tgws.Splitter.Packets.{feed-packets, short}

abbrev abridged : MsgSplitter
abridged = init proto_abridged_int

abridged-IsValid : IsValid abridged
abridged-IsValid = record { same_length = refl; nothing_kept = λ e. cc }

-- An abridged packet of one word, in the clear and encrypted, and cut after its first byte.
abbrev packet_plain : List ℕ
packet_plain = 1 ∷ 10 ∷ 11 ∷ 12 ∷ 13 ∷ []

abbrev packet_cipher : List ℕ
packet_cipher = 90 ∷ 91 ∷ 92 ∷ 93 ∷ 94 ∷ []

abbrev cut_in_two : List (List ℕ × List ℕ)
cut_in_two = (90 ∷ [], 1 ∷ []) ∷ (91 ∷ 92 ∷ 93 ∷ 94 ∷ [], 10 ∷ 11 ∷ 12 ∷ 13 ∷ []) ∷ []

feed_total_example :
    (r : List (List ℕ) × MsgSplitter) × (feed abridged cut_in_two ≡ ok r)
    × IsValid r.1
    × (join (r.0 ++ (flush r.1).0) ≡ packet_cipher)
feed_total_example = feed_total abridged cut_in_two abridged-IsValid (refl, (refl, tt))

feed-packets_example : feed abridged cut_in_two ≡ ok (packet_cipher ∷ [], abridged)
feed-packets_example =
    feed-packets proto_abridged_int ((packet_cipher, packet_plain) ∷ []) cut_in_two
      (
        (
          refl,
          short 1 (10 ∷ 11 ∷ 12 ∷ 13 ∷ []) refl (λ e. absurd (omega arith))
              (λ e. absurd (omega arith)) (omega arith) (omega arith),
        ),
        tt,
      )
      (refl, (refl, tt)) refl refl

abbrev waiting : MsgSplitter
waiting = record abridged { cipher_buf = 90 ∷ []; plain_buf = 1 ∷ [] }

first_byte-waits : split abridged (90 ∷ []) (1 ∷ []) ≡ ok ([], waiting)
unfolding checked_len abridged_len_from next_abridged_len next_packet_len cut_packet split_loop
    split byte_at slice take drop from_bytes_little
first_byte-waits = refl

split-append_example :
    split abridged packet_cipher packet_plain
    ≡ then_split ([], waiting) (91 ∷ 92 ∷ 93 ∷ 94 ∷ []) (10 ∷ 11 ∷ 12 ∷ 13 ∷ [])
split-append_example =
    split-append abridged (90 ∷ []) (1 ∷ []) (91 ∷ 92 ∷ 93 ∷ 94 ∷ []) (10 ∷ 11 ∷ 12 ∷ 13 ∷ [])
      ([], waiting) abridged-IsValid refl refl first_byte-waits refl

abbrev a_front : String
a_front = "a"

abbrev b_front : String
b_front = "b"

-- Two fronts, of which the first rests until 100 s, at 1 s.
abbrev fronts : Balancer
fronts = record {
  domains = "a" ∷ "b" ∷ [];
  dc_to_domain = (2, "a") ∷ [];
  unavailable_until = ("a", 100000) ∷ [];
  failures = [];
  healthy = "b" ∷ [];
}

abbrev clock : ℕ → ℕ
clock n = 1000

abbrev failed_at : ℕ → ℕ
failed_at n = 11000

abbrev never : ℕ → String → Bool
never n d = false

abbrev always : ℕ → String → Bool
always n d = true

-- Another fallback misses "b" at 9 s.
abbrev others : ℕ → Balancer → Balancer
others n b = (report_failure 9000 b "b").0

abbrev same_order : List String → List String
same_order xs = xs

dials_b :
    ((cfproxy_fallback never others clock failed_at same_order fronts 2).0.tried ≡ "b" ∷ [])
    × ((cfproxy_fallback never others clock failed_at same_order fronts 2).0.chosen ≡ none)
    × ((cfproxy_fallback always others clock failed_at same_order fronts 2).0.chosen ≡ some "b")
unfolding cfproxy_fallback dial_loop settle get_domains_for_dc candidates_for select next_domain
    reserve report_failure next_failures cooldown_for get_or lookup insert erase contains add
    discard
dials_b = (refl, refl, refl)

b_tried :
    (connects : ℕ → String → Bool)
    → (cfproxy_fallback connects others clock failed_at same_order fronts 2).0.tried ≡ "b" ∷ []
    → contains (cfproxy_fallback connects others clock failed_at same_order fronts 2).0.tried "b"
      ≡ true
b_tried connects e = ap (λ t. contains t "b") e ∙ (unfold contains in refl)

a_rests : 1000 < get_or "a" 0 fronts.unavailable_until
unfolding get_or lookup
a_rests = omega arith

cfproxy_fallback-available_example :
    contains (cfproxy_fallback never others clock failed_at same_order fronts 2).0.tried "a" ≡ false
cfproxy_fallback-available_example =
    cfproxy_fallback-available never others clock failed_at same_order fronts 2 1000 "a"
      (λ n. omega arith)
      (λ n b' resting.
        let same = (until-missed 9000 b' "b" "a").1 refl in omega (arith, resting, same))
      a_rests

cfproxy_fallback-rests_example :
    1000 + 60000
    ≤ get_or "b" 0
        (cfproxy_fallback never others clock failed_at same_order fronts 2).1.1.unavailable_until
cfproxy_fallback-rests_example =
    cfproxy_fallback-rests never others clock failed_at same_order fronts 2 1000 "b"
      (λ n. omega arith)
      (λ n b' resting. let missed = (until-missed 9000 b' "b" "b").0 in omega (arith, missed))
      dials_b.1 (b_tried never dials_b.0)

cfproxy_fallback-answered_example :
    let (success, b') = (cfproxy_fallback always others clock failed_at same_order fronts 2).1 in
    (success ≡ true)
    × (lookup 2 b'.dc_to_domain ≡ some "b")
    × (contains b'.healthy "b" ≡ true)
    × (get_or "b" 0 b'.unavailable_until ≡ 0)
    × (get_or "b" 0 b'.failures ≡ 0)
cfproxy_fallback-answered_example =
    cfproxy_fallback-answered always others clock failed_at same_order fronts 2 "b" dials_b.2

cfproxy_fallback-attempts_example :
    let r = (cfproxy_fallback never others clock failed_at same_order fronts 2).0 in
    (length r.tried ≤ 3)
    × (dial_loop never others clock failed_at
          (7 + 4)
          fronts
          (get_domains_for_dc same_order fronts 2)
          []
        ≡ r)
cfproxy_fallback-attempts_example =
    cfproxy_fallback-attempts never others clock failed_at same_order fronts 2 7

-- Workers and the CF fallback apply, the front fails, plain TCP works.
abbrev only_tcp : Method → Bool
only_tcp cf_worker = false
only_tcp h2 = false
only_tcp cf = false
only_tcp tcp = true

abbrev all_apply : Conditions
all_apply = record {
  is_test_dc = false;
  has_address = true;
  has_workers = true;
  fallback_cfproxy = true;
  has_h2 = false;
}

do_fallback-Tried_example :
    (applicable : List Method) × Tried only_tcp applicable (do_fallback only_tcp all_apply)
    × (applicable ≡ (cf_worker ∷ []) ++ [] ++ (cf ∷ []) ++ (tcp ∷ []))
do_fallback-Tried_example = do_fallback-Tried only_tcp all_apply

abbrev seven : ℕ
seven = 7

abbrev eight : ℕ
eight = 8

abbrev quiet : TcpState ℕ
quiet = record { tcp_connecting = []; tcp_failures = []; tcp_retry_after = [] }

tcp_begin-tcp_end_example :
    let dialling = (tcp_begin 0 quiet 7).1 in
    let after = tcp_end 10000 dialling 7 false in
    (tcp_begin 20000 dialling 7 ≡ (false, dialling))
    × (false ≡ true → (tcp_begin 20000 after 7).0 ≡ true)
    × (false ≡ false
        → 20000 < 10000 + tcp_backoff_initial
        → tcp_begin 20000 after 7 ≡ (false, after))
    × (false ≡ false → 10000 + tcp_backoff_max ≤ 20000 → (tcp_begin 20000 after 7).0 ≡ true)
    × ((seven =? eight) ≡ false → (tcp_begin 20000 after 8).0 ≡ (tcp_begin 20000 quiet 8).0)
tcp_begin-tcp_end_example =
    tcp_begin-tcp_end 0 10000 20000 quiet 7 8 false
      (unfold tcp_begin get_or lookup contains in refl)
