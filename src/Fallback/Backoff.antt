-- ===== src/Fallback/Backoff.antt =====
-- When a plain TCP dial is made, and how the backoff grows.
use hide_self_tgws.Base.{ℕ, ◌+◌, ◌-◌, ◌≤◌, ◌<◌, min, Bool, true, false, ◌||◌, ltb, ◌≡◌, sym, arith}
use hide_self_tgws.Base.Dict.{
  Eq, ◌=?◌, get_or, contains, add, get_or-insert, get_or-erase, contains-add, contains-discard,
  beq_self,
}
use native.Mathlib.Nat.{one-le-pow}
use mathlib.Core.Path.{subst}
use hide_self_tgws.Fallback.{
  TcpState, tcp_backoff_initial, tcp_backoff_max, tcp_delay, tcp_begin, tcp_end,
}

tcp_delay_bounds :
    (failures : ℕ)
    → (tcp_backoff_initial ≤ tcp_delay failures) × (tcp_delay failures ≤ tcp_backoff_max)
unfolding tcp_delay
tcp_delay_bounds failures = omega (arith, one-le-pow (min (failures - 1) 7) 2)

module _ {K : Type 0} ⦃e : Eq K⦄ where
  abbrev Spaced : ℕ → ℕ → TcpState K → K → K → Bool → TcpState K → Type 0
  Spaced later at s key other success dialling =
      let after = tcp_end later dialling key success in
      (tcp_begin at dialling key ≡ (false, dialling))
      × (success ≡ true → (tcp_begin at after key).0 ≡ true)
      × (success ≡ false
          → at < later + tcp_backoff_initial
          → tcp_begin at after key ≡ (false, after))
      × (success ≡ false → later + tcp_backoff_max ≤ at → (tcp_begin at after key).0 ≡ true)
      × ((key =? other) ≡ false → (tcp_begin at after other).0 ≡ (tcp_begin at s other).0)

  Spaced-entered :
      (later at : ℕ) (s : TcpState K) (key other : K) (success : Bool)
      → Spaced later at s key other success (record s { tcp_connecting = add key s.tcp_connecting })
  Spaced-entered later at s key other true =
      let self = beq_self key in
      let there = contains-add key key s.tcp_connecting in
      let left = contains-discard key key (add key s.tcp_connecting) in
      let left_other = contains-discard key other (add key s.tcp_connecting) in
      let there_other = contains-add key other s.tcp_connecting in
      let retry = get_or-erase key key 0 s.tcp_retry_after in
      let retry_other = get_or-erase key other 0 s.tcp_retry_after in
      unfold tcp_begin tcp_end in
      (
        ground (arith, self, there),
        λ won. ground (arith, self, left, retry),
        λ lost. absurd (cc),
        λ lost. absurd (cc),
        λ differs. ground (arith, differs, left_other, there_other, retry_other),
      )
  Spaced-entered later at s key other false =
      let self = beq_self key in
      let there = contains-add key key s.tcp_connecting in
      let left = contains-discard key key (add key s.tcp_connecting) in
      let left_other = contains-discard key other (add key s.tcp_connecting) in
      let there_other = contains-add key other s.tcp_connecting in
      let failures = get_or key 0 s.tcp_failures + 1 in
      let bounds = tcp_delay_bounds failures in
      let retry = get_or-insert key key 0 (later + tcp_delay failures) s.tcp_retry_after in
      let retry_other = get_or-insert key other 0 (later + tcp_delay failures) s.tcp_retry_after in
      unfold tcp_begin tcp_end in
      (
        ground (arith, self, there),
        λ won. absurd (cc),
        λ lost soon. ground (arith, self, left, retry, bounds, soon),
        λ lost late. ground (arith, self, left, retry, bounds, late),
        λ differs. ground (arith, differs, left_other, there_other, retry_other),
      )

  -- While a dial to a key is under way, and after it failed for half a minute at least and an
  -- hour at most, no other dial to that key is begun and nothing changes; after one succeeded, the next
  -- is begun at once. A dial to one key leaves the backoff of the others as it is.
  pub tcp_begin-tcp_end :
      (now later at : ℕ) (s : TcpState K) (key other : K) (success : Bool)
      → (tcp_begin now s key).0 ≡ true
      → let dialling = (tcp_begin now s key).1 in
        let after = tcp_end later dialling key success in
        (tcp_begin at dialling key ≡ (false, dialling))
        × (success ≡ true → (tcp_begin at after key).0 ≡ true)
        × (success ≡ false
            → at < later + tcp_backoff_initial
            → tcp_begin at after key ≡ (false, after))
        × (success ≡ false → later + tcp_backoff_max ≤ at → (tcp_begin at after key).0 ≡ true)
        × ((key =? other) ≡ false → (tcp_begin at after other).0 ≡ (tcp_begin at s other).0)
  tcp_begin-tcp_end now later at s key other success begun =
      let free : (contains s.tcp_connecting key || ltb now (get_or key 0 s.tcp_retry_after))
          ≡ false =
        unfold tcp_begin in ground (arith, begun) in
      let entered : (tcp_begin now s key).1
          ≡ record s { tcp_connecting = add key s.tcp_connecting } =
        unfold tcp_begin in ground (arith, free) in
      subst (Spaced later at s key other success) (sym entered)
        (Spaced-entered later at s key other success)
