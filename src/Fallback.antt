-- ===== src/Fallback.antt =====
-- The fallbacks of proxy/bridge.py: the order of the methods in `do_fallback` and the backoff of
-- `_tcp_fallback`. Whether a connection succeeds is a parameter; a method that raises, when its first
-- send fails, ends `do_fallback` with the exception and is not modelled. Times are milliseconds.
pub mod Methods
pub mod Backoff
pub mod Worker
use hide_self_tgws.Base.{
  ℕ, zero, suc, ◌+◌, ◌-◌, ◌*◌, ◌^◌, min, Bool, true, false, not, ◌&&◌, ◌||◌, List, [], ◌∷◌, ◌++◌,
  ltb, if◌then◌else◌,
}
use hide_self_tgws.Base.Dict.{Eq, ◌=?◌, get_or, insert, erase, contains, add, discard}

-- The methods of `do_fallback`; `h2` is the shared HTTP/2 channel that the method `cf` tries first.
pub data Method : Type 0 where
  cf_worker h2 cf tcp : Method

-- What the connection and the configuration say: is the data centre a test one, does it have an
-- address, are there workers, is the CF fallback on, and is it media with an HTTP/2 pool at hand.
pub record Conditions : Type 0 where
  pub is_test_dc : Bool
  pub has_address : Bool
  pub has_workers : Bool
  pub fallback_cfproxy : Bool
  pub has_h2 : Bool

-- The steps that `methods` stands for, in order.
unfoldable pub methods : Conditions → List Method
methods c =
    (if c.has_workers && c.has_address then cf_worker ∷ [] else [])
    ++ (if c.fallback_cfproxy && not c.is_test_dc
        then (if c.has_h2 then h2 ∷ cf ∷ [] else cf ∷ [])
        else [])
    ++ (if c.has_address then tcp ∷ [] else [])

-- The loop over the methods: the methods tried, in order, and whether one succeeded.
unfoldable pub try_methods : (Method → Bool) → List Method → List Method × Bool
try_methods succeeds [] = ([], false)
try_methods succeeds (m ∷ ms) =
    let rest = try_methods succeeds ms in
    if succeeds m then (m ∷ [], true) else (m ∷ rest.0, rest.1)

unfoldable pub do_fallback : (Method → Bool) → Conditions → List Method × Bool
do_fallback succeeds c = try_methods succeeds (methods c)

abbrev pub tcp_backoff_initial : ℕ
tcp_backoff_initial = 30000

abbrev pub tcp_backoff_max : ℕ
tcp_backoff_max = 3600000

-- The module's three dictionaries, over the keys (address, port).
pub record TcpState (K : Type 0) : Type 0 where
  pub tcp_connecting : List K
  pub tcp_failures : List (K × ℕ)
  pub tcp_retry_after : List (K × ℕ)

unfoldable pub tcp_delay : ℕ → ℕ
tcp_delay failures = min (tcp_backoff_initial * 2 ^ min (failures - 1) 7) tcp_backoff_max

module _ {K : Type 0} ⦃e : Eq K⦄ where
  -- Up to the await of the dial: is it made, and the state meanwhile.
  unfoldable pub tcp_begin : ℕ → TcpState K → K → Bool × TcpState K
  tcp_begin now s key =
      if contains s.tcp_connecting key || ltb now (get_or key 0 s.tcp_retry_after)
      then (false, s)
      else (true, record s { tcp_connecting = add key s.tcp_connecting })

  -- After the dial, with its `finally`, for a dial that connects or raises an `Exception`.
  unfoldable pub tcp_end : ℕ → TcpState K → K → Bool → TcpState K
  tcp_end now s key true = record s {
    tcp_connecting = discard key s.tcp_connecting;
    tcp_failures = erase key s.tcp_failures;
    tcp_retry_after = erase key s.tcp_retry_after;
  }
  tcp_end now s key false =
      let failures = get_or key 0 s.tcp_failures + 1 in
      record s {
        tcp_connecting = discard key s.tcp_connecting;
        tcp_failures = insert key failures s.tcp_failures;
        tcp_retry_after = insert key (now + tcp_delay failures) s.tcp_retry_after;
      }
