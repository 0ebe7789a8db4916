-- ===== src/Balancer/Dialling.antt =====
-- The loop of `_cfproxy_fallback` in proxy/bridge.py, which pulls fronts from the balancer, dials
-- each and reports what happened, up to `ws.send(relay_init)`. The WebSocket dial is a parameter, and
-- so is what the other tasks do to the shared balancer while a dial is awaited.
pub mod Effects
pub mod Outcome
use hide_self_tgws.Base.{
  ℕ, zero, suc, ◌+◌, Bool, true, false, not, ◌&&◌, Option, none, some, List, [], ◌∷◌, length,
  if◌then◌else◌,
}
use Prim.Native.String.{String}
use hide_self_tgws.Balancer.{
  Balancer, Candidates, max_attempts, next_domain, report_failure, report_success,
  update_domain_for_dc, get_domains_for_dc,
}

-- The front that answered, if any, the fronts dialled, the last one first, and the balancer after.
pub record Dialled : Type 0 where
  pub chosen : Option String
  pub tried : List String
  pub balancer : Balancer

-- `connects n d` tells whether front `d` answers when `n` more candidates follow; `clock n` is the
-- time at which it is considered and `failed_at n` the time at which its dial has failed. `others n`
-- is what the other tasks make of the balancer during that dial; the rest runs without an await.
module _ (connects : ℕ → String → Bool) (others : ℕ → Balancer → Balancer)
    (clock failed_at : ℕ → ℕ) where
  unfoldable pub dial_loop : ℕ → Balancer → Candidates → List String → Dialled
  dial_loop zero b c tried = record { chosen = none; tried = tried; balancer = b }
  dial_loop (suc fuel) b c tried = elim (next_domain true clock b c.left c.attempts) [
    | none ↦ record { chosen = none; tried = tried; balancer = b }
    | some y ↦
        let (domain, c', b') = y in
        let n = length c'.left in
        let during = others n b' in
        elim (connects n domain) [
          | true ↦ record { chosen = some domain; tried = domain ∷ tried; balancer = during }
          | false ↦
              dial_loop fuel (report_failure (failed_at n) during domain).0 c' (domain ∷ tried)
        ]
  ]

  -- What is left of the fallback once a front, whose name is not empty, has answered, or none has.
  unfoldable pub settle : ℕ → Dialled → Bool × Balancer
  settle dc r = elim r.chosen [
    | none ↦ (false, r.balancer)
    | some domain ↦ (true, (update_domain_for_dc (report_success r.balancer domain) dc domain).0)
  ]

  -- The fronts dialled and the outcome, for the candidates of data centre `dc`. One round more
  -- than the balancer's limit of attempts is enough to see the generator end.
  unfoldable pub cfproxy_fallback :
      (List String → List String) → Balancer → ℕ → Dialled × (Bool × Balancer)
  cfproxy_fallback shuffle b dc =
      let r = dial_loop (suc max_attempts) b (get_domains_for_dc shuffle b dc) [] in
      (r, settle dc r)
