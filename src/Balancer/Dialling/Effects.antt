-- ===== src/Balancer/Dialling/Effects.antt =====
-- The three ways in which one round of the loop goes, and what a pull and a failed dial do to the
-- times until which the fronts rest.
use hide_self_tgws.Base.{
  ℕ, suc, ◌+◌, ◌≤◌, Bool, true, false, none, some, List, ◌∷◌, length, Bool-cases, inl, inr, ◌≡◌,
  refl, arith,
}
use hide_self_tgws.Base.Dict.{◌=?◌, string_eq, get_or, beq_self}
use Prim.Native.String.{String}
use text.Mathlib.TextEquality.{eq_iff}
use hide_self_tgws.Balancer.{
  Balancer, Candidates, failure_cooldown, next_domain, report_failure, next_failures, cooldown_for,
}
use hide_self_tgws.Balancer.Rotation.{IsOffered}
use hide_self_tgws.Balancer.Cooldown.{cooldown_bounds, report_failure_lem}
use hide_self_tgws.Balancer.Dialling.{dial_loop}

-- A pull never shortens a rest.
pub until-IsOffered :
    (r : Bool) (clock : ℕ → ℕ) (b : Balancer) (attempts : ℕ) (domain other : String)
    (c : Candidates) (b' : Balancer)
    → IsOffered r clock b attempts domain c b'
    → get_or other 0 b.unavailable_until ≤ get_or other 0 b'.unavailable_until
until-IsOffered r clock b attempts domain other c b' o = elim (Bool-cases (domain =? other)) [
  | inl same ↦ ground (arith, eq_iff domain other, o.held, o.available)
  | inr differs ↦ ground (arith, o.others_kept other differs)
]

-- A failure leaves the failed front resting for a minute at least, and the others as they were.
pub until-missed :
    (now : ℕ) (b : Balancer) (domain other : String)
    → (now + failure_cooldown ≤ get_or domain 0 (report_failure now b domain).0.unavailable_until)
      × ((domain =? other) ≡ false
          → get_or other 0 (report_failure now b domain).0.unavailable_until
            ≡ get_or other 0 b.unavailable_until)
until-missed now b domain other =
    let at_other = report_failure_lem now b domain other in
    let at_domain = report_failure_lem now b domain domain in
    let cooldown = cooldown_bounds (next_failures b domain) in
    let cost : (report_failure now b domain).1 ≡ cooldown_for (next_failures b domain) =
      unfold report_failure in refl in
    (
      ground (arith, at_domain.0, beq_self domain, cooldown.0, cost),
      λ differs. ground (arith, at_other.0, differs),
    )

module _ (connects : ℕ → String → Bool) (others : ℕ → Balancer → Balancer)
    (clock failed_at : ℕ → ℕ) where
  pub dial_loop-none :
      (fuel : ℕ) (b : Balancer) (c : Candidates) (tried : List String)
      → next_domain true clock b c.left c.attempts ≡ none
      → dial_loop connects others clock failed_at (suc fuel) b c tried
        ≡ record { chosen = none; tried = tried; balancer = b }
  unfolding dial_loop
  dial_loop-none fuel b c tried e = rw (dial_loop, e) refl

  pub dial_loop-answered :
      (fuel : ℕ) (b : Balancer) (c : Candidates) (tried : List String) (domain : String)
      (c' : Candidates) (b' : Balancer)
      → next_domain true clock b c.left c.attempts ≡ some (domain, c', b')
      → connects (length c'.left) domain ≡ true
      → dial_loop connects others clock failed_at (suc fuel) b c tried ≡ record {
        chosen = some domain;
        tried = domain ∷ tried;
        balancer = others (length c'.left) b';
      }
  unfolding dial_loop
  dial_loop-answered fuel b c tried domain c' b' e answers = rw (dial_loop, e, answers) refl

  pub dial_loop-missed :
      (fuel : ℕ) (b : Balancer) (c : Candidates) (tried : List String) (domain : String)
      (c' : Candidates) (b' : Balancer)
      → next_domain true clock b c.left c.attempts ≡ some (domain, c', b')
      → connects (length c'.left) domain ≡ false
      → dial_loop connects others clock failed_at (suc fuel) b c tried
        ≡ dial_loop connects others clock failed_at fuel
            (report_failure (failed_at (length c'.left)) (others (length c'.left) b') domain).0
            c'
            (domain ∷ tried)
  unfolding dial_loop
  dial_loop-missed fuel b c tried domain c' b' e misses = rw (dial_loop, e, misses) refl
