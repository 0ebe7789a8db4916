-- ===== src/Balancer/Rotation.antt =====
-- Which fronts a fallback is offered.
use hide_self_tgws.Base.{
  ℕ, ◌+◌, ◌≤◌, Bool, false, not, ◌&&◌, some, List, [], ◌∷◌, length, leb, ltb, Bool-cases, inl, inr,
  if◌then◌else◌, ◌≡◌, refl, arith,
}
use hide_self_tgws.Base.Dict.{◌=?◌, string_eq, get_or, contains, get_or-insert, beq_self}
use mathlib.Core.Path.{subst}
use mathlib.Core.Option.{some-injective}
use Prim.Native.String.{String}
use hide_self_tgws.Balancer.{
  Balancer, Candidates, in_flight_hold, max_attempts, reserve, next_domain,
}

-- What a yield of the generator says about the front and what it leaves.
pub record IsOffered (reserve_unproven : Bool) (clock : ℕ → ℕ) (b : Balancer) (attempts : ℕ)
    (domain : String) (c : Candidates) (b' : Balancer) : Type 0 where
  -- Not on cooldown when its turn came.
  pub available : get_or domain 0 b.unavailable_until ≤ clock (length c.left)
  pub attempts_left : c.attempts ≤ max_attempts
  pub counted : c.attempts ≡ attempts + 1
  -- An unproven front is held for the dial, a proven one is not.
  pub held : get_or domain 0 b'.unavailable_until ≡ (
      if reserve_unproven && not (contains b.healthy domain)
      then clock (length c.left) + in_flight_hold
      else get_or domain 0 b.unavailable_until)
  pub others_kept :
      (other : String)
      → (domain =? other) ≡ false
      → get_or other 0 b'.unavailable_until ≡ get_or other 0 b.unavailable_until
  pub same_failures : b'.failures ≡ b.failures
  pub same_healthy : b'.healthy ≡ b.healthy

reserve-IsOffered :
    (r : Bool) (clock : ℕ → ℕ) (b : Balancer) (attempts : ℕ) (domain : String) (rest : List String)
    → leb max_attempts attempts ≡ false
    → ltb (clock (length rest)) (get_or domain 0 b.unavailable_until) ≡ false
    → IsOffered r clock b attempts domain
        (record { left = rest; attempts = attempts + 1 })
        (reserve r (clock (length rest)) b domain)
unfolding reserve
reserve-IsOffered r clock b attempts domain rest room free =
    let held_then =
      get_or-insert domain domain 0 (clock (length rest) + in_flight_hold) b.unavailable_until in
    record {
      available = ground arith;
      attempts_left = ground arith;
      counted = refl;
      held = ground (arith, held_then, beq_self domain);
      others_kept = λ other differs. ground (
        arith,
        get_or-insert domain other 0 (clock (length rest) + in_flight_hold) b.unavailable_until,
      );
      same_failures = ground arith;
      same_healthy = ground arith;
    }

-- Every front that the generator yields is free at that moment, is one of the candidates, and no
-- more than three are ever yielded; a hold is placed on unproven fronts only.
pub next_domain-IsOffered :
    (reserve_unproven : Bool) (clock : ℕ → ℕ) (b : Balancer) (left : List String) (attempts : ℕ)
    (domain : String) (c : Candidates) (b' : Balancer)
    → next_domain reserve_unproven clock b left attempts ≡ some (domain, c, b')
    → IsOffered reserve_unproven clock b attempts domain c b'
unfolding next_domain
next_domain-IsOffered r clock b [] attempts domain c b' e = absurd (unfold next_domain in cc)
next_domain-IsOffered r clock b (d ∷ ds) attempts domain c b' e =
    elim (Bool-cases (leb max_attempts attempts)) [
      | inl over ↦ absurd (ground arith)
      | inr room ↦ elim (Bool-cases (ltb (clock (length ds)) (get_or d 0 b.unavailable_until))) [
        | inl resting ↦ next_domain-IsOffered r clock b ds attempts domain c b' (ground arith)
        | inr free ↦
            let here : String × Candidates × Balancer = (
              d,
              record { left = ds; attempts = attempts + 1 },
              reserve r (clock (length ds)) b d,
            ) in
            let yielded : here ≡ (domain, c, b') =
              some-injective here (domain, c, b')
                (unfold next_domain in ground (arith, room, free, e)) in
            subst (λ y. IsOffered r clock b attempts y.0 y.1 y.2) yielded
              (reserve-IsOffered r clock b attempts d ds room free)
      ]
    ]
