-- ===== src/Balancer/Cooldown.antt =====
-- How long a failed front rests, and what success and failure record.
use hide_self_tgws.Base.{
  ℕ, zero, suc, ◌+◌, ◌-◌, ◌*◌, ◌^◌, ◌≤◌, min, not, ◌&&◌, ◌||◌, List, if◌then◌else◌, ◌≡◌, refl, ◌∙◌,
  ap, arith, dec_lt,
}
use hide_self_tgws.Base.Dict.{
  ◌=?◌, string_eq, get_or, insert, contains, get_or-insert, get_or-erase, contains-add,
  contains-discard, beq_self,
}
use native.Mathlib.Nat.{pow-suc, one-le-pow}
use Prim.Native.String.{String}
use hide_self_tgws.Balancer.{
  Balancer, failure_cooldown, max_cooldown, backoff_steps, next_failures, cooldown_for,
  report_failure, report_success,
}

-- Every cooldown lies between one minute and ten.
pub cooldown_bounds :
    (failures : ℕ)
    → (failure_cooldown ≤ cooldown_for failures) × (cooldown_for failures ≤ max_cooldown)
unfolding cooldown_for
cooldown_bounds failures = omega (arith, one-le-pow (failures - 1) 2)

-- `n` failures of one front in a row; the clock reads `clock i` at the i-th.
pub fail_times : (ℕ → ℕ) → ℕ → Balancer → String → Balancer
fail_times clock zero b domain = b
fail_times clock (suc n) b domain =
    (report_failure (clock n) (fail_times clock n b domain) domain).0

get_or-insert_self : (d : String) (x v : ℕ) (m : List (String × ℕ)) → get_or d x (insert d v m) ≡ v
get_or-insert_self d x v m =
    get_or-insert d d x v m ∙ ap (λ t. if t then v else get_or d x m) (beq_self d)

failures-fail_times :
    (clock : ℕ → ℕ) (n : ℕ) (b : Balancer) (domain : String)
    → get_or domain 0 b.failures ≡ 0
    → get_or domain 0 (fail_times clock n b domain).failures ≡ min n backoff_steps
unfolding fail_times report_failure next_failures
failures-fail_times clock zero b domain h = h ∙ omega arith
failures-fail_times clock (suc n) b domain h =
    get_or-insert_self domain 0 _ (fail_times clock n b domain).failures
    ∙ omega (arith, failures-fail_times clock n b domain h)

pow_mono : (a b : ℕ) → a ≤ b → 2 ^ a ≤ 2 ^ b
pow_mono zero b h = one-le-pow b 2 (omega arith)
pow_mono (suc a) zero h = absurd (omega arith)
pow_mono (suc a) (suc b) h = omega (arith, pow-suc 2 a, pow-suc 2 b, pow_mono a b (omega arith))

-- Eight recorded failures are enough to reach the longest cooldown.
clamped :
    (n : ℕ)
    → min (failure_cooldown * 2 ^ (min (min n backoff_steps + 1) backoff_steps - 1)) max_cooldown
      ≡ min (failure_cooldown * 2 ^ n) max_cooldown
clamped n = elim (dec_lt n 8) [
  | yes small ↦ ap (λ k. min (failure_cooldown * 2 ^ k) max_cooldown) (omega arith)
  | no large ↦
      let seven : min (min n backoff_steps + 1) backoff_steps - 1 ≡ 7 = omega arith in
      let big : 2 ^ 7 ≤ 2 ^ n = pow_mono 7 n (omega arith) in
      ap (λ k. min (failure_cooldown * 2 ^ k) max_cooldown) seven ∙ omega arith
]

-- The n-th failure in a row of a front with a clean record puts it aside for a minute doubled
-- n - 1 times, at most ten minutes: 60, 120, 240, 480 and from then on 600 seconds.
pub cooldown-fail_times :
    (clock : ℕ → ℕ) (n now : ℕ) (b : Balancer) (domain : String)
    → get_or domain 0 b.failures ≡ 0
    → (report_failure now (fail_times clock n b domain) domain).1
      ≡ min (failure_cooldown * 2 ^ n) max_cooldown
unfolding report_failure next_failures cooldown_for
cooldown-fail_times clock n now b domain h =
    ap (λ f. min (failure_cooldown * 2 ^ (min (f + 1) backoff_steps - 1)) max_cooldown)
      (failures-fail_times clock n b domain h)
    ∙ clamped n

-- After a failure the front is on record as resting until exactly the cooldown that the call
-- returned is over, is no longer healthy, and no other front's record has changed.
pub report_failure_lem :
    (now : ℕ) (b : Balancer) (domain other : String)
    → (get_or other 0 (report_failure now b domain).0.unavailable_until ≡ (
        if domain =? other
        then now + (report_failure now b domain).1
        else get_or other 0 b.unavailable_until))
      × (contains (report_failure now b domain).0.healthy other
          ≡ (not (domain =? other) && contains b.healthy other))
      × (get_or other 0 (report_failure now b domain).0.failures
          ≡ (if domain =? other then next_failures b domain else get_or other 0 b.failures))
unfolding report_failure
report_failure_lem now b domain other = (
  get_or-insert domain other 0 (now + cooldown_for (next_failures b domain)) b.unavailable_until,
  contains-discard domain other b.healthy,
  get_or-insert domain other 0 (next_failures b domain) b.failures,
)

-- A success clears the front's cooldown and failures and makes it healthy, and changes nothing
-- else; the next failure is then the first of a row again.
pub report_success_lem :
    (b : Balancer) (domain other : String)
    → (get_or other 0 (report_success b domain).unavailable_until
        ≡ (if domain =? other then 0 else get_or other 0 b.unavailable_until))
      × (contains (report_success b domain).healthy other
          ≡ (domain =? other || contains b.healthy other))
      × (get_or other 0 (report_success b domain).failures
          ≡ (if domain =? other then 0 else get_or other 0 b.failures))
      × ((now : ℕ) → (report_failure now (report_success b domain) domain).1 ≡ failure_cooldown)
unfolding report_success
report_success_lem b domain other = (
  get_or-erase domain other 0 b.unavailable_until,
  contains-add domain other b.healthy,
  get_or-erase domain other 0 b.failures,
  λ now.
      unfold report_failure next_failures cooldown_for in
      rw (get_or-erase domain domain 0 b.failures, beq_self domain) refl,
)
