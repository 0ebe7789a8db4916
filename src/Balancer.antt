-- ===== src/Balancer.antt =====
-- proxy/balancer.py, class _Balancer, and the loop of `_cfproxy_fallback` in proxy/bridge.py that
-- uses it. Times are milliseconds of `time.monotonic()`, handed in by the caller; `random.choice`
-- and `random.shuffle` are parameters.
pub mod Cooldown
pub mod Rotation
pub mod Dialling
use hide_self_tgws.Base.{
  ℕ, zero, suc, ◌+◌, ◌-◌, ◌*◌, ◌^◌, min, Bool, true, false, not, ◌&&◌, ◌||◌, Option, none, some,
  List, [], ◌∷◌, ◌++◌, length, ltb, leb, ◌==◌, if◌then◌else◌,
}
use hide_self_tgws.Base.Dict.{
  ◌=?◌, string_eq, nat_eq, lookup, get_or, insert, erase, contains, add, discard,
}
use Prim.Native.String.{String}

abbrev pub failure_cooldown : ℕ
failure_cooldown = 60000

abbrev pub max_cooldown : ℕ
max_cooldown = 600000

abbrev pub backoff_steps : ℕ
backoff_steps = 8

abbrev pub in_flight_hold : ℕ
in_flight_hold = 12000

abbrev pub max_attempts : ℕ
max_attempts = 3

pub record Balancer : Type 0 where
  pub domains : List String
  pub dc_to_domain : List (ℕ × String)
  pub unavailable_until : List (String × ℕ)
  pub failures : List (String × ℕ)
  pub healthy : List String

abbrev pub init : Balancer
init = record {
  domains = [];
  dc_to_domain = [];
  unavailable_until = [];
  failures = [];
  healthy = [];
}

unfoldable pub count : String → List String → ℕ
count d [] = 0
count d (x ∷ xs) = (if x =? d then 1 else 0) + count d xs

unfoldable pub all_in : (String → Bool) → List String → Bool
all_in p [] = true
all_in p (x ∷ xs) = p x && all_in p xs

-- `Counter(a) == Counter(b)`
unfoldable pub same_counts : List String → List String → Bool
unfolding count all_in
same_counts a b = all_in (λ d. count d a == count d b) (a ++ b)

-- The entries of a dictionary whose key is in `known`.
unfoldable pub keep_known : List String → List (String × ℕ) → List (String × ℕ)
unfolding contains
keep_known known [] = []
keep_known known ((d, v) ∷ m) =
    let rest = keep_known known m in if contains known d then (d, v) ∷ rest else rest

-- The members of a set for which a test holds, in order.
unfoldable pub select : (String → Bool) → List String → List String
select p [] = []
select p (x ∷ xs) = let rest = select p xs in if p x then x ∷ rest else rest

unfoldable pub update_domain_for_dc : Balancer → ℕ → String → Balancer × Bool
unfolding lookup insert
update_domain_for_dc b dc_id domain =
    let current = lookup dc_id b.dc_to_domain in
    let updated = record b { dc_to_domain = insert dc_id domain b.dc_to_domain } in
    elim current [
      | none ↦ (updated, true)
      | some d ↦ if d =? domain then (b, false) else (updated, true)
    ]

unfoldable pub report_success : Balancer → String → Balancer
report_success b domain = record b {
  unavailable_until = erase domain b.unavailable_until;
  failures = erase domain b.failures;
  healthy = add domain b.healthy;
}

-- The new failure count and the cooldown that it earns.
unfoldable pub next_failures : Balancer → String → ℕ
next_failures b domain = min (get_or domain 0 b.failures + 1) backoff_steps

unfoldable pub cooldown_for : ℕ → ℕ
cooldown_for failures = min (failure_cooldown * 2 ^ (failures - 1)) max_cooldown

unfoldable pub report_failure : ℕ → Balancer → String → Balancer × ℕ
report_failure now b domain =
    let failures = next_failures b domain in
    let cooldown = cooldown_for failures in
    (
      record b {
        unavailable_until = insert domain (now + cooldown) b.unavailable_until;
        failures = insert domain failures b.failures;
        healthy = discard domain b.healthy;
      },
      cooldown,
    )

-- The generator between two of its yields: the candidates left and the attempts made.
pub record Candidates : Type 0 where
  pub left : List String
  pub attempts : ℕ

unfoldable pub reserve : Bool → ℕ → Balancer → String → Balancer
reserve reserve_unproven now b domain =
    if reserve_unproven && not (contains b.healthy domain)
    then record b { unavailable_until = insert domain (now + in_flight_hold) b.unavailable_until }
    else b

-- One resumption of the generator, up to its next yield. The clock is read anew for each
-- candidate: `clock n` is its value when `n` more candidates follow.
unfoldable pub next_domain :
    Bool → (ℕ → ℕ) → Balancer → List String → ℕ → Option (String × Candidates × Balancer)
next_domain reserve_unproven clock b [] attempts = none
next_domain reserve_unproven clock b (domain ∷ rest) attempts =
    let now = clock (length rest) in
    let later = next_domain reserve_unproven clock b rest attempts in
    if leb max_attempts attempts
    then none
    else (if ltb now (get_or domain 0 b.unavailable_until)
        then later
        else some (
          domain,
          record { left = rest; attempts = attempts + 1 },
          reserve reserve_unproven now b domain,
        ))

module _ (choice : List String → String) where
  unfoldable pub update_domains_list : Balancer → List String → Balancer
  update_domains_list b domains_list = if same_counts b.domains domains_list then b else record b {
    domains = domains_list;
    dc_to_domain =
        (1, choice domains_list)
        ∷ (2, choice domains_list)
        ∷ (3, choice domains_list)
        ∷ (4, choice domains_list)
        ∷ (5, choice domains_list)
        ∷ (203, choice domains_list)
        ∷ [];
    unavailable_until = keep_known domains_list b.unavailable_until;
    failures = keep_known domains_list b.failures;
    healthy = select (contains domains_list) b.healthy;
  }

module _ (shuffle : List String → List String) where
  -- The candidates of `get_domains_for_dc`, computed when the generator is first resumed.
  unfoldable pub candidates_for : Balancer → Option String → List String
  candidates_for b none =
      let rest = shuffle b.domains in
      select (contains b.healthy) rest ++ select (λ d. not (contains b.healthy d)) rest
  candidates_for b (some current) =
      let rest = shuffle (select (λ d. not (d =? current)) b.domains) in
      current ∷ (select (contains b.healthy) rest ++ select (λ d. not (contains b.healthy d)) rest)

  unfoldable pub get_domains_for_dc : Balancer → ℕ → Candidates
  get_domains_for_dc b dc_id = record {
    left = candidates_for b (lookup dc_id b.dc_to_domain);
    attempts = 0;
  }
