-- ===== src/Balancer/Dialling/Outcome.antt =====
-- What a whole fallback does: how many fronts it dials, which ones, and how it leaves them.
use hide_self_tgws.Base.{
  ℕ, zero, suc, ◌+◌, ◌≤◌, ◌<◌, Bool, true, ◌||◌, none, some, Option-cases, false, List, [], ◌∷◌,
  length, le→leb, Bool-cases, inl, inr, ◌≡◌, refl, sym, ◌∙◌, ap, arith,
}
use hide_self_tgws.Base.Dict.{
  ◌=?◌, string_eq, nat_eq, lookup, lookup-insert, get_or, contains, beq_self,
}
use Prim.Native.String.{String}
use mathlib.Core.Path.{subst}
use text.Mathlib.TextEquality.{eq_iff}
use hide_self_tgws.Balancer.{
  Balancer, Candidates, max_attempts, failure_cooldown, next_domain, report_failure, report_success,
  update_domain_for_dc, get_domains_for_dc,
}
use hide_self_tgws.Balancer.Cooldown.{report_success_lem}
use hide_self_tgws.Balancer.Rotation.{IsOffered, next_domain-IsOffered}
use hide_self_tgws.Balancer.Dialling.{Dialled, dial_loop, cfproxy_fallback, settle}
use hide_self_tgws.Balancer.Dialling.Effects.{
  until-IsOffered, until-missed, dial_loop-none, dial_loop-answered, dial_loop-missed,
}

module _ (connects : ℕ → String → Bool) (others : ℕ → Balancer → Balancer)
    (clock failed_at : ℕ → ℕ) where
  -- What holds of the loop's state before a round and is kept by every missed dial gives what is
  -- wanted of the result.
  dial_loop-invariant :
      (P : Balancer → Candidates → List String → Type 0) (Q : Dialled → Type 0)
      → ((b : Balancer) (c : Candidates) (tried : List String)
          → P b c tried
          → Q (record { chosen = none; tried = tried; balancer = b }))
      → ((b : Balancer) (c : Candidates) (tried : List String) (domain : String) (c' : Candidates)
            (b' : Balancer)
          → P b c tried
          → IsOffered true clock b c.attempts domain c' b'
          → Q (record {
            chosen = some domain;
            tried = domain ∷ tried;
            balancer = others (length c'.left) b';
          }))
      → ((b : Balancer) (c : Candidates) (tried : List String) (domain : String) (c' : Candidates)
            (b' : Balancer)
          → P b c tried
          → IsOffered true clock b c.attempts domain c' b'
          → P
              (report_failure (failed_at (length c'.left)) (others (length c'.left) b') domain).0
              c'
              (domain ∷ tried))
      → (fuel : ℕ) (b : Balancer) (c : Candidates) (tried : List String) → P b c tried
      → Q (dial_loop connects others clock failed_at fuel b c tried)
  dial_loop-invariant P Q stop answered missed zero b c tried p =
      unfold dial_loop in stop b c tried p
  dial_loop-invariant P Q stop answered missed (suc fuel) b c tried p =
      elim (Option-cases (next_domain true clock b c.left c.attempts)) [
        | inl over ↦
            subst Q (sym (dial_loop-none connects others clock failed_at fuel b c tried over))
              (stop b c tried p)
        | inr pulled ↦
            let (y, e) = pulled in
            let (domain, c', b') = y in
            let offered = next_domain-IsOffered true clock b c.left c.attempts domain c' b' e in
            elim (Bool-cases (connects (length c'.left) domain)) [
              | inl yes_ ↦
                  subst Q
                    (sym (
                      dial_loop-answered connects others clock failed_at fuel b c tried domain c' b'
                        e yes_))
                    (answered b c tried domain c' b' p offered)
              | inr no_ ↦
                  subst Q
                    (sym (
                      dial_loop-missed connects others clock failed_at fuel b c tried domain c' b' e
                        no_))
                    (dial_loop-invariant P Q stop answered missed fuel
                      (report_failure (failed_at (length c'.left)) (others (length c'.left) b')
                        domain).0
                      c' (domain ∷ tried) (missed b c tried domain c' b' p offered))
            ]
      ]

-- A front that rests beyond a time is not one that was free before it.
other_front :
    (latest : ℕ) (d domain : String) (b : Balancer) (now : ℕ)
    → latest < get_or domain 0 b.unavailable_until
    → get_or d 0 b.unavailable_until ≤ now
    → now ≤ latest
    → (d =? domain) ≡ false
other_front latest d domain b now resting free bounded = elim (Bool-cases (d =? domain)) [
  | inr differs ↦ differs
  | inl same ↦
      let at = ap (λ x. get_or x 0 b.unavailable_until) ((eq_iff d domain).0 same) in
      absurd (omega (arith, resting, free, bounded, at))
]

not_among :
    (d domain : String) (tried : List String)
    → (d =? domain) ≡ false
    → contains tried domain ≡ false
    → contains (d ∷ tried) domain ≡ false
unfolding contains
not_among d domain tried differs out = ground (arith, differs, out)

-- How long a front rests after a miss, of it or of another one.
rests_after :
    (t : ℕ) (d domain : String) (before after : Balancer) (tried : List String)
    → t ≤ get_or d 0 after.unavailable_until
    → ((d =? domain) ≡ false
        → get_or domain 0 after.unavailable_until ≡ get_or domain 0 before.unavailable_until)
    → (contains tried domain ≡ true → t ≤ get_or domain 0 before.unavailable_until)
    → contains (d ∷ tried) domain ≡ true
    → t ≤ get_or domain 0 after.unavailable_until
unfolding contains
rests_after t d domain before after tried missed kept held among = elim (Bool-cases (d =? domain)) [
  | inl same ↦
      let at = ap (λ x. get_or x 0 after.unavailable_until) ((eq_iff d domain).0 same) in
      omega (arith, missed, at)
  | inr differs ↦
      let still = held (ground (arith, among, differs)) in
      let same = kept differs in omega (arith, still, same)
]

-- The generator ends once the attempts are used up.
next_domain-used_up :
    (r : Bool) (clock : ℕ → ℕ) (b : Balancer) (left : List String) (attempts : ℕ)
    → max_attempts ≤ attempts
    → next_domain r clock b left attempts ≡ none
unfolding next_domain
next_domain-used_up r clock b [] attempts h = refl
next_domain-used_up r clock b (d ∷ ds) attempts h = rw (le→leb max_attempts attempts h) refl

module _ (connects : ℕ → String → Bool) (others : ℕ → Balancer → Balancer)
    (clock failed_at : ℕ → ℕ) where
  -- Once the rounds outnumber the attempts left, more rounds change nothing: the four rounds that
  -- the fallback is given are all that the loop of the code makes.
  dial_loop-enough :
      (fuel more : ℕ) (b : Balancer) (c : Candidates) (tried : List String)
      → max_attempts < c.attempts + fuel
      → dial_loop connects others clock failed_at (more + fuel) b c tried
        ≡ dial_loop connects others clock failed_at fuel b c tried
  dial_loop-enough zero zero b c tried h =
      ap (λ n. dial_loop connects others clock failed_at n b c tried) (omega arith)
  dial_loop-enough zero (suc more) b c tried h =
      let suc_more : suc more + 0 ≡ suc more = omega arith in
      ap (λ n. dial_loop connects others clock failed_at n b c tried) suc_more
      ∙ dial_loop-none connects others clock failed_at more b c tried
          (next_domain-used_up true clock b c.left c.attempts (omega arith))
      ∙ unfold dial_loop in refl
  dial_loop-enough (suc fuel) more b c tried h =
      let suc_sum : more + suc fuel ≡ suc (more + fuel) = omega arith in
      ap (λ n. dial_loop connects others clock failed_at n b c tried) suc_sum
      ∙ elim (Option-cases (next_domain true clock b c.left c.attempts)) [
        | inl over ↦
            dial_loop-none connects others clock failed_at (more + fuel) b c tried over
            ∙ sym (dial_loop-none connects others clock failed_at fuel b c tried over)
        | inr pulled ↦
            let (y, e) = pulled in
            let (domain, c', b') = y in
            let offered = next_domain-IsOffered true clock b c.left c.attempts domain c' b' e in
            elim (Bool-cases (connects (length c'.left) domain)) [
              | inl yes_ ↦
                  dial_loop-answered connects others clock failed_at (more + fuel) b c tried domain
                    c' b' e yes_
                  ∙ sym (
                      dial_loop-answered connects others clock failed_at fuel b c tried domain c' b'
                        e yes_)
              | inr no_ ↦
                  dial_loop-missed connects others clock failed_at (more + fuel) b c tried domain c'
                    b' e no_
                  ∙ dial_loop-enough fuel more
                      (report_failure (failed_at (length c'.left)) (others (length c'.left) b')
                        domain).0
                      c' (domain ∷ tried) (omega (arith, h, offered.counted))
                  ∙ sym (
                      dial_loop-missed connects others clock failed_at fuel b c tried domain c' b' e
                        no_)
            ]
      ]

-- Switching a data centre's front changes nothing but that entry.
update_domain_for_dc_lem :
    (b : Balancer) (dc : ℕ) (domain : String)
    → (lookup dc (update_domain_for_dc b dc domain).0.dc_to_domain ≡ some domain)
      × ((update_domain_for_dc b dc domain).0.unavailable_until ≡ b.unavailable_until)
      × ((update_domain_for_dc b dc domain).0.failures ≡ b.failures)
      × ((update_domain_for_dc b dc domain).0.healthy ≡ b.healthy)
update_domain_for_dc_lem b dc domain =
    let fresh = lookup-insert dc dc domain b.dc_to_domain in
    elim (Option-cases (lookup dc b.dc_to_domain)) [
      | inl missing ↦ unfold update_domain_for_dc in ground (arith, missing, fresh, beq_self dc)
      | inr current ↦
          let (d, e) = current in
          unfold update_domain_for_dc in ground (arith, e, fresh, beq_self dc, eq_iff d domain)
    ]

module _ (connects : ℕ → String → Bool) (others : ℕ → Balancer → Balancer) (clock failed_at : ℕ → ℕ)
    (shuffle : List String → List String) (b : Balancer) (dc : ℕ) where
  -- Whatever the other tasks do, a fallback dials at most three fronts, however long the pool is;
  -- and it has ended by then: more rounds of the loop change nothing.
  pub cfproxy_fallback-attempts :
      (more : ℕ)
      → let r = (cfproxy_fallback connects others clock failed_at shuffle b dc).0 in
        (length r.tried ≤ 3)
        × (dial_loop connects others clock failed_at
              (more + suc max_attempts)
              b
              (get_domains_for_dc shuffle b dc)
              []
            ≡ r)
  unfolding cfproxy_fallback get_domains_for_dc
  cfproxy_fallback-attempts more = (
    dial_loop-invariant connects others clock failed_at
        (λ b c tried. (length tried ≡ c.attempts) × (c.attempts ≤ max_attempts))
        (λ r. length r.tried ≤ max_attempts) (λ b c tried p. omega (arith, p.0, p.1))
        (λ b c tried domain c' b' p o. omega (arith, p.0, o.counted, o.attempts_left))
        (λ b c tried domain c' b' p o. (omega (arith, p.0, o.counted), o.attempts_left))
        (suc max_attempts) b (get_domains_for_dc shuffle b dc) [] (refl, omega arith),
    dial_loop-enough connects others clock failed_at (suc max_attempts) more b
        (get_domains_for_dc shuffle b dc) [] (omega arith),
  )

  -- For clocks that read at most `latest`: a front that rests beyond `latest` when the fallback
  -- starts is not dialled, when during the dials no other task ends a rest of this front beyond
  -- `latest`, as its success in another fallback or a new pool would.
  pub cfproxy_fallback-available :
      (latest : ℕ) (domain : String)
      → ((n : ℕ) → clock n ≤ latest)
      → ((n : ℕ) (b' : Balancer)
          → latest < get_or domain 0 b'.unavailable_until
          → latest < get_or domain 0 (others n b').unavailable_until)
      → latest < get_or domain 0 b.unavailable_until
      → contains (cfproxy_fallback connects others clock failed_at shuffle b dc).0.tried domain
        ≡ false
  unfolding cfproxy_fallback
  cfproxy_fallback-available latest domain bounded lasts rests =
      let apart : (b' : Balancer) (c : Candidates) (d : String) (c' : Candidates) (b'' : Balancer)
          → latest < get_or domain 0 b'.unavailable_until
          → IsOffered true clock b' c.attempts d c' b''
          → (d =? domain) ≡ false =
        λ b' c d c' b'' resting o.
          other_front latest d domain b' (clock (length c'.left)) resting o.available
            (bounded (length c'.left)) in
      dial_loop-invariant connects others clock failed_at
        (λ b' c tried.
          (latest < get_or domain 0 b'.unavailable_until) × (contains tried domain ≡ false))
        (λ r. contains r.tried domain ≡ false) (λ b' c tried p. p.1)
        (λ b' c tried d c' b'' p o. not_among d domain tried (apart b' c d c' b'' p.0 o) p.1)
        (λ b' c tried d c' b'' p o.
          let differs = apart b' c d c' b'' p.0 o in
          let pulled = until-IsOffered true clock b' c.attempts d domain c' b'' o in
          let during = lasts (length c'.left) b'' (omega (arith, p.0, pulled)) in
          let same =
            (until-missed (failed_at (length c'.left)) (others (length c'.left) b'') d domain).1
              differs in
          (omega (arith, during, same), not_among d domain tried differs p.1))
        (suc max_attempts) b (get_domains_for_dc shuffle b dc) [] (rests, unfold contains in refl)

  -- When no front answers, each one that was dialled rests until a minute at least after
  -- `earliest`, a time before which no dial has failed, when during the dials no other task ends
  -- such a rest of this front, as its success in another fallback or a new pool would.
  pub cfproxy_fallback-rests :
      (earliest : ℕ) (domain : String)
      → ((n : ℕ) → earliest ≤ failed_at n)
      → ((n : ℕ) (b' : Balancer)
          → earliest + failure_cooldown ≤ get_or domain 0 b'.unavailable_until
          → earliest + failure_cooldown ≤ get_or domain 0 (others n b').unavailable_until)
      → (cfproxy_fallback connects others clock failed_at shuffle b dc).0.chosen ≡ none
      → contains (cfproxy_fallback connects others clock failed_at shuffle b dc).0.tried domain
        ≡ true
      → earliest + failure_cooldown
        ≤ get_or domain 0
            (cfproxy_fallback connects others clock failed_at shuffle b dc).1.1.unavailable_until
  unfolding cfproxy_fallback settle
  cfproxy_fallback-rests earliest domain bounded lasts failed =
      rw (settle, failed)
        (dial_loop-invariant connects others clock failed_at
          (λ b' c tried.
            contains tried domain ≡ true
            → earliest + failure_cooldown ≤ get_or domain 0 b'.unavailable_until)
          (λ r.
            r.chosen ≡ none
            → contains r.tried domain ≡ true
            → earliest + failure_cooldown ≤ get_or domain 0 r.balancer.unavailable_until)
          (λ b' c tried p none_left. p) (λ b' c tried d c' b'' p o answered. absurd (cc))
          (λ b' c tried d c' b'' p o.
            let n = length c'.left in
            let missed = until-missed (failed_at n) (others n b'') d domain in
            rests_after (earliest + failure_cooldown) d domain (others n b'')
              (report_failure (failed_at n) (others n b'') d).0 tried
              (omega (arith, missed.0, bounded n)) missed.1
              (λ before.
                let pulled = until-IsOffered true clock b' c.attempts d domain c' b'' o in
                let held = p before in lasts n b'' (omega (arith, held, pulled))))
          (suc max_attempts) b (get_domains_for_dc shuffle b dc) []
          (λ h. absurd (unfold contains in cc)) failed)

  -- When a front answers, the fallback succeeds, the front becomes the data centre's, is healthy,
  -- and has neither a cooldown nor failures on record.
  pub cfproxy_fallback-answered :
      (domain : String)
      → (cfproxy_fallback connects others clock failed_at shuffle b dc).0.chosen ≡ some domain
      → let (ok, b') = (cfproxy_fallback connects others clock failed_at shuffle b dc).1 in
        (ok ≡ true)
        × (lookup dc b'.dc_to_domain ≡ some domain)
        × (contains b'.healthy domain ≡ true)
        × (get_or domain 0 b'.unavailable_until ≡ 0)
        × (get_or domain 0 b'.failures ≡ 0)
  unfolding cfproxy_fallback settle
  cfproxy_fallback-answered domain found =
      let r =
        dial_loop connects others clock failed_at (suc max_attempts) b
          (get_domains_for_dc shuffle b dc) [] in
      let done = report_success r.balancer domain in
      let settled = report_success_lem r.balancer domain domain in
      let switched = update_domain_for_dc_lem done dc domain in
      rw (settle, found)
        (
          refl,
          switched.0,
          ap (λ x. contains x domain) switched.3
              ∙ settled.1
              ∙ ap (λ t. t || contains r.balancer.healthy domain) (beq_self domain),
          ap (get_or domain 0) switched.1 ∙ ground (arith, settled.0, beq_self domain),
          ap (get_or domain 0) switched.2 ∙ ground (arith, settled.2, beq_self domain),
        )
