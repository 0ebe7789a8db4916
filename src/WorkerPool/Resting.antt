-- ===== src/WorkerPool/Resting.antt =====
-- How long a worker rests, and which workers are listed for a dial.
use hide_self_tgws.Base.{
  ℕ, ◌+◌, ◌-◌, ◌≤◌, ◌<◌, min, max, Bool, true, false, not, ◌&&◌, ◌||◌, List, [], ◌∷◌, ◌++◌, ltb,
  leb, ◌==◌, if◌then◌else◌, ◌≡◌, refl, ◌∙◌, ap, arith, All, Bool-cases, inl, inr,
}
use hide_self_tgws.Base.Dict.{
  ◌=?◌, string_eq, get_or, erase, contains, get_or-insert, get_or-erase, beq_self,
}
use native.Mathlib.Nat.{one-le-pow}
use mathlib.Core.Path.{subst}
use text.Mathlib.TextEquality.{eq_iff}
use Prim.Native.String.{String}
use hide_self_tgws.Balancer.{count}
use hide_self_tgws.WorkerPool.{
  WorkerPool, Refusal, failure_cooldown, cooldown_max, backoff_steps, local_abort_cooldown,
  rest_for, report_failure, available_loop, available_domains,
}

rest_for_bounds :
    (quota : Bool) (failures : ℕ)
    → (failure_cooldown ≤ rest_for quota failures) × (rest_for quota failures ≤ cooldown_max)
unfolding rest_for
rest_for_bounds true failures = omega (arith, one-le-pow (failures - 1) 2)
rest_for_bounds false failures = omega (arith, one-le-pow (failures - 1) 2)

-- The time that a refusal returns is what is left of the worker's rest, and is never zero; other
-- workers are not touched; the failure count grows, up to eight, unless the host's own network
-- aborted the dial or the worker was resting already and had not run out of its quota.
pub report_failure_rest :
    (now : ℕ) (p : WorkerPool) (worker other : String) (exc : Refusal)
    → let r = report_failure now p worker exc in
      (get_or worker 0 r.0.unavailable_until ≡ now + r.1)
      × (0 < r.1)
      × ((worker =? other) ≡ false
          → (get_or other 0 r.0.unavailable_until ≡ get_or other 0 p.unavailable_until)
            × (get_or other 0 r.0.failures ≡ get_or other 0 p.failures))
      × (get_or worker 0 r.0.failures ≡ (
          if exc.local_abort || (not exc.quota && ltb now (get_or worker 0 p.unavailable_until))
          then get_or worker 0 p.failures
          else min (get_or worker 0 p.failures + 1) backoff_steps))
report_failure_rest now p worker other exc =
    let resting_until = get_or worker 0 p.unavailable_until in
    let failures = min (get_or worker 0 p.failures + 1) backoff_steps in
    let cooldown = rest_for exc.quota failures in
    let bounds = rest_for_bounds exc.quota failures in
    let local_until = max resting_until (now + local_abort_cooldown) in
    let self = beq_self worker in
    let put_local = λ (d : String). get_or-insert worker d 0 local_until p.unavailable_until in
    let put_rest = λ (d : String). get_or-insert worker d 0 (now + cooldown) p.unavailable_until in
    let put_count = λ (d : String). get_or-insert worker d 0 failures p.failures in
    unfold report_failure in
    (
      ground (arith, self, put_local worker, put_rest worker, bounds),
      ground (arith, bounds),
      λ differs. (
        ground (arith, differs, put_local other, put_rest other),
        ground (arith, differs, put_count other),
      ),
      ground (arith, self, put_count worker),
    )

-- Refusals of one worker at the given times, none of them special.
abbrev pub report_failures : WorkerPool → String → List ℕ → WorkerPool
report_failures p worker [] = p
report_failures p worker (now ∷ times) =
    report_failures (report_failure now p worker (record { quota = false; local_abort = false })).0
      worker times

-- However many dials already in flight are refused within a worker's rest, neither with an HTTP
-- 429 nor by the host's own network, the pool stays as it was: they are one outage.
pub report_failures-once :
    (p : WorkerPool) (worker : String) (times : List ℕ)
    → All (λ now. now < get_or worker 0 p.unavailable_until) times
    → report_failures p worker times ≡ p
report_failures-once p worker [] h = refl
report_failures-once p worker (now ∷ times) (resting, h) =
    let same : (report_failure now p worker (record { quota = false; local_abort = false })).0 ≡ p =
      unfold report_failure in ground (arith, resting) in
    ap (λ q. report_failures q worker times) same ∙ report_failures-once p worker times h

contains-append_one :
    (kept : List String) (w d : String)
    → contains (kept ++ (w ∷ [])) d ≡ (contains kept d || w =? d)
unfolding contains
contains-append_one [] w d = ground arith
contains-append_one (k ∷ kept) w d = ground (arith, contains-append_one kept w d)

count-append_one :
    (kept : List String) (w d : String)
    → count d (kept ++ (w ∷ [])) ≡ count d kept + (if w =? d then 1 else 0)
unfolding count
count-append_one [] w d = omega arith
count-append_one (k ∷ kept) w d = let rest = count-append_one kept w d in omega (arith, rest)

count-absent : (kept : List String) (d : String) → contains kept d ≡ false → count d kept ≡ 0
unfolding count contains
count-absent [] d h = refl
count-absent (k ∷ kept) d h = ground (arith, count-absent kept d (ground (arith, h)), h)

-- How often a worker is listed in the end, with these kept and these still to come.
abbrev listed : ℕ → List String → List String → WorkerPool → String → ℕ
listed now kept workers p d =
    if contains kept d
    then count d kept
    else (if contains workers d && leb (get_or d 0 p.unavailable_until) now then 1 else 0)

skip_one :
    (now : ℕ) (kept workers : List String) (w d : String) (p : WorkerPool)
    → (contains kept w || ltb now (get_or w 0 p.unavailable_until)) ≡ true
    → listed now kept workers p d ≡ listed now kept (w ∷ workers) p d
unfolding contains
skip_one now kept workers w d p skipped = elim (Bool-cases (w =? d)) [
  | inl same ↦
      let at : w ≡ d = (eq_iff w d).0 same in
      let there : (contains kept d || ltb now (get_or d 0 p.unavailable_until)) ≡ true =
        subst (λ x. (contains kept x || ltb now (get_or x 0 p.unavailable_until)) ≡ true) at
          skipped in
      ground (arith, there, same)
  | inr differs ↦ ground (arith, differs)
]

take_one :
    (now : ℕ) (kept workers : List String) (w d : String) (p : WorkerPool)
    → (contains kept w || ltb now (get_or w 0 p.unavailable_until)) ≡ false
    → let expired =
        (if get_or w 0 p.unavailable_until == 0
          then p
          else record p { unavailable_until = erase w p.unavailable_until }) in
      listed now (kept ++ (w ∷ [])) workers expired d ≡ listed now kept (w ∷ workers) p d
unfolding contains
take_one now kept workers w d p taken =
    let more = contains-append_one kept w d in
    let counts = count-append_one kept w d in
    let gone = get_or-erase w d 0 p.unavailable_until in
    elim (Bool-cases (w =? d)) [
      | inl same ↦
          let at : w ≡ d = (eq_iff w d).0 same in
          let there : (contains kept d || ltb now (get_or d 0 p.unavailable_until)) ≡ false =
            subst (λ x. (contains kept x || ltb now (get_or x 0 p.unavailable_until)) ≡ false) at
              taken in
          let none_kept = count-absent kept d (ground (arith, there)) in
          ground (arith, there, same, more, counts, none_kept)
      | inr differs ↦ ground (arith, differs, more, counts, gone)
    ]

available_loop-count :
    (now : ℕ) (kept workers : List String) (p : WorkerPool) (d : String)
    → count d (available_loop now kept workers p).0 ≡ listed now kept workers p d
unfolding available_loop contains
available_loop-count now kept [] p d = elim (Bool-cases (contains kept d)) [
  | inl known ↦ rw (known) refl
  | inr absent ↦ rw (absent) (count-absent kept d absent)
]
available_loop-count now kept (w ∷ workers) p d =
    let resting_until = get_or w 0 p.unavailable_until in
    let dropped = record p { unavailable_until = erase w p.unavailable_until } in
    let expired = (if resting_until == 0 then p else dropped) in
    elim (Bool-cases (contains kept w || ltb now resting_until)) [
      | inl skipped ↦
          rw (available_loop, skipped)
            (available_loop-count now kept workers p d ∙ skip_one now kept workers w d p skipped)
      | inr taken ↦
          rw (available_loop, taken)
            (available_loop-count now (kept ++ (w ∷ [])) workers expired d
              ∙ take_one now kept workers w d p taken)
    ]

-- For a shuffle that keeps how often each member occurs, `available_domains` lists each configured
-- worker whose rest is over exactly once, however often it is configured, and nothing else.
pub available_domains-count :
    (shuffle : List String → List String) (now : ℕ) (workers : List String) (p : WorkerPool)
    (d : String)
    → ((xs : List String) (x : String) → count x (shuffle xs) ≡ count x xs)
    → count d (available_domains shuffle now workers p).0
      ≡ (if contains workers d && leb (get_or d 0 p.unavailable_until) now then 1 else 0)
unfolding available_domains contains
available_domains-count shuffle now workers p d keeps =
    keeps (available_loop now [] workers p).0 d ∙ available_loop-count now [] workers p d
