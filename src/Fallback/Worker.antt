-- ===== src/Fallback/Worker.antt =====
-- `_cfproxy_worker_fallback` of proxy/bridge.py: a connection from the pool of Cloudflare workers,
-- or else from the first available worker that answers.
use hide_self_tgws.Base.{
  ℕ, Bool, Option, none, some, Option-cases, List, [], ◌∷◌, ◌++◌, if◌then◌else◌, ◌≡◌, ◌⊎◌, inl, inr,
  refl, sym, ap, All, arith,
}
use hide_self_tgws.Base.Dict.{string_eq, get_or, get_or-erase, beq_self}
use mathlib.Core.Path.{subst}
use Prim.Native.String.{String}
use hide_self_tgws.WorkerPool.{
  WorkerPool, Refusal, get, available_domains, report_success, report_failure,
}

module _ (dial : String → ℕ × Option ℕ × Refusal) where
  -- The loop over the available workers, which reports each dial.
  unfoldable pub worker_loop : List String → WorkerPool → Option ℕ × WorkerPool
  worker_loop [] p = (none, p)
  worker_loop (d ∷ workers) p =
      let r = dial d in
      elim r.1 [
        | some ws ↦ (some ws, report_success p d)
        | none ↦ worker_loop workers (report_failure r.0 p d r.2).0
      ]

  -- After the pool was asked: its connection, or a dial of the available workers.
  unfoldable pub worker_connect :
      (List String → List String)
      → ℕ
      → List String
      → Option (ℕ × String) × WorkerPool
      → Option ℕ × WorkerPool
  worker_connect shuffle after workers (some hit, p) = (some hit.0, p)
  worker_connect shuffle after workers (none, p) =
      let available = available_domains shuffle after workers p in
      worker_loop available.0 available.1

  -- The connection that the fallback goes on with; `now`, `later` and `after` are the times at
  -- which the pool is asked, its refill scheduled and the workers are looked at.
  unfoldable pub worker_fallback :
      (ℕ → Bool)
      → (List String → List String)
      → Bool
      → ℕ
      → ℕ
      → ℕ
      → List String
      → WorkerPool
      → ℕ
      → Option ℕ × WorkerPool
  worker_fallback gone shuffle is_test_dc now later after [] p dc = (none, p)
  worker_fallback gone shuffle is_test_dc now later after (w ∷ ws) p dc =
      worker_connect shuffle after (w ∷ ws)
        (if is_test_dc then (none, p) else get gone now later p dc)

  -- A loop over workers that all refuse, or that stops at the first one that answers, whose record
  -- is then clean.
  abbrev pub Answered : List String → Option ℕ × WorkerPool → Type 0
  Answered workers r =
      ((r.0 ≡ none) × All (λ d. (dial d).1 ≡ none) workers)
      ⊎ ((refused : List String) × (d : String) × (rest : List String) × (ws : ℕ) × (workers
            ≡ refused ++ (d ∷ rest))
          × All (λ x. (dial x).1 ≡ none) refused
          × ((dial d).1 ≡ some ws)
          × (r.0 ≡ some ws)
          × (get_or d 0 r.1.unavailable_until ≡ 0)
          × (get_or d 0 r.1.failures ≡ 0))

  worker_loop-Answered :
      (workers : List String) (p : WorkerPool) → Answered workers (worker_loop workers p)
  unfolding worker_loop
  worker_loop-Answered [] p = inl (refl, tt)
  worker_loop-Answered (d ∷ workers) p = elim (Option-cases (dial d).1) [
    | inr connected ↦
        let (ws, e) = connected in
        let result : worker_loop (d ∷ workers) p ≡ (some ws, report_success p d) =
          rw (worker_loop, e) refl in
        let until : get_or d 0 (report_success p d).unavailable_until ≡ 0 =
          unfold report_success in
          ground (arith, get_or-erase d d 0 p.unavailable_until, beq_self d) in
        let count : get_or d 0 (report_success p d).failures ≡ 0 =
          unfold report_success in ground (arith, get_or-erase d d 0 p.failures, beq_self d) in
        subst (Answered (d ∷ workers)) (sym result)
          (inr ([], d, workers, ws, refl, tt, e, refl, until, count))
    | inl refused ↦
        let next = (report_failure (dial d).0 p d (dial d).2).0 in
        let result : worker_loop (d ∷ workers) p ≡ worker_loop workers next =
          rw (worker_loop, refused) refl in
        subst (Answered (d ∷ workers)) (sym result) (elim (worker_loop-Answered workers next) [
          | inl all_refuse ↦ let (lost, each) = all_refuse in inl (lost, (refused, each))
          | inr found ↦
              let (before, x, rest, ws, split, each, e, won, until, count) = found in
              inr (
                d ∷ before,
                x,
                rest,
                ws,
                ap (λ t. d ∷ t) split,
                (refused, each),
                e,
                won,
                until,
                count,
              )
        ])
  ]

  worker_connect-Answered :
      (shuffle : List String → List String) (after : ℕ) (workers : List String)
      (pooled : Option (ℕ × String) × WorkerPool)
      → let r = worker_connect shuffle after workers pooled in
        ((hit : ℕ × String) × (pooled.0 ≡ some hit) × (r ≡ (some hit.0, pooled.1)))
        ⊎ ((pooled.0 ≡ none) × Answered (available_domains shuffle after workers pooled.1).0 r)
  unfolding worker_connect
  worker_connect-Answered shuffle after workers (some hit, p) = inl (hit, refl, refl)
  worker_connect-Answered shuffle after workers (none, p) =
      let available = available_domains shuffle after workers p in
      inr (refl, worker_loop-Answered available.0 available.1)

  -- With workers configured, the fallback goes on with a connection of the pool, unless the data
  -- centre is a test one or the pool has none; then it dials the available workers in order and
  -- goes on with the first that answers, whose record is then clean, and fails if all refuse.
  pub worker_fallback-Answered :
      (gone : ℕ → Bool) (shuffle : List String → List String) (is_test_dc : Bool)
      (now later after : ℕ) (w : String) (ws : List String) (p : WorkerPool) (dc : ℕ)
      → let r = worker_fallback gone shuffle is_test_dc now later after (w ∷ ws) p dc in
        let pooled = (if is_test_dc then (none, p) else get gone now later p dc) in
        ((hit : ℕ × String) × (pooled.0 ≡ some hit) × (r ≡ (some hit.0, pooled.1)))
        ⊎ ((pooled.0 ≡ none) × Answered (available_domains shuffle after (w ∷ ws) pooled.1).0 r)
  unfolding worker_fallback
  worker_fallback-Answered gone shuffle is_test_dc now later after w ws p dc =
      worker_connect-Answered shuffle after (w ∷ ws)
        (if is_test_dc then (none, p) else get gone now later p dc)
