-- ===== src/Fallback/Methods.antt =====
-- In which order the fallback methods are tried.
use hide_self_tgws.Base.{
  Bool, true, false, not, ◌&&◌, List, [], ◌∷◌, ◌++◌, if◌then◌else◌, ◌≡◌, refl, sym, ap, arith, All,
  Bool-cases, inl, inr, ◌⊎◌,
}
use mathlib.Core.Path.{subst}
use hide_self_tgws.Fallback.{
  Method, cf_worker, h2, cf, tcp, Conditions, methods, try_methods, do_fallback,
}

-- The methods tried are a prefix of those that apply: all of them and each failed, or up to the
-- first that succeeds, which is the last one tried.
abbrev pub Tried : (Method → Bool) → List Method → List Method × Bool → Type 0
Tried succeeds ms r =
    ((r.1 ≡ false) × (r.0 ≡ ms) × All (λ m. succeeds m ≡ false) ms)
    ⊎ ((failed : List Method) × (m : Method) × (later : List Method) × (r.1 ≡ true)
        × (r.0 ≡ failed ++ (m ∷ []))
        × (ms ≡ failed ++ (m ∷ later))
        × All (λ x. succeeds x ≡ false) failed
        × (succeeds m ≡ true))

try_methods-Tried :
    (succeeds : Method → Bool) (ms : List Method) → Tried succeeds ms (try_methods succeeds ms)
unfolding try_methods
try_methods-Tried succeeds [] = inl (refl, refl, tt)
try_methods-Tried succeeds (m ∷ ms) =
    let rest = try_methods succeeds ms in
    elim (Bool-cases (succeeds m)) [
      | inl works ↦
          let result : try_methods succeeds (m ∷ ms) ≡ (m ∷ [], true) =
            rw (try_methods, works) refl in
          subst (Tried succeeds (m ∷ ms)) (sym result)
            (inr ([], m, ms, refl, refl, refl, tt, works))
      | inr fails ↦
          let result : try_methods succeeds (m ∷ ms) ≡ (m ∷ rest.0, rest.1) =
            rw (try_methods, fails) refl in
          subst (Tried succeeds (m ∷ ms)) (sym result) (elim (try_methods-Tried succeeds ms) [
            | inl all_fail ↦
                let (lost, all, each) = all_fail in inl (lost, ap (λ x. m ∷ x) all, (fails, each))
            | inr found ↦
                let (failed, x, later, won, tried, split, each, good) = found in
                inr (
                  m ∷ failed,
                  x,
                  later,
                  won,
                  ap (λ y. m ∷ y) tried,
                  ap (λ y. m ∷ y) split,
                  (fails, each),
                  good,
                )
          ])
    ]

-- The fallback tries the methods that apply in the order worker, shared HTTP/2 channel, CF front,
-- plain TCP, and stops at the first that succeeds; it reports failure only when each was tried.
pub do_fallback-Tried :
    (succeeds : Method → Bool) (c : Conditions)
    → (applicable : List Method) × Tried succeeds applicable (do_fallback succeeds c)
      × (applicable
          ≡ (if c.has_workers && c.has_address then cf_worker ∷ [] else [])
            ++ (if c.fallback_cfproxy && (not c.is_test_dc && c.has_h2) then h2 ∷ [] else [])
            ++ (if c.fallback_cfproxy && not c.is_test_dc then cf ∷ [] else [])
            ++ (if c.has_address then tcp ∷ [] else []))
unfolding do_fallback methods
do_fallback-Tried succeeds c = (methods c, try_methods-Tried succeeds (methods c), ground arith)
