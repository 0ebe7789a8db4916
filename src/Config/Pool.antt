-- ===== src/Config/Pool.antt =====
-- Which pools of domains a refresh can install.
use hide_self_tgws.Base.{
  ℕ, Bool, true, false, not, ◌&&◌, ◌||◌, some, List, [], ◌∷◌, map, length, ◌≤◌, leb, ◌≡◌, refl, sym,
  ap, ◌∙◌, arith, Bool-cases, inl, inr,
}
use hide_self_tgws.Base.Dict.{◌=?◌, bytes_eq, bytes_beq_sound, bytes_beq_self, contains}
use hide_self_tgws.Config.{
  Unicode, min_valid_domains, is_valid_domain, normalized, normalize_loop, normalize_domain_pool,
  refresh_cfproxy_domains,
}

-- No member twice.
unfoldable pub distinct : List (List ℕ) → Bool
distinct [] = true
distinct (x ∷ xs) = not (contains xs x) && distinct xs

step_case :
    (u : Unicode) (seen : List (List ℕ)) (item x : List ℕ) (among : Bool)
    → is_valid_domain u item ≡ true
    → contains seen item ≡ false
    → (item =? x || (among && is_valid_domain u x && not (item =? x || contains seen x)))
      ≡ ((item =? x || among) && is_valid_domain u x && not (contains seen x))
step_case u seen item x among valid fresh = elim (Bool-cases (item =? x)) [
  | inl same ↦
      let at : item ≡ x = bytes_beq_sound item x same in
      let valid' : is_valid_domain u x ≡ true = ap (is_valid_domain u) (sym at) ∙ valid in
      let fresh' : contains seen x ≡ false = ap (contains seen) (sym at) ∙ fresh in
      ground (arith, same, valid', fresh')
  | inr differs ↦ ground (arith, differs)
]

skip_case :
    (u : Unicode) (seen : List (List ℕ)) (item x : List ℕ) (among : Bool)
    → (is_valid_domain u item && not (contains seen item)) ≡ false
    → (among && is_valid_domain u x && not (contains seen x))
      ≡ ((item =? x || among) && is_valid_domain u x && not (contains seen x))
skip_case u seen item x among skipped = elim (Bool-cases (item =? x)) [
  | inl same ↦
      let at : item ≡ x = bytes_beq_sound item x same in
      let skipped' : (is_valid_domain u x && not (contains seen x)) ≡ false =
        ap (λ y. is_valid_domain u y && not (contains seen y)) (sym at) ∙ skipped in
      ground (arith, same, skipped')
  | inr differs ↦ ground (arith, differs)
]

normalize_loop-contains :
    (u : Unicode) (seen domains : List (List ℕ)) (x : List ℕ)
    → contains (normalize_loop u seen domains) x
      ≡ (contains (map (normalized u) domains) x && is_valid_domain u x && not (contains seen x))
unfolding normalize_loop contains
normalize_loop-contains u seen [] x = refl
normalize_loop-contains u seen (domain ∷ domains) x =
    let item = normalized u domain in
    let among = contains (map (normalized u) domains) x in
    let skip = normalize_loop-contains u seen domains x in
    elim (Bool-cases (is_valid_domain u item)) [
      | inr bad ↦ rw (bad) (skip ∙ skip_case u seen item x among (ground (arith, bad)))
      | inl valid ↦ elim (Bool-cases (contains seen item)) [
        | inl known ↦
            rw (valid, known) (skip ∙ skip_case u seen item x among (ground (arith, known)))
        | inr fresh ↦
            let take = normalize_loop-contains u (item ∷ seen) domains x in
            rw (valid, fresh)
              (ap (λ t. item =? x || t) take ∙ step_case u seen item x among valid fresh)
      ]
    ]

seen_now :
    (u : Unicode) (seen : List (List ℕ)) (item : List ℕ) (domains : List (List ℕ))
    → (contains (map (normalized u) domains) item
        && is_valid_domain u item
        && not (contains (item ∷ seen) item))
      ≡ false
unfolding contains
seen_now u seen item domains = let self = bytes_beq_self item in ground (arith, self)

normalize_loop-distinct :
    (u : Unicode) (seen domains : List (List ℕ)) → distinct (normalize_loop u seen domains) ≡ true
unfolding normalize_loop distinct
normalize_loop-distinct u seen [] = refl
normalize_loop-distinct u seen (domain ∷ domains) =
    let item = normalized u domain in
    let skip = normalize_loop-distinct u seen domains in
    elim (Bool-cases (is_valid_domain u item)) [
      | inr bad ↦ rw (bad) skip
      | inl valid ↦ elim (Bool-cases (contains seen item)) [
        | inl known ↦ rw (valid, known) skip
        | inr fresh ↦
            let take = normalize_loop-distinct u (item ∷ seen) domains in
            let once : contains (normalize_loop u (item ∷ seen) domains) item ≡ false =
              normalize_loop-contains u (item ∷ seen) domains item ∙ seen_now u seen item domains in
            rw (valid, fresh) ground (arith, take, once)
      ]
    ]

-- Whatever the network gives, a refresh hands a pool of domains to the balancer only if the user had
-- set none when it began, before the download; the pool has at least three domains, no domain
-- twice, and exactly those of the fetched ones, stripped and in lower case, that are valid.
pub refresh_cfproxy_domains_lem :
    (u : Unicode) (user_domains fetched pool : List (List ℕ)) (x : List ℕ)
    → refresh_cfproxy_domains u user_domains fetched ≡ some pool
    → (user_domains ≡ [])
      × (min_valid_domains ≤ length pool)
      × (distinct pool ≡ true)
      × (contains pool x ≡ (contains (map (normalized u) fetched) x && is_valid_domain u x))
unfolding refresh_cfproxy_domains normalize_domain_pool contains
refresh_cfproxy_domains_lem u [] fetched pool x e =
    elim (Bool-cases (leb min_valid_domains (length (normalize_loop u [] fetched)))) [
      | inr few ↦ absurd (ground (arith, e, few))
      | inl enough ↦
          let is : normalize_loop u [] fetched ≡ pool = ground (arith, e, enough) in
          let members = normalize_loop-contains u [] fetched x in
          let size : min_valid_domains ≤ length (normalize_loop u [] fetched) =
            ground (arith, enough) in
          (
            refl,
            rw (← is) size,
            rw (← is) (normalize_loop-distinct u [] fetched),
            rw (← is) (ground (arith, members)),
          )
    ]
refresh_cfproxy_domains_lem u (domain ∷ user_domains) fetched pool x e = absurd (ground (arith, e))
