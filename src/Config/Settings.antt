-- ===== src/Config/Settings.antt =====
-- proxy/config.py: the lists of domains that a user gives (`coerce_domain_list`), and the decoding of
-- the fronts (`_dd`).
use hide_self_tgws.Base.{
  ℕ, ◌+◌, ◌-◌, ◌*◌, ◌%◌, true, false, ◌||◌, Option, none, some, List, [], ◌∷◌, ◌++◌, map, length,
  take, drop, leb, ◌==◌, if◌then◌else◌, ◌≡◌, refl, ap, arith, Bool-cases, inl, inr,
}
use hide_self_tgws.Base.Dict.{◌=?◌, bytes_eq, bytes_beq_self, bytes_beq_sound, contains}
use hide_self_tgws.Config.{Unicode, is_empty, strip}
use hide_self_tgws.Config.Pool.{distinct}

-- A setting; an entry that is no string is `none`.
pub data Setting : Type 0 where
  text : List ℕ → Setting
  entries : List (Option (List ℕ)) → Setting
  other_value : Setting

-- `value.replace(',', ' ').replace(';', ' ')`
unfoldable pub separated : List ℕ → List ℕ
separated [] = []
separated (c ∷ cs) = (if c == 44 || c == 59 then 32 else c) ∷ separated cs

-- `s.split()`, with the letters of the word so far.
unfoldable pub split_words : Unicode → List ℕ → List ℕ → List (List ℕ)
unfolding is_empty
split_words u word [] = if is_empty word then [] else word ∷ []
split_words u word (c ∷ cs) =
    let next = split_words u [] cs in
    let on = split_words u (word ++ (c ∷ [])) cs in
    if u.is_space c then (if is_empty word then next else word ∷ next) else on

unfoldable pub words : Unicode → List ℕ → List (List ℕ)
unfolding separated split_words
words u s = split_words u [] (separated s)

unfoldable pub entry_words : Unicode → List (Option (List ℕ)) → List (List ℕ)
unfolding words
entry_words u [] = []
entry_words u (none ∷ list) = entry_words u list
entry_words u (some s ∷ list) = words u s ++ entry_words u list

unfoldable pub coerce_loop : Unicode → List (List ℕ) → List (List ℕ) → List (List ℕ)
unfolding strip is_empty
coerce_loop u seen [] = []
coerce_loop u seen (word ∷ rest) =
    let item = strip u word in
    let skip = coerce_loop u seen rest in
    let keep = item ∷ coerce_loop u (u.lower item ∷ seen) rest in
    if is_empty item then skip else (if contains seen (u.lower item) then skip else keep)

unfoldable pub coerce_domain_list : Unicode → Setting → List (List ℕ)
unfolding words entry_words coerce_loop
coerce_domain_list u (text s) = coerce_loop u [] (words u s)
coerce_domain_list u (entries list) = coerce_loop u [] (entry_words u list)
coerce_domain_list u other_value = []

unfoldable pub count_alpha : Unicode → List ℕ → ℕ
count_alpha u [] = 0
count_alpha u (c ∷ cs) = (if u.is_alpha c then 1 else 0) + count_alpha u cs

-- A letter moved back by n; less n is less n modulo 26, so 25 times n more. No letter is below 'A'.
unfoldable pub shift_back : ℕ → ℕ → ℕ
shift_back n c = let base = (if leb 97 c then 97 else 65) in (c - base + 25 * n) % 26 + base

unfoldable pub decode_chars : Unicode → ℕ → List ℕ → List ℕ
unfolding shift_back
decode_chars u n [] = []
decode_chars u n (c ∷ cs) = (if u.is_alpha c then shift_back n c else c) ∷ decode_chars u n cs

-- `.com` becomes `.co.uk`.
unfoldable pub dd : Unicode → List ℕ → List ℕ
unfolding count_alpha decode_chars
dd u s =
    let p = take (length s - 4) s in
    if drop (length s - 4) s =? (46 ∷ 99 ∷ 111 ∷ 109 ∷ [])
    then decode_chars u (count_alpha u p) p ++ (46 ∷ 99 ∷ 111 ∷ 46 ∷ 117 ∷ 107 ∷ [])
    else s

other_key :
    (seen : List (List ℕ)) (a b : List ℕ)
    → contains seen a ≡ false
    → contains seen b ≡ true
    → (a =? b) ≡ false
other_key seen a b out inside = elim (Bool-cases (a =? b)) [
  | inr apart ↦ apart
  | inl same ↦ absurd (ground (arith, ap (contains seen) (bytes_beq_sound a b same), out, inside))
]

-- The keys seen do not come again.
coerce_loop-fresh :
    (u : Unicode) (seen list : List (List ℕ)) (key : List ℕ)
    → contains seen key ≡ true
    → contains (map u.lower (coerce_loop u seen list)) key ≡ false
unfolding coerce_loop contains
coerce_loop-fresh u seen [] key known = refl
coerce_loop-fresh u seen (word ∷ rest) key known =
    let item = strip u word in
    let skip = coerce_loop-fresh u seen rest key known in
    elim (Bool-cases (is_empty item)) [
      | inl blank ↦ rw (blank) skip
      | inr full ↦ elim (Bool-cases (contains seen (u.lower item))) [
        | inl again ↦ rw (full, again) skip
        | inr fresh ↦
            let keep = coerce_loop-fresh u (u.lower item ∷ seen) rest key (ground (arith, known)) in
            rw (full, fresh)
              (let apart = other_key seen (u.lower item) key fresh known in
                ground (arith, keep, apart))
      ]
    ]

coerce_loop-distinct :
    (u : Unicode) (seen list : List (List ℕ))
    → distinct (map u.lower (coerce_loop u seen list)) ≡ true
unfolding coerce_loop distinct contains
coerce_loop-distinct u seen [] = refl
coerce_loop-distinct u seen (word ∷ rest) =
    let item = strip u word in
    let skip = coerce_loop-distinct u seen rest in
    elim (Bool-cases (is_empty item)) [
      | inl blank ↦ rw (blank) skip
      | inr full ↦ elim (Bool-cases (contains seen (u.lower item))) [
        | inl again ↦ rw (full, again) skip
        | inr fresh ↦
            let keep = coerce_loop-distinct u (u.lower item ∷ seen) rest in
            let self = bytes_beq_self (u.lower item) in
            let once =
              coerce_loop-fresh u (u.lower item ∷ seen) rest (u.lower item)
                (ground (arith, self)) in
            rw (full, fresh) ground (arith, keep, once)
      ]
    ]

-- Whatever a user sets, no two domains of the list differ in case alone.
pub coerce_domain_list-distinct :
    (u : Unicode) (value : Setting) → distinct (map u.lower (coerce_domain_list u value)) ≡ true
unfolding coerce_domain_list distinct
coerce_domain_list-distinct u (text s) = coerce_loop-distinct u [] (words u s)
coerce_domain_list-distinct u (entries list) = coerce_loop-distinct u [] (entry_words u list)
coerce_domain_list-distinct u other_value = refl
