-- ===== src/Base/Lists.antt =====
-- Lists measured and indexed by native numbers, under the library's names, and Python's slices.
use Prim.Native.Nat.{ℕ, zero, suc, ◌+◌, ◌-◌, ◌≤◌, ◌<◌, min}
use mathlib.Core.Path.{◌≡◌, refl, ap, ◌∙◌}
use mathlib.Core.List.{List, [], ◌∷◌, ◌++◌, map}
use mathlib.Core.Option.{Option, none, some}
use native.Mathlib.Omega.{arith}

module _ {ℓ} {A : Type ℓ} where
  abbrev pub length : List A → ℕ
  length [] = 0
  length (x ∷ xs) = suc (length xs)

  abbrev pub get_elem? : List A → ℕ → Option A
  get_elem? [] i = none
  get_elem? (x ∷ xs) zero = some x
  get_elem? (x ∷ xs) (suc i) = get_elem? xs i

  unfoldable pub take : ℕ → List A → List A
  take zero xs = []
  take (suc n) [] = []
  take (suc n) (x ∷ xs) = x ∷ take n xs

  unfoldable pub drop : ℕ → List A → List A
  drop zero xs = xs
  drop (suc n) [] = []
  drop (suc n) (x ∷ xs) = drop n xs

  unfoldable pub replicate : ℕ → A → List A
  replicate zero a = []
  replicate (suc n) a = a ∷ replicate n a

  -- `b''.join(parts)`
  abbrev pub join : List (List A) → List A
  join [] = []
  join (x ∷ xs) = x ++ join xs

  abbrev pub All {κ} : (A → Type κ) → List A → Type κ
  All P [] = Unit {κ}
  All P (x ∷ xs) = P x × All P xs

module _ {ℓ} {A : Type ℓ} where
  -- `xs[a:b]`
  unfoldable pub slice : ℕ → ℕ → List A → List A
  slice a b xs = take (b - a) (drop a xs)

  pub length-append : (xs ys : List A) → length (xs ++ ys) ≡ length xs + length ys
  length-append [] ys = omega arith
  length-append (x ∷ xs) ys = omega (arith, length-append xs ys)

  pub take-append-drop : (n : ℕ) (xs : List A) → take n xs ++ drop n xs ≡ xs
  unfolding take drop
  take-append-drop zero xs = refl
  take-append-drop (suc n) [] = refl
  take-append-drop (suc n) (x ∷ xs) = rw (take-append-drop n xs)

  pub length-take : (n : ℕ) (xs : List A) → length (take n xs) ≡ min n (length xs)
  unfolding take
  length-take zero xs = omega arith
  length-take (suc n) [] = omega arith
  length-take (suc n) (x ∷ xs) = omega (arith, length-take n xs)

  pub length-drop : (n : ℕ) (xs : List A) → length (drop n xs) ≡ length xs - n
  unfolding drop
  length-drop zero xs = omega arith
  length-drop (suc n) [] = omega arith
  length-drop (suc n) (x ∷ xs) = omega (arith, length-drop n xs)

  pub length-replicate : (n : ℕ) (a : A) → length (replicate n a) ≡ n
  unfolding replicate
  length-replicate zero a = refl
  length-replicate (suc n) a = ap suc (length-replicate n a)

  pub length-map {κ} : {B : Type κ} (xs : List A) (f : A → B) → length (map f xs) ≡ length xs
  length-map [] f = refl
  length-map (x ∷ xs) f = ap suc (length-map xs f)

  pub take_of_length-le : (n : ℕ) (xs : List A) → length xs ≤ n → take n xs ≡ xs
  unfolding take
  take_of_length-le (suc n) (x ∷ xs) short =
      let rest = take_of_length-le n xs (omega (arith, short)) in rw (rest) refl
  take_of_length-le zero (x ∷ xs) short = absurd (omega (arith, short))
  take_of_length-le zero [] short = refl
  take_of_length-le (suc n) [] short = refl

  pub drop_of_length-le : (n : ℕ) (xs : List A) → length xs ≤ n → drop n xs ≡ []
  unfolding drop
  drop_of_length-le zero [] h = refl
  drop_of_length-le zero (x ∷ xs) h = absurd (omega arith)
  drop_of_length-le (suc n) [] h = refl
  drop_of_length-le (suc n) (x ∷ xs) h = drop_of_length-le n xs (omega arith)

  pub take_append_left : (n : ℕ) (xs ys : List A) → n ≤ length xs → take n (xs ++ ys) ≡ take n xs
  unfolding take
  take_append_left zero xs ys h = refl
  take_append_left (suc n) [] ys h = absurd (omega arith)
  take_append_left (suc n) (x ∷ xs) ys h = ap (◌∷◌ x) (take_append_left n xs ys (omega arith))

  pub drop_append_left :
      (n : ℕ) (xs ys : List A) → n ≤ length xs → drop n (xs ++ ys) ≡ drop n xs ++ ys
  unfolding drop
  drop_append_left zero xs ys h = refl
  drop_append_left (suc n) [] ys h = absurd (omega arith)
  drop_append_left (suc n) (x ∷ xs) ys h = drop_append_left n xs ys (omega arith)

  pub take_append_self : (n : ℕ) (xs ys : List A) → length xs ≡ n → take n (xs ++ ys) ≡ xs
  unfolding take
  take_append_self zero [] ys h = refl
  take_append_self zero (x ∷ xs) ys h = absurd (omega arith)
  take_append_self (suc n) [] ys h = absurd (omega arith)
  take_append_self (suc n) (x ∷ xs) ys h = ap (◌∷◌ x) (take_append_self n xs ys (omega arith))

  pub drop_append_self : (n : ℕ) (xs ys : List A) → length xs ≡ n → drop n (xs ++ ys) ≡ ys
  unfolding drop
  drop_append_self zero [] ys h = refl
  drop_append_self zero (x ∷ xs) ys h = absurd (omega arith)
  drop_append_self (suc n) [] ys h = absurd (omega arith)
  drop_append_self (suc n) (x ∷ xs) ys h = drop_append_self n xs ys (omega arith)

  drop-nil : (n : ℕ) → drop n (let e : List A = [] in e) ≡ []
  unfolding drop
  drop-nil zero = refl
  drop-nil (suc n) = refl

  pub drop-drop : (a b c : ℕ) (xs : List A) → a + b ≡ c → drop b (drop a xs) ≡ drop c xs
  unfolding drop
  drop-drop zero b c xs h = ap (λ n. drop n xs) (omega arith)
  drop-drop (suc a) b zero xs h = absurd (omega arith)
  drop-drop (suc a) b (suc c) [] h = drop-nil b
  drop-drop (suc a) b (suc c) (x ∷ xs) h = drop-drop a b c xs (omega arith)

  pub get_elem?-drop :
      (a b c : ℕ) (xs : List A) → a + b ≡ c → get_elem? (drop a xs) b ≡ get_elem? xs c
  unfolding drop
  get_elem?-drop zero b c xs h = ap (get_elem? xs) (omega arith)
  get_elem?-drop (suc a) b zero xs h = absurd (omega arith)
  get_elem?-drop (suc a) b (suc c) [] h = refl
  get_elem?-drop (suc a) b (suc c) (x ∷ xs) h = get_elem?-drop a b c xs (omega arith)

  pub get_elem?_append_left :
      (xs ys : List A) (i : ℕ) → i < length xs → get_elem? (xs ++ ys) i ≡ get_elem? xs i
  get_elem?_append_left [] ys i h = absurd (omega arith)
  get_elem?_append_left (x ∷ xs) ys zero h = refl
  get_elem?_append_left (x ∷ xs) ys (suc i) h = get_elem?_append_left xs ys i (omega arith)

  pub get_elem?-some : (xs : List A) (i : ℕ) → i < length xs → (x : A) × (get_elem? xs i ≡ some x)
  get_elem?-some [] i h = absurd (omega arith)
  get_elem?-some (x ∷ xs) zero h = (x, refl)
  get_elem?-some (x ∷ xs) (suc i) h = get_elem?-some xs i (omega arith)

  pub length-slice_lem : (a b : ℕ) (xs : List A) → b ≤ length xs → length (slice a b xs) ≡ b - a
  unfolding slice
  length-slice_lem a b xs h = omega (arith, length-take (b - a) (drop a xs), length-drop a xs)

  pub slice-zero : (n : ℕ) (xs : List A) → slice 0 n xs ≡ take n xs
  unfolding slice drop
  slice-zero n xs = ap (λ k. take k xs) (omega arith)

  pub take-take : (a b : ℕ) (xs : List A) → a ≤ b → take a (take b xs) ≡ take a xs
  unfolding take
  take-take zero b xs h = refl
  take-take (suc a) zero xs h = absurd (omega arith)
  take-take (suc a) (suc b) [] h = refl
  take-take (suc a) (suc b) (x ∷ xs) h = ap (◌∷◌ x) (take-take a b xs (omega arith))

  pub drop-take : (a b : ℕ) (xs : List A) → drop a (take b xs) ≡ take (b - a) (drop a xs)
  unfolding take drop
  drop-take zero b xs = let e : b ≡ b - 0 = omega arith in ap (λ k. take k xs) e
  drop-take (suc a) zero xs =
      let e : zero ≡ zero - suc a = omega arith in ap (λ k. take k (drop (suc a) xs)) e
  drop-take (suc a) (suc b) [] = take-nil (suc b - suc a)
    where
      take-nil : (n : ℕ) → [] ≡ take n (let e : List A = [] in e)
      take-nil zero = refl
      take-nil (suc n) = refl
  drop-take (suc a) (suc b) (x ∷ xs) =
      let e : b - a ≡ suc b - suc a = omega arith in
      drop-take a b xs ∙ ap (λ k. take k (drop a xs)) e
