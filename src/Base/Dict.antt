-- ===== src/Base/Dict.antt =====
-- A Python dictionary as an association list over any key type with a Boolean equality.
use hide_self_tgws.Base.Tests.{if◌then◌else◌, ◌==◌ as nat_beq, ==_iff}
use mathlib.Core.Path.{◌≡◌, refl, ap₂}
use mathlib.Core.Logic.{◌↔◌}
use mathlib.Core.Bool.{Bool, true, false, not, ◌&&◌, ◌||◌}
use mathlib.Core.Option.{Option, none, some}
use mathlib.Core.List.{List, [], ◌∷◌}
use Prim.Native.Nat.{ℕ}
use Prim.Native.String.{String}
use text.Mathlib.Text.{◌==◌ as str_eq}
use text.Mathlib.TextEquality.{eq_iff}
use native.Mathlib.Omega.{arith}

-- Equality of keys.
pub record Eq {ℓ} (A : Type ℓ) : Type ℓ where
  pub beq : A → A → Bool
  pub beq_iff : (key other : A) → (beq key other ≡ true) ↔ (key ≡ other)

infix 50 ◌=?◌
abbrev pub ◌=?◌ {ℓ} : {A : Type ℓ} ⦃e : Eq A⦄ → A → A → Bool
◌=?◌ ⦃e⦄ = e.beq

instance abbrev pub nat_eq : Eq ℕ
nat_eq = record { beq = nat_beq; beq_iff = ==_iff }

instance abbrev pub string_eq : Eq String
string_eq = record { beq = str_eq; beq_iff = eq_iff }

abbrev pub bytes_beq : List ℕ → List ℕ → Bool
bytes_beq [] [] = true
bytes_beq [] (b ∷ bs) = false
bytes_beq (a ∷ as_) [] = false
bytes_beq (a ∷ as_) (b ∷ bs) = nat_beq a b && bytes_beq as_ bs

pub bytes_beq_sound : (as_ bs : List ℕ) → bytes_beq as_ bs ≡ true → as_ ≡ bs
bytes_beq_sound [] [] h = refl
bytes_beq_sound [] (b ∷ bs) h = absurd (ground arith)
bytes_beq_sound (a ∷ as_) [] h = absurd (ground arith)
bytes_beq_sound (a ∷ as_) (b ∷ bs) h =
    let head_eq : a ≡ b = ground arith in
    let tail_eq : bytes_beq as_ bs ≡ true = ground arith in
    ap₂ ◌∷◌ head_eq (bytes_beq_sound as_ bs tail_eq)

pub bytes_beq_self : (bs : List ℕ) → bytes_beq bs bs ≡ true
bytes_beq_self [] = refl
bytes_beq_self (b ∷ bs) = ground (arith, bytes_beq_self bs)

instance abbrev pub bytes_eq : Eq (List ℕ)
bytes_eq = record {
  beq = bytes_beq;
  beq_iff = λ as_ bs. (bytes_beq_sound as_ bs, λ e. rw e (bytes_beq_self bs));
}

module _ {ℓ κ} {K : Type ℓ} {V : Type κ} ⦃e : Eq K⦄ where
  -- `d.get(k)`
  unfoldable pub lookup : K → List (K × V) → Option V
  lookup k [] = none
  lookup k ((j, v) ∷ m) = if j =? k then some v else lookup k m

  -- `d.get(k, default)`
  unfoldable pub get_or : K → V → List (K × V) → V
  unfolding lookup
  get_or k d m = elim (lookup k m) [ none ↦ d | some v ↦ v ]

  -- `d[k] = v`
  unfoldable pub insert : K → V → List (K × V) → List (K × V)
  insert k v [] = (k, v) ∷ []
  insert k v ((j, w) ∷ m) = if j =? k then (k, v) ∷ m else (j, w) ∷ insert k v m

  -- `d.pop(k, None)`
  unfoldable pub erase : K → List (K × V) → List (K × V)
  erase k [] = []
  erase k ((j, w) ∷ m) = let rest = erase k m in if j =? k then rest else (j, w) ∷ rest

  pub lookup-insert :
      (k j : K) (v : V) (m : List (K × V))
      → lookup j (insert k v m) ≡ (if k =? j then some v else lookup j m)
  unfolding lookup insert
  lookup-insert k j v [] = refl
  lookup-insert k j v ((i, w) ∷ m) =
      ground (arith, e.beq_iff k j, e.beq_iff i k, e.beq_iff i j, lookup-insert k j v m)

  pub lookup-erase :
      (k j : K) (m : List (K × V)) → lookup j (erase k m) ≡ (if k =? j then none else lookup j m)
  unfolding lookup erase
  lookup-erase k j [] = ground arith
  lookup-erase k j ((i, w) ∷ m) =
      ground (arith, e.beq_iff k j, e.beq_iff i k, e.beq_iff i j, lookup-erase k j m)

  pub get_or-insert :
      (k j : K) (d v : V) (m : List (K × V))
      → get_or j d (insert k v m) ≡ (if k =? j then v else get_or j d m)
  unfolding get_or
  get_or-insert k j d v m = ground (arith, lookup-insert k j v m)

  pub get_or-erase :
      (k j : K) (d : V) (m : List (K × V))
      → get_or j d (erase k m) ≡ (if k =? j then d else get_or j d m)
  unfolding get_or
  get_or-erase k j d m = ground (arith, lookup-erase k j m)

module _ {ℓ} {A : Type ℓ} ⦃e : Eq A⦄ where
  -- `a in xs`
  unfoldable pub contains : List A → A → Bool
  contains [] a = false
  contains (x ∷ xs) a = x =? a || contains xs a

  -- A set: `s.add(a)`, and `s.discard(a)`.
  unfoldable pub add : A → List A → List A
  unfolding contains
  add a xs = if contains xs a then xs else a ∷ xs

  unfoldable pub discard : A → List A → List A
  discard a [] = []
  discard a (x ∷ xs) = let rest = discard a xs in if x =? a then rest else x ∷ rest

  pub beq_self : (a : A) → (a =? a) ≡ true
  beq_self a = (e.beq_iff a a).1 refl

  pub contains-add : (a b : A) (xs : List A) → contains (add a xs) b ≡ (a =? b || contains xs b)
  unfolding add contains
  contains-add a b xs = ground (arith, e.beq_iff a b)

  pub contains-discard :
      (a b : A) (xs : List A) → contains (discard a xs) b ≡ (not (a =? b) && contains xs b)
  unfolding contains discard
  contains-discard a b [] = ground arith
  contains-discard a b (x ∷ xs) =
      ground (arith, e.beq_iff x a, e.beq_iff x b, e.beq_iff a b, contains-discard a b xs)
