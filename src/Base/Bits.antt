-- ===== src/Base/Bits.antt =====
-- Facts about `bit_and`, `bit_or` and `bit_xor`: the step from `a / 2` to `a`, masks of low bits,
-- disjoint fields, and the exclusive or of numbers written in base 256.
use Prim.Native.Nat.{
  ℕ, zero, suc, ◌+◌, ◌*◌, ◌/◌, ◌%◌, ◌^◌, ◌≤◌, ◌<◌, min, max, bit_and, bit_or, bit_xor, digits,
  bit_and-bitwise, bit_or-bitwise, bit_xor-bitwise, differ,
}
use mathlib.Core.Path.{◌≡◌, refl, ap}
use mathlib.Core.Bool.{Bool, true, ◌&&◌}
use native.Mathlib.Omega.{arith}
use native.Mathlib.Nat.{pow-suc, one-le-pow}
use native.Mathlib.Decide.{dec_lt}

unfoldable pub all_below : ℕ → (ℕ → Bool) → Bool
all_below zero p = true
all_below (suc n) p = p n && all_below n p

pub all_below_sound :
    (bound : ℕ) (test : ℕ → Bool) (value : ℕ)
    → all_below bound test ≡ true
    → value < bound
    → test value ≡ true
unfolding all_below
all_below_sound (suc bound) test value checked below =
    ground (arith, checked, below, all_below_sound bound test value)
all_below_sound zero test value checked below = absurd (omega (arith, below))

module _ (rest : ℕ → ℕ) (digit : ℕ → ℕ → ℕ) where
  -- Fuel beyond the first number changes nothing.
  spare_fuel :
      (x fuel spare y : ℕ)
      → x ≤ fuel
      → fuel ≤ spare
      → digits rest digit spare x y ≡ digits rest digit fuel x y
  spare_fuel zero zero zero y enough more = refl
  spare_fuel zero zero (suc spare) y enough more = refl
  spare_fuel zero (suc fuel) (suc spare) y enough more = refl
  spare_fuel (suc x) zero spare y enough more = absurd (omega (arith, enough))
  spare_fuel x (suc fuel) zero y enough more = absurd (omega (arith, more))
  spare_fuel (suc x) (suc fuel) (suc spare) y enough more =
      let half =
        spare_fuel (suc x / 2) fuel spare (y / 2) (omega (arith, enough)) (omega (arith, more)) in
      rw (half) refl

  -- `suc x` has no more digits than `suc x`: the fuel that is given serves.
  bitwise_step :
      (x y : ℕ)
      → digits rest digit (suc x) (suc x) y
        ≡ digits rest digit (suc x / 2) (suc x / 2) (y / 2) * 2 + digit (suc x % 2) (y % 2)
  bitwise_step x y =
      omega (arith, spare_fuel (suc x / 2) (suc x / 2) x (y / 2) (omega arith) (omega arith))

-- Exclusive or of two binary digits.
abbrev pub xor_digit : ℕ → ℕ → ℕ
xor_digit x y = (x + y) % 2

differ-xor_digit : (x y : ℕ) → x < 2 → y < 2 → differ x y ≡ xor_digit x y
differ-xor_digit zero zero p q = refl
differ-xor_digit zero (suc zero) p q = refl
differ-xor_digit (suc zero) zero p q = refl
differ-xor_digit (suc zero) (suc zero) p q = refl
differ-xor_digit zero (suc (suc y)) p q = absurd (omega arith)
differ-xor_digit (suc zero) (suc (suc y)) p q = absurd (omega arith)
differ-xor_digit (suc (suc x)) y p q = absurd (omega arith)

-- The last binary digit of `bit_and`.
pub bit_and_step : (x y : ℕ) → bit_and x y ≡ bit_and (x / 2) (y / 2) * 2 + min (x % 2) (y % 2)
bit_and_step (suc x) y = simp bit_and-bitwise (bitwise_step (λ t. 0) min x y)
bit_and_step zero y = simp bit_and-bitwise (omega arith)

-- The last binary digit of `bit_or`.
pub bit_or_step : (x y : ℕ) → bit_or x y ≡ bit_or (x / 2) (y / 2) * 2 + max (x % 2) (y % 2)
bit_or_step (suc x) y = simp bit_or-bitwise (bitwise_step (λ t. t) max x y)
bit_or_step zero y = simp bit_or-bitwise (omega arith)

pub bit_xor_step : (a b : ℕ) → bit_xor a b ≡ bit_xor (a / 2) (b / 2) * 2 + xor_digit (a % 2) (b % 2)
bit_xor_step zero b = simp bit_xor-bitwise (omega arith)
bit_xor_step (suc a) b =
    rw (← differ-xor_digit (suc a % 2) (b % 2) (omega arith) (omega arith))
      (simp bit_xor-bitwise (bitwise_step (λ y. y) differ a b))

bit_and-zero_fuel : (fuel x : ℕ) → x ≤ fuel → bit_and x 0 ≡ 0
bit_and-zero_fuel (suc fuel) (suc x) enough =
    let half = bit_and-zero_fuel fuel (suc x / 2) (omega (arith, enough)) in
    omega (arith, half, bit_and_step (suc x) 0)
bit_and-zero_fuel zero (suc x) enough = absurd (omega (arith, enough))
bit_and-zero_fuel fuel zero enough = simp bit_and-bitwise

-- The number of `k` ones, lowest first.
abbrev pub ones : ℕ → ℕ
ones zero = 0
ones (suc k) = 2 * ones k + 1

-- A number times `2 ^ suc k` is twice the number times `2 ^ k`.
times-two-pow-suc : (p k : ℕ) → p * 2 ^ suc k ≡ 2 * (p * 2 ^ k)
times-two-pow-suc p k = omega (arith, ap (λ (t : ℕ). p * t) (pow-suc 2 k))

bit_and-low : (k p a : ℕ) → a < 2 ^ k → bit_and (p * 2 ^ k + a) (ones k) ≡ a
bit_and-low zero p a h =
    rw (bit_and-zero_fuel (p * 2 ^ 0 + a) (p * 2 ^ 0 + a) (omega arith)) (omega arith)
bit_and-low (suc k) p a h = ground (
  arith,
  bit_and_step (p * 2 ^ suc k + a) (2 * ones k + 1),
  times-two-pow-suc p k,
  pow-suc 2 k,
  bit_and-low k p (a / 2) (omega (arith, pow-suc 2 k)),
)

-- A mask of `k` low bits is the remainder by `2 ^ k`.
pub bit_and-ones : (k a : ℕ) → bit_and a (ones k) ≡ a % 2 ^ k
bit_and-ones k a = ground (arith, one-le-pow k 2, bit_and-low k (a / 2 ^ k) (a % 2 ^ k))

bit_xor-fields :
    (k p q a b : ℕ)
    → a < 2 ^ k
    → b < 2 ^ k
    → bit_xor (p * 2 ^ k + a) (q * 2 ^ k + b) ≡ bit_xor p q * 2 ^ k + bit_xor a b
bit_xor-fields zero p q zero zero ha hb = ground (arith, bit_xor-bitwise 0 0)
bit_xor-fields zero p q (suc a) b ha hb = absurd (omega arith)
bit_xor-fields zero p q zero (suc b) ha hb = absurd (omega arith)
bit_xor-fields (suc k) p q a b ha hb = ground (
  arith,
  bit_xor_step (p * 2 ^ suc k + a) (q * 2 ^ suc k + b),
  bit_xor_step a b,
  times-two-pow-suc p k,
  times-two-pow-suc q k,
  times-two-pow-suc (bit_xor p q) k,
  pow-suc 2 k,
  bit_xor-fields k p q (a / 2) (b / 2) (omega (arith, pow-suc 2 k)) (omega (arith, pow-suc 2 k)),
)

-- Exclusive or in base 256: a low byte beside the rest.
pub bit_xor_byte :
    (p q a b : ℕ)
    → a < 256
    → b < 256
    → bit_xor (p * 256 + a) (q * 256 + b) ≡ bit_xor p q * 256 + bit_xor a b
bit_xor_byte p q a b ha hb = bit_xor-fields 8 p q a b ha hb

bit_xor-lt_pow : (k a b : ℕ) → a < 2 ^ k → b < 2 ^ k → bit_xor a b < 2 ^ k
bit_xor-lt_pow zero zero zero ha hb = ground (arith, bit_xor-bitwise 0 0)
bit_xor-lt_pow zero (suc a) b ha hb = absurd (omega arith)
bit_xor-lt_pow zero zero (suc b) ha hb = absurd (omega arith)
bit_xor-lt_pow (suc k) a b ha hb =
    let m : 2 ^ suc k ≡ 2 * 2 ^ k = omega (arith, pow-suc 2 k) in
    omega (arith, m, bit_xor_step a b, bit_xor-lt_pow k (a / 2) (b / 2) (omega arith) (omega arith))

pub bit_xor-lt_byte : (a b : ℕ) → a < 256 → b < 256 → bit_xor a b < 256
bit_xor-lt_byte a b = bit_xor-lt_pow 8 a b

bit_xor-cancel_fuel : (n a b : ℕ) → a + b ≤ n → bit_xor (bit_xor a b) b ≡ a
bit_xor-cancel_fuel zero zero zero h = ground (arith, bit_xor-bitwise 0 0)
bit_xor-cancel_fuel zero (suc a) b h = absurd (omega arith)
bit_xor-cancel_fuel zero zero (suc b) h = absurd (omega arith)
bit_xor-cancel_fuel (suc n) a b h = elim (dec_lt 0 (a + b)) [
  | yes pos ↦ ground (
    arith,
    bit_xor_step a b,
    bit_xor_step (bit_xor a b) b,
    bit_xor-cancel_fuel n (a / 2) (b / 2) (omega arith),
  )
  | no none_left ↦ bit_xor-cancel_fuel n a b (omega arith)
]

-- Applying the same key twice gives the number back.
pub bit_xor-cancel : (a b : ℕ) → bit_xor (bit_xor a b) b ≡ a
bit_xor-cancel a b = bit_xor-cancel_fuel (a + b) a b (omega arith)

bit_xor_comm_fuel : (n a b : ℕ) → a + b ≤ n → bit_xor a b ≡ bit_xor b a
bit_xor_comm_fuel zero zero zero h = refl
bit_xor_comm_fuel zero (suc a) b h = absurd (omega arith)
bit_xor_comm_fuel zero zero (suc b) h = absurd (omega arith)
bit_xor_comm_fuel (suc n) a b h = elim (dec_lt 0 (a + b)) [
  | yes pos ↦
      ground (
        arith,
        bit_xor_step a b,
        bit_xor_step b a,
        bit_xor_comm_fuel n (a / 2) (b / 2) (omega arith),
      )
  | no none_left ↦ bit_xor_comm_fuel n a b (omega arith)
]

pub bit_xor_comm : (a b : ℕ) → bit_xor a b ≡ bit_xor b a
bit_xor_comm a b = bit_xor_comm_fuel (a + b) a b (omega arith)
