-- ===== src/Base/Integers.antt =====
-- Python's integers as signs and magnitudes over the native numbers, and their two-byte encoding.
use Prim.Native.Nat.{ℕ, zero, suc, ◌-◌, ◌*◌, ◌^◌, ◌<◌}
use mathlib.Core.Path.{◌≡◌, refl}
use mathlib.Core.Bool.{Bool, true, false}
use mathlib.Core.List.{List}
use native.Mathlib.Omega.{arith}
use hide_self_tgws.Base.Tests.{leb, ltb, if◌then◌else◌}
use hide_self_tgws.Base.Lists.{length}
use hide_self_tgws.Base.Results.{Result, ok, err, struct_error}
use hide_self_tgws.Base.Bytes.{
  from_bytes_little, to_bytes_little, from_bytes_little-to_bytes_little, length-to_bytes_little,
}

-- `negsuc n` is -(n + 1).
pub data ℤ : Type 0 where
  pos : ℕ → ℤ
  negsuc : ℕ → ℤ

-- `-n`
abbrev pub neg : ℕ → ℤ
neg zero = pos 0
neg (suc n) = negsuc n

-- `abs(v)`
abbrev pub abs : ℤ → ℕ
abs (pos n) = n
abs (negsuc n) = suc n

-- `v < 0`
abbrev pub is_negative : ℤ → Bool
is_negative (pos n) = false
is_negative (negsuc n) = true

-- `int.from_bytes(bs, 'little', signed=True)`
unfoldable pub from_bytes_little_signed : List ℕ → ℤ
unfolding from_bytes_little
from_bytes_little_signed bs =
    let v = from_bytes_little bs in
    let modulus = 256 ^ length bs in if leb modulus (2 * v) then neg (modulus - v) else pos v

-- `struct.pack('<h', v)`
unfoldable pub pack_h_little : ℤ → Result (List ℕ)
pack_h_little (pos n) = if ltb n 0x8000 then ok (to_bytes_little 2 n) else err struct_error
pack_h_little (negsuc n) =
    if ltb n 0x8000 then ok (to_bytes_little 2 (0x10000 - suc n)) else err struct_error

neg-suc : (k n : ℕ) → k ≡ suc n → neg k ≡ negsuc n
neg-suc k n e = rw e refl

-- Reading back what was packed.
pub from_bytes_little_signed-pack_h_little :
    (v : ℤ) (bs : List ℕ)
    → pack_h_little v ≡ ok bs
    → (from_bytes_little_signed bs ≡ v) × (length bs ≡ 2)
unfolding from_bytes_little_signed pack_h_little
from_bytes_little_signed-pack_h_little (pos n) bs e =
    let small : n < 0x8000 = ground arith in
    let is : to_bytes_little 2 n ≡ bs = ground arith in
    let value : from_bytes_little (to_bytes_little 2 n) ≡ n =
      from_bytes_little-to_bytes_little 2 n (omega arith) in
    let two = length-to_bytes_little 2 n in
    rw (← is) (unfold from_bytes_little_signed in (ground (arith, value, two)), two)
from_bytes_little_signed-pack_h_little (negsuc n) bs e =
    let small : n < 0x8000 = ground arith in
    let is : to_bytes_little 2 (0x10000 - suc n) ≡ bs = ground arith in
    let value : from_bytes_little (to_bytes_little 2 (0x10000 - suc n)) ≡ 0x10000 - suc n =
      from_bytes_little-to_bytes_little 2 (0x10000 - suc n) (omega arith) in
    let two = length-to_bytes_little 2 (0x10000 - suc n) in
    rw (← is) (
      unfold from_bytes_little_signed in
      (ground (arith, value, two, neg-suc (0x10000 - (0x10000 - suc n)) n (omega arith)), two))
