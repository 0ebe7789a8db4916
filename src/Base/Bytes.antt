-- ===== src/Base/Bytes.antt =====
-- Byte strings as lists of numbers below 256: `int.from_bytes`, `to_bytes`, `struct` fields.
use hide_self_tgws.Base.Tests.{ltb, if◌then◌else◌}
use hide_self_tgws.Base.Lists.{length, length-append, slice, All}
use hide_self_tgws.Base.Results.{Result, ok, err, struct_error, index_error}
use Prim.Native.Nat.{ℕ, zero, suc, ◌+◌, ◌*◌, ◌/◌, ◌%◌, ◌^◌, ◌<◌}
use mathlib.Core.Path.{◌≡◌, refl, ap, ◌∙◌}
use mathlib.Core.List.{List, [], ◌∷◌, ◌++◌, append-nil, append_assoc}
use native.Mathlib.Omega.{arith}
use native.Mathlib.Nat.{pow-suc}

abbrev pub IsByte : ℕ → Type 0
IsByte b = b < 256

abbrev pub IsBytes : List ℕ → Type 0
IsBytes = All IsByte

-- `int.from_bytes(data, 'little')`
unfoldable pub from_bytes_little : List ℕ → ℕ
from_bytes_little [] = 0
from_bytes_little (b ∷ bs) = b + 256 * from_bytes_little bs

-- `int.from_bytes(data, 'big')`, from an accumulator.
unfoldable pub from_bytes_big_acc : ℕ → List ℕ → ℕ
from_bytes_big_acc acc [] = acc
from_bytes_big_acc acc (b ∷ bs) = from_bytes_big_acc (acc * 256 + b) bs

unfoldable pub from_bytes_big : List ℕ → ℕ
unfolding from_bytes_big_acc
from_bytes_big bs = from_bytes_big_acc 0 bs

-- `value.to_bytes(n, 'little')`, for a value below `256 ^ n`.
unfoldable pub to_bytes_little : ℕ → ℕ → List ℕ
to_bytes_little zero v = []
to_bytes_little (suc n) v = (v % 256) ∷ to_bytes_little n (v / 256)

-- `value.to_bytes(n, 'big')`, for a value below `256 ^ n`: the last byte is the lowest.
unfoldable pub to_bytes_big : ℕ → ℕ → List ℕ
to_bytes_big zero v = []
to_bytes_big (suc n) v = to_bytes_big n (v / 256) ++ ((v % 256) ∷ [])

-- `data[i]`
unfoldable pub byte_at : List ℕ → ℕ → Result ℕ
byte_at [] i = err index_error
byte_at (b ∷ bs) zero = ok b
byte_at (b ∷ bs) (suc i) = byte_at bs i

-- `struct.unpack_from('>H', data, off)[0]`
unfoldable pub unpack_h_big : List ℕ → ℕ → Result ℕ
unfolding from_bytes_big slice
unpack_h_big bs off =
    if ltb (length bs) (off + 2)
    then err struct_error
    else ok (from_bytes_big (slice off (off + 2) bs))

-- `struct.unpack_from('<I', data, off)[0]`
unfoldable pub unpack_i_little : List ℕ → ℕ → Result ℕ
unfolding from_bytes_little slice
unpack_i_little bs off =
    if ltb (length bs) (off + 4)
    then err struct_error
    else ok (from_bytes_little (slice off (off + 4) bs))

pub length-to_bytes_little : (n v : ℕ) → length (to_bytes_little n v) ≡ n
unfolding to_bytes_little
length-to_bytes_little zero v = refl
length-to_bytes_little (suc n) v = ap suc (length-to_bytes_little n (v / 256))

pub length-to_bytes_big : (n v : ℕ) → length (to_bytes_big n v) ≡ n
unfolding to_bytes_big
length-to_bytes_big zero v = refl
length-to_bytes_big (suc n) v = omega (
  arith,
  length-append (to_bytes_big n (v / 256)) ((v % 256) ∷ []),
  length-to_bytes_big n (v / 256),
)

pub from_bytes_little-to_bytes_little :
    (n v : ℕ) → v < 256 ^ n → from_bytes_little (to_bytes_little n v) ≡ v
unfolding from_bytes_little to_bytes_little
from_bytes_little-to_bytes_little zero v h = omega arith
from_bytes_little-to_bytes_little (suc n) v h =
    let p : 256 ^ suc n ≡ 256 * 256 ^ n = omega (arith, pow-suc 256 n) in
    omega (arith, p, from_bytes_little-to_bytes_little n (v / 256) (omega arith))

pub from_bytes_big_acc-append :
    (acc : ℕ) (xs ys : List ℕ)
    → from_bytes_big_acc acc (xs ++ ys) ≡ from_bytes_big_acc (from_bytes_big_acc acc xs) ys
unfolding from_bytes_big_acc
from_bytes_big_acc-append acc [] ys = refl
from_bytes_big_acc-append acc (x ∷ xs) ys = from_bytes_big_acc-append (acc * 256 + x) xs ys

pub from_bytes_big-to_bytes_big : (n v : ℕ) → v < 256 ^ n → from_bytes_big (to_bytes_big n v) ≡ v
unfolding from_bytes_big to_bytes_big
from_bytes_big-to_bytes_big zero v h = omega arith
from_bytes_big-to_bytes_big (suc n) v h =
    let p : 256 ^ suc n ≡ 256 * 256 ^ n = omega (arith, pow-suc 256 n) in
    from_bytes_big_acc-append 0 (to_bytes_big n (v / 256)) ((v % 256) ∷ [])
    ∙ omega (arith, from_bytes_big-to_bytes_big n (v / 256) (omega arith))

pub All-append {κ ℓ} :
    {A : Type κ} (P : A → Type ℓ) (front back : List A)
    → All P front
    → All P back
    → All P (front ++ back)
All-append P (x ∷ front) back (first, rest) both = (first, All-append P front back rest both)
All-append P [] back none_ both = both

pub to_bytes_big-IsBytes : (n v : ℕ) → IsBytes (to_bytes_big n v)
unfolding to_bytes_big
to_bytes_big-IsBytes zero v = tt
to_bytes_big-IsBytes (suc n) v =
    All-append IsByte (to_bytes_big n (v / 256)) _ (to_bytes_big-IsBytes n (v / 256)) (omega arith)

to_bytes_big-from_bytes_big_acc :
    (bs : List ℕ) (m n acc : ℕ)
    → m + length bs ≡ n
    → IsBytes bs
    → to_bytes_big n (from_bytes_big_acc acc bs) ≡ to_bytes_big m acc ++ bs
unfolding from_bytes_big_acc to_bytes_big
to_bytes_big-from_bytes_big_acc [] m n acc e h =
    let same : n ≡ m = omega arith in rw (same, append-nil) refl
to_bytes_big-from_bytes_big_acc (b ∷ bs) m n acc e h =
    to_bytes_big-from_bytes_big_acc bs (suc m) n (acc * 256 + b) (omega arith) h.1
    ∙ ground (arith, append_assoc (to_bytes_big m acc) (b ∷ []) bs)

-- Bytes are spelled back from the number that they spell.
pub to_bytes_big-from_bytes_big :
    (bs : List ℕ) → IsBytes bs → to_bytes_big (length bs) (from_bytes_big bs) ≡ bs
unfolding from_bytes_big to_bytes_big
to_bytes_big-from_bytes_big bs h =
    to_bytes_big-from_bytes_big_acc bs 0 (length bs) 0 (omega arith) h
