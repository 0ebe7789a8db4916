-- ===== src/WebSocket/Mask.antt =====
-- Both ways of masking compute the same bytes: each byte is combined with its key byte in turn.
use hide_self_tgws.Base.{
  ℕ, zero, suc, ◌+◌, ◌*◌, ◌/◌, ◌≤◌, bit_xor, List, [], ◌∷◌, map, length, take, ok, ◌≡◌, refl, ap,
  ap₂, ◌∙◌, sym, arith,
}
use hide_self_tgws.Base.Bits.{bit_xor_byte, bit_xor-lt_byte, bit_xor-cancel}
use hide_self_tgws.Base.Bytes.{
  byte_at, IsBytes, from_bytes_big, from_bytes_big_acc, to_bytes_big, to_bytes_big-from_bytes_big,
}
use hide_self_tgws.WebSocket.{
  every_fourth, set_every_fourth, mask_offset, mask_by_tables, repeat, mask_by_integers, xor_mask,
}

-- The masking of RFC 6455, section 5.3: the key bytes in turn.
unfoldable pub xor_cycle : List ℕ → ℕ → ℕ → ℕ → ℕ → List ℕ
xor_cycle [] a b c d = []
xor_cycle (x ∷ xs) a b c d = bit_xor x a ∷ xor_cycle xs b c d a

pub length-xor_cycle : (xs : List ℕ) (a b c d : ℕ) → length (xor_cycle xs a b c d) ≡ length xs
unfolding xor_cycle
length-xor_cycle [] a b c d = refl
length-xor_cycle (x ∷ xs) a b c d = ap suc (length-xor_cycle xs b c d a)

pub xor_cycle-IsBytes :
    (xs : List ℕ) (a b c d : ℕ)
    → IsBytes xs
    → IsBytes (a ∷ b ∷ c ∷ d ∷ [])
    → IsBytes (xor_cycle xs a b c d)
unfolding xor_cycle
xor_cycle-IsBytes [] a b c d h m = tt
xor_cycle-IsBytes (x ∷ xs) a b c d h m = (
  bit_xor-lt_byte x a h.0 m.0,
  xor_cycle-IsBytes xs b c d a h.1 (m.1.0, (m.1.1.0, (m.1.1.1.0, (m.0, tt)))),
)

-- Masking twice with one key gives the data back.
pub xor_cycle-xor_cycle :
    (xs : List ℕ) (a b c d : ℕ) → xor_cycle (xor_cycle xs a b c d) a b c d ≡ xs
unfolding xor_cycle
xor_cycle-xor_cycle [] a b c d = refl
xor_cycle-xor_cycle (x ∷ xs) a b c d = ap₂ ◌∷◌ (bit_xor-cancel x a) (xor_cycle-xor_cycle xs b c d a)

map_fourth : (ℕ → ℕ) → ℕ → List ℕ → List ℕ
map_fourth f k xs = set_every_fourth k (map f (every_fourth k xs)) xs

-- Four steps of the four maps.
map_fourths :
    (f g h k : ℕ → ℕ) (x0 x1 x2 x3 : ℕ) (xs : List ℕ)
    → map_fourth k 3 (map_fourth h 2 (map_fourth g 1 (map_fourth f 0 (x0 ∷ x1 ∷ x2 ∷ x3 ∷ xs))))
      ≡ f x0
        ∷ g x1
        ∷ h x2
        ∷ k x3
        ∷ map_fourth k 3 (map_fourth h 2 (map_fourth g 1 (map_fourth f 0 xs)))
unfolding map_fourth every_fourth set_every_fourth
map_fourths f g h k x0 x1 x2 x3 xs = refl

tables-xor_cycle :
    (xs : List ℕ) (a b c d : ℕ)
    → map_fourth
        (λ v. bit_xor v d)
        3
        (map_fourth
          (λ v. bit_xor v c)
          2
          (map_fourth (λ v. bit_xor v b) 1 (map_fourth (λ v. bit_xor v a) 0 xs)))
      ≡ xor_cycle xs a b c d
unfolding xor_cycle
tables-xor_cycle [] a b c d = unfold map_fourth every_fourth set_every_fourth in refl
tables-xor_cycle (x0 ∷ []) a b c d = unfold map_fourth every_fourth set_every_fourth in refl
tables-xor_cycle (x0 ∷ x1 ∷ []) a b c d = unfold map_fourth every_fourth set_every_fourth in refl
tables-xor_cycle (x0 ∷ x1 ∷ x2 ∷ []) a b c d =
    unfold map_fourth every_fourth set_every_fourth in refl
tables-xor_cycle (x0 ∷ x1 ∷ x2 ∷ x3 ∷ xs) a b c d =
    map_fourths (λ v. bit_xor v a) (λ v. bit_xor v b) (λ v. bit_xor v c) (λ v. bit_xor v d) x0 x1 x2
      x3 xs
    ∙ ap (λ t. bit_xor x0 a ∷ bit_xor x1 b ∷ bit_xor x2 c ∷ bit_xor x3 d ∷ t)
        (tables-xor_cycle xs a b c d)

mask_by_tables-xor_cycle :
    (xs : List ℕ) (a b c d : ℕ) → mask_by_tables xs (a ∷ b ∷ c ∷ d ∷ []) ≡ ok (xor_cycle xs a b c d)
unfolding mask_by_tables mask_offset byte_at
mask_by_tables-xor_cycle xs a b c d = ap ok (unfold map_fourth in tables-xor_cycle xs a b c d)

zip_xor : List ℕ → List ℕ → List ℕ
zip_xor [] ys = []
zip_xor (x ∷ xs) [] = []
zip_xor (x ∷ xs) (y ∷ ys) = bit_xor x y ∷ zip_xor xs ys

zip_xor-from_bytes :
    (xs ys : List ℕ) (m n : ℕ)
    → length xs ≡ length ys
    → IsBytes xs
    → IsBytes ys
    → bit_xor (from_bytes_big_acc m xs) (from_bytes_big_acc n ys)
      ≡ from_bytes_big_acc (bit_xor m n) (zip_xor xs ys)
unfolding from_bytes_big_acc zip_xor
zip_xor-from_bytes [] [] m n same hx hy = refl
zip_xor-from_bytes [] (y ∷ ys) m n same hx hy = absurd (omega arith)
zip_xor-from_bytes (x ∷ xs) [] m n same hx hy = absurd (omega arith)
zip_xor-from_bytes (x ∷ xs) (y ∷ ys) m n same hx hy =
    zip_xor-from_bytes xs ys (m * 256 + x) (n * 256 + y) (omega arith) hx.1 hy.1
    ∙ rw (bit_xor_byte m n x y hx.0 hy.0) refl

zip_xor-IsBytes : (xs ys : List ℕ) → IsBytes xs → IsBytes ys → IsBytes (zip_xor xs ys)
unfolding zip_xor
zip_xor-IsBytes [] ys hx hy = tt
zip_xor-IsBytes (x ∷ xs) [] hx hy = tt
zip_xor-IsBytes (x ∷ xs) (y ∷ ys) hx hy =
    (bit_xor-lt_byte x y hx.0 hy.0, zip_xor-IsBytes xs ys hx.1 hy.1)

length-zip_xor : (xs ys : List ℕ) → length xs ≡ length ys → length (zip_xor xs ys) ≡ length xs
unfolding zip_xor
length-zip_xor [] ys h = refl
length-zip_xor (x ∷ xs) [] h = absurd (omega arith)
length-zip_xor (x ∷ xs) (y ∷ ys) h = ap suc (length-zip_xor xs ys (omega arith))

-- The repeated key, cut to the length of the data, combines like the key bytes in turn.
zip_xor-repeat :
    (k : ℕ) (xs : List ℕ) (a b c d : ℕ)
    → length xs ≤ 4 * k
    → zip_xor xs (take (length xs) (repeat k (a ∷ b ∷ c ∷ d ∷ []))) ≡ xor_cycle xs a b c d
unfolding zip_xor repeat take xor_cycle
zip_xor-repeat k [] a b c d h = refl
zip_xor-repeat zero (x ∷ xs) a b c d h = absurd (omega arith)
zip_xor-repeat (suc k) (x0 ∷ []) a b c d h = refl
zip_xor-repeat (suc k) (x0 ∷ x1 ∷ []) a b c d h = refl
zip_xor-repeat (suc k) (x0 ∷ x1 ∷ x2 ∷ []) a b c d h = refl
zip_xor-repeat (suc k) (x0 ∷ x1 ∷ x2 ∷ x3 ∷ xs) a b c d h =
    ap (λ t. bit_xor x0 a ∷ bit_xor x1 b ∷ bit_xor x2 c ∷ bit_xor x3 d ∷ t)
      (zip_xor-repeat k xs a b c d (omega arith))

repeat_mask :
    (k n : ℕ) (a b c d : ℕ)
    → IsBytes (a ∷ b ∷ c ∷ d ∷ [])
    → n ≤ 4 * k
    → (length (take n (repeat k (a ∷ b ∷ c ∷ d ∷ []))) ≡ n)
      × IsBytes (take n (repeat k (a ∷ b ∷ c ∷ d ∷ [])))
unfolding repeat take
repeat_mask k zero a b c d m h = (refl, tt)
repeat_mask zero (suc n) a b c d m h = absurd (omega arith)
repeat_mask (suc k) (suc zero) a b c d m h = (refl, (m.0, tt))
repeat_mask (suc k) (suc (suc zero)) a b c d m h = (refl, (m.0, (m.1.0, tt)))
repeat_mask (suc k) (suc (suc (suc zero))) a b c d m h = (refl, (m.0, (m.1.0, (m.1.1.0, tt))))
repeat_mask (suc k) (suc (suc (suc (suc n)))) a b c d m h =
    let (l, bytes) = repeat_mask k n a b c d m (omega arith) in
    (omega arith, (m.0, (m.1.0, (m.1.1.0, (m.1.1.1.0, bytes)))))

mask_by_integers-xor_cycle :
    (xs : List ℕ) (a b c d : ℕ)
    → IsBytes xs
    → IsBytes (a ∷ b ∷ c ∷ d ∷ [])
    → mask_by_integers xs (a ∷ b ∷ c ∷ d ∷ []) ≡ xor_cycle xs a b c d
unfolding mask_by_integers from_bytes_big
mask_by_integers-xor_cycle xs a b c d hx hm =
    let k = length xs / 4 + 1 in
    let enough : length xs ≤ 4 * k = omega arith in
    let rep = take (length xs) (repeat k (a ∷ b ∷ c ∷ d ∷ [])) in
    let (l, bytes) = repeat_mask k (length xs) a b c d hm enough in
    let z = zip_xor xs rep in
    let lz : length z ≡ length xs = length-zip_xor xs rep (sym l) in
    ap (to_bytes_big (length xs)) (zip_xor-from_bytes xs rep 0 0 (sym l) hx bytes)
    ∙ ap (λ n. to_bytes_big n (from_bytes_big z)) (sym lz)
    ∙ to_bytes_big-from_bytes_big z (zip_xor-IsBytes xs rep hx bytes)
    ∙ zip_xor-repeat k xs a b c d enough

-- Masking bytes never raises for a key of four bytes, and on every length, short or long, it
-- combines each data byte with the key bytes in turn.
pub xor_mask-xor_cycle :
    (xs : List ℕ) (a b c d : ℕ)
    → IsBytes xs
    → IsBytes (a ∷ b ∷ c ∷ d ∷ [])
    → xor_mask xs (a ∷ b ∷ c ∷ d ∷ []) ≡ ok (xor_cycle xs a b c d)
unfolding xor_mask
xor_mask-xor_cycle [] a b c d hx hm = unfold xor_cycle in refl
xor_mask-xor_cycle (x ∷ xs) a b c d hx hm =
    ground (
      arith,
      mask_by_tables-xor_cycle (x ∷ xs) a b c d,
      mask_by_integers-xor_cycle (x ∷ xs) a b c d,
    )
