-- ===== src/Cipher.antt =====
-- AES in CTR mode as proxy/tg_ws_proxy.py and proxy/bridge.py use it: the `encryptor()` objects,
-- whose state is the position in a keystream. The keystream of a key and an initial counter is a
-- parameter, since the cipher itself is the `cryptography` package.
use hide_self_tgws.Base.{
  ℕ, zero, suc, ◌+◌, bit_xor, List, [], ◌∷◌, ◌++◌, length, take, drop, ◌≡◌, refl, ap, ap₂, ◌∙◌, sym,
  arith, join,
}
use hide_self_tgws.Base.Bits.{bit_xor-cancel}

pub record Encryptor : Type 0 where
  pub key : List ℕ
  pub iv : List ℕ
  pub position : ℕ

-- `Cipher(algorithms.AES(key), modes.CTR(iv)).encryptor()`
abbrev pub encryptor : List ℕ → List ℕ → Encryptor
encryptor key iv = record { key = key; iv = iv; position = 0 }

-- The bytes XORed with a keystream from a position on.
unfoldable pub xor_stream : (ℕ → ℕ) → ℕ → List ℕ → List ℕ
xor_stream stream position [] = []
xor_stream stream position (b ∷ bs) =
    bit_xor b (stream position) ∷ xor_stream stream (suc position) bs

pub length-xor_stream :
    (stream : ℕ → ℕ) (position : ℕ) (bs : List ℕ)
    → length (xor_stream stream position bs) ≡ length bs
unfolding xor_stream
length-xor_stream stream position [] = refl
length-xor_stream stream position (b ∷ bs) = ap suc (length-xor_stream stream (suc position) bs)

pub xor_stream-cancel :
    (stream : ℕ → ℕ) (position : ℕ) (bs : List ℕ)
    → xor_stream stream position (xor_stream stream position bs) ≡ bs
unfolding xor_stream
xor_stream-cancel stream position [] = refl
xor_stream-cancel stream position (b ∷ bs) =
    ap₂ ◌∷◌ (bit_xor-cancel b (stream position)) (xor_stream-cancel stream (suc position) bs)

pub xor_stream-append :
    (stream : ℕ → ℕ) (position : ℕ) (as_ bs : List ℕ)
    → xor_stream stream position (as_ ++ bs)
      ≡ xor_stream stream position as_ ++ xor_stream stream (position + length as_) bs
unfolding xor_stream
xor_stream-append stream position [] bs = ap (λ p. xor_stream stream p bs) (omega arith)
xor_stream-append stream position (a ∷ as_) bs = ap (◌∷◌ (bit_xor a (stream position))) (
    xor_stream-append stream (suc position) as_ bs
    ∙ ap (λ p. xor_stream stream (suc position) as_ ++ xor_stream stream p bs) (omega arith))

pub drop-xor_stream :
    (stream : ℕ → ℕ) (n position : ℕ) (bs : List ℕ)
    → drop n (xor_stream stream position bs) ≡ xor_stream stream (position + n) (drop n bs)
unfolding xor_stream drop
drop-xor_stream stream zero position bs = ap (λ p. xor_stream stream p bs) (omega arith)
drop-xor_stream stream (suc n) position [] = refl
drop-xor_stream stream (suc n) position (b ∷ bs) =
    drop-xor_stream stream n (suc position) bs
    ∙ ap (λ p. xor_stream stream p (drop n bs)) (omega arith)

pub take-xor_stream :
    (stream : ℕ → ℕ) (n position : ℕ) (bs : List ℕ)
    → take n (xor_stream stream position bs) ≡ xor_stream stream position (take n bs)
unfolding xor_stream take
take-xor_stream stream zero position bs = refl
take-xor_stream stream (suc n) position [] = refl
take-xor_stream stream (suc n) position (b ∷ bs) =
    ap (◌∷◌ (bit_xor b (stream position))) (take-xor_stream stream n (suc position) bs)

module _ (keystream : List ℕ → List ℕ → ℕ → ℕ) where
  -- `encryptor.update(bs)`
  unfoldable pub update : Encryptor → List ℕ → List ℕ × Encryptor
  update e bs = (
    xor_stream (keystream e.key e.iv) e.position bs,
    record e { position = e.position + length bs },
  )

  -- One object over the pieces of a stream, in order: what it returned, and the object.
  unfoldable pub updates : Encryptor → List (List ℕ) → List (List ℕ) × Encryptor
  updates e [] = ([], e)
  updates e (bs ∷ more) =
      let (out, e') = update e bs in let (outs, e'') = updates e' more in (out ∷ outs, e'')

  -- Updates by pieces give what one update with all the bytes gives.
  pub join-updates :
      (e : Encryptor) (pieces : List (List ℕ))
      → join (updates e pieces).0 ≡ xor_stream (keystream e.key e.iv) e.position (join pieces)
  unfolding update updates
  join-updates e [] = unfold xor_stream in refl
  join-updates e (bs ∷ more) =
      ap (◌++◌ (xor_stream (keystream e.key e.iv) e.position bs))
        (join-updates (update e bs).1 more)
      ∙ sym (xor_stream-append (keystream e.key e.iv) e.position bs (join more))
