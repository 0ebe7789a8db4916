-- ===== src/Base/Reader.antt =====
-- What the source uses of an asyncio `StreamReader`, over the list of the bytes still to come before
-- the peer closes.
use Prim.Native.Nat.{ℕ, zero, suc, ◌≤◌, ◌<◌, min, max}
use mathlib.Core.Path.{◌≡◌, refl}
use mathlib.Core.List.{List, ◌++◌}
use native.Mathlib.Omega.{arith}
use hide_self_tgws.Base.Tests.{ltb, if◌then◌else◌, le→not-ltb}
use hide_self_tgws.Base.Lists.{
  length, take, drop, length-append, take_append_self, drop_append_self,
}
use hide_self_tgws.Base.Results.{Result, ok, err, incomplete_read_error}

-- `reader.readexactly(n)`
unfoldable pub readexactly : ℕ → List ℕ → Result (List ℕ × List ℕ)
readexactly n stream =
    if ltb (length stream) n then err incomplete_read_error else ok (take n stream, drop n stream)

-- How many bytes a read that may return fewer than asked for takes: at least one, where there is
-- one. `arrived` is the network's choice, given the bytes still to come.
unfoldable pub read_size : (List ℕ → ℕ) → ℕ → List ℕ → ℕ
read_size arrived zero stream = 0
read_size arrived (suc n) stream = min (suc n) (max 1 (arrived stream))

-- `reader.read(n)`: nothing at the end of the stream.
unfoldable pub read_some : (List ℕ → ℕ) → ℕ → List ℕ → List ℕ × List ℕ
unfolding read_size
read_some arrived n stream =
    (take (read_size arrived n stream) stream, drop (read_size arrived n stream) stream)

pub readexactly-append :
    (n : ℕ) (xs rest : List ℕ) → length xs ≡ n → readexactly n (xs ++ rest) ≡ ok (xs, rest)
unfolding readexactly
readexactly-append n xs rest h =
    rw
      (
        take_append_self n xs rest h,
        drop_append_self n xs rest h,
        le→not-ltb (length (xs ++ rest)) n (omega (arith, length-append xs rest)),
      )
      refl

pub read_size_bounds :
    (arrived : List ℕ → ℕ) (n : ℕ) (stream : List ℕ)
    → 0 < n
    → (0 < read_size arrived n stream) × (read_size arrived n stream ≤ n)
unfolding read_size
read_size_bounds arrived zero stream h = absurd (omega arith)
read_size_bounds arrived (suc n) stream h = (omega arith, omega arith)
