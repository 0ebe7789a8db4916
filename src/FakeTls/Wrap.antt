-- ===== src/FakeTls/Wrap.antt =====
-- How data is cut into TLS records.
use hide_self_tgws.Base.{
  ℕ, zero, suc, ◌+◌, ◌-◌, ◌≤◌, ◌<◌, min, true, false, List, [], ◌∷◌, ◌++◌, length, take, drop,
  slice, ltb, ◌≡◌, refl, sym, ◌∙◌, ap, arith, All, join, map, length-take, length-drop, drop-drop,
  drop_of_length-le, Bool-cases, inl, inr, Result, ok,
}
use hide_self_tgws.FakeTls.{
  tls_appdata_max, tls_record_appdata, tls_record, wrap_loop, wrap_tls_record,
}

abbrev pub FitsRecord : List ℕ → Type 0
FitsRecord chunk = (0 < length chunk) × (length chunk ≤ tls_appdata_max)

take-drop_taken : (n : ℕ) (xs : List ℕ) → take n xs ++ drop (length (take n xs)) xs ≡ xs
unfolding take drop
take-drop_taken zero xs = refl
take-drop_taken (suc n) [] = refl
take-drop_taken (suc n) (x ∷ xs) = ap (λ t. x ∷ t) (take-drop_taken n xs)

-- A chunk and the bytes behind it.
cut_here :
    (offset : ℕ) (bytes : List ℕ)
    → slice offset (offset + tls_appdata_max) bytes
        ++ drop (offset + length (slice offset (offset + tls_appdata_max) bytes)) bytes
      ≡ drop offset bytes
unfolding slice
cut_here offset bytes =
    let n = offset + tls_appdata_max - offset in
    let chunk = take n (drop offset bytes) in
    ap (λ t. chunk ++ t) (sym (drop-drop offset (length chunk) (offset + length chunk) bytes refl))
    ∙ take-drop_taken n (drop offset bytes)

wrap_loop-inside :
    (fuel offset : ℕ) (bytes : List ℕ) (parts : List (List ℕ))
    → ltb offset (length bytes) ≡ true
    → wrap_loop fuel (offset + length (slice offset (offset + tls_appdata_max) bytes)) bytes
      ≡ ok parts
    → wrap_loop (suc fuel) offset bytes
      ≡ ok (tls_record tls_record_appdata (slice offset (offset + tls_appdata_max) bytes) ∷ parts)
unfolding wrap_loop
wrap_loop-inside fuel offset bytes parts inside run = rw (wrap_loop, inside, run) refl

wrap_loop-past :
    (fuel offset : ℕ) (bytes : List ℕ)
    → ltb offset (length bytes) ≡ false
    → wrap_loop (suc fuel) offset bytes ≡ ok []
unfolding wrap_loop
wrap_loop-past fuel offset bytes past = rw (wrap_loop, past) refl

-- What the loop makes of the bytes from an offset on.
abbrev Wraps : ℕ → List ℕ → Result (List (List ℕ)) → Type 0
Wraps offset bytes r =
    (chunks : List (List ℕ)) × (r ≡ ok (map (tls_record tls_record_appdata) chunks))
    × (join chunks ≡ drop offset bytes)
    × All FitsRecord chunks

wrap_loop-Wraps :
    (fuel offset : ℕ) (bytes : List ℕ)
    → 0 < fuel
    → length bytes < fuel + offset
    → Wraps offset bytes (wrap_loop fuel offset bytes)
wrap_loop-Wraps zero offset bytes positive enough = absurd (omega arith)
wrap_loop-Wraps (suc fuel) offset bytes positive enough =
    let chunk = slice offset (offset + tls_appdata_max) bytes in
    let len : length chunk ≡ min tls_appdata_max (length bytes - offset) =
      unfold slice in
      omega (
        arith,
        length-take (offset + tls_appdata_max - offset) (drop offset bytes),
        length-drop offset bytes,
      ) in
    elim (Bool-cases (ltb offset (length bytes))) [
      | inl inside ↦
          let before : offset < length bytes = ground (arith, inside) in
          let (chunks, run, whole, fits) =
            wrap_loop-Wraps fuel (offset + length chunk) bytes (omega (arith, enough, before))
              (omega (arith, enough, before, len)) in
          (
            chunk ∷ chunks,
            wrap_loop-inside fuel offset bytes (map (tls_record tls_record_appdata) chunks) inside
                run,
            ap (λ t. chunk ++ t) whole ∙ cut_here offset bytes,
            ((omega (arith, len, before), omega (arith, len)), fits),
          )
      | inr past ↦
          let beyond : length bytes ≤ offset = ground (arith, past) in
          (
            [],
            wrap_loop-past fuel offset bytes past,
            sym (drop_of_length-le offset bytes beyond),
            tt,
          )
    ]

-- Wrapping never fails: the data is cut into chunks of one to 16384 bytes, in order and without a
-- byte lost, and each chunk is sent as one application data record.
pub wrap_tls_record_lem :
    (bytes : List ℕ)
    → (chunks : List (List ℕ)) × (wrap_tls_record bytes
        ≡ ok (join (map (tls_record tls_record_appdata) chunks)))
      × (join chunks ≡ bytes)
      × All FitsRecord chunks
unfolding wrap_tls_record
wrap_tls_record_lem bytes =
    let (chunks, run, whole, fits) =
      wrap_loop-Wraps (suc (length bytes)) 0 bytes (omega arith) (omega arith) in
    (chunks, rw (run) refl, whole ∙ (unfold drop in refl), fits)
