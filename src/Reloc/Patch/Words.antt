-- ===== src/Reloc/Patch/Words.antt =====
-- Reading and writing the instruction at an offset.
use afs_ld.Prelude.{
  sym, ◌∙◌, ap, ℕ, ◌+◌, ◌-◌, ◌^◌, ◌≤◌, ◌<◌, ◌≡◌, refl, subst, true, ◌++◌, ok, arith, length,
  length-append, length-drop, take, drop, leb,
}
use afs_ld.Prelude.Bytes.{
  Bytes, slice, le_bytes, le_value, le_value-le_bytes, length-le_bytes, IsBytes, IsBytes-take,
  IsBytes-drop, le_value-lt, take-append, drop-append, drop-drop, length-take-within,
}
use afs_ld.Reloc.Patch.{read_u32, write_u32}

-- Bytes with the word `v` at an offset.
abbrev pub patched : Bytes → ℕ → ℕ → Bytes
patched bytes offset v = take offset bytes ++ (le_bytes 4 v ++ drop (offset + 4) bytes)

-- Bytes that differ in the word at an offset alone.
abbrev pub Untouched : Bytes → ℕ → Bytes → Type 0
Untouched before offset after =
    (length after ≡ length before)
    × (take offset after ≡ take offset before)
    × (drop (offset + 4) after ≡ drop (offset + 4) before)

abbrev pub word_at : Bytes → ℕ → ℕ
word_at bytes offset = le_value (slice bytes offset (offset + 4))

le→leb : (a b : ℕ) → a ≤ b → leb a b ≡ true
le→leb a b h = ground arith

module _ (bytes : Bytes) (offset : ℕ) (inside : offset + 4 ≤ length bytes) where
  pub read_inside : read_u32 bytes offset ≡ ok (word_at bytes offset)
  unfolding read_u32
  read_inside = rw (le→leb (offset + 4) (length bytes) inside) refl

  pub write_inside : (v : ℕ) → write_u32 bytes offset v ≡ ok (patched bytes offset v)
  unfolding write_u32
  write_inside v = rw (le→leb (offset + 4) (length bytes) inside) refl

  pub word_at-lt : IsBytes bytes → word_at bytes offset < 2 ^ 32
  word_at-lt h =
      let four : offset + 4 - offset ≡ 4 = omega arith in
      let there : 4 ≤ length (drop offset bytes) = omega (arith, length-drop offset bytes) in
      let bound =
        le_value-lt (take 4 (drop offset bytes)) (IsBytes-take 4 _ (IsBytes-drop offset bytes h)) in
      rw (four) (omega (arith, bound, rw (length-take-within 4 (drop offset bytes) there) at bound))

  length-patched : (v : ℕ) → length (patched bytes offset v) ≡ length bytes
  length-patched v = omega (
    arith,
    length-append (take offset bytes) (le_bytes 4 v ++ drop (offset + 4) bytes),
    length-append (le_bytes 4 v) (drop (offset + 4) bytes),
    length-le_bytes 4 v,
    length-take-within offset bytes (omega arith),
    length-drop (offset + 4) bytes,
  )

  drop-patched : (v : ℕ) → drop (offset + 4) (patched bytes offset v) ≡ drop (offset + 4) bytes
  drop-patched v =
      sym (drop-drop offset 4 (patched bytes offset v))
      ∙ ap (drop 4) (
          subst (λ n. drop n (patched bytes offset v) ≡ le_bytes 4 v ++ drop (offset + 4) bytes)
            (length-take-within offset bytes (omega arith))
            (drop-append (take offset bytes) (le_bytes 4 v ++ drop (offset + 4) bytes)))

  pub word_at-patched : (v : ℕ) → v < 2 ^ 32 → word_at (patched bytes offset v) offset ≡ v
  word_at-patched v h =
      let four : offset + 4 - offset ≡ 4 = omega arith in
      let skip : drop offset (patched bytes offset v) ≡ le_bytes 4 v ++ drop (offset + 4) bytes =
        subst (λ n. drop n (patched bytes offset v) ≡ le_bytes 4 v ++ drop (offset + 4) bytes)
          (length-take-within offset bytes (omega arith))
          (drop-append (take offset bytes) (le_bytes 4 v ++ drop (offset + 4) bytes)) in
      rw (four, skip) (le_value-le_bytes 4 v (omega arith))

  take-patched : (v : ℕ) → take offset (patched bytes offset v) ≡ take offset bytes
  take-patched v =
      subst (λ n. take n (patched bytes offset v) ≡ take offset bytes)
        (length-take-within offset bytes (omega arith))
        (take-append (take offset bytes) (le_bytes 4 v ++ drop (offset + 4) bytes))

  pub patched-Untouched : (v : ℕ) → Untouched bytes offset (patched bytes offset v)
  patched-Untouched v = (length-patched v, take-patched v, drop-patched v)
