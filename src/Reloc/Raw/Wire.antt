-- ===== src/Reloc/Raw/Wire.antt =====
-- The wire format of `relocation_info`: packing and unpacking are inverse.
use afs_ld.Prelude.{
  ℕ, suc, ◌+◌, ◌-◌, ◌*◌, ◌/◌, ◌%◌, ◌^◌, ◌≤◌, ◌<◌, ◌≡◌, refl, sym, ap, ◌∙◌, Bool, true, false, List,
  [], ◌∷◌, ◌++◌, append-nil, append_assoc, arith, bit_or, ok, length, length-append, ltb, lt→ltb,
}
use afs_ld.Prelude.Bits.{bit_or-disjoint}
use afs_ld.Prelude.Bytes.{
  Bytes, slice, le_bytes, le_value, le_value-le_bytes, take-append, drop-append,
}
use afs_ld.Reloc.Raw.{
  RawRelocation, to_bit, nonzero, unpack, parse, pack, write, parse_entries, parse_raw_relocs,
  write_raw_relocs,
}

-- Every field fits in its bits.
pub record Fits (r : RawRelocation) : Type 0 where
  pub address : r.r_address < 2 ^ 32
  pub symbolnum : r.r_symbolnum < 2 ^ 24
  pub len : r.r_length < 4
  pub ty : r.r_type < 16

to_bit-lt : (b : Bool) → to_bit b < 2
to_bit-lt true = omega arith
to_bit-lt false = omega arith

nonzero-to_bit : (b : Bool) → nonzero (to_bit b) ≡ b
nonzero-to_bit true = refl
nonzero-to_bit false = refl

-- The word with the five fields in their places.
packed : ℕ → ℕ → ℕ → ℕ → ℕ → ℕ
packed s p l x t = s + p * 2 ^ 24 + l * 2 ^ 25 + x * 2 ^ 27 + t * 2 ^ 28

module _ (s p l x t : ℕ) (hs : s < 2 ^ 24) (hp : p < 2) (hl : l < 4) (hx : x < 2)
    (ht : t < 16) where
  or_packed :
      bit_or (bit_or (bit_or (bit_or s (p * 2 ^ 24)) (l * 2 ^ 25)) (x * 2 ^ 27)) (t * 2 ^ 28)
      ≡ packed s p l x t
  unfolding packed
  or_packed =
      let s₁ = s + p * 2 ^ 24 in
      let s₂ = s₁ + l * 2 ^ 25 in
      let s₃ = s₂ + x * 2 ^ 27 in
      rw (bit_or-disjoint 24 s p hs) (
        rw (bit_or-disjoint 25 s₁ l (omega arith))
          (rw (bit_or-disjoint 27 s₂ x (omega arith)) (bit_or-disjoint 28 s₃ t (omega arith))))

  symbolnum_field : packed s p l x t % 2 ^ 24 ≡ s
  unfolding packed
  symbolnum_field = omega arith

  pcrel_field : packed s p l x t / 2 ^ 24 % 2 ≡ p
  unfolding packed
  pcrel_field = omega arith

  length_field : packed s p l x t / 2 ^ 25 % 4 ≡ l
  unfolding packed
  length_field = omega arith

  extern_field : packed s p l x t / 2 ^ 27 % 2 ≡ x
  unfolding packed
  extern_field = omega arith

  type_field : packed s p l x t / 2 ^ 28 % 16 ≡ t
  unfolding packed
  type_field = omega arith

  packed-lt : packed s p l x t < 2 ^ 32
  unfolding packed
  packed-lt = omega arith

module _ (r : RawRelocation) (f : Fits r) where
  low : r.r_symbolnum % 2 ^ 24 ≡ r.r_symbolnum
  low = omega arith

  len_low : r.r_length % 4 ≡ r.r_length
  len_low = omega arith

  ty_low : r.r_type % 16 ≡ r.r_type
  ty_low = omega arith

  pack_fields :
      pack r ≡ packed r.r_symbolnum (to_bit r.r_pcrel) r.r_length (to_bit r.r_extern) r.r_type
  pack_fields =
      rw (low, len_low, ty_low)
        (or_packed _ _ _ _ _ f.symbolnum (to_bit-lt r.r_pcrel) f.len (to_bit-lt r.r_extern) f.ty)

  pack-lt : pack r < 2 ^ 32
  pack-lt =
      rw pack_fields
        (packed-lt _ _ _ _ _ f.symbolnum (to_bit-lt r.r_pcrel) f.len (to_bit-lt r.r_extern) f.ty)

  unpack-pack : unpack r.r_address (pack r) ≡ r
  unpack-pack =
      let hp = to_bit-lt r.r_pcrel in
      let hx = to_bit-lt r.r_extern in
      let p = to_bit r.r_pcrel in
      let x = to_bit r.r_extern in
      rw pack_fields (
        rw (
          symbolnum_field r.r_symbolnum p r.r_length x r.r_type f.symbolnum hp f.len hx f.ty,
          pcrel_field r.r_symbolnum p r.r_length x r.r_type f.symbolnum hp f.len hx f.ty,
          length_field r.r_symbolnum p r.r_length x r.r_type f.symbolnum hp f.len hx f.ty,
          extern_field r.r_symbolnum p r.r_length x r.r_type f.symbolnum hp f.len hx f.ty,
          type_field r.r_symbolnum p r.r_length x r.r_type f.symbolnum hp f.len hx f.ty,
          nonzero-to_bit r.r_pcrel,
          nonzero-to_bit r.r_extern,
        ))

  -- The eight bytes of one entry.
  write-append : (out : Bytes) → write r out ≡ out ++ write r []
  unfolding write
  write-append out = append_assoc out _ _

  length-write : length (write r []) ≡ 8
  unfolding write
  length-write = refl

  word_back : le_value (le_bytes 4 (pack r)) ≡ pack r
  word_back = le_value-le_bytes 4 (pack r) pack-lt

  address_back : le_value (le_bytes 4 r.r_address) ≡ r.r_address
  address_back = le_value-le_bytes 4 r.r_address f.address

  -- An entry whose fields fit is read back from the eight bytes that are written for it, whatever bytes
  -- follow.
  pub parse-write : (rest : Bytes) → parse (write r [] ++ rest) ≡ ok r
  unfolding parse write
  parse-write rest =
      let enough : ltb (length (write r [] ++ rest)) 8 ≡ false = ground arith in
      rw (enough, word_back, address_back) (ap ok unpack-pack)

-- A list of entries, one after the other.
abbrev pub AllFit : List RawRelocation → Type 0
AllFit [] = Unit
AllFit (r ∷ rs) = Fits r × AllFit rs

write-append_any : (r : RawRelocation) (out : Bytes) → write r out ≡ out ++ write r []
unfolding write
write-append_any r out = append_assoc out _ _

write_raw_relocs-append :
    (rs : List RawRelocation) (out : Bytes)
    → write_raw_relocs rs out ≡ out ++ write_raw_relocs rs []
unfolding write_raw_relocs
write_raw_relocs-append [] out = sym (append-nil out)
write_raw_relocs-append (r ∷ rs) out =
    write_raw_relocs-append rs (write r out)
    ∙ ap (λ o. o ++ write_raw_relocs rs []) (write-append_any r out)
    ∙ append_assoc out _ _
    ∙ ap (λ o. out ++ o) (sym (write_raw_relocs-append rs (write r [])))

table_cons :
    (r : RawRelocation) (rs : List RawRelocation)
    → write_raw_relocs (r ∷ rs) [] ≡ write r [] ++ write_raw_relocs rs []
unfolding write_raw_relocs
table_cons r rs = write_raw_relocs-append rs (write r [])

not_lt : (a b : ℕ) → b ≤ a → ltb a b ≡ false
not_lt a b h = ground arith

length_written : (r : RawRelocation) → length (write r []) ≡ 8
unfolding write
length_written r = refl

slice_entry :
    (before after : Bytes) (r : RawRelocation) (off : ℕ)
    → off ≡ length before
    → slice (before ++ (write r [] ++ after)) off (off + 8) ≡ write r []
slice_entry before after r off e =
    let eight : length before + 8 - length before ≡ length (write r []) =
      omega (arith, length_written r) in
    rw (e, eight, drop-append before (write r [] ++ after)) (take-append (write r []) after)

entries_step :
    (file : Bytes) (off n : ℕ) (r : RawRelocation) (rs : List RawRelocation)
    → parse (slice file off (off + 8)) ≡ ok r
    → parse_entries file (off + 8) n ≡ ok rs
    → parse_entries file off (suc n) ≡ ok (r ∷ rs)
unfolding parse_entries
entries_step file off n r rs e f = rw (e, f)

entries_back :
    (rs : List RawRelocation) (before after : Bytes) (off : ℕ)
    → off ≡ length before
    → AllFit rs
    → parse_entries (before ++ (write_raw_relocs rs [] ++ after)) off (length rs) ≡ ok rs
entries_back [] before after off e f = unfold parse_entries in refl
entries_back (r ∷ rs) before after off e f =
    let tail = write_raw_relocs rs [] ++ after in
    let whole : before ++ (write_raw_relocs (r ∷ rs) [] ++ after) ≡ before ++ (write r [] ++ tail) =
      ap (λ o. before ++ o)
        (ap (λ o. o ++ after) (table_cons r rs) ∙ append_assoc (write r []) _ _) in
    let first : parse (write r []) ≡ ok r =
      ap parse (sym (append-nil (write r []))) ∙ parse-write r f.0 [] in
    let next : off + 8 ≡ length (before ++ write r []) =
      omega (arith, length-append before (write r []), length_written r) in
    let rest = entries_back rs (before ++ write r []) after (off + 8) next f.1 in
    entries_step _ off (length rs) r rs
      (ap (λ file. parse (slice file off (off + 8))) whole
        ∙ ap parse (slice_entry before tail r off e)
        ∙ first)
      (ap (λ file. parse_entries file (off + 8) (length rs))
          (whole ∙ sym (append_assoc before (write r []) tail))
        ∙ rest)

length_table : (rs : List RawRelocation) → length (write_raw_relocs rs []) ≡ 8 * length rs
length_table [] = unfold write_raw_relocs in refl
length_table (r ∷ rs) =
    ap length (table_cons r rs)
    ∙ omega (
      arith,
      length-append (write r []) (write_raw_relocs rs []),
      length_written r,
      length_table rs,
    )

-- A table written at offset `reloff` of an image is read back from it, whatever surrounds it, when
-- every field fits and the image is smaller than 2 ^ 64 bytes.
pub parse_raw_relocs-write_raw_relocs :
    (before after : Bytes) (rs : List RawRelocation)
    → AllFit rs
    → length (before ++ (write_raw_relocs rs [] ++ after)) < 2 ^ 64
    → parse_raw_relocs (before ++ (write_raw_relocs rs [] ++ after)) (length before) (length rs)
      ≡ ok rs
unfolding parse_raw_relocs
parse_raw_relocs-write_raw_relocs before after rs f small =
    let size : length (before ++ (write_raw_relocs rs [] ++ after))
        ≡ length before + (8 * length rs + length after) =
      omega (
        arith,
        length-append before (write_raw_relocs rs [] ++ after),
        length-append (write_raw_relocs rs []) after,
        length_table rs,
      ) in
    rw
      (
        lt→ltb (length rs * 8) (2 ^ 64) (omega arith),
        lt→ltb (length before + length rs * 8) (2 ^ 64) (omega arith),
        not_lt (length (before ++ (write_raw_relocs rs [] ++ after)))
            (length before + length rs * 8) (omega arith),
      )
      (entries_back rs before after (length before) refl f)
