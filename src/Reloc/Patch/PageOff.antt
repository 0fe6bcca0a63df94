-- ===== src/Reloc/Patch/PageOff.antt =====
-- `patch_pageoff12`: the patched instruction adds, or is offset by, the target's place in its page.
use native.Mathlib.Nat.{mod-eq-sub-div-mul, div-mul-le_self, div-le_self}
use afs_ld.Prelude.{
  ℕ, ◌+◌, ◌*◌, ◌/◌, ◌%◌, ◌^◌, ◌≤◌, ◌<◌, ◌≡◌, ◌≢◌, ◌∙◌, sym, subst, refl, true, false, ok, err, ◌⊎◌,
  arith, length, leb, ◌==◌, ==_iff, Bool-cases, inl, inr,
}
use afs_ld.Prelude.Bytes.{Bytes, IsBytes}
use afs_ld.Prelude.Int.{ℤ}
use afs_ld.Reloc.Patch.{
  unscaled_pageoff, wrapping_add_signed, is_add_immediate, is_simd_fp_pageoff,
  simd_fp_pageoff_shift, pageoff_load_store_shift, pageoff_imm, with_imm12, patch_pageoff12,
}
use afs_ld.Reloc.Patch.Words.{
  Untouched, patched, word_at, read_inside, write_inside, word_at-lt, patched-Untouched,
  word_at-patched,
}

-- The fields of an `add` and of a load or store with a 12-bit field, as the architecture draws them: bits 24 to
-- 31 name the operation and its register, bits 22 and 23 go with it.
abbrev pub top : ℕ → ℕ
top insn = insn / 2 ^ 24

abbrev pub opc : ℕ → ℕ
opc insn = insn / 2 ^ 22 % 4

abbrev pub field : ℕ → ℕ
field insn = insn / 2 ^ 10 % 2 ^ 12

-- How many bytes one step of the field is, by the encodings of the architecture's manual: an `add` of an
-- immediate that is not shifted counts single bytes, a load or store counts in its own size. `v` registers
-- have one size more, the 16 bytes of `q`, which has the top byte of `b` and the high bit of `opc`.
pub data Counts (insn : ℕ) : (unit : ℕ) → Type 0 where
  add_w : top insn ≡ 0x11 → opc insn ≡ 0 → Counts insn 1
  add_x : top insn ≡ 0x91 → opc insn ≡ 0 → Counts insn 1
  access_8 : top insn ≡ 0x39 → Counts insn 1
  access_16 : top insn ≡ 0x79 → Counts insn 2
  access_32 : top insn ≡ 0xb9 → Counts insn 4
  access_64 : top insn ≡ 0xf9 → Counts insn 8
  vector_b : top insn ≡ 0x3d → opc insn < 2 → Counts insn 1
  vector_h : top insn ≡ 0x7d → opc insn < 2 → Counts insn 2
  vector_s : top insn ≡ 0xbd → opc insn < 2 → Counts insn 4
  vector_d : top insn ≡ 0xfd → opc insn < 2 → Counts insn 8
  vector_q : top insn ≡ 0x3d → 2 ≤ opc insn → Counts insn 16

-- What an instruction adds to its base register.
pub record Adds (insn offset : ℕ) : Type 0 where
  pub unit : ℕ
  pub counts : Counts insn unit
  pub offset_is : field insn * unit ≡ offset

abbrev Fields : ℕ → ℕ → Type 0
Fields a b = (a / 2 ^ 22 ≡ b / 2 ^ 22) × (a % 2 ^ 10 ≡ b % 2 ^ 10)

Counts-same : {unit : ℕ} (a b : ℕ) → a / 2 ^ 22 ≡ b / 2 ^ 22 → Counts b unit → Counts a unit
Counts-same a b h c =
    let t : top a ≡ top b = omega arith in
    let o : opc a ≡ opc b = omega arith in
    elim c as (λ k _. Counts a k) [
      | add_w x y ↦ add_w (t ∙ x) (o ∙ y)
      | add_x x y ↦ add_x (t ∙ x) (o ∙ y)
      | access_8 x ↦ access_8 (t ∙ x)
      | access_16 x ↦ access_16 (t ∙ x)
      | access_32 x ↦ access_32 (t ∙ x)
      | access_64 x ↦ access_64 (t ∙ x)
      | vector_b x y ↦ vector_b (t ∙ x) (omega arith)
      | vector_h x y ↦ vector_h (t ∙ x) (omega arith)
      | vector_s x y ↦ vector_s (t ∙ x) (omega arith)
      | vector_d x y ↦ vector_d (t ∙ x) (omega arith)
      | vector_q x y ↦ vector_q (t ∙ x) (omega arith)
    ]

-- What the code takes from the instruction.
record Shifted (insn unit : ℕ) : Type 0 where
  shift : ℕ
  small : shift ≤ 4
  unit_is : 2 ^ shift ≡ unit
  code :
      ((is_add_immediate insn ≡ true) × (shift ≡ 0))
      ⊎ ((is_add_immediate insn ≡ false) × (pageoff_load_store_shift insn ≡ shift))

add_shift : (insn : ℕ) → top insn % 2 ^ 5 ≡ 0x11 → Shifted insn 1
unfolding is_add_immediate
add_shift insn t = record {
  shift = 0;
  small = omega arith;
  unit_is = refl;
  code = inl (ground (arith, t), refl);
}

access_shift :
    (insn unit shift : ℕ)
    → shift ≤ 4
    → 2 ^ shift ≡ unit
    → is_add_immediate insn ≡ false
    → pageoff_load_store_shift insn ≡ shift
    → Shifted insn unit
access_shift insn unit shift small unit_is n s = record {
  shift = shift;
  small = small;
  unit_is = unit_is;
  code = inr (n, s);
}

Counts-Shifted : {unit : ℕ} (insn : ℕ) → Counts insn unit → Shifted insn unit
unfolding is_add_immediate pageoff_load_store_shift is_simd_fp_pageoff simd_fp_pageoff_shift
Counts-Shifted insn c = elim c as (λ k _. Shifted insn k) [
  | add_w x y ↦ add_shift insn (omega arith)
  | add_x x y ↦ add_shift insn (omega arith)
  | access_8 x ↦ access_shift insn 1 0 (omega arith) refl (ground arith) (ground arith)
  | access_16 x ↦ access_shift insn 2 1 (omega arith) refl (ground arith) (ground arith)
  | access_32 x ↦ access_shift insn 4 2 (omega arith) refl (ground arith) (ground arith)
  | access_64 x ↦ access_shift insn 8 3 (omega arith) refl (ground arith) (ground arith)
  | vector_b x y ↦ access_shift insn 1 0 (omega arith) refl (ground arith) (ground arith)
  | vector_h x y ↦ access_shift insn 2 1 (omega arith) refl (ground arith) (ground arith)
  | vector_s x y ↦ access_shift insn 4 2 (omega arith) refl (ground arith) (ground arith)
  | vector_d x y ↦ access_shift insn 8 3 (omega arith) refl (ground arith) (ground arith)
  | vector_q x y ↦ access_shift insn 16 4 (omega arith) refl (ground arith) (ground arith)
]

with_imm12_lem :
    (insn imm : ℕ)
    → insn < 2 ^ 32
    → imm < 2 ^ 12
    → (with_imm12 insn imm < 2 ^ 32)
      × (with_imm12 insn imm / 2 ^ 10 % 2 ^ 12 ≡ imm)
      × Fields (with_imm12 insn imm) insn
with_imm12_lem insn imm h k = (omega arith, omega arith, (omega arith, omega arith))

exact : (p s : ℕ) → s ≤ 4 → p % 2 ^ s ≡ 0 → p / 2 ^ s * 2 ^ s ≡ p
exact p s h e = omega (arith, mod-eq-sub-div-mul p (2 ^ s), div-mul-le_self p (2 ^ s))

small : (p s : ℕ) → p < 2 ^ 12 → p / 2 ^ s ≤ 0xfff
small p s h = omega (arith, div-le_self p (2 ^ s))

-- The immediate for a page offset, and the refusal of one that is no multiple of the unit.
pageoff_imm_lem :
    (insn unit p : ℕ) (h : Shifted insn unit)
    → p % unit ≡ 0
    → pageoff_imm insn p ≡ ok (p / 2 ^ h.shift)
unfolding pageoff_imm
pageoff_imm_lem insn unit p h scaled = elim h.code [
  | inl (a, none) ↦ let one : p / 2 ^ 0 ≡ p = omega arith in rw (a, none, one) refl
  | inr (n, s) ↦
      let test : (p % 2 ^ h.shift == 0) ≡ true = (==_iff _ _).1 (rw h.unit_is scaled) in
      rw (n, s, test) refl
]

pageoff_imm-refuses :
    (insn unit p : ℕ)
    → Shifted insn unit
    → p % unit ≢ 0
    → pageoff_imm insn p ≡ err (unscaled_pageoff p)
unfolding pageoff_imm
pageoff_imm-refuses insn unit p h apart = elim h.code [
  | inl (a, none) ↦
      let one : unit ≡ 1 = sym h.unit_is ∙ (rw none refl) in absurd (apart (rw one (omega arith)))
  | inr (n, s) ↦
      let test : (p % 2 ^ h.shift == 0) ≡ false = rw h.unit_is (ground (arith, apart)) in
      rw (n, s, test) refl
]

le→leb : (a b : ℕ) → a ≤ b → leb a b ≡ true
le→leb a b h = ground arith

abbrev pub GivesOffset : ℕ → Bytes → ℕ → Bytes → Type 0
GivesOffset to before offset after =
    Adds (word_at after offset) (to % 2 ^ 12)
    × (word_at after offset / 2 ^ 22 ≡ word_at before offset / 2 ^ 22)
    × (word_at after offset % 2 ^ 10 ≡ word_at before offset % 2 ^ 10)
    × Untouched before offset after

module _ (bytes : Bytes) (offset : ℕ) (addend : ℤ) (target : ℕ) where
  abbrev to : ℕ
  to = wrapping_add_signed target addend

  patched_gives :
      (unit : ℕ)
      → IsBytes bytes
      → offset + 4 ≤ length bytes
      → Counts (word_at bytes offset) unit
      → to % 2 ^ 12 % unit ≡ 0
      → (after : Bytes) × (patch_pageoff12 bytes offset addend target ≡ ok after)
        × GivesOffset to bytes offset after
  unfolding patch_pageoff12
  patched_gives unit h inside counts scaled =
      let p = to % 2 ^ 12 in
      let insn = word_at bytes offset in
      let s = Counts-Shifted insn counts in
      let imm = p / 2 ^ s.shift in
      let bound : p < 2 ^ 12 = omega arith in
      let fits = small p s.shift bound in
      let (word, field_is, (above, below)) =
        with_imm12_lem insn imm (word_at-lt bytes offset inside h) (omega (arith, fits)) in
      let there = word_at-patched bytes offset inside (with_imm12 insn imm) word in
      let whole : imm * 2 ^ s.shift ≡ p = exact p s.shift s.small (rw s.unit_is scaled) in
      rw
        (
          read_inside bytes offset inside,
          pageoff_imm_lem insn unit p s scaled,
          le→leb imm 0xfff fits,
          write_inside bytes offset inside (with_imm12 insn imm),
        )
        (
          patched bytes offset (with_imm12 insn imm),
          refl,
          (
            rw there (record {
              unit = unit;
              counts = Counts-same (with_imm12 insn imm) insn above counts;
              offset_is = rw field_is (subst (λ u. imm * u ≡ p) s.unit_is whole);
            }),
            rw there above,
            rw there below,
            patched-Untouched bytes offset inside (with_imm12 insn imm),
          ),
        )

  patched_refuses :
      (unit : ℕ)
      → offset + 4 ≤ length bytes
      → Counts (word_at bytes offset) unit
      → to % 2 ^ 12 % unit ≢ 0
      → patch_pageoff12 bytes offset addend target ≡ err (unscaled_pageoff (to % 2 ^ 12))
  unfolding patch_pageoff12
  patched_refuses unit inside counts apart =
      rw
        (
          read_inside bytes offset inside,
          pageoff_imm-refuses (word_at bytes offset) unit (to % 2 ^ 12)
              (Counts-Shifted (word_at bytes offset) counts) apart,
        )
        refl

  -- On an `add` with an unshifted immediate, or a load or store with a 12-bit field, that lies inside the bytes:
  -- when the page offset of target plus addend is a multiple of the unit of the instruction, one byte for an
  -- `add` and the size of the access (1 to 16 bytes) for the others, `patch_pageoff12` succeeds, and the
  -- instruction then adds exactly that offset, its other fields kept and no other byte changed; when it is
  -- not, the patch is refused.
  pub patch_pageoff12-GivesOffset :
      (unit : ℕ)
      → IsBytes bytes
      → offset + 4 ≤ length bytes
      → Counts (word_at bytes offset) unit
      → ((to % 2 ^ 12 % unit ≡ 0)
          × ((after : Bytes) × (patch_pageoff12 bytes offset addend target ≡ ok after)
              × GivesOffset to bytes offset after))
        ⊎ ((to % 2 ^ 12 % unit ≢ 0)
            × (patch_pageoff12 bytes offset addend target ≡ err (unscaled_pageoff (to % 2 ^ 12))))
  patch_pageoff12-GivesOffset unit h inside counts = elim (Bool-cases (to % 2 ^ 12 % unit == 0)) [
    | inl scaled ↦
        let scaled : to % 2 ^ 12 % unit ≡ 0 = (==_iff _ 0).0 scaled in
        inl (scaled, patched_gives unit h inside counts scaled)
    | inr apart ↦
        let apart : to % 2 ^ 12 % unit ≢ 0 = ground (arith, apart) in
        inr (apart, patched_refuses unit inside counts apart)
  ]
