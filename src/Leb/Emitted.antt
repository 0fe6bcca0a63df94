-- ===== src/Leb/Emitted.antt =====
-- The bytes that `write_sleb` emits, one at a time.
use mathlib.Core.Logic.{ite, dite, if_pos, if_neg}
use mathlib.Core.WellFounded
use mathlib.Core.WellFounded.{Acc, Acc-prop}
use afs_ld.Prelude.{
  ℕ, ◌+◌, ◌/◌, ◌<◌, ◌≡◌, ◌≢◌, sym, ap, ◌∙◌, [], ◌∷◌, ◌++◌, append_assoc, Bool, true, false, arith,
  bit_or, dec_true,
}
use afs_ld.Prelude.Bits.{bit_or_high}
use afs_ld.Prelude.Bytes.{Bytes}
use afs_ld.Prelude.Order.{lt_wf}
use afs_ld.Leb.{low_seven, sleb_done, sleb_falls, write_sleb_loop}

-- The bytes of one sign and magnitude, on an empty buffer.
abbrev pub emitted : Bool → ℕ → Bytes → Bytes
emitted negative n out = write_sleb_loop negative n (lt_wf.apply n) out

pub loop_step :
    (s : Bool) (n : ℕ) (w : Acc ◌<◌ n) (out : Bytes)
    → write_sleb_loop s n w out
      ≡ ite
          (dec_true (sleb_done s n))
          (out ++ low_seven s n ∷ [])
          (emitted s (n / 128) (out ++ bit_or (low_seven s n) 128 ∷ []))
unfolding write_sleb_loop
loop_step s n (Acc.intro _ smaller) out = λ i.
    dite (dec_true (sleb_done s n)) (λ _. out ++ low_seven s n ∷ [])
      (λ more.
        write_sleb_loop s (n / 128)
          (Acc-prop (smaller (n / 128) (sleb_falls s n more)) (lt_wf.apply (n / 128)) i)
          (out ++ bit_or (low_seven s n) 128 ∷ []))

pub low_seven-lt : (s : Bool) (n : ℕ) → low_seven s n < 128
low_seven-lt true n = omega arith
low_seven-lt false n = omega arith

pub emit_last :
    (s : Bool) (n : ℕ) (out : Bytes)
    → sleb_done s n ≡ true
    → emitted s n out ≡ out ++ low_seven s n ∷ []
emit_last s n out h = loop_step s n (lt_wf.apply n) out ∙ if_pos (dec_true (sleb_done s n)) h _ _

emit_more :
    (s : Bool) (n : ℕ) (out : Bytes)
    → sleb_done s n ≢ true
    → emitted s n out ≡ emitted s (n / 128) (out ++ (low_seven s n + 128) ∷ [])
emit_more s n out h =
    loop_step s n (lt_wf.apply n) out
    ∙ if_neg (dec_true (sleb_done s n)) h _ _
    ∙ ap (λ x. emitted s (n / 128) (out ++ x ∷ [])) (bit_or_high (low_seven s n) (low_seven-lt s n))

emitted-append : (s : Bool) (n : ℕ) (out : Bytes) → emitted s n out ≡ out ++ emitted s n []
emitted-append s v =
    WellFounded.induction lt_wf {C = λ n. (out : Bytes) → emitted s n out ≡ out ++ emitted s n []} v
      λ n ih out. elim (dec_true (sleb_done s n)) [
        | yes h ↦ emit_last s n out h ∙ ap (λ x. out ++ x) (sym (emit_last s n [] h))
        | no h ↦
            let fewer = sleb_falls s n h in
            let c = low_seven s n + 128 in
            emit_more s n out h
            ∙ ih (n / 128) fewer (out ++ c ∷ [])
            ∙ append_assoc out _ _
            ∙ ap (λ x. out ++ x) (sym (emit_more s n [] h ∙ ih (n / 128) fewer (c ∷ [])))
      ]

pub emitted_more :
    (s : Bool) (n : ℕ)
    → sleb_done s n ≢ true
    → emitted s n [] ≡ (low_seven s n + 128) ∷ emitted s (n / 128) []
emitted_more s n h = emit_more s n [] h ∙ emitted-append s (n / 128) ((low_seven s n + 128) ∷ [])
