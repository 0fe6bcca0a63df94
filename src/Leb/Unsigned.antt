-- ===== src/Leb/Unsigned.antt =====
-- ULEB128: the writer's output as a recursion on groups of seven bits, what the reader accepts, and
-- the round trip.
use mathlib.Core.Logic.{ite, dite, if_pos, if_neg}
use mathlib.Core.WellFounded
use mathlib.Core.WellFounded.{Acc, Acc-prop}
use native.Mathlib.Nat.{pow-le-pow_right, mul_comm, mul-le-mul_right, div-add-mod}
use afs_ld.Prelude.{
  ℕ, ◌+◌, ◌-◌, ◌*◌, ◌/◌, ◌%◌, ◌^◌, ◌≤◌, ◌<◌, ◌≡◌, sym, ap, ap₂, ◌∙◌, [], ◌∷◌, ◌++◌, append_assoc,
  arith, bit_or, dec_lt, ok, length, ℕ_discrete,
}
use afs_ld.Prelude.Bits.{bit_or-lt, bit_or-disjoint, bit_or_high, pow-add}
use afs_ld.Prelude.Bytes.{Bytes}
use afs_ld.Prelude.Order.{lt_wf}
use afs_ld.Leb.{group, uleb_loop, read_uleb, write_uleb_loop, write_uleb}

loop_step :
    (v : ℕ) (w : Acc ◌<◌ v) (out : Bytes)
    → write_uleb_loop v w out
      ≡ ite
          (ℕ_discrete (v / 128) 0)
          (out ++ v % 128 ∷ [])
          (write_uleb_loop (v / 128) (lt_wf.apply (v / 128)) (out ++ bit_or (v % 128) 128 ∷ []))
unfolding write_uleb_loop
loop_step v (Acc.intro _ smaller) out = λ i.
    dite (ℕ_discrete (v / 128) 0) (λ _. out ++ v % 128 ∷ [])
      (λ more.
        write_uleb_loop (v / 128)
          (Acc-prop (smaller (v / 128) (omega arith)) (lt_wf.apply (v / 128)) i)
          (out ++ bit_or (v % 128) 128 ∷ []))

write_last : (v : ℕ) (out : Bytes) → v < 128 → write_uleb v out ≡ out ++ v ∷ []
unfolding write_uleb
write_last v out h =
    loop_step v (lt_wf.apply v) out
    ∙ if_pos (ℕ_discrete (v / 128) 0) (omega arith) _ _
    ∙ ap (λ x. out ++ x ∷ []) (omega arith)

write_more :
    (v : ℕ) (out : Bytes)
    → 128 ≤ v
    → write_uleb v out ≡ write_uleb (v / 128) (out ++ (v % 128 + 128) ∷ [])
unfolding write_uleb
write_more v out h =
    loop_step v (lt_wf.apply v) out
    ∙ if_neg (ℕ_discrete (v / 128) 0) (omega arith) _ _
    ∙ ap (λ x. write_uleb_loop (v / 128) (lt_wf.apply (v / 128)) (out ++ x ∷ []))
        (bit_or_high (v % 128) (omega arith))

-- What is written does not depend on what stands before it.
pub write_uleb-append : (v : ℕ) (out : Bytes) → write_uleb v out ≡ out ++ write_uleb v []
write_uleb-append v =
    WellFounded.induction lt_wf {C = λ n. (out : Bytes) → write_uleb n out ≡ out ++ write_uleb n []}
      v
      λ n ih out. elim (dec_lt n 128) [
        | yes h ↦ write_last n out h ∙ ap (λ x. out ++ x) (sym (write_last n [] h))
        | no h ↦
            let big : 128 ≤ n = omega arith in
            let fewer : n / 128 < n = omega arith in
            write_more n out big
            ∙ ih (n / 128) fewer (out ++ (n % 128 + 128) ∷ [])
            ∙ append_assoc out _ _
            ∙ ap (λ x. out ++ x)
                (sym (write_more n [] big ∙ ih (n / 128) fewer ((n % 128 + 128) ∷ [])))
      ]

encoded_more : (v : ℕ) → 128 ≤ v → write_uleb v [] ≡ (v % 128 + 128) ∷ write_uleb (v / 128) []
encoded_more v h = write_more v [] h ∙ write_uleb-append (v / 128) ((v % 128 + 128) ∷ [])

-- A group that fits below bit 64 loses no bits, and is added to what was read before.
pub group-fits :
    (value shift k b : ℕ)
    → value < 2 ^ shift
    → shift + k ≡ 64
    → b % 128 < 2 ^ k
    → bit_or value (group b shift) ≡ value + b % 128 * 2 ^ shift
group-fits value shift k b low e fits =
    let whole : 2 ^ k * 2 ^ shift ≡ 2 ^ 64 =
      rw mul_comm (rw (← pow-add shift k) (ap (λ n. 2 ^ n) e)) in
    let below : (b % 128 + 1) * 2 ^ shift ≤ 2 ^ k * 2 ^ shift =
      mul-le-mul_right {m = b % 128 + 1} (2 ^ shift) (omega arith) in
    let exact : b % 128 * 2 ^ shift % 2 ^ 64 ≡ b % 128 * 2 ^ shift = omega (arith, whole, below) in
    rw exact (bit_or-disjoint shift value (b % 128) low)

read_last :
    (have value shift i b : ℕ) (rest : Bytes)
    → shift < 64
    → b < 128
    → uleb_loop have value shift i (b ∷ rest) ≡ ok (bit_or value (group b shift), i + 1)
unfolding uleb_loop
read_last have value shift i b rest h small = ground arith

read_more :
    (have value shift i b : ℕ) (rest : Bytes)
    → shift < 64
    → b < 128
    → uleb_loop have value shift i ((b + 128) ∷ rest)
      ≡ uleb_loop have (bit_or value (group (b + 128) shift)) (shift + 7) (i + 1) rest
unfolding uleb_loop
read_more have value shift i b rest h small = ground arith

-- A value of more than seven bits leaves room for at least eight.
room : (k v : ℕ) → 128 ≤ v → v < 2 ^ k → 7 < k
room k v big small = elim (dec_lt 7 k) [
  | yes h ↦ h
  | no h ↦
      let p : 2 ^ k ≤ 2 ^ 7 = pow-le-pow_right (omega arith) {j = 7} (omega arith) in
      absurd (omega arith)
]

abbrev ReadsBack : ℕ → Type 0
ReadsBack v =
    (have value shift k i : ℕ) (rest : Bytes)
    → value < 2 ^ shift
    → shift + k ≡ 64
    → 0 < k
    → v < 2 ^ k
    → uleb_loop have value shift i (write_uleb v [] ++ rest)
      ≡ ok (value + v * 2 ^ shift, i + length (write_uleb v []))

reads_last : (v : ℕ) → v < 128 → ReadsBack v
reads_last v h have value shift k i rest low e pos fits =
    let same : v % 128 ≡ v = omega arith in
    rw (write_last v [] h) (
      read_last have value shift i v rest (omega arith) h
      ∙ ap (λ x. ok (x, i + 1))
          (group-fits value shift k v low e (rw same fits) ∙ ap (λ x. value + x * 2 ^ shift) same))

pub split_power : (k : ℕ) → 7 < k → 2 ^ k ≡ 2 ^ (k - 7) * 128
split_power k h = let e : k ≡ k - 7 + 7 = omega arith in ap (λ n. 2 ^ n) e ∙ pow-add (k - 7) 7

reads_more : (v : ℕ) → 128 ≤ v → ReadsBack (v / 128) → ReadsBack v
reads_more v big ih have value shift k i rest low e pos fits =
    let wide = room k v big fits in
    let cut = split_power k wide in
    let next : 2 ^ (shift + 7) ≡ 2 ^ shift * 128 = pow-add shift 7 in
    let same : (v % 128 + 128) % 128 ≡ v % 128 = omega arith in
    let small : (v % 128 + 128) % 128 < 2 ^ k = omega arith in
    let sum : value + v % 128 * 2 ^ shift + v / 128 * 2 ^ (shift + 7) ≡ value + v * 2 ^ shift =
      rw next (omega (arith, ap (λ t. t * 2 ^ shift) (div-add-mod v 128))) in
    let low' : value + v % 128 * 2 ^ shift < 2 ^ (shift + 7) =
      omega (arith, mul-le-mul_right {m = v % 128} {n = 127} (2 ^ shift) (omega arith)) in
    rw (encoded_more v big) (
      read_more have value shift i (v % 128) _ (omega arith) (omega arith)
      ∙ rw (group-fits value shift k (v % 128 + 128) low e small) (
          rw same (
            ih have (value + v % 128 * 2 ^ shift) (shift + 7) (k - 7) (i + 1) rest low'
              (omega arith) (omega arith) (omega arith)
            ∙ ap₂ (λ x y. ok (x, y)) sum (omega arith))))

reads_back : (v : ℕ) → ReadsBack v
reads_back v = WellFounded.induction lt_wf {C = ReadsBack} v λ n ih. elim (dec_lt n 128) [
  | yes h ↦ reads_last n h
  | no h ↦ reads_more n (omega arith) (ih (n / 128) (omega arith))
]

-- Every u64 is read back from what `write_uleb` appends, whatever bytes follow, with the number of
-- bytes written.
pub read_uleb-write_uleb :
    (v : ℕ) (rest : Bytes)
    → v < 2 ^ 64
    → read_uleb (write_uleb v [] ++ rest) ≡ ok (v, length (write_uleb v []))
unfolding read_uleb
read_uleb-write_uleb v rest h =
    reads_back v _ 0 0 64 0 rest (omega arith) (omega arith) (omega arith) h
    ∙ ap₂ (λ x y. ok (x, y)) (omega arith) (omega arith)

abbrev InRange : ℕ → ℕ → ℕ → ℕ → Type 0
InRange i len v n = (v < 2 ^ 64) × (i < n) × (n ≤ 10) × (n ≤ i + len)

loop_bounds :
    (bs : Bytes) (have value i : ℕ) {v n : ℕ}
    → value < 2 ^ 64
    → uleb_loop have value (7 * i) i bs ≡ ok (v, n)
    → InRange i (length bs) v n
unfolding uleb_loop
loop_bounds [] have value i low h = cc
loop_bounds (b ∷ bs) have value i {v} {n} low h =
    let wide : bit_or value (group b (7 * i)) < 2 ^ 64 = bit_or-lt 64 _ _ low (omega arith) in
    let e : 7 * i + 7 ≡ 7 * (i + 1) = omega arith in
    ground (
      arith,
      wide,
      loop_bounds bs have (bit_or value (group b (7 * i))) (i + 1) {v = v} {n = n} wide,
      e,
    )

-- Whatever the input, a value that `read_uleb` returns is a u64, and it took between one and ten
-- bytes, all of them of the input.
pub read_uleb_bounds :
    (bs : Bytes) {v n : ℕ}
    → read_uleb bs ≡ ok (v, n)
    → (v < 2 ^ 64) × (0 < n) × (n ≤ 10) × (n ≤ length bs)
unfolding read_uleb
read_uleb_bounds bs h = ground (arith, loop_bounds bs (length bs) 0 0 (omega arith) h)
