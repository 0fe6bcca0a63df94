-- ===== src/Nlist/Wire.antt =====
-- `RawNlist::parse` and `RawNlist::write` are inverse to each other.
use afs_ld.Prelude.{
  ℕ, ◌+◌, ◌^◌, ◌≤◌, ◌<◌, ◌≡◌, refl, sym, ap, ◌∙◌, false, [], ◌++◌, append_assoc, arith, ok, length,
  take, drop, ltb,
}
use afs_ld.Nlist.{RawNlist, decode, parse, write}
use afs_ld.Prelude.Bytes.{
  Bytes, IsBytes, le_value-le_bytes, take-drop-add, le_bytes-slice, byte_at-slice,
}

-- Every field fits in its type.
pub record Fits (r : RawNlist) : Type 0 where
  pub strx : r.strx < 2 ^ 32
  pub n_type : r.n_type < 2 ^ 8
  pub n_sect : r.n_sect < 2 ^ 8
  pub n_desc : r.n_desc < 2 ^ 16
  pub n_value : r.n_value < 2 ^ 64

decode-write : (r : RawNlist) (rest : Bytes) → Fits r → decode (write r [] ++ rest) ≡ r
unfolding write
decode-write r rest f = λ i. record {
  strx = le_value-le_bytes 4 r.strx (omega (arith, f.strx)) i;
  n_type = r.n_type;
  n_sect = r.n_sect;
  n_desc = le_value-le_bytes 2 r.n_desc (omega (arith, f.n_desc)) i;
  n_value = le_value-le_bytes 8 r.n_value (omega (arith, f.n_value)) i;
}

pub length-write : (r : RawNlist) (rest : Bytes) → length (write r [] ++ rest) ≡ 16 + length rest
unfolding write
length-write r rest = omega arith

long_enough : (n : ℕ) → 16 ≤ n → ltb n 16 ≡ false
long_enough n h = ground arith

-- A record whose fields fit is read back from the bytes that are written for it.
pub parse-write_nlist : (r : RawNlist) (rest : Bytes) → Fits r → parse (write r [] ++ rest) ≡ ok r
unfolding parse
parse-write_nlist r rest f =
    rw (long_enough (length (write r [] ++ rest)) (omega (arith, length-write r rest)))
      (ap ok (decode-write r rest f))

-- Writing after some bytes appends to them.
pub write-append : (r : RawNlist) (out : Bytes) → write r out ≡ out ++ write r []
unfolding write
write-append r out = simp (append_assoc) refl

-- The sixteen bytes that a record is read from are written for it again.
pub write-decode : (bs : Bytes) → IsBytes bs → 16 ≤ length bs → write (decode bs) [] ≡ take 16 bs
unfolding write
write-decode bs h n =
    let strx = le_bytes-slice bs 0 4 h (omega arith) in
    let ty = byte_at-slice bs 4 (omega arith) in
    let sect = byte_at-slice bs 5 (omega arith) in
    let desc = le_bytes-slice bs 6 2 h (omega arith) in
    let val = le_bytes-slice bs 8 8 h (omega arith) in
    let joined : take 16 bs
        ≡ take 4 (drop 0 bs)
          ++ (take 1 (drop 4 bs)
              ++ (take 1 (drop 5 bs) ++ (take 2 (drop 6 bs) ++ take 8 (drop 8 bs)))) =
      take-drop-add 0 4 12 bs
      ∙ ap (λ x. take 4 bs ++ x)
          (take-drop-add 4 1 11 bs
            ∙ ap (λ x. take 1 (drop 4 bs) ++ x)
                (take-drop-add 5 1 10 bs
                  ∙ ap (λ x. take 1 (drop 5 bs) ++ x) (take-drop-add 6 2 8 bs))) in
    (λ i. strx i ++ (ty i ++ (sect i ++ (desc i ++ val i)))) ∙ sym joined
