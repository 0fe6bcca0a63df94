-- ===== src/Nlist/Table.antt =====
-- `parse_nlist_table` and `write_nlist_table`: the table keeps the bytes it was read from.
use afs_ld.Prelude.{
  ℕ, zero, suc, ◌+◌, ◌-◌, ◌*◌, ◌^◌, ◌≤◌, ◌≡◌, refl, sym, ap, ap₂, ◌∙◌, subst, List, [], ◌∷◌, ◌++◌,
  append-nil, append_assoc, arith, ok, >>=-eq-ok, ok-injective, length, take, drop, ltb, Bool-cases,
  inl, inr,
}
use afs_ld.Nlist.{
  RawNlist, InputSymbol, decode, parse, write, parse_records, parse_nlist_table, write_nlist_table,
}
use afs_ld.Nlist.Wire.{write-append, write-decode}
use afs_ld.Prelude.Bytes.{
  Bytes, slice, IsBytes, IsBytes-drop, IsBytes-take, take-drop-add, take_idem,
}

parse-decode : (bs : Bytes) (r : RawNlist) → parse bs ≡ ok r → (decode bs ≡ r) × (16 ≤ length bs)
unfolding parse
parse-decode bs r h = elim (Bool-cases (ltb (length bs) 16)) [
  | inl short ↦ absurd (cc (rw short at h))
  | inr long ↦ (ok-injective (rw long at h), ground arith)
]

table-append :
    (ss : List InputSymbol) (out : Bytes)
    → write_nlist_table ss out ≡ out ++ write_nlist_table ss []
unfolding write_nlist_table
table-append [] out = sym (append-nil out)
table-append (s ∷ ss) out =
    table-append ss (write s.raw out)
    ∙ ap (λ o. o ++ write_nlist_table ss []) (write-append s.raw out)
    ∙ append_assoc out _ _
    ∙ ap (λ o. out ++ o) (sym (table-append ss (write s.raw [])))

record_bytes :
    (file : Bytes) (off : ℕ) (raw : RawNlist)
    → IsBytes file
    → parse (slice file off (off + 16)) ≡ ok raw
    → write raw [] ≡ take 16 (drop off file)
record_bytes file off raw h e =
    let width : off + 16 - off ≡ 16 = omega arith in
    let e' : parse (take 16 (drop off file)) ≡ ok raw = rw width at e in
    let (d, n) = parse-decode (take 16 (drop off file)) raw e' in
    let bytes = IsBytes-take 16 (drop off file) (IsBytes-drop off file h) in
    ap (λ r. write r []) (sym d)
    ∙ write-decode (take 16 (drop off file)) bytes n
    ∙ take_idem 16 (drop off file)

records_bytes :
    (file : Bytes) (n off : ℕ) (ss : List InputSymbol)
    → IsBytes file
    → parse_records file off n ≡ ok ss
    → (write_nlist_table ss [] ≡ take (n * 16) (drop off file)) × (length ss ≡ n)
unfolding parse_records write_nlist_table
records_bytes file zero off ss h e =
    subst (λ ss. (write_nlist_table ss [] ≡ take (0 * 16) (drop off file)) × (length ss ≡ 0))
      (ok-injective e) (refl, refl)
records_bytes file (suc n) off ss h e =
    let (raw, p, e1) = >>=-eq-ok (parse (slice file off (off + 16))) _ e in
    let (rest, q, e2) = >>=-eq-ok (parse_records file (off + 16) n) _ e1 in
    let (bytes, len) = records_bytes file n (off + 16) rest h q in
    let count : suc n * 16 ≡ 16 + n * 16 = omega arith in
    subst
      (λ ss. (write_nlist_table ss [] ≡ take (suc n * 16) (drop off file)) × (length ss ≡ suc n))
      (ok-injective e2)
      (
        table-append rest (write raw [])
            ∙ ap₂ (λ x y. x ++ y) (record_bytes file off raw h p) bytes
            ∙ sym (take-drop-add off 16 (n * 16) file)
            ∙ ap (λ k. take k (drop off file)) (sym count),
        ap suc len,
      )

-- A symbol table that is parsed has `nsyms` symbols, and writing them gives the bytes of the file that
-- they were read from, for a file of bytes.
pub write_nlist_table-parse_nlist_table :
    (file : Bytes) (symoff nsyms : ℕ) (ss : List InputSymbol)
    → IsBytes file
    → parse_nlist_table file symoff nsyms ≡ ok ss
    → (write_nlist_table ss [] ≡ take (nsyms * 16) (drop symoff file)) × (length ss ≡ nsyms)
unfolding parse_nlist_table
write_nlist_table-parse_nlist_table file symoff nsyms ss h e =
    elim (Bool-cases (ltb (nsyms * 16) (2 ^ 64))) [
      | inr wraps ↦ absurd (cc (rw wraps at e))
      | inl fits ↦
          let e1 = rw fits at e in
          elim (Bool-cases (ltb (symoff + nsyms * 16) (2 ^ 64))) [
            | inr wraps ↦ absurd (cc (rw wraps at e1))
            | inl fits' ↦
                let e2 = rw fits' at e1 in
                elim (Bool-cases (ltb (length file) (symoff + nsyms * 16))) [
                  | inl short ↦ absurd (cc (rw short at e2))
                  | inr long ↦ records_bytes file nsyms symoff ss h (rw long at e2)
                ]
          ]
    ]
