-- ===== src/Leb/Tests.antt =====
-- Runs of the codec on the encodings that the source's own tests name.
use afs_ld.Prelude.{◌^◌, ◌<◌, ◌≤◌, ◌≡◌, refl, [], ◌∷◌, ◌++◌, arith, ok, err, length}
use afs_ld.Prelude.Int.{negsuc}
use afs_ld.Leb.{read_uleb, read_sleb, write_uleb, write_sleb}
use afs_ld.Leb.Signed.{read_sleb-write_sleb}
use afs_ld.Leb.Unsigned.{read_uleb-write_uleb, read_uleb_bounds}
use afs_ld.Reader.{truncated}

uleb_canonical : write_uleb 624485 [] ≡ 0xe5 ∷ 0x8e ∷ 0x26 ∷ []
unfolding write_uleb
uleb_canonical = refl

uleb_reads : read_uleb (0xe5 ∷ 0x8e ∷ 0x26 ∷ 0xff ∷ []) ≡ ok (624485, 3)
unfolding read_uleb
uleb_reads = refl

sleb_canonical : write_sleb (negsuc 12344) [] ≡ 0xc7 ∷ 0x9f ∷ 0x7f ∷ []
unfolding write_sleb
sleb_canonical = refl

sleb_reads : read_sleb (0xc7 ∷ 0x9f ∷ 0x7f ∷ []) ≡ ok (negsuc 12344, 3)
unfolding read_sleb
sleb_reads = refl

unterminated : read_uleb (0x80 ∷ 0x80 ∷ 0x80 ∷ []) ≡ err (truncated 4 3 "ULEB128 (unterminated)")
unfolding read_uleb
unterminated = refl

read_uleb-write_uleb_example :
    read_uleb (write_uleb 624485 [] ++ 0xff ∷ []) ≡ ok (624485, length (write_uleb 624485 []))
read_uleb-write_uleb_example = read_uleb-write_uleb 624485 (0xff ∷ []) (omega arith)

read_uleb_bounds_example : (624485 < 2 ^ 64) × (0 < 3) × (3 ≤ 10) × (3 ≤ 4)
read_uleb_bounds_example = read_uleb_bounds (0xe5 ∷ 0x8e ∷ 0x26 ∷ 0xff ∷ []) uleb_reads

read_sleb-write_sleb_example :
    read_sleb (write_sleb (negsuc 12344) [] ++ 0xff ∷ [])
    ≡ ok (negsuc 12344, length (write_sleb (negsuc 12344) []))
read_sleb-write_sleb_example = read_sleb-write_sleb (negsuc 12344) (0xff ∷ []) (omega arith)
