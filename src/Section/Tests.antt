-- ===== src/Section/Tests.antt =====
-- Runs of the section reader on a section of code and a section of zero fill.
use afs_ld.Prelude.{◌+◌, ◌*◌, ◌≡◌, refl, [], ◌∷◌, ok, arith, length}
use afs_ld.Prelude.Bytes.{Bytes, codes, slice}
use afs_ld.Section.{text, Header, InputSection, classify_section, from_header}
use afs_ld.Section.Lift.{
  ContentsInside, RelocsInside, HoldsData, kind_of, from_header_lem, from_header-inside,
}

abbrev file : Bytes
file = 1 ∷ 2 ∷ 3 ∷ 4 ∷ 5 ∷ 6 ∷ 7 ∷ 8 ∷ 9 ∷ 10 ∷ 11 ∷ 12 ∷ []

abbrev header : Header
header = record {
  sectname = codes "__text";
  segname = codes "__TEXT";
  addr = 0;
  size = 4;
  offset = 0;
  align = 2;
  reloff = 4;
  nreloc = 1;
  flags = 0x8000_0400;
  reserved1 = 0;
  reserved2 = 0;
  reserved3 = 0;
}

abbrev as_is : Bytes → Bytes
as_is bytes = bytes

code_kind : classify_section (codes "__TEXT") (codes "__text") 0x8000_0400 ≡ text
unfolding classify_section
code_kind = refl

from_header_lem_example :
    (s : InputSection) × (from_header as_is header file ≡ ok s)
    × (s.kind ≡ kind_of as_is header file)
    × HoldsData s.kind header file s.contents
    × (length s.raw_relocs ≡ 1 * 8)
    × (s.raw_relocs ≡ slice file 4 (4 + 1 * 8))
from_header_lem_example =
    from_header_lem as_is header file (λ n. (omega arith, omega arith))
      (λ n. (omega arith, omega arith))

abbrev lifted : InputSection
lifted = record {
  segname = codes "__TEXT";
  sectname = codes "__text";
  kind = text;
  header = header;
  contents = 1 ∷ 2 ∷ 3 ∷ 4 ∷ [];
  raw_relocs = 5 ∷ 6 ∷ 7 ∷ 8 ∷ 9 ∷ 10 ∷ 11 ∷ 12 ∷ [];
}

lifts : from_header as_is header file ≡ ok lifted
unfolding from_header
lifts = refl

from_header-inside_example :
    ContentsInside (kind_of as_is header file) header file × RelocsInside header file
from_header-inside_example = from_header-inside as_is header file lifted lifts
