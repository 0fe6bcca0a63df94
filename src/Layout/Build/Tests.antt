-- ===== src/Layout/Build/Tests.antt =====
-- src/layout.rs: the layout of nothing, from start to end.
use afs_ld.Prelude.{ℕ, ◌≡◌, refl, List, [], ◌∷◌, none, map, Result}
use afs_ld.Prelude.Bytes.{Bytes, codes}
use afs_ld.Layout.{Layout, Panics, executable}
use afs_ld.Layout.Build.{build_with_synthetics_and_extra_filtered}

abbrev places : Panics Layout → List (Bytes × ℕ × ℕ)
places (Result.ok layout) = map (λ s. (s.name, s.vm_addr, s.vm_size)) layout.segments
places (Result.err message) = []

-- An executable of nothing but its header.
empty_layout :
    places (
      build_with_synthetics_and_extra_filtered executable []
        (record { atoms = [] })
        0x200
        []
        none
        []
        [])
    ≡ (codes "__PAGEZERO", 0, 0x1_0000_0000)
      ∷ (codes "__TEXT", 0x1_0000_0000, 0x4000)
      ∷ (codes "__LINKEDIT", 0x1_0000_4000, 0)
      ∷ []
unfolding build_with_synthetics_and_extra_filtered
empty_layout = refl
