-- ===== src/Layout/Addresses/Chains.antt =====
-- src/layout.rs, `assign_addresses`: the sections of a segment depend only on the sections that are listed in it.
use afs_ld.Prelude.{ℕ, ◌+◌, ◌≤◌, ◌≡◌, ◌∙◌, Bool, true, false, List, [], ◌∷◌, get_elem?, All, arith}
use afs_ld.Section.{is_zerofill}
use afs_ld.Layout.{OutputSection}
use afs_ld.Layout.Addresses.Run.{VmChain, FileChain, FileStep, FileStep-imp}

module _ (sections : List OutputSection) where
  pub VmChain-le : (from to : ℕ) (ids : List ℕ) → VmChain sections from ids to → from ≤ to
  VmChain-le from to [] h = h
  VmChain-le from to (id ∷ ids) (section, _, at_least, _, rest) =
      omega (arith, VmChain-le (section.addr + section.size) to ids rest)

  pub VmChain-widen :
      (from to further : ℕ) (ids : List ℕ)
      → to ≤ further
      → VmChain sections from ids to
      → VmChain sections from ids further
  VmChain-widen from to further [] le h = omega arith
  VmChain-widen from to further (id ∷ ids) le (section, there, at_least, aligned, rest) = (
    section,
    there,
    at_least,
    aligned,
    VmChain-widen (section.addr + section.size) to further ids le rest,
  )

  pub FileChain-widen :
      (from to further : ℕ) (ids : List ℕ)
      → to ≤ further
      → FileChain sections from ids to
      → FileChain sections from ids further
  FileChain-widen from to further [] le h = omega arith
  FileChain-widen from to further (id ∷ ids) le (section, there, step) = (
    section,
    there,
    FileStep-imp (is_zerofill section.kind) section from (λ next. FileChain sections next ids to)
        (λ next. FileChain sections next ids further)
        (λ next h. FileChain-widen next to further ids le h) step,
  )

  FileStep-le :
      (zero_filled : Bool) (section : OutputSection) (from to : ℕ) (P : ℕ → Type 0)
      → ((next : ℕ) → P next → next ≤ to)
      → FileStep zero_filled section from P
      → from ≤ to
  FileStep-le true section from to P f (off, rest) = f from rest
  FileStep-le false section from to P f (at_least, aligned, rest) =
      let e = f (section.file_off + section.size) rest in omega arith

  pub FileChain-le : (from to : ℕ) (ids : List ℕ) → FileChain sections from ids to → from ≤ to
  FileChain-le from to [] h = h
  FileChain-le from to (id ∷ ids) (section, _, step) =
      FileStep-le (is_zerofill section.kind) section from to
        (λ next. FileChain sections next ids to) (λ next h. FileChain-le next to ids h) step

-- The chains look at the listed sections only.
module _ (before after : List OutputSection) where
  abbrev pub SameAt : List ℕ → Type 0
  SameAt = All (λ id. get_elem? after id ≡ get_elem? before id)

  pub VmChain-same :
      (from to : ℕ) (ids : List ℕ)
      → SameAt ids
      → VmChain before from ids to
      → VmChain after from ids to
  VmChain-same from to [] same h = h
  VmChain-same from to (id ∷ ids) (e, same) (section, there, at_least, aligned, rest) = (
    section,
    e ∙ there,
    at_least,
    aligned,
    VmChain-same (section.addr + section.size) to ids same rest,
  )

  pub FileChain-same :
      (from to : ℕ) (ids : List ℕ)
      → SameAt ids
      → FileChain before from ids to
      → FileChain after from ids to
  FileChain-same from to [] same h = h
  FileChain-same from to (id ∷ ids) (e, same) (section, there, step) = (
    section,
    e ∙ there,
    FileStep-imp (is_zerofill section.kind) section from (λ next. FileChain before next ids to)
        (λ next. FileChain after next ids to) (λ next h. FileChain-same next to ids same h) step,
  )
