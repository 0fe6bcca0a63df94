-- ===== src/Atoms/Table.antt =====
-- src/atom.rs, `AtomTable`: a handle keeps leading to its atom.
use afs_ld.Prelude.{
  ℕ, zero, suc, ◌+◌, ◌%◌, ◌^◌, ◌<◌, ◌≡◌, ◌∙◌, List, [], ◌∷◌, ◌++◌, some, length, arith, ap,
}
use afs_ld.Resolve.Lookup.{get_elem?-lt, get_elem?-append_left, get_elem?-concat_last}
use afs_ld.Atoms.{Atom, AtomTable, push, get}

get-append :
    (atoms : List Atom) (atom : Atom) (handle : ℕ) (a : Atom)
    → get (record { atoms = atoms }) handle ≡ some a
    → get (record { atoms = atoms ++ atom ∷ [] }) handle ≡ some a
unfolding get
get-append atoms atom zero a h = cc
get-append atoms atom (suc i) a h =
    get_elem?-append_left atoms (atom ∷ []) i (get_elem?-lt atoms i h) ∙ h

-- The atom that `push` stores is what `get` gives for the handle that it returns, with that handle in it,
-- and every handle that led to an atom still does. The condition is that the table has fewer than
-- 2^32 - 1 atoms.
pub push-get :
    (table : AtomTable) (atom : Atom)
    → length table.atoms + 1 < 2 ^ 32
    → let (id, after) = push table atom in
      (get after id ≡ some (record atom { id = id }))
      × ((other : ℕ) (a : Atom) → get table other ≡ some a → get after other ≡ some a)
unfolding push get
push-get table atom small =
    let e : (length table.atoms % 2 ^ 32 + 1) % 2 ^ 32 ≡ suc (length table.atoms) = omega arith in
    let id = (push table atom).0 in
    (
      ap (get (push table atom).1) e ∙ get_elem?-concat_last table.atoms (record atom { id = id }),
      get-append table.atoms (record atom { id = id }),
    )
