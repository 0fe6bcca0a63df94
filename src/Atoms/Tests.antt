-- ===== src/Atoms/Tests.antt =====
-- Runs of the atom table.
use afs_ld.Prelude.{ℕ, ◌≡◌, refl, [], ◌∷◌, none, some, arith}
use afs_ld.Atoms.{Atom, AtomTable, text, push, get, iter}
use afs_ld.Atoms.Table.{push-get}

abbrev atom : ℕ → Atom
atom id = record {
  id = id;
  origin = 1;
  input_section = 1;
  section = text;
  input_offset = 0;
  size = 4;
  align_pow2 = 2;
  owner = none;
  alt_entries = [];
  content = 1 ∷ 2 ∷ 3 ∷ 4 ∷ [];
  flags = 0;
  parent_of = none;
}

abbrev one_atom : AtomTable
one_atom = record { atoms = atom 1 ∷ [] }

two_handles : iter (push one_atom (atom 0)).1 ≡ (1, atom 1) ∷ (2, atom 2) ∷ []
unfolding iter push
two_handles = refl

push-get_example :
    let (id, after) = push one_atom (atom 0) in
    (get after id ≡ some (record (atom 0) { id = id }))
    × ((other : ℕ) (a : Atom) → get one_atom other ≡ some a → get after other ≡ some a)
push-get_example = push-get one_atom (atom 0) (omega arith)
