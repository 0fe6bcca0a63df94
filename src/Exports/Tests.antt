-- ===== src/Exports/Tests.antt =====
-- Runs of the export trie: a root with the edges "_a" and "_b" to two leaves.
use afs_ld.Prelude.{◌≡◌, ◌↔◌, refl, true, [], ◌∷◌, some, none, ok, Any}
use afs_ld.Prelude.Bytes.{Bytes, codes, is_ascii}
use afs_ld.Exports.{ExportEntry, regular, absolute, trie, entries, lookup, weak_def}
use afs_ld.Exports.Path.{Exported}
use afs_ld.Exports.Find.{entries_iff, lookup-Exported, lookup-entries}

-- No terminal, two children at 10 and 15; a regular export at 0x80, weak; an absolute one at 7.
abbrev two_leaves : Bytes
two_leaves = 0 ∷ 2 ∷ 95 ∷ 97 ∷ 0 ∷ 10 ∷ 95 ∷ 98 ∷ 0 ∷ 15 ∷ 3 ∷ 4 ∷ 128 ∷ 1 ∷ 0 ∷ 2 ∷ 2 ∷ 7 ∷ 0 ∷ []

abbrev export_a : ExportEntry
export_a = record { name = codes "_a"; flags = 4; kind = regular 128 }

abbrev export_b : ExportEntry
export_b = record { name = codes "_b"; flags = 2; kind = absolute 7 }

two_listed : entries is_ascii (trie two_leaves) ≡ ok (export_a ∷ export_b ∷ [])
unfolding entries
two_listed = refl

b_found : lookup is_ascii (trie two_leaves) (codes "_b") ≡ ok (some (record export_b { name = [] }))
unfolding lookup
b_found = refl

c_missing : lookup is_ascii (trie two_leaves) (codes "_c") ≡ ok none
unfolding lookup
c_missing = refl

a_weak : weak_def export_a ≡ true
unfolding weak_def
a_weak = refl

entries_iff_example :
    Any (λ x. x ≡ export_b) (export_a ∷ export_b ∷ []) ↔ Exported is_ascii two_leaves export_b
entries_iff_example = entries_iff is_ascii two_leaves (export_a ∷ export_b ∷ []) export_b two_listed

lookup-Exported_example : Exported is_ascii two_leaves export_b
lookup-Exported_example =
    lookup-Exported is_ascii two_leaves (codes "_b") (record export_b { name = [] }) b_found

lookup-entries_example : Any (λ x. x ≡ export_b) (export_a ∷ export_b ∷ [])
lookup-entries_example =
    lookup-entries is_ascii two_leaves (codes "_b") (export_a ∷ export_b ∷ [])
      (record export_b { name = [] }) two_listed b_found
