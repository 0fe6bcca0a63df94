-- ===== src/Exports/Find.antt =====
-- src/macho/exports.rs, `entries` and `lookup`: both answer by what the trie exports.
use afs_ld.Prelude.{
  ℕ, zero, suc, ◌+◌, ◌≡◌, ◌↔◌, sym, ap, ◌∙◌, subst, Bool, true, List, [], ◌∷◌, ◌++◌, some, ok,
  >>=-eq-ok, ensure-eq-ok, ok-injective, length, take, drop, take-append-drop, ltb, leb, ltb→lt,
  All, Any, All-Any, drop-nil, Bool-cases, inl, inr,
}
use afs_ld.Prelude.Bytes.{Bytes, byte_at, same_bytes→≡}
use afs_ld.Exports.{
  ExportEntry, trie, Descend, nothing_walked, starts_with, read_terminal, terminal_bounds,
  read_uleb_at, skip_terminal, read_child, lookup_children, lookup_node, lookup_trie, walk, entries,
  lookup, max_depth,
}
use afs_ld.Exports.Path.{Listed, here, later, Leads, stop, down, Exported, read_terminal-rename}
use afs_ld.Exports.Walk.{walk-Finds, walk-Sound}
use afs_ld.Leb.{read_uleb}

-- An empty trie exports nothing.
nothing-Exported : (is_utf8 : Bytes → Bool) (e : ExportEntry) → ¬ Exported is_utf8 [] e
unfolding read_terminal terminal_bounds read_uleb_at read_uleb
nothing-Exported is_utf8 e (target, _, h) =
    let (bounds, h1, _) = >>=-eq-ok (terminal_bounds [] target) _ h in
    let (_, h2, _) = >>=-eq-ok (read_uleb_at [] target) _ h1 in
    let (_, h3) = ensure-eq-ok (leb target 0) _ _ h2 in
    let at : drop {A = ℕ} target [] ≡ [] = drop-nil target in absurd (cc (rw at at h3))

-- Where `entries` succeeds on a trie, it lists exactly the entries that the trie exports: those whose name
-- leads from the root, edge by edge, to a node with that terminal.
pub entries_iff :
    (is_utf8 : Bytes → Bool) (bytes : Bytes) (out : List ExportEntry) (e : ExportEntry)
    → entries is_utf8 (trie bytes) ≡ ok out
    → Any (λ x. x ≡ e) out ↔ Exported is_utf8 bytes e
unfolding entries
entries_iff is_utf8 [] out e h =
    let same : [] ≡ out = ok-injective h in
    (λ m. elim (rw (sym same) at m) [ ], λ x. absurd (nothing-Exported is_utf8 e x))
entries_iff is_utf8 (b ∷ bytes) out e h =
    let (walked, h1, h2) =
      >>=-eq-ok (walk is_utf8 (b ∷ bytes) (max_depth + 1) 0 [] nothing_walked) _ h in
    let same : walked.out ≡ out = ok-injective h2 in
    (
      λ m.
          All-Any (Exported is_utf8 (b ∷ bytes)) out e
            (subst (All (Exported is_utf8 (b ∷ bytes))) same (
              walk-Sound is_utf8 (b ∷ bytes) (max_depth + 1) 0 [] nothing_walked walked h1 stop tt))
            m,
      λ x. subst (Any (λ y. y ≡ e)) same (
          walk-Finds is_utf8 (b ∷ bytes) e (max_depth + 1) 0 (x.0) [] e.name nothing_walked walked
            h1 (x.1) (x.2)),
    )

starts_with-splits :
    (remaining edge : Bytes)
    → starts_with remaining edge ≡ true
    → remaining ≡ edge ++ drop (length edge) remaining
starts_with-splits remaining edge h = elim (Bool-cases (leb (length edge) (length remaining))) [
  | inr short ↦ absurd (cc (rw short at h))
  | inl long ↦
      sym (take-append-drop (length edge) remaining)
      ∙ ap (λ front. front ++ drop (length edge) remaining)
          (same_bytes→≡ (take (length edge) remaining) edge (rw long at h))
]

module _ (is_utf8 : Bytes → Bool) (bytes : Bytes) (e : ExportEntry) where
  -- A name leads to the terminal that is returned.
  abbrev LeadsTo : ℕ → Bytes → Type 0
  LeadsTo node name =
      (target : ℕ) × Leads is_utf8 bytes node name target
      × (read_terminal is_utf8 bytes target [] ≡ ok (some e))

  abbrev Descends : Descend → Type 0
  Descends descend =
      (node : ℕ) (remaining : Bytes) → descend node remaining ≡ ok (some e) → LeadsTo node remaining

  lookup_children-LeadsTo :
      (descend : Descend)
      → Descends descend
      → (count cursor : ℕ) (remaining : Bytes)
      → lookup_children is_utf8 bytes descend count cursor remaining ≡ ok (some e)
      → (edge : Bytes) × (child : ℕ) × Listed is_utf8 bytes count cursor edge child
        × (remaining ≡ edge ++ drop (length edge) remaining)
        × LeadsTo child (drop (length edge) remaining)
  unfolding lookup_children
  lookup_children-LeadsTo descend sound zero cursor remaining h = cc
  lookup_children-LeadsTo descend sound (suc count) cursor remaining h =
      let ((edge, child, next), e1, h1) = >>=-eq-ok (read_child is_utf8 bytes cursor) _ h in
      elim (Bool-cases (starts_with remaining edge)) [
        | inl starts ↦ (
          edge,
          child,
          here e1,
          starts_with-splits remaining edge starts,
          sound child (drop (length edge) remaining) (rw starts at h1),
        )
        | inr other ↦
            let (edge', child', listed, splits, leads) =
              lookup_children-LeadsTo descend sound count next remaining (rw other at h1) in
            (edge', child', later e1 listed, splits, leads)
      ]

  lookup_trie-LeadsTo : (levels : ℕ) → Descends (lookup_trie is_utf8 bytes levels)
  unfolding lookup_trie lookup_node
  lookup_trie-LeadsTo zero node remaining h = cc
  lookup_trie-LeadsTo (suc levels) node [] h = (node, stop, h)
  lookup_trie-LeadsTo (suc levels) node (b ∷ remaining) h =
      let (cursor, e1, h1) = >>=-eq-ok (skip_terminal bytes node) _ h in
      elim (Bool-cases (ltb cursor (length bytes))) [
        | inr outside ↦ absurd (cc (rw outside at h1))
        | inl inside ↦
            let (edge, child, listed, splits, (target, leads, found)) =
              lookup_children-LeadsTo (lookup_trie is_utf8 bytes levels)
                (lookup_trie-LeadsTo levels) (byte_at bytes cursor) (cursor + 1) (b ∷ remaining)
                (rw inside at h1) in
            let path : Leads is_utf8 bytes node (edge ++ drop (length edge) (b ∷ remaining))
                target =
              down (cursor, e1, ltb→lt cursor (length bytes) inside, listed) leads in
            (target, subst (λ name. Leads is_utf8 bytes node name target) (sym splits) path, found)
      ]

-- What `lookup` finds in a trie under a name is exported by the trie under that name.
pub lookup-Exported :
    (is_utf8 : Bytes → Bool) (bytes name : Bytes) (e : ExportEntry)
    → lookup is_utf8 (trie bytes) name ≡ ok (some e)
    → Exported is_utf8 bytes (record e { name = name })
unfolding lookup
lookup-Exported is_utf8 [] name e h = cc
lookup-Exported is_utf8 (b ∷ bytes) name e h =
    let (target, leads, found) =
      lookup_trie-LeadsTo is_utf8 (b ∷ bytes) e (max_depth + 1) 0 name h in
    (target, leads, (read_terminal-rename is_utf8 (b ∷ bytes) target [] name e found).1)

-- Where both succeed on a trie, what `lookup` finds under a name is one of the entries, with that name.
pub lookup-entries :
    (is_utf8 : Bytes → Bool) (bytes name : Bytes) (out : List ExportEntry) (e : ExportEntry)
    → entries is_utf8 (trie bytes) ≡ ok out
    → lookup is_utf8 (trie bytes) name ≡ ok (some e)
    → Any (λ x. x ≡ record e { name = name }) out
lookup-entries is_utf8 bytes name out e listed found =
    (entries_iff is_utf8 bytes out _ listed).1 (lookup-Exported is_utf8 bytes name e found)
