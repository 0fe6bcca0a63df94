-- ===== src/Exports/Path.antt =====
-- src/macho/exports.rs: what a trie says, with no order of search in it: a name leads to a node along the
-- edges, and the node may have a terminal.
use afs_ld.Prelude.{
  ℕ, suc, ◌+◌, ◌<◌, ◌≡◌, sym, ap, ◌∙◌, subst, Bool, [], ◌++◌, append-nil, append_assoc, Option,
  some, ok, >>=-eq-ok, ok-injective, length, ◌==◌, Bool-cases, inl, inr, ◌⊎◌,
}
use afs_ld.Prelude.Bytes.{Bytes, byte_at}
use afs_ld.Reader.{Read}
use afs_ld.Exports.{
  ExportEntry, read_payload, terminal_bounds, read_terminal, skip_terminal, read_child,
}

module _ (is_utf8 : Bytes → Bool) (bytes : Bytes) where
  -- One of `count` records from `cursor` on has this edge to this child.
  pub data Listed : ℕ → ℕ → Bytes → ℕ → Type 0 where
    here :
        {count cursor child next : ℕ} {edge : Bytes}
        → read_child is_utf8 bytes cursor ≡ ok (edge, child, next)
        → Listed (suc count) cursor edge child
    later :
        {count cursor child other next : ℕ} {edge skipped : Bytes}
        → read_child is_utf8 bytes cursor ≡ ok (skipped, other, next)
        → Listed count next edge child
        → Listed (suc count) cursor edge child

  pub Listed-suc :
      {count cursor child other next : ℕ} {edge first : Bytes}
      → read_child is_utf8 bytes cursor ≡ ok (first, other, next)
      → Listed (suc count) cursor edge child
      → (edge ≡ first) × (child ≡ other) ⊎ Listed count next edge child
  Listed-suc e (here e') =
      let same = ok-injective (sym e' ∙ e) in inl (ap (λ x. x.0) same, ap (λ x. x.1) same)
  Listed-suc {count} {child} {edge} e (later e' listed) =
      let same = ok-injective (sym e' ∙ e) in
      inr (subst (λ n. Listed count n edge child) (ap (λ x. x.2) same) listed)

  -- A node has an edge to a child.
  abbrev pub Child : ℕ → Bytes → ℕ → Type 0
  Child node edge child =
      (cursor : ℕ) × (skip_terminal bytes node ≡ ok cursor)
      × (cursor < length bytes)
      × Listed (byte_at bytes cursor) (cursor + 1) edge child

  -- The edges from one node to another spell a name.
  pub data Leads : ℕ → Bytes → ℕ → Type 0 where
    stop : {node : ℕ} → Leads node [] node
    down :
        {node child target : ℕ} {edge suffix : Bytes}
        → Child node edge child
        → Leads child suffix target
        → Leads node (edge ++ suffix) target

  -- The trie exports an entry: its name leads from the root to a node that has it as its terminal.
  abbrev pub Exported : ExportEntry → Type 0
  Exported e =
      (target : ℕ) × Leads 0 e.name target
      × (read_terminal is_utf8 bytes target e.name ≡ ok (some e))

  pub Leads-snoc :
      {node middle child : ℕ} {prefix edge : Bytes}
      → Leads node prefix middle
      → Child middle edge child
      → Leads node (prefix ++ edge) child
  Leads-snoc {node} {child} {edge} stop c =
      subst (λ name. Leads node name child) (append-nil edge) (down c stop)
  Leads-snoc {node} {child} {edge} (down {edge = first} {suffix} c rest) last =
      subst (λ name. Leads node name child) (sym (append_assoc first suffix edge))
        (down c (Leads-snoc rest last))

  -- A terminal takes its name from the caller, and nothing else of it depends on that.
  pub read_terminal-rename :
      (node : ℕ) (name other : Bytes) (e : ExportEntry)
      → read_terminal is_utf8 bytes node name ≡ ok (some e)
      → (e.name ≡ name)
        × (read_terminal is_utf8 bytes node other ≡ ok (some (record e { name = other })))
  unfolding read_terminal
  read_terminal-rename node name other e h =
      let (bounds, e1, h1) = >>=-eq-ok (terminal_bounds bytes node) _ h in
      elim (Bool-cases (bounds.0 == bounds.1)) [
        | inl none_there ↦ absurd (cc (rw none_there at h1))
        | inr payload_there ↦
            let (p, e2, h2) =
              >>=-eq-ok (read_payload is_utf8 bytes bounds.0 bounds.1) _ (rw payload_there at h1) in
            let same : record { name = name; flags = p.0; kind = p.1 } ≡ e = cc h2 in
            let renamed : ExportEntry → Read (Option ExportEntry) =
              λ x. ok (some (record x { name = other })) in
            (ap (λ x. x.name) (sym same), rw (e1, payload_there, e2) (ap renamed same))
      ]
