-- ===== src/Exports/Walk.antt =====
-- src/macho/exports.rs, `walk`: it lists what the trie exports.
use afs_ld.Prelude.{
  ℕ, zero, suc, ◌+◌, ◌<◌, ◌≡◌, refl, sym, ap, ◌∙◌, subst, Bool, not, List, [], ◌∷◌, ◌++◌,
  append-nil, append_assoc, Option, none, some, ok, >>=-eq-ok, ensure-eq-ok, ok-injective, length,
  ltb, ltb→lt, All, Any, All-append, inl, inr,
}
use afs_ld.Prelude.Bytes.{Bytes, byte_at, contains}
use afs_ld.Exports.{
  ExportEntry, Walked, Visit, push, read_terminal, skip_terminal, read_child, walk_children,
  walk_node, walk,
}
use afs_ld.Exports.Path.{
  Listed, here, later, Listed-suc, Leads, stop, down, Exported, Leads-snoc, read_terminal-rename,
}

Any-append_left :
    (P : ExportEntry → Type 0) (xs ys : List ExportEntry) → Any P xs → Any P (xs ++ ys)
Any-append_left P [] ys h = elim h [ ]
Any-append_left P (x ∷ xs) ys (inl h) = inl h
Any-append_left P (x ∷ xs) ys (inr h) = inr (Any-append_left P xs ys h)

Any-concat :
    (P : ExportEntry → Type 0) (xs : List ExportEntry) (x : ExportEntry)
    → P x
    → Any P (xs ++ x ∷ [])
Any-concat P [] x h = inl h
Any-concat P (y ∷ xs) x h = inr (Any-concat P xs x h)

module _ (is_utf8 : Bytes → Bool) (bytes : Bytes) where
  -- What a successful step of the loop did.
  record ChildStep (visit : Visit) (count cursor : ℕ) (accumulated : Bytes) (before after : Walked)
      : Type 0 where
    edge : Bytes
    child : ℕ
    next : ℕ
    middle : Walked
    record_there : read_child is_utf8 bytes cursor ≡ ok (edge, child, next)
    visited : visit child (accumulated ++ edge) before ≡ ok middle
    rest : walk_children is_utf8 bytes visit count next accumulated middle ≡ ok after

  walk_children-suc :
      (visit : Visit) (count cursor : ℕ) (accumulated : Bytes) (before after : Walked)
      → walk_children is_utf8 bytes visit (suc count) cursor accumulated before ≡ ok after
      → ChildStep visit count cursor accumulated before after
  unfolding walk_children
  walk_children-suc visit count cursor accumulated before after h =
      let ((edge, child, next), e1, h1) = >>=-eq-ok (read_child is_utf8 bytes cursor) _ h in
      let (_, h2) = ensure-eq-ok (ltb child (length bytes)) _ _ h1 in
      let (middle, e2, h3) = >>=-eq-ok (visit child (accumulated ++ edge) before) _ h2 in
      record {
        edge = edge;
        child = child;
        next = next;
        middle = middle;
        record_there = e1;
        visited = e2;
        rest = h3;
      }

  -- What a successful visit of a node did.
  record NodeStep (visit : Visit) (node : ℕ) (accumulated : Bytes) (before after : Walked)
      : Type 0 where
    entry : Option ExportEntry
    cursor : ℕ
    terminal : read_terminal is_utf8 bytes node accumulated ≡ ok entry
    skipped : skip_terminal bytes node ≡ ok cursor
    inside : cursor < length bytes
    rest :
        walk_children is_utf8 bytes visit
          (byte_at bytes cursor)
          (cursor + 1)
          accumulated
          (record { out = push entry before.out; visited = node ∷ before.visited })
        ≡ ok after

  walk_node-ok :
      (visit : Visit) (node : ℕ) (accumulated : Bytes) (before after : Walked)
      → walk_node is_utf8 bytes visit node accumulated before ≡ ok after
      → NodeStep visit node accumulated before after
  unfolding walk_node
  walk_node-ok visit node accumulated before after h =
      let (_, h1) = ensure-eq-ok (not (contains before.visited node)) _ _ h in
      let (entry, e1, h2) = >>=-eq-ok (read_terminal is_utf8 bytes node accumulated) _ h1 in
      let (cursor, e2, h3) = >>=-eq-ok (skip_terminal bytes node) _ h2 in
      let (inside, h4) = ensure-eq-ok (ltb cursor (length bytes)) _ _ h3 in
      record {
        entry = entry;
        cursor = cursor;
        terminal = e1;
        skipped = e2;
        inside = ltb→lt cursor (length bytes) inside;
        rest = h4;
      }

Any-push :
    (P : ExportEntry → Type 0) (entry : Option ExportEntry) (out : List ExportEntry)
    → Any P out
    → Any P (push entry out)
Any-push P none out h = h
Any-push P (some e) out h = Any-append_left P out (e ∷ []) h

-- Nothing that was found is lost.
module _ (is_utf8 : Bytes → Bool) (bytes : Bytes) (P : ExportEntry → Type 0) where
  abbrev Keeps : Visit → Type 0
  Keeps visit =
      (node : ℕ) (accumulated : Bytes) (before after : Walked)
      → visit node accumulated before ≡ ok after
      → Any P before.out
      → Any P after.out

  walk_children-Keeps :
      (visit : Visit)
      → Keeps visit
      → (count cursor : ℕ) (accumulated : Bytes) (before after : Walked)
      → walk_children is_utf8 bytes visit count cursor accumulated before ≡ ok after
      → Any P before.out
      → Any P after.out
  unfolding walk_children
  walk_children-Keeps visit keeps zero cursor accumulated before after h p =
      subst (λ w. Any P (w.out)) (ok-injective h) p
  walk_children-Keeps visit keeps (suc count) cursor accumulated before after h p =
      let s = walk_children-suc is_utf8 bytes visit count cursor accumulated before after h in
      walk_children-Keeps visit keeps count s.next accumulated s.middle after s.rest
        (keeps s.child (accumulated ++ s.edge) before s.middle s.visited p)

  walk-Keeps : (levels : ℕ) → Keeps (walk is_utf8 bytes levels)
  unfolding walk
  walk-Keeps zero node accumulated before after h p = cc
  walk-Keeps (suc levels) node accumulated before after h p =
      let visit = walk is_utf8 bytes levels in
      let s = walk_node-ok is_utf8 bytes visit node accumulated before after h in
      walk_children-Keeps visit (walk-Keeps levels) (byte_at bytes s.cursor) (s.cursor + 1)
        accumulated _ after s.rest (Any-push P s.entry before.out p)

-- Every terminal that a node leads to is found.
module _ (is_utf8 : Bytes → Bool) (bytes : Bytes) (e : ExportEntry) where
  abbrev pub Finds : Visit → Type 0
  Finds visit =
      (node target : ℕ) (accumulated suffix : Bytes) (before after : Walked)
      → visit node accumulated before ≡ ok after
      → Leads is_utf8 bytes node suffix target
      → read_terminal is_utf8 bytes target (accumulated ++ suffix) ≡ ok (some e)
      → Any (λ x. x ≡ e) after.out

  walk_children-Finds :
      (visit : Visit)
      → Keeps is_utf8 bytes (λ x. x ≡ e) visit
      → Finds visit
      → (count cursor child target : ℕ) (accumulated edge suffix : Bytes) (before after : Walked)
      → walk_children is_utf8 bytes visit count cursor accumulated before ≡ ok after
      → Listed is_utf8 bytes count cursor edge child
      → Leads is_utf8 bytes child suffix target
      → read_terminal is_utf8 bytes target ((accumulated ++ edge) ++ suffix) ≡ ok (some e)
      → Any (λ x. x ≡ e) after.out
  walk_children-Finds visit keeps finds zero cursor child target accumulated edge suffix before
        after h listed leads found =
      elim listed [ ]
  walk_children-Finds visit keeps finds (suc count) cursor child target accumulated edge suffix
        before after h listed leads found =
      let s = walk_children-suc is_utf8 bytes visit count cursor accumulated before after h in
      elim (Listed-suc is_utf8 bytes s.record_there listed) [
        | inl (same_edge, same_child) ↦
            walk_children-Keeps is_utf8 bytes (λ x. x ≡ e) visit keeps count s.next accumulated
              s.middle after s.rest
              (finds child target (accumulated ++ edge) suffix before s.middle
                (rw (same_edge, same_child) s.visited) leads found)
        | inr listed' ↦
            walk_children-Finds visit keeps finds count s.next child target accumulated edge suffix
              s.middle after s.rest listed' leads found
      ]

  pub walk-Finds : (levels : ℕ) → Finds (walk is_utf8 bytes levels)
  unfolding walk
  walk-Finds zero node target accumulated suffix before after h leads found = cc
  walk-Finds (suc levels) node target accumulated suffix before after h stop found =
      let visit = walk is_utf8 bytes levels in
      let s = walk_node-ok is_utf8 bytes visit node accumulated before after h in
      let same : s.entry ≡ some e = ok-injective (
        sym s.terminal
        ∙ sym (ap (read_terminal is_utf8 bytes node) (append-nil accumulated))
        ∙ found) in
      walk_children-Keeps is_utf8 bytes (λ x. x ≡ e) visit (walk-Keeps is_utf8 bytes _ levels)
        (byte_at bytes s.cursor) (s.cursor + 1) accumulated _ after s.rest
        (rw same (Any-concat (λ x. x ≡ e) before.out e refl))
  walk-Finds (suc levels) node target accumulated suffix before after h
        (down {child} {edge} {suffix = rest} (cursor, skipped, inside, listed) leads) found =
      let visit = walk is_utf8 bytes levels in
      let s = walk_node-ok is_utf8 bytes visit node accumulated before after h in
      let same : cursor ≡ s.cursor = ok-injective (sym skipped ∙ s.skipped) in
      walk_children-Finds visit (walk-Keeps is_utf8 bytes _ levels) (walk-Finds levels)
        (byte_at bytes s.cursor) (s.cursor + 1) child target accumulated edge rest _ after s.rest
        (subst (λ c. Listed is_utf8 bytes (byte_at bytes c) (c + 1) edge child) same listed) leads
        (ap (read_terminal is_utf8 bytes target) (append_assoc accumulated edge rest) ∙ found)

-- Everything that is found is exported.
module _ (is_utf8 : Bytes → Bool) (bytes : Bytes) where
  abbrev pub Sound : Visit → Type 0
  Sound visit =
      (node : ℕ) (accumulated : Bytes) (before after : Walked)
      → visit node accumulated before ≡ ok after
      → Leads is_utf8 bytes 0 accumulated node
      → All (Exported is_utf8 bytes) before.out
      → All (Exported is_utf8 bytes) after.out

  walk_children-Sound :
      (visit : Visit)
      → Sound visit
      → (count cursor : ℕ) (accumulated : Bytes) (before after : Walked)
      → walk_children is_utf8 bytes visit count cursor accumulated before ≡ ok after
      → ((edge : Bytes) (child : ℕ)
          → Listed is_utf8 bytes count cursor edge child
          → Leads is_utf8 bytes 0 (accumulated ++ edge) child)
      → All (Exported is_utf8 bytes) before.out
      → All (Exported is_utf8 bytes) after.out
  unfolding walk_children
  walk_children-Sound visit sound zero cursor accumulated before after h leads all =
      subst (λ w. All (Exported is_utf8 bytes) (w.out)) (ok-injective h) all
  walk_children-Sound visit sound (suc count) cursor accumulated before after h leads all =
      let s = walk_children-suc is_utf8 bytes visit count cursor accumulated before after h in
      walk_children-Sound visit sound count s.next accumulated s.middle after s.rest
        (λ edge child l. leads edge child (later s.record_there l))
        (sound s.child (accumulated ++ s.edge) before s.middle s.visited
          (leads s.edge s.child (here s.record_there)) all)

  All-push :
      (node : ℕ) (accumulated : Bytes) (entry : Option ExportEntry) (out : List ExportEntry)
      → Leads is_utf8 bytes 0 accumulated node
      → read_terminal is_utf8 bytes node accumulated ≡ ok entry
      → All (Exported is_utf8 bytes) out
      → All (Exported is_utf8 bytes) (push entry out)
  All-push node accumulated none out leads e all = all
  All-push node accumulated (some entry) out leads e all =
      let (same, _) = read_terminal-rename is_utf8 bytes node accumulated [] entry e in
      let exported : Exported is_utf8 bytes entry = (
        node,
        subst (λ name. Leads is_utf8 bytes 0 name node) (sym same) leads,
        subst (λ name. read_terminal is_utf8 bytes node name ≡ ok (some entry)) (sym same) e,
      ) in
      All-append (Exported is_utf8 bytes) out (entry ∷ []) all (exported, tt)

  pub walk-Sound : (levels : ℕ) → Sound (walk is_utf8 bytes levels)
  unfolding walk
  walk-Sound zero node accumulated before after h leads all = cc
  walk-Sound (suc levels) node accumulated before after h leads all =
      let visit = walk is_utf8 bytes levels in
      let s = walk_node-ok is_utf8 bytes visit node accumulated before after h in
      walk_children-Sound visit (walk-Sound levels) (byte_at bytes s.cursor) (s.cursor + 1)
        accumulated _ after s.rest
        (λ edge child l. Leads-snoc is_utf8 bytes leads (s.cursor, s.skipped, s.inside, l))
        (All-push node accumulated s.entry before.out leads s.terminal all)
