-- ===== src/Resolve/Chain.antt =====
-- `resolve_chain` against the relation that it decides.
use afs_ld.Prelude.{
  ℕ, zero, suc, ◌<◌, ◌≡◌, ◌≢◌, ◌↔◌, ap, ◌∙◌, Option, none, some, Result, ok, err, arith, inl, inr,
  Option-cases,
}
use afs_ld.Resolve.Alias.{hop}
use afs_ld.Resolve.Symbol.{Symbol, alias_target}
use afs_ld.Resolve.Table.{
  SymbolTable, lookup, get, max_alias_depth, ResolveError, chain_walk, resolve_chain,
}

-- `k` aliases lead from one name to another.
pub data Hops (next : ℕ → Option ℕ) : ℕ → ℕ → ℕ → Type 0 where
  here : {n : ℕ} → Hops next zero n n
  hops : {k n a c : ℕ} → next n ≡ some a → Hops next k a c → Hops next (suc k) n c

-- Slot `id` holds `s`, which is no alias, under the name that fewer than `depth` aliases lead to.
pub record Leads (depth : ℕ) (t : SymbolTable) (name id : ℕ) (s : Symbol) : Type 0 where
  pub count : ℕ
  pub last : ℕ
  pub within : count < depth
  pub path : Hops (hop t) count name last
  pub at : lookup t last ≡ some id
  pub held : get t id ≡ some s
  pub concrete : alias_target s ≡ none

no_hop : {a : ℕ} → none ≢ some a
no_hop h = cc

panic_ne : {r : Result ResolveError (ℕ × Symbol)} → none ≢ some r
panic_ne h = cc

unknown_ne : {e : ResolveError} {r : ℕ × Symbol} → some (err e) ≢ some (ok r)
unknown_ne h = cc

module _ (t : SymbolTable) (name id : ℕ) (s : Symbol) where
  walk_complete :
      (d k c n : ℕ)
      → k < d
      → Hops (hop t) k n c
      → lookup t c ≡ some id
      → get t id ≡ some s
      → alias_target s ≡ none
      → chain_walk d t name n ≡ some (ok (id, s))
  unfolding chain_walk
  walk_complete zero k c n lt p at held end = absurd (omega arith)
  walk_complete (suc d) k c n lt Hops.here at held end = rw (at, held, end, chain_walk)
  walk_complete (suc d) k c n lt (Hops.hops {k = j} {a = a} e p) at held end =
      elim (Option-cases (lookup t n)) [
        | inl gone ↦ absurd (no_hop (rw gone at e))
        | inr (i, there) ↦
            let e₁ = rw there at e in
            elim (Option-cases (get t i)) [
              | inl gone ↦ absurd (no_hop (rw gone at e₁))
              | inr (x, slot) ↦
                  rw (there, slot, rw slot at e₁, chain_walk)
                    (walk_complete d j c a (omega arith) p at held end)
            ]
      ]

  walk_sound : (d n : ℕ) → chain_walk d t name n ≡ some (ok (id, s)) → Leads d t n id s
  unfolding chain_walk
  walk_sound zero n h = cc
  walk_sound (suc d) n h = elim (Option-cases (lookup t n)) [
    | inl gone ↦ absurd (unknown_ne (rw (gone, chain_walk) at h))
    | inr (i, there) ↦
        let h₁ = rw (there, chain_walk) at h in
        elim (Option-cases (get t i)) [
          | inl gone ↦ absurd (panic_ne (rw gone at h₁))
          | inr (x, slot) ↦
              let h₂ = rw slot at h₁ in
              elim (Option-cases (alias_target x)) [
                | inl end ↦
                    let h₃ = rw end at h₂ in
                    let same_id : i ≡ id = cc in
                    let same : x ≡ s = cc in
                    record {
                      count = 0;
                      last = n;
                      within = omega arith;
                      path = Hops.here;
                      at = there ∙ ap some same_id;
                      held = rw (← same_id, ← same) slot;
                      concrete = rw (← same) end;
                    }
                | inr (a, more) ↦
                    let l = walk_sound d a (rw more at h₂) in
                    record {
                      count = suc l.count;
                      last = l.last;
                      within = omega arith;
                      path = Hops.hops (rw (there, slot) more) l.path;
                      at = l.at;
                      held = l.held;
                      concrete = l.concrete;
                    }
              ]
        ]
  ]

-- `resolve_chain` returns a slot and its symbol exactly when the symbol is no alias and fewer than
-- 32 aliases lead to it from the name.
pub resolve_chain_iff :
    (t : SymbolTable) (name id : ℕ) (s : Symbol)
    → (resolve_chain t name ≡ some (ok (id, s))) ↔ Leads max_alias_depth t name id s
unfolding resolve_chain
resolve_chain_iff t name id s = (
  walk_sound t name id s max_alias_depth name,
  λ l.
      walk_complete t name id s max_alias_depth l.count l.last name l.within l.path l.at l.held
        l.concrete,
)
