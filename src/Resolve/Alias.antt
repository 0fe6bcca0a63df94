-- ===== src/Resolve/Alias.antt =====
-- Alias chains: `insert` never closes a cycle, and `resolve_chain` follows a chain to its end.
use afs_ld.Prelude.{
  ℕ, zero, suc, ◌^◌, ◌<◌, ◌≡◌, ◌≢◌, refl, sym, ap, ap₂, ◌∙◌, subst, fun_ext, true, false, List, [],
  ◌∷◌, ◌++◌, Option, none, some, ok, arith, length, set, get_elem?, get_elem?-set_self,
  get_elem?-set_ne, ◌==◌, ==_iff, ℕ_discrete, inl, inr, Bool-cases, Option-cases,
}
use afs_ld.Resolve.Effect.{Effect, unchanged, stored, wrote, Checked}
use afs_ld.Resolve.Insert.{insert}
use afs_ld.Resolve.Level.{insert-Effect, apart}
use afs_ld.Resolve.Lookup.{IsValid, get_elem?-lt, get_elem?-append_left, get_elem?-concat_last}
use afs_ld.Resolve.Symbol.{Symbol, symbol_name, alias_target, is_alias}
use afs_ld.Resolve.Table.{
  SymbolTable, Outcome, find_id, lookup, get, alias_walk, max_alias_depth, alias_would_cycle,
}

abbrev slot_hop : Option Symbol → Option ℕ
slot_hop none = none
slot_hop (some s) = alias_target s

abbrev id_hop : List Symbol → Option ℕ → Option ℕ
id_hop symbols none = none
id_hop symbols (some id) = slot_hop (get_elem? symbols id)

-- The name that `name` is an alias of.
abbrev pub hop : SymbolTable → ℕ → Option ℕ
hop t name = id_hop t.symbols (lookup t name)

-- The chain from a name ends.
pub data Ends (next : ℕ → Option ℕ) : ℕ → Type 0 where
  stop : {n : ℕ} → next n ≡ none → Ends next n
  step : {n a : ℕ} → next n ≡ some a → Ends next a → Ends next n

-- It ends, and does not meet `m`.
data Avoids (next : ℕ → Option ℕ) (m : ℕ) : ℕ → Type 0 where
  stop : {n : ℕ} → n ≢ m → next n ≡ none → Avoids next m n
  step : {n a : ℕ} → n ≢ m → next n ≡ some a → Avoids next m a → Avoids next m n

-- No name is reached from itself.
abbrev pub IsAcyclic : SymbolTable → Type 0
IsAcyclic t = (name : ℕ) → Ends (hop t) name

-- The next hops after those of one name `m` were replaced.
record Redirects (old new : ℕ → Option ℕ) (m : ℕ) : Type 0 where
  others : (n : ℕ) → m ≢ n → new n ≡ old n

module _ {old new : ℕ → Option ℕ} {m : ℕ} (r : Redirects old new m) where
  avoided : {n : ℕ} → Avoids old m n → Ends new n
  avoided (Avoids.stop {n} ne h) = Ends.stop (r.others n (λ e. ne (sym e)) ∙ h)
  avoided (Avoids.step {n} ne h a) = Ends.step (r.others n (λ e. ne (sym e)) ∙ h) (avoided a)

  redirected : {n : ℕ} → Ends new m → Ends old n → Ends new n
  redirected end (Ends.stop {n} h) = elim (ℕ_discrete m n) [
    | yes same ↦ subst (Ends new) same end
    | no other ↦ Ends.stop (r.others n other ∙ h)
  ]
  redirected end (Ends.step {n} h c) = elim (ℕ_discrete m n) [
    | yes same ↦ subst (Ends new) same end
    | no other ↦ Ends.step (r.others n other ∙ h) (redirected end c)
  ]

true-ne-false : some true ≢ some false
true-ne-false h = cc

-- The cycle check answers no only where the chain from the target ends without the new name.
walk-Avoids :
    (d : ℕ) (t : SymbolTable) (m c : ℕ) → alias_walk d t m c ≡ some false → Avoids (hop t) m c
unfolding alias_walk
walk-Avoids zero t m c h = cc
walk-Avoids (suc d) t m c h = elim (ℕ_discrete c m) [
  | yes same ↦ let test = (==_iff c m).1 same in absurd (true-ne-false (rw (test, alias_walk) at h))
  | no other ↦
      let test : (c == m) ≡ false = ground arith in
      let h₁ = rw (test, alias_walk) at h in
      elim (Option-cases (lookup t c)) [
        | inl vacant ↦ Avoids.stop other (rw vacant)
        | inr (id, at) ↦
            let h₂ = rw at at h₁ in
            elim (Option-cases (get t id)) [
              | inl gone ↦ Avoids.stop other (rw (at, gone))
              | inr (s, here) ↦
                  let h₃ = rw here at h₂ in
                  elim (Option-cases (alias_target s)) [
                    | inl end ↦ Avoids.stop other (rw (at, here) end)
                    | inr (a, more) ↦
                        Avoids.step other (rw (at, here) more) (walk-Avoids d t m a (rw more at h₃))
                  ]
            ]
      ]
]

check-Avoids :
    (t : SymbolTable) (m a : ℕ) → alias_would_cycle t m a ≡ some false → Avoids (hop t) m a
unfolding alias_would_cycle
check-Avoids t m a h = elim (Bool-cases (m == a)) [
  | inl same ↦ absurd (true-ne-false (rw same at h))
  | inr other ↦ walk-Avoids max_alias_depth t m a (rw other at h)
]

module _ {t u : SymbolTable} {s : Symbol} (v : IsValid t) where
  Effect-others : Effect t s u → (n : ℕ) → symbol_name s ≢ n → hop u n ≡ hop t n
  Effect-others (unchanged id old at here r e f) n other = ap₂ (λ xs m. id_hop xs (find_id n m)) e f
  Effect-others (stored vacant e f c) n other =
      let test : (symbol_name s == n) ≡ false = ground arith in
      ap₂ (λ xs m. id_hop xs (find_id n m)) e f
      ∙ rw test (elim (Option-cases (lookup t n)) [
        | inl gone ↦ rw gone
        | inr (i, there) ↦
            let (y, here, _) = v.held n i there in
            rw (there, get_elem?-append_left t.symbols (s ∷ []) i (get_elem?-lt t.symbols i here))
      ])
  Effect-others (wrote id old new at here c w e f) n other =
      ap₂ (λ xs m. id_hop xs (find_id n m)) e f ∙ elim (Option-cases (lookup t n)) [
        | inl gone ↦ rw gone
        | inr (i, there) ↦ rw (
          there,
          get_elem?-set_ne t.symbols new (apart t.symbols t.by_name v n s id i at there other),
        )
      ]

module _ (t u : SymbolTable) (s : Symbol) where
  -- What the name of a new slot leads to.
  stored_hop :
      u.symbols ≡ t.symbols ++ s ∷ []
      → u.by_name ≡ (symbol_name s, length t.symbols) ∷ t.by_name
      → hop u (symbol_name s) ≡ alias_target s
  stored_hop e f =
      let test = (==_iff (symbol_name s) (symbol_name s)).1 refl in
      ap₂ (λ xs m. id_hop xs (find_id (symbol_name s) m)) e f
      ∙ rw (test, get_elem?-concat_last t.symbols s)

  wrote_hop :
      (id : ℕ) (old new : Symbol)
      → lookup t (symbol_name s) ≡ some id
      → get t id ≡ some old
      → u.symbols ≡ set t.symbols id new
      → u.by_name ≡ t.by_name
      → hop u (symbol_name s) ≡ alias_target new
  wrote_hop id old new at here e f =
      ap₂ (λ xs m. id_hop xs (find_id (symbol_name s) m)) e f
      ∙ rw (at, get_elem?-set_self t.symbols id new (get_elem?-lt t.symbols id here))

plain_target : (s : Symbol) → is_alias s ≡ false → alias_target s ≡ none
plain_target (Symbol.undefined _ _ _) h = refl
plain_target (Symbol.alias _ _ _ _) h = cc
plain_target _ h = refl

-- A name whose new symbol has passed the check leads to an end.
module _ (t u : SymbolTable) (s : Symbol) (r : Redirects (hop t) (hop u) (symbol_name s)) where
  checked_end : hop u (symbol_name s) ≡ alias_target s → Checked t s → Ends (hop u) (symbol_name s)
  checked_end e c = go s r e c
    where
      go :
          (x : Symbol)
          → Redirects (hop t) (hop u) (symbol_name x)
          → hop u (symbol_name x) ≡ alias_target x
          → Checked t x
          → Ends (hop u) (symbol_name x)
      go (Symbol.alias n a o p) r e c = Ends.step e (avoided r (check-Avoids t n a c))
      go (Symbol.undefined _ _ _) r e c = Ends.stop e
      go _ r e c = Ends.stop e

Effect-IsAcyclic :
    {t u : SymbolTable} {s : Symbol} → IsValid t → IsAcyclic t → Effect t s u → IsAcyclic u
Effect-IsAcyclic {t} {u} {s} v a f name = go f
  where
    r : Effect t s u → Redirects (hop t) (hop u) (symbol_name s)
    r f = record { others = Effect-others v f }

    go : Effect t s u → Ends (hop u) name
    go (unchanged id old at here k e f) =
        subst (λ h. Ends h name) (sym (fun_ext λ n. ap₂ (λ xs m. id_hop xs (find_id n m)) e f))
          (a name)
    go (stored vacant e f c) =
        let all = r (stored vacant e f c) in
        redirected all (checked_end t u s all (stored_hop t u s e f) c) (a name)
    go (wrote id old new at here (inl p) w e f) =
        let all = r (wrote id old new at here (inl p) w e f) in
        let gone = wrote_hop t u s id old new at here e f ∙ plain_target new (w.plain ∙ p) in
        redirected all (Ends.stop gone) (a name)
    go (wrote id old new at here (inr (same, c)) w e f) =
        let all = r (wrote id old new at here (inr (same, c)) w e f) in
        let to = wrote_hop t u s id old new at here e f ∙ ap alias_target same in
        redirected all (checked_end t u s all to c) (a name)

-- No insertion closes a cycle of aliases: on a valid table with room for a slot, where every chain
-- of aliases ends, every chain ends after an accepted insertion too.
pub insert-IsAcyclic :
    (t : SymbolTable) (s : Symbol) {u : SymbolTable} {o : Outcome}
    → IsValid t
    → length t.symbols < 2 ^ 32
    → IsAcyclic t
    → insert t s ≡ some (u, ok o)
    → IsAcyclic u
insert-IsAcyclic t s v room a e = Effect-IsAcyclic v a (insert-Effect t s v room e)
