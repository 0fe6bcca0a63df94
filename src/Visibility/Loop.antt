-- ===== src/Visibility/Loop.antt =====
-- src/symbol_visibility.rs: the first loop of wildcard_matches, on any fuel that is enough, with an invariant.
use afs_ld.Prelude.{
  ℕ, zero, suc, ◌+◌, ◌*◌, ◌≤◌, ◌<◌, ◌≡◌, refl, Bool, true, false, Option, none, some, length,
  get_elem?, ◌==◌, ==_iff, Bool-cases, Option-cases, inl, inr, arith,
}
use afs_ld.Prelude.Bytes.{Bytes}
use afs_ld.Visibility.Places.{get-bound}
use afs_ld.Visibility.{star, accepts, Saved, resume, round, only_stars, scan}

-- No case of a round but the last two applies.
abbrev pub Stuck : Option ℕ → ℕ → Type 0
Stuck none c = Unit
Stuck (some x) c = (accepts x c ≡ false) × ((x == star) ≡ false)

-- What a round keeps, for an invariant and for what is to hold of the result.
pub record Rules (pattern value : Bytes) (Inv : ℕ → ℕ → Saved → Type 0) (Holds : Bool → Type 0)
    : Type 0 where
  pub at_end :
      (p v : ℕ) (saved : Saved)
      → get_elem? value v ≡ none
      → Inv p v saved
      → Holds (only_stars (length pattern) pattern p)
  pub accepted :
      (p v x c : ℕ) (saved : Saved)
      → get_elem? pattern p ≡ some x
      → get_elem? value v ≡ some c
      → accepts x c ≡ true
      → Inv p v saved
      → Inv (p + 1) (v + 1) saved
  pub starred :
      (p v x c : ℕ) (saved : Saved)
      → get_elem? pattern p ≡ some x
      → get_elem? value v ≡ some c
      → x ≡ star
      → Inv p v saved
      → Inv (p + 1) v (some (p, v))
  pub resumed :
      (p v c s b : ℕ)
      → Stuck (get_elem? pattern p) c
      → get_elem? value v ≡ some c
      → b ≤ v
      → Inv p v (some (s, b))
      → Inv (s + 1) (b + 1) (some (s, b + 1))
  pub failed :
      (p v c : ℕ)
      → Stuck (get_elem? pattern p) c
      → get_elem? value v ≡ some c
      → Inv p v none
      → Holds false

abbrev pub tried : Saved → ℕ
tried none = 0
tried (some (s, b)) = b

-- What is saved began no later than here.
abbrev pub IsEarly : ℕ → Saved → Type 0
IsEarly v none = Unit
IsEarly v (some (s, b)) = b ≤ v

abbrev Result : Option Bool → (Bool → Type 0) → Type 0
Result outcome Holds = (b : Bool) × (outcome ≡ some b) × Holds b

tried-early : (v : ℕ) (saved : Saved) → IsEarly v saved → tried saved ≤ v
tried-early v none early = omega arith
tried-early v (some (s, b)) early = early

IsEarly-suc : (v : ℕ) (saved : Saved) → IsEarly v saved → IsEarly (v + 1) saved
IsEarly-suc v none early = tt
IsEarly-suc v (some (s, b)) early = omega arith

module _ (pattern value : Bytes) {Inv : ℕ → ℕ → Saved → Type 0} {Holds : Bool → Type 0}
    (rules : Rules pattern value Inv Holds) where
  -- The fuel is enough for each place that a star may yet go on from, `m` of them, and for the `q` items that
  -- are left now.
  abbrev pub Ready : ℕ → ℕ → ℕ → Saved → Type 0
  Ready fuel p v saved =
      (m : ℕ) × (q : ℕ) × (length pattern ≤ q + p)
      × (length value ≤ m + tried saved)
      × IsEarly v saved
      × (m * (length pattern + 1) + q < fuel)
      × Inv p v saved

  abbrev Next : ℕ → Type 0
  Next fuel =
      (p v : ℕ) (saved : Saved)
      → Ready fuel p v saved
      → Result (scan fuel pattern value p v saved) Holds

  resume_right :
      (fuel p v c : ℕ) (saved : Saved)
      → Next fuel
      → Stuck (get_elem? pattern p) c
      → get_elem? value v ≡ some c
      → Ready (suc fuel) p v saved
      → Result (resume saved (scan fuel pattern value)) Holds
  resume_right fuel p v c none next stuck here (m, q, _, _, _, _, inv) =
      (false, refl, rules.failed p v c stuck here inv)
  resume_right fuel p v c (some (s, b)) next stuck here (zero, q, at, left, early, budget, inv) =
      let bound = get-bound value v c here in absurd (omega arith)
  resume_right fuel p v c (some (s, b)) next stuck here (suc m, q, at, left, early, budget, inv) =
      next (s + 1) (b + 1) (some (s, b + 1)) (
        m,
        length pattern,
        omega arith,
        omega arith,
        omega arith,
        omega arith,
        rules.resumed p v c s b stuck here early inv,
      )

  -- One round on an item of the pattern.
  item_right :
      (fuel p v x c : ℕ) (saved : Saved)
      → Next fuel
      → get_elem? pattern p ≡ some x
      → get_elem? value v ≡ some c
      → Ready (suc fuel) p v saved
      → Result (round (some x) c p v saved (scan fuel pattern value)) Holds
  item_right fuel p v x c saved next item here (m, zero, at, left, early, budget, inv) =
      let bound = get-bound pattern p x item in absurd (omega arith)
  item_right fuel p v x c saved next item here (m, suc q, at, left, early, budget, inv) =
      elim (Bool-cases (accepts x c)) [
        | inl fits ↦ rw fits (
            next (p + 1) (v + 1) saved (
              m,
              q,
              omega arith,
              left,
              IsEarly-suc v saved early,
              omega arith,
              rules.accepted p v x c saved item here fits inv,
            ))
        | inr apart ↦ rw apart (elim (Bool-cases (x == star)) [
          | inl is_star ↦ rw is_star (
              next (p + 1) v (some (p, v)) (
                m,
                q,
                omega arith,
                (let older = tried-early v saved early in omega arith),
                omega arith,
                omega arith,
                rules.starred p v x c saved item here ((==_iff x star).0 is_star) inv,
              ))
          | inr is_not ↦ rw is_not (
              resume_right fuel p v c saved next (rw item (apart, is_not)) here
                (m, suc q, at, left, early, budget, inv))
        ])
      ]

  -- The loop returns on any fuel that is enough, with a result as the rules say.
  pub scan_right :
      (fuel p v : ℕ) (saved : Saved)
      → Ready fuel p v saved
      → Result (scan fuel pattern value p v saved) Holds
  unfolding scan
  scan_right zero p v saved (m, q, _, _, _, budget, _) = absurd (omega arith)
  scan_right (suc fuel) p v saved ready = elim (Option-cases (get_elem? value v)) [
    | inl past ↦
        let (m, q, at, left, early, budget, inv) = ready in
        rw past (only_stars (length pattern) pattern p, refl, rules.at_end p v saved past inv)
    | inr (c, here) ↦ rw here (elim (Option-cases (get_elem? pattern p)) [
      | inl out ↦ rw out (resume_right fuel p v c saved (scan_right fuel) (rw out tt) here ready)
      | inr (x, item) ↦ rw item (item_right fuel p v x c saved (scan_right fuel) item here ready)
    ])
  ]
