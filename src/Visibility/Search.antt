-- ===== src/Visibility/Search.antt =====
-- src/symbol_visibility.rs: wildcard_matches returns for every pattern and value, and on values without a star
-- it returns whether the pattern fits.
use afs_ld.Prelude.{
  ℕ, ◌+◌, ◌*◌, ◌≤◌, ◌≡◌, ◌≢◌, ◌↔◌, refl, subst, Bool, true, ◌∷◌, none, some, some-injective, length,
  get_elem?, drop, Option-cases, inl, inr, arith, All-get_elem?,
}
use afs_ld.Prelude.Bytes.{Bytes}
use afs_ld.Visibility.{star, accepts, Saved, wildcard_matches}
use afs_ld.Visibility.Places.{get-bound, get-inside, All-drop, drop-get, drop-none}
use afs_ld.Visibility.Ends.{not_star, accepted_item, only_stars_iff}
use afs_ld.Visibility.Loop.{Rules, Stuck, scan_right}
use afs_ld.Visibility.Spec.{
  Fits, one, none_taken, some_taken, NoStar, not-over, one_inv, star_inv, star_end, merge_stars,
  skip_item,
}

returning : (pattern value : Bytes) → Rules pattern value (λ p v saved. Unit) (λ b. Unit)
returning pattern value = record {
  at_end = λ p v saved past inv. tt;
  accepted = λ p v x c saved item here fits inv. tt;
  starred = λ p v x c saved item here is_star inv. tt;
  resumed = λ p v c s b stuck here early inv. tt;
  failed = λ p v c stuck here inv. tt;
}

-- wildcard_matches returns, for any pattern and any value: the fuel `(value.len() + 1) * (pattern.len() + 1)`
-- is enough for its first loop.
pub wildcard_matches-returns :
    (pattern value : Bytes) → (b : Bool) × (wildcard_matches pattern value ≡ some b)
unfolding wildcard_matches
wildcard_matches-returns pattern value =
    let (b, returned, _) =
      scan_right pattern value (returning pattern value) ((length value + 1) * (length pattern + 1))
        0 0 none (length value, length pattern, omega arith, omega arith, tt, omega arith, tt) in
    (b, returned)

module _ (pattern value : Bytes) where
  abbrev Later : (p v : ℕ) → Saved → Type 0
  Later p v none = Fits pattern value → Fits (drop p pattern) (drop v value)
  Later p v (some (s, b)) =
      (get_elem? pattern s ≡ some star)
      × (Fits pattern value ↔ Fits (star ∷ drop (s + 1) pattern) (drop b value))
      × (Fits (drop (s + 1) pattern) (drop b value) → Fits (drop p pattern) (drop v value))
      × (Fits pattern value → Fits (star ∷ drop p pattern) (drop v value))

  -- What the loop keeps: the rest fits only where the whole does; where a star is saved, the whole fits just
  -- where that star, going on from its place, fits, and a fit from there without the star leads to here.
  record Searching (p v : ℕ) (saved : Saved) : Type 0 where
    within : p ≤ length pattern
    now : Fits (drop p pattern) (drop v value) → Fits pattern value
    later : Later p v saved

  -- Where the whole fits, a star that may begin here fits.
  by_star :
      (p v : ℕ) (saved : Saved)
      → Later p v saved
      → Fits pattern value
      → Fits (star ∷ drop p pattern) (drop v value)
  by_star p v none later f = none_taken refl (later f)
  by_star p v (some (s, b)) (_, _, _, on) f = on f

  module _ (plain : NoStar value) where
    plain_at : (v c : ℕ) → get_elem? value v ≡ some c → c ≢ star
    plain_at v c here = All-get_elem? (λ d. d ≢ star) value v c plain here

    Stuck-not :
        (p v c : ℕ)
        → Stuck (get_elem? pattern p) c
        → get_elem? value v ≡ some c
        → ¬ Fits (drop p pattern) (drop v value)
    Stuck-not p v c stuck here f = elim (Option-cases (get_elem? pattern p)) [
      | inl out ↦ not-over (rw (drop-none pattern p out, drop-get value v c here) at f)
      | inr (x, item) ↦
          let (apart, is_not) = rw item at stuck in
          let (fits, _) =
            one_inv (not_star is_not)
              (rw (drop-get pattern p x item, drop-get value v c here) at f) in
          cc (apart, fits)
    ]

    one_on :
        (p v x c : ℕ)
        → get_elem? pattern p ≡ some x
        → get_elem? value v ≡ some c
        → accepts x c ≡ true
        → Fits (drop p pattern) (drop v value) ↔ Fits (drop (p + 1) pattern) (drop (v + 1) value)
    one_on p v x c item here fits = rw (drop-get pattern p x item) (
        rw (drop-get value v c here)
          (λ f. (one_inv (accepted_item fits (plain_at v c here)) f).1, λ f. one fits f))

    accepted-Later :
        (p v x c : ℕ) (saved : Saved)
        → get_elem? pattern p ≡ some x
        → get_elem? value v ≡ some c
        → accepts x c ≡ true
        → Later p v saved
        → Later (p + 1) (v + 1) saved
    accepted-Later p v x c none item here fits later =
        λ f. (one_on p v x c item here fits).0 (later f)
    accepted-Later p v x c (some (s, b)) item here fits (star_at, whole, onto, on) = (
      star_at,
      whole,
      λ f. (one_on p v x c item here fits).0 (onto f),
      λ f.
          skip_item (drop (v + 1) value) (accepted_item fits (plain_at v c here))
            (subst NoStar (drop-get value v c here) (All-drop (λ d. d ≢ star) value v plain))
            (rw (drop-get pattern p x item, drop-get value v c here) at on f),
    )

    searching : Rules pattern value Searching (λ b. (b ≡ true) ↔ Fits pattern value)
    searching = record {
      at_end = λ p v saved past inv.
          let ends = drop-none value v past in
          let last = only_stars_iff (length pattern) pattern p inv.within (omega arith) in
          (
            λ h. inv.now (rw ends (last.0 h)),
            λ f. last.1 (star_end (rw ends at (by_star p v saved inv.later f))),
          );
      accepted = λ p v x c saved item here fits inv.
          let inside = get-bound pattern p x item in
          record {
            within = omega arith;
            now = λ f. inv.now ((one_on p v x c item here fits).1 f);
            later = accepted-Later p v x c saved item here fits inv.later;
          };
      starred = λ p v x c saved item here is_star inv.
          let inside = get-bound pattern p x item in
          let at_star : drop p pattern ≡ star ∷ drop (p + 1) pattern =
            rw (drop-get pattern p x item, is_star) refl in
          let whole : Fits pattern value → Fits (star ∷ drop (p + 1) pattern) (drop v value) = λ f.
            merge_stars (drop v value) (All-drop (λ d. d ≢ star) value v plain)
              (rw at_star at (by_star p v saved inv.later f)) in
          let now : Fits (star ∷ drop (p + 1) pattern) (drop v value) → Fits pattern value =
            λ f. inv.now (rw at_star f) in
          record {
            within = omega arith;
            now = λ f. now (none_taken refl f);
            later = (cc (item, is_star), (whole, now), λ f. f, whole);
          };
      resumed = λ p v c s b stuck here early inv.
          let (star_at, whole, onto, on) = inv.later in
          let past = get-bound value v c here in
          let inside = get-bound pattern s star star_at in
          let (d, tried) = get-inside value b (omega arith) in
          let at_b = drop-get value b d tried in
          let now : Fits (star ∷ drop (s + 1) pattern) (drop (b + 1) value) → Fits pattern value =
            λ f. whole.1 (rw at_b (some_taken refl f)) in
          let next : Fits pattern value → Fits (star ∷ drop (s + 1) pattern) (drop (b + 1) value) =
            λ f. elim (star_inv (plain_at b d tried) (rw at_b at (whole.0 f))) [
              | inl g ↦ absurd (Stuck-not p v c stuck here (onto (rw at_b g)))
              | inr g ↦ g
            ] in
          record {
            within = omega arith;
            now = λ f. now (none_taken refl f);
            later = (star_at, (next, now), λ f. f, next);
          };
      failed = λ p v c stuck here inv.
          (λ h. cc h, λ f. absurd (Stuck-not p v c stuck here (inv.later f)));
    }

-- On a value without a star the result is whether the pattern fits.
pub matched :
    (pattern value : Bytes)
    → NoStar value
    → (b : Bool) × (wildcard_matches pattern value ≡ some b) × ((b ≡ true) ↔ Fits pattern value)
unfolding wildcard_matches
matched pattern value plain =
    scan_right pattern value (searching pattern value plain)
      ((length value + 1) * (length pattern + 1)) 0 0 none
      (
        length value,
        length pattern,
        omega arith,
        omega arith,
        tt,
        omega arith,
        record { within = omega arith; now = λ f. f; later = λ f. f },
      )

-- On a value without a `*`, wildcard_matches returns true just where the pattern fits the value: `?` stands for
-- any byte, `*` for any run of bytes, and each other byte for itself.
pub wildcard_matches_iff :
    (pattern value : Bytes)
    → NoStar value
    → (wildcard_matches pattern value ≡ some true) ↔ Fits pattern value
wildcard_matches_iff pattern value plain =
    let (b, returned, right) = matched pattern value plain in
    (
      λ h. right.0 (some-injective (cc (h, returned))),
      λ f. let fits = right.1 f in cc (fits, returned),
    )
