-- ===== src/Visibility/Ends.antt =====
-- src/symbol_visibility.rs: the end of wildcard_matches, where only stars may be left.
use afs_ld.Prelude.{
  ℕ, zero, suc, ◌+◌, ◌≤◌, ◌≡◌, ◌≢◌, ◌↔◌, subst, true, false, [], ◌∷◌, length, get_elem?, drop, ◌==◌,
  ==_iff, Bool-cases, Option-cases, inl, inr, arith,
}
use afs_ld.Prelude.Bytes.{Bytes}
use afs_ld.Visibility.{star, accepts, only_stars}
use afs_ld.Visibility.Places.{get-bound, get-none, drop-past, drop-get, drop-none}
use afs_ld.Visibility.Spec.{Fits, over, none_taken, star_end}

-- A pattern that is not a star does not fit the empty value.
pub item-end : {x : ℕ} {p : Bytes} → x ≢ star → ¬ Fits (x ∷ p) []
item-end n (none_taken e f) = n e

pub not_star : {x : ℕ} → (x == star) ≡ false → x ≢ star
not_star h = ground (arith, h)

pub accepted_item : {x c : ℕ} → accepts x c ≡ true → c ≢ star → x ≢ star
accepted_item h n = ground (arith, h, n)

-- The second loop and the final test say whether what is left of the pattern fits nothing.
pub only_stars_iff :
    (fuel : ℕ) (pattern : Bytes) (p : ℕ)
    → p ≤ length pattern
    → length pattern ≤ fuel + p
    → (only_stars fuel pattern p ≡ true) ↔ Fits (drop p pattern) []
unfolding only_stars
only_stars_iff zero pattern p within enough =
    let same : p ≡ length pattern = omega arith in
    rw (drop-past pattern p (omega arith)) (λ h. over, λ f. (==_iff p (length pattern)).1 same)
only_stars_iff (suc fuel) pattern p within enough = elim (Option-cases (get_elem? pattern p)) [
  | inl out ↦
      let past = get-none pattern p out in
      let same : p ≡ length pattern = omega arith in
      rw out (rw (drop-none pattern p out) (λ h. over, λ f. (==_iff p (length pattern)).1 same))
  | inr (x, item) ↦
      let inside = get-bound pattern p x item in
      rw item (
        rw (drop-get pattern p x item) (elim (Bool-cases (x == star)) [
          | inl is_star ↦
              let same : x ≡ star = (==_iff x star).0 is_star in
              let rest = only_stars_iff fuel pattern (p + 1) (omega arith) (omega arith) in
              rw is_star (
                λ h. none_taken same (rest.0 h),
                λ f. rest.1 (star_end (subst (λ y. Fits (y ∷ drop (p + 1) pattern) []) same f)),
              )
          | inr is_not ↦
              let ends : (p == length pattern) ≡ false = ground (arith, inside) in
              rw is_not (rw ends (λ h. cc h, λ f. absurd (item-end (not_star is_not) f)))
        ]))
]
