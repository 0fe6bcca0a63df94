-- ===== src/Layout/Addresses/Pushed.antt =====
-- src/layout.rs, `assign_addresses`: what listing one section changes.
use afs_ld.Prelude.{
  ℕ, suc, ◌+◌, ◌<◌, ◌≡◌, ◌≢◌, List, [], ◌∷◌, ◌++◌, map, ok, get_elem?, inl, inr, All, All-imp,
  All-append, Any, arith,
}
use afs_ld.Prelude.Bytes.{Bytes}
use afs_ld.Layout.{OutputSection, OutputSegment}
use afs_ld.Layout.Addresses.{update_segment, push_section}
use afs_ld.Layout.Addresses.Run.{need, need_at, Distinct}
use afs_ld.Layout.Addresses.Step.{Apart, IsListed, room}

abbrev pub BothApart : OutputSegment → OutputSegment → Type 0
BothApart a b = Apart a.sections b.sections × Apart b.sections a.sections

abbrev pub AllApart : List OutputSegment → Type 0
AllApart [] = Unit
AllApart (t ∷ ts) = All (BothApart t) ts × AllApart ts

pub Distinct-push :
    (ids : List ℕ) (idx : ℕ) → Distinct ids → All (λ id. id < idx) ids → Distinct (ids ++ idx ∷ [])
Distinct-push [] idx h below = (tt, tt)
Distinct-push (id ∷ ids) idx h below = (
  All-append (λ other. id ≢ other) ids (idx ∷ []) h.0 (λ e. omega (arith, below.0, e), tt),
  Distinct-push ids idx h.1 below.1,
)

pub need-append :
    (sections : List OutputSection) (xs ys : List ℕ)
    → need sections (xs ++ ys) ≡ need sections xs + need sections ys
need-append sections [] ys = omega arith
need-append sections (x ∷ xs) ys = omega (arith, need-append sections xs ys)

pub Apart-push_right :
    (ids others : List ℕ) (idx : ℕ)
    → Apart ids others
    → All (λ id. id < idx) ids
    → Apart ids (others ++ idx ∷ [])
Apart-push_right ids others idx h below =
    All-append (λ other. All (λ id. id ≢ other) ids) others (idx ∷ []) h
      (All-imp ids (λ id lt e. omega (arith, lt, e)) below, tt)

pub Apart-push_left :
    (ids others : List ℕ) (idx : ℕ)
    → Apart ids others
    → All (λ id. id < idx) others
    → Apart (ids ++ idx ∷ []) others
Apart-push_left ids [] idx h below = tt
Apart-push_left ids (other ∷ others) idx h below = (
  All-append (λ id. id ≢ other) ids (idx ∷ []) h.0 (λ e. omega (arith, below.0, e), tt),
  Apart-push_left ids others idx h.1 below.1,
)

Bounded : ℕ → OutputSegment → Type 0
Bounded idx segment = All (λ id. id < idx) segment.sections

-- A section is listed in a segment of its name.
abbrev pub HasSection : List OutputSegment → Bytes → ℕ → Type 0
HasSection segments name idx = Any (λ s. (s.name ≡ name) × Any (λ id. id ≡ idx) s.sections) segments

pub Any-append_left : {A : Type 0} (P : A → Type 0) (xs ys : List A) → Any P xs → Any P (xs ++ ys)
Any-append_left P [] ys h = elim h [ ]
Any-append_left P (x ∷ xs) ys (inl h) = inl h
Any-append_left P (x ∷ xs) ys (inr h) = inr (Any-append_left P xs ys h)

pub Any-concat : {A : Type 0} (P : A → Type 0) (xs : List A) (x : A) → P x → Any P (xs ++ x ∷ [])
Any-concat P [] x h = inl h
Any-concat P (y ∷ xs) x h = inr (Any-concat P xs x h)

-- One section listed.
pub record Pushed (sections : List OutputSection) (name : Bytes) (idx : ℕ)
    (before : List OutputSegment) : Type 0 where
  pub after : List OutputSegment
  pub runs : update_segment name (push_section idx) before ≡ ok after
  pub same_names : map (λ s. s.name) after ≡ map (λ s. s.name) before
  pub listed : All (IsListed (suc idx)) after
  pub apart_from :
      (t : OutputSegment)
      → All (λ id. id < idx) t.sections
      → All (BothApart t) before
      → All (BothApart t) after
  pub apart : AllApart after
  pub room_is : room sections after ≡ room sections before + need_at (get_elem? sections idx)
  pub there : HasSection after name idx
  pub still : (name' : Bytes) (id : ℕ) → HasSection before name' id → HasSection after name' id

pub IsListed-suc : (idx : ℕ) (s : OutputSegment) → IsListed idx s → IsListed (suc idx) s
IsListed-suc idx s h = (h.0, All-imp s.sections (λ id lt. omega (arith, lt)) h.1)

pub push-apart :
    (idx : ℕ) (t : OutputSegment) (ts : List OutputSegment)
    → All (BothApart t) ts
    → All (IsListed idx) ts
    → All (BothApart (record t { sections = t.sections ++ idx ∷ [] })) ts
push-apart idx t [] apart listed = tt
push-apart idx t (u ∷ ts) apart listed = (
  (
    Apart-push_left t.sections u.sections idx apart.0.0 listed.0.1,
    Apart-push_right u.sections t.sections idx apart.0.1 listed.0.1,
  ),
  push-apart idx t ts apart.1 listed.1,
)
