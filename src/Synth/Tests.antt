-- ===== src/Synth/Tests.antt =====
-- Runs of the slot sections: a symbol that is asked for twice keeps its slot.
use afs_ld.Prelude.{ℕ, ◌≡◌, refl, true, false, [], ◌∷◌, some}
use afs_ld.Synth.{Section, intern, get, GotEntry, got_intern}
use afs_ld.Synth.Slots.{IsIndexed, Interned, intern_lem}

abbrev first : GotEntry
first = record { symbol = 7; weak_import = false }

abbrev second : GotEntry
second = record { symbol = 9; weak_import = true }

abbrev no_slots : Section GotEntry
no_slots = record { entries = []; index = [] }

abbrev one_slot : Section GotEntry
one_slot = record { entries = first ∷ []; index = (7, 0) ∷ [] }

got_first : got_intern no_slots 7 false ≡ (one_slot, 0)
unfolding got_intern intern
got_first = refl

got_again : got_intern one_slot 7 true ≡ (one_slot, 0)
unfolding got_intern intern
got_again = refl

abbrev symbol_of : GotEntry → ℕ
symbol_of e = e.symbol

no_slots-IsIndexed : IsIndexed symbol_of no_slots
no_slots-IsIndexed = record { held = λ symbol idx h. cc; named = λ idx e h. cc }

one_slot-IsIndexed : IsIndexed symbol_of one_slot
unfolding got_intern intern
one_slot-IsIndexed = (intern_lem symbol_of no_slots no_slots-IsIndexed 7 first refl).0

intern_lem_example :
    Interned symbol_of one_slot one_slot-IsIndexed 9 second refl (intern one_slot 9 second)
intern_lem_example = intern_lem symbol_of one_slot one_slot-IsIndexed 9 second refl

slot_7 : get one_slot 7 ≡ some (0, some first)
unfolding get
slot_7 = refl
