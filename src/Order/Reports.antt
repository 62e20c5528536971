-- ===== src/Order/Reports.antt =====
-- Technical reports: technical-report.entity.ts.
use vz.Common.{
  ℕ, zero, suc, ◌+◌, ◌<◌, ◌≡◌, refl, sym, ◌∙◌, true, false, ap, List, [], ◌∷◌, map, arith, length,
  length-map, All, some, ◌↔◌, Option-cases, inl, inr,
}
use vz.Common.Results.{ok, >>=-eq-ok, ok-injective}
use vz.Order.Report.{
  TechnicalNote, TechnicalReport, is_pending, pending_notes, calculate_has_been_completed,
  new_report, replace_note, replace_all, replace_notes, num_of_notes, notes_from, generate,
}

length-notes_from : (i n : ℕ) → length (notes_from i n) ≡ n
unfolding notes_from
length-notes_from i zero = refl
length-notes_from i (suc n) = ap suc (length-notes_from (i + 1) n)

pub num_of_notes-generate : (n : ℕ) → num_of_notes (generate n) ≡ n
unfolding generate new_report
num_of_notes-generate n = length-notes_from 0 n

-- The ids stay where they are.
abbrev ids : List TechnicalNote → List ℕ
ids = map (λ n. n.id)

replace_note-ids :
    (new : TechnicalNote) (notes notes' : List TechnicalNote)
    → replace_note new notes ≡ some notes'
    → ids notes' ≡ ids notes
unfolding replace_note
replace_note-ids new [] notes' h = cc
replace_note-ids new (n ∷ ns) notes' h = elim (Option-cases (replace_note new ns)) [
  | inl missing ↦ ground arith
  | inr (ms, found) ↦ ground (arith, replace_note-ids new ns ms found)
]

replace_all-ids :
    (news notes : List TechnicalNote) {notes' : List TechnicalNote}
    → replace_all news notes ≡ ok notes'
    → ids notes' ≡ ids notes
unfolding replace_all
replace_all-ids [] notes h = ap ids (sym (ok-injective h))
replace_all-ids (new ∷ news) notes h = elim (Option-cases (replace_note new notes)) [
  | inl missing ↦ ground arith
  | inr (ms, found) ↦
      replace_all-ids news ms (rw (found, replace_all) at h) ∙ replace_note-ids new notes ms found
]

abbrev pub IsFilled : List TechnicalNote → Type 0
IsFilled = All (λ n. is_pending n ≡ false)

pending_notes_iff : (notes : List TechnicalNote) → (pending_notes notes ≡ 0) ↔ IsFilled notes
unfolding pending_notes
pending_notes_iff [] = (λ _. tt, λ _. refl)
pending_notes_iff (n ∷ ns) = let (to, from) = pending_notes_iff ns in ground arith

calculate_has_been_completed_iff :
    (notes : List TechnicalNote)
    → (calculate_has_been_completed notes ≡ true) ↔ ((0 < length notes) × IsFilled notes)
unfolding calculate_has_been_completed
calculate_has_been_completed_iff notes = let (to, from) = pending_notes_iff notes in ground arith

length-ids : (xs ys : List TechnicalNote) → ids xs ≡ ids ys → length xs ≡ length ys
length-ids xs ys e = sym (length-map xs _) ∙ ap length e ∙ length-map ys _

-- Notes that are handed in replace those of the same ids: a report keeps the ids of its notes in
-- their order, so also their number, and is completed exactly when it has a note and every note
-- has a model and a serial number.
pub replace_notes_lem :
    (news : List TechnicalNote) (r r' : TechnicalReport)
    → replace_notes news r ≡ ok r'
    → (map (λ n. n.id) r'.notes ≡ map (λ n. n.id) r.notes)
      × (num_of_notes r' ≡ num_of_notes r)
      × ((r'.completed ≡ true) ↔ ((0 < length r'.notes) × IsFilled r'.notes))
unfolding replace_notes new_report
replace_notes_lem news r r' h =
    let (notes, done, e) = >>=-eq-ok (replace_all news r.notes) _ h in
    let same = replace_all-ids news r.notes done in
    rw (← ok-injective e)
      (same, length-ids notes r.notes same, calculate_has_been_completed_iff notes)
