-- ===== src/Order/Report.antt =====
-- service-request/entities/technical-report.entity.ts and dto/technical-note.dto.ts. The ids of
-- notes are decimal texts, which are only compared: they are the numbers that they spell.
use text.Mathlib.Text.{◌==◌ as str_eq}
use vz.Common.{
  ℕ, zero, suc, ◌+◌, String, Bool, true, false, ◌||◌, Option, none, some, List, [], ◌∷◌, ◌==◌,
  length, if◌then◌else◌, ltb,
}
use vz.Common.Results.{Result, ok, err, ◌>>=◌}
use vz.Shared.Errors.{entity_not_found}

pub record TechnicalNote : Type 0 where
  pub id : ℕ
  pub image_urls : List String
  pub model : Option String
  pub serial_number : Option String
  pub service_summary : String

pub record TechnicalReport : Type 0 where
  pub notes : List TechnicalNote
  pub completed : Bool

-- The constructor of `TechnicalNoteDto`; the friendly name is left out.
abbrev pub new_note : ℕ → TechnicalNote
new_note id = record {
  id = id;
  image_urls = [];
  model = some "";
  serial_number = some "";
  service_summary = "";
}

-- `!text`
abbrev pub is_blank : Option String → Bool
is_blank none = true
is_blank (some s) = str_eq s ""

abbrev pub is_pending : TechnicalNote → Bool
is_pending n = is_blank n.model || is_blank n.serial_number

-- `notes.filter(...).length`
unfoldable pub pending_notes : List TechnicalNote → ℕ
pending_notes [] = 0
pending_notes (n ∷ ns) = if is_pending n then suc (pending_notes ns) else pending_notes ns

unfoldable pub calculate_has_been_completed : List TechnicalNote → Bool
unfolding pending_notes
calculate_has_been_completed notes =
    if ltb (length notes) 1 then false else ltb (pending_notes notes) 1

-- `new TechnicalReport(notes)`
unfoldable pub new_report : List TechnicalNote → TechnicalReport
unfolding calculate_has_been_completed
new_report notes = record { notes = notes; completed = calculate_has_been_completed notes }

-- `findIndex` and the write at that index; `none` for an index below 0.
unfoldable pub replace_note : TechnicalNote → List TechnicalNote → Option (List TechnicalNote)
replace_note new [] = none
replace_note new (n ∷ ns) =
    let rest = replace_note new ns in
    if n.id == new.id then some (new ∷ ns) else elim rest [ none ↦ none | some ms ↦ some (n ∷ ms) ]

-- The loop of `replaceNotes`.
unfoldable pub replace_all : List TechnicalNote → List TechnicalNote → Result (List TechnicalNote)
unfolding replace_note
replace_all [] notes = ok notes
replace_all (new ∷ news) notes = elim (replace_note new notes) [
  | none ↦ err (entity_not_found "TechnicalNoteDto")
  | some notes' ↦ replace_all news notes'
]

unfoldable pub replace_notes : List TechnicalNote → TechnicalReport → Result TechnicalReport
unfolding replace_all new_report
replace_notes news r = do notes ← replace_all news r.notes; ok (new_report notes)

abbrev pub num_of_notes : TechnicalReport → ℕ
num_of_notes r = length r.notes

-- The loop of `generate` with the rounds that are left, and `i` notes made.
unfoldable pub notes_from : ℕ → ℕ → List TechnicalNote
notes_from i zero = []
notes_from i (suc left) = new_note (i + 1) ∷ notes_from (i + 1) left

unfoldable pub generate : ℕ → TechnicalReport
unfolding notes_from new_report
generate quantity = new_report (notes_from 0 quantity)
