-- ===== src/Dispatching/Scan.antt =====
-- service-provider/queries/handlers/scan-candidates.handler.ts: the providers that a job is offered
-- to. Providers are their ids.
use vz.Common.{ℕ, Bool, false, ◌||◌, List, [], ◌∷◌, ◌==◌, if◌then◌else◌}
use vz.Dispatching.{ScanningZoneType}

-- A service area, and whether it is within its hours now.
pub record ServiceArea : Type 0 where
  pub id : ℕ
  pub is_now_within_coverage : Bool

-- What the repositories answer: the areas of the postal code and of the place, the providers on
-- duty with the skills, and those within given areas.
pub record Repositories : Type 0 where
  pub by_postal_code : List ServiceArea
  pub by_lat_lng : List ServiceArea
  pub on_duty : List ℕ
  pub within : List ServiceArea → List ℕ

abbrev pub covered : List ServiceArea → List ServiceArea
covered [] = []
covered (area ∷ areas) = if area.is_now_within_coverage then area ∷ covered areas else covered areas

-- `exists` has the ids that came before.
abbrev pub includes : List ℕ → ℕ → Bool
includes [] id = false
includes (x ∷ xs) id = (x == id) || includes xs id

unfoldable pub distinct_from : List ℕ → List ℕ → List ℕ
distinct_from exists [] = []
distinct_from exists (id ∷ ids) =
    if includes exists id then distinct_from exists ids else id ∷ distinct_from (id ∷ exists) ids

unfoldable pub distinct : List ℕ → List ℕ
unfolding distinct_from
distinct = distinct_from []

-- After the areas are found.
unfoldable pub within_coverage : Repositories → List ServiceArea → List ℕ
unfolding distinct
within_coverage q areas = elim (covered areas) [
  | [] ↦ []
  | area ∷ others ↦ distinct (q.within (area ∷ others))
]

-- The case of `ALL` has no `break`, and goes on to the default. The ids to be excluded and the
-- number of providers are fields of the query that are not read.
unfoldable pub scan_candidates : ScanningZoneType → List ℕ → ℕ → Repositories → List ℕ
unfolding within_coverage distinct
scan_candidates zone excluded size q = elim zone [
  | ScanningZoneType.postal_code ↦ within_coverage q q.by_postal_code
  | ScanningZoneType.polygon ↦ within_coverage q q.by_lat_lng
  | ScanningZoneType.all ↦ distinct q.on_duty
  | ScanningZoneType.none_zone ↦ distinct q.on_duty
]
