-- ===== src/Dispatching/Candidates.antt =====
-- What the scan for candidates finds, as a set of providers.
use vz.Common.{
  if◌then◌else◌, ℕ, ◌≡◌, inl, inr, refl, sym, ap, ◌∙◌, Bool, true, false, not, ◌&&◌, List, [], ◌∷◌,
  ◌==◌, arith, Bool-cases,
}
use vz.Dispatching.{ScanningZoneType}
use vz.Dispatching.Scan.{
  Repositories, ServiceArea, covered, includes, distinct_from, distinct, within_coverage,
  scan_candidates,
}

-- No id comes twice.
abbrev pub IsDistinct : List ℕ → Type 0
IsDistinct [] = Unit {0}
IsDistinct (x ∷ xs) = (includes xs x ≡ false) × IsDistinct xs

abbrev kept_if : Bool → ServiceArea → List ServiceArea → List ServiceArea
kept_if true area areas = area ∷ areas
kept_if false area areas = areas

-- The areas that are within their hours, in their order.
abbrev open_areas : List ServiceArea → List ServiceArea
open_areas [] = []
open_areas (area ∷ areas) = kept_if area.is_now_within_coverage area (open_areas areas)

kept_if-eq :
    (test : Bool) (area : ServiceArea) {xs ys : List ServiceArea}
    → xs ≡ ys
    → (if test then area ∷ xs else xs) ≡ kept_if test area ys
kept_if-eq true area e = ap (area ∷◌) e
kept_if-eq false area e = e

covered-eq : (areas : List ServiceArea) → covered areas ≡ open_areas areas
covered-eq [] = refl
covered-eq (area ∷ areas) = kept_if-eq area.is_now_within_coverage area (covered-eq areas)

-- Whoever is on duty, and in areas that are open where the zone goes by areas.
-- Nobody is looked for where no area is open.
abbrev is_within : Repositories → List ServiceArea → ℕ → Bool
is_within q [] id = false
is_within q (area ∷ areas) id = includes (q.within (area ∷ areas)) id

abbrev pub is_candidate : ScanningZoneType → Repositories → ℕ → Bool
is_candidate ScanningZoneType.postal_code q id = is_within q (open_areas q.by_postal_code) id
is_candidate ScanningZoneType.polygon q id = is_within q (open_areas q.by_lat_lng) id
is_candidate _ q id = includes q.on_duty id

==-refl : (x : ℕ) → (x == x) ≡ true
==-refl x = ground arith

and_false : (b : Bool) → (b && false) ≡ false
and_false true = refl
and_false false = refl

and_true : (b : Bool) → (b && true) ≡ b
and_true true = refl
and_true false = refl

distinct_from-includes :
    (exists ids : List ℕ) (id : ℕ)
    → includes (distinct_from exists ids) id ≡ (includes ids id && not (includes exists id))
unfolding distinct_from
distinct_from-includes exists [] id = refl
distinct_from-includes exists (x ∷ xs) id = elim (Bool-cases (includes exists x)) [
  | inl seen ↦ rw seen (elim (Bool-cases (x == id)) [
    | inl same ↦
        let e : x ≡ id = ground arith in
        let seen' : includes exists id ≡ true = ap (includes exists) (sym e) ∙ seen in
        rw (distinct_from-includes exists xs id, same, seen') (and_false (includes xs id))
    | inr other ↦ rw (distinct_from-includes exists xs id, other) refl
  ])
  | inr new ↦ rw new (elim (Bool-cases (x == id)) [
    | inl same ↦
        let e : x ≡ id = ground arith in
        let new' : includes exists id ≡ false = ap (includes exists) (sym e) ∙ new in
        rw (same, new') refl
    | inr other ↦ rw (distinct_from-includes (x ∷ exists) xs id, other) refl
  ])
]

distinct_from-IsDistinct : (exists ids : List ℕ) → IsDistinct (distinct_from exists ids)
unfolding distinct_from
distinct_from-IsDistinct exists [] = tt
distinct_from-IsDistinct exists (x ∷ xs) = elim (Bool-cases (includes exists x)) [
  | inl seen ↦ rw seen (distinct_from-IsDistinct exists xs)
  | inr new ↦ rw new (
    distinct_from-includes (x ∷ exists) xs x ∙ rw (==-refl x) (and_false (includes xs x)),
    distinct_from-IsDistinct (x ∷ exists) xs,
  )
]

-- A list is the set of those that a test has.
abbrev pub IsSetOf : (ℕ → Bool) → List ℕ → Type 0
IsSetOf test ids = IsDistinct ids × ((id : ℕ) → includes ids id ≡ test id)

distinct-IsSetOf : (ids : List ℕ) → IsSetOf (includes ids) (distinct ids)
unfolding distinct
distinct-IsSetOf ids = (
  distinct_from-IsDistinct [] ids,
  λ id. distinct_from-includes [] ids id ∙ and_true (includes ids id),
)

within_coverage-IsSetOf :
    (q : Repositories) (areas opened : List ServiceArea)
    → covered areas ≡ opened
    → IsSetOf (is_within q opened) (within_coverage q areas)
unfolding within_coverage
within_coverage-IsSetOf q areas [] e = rw (within_coverage, e) (tt, λ id. refl)
within_coverage-IsSetOf q areas (area ∷ others) e =
    rw (within_coverage, e) (distinct-IsSetOf (q.within (area ∷ others)))

-- Scanning finds each provider once, and exactly those whom the zone describes: without a zone, or
-- with the zone of all, everybody on duty; by postal code or by place, those within the areas that
-- are open, and nobody where none is. Whom the query excludes and how many it asks for makes no
-- difference.
pub scan_candidates-IsSetOf :
    (zone : ScanningZoneType) (excluded : List ℕ) (size : ℕ) (q : Repositories)
    → IsSetOf (is_candidate zone q) (scan_candidates zone excluded size q)
unfolding scan_candidates
scan_candidates-IsSetOf ScanningZoneType.postal_code excluded size q =
    within_coverage-IsSetOf q q.by_postal_code (open_areas q.by_postal_code)
      (covered-eq q.by_postal_code)
scan_candidates-IsSetOf ScanningZoneType.polygon excluded size q =
    within_coverage-IsSetOf q q.by_lat_lng (open_areas q.by_lat_lng) (covered-eq q.by_lat_lng)
scan_candidates-IsSetOf ScanningZoneType.all excluded size q = distinct-IsSetOf q.on_duty
scan_candidates-IsSetOf ScanningZoneType.none_zone excluded size q = distinct-IsSetOf q.on_duty
