-- ===== src/Dispatching/Exclusive.antt =====
-- Of the offers of one service request only those of one provider are accepted.
use vz.Common.{
  ℕ, ◌≡◌, ◌⊎◌, inl, inr, refl, Bool, true, false, not, ◌&&◌, List, [], ◌∷◌, ◌++◌, map, ◌==◌, All,
  All-append, arith, if◌then◌else◌, Bool-cases,
}
use vz.Common.Int.{ℤ}
use vz.Service.Queries.{is_allocated_to}
use vz.Request.Aggregate.{ServiceRequest}
use vz.Dispatching.{Assignment, AssignmentStatus, AssignmentInput, Tables, create_assignment}
use vz.Dispatching.Events.{set_assignments, is_pending, is_of}
use vz.Dispatching.Assignments.{settle_assignments, taken}

abbrev pub is_accepted : AssignmentStatus → Bool
is_accepted AssignmentStatus.accepted = true
is_accepted _ = false

-- An accepted offer of the request is one to the provider.
abbrev pub IsHeldBy : ℕ → ℕ → Assignment → Type 0
IsHeldBy id p a = ((is_of id a && is_accepted a.status) ≡ false) ⊎ (a.provider_id ≡ p)

abbrev pub IsExclusive : Tables → Type 0
IsExclusive t = (id : ℕ) → (p : ℕ) × All (IsHeldBy id p) t.assignments

pub All-map :
    (P Q : Assignment → Type 0) (f : Assignment → Assignment) (xs : List Assignment)
    → ((a : Assignment) → P a → Q (f a))
    → All P xs
    → All Q (map f xs)
All-map P Q f [] step h = tt
All-map P Q f (x ∷ xs) step h = (step x h.0, All-map P Q f xs step h.1)

All-any : (P : Assignment → Type 0) (xs : List Assignment) → ((a : Assignment) → P a) → All P xs
All-any P [] h = tt
All-any P (x ∷ xs) h = (h x, All-any P xs h)

-- A change to a status that is not accepted.
lapsed-IsHeldBy :
    (id p : ℕ) (status : AssignmentStatus) (test : Bool) (a : Assignment)
    → is_accepted status ≡ false
    → IsHeldBy id p a
    → IsHeldBy id p (if test then record a { status = status } else a)
lapsed-IsHeldBy id p status true a no_accept h = inl (ground arith)
lapsed-IsHeldBy id p status false a no_accept h = h

pub set_assignments-IsExclusive :
    (test : Assignment → Bool) (status : AssignmentStatus) (t : Tables)
    → is_accepted status ≡ false
    → IsExclusive t
    → IsExclusive (set_assignments test status t)
set_assignments-IsExclusive test status t no_accept h id =
    let (p, held) = h id in
    (
      p,
      All-map (IsHeldBy id p) (IsHeldBy id p) _ t.assignments
          (λ a. lapsed-IsHeldBy id p status (test a) a no_accept) held,
    )

-- Offers to others fail, whatever their status was.
settled_one :
    (id p : ℕ) (a : Assignment)
    → let b : Assignment =
        (if is_of id a && ((a.provider_id == p) && is_pending a.status)
          then record a { status = AssignmentStatus.accepted }
          else a) in
      IsHeldBy id p (
        if is_of id b && not (b.provider_id == p)
        then record b { status = AssignmentStatus.failed }
        else b)
settled_one id p a = elim (Bool-cases (is_of id a)) [
  | inl own ↦ elim (Bool-cases (a.provider_id == p)) [
    | inl his ↦ inr (ground arith)
    | inr other ↦ inl (ground arith)
  ]
  | inr foreign ↦ inl (ground arith)
]

-- Other requests keep what they have.
settled_other :
    (id i p q : ℕ) (a : Assignment)
    → (i == id) ≡ false
    → IsHeldBy i q a
    → let b : Assignment =
        (if is_of id a && ((a.provider_id == p) && is_pending a.status)
          then record a { status = AssignmentStatus.accepted }
          else a) in
      IsHeldBy i q (
        if is_of id b && not (b.provider_id == p)
        then record b { status = AssignmentStatus.failed }
        else b)
settled_other id i p q a differ h = elim (Bool-cases (is_of id a)) [
  | inl own ↦ inl (ground arith)
  | inr foreign ↦ rw foreign (rw foreign h)
]

pub settle_assignments-held :
    (id p : ℕ) (t : Tables) → All (IsHeldBy id p) (settle_assignments id p t).assignments
unfolding settle_assignments
settle_assignments-held id p t =
    let first = λ (a : Assignment).
      if is_of id a && ((a.provider_id == p) && is_pending a.status)
      then record a { status = AssignmentStatus.accepted }
      else a in
    let second = λ (a : Assignment).
      if is_of id a && not (a.provider_id == p)
      then record a { status = AssignmentStatus.failed }
      else a in
    All-map (λ b. IsHeldBy id p (second b)) (IsHeldBy id p) second (map first t.assignments)
      (λ b h. h)
      (All-map (λ a. Unit {0}) (λ b. IsHeldBy id p (second b)) first t.assignments
        (λ a h. settled_one id p a) (All-any (λ a. Unit {0}) t.assignments (λ a. tt)))

settle_assignments-kept :
    (id i p q : ℕ) (t : Tables)
    → (i == id) ≡ false
    → All (IsHeldBy i q) t.assignments
    → All (IsHeldBy i q) (settle_assignments id p t).assignments
unfolding settle_assignments
settle_assignments-kept id i p q t differ held =
    let first = λ (a : Assignment).
      if is_of id a && ((a.provider_id == p) && is_pending a.status)
      then record a { status = AssignmentStatus.accepted }
      else a in
    let second = λ (a : Assignment).
      if is_of id a && not (a.provider_id == p)
      then record a { status = AssignmentStatus.failed }
      else a in
    All-map (λ b. IsHeldBy i q (second b)) (IsHeldBy i q) second (map first t.assignments)
      (λ b h. h)
      (All-map (IsHeldBy i q) (λ b. IsHeldBy i q (second b)) first t.assignments
        (λ a h. settled_other id i p q a differ h) held)

pub settle_assignments-IsExclusive :
    (id p : ℕ) (t : Tables) → IsExclusive t → IsExclusive (settle_assignments id p t)
settle_assignments-IsExclusive id p t h i = elim (Bool-cases (i == id)) [
  | inl same ↦ let e : i ≡ id = ground arith in (p, rw e (settle_assignments-held id p t))
  | inr differ ↦ let (q, held) = h i in (q, settle_assignments-kept id i p q t differ held)
]

-- An offer is pending.
pub offered-IsExclusive :
    (seconds_from_now : ℤ → ℕ) (input : AssignmentInput) (t : Tables)
    → IsExclusive t
    → IsExclusive (record t {
      assignments = t.assignments ++ (create_assignment seconds_from_now input ∷ []);
    })
unfolding create_assignment
offered-IsExclusive seconds_from_now input t h id =
    let (p, held) = h id in
    (p, All-append (IsHeldBy id p) t.assignments _ held (inl (ground arith), tt))

pub taken-assignments :
    (id p : ℕ) (sr : ServiceRequest) (t : Tables)
    → (taken id p sr t).tables.assignments ≡ t.assignments
unfolding taken
taken-assignments id p sr t = elim (Bool-cases (is_allocated_to sr.service p)) [
  | inl allocated ↦ rw allocated refl
  | inr other ↦ rw other refl
]

pub taken-IsExclusive :
    (id p : ℕ) (sr : ServiceRequest) (t : Tables)
    → IsExclusive t
    → IsExclusive (taken id p sr t).tables
taken-IsExclusive id p sr t h i = rw (taken-assignments id p sr t) (h i)
