-- ===== src/Request/Creation.antt =====
-- What a request is that is created, and what a creation that fails leaves behind.
use mathlib.Core.List.{foldl}
use mathlib.Core.Path.{subst}
use vz.Common.{
  none, ◌⊎◌, ◌∙◌, arith, Option-cases, ℕ, ◌+◌, String, ◌≡◌, refl, sym, ap, Bool, true, false,
  Option, some, List, [], ◌∷◌, Bool-cases, inl, inr, if◌then◌else◌,
}
use vz.Common.Int.{ℤ}
use vz.Common.Results.{Result, ok, err, >>=-eq-ok, ok-injective}
use vz.Shared.Errors.{Error, type_error, less_than_expected_arrival_window_hour}
use vz.Promotion.{Promotion}
use vz.Service.Invariant.{fresh}
use vz.Order.Quotation.{StringMethods}
use vz.Order.Customer.{total_service_minutes, CustomerOrder}
use vz.Order.Factory.{Ordered, create_order}
use vz.Order.Creation.{create_order-IsCounted}
use vz.Order.Pricing.{RequestedServicePackage}
use vz.Request.Moment.{Moment}
use vz.Request.Appointment.{calculate_service_schedule, create_appointment, fitting_appointment}
use vz.Request.Aggregate.{Options}
use vz.Request.Factory.{
  ServiceRequestInput, NewRequest, Setting, Published, created, confirmed, assemble, create_request,
  from_order, calculate, create,
}

abbrev pub minutes_of : List RequestedServicePackage → ℕ
minutes_of [] = 0
minutes_of (r ∷ rs) = r.total_service_minutes + minutes_of rs

foldl-minutes :
    (total : ℕ) (rs : List RequestedServicePackage)
    → foldl (λ total r. total + r.total_service_minutes) total rs ≡ total + minutes_of rs
foldl-minutes total [] = omega arith
foldl-minutes total (r ∷ rs) = omega (arith, foldl-minutes (total + r.total_service_minutes) rs)

total_service_minutes-sum :
    (order : CustomerOrder) → total_service_minutes order ≡ minutes_of order.service_packages
unfolding total_service_minutes
total_service_minutes-sum order = omega (arith, foldl-minutes 0 order.service_packages)

module _ (m : Moment) (texts : StringMethods) (percentage_of : ℤ → ℤ → ℤ) (setting : Setting) where
  abbrev pub too_soon : ℕ → ServiceRequestInput → Bool
  too_soon now input =
      m.is_before input.expected_arrival_period.start
        (m.add_hours now setting.factory.expected_arrival_window_hour)

  abbrev pub order_of :
      ℕ → Option Promotion → Option Promotion → ServiceRequestInput → Result Ordered
  order_of now found row input =
      create_order texts percentage_of setting.find now found true row input.state
        input.customer_order

  -- A new request is that of the order: its appointment is at the time asked for, is far enough
  -- ahead, and takes the minutes of all packages, and its job is a fresh one.
  pub record IsNew (now : ℕ) (input : ServiceRequestInput) (order : CustomerOrder) (r : NewRequest)
      : Type 0 where
    pub of_order : r.customer_order ≡ order
    pub ahead : too_soon now input ≡ false
    pub arrival :
        r.request.appointment.expected_arrival_period ≡ record input.expected_arrival_period {
          timezone_offset = some setting.factory.timezone_offset;
        }
    pub schedule : r.request.appointment.service_schedule ≡ record {
      start = input.expected_arrival_period.start;
      end = m.add_minutes input.expected_arrival_period.start (minutes_of order.service_packages);
      timezone_offset = some setting.factory.timezone_offset;
    }
    pub minutes : r.request.appointment.total_service_minutes ≡ minutes_of order.service_packages
    pub configured : r.request.config ≡ setting.options
    pub unstarted : r.request.service ≡ fresh setting.options.payment_gateway_enabled

  assemble-IsNew :
      (now : ℕ) (input : ServiceRequestInput) (order : CustomerOrder) (r : NewRequest)
      → assemble m texts percentage_of setting now input order ≡ ok r
      → IsNew now input order r
  unfolding assemble create_appointment fitting_appointment calculate_service_schedule
  assemble-IsNew now input order r e = elim (Bool-cases (too_soon now input)) [
    | inl soon ↦ cc (rw soon at e)
    | inr ahead ↦
        let same = ok-injective (rw ahead at e) in
        let summed = total_service_minutes-sum order in
        record {
          of_order = ap (λ n. n.customer_order) (sym same);
          ahead = ahead;
          arrival = ap (λ n. n.request.appointment.expected_arrival_period) (sym same);
          schedule =
              ap (λ n. n.request.appointment.service_schedule) (sym same)
              ∙ ap
                  (λ (minutes : ℕ). record {
                    start = input.expected_arrival_period.start;
                    end = m.add_minutes input.expected_arrival_period.start minutes;
                    timezone_offset = some setting.factory.timezone_offset;
                  })
                  summed;
          minutes = ap (λ n. n.request.appointment.total_service_minutes) (sym same) ∙ summed;
          configured = ap (λ n. n.request.config) (sym same);
          unstarted = ap (λ n. n.request.service) (sym same);
        }
  ]

  assemble-err :
      (now : ℕ) (input : ServiceRequestInput) (order : CustomerOrder)
      → too_soon now input ≡ true
      → assemble m texts percentage_of setting now input order
        ≡ err less_than_expected_arrival_window_hour
  unfolding assemble
  assemble-err now input order soon = rw soon refl

  -- A request that is new, of an order that the factory has made.
  abbrev pub IsMade :
      ℕ → (found row row' : Option Promotion) → ServiceRequestInput → NewRequest → Type 0
  IsMade now found row row' input r =
      (c : Ordered) × (order : CustomerOrder) × (order_of now found row input ≡ ok c)
      × (row' ≡ c.row)
      × (c.order ≡ some order)
      × IsNew now input order r

  create_request-IsMade :
      (now : ℕ) (found row : Option Promotion) (input : ServiceRequestInput) (r : NewRequest)
      (ordered : Result Ordered)
      → order_of now found row input ≡ ordered
      → (create_request m texts percentage_of setting now found true row input).result ≡ ok r
      → IsMade now found row
          (create_request m texts percentage_of setting now found true row input).row
          input
          r
  unfolding create_request from_order
  create_request-IsMade now found row input r (err e) is h = cc (rw is at h)
  create_request-IsMade now found row input r (ok c) is h = elim (Option-cases c.order) [
    | inl empty ↦ cc (rw (is, empty) at h)
    | inr (order, there) ↦
        (c, order, is, rw is refl, there, assemble-IsNew now input order r (rw (is, there) at h))
  ]

  -- What is published of a new request.
  abbrev pub IsAnnounced : NewRequest → List Published → Type 0
  IsAnnounced r events =
      ((setting.options.payment_gateway_enabled ≡ true) × (events ≡ created r ∷ []))
      ⊎ ((setting.options.payment_gateway_enabled ≡ false)
          × (events ≡ created r ∷ confirmed r ∷ []))

  announced :
      (r : NewRequest)
      → r.request.config ≡ setting.options
      → IsAnnounced r (
          if r.request.config.payment_gateway_enabled
          then created r ∷ []
          else created r ∷ confirmed r ∷ [])
  announced r h =
      let enabled = ap (λ (o : Options). o.payment_gateway_enabled) h in
      elim (Bool-cases setting.options.payment_gateway_enabled) [
        | inl paid_first ↦ inl (paid_first, rw (enabled ∙ paid_first) refl)
        | inr free ↦ inr (free, rw (enabled ∙ free) refl)
      ]

  -- A call that creates a request was made for an address that is covered, an order that the factory
  -- made (with its promotion used), and a time that is far enough ahead; the request has that order,
  -- an appointment at the time asked for that takes the sum of the minutes of all packages, and a
  -- fresh job; and what is published is its creation, followed by its confirmation where it need not
  -- be paid for.
  pub create-IsNew :
      (now : ℕ) (covered : Bool) (found row : Option Promotion) (input : ServiceRequestInput)
      (r : NewRequest) (events : List Published)
      → (create m texts percentage_of setting now covered found row input).result ≡ ok (r, events)
      → (covered ≡ true)
        × IsMade now found row
            (create m texts percentage_of setting now covered found row input).row
            input
            r
        × IsAnnounced r events
  unfolding create calculate
  create-IsNew now false found row input r events h = cc
  create-IsNew now true found row input r events h =
      let (r', made, h') =
        >>=-eq-ok (create_request m texts percentage_of setting now found true row input).result _
          h in
      let new = create_request-IsMade now found row input r' _ refl made in
      subst
        (λ (x : NewRequest × List Published).
          (true ≡ true)
          × IsMade now found row
              (create_request m texts percentage_of setting now found true row input).row input
              (x.0)
          × IsAnnounced (x.0) (x.1))
        (ok-injective h') (refl, new, announced r' (new.5).configured)

  -- The error that ends a creation after its order is made.
  abbrev pub thrown_after : Option CustomerOrder → Error
  thrown_after none = type_error
  thrown_after (some order) = less_than_expected_arrival_window_hour

  from_order-err :
      (now : ℕ) (row : Option Promotion) (input : ServiceRequestInput) (c : Ordered)
      → (c.order ≡ none) ⊎ (too_soon now input ≡ true)
      → (from_order m texts percentage_of setting now row input (ok c)).result
        ≡ err (thrown_after c.order)
  unfolding from_order
  from_order-err now row input c (inl empty) = rw empty refl
  from_order-err now row input c (inr soon) = elim (Option-cases c.order) [
    | inl empty ↦ rw empty refl
    | inr (order, there) ↦ rw there (assemble-err now input order soon)
  ]

  -- Where the order is made with a code, and the arrival is too soon or the remarks were left out, so
  -- that the order has no fields, the call throws, no request is there, and yet one use of the code
  -- is counted.
  pub promotion_used_without_request :
      (now : ℕ) (found row : Option Promotion) (input : ServiceRequestInput) (code : String)
      (c : Ordered)
      → input.customer_order.promo_code ≡ some code
      → order_of now found row input ≡ ok c
      → (c.order ≡ none) ⊎ (too_soon now input ≡ true)
      → ((create m texts percentage_of setting now true found row input).result
          ≡ err (thrown_after c.order))
        × ((old : Promotion) × (row ≡ some old)
            × ((create m texts percentage_of setting now true found row input).row
                ≡ some (record old { usage_count = old.usage_count + 1 })))
  unfolding create calculate create_request from_order
  promotion_used_without_request now found row input code c has ordered fails = (
    rw ordered (rw (from_order-err now row input c fails) refl),
    elim (create_order-IsCounted texts percentage_of setting.find now found row input.state
        input.customer_order c ordered) [
          | inl (no_code, same) ↦ cc
          | inr (old, there, counted) ↦ (old, there, rw ordered counted)
        ],
  )
