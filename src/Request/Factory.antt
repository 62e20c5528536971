-- ===== src/Request/Factory.antt =====
-- service-request/entities/factories/service-request.factory.ts, and `create` and `calculate` of
-- service-request/service-request.service.ts: a request is made with its order, its appointment
-- and its job. The contact, the address and the two random codes are handed on; the reminders,
-- which only go to a queue, are left out.
use vz.Common.{ℕ, String, Bool, true, Option, some, List, [], ◌∷◌, if◌then◌else◌}
use vz.Common.Int.{ℤ}
use vz.Common.Results.{required, Result, ok, err, ◌>>=◌}
use vz.Shared.Errors.{out_of_service_coverage}
use vz.Shared.Period.{Period}
use vz.Shared.Tenant.{Tenant}
use vz.Promotion.{Promotion}
use vz.Service.Provider.{create_empty_provider}
use vz.Service.Operations.{derived_from}
use vz.Order.Quotation.{StringMethods}
use vz.Order.Pricing.{ServicePackage}
use vz.Order.Customer.{CustomerOrder, total_service_minutes}
use vz.Order.Factory.{CustomerOrderInput, Ordered, create_order}
use vz.Request.Moment.{Moment}
use vz.Request.Appointment.{AppointmentConfig, create_appointment}
use vz.Request.Rescheduling.{empty_reschedule_order}
use vz.Request.Aggregate.{Options, ServiceRequest}

-- service-request/dto/service-request.input.ts; of the address, the state.
pub record ServiceRequestInput : Type 0 where
  pub request_category : Tenant
  pub expected_arrival_period : Period
  pub state : String
  pub customer_order : CustomerOrderInput
  pub external_customer_id : Option String

-- The new request, with the fields that its guards do not read.
pub record NewRequest : Type 0 where
  pub principal_group : Tenant
  pub customer_order : CustomerOrder
  pub external_customer_id : Option String
  pub security_code : String
  pub request : ServiceRequest

-- What the factory knows: the catalogue, the configuration, and the texts that the two random
-- numbers make.
pub record Setting : Type 0 where
  pub find : ℕ → Option ServicePackage
  pub factory : AppointmentConfig
  pub options : Options
  pub security_code : String
  pub verification_code : String

-- cqrs/events/service-request.event.ts
pub data Published : Type 0 where
  created confirmed : NewRequest → Published

-- What a call leaves: the row of the promotion, also where it throws, and its result.
pub record Outcome (A : Type 0) : Type 0 where
  pub row : Option Promotion
  pub result : Result A

module _ (m : Moment) (texts : StringMethods) (percentage_of : ℤ → ℤ → ℤ) (setting : Setting) where
  -- The part of the factory after the order is there, whose minutes can be summed up. `now` is the
  -- clock.
  unfoldable pub assemble : (now : ℕ) → ServiceRequestInput → CustomerOrder → Result NewRequest
  unfolding create_appointment
  assemble now input order = do
    appointment ←
        create_appointment m setting.factory input.expected_arrival_period
          (total_service_minutes order) now
    ok (record {
      principal_group = input.request_category;
      customer_order = order;
      external_customer_id = input.external_customer_id;
      security_code = setting.security_code;
      request = record {
        service =
            derived_from [] (some create_empty_provider) [] setting.options.payment_gateway_enabled;
        appointment = appointment;
        customer_reschedule_order = some empty_reschedule_order;
        config = setting.options;
        transitioned_at = Option.none;
        verification_code = setting.verification_code;
        have_completed_all_technical_reports = order.have_completed_all_technical_reports;
      };
    })

  -- What follows the call that makes the order, and with it writes the row of the promotion. The
  -- minutes of an order without fields cannot be summed up: the packages are undefined.
  unfoldable pub from_order :
      (now : ℕ) → Option Promotion → ServiceRequestInput → Result Ordered → Outcome NewRequest
  from_order now row input (err e) = record { row = row; result = err e }
  from_order now row input (ok c) = record {
    row = c.row;
    result = (required c.order >>= assemble now input);
  }

  -- `ServiceRequestFactory.create`. The promotion is written before the appointment is made.
  unfoldable pub create_request :
      (now : ℕ)
      → (found : Option Promotion) → (for_commit : Bool) → (row : Option Promotion)
      → ServiceRequestInput
      → Outcome NewRequest
  create_request now found for_commit row input = from_order now row input (
      create_order texts percentage_of setting.find now found for_commit row input.state
        input.customer_order)

  -- `covered` is the answer of the service areas to the address.
  unfoldable pub calculate :
      (now : ℕ)
      → (covered : Bool) → (found : Option Promotion) → (for_commit : Bool)
      → (row : Option Promotion) → ServiceRequestInput
      → Outcome NewRequest
  calculate now covered found for_commit row input =
      if covered
      then create_request now found for_commit row input
      else record { row = row; result = err out_of_service_coverage }

  -- The events that are published; the save succeeds.
  unfoldable pub create :
      (now : ℕ)
      → (covered : Bool) → (found row : Option Promotion) → ServiceRequestInput
      → Outcome (NewRequest × List Published)
  create now covered found row input =
      let o = calculate now covered found true row input in
      record {
        row = o.row;
        result =
            (o.result >>= λ r. ok (
              r,
              if r.request.config.payment_gateway_enabled
                  then created r ∷ []
                  else created r ∷ confirmed r ∷ [],
            ));
      }
