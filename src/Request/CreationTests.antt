-- ===== src/Request/CreationTests.antt =====
-- A request with a code that is created, and one for too soon a time.
use vz.Common.{inr, ◌+◌, ◌≡◌, refl, true, some, none, [], ◌∷◌}
use vz.Common.Int.{◌-ℤ◌, ◌+ℤ◌, ◌*ℤ◌}
use vz.Common.Results.{ok, err}
use vz.Shared.Errors.{type_error, less_than_expected_arrival_window_hour}
use vz.Shared.Tenant.{Tenant}
use vz.Promotion.{Promotion, is_valid, apply}
use vz.Promotion.Codes.{execute}
use vz.Order.Package.{
  new_requested_service_package, revise_from_new_quotations, apply_group_quantity,
}
use vz.Order.Quotation.{lowest_consumer_quotation_tier_based_on_quantity}
use vz.Order.Customer.{total_service_minutes}
use vz.Order.Factory.{create_order}
use vz.Order.Fixtures.{texts, cleaning, percentage_of, tenth, input, ordered, reduced, ordered-made}
use vz.Request.Appointment.{fitting_appointment}
use vz.Request.Rescheduling.{empty_reschedule_order}
use vz.Request.Fixtures.{clock, factory, options, arrival}
use vz.Request.Factory.{
  ServiceRequestInput, NewRequest, Setting, created, create, calculate, create_request, from_order,
  assemble,
}
use vz.Service.Invariant.{fresh}
use vz.Request.Creation.{IsMade, IsAnnounced, create-IsNew, promotion_used_without_request}

abbrev setting : Setting
setting = record {
  find = λ id. some cleaning;
  factory = factory;
  options = options;
  security_code = "23456";
  verification_code = "12345";
}

abbrev asked : ServiceRequestInput
asked = record {
  request_category = Tenant.acson;
  expected_arrival_period = arrival;
  state = "Selangor";
  customer_order = input;
  external_customer_id = none;
}

abbrev new : NewRequest
new = record {
  principal_group = Tenant.acson;
  customer_order = reduced;
  external_customer_id = none;
  security_code = "23456";
  request = record {
    service = fresh true;
    appointment = fitting_appointment clock factory arrival 90;
    customer_reschedule_order = some empty_reschedule_order;
    config = options;
    transitioned_at = none;
    verification_code = "12345";
    have_completed_all_technical_reports = reduced.have_completed_all_technical_reports;
  };
}

new-created :
    (create clock texts percentage_of setting 100 true (some tenth) (some tenth) asked).result
    ≡ ok (new, created new ∷ [])
unfolding create calculate create_request from_order assemble create_order execute is_valid apply
    new_requested_service_package ◌-ℤ◌ ◌+ℤ◌ ◌*ℤ◌ revise_from_new_quotations apply_group_quantity
    lowest_consumer_quotation_tier_based_on_quantity total_service_minutes fitting_appointment
new-created = refl

create-IsNew_example :
    (true ≡ true)
    × IsMade clock texts percentage_of setting 100
        (some tenth)
        (some tenth)
        (create clock texts percentage_of setting 100 true (some tenth) (some tenth) asked).row
        asked
        new
    × IsAnnounced clock texts percentage_of setting new (created new ∷ [])
create-IsNew_example =
    create-IsNew clock texts percentage_of setting 100 true (some tenth) (some tenth) asked new
      (created new ∷ []) new-created

abbrev hasty : ServiceRequestInput
hasty = record asked { expected_arrival_period = record arrival { start = 3600000 } }

promotion_used_without_request_example :
    ((create clock texts percentage_of setting 100 true (some tenth) (some tenth) hasty).result
      ≡ err less_than_expected_arrival_window_hour)
    × ((old : Promotion) × (some tenth ≡ some old)
        × ((create clock texts percentage_of setting 100 true (some tenth) (some tenth) hasty).row
            ≡ some (record old { usage_count = old.usage_count + 1 })))
promotion_used_without_request_example =
    promotion_used_without_request clock texts percentage_of setting 100 (some tenth) (some tenth)
      hasty "TENTH" ordered refl ordered-made (inr refl)

-- The remarks are left out.
abbrev silent : ServiceRequestInput
silent = record asked { customer_order = record input { remarks = none } }

code_used_up_for_nothing :
    ((create clock texts percentage_of setting 100 true (some tenth) (some tenth) silent).result
      ≡ err type_error)
    × ((create clock texts percentage_of setting 100 true (some tenth) (some tenth) silent).row
        ≡ some (record tenth { usage_count = 5 }))
unfolding create calculate create_request from_order create_order execute is_valid apply
    new_requested_service_package ◌-ℤ◌ ◌+ℤ◌ ◌*ℤ◌ revise_from_new_quotations apply_group_quantity
    lowest_consumer_quotation_tier_based_on_quantity
code_used_up_for_nothing = (refl, refl)
