-- ===== src/Request/Guards.antt =====
-- What the guards of a service request let through.
use vz.Common.{ℕ, ◌+◌, ◌*◌, ◌≤◌, ◌≡◌, ◌⊎◌, ◌↔◌, true, false, arith, some, if◌then◌else◌}
use vz.Common.Results.{ok}
use vz.Service.Status.{ServiceStatus, ServiceAllocationStatus}
use vz.Service.Provider.{ServiceProvider, is_worker, is_independent, create, create_empty_provider}
use vz.Service.Build.{Service, build}
use vz.Shared.Period.{Period}
use vz.Service.Queries.{
  has_been_assigned_or_allocated, has_been_cancelled, has_been_fulfilled, has_been_closed,
  has_customer_paid, is_assigned_or_allocated_to,
}
use vz.Service.Operations as Job
use vz.Request.Moment.{Moment, IsMoment}
use vz.Request.Appointment.{is_expected_arrival_time_more_than_duration_from_now}
use vz.Request.Aggregate.{
  ServiceRequest, limit_or, has_been_rescheduled_once, validate_allow_ec_cancel, cancel_by_customer,
  assign_to_dispatcher, taken_by,
}

module _ (m : Moment) where
  -- The hours until the arrival, when it lies ahead.
  pub more_than-hours :
      (hours now : ℕ) (sr : ServiceRequest)
      → IsMoment m
      → now ≤ sr.appointment.expected_arrival_period.start
      → (is_expected_arrival_time_more_than_duration_from_now m hours now sr.appointment ≡ true)
        ↔ (now + hours * 3600000 ≤ sr.appointment.expected_arrival_period.start)
  unfolding is_expected_arrival_time_more_than_duration_from_now
  more_than-hours hours now sr laws ahead =
      let diff = laws.diff_hours sr.appointment.expected_arrival_period.start now ahead in
      rw diff (ground arith, ground arith)

  -- A customer can cancel a service request, whose arrival lies ahead, exactly when it is paid, has
  -- never been rescheduled, is neither fulfilled nor closed, and its arrival is at least the hours
  -- of the limit away, which is 24 where none is set. The job is then cancelled by the customer,
  -- and nobody has it.
  pub cancel_by_customer_iff :
      (now : ℕ) (sr : ServiceRequest)
      → IsMoment m
      → now ≤ sr.appointment.expected_arrival_period.start
      → ((t : ServiceRequest) × (cancel_by_customer m now sr ≡ ok t)
          × (t.service.status ≡ ServiceStatus.cancelled_by_customer)
          × (t.service.allocation_status ≡ ServiceAllocationStatus.unassigned))
        ↔ ((has_customer_paid sr.service ≡ true)
            × (has_been_rescheduled_once sr ≡ false)
            × (has_been_fulfilled sr.service ≡ false)
            × (has_been_closed sr.service ≡ false)
            × (now
                  + limit_or sr.config.hour_limit_before_ec_cancellation_option_is_disabled 24
                    * 3600000
                ≤ sr.appointment.expected_arrival_period.start))
  unfolding cancel_by_customer validate_allow_ec_cancel Job.cancel_by_customer
      Job.terminate_provider build create_empty_provider
  cancel_by_customer_iff now sr laws ahead =
      let limit = limit_or sr.config.hour_limit_before_ec_cancellation_option_is_disabled 24 in
      let (to, from) = more_than-hours limit now sr laws ahead in
      (
        λ (t, done, _, _). ground arith,
        λ (paid, once, undone, unclosed, soon).
            let ok_time = from soon in
            (
              record sr { service = Job.cancel_by_customer sr.service; transitioned_at = some now },
              ground arith,
              ground arith,
              ground arith,
            ),
      )

  taken_by_lem :
      (dispatcher : ServiceProvider) (period : Period) (job u : Service)
      → taken_by dispatcher period job ≡ ok u
      → (u.allocation_status ≡ (
          if is_independent dispatcher
          then ServiceAllocationStatus.allocated
          else ServiceAllocationStatus.assigned))
        × (is_assigned_or_allocated_to u dispatcher.id ≡ true)
  unfolding taken_by Job.assign_to_dispatcher Job.allocate_to_worker create build
  taken_by_lem dispatcher period job u taken = ground arith

  pub assign_to_dispatcher-ok :
      (dispatcher : ServiceProvider) (sr t : ServiceRequest)
      → assign_to_dispatcher m dispatcher sr ≡ ok t
      → (is_worker dispatcher ≡ false)
        × ((has_been_assigned_or_allocated sr.service ≡ false)
            ⊎ (has_been_cancelled sr.service ≡ true))
        × ((sr.config.payment_gateway_enabled ≡ false) ⊎ (has_customer_paid sr.service ≡ true))
        × (taken_by dispatcher sr.appointment.service_schedule sr.service ≡ ok t.service)
  unfolding assign_to_dispatcher
  assign_to_dispatcher-ok dispatcher sr t e = ground arith

  -- A dispatcher who gets a service request is no worker, the request was free or cancelled, and
  -- where payments are on it was paid. It is then allocated to an independent provider as his own
  -- worker, and assigned to a dealer.
  pub assign_to_dispatcher_lem :
      (dispatcher : ServiceProvider) (sr t : ServiceRequest)
      → assign_to_dispatcher m dispatcher sr ≡ ok t
      → (is_worker dispatcher ≡ false)
        × ((has_been_assigned_or_allocated sr.service ≡ false)
            ⊎ (has_been_cancelled sr.service ≡ true))
        × ((sr.config.payment_gateway_enabled ≡ false) ⊎ (has_customer_paid sr.service ≡ true))
        × (t.service.allocation_status ≡ (
            if is_independent dispatcher
            then ServiceAllocationStatus.allocated
            else ServiceAllocationStatus.assigned))
        × (is_assigned_or_allocated_to t.service dispatcher.id ≡ true)
  assign_to_dispatcher_lem dispatcher sr t e =
      let (no_worker, untaken, solvent, taken) = assign_to_dispatcher-ok dispatcher sr t e in
      let (allocation, his) =
        taken_by_lem dispatcher sr.appointment.service_schedule sr.service t.service taken in
      (no_worker, untaken, solvent, allocation, his)
