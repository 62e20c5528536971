-- ===== src/Request/Appointment.antt =====
-- service-request/entities/appointment.entity.ts and factories/appointment.factory.ts.
use vz.Common.{ℕ, Bool, ◌==◌, ◌&&◌, ◌||◌, leb, Option, none, some, false}
use vz.Common.Int.{ℤ, pos, leb_ℤ}
use vz.Common.Results.{Result, ok, ◌>>◌, throw_if}
use vz.Shared.Errors.{less_than_expected_arrival_window_hour}
use vz.Shared.Period.{Period}
use vz.Request.Moment.{Moment}

pub record Appointment : Type 0 where
  pub block_after_in_minutes : ℕ
  pub block_before_in_minutes : ℕ
  pub expected_arrival_period : Period
  pub service_schedule : Period
  pub total_service_minutes : ℕ

-- What `AppointmentFactory` reads of the configuration.
pub record AppointmentConfig : Type 0 where
  pub expected_arrival_window_hour : ℕ
  pub block_before_in_minutes : ℕ
  pub block_after_in_minutes : ℕ
  pub timezone_offset : ℤ

abbrev pub is_expected_arrival_time_equal_to : ℕ → Appointment → Bool
is_expected_arrival_time_equal_to date a = date == a.expected_arrival_period.start

module _ (m : Moment) where
  unfoldable pub calculate_service_schedule : ℤ → Period → ℕ → Period
  calculate_service_schedule timezone_offset arrival minutes = record {
    start = arrival.start;
    end = m.add_minutes arrival.start minutes;
    timezone_offset = some timezone_offset;
  }

  unfoldable pub fitting_appointment : AppointmentConfig → Period → ℕ → Appointment
  unfolding calculate_service_schedule
  fitting_appointment config arrival minutes = record {
    block_after_in_minutes = config.block_after_in_minutes;
    block_before_in_minutes = config.block_before_in_minutes;
    expected_arrival_period = record arrival { timezone_offset = some config.timezone_offset };
    service_schedule = calculate_service_schedule config.timezone_offset arrival minutes;
    total_service_minutes = minutes;
  }

  -- The constructor, as `AppointmentFactory.create` calls it.
  unfoldable pub create_appointment : AppointmentConfig → Period → ℕ → ℕ → Result Appointment
  unfolding fitting_appointment
  create_appointment config arrival minutes now = do
    throw_if (m.is_before arrival.start (m.add_hours now config.expected_arrival_window_hour))
        less_than_expected_arrival_window_hour
    ok (fitting_appointment config arrival minutes)

  -- A comparison with `undefined` is false.
  unfoldable pub is_expected_arrival_time_less_than_duration_from_now :
      Option ℕ → ℕ → Appointment → Bool
  is_expected_arrival_time_less_than_duration_from_now none now a = false
  is_expected_arrival_time_less_than_duration_from_now (some hours) now a =
      leb_ℤ (m.diff_hours a.expected_arrival_period.start now) (pos hours)

  unfoldable pub is_expected_arrival_time_more_than_duration_from_now : ℕ → ℕ → Appointment → Bool
  is_expected_arrival_time_more_than_duration_from_now hours now a =
      leb_ℤ (pos hours) (m.diff_hours a.expected_arrival_period.start now)

  unfoldable pub seconds_till_expected_arrival_date : ℕ → Appointment → ℤ
  seconds_till_expected_arrival_date now a = m.diff_seconds a.expected_arrival_period.start now

  unfoldable pub is_worker_schedule_overlapped : ℕ → ℕ → Appointment → Bool
  is_worker_schedule_overlapped start end a =
      let start1 = m.unix a.expected_arrival_period.start in
      let end1 = m.unix (m.add_minutes a.expected_arrival_period.start a.total_service_minutes) in
      let start2 = m.unix start in
      let end2 = m.unix end in
      (leb start2 start1 && leb start1 end2) || (leb start1 start2 && leb start2 end1)
