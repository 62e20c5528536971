-- ===== src/Request/Schedules.antt =====
-- Appointments in time: when one can be made, and when two overlap.
use vz.Common.{
  ℕ, ◌+◌, ◌*◌, ◌/◌, ◌≤◌, ◌<◌, ◌≡◌, ◌⊎◌, ◌↔◌, inl, inr, true, arith, leb, Bool-cases, refl,
}
use vz.Common.Results.{ok, err}
use vz.Shared.Errors.{less_than_expected_arrival_window_hour}
use vz.Shared.Period.{Period}
use vz.Request.Moment.{Moment, IsMoment}
use vz.Request.Appointment.{
  Appointment, AppointmentConfig, create_appointment, fitting_appointment,
  calculate_service_schedule, is_worker_schedule_overlapped,
}

module _ (m : Moment) (laws : IsMoment m) where
  -- An appointment is made exactly when its arrival starts no earlier than the hours of the window
  -- after now. It then starts when it was asked to, and its schedule lasts the minutes of service
  -- from there; otherwise the error says that it is too early.
  pub create_appointment_lem :
      (config : AppointmentConfig) (arrival : Period) (minutes now : ℕ)
      → ((now + config.expected_arrival_window_hour * 3600000 ≤ arrival.start)
          × (a : Appointment) × (create_appointment m config arrival minutes now ≡ ok a)
          × (a.expected_arrival_period.start ≡ arrival.start)
          × (a.service_schedule.start ≡ arrival.start)
          × (a.service_schedule.end ≡ arrival.start + minutes * 60000)
          × (a.total_service_minutes ≡ minutes))
        ⊎ ((arrival.start < now + config.expected_arrival_window_hour * 3600000)
            × (create_appointment m config arrival minutes now
                ≡ err less_than_expected_arrival_window_hour))
  unfolding create_appointment fitting_appointment calculate_service_schedule
  create_appointment_lem config arrival minutes now =
      let window = laws.add_hours now config.expected_arrival_window_hour in
      let before =
        laws.is_before arrival.start (m.add_hours now config.expected_arrival_window_hour) in
      let lasts = laws.add_minutes arrival.start minutes in
      elim (Bool-cases
        (m.is_before arrival.start (m.add_hours now config.expected_arrival_window_hour))) [
          | inl early ↦ inr (ground arith, ground arith)
          | inr late ↦ inl (
            ground arith,
            fitting_appointment m config arrival minutes,
            ground arith,
            refl,
            refl,
            lasts,
            refl,
          )
        ]

  -- For a period that does not end before it starts, the test for an overlap with an appointment
  -- holds exactly when some second lies in both, their ends included.
  pub is_worker_schedule_overlapped_iff :
      (start end : ℕ) (a : Appointment)
      → start ≤ end
      → (is_worker_schedule_overlapped m start end a ≡ true) ↔ (
          (s : ℕ) × (start / 1000 ≤ s)
          × (s ≤ end / 1000)
          × (a.expected_arrival_period.start / 1000 ≤ s)
          × (s ≤ (a.expected_arrival_period.start + a.total_service_minutes * 60000) / 1000))
  unfolding is_worker_schedule_overlapped
  is_worker_schedule_overlapped_iff start end a order =
      let from = a.expected_arrival_period.start in
      let u1 = laws.unix from in
      let u2 = laws.unix (m.add_minutes from a.total_service_minutes) in
      let u3 = laws.unix start in
      let u4 = laws.unix end in
      let add = laws.add_minutes from a.total_service_minutes in
      (
        λ h. elim (Bool-cases (leb (start / 1000) (from / 1000))) [
          | inl inside ↦ (from / 1000, ground arith, ground arith, ground arith, ground arith)
          | inr outside ↦ (start / 1000, ground arith, ground arith, ground arith, ground arith)
        ],
        λ (s, b, c, d, e). ground arith,
      )
