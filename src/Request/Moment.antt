-- ===== src/Request/Moment.antt =====
-- What src/service-request calls of the library moment, as an interface: dates are milliseconds
-- since the epoch, and `moment.utc(d)` is the date d. The laws are those of the library's
-- documentation.
use vz.Common.{ℕ, ◌+◌, ◌-◌, ◌*◌, ◌/◌, ◌≤◌, ◌≡◌, Bool, ltb}
use vz.Common.Int.{ℤ, pos}

pub record Moment : Type 0 where
  pub is_before : ℕ → ℕ → Bool
  pub add_hours : ℕ → ℕ → ℕ
  pub add_minutes : ℕ → ℕ → ℕ
  -- `a.diff(b, 'hours')`, cut towards 0.
  pub diff_hours : ℕ → ℕ → ℤ
  pub diff_seconds : ℕ → ℕ → ℤ
  pub unix : ℕ → ℕ

pub record IsMoment (m : Moment) : Type 0 where
  pub is_before : (a b : ℕ) → m.is_before a b ≡ ltb a b
  pub add_hours : (d h : ℕ) → m.add_hours d h ≡ d + h * 3600000
  pub add_minutes : (d n : ℕ) → m.add_minutes d n ≡ d + n * 60000
  pub diff_hours : (a b : ℕ) → b ≤ a → m.diff_hours a b ≡ pos ((a - b) / 3600000)
  pub unix : (d : ℕ) → m.unix d ≡ d / 1000
