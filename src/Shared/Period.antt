-- ===== src/Shared/Period.antt =====
-- src/shared/entities/period.entity.ts and opt-period.entity.ts. Dates are milliseconds since the
-- epoch.
use vz.Common.{ℕ, Option, some}
use vz.Common.Int.{ℤ}

pub record OptPeriod : Type 0 where
  pub start : Option ℕ
  pub end : Option ℕ
  pub timezone_offset : Option ℤ

pub record Period : Type 0 where
  pub start : ℕ
  pub end : ℕ
  pub timezone_offset : Option ℤ

unfoldable pub to_opt_period : Period → OptPeriod
to_opt_period p = record {
  start = some p.start;
  end = some p.end;
  timezone_offset = p.timezone_offset;
}
