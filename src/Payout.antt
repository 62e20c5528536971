-- ===== src/Payout.antt =====
-- src/payout/entities and src/payout/enums: payouts to service providers, and the lines that say
-- what each is for.
use vz.Common.{ℕ, String, Bool, true, false, not, Option, none, some, List}
use vz.Common.Int.{ℤ, pos}
use vz.Common.Results.{Result, ok, ◌>>◌, throw_if}
use vz.Shared.Errors.{plain}
use vz.Shared.Tenant.{Tenant}
use vz.Wallet.{WalletTransaction}
mod Lines
mod Processing
mod Factory
mod Groups
mod LineFactory
mod Due
mod LineTotals
mod Filing
mod LineTests
mod Batch
mod Batches
mod BatchTests
mod Tenants
mod ScbPayment
mod ScbRecords
mod ScbFile
mod ScbTests
mod SummaryFile
mod Summaries
mod SummaryTests
mod LinesFile
mod JobNumbers
mod ReturnFile
mod ReturnFiles
mod Scheduling
mod Tests

pub data PayoutStatus : Type 0 where
  failed in_transit paid scheduled : PayoutStatus

-- Of service-provider/service-provider.entity.ts, what payouts read.
pub record Bank : Type 0 where
  pub bank_name : Option String
  pub account_holder_name : Option String
  pub account_number : Option String
  pub swift_code : Option String

pub record Payout : Type 0 where
  pub amount : ℤ
  pub bank : Bank
  pub owner_id : ℕ
  pub principal_group : Tenant
  pub status : PayoutStatus
  pub wallet_transactions : List WalletTransaction
  pub processed_amount : ℤ
