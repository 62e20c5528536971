-- ===== src/Wallet.antt =====
-- src/wallet/entities and src/wallet/enums: wallets, and the transactions that move their balances.
-- A transaction holds its wallet, which is saved with it.
use vz.Common.{ℕ, Bool, true, false, Option, none, some, if◌then◌else◌, not}
use vz.Common.Int.{ℤ, pos, ◌+ℤ◌, ◌-ℤ◌}
use vz.Shared.Tenant.{Tenant}
mod Handlers
mod Books
mod Replacements
mod Balances
mod Tests

pub data WalletTransactionType : Type 0 where
  income refund top_up payout reschedule_surcharge_compensation : WalletTransactionType

pub data WalletTransactionStatus : Type 0 where
  pending success failed : WalletTransactionStatus

pub data SourceType : Type 0 where
  payout refund service_request : SourceType

pub record Source : Type 0 where
  pub id : ℕ
  pub type : SourceType

abbrev from_service_request : ℕ → Source
from_service_request id = record { id = id; type = SourceType.service_request }

abbrev from_payout : ℕ → Source
from_payout id = record { id = id; type = SourceType.payout }

pub record Wallet : Type 0 where
  pub available_balance : ℤ
  pub hold_balance : ℤ
  pub owner_id : ℕ
  pub prepaid_balance : ℤ

pub record WalletTransaction : Type 0 where
  -- None until the transaction is saved.
  pub id : Option ℕ
  pub amount : ℤ
  pub owner_id : ℕ
  pub principal_group : Tenant
  pub type : WalletTransactionType
  pub wallet : Wallet
  pub status : WalletTransactionStatus
  pub source : Option Source
  pub payout_id : Option ℕ
  pub service_request_id : Option ℕ

abbrev pub from_owner : ℕ → Wallet
from_owner owner_id = record {
  available_balance = pos 0;
  hold_balance = pos 0;
  owner_id = owner_id;
  prepaid_balance = pos 0;
}

unfoldable pub debit : ℤ → Wallet → Wallet
debit amount w = record w { available_balance = w.available_balance +ℤ amount }

unfoldable pub hold_balance_for_payout : ℤ → Wallet → Wallet
hold_balance_for_payout amount w = record w {
  available_balance = w.available_balance -ℤ amount;
  hold_balance = w.hold_balance +ℤ amount;
}

unfoldable pub release_balance_for_payout : ℤ → Wallet → Wallet
release_balance_for_payout amount w = record w { hold_balance = w.hold_balance -ℤ amount }

-- What the getters of `IServiceRequest` return to the wallet.
pub record PaidRequest : Type 0 where
  pub id : ℕ
  pub principal_group : Tenant
  pub dispatcher_id : ℕ
  pub service_provider_earning : ℤ
  pub has_been_rescheduled_once : Bool
  pub requires_surcharge : Bool
  pub has_paid_surcharge : Bool
  pub impacted_service_provider_id : ℕ
  pub impacted_service_provider_compensation_amount : ℤ

-- What the getters of `IPayout` return to the wallet.
pub record WalletPayout : Type 0 where
  pub id : ℕ
  pub owner_id : ℕ
  pub principal_group : Tenant
  pub amount : ℤ

-- `forIncome` and `forRescheduleSurchargeCompensation` differ in the type and the amount.
abbrev credited : WalletTransactionType → ℤ → Wallet → PaidRequest → WalletTransaction
credited type amount w sr = record {
  id = none;
  amount = amount;
  owner_id = w.owner_id;
  principal_group = sr.principal_group;
  type = type;
  wallet = debit amount w;
  status = WalletTransactionStatus.success;
  source = some (from_service_request sr.id);
  payout_id = none;
  service_request_id = some sr.id;
}

unfoldable pub for_reschedule_surcharge_compensation : Wallet → PaidRequest → WalletTransaction
unfolding debit
for_reschedule_surcharge_compensation w sr =
    credited WalletTransactionType.reschedule_surcharge_compensation
      sr.impacted_service_provider_compensation_amount w sr

unfoldable pub for_income : Wallet → PaidRequest → WalletTransaction
unfolding debit
for_income w sr = credited WalletTransactionType.income sr.service_provider_earning w sr

unfoldable pub for_payout : Wallet → WalletPayout → WalletTransaction
unfolding hold_balance_for_payout
for_payout w p = record {
  id = none;
  amount = pos 0 -ℤ p.amount;
  owner_id = w.owner_id;
  principal_group = p.principal_group;
  type = WalletTransactionType.payout;
  wallet = hold_balance_for_payout p.amount w;
  status = WalletTransactionStatus.pending;
  source = some (from_payout p.id);
  payout_id = some p.id;
  service_request_id = none;
}

abbrev pub is_payout : WalletTransactionType → Bool
is_payout WalletTransactionType.payout = true
is_payout _ = false

abbrev pub is_pending : WalletTransactionStatus → Bool
is_pending WalletTransactionStatus.pending = true
is_pending _ = false

abbrev pub is_compensation : WalletTransactionType → Bool
is_compensation WalletTransactionType.reschedule_surcharge_compensation = true
is_compensation _ = false

-- The transaction as it is when the method returns true; `none` when it returns false.
unfoldable pub release_payout : Wallet → WalletPayout → WalletTransaction → Option WalletTransaction
unfolding release_balance_for_payout
release_payout w p t =
    if not (is_payout t.type)
    then none
    else some (record t {
      wallet = release_balance_for_payout p.amount w;
      status = WalletTransactionStatus.success;
    })
