-- ===== src/Wallet/Handlers.antt =====
-- src/wallet/commands/handlers: create-income-transaction, create-reschedule-surcharge-
-- compensation-transaction, hold-balance-for-payout and release-balance-for-payout. Each handler is
-- a function of what its queries of the database answer, in their order, to the transaction that
-- it saves; `none` is a return before the save.
use vz.Common.{ℕ, Option, none, some, List, length, ltb, not, ◌||◌, is_some, if◌then◌else◌}
use vz.Common.Results.{Result, ok, err}
use vz.Shared.Errors.{entity_not_found}
use vz.Wallet.{
  Wallet, WalletTransaction, WalletPayout, PaidRequest, from_owner, for_income,
  for_reschedule_surcharge_compensation, for_payout, release_payout,
}

-- `(await this.walletRepository.findOne({ ownerId })) || Wallet.fromOwner(ownerId)`
abbrev pub found_or_new : ℕ → Option Wallet → Wallet
found_or_new owner_id none = from_owner owner_id
found_or_new owner_id (some w) = w

unfoldable pub create_income_transaction :
    Option PaidRequest → Option Wallet → Result WalletTransaction
unfolding for_income
create_income_transaction none wallet = err (entity_not_found "ServiceRequest")
create_income_transaction (some sr) wallet =
    ok (for_income (found_or_new sr.dispatcher_id wallet) sr)

-- The third argument is the compensation that is there already.
unfoldable pub create_reschedule_surcharge_compensation_transaction :
    Option PaidRequest
    → Option Wallet
    → Option WalletTransaction
    → Result (Option WalletTransaction)
unfolding for_reschedule_surcharge_compensation
create_reschedule_surcharge_compensation_transaction none wallet compensated =
    err (entity_not_found "ServiceRequest")
create_reschedule_surcharge_compensation_transaction (some sr) wallet compensated =
    if not sr.has_been_rescheduled_once || not sr.requires_surcharge || not sr.has_paid_surcharge
    then ok none
    else if is_some compensated
    then ok none
    else ok (
        some (
          for_reschedule_surcharge_compensation
            (found_or_new sr.impacted_service_provider_id wallet) sr))

-- The second argument lists the payout transactions of the payout.
unfoldable pub hold_balance :
    Option WalletPayout → List WalletTransaction → Option Wallet → Result (Option WalletTransaction)
unfolding for_payout
hold_balance none wallet_payouts wallet = err (entity_not_found "Payout")
hold_balance (some p) wallet_payouts wallet =
    if ltb 0 (length wallet_payouts)
    then ok none
    else elim wallet [ none ↦ ok none | some w ↦ ok (some (for_payout w p)) ]

-- The third argument is the pending payout transaction of the payout.
unfoldable pub release_balance :
    Option WalletPayout
    → Option Wallet
    → Option WalletTransaction
    → Result (Option WalletTransaction)
unfolding release_payout
release_balance none wallet transaction = err (entity_not_found "Payout")
release_balance (some p) none transaction = ok none
release_balance (some p) (some w) none = ok none
release_balance (some p) (some w) (some t) = ok (release_payout w p t)
