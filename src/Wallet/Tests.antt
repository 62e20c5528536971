-- ===== src/Wallet/Tests.antt =====
-- A wallet that gets an income, holds back a payout and releases it.
use vz.Common.{ℕ, ◌≡◌, refl, Option, none, some, ◌==◌, if◌then◌else◌, false, arith, [], ◌∷◌}
use vz.Common.Int.{pos}
use vz.Shared.Tenant.{Tenant}
use vz.Wallet.{
  WalletPayout, PaidRequest, WalletTransaction, WalletTransactionStatus, for_income, for_payout,
  from_owner, release_balance_for_payout,
}
use vz.Wallet.Handlers.{create_income_transaction, hold_balance, release_balance}
use vz.Wallet.Books.{Books, Run, start, next, earned, reserved, paid, here, IsSquare}
use vz.Wallet.Balances.{Run-IsSquare}

abbrev income : PaidRequest
income = record {
  id = 1;
  principal_group = Tenant.daikin;
  dispatcher_id = 7;
  service_provider_earning = pos 240;
  has_been_rescheduled_once = false;
  requires_surcharge = false;
  has_paid_surcharge = false;
  impacted_service_provider_id = 7;
  impacted_service_provider_compensation_amount = pos 0;
}

abbrev payout : WalletPayout
payout = record { id = 3; owner_id = 7; principal_group = Tenant.daikin; amount = pos 240 }

abbrev payouts : ℕ → Option WalletPayout
payouts i = if i == 3 then some payout else none

payouts-ids : (i : ℕ) (p : WalletPayout) → payouts i ≡ some p → p.id ≡ i
payouts-ids i p h = ground arith

abbrev earning : WalletTransaction
earning = for_income (from_owner 7) income

abbrev holding : WalletTransaction
holding = for_payout earning.wallet payout

abbrev settled : WalletTransaction
settled = record holding {
  wallet = release_balance_for_payout (pos 240) holding.wallet;
  status = WalletTransactionStatus.success;
}

abbrev settled_books : Books
settled_books = record { wallet = some settled.wallet; transactions = settled ∷ earning ∷ [] }

settled_books-Run : Run payouts settled_books
unfolding create_income_transaction hold_balance release_balance for_income
settled_books-Run =
    next (next (next start (earned income {t = earning} refl)) (reserved 3 {t = holding} refl))
      (paid 3 {t = holding} {t' = settled} (here (earning ∷ [])) refl refl refl)

Run-IsSquare_example : IsSquare payouts settled_books
Run-IsSquare_example = Run-IsSquare payouts payouts-ids settled_books-Run
