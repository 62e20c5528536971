-- ===== src/Wallet/Replacements.antt =====
-- Lists of transactions in which one has been replaced.
use vz.Common.{ℕ, ◌≡◌, Option, List, arith, length, All}
use vz.Common.Int.{ℤ, ◌+ℤ◌, ◌-ℤ◌, int_laws}
use vz.Wallet.{WalletTransaction, WalletPayout}
use vz.Wallet.Books.{sum, is_payout_of, payouts_of, Replaced, here, there, IsBacked}

module _ (payouts : ℕ → Option WalletPayout) where
  pub sum-Replaced :
      (f : WalletTransaction → ℤ) {t t' : WalletTransaction} {ts ts' : List WalletTransaction}
      → Replaced t t' ts ts'
      → sum f ts' ≡ sum f ts +ℤ f t' -ℤ f t
  sum-Replaced f (here ts) = grind int_laws
  sum-Replaced f (there x r) = grind (int_laws, sum-Replaced f r)

  pub length-Replaced :
      (i : ℕ) {t t' : WalletTransaction} {ts ts' : List WalletTransaction}
      → Replaced t t' ts ts'
      → is_payout_of i t' ≡ is_payout_of i t
      → length (payouts_of i ts') ≡ length (payouts_of i ts)
  length-Replaced i (here ts) e = ground arith
  length-Replaced i (there x r) e = ground (arith, length-Replaced i r e)

  pub All-Replaced :
      {t t' : WalletTransaction} {ts ts' : List WalletTransaction}
      → Replaced t t' ts ts'
      → All (IsBacked payouts) ts
      → IsBacked payouts t'
      → All (IsBacked payouts) ts'
  All-Replaced (here ts) h b = (b, h.1)
  All-Replaced (there x r) h b = (h.0, All-Replaced r h.1 b)

  pub All-old :
      {t t' : WalletTransaction} {ts ts' : List WalletTransaction}
      → Replaced t t' ts ts'
      → All (IsBacked payouts) ts
      → IsBacked payouts t
  All-old (here ts) h = h.0
  All-old (there x r) h = All-old r h.1
