-- ===== src/Payout/Due.antt =====
-- What the transactions that are paid out are to add up to.
use vz.Common.{◌≡◌, ap, ◌∙◌, List, [], ◌∷◌, ◌||◌, if◌then◌else◌}
use vz.Common.Int.{ℤ, pos, ◌+ℤ◌, int_laws}
use vz.Common.Sums.{sum_of, foldl-sum_of}
use vz.Wallet.{WalletTransaction, WalletTransactionType, is_compensation}
use vz.Order.Pricing.{RequestedServicePackage}
use vz.Order.Customer
use vz.Payout.Lines.{PayoutLine}
use vz.Payout.LineFactory.{is_income}

abbrev pub amount_of : PayoutLine → ℤ
amount_of l = l.amount

-- What the lines of a transaction are to add up to.
abbrev pub due : WalletTransaction → ℤ
due t = if is_income t.type || is_compensation t.type then t.amount else pos 0

abbrev pub income_due : WalletTransaction → ℤ
income_due t = if is_income t.type then t.amount else pos 0

abbrev pub compensation_due : WalletTransaction → ℤ
compensation_due t = if is_compensation t.type then t.amount else pos 0

regroup : (a b c d : ℤ) → (a +ℤ b) +ℤ (c +ℤ d) ≡ (a +ℤ c) +ℤ (b +ℤ d)
regroup a b c d = grind int_laws

plus_zero : (a : ℤ) → (a +ℤ pos 0 ≡ a) × (pos 0 +ℤ a ≡ a)
plus_zero a = (grind int_laws, grind int_laws)

due_of_type :
    (k : WalletTransactionType) (a : ℤ)
    → (if is_income k then a else pos 0) +ℤ (if is_compensation k then a else pos 0)
      ≡ (if is_income k || is_compensation k then a else pos 0)
due_of_type WalletTransactionType.income a = (plus_zero a).0
due_of_type WalletTransactionType.reschedule_surcharge_compensation a = (plus_zero a).1
due_of_type WalletTransactionType.refund a = (plus_zero (pos 0)).0
due_of_type WalletTransactionType.top_up a = (plus_zero (pos 0)).0
due_of_type WalletTransactionType.payout a = (plus_zero (pos 0)).0

due-split : (t : WalletTransaction) → income_due t +ℤ compensation_due t ≡ due t
due-split t = due_of_type t.type t.amount

pub both_due :
    (ts : List WalletTransaction)
    → sum_of income_due ts +ℤ sum_of compensation_due ts ≡ sum_of due ts
both_due [] = grind int_laws
both_due (t ∷ ts) =
    regroup (income_due t) (sum_of income_due ts) (compensation_due t) (sum_of compensation_due ts)
    ∙ ap (λ s. s +ℤ (sum_of income_due ts +ℤ sum_of compensation_due ts)) (due-split t)
    ∙ ap (λ s. due t +ℤ s) (both_due ts)

pub sum_of-Customer :
    (f : RequestedServicePackage → ℤ) (rs : List RequestedServicePackage)
    → Customer.sum_of f rs ≡ sum_of f rs
unfolding Customer.sum_of
sum_of-Customer f rs = foldl-sum_of f rs
