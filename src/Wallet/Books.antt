-- ===== src/Wallet/Books.antt =====
-- The wallet of one service provider with its transactions, as the handlers of src/wallet write
-- them: a transaction that is new is added, and one that was read is replaced.
use vz.Common.{
  ℕ, ◌≤◌, ◌≡◌, Bool, true, ◌&&◌, Option, none, some, List, [], ◌∷◌, length, All, is_id,
  if◌then◌else◌,
}
use vz.Common.Int.{ℤ, pos, ◌+ℤ◌, ◌-ℤ◌}
use vz.Common.Results.{ok}
use vz.Wallet.{
  Wallet, WalletTransaction, WalletTransactionStatus, WalletPayout, PaidRequest, is_payout,
  is_pending,
}
use vz.Wallet.Handlers.{
  create_income_transaction, create_reschedule_surcharge_compensation_transaction, hold_balance,
  release_balance,
}

pub record Books : Type 0 where
  pub wallet : Option Wallet
  pub transactions : List WalletTransaction

abbrev pub opened : Books
opened = record { wallet = none; transactions = [] }

abbrev pub available : Option Wallet → ℤ
available none = pos 0
available (some w) = w.available_balance

abbrev pub held : Option Wallet → ℤ
held none = pos 0
held (some w) = w.hold_balance

abbrev pub sum : (WalletTransaction → ℤ) → List WalletTransaction → ℤ
sum f [] = pos 0
sum f (t ∷ ts) = f t +ℤ sum f ts

-- What a transaction holds back: the amount of a pending payout.
abbrev pub pending_amount : WalletTransaction → ℤ
pending_amount t = if is_payout t.type && is_pending t.status then pos 0 -ℤ t.amount else pos 0

abbrev pub is_payout_of : ℕ → WalletTransaction → Bool
is_payout_of i t = is_payout t.type && is_id t.payout_id i

-- `find({ type: PAYOUT, payoutId })`
abbrev pub payouts_of : ℕ → List WalletTransaction → List WalletTransaction
payouts_of i [] = []
payouts_of i (t ∷ ts) = if is_payout_of i t then t ∷ payouts_of i ts else payouts_of i ts

-- One occurrence of `t` is replaced by `t'`.
pub data Replaced (t t' : WalletTransaction)
    : List WalletTransaction → List WalletTransaction → Type 0 where
  here : (ts : List WalletTransaction) → Replaced t t' (t ∷ ts) (t' ∷ ts)
  there :
      (x : WalletTransaction) {ts ts' : List WalletTransaction}
      → Replaced t t' ts ts'
      → Replaced t t' (x ∷ ts) (x ∷ ts')

abbrev pub added : WalletTransaction → Books → Books
added t b = record { wallet = some t.wallet; transactions = t ∷ b.transactions }

-- `payouts` answers `GetPayoutQuery`, which looks a payout up by its id. Amounts of payouts stay
-- as they are.
module _ (payouts : ℕ → Option WalletPayout) where
  pub data Step (b : Books) : Books → Type 0 where
    earned :
        (sr : PaidRequest) {t : WalletTransaction}
        → create_income_transaction (some sr) b.wallet ≡ ok t
        → Step b (added t b)
    compensated :
        (sr : PaidRequest) (known : Option WalletTransaction) {t : WalletTransaction}
        → create_reschedule_surcharge_compensation_transaction (some sr) b.wallet known
          ≡ ok (some t)
        → Step b (added t b)
    reserved :
        (i : ℕ) {t : WalletTransaction}
        → hold_balance (payouts i) (payouts_of i b.transactions) b.wallet ≡ ok (some t)
        → Step b (added t b)
    paid :
        (i : ℕ) {t t' : WalletTransaction} {ts' : List WalletTransaction}
        → Replaced t t' b.transactions ts'
        → t.payout_id ≡ some i
        → t.status ≡ WalletTransactionStatus.pending
        → release_balance (payouts i) b.wallet (some t) ≡ ok (some t')
        → Step b (record { wallet = some t'.wallet; transactions = ts' })

  pub data Run : Books → Type 0 where
    start : Run opened
    next : {b c : Books} → Run b → Step b c → Run c

  abbrev pub IsBacked : WalletTransaction → Type 0
  IsBacked t =
      is_payout t.type ≡ true
      → (i : ℕ) × (p : WalletPayout) × (t.payout_id ≡ some i)
        × (payouts i ≡ some p)
        × (t.amount ≡ pos 0 -ℤ p.amount)

  pub record IsSquare (b : Books) : Type 0 where
    pub available : available b.wallet ≡ sum (λ t. t.amount) b.transactions
    pub held : held b.wallet ≡ sum pending_amount b.transactions
    pub backed : All IsBacked b.transactions
    pub once : (i : ℕ) → length (payouts_of i b.transactions) ≤ 1
