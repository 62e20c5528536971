-- ===== src/Wallet/Balances.antt =====
-- The balances of a wallet follow from its transactions, whatever the handlers of src/wallet have
-- written.
use vz.Common.{ℕ, ◌≡◌, refl, sym, ap, ◌∙◌, true, false, Option, none, some, List, arith, length}
use vz.Common.Int.{pos, ◌+ℤ◌, ◌-ℤ◌, int_laws}
use vz.Common.Results.{ok, ok-injective}
use vz.Wallet.{
  Wallet, WalletTransaction, WalletTransactionStatus, WalletPayout, PaidRequest, is_payout,
  for_income, for_reschedule_surcharge_compensation, for_payout, release_payout, debit,
  hold_balance_for_payout, release_balance_for_payout,
}
use vz.Wallet.Handlers.{
  found_or_new, create_income_transaction, create_reschedule_surcharge_compensation_transaction,
  hold_balance, release_balance,
}
use vz.Wallet.Books.{
  Books, available, held, sum, pending_amount, is_payout_of, payouts_of, Replaced, added, earned,
  compensated, reserved, paid, Run, start, next, IsSquare,
}
use vz.Wallet.Replacements.{sum-Replaced, length-Replaced, All-Replaced, All-old}

module _ (payouts : ℕ → Option WalletPayout) where
  found_balances :
      (owner_id : ℕ) (w : Option Wallet)
      → ((found_or_new owner_id w).available_balance ≡ available w)
        × ((found_or_new owner_id w).hold_balance ≡ held w)
  found_balances owner_id none = (refl, refl)
  found_balances owner_id (some w) = (refl, refl)

  -- A transaction that is no payout, and whose amount its wallet has got.
  credit-IsSquare :
      (b : Books) (t : WalletTransaction)
      → is_payout t.type ≡ false
      → t.wallet.available_balance ≡ available b.wallet +ℤ t.amount
      → t.wallet.hold_balance ≡ held b.wallet
      → IsSquare payouts b
      → IsSquare payouts (added t b)
  credit-IsSquare b t k a d h = record {
    available = let old = h.available in grind int_laws;
    held = let old = h.held in rw (k) (grind int_laws);
    backed = (λ y. cc, h.backed);
    once = λ i. rw k (h.once i);
  }

  earned-IsSquare :
      (b : Books) (sr : PaidRequest) {t : WalletTransaction}
      → create_income_transaction (some sr) b.wallet ≡ ok t
      → IsSquare payouts b
      → IsSquare payouts (added t b)
  unfolding create_income_transaction for_income debit
  earned-IsSquare b sr e h =
      let (same, kept) = found_balances sr.dispatcher_id b.wallet in
      rw (← ok-injective e)
        (credit-IsSquare b _ refl (ap (λ x. x +ℤ sr.service_provider_earning) same) kept h)

  compensation-IsSquare :
      (b : Books) (sr : PaidRequest)
      → IsSquare payouts b
      → IsSquare payouts (
          added
            (for_reschedule_surcharge_compensation
              (found_or_new sr.impacted_service_provider_id b.wallet)
              sr)
            b)
  unfolding for_reschedule_surcharge_compensation debit
  compensation-IsSquare b sr h =
      let (same, kept) = found_balances sr.impacted_service_provider_id b.wallet in
      credit-IsSquare b _ refl
        (ap (λ x. x +ℤ sr.impacted_service_provider_compensation_amount) same) kept h

  compensated-IsSquare :
      (b : Books) (sr : PaidRequest) (known : Option WalletTransaction) {t : WalletTransaction}
      → create_reschedule_surcharge_compensation_transaction (some sr) b.wallet known ≡ ok (some t)
      → IsSquare payouts b
      → IsSquare payouts (added t b)
  unfolding create_reschedule_surcharge_compensation_transaction
  compensated-IsSquare b sr known {t = t} e h =
      let made : for_reschedule_surcharge_compensation
            (found_or_new sr.impacted_service_provider_id b.wallet) sr
          ≡ t =
        ground arith in
      rw (← made) (compensation-IsSquare b sr h)

  hold_balance-ok :
      (p : Option WalletPayout) (known : List WalletTransaction) (w : Option Wallet)
      {t : WalletTransaction}
      → hold_balance p known w ≡ ok (some t)
      → (q : WalletPayout) × (v : Wallet) × (p ≡ some q)
        × (w ≡ some v)
        × (length known ≡ 0)
        × (t ≡ for_payout v q)
  unfolding hold_balance
  hold_balance-ok none known w e = cc
  hold_balance-ok (some q) known none e = ground arith
  hold_balance-ok (some q) known (some v) e = (q, v, refl, refl, ground arith, ground arith)

  release_balance-ok :
      (p : Option WalletPayout) (w : Option Wallet) (t : WalletTransaction) {t' : WalletTransaction}
      → release_balance p w (some t) ≡ ok (some t')
      → (q : WalletPayout) × (v : Wallet) × (p ≡ some q)
        × (w ≡ some v)
        × (is_payout t.type ≡ true)
        × (t' ≡ record t {
          wallet = release_balance_for_payout q.amount v;
          status = WalletTransactionStatus.success;
        })
  unfolding release_balance release_payout
  release_balance-ok none w t e = cc
  release_balance-ok (some q) none t e = cc
  release_balance-ok (some q) (some v) t e = (q, v, refl, refl, ground arith, ground arith)

  module _ (ids : (i : ℕ) (p : WalletPayout) → payouts i ≡ some p → p.id ≡ i) where
    reservation-IsSquare :
        (b : Books) (i : ℕ) (q : WalletPayout) (v : Wallet)
        → payouts i ≡ some q
        → b.wallet ≡ some v
        → length (payouts_of i b.transactions) ≡ 0
        → IsSquare payouts b
        → IsSquare payouts (added (for_payout v q) b)
    unfolding for_payout hold_balance_for_payout
    reservation-IsSquare b i q v found w none_yet h =
        let same : q.id ≡ i = ids i q found in
        let old : v.available_balance ≡ sum (λ t. t.amount) b.transactions =
          sym (ap available w) ∙ h.available in
        let old' : v.hold_balance ≡ sum pending_amount b.transactions = sym (ap held w) ∙ h.held in
        record {
          available = grind int_laws;
          held = grind int_laws;
          backed = (λ _. (i, q, ap some same, found, refl), h.backed);
          once = λ j. let bound = h.once j in ground arith;
        }

    reserved-IsSquare :
        (b : Books) (i : ℕ) {t : WalletTransaction}
        → hold_balance (payouts i) (payouts_of i b.transactions) b.wallet ≡ ok (some t)
        → IsSquare payouts b
        → IsSquare payouts (added t b)
    reserved-IsSquare b i e h =
        let (q, v, found, w, none_yet, made) = hold_balance-ok _ _ _ e in
        rw made (reservation-IsSquare b i q v found w none_yet h)

    payment-IsSquare :
        (b : Books) (i : ℕ) (q : WalletPayout) (v : Wallet) (t t' : WalletTransaction)
        (ts' : List WalletTransaction)
        → Replaced t t' b.transactions ts'
        → t.payout_id ≡ some i
        → t.status ≡ WalletTransactionStatus.pending
        → payouts i ≡ some q
        → b.wallet ≡ some v
        → is_payout t.type ≡ true
        → t' ≡ record t {
          wallet = release_balance_for_payout q.amount v;
          status = WalletTransactionStatus.success;
        }
        → IsSquare payouts b
        → IsSquare payouts (record { wallet = some t'.wallet; transactions = ts' })
    unfolding release_balance_for_payout
    payment-IsSquare b i q v t t' ts' r known pending found w kind made h =
        let (j, p, known', found', amount) = All-old payouts r h.backed kind in
        let same : p ≡ q = ground arith in
        let old : v.available_balance ≡ sum (λ t. t.amount) b.transactions =
          sym (ap available w) ∙ h.available in
        let old' : v.hold_balance ≡ sum pending_amount b.transactions = sym (ap held w) ∙ h.held in
        let moved = sum-Replaced payouts (λ x. x.amount) r in
        let freed = sum-Replaced payouts pending_amount r in
        let before : pending_amount t ≡ pos 0 -ℤ t.amount = ground arith in
        let after : pending_amount t' ≡ pos 0 = ground arith in
        let amount' : t'.amount ≡ t.amount = ap (λ x. x.amount) made in
        let left : t'.wallet.available_balance ≡ v.available_balance =
          ap (λ x. x.wallet.available_balance) made in
        let let_go : t'.wallet.hold_balance ≡ v.hold_balance -ℤ p.amount =
          ap (λ x. x.wallet.hold_balance) made ∙ ap (λ x. v.hold_balance -ℤ x.amount) (sym same) in
        record {
          available = grind int_laws;
          held = grind int_laws;
          backed =
              All-Replaced payouts r h.backed
                (λ _. (j, p, ap (λ x. x.payout_id) made ∙ known', found', amount' ∙ amount));
          once = λ k. rw (length-Replaced payouts k r (ap (is_payout_of k) made)) (h.once k);
        }

    paid-IsSquare :
        (b : Books) (i : ℕ) {t t' : WalletTransaction} {ts' : List WalletTransaction}
        → Replaced t t' b.transactions ts'
        → t.payout_id ≡ some i
        → t.status ≡ WalletTransactionStatus.pending
        → release_balance (payouts i) b.wallet (some t) ≡ ok (some t')
        → IsSquare payouts b
        → IsSquare payouts (record { wallet = some t'.wallet; transactions = ts' })
    paid-IsSquare b i {t = t} {t' = t'} {ts' = ts'} r known pending e h =
        let (q, v, found, w, kind, made) = release_balance-ok _ _ t e in
        payment-IsSquare b i q v t t' ts' r known pending found w kind made h

    -- Whatever incomes, compensations, holds and releases the handlers have written, in any order:
    -- the available balance of the wallet is the sum of the amounts of its transactions, the hold
    -- balance is what its pending payouts hold back, each payout transaction has the amount of its
    -- payout with the sign turned, and no payout has more than one transaction. The payouts are
    -- looked up by their ids.
    pub Run-IsSquare : {b : Books} → Run payouts b → IsSquare payouts b
    Run-IsSquare start = record {
      available = refl;
      held = refl;
      backed = tt;
      once = λ i. omega arith;
    }
    Run-IsSquare (next {b = b} r (earned sr e)) = earned-IsSquare b sr e (Run-IsSquare r)
    Run-IsSquare (next {b = b} r (compensated sr known e)) =
        compensated-IsSquare b sr known e (Run-IsSquare r)
    Run-IsSquare (next {b = b} r (reserved i e)) = reserved-IsSquare b i e (Run-IsSquare r)
    Run-IsSquare (next {b = b} r (paid i x known pending e)) =
        paid-IsSquare b i x known pending e (Run-IsSquare r)
