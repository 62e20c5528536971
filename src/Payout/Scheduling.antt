-- ===== src/Payout/Scheduling.antt =====
-- `schedulePayoutsFromWalletTransactions` of payout/payout.service.ts: payouts are made and saved,
-- then their lines, and then the payouts are announced.
use vz.Common.{◌≡◌, refl, none, some, List, [], ◌∷◌, ◌++◌, chain, true, if◌then◌else◌}
use vz.Common.Results.{Result, ok, err, IsErr, IsErr-first, IsErr-then}
use vz.Shared.Errors.{type_error}
use vz.Wallet.{WalletTransaction}
use vz.Order.Pricing.{RequestedServicePackage}
use vz.Payout.{Payout}
use vz.Payout.Lines.{PayoutLine}
use vz.Payout.Factory.{PayableProvider, find_service_provider, create}
use vz.Payout.LineFactory.{
  PayableRequest, find_service_request, is_income, lines_of_packages, lines_of_income,
  generate_income_payout_lines, create_lines,
}

-- The payouts that are saved, the lines that are saved or the error that ends the call, and the
-- payouts of which a `PayoutScheduledEvent` is published.
pub record Scheduled : Type 0 where
  pub payouts : List Payout
  pub lines : Result (List PayoutLine)
  pub published : List Payout

abbrev ended : List Payout → Result (List PayoutLine) → Scheduled
ended payouts (ok lines) = record { payouts = payouts; lines = ok lines; published = payouts }
ended payouts (err e) = record { payouts = payouts; lines = err e; published = [] }

-- The save of the payouts sets `payoutId` of their transactions: `saved` are the transactions
-- after it.
unfoldable pub schedule_payouts_from_wallet_transactions :
    (transactions : List WalletTransaction)
    → (providers : List PayableProvider) → (saved : List WalletTransaction)
    → (requests : List PayableRequest) → Scheduled
schedule_payouts_from_wallet_transactions transactions providers saved requests =
    ended (create transactions providers) (create_lines saved providers requests)

ended-IsErr :
    (payouts : List Payout) (r : Result (List PayoutLine))
    → IsErr r
    → ((ended payouts r).payouts ≡ payouts)
      × IsErr (ended payouts r).lines
      × ((ended payouts r).published ≡ [])
ended-IsErr payouts (ok ls) h = cc (h.1)
ended-IsErr payouts (err e) h = (refl, (e, refl), refl)

module _ (transactions : List WalletTransaction) (providers : List PayableProvider)
    (requests : List PayableRequest) where
  -- A request with packages whose provider is not among those that can be paid.
  lines_of_packages-IsErr :
      (sr : PayableRequest) (sp : RequestedServicePackage) (sps : List RequestedServicePackage)
      → chain sr.dispatcher_id (find_service_provider providers) ≡ none
      → IsErr (lines_of_packages transactions providers requests sr (sp ∷ sps))
  unfolding lines_of_packages
  lines_of_packages-IsErr sr sp sps h = (type_error, rw h refl)

  lines_of_income-IsErr :
      (t : WalletTransaction) (sr : PayableRequest) (sp : RequestedServicePackage)
      (sps : List RequestedServicePackage)
      → chain t.service_request_id (find_service_request requests) ≡ some sr
      → sr.customer_order.service_packages ≡ sp ∷ sps
      → chain sr.dispatcher_id (find_service_provider providers) ≡ none
      → IsErr (lines_of_income transactions providers requests t)
  unfolding lines_of_income
  lines_of_income-IsErr t sr sp sps found packages h =
      rw found (rw packages (lines_of_packages-IsErr sr sp sps h))

  generate_income-IsErr :
      (ts us : List WalletTransaction) (t : WalletTransaction)
      → is_income t.type ≡ true
      → IsErr (lines_of_income transactions providers requests t)
      → IsErr (generate_income_payout_lines transactions providers requests (ts ++ (t ∷ us)))
  unfolding generate_income_payout_lines
  generate_income-IsErr [] us t kind h = rw kind (IsErr-first _ _ h)
  generate_income-IsErr (x ∷ ts) us t kind h =
      IsErr-then
        (if is_income x.type then lines_of_income transactions providers requests x else ok []) _
        (λ own. IsErr-first _ _ (generate_income-IsErr ts us t kind h))

-- Where an income is of a request with packages whose dispatcher is not among the providers that
-- can be paid: the creation of lines throws, so no lines are saved at all and nothing is announced,
-- also for the other providers, although the payouts are saved by then.
pub unpayable_provider_stops_all :
    (transactions : List WalletTransaction) (providers : List PayableProvider)
    (ts us : List WalletTransaction) (t : WalletTransaction) (requests : List PayableRequest)
    (sr : PayableRequest) (sp : RequestedServicePackage) (sps : List RequestedServicePackage)
    → is_income t.type ≡ true
    → chain t.service_request_id (find_service_request requests) ≡ some sr
    → sr.customer_order.service_packages ≡ sp ∷ sps
    → chain sr.dispatcher_id (find_service_provider providers) ≡ none
    → let r : Scheduled =
        schedule_payouts_from_wallet_transactions transactions providers
          (ts ++ (t ∷ us))
          requests in
      (r.payouts ≡ create transactions providers) × IsErr r.lines × (r.published ≡ [])
unfolding schedule_payouts_from_wallet_transactions
unpayable_provider_stops_all transactions providers ts us t requests sr sp sps kind found packages
      h =
    let saved = ts ++ (t ∷ us) in
    ended-IsErr (create transactions providers) (create_lines saved providers requests) (
      unfold create_lines in
      IsErr-first _ _ (
        generate_income-IsErr saved providers requests ts us t kind
          (lines_of_income-IsErr saved providers requests t sr sp sps found packages h)))
