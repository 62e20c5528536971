-- ===== src/Payout/Filing.antt =====
-- Under which transaction and payout the lines of payout/factories/payout-lines.factory.ts are filed.
use vz.Common.{
  none, ◌≡◌, refl, sym, ap, ◌∙◌, some, List, [], ◌∷◌, ◌++◌, All, All-append, All-replicate,
  replicate, chain, arith, ℕ, Bool, true, false, if◌then◌else◌,
}
use vz.Common.Results.{Result, ok, >>=-eq-ok, ok-injective, required}
use vz.Wallet.{WalletTransaction, is_compensation}
use vz.Order.Pricing.{RequestedServicePackage}
use vz.Payout.Lines.{PayoutLine}
use vz.Payout.Factory.{PayableProvider, find_service_provider}
use vz.Payout.LineFactory.{
  PayableRequest, find_wallet_transaction, find_service_request, is_income, service_package_line,
  lines_of_packages, lines_of_income, generate_income_payout_lines, line_of_compensation,
  generate_reschedule_surcharge_payout_lines, create_lines,
}

-- No transaction of the request.
abbrev pub IsOfOther : ℕ → WalletTransaction → Type 0
IsOfOther id t = ¬ (t.service_request_id ≡ some id)

find_wallet_transaction-none :
    (ts : List WalletTransaction) (id : ℕ)
    → All (IsOfOther id) ts
    → find_wallet_transaction ts id ≡ none
unfolding find_wallet_transaction
find_wallet_transaction-none [] id others = refl
find_wallet_transaction-none (t ∷ ts) id (other, others) =
    rw (find_wallet_transaction-none ts id others) (ground arith)

-- The lookup has the last transaction of a request.
find_wallet_transaction-last :
    (before after : List WalletTransaction) (t : WalletTransaction) (id : ℕ)
    → t.service_request_id ≡ some id
    → All (IsOfOther id) after
    → find_wallet_transaction (before ++ (t ∷ after)) id ≡ some t
unfolding find_wallet_transaction
find_wallet_transaction-last [] after t id h others =
    rw (find_wallet_transaction-none after id others) (ground arith)
find_wallet_transaction-last (x ∷ before) after t id h others =
    rw (find_wallet_transaction-last before after t id h others) refl

module _ (transactions : List WalletTransaction) (providers : List PayableProvider)
    (requests : List PayableRequest) (id : ℕ) (last : WalletTransaction)
    (is_last : find_wallet_transaction transactions id ≡ some last) where
  abbrev pub IsFiledUnder : PayoutLine → Type 0
  IsFiledUnder l =
      l.service_request_id ≡ id
      → (l.payout_id ≡ last.payout_id) × (l.wallet_transaction_id ≡ last.id)

  looked_up :
      (i : ℕ) (lookup : WalletTransaction)
      → required (find_wallet_transaction transactions i) ≡ ok lookup
      → i ≡ id
      → lookup ≡ last
  looked_up i lookup e same = ok-injective (
      sym e
      ∙ ap (λ x. required (find_wallet_transaction transactions x)) same
      ∙ ap required is_last)

  lines_of_packages-filed :
      (sr : PayableRequest) (sps : List RequestedServicePackage) (ls : List PayoutLine)
      → lines_of_packages transactions providers requests sr sps ≡ ok ls
      → All IsFiledUnder ls
  unfolding lines_of_packages
  lines_of_packages-filed sr [] ls e = rw (← ok-injective e) tt
  lines_of_packages-filed sr (sp ∷ sps) ls e =
      let (owner, found, e1) =
        >>=-eq-ok (required (chain sr.dispatcher_id (find_service_provider providers))) _ e in
      let (lookup, known, e2) =
        >>=-eq-ok (required (find_wallet_transaction transactions sr.id)) _ e1 in
      let (rest, others, e3) =
        >>=-eq-ok (lines_of_packages transactions providers requests sr sps) _ e2 in
      let line = service_package_line sr owner lookup sp in
      let filed : IsFiledUnder line = λ same. (
        ap (λ t. t.payout_id) (looked_up sr.id lookup known same),
        ap (λ t. t.id) (looked_up sr.id lookup known same),
      ) in
      rw (← ok-injective e3) (
        All-append IsFiledUnder (replicate sp.quantity line) rest
          (All-replicate IsFiledUnder sp.quantity line filed)
          (lines_of_packages-filed sr sps rest others))

  lines_of_income-filed :
      (t : WalletTransaction) (ls : List PayoutLine)
      → lines_of_income transactions providers requests t ≡ ok ls
      → All IsFiledUnder ls
  unfolding lines_of_income
  lines_of_income-filed t ls e =
      let (sr, known, e1) =
        >>=-eq-ok (required (chain t.service_request_id (find_service_request requests))) _ e in
      lines_of_packages-filed sr sr.customer_order.service_packages ls e1

  made_or_none :
      (test : Bool) (made : Result (List PayoutLine)) (ls : List PayoutLine)
      → ((xs : List PayoutLine) → made ≡ ok xs → All IsFiledUnder xs)
      → (if test then made else ok []) ≡ ok ls
      → All IsFiledUnder ls
  made_or_none true made ls h e = h ls e
  made_or_none false made ls h e = rw (← ok-injective e) tt

  line_of_compensation-filed :
      (t : WalletTransaction) (ls : List PayoutLine)
      → line_of_compensation transactions providers requests t ≡ ok ls
      → All IsFiledUnder ls
  unfolding line_of_compensation
  line_of_compensation-filed t ls e =
      let (sr, known, e1) =
        >>=-eq-ok (required (chain t.service_request_id (find_service_request requests))) _ e in
      let (owner, there, e2) =
        >>=-eq-ok (required (find_service_provider providers t.owner_id)) _ e1 in
      let (lookup, found, e3) =
        >>=-eq-ok (required (find_wallet_transaction transactions sr.id)) _ e2 in
      rw (← ok-injective e3) (
        (λ same. (
          ap (λ t. t.payout_id) (looked_up sr.id lookup found same),
          ap (λ t. t.id) (looked_up sr.id lookup found same),
        )),
        tt,
      )

  generate_income-filed :
      (ts : List WalletTransaction) (ls : List PayoutLine)
      → generate_income_payout_lines transactions providers requests ts ≡ ok ls
      → All IsFiledUnder ls
  unfolding generate_income_payout_lines
  generate_income-filed [] ls e = rw (← ok-injective e) tt
  generate_income-filed (t ∷ ts) ls e =
      let (own, made, e1) =
        >>=-eq-ok
          (if is_income t.type then lines_of_income transactions providers requests t else ok []) _
          e in
      let (rest, others, e2) =
        >>=-eq-ok (generate_income_payout_lines transactions providers requests ts) _ e1 in
      rw (← ok-injective e2) (
        All-append IsFiledUnder own rest
          (made_or_none (is_income t.type) (lines_of_income transactions providers requests t) own
            (lines_of_income-filed t) made)
          (generate_income-filed ts rest others))

  generate_surcharge-filed :
      (ts : List WalletTransaction) (ls : List PayoutLine)
      → generate_reschedule_surcharge_payout_lines transactions providers requests ts ≡ ok ls
      → All IsFiledUnder ls
  unfolding generate_reschedule_surcharge_payout_lines
  generate_surcharge-filed [] ls e = rw (← ok-injective e) tt
  generate_surcharge-filed (t ∷ ts) ls e =
      let (own, made, e1) =
        >>=-eq-ok
          (if is_compensation t.type
            then line_of_compensation transactions providers requests t
            else ok [])
          _ e in
      let (rest, others, e2) =
        >>=-eq-ok (generate_reschedule_surcharge_payout_lines transactions providers requests ts) _
          e1 in
      rw (← ok-injective e2) (
        All-append IsFiledUnder own rest
          (made_or_none (is_compensation t.type)
            (line_of_compensation transactions providers requests t) own
            (line_of_compensation-filed t) made)
          (generate_surcharge-filed ts rest others))

-- All lines of a request, those of the provider who earned the income as well as that of another
-- who is compensated, are filed under the transaction of the request that comes last in the list, and
-- under the payout of that transaction. Transactions of other requests may come before and after.
pub last_transaction_takes_lines :
    (before after : List WalletTransaction) (last : WalletTransaction)
    (providers : List PayableProvider) (requests : List PayableRequest) (id : ℕ)
    (ls : List PayoutLine)
    → last.service_request_id ≡ some id
    → All (IsOfOther id) after
    → create_lines (before ++ (last ∷ after)) providers requests ≡ ok ls
    → All
        (λ l.
          l.service_request_id ≡ id
          → (l.payout_id ≡ last.payout_id) × (l.wallet_transaction_id ≡ last.id))
        ls
unfolding create_lines
last_transaction_takes_lines before after last providers requests id ls known others e =
    let all = before ++ (last ∷ after) in
    let found = find_wallet_transaction-last before after last id known others in
    let (income, made, e1) =
      >>=-eq-ok (generate_income_payout_lines all providers requests all) _ e in
    let (surcharges, made', e2) =
      >>=-eq-ok (generate_reschedule_surcharge_payout_lines all providers requests all) _ e1 in
    rw (← ok-injective e2) (
      All-append _ income surcharges
        (generate_income-filed all providers requests id last found all income made)
        (generate_surcharge-filed all providers requests id last found all surcharges made'))
