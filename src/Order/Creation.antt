-- ===== src/Order/Creation.antt =====
-- What an order is that the factory has made.
use mathlib.Core.Path.{subst}
use vz.Common.{
  Bool-cases, true, false, ◌+◌, refl, ℕ, ◌≡◌, ◌⊎◌, inl, inr, sym, ap, ◌∙◌, String, true, Option,
  none, some, Option-cases, List, All,
}
use vz.Common.Int.{ltb_ℤ, ℤ, pos}
use vz.Common.Results.{Result, ok, ◌>>=◌, >>=-eq-ok, ok-injective}
use vz.Promotion.{Promotion, ApplyPromoCodeResult}
use vz.Promotion.Codes.{execute}
use vz.Promotion.Redemptions.{IsRedeemed, execute-IsRedeemed}
use vz.Order.Quotation.{StringMethods}
use vz.Order.Pricing.{ServicePackage, RequestedServicePackage}
use vz.Order.Prices.{IsSettled}
use vz.Order.Customer.{promoted, summed_up, CustomerOrder, new_customer_order, apply_promotion}
use vz.Order.Totals.{IsBalanced, new_customer_order-IsBalanced}
use vz.Order.Resets.{apply_promotion-new_customer_order}
use vz.Order.Factory.{
  CustomerOrderInput, Ordered, applied_promotion, asked_for, requested_packages, create_order,
  constructed, total_to_reduce, promote,
}
use vz.Order.Asked.{
  with_quantity, asked_for-eq, AreOf, requested_packages-IsSettled, requested_packages-AreOf,
}

-- The order records the promotion, if that takes anything off, and none otherwise.
abbrev pub IsRecorded : ApplyPromoCodeResult → CustomerOrder → Type 0
IsRecorded a order =
    ((ltb_ℤ (pos 0) a.discounted_amount ≡ true)
      × (order.consumer_promotion_code ≡ some a.code)
      × (order.consumer_promotion_amount ≡ a.discounted_amount))
    ⊎ ((ltb_ℤ (pos 0) a.discounted_amount ≡ false)
        × (order.consumer_promotion_code ≡ none)
        × (order.consumer_promotion_amount ≡ pos 0))

new_customer_order-IsRecorded :
    (texts : StringMethods) (remarks : Option String) (packages : List RequestedServicePackage)
    (a : ApplyPromoCodeResult)
    → IsRecorded a (new_customer_order texts remarks packages (some (applied_promotion a)))
unfolding new_customer_order promoted summed_up
new_customer_order-IsRecorded texts remarks packages a =
    elim (Bool-cases (ltb_ℤ (pos 0) a.discounted_amount)) [
      | inl some_off ↦ inl (some_off, rw some_off refl, rw some_off refl)
      | inr none_off ↦ inr (none_off, rw none_off refl, rw none_off refl)
    ]

module _ (texts : StringMethods) (percentage_of : ℤ → ℤ → ℤ)
    (find : ℕ → Option ServicePackage) where
  -- What a call that counts a use of its code, if it has one, leaves of an order with these remarks:
  -- without a code nothing is counted, and with a code the promotion that was found was open, one
  -- use is counted, and what it takes off the order's total is off the new order.
  abbrev pub IsOrdered :
      ℕ
      → (found row : Option Promotion) → (promo_code remarks : Option String)
      → List RequestedServicePackage
      → (order : CustomerOrder) → (row' : Option Promotion) → Type 0
  IsOrdered now found row promo_code remarks packages order row' =
      ((promo_code ≡ none)
        × (row' ≡ row)
        × (order ≡ new_customer_order texts remarks packages none))
      ⊎ ((a : ApplyPromoCodeResult) × IsRedeemed percentage_of now found
            (new_customer_order texts remarks packages none).consumer_total row
            (record { result = a; row = row' })
          × (order ≡ new_customer_order texts remarks packages (some (applied_promotion a)))
          × IsRecorded a order)

  -- One use of the code is counted, if there is a code.
  abbrev pub IsCounted : (promo_code : Option String) → (row row' : Option Promotion) → Type 0
  IsCounted promo_code row row' =
      ((promo_code ≡ none) × (row' ≡ row))
      ⊎ ((old : Promotion) × (row ≡ some old)
          × (row' ≡ some (record old { usage_count = old.usage_count + 1 })))

  -- The last step of the factory.
  applied :
      (now : ℕ) (found row : Option Promotion)
      → Option CustomerOrder
      → Option String
      → Result Ordered
  applied now found row order none = ok (record { order = order; row = row })
  applied now found row order (some code) =
      execute percentage_of now found (total_to_reduce texts percentage_of find order) true row
      >>= λ a. ok (record {
        order = promote texts percentage_of find (applied_promotion a.result) order;
        row = a.row;
      })

  applied-IsOrdered :
      (now : ℕ) (found row : Option Promotion) (remarks : Option String)
      (packages : List RequestedServicePackage) (c : Ordered) (code : Option String)
      → applied now found row (some (new_customer_order texts remarks packages none)) code ≡ ok c
      → (order : CustomerOrder) × (c.order ≡ some order)
        × IsOrdered now found row code remarks packages order c.row
  unfolding applied promote
  applied-IsOrdered now found row remarks packages c none e = (
    new_customer_order texts remarks packages none,
    ap (λ o. o.order) (sym (ok-injective e)),
    inl (refl, ap (λ o. o.row) (sym (ok-injective e)), refl),
  )
  applied-IsOrdered now found row remarks packages c (some code) e =
      let bare = new_customer_order texts remarks packages none in
      let (a, ran, made) =
        >>=-eq-ok (execute percentage_of now found bare.consumer_total true row) _ e in
      (
        apply_promotion texts (applied_promotion a.result) bare,
        ap (λ o. o.order) (sym (ok-injective made)),
        inr (
          a.result,
          subst
              (λ r.
                IsRedeemed percentage_of now found bare.consumer_total row
                  (record { result = a.result; row = r }))
              (ap (λ o. o.row) (ok-injective made))
              (execute-IsRedeemed percentage_of now found _ row a ran),
          apply_promotion-new_customer_order texts remarks packages none
              (applied_promotion a.result),
          subst (IsRecorded a.result)
              (sym (
                apply_promotion-new_customer_order texts remarks packages none
                  (applied_promotion a.result)))
              (new_customer_order-IsRecorded texts remarks packages a.result),
        ),
      )

  applied-none :
      (now : ℕ) (found row : Option Promotion) (c : Ordered) (code : Option String)
      → applied now found row none code ≡ ok c
      → (c.order ≡ none) × IsCounted code row c.row
  unfolding applied promote
  applied-none now found row c none e =
      (ap (λ o. o.order) (sym (ok-injective e)), inl (refl, ap (λ o. o.row) (sym (ok-injective e))))
  applied-none now found row c (some code) e =
      let (a, ran, made) = >>=-eq-ok (execute percentage_of now found (pos 0) true row) _ e in
      let redeemed = execute-IsRedeemed percentage_of now found (pos 0) row a ran in
      (
        ap (λ o. o.order) (sym (ok-injective made)),
        inr (
          redeemed.old,
          redeemed.is_row,
          ap (λ o. o.row) (sym (ok-injective made)) ∙ redeemed.counted,
        ),
      )

  IsOrdered-IsBalanced :
      (now : ℕ) (found row row' : Option Promotion) (code remarks : Option String)
      (packages : List RequestedServicePackage) (order : CustomerOrder)
      → All IsSettled packages
      → IsOrdered now found row code remarks packages order row'
      → IsBalanced order
  IsOrdered-IsBalanced now found row row' code remarks packages order settled
        (inl (no_code, same, made)) =
      subst IsBalanced (sym made)
        (new_customer_order-IsBalanced texts remarks packages none settled)
  IsOrdered-IsBalanced now found row row' code remarks packages order settled
        (inr (a, redeemed, made, recorded)) =
      subst IsBalanced (sym made)
        (new_customer_order-IsBalanced texts remarks packages (some (applied_promotion a)) settled)

  IsOrdered-IsCounted :
      (now : ℕ) (found row row' : Option Promotion) (code remarks : Option String)
      (packages : List RequestedServicePackage) (order : CustomerOrder)
      → IsOrdered now found row code remarks packages order row'
      → IsCounted code row row'
  IsOrdered-IsCounted now found row row' code remarks packages order (inl (no_code, same, made)) =
      inl (no_code, same)
  IsOrdered-IsCounted now found row row' code remarks packages order
        (inr (a, redeemed, made, recorded)) =
      inr (redeemed.old, redeemed.is_row, redeemed.counted)

  -- What the factory makes of an input with its remarks, or with none.
  abbrev pub IsCreated :
      ℕ
      → (found row : Option Promotion) → CustomerOrderInput
      → List RequestedServicePackage
      → Ordered
      → Type 0
  IsCreated now found row input packages c =
      ((input.remarks ≡ none) × (c.order ≡ none) × IsCounted input.promo_code row c.row)
      ⊎ ((remarks : Option String) × (order : CustomerOrder) × (input.remarks ≡ some remarks)
          × (c.order ≡ some order)
          × IsBalanced order
          × IsOrdered now found row input.promo_code remarks packages order c.row)

  applied-IsCreated :
      (now : ℕ) (found row : Option Promotion) (input : CustomerOrderInput)
      (packages : List RequestedServicePackage) (c : Ordered)
      → All IsSettled packages
      → applied now found row
          (constructed texts percentage_of find input.remarks packages)
          input.promo_code
        ≡ ok c
      → IsCreated now found row input packages c
  unfolding constructed
  applied-IsCreated now found row input packages c settled e = elim (Option-cases input.remarks) [
    | inl left_out ↦
        let (empty, counted) = applied-none now found row c input.promo_code (rw left_out at e) in
        inl (left_out, empty, counted)
    | inr (remarks, given) ↦
        let (order, there, ordered) =
          applied-IsOrdered now found row remarks packages c input.promo_code (rw given at e) in
        inr (
          remarks,
          order,
          given,
          there,
          IsOrdered-IsBalanced now found row c.row input.promo_code remarks packages order settled
              ordered,
          ordered,
        )
  ]

  create_order-applied :
      (now : ℕ) (found row : Option Promotion) (state : String) (input : CustomerOrderInput)
      (packages : List RequestedServicePackage)
      → requested_packages texts percentage_of find state (asked_for input.service_packages)
        ≡ ok packages
      → create_order texts percentage_of find now found true row state input
        ≡ applied now found row
            (constructed texts percentage_of find input.remarks packages)
            input.promo_code
  unfolding create_order applied
  create_order-applied now found row state input packages are =
      elim (Option-cases input.promo_code) [
        | inl is ↦ rw are (rw is refl)
        | inr (code, is) ↦ rw are (rw is refl)
      ]

  pub create_order_lem :
      (now : ℕ) (found row : Option Promotion) (state : String) (input : CustomerOrderInput)
      (c : Ordered)
      → create_order texts percentage_of find now found true row state input ≡ ok c
      → (packages : List RequestedServicePackage) × AreOf texts percentage_of find state
          (with_quantity input.service_packages)
          packages
        × All IsSettled packages
        × IsCreated now found row input packages c
  unfolding create_order
  create_order_lem now found row state input c e =
      let (packages, are, e1) =
        >>=-eq-ok
          (requested_packages texts percentage_of find state (asked_for input.service_packages)) _
          e in
      let settled =
        requested_packages-IsSettled texts percentage_of find state
          (asked_for input.service_packages) packages are in
      (
        packages,
        subst (λ xs. AreOf texts percentage_of find state xs packages)
            (asked_for-eq input.service_packages)
            (requested_packages-AreOf texts percentage_of find state
              (asked_for input.service_packages) packages are),
        settled,
        applied-IsCreated now found row input packages c settled
            (sym (create_order-applied now found row state input packages are) ∙ e),
      )

  -- With or without remarks, a use of the code is counted.
  pub create_order-IsCounted :
      (now : ℕ) (found row : Option Promotion) (state : String) (input : CustomerOrderInput)
      (c : Ordered)
      → create_order texts percentage_of find now found true row state input ≡ ok c
      → IsCounted input.promo_code row c.row
  create_order-IsCounted now found row state input c e =
      let (packages, are, settled, made) = create_order_lem now found row state input c e in
      elim made [
        | inl (left_out, empty, counted) ↦ counted
        | inr (remarks, order, given, there, balanced, ordered) ↦
            IsOrdered-IsCounted now found row c.row input.promo_code remarks packages order ordered
      ]
