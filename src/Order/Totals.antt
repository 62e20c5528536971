-- ===== src/Order/Totals.antt =====
-- The amounts of a customer order, and the quantities of the groups of its packages.
use mathlib.Core.List.{foldl}
use vz.Common.{◌≡◌, refl, Option, some, none, List, [], ◌∷◌, map, All, String, Bool-cases, inl, inr}
use vz.Common.Int.{ℤ, pos, ◌+ℤ◌, ◌-ℤ◌, int_laws, ltb_ℤ}
use vz.Order.Quotation.{StringMethods}
use vz.Order.Pricing.{RequestedServicePackage}
use vz.Order.Prices.{IsSettled, change_service_package_group_quantity-IsSettled}
use vz.Order.Customer.{
  apply_promotion, reset, revise_requested_service_packages, CustomerOrder, AppliedPromotion,
  sum_of, summed_up, promoted, bundle_by_service_package_group_codes, new_customer_order,
}

module _ (f g h : RequestedServicePackage → ℤ) where
  foldl-difference :
      (a b c : ℤ) (rs : List RequestedServicePackage)
      → a ≡ b -ℤ c
      → All (λ r. f r ≡ g r -ℤ h r) rs
      → foldl (λ total r. total +ℤ f r) a rs
        ≡ foldl (λ total r. total +ℤ g r) b rs -ℤ foldl (λ total r. total +ℤ h r) c rs
  foldl-difference a b c [] e es = e
  foldl-difference a b c (r ∷ rs) e es =
      foldl-difference (a +ℤ f r) (b +ℤ g r) (c +ℤ h r) rs (grind int_laws) es.1

  sum_of-difference :
      (rs : List RequestedServicePackage)
      → All (λ r. f r ≡ g r -ℤ h r) rs
      → sum_of f rs ≡ sum_of g rs -ℤ sum_of h rs
  unfolding sum_of
  sum_of-difference rs es = foldl-difference (pos 0) (pos 0) (pos 0) rs (grind int_laws) es

All-map {κ} :
    (P : RequestedServicePackage → Type κ) (f : RequestedServicePackage → RequestedServicePackage)
    (rs : List RequestedServicePackage)
    → ((r : RequestedServicePackage) → P r → P (f r))
    → All P rs
    → All P (map f rs)
All-map P f [] step h = tt
All-map P f (r ∷ rs) step h = (step r h.0, All-map P f rs step h.1)

pub record IsBalanced (o : CustomerOrder) : Type 0 where
  pub consumer :
      o.consumer_total
      ≡ o.consumer_sub_total -ℤ o.consumer_discount_amount -ℤ o.consumer_promotion_amount
  pub service_provider :
      o.service_provider_total ≡ o.service_provider_sub_total -ℤ o.service_provider_discount_amount
  pub packages : All IsSettled o.service_packages

difference_swap : (d s t : ℤ) → d ≡ s -ℤ t → t ≡ s -ℤ d -ℤ pos 0
difference_swap d s t e = grind int_laws

difference_swap' : (d s t : ℤ) → d ≡ s -ℤ t → t ≡ s -ℤ d
difference_swap' d s t e = grind int_laws

consumer_discounts :
    (rs : List RequestedServicePackage)
    → All IsSettled rs
    → All (λ r. r.consumer.discount_amount ≡ r.consumer.sub_total -ℤ r.consumer.total) rs
consumer_discounts [] h = tt
consumer_discounts (r ∷ rs) h = (h.0.consumer.discount, consumer_discounts rs h.1)

service_provider_discounts :
    (rs : List RequestedServicePackage)
    → All IsSettled rs
    → All
        (λ r.
          r.service_provider.discount_amount
          ≡ r.service_provider.sub_total -ℤ r.service_provider.total)
        rs
service_provider_discounts [] h = tt
service_provider_discounts (r ∷ rs) h =
    (h.0.service_provider.discount, service_provider_discounts rs h.1)

summed_up-IsBalanced :
    (remarks : Option String) (rs : List RequestedServicePackage)
    → All IsSettled rs
    → IsBalanced (summed_up remarks rs)
unfolding summed_up
summed_up-IsBalanced remarks rs h = record {
  consumer = difference_swap _ _ _ (sum_of-difference _ _ _ rs (consumer_discounts rs h));
  service_provider =
      difference_swap' _ _ _ (sum_of-difference _ _ _ rs (service_provider_discounts rs h));
  packages = h;
}

promoted-IsBalanced :
    (applied : Option AppliedPromotion) (o : CustomerOrder)
    → o.consumer_promotion_amount ≡ pos 0
    → IsBalanced o
    → IsBalanced (promoted applied o)
unfolding promoted
promoted-IsBalanced none o z h = h
promoted-IsBalanced (some p) o z h = elim (Bool-cases (ltb_ℤ (pos 0) p.discounted_amount)) [
  | inl above ↦ rw above (record {
    consumer = deduct _ _ _ _ _ h.consumer z;
    service_provider = h.service_provider;
    packages = h.packages;
  })
  | inr below ↦ rw below h
]
  where
    deduct : (t s d q a : ℤ) → t ≡ s -ℤ d -ℤ q → q ≡ pos 0 → t -ℤ a ≡ s -ℤ d -ℤ a
    deduct t s d q a e z = grind int_laws

module _ (texts : StringMethods) where
  pub new_customer_order-IsBalanced :
      (remarks : Option String) (rs : List RequestedServicePackage)
      (applied : Option AppliedPromotion)
      → All IsSettled rs
      → IsBalanced (new_customer_order texts remarks rs applied)
  unfolding new_customer_order bundle_by_service_package_group_codes
  new_customer_order-IsBalanced remarks rs applied h =
      promoted-IsBalanced applied _ (unfold summed_up in refl) (
        summed_up-IsBalanced remarks _
          (All-map _ _ rs (change_service_package_group_quantity-IsSettled texts _) h))

  -- The orders that come of settled packages: one that is made, and one that a promotion is applied
  -- to, whose packages are revised, or which is reset.
  pub data Made : CustomerOrder → Type 0 where
    made :
        (remarks : Option String) (rs : List RequestedServicePackage)
        (applied : Option AppliedPromotion)
        → All IsSettled rs
        → Made (new_customer_order texts remarks rs applied)
    promoted_by :
        {o : CustomerOrder} (p : AppliedPromotion) → Made o → Made (apply_promotion texts p o)
    revised :
        {o : CustomerOrder} (rs : List RequestedServicePackage)
        → All IsSettled rs
        → Made o
        → Made (revise_requested_service_packages texts rs o)
    cleared : {o : CustomerOrder} → Made o → Made (reset texts o)

  -- An order of settled packages, whatever promotions, revisions and resets it went through: the
  -- consumer's total is the subtotal less the discount and the promotion that is recorded, the
  -- service provider's total is the subtotal less the discount, and its packages are settled still.
  pub Made-IsBalanced : {o : CustomerOrder} → Made o → IsBalanced o
  unfolding apply_promotion revise_requested_service_packages reset
  Made-IsBalanced (made remarks rs applied settled) =
      new_customer_order-IsBalanced remarks rs applied settled
  Made-IsBalanced (promoted_by {o = o} p m) =
      new_customer_order-IsBalanced o.remarks o.service_packages (some p)
        (Made-IsBalanced m).packages
  Made-IsBalanced (revised {o = o} rs settled m) =
      new_customer_order-IsBalanced o.remarks rs (some _) settled
  Made-IsBalanced (cleared {o = o} m) =
      new_customer_order-IsBalanced o.remarks o.service_packages (some _)
        (Made-IsBalanced m).packages
