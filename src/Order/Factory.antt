-- ===== src/Order/Factory.antt =====
-- service-request/entities/factories/customer-order.factory.ts: an order is made of the packages that
-- are asked for, and a promotion code is applied to it.
use vz.Common.{ℕ, String, Bool, Option, none, some, List, [], ◌∷◌, ◌==◌, if◌then◌else◌}
use vz.Common.Int.{ℤ, pos}
use vz.Common.Results.{Result, ok, err, ◌>>=◌}
use vz.Shared.Errors.{entity_not_found}
use vz.Promotion.{Promotion, ApplyPromoCodeResult}
use vz.Promotion.Codes.{execute}
use vz.Order.Quotation.{StringMethods}
use vz.Order.Pricing.{ServicePackage, RequestedServicePackage}
use vz.Order.Package.{new_requested_service_package}
use vz.Order.Customer.{CustomerOrder, AppliedPromotion, new_customer_order, apply_promotion}

-- service-request/dto/service-package.input.ts
pub record ServicePackageInput : Type 0 where
  pub id : ℕ
  pub quantity : ℕ

-- service-request/dto/customer-order.input.ts; an empty code is none. Remarks that are left out are
-- none, and remarks that are null are `some none`. The total is not read.
pub record CustomerOrderInput : Type 0 where
  pub remarks : Option (Option String)
  pub promo_code : Option String
  pub service_packages : List ServicePackageInput

-- `.filter(x => x.quantity > 0)`
unfoldable pub asked_for : List ServicePackageInput → List ServicePackageInput
asked_for [] = []
asked_for (x ∷ xs) = let rest = asked_for xs in if x.quantity == 0 then rest else x ∷ rest

-- The two fields that an order reads.
abbrev pub applied_promotion : ApplyPromoCodeResult → AppliedPromotion
applied_promotion a = record { code = some a.code; discounted_amount = a.discounted_amount }

-- The order, and the row of the code after it. The order is none where the constructor has
-- returned at once, and left all fields of the object undefined.
pub record Ordered : Type 0 where
  pub order : Option CustomerOrder
  pub row : Option Promotion

-- `find` is the repository of the service packages.
module _ (texts : StringMethods) (percentage_of : ℤ → ℤ → ℤ)
    (find : ℕ → Option ServicePackage) where
  -- One element of the promises.
  unfoldable pub requested_package : String → ServicePackageInput → Result RequestedServicePackage
  requested_package state input = elim (find input.id) [
    | none ↦ err (entity_not_found "ServicePackage")
    | some svp ↦ new_requested_service_package texts input.quantity state svp
  ]

  -- `Promise.all`; of several errors it is the first in order.
  unfoldable pub requested_packages :
      String → List ServicePackageInput → Result (List RequestedServicePackage)
  unfolding requested_package
  requested_packages state [] = ok []
  requested_packages state (x ∷ xs) = do
    r ← requested_package state x
    rs ← requested_packages state xs
    ok (r ∷ rs)

  -- `new CustomerOrder(remarks, packages)`, which returns early where the remarks are undefined.
  unfoldable pub constructed :
      Option (Option String) → List RequestedServicePackage → Option CustomerOrder
  unfolding new_customer_order
  constructed none packages = none
  constructed (some remarks) packages = some (new_customer_order texts remarks packages none)

  -- The total of an order without fields is undefined. The call neither tests it nor counts by it,
  -- and the result that comes of it is not read.
  abbrev pub total_to_reduce : Option CustomerOrder → ℤ
  total_to_reduce none = pos 0
  total_to_reduce (some order) = order.consumer_total

  -- `customerOrder.applyPromotion(...)`: an order without fields gives one without fields again.
  unfoldable pub promote : AppliedPromotion → Option CustomerOrder → Option CustomerOrder
  unfolding apply_promotion
  promote applied none = none
  promote applied (some order) = some (apply_promotion texts applied order)

  -- The code is looked up with the answer `found`, and counted on `row`.
  unfoldable pub create_order :
      (now : ℕ)
      → (found : Option Promotion) → (for_commit : Bool) → (row : Option Promotion)
      → (state : String) → CustomerOrderInput
      → Result Ordered
  unfolding requested_packages asked_for constructed promote
  create_order now found for_commit row state input = do
    packages ← requested_packages state (asked_for input.service_packages)
    let order = constructed input.remarks packages
    elim input.promo_code [
      | none ↦ ok (record { order = order; row = row })
      | some code ↦
          (execute percentage_of now found (total_to_reduce order) for_commit row >>= λ a.
          ok (record { order = promote (applied_promotion a.result) order; row = a.row }))
    ]
