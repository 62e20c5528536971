-- ===== src/Order/Asked.antt =====
-- The packages that service-request/entities/factories/customer-order.factory.ts makes: those of
-- the inputs with a quantity, of the catalogue.
use mathlib.Core.Path.{subst}
use vz.Common.{
  arith, false, zero, suc, ◌==◌, if◌then◌else◌, refl, ℕ, ◌≡◌, inl, inr, ap, String, Option, some,
  Option-cases, List, [], ◌∷◌, All,
}
use vz.Common.Int.{ℤ}
use vz.Common.Results.{ok, >>=-eq-ok, ok-injective}
use vz.Order.Quotation.{StringMethods}
use vz.Order.Pricing.{ServicePackage, RequestedServicePackage}
use vz.Order.Package.{new_requested_service_package}
use vz.Order.Prices.{IsSettled, here, new_requested_service_package-IsSettled}
use vz.Order.Factory.{ServicePackageInput, asked_for, requested_package, requested_packages}

abbrev wanted : ℕ → ServicePackageInput → List ServicePackageInput → List ServicePackageInput
wanted zero x xs = xs
wanted (suc n) x xs = x ∷ xs

-- The inputs whose quantity is not 0, in their order.
abbrev pub with_quantity : List ServicePackageInput → List ServicePackageInput
with_quantity [] = []
with_quantity (x ∷ xs) = wanted x.quantity x (with_quantity xs)

wanted-eq :
    (n : ℕ) (x : ServicePackageInput) {xs ys : List ServicePackageInput}
    → xs ≡ ys
    → (if n == 0 then xs else x ∷ xs) ≡ wanted n x ys
wanted-eq zero x e = e
wanted-eq (suc n) x e = let above : (suc n == 0) ≡ false = ground arith in rw above (ap (x ∷◌) e)

pub asked_for-eq : (xs : List ServicePackageInput) → asked_for xs ≡ with_quantity xs
unfolding asked_for
asked_for-eq [] = refl
asked_for-eq (x ∷ xs) = wanted-eq x.quantity x (asked_for-eq xs)

module _ (texts : StringMethods) (percentage_of : ℤ → ℤ → ℤ)
    (find : ℕ → Option ServicePackage) where
  requested_package-IsSettled :
      (state : String) (x : ServicePackageInput) (r : RequestedServicePackage)
      → requested_package texts percentage_of find state x ≡ ok r
      → IsSettled r
  unfolding requested_package
  requested_package-IsSettled state x r e = elim (Option-cases (find x.id)) [
    | inl missing ↦ cc (rw (requested_package, missing) at e)
    | inr (svp, there) ↦
        new_requested_service_package-IsSettled texts x.quantity state svp
          (rw (requested_package, there) at e) here
  ]

  pub requested_packages-IsSettled :
      (state : String) (xs : List ServicePackageInput) (rs : List RequestedServicePackage)
      → requested_packages texts percentage_of find state xs ≡ ok rs
      → All IsSettled rs
  unfolding requested_packages
  requested_packages-IsSettled state [] rs e = subst (All IsSettled) (ok-injective e) tt
  requested_packages-IsSettled state (x ∷ xs) rs e =
      let (r, first, e1) = >>=-eq-ok (requested_package texts percentage_of find state x) _ e in
      let (others, rest, e2) =
        >>=-eq-ok (requested_packages texts percentage_of find state xs) _ e1 in
      subst (All IsSettled) (ok-injective e2) (
        requested_package-IsSettled state x r first,
        requested_packages-IsSettled state xs others rest,
      )

  -- Each input has its package, which is made of what the catalogue has under its id.
  abbrev pub AreOf : String → List ServicePackageInput → List RequestedServicePackage → Type 0
  AreOf state [] [] = Unit {0}
  AreOf state (x ∷ xs) (r ∷ rs) =
      ((svp : ServicePackage) × (find x.id ≡ some svp)
        × (new_requested_service_package texts x.quantity state svp ≡ ok r))
      × AreOf state xs rs
  AreOf state _ _ = ⊥

  requested_package-is :
      (state : String) (x : ServicePackageInput) (r : RequestedServicePackage)
      → requested_package texts percentage_of find state x ≡ ok r
      → (svp : ServicePackage) × (find x.id ≡ some svp)
        × (new_requested_service_package texts x.quantity state svp ≡ ok r)
  unfolding requested_package
  requested_package-is state x r e = elim (Option-cases (find x.id)) [
    | inl missing ↦ cc (rw (requested_package, missing) at e)
    | inr (svp, there) ↦ (svp, there, rw (requested_package, there) at e)
  ]

  pub requested_packages-AreOf :
      (state : String) (xs : List ServicePackageInput) (rs : List RequestedServicePackage)
      → requested_packages texts percentage_of find state xs ≡ ok rs
      → AreOf state xs rs
  unfolding requested_packages
  requested_packages-AreOf state [] rs e = subst (AreOf state []) (ok-injective e) tt
  requested_packages-AreOf state (x ∷ xs) rs e =
      let (r, first, e1) = >>=-eq-ok (requested_package texts percentage_of find state x) _ e in
      let (others, rest, e2) =
        >>=-eq-ok (requested_packages texts percentage_of find state xs) _ e1 in
      subst (AreOf state (x ∷ xs)) (ok-injective e2)
        (requested_package-is state x r first, requested_packages-AreOf state xs others rest)
