-- ===== src/Payout/Tenants.antt =====
-- `generateAndUploadPaymentFiles` of payout/payout.service.ts, with the two sieves: the scheduled
-- payouts go to the banks of the two companies in two batches, one after the other.
use vz.Common.{
  ℕ, String, ◌≡◌, ◌⊎◌, inl, inr, refl, sym, ◌∙◌, Option, some, none, List, [], ◌∷◌, if◌then◌else◌,
}
use vz.Common.Int.{◌+ℤ◌, int_laws}
use vz.Common.Sums.{sum_of}
use vz.Common.Results.{Result, ok, err}
use vz.Shared.Errors.{Error}
use vz.Shared.Tenant.{Tenant, same_tenant}
use vz.Payout.{Payout}
use vz.Payout.Lines.{PayoutLine}
use vz.Payout.Batch.{Urls, Batched, create_payout_batch}
use vz.Payout.Batches.{create_payout_batch_lem}

unfoldable pub payouts_of : Tenant → List Payout → List Payout
payouts_of tenant [] = []
payouts_of tenant (p ∷ ps) =
    let rest = payouts_of tenant ps in
    if same_tenant p.principal_group tenant then p ∷ rest else rest

unfoldable pub payout_lines_of : Tenant → List PayoutLine → List PayoutLine
payout_lines_of tenant [] = []
payout_lines_of tenant (l ∷ ls) =
    let rest = payout_lines_of tenant ls in
    if same_tenant l.principal_group tenant then l ∷ rest else rest

-- What the call has saved when it ends, and what it throws.
pub record Run : Type 0 where
  pub daikin : Option Batched
  pub acson : Option Batched
  pub thrown : Option Error

-- What a batch of a company finds: the id it is saved by, the batches of the day, and its uploads.
pub record Surroundings : Type 0 where
  pub id : ℕ
  pub count : ℕ
  pub uploads : Result Urls

abbrev pub batch_of :
    (Tenant → Surroundings)
    → String
    → List Payout
    → List PayoutLine
    → Tenant
    → Result (Option Batched)
batch_of s date payouts lines tenant =
    create_payout_batch (s tenant).id (s tenant).count date (s tenant).uploads
      (payouts_of tenant payouts) (payout_lines_of tenant lines)

-- The second batch, where the first call has not thrown.
abbrev pub after_first : Result (Option Batched) → Result (Option Batched) → Run
after_first (err e) second = record { daikin = none; acson = none; thrown = some e }
after_first (ok d) (err e) = record { daikin = d; acson = none; thrown = some e }
after_first (ok d) (ok a) = record { daikin = d; acson = a; thrown = none }

unfoldable pub generate_and_upload_payment_files :
    (Tenant → Surroundings) → (date : String) → List Payout → List PayoutLine → Run
generate_and_upload_payment_files s date payouts lines =
    after_first (batch_of s date payouts lines Tenant.daikin)
      (batch_of s date payouts lines Tenant.acson)

Tenant-cases : (t : Tenant) → (t ≡ Tenant.daikin) ⊎ (t ≡ Tenant.acson)
Tenant-cases Tenant.daikin = inl refl
Tenant-cases Tenant.acson = inr refl

sum_of-payouts_of :
    (ps : List Payout)
    → sum_of (λ p. p.amount) (payouts_of Tenant.daikin ps)
        +ℤ sum_of (λ p. p.amount) (payouts_of Tenant.acson ps)
      ≡ sum_of (λ p. p.amount) ps
unfolding payouts_of
sum_of-payouts_of [] = grind int_laws
sum_of-payouts_of (p ∷ ps) = elim (Tenant-cases p.principal_group) [
  | inl d ↦ rw d (grind (int_laws, sum_of-payouts_of ps))
  | inr a ↦ rw a (grind (int_laws, sum_of-payouts_of ps))
]

-- Where both companies have payouts and lines, a batch of each is saved whatever becomes of the
-- uploads, nothing is thrown, and the two batches together are worth what all payouts are.
pub generate_and_upload_payment_files_lem :
    (s : Tenant → Surroundings) (date : String) (payouts : List Payout) (lines : List PayoutLine)
    (p q : Payout) (ps qs : List Payout) (l k : PayoutLine) (ls ks : List PayoutLine)
    → payouts_of Tenant.daikin payouts ≡ p ∷ ps
    → payouts_of Tenant.acson payouts ≡ q ∷ qs
    → payout_lines_of Tenant.daikin lines ≡ l ∷ ls
    → payout_lines_of Tenant.acson lines ≡ k ∷ ks
    → (d : Batched) × (a : Batched) × (generate_and_upload_payment_files s date payouts lines
        ≡ record { daikin = some d; acson = some a; thrown = none })
      × (d.batch.total_amount +ℤ a.batch.total_amount ≡ sum_of (λ p. p.amount) payouts)
unfolding generate_and_upload_payment_files
generate_and_upload_payment_files_lem s date payouts lines p q ps qs l k ls ks e1 e2 e3 e4 =
    let (d, made_d, out_d, sum_d, r1, r2, r3) =
      create_payout_batch_lem (s Tenant.daikin).id (s Tenant.daikin).count date
        (s Tenant.daikin).uploads p ps l ls in
    let (a, made_a, out_a, sum_a, q1, q2, q3) =
      create_payout_batch_lem (s Tenant.acson).id (s Tenant.acson).count date
        (s Tenant.acson).uploads q qs k ks in
    (
      d,
      a,
      rw (e1, e2, e3, e4) (rw (made_d, made_a) refl),
      (λ i. sum_d i +ℤ sum_a i)
          ∙ (λ i. sum_of (λ p. p.amount) (sym e1 i) +ℤ sum_of (λ p. p.amount) (sym e2 i))
          ∙ sum_of-payouts_of payouts,
    )
