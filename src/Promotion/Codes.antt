-- ===== src/Promotion/Codes.antt =====
-- promotion/commands/apply-promo-code.handler.ts: a code is looked up, tested and applied, and a
-- use of it is counted where the order is committed.
use vz.Common.{ℕ, ◌+◌, Bool, true, false, Option, none, some, ltb, if◌then◌else◌}
use vz.Common.Int.{ℤ}
use vz.Common.Results.{Result, ok, err, ◌>>=◌}
use vz.Shared.Errors.{type_error, promotion_code_invalid, promotion_code_usage_limit}
use vz.Promotion.{Promotion, ValidatePromotionResult, ApplyPromoCodeResult, is_valid, apply}

-- `repository.increment` of the row of the code, where its limit is above its count (`usageLimit`
-- is not null): the row after it, or none where no row is affected.
unfoldable pub increment_usage_count : Option Promotion → Option Promotion
increment_usage_count none = none
increment_usage_count (some row) =
    if ltb row.usage_count row.usage_limit
    then some (record row { usage_count = row.usage_count + 1 })
    else none

-- The result and the row that the call leaves behind.
pub record Applied : Type 0 where
  pub result : ApplyPromoCodeResult
  pub row : Option Promotion

-- `if (!validationResult.isValid) throw validationResult.error;` A result that is not valid has
-- an error.
unfoldable pub thrown_unless_valid : ValidatePromotionResult → Result (Unit {0})
thrown_unless_valid v =
    if v.is_valid then ok tt else elim v.error [ none ↦ err type_error | some e ↦ err e ]

unfoldable pub committed : Bool → Option Promotion → ApplyPromoCodeResult → Result Applied
unfolding increment_usage_count
committed false row result = ok (record { result = result; row = row })
committed true row result = elim (increment_usage_count row) [
  | none ↦ err promotion_code_usage_limit
  | some row' ↦ ok (record { result = result; row = some row' })
]

module _ (percentage_of : ℤ → ℤ → ℤ) where
  -- `found` is what the query for an active promotion of the code answers. The row of the code is
  -- read anew by the update, since other calls may have written it between.
  unfoldable pub execute :
      (now : ℕ)
      → (found : Option Promotion) → (total : ℤ) → (for_commit : Bool) → (row : Option Promotion)
      → Result Applied
  unfolding thrown_unless_valid committed
  execute now none total for_commit row = err promotion_code_invalid
  execute now (some p) total for_commit row = do
    valid ← thrown_unless_valid (is_valid now p)
    committed for_commit row (apply percentage_of total p)
