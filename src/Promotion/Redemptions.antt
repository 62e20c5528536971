-- ===== src/Promotion/Redemptions.antt =====
-- How often a code is used, whatever the calls read before they write.
use vz.Common.{
  ℕ, ◌+◌, ◌≤◌, ◌<◌, ◌≡◌, sym, ◌∙◌, ◌↔◌, refl, Bool, true, false, Option, none, some, arith,
}
use vz.Common.Int.{ℤ}
use vz.Common.Results.{ok, err, >>=-eq-ok}
use vz.Shared.Errors.{Error}
use vz.Promotion.{Promotion, ApplyPromoCodeResult, is_valid, is_over, is_ahead, apply}
use vz.Promotion.Codes.{Applied, increment_usage_count, thrown_unless_valid, committed, execute}

-- `now` lies in the time of the promotion, and a use is left.
pub record IsOpen (now : ℕ) (p : Promotion) : Type 0 where
  pub not_over : is_over now p.ends_at ≡ false
  pub not_ahead : is_ahead now p.starts_at ≡ false
  pub left : p.usage_count < p.usage_limit

is_valid-IsOpen :
    (now : ℕ) (p : Promotion) → (thrown_unless_valid (is_valid now p) ≡ ok tt) ↔ IsOpen now p
unfolding thrown_unless_valid is_valid
is_valid-IsOpen now p = (
  λ h. record { not_over = ground arith; not_ahead = ground arith; left = ground arith },
  λ h. ground arith,
)

-- What a call that counts a use has found and leaves behind.
pub record IsRedeemed (percentage_of : ℤ → ℤ → ℤ) (now : ℕ) (found : Option Promotion) (total : ℤ)
    (row : Option Promotion) (a : Applied) : Type 0 where
  pub promotion : Promotion
  pub is_found : found ≡ some promotion
  pub is_open : IsOpen now promotion
  pub old : Promotion
  pub is_row : row ≡ some old
  pub use_left : old.usage_count < old.usage_limit
  pub result : a.result ≡ apply percentage_of total promotion
  pub counted : a.row ≡ some (record old { usage_count = old.usage_count + 1 })

-- A row whose count has grown by a number of uses, and is not above the limit.
pub record Grew (row : Promotion) (n : ℕ) (row' : Promotion) : Type 0 where
  pub count : row'.usage_count ≡ row.usage_count + n
  pub limit : row'.usage_limit ≡ row.usage_limit
  pub within : row'.usage_count ≤ row.usage_limit

module _ (percentage_of : ℤ → ℤ → ℤ) where
  committed-ok :
      (row : Promotion) (result : ApplyPromoCodeResult) (a : Applied)
      → committed true (some row) result ≡ ok a
      → (row.usage_count < row.usage_limit)
        × (a.result ≡ result)
        × (a.row ≡ some (record row { usage_count = row.usage_count + 1 }))
  unfolding committed increment_usage_count
  committed-ok row result a e = (ground arith, ground arith, ground arith)

  committed-none :
      (result : ApplyPromoCodeResult) (a : Applied) → committed true none result ≡ ok a → ⊥
  unfolding committed increment_usage_count
  committed-none result a e = cc

  pub execute-IsRedeemed :
      (now : ℕ) (found : Option Promotion) (total : ℤ) (row : Option Promotion) (a : Applied)
      → execute percentage_of now found total true row ≡ ok a
      → IsRedeemed percentage_of now found total row a
  unfolding execute
  execute-IsRedeemed now none total row a e = cc
  execute-IsRedeemed now (some p) total none a e =
      let (u, valid, e') = >>=-eq-ok (thrown_unless_valid (is_valid now p)) _ e in
      absurd (committed-none (apply percentage_of total p) a e')
  execute-IsRedeemed now (some p) total (some row) a e =
      let (u, valid, e') = >>=-eq-ok (thrown_unless_valid (is_valid now p)) _ e in
      let (left, same, counted) = committed-ok row (apply percentage_of total p) a e' in
      record {
        promotion = p;
        is_found = refl;
        is_open = (is_valid-IsOpen now p).0 valid;
        old = row;
        is_row = refl;
        use_left = left;
        result = same;
        counted = counted;
      }

  committed-counts :
      (row : Promotion) (result : ApplyPromoCodeResult)
      → row.usage_count < row.usage_limit
      → committed true (some row) result
        ≡ ok (record {
          result = result;
          row = some (record row { usage_count = row.usage_count + 1 });
        })
  unfolding committed increment_usage_count
  committed-counts row result left = ground arith

  IsRedeemed-execute :
      (now : ℕ) (p : Promotion) (total : ℤ) (row : Promotion)
      → IsOpen now p
      → row.usage_count < row.usage_limit
      → execute percentage_of now (some p) total true (some row)
        ≡ ok (record {
          result = apply percentage_of total p;
          row = some (record row { usage_count = row.usage_count + 1 });
        })
  unfolding execute
  IsRedeemed-execute now p total row opened left =
      let valid : thrown_unless_valid (is_valid now p) ≡ ok tt = (is_valid-IsOpen now p).1 opened in
      rw valid (committed-counts row (apply percentage_of total p) left)

  made :
      (a : Applied) {result : ApplyPromoCodeResult} {row : Option Promotion}
      → a.result ≡ result
      → a.row ≡ row
      → ok a ≡ ok (record { result = result; row = row })
  made a e f = ground arith

  -- A call that is to count a use succeeds exactly when an active promotion of the code is found,
  -- the time lies in its period, what was read shows a use that is left, and the row at the time of
  -- the write still has one. The result is then the promotion applied to the total, and the count
  -- of the row grows by one.
  pub execute_iff :
      (now : ℕ) (found : Option Promotion) (total : ℤ) (row : Option Promotion) (a : Applied)
      → (execute percentage_of now found total true row ≡ ok a)
        ↔ IsRedeemed percentage_of now found total row a
  execute_iff now found total row a = (
    execute-IsRedeemed now found total row a,
    λ r.
        rw (r.is_found, r.is_row)
          (IsRedeemed-execute now r.promotion total r.old r.is_open r.use_left
            ∙ sym (made a r.result r.counted)),
  )

  -- The calls that write one row. What a call has found is any promotion: an earlier state of the
  -- row, for one. A call that fails, or that only asks for the price, leaves the row as it is.
  pub data Call (row : Promotion) : ℕ → Promotion → Type 0 where
    redeemed :
        (now : ℕ) (found : Option Promotion) (total : ℤ) (a : Applied) (row' : Promotion)
        → execute percentage_of now found total true (some row) ≡ ok a
        → a.row ≡ some row'
        → Call row 1 row'
    quoted :
        (now : ℕ) (found : Option Promotion) (total : ℤ) (a : Applied) (row' : Promotion)
        → execute percentage_of now found total false (some row) ≡ ok a
        → a.row ≡ some row'
        → Call row 0 row'
    failed :
        (now : ℕ) (found : Option Promotion) (total : ℤ) (for_commit : Bool) (e : Error)
        → execute percentage_of now found total for_commit (some row) ≡ err e
        → Call row 0 row

  -- The calls in the order of their writes, with the number of uses that they granted.
  pub data Calls (row : Promotion) : ℕ → Promotion → Type 0 where
    start : Calls row 0 row
    next : {n k m : ℕ} {s t : Promotion} → Calls row n s → Call s k t → m ≡ n + k → Calls row m t

  quoted-same :
      (now : ℕ) (found : Option Promotion) (total : ℤ) (row : Promotion) (a : Applied)
      → execute percentage_of now found total false (some row) ≡ ok a
      → a.row ≡ some row
  unfolding execute committed
  quoted-same now none total row a e = cc
  quoted-same now (some p) total row a e =
      let (u, valid, e') = >>=-eq-ok (thrown_unless_valid (is_valid now p)) _ e in ground arith

  Call-Grew :
      (row s t : Promotion) (n k m : ℕ) → Call s k t → m ≡ n + k → Grew row n s → Grew row m t
  Call-Grew row s t n _ m (redeemed now found total a row' e kept) sum g =
      let r = execute-IsRedeemed now found total (some s) a e in
      let same : s ≡ r.old = ground arith in
      let new : row' ≡ record s { usage_count = s.usage_count + 1 } = ground arith in ground arith
  Call-Grew row s t n _ m (quoted now found total a row' e kept) sum g =
      let same = quoted-same now found total s a e in
      let new : row' ≡ s = ground arith in ground arith
  Call-Grew row s _ n _ m (failed now found total for_commit e failure) sum g = ground arith

  -- However many calls use one code, and whatever they had read before they wrote: the count of the
  -- row grows by the number of uses granted, and does not go above the limit where it was not above
  -- it before, so that no more uses are granted than were left.
  pub Calls-Grew :
      (row : Promotion) {n : ℕ} {row' : Promotion}
      → row.usage_count ≤ row.usage_limit
      → Calls row n row'
      → Grew row n row'
  Calls-Grew row h start = ground arith
  Calls-Grew row h (next {n = n} {k = k} {m = m} {s = s} {t = t} c d sum) =
      Call-Grew row s t n k m d sum (Calls-Grew row h c)
