-- ===== src/Payout/Groups.antt =====
-- The payouts of the factory cover the transactions of the providers that are known.
use mathlib.Core.List.{foldl}
use mathlib.Core.Path.{subst}
use vz.Common.{
  ℕ, ◌≡◌, refl, sym, ap, ◌∙◌, ◌⊎◌, inl, inr, true, none, some, List, [], ◌∷◌, ◌++◌, arith, All,
  is_some, if◌then◌else◌, Bool-cases, Option-cases,
}
use vz.Common.Sums.{sum_of, foldl-sum_of}
use vz.Common.Int.{ℤ, pos, ◌+ℤ◌, int_laws}
use vz.Shared.Tenant.{Tenant, same_tenant}
use vz.Wallet.{WalletTransaction}
use vz.Payout.{Payout, PayoutStatus}
use vz.Payout.Factory.{
  PayableProvider, Group, get_total_amount, is_group_of, add_transaction,
  generate_wallet_transaction_group_lookup, find_service_provider, payout_of, payouts_of_groups,
  create,
}

-- The members of a group have its owner and its company, and there is one.
abbrev IsMember : Group → WalletTransaction → Type 0
IsMember g t = (t.owner_id ≡ g.owner_id) × (t.principal_group ≡ g.principal_group)

pub record IsGroup (g : Group) : Type 0 where
  pub members : All (IsMember g) g.transactions
  pub inhabited :
      (t : WalletTransaction) × (ts : List WalletTransaction) × (g.transactions ≡ t ∷ ts)

get_total_amount-eq : (g : Group) → get_total_amount g ≡ sum_of (λ t. t.amount) g.transactions
unfolding get_total_amount
get_total_amount-eq g = foldl-sum_of (λ t. t.amount) g.transactions

sum_of-snoc :
    (ts : List WalletTransaction) (t : WalletTransaction)
    → sum_of (λ t. t.amount) (ts ++ (t ∷ [])) ≡ sum_of (λ t. t.amount) ts +ℤ t.amount
sum_of-snoc [] t = grind int_laws
sum_of-snoc (x ∷ xs) t = grind (int_laws, sum_of-snoc xs t)

All-snoc :
    (P : WalletTransaction → Type 0) (ts : List WalletTransaction) (t : WalletTransaction)
    → All P ts
    → P t
    → All P (ts ++ (t ∷ []))
All-snoc P [] t h p = (p, tt)
All-snoc P (x ∷ xs) t h p = (h.0, All-snoc P xs t h.1 p)

same_tenant-eq : (a b : Tenant) → same_tenant a b ≡ true → a ≡ b
same_tenant-eq Tenant.daikin Tenant.daikin h = refl
same_tenant-eq Tenant.acson Tenant.acson h = refl
same_tenant-eq Tenant.daikin Tenant.acson h = cc
same_tenant-eq Tenant.acson Tenant.daikin h = cc

is_group_of-IsMember : (t : WalletTransaction) (g : Group) → is_group_of t g ≡ true → IsMember g t
is_group_of-IsMember t g h =
    (ground arith, sym (same_tenant-eq g.principal_group t.principal_group (ground arith)))

snoc-inhabited :
    (xs : List WalletTransaction) (t : WalletTransaction)
    → (y : WalletTransaction) × (ys : List WalletTransaction) × (xs ++ (t ∷ []) ≡ y ∷ ys)
snoc-inhabited [] t = (t, [], refl)
snoc-inhabited (x ∷ xs) t = (x, xs ++ (t ∷ []), refl)

add_transaction-IsGroup :
    (t : WalletTransaction) (gs : List Group) → All IsGroup gs → All IsGroup (add_transaction t gs)
unfolding add_transaction
add_transaction-IsGroup t [] h =
    (record { members = ((refl, refl), tt); inhabited = (t, [], refl) }, tt)
add_transaction-IsGroup t (g ∷ gs) h = elim (Bool-cases (is_group_of t g)) [
  | inl his ↦ rw his (
    record {
      members = All-snoc (IsMember g) g.transactions t h.0.members (is_group_of-IsMember t g his);
      inhabited = snoc-inhabited g.transactions t;
    },
    h.1,
  )
  | inr other ↦ rw other (h.0, add_transaction-IsGroup t gs h.1)
]

find_service_provider-id :
    (sps : List PayableProvider) (id : ℕ) (sp : PayableProvider)
    → find_service_provider sps id ≡ some sp
    → sp.id ≡ id
unfolding find_service_provider
find_service_provider-id [] id sp h = cc
find_service_provider-id (x ∷ xs) id sp h = elim (Option-cases (find_service_provider xs id)) [
  | inl missing ↦ ground arith
  | inr (y, found) ↦ ground (arith, find_service_provider-id xs id y found)
]

module _ (providers : List PayableProvider) where
  -- What a transaction brings to the payouts: its amount, where its owner is known.
  abbrev pub payable_amount : WalletTransaction → ℤ
  payable_amount t =
      if is_some (find_service_provider providers t.owner_id) then t.amount else pos 0

  abbrev group_amount : Group → ℤ
  group_amount g =
      if is_some (find_service_provider providers g.owner_id)
      then sum_of (λ t. t.amount) g.transactions
      else pos 0

  grow :
      (t : WalletTransaction) (g : Group) (gs : List Group)
      → is_group_of t g ≡ true
      → group_amount (record g { transactions = g.transactions ++ (t ∷ []) })
          +ℤ sum_of group_amount gs
        ≡ group_amount g +ℤ sum_of group_amount gs +ℤ payable_amount t
  grow t g gs his =
      let more = sum_of-snoc g.transactions t in
      let (owner, _) = is_group_of-IsMember t g his in
      elim (Bool-cases (is_some (find_service_provider providers g.owner_id))) [
        | inl known ↦ rw (more, owner, known) (grind int_laws)
        | inr unknown ↦ rw (more, owner, unknown) (grind int_laws)
      ]

  add_transaction-sum_of :
      (t : WalletTransaction) (gs : List Group)
      → sum_of group_amount (add_transaction t gs) ≡ sum_of group_amount gs +ℤ payable_amount t
  unfolding add_transaction
  add_transaction-sum_of t [] =
      elim (Bool-cases (is_some (find_service_provider providers t.owner_id))) [
        | inl known ↦ rw known (grind int_laws)
        | inr unknown ↦ rw unknown (grind int_laws)
      ]
  add_transaction-sum_of t (g ∷ gs) = elim (Bool-cases (is_group_of t g)) [
    | inl his ↦ rw his (grow t g gs his)
    | inr other ↦ rw other (let rest = add_transaction-sum_of t gs in grind int_laws)
  ]

  foldl-groups :
      (ts : List WalletTransaction) (gs : List Group)
      → All IsGroup gs
      → (sum_of group_amount (foldl (λ gs t. add_transaction t gs) gs ts)
          ≡ sum_of group_amount gs +ℤ sum_of payable_amount ts)
        × All IsGroup (foldl (λ gs t. add_transaction t gs) gs ts)
  foldl-groups [] gs h = (grind int_laws, h)
  foldl-groups (t ∷ ts) gs h =
      let (rest, groups) =
        foldl-groups ts (add_transaction t gs) (add_transaction-IsGroup t gs h) in
      let one = add_transaction-sum_of t gs in (grind int_laws, groups)

  -- What the factory says of a payout.
  abbrev pub IsCovered : Payout → Type 0
  IsCovered p =
      (p.amount ≡ sum_of (λ t. t.amount) p.wallet_transactions)
      × All (λ t. (t.owner_id ≡ p.owner_id) × (t.principal_group ≡ p.principal_group))
          p.wallet_transactions

  payout_of-lem :
      (g : Group)
      → IsGroup g
      → ((payout_of providers g ≡ none) × (group_amount g ≡ pos 0))
        ⊎ ((p : Payout) × (payout_of providers g ≡ some p)
            × (p.amount ≡ group_amount g)
            × IsCovered p)
  unfolding payout_of
  payout_of-lem g h =
      let (t, ts, e) = h.inhabited in
      let (owner, tenant) : IsMember g t = (subst (All (IsMember g)) e h.members).0 in
      let total = get_total_amount-eq g in
      elim (Option-cases (find_service_provider providers g.owner_id)) [
        | inl missing ↦ inl (ground arith, ground arith)
        | inr (o, found) ↦
            let id = find_service_provider-id providers g.owner_id o found in
            let p : Payout = record {
              amount = get_total_amount g;
              bank = o.bank_info;
              owner_id = o.id;
              principal_group = t.principal_group;
              status = PayoutStatus.scheduled;
              wallet_transactions = g.transactions;
              processed_amount = pos 0;
            } in
            inr (p, ground arith, rw found total, (total, rw (id, tenant) h.members))
      ]

  payouts_of_groups-lem :
      (gs : List Group)
      → All IsGroup gs
      → (sum_of (λ p. p.amount) (payouts_of_groups providers gs) ≡ sum_of group_amount gs)
        × All IsCovered (payouts_of_groups providers gs)
  unfolding payouts_of_groups
  payouts_of_groups-lem [] h = (refl, tt)
  payouts_of_groups-lem (g ∷ gs) h =
      let (rest, covered) = payouts_of_groups-lem gs h.1 in
      elim (payout_of-lem g h.0) [
        | inl (skipped, nothing) ↦
            rw (payouts_of_groups, skipped, nothing) (rest ∙ grind int_laws, covered)
        | inr (p, made, same, his) ↦
            rw (payouts_of_groups, made, ← same) (ap (λ x. p.amount +ℤ x) rest, (his, covered))
      ]

  -- The payouts that the factory makes of the transactions: their amounts add up to those of the
  -- transactions whose owners are among the providers, so of these none is left out and none is
  -- paid twice; the amount of each payout is the sum of its own transactions, and these have its
  -- owner and its company.
  pub create_lem :
      (transactions : List WalletTransaction)
      → (sum_of (λ p. p.amount) (create transactions providers)
          ≡ sum_of payable_amount transactions)
        × All IsCovered (create transactions providers)
  unfolding create generate_wallet_transaction_group_lookup
  create_lem transactions =
      let (sum, groups) = foldl-groups transactions [] tt in
      let (paid, covered) = payouts_of_groups-lem _ groups in (paid ∙ sum ∙ grind int_laws, covered)
