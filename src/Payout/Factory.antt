-- ===== src/Payout/Factory.antt =====
-- payout/factories/payout.factory.ts: one payout for each service provider and company.
use mathlib.Core.List.{foldl}
use vz.Common.{
  ℕ, String, Bool, ◌&&◌, Option, none, some, List, [], ◌∷◌, ◌++◌, ◌==◌, chain, get_elem?,
  if◌then◌else◌,
}
use vz.Common.Int.{ℤ, pos, ◌+ℤ◌}
use vz.Shared.Tenant.{Tenant, same_tenant}
use vz.Wallet.{WalletTransaction}
use vz.Payout.{Bank, Payout, PayoutStatus}

-- What the factory calls of `IServiceProvider`.
pub record PayableProvider : Type 0 where
  pub id : ℕ
  pub vendor_id : Option String
  pub bank_info : Bank

-- An entry of the lookup from `${ownerId}|${principalGroup}` to a `WalletTransactionGroup`. The
-- entries stand in the order in which their keys came, which is that of `Object.keys`.
pub record Group : Type 0 where
  pub owner_id : ℕ
  pub principal_group : Tenant
  pub transactions : List WalletTransaction

unfoldable pub get_total_amount : Group → ℤ
get_total_amount g = foldl (λ total t. total +ℤ t.amount) (pos 0) g.transactions

-- `transactions[0]?.ownerId` and `transactions[0]?.principalGroup`
abbrev pub get_owner_id : Group → Option ℕ
get_owner_id g = chain (get_elem? g.transactions 0) (λ t. some t.owner_id)

abbrev pub get_principal_group : Group → Option Tenant
get_principal_group g = chain (get_elem? g.transactions 0) (λ t. some t.principal_group)

abbrev pub is_group_of : WalletTransaction → Group → Bool
is_group_of t g = (g.owner_id == t.owner_id) && same_tenant g.principal_group t.principal_group

-- A round of `forEach`: the group of the transaction gets it, behind the others; a group that is
-- new is the last one.
unfoldable pub add_transaction : WalletTransaction → List Group → List Group
add_transaction t [] =
    record { owner_id = t.owner_id; principal_group = t.principal_group; transactions = t ∷ [] }
    ∷ []
add_transaction t (g ∷ gs) =
    let rest = add_transaction t gs in
    if is_group_of t g
    then record g { transactions = g.transactions ++ (t ∷ []) } ∷ gs
    else g ∷ rest

unfoldable pub generate_wallet_transaction_group_lookup : List WalletTransaction → List Group
unfolding add_transaction
generate_wallet_transaction_group_lookup = foldl (λ gs t. add_transaction t gs) []

-- `lookup[id]` after the `reduce`, in which a later provider of the id replaces an earlier one.
unfoldable pub find_service_provider : List PayableProvider → ℕ → Option PayableProvider
find_service_provider [] id = none
find_service_provider (sp ∷ sps) id = elim (find_service_provider sps id) [
  | some found ↦ some found
  | none ↦ if sp.id == id then some sp else none
]

-- A round of the loop over the groups: the payout, or none on `continue`. A group with an owner has
-- a first transaction, and so a company. The status and the processed amount are the defaults of
-- their columns.
unfoldable pub payout_of : List PayableProvider → Group → Option Payout
unfolding find_service_provider get_total_amount
payout_of providers g = elim (chain (get_owner_id g) (find_service_provider providers)) [
  | none ↦ none
  | some owner ↦ elim (get_principal_group g) [
    | none ↦ none
    | some tenant ↦ some (record {
      amount = get_total_amount g;
      bank = owner.bank_info;
      owner_id = owner.id;
      principal_group = tenant;
      status = PayoutStatus.scheduled;
      wallet_transactions = g.transactions;
      processed_amount = pos 0;
    })
  ]
]

unfoldable pub payouts_of_groups : List PayableProvider → List Group → List Payout
unfolding payout_of
payouts_of_groups providers [] = []
payouts_of_groups providers (g ∷ gs) = elim (payout_of providers g) [
  | none ↦ payouts_of_groups providers gs
  | some p ↦ p ∷ payouts_of_groups providers gs
]

unfoldable pub create : List WalletTransaction → List PayableProvider → List Payout
unfolding generate_wallet_transaction_group_lookup payouts_of_groups
create transactions providers =
    payouts_of_groups providers (generate_wallet_transaction_group_lookup transactions)
