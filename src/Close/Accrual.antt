-- ===== src/Close/Accrual.antt =====
-- domain/accrual.py: an accrual, its reversals, and the balance that follows from them.
use business_execution_ledge.Base.{ℕ, Bool, ◌&&◌, List, [], ◌∷◌, if◌then◌else◌}
use business_execution_ledge.Base.Int.{ℤ, pos, ◌+ℤ◌, ◌-ℤ◌, ltb_ℤ, leb_ℤ}

pub data AccrualStatus : Type 0 where
  active : AccrualStatus
  partially_reversed : AccrualStatus
  reversed : AccrualStatus

pub record Accrual : Type 0 where
  pub id : ℕ
  pub period : ℕ
  pub contract_item_id : ℕ
  pub quantity : ℤ
  pub estimated_cost : ℤ
  pub basis : ℕ
  pub created_from_fact_id : ℕ

pub record AccrualReversal : Type 0 where
  pub accrual_id : ℕ
  pub invoice_item_allocation_id : ℕ
  pub reversed_quantity : ℤ
  pub reversed_estimated_cost : ℤ

pub record InvoiceItemAllocation : Type 0 where
  pub id : ℕ
  pub invoice_item_id : ℕ
  pub contract_item_id : ℕ
  pub allocated_quantity : ℤ
  pub allocated_net_amount : ℤ

pub record Balance : Type 0 where
  pub remaining_quantity : ℤ
  pub remaining_estimated_cost : ℤ
  pub reversed_quantity : ℤ
  pub reversed_estimated_cost : ℤ

-- Python's `sum` of one column.
unfoldable pub sum_of {ℓ} : {A : Type ℓ} → (A → ℤ) → List A → ℤ
sum_of f [] = pos 0
sum_of f (x ∷ xs) = f x +ℤ sum_of f xs

unfoldable pub get_accrual_balance : Accrual → List AccrualReversal → Balance
get_accrual_balance a reversals =
    let quantity = sum_of (λ (r : AccrualReversal). r.reversed_quantity) reversals in
    let cost = sum_of (λ (r : AccrualReversal). r.reversed_estimated_cost) reversals in
    record {
      remaining_quantity = a.quantity -ℤ quantity;
      remaining_estimated_cost = a.estimated_cost -ℤ cost;
      reversed_quantity = quantity;
      reversed_estimated_cost = cost;
    }

unfoldable pub get_projected_accrual_status : ℤ → ℤ → AccrualStatus
get_projected_accrual_status reversed_quantity remaining_quantity =
    if leb_ℤ remaining_quantity (pos 0)
    then reversed
    else if ltb_ℤ (pos 0) reversed_quantity
    then partially_reversed
    else active

unfoldable pub is_open_accrual : Accrual → List AccrualReversal → Bool
is_open_accrual a reversals =
    let b = get_accrual_balance a reversals in
    ltb_ℤ (pos 0) b.remaining_quantity && ltb_ℤ (pos 0) b.remaining_estimated_cost
