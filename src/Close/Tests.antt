-- ===== src/Close/Tests.antt =====
-- A period close of small tables.
use business_execution_ledge.Base.{
  ◌≡◌, ◌⊎◌, refl, true, none, some, [], ◌∷◌, arith, ◌==◌, ◌&&◌, if◌then◌else◌,
}
use business_execution_ledge.Base.Lists.{all, filter}
use business_execution_ledge.Base.Int.{ltb_ℤ, ℤ, pos, ◌==ℤ◌, ◌+ℤ◌, ◌-ℤ◌, ◌≤ℤ◌, ◌<ℤ◌}
use business_execution_ledge.Match.Invoices.{Invoice, InvoiceItem, purchase}
use business_execution_ledge.Close.Accrual.{
  Accrual, InvoiceItemAllocation, partially_reversed, reversed, sum_of, get_accrual_balance,
  get_projected_accrual_status, is_open_accrual,
}
use business_execution_ledge.Close.Reversals.{
  Tables, PriorAccrualReversal, AccrualActualDifference, reversal, invoice_of_allocation, consumed,
  unclaimed, is_purchase_in_period, qualifying, available, reversal_quantity_of, reversal_cost_of,
  reversal_row, difference_row, reverse_single, scope_accruals, decide_among, decide_item,
  reversals_of,
}
use business_execution_ledge.Close.Clears.{is_open_of, decide_item-bounded, decide_item-clears}
use business_execution_ledge.Close.Requirements.{
  CostRecognitionFact, AccrualBasisFact, item_scope, requirements_of, may_accrue, decide_contract,
  decide_contract-guarded,
}

abbrev accrual_1 : Accrual
accrual_1 = record {
  id = 1;
  period = 202401;
  contract_item_id = 5;
  quantity = pos 100000;
  estimated_cost = pos 9000;
  basis = 0;
  created_from_fact_id = 7;
}

abbrev allocation_1 : InvoiceItemAllocation
allocation_1 = record {
  id = 11;
  invoice_item_id = 21;
  contract_item_id = 5;
  allocated_quantity = pos 40000;
  allocated_net_amount = pos 3700;
}

abbrev invoice_item : InvoiceItem
invoice_item = record {
  id = 21;
  invoice_id = 31;
  line_no = 1;
  product_name = none;
  specification = none;
  unit = none;
  quantity = some (pos 40000);
  unit_price = none;
  net_amount = pos 3700;
  tax_rate = none;
  tax_amount = pos 0;
  gross_amount = pos 3700;
}

abbrev invoice : Invoice
invoice = record {
  id = 31;
  direction = purchase;
  invoice_type = none;
  invoice_no = none;
  digital_invoice_no = none;
  external_invoice_key = none;
  issue_date = some 10;
  seller = none;
  buyer = none;
  net_amount = pos 3700;
  tax_amount = pos 0;
  gross_amount = pos 3700;
  invoice_status = none;
  currency = none;
}

abbrev tables : Tables
tables = record {
  items =
      record { id = 5; contract_id = 2; source_item_key = none; quantity = some (pos 100000) }
      ∷ record { id = 6; contract_id = 2; source_item_key = none; quantity = some (pos 20000) }
      ∷ [];
  accruals = accrual_1 ∷ [];
  reversals = [];
  item_allocations = allocation_1 ∷ [];
  invoice_items = invoice_item ∷ [];
  invoices = invoice ∷ [];
  invoice_allocations = [];
}

-- The rounded share of this run, 9000 * 0.4 and 3700.
abbrev share : ℤ → ℤ → ℤ → ℤ
share total whole part = if total ==ℤ pos 9000 then pos 3600 else total

abbrev row : PriorAccrualReversal
row = record {
  accrual_id = 1;
  contract_id = 2;
  contract_item_id = 5;
  source_period = 202401;
  basis = 0;
  reversal_quantity = pos 40000;
  reversal_estimated_cost = pos 3600;
  projected_remaining_quantity = pos 60000;
  projected_remaining_cost = pos 5400;
  projected_status = partially_reversed;
  source_fact_id = 7;
  invoice_item_allocation_id = 11;
}

abbrev difference_1 : AccrualActualDifference
difference_1 = record {
  contract_id = 2;
  contract_item_id = 5;
  actual_net_cost = pos 3700;
  reversed_estimated_cost = pos 3600;
  difference = pos 100;
  source_fact_id = 7;
  invoice_item_allocation_id = 11;
}

decided : decide_item tables 30 share 5 ≡ reversal row difference_1
unfolding decide_item decide_among scope_accruals reverse_single difference_row reversal_row
    reversal_cost_of reversal_quantity_of available qualifying is_purchase_in_period consumed
    invoice_of_allocation is_open_accrual get_projected_accrual_status get_accrual_balance sum_of
    ◌+ℤ◌ ◌-ℤ◌
decided = refl

nothing_reversed :
    (a : Accrual) → pos 0 ≤ℤ (get_accrual_balance a (reversals_of tables a.id)).reversed_quantity
unfolding get_accrual_balance sum_of
nothing_reversed a = ground arith

decide_item-bounded_example :
    (a : Accrual) × (x : InvoiceItemAllocation) × (filter
        (is_open_of tables 30 share 5)
        tables.accruals
      ≡ a ∷ [])
    × (filter
          (λ (y : InvoiceItemAllocation).
            (y.contract_item_id == 5
              && is_purchase_in_period tables 30 (invoice_of_allocation tables y))
            && ltb_ℤ (pos 0) (unclaimed tables y))
          tables.item_allocations
        ≡ x ∷ [])
    × (row.accrual_id ≡ a.id)
    × (row.invoice_item_allocation_id ≡ x.id)
    × (pos 0 <ℤ row.reversal_quantity)
    × (row.reversal_quantity ≤ℤ unclaimed tables x)
    × (row.reversal_quantity
        ≤ℤ (get_accrual_balance a (reversals_of tables a.id)).remaining_quantity)
decide_item-bounded_example = decide_item-bounded tables 30 share 5 row difference_1 decided

decide_item-clears_example :
    ((row.projected_remaining_quantity ≡ pos 0)
      × (row.projected_remaining_cost ≡ pos 0)
      × (row.projected_status ≡ reversed))
    ⊎ ((pos 0 <ℤ row.projected_remaining_quantity) × (row.projected_status ≡ partially_reversed))
decide_item-clears_example =
    decide_item-clears tables 30 share 5 row difference_1 nothing_reversed decided

abbrev recognized : CostRecognitionFact
recognized = record { id = 41; contract_id = 2; recognition_date = 20 }

abbrev basis_6 : AccrualBasisFact
basis_6 = record {
  id = 51;
  scope_type = item_scope;
  contract_id = 2;
  contract_item_id = some 6;
  quantity = some (pos 20000);
  estimated_cost = pos 1800;
  basis = 0;
  created_at = 3;
}

decide_contract-guarded_example :
    all
      (may_accrue tables 30 (recognized ∷ []) (basis_6 ∷ []) 2)
      (requirements_of (decide_contract tables 30 (recognized ∷ []) (basis_6 ∷ []) 2))
    ≡ true
decide_contract-guarded_example =
    decide_contract-guarded tables 30 (recognized ∷ []) (basis_6 ∷ []) 2
