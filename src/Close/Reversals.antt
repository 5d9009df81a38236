-- ===== src/Close/Reversals.antt =====
-- R001 and R006 of `_compute_preview`: which open accruals a period's purchase invoices reverse. The
-- rows of a table are in the order in which the query returns them. `prorate total whole part` is
-- `_quantize((total / whole) * part)`, arithmetic of Python's Decimal.
use business_execution_ledge.Base.{
  ℕ, Bool, true, false, ◌&&◌, ◌||◌, not, Option, none, some, List, [], ◌∷◌, ◌++◌, map, leb, ◌==◌,
  if◌then◌else◌,
}
use business_execution_ledge.Base.Lists.{any, filter, find}
use business_execution_ledge.Base.Int.{ℤ, pos, ◌+ℤ◌, ◌-ℤ◌, ltb_ℤ, leb_ℤ, ◌==ℤ◌}
use business_execution_ledge.Match.Text.{Text}
use business_execution_ledge.Match.Rows.{Allocation}
use business_execution_ledge.Match.Invoices.{Invoice, InvoiceItem, is_purchase}
use business_execution_ledge.Close.Accrual.{
  AccrualStatus, Accrual, AccrualReversal, InvoiceItemAllocation, Balance, sum_of,
  get_accrual_balance, get_projected_accrual_status, is_open_accrual,
}

pub record ContractItem : Type 0 where
  pub id : ℕ
  pub contract_id : ℕ
  pub source_item_key : Option Text
  pub quantity : Option ℤ

pub record PriorAccrualReversal : Type 0 where
  pub accrual_id : ℕ
  pub contract_id : ℕ
  pub contract_item_id : ℕ
  pub source_period : ℕ
  pub basis : ℕ
  pub reversal_quantity : ℤ
  pub reversal_estimated_cost : ℤ
  pub projected_remaining_quantity : ℤ
  pub projected_remaining_cost : ℤ
  pub projected_status : AccrualStatus
  pub source_fact_id : ℕ
  pub invoice_item_allocation_id : ℕ

pub record AccrualActualDifference : Type 0 where
  pub contract_id : ℕ
  pub contract_item_id : ℕ
  pub actual_net_cost : ℤ
  pub reversed_estimated_cost : ℤ
  pub difference : ℤ
  pub source_fact_id : ℕ
  pub invoice_item_allocation_id : ℕ

-- The blockers of this part, with the contract, the item and the accruals they name.
pub data CloseBlocker : Type 0 where
  item_match_required : ℕ → ℕ → ℕ → CloseBlocker
  multiple_open_accruals : ℕ → ℕ → List ℕ → CloseBlocker
  multiple_item_allocations : ℕ → ℕ → ℕ → CloseBlocker

-- What the loop's body appends for one item.
pub data Decision : Type 0 where
  blocked : List CloseBlocker → Decision
  reversal : PriorAccrualReversal → AccrualActualDifference → Decision

pub record Preview : Type 0 where
  pub prior_accrual_reversals : List PriorAccrualReversal
  pub accrual_actual_differences : List AccrualActualDifference
  pub blockers : List CloseBlocker

pub record Tables : Type 0 where
  pub items : List ContractItem
  pub accruals : List Accrual
  pub reversals : List AccrualReversal
  pub item_allocations : List InvoiceItemAllocation
  pub invoice_items : List InvoiceItem
  pub invoices : List Invoice
  pub invoice_allocations : List Allocation

abbrev pub reversals_of : Tables → ℕ → List AccrualReversal
reversals_of t i = filter (λ (r : AccrualReversal). r.accrual_id == i) t.reversals

abbrev pub is_open : Tables → Accrual → Bool
is_open t a = is_open_accrual a (reversals_of t a.id)

abbrev pub invoice_by_id : Tables → ℕ → Option Invoice
invoice_by_id t i = find (λ (x : Invoice). x.id == i) t.invoices

unfoldable pub invoice_of_allocation : Tables → InvoiceItemAllocation → Option Invoice
invoice_of_allocation t a =
    elim (find (λ (x : InvoiceItem). x.id == a.invoice_item_id) t.invoice_items) [
      | none ↦ none
      | some x ↦ invoice_by_id t x.invoice_id
    ]

-- A quantity that other reversals have taken from an allocation, whatever accrual they belong to.
unfoldable pub consumed : Tables → ℕ → ℤ
consumed t i =
    sum_of (λ (r : AccrualReversal). r.reversed_quantity)
      (filter (λ (r : AccrualReversal). r.invoice_item_allocation_id == i) t.reversals)

abbrev pub unclaimed : Tables → InvoiceItemAllocation → ℤ
unclaimed t a = a.allocated_quantity -ℤ consumed t a.id

abbrev pub min_ℤ : ℤ → ℤ → ℤ
min_ℤ a b = if ltb_ℤ b a then b else a

module _ (t : Tables) (end : ℕ) where
  unfoldable pub is_purchase_in_period : Option Invoice → Bool
  is_purchase_in_period none = false
  is_purchase_in_period (some x) =
      is_purchase x.direction && elim x.issue_date [ none ↦ false | some d ↦ leb d end ]

  unfoldable pub qualifying : ℕ → List InvoiceItemAllocation
  qualifying i =
      filter
        (λ (a : InvoiceItemAllocation).
          a.contract_item_id == i && is_purchase_in_period (invoice_of_allocation t a))
        t.item_allocations

  unfoldable pub contract_alloc_in_period : ℕ → Bool
  contract_alloc_in_period c =
      any
        (λ (a : Allocation).
          a.contract_id == c && is_purchase_in_period (invoice_by_id t a.subject_id))
        t.invoice_allocations

  -- `total_allocated` less every reversal on a qualifying allocation.
  unfoldable pub available : List InvoiceItemAllocation → ℤ
  available allocations =
      sum_of (λ (a : InvoiceItemAllocation). a.allocated_quantity) allocations
      -ℤ sum_of (λ (r : AccrualReversal). r.reversed_quantity)
          (filter
            (λ (r : AccrualReversal).
              any (λ (a : InvoiceItemAllocation). a.id == r.invoice_item_allocation_id) allocations)
            t.reversals)

  module _ (prorate : ℤ → ℤ → ℤ → ℤ) where
    abbrev pub balance_of : Accrual → Balance
    balance_of a = get_accrual_balance a (reversals_of t a.id)

    -- What an accrual gives back to the single allocation with unclaimed quantity. The last reversal
    -- takes what is left of the cost.
    unfoldable pub reversal_quantity_of : Accrual → InvoiceItemAllocation → ℤ
    reversal_quantity_of a source = min_ℤ (unclaimed t source) (balance_of a).remaining_quantity

    unfoldable pub reversal_cost_of : Accrual → ℤ → ℤ
    reversal_cost_of a quantity =
        if quantity ==ℤ (balance_of a).remaining_quantity
        then (balance_of a).remaining_estimated_cost
        else prorate a.estimated_cost a.quantity quantity

    unfoldable pub reversal_row :
        ContractItem → Accrual → InvoiceItemAllocation → PriorAccrualReversal
    reversal_row item a source =
        let b = balance_of a in
        let quantity = reversal_quantity_of a source in
        let cost = reversal_cost_of a quantity in
        record {
          accrual_id = a.id;
          contract_id = item.contract_id;
          contract_item_id = item.id;
          source_period = a.period;
          basis = a.basis;
          reversal_quantity = quantity;
          reversal_estimated_cost = cost;
          projected_remaining_quantity = b.remaining_quantity -ℤ quantity;
          projected_remaining_cost = b.remaining_estimated_cost -ℤ cost;
          projected_status =
              get_projected_accrual_status (b.reversed_quantity +ℤ quantity)
                (b.remaining_quantity -ℤ quantity);
          source_fact_id = a.created_from_fact_id;
          invoice_item_allocation_id = source.id;
        }

    unfoldable pub difference_row :
        ContractItem → Accrual → InvoiceItemAllocation → AccrualActualDifference
    difference_row item a source =
        let quantity = reversal_quantity_of a source in
        let cost = reversal_cost_of a quantity in
        let actual = prorate source.allocated_net_amount source.allocated_quantity quantity in
        record {
          contract_id = item.contract_id;
          contract_item_id = item.id;
          actual_net_cost = actual;
          reversed_estimated_cost = cost;
          difference = actual -ℤ cost;
          source_fact_id = a.created_from_fact_id;
          invoice_item_allocation_id = source.id;
        }

    abbrev pub reverse_from : ContractItem → Accrual → InvoiceItemAllocation → Decision
    reverse_from item a source =
        reversal (reversal_row item a source) (difference_row item a source)

    unfoldable pub reverse_single : ContractItem → Accrual → List InvoiceItemAllocation → Decision
    reverse_single item a (source ∷ []) = reverse_from item a source
    reverse_single item a _ = blocked (multiple_item_allocations item.contract_id item.id a.id ∷ [])

    abbrev pub unclaimed_allocations : List InvoiceItemAllocation → List InvoiceItemAllocation
    unclaimed_allocations = filter (λ a. ltb_ℤ (pos 0) (unclaimed t a))

    -- The item's open accruals, on allocations with quantity left.
    unfoldable pub scope_accruals :
        ContractItem → List Accrual → List InvoiceItemAllocation → Decision
    scope_accruals item [] allocations = blocked []
    scope_accruals item (a ∷ []) allocations =
        let b = get_accrual_balance a (reversals_of t a.id) in
        if leb_ℤ b.remaining_quantity (pos 0) || leb_ℤ b.remaining_estimated_cost (pos 0)
        then blocked []
        else reverse_single item a (unclaimed_allocations allocations)
    scope_accruals item (a ∷ a' ∷ as') allocations = blocked (
        multiple_open_accruals item.contract_id item.id (map (λ (x : Accrual). x.id) (a ∷ a' ∷ as'))
        ∷ [])

    unfoldable pub decide_among :
        ContractItem → List Accrual → List InvoiceItemAllocation → Decision
    decide_among item accruals [] = blocked (
        if contract_alloc_in_period item.contract_id
        then map (λ (x : Accrual). item_match_required item.contract_id item.id x.id) accruals
        else [])
    decide_among item accruals (a ∷ as') =
        if leb_ℤ (available (a ∷ as')) (pos 0)
        then blocked []
        else scope_accruals item accruals (a ∷ as')

    unfoldable pub decide_item : ℕ → Decision
    decide_item i = elim (find (λ (x : ContractItem). x.id == i) t.items) [
      | none ↦ blocked []
      | some item ↦
          decide_among item
            (filter (λ (a : Accrual). is_open t a && a.contract_item_id == i) t.accruals)
            (qualifying i)
    ]

    abbrev pub append : Decision → Preview → Preview
    append (blocked bs) p = record p { blockers = p.blockers ++ bs }
    append (reversal r d) p = record p {
      prior_accrual_reversals = p.prior_accrual_reversals ++ r ∷ [];
      accrual_actual_differences = p.accrual_actual_differences ++ d ∷ [];
    }

    -- The items in the order in which an open accrual first names them.
    abbrev pub items_in_order : List ℕ → List Accrual → List ℕ
    items_in_order seen [] = []
    items_in_order seen (a ∷ as') =
        elim (is_open t a && not (any (λ i. i == a.contract_item_id) seen)) [
          | true ↦ a.contract_item_id ∷ items_in_order (a.contract_item_id ∷ seen) as'
          | false ↦ items_in_order seen as'
        ]

    unfoldable pub preview_items : List ℕ → Preview → Preview
    preview_items [] p = p
    preview_items (i ∷ is) p = preview_items is (append (decide_item i) p)

    unfoldable pub preview_reversals : Preview
    preview_reversals =
        preview_items (items_in_order [] t.accruals)
          (record { prior_accrual_reversals = []; accrual_actual_differences = []; blockers = [] })
