-- ===== src/Close/Clears.antt =====
-- How much a reversal of the period close takes, and when it clears its accrual.
use business_execution_ledge.Base.{
  ℕ, ◌≡◌, ◌⊎◌, refl, sym, ◌∙◌, ap, inl, inr, Bool, true, ◌&&◌, ◌||◌, List, [], ◌∷◌, arith, ◌==◌,
  Bool-cases, Option-cases,
}
use business_execution_ledge.Base.Lists.{all, filter, find, all-filter_self, filter-filter}
use business_execution_ledge.Base.Int.{
  ℤ, pos, ◌≤ℤ◌, ◌<ℤ◌, ltb_ℤ, leb_ℤ, ◌==ℤ◌, eq_of_parts, -ℤ_self, ==ℤ_self, -ℤ_positive, +ℤ_positive,
}
use business_execution_ledge.Close.Accrual.{
  partially_reversed, reversed, Accrual, InvoiceItemAllocation, get_accrual_balance,
  get_projected_accrual_status,
}
use business_execution_ledge.Close.Reversals.{
  ContractItem, PriorAccrualReversal, AccrualActualDifference, reversal, Tables, reversals_of,
  is_open, unclaimed, reversal_row, reversal_quantity_of, reversal_cost_of, balance_of,
  reverse_single, unclaimed_allocations, scope_accruals, decide_among, decide_item, qualifying,
  available, is_purchase_in_period, invoice_of_allocation,
}

module _ (t : Tables) (end : ℕ) (prorate : ℤ → ℤ → ℤ → ℤ) where
  -- What is behind a reversal: the only open accrual, with something left, and the only allocation
  -- with unclaimed quantity.
  pub record Source (accruals : List Accrual) (allocations : List InvoiceItemAllocation)
      (r : PriorAccrualReversal) : Type 0 where
    pub item : ContractItem
    pub accrual : Accrual
    pub allocation : InvoiceItemAllocation
    pub only_accrual : accruals ≡ accrual ∷ []
    pub only_allocation : unclaimed_allocations t end prorate allocations ≡ allocation ∷ []
    pub left :
        ltb_ℤ (pos 0) (get_accrual_balance accrual (reversals_of t accrual.id)).remaining_quantity
        ≡ true
    pub free : ltb_ℤ (pos 0) (unclaimed t allocation) ≡ true
    pub made : r ≡ reversal_row t end prorate item accrual allocation

  reverse_single-Source :
      (item : ContractItem) (a : Accrual) (all_of xs : List InvoiceItemAllocation)
      (r : PriorAccrualReversal) (d : AccrualActualDifference)
      → unclaimed_allocations t end prorate all_of ≡ xs
      → ltb_ℤ (pos 0) (get_accrual_balance a (reversals_of t a.id)).remaining_quantity ≡ true
      → all (λ x. ltb_ℤ (pos 0) (unclaimed t x)) xs ≡ true
      → reverse_single t end prorate item a xs ≡ reversal r d
      → Source (a ∷ []) all_of r
  unfolding reverse_single
  reverse_single-Source item a all_of [] r d o l f e = ground (arith, e)
  reverse_single-Source item a all_of (x ∷ []) r d o l f e = record {
    item = item;
    accrual = a;
    allocation = x;
    only_accrual = refl;
    only_allocation = o;
    left = l;
    free = ground (arith, f);
    made = ground (arith, e);
  }
  reverse_single-Source item a all_of (x ∷ y ∷ xs) r d o l f e = ground (arith, e)

  scope_accruals-Source :
      (item : ContractItem) (as' : List Accrual) (xs : List InvoiceItemAllocation)
      (r : PriorAccrualReversal) (d : AccrualActualDifference)
      → scope_accruals t end prorate item as' xs ≡ reversal r d
      → Source as' xs r
  unfolding scope_accruals
  scope_accruals-Source item [] xs r d e = ground (arith, e)
  scope_accruals-Source item (a ∷ a' ∷ as') xs r d e = ground (arith, e)
  scope_accruals-Source item (a ∷ []) xs r d e =
      let b = get_accrual_balance a (reversals_of t a.id) in
      elim (Bool-cases
        (leb_ℤ b.remaining_quantity (pos 0) || leb_ℤ b.remaining_estimated_cost (pos 0))) [
          | inl h ↦ ground (arith, h, e)
          | inr h ↦
              reverse_single-Source item a xs (unclaimed_allocations t end prorate xs) r d refl
                (ground (arith, h)) (all-filter_self (λ x. ltb_ℤ (pos 0) (unclaimed t x)) xs)
                (ground (arith, h, e))
        ]

  decide_among-Source :
      (item : ContractItem) (as' : List Accrual) (xs : List InvoiceItemAllocation)
      (r : PriorAccrualReversal) (d : AccrualActualDifference)
      → decide_among t end prorate item as' xs ≡ reversal r d
      → Source as' xs r
  unfolding decide_among
  decide_among-Source item as' [] r d e = ground (arith, e)
  decide_among-Source item as' (x ∷ xs) r d e =
      elim (Bool-cases (leb_ℤ (available t end (x ∷ xs)) (pos 0))) [
        | inl h ↦ ground (arith, h, e)
        | inr h ↦ scope_accruals-Source item as' (x ∷ xs) r d (ground (arith, h, e))
      ]

  abbrev pub is_open_of : ℕ → Accrual → Bool
  is_open_of i a = is_open t a && a.contract_item_id == i

  pub decide_item-Source :
      (i : ℕ) (r : PriorAccrualReversal) (d : AccrualActualDifference)
      → decide_item t end prorate i ≡ reversal r d
      → Source (filter (is_open_of i) t.accruals) (qualifying t end i) r
  unfolding decide_item
  decide_item-Source i r d e =
      elim (Option-cases (find (λ (x : ContractItem). x.id == i) t.items)) [
        | inl n ↦ ground (arith, n, e)
        | inr (item, n) ↦
            decide_among-Source item (filter (is_open_of i) t.accruals) (qualifying t end i) r d
              (ground (arith, n, e))
      ]

  -- Of a reversal: the accruals table has exactly one open accrual of the item, and the reversal
  -- names it; exactly one of the item's allocations to purchase invoices of the period has unclaimed
  -- quantity, and the reversal names it; its quantity is positive, and neither more than is left of
  -- the one nor more than is unclaimed of the other.
  pub decide_item-bounded :
      (i : ℕ) (r : PriorAccrualReversal) (d : AccrualActualDifference)
      → decide_item t end prorate i ≡ reversal r d
      → (a : Accrual) × (x : InvoiceItemAllocation) × (filter (is_open_of i) t.accruals ≡ a ∷ [])
        × (filter
              (λ (y : InvoiceItemAllocation).
                (y.contract_item_id == i && is_purchase_in_period t end (invoice_of_allocation t y))
                && ltb_ℤ (pos 0) (unclaimed t y))
              t.item_allocations
            ≡ x ∷ [])
        × (r.accrual_id ≡ a.id)
        × (r.invoice_item_allocation_id ≡ x.id)
        × (pos 0 <ℤ r.reversal_quantity)
        × (r.reversal_quantity ≤ℤ unclaimed t x)
        × (r.reversal_quantity ≤ℤ (get_accrual_balance a (reversals_of t a.id)).remaining_quantity)
  unfolding reversal_row reversal_quantity_of qualifying
  decide_item-bounded i r d e =
      let s = decide_item-Source i r d e in
      let left = s.left in
      let free = s.free in
      (
        s.accrual,
        s.allocation,
        s.only_accrual,
        sym (
              filter-filter (λ y. ltb_ℤ (pos 0) (unclaimed t y))
                (λ y.
                  y.contract_item_id == i
                  && is_purchase_in_period t end (invoice_of_allocation t y))
                t.item_allocations)
            ∙ s.only_allocation,
        ap (λ (x : PriorAccrualReversal). x.accrual_id) s.made,
        ap (λ (x : PriorAccrualReversal). x.invoice_item_allocation_id) s.made,
        rw s.made (ground (arith, left, free)),
        rw s.made (ground arith),
        rw s.made (ground arith),
      )

  -- A reversal that takes all that is left.
  row_clears_all :
      (item : ContractItem) (a : Accrual) (x : InvoiceItemAllocation)
      → reversal_quantity_of t end prorate a x ≡ (balance_of t end prorate a).remaining_quantity
      → let r = reversal_row t end prorate item a x in
        (r.projected_remaining_quantity ≡ pos 0)
        × (r.projected_remaining_cost ≡ pos 0)
        × (r.projected_status ≡ reversed)
  unfolding reversal_row reversal_cost_of get_projected_accrual_status
  row_clears_all item a x e =
      let b = balance_of t end prorate a in
      rw
        (
          e,
          ==ℤ_self b.remaining_quantity,
          -ℤ_self b.remaining_quantity,
          -ℤ_self b.remaining_estimated_cost,
        )
        (refl, refl, refl)

  row_leaves :
      (item : ContractItem) (a : Accrual) (x : InvoiceItemAllocation)
      → let q = reversal_quantity_of t end prorate a x in
        let r = reversal_row t end prorate item a x in
        q <ℤ (balance_of t end prorate a).remaining_quantity
        → pos 0 <ℤ q
        → pos 0 ≤ℤ (balance_of t end prorate a).reversed_quantity
        → (pos 0 <ℤ r.projected_remaining_quantity) × (r.projected_status ≡ partially_reversed)
  unfolding reversal_row get_projected_accrual_status
  row_leaves item a x less positive h =
      let b = balance_of t end prorate a in
      let q = reversal_quantity_of t end prorate a x in
      let some_left = -ℤ_positive b.remaining_quantity q less in
      let some_gone = +ℤ_positive b.reversed_quantity q h positive in
      (some_left, ground (arith, some_left, some_gone))

  -- A reversal either clears its accrual exactly, in quantity and in cost, and the projected status
  -- is REVERSED, or it leaves a positive quantity and the status is PARTIALLY_REVERSED. The
  -- reversals from before are taken to add up to no negative quantity.
  pub decide_item-clears :
      (i : ℕ) (r : PriorAccrualReversal) (d : AccrualActualDifference)
      → ((a : Accrual) → pos 0 ≤ℤ (get_accrual_balance a (reversals_of t a.id)).reversed_quantity)
      → decide_item t end prorate i ≡ reversal r d
      → ((r.projected_remaining_quantity ≡ pos 0)
          × (r.projected_remaining_cost ≡ pos 0)
          × (r.projected_status ≡ reversed))
        ⊎ ((pos 0 <ℤ r.projected_remaining_quantity) × (r.projected_status ≡ partially_reversed))
  unfolding reversal_quantity_of
  decide_item-clears i r d h e =
      let s = decide_item-Source i r d e in
      let left = s.left in
      let free = s.free in
      let b = balance_of t end prorate s.accrual in
      let q = reversal_quantity_of t end prorate s.accrual s.allocation in
      elim (Bool-cases (q ==ℤ b.remaining_quantity)) [
        | inl k ↦ inl (
            rw s.made (
              row_clears_all s.item s.accrual s.allocation
                (ground (arith, k, eq_of_parts q b.remaining_quantity))))
        | inr k ↦ inr (
            rw s.made (
              row_leaves s.item s.accrual s.allocation (ground (arith, k))
                (ground (arith, left, free)) (h s.accrual)))
      ]
