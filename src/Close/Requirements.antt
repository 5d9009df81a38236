-- ===== src/Close/Requirements.antt =====
-- R002, R003 and R007 of `_compute_preview`: the new accruals that one contract requires.
use business_execution_ledge.Base.{
  ℕ, ◌≡◌, refl, inl, inr, Bool, true, false, ◌&&◌, ◌||◌, not, Option, none, some, List, [], ◌∷◌,
  map, arith, ltb, leb, ◌==◌, present, Bool-cases, if◌then◌else◌,
}
use business_execution_ledge.Base.Lists.{any, all, filter}
use business_execution_ledge.Base.Int.{ℤ}
use business_execution_ledge.Match.Text.{text_eq, text_ltb}
use business_execution_ledge.Match.Rows.{
  Contract, Allocation, ConfirmationType, auto_confirmed, human_confirmed,
}
use business_execution_ledge.Match.Candidates.{sorted, min_of}
use business_execution_ledge.Close.Accrual.{Accrual}
use business_execution_ledge.Close.Reversals.{
  ContractItem, Tables, is_open, invoice_by_id, is_purchase_in_period,
}

pub record CostRecognitionFact : Type 0 where
  pub id : ℕ
  pub contract_id : ℕ
  pub recognition_date : ℕ

pub data AccrualBasisScopeType : Type 0 where
  contract_scope : AccrualBasisScopeType
  item_scope : AccrualBasisScopeType

pub record AccrualBasisFact : Type 0 where
  pub id : ℕ
  pub scope_type : AccrualBasisScopeType
  pub contract_id : ℕ
  pub contract_item_id : Option ℕ
  pub quantity : Option ℤ
  pub estimated_cost : ℤ
  pub basis : ℕ
  pub created_at : ℕ

pub record AccrualRequired : Type 0 where
  pub contract_id : ℕ
  pub contract_item_id : ℕ
  pub quantity : Option ℤ
  pub estimated_cost : ℤ
  pub basis : ℕ
  pub cost_recognition_fact_id : ℕ
  pub accrual_basis_fact_id : ℕ

pub record AccrualCandidate : Type 0 where
  pub contract_id : ℕ
  pub estimated_cost : ℤ
  pub cost_recognition_fact_id : ℕ
  pub accrual_basis_fact_id : ℕ

-- What the loop's body appends for one contract; `no_basis` is the blocker MISSING_ACCRUAL_BASIS.
pub data Requirement : Type 0 where
  nothing : Requirement
  required : List AccrualRequired → Requirement
  candidate : AccrualCandidate → Requirement
  no_basis : Requirement

abbrev pub requirements_of : Requirement → List AccrualRequired
requirements_of (required rs) = rs
requirements_of _ = []

abbrev pub is_item_scope : AccrualBasisScopeType → Bool
is_item_scope contract_scope = false
is_item_scope item_scope = true

abbrev pub is_of_item : ℕ → Option ℕ → Bool
is_of_item i none = false
is_of_item i (some j) = j == i

-- `basis_by_item.get(i)`: a later fact replaces an earlier one.
abbrev pub basis_of : ℕ → List AccrualBasisFact → Option AccrualBasisFact
basis_of i [] = none
basis_of i (b ∷ bs) =
    let rest = basis_of i bs in
    if present rest then rest else if is_of_item i b.contract_item_id then some b else none

abbrev key_before : ContractItem → ContractItem → Bool
key_before x y =
    text_ltb (elim x.source_item_key [ none ↦ [] | some k ↦ k ])
      (elim y.source_item_key [ none ↦ [] | some k ↦ k ])

abbrev contract_before : Contract → Contract → Bool
contract_before c d =
    text_ltb c.contract_no d.contract_no
    || (text_eq c.contract_no d.contract_no
        && text_ltb (elim c.counterparty [ none ↦ [] | some x ↦ x ])
            (elim d.counterparty [ none ↦ [] | some x ↦ x ]))

abbrev pub is_confirmed : ConfirmationType → Bool
is_confirmed auto_confirmed = true
is_confirmed human_confirmed = true

module _ (t : Tables) (end : ℕ) (cost_facts : List CostRecognitionFact)
    (basis_facts : List AccrualBasisFact) where
  unfoldable pub has_confirmed_invoice_in_period : ℕ → Bool
  has_confirmed_invoice_in_period c =
      any
        (λ (a : Allocation).
          a.contract_id == c
          && is_confirmed a.confirmation_type
          && is_purchase_in_period t end (invoice_by_id t a.subject_id))
        t.invoice_allocations

  -- `item.id in open_accrual_item_ids`.
  abbrev pub has_open_accrual : ℕ → Bool
  has_open_accrual i = any (λ (a : Accrual). is_open t a && a.contract_item_id == i) t.accruals

  abbrev pub complete_items : ℕ → List ContractItem
  complete_items c = filter (λ (x : ContractItem). x.contract_id == c && present x.quantity) t.items

  abbrev pub item_basis : ℕ → List AccrualBasisFact
  item_basis c =
      filter (λ (b : AccrualBasisFact). b.contract_id == c && is_item_scope b.scope_type)
        basis_facts

  abbrev pub contract_basis : ℕ → List AccrualBasisFact
  contract_basis c =
      filter (λ (b : AccrualBasisFact). b.contract_id == c && not (is_item_scope b.scope_type))
        basis_facts

  abbrev pub requirement : ℕ → ℕ → ContractItem → AccrualBasisFact → AccrualRequired
  requirement c fact x b = record {
    contract_id = c;
    contract_item_id = x.id;
    quantity = b.quantity;
    estimated_cost = b.estimated_cost;
    basis = b.basis;
    cost_recognition_fact_id = fact;
    accrual_basis_fact_id = b.id;
  }

  unfoldable pub requirements : ℕ → ℕ → List ContractItem → List AccrualRequired
  requirements c fact [] = []
  requirements c fact (x ∷ xs) =
      let rest = requirements c fact xs in
      if has_open_accrual x.id then rest else elim (basis_of x.id (item_basis c)) [
        | none ↦ rest
        | some b ↦ requirement c fact x b ∷ rest
      ]

  abbrev pub no_contract_basis : ℕ → ℕ → List AccrualBasisFact → Requirement
  no_contract_basis c fact [] = nothing
  no_contract_basis c fact (b ∷ bs) =
      let first = min_of (λ (x y : AccrualBasisFact). ltb x.created_at y.created_at) b bs in
      candidate (record {
        contract_id = c;
        estimated_cost = first.estimated_cost;
        cost_recognition_fact_id = fact;
        accrual_basis_fact_id = first.id;
      })

  -- No item required an accrual.
  unfoldable pub none_emitted : ℕ → ℕ → Requirement
  none_emitted c fact =
      let is_some_open =
        any (λ (x : ContractItem). x.contract_id == c && has_open_accrual x.id) t.items in
      let has_basis = any (λ (b : AccrualBasisFact). b.contract_id == c) basis_facts in
      if not has_basis
      then (if is_some_open then nothing else no_basis)
      else elim (complete_items c) [
        | [] ↦ no_contract_basis c fact (contract_basis c)
        | _ ∷ _ ↦ no_basis
      ]

  abbrev pub or_else : List AccrualRequired → Requirement → Requirement
  or_else [] otherwise = otherwise
  or_else (r ∷ rs) otherwise = required (r ∷ rs)

  unfoldable pub decide_recognized : ℕ → List CostRecognitionFact → Requirement
  decide_recognized c [] = nothing
  decide_recognized c (f ∷ fs) =
      let first =
        min_of (λ (x y : CostRecognitionFact). ltb x.recognition_date y.recognition_date) f fs in
      if has_confirmed_invoice_in_period c
      then nothing
      else or_else (requirements c first.id (sorted key_before (complete_items c)))
          (none_emitted c first.id)

  unfoldable pub decide_contract : ℕ → Requirement
  decide_contract c = decide_recognized c (
      filter (λ (f : CostRecognitionFact). f.contract_id == c && leb f.recognition_date end)
        cost_facts)

  -- The loop over the contracts, by number and counterparty.
  unfoldable pub decide_contracts : List Contract → List Requirement
  decide_contracts contracts =
      map (λ (c : Contract). decide_contract c.id) (sorted contract_before contracts)

  -- An item may get a new accrual: none is open on it, and its contract is not invoiced.
  abbrev pub may_accrue : ℕ → AccrualRequired → Bool
  may_accrue c r =
      not (has_open_accrual r.contract_item_id) && not (has_confirmed_invoice_in_period c)

  requirements-may_accrue :
      (c fact : ℕ) (xs : List ContractItem)
      → has_confirmed_invoice_in_period c ≡ false
      → all (may_accrue c) (requirements c fact xs) ≡ true
  unfolding requirements
  requirements-may_accrue c fact [] h = refl
  requirements-may_accrue c fact (x ∷ xs) h = ground (arith, h, requirements-may_accrue c fact xs)

  no_contract_basis-emits_none :
      (c fact : ℕ) (bs : List AccrualBasisFact) → requirements_of (no_contract_basis c fact bs) ≡ []
  no_contract_basis-emits_none c fact [] = refl
  no_contract_basis-emits_none c fact (b ∷ bs) = refl

  none_emitted-emits_none : (c fact : ℕ) → requirements_of (none_emitted c fact) ≡ []
  unfolding none_emitted
  none_emitted-emits_none c fact =
      ground (arith, no_contract_basis-emits_none c fact (contract_basis c))

  or_else-guarded :
      (c fact : ℕ) (rs : List AccrualRequired)
      → all (may_accrue c) rs ≡ true
      → all (may_accrue c) (requirements_of (or_else rs (none_emitted c fact))) ≡ true
  or_else-guarded c fact [] h = rw (none_emitted-emits_none c fact) refl
  or_else-guarded c fact (r ∷ rs) h = h

  decide_recognized-guarded :
      (c : ℕ) (fs : List CostRecognitionFact)
      → all (may_accrue c) (requirements_of (decide_recognized c fs)) ≡ true
  unfolding decide_recognized
  decide_recognized-guarded c [] = refl
  decide_recognized-guarded c (f ∷ fs) =
      let first =
        min_of (λ (x y : CostRecognitionFact). ltb x.recognition_date y.recognition_date) f fs in
      let items = sorted key_before (complete_items c) in
      elim (Bool-cases (has_confirmed_invoice_in_period c)) [
        | inl h ↦ rw h refl
        | inr h ↦ rw h (
            or_else-guarded c first.id (requirements c first.id items)
              (requirements-may_accrue c first.id items h))
      ]

  -- A contract that is invoiced by the end of the period requires no accrual, and an item with an
  -- open accrual gets no second one.
  pub decide_contract-guarded :
      (c : ℕ) → all (may_accrue c) (requirements_of (decide_contract c)) ≡ true
  unfolding decide_contract
  decide_contract-guarded c = decide_recognized-guarded c (
      filter (λ (f : CostRecognitionFact). f.contract_id == c && leb f.recognition_date end)
        cost_facts)
