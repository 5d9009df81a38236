-- ===== src/Facts/Items.antt =====
-- application/contract_item_facts.py. The columns of a contract item are, in order: 0 gross_amount,
-- 1 net_amount, 2 product_name, 3 quantity, 4 sku, 5 specification, 6 tax_classification_code,
-- 7 tax_rate, 8 unit, 9 unit_price.
use business_execution_ledge.Base.{
  ℕ, Bool, true, false, ◌&&◌, not, Option, none, some, List, [], ◌∷◌, leb, ◌==◌,
}
use business_execution_ledge.Base.Lists.{length, any}
use business_execution_ledge.Match.Text.{Text, Unicode, text_eq, is_blank, lstrip, rstrip}
use business_execution_ledge.Facts.Rows.{
  Value, text, Fields, supplement, correction, Store, unknown_field, bad_value, no_identity,
  parent_not_found, fragment_not_found, Result, ok, ◌>>◌, require, FactResult,
}
use business_execution_ledge.Facts.Fields.{all_known, value_of}
use business_execution_ledge.Facts.Dependents.{References, dependents, after_correction}
use business_execution_ledge.Facts.Revise.{Revise, has_fragment, apply_revision}
use business_execution_ledge.Facts.Create.{if_passed, Create, create_fact}

pub record ItemIdentity : Type 0 where
  pub contract_id : ℕ
  pub source_item_key : Text

-- CONTRACT_ITEM_FACT_FIELDS.
abbrev pub contract_item_fact_fields : List ℕ
contract_item_fact_fields = 4 ∷ 2 ∷ 5 ∷ 3 ∷ 8 ∷ 9 ∷ 0 ∷ 7 ∷ 1 ∷ 6 ∷ []

abbrev pub is_same_item : ItemIdentity → ItemIdentity → Bool
is_same_item i j = j.contract_id == i.contract_id && text_eq j.source_item_key i.source_item_key

module _ (u : Unicode) where
  -- A classification code is a trimmed text of one to 64 characters.
  abbrev pub is_code : Option Value → Bool
  is_code none = true
  is_code (some (text t)) =
      not (is_blank t) && (text_eq t (rstrip u (lstrip u t)) && leb (length t) 64)
  is_code (some _) = false

  unfoldable pub validate_item_fields : Fields → Result Unit
  validate_item_fields fields = do
    require (all_known contract_item_fact_fields fields) unknown_field
    require (is_code (value_of fields 6)) bad_value

  -- `contracts` are the anchors of the contracts that can be read.
  unfoldable pub check_item : List ℕ → ItemIdentity → Create → Store ItemIdentity → Result Unit
  check_item contracts identity c s = do
    require (not (is_blank identity.source_item_key)) no_identity
    validate_item_fields c.fields
    require (any (λ i. i == identity.contract_id) contracts) parent_not_found
    require (has_fragment s.fragments c.source_fragment_id) fragment_not_found

  unfoldable pub create_contract_item_fact :
      List ℕ
      → ItemIdentity
      → Create
      → Store ItemIdentity
      → Result (FactResult ItemIdentity) × Store ItemIdentity
  create_contract_item_fact contracts identity c s =
      if_passed (check_item contracts identity c s) s
        (create_fact contract_item_fact_fields (is_same_item identity) identity c s)

  unfoldable pub apply_item_revision :
      (Store ItemIdentity → Store ItemIdentity)
      → Revise
      → Store ItemIdentity
      → Result (FactResult ItemIdentity) × Store ItemIdentity
  apply_item_revision =
      apply_revision contract_item_fact_fields validate_item_fields (λ x fields. ok tt)

  unfoldable pub supplement_contract_item_fact :
      (Store ItemIdentity → Store ItemIdentity)
      → Revise
      → Store ItemIdentity
      → Result (FactResult ItemIdentity) × Store ItemIdentity
  supplement_contract_item_fact rival c s =
      apply_item_revision rival (record c { revision_type = supplement }) s

  -- The tables are those of invoice item allocations, accruals, accrual basis facts and historical
  -- accrual facts.
  unfoldable pub correct_contract_item_fact :
      List References
      → (Store ItemIdentity → Store ItemIdentity)
      → Revise
      → Store ItemIdentity
      → Result (FactResult ItemIdentity) × Store ItemIdentity
  correct_contract_item_fact tables rival c s =
      after_correction (dependents c.anchor_id tables) c
        (apply_item_revision rival (record c { revision_type = correction }) s)
