-- ===== src/Facts/Contracts.antt =====
-- application/contract_facts.py. The columns of a contract are, in order: 0 buyer, 1 contract_date,
-- 2 contract_type, 3 currency, 4 gross_amount.
use business_execution_ledge.Base.{ℕ, Bool, ◌&&◌, not, Option, List, [], ◌∷◌, eq_option, present}
use business_execution_ledge.Base.Lists.{all, filter}
use business_execution_ledge.Match.Text.{Text, text_eq, is_blank}
use business_execution_ledge.Facts.Rows.{
  Fields, Revision, supplement, correction, Anchor, Store, unknown_field, none_asserted, bad_value,
  no_identity, fragment_not_found, ambiguous_identity, Result, ok, err, ◌>>◌, require, FactResult,
}
use business_execution_ledge.Facts.Fields.{all_known, value_of}
use business_execution_ledge.Facts.Revise.{Revise, has_fragment, apply_revision}
use business_execution_ledge.Facts.Create.{
  if_passed, Create, create_new, resolve_existing, current_facts, has_identity,
}

pub record ContractIdentity : Type 0 where
  pub contract_no : Text
  pub counterparty : Option Text

-- CONTRACT_FACT_FIELDS.
abbrev pub contract_fact_fields : List ℕ
contract_fact_fields = 2 ∷ 0 ∷ 4 ∷ 3 ∷ 1 ∷ []

abbrev pub is_same_contract : ContractIdentity → ContractIdentity → Bool
is_same_contract i j =
    text_eq j.contract_no i.contract_no && eq_option text_eq j.counterparty i.counterparty

unfoldable pub validate_contract_fields : Fields → Result Unit
validate_contract_fields fields = require (all_known contract_fact_fields fields) unknown_field

unfoldable pub check_contract : ContractIdentity → Create → Store ContractIdentity → Result Unit
check_contract identity c s = do
  require (not (is_blank identity.contract_no)) no_identity
  validate_contract_fields c.fields
  require (present (value_of c.fields 4) && present (value_of c.fields 3)) bad_value
  require (has_fragment s.fragments c.source_fragment_id) fragment_not_found

-- Every fact of the identity, which need not be unique.
unfoldable pub find_contracts :
    ContractIdentity → Store ContractIdentity → List (Anchor ContractIdentity × Revision)
find_contracts identity s =
    filter (has_identity (is_same_contract identity)) (current_facts s.revisions s.anchors)

abbrev pub create_or_match :
    ContractIdentity
    → Create
    → Store ContractIdentity
    → List (Anchor ContractIdentity × Revision)
    → Result (FactResult ContractIdentity) × Store ContractIdentity
create_or_match identity c s [] = create_new identity c s
create_or_match identity c s (fact ∷ []) = (resolve_existing contract_fact_fields c s fact, s)
create_or_match identity c s (_ ∷ _ ∷ _) = (err ambiguous_identity, s)

unfoldable pub create_contract_fact :
    ContractIdentity
    → Create
    → Store ContractIdentity
    → Result (FactResult ContractIdentity) × Store ContractIdentity
create_contract_fact identity c s =
    if_passed (check_contract identity c s) s
      (create_or_match identity c s (find_contracts identity s))

-- The checks of a supplement or a correction, which never asserts None.
unfoldable pub validate_contract_revision : Fields → Result Unit
validate_contract_revision fields = do
  validate_contract_fields fields
  require (all (λ x. present x.1) fields) none_asserted

unfoldable pub apply_contract_revision :
    (Store ContractIdentity → Store ContractIdentity)
    → Revise
    → Store ContractIdentity
    → Result (FactResult ContractIdentity) × Store ContractIdentity
apply_contract_revision =
    apply_revision contract_fact_fields validate_contract_revision (λ x fields. ok tt)

unfoldable pub supplement_contract_fact :
    (Store ContractIdentity → Store ContractIdentity)
    → Revise
    → Store ContractIdentity
    → Result (FactResult ContractIdentity) × Store ContractIdentity
supplement_contract_fact rival c s =
    apply_contract_revision rival (record c { revision_type = supplement }) s

unfoldable pub correct_contract_fact :
    (Store ContractIdentity → Store ContractIdentity)
    → Revise
    → Store ContractIdentity
    → Result (FactResult ContractIdentity) × Store ContractIdentity
correct_contract_fact rival c s =
    apply_contract_revision rival (record c { revision_type = correction }) s
