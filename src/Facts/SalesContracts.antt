-- ===== src/Facts/SalesContracts.antt =====
-- application/sales_contract_facts.py. The columns of a sales contract are, in order:
-- 0 contract_date, 1 currency, 2 customer, 3 gross_amount, 4 quantity, 5 unit. A Decimal is counted
-- in units of 10^-8.
use business_execution_ledge.Base.{
  ℕ, ◌*◌, ◌-◌, Bool, true, false, ◌&&◌, not, Option, none, some, List, [], ◌∷◌, leb, ◌==◌, present,
  if◌then◌else◌,
}
use Prim.Native.Nat.{◌%◌}
use business_execution_ledge.Base.Int.{pos_part, neg_part}
use business_execution_ledge.Base.Lists.{all}
use business_execution_ledge.Match.Text.{Text, Unicode, text_eq, is_blank}
use business_execution_ledge.Facts.Rows.{
  Value, text, amount, Fields, Revision, supplement, correction, Anchor, Store, identity_incomplete,
  identity_conflict, customer_unresolved, unknown_field, none_asserted, bad_value,
  fragment_not_found, conflicting_evidence, incomplete, Result, ok, err, ◌>>◌, require, FactResult,
}
use business_execution_ledge.Facts.Fields.{all_known, has_field, value_of}
use business_execution_ledge.Facts.Revise.{Revise, has_fragment, apply_revision}
use business_execution_ledge.Facts.Create.{
  if_passed, Create, create_new, resolve_existing, find_by_identity,
}
use business_execution_ledge.Facts.Notices.{
  is_incomplete_for, is_conflict_for, is_unresolved_for, raise_once, resolve_open,
}

pub record SalesIdentity : Type 0 where
  pub our_entity : Text
  pub sales_contract_no : Text

abbrev pub SalesStore : Type 0
SalesStore = Store SalesIdentity

abbrev pub SalesOutcome : Type 0
SalesOutcome = Result (FactResult SalesIdentity) × SalesStore

-- SALES_CONTRACT_FACT_FIELDS.
abbrev pub sales_contract_fact_fields : List ℕ
sales_contract_fact_fields = 2 ∷ 1 ∷ 3 ∷ 0 ∷ 4 ∷ 5 ∷ []

abbrev pub is_same_sales_contract : SalesIdentity → SalesIdentity → Bool
is_same_sales_contract i j =
    text_eq j.our_entity i.our_entity && text_eq j.sales_contract_no i.sales_contract_no

-- Not negative, four decimals at most, and within Numeric(18,4).
abbrev pub is_quantity : Option Value → Bool
is_quantity (some (amount q)) =
    neg_part q == 0
    && (pos_part q % 10000 == 0 && leb (pos_part q) ((1000000000000000000 - 1) * 10000))
is_quantity _ = false

-- `_flag_unresolved_customer` after a create.
abbrev pub flag_unresolved_customer : Create → SalesOutcome → SalesOutcome
flag_unresolved_customer c (err e, s) = (err e, s)
flag_unresolved_customer c (ok f, s) = if present (f.current.values 2) then (ok f, s) else (
  ok f,
  raise_once (is_unresolved_for c.anchor_id) (customer_unresolved c.anchor_id) c.created_at s,
)

abbrev pub note_conflict :
    Create
    → Anchor SalesIdentity × Revision
    → SalesStore
    → Result (FactResult SalesIdentity)
    → SalesOutcome
note_conflict c fact s (ok f) = (ok f, s)
note_conflict c fact s (err conflicting_evidence) = (
  err conflicting_evidence,
  raise_once (is_conflict_for fact.0.id c.source_fragment_id)
      (identity_conflict fact.0.id c.source_fragment_id) c.created_at s,
)
note_conflict c fact s (err e) = (err e, s)

-- What a create does with a complete identity, once its fact has been looked up.
abbrev pub create_or_note :
    SalesIdentity → Create → SalesStore → Option (Anchor SalesIdentity × Revision) → SalesOutcome
create_or_note identity c s none = flag_unresolved_customer c (create_new identity c s)
create_or_note identity c s (some fact) =
    note_conflict c fact s (resolve_existing sales_contract_fact_fields c s fact)

-- `not our_entity or not sales_contract_no`.
abbrev pub complete_identity : Option Text → Option Text → Option SalesIdentity
complete_identity (some e) (some n) =
    if is_blank e
    then none
    else if is_blank n
    then none
    else some (record { our_entity = e; sales_contract_no = n })
complete_identity _ _ = none

abbrev pub create_identified : Create → SalesStore → Option SalesIdentity → SalesOutcome
create_identified c s none = (
  err incomplete,
  raise_once (is_incomplete_for c.source_fragment_id) (identity_incomplete c.source_fragment_id)
      c.created_at s,
)
create_identified c s (some identity) =
    create_or_note identity c s (find_by_identity (is_same_sales_contract identity) s)

-- A SUPPLEMENT that has filled in the customer closes the task about it.
abbrev pub resolve_customer : Revise → SalesOutcome → SalesOutcome
resolve_customer c (err e, s) = (err e, s)
resolve_customer c (ok f, s) =
    if f.revision_written && (has_field 2 c.fields && present (f.current.values 2))
    then (ok f, resolve_open (is_unresolved_for c.anchor_id) s)
    else (ok f, s)

module _ (u : Unicode) where
  abbrev pub is_unit : Option Value → Bool
  is_unit (some (text t)) = not (all u.is_space t)
  is_unit _ = false

  unfoldable pub validate_sales_fields : Fields → Result Unit
  validate_sales_fields fields = do
    require (all_known sales_contract_fact_fields fields) unknown_field
    require (all (λ x. present x.1) fields) none_asserted
    require (if has_field 4 fields then is_quantity (value_of fields 4) else true) bad_value
    require (if has_field 5 fields then is_unit (value_of fields 5) else true) bad_value

  unfoldable pub check_sales : Create → SalesStore → Result Unit
  check_sales c s = do
    validate_sales_fields c.fields
    require (has_fragment s.fragments c.source_fragment_id) fragment_not_found

  unfoldable pub create_sales_contract_fact :
      Option Text → Option Text → Create → SalesStore → SalesOutcome
  create_sales_contract_fact our_entity sales_contract_no c s =
      if_passed (check_sales c s) s
        (create_identified c s (complete_identity our_entity sales_contract_no))

  unfoldable pub apply_sales_revision :
      (SalesStore → SalesStore) → Revise → SalesStore → SalesOutcome
  apply_sales_revision =
      apply_revision sales_contract_fact_fields validate_sales_fields (λ x fields. ok tt)

  unfoldable pub supplement_sales_contract_fact :
      (SalesStore → SalesStore) → Revise → SalesStore → SalesOutcome
  supplement_sales_contract_fact rival c s =
      resolve_customer c (apply_sales_revision rival (record c { revision_type = supplement }) s)

  unfoldable pub correct_sales_contract_fact :
      (SalesStore → SalesStore) → Revise → SalesStore → SalesOutcome
  correct_sales_contract_fact rival c s =
      apply_sales_revision rival (record c { revision_type = correction }) s
