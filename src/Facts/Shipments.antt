-- ===== src/Facts/Shipments.antt =====
-- application/shipment_facts.py. The columns of a shipment are, in order: 0 contract_item_id,
-- 1 declared_amount, 2 declared_currency, 3 quantity.
use business_execution_ledge.Base.{
  ℕ, Bool, true, false, ◌&&◌, not, Option, none, some, List, [], ◌∷◌, ◌++◌, ◌==◌, present,
  if◌then◌else◌,
}
use business_execution_ledge.Base.Lists.{any, filter, find}
use business_execution_ledge.Match.Text.{Text, text_eq}
use business_execution_ledge.Facts.Rows.{
  Value, number, Fields, Revision, is_initial, supplement, correction, Anchor, Store,
  identity_incomplete, identity_conflict, unknown_field, bad_value, parent_not_found,
  fragment_not_found, ambiguous_identity, conflicting_evidence, incomplete, Result, ok, err, ◌>>◌,
  require, FactResult,
}
use business_execution_ledge.Facts.Fields.{all_known, dict_eq, incoming_assertion, value_of}
use business_execution_ledge.Facts.Repository.{same_id, get}
use business_execution_ledge.Facts.Revise.{asserted_fields, Revise, has_fragment, apply_revision}
use business_execution_ledge.Facts.Create.{
  if_passed, Create, create_new, resolve_existing, find_by_identity, matched,
}
use business_execution_ledge.Facts.Notices.{is_incomplete_for, is_conflict_for, raise_once}
use business_execution_ledge.Facts.Dependents.{References, dependents, after_correction}

pub record ShipmentIdentity : Type 0 where
  pub contract_id : ℕ
  pub external_reference : Option Text
  pub execution_date : ℕ

abbrev pub ShipmentStore : Type 0
ShipmentStore = Store ShipmentIdentity

abbrev pub ShipmentOutcome : Type 0
ShipmentOutcome = Result (FactResult ShipmentIdentity) × ShipmentStore

-- SHIPMENT_FACT_FIELDS.
abbrev pub shipment_fact_fields : List ℕ
shipment_fact_fields = 0 ∷ 3 ∷ 1 ∷ 2 ∷ []

-- What a shipment refers to: the contracts, and the contract items with their contracts.
pub record Parents : Type 0 where
  pub contracts : List ℕ
  pub contract_items : List (ℕ × ℕ)

unfoldable pub validate_shipment_fields : Fields → Result Unit
validate_shipment_fields fields = require (all_known shipment_fact_fields fields) unknown_field

-- `_require_valid_contract_item`, where the fields name an item.
abbrev pub require_valid_contract_item : Parents → ℕ → Option Value → Result Unit
require_valid_contract_item ps contract none = ok tt
require_valid_contract_item ps contract (some (number i)) =
    elim (find (λ (x : ℕ × ℕ). x.0 == i) ps.contract_items) [
      | none ↦ err parent_not_found
      | some x ↦ require (x.1 == contract) bad_value
    ]
require_valid_contract_item ps contract (some v) = err parent_not_found

unfoldable pub check_shipment : Parents → ShipmentIdentity → Create → ShipmentStore → Result Unit
check_shipment ps identity c s = do
  validate_shipment_fields c.fields
  require (any (λ i. i == identity.contract_id) ps.contracts) parent_not_found
  require_valid_contract_item ps identity.contract_id (value_of c.fields 0)
  require (has_fragment s.fragments c.source_fragment_id) fragment_not_found

abbrev pub is_same_shipment : ℕ → Text → ℕ → ShipmentIdentity → Bool
is_same_shipment contract reference date j =
    j.contract_id == contract
    && (elim j.external_reference [ none ↦ false | some t ↦ text_eq t reference ]
        && j.execution_date == date)

-- Every revision, of whatever shipment, that the fragment is the evidence of.
unfoldable pub find_revisions_by_fragment_id : ℕ → List Revision → List Revision
find_revisions_by_fragment_id f rows =
    filter (λ (r : Revision). same_id r.source_fragment_id (some f)) rows

-- Whether a revision is what this create, confirmed and with no reference, would write.
abbrev pub is_exact : ShipmentIdentity → Create → List Revision → Revision → ShipmentIdentity → Bool
is_exact identity c rows r j =
    is_initial r.revision_type
    && (j.contract_id == identity.contract_id
        && (not (present j.external_reference)
            && (j.execution_date == identity.execution_date
                && dict_eq (asserted_fields shipment_fact_fields rows r)
                    (incoming_assertion c.fields))))

abbrev pub exact_of :
    ShipmentIdentity
    → Create
    → List Revision
    → Revision
    → Option (Anchor ShipmentIdentity × Revision)
    → List (Anchor ShipmentIdentity × Revision)
exact_of identity c rows r none = []
exact_of identity c rows r (some fact) =
    if is_exact identity c rows r fact.0.identity then fact ∷ [] else []

unfoldable pub exact_matches :
    ShipmentIdentity
    → Create
    → ShipmentStore
    → List Revision
    → List (Anchor ShipmentIdentity × Revision)
exact_matches identity c s [] = []
exact_matches identity c s (r ∷ rs) =
    exact_of identity c s.revisions r (get r.anchor_id s) ++ exact_matches identity c s rs

abbrev pub only_match :
    List (Anchor ShipmentIdentity × Revision) → Result (FactResult ShipmentIdentity)
only_match (fact ∷ []) = ok (matched fact true)
only_match _ = err ambiguous_identity

-- A create with no reference that a human has confirmed, with the revisions of its fragment.
abbrev pub create_confirmed :
    ShipmentIdentity → Create → ShipmentStore → List Revision → ShipmentOutcome
create_confirmed identity c s [] = create_new identity c s
create_confirmed identity c s (r ∷ rs) = (only_match (exact_matches identity c s (r ∷ rs)), s)

abbrev pub note_shipment_conflict :
    Create
    → Anchor ShipmentIdentity × Revision
    → ShipmentStore
    → Result (FactResult ShipmentIdentity)
    → ShipmentOutcome
note_shipment_conflict c fact s (ok f) = (ok f, s)
note_shipment_conflict c fact s (err conflicting_evidence) = (
  err conflicting_evidence,
  raise_once (is_conflict_for fact.0.id c.source_fragment_id)
      (identity_conflict fact.0.id c.source_fragment_id) c.created_at s,
)
note_shipment_conflict c fact s (err e) = (err e, s)

abbrev pub create_or_note_shipment :
    ShipmentIdentity
    → Create
    → ShipmentStore
    → Option (Anchor ShipmentIdentity × Revision)
    → ShipmentOutcome
create_or_note_shipment identity c s none = create_new identity c s
create_or_note_shipment identity c s (some fact) =
    note_shipment_conflict c fact s (resolve_existing shipment_fact_fields c s fact)

abbrev pub create_shipment_for :
    Bool → ShipmentIdentity → Create → ShipmentStore → Option Text → ShipmentOutcome
create_shipment_for confirmed identity c s none =
    if confirmed
    then create_confirmed identity c s
        (find_revisions_by_fragment_id c.source_fragment_id s.revisions)
    else (
      err incomplete,
      raise_once (is_incomplete_for c.source_fragment_id) (identity_incomplete c.source_fragment_id)
          c.created_at s,
    )
create_shipment_for confirmed identity c s (some reference) =
    create_or_note_shipment identity c s
      (find_by_identity (is_same_shipment identity.contract_id reference identity.execution_date) s)

unfoldable pub create_shipment_fact :
    Parents → Bool → ShipmentIdentity → Create → ShipmentStore → ShipmentOutcome
create_shipment_fact ps confirmed identity c s =
    if_passed (check_shipment ps identity c s) s
      (create_shipment_for confirmed identity c s identity.external_reference)

unfoldable pub apply_shipment_revision :
    Parents → (ShipmentStore → ShipmentStore) → Revise → ShipmentStore → ShipmentOutcome
apply_shipment_revision ps =
    apply_revision shipment_fact_fields validate_shipment_fields
      (λ x fields. require_valid_contract_item ps x.identity.contract_id (value_of fields 0))

unfoldable pub supplement_shipment_fact :
    Parents → (ShipmentStore → ShipmentStore) → Revise → ShipmentStore → ShipmentOutcome
supplement_shipment_fact ps rival c s =
    apply_shipment_revision ps rival (record c { revision_type = supplement }) s

-- The table is that of the cost recognition facts.
unfoldable pub correct_shipment_fact :
    References
    → Parents
    → (ShipmentStore → ShipmentStore)
    → Revise
    → ShipmentStore
    → ShipmentOutcome
correct_shipment_fact cost_recognition_facts ps rival c s =
    after_correction (dependents c.anchor_id (cost_recognition_facts ∷ [])) c
      (apply_shipment_revision ps rival (record c { revision_type = correction }) s)
