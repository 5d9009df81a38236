-- ===== src/Facts/ManualTests.antt =====
-- Runs of the manual entry points and of the commands of shipments.
use business_execution_ledge.Base.{ℕ, ◌≡◌, refl, Bool, true, false, none, some, [], ◌∷◌, ◌==◌}
use business_execution_ledge.Base.Int.{pos}
use business_execution_ledge.Match.Text.{Unicode}
use business_execution_ledge.Facts.Rows.{
  amount, identity_incomplete, incomplete, parent_not_found, Result, ok, err, FactResult,
}
use business_execution_ledge.Match.Candidates.{insert_sorted, sorted}
use business_execution_ledge.Link.Manual.{find_document_by_sha256}
use business_execution_ledge.Facts.Fields.{all_known, dict_eq}
use business_execution_ledge.Facts.Repository.{get, get_current_revision, get_initial_revision}
use business_execution_ledge.Facts.Revise.{asserted_fields}
use business_execution_ledge.Facts.Notices.{raise_once}
use business_execution_ledge.Facts.Create.{
  Create, create_fact, find_by_identity, create_new, resolve_existing,
}
use business_execution_ledge.Facts.Items.{
  ItemIdentity, create_contract_item_fact, check_item, validate_item_fields,
}
use business_execution_ledge.Facts.Shipments.{
  ShipmentIdentity, create_shipment_fact, check_shipment, validate_shipment_fields,
}
use business_execution_ledge.Facts.Manual.{
  FactPayload, FactSession, find_or_build_fact_fragment, execute_create_contract_item_fact,
  execute_create_shipment_fact,
}

abbrev ascii : Unicode
ascii = record { nfkc = λ t. t; is_space = λ c. c == 32 }

abbrev digest : FactPayload → ℕ
digest p = 77

abbrev empty_session : {I : Type 0} → FactSession I
empty_session = record {
  store = record { anchors = []; revisions = []; tasks = []; fragments = [] };
  documents = [];
}

abbrev quantity_5 : ℕ → Create
quantity_5 i = record {
  anchor_id = i;
  rev_id = 10;
  fields = (3, some (amount (pos 5))) ∷ [];
  source_fragment_id = 0;
  created_at = 5;
}

abbrev item_identity : ItemIdentity
item_identity = record { contract_id = 3; source_item_key = 75 ∷ [] }

abbrev is_replay : {I : Type 0} → Result (FactResult I) → Bool
is_replay (ok f) = f.replay
is_replay (err e) = false

abbrev first_create : Result (FactResult ItemIdentity) × FactSession ItemIdentity
first_create =
    execute_create_contract_item_fact digest 7 ascii (3 ∷ []) item_identity (quantity_5 1)
      empty_session

-- The same form sent twice is a replay, on the fragment of the first time.
manual_create-twice :
    is_replay
      (execute_create_contract_item_fact digest 8 ascii
        (3 ∷ [])
        item_identity
        (quantity_5 2)
        first_create.1).0
    ≡ true
unfolding execute_create_contract_item_fact create_contract_item_fact check_item
    validate_item_fields all_known find_or_build_fact_fragment find_document_by_sha256 create_fact
    find_by_identity get_current_revision create_new get get_initial_revision resolve_existing
    asserted_fields dict_eq sorted insert_sorted
manual_create-twice = refl

-- A refused create of a contract item leaves nothing behind, its evidence included.
manual_create-refused :
    execute_create_contract_item_fact digest 7 ascii [] item_identity (quantity_5 1) empty_session
    ≡ (err parent_not_found, empty_session)
unfolding execute_create_contract_item_fact create_contract_item_fact check_item
    validate_item_fields all_known
manual_create-refused = refl

abbrev no_reference : ShipmentIdentity
no_reference = record { contract_id = 3; external_reference = none; execution_date = 40 }

-- A shipment without a reference is refused, and the task about it is kept with its evidence.
manual_shipment-incomplete :
    let (result, e) =
      execute_create_shipment_fact digest 7
        (record { contracts = 3 ∷ []; contract_items = [] })
        false
        no_reference
        (quantity_5 1)
        empty_session in
    (result ≡ err incomplete)
    × (e.store.tasks
        ≡ record { detail = identity_incomplete 7; is_open = true; created_at = 5 } ∷ [])
unfolding execute_create_shipment_fact create_shipment_fact check_shipment validate_shipment_fields
    all_known find_or_build_fact_fragment find_document_by_sha256 raise_once
manual_shipment-incomplete = (refl, refl)
