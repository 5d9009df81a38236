-- ===== src/Facts/Manual.antt =====
-- The `execute_*` entry points of the four stores: the act of a human is evidence of its own, found
-- again by the digest of its payload, and the command runs in one serialized transaction, where no
-- other session writes. `sha256` stands for the digest of the payload's JSON text.
use business_execution_ledge.Base.{
  ℕ, Bool, true, false, Option, none, some, List, [], ◌∷◌, ◌++◌, if◌then◌else◌,
}
use business_execution_ledge.Match.Text.{Text, Unicode}
use business_execution_ledge.Link.Manual.{Document, existing_fragment}
use business_execution_ledge.Facts.Rows.{
  Fields, Store, Refusal, assertion_failed, value_error, Result, ok, err, FactResult,
}
use business_execution_ledge.Facts.Revise.{Revise}
use business_execution_ledge.Facts.Create.{Create}
use business_execution_ledge.Facts.Dependents.{References}
use business_execution_ledge.Facts.Items.{
  ItemIdentity, create_contract_item_fact, supplement_contract_item_fact,
  correct_contract_item_fact,
}
use business_execution_ledge.Facts.Contracts.{
  ContractIdentity, create_contract_fact, supplement_contract_fact, correct_contract_fact,
}
use business_execution_ledge.Facts.SalesContracts.{
  SalesIdentity, create_sales_contract_fact, supplement_sales_contract_fact,
  correct_sales_contract_fact,
}
use business_execution_ledge.Facts.Shipments.{
  ShipmentIdentity, Parents, create_shipment_fact, supplement_shipment_fact, correct_shipment_fact,
}

-- `raw_data`: what is created, or the anchor and the revision that is revised, and the fields; no
-- time. A constructor stands for the command's name, where a session here has one store. Whether an
-- identity is confirmed is not part of it.
pub data FactPayload : Type 0 where
  item_payload : ItemIdentity → Fields → FactPayload
  contract_payload : ContractIdentity → Fields → FactPayload
  sales_payload : Option Text → Option Text → Fields → FactPayload
  shipment_payload : ShipmentIdentity → Fields → FactPayload
  supplement_payload : ℕ → ℕ → Fields → FactPayload
  correct_payload : ℕ → ℕ → Fields → FactPayload

pub record FactSession (I : Type 0) : Type 0 where
  pub store : Store I
  pub documents : List Document

-- A ShipmentFactError and its kin, as opposed to a failed `assert` and a plain ValueError.
abbrev pub is_fact_error : Refusal → Bool
is_fact_error assertion_failed = false
is_fact_error value_error = false
is_fact_error _ = true

module _ {I : Type 0} where
  -- The fragment of a payload, and the session with it; `fragment_id` is the id of a new one.
  abbrev pub build_fragment : ℕ → ℕ → FactSession I → Option ℕ → ℕ × FactSession I
  build_fragment h fragment_id e (some f) = (f, e)
  build_fragment h fragment_id e none = (
    fragment_id,
    record {
      store = record e.store { fragments = e.store.fragments ++ fragment_id ∷ [] };
      documents = e.documents ++ record { sha256 = h; fragment = some fragment_id } ∷ [];
    },
  )

  unfoldable pub find_or_build_fact_fragment : ℕ → ℕ → FactSession I → ℕ × FactSession I
  find_or_build_fact_fragment h fragment_id e =
      build_fragment h fragment_id e (existing_fragment h e.documents)

  -- `serialized_write_transaction`: any exception rolls back, the evidence included.
  abbrev pub commit_or_undo :
      FactSession I
      → FactSession I
      → Result (FactResult I) × Store I
      → Result (FactResult I) × FactSession I
  commit_or_undo before e (err x, s) = (err x, before)
  commit_or_undo before e (ok f, s) = (ok f, record e { store = s })

  -- The same, where a fact error is caught inside and raised again after the commit, so that a task
  -- about it stays.
  abbrev pub commit_fact_error :
      FactSession I
      → FactSession I
      → Result (FactResult I) × Store I
      → Result (FactResult I) × FactSession I
  commit_fact_error before e (err x, s) =
      if is_fact_error x then (err x, record e { store = s }) else (err x, before)
  commit_fact_error before e (ok f, s) = (ok f, record e { store = s })

  abbrev pub alone : Store I → Store I
  alone s = s

module _ (sha256 : FactPayload → ℕ) (fragment_id : ℕ) where
  -- What a supplement or a correction shares: its payload, and the call with the fragment.
  abbrev pub run_supplement :
      {I : Type 0}
      → (Revise → Store I → Result (FactResult I) × Store I)
      → Revise
      → FactSession I
      → Result (FactResult I) × FactSession I
  run_supplement run c e =
      let (f, e') =
        find_or_build_fact_fragment
          (sha256 (supplement_payload c.anchor_id c.based_on_revision_id c.fields)) fragment_id e in
      commit_or_undo e e' (run (record c { source_fragment_id = f }) e'.store)

  abbrev pub run_correction :
      {I : Type 0}
      → (Revise → Store I → Result (FactResult I) × Store I)
      → Revise
      → FactSession I
      → Result (FactResult I) × FactSession I
  run_correction run c e =
      let (f, e') =
        find_or_build_fact_fragment
          (sha256 (correct_payload c.anchor_id c.based_on_revision_id c.fields)) fragment_id e in
      commit_or_undo e e' (run (record c { source_fragment_id = f }) e'.store)

  unfoldable pub execute_create_contract_item_fact :
      Unicode
      → List ℕ
      → ItemIdentity
      → Create
      → FactSession ItemIdentity
      → Result (FactResult ItemIdentity) × FactSession ItemIdentity
  execute_create_contract_item_fact u contracts identity c e =
      let (f, e') =
        find_or_build_fact_fragment (sha256 (item_payload identity c.fields)) fragment_id e in
      commit_or_undo e e' (
        create_contract_item_fact u contracts identity (record c { source_fragment_id = f })
          e'.store)

  unfoldable pub execute_supplement_contract_item_fact :
      Unicode
      → Revise
      → FactSession ItemIdentity
      → Result (FactResult ItemIdentity) × FactSession ItemIdentity
  execute_supplement_contract_item_fact u = run_supplement (supplement_contract_item_fact u alone)

  unfoldable pub execute_correct_contract_item_fact :
      Unicode
      → List References
      → Revise
      → FactSession ItemIdentity
      → Result (FactResult ItemIdentity) × FactSession ItemIdentity
  execute_correct_contract_item_fact u tables =
      run_correction (correct_contract_item_fact u tables alone)

  unfoldable pub execute_create_contract_fact :
      ContractIdentity
      → Create
      → FactSession ContractIdentity
      → Result (FactResult ContractIdentity) × FactSession ContractIdentity
  execute_create_contract_fact identity c e =
      let (f, e') =
        find_or_build_fact_fragment (sha256 (contract_payload identity c.fields)) fragment_id e in
      commit_or_undo e e'
        (create_contract_fact identity (record c { source_fragment_id = f }) e'.store)

  unfoldable pub execute_supplement_contract_fact :
      Revise
      → FactSession ContractIdentity
      → Result (FactResult ContractIdentity) × FactSession ContractIdentity
  execute_supplement_contract_fact = run_supplement (supplement_contract_fact alone)

  unfoldable pub execute_correct_contract_fact :
      Revise
      → FactSession ContractIdentity
      → Result (FactResult ContractIdentity) × FactSession ContractIdentity
  execute_correct_contract_fact = run_correction (correct_contract_fact alone)

  unfoldable pub execute_create_sales_contract_fact :
      Unicode
      → Option Text
      → Option Text
      → Create
      → FactSession SalesIdentity
      → Result (FactResult SalesIdentity) × FactSession SalesIdentity
  execute_create_sales_contract_fact u our_entity sales_contract_no c e =
      let (f, e') =
        find_or_build_fact_fragment (sha256 (sales_payload our_entity sales_contract_no c.fields))
          fragment_id e in
      commit_fact_error e e' (
        create_sales_contract_fact u our_entity sales_contract_no
          (record c { source_fragment_id = f }) e'.store)

  unfoldable pub execute_supplement_sales_contract_fact :
      Unicode
      → Revise
      → FactSession SalesIdentity
      → Result (FactResult SalesIdentity) × FactSession SalesIdentity
  execute_supplement_sales_contract_fact u = run_supplement (supplement_sales_contract_fact u alone)

  unfoldable pub execute_correct_sales_contract_fact :
      Unicode
      → Revise
      → FactSession SalesIdentity
      → Result (FactResult SalesIdentity) × FactSession SalesIdentity
  execute_correct_sales_contract_fact u = run_correction (correct_sales_contract_fact u alone)

  unfoldable pub execute_create_shipment_fact :
      Parents
      → Bool
      → ShipmentIdentity
      → Create
      → FactSession ShipmentIdentity
      → Result (FactResult ShipmentIdentity) × FactSession ShipmentIdentity
  execute_create_shipment_fact ps confirmed identity c e =
      let (f, e') =
        find_or_build_fact_fragment (sha256 (shipment_payload identity c.fields)) fragment_id e in
      commit_fact_error e e'
        (create_shipment_fact ps confirmed identity (record c { source_fragment_id = f }) e'.store)

  unfoldable pub execute_supplement_shipment_fact :
      Parents
      → Revise
      → FactSession ShipmentIdentity
      → Result (FactResult ShipmentIdentity) × FactSession ShipmentIdentity
  execute_supplement_shipment_fact ps = run_supplement (supplement_shipment_fact ps alone)

  unfoldable pub execute_correct_shipment_fact :
      References
      → Parents
      → Revise
      → FactSession ShipmentIdentity
      → Result (FactResult ShipmentIdentity) × FactSession ShipmentIdentity
  execute_correct_shipment_fact facts ps = run_correction (correct_shipment_fact facts ps alone)
