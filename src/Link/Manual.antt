-- ===== src/Link/Manual.antt =====
-- The `execute_*` entry points of application/procurement_sales_link.py: a human confirmation is
-- itself evidence, found again by the digest of its payload, and the command runs in one serialized
-- transaction. `sha256` stands for the digest of the payload's JSON text.
use business_execution_ledge.Base.{ℕ, Option, none, some, List, [], ◌∷◌, ◌++◌, ◌==◌}
use business_execution_ledge.Base.Lists.{find}
use business_execution_ledge.Link.Rows.{
  ConfirmationType, human_confirmed, Store, assertion_failed, Result, ok, err, Action,
}
use business_execution_ledge.Link.Commands.{
  LinkResult, CorrectionResult, add_procurement_sales_link,
}
use business_execution_ledge.Link.Corrections.{
  correct_procurement_sales_link, reestablish_procurement_sales_link,
}

-- `raw_data`: the command's name and its arguments, and no time.
pub data Payload : Type 0 where
  add_payload : ℕ → ℕ → ConfirmationType → Payload
  correct_payload : ℕ → Option ℕ → Option ℕ → Payload
  reestablish_payload : ℕ → ℕ → Payload

-- An EvidenceDocument with the fragment that belongs to it.
pub record Document : Type 0 where
  pub sha256 : ℕ
  pub fragment : Option ℕ

pub record Session : Type 0 where
  pub store : Store
  pub documents : List Document

unfoldable pub find_document_by_sha256 : ℕ → List Document → Option Document
find_document_by_sha256 h ds = find (λ (d : Document). d.sha256 == h) ds

abbrev pub existing_fragment : ℕ → List Document → Option ℕ
existing_fragment h ds = elim (find_document_by_sha256 h ds) [ none ↦ none | some d ↦ d.fragment ]

-- The fragment of a payload, and the session with it; `fragment_id` is the id of a new one.
unfoldable pub find_or_build_manual_fragment : ℕ → ℕ → Session → ℕ × Session
find_or_build_manual_fragment h fragment_id e = elim (existing_fragment h e.documents) [
  | some f ↦ (f, e)
  | none ↦ (
    fragment_id,
    record {
      store = record e.store { fragments = e.store.fragments ++ fragment_id ∷ [] };
      documents = e.documents ++ record { sha256 = h; fragment = some fragment_id } ∷ [];
    },
  )
]

-- `serialized_write_transaction`: a fact error is raised after the commit, any other exception
-- rolls back.
unfoldable pub serialized : {A : Type 0} → Action A → Session → Session → Result A × Session
serialized m before e =
    let (r, s) = m e.store in
    elim r [
      | ok a ↦ (ok a, record e { store = s })
      | err assertion_failed ↦ (err assertion_failed, before)
      | err x ↦ (err x, record e { store = s })
    ]

module _ (sha256 : Payload → ℕ) where
  unfoldable pub execute_add_procurement_sales_link :
      ℕ → ℕ → ℕ → ℕ → ConfirmationType → ℕ → Session → Result LinkResult × Session
  execute_add_procurement_sales_link fragment_id link_id p q t now e =
      let (f, e') = find_or_build_manual_fragment (sha256 (add_payload p q t)) fragment_id e in
      serialized (add_procurement_sales_link (λ s. s) link_id (some p) (some q) f t now) e e'

  unfoldable pub execute_correct_procurement_sales_link :
      ℕ → ℕ → ℕ → ℕ → Option ℕ → Option ℕ → ℕ → Session → Result CorrectionResult × Session
  execute_correct_procurement_sales_link fragment_id link_id correction_id i p q now e =
      let (f, e') = find_or_build_manual_fragment (sha256 (correct_payload i p q)) fragment_id e in
      serialized
        (correct_procurement_sales_link (λ s. s) (λ s. s) link_id correction_id i f human_confirmed
          now p q)
        e e'

  unfoldable pub execute_reestablish_procurement_sales_link :
      ℕ → ℕ → ℕ → ℕ → ℕ → Session → Result LinkResult × Session
  execute_reestablish_procurement_sales_link fragment_id link_id p q now e =
      let (f, e') =
        find_or_build_manual_fragment (sha256 (reestablish_payload p q)) fragment_id e in
      serialized
        (reestablish_procurement_sales_link (λ s. s) link_id (some p) (some q) f human_confirmed
          now)
        e e'
