-- ===== src/Sales/Propose.antt =====
-- `propose_sales_invoice_match` and `propose_sales_payment_match`.
use business_execution_ledge.Base.{
  ℕ, Bool, true, false, ◌&&◌, not, Option, none, some, List, [], ◌∷◌, ◌++◌, map, ◌==◌,
  if◌then◌else◌,
}
use business_execution_ledge.Base.Lists.{any, all, filter, find}
use business_execution_ledge.Match.Cohorts.{has_twice}
use business_execution_ledge.Match.Rows.{
  SubjectType, MatchCase, human_confirmation_required, manual_sales_scope,
}
use business_execution_ledge.Sales.Rows.{
  SalesSubject, SalesCandidate, SalesDb, nothing_given, given_twice, sales_contract_not_found,
  subject_not_found, wrong_direction, other_proposal, assertion_failed, SalesResult, ok, err, ◌>>=◌,
  ◌>>◌, check, found, is_case, is_case_for, add_if_no_case_for_subject,
}

pub record ProposalResult : Type 0 where
  pub match_case : MatchCase
  pub created : Bool
  pub replay : Bool

abbrev pub is_given : {A : Type 0} → List A → Bool
is_given [] = false
is_given (_ ∷ _) = true

abbrev pub is_among : List ℕ → ℕ → Bool
is_among is i = any (λ j. j == i) is

abbrev pub same_ids : List ℕ → List ℕ → Bool
same_ids is js = all (is_among js) is && all (is_among is) js

unfoldable pub validate_candidate_ids : List ℕ → List ℕ → SalesResult Unit
validate_candidate_ids sales_contracts ids = do
  check (is_given ids) nothing_given
  check (not (has_twice (λ i j. i == j) ids)) given_twice
  check (all (is_among sales_contracts) ids) sales_contract_not_found

abbrev pub candidates_of_case : ℕ → SalesDb → List ℕ
candidates_of_case i db =
    map (λ (c : SalesCandidate). c.sales_contract_id)
      (filter (λ (c : SalesCandidate). c.match_case_id == i) db.candidates)

unfoldable pub replay_or_conflict_proposal :
    List ℕ → SalesDb → MatchCase → SalesResult ProposalResult
replay_or_conflict_proposal ids db existing =
    if same_ids (candidates_of_case existing.id db) ids
    then ok (record { match_case = existing; created = false; replay = true })
    else err other_proposal

-- A call: `case_id` is the uuid4 of a new case.
pub record Propose : Type 0 where
  pub subject_type : SubjectType
  pub subject_id : ℕ
  pub sales_contract_ids : List ℕ
  pub case_id : ℕ
  pub created_at : ℕ

abbrev pub new_sales_case : Propose → MatchCase
new_sales_case c = record {
  id = c.case_id;
  subject_type = c.subject_type;
  subject_id = c.subject_id;
  status = human_confirmation_required;
  match_method = manual_sales_scope;
  created_at = c.created_at;
  resolved_at = none;
}

abbrev pub candidates_for : Propose → List SalesCandidate
candidates_for c =
    map
      (λ i. record { match_case_id = c.case_id; sales_contract_id = i; created_at = c.created_at })
      c.sales_contract_ids

abbrev pub case_of_subject : Propose → SalesDb → Option MatchCase
case_of_subject c db = find (is_case_for c.subject_type c.subject_id) db.match_cases

unfoldable pub check_proposal : (ℕ → Option SalesSubject) → List ℕ → Propose → SalesResult Unit
check_proposal subjects sales_contracts c = do
  subject ← found (subjects c.subject_id) subject_not_found
  check subject.is_sales wrong_direction
  validate_candidate_ids sales_contracts c.sales_contract_ids

-- The insert, in the store `db` that it finds, and what follows it.
abbrev pub after_insert : Propose → Bool × SalesDb → SalesResult ProposalResult × SalesDb
after_insert c (false, db) = (
  (found (case_of_subject c db) assertion_failed
      >>= replay_or_conflict_proposal c.sales_contract_ids db),
  db,
)
after_insert c (true, db) = (
  (found (find (is_case c.case_id) db.match_cases) assertion_failed >>= λ persisted.
      ok (record { match_case = persisted; created = true; replay = false })),
  record db { candidates = db.candidates ++ candidates_for c },
)

abbrev pub propose_with :
    (SalesDb → SalesDb)
    → Propose
    → SalesDb
    → SalesResult Unit
    → Option MatchCase
    → SalesResult ProposalResult × SalesDb
propose_with rival c db (err e) existing = (err e, db)
propose_with rival c db (ok u) (some existing) =
    (replay_or_conflict_proposal c.sales_contract_ids db existing, db)
propose_with rival c db (ok u) none =
    after_insert c (add_if_no_case_for_subject (new_sales_case c) (rival db))

-- `rival` is what other sessions commit between the look-up and the insert.
unfoldable pub propose_sales_match :
    (ℕ → Option SalesSubject)
    → List ℕ
    → (SalesDb → SalesDb)
    → Propose
    → SalesDb
    → SalesResult ProposalResult × SalesDb
propose_sales_match subjects sales_contracts rival c db =
    propose_with rival c db (check_proposal subjects sales_contracts c) (case_of_subject c db)
