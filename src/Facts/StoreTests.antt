-- ===== src/Facts/StoreTests.antt =====
-- The theorems about what the four stores do of their own, each at a concrete store.
use business_execution_ledge.Base.{ℕ, ◌≡◌, refl, true, none, some, [], ◌∷◌, ◌++◌, map, arith, ◌==◌}
use business_execution_ledge.Base.Int.{pos}
use business_execution_ledge.Base.Lists.{any}
use business_execution_ledge.Match.Text.{Unicode}
use business_execution_ledge.Match.Candidates.{insert_sorted, sorted}
use business_execution_ledge.Facts.Rows.{
  Value, text, amount, Revision, correction, Anchor, Store, incomplete, ok, err,
}
use business_execution_ledge.Facts.Fields.{all_known}
use business_execution_ledge.Facts.Repository.{
  get, get_current_revision, find_revision_by_fragment, retire,
}
use business_execution_ledge.Facts.Revise.{
  check_intent, Revise, new_revision, check_current, plan_revision, prepare,
}
use business_execution_ledge.Facts.Create.{Create, initial_revision}
use business_execution_ledge.Facts.Walk.{IsSound-started}
use business_execution_ledge.Facts.Outcome.{Commits, wrote}
use business_execution_ledge.Facts.Flags.{superseded_tasks}
use business_execution_ledge.Facts.Notices.{is_incomplete_for, is_open_task}
use business_execution_ledge.Facts.Items.{
  ItemIdentity, validate_item_fields, correct_contract_item_fact,
}
use business_execution_ledge.Facts.Contracts.{
  ContractIdentity, create_contract_fact, apply_contract_revision,
}
use business_execution_ledge.Facts.Priced.{
  all_priced, apply_contract_revision-priced, create_contract_fact-priced,
}
use business_execution_ledge.Facts.SalesContracts.{
  validate_sales_fields, check_sales, create_sales_contract_fact,
}
use business_execution_ledge.Facts.Effects.{correct_contract_item_fact-flags}
use business_execution_ledge.Facts.Incomplete.{create_sales_contract_fact-incomplete}

abbrev ascii : Unicode
ascii = record { nfkc = λ t. t; is_space = λ c. c == 32 }

abbrev no_facts : {I : Type 0} → Store I
no_facts = record { anchors = []; revisions = []; tasks = []; fragments = 7 ∷ 8 ∷ 9 ∷ [] }

-- A create that knows one column.
abbrev create_of : ℕ → Value → Create
create_of k v = record {
  anchor_id = 1;
  rev_id = 10;
  fields = (k, some v) ∷ [];
  source_fragment_id = 7;
  created_at = 5;
}

abbrev revise_of : ℕ → Value → Revise
revise_of k v = record {
  rev_id = 20;
  anchor_id = 1;
  based_on_revision_id = 10;
  fields = (k, some v) ∷ [];
  source_fragment_id = 8;
  created_at = 6;
  revision_type = correction;
}

create_sales_contract_fact-incomplete_example :
    let create =
      create_sales_contract_fact ascii none (some (78 ∷ [])) (create_of 1 (text (67 ∷ []))) in
    let (result, s') = create no_facts in
    (result ≡ err incomplete)
    × (s'.anchors ≡ [])
    × (s'.revisions ≡ [])
    × (any (is_open_task (is_incomplete_for 7)) s'.tasks ≡ true)
    × (create s' ≡ (err incomplete, s'))
unfolding check_sales validate_sales_fields all_known
create_sales_contract_fact-incomplete_example =
    create_sales_contract_fact-incomplete ascii none (some (78 ∷ [])) (create_of 1 (text (67 ∷ [])))
      no_facts refl refl

-- A contract over 100 in currency "C".
abbrev create_priced : Create
create_priced = record (create_of 4 (amount (pos 100))) {
  fields = (4, some (amount (pos 100))) ∷ (3, some (text (67 ∷ []))) ∷ [];
}

abbrev contract_identity : ContractIdentity
contract_identity = record { contract_no = 78 ∷ []; counterparty = none }

abbrev contract_1 : Store ContractIdentity
contract_1 = record no_facts {
  anchors = record { id = 1; identity = contract_identity; created_at = 5 } ∷ [];
  revisions = initial_revision create_priced ∷ [];
}

create_contract_fact-priced_example :
    all_priced (create_contract_fact contract_identity create_priced no_facts).1 ≡ true
create_contract_fact-priced_example =
    create_contract_fact-priced contract_identity create_priced no_facts refl

apply_contract_revision-priced_example :
    all_priced (apply_contract_revision (λ s. s) (revise_of 4 (amount (pos 90))) contract_1).1
    ≡ true
apply_contract_revision-priced_example =
    apply_contract_revision-priced (λ s. s) (revise_of 4 (amount (pos 90))) contract_1 refl refl

-- A contract item of quantity 5, which is corrected to 6 while allocation 55 names it.
abbrev item_identity : ItemIdentity
item_identity = record { contract_id = 3; source_item_key = 75 ∷ [] }

abbrev item_anchor : Anchor ItemIdentity
item_anchor = record { id = 1; identity = item_identity; created_at = 5 }

abbrev item_1 : Store ItemIdentity
item_1 = record no_facts {
  anchors = item_anchor ∷ [];
  revisions = initial_revision (create_of 3 (amount (pos 5))) ∷ [];
}

abbrev correct_1 : Revise
correct_1 = revise_of 3 (amount (pos 6))

abbrev corrected : Revision
corrected = new_revision correct_1 (initial_revision (create_of 3 (amount (pos 5))))

item_1-Commits : Commits correct_1 item_1 item_1
unfolding sorted insert_sorted
item_1-Commits = record {
  sound =
      IsSound-started (initial_revision (create_of 3 (amount (pos 5)))) []
        (record { chains = λ a. refl; distinct = λ i. omega arith }) refl refl refl refl;
  keeps_anchor = refl;
  new_id = refl;
}

correct_contract_item_fact-flags_example :
    correct_contract_item_fact ascii (((1, 55) ∷ []) ∷ [] ∷ [] ∷ [] ∷ []) (λ s. s) correct_1 item_1
    ≡ (
      ok (wrote item_anchor corrected),
      record item_1 {
        revisions = map (retire 10 1 20) item_1.revisions ++ corrected ∷ [];
        tasks = [] ++ superseded_tasks ((55 ∷ []) ∷ [] ∷ [] ∷ [] ∷ []) correct_1;
      },
    )
unfolding prepare validate_item_fields all_known get get_current_revision plan_revision
    find_revision_by_fragment check_current check_intent
correct_contract_item_fact-flags_example =
    correct_contract_item_fact-flags ascii (((1, 55) ∷ []) ∷ [] ∷ [] ∷ [] ∷ []) (λ s. s) correct_1
      item_1 item_anchor (initial_revision (create_of 3 (amount (pos 5)))) corrected refl
      item_1-Commits refl
