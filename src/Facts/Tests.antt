-- ===== src/Facts/Tests.antt =====
-- Runs of the fact commands, and each theorem at a store of sales contracts, of contracts or of
-- contract items.
use business_execution_ledge.Base.{
  ◌≡◌, refl, true, false, ◌&&◌, Option, none, some, [], ◌∷◌, ◌++◌, map, arith, ◌==◌, if◌then◌else◌,
}
use business_execution_ledge.Base.Lists.{any}
use business_execution_ledge.Match.Text.{Unicode}
use business_execution_ledge.Match.Candidates.{insert_sorted, sorted}
use business_execution_ledge.Facts.Rows.{
  text, Revision, supplement, Anchor, Store, customer_unresolved, Result, ok, FactResult,
}
use business_execution_ledge.Facts.Fields.{all_known, has_field}
use business_execution_ledge.Facts.Repository.{
  revisions_of, get, get_current_revision, find_revision_by_fragment, list_revisions,
  append_revision_against_current, retire,
}
use business_execution_ledge.Facts.Revise.{
  check_intent, Revise, new_revision, check_current, plan_revision, prepare, write_revision,
  apply_revision,
}
use business_execution_ledge.Facts.Create.{Create, initial_revision, create_fact}
use business_execution_ledge.Facts.Chain.{IsSound}
use business_execution_ledge.Facts.History.{entry_of, history, append_if_newest, newest}
use business_execution_ledge.Facts.Refine.{append_revision-refines}
use business_execution_ledge.Facts.Walk.{
  IsSound-started, list_revisions_returns, get_current_revision-newest,
}
use business_execution_ledge.Facts.Outcome.{Commits, wrote, outcome, apply_revision-refines}
use business_execution_ledge.Facts.Replay.{supplement-keeps_known}
use business_execution_ledge.Facts.Sound.{apply_revision-IsSound, create_fact-IsSound}
use business_execution_ledge.Facts.Notices.{is_unresolved_for, is_open_task, resolved}
use business_execution_ledge.Facts.SalesContracts.{
  SalesIdentity, SalesStore, sales_contract_fact_fields, is_same_sales_contract,
  validate_sales_fields, supplement_sales_contract_fact,
}
use business_execution_ledge.Facts.Effects.{supplement_sales_contract_fact-closes}

abbrev ascii : Unicode
ascii = record { nfkc = λ t. t; is_space = λ c. c == 32 }

abbrev no_facts : {I : Type 0} → Store I
no_facts = record { anchors = []; revisions = []; tasks = []; fragments = 7 ∷ 8 ∷ 9 ∷ [] }

no_facts-IsSound : IsSound []
no_facts-IsSound = record { chains = λ a. refl; distinct = λ i. omega arith }

-- A sales contract of entity "A" with number "N": its currency is known, its customer is not.
abbrev sales_identity : SalesIdentity
sales_identity = record { our_entity = 65 ∷ []; sales_contract_no = 78 ∷ [] }

abbrev create_1 : Create
create_1 = record {
  anchor_id = 1;
  rev_id = 10;
  fields = (1, some (text (67 ∷ []))) ∷ [];
  source_fragment_id = 7;
  created_at = 5;
}

abbrev sales_1 : SalesStore
sales_1 = record no_facts {
  anchors = record { id = 1; identity = sales_identity; created_at = 5 } ∷ [];
  revisions = initial_revision create_1 ∷ [];
  tasks = record { detail = customer_unresolved 1; is_open = true; created_at = 5 } ∷ [];
}

-- The customer of it becomes known.
abbrev give_customer : Revise
give_customer = record {
  rev_id = 20;
  anchor_id = 1;
  based_on_revision_id = 10;
  fields = (2, some (text (66 ∷ []))) ∷ [];
  source_fragment_id = 8;
  created_at = 6;
  revision_type = supplement;
}

-- Another session creates a sales contract.
abbrev create_2 : Create
create_2 = record create_1 { anchor_id = 2; rev_id = 11; source_fragment_id = 9 }

abbrev other_session : SalesStore → SalesStore
other_session s = record s {
  anchors =
      s.anchors
      ++ record {
        id = 2;
        identity = record { our_entity = 65 ∷ []; sales_contract_no = 79 ∷ [] };
        created_at = 6;
      }
        ∷ [];
  revisions = s.revisions ++ initial_revision create_2 ∷ [];
}

sales_1-IsSound : IsSound sales_1.revisions
unfolding sorted insert_sorted
sales_1-IsSound =
    IsSound-started (initial_revision create_1) [] no_facts-IsSound refl refl refl refl

other_session-Commits : Commits give_customer sales_1 (other_session sales_1)
unfolding sorted insert_sorted
other_session-Commits = record {
  sound =
      IsSound-started (initial_revision create_2) sales_1.revisions sales_1-IsSound refl refl refl
        refl;
  keeps_anchor = refl;
  new_id = refl;
}

abbrev sales_prepare :
    Revise → SalesStore → Result ((Anchor SalesIdentity × Revision) × Option Revision)
sales_prepare = prepare sales_contract_fact_fields (validate_sales_fields ascii) (λ x fields. ok tt)

abbrev sales_apply :
    (SalesStore → SalesStore) → Revise → SalesStore → Result (FactResult SalesIdentity) × SalesStore
sales_apply =
    apply_revision sales_contract_fact_fields (validate_sales_fields ascii) (λ x fields. ok tt)

abbrev anchor_1 : Anchor SalesIdentity
anchor_1 = record { id = 1; identity = sales_identity; created_at = 5 }

abbrev with_customer : Revision
with_customer = new_revision give_customer (initial_revision create_1)

give_customer-prepared :
    sales_prepare give_customer sales_1
    ≡ ok ((anchor_1, initial_revision create_1), some with_customer)
unfolding prepare validate_sales_fields all_known get get_current_revision plan_revision
    find_revision_by_fragment check_current check_intent
give_customer-prepared = refl

abbrev after_give : Store SalesIdentity
after_give = record (other_session sales_1) {
  revisions = map (retire 10 1 20) (other_session sales_1).revisions ++ with_customer ∷ [];
}

apply_revision-refines_example :
    let t = other_session sales_1 in
    let (result, s') = sales_apply other_session give_customer sales_1 in
    let (written, log) = append_if_newest 10 (entry_of with_customer) (history 1 t.revisions) in
    (result ≡ outcome written anchor_1 with_customer)
    × (history 2 s'.revisions ≡ (if 2 == 1 then log else history 2 t.revisions))
    × IsSound s'.revisions
    × (s' ≡ record t { revisions = s'.revisions })
apply_revision-refines_example =
    apply_revision-refines sales_contract_fact_fields (validate_sales_fields ascii)
      (λ x fields. ok tt) other_session give_customer sales_1 anchor_1 (initial_revision create_1)
      with_customer 2 give_customer-prepared refl other_session-Commits

append_revision-refines_example :
    let (answer, rows') = append_revision_against_current with_customer 10 sales_1.revisions in
    let (written, log) =
      append_if_newest 10 (entry_of with_customer) (history 1 sales_1.revisions) in
    (answer ≡ ok written)
    × (history 1 rows' ≡ (if 1 == 1 then log else history 1 sales_1.revisions))
append_revision-refines_example =
    append_revision-refines with_customer 10 sales_1.revisions 1 sales_1-IsSound refl

-- The log that the run above leaves has two entries, and the new revision is the last.
after_give-history :
    history 1 after_give.revisions
    ≡ entry_of (initial_revision create_1) ∷ entry_of with_customer ∷ []
after_give-history = refl

apply_revision-IsSound_example :
    IsSound (sales_apply other_session give_customer sales_1).1.revisions
apply_revision-IsSound_example =
    apply_revision-IsSound sales_contract_fact_fields (validate_sales_fields ascii)
      (λ x fields. ok tt) other_session give_customer sales_1 refl sales_1-IsSound
      other_session-Commits

after_give-IsSound : IsSound after_give.revisions
unfolding apply_revision write_revision append_revision_against_current prepare
    validate_sales_fields all_known get get_current_revision plan_revision find_revision_by_fragment
    check_current check_intent
after_give-IsSound = apply_revision-IsSound_example

list_revisions_returns_example :
    list_revisions 1 after_give.revisions ≡ some (revisions_of 1 after_give.revisions)
list_revisions_returns_example = list_revisions_returns 1 after_give.revisions after_give-IsSound

get_current_revision-newest_example :
    elim (get_current_revision 1 after_give.revisions) [ none ↦ none | some r ↦ some (entry_of r) ]
    ≡ newest (history 1 after_give.revisions)
get_current_revision-newest_example =
    get_current_revision-newest 1 after_give.revisions after_give-IsSound

-- The currency stays known when the customer is given.
supplement-keeps_known_example : with_customer.values 1 ≡ some (text (67 ∷ []))
unfolding get_current_revision
supplement-keeps_known_example =
    supplement-keeps_known sales_contract_fact_fields (validate_sales_fields ascii)
      (λ x fields. ok tt) give_customer sales_1 (anchor_1, initial_revision create_1)
      (initial_revision create_1) with_customer 1 (text (67 ∷ [])) give_customer-prepared refl refl
      refl

supplement_sales_contract_fact-closes_example :
    let t = after_give in
    let (result, s') = supplement_sales_contract_fact ascii other_session give_customer sales_1 in
    (result ≡ ok (wrote anchor_1 with_customer))
    × (any (is_open_task (is_unresolved_for 1)) s'.tasks ≡ (
        if has_field 2 give_customer.fields && 1 == 1
        then false
        else any (is_open_task (is_unresolved_for 1)) (other_session sales_1).tasks))
    × (s' ≡ record t {
      tasks =
          if has_field 2 give_customer.fields
          then map (resolved (is_unresolved_for 1)) t.tasks
          else t.tasks;
    })
supplement_sales_contract_fact-closes_example =
    supplement_sales_contract_fact-closes ascii other_session give_customer sales_1 anchor_1
      (initial_revision create_1) with_customer 1 give_customer-prepared other_session-Commits refl

create_fact-IsSound_example :
    IsSound
      (create_fact sales_contract_fact_fields
        (is_same_sales_contract sales_identity)
        sales_identity
        create_2
        sales_1).1.revisions
create_fact-IsSound_example =
    create_fact-IsSound sales_contract_fact_fields (is_same_sales_contract sales_identity)
      sales_identity create_2 sales_1 (record { no_rows = refl; no_anchor = refl }) refl
      sales_1-IsSound
