-- ===== src/Match/Tests.antt =====
-- Runs of matching on small tables.
use business_execution_ledge.Base.{
  ℕ, ◌+◌, ◌≡◌, refl, true, not, ◌||◌, none, some, List, [], ◌∷◌, arith, ◌==◌, present,
}
use business_execution_ledge.Base.Lists.{all, filter}
use business_execution_ledge.Base.Int.{ℤ, pos, ◌+ℤ◌, ◌-ℤ◌}
use business_execution_ledge.Match.Text.{
  Text, Unicode, normalize_counterparty, is_blank, is_linebreak, tidy, collapse, lstrip, rstrip,
}
use business_execution_ledge.Match.Tidy.{
  tidy_form, normalize_counterparty_idem, no_linebreak, is_trimmed,
}
use business_execution_ledge.Match.Rows.{
  sum_for, Contract, Db, MatchCase, invoice_subject, human_confirmation_required, m001, resolved,
  unique_candidate, human_confirmed, human_confirmed_event,
}
use business_execution_ledge.Match.Candidates.{
  contract_ltb, min_of, find_candidate_contracts, is_eligible, is_contract_counterparty,
}
use business_execution_ledge.Match.Subjects.{seed, seed_all, remaining}
use business_execution_ledge.Match.Cohorts.{
  plan_cohort, plan_cohorts, cohorts_from, same_cohort, candidates_of,
}
use business_execution_ledge.Match.Pass.{chosen, choose_viable, run_match_pass, eligible, has_case}
use business_execution_ledge.Match.Accounting.{run_match_pass-totals}
use business_execution_ledge.Match.Rerun.{run_match_pass-all_cased, run_match_pass-rerun}
use business_execution_ledge.Match.Capacity.{Fits}
use business_execution_ledge.Match.Guard.{plan_of, run_match_pass-Fits}
use business_execution_ledge.Match.Earliest.{no_later, choose_viable-earliest}
use business_execution_ledge.Match.Invoices.{Invoice, purchase, invoice_subjects}
use business_execution_ledge.Match.Confirm.{
  confirmed, refused, not_waiting, confirm_match, confirm_subject, allocate,
}
use business_execution_ledge.Match.Confirmed.{confirm_match-Fits, confirm_match-once}

abbrev ascii : Unicode
ascii = record { nfkc = λ t. t; is_space = λ c. c == 32 }

-- "AB", with blanks around and between.
abbrev spaced : Text
spaced = 32 ∷ 65 ∷ 32 ∷ 32 ∷ 10 ∷ 66 ∷ 32 ∷ []

tidy_form_example :
    (no_linebreak ascii refl (tidy ascii spaced) ≡ true)
    × ((is_blank (tidy ascii spaced) || is_trimmed ascii refl true (tidy ascii spaced)) ≡ true)
tidy_form_example = tidy_form ascii refl spaced

normalize_counterparty_idem_example :
    normalize_counterparty ascii (normalize_counterparty ascii (some spaced))
    ≡ normalize_counterparty ascii (some spaced)
normalize_counterparty_idem_example =
    normalize_counterparty_idem ascii refl (some spaced) λ t e. refl

abbrev seller : Text
seller = 65 ∷ 66 ∷ []

abbrev contract_a : Contract
contract_a = record {
  id = 1;
  contract_no = 67 ∷ 49 ∷ [];
  contract_type = none;
  counterparty = some seller;
  buyer = none;
  gross_amount = pos 1000;
  currency = 67 ∷ [];
  contract_date = some 10;
}

abbrev contract_b : Contract
contract_b = record contract_a { id = 2; contract_no = 67 ∷ 50 ∷ []; contract_date = some 7 }

abbrev invoice_a : Invoice
invoice_a = record {
  id = 31;
  direction = purchase;
  invoice_type = none;
  invoice_no = none;
  digital_invoice_no = none;
  external_invoice_key = some (88 ∷ []);
  issue_date = some 20;
  seller = some seller;
  buyer = none;
  net_amount = pos 900;
  tax_amount = pos 100;
  gross_amount = pos 1000;
  invoice_status = none;
  currency = none;
}

abbrev invoice_b : Invoice
invoice_b = record invoice_a {
  id = 32;
  external_invoice_key = some (89 ∷ []);
  issue_date = some 21;
}

abbrev contracts : List Contract
contracts = contract_a ∷ contract_b ∷ []

abbrev invoices : List Invoice
invoices = invoice_a ∷ invoice_b ∷ []

abbrev no_rows : Db
no_rows = record {
  match_cases = [];
  candidates = [];
  invoice_allocations = [];
  payment_allocations = [];
  exceptions = [];
  events = [];
}

abbrev draw : ℕ → ℕ
draw i = 100 + i

abbrev draw_again : ℕ → ℕ
draw_again i = 200 + i

abbrev prices : ℕ → ℤ
prices i = pos 1000

run_match_pass-totals_example :
    let m =
      (run_match_pass ascii
        (invoice_subjects ascii [])
        contracts
        draw
        50
        invoices
        no_rows).summary in
    m.eligible_total
    ≡ m.auto_confirmed + m.human_confirmation_required + m.unmatched + m.capacity_exceeded
      + m.already_matched_skipped
run_match_pass-totals_example =
    run_match_pass-totals ascii (invoice_subjects ascii []) contracts draw 50 invoices no_rows

run_match_pass-all_cased_example :
    all
      (has_case ascii
        (invoice_subjects ascii [])
        contracts
        draw
        50
        (run_match_pass ascii (invoice_subjects ascii []) contracts draw 50 invoices no_rows).db)
      (filter
        (λ s. not (has_case ascii (invoice_subjects ascii []) contracts draw 50 no_rows s))
        (eligible ascii (invoice_subjects ascii []) contracts draw 50 invoices))
    ≡ true
run_match_pass-all_cased_example =
    run_match_pass-all_cased ascii (invoice_subjects ascii []) contracts draw 50 invoices no_rows

run_match_pass-rerun_example :
    let after =
      (run_match_pass ascii (invoice_subjects ascii []) contracts draw 50 invoices no_rows).db in
    (run_match_pass ascii (invoice_subjects ascii []) contracts draw_again 70 invoices after).db
    ≡ after
run_match_pass-rerun_example =
    run_match_pass-rerun ascii (invoice_subjects ascii []) contracts draw draw_again 50 70 invoices
      no_rows

no_rows-Fits : Fits invoice_subject prices no_rows
unfolding sum_for
no_rows-Fits i = ground arith

-- Both contracts and both invoices are dated, so the pass needs no canonical contracts.
no_canonical :
    (plan_of ascii (invoice_subjects ascii []) contracts draw 50 invoices no_rows).canonical ≡ []
unfolding plan_cohorts plan_cohort cohorts_from same_cohort candidates_of find_candidate_contracts
    normalize_counterparty tidy collapse lstrip rstrip is_linebreak is_eligible
    is_contract_counterparty seed_all seed remaining sum_for ◌-ℤ◌
no_canonical = refl

earliest : choose_viable (some 20) contracts ≡ chosen contract_b
unfolding choose_viable min_of contract_ltb
earliest = refl

run_match_pass-Fits_example :
    Fits invoice_subject prices
      (run_match_pass ascii (invoice_subjects ascii []) contracts draw 50 invoices no_rows).db
run_match_pass-Fits_example =
    run_match_pass-Fits ascii (invoice_subjects ascii []) contracts draw 50 prices invoices no_rows
      refl no_canonical no_rows-Fits

choose_viable-earliest_example :
    (all (no_later contract_b) contracts ≡ true)
    × (all (λ (d : Contract). present d.contract_date) contracts ≡ true)
    × (present invoice_a.issue_date ≡ true)
choose_viable-earliest_example =
    choose_viable-earliest (some 20) contract_a contract_b [] contract_b earliest

abbrev waiting_case : MatchCase
waiting_case = record {
  id = 131;
  subject_type = invoice_subject;
  subject_id = 31;
  status = human_confirmation_required;
  match_method = m001;
  created_at = 50;
  resolved_at = none;
}

abbrev waiting : Db
waiting = record no_rows { match_cases = waiting_case ∷ [] }

abbrev answered : Db
answered = record no_rows {
  match_cases = record waiting_case { status = resolved; resolved_at = some 60 } ∷ [];
  invoice_allocations =
      record {
        subject_id = 31;
        contract_id = 1;
        match_case_id = 131;
        amount = pos 1000;
        match_method = unique_candidate;
        confirmation_type = human_confirmed;
        created_at = 60;
      }
      ∷ [];
  events = human_confirmed_event 131 1 ∷ [];
}

confirmed_once : confirm_match contracts invoices [] 60 131 1 waiting ≡ confirmed answered
unfolding confirm_match confirm_subject allocate sum_for ◌+ℤ◌
confirmed_once = refl

waiting-Fits : Fits invoice_subject prices waiting
unfolding sum_for
waiting-Fits i = ground arith

confirm_match-Fits_example : Fits invoice_subject prices answered
confirm_match-Fits_example =
    confirm_match-Fits contracts invoices [] 60 prices invoice_subject 131 1 waiting answered refl
      confirmed_once waiting-Fits

confirm_match-once_example :
    confirm_match contracts invoices [] 60 131 2 answered ≡ refused not_waiting
confirm_match-once_example =
    confirm_match-once contracts invoices [] 60 131 1 2 waiting answered confirmed_once
