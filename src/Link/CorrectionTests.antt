-- ===== src/Link/CorrectionTests.antt =====
-- Runs of CORRECT and of the manual entry points on small stores.
use mathlib.Core.List.{append-nil}
use business_execution_ledge.Base.{
  ℕ, ◌≡◌, ◌≢◌, refl, sym, true, false, none, some, [], ◌∷◌, ◌++◌, arith,
}
use business_execution_ledge.Link.Rows.{human_confirmed, Link, ok}
use business_execution_ledge.Link.Repository.{
  get, is_current, get_current_link, list_episodes, insert_episode_if_no_current,
  list_current_links_for_procurement_contract, get_correction_for_superseded,
  add_correction_if_uncorrected,
}
use business_execution_ledge.Link.Commands.{
  LinkResult, CorrectionResult, validate_endpoints, flag_multiple_sales_scopes_if_ambiguous,
  created_episode,
}
use business_execution_ledge.Link.Corrections.{
  replacement_key, resolve_replacement, write_correction, correct_target,
  correct_procurement_sales_link, is_historical, insert_or_conflict, reestablish_key,
  reestablish_procurement_sales_link,
}
use business_execution_ledge.Link.Run.{Extends}
use business_execution_ledge.Link.Outcomes.{correct_retires}
use business_execution_ledge.Link.Replacement.{
  correct_own_key_loses_relationship, correct_replacement_current,
}
use business_execution_ledge.Link.Manual.{
  Payload, add_payload, correct_payload, reestablish_payload, Session, serialized,
  find_document_by_sha256, find_or_build_manual_fragment,
  execute_reestablish_procurement_sales_link,
}
use business_execution_ledge.Link.ManualOnce.{manual_reestablish_once}
use business_execution_ledge.Link.Tests.{
  link_1, held, correction_1, retired, quiet, held-IsSound, link_2, reestablished_result,
}

abbrev corrected_result : CorrectionResult
corrected_result = record {
  correction = correction_1;
  replacement_link = none;
  created = true;
  replay = false;
}

-- A CORRECT without a replacement.
corrected :
    (correct_procurement_sales_link quiet quiet 102 201 101 22 human_confirmed 6 none none held).0
    ≡ ok corrected_result
unfolding correct_procurement_sales_link replacement_key correct_target write_correction
    resolve_replacement add_correction_if_uncorrected get_correction_for_superseded get is_current
corrected = refl

correct_retires_example :
    (human_confirmed ≡ human_confirmed)
    × (corrected_result.correction.superseded_link_id ≡ 101)
    × (is_current
          (correct_procurement_sales_link quiet quiet 102 201 101 22 human_confirmed 6 none none
            held).1
          101
        ≡ false)
correct_retires_example =
    correct_retires quiet quiet 102 201 101 22 human_confirmed 6 none none held corrected_result
      corrected

abbrev own_key_result : CorrectionResult
own_key_result = record {
  correction = record correction_1 { replacement_link_id = some 101 };
  replacement_link = some link_1;
  created = true;
  replay = false;
}

-- A CORRECT whose replacement is the target's own key.
own_key_corrected :
    (correct_procurement_sales_link quiet quiet 102 201 101 22 human_confirmed 6
      (some 1)
      (some 11)
      held).0
    ≡ ok own_key_result
unfolding correct_procurement_sales_link replacement_key correct_target write_correction
    resolve_replacement add_correction_if_uncorrected get_correction_for_superseded get is_current
    get_current_link
own_key_corrected = refl

held-current : get_current_link held 1 11 ≡ some link_1
unfolding get_current_link
held-current = refl

held-is_current : is_current held 101 ≡ true
unfolding is_current
held-is_current = refl

correct_own_key_loses_relationship_example :
    (some link_1 ≡ some link_1)
    × (get_current_link
          (correct_procurement_sales_link quiet quiet 102 201 101 22 human_confirmed 6
            (some 1)
            (some 11)
            held).1
          1
          11
        ≡ none)
correct_own_key_loses_relationship_example =
    correct_own_key_loses_relationship 102 201 22 human_confirmed 6 1 11 link_1 held own_key_result
      held-IsSound held-current held-is_current own_key_corrected

abbrev moved_link : Link
moved_link = record {
  id = 102;
  procurement_contract_id = 1;
  sales_contract_id = 12;
  source_fragment_id = 22;
  confirmation_type = human_confirmed;
  created_at = 6;
}

abbrev moved_result : CorrectionResult
moved_result = record {
  correction = record correction_1 { replacement_link_id = some 102 };
  replacement_link = some moved_link;
  created = true;
  replay = false;
}

-- A CORRECT whose replacement is a new key.
moved :
    (correct_procurement_sales_link quiet quiet 102 201 101 22 human_confirmed 6
      (some 1)
      (some 12)
      held).0
    ≡ ok moved_result
unfolding correct_procurement_sales_link replacement_key correct_target write_correction
    resolve_replacement add_correction_if_uncorrected get_correction_for_superseded get is_current
    get_current_link insert_episode_if_no_current
moved = refl

correct_replacement_current_example :
    (some moved_link ≢ none)
    × (get_current_link
          (correct_procurement_sales_link quiet quiet 102 201 101 22 human_confirmed 6
            (some 1)
            (some 12)
            held).1
          1
          12
        ≡ some moved_link)
correct_replacement_current_example =
    correct_replacement_current 102 201 101 22 human_confirmed 6 1 12 held moved_result
      (record { no_link = refl; no_correction = refl }) (ground arith) refl moved refl

-- A digest that tells the commands apart, which is all that these runs need.
abbrev digest : Payload → ℕ
digest (add_payload p q t) = 1
digest (correct_payload i p q) = 2
digest (reestablish_payload p q) = 3

abbrev session : Session
session = record { store = retired; documents = [] }

abbrev manual_result : LinkResult
manual_result = record reestablished_result { link = record link_2 { source_fragment_id = 24 } }

manual_done :
    (execute_reestablish_procurement_sales_link digest 24 102 1 11 8 session).0 ≡ ok manual_result
unfolding execute_reestablish_procurement_sales_link find_or_build_manual_fragment
    find_document_by_sha256 serialized reestablish_procurement_sales_link validate_endpoints
    reestablish_key insert_or_conflict created_episode insert_episode_if_no_current get_current_link
    get list_episodes is_historical flag_multiple_sales_scopes_if_ambiguous
    list_current_links_for_procurement_contract get_correction_for_superseded
manual_done = refl

-- The relationship that was re-established is retired a second time.
abbrev session_after : Session
session_after = (execute_reestablish_procurement_sales_link digest 24 102 1 11 8 session).1

abbrev retired_again : Session
retired_again = record session_after {
  store = record session_after.store {
    corrections =
        session_after.store.corrections
        ++ record correction_1 { id = 202; superseded_link_id = 102 } ∷ [];
  };
}

retired_again-Extends : Extends session_after.store retired_again.store
retired_again-Extends = record {
  more_links = [];
  links_kept = sym (append-nil session_after.store.links);
  more_corrections = record correction_1 { id = 202; superseded_link_id = 102 } ∷ [];
  corrections_kept = refl;
}

manual_reestablish_once_example :
    (execute_reestablish_procurement_sales_link digest 25 103 1 11 9 retired_again).0
    ≢ ok manual_result
manual_reestablish_once_example =
    manual_reestablish_once digest 24 102 1 11 8 session manual_result refl
      (record { no_link = refl; no_correction = refl }) manual_done retired_again []
      retired_again-Extends (sym (append-nil session_after.documents)) 25 103 9 manual_result
