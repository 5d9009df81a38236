-- ===== src/Link/Tests.antt =====
-- Runs of the bridge's commands on small stores.

use business_execution_ledge.Base.{◌≡◌, ◌≢◌, ◌⊎◌, refl, true, false, none, some, [], ◌∷◌, arith}
use business_execution_ledge.Link.Rows.{
  human_confirmed, auto_confirmed, Link, Correction, Store, Error, ok, err,
}
use business_execution_ledge.Link.Repository.{
  get, get_current_link, list_episodes, insert_episode_if_no_current,
  list_current_links_for_procurement_contract, get_correction_for_superseded,
}
use business_execution_ledge.Link.Commands.{
  LinkResult, validate_endpoints, flag_multiple_sales_scopes_if_ambiguous, created_episode,
  insert_or_yield, add_to_key, already_there, add_procurement_sales_link,
}
use business_execution_ledge.Link.Corrections.{
  is_historical, insert_or_conflict, reestablish_key, reestablish_procurement_sales_link,
}
use business_execution_ledge.Link.OneCurrent.{IsSound}
use business_execution_ledge.Link.Keeps.{Safe}
use business_execution_ledge.Link.Run.{add, correct, run, run-IsSound, Extends, run-Extends}
use business_execution_ledge.Link.Current.{add_current, reestablish_current}
use business_execution_ledge.Link.Evidence.{add_after_history, reestablish_after_use}

abbrev empty : Store
empty = record {
  links = [];
  corrections = [];
  tasks = [];
  contracts = 1 ∷ 2 ∷ [];
  sales_contracts = 11 ∷ 12 ∷ [];
  fragments = 21 ∷ 22 ∷ 23 ∷ [];
}

abbrev pub link_1 : Link
link_1 = record {
  id = 101;
  procurement_contract_id = 1;
  sales_contract_id = 11;
  source_fragment_id = 21;
  confirmation_type = auto_confirmed;
  created_at = 5;
}

abbrev pub held : Store
held = record empty { links = link_1 ∷ [] }

abbrev pub correction_1 : Correction
correction_1 = record {
  id = 201;
  superseded_link_id = 101;
  replacement_link_id = none;
  source_fragment_id = 22;
  confirmation_type = human_confirmed;
  created_at = 6;
}

abbrev pub retired : Store
retired = record held { corrections = correction_1 ∷ [] }

held-retired : Extends held retired
held-retired = record {
  more_links = [];
  links_kept = refl;
  more_corrections = correction_1 ∷ [];
  corrections_kept = refl;
}

retired-retired : Extends retired retired
retired-retired = record {
  more_links = [];
  links_kept = refl;
  more_corrections = [];
  corrections_kept = refl;
}

abbrev pub quiet : Store → Store
quiet s = s

pub held-IsSound : IsSound held
held-IsSound = record { one_current = λ p q. ground arith; one_correction = λ i. ground arith }

quiet-Safe : {P : Store → Type 0} → Safe P quiet
quiet-Safe = record { at = λ s h. h }

run-IsSound_example :
    IsSound (run quiet quiet (correct 102 201 101 22 human_confirmed 7 none none) held)
run-IsSound_example =
    run-IsSound quiet quiet quiet-Safe quiet-Safe
      (correct 102 201 101 22 human_confirmed 7 none none) held held-IsSound

run-Extends_example :
    Extends held (run quiet quiet (add 102 (some 1) (some 12) 22 human_confirmed 7) held)
run-Extends_example =
    run-Extends quiet quiet (add 102 (some 1) (some 12) 22 human_confirmed 7) held quiet-Safe
      quiet-Safe

-- An ADD on an empty store.
added :
    (add_procurement_sales_link quiet 101 (some 1) (some 11) 21 auto_confirmed 5 empty).0
    ≡ ok (record { link = link_1; created = true; replay = false; corroborating = false })
unfolding add_procurement_sales_link validate_endpoints add_to_key insert_or_yield created_episode
    insert_episode_if_no_current get_current_link get list_episodes
    flag_multiple_sales_scopes_if_ambiguous list_current_links_for_procurement_contract
added = refl

add_current_example :
    get_current_link
      (add_procurement_sales_link quiet 101 (some 1) (some 11) 21 auto_confirmed 5 empty).1
      1
      11
    ≡ some link_1
add_current_example =
    add_current quiet 101 1 11 21 auto_confirmed 5 empty
      (record { no_link = refl; no_correction = refl })
      (record { link = link_1; created = true; replay = false; corroborating = false }) added

abbrev pub link_2 : Link
link_2 = record {
  id = 102;
  procurement_contract_id = 1;
  sales_contract_id = 11;
  source_fragment_id = 23;
  confirmation_type = human_confirmed;
  created_at = 8;
}

abbrev pub reestablished_result : LinkResult
reestablished_result = record {
  link = link_2;
  created = true;
  replay = false;
  corroborating = false;
}

-- A REESTABLISH of the key whose episode was retired.
reestablished :
    (reestablish_procurement_sales_link quiet 102 (some 1) (some 11) 23 human_confirmed 8 retired).0
    ≡ ok reestablished_result
unfolding reestablish_procurement_sales_link validate_endpoints reestablish_key insert_or_conflict
    created_episode insert_episode_if_no_current get_current_link get list_episodes is_historical
    flag_multiple_sales_scopes_if_ambiguous list_current_links_for_procurement_contract
    get_correction_for_superseded
reestablished = refl

reestablish_current_example :
    (human_confirmed ≡ human_confirmed)
    × (get_current_link retired 1 11 ≡ none)
    × (reestablished_result.created ≡ true)
    × (reestablished_result.link.id ≡ 102)
    × (reestablished_result.link.source_fragment_id ≡ 23)
    × (get_current_link
          (reestablish_procurement_sales_link quiet 102
            (some 1)
            (some 11)
            23
            human_confirmed
            8
            retired).1
          1
          11
        ≡ some link_2)
reestablish_current_example =
    reestablish_current quiet 102 1 11 23 human_confirmed 8 retired
      (record { no_link = refl; no_correction = refl }) reestablished_result reestablished

retired-IsSound : IsSound retired
retired-IsSound = record { one_current = λ p q. ground arith; one_correction = λ i. ground arith }

add_after_history_example :
    let done =
      add_procurement_sales_link quiet 102 (some 1) (some 11) 23 human_confirmed 8 retired in
    (done.1 ≡ retired)
    × (((l : Link) × (get_current_link retired 1 11 ≡ some l) × (done.0 ≡ ok (already_there 23 l)))
        ⊎ ((e : Error) × (done.0 ≡ err e)))
add_after_history_example =
    add_after_history quiet 102 1 11 23 human_confirmed 8 held retired refl held-retired

-- The correction's evidence.
reestablish_after_use_example :
    ((reestablish_procurement_sales_link quiet 102
        (some 1)
        (some 11)
        22
        human_confirmed
        8
        retired).1
      ≡ retired)
    × ((reestablish_procurement_sales_link quiet 102
          (some 1)
          (some 11)
          22
          human_confirmed
          8
          retired).0
        ≢ ok reestablished_result)
reestablish_after_use_example =
    reestablish_after_use quiet 102 1 11 22 human_confirmed 8 retired retired reestablished_result
      refl retired-retired retired-IsSound
