-- ===== src/Match/Pass.antt =====
-- The second pass of `_run_match_pass`: each unresolved subject in order becomes one match case.
use business_execution_ledge.Base.{
  ℕ, ◌+◌, Bool, ◌&&◌, not, Option, none, some, List, [], ◌∷◌, ◌++◌, map, ltb, ◌==◌, present,
  if◌then◌else◌,
}
use business_execution_ledge.Base.Lists.{length, any, all, filter}
use business_execution_ledge.Base.Int.{◌-ℤ◌, leb_ℤ}
use business_execution_ledge.Match.Text.{Unicode}
use business_execution_ledge.Match.Rows.{
  Contract, MatchCase, MatchCaseStatus, case_auto_confirmed, human_confirmation_required, unmatched,
  m001, AllocationMatchMethod, unique_candidate, chronological, equivalent_canonical,
  auto_confirmed, Db, BusinessEvent, auto_confirmed_event, human_required_event,
  capacity_exceeded_event, find_by_subject, add_allocation,
}
use business_execution_ledge.Match.Candidates.{is_eligible, contract_ltb, min_of}
use business_execution_ledge.Match.Subjects.{Subjects, PassState, update, remaining, seed_all}
use business_execution_ledge.Match.Cohorts.{Plan, candidates_of, cohorts_from, plan_cohorts}

-- What the pass decides of a subject that has candidates.
pub data Choice : Type 0 where
  no_room : Choice
  undefined_chronology : Choice
  chosen : Contract → Choice

-- Among contracts with room: the only one, or the earliest if every date is there.
unfoldable pub choose_viable : Option ℕ → List Contract → Choice
choose_viable date [] = no_room
choose_viable date (c ∷ []) = chosen c
choose_viable date (c ∷ d ∷ cs) =
    if all (λ (x : Contract). present x.contract_date) (c ∷ d ∷ cs) && present date
    then chosen (min_of contract_ltb c (d ∷ cs))
    else undefined_chronology

abbrev pub find_canonical : ℕ → List (ℕ × Contract) → Option Contract
find_canonical i [] = none
find_canonical i ((j, c) ∷ rest) = if j == i then some c else find_canonical i rest

-- `draw` gives the uuid4 of the match case of each subject.
module _ (u : Unicode) {S Key State : Type 0} (v : Subjects S Key State) (contracts : List Contract)
    (draw : ℕ → ℕ) (now : ℕ) where
  unfoldable pub choose : Plan → S → PassState → Choice × PassState
  choose plan s st = elim (find_canonical (v.get_id s) plan.canonical) [
    | some c ↦ (chosen c, st)
    | none ↦
        if any (λ i. i == v.get_id s) plan.blocked
        then (undefined_chronology, st)
        else (let candidates = candidates_of u v contracts s in
            let st' = seed_all v.subject_type st candidates in
            (
              choose_viable (v.get_date s) (
                  filter (λ c. leb_ℤ (v.get_amount s) (remaining v.subject_type st' c)) candidates),
              st',
            ))
  ]

  abbrev new_case : S → MatchCaseStatus → Option ℕ → MatchCase
  new_case s status resolved_at = record {
    id = draw (v.get_id s);
    subject_type = v.subject_type;
    subject_id = v.get_id s;
    status = status;
    match_method = m001;
    created_at = now;
    resolved_at = resolved_at;
  }

  abbrev pub add_case : S → MatchCaseStatus → Option ℕ → Db → Db
  add_case s status resolved_at db = record db {
    match_cases = db.match_cases ++ new_case s status resolved_at ∷ [];
  }

  abbrev pub add_candidates : S → List Contract → Db → Db
  add_candidates s cs db = record db {
    candidates =
        db.candidates
        ++ map
            (λ (c : Contract). record {
              match_case_id = draw (v.get_id s);
              contract_id = c.id;
              created_at = now;
            })
            cs;
  }

  abbrev add_event : BusinessEvent → Db → Db
  add_event e db = record db { events = db.events ++ e ∷ [] }

  -- UNMATCHED: no contract of this counterparty has the amount.
  unfoldable pub record_unmatched : S → PassState → PassState
  record_unmatched s st =
      let m = st.summary in
      record st {
        db = add_case s unmatched none st.db;
        summary = record m {
          unmatched = m.unmatched + 1;
          subject_ids = m.subject_ids ++ v.get_id s ∷ [];
        };
      }

  unfoldable pub record_no_room : S → Contract → List Contract → PassState → PassState
  record_no_room s first candidates st =
      let m = st.summary in
      let cased = add_candidates s candidates (add_case s human_confirmation_required none st.db) in
      record st {
        db =
            add_event (capacity_exceeded_event v.subject_type (v.get_id s) first.id) (record cased {
              exceptions =
                  cased.exceptions
                  ++ record {
                    subject_type = v.subject_type;
                    subject_id = v.get_id s;
                    contract_id = first.id;
                    already_allocated = first.gross_amount -ℤ remaining v.subject_type st first;
                    attempted_amount = v.get_amount s;
                    contract_gross_amount = first.gross_amount;
                    created_at = now;
                  }
                    ∷ [];
            });
        summary = record m {
          capacity_exceeded = m.capacity_exceeded + 1;
          subject_ids = m.subject_ids ++ v.get_id s ∷ [];
        };
      }

  unfoldable pub record_human_required : S → List Contract → PassState → PassState
  record_human_required s candidates st =
      let m = st.summary in
      record st {
        db =
            add_event
              (human_required_event v.subject_type (v.get_id s)
                (map (λ (c : Contract). c.id) candidates))
              (add_candidates s candidates (add_case s human_confirmation_required none st.db));
        summary = record m {
          human_confirmation_required = m.human_confirmation_required + 1;
          subject_ids = m.subject_ids ++ v.get_id s ∷ [];
        };
      }

  -- How the allocation came about.
  unfoldable pub method_of : Plan → S → List Contract → AllocationMatchMethod
  method_of plan s candidates =
      if present (find_canonical (v.get_id s) plan.canonical)
      then equivalent_canonical
      else if ltb 1 (length candidates)
      then chronological
      else unique_candidate

  unfoldable pub record_allocated : S → Contract → AllocationMatchMethod → PassState → PassState
  record_allocated s c method st =
      let m = st.summary in
      record {
        db = add_event (auto_confirmed_event v.subject_type (v.get_id s) c.id (v.get_amount s)) (
            add_allocation v.subject_type
              (record {
                subject_id = v.get_id s;
                contract_id = c.id;
                match_case_id = draw (v.get_id s);
                amount = v.get_amount s;
                match_method = method;
                confirmation_type = auto_confirmed;
                created_at = now;
              })
              (add_candidates s (c ∷ []) (add_case s case_auto_confirmed (some now) st.db)));
        remaining_capacity =
            update c.id (remaining v.subject_type st c -ℤ v.get_amount s) st.remaining_capacity;
        summary = record m {
          auto_confirmed = m.auto_confirmed + 1;
          subject_ids = m.subject_ids ++ v.get_id s ∷ [];
        };
      }

  -- The outcome of a decision.
  unfoldable pub settle : Plan → S → Contract → List Contract → Choice → PassState → PassState
  settle plan s first rest no_room st = record_no_room s first (first ∷ rest) st
  settle plan s first rest undefined_chronology st = record_human_required s (first ∷ rest) st
  settle plan s first rest (chosen c) st = record_allocated s c (method_of plan s (first ∷ rest)) st

  -- The loop's body, told the candidates of the subject.
  unfoldable pub match_among : Plan → S → List Contract → PassState → PassState
  match_among plan s [] st = record_unmatched s st
  match_among plan s (first ∷ rest) st =
      let (choice, st') = choose plan s st in settle plan s first rest choice st'

  unfoldable pub match_subject : Plan → S → PassState → PassState
  match_subject plan s st = match_among plan s (candidates_of u v contracts s) st

  unfoldable pub match_all : Plan → List S → PassState → PassState
  match_all plan [] st = st
  match_all plan (s ∷ ss) st = match_all plan ss (match_subject plan s st)

  abbrev pub has_case : Db → S → Bool
  has_case db s = present (find_by_subject db v.subject_type (v.get_id s))

  abbrev pub eligible : List S → List S
  eligible ss = filter (λ s. is_eligible u (v.get_counterparty s) contracts) ss

  abbrev pub start : Db → List S → PassState
  start db ss = record {
    db = db;
    remaining_capacity = [];
    summary = record {
      eligible_total = length (eligible ss);
      out_of_scope = length (filter (λ s. not (is_eligible u (v.get_counterparty s) contracts)) ss);
      auto_confirmed = 0;
      human_confirmation_required = 0;
      unmatched = 0;
      capacity_exceeded = 0;
      already_matched_skipped = length (filter (has_case db) (eligible ss));
      subject_ids = [];
    };
  }

  unfoldable pub run_match_pass : List S → Db → PassState
  run_match_pass ss db =
      let unresolved = filter (λ s. not (has_case db s)) (eligible ss) in
      let (plan, st) =
        plan_cohorts u v contracts (start db ss) (cohorts_from u v contracts [] unresolved) in
      match_all plan unresolved st
