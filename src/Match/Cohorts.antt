-- ===== src/Match/Cohorts.antt =====
-- The cohort snapshot of `_run_match_pass`: which unresolved subjects may not be matched by
-- chronology in this pass, and which of them get a canonical contract instead.
use business_execution_ledge.Base.{
  ℕ, Bool, true, false, ◌&&◌, ◌||◌, not, Option, none, some, List, [], ◌∷◌, ◌++◌, map, leb, ◌==◌,
  present, eq_option, if◌then◌else◌,
}
use business_execution_ledge.Base.Lists.{length, any, all, filter}
use business_execution_ledge.Base.Int.{ℤ, ◌==ℤ◌, leb_ℤ}
use business_execution_ledge.Match.Text.{
  Text, Unicode, text_eq, text_ltb, is_blank, normalize_counterparty,
}
use business_execution_ledge.Match.Rows.{Contract}
use business_execution_ledge.Match.Candidates.{find_candidate_contracts, date_eq, sorted}
use business_execution_ledge.Match.Subjects.{Subjects, PassState, remaining, seed_all}

-- Some value is there twice.
abbrev pub has_twice {ℓ} : {A : Type ℓ} → (A → A → Bool) → List A → Bool
has_twice eq [] = false
has_twice eq (a ∷ as') = any (eq a) as' || has_twice eq as'

-- `len({...}) == 1` of a list that is not empty.
abbrev pub all_same {ℓ} : {A : Type ℓ} → (A → A → Bool) → List A → Bool
all_same eq [] = true
all_same eq (a ∷ as') = all (eq a) as'

abbrev pub is_in : List Contract → Contract → Bool
is_in cs c = any (λ (d : Contract). d.id == c.id) cs

abbrev pub same_set : List Contract → List Contract → Bool
same_set cs ds = all (is_in ds) cs && all (is_in cs) ds

abbrev pub blank_option : Option Text → Bool
blank_option none = true
blank_option (some t) = is_blank t

-- `contract_identities`: number and counterparty are there, and no two are the same.
abbrev same_identity : Contract → Contract → Bool
same_identity c d =
    text_eq c.contract_no d.contract_no && eq_option text_eq c.counterparty d.counterparty

unfoldable pub identities_distinct : List Contract → Bool
identities_distinct cs =
    not (any (λ (c : Contract). is_blank c.contract_no || blank_option c.counterparty) cs)
    && not (has_twice same_identity cs)

-- `contract_states`: all but the identity.
abbrev same_contract_state : Contract → Contract → Bool
same_contract_state c d =
    eq_option text_eq c.contract_type d.contract_type
    && (eq_option text_eq c.buyer d.buyer
        && (c.gross_amount ==ℤ d.gross_amount
            && (text_eq c.currency d.currency && date_eq c.contract_date d.contract_date)))

unfoldable pub states_same : List Contract → Bool
states_same cs = all_same same_contract_state cs

-- `sorted(candidate_contracts, key=lambda c: (c.contract_no, c.counterparty))`.
abbrev counterparty_ltb : Option Text → Option Text → Bool
counterparty_ltb (some s) (some t) = text_ltb s t
counterparty_ltb _ _ = false

unfoldable pub identity_ltb : Contract → Contract → Bool
identity_ltb c d =
    text_ltb c.contract_no d.contract_no
    || (text_eq c.contract_no d.contract_no && counterparty_ltb c.counterparty d.counterparty)

abbrev pub zip {ℓ κ} : {A : Type ℓ} {B : Type κ} → List A → List B → List (A × B)
zip [] _ = []
zip (a ∷ as') [] = []
zip (a ∷ as') (b ∷ bs) = (a, b) ∷ zip as' bs

pub record Plan : Type 0 where
  pub blocked : List ℕ
  pub canonical : List (ℕ × Contract)

module _ (u : Unicode) {S Key State : Type 0} (v : Subjects S Key State)
    (contracts : List Contract) where
  unfoldable pub candidates_of : S → List Contract
  candidates_of s = find_candidate_contracts u (v.get_amount s) (v.get_counterparty s) contracts

  -- Normalized counterparty and amount.
  unfoldable pub same_cohort : S → S → Bool
  same_cohort s t =
      eq_option text_eq (normalize_counterparty u (v.get_counterparty s))
        (normalize_counterparty u (v.get_counterparty t))
      && v.get_amount s ==ℤ v.get_amount t

  abbrev pub join_cohort : S → List (List S) → List (List S)
  join_cohort s [] = (s ∷ []) ∷ []
  join_cohort s ([] ∷ gs) = [] ∷ join_cohort s gs
  join_cohort s ((m ∷ ms) ∷ gs) =
      if same_cohort m s then (m ∷ ms ++ s ∷ []) ∷ gs else (m ∷ ms) ∷ join_cohort s gs

  unfoldable pub cohorts_from : List (List S) → List S → List (List S)
  cohorts_from gs [] = gs
  cohorts_from gs (s ∷ ss) = cohorts_from (join_cohort s gs) ss

  abbrev key_eq? : Option Key → Option Key → Bool
  key_eq? = eq_option v.key_eq

  abbrev key_ltb? : Option Key → Option Key → Bool
  key_ltb? (some a) (some b) = v.key_ltb a b
  key_ltb? _ _ = false

  abbrev identity_before : S → S → Bool
  identity_before s t = key_ltb? (v.get_identity s) (v.get_identity t)

  -- Every member has the candidates of the first, as many as there are members, each with room for
  -- one of them exactly; contracts and subjects are equivalent but for identities that differ.
  unfoldable pub is_equivalent_permutation : PassState → List S → List Contract → ℤ → Bool
  is_equivalent_permutation st members candidates amount =
      all (λ s. same_set (candidates_of s) candidates) members
      && (length candidates == length members
          && (leb 2 (length candidates)
              && (all (λ c. remaining v.subject_type st c ==ℤ amount) candidates
                  && (identities_distinct candidates
                      && (states_same candidates
                          && (all (λ s. present (v.get_identity s)) members
                              && (not (has_twice key_eq? (map v.get_identity members))
                                  && all_same (λ s t. v.state_eq (v.get_state s) (v.get_state t))
                                      members)))))))

  unfoldable pub canonical_pairs : List S → List Contract → List (ℕ × Contract)
  canonical_pairs members candidates =
      zip (map v.get_id (sorted identity_before members)) (sorted identity_ltb candidates)

  -- One cohort's part of the plan, and the state with the capacities that it has read.
  unfoldable pub plan_cohort : PassState → List S → Plan × PassState
  plan_cohort st [] = (record { blocked = []; canonical = [] }, st)
  plan_cohort st (m ∷ []) = (record { blocked = []; canonical = [] }, st)
  plan_cohort st (m ∷ m' ∷ ms) =
      let members = m ∷ m' ∷ ms in
      let candidates = candidates_of m in
      let amount = v.get_amount m in
      let st' = seed_all v.subject_type st candidates in
      let viable = filter (λ c. leb_ℤ amount (remaining v.subject_type st' c)) candidates in
      let dated =
        all (λ s. present (v.get_date s)) members
        && all (λ (c : Contract). present c.contract_date) viable in
      (
        if length viable == 0 || dated then record { blocked = []; canonical = [] } else record {
          blocked = map v.get_id members;
          canonical =
              (if is_equivalent_permutation st' members candidates amount
                then canonical_pairs members candidates
                else []);
        },
        st',
      )

  unfoldable pub plan_cohorts : PassState → List (List S) → Plan × PassState
  plan_cohorts st [] = (record { blocked = []; canonical = [] }, st)
  plan_cohorts st (g ∷ gs) =
      let (p, st') = plan_cohort st g in
      let (q, st'') = plan_cohorts st' gs in
      (record { blocked = p.blocked ++ q.blocked; canonical = p.canonical ++ q.canonical }, st'')
