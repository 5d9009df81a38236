-- ===== src/Match/Candidates.antt =====
-- Eligibility, candidate contracts and the orders of application/matching.py. The source's lists of
-- contract ids are lists of the contracts themselves: an id is a primary key, so
-- `contract_by_id[cid]` is the contract that the id was taken from.
use business_execution_ledge.Base.{
  ℕ, Bool, true, false, ◌&&◌, ◌||◌, Option, none, some, List, [], ◌∷◌, ltb, ◌==◌, eq_option,
  if◌then◌else◌,
}
use business_execution_ledge.Base.Lists.{any, all, filter}
use business_execution_ledge.Base.Int.{ℤ, ◌==ℤ◌}
use business_execution_ledge.Match.Text.{Text, Unicode, text_eq, text_ltb, normalize_counterparty}
use business_execution_ledge.Match.Rows.{Contract}

module _ (u : Unicode) where
  -- `n in normalized_contract_counterparties(contracts)`.
  unfoldable pub is_contract_counterparty : Text → List Contract → Bool
  is_contract_counterparty n contracts =
      any (λ (c : Contract). eq_option text_eq (normalize_counterparty u c.counterparty) (some n))
        contracts

  unfoldable pub is_eligible : Option Text → List Contract → Bool
  is_eligible counterparty contracts = elim (normalize_counterparty u counterparty) [
    | none ↦ false
    | some n ↦ is_contract_counterparty n contracts
  ]

  abbrev pub is_candidate : Text → ℤ → Contract → Bool
  is_candidate n amount c =
      eq_option text_eq (normalize_counterparty u c.counterparty) (some n)
      && c.gross_amount ==ℤ amount

  unfoldable pub find_candidate_contracts : ℤ → Option Text → List Contract → List Contract
  find_candidate_contracts amount counterparty contracts =
      elim (normalize_counterparty u counterparty) [
        | none ↦ []
        | some n ↦ filter (is_candidate n amount) contracts
      ]

-- A date or None in the key of a sort: a date first, None (`date.min`) last.
abbrev pub date_ltb : Option ℕ → Option ℕ → Bool
date_ltb (some a) (some b) = ltb a b
date_ltb (some a) none = true
date_ltb none _ = false

abbrev pub date_eq : Option ℕ → Option ℕ → Bool
date_eq = eq_option (λ a b. a == b)

-- `_contract_chronological_key(c) < _contract_chronological_key(d)`; also the key of the earliest
-- viable contract, where every date is there.
unfoldable pub contract_ltb : Contract → Contract → Bool
contract_ltb c d =
    date_ltb c.contract_date d.contract_date
    || (date_eq c.contract_date d.contract_date
        && (text_ltb c.contract_no d.contract_no
            || (text_eq c.contract_no d.contract_no && ltb c.id d.id)))

-- Python's `sorted`, which is stable, by a strict order.
module _ {ℓ} {A : Type ℓ} (before : A → A → Bool) where
  unfoldable pub insert_sorted : A → List A → List A
  insert_sorted a [] = a ∷ []
  insert_sorted a (b ∷ bs) =
      let rest = insert_sorted a bs in if before b a then b ∷ rest else a ∷ b ∷ bs

  unfoldable pub sorted : List A → List A
  sorted [] = []
  sorted (a ∷ as') = insert_sorted a (sorted as')

  -- Python's `min`: the first of the least.
  unfoldable pub min_of : A → List A → A
  min_of a [] = a
  min_of a (b ∷ bs) = min_of (if before b a then b else a) bs

-- `_first_usable_key`: a value that is there and not only whitespace.
unfoldable pub first_usable_key : Unicode → List (Option Text) → Option Text
first_usable_key u [] = none
first_usable_key u (none ∷ vs) = first_usable_key u vs
first_usable_key u (some t ∷ vs) = if all u.is_space t then first_usable_key u vs else some t
