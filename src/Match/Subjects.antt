-- ===== src/Match/Subjects.antt =====
-- What `_run_match_pass` is told of an invoice or a payment, and the state of one pass: the tables,
-- the capacities that it has read so far, and its summary.
use business_execution_ledge.Base.{ℕ, Bool, Option, none, some, List, [], ◌∷◌, ◌==◌, if◌then◌else◌}
use business_execution_ledge.Base.Int.{ℤ, ◌-ℤ◌}
use business_execution_ledge.Match.Text.{Text}
use business_execution_ledge.Match.Rows.{Contract, SubjectType, Db, sum_confirmed_for_contract}

-- The callables that the two callers hand over. A canonical identity is hashed and sorted, an
-- equivalence state is hashed.
pub record Subjects (S Key State : Type 0) : Type 0 where
  pub subject_type : SubjectType
  pub get_id : S → ℕ
  pub get_amount : S → ℤ
  pub get_counterparty : S → Option Text
  pub get_date : S → Option ℕ
  pub get_identity : S → Option Key
  pub key_eq : Key → Key → Bool
  pub key_ltb : Key → Key → Bool
  pub get_state : S → State
  pub state_eq : State → State → Bool

pub record Summary : Type 0 where
  pub eligible_total : ℕ
  pub out_of_scope : ℕ
  pub auto_confirmed : ℕ
  pub human_confirmation_required : ℕ
  pub unmatched : ℕ
  pub capacity_exceeded : ℕ
  pub already_matched_skipped : ℕ
  pub subject_ids : List ℕ

pub record PassState : Type 0 where
  pub db : Db
  pub remaining_capacity : List (ℕ × ℤ)
  pub summary : Summary

abbrev pub lookup : ℕ → List (ℕ × ℤ) → Option ℤ
lookup k [] = none
lookup k ((j, v) ∷ m) = if j == k then some v else lookup k m

abbrev pub update : ℕ → ℤ → List (ℕ × ℤ) → List (ℕ × ℤ)
update k v [] = (k, v) ∷ []
update k v ((j, w) ∷ m) = if j == k then (k, v) ∷ m else (j, w) ∷ update k v m

module _ (t : SubjectType) where
  -- What `_remaining` reads from the tables at a first look.
  abbrev pub capacity : Db → Contract → ℤ
  capacity db c = c.gross_amount -ℤ sum_confirmed_for_contract t db c.id

  -- `_remaining(cid)`: its value, and its entry in the dict.
  unfoldable pub remaining : PassState → Contract → ℤ
  remaining s c = elim (lookup c.id s.remaining_capacity) [ none ↦ capacity s.db c | some v ↦ v ]

  unfoldable pub seed : PassState → Contract → PassState
  seed s c = record s { remaining_capacity = update c.id (remaining s c) s.remaining_capacity }

  -- A comprehension over candidates that calls `_remaining` on each.
  unfoldable pub seed_all : PassState → List Contract → PassState
  seed_all s [] = s
  seed_all s (c ∷ cs) = seed_all (seed s c) cs
