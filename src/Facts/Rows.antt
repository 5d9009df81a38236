-- ===== src/Facts/Rows.antt =====
-- The rows of a revisioned fact: domain/contract.py, domain/sales_contract.py and domain/shipment.py.
-- A column is named by a number, in the alphabetical order of the names that one store has.
use business_execution_ledge.Base.{ℕ, ◌≡◌, ◌⊎◌, inl, inr, refl, Bool, true, false, Option, List}
use business_execution_ledge.Base.Int.{ℤ}
use business_execution_ledge.Match.Text.{Text}

-- A value of a column: text, a Decimal of a fixed scale, or a reference or date.
pub data Value : Type 0 where
  text : Text → Value
  amount : ℤ → Value
  number : ℕ → Value

-- A dict of field values, where a key may hold None.
abbrev pub Fields : Type 0
Fields = List (ℕ × Option Value)

pub data RevisionType : Type 0 where
  initial : RevisionType
  supplement : RevisionType
  correction : RevisionType

abbrev pub is_initial : RevisionType → Bool
is_initial initial = true
is_initial _ = false

abbrev pub same_intent : RevisionType → RevisionType → Bool
same_intent initial initial = true
same_intent supplement supplement = true
same_intent correction correction = true
same_intent _ _ = false

pub record Revision : Type 0 where
  pub id : ℕ
  pub anchor_id : ℕ
  pub revision_type : RevisionType
  pub values : ℕ → Option Value
  pub source_fragment_id : Option ℕ
  pub superseded_by_revision_id : Option ℕ
  pub created_at : ℕ
  pub asserted_field_names : Option (List ℕ)

-- An identity anchor; `I` is the business identity of the store.
pub record Anchor (I : Type 0) : Type 0 where
  pub id : ℕ
  pub identity : I
  pub created_at : ℕ

-- The exception types of the four stores, with the entries of `detail` that the code looks up.
pub data Detail : Type 0 where
  fact_superseded : ℕ → ℕ → ℕ → List (List ℕ) → Detail
  identity_incomplete : ℕ → Detail
  identity_conflict : ℕ → ℕ → Detail
  customer_unresolved : ℕ → Detail

pub record Task : Type 0 where
  pub detail : Detail
  pub is_open : Bool
  pub created_at : ℕ

pub record Store (I : Type 0) : Type 0 where
  pub anchors : List (Anchor I)
  pub revisions : List Revision
  pub tasks : List Task
  pub fragments : List ℕ

-- Why a command refuses: a FactError, a FactConflict, an incomplete identity, a failed `assert`, or
-- a ValueError of the repository.
pub data Refusal : Type 0 where
  unknown_field : Refusal
  none_asserted : Refusal
  bad_value : Refusal
  no_fields : Refusal
  no_identity : Refusal
  parent_not_found : Refusal
  fact_not_found : Refusal
  fragment_not_found : Refusal
  ambiguous_identity : Refusal
  other_intent : Refusal
  other_content : Refusal
  conflicting_evidence : Refusal
  not_current : Refusal
  already_known : Refusal
  nothing_to_correct : Refusal
  superseded_concurrently : Refusal
  incomplete : Refusal
  assertion_failed : Refusal
  value_error : Refusal

pub data Result (A : Type 0) : Type 0 where
  ok : A → Result A
  err : Refusal → Result A

infixl 5 ◌>>=◌ ◌>>◌
abbrev pub ◌>>=◌ : {A B : Type 0} → Result A → (A → Result B) → Result B
ok a >>= f = f a
err e >>= f = err e

abbrev pub ◌>>◌ : {A B : Type 0} → Result A → Result B → Result B
m >> k = m >>= λ _. k

abbrev pub require : Bool → Refusal → Result Unit
require true e = ok tt
require false e = err e

abbrev pub or_refuse : {A : Type 0} → Option A → Refusal → Result A
or_refuse Option.none e = err e
or_refuse (Option.some a) e = ok a

-- ContractItemFactResult and its three kin. The fact is the anchor with its current revision.
pub record FactResult (I : Type 0) : Type 0 where
  pub anchor : Anchor I
  pub current : Revision
  pub created : Bool
  pub revision_written : Bool
  pub replay : Bool
  pub corroborating : Bool

-- What a chain of checks that succeeds has passed.
pub bind-ok :
    {A B : Type 0} (m : Result A) (f : A → Result B) (b : B)
    → (m >>= f) ≡ ok b
    → (a : A) × (m ≡ ok a) × (f a ≡ ok b)
bind-ok (ok a) f b h = (a, refl, h)
bind-ok (err e) f b h = cc

pub or_refuse-ok :
    {A : Type 0} (o : Option A) (e : Refusal) (a : A) → or_refuse o e ≡ ok a → o ≡ Option.some a
or_refuse-ok Option.none e a h = cc
or_refuse-ok (Option.some b) e a h = cc

pub require-ok : (b : Bool) (e : Refusal) (u : Unit) → require b e ≡ ok u → b ≡ true
require-ok true e u h = refl
require-ok false e u h = cc

pub Result-cases :
    {A : Type 0} (r : Result A) → ((a : A) × (r ≡ ok a)) ⊎ ((e : Refusal) × (r ≡ err e))
Result-cases (ok a) = inl (a, refl)
Result-cases (err e) = inr (e, refl)
