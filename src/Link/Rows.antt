-- ===== src/Link/Rows.antt =====
-- Rows of the bridge: one confirmed assertion episode, and the correction that retires one.
use Prim.Native.String.{String}
use business_execution_ledge.Base.{ℕ, Bool, Option, List}

-- A column of text, which the code compares with two constants.
pub data ConfirmationType : Type 0 where
  auto_confirmed : ConfirmationType
  human_confirmed : ConfirmationType
  other_type : String → ConfirmationType

pub record Link : Type 0 where
  pub id : ℕ
  pub procurement_contract_id : ℕ
  pub sales_contract_id : ℕ
  pub source_fragment_id : ℕ
  pub confirmation_type : ConfirmationType
  pub created_at : ℕ

pub record Correction : Type 0 where
  pub id : ℕ
  pub superseded_link_id : ℕ
  pub replacement_link_id : Option ℕ
  pub source_fragment_id : ℕ
  pub confirmation_type : ConfirmationType
  pub created_at : ℕ

-- The exception types that the bridge raises, with the entries of `detail` that it looks up.
pub data Detail : Type 0 where
  multiple_scopes : ℕ → List ℕ → Detail
  correction_conflict : ℕ → ℕ → Detail
  unconfirmed : ℕ → ℕ → ℕ → Detail

-- `is_open` is `status == OPEN`.
pub record Task : Type 0 where
  pub detail : Detail
  pub is_open : Bool
  pub created_at : ℕ

-- The tables that the commands read and write.
pub record Store : Type 0 where
  pub links : List Link
  pub corrections : List Correction
  pub tasks : List Task
  pub contracts : List ℕ
  pub sales_contracts : List ℕ
  pub fragments : List ℕ

-- `ProcurementSalesLinkFactError`, its subclass `ProcurementSalesLinkFactConflict`, and a failed
-- `assert`.
pub data Reason : Type 0 where
  endpoint_missing : Reason
  unknown_confirmation_type : Reason
  contract_not_found : Reason
  sales_contract_not_found : Reason
  fragment_not_found : Reason
  retired_history : Reason
  no_history : Reason
  has_current : Reason
  needs_human_confirmation : Reason
  half_replacement : Reason
  link_not_found : Reason
  historical_evidence : Reason

pub data Conflict : Type 0 where
  already_corrected : Conflict
  already_retired : Conflict
  corrected_concurrently : Conflict
  gained_current : Conflict

pub data Error : Type 0 where
  fact_error : Reason → Error
  fact_conflict : Conflict → Error
  assertion_failed : Error

pub data Result {ℓ} (A : Type ℓ) : Type ℓ where
  ok : A → Result A
  err : Error → Result A

-- A command returns or raises, and leaves a store: what it flushed before a raise stays flushed.
abbrev pub Action : Type 0 → Type 0
Action A = Store → Result A × Store

infixl 5 ◌>>=◌ ◌>>◌
abbrev pub ◌>>=◌ : {A B : Type 0} → Action A → (A → Action B) → Action B
◌>>=◌ m f s = let (r, s') = m s in elim r [ ok a ↦ f a s' | err e ↦ (err e, s') ]

abbrev pub ◌>>◌ : {A B : Type 0} → Action A → Action B → Action B
m >> k = m >>= λ _. k

abbrev pub pure : {A : Type 0} → A → Action A
pure a s = (ok a, s)

abbrev pub raise : {A : Type 0} → Error → Action A
raise e s = (err e, s)
