-- ===== src/Link/Commands.antt =====
-- The core commands of application/procurement_sales_link.py. They do not take the write lock, so
-- another session may commit between a command's reads and its conditional INSERT: a `rival` is
-- what was committed there, as a change of the store. The identity stands for a serialized call.
use business_execution_ledge.Base.{
  ℕ, Bool, true, false, ◌&&◌, Option, none, some, List, [], ◌∷◌, leb, ◌==◌, if◌then◌else◌,
}
use business_execution_ledge.Base.Lists.{length, any}
use business_execution_ledge.Link.Rows.{
  ConfirmationType, human_confirmed, other_type, Link, Correction, Detail, multiple_scopes,
  correction_conflict, unconfirmed, Store, Reason, fact_error, assertion_failed, ok, err, Action,
  ◌>>=◌, ◌>>◌, pure, raise,
}
use business_execution_ledge.Link.Repository.{
  get, get_current_link, list_episodes, list_current_links_for_procurement_contract,
  insert_episode_if_no_current, add_task, has_open_task,
}

pub record LinkResult : Type 0 where
  pub link : Link
  pub created : Bool
  pub replay : Bool
  pub corroborating : Bool

pub record CorrectionResult : Type 0 where
  pub correction : Correction
  pub replacement_link : Option Link
  pub created : Bool
  pub replay : Bool

abbrev pub contains : List ℕ → ℕ → Bool
contains xs i = any (λ j. j == i) xs

abbrev pub is_human : ConfirmationType → Bool
is_human human_confirmed = true
is_human _ = false

abbrev pub is_known_type : ConfirmationType → Bool
is_known_type (other_type _) = false
is_known_type _ = true

abbrev pub require : Bool → Reason → Action Unit
require b e s = (if b then ok tt else err (fact_error e), s)

abbrev pub gets : {A : Type 0} → (Store → A) → Action A
gets f s = (ok (f s), s)

abbrev pub or_assert : {A : Type 0} → Option A → Action A
or_assert none = raise assertion_failed
or_assert (some a) = pure a

unfoldable pub validate_endpoints : Option ℕ → Option ℕ → Action (ℕ × ℕ)
validate_endpoints (some p) (some q) = pure (p, q)
validate_endpoints _ _ = raise (fact_error Reason.endpoint_missing)

abbrev pub validate_confirmation_type : ConfirmationType → Action Unit
validate_confirmation_type t = require (is_known_type t) Reason.unknown_confirmation_type

abbrev pub require_procurement_contract : ℕ → Action Unit
require_procurement_contract p s = require (contains s.contracts p) Reason.contract_not_found s

abbrev pub require_sales_contract : ℕ → Action Unit
require_sales_contract q s =
    require (contains s.sales_contracts q) Reason.sales_contract_not_found s

abbrev pub require_fragment : ℕ → Action Unit
require_fragment f s = require (contains s.fragments f) Reason.fragment_not_found s

abbrev is_multiple_scopes : ℕ → Detail → Bool
is_multiple_scopes p (multiple_scopes p' _) = p == p'
is_multiple_scopes _ _ = false

abbrev insert_id : ℕ → List ℕ → List ℕ
insert_id i [] = i ∷ []
insert_id i (j ∷ js) = if leb i j then i ∷ j ∷ js else j ∷ insert_id i js

-- `sorted(str(link.sales_contract_id) for link in current_links)`.
abbrev sorted_scopes : List Link → List ℕ
sorted_scopes [] = []
sorted_scopes (l ∷ ls) = insert_id l.sales_contract_id (sorted_scopes ls)

unfoldable pub flag_multiple_sales_scopes_if_ambiguous : ℕ → ℕ → Store → Store
flag_multiple_sales_scopes_if_ambiguous p now s =
    let current_links = list_current_links_for_procurement_contract s p in
    if leb (length current_links) 1
    then s
    else if has_open_task (is_multiple_scopes p) s
    then s
    else add_task (multiple_scopes p (sorted_scopes current_links)) now s

abbrev is_correction_conflict : ℕ → ℕ → Detail → Bool
is_correction_conflict i f (correction_conflict i' f') = i == i' && f == f'
is_correction_conflict _ _ _ = false

unfoldable pub flag_correction_conflict : ℕ → ℕ → ℕ → Store → Store
flag_correction_conflict i f now s =
    if has_open_task (is_correction_conflict i f) s
    then s
    else add_task (correction_conflict i f) now s

-- What a current episode answers: its own fragment is a replay, another one corroborates.
abbrev pub already_there : ℕ → Link → LinkResult
already_there f l =
    if l.source_fragment_id == f
    then record { link = l; created = false; replay = true; corroborating = false }
    else record { link = l; created = false; replay = false; corroborating = true }

-- The end of ADD and REESTABLISH: flag ambiguity, and read the new row back.
unfoldable pub created_episode : Link → ℕ → Action LinkResult
created_episode link now s =
    let flagged = flag_multiple_sales_scopes_if_ambiguous link.procurement_contract_id now s in
    elim (get flagged link.id) [
      | none ↦ (err assertion_failed, flagged)
      | some l ↦
          (ok (record { link = l; created = true; replay = false; corroborating = false }), flagged)
    ]

unfoldable pub insert_or_yield : (Store → Store) → Link → ℕ → Action LinkResult
insert_or_yield rival link now s =
    let (inserted, s') = insert_episode_if_no_current link (rival s) in
    elim inserted [
      | true ↦ created_episode link now s'
      | false ↦ elim (get_current_link s' link.procurement_contract_id link.sales_contract_id) [
        | none ↦ (err assertion_failed, s')
        | some winner ↦ (ok (already_there link.source_fragment_id winner), s')
      ]
    ]

-- ADD on a key whose endpoints and evidence exist.
unfoldable pub add_to_key : (Store → Store) → Link → ℕ → Action LinkResult
add_to_key rival link now s =
    elim (get_current_link s link.procurement_contract_id link.sales_contract_id) [
      | some current ↦ (ok (already_there link.source_fragment_id current), s)
      | none ↦ elim (list_episodes s link.procurement_contract_id link.sales_contract_id) [
        | [] ↦ insert_or_yield rival link now s
        | _ ∷ _ ↦ (err (fact_error Reason.retired_history), s)
      ]
    ]

unfoldable pub add_procurement_sales_link :
    (Store → Store) → ℕ → Option ℕ → Option ℕ → ℕ → ConfirmationType → ℕ → Action LinkResult
add_procurement_sales_link rival link_id p? q? f t now = do
  (p, q) ← validate_endpoints p? q?
  validate_confirmation_type t
  require_procurement_contract p
  require_sales_contract q
  require_fragment f
  add_to_key rival
      (record {
        id = link_id;
        procurement_contract_id = p;
        sales_contract_id = q;
        source_fragment_id = f;
        confirmation_type = t;
        created_at = now;
      })
      now

abbrev pub is_unconfirmed : ℕ → ℕ → ℕ → Detail → Bool
is_unconfirmed p q f (unconfirmed p' q' f') = p == p' && q == q' && f == f'
is_unconfirmed _ _ _ _ = false

unfoldable pub record_unconfirmed_procurement_sales_link : Option ℕ → Option ℕ → ℕ → ℕ → Action Bool
record_unconfirmed_procurement_sales_link p? q? f now = do
  (p, q) ← validate_endpoints p? q?
  require_fragment f
  seen ← gets (has_open_task (is_unconfirmed p q f))
  if seen then pure false else λ s. (ok true, add_task (unconfirmed p q f) now s)
