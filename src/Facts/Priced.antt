-- ===== src/Facts/Priced.antt =====
-- A contract's amount and currency are never unknown: contract_facts.py writes no revision without
-- them, whatever a supplement or a correction asserts.
use business_execution_ledge.Base.{
  ℕ, ◌≡◌, refl, ap, ◌∙◌, Bool, true, ◌&&◌, not, Option, none, some, List, [], ◌∷◌, map, arith, ◌==◌,
  present, Bool-cases, inl, inr,
}
use business_execution_ledge.Base.Lists.{all, all-append, find, count}
use business_execution_ledge.Match.Text.{is_blank}
use business_execution_ledge.Facts.Rows.{
  Value, Fields, Revision, Anchor, Store, none_asserted, bad_value, Result, ok, err, require,
  no_identity, bind-ok, require-ok, Result-cases,
}
use business_execution_ledge.Facts.Fields.{merged}
use business_execution_ledge.Facts.Repository.{
  is_target, retire, is_appendable, append_revision_against_current, get_current_revision,
}
use business_execution_ledge.Facts.Revise.{Revise, prepare, write_revision, perform, apply_revision}
use business_execution_ledge.Facts.Create.{Create, initial_revision, create_new}
use business_execution_ledge.Facts.Command.{IsPlanned, prepare-IsPlanned}
use business_execution_ledge.Facts.Contracts.{
  ContractIdentity, contract_fact_fields, validate_contract_fields, validate_contract_revision,
  check_contract, find_contracts, create_or_match, create_contract_fact, apply_contract_revision,
}

abbrev pub is_priced : Revision → Bool
is_priced r = present (r.values 4) && present (r.values 3)

-- Every revision has an amount and a currency.
abbrev pub all_priced : Store ContractIdentity → Bool
all_priced s = all is_priced s.revisions

all_priced-retire :
    (based a new : ℕ) (rows : List Revision)
    → all is_priced rows ≡ true
    → all is_priced (map (retire based a new) rows) ≡ true
all_priced-retire based a new [] h = refl
all_priced-retire based a new (x ∷ xs) h = ground (arith, all_priced-retire based a new xs)

-- The conditional write adds no unpriced row, whichever way it goes.
append-all_priced :
    (r : Revision) (based : ℕ) (rows : List Revision)
    → is_priced r ≡ true
    → all is_priced rows ≡ true
    → all is_priced (append_revision_against_current r based rows).1 ≡ true
unfolding append_revision_against_current
append-all_priced r based rows p h =
    let old = all_priced-retire based r.anchor_id r.id rows h in
    elim (Bool-cases (is_appendable r)) [
      | inr e ↦ rw e h
      | inl e ↦ elim (Bool-cases (count (is_target based r.anchor_id) rows == 1)) [
        | inr n ↦ rw (e, n) old
        | inl n ↦
            rw
              (
                e,
                n,
                all-append is_priced (map (retire based r.anchor_id r.id) rows) (r ∷ []),
                old,
                p,
              )
              refl
      ]
    ]

merged-present :
    (k : ℕ) (values : ℕ → Option Value) (fields : Fields)
    → all (λ x. present x.1) fields ≡ true
    → present (values k) ≡ true
    → present (merged values fields k) ≡ true
unfolding merged
merged-present k values [] h e = e
merged-present k values (x ∷ xs) h e = elim (Bool-cases (x.0 == k)) [
  | inl same ↦ rw same (ground arith)
  | inr other ↦ rw other (merged-present k values xs (ground arith) e)
]

all-find :
    (p q : Revision → Bool) (rows : List Revision) (r : Revision)
    → all p rows ≡ true
    → find q rows ≡ some r
    → p r ≡ true
all-find p q [] r h e = cc
all-find p q (x ∷ xs) r h e = ground (arith, all-find p q xs r)

validated-present :
    (fields : Fields)
    → validate_contract_revision fields ≡ ok tt
    → all (λ x. present x.1) fields ≡ true
unfolding validate_contract_revision
validated-present fields h =
    let (u, _, e) = bind-ok (validate_contract_fields fields) _ _ h in
    require-ok (all (λ x. present x.1) fields) none_asserted tt e

new_revision-priced :
    (check_fact : Anchor ContractIdentity → Fields → Result Unit) (c : Revise)
    (s : Store ContractIdentity) (fact : Anchor ContractIdentity × Revision) (new : Revision)
    → IsPlanned validate_contract_revision check_fact c s fact new
    → all_priced s ≡ true
    → is_priced new ≡ true
unfolding get_current_revision
new_revision-priced check_fact c s fact new planned h =
    let known = validated-present c.fields planned.is_valid in
    let current = planned.current in
    let priced : is_priced current ≡ true =
      all-find is_priced _ s.revisions current h planned.is_the_current in
    let amount = merged-present 4 current.values c.fields known (ground arith) in
    let currency = merged-present 3 current.values c.fields known (ground arith) in
    ap is_priced planned.is_merged ∙ rw (amount, currency) refl

module _ (check_fact : Anchor ContractIdentity → Fields → Result Unit) where
  perform-priced :
      (c : Revise) (s t : Store ContractIdentity)
      (p : Result ((Anchor ContractIdentity × Revision) × Option Revision))
      → prepare contract_fact_fields validate_contract_revision check_fact c s ≡ p
      → all_priced s ≡ true
      → all_priced t ≡ true
      → all_priced (perform c s t p).1 ≡ true
  unfolding write_revision
  perform-priced c s t (err e) q hs ht = hs
  perform-priced c s t (ok ((x, r), none)) q hs ht = hs
  perform-priced c s t (ok ((x, r), some new)) q hs ht =
      let planned =
        prepare-IsPlanned contract_fact_fields validate_contract_revision check_fact c s (x, r) new
          q in
      append-all_priced new c.based_on_revision_id t.revisions
        (new_revision-priced check_fact c s (x, r) new planned hs) ht

-- A supplement or a correction of a contract leaves no revision without an amount and a currency,
-- however it ends: where every revision had both, in the store it reads and in the store that other
-- sessions leave for its write, every revision still does.
pub apply_contract_revision-priced :
    (rival : Store ContractIdentity → Store ContractIdentity) (c : Revise)
    (s : Store ContractIdentity)
    → all_priced s ≡ true
    → all_priced (rival s) ≡ true
    → all_priced (apply_contract_revision rival c s).1 ≡ true
unfolding apply_contract_revision apply_revision
apply_contract_revision-priced rival c s hs ht =
    perform-priced (λ x fields. ok tt) c s (rival s) _ refl hs ht

check-priced :
    (identity : ContractIdentity) (c : Create) (s : Store ContractIdentity)
    → check_contract identity c s ≡ ok tt
    → is_priced (initial_revision c) ≡ true
unfolding check_contract
check-priced identity c s h =
    let (u1, _, h1) = bind-ok (require (not (is_blank identity.contract_no)) no_identity) _ _ h in
    let (u2, _, h2) = bind-ok (validate_contract_fields c.fields) _ _ h1 in
    let (u3, e, h3) = bind-ok (require (is_priced (initial_revision c)) bad_value) _ _ h2 in
    require-ok (is_priced (initial_revision c)) bad_value u3 e

create_or_match-priced :
    (identity : ContractIdentity) (c : Create) (s : Store ContractIdentity)
    (facts : List (Anchor ContractIdentity × Revision))
    → is_priced (initial_revision c) ≡ true
    → all_priced s ≡ true
    → all_priced (create_or_match identity c s facts).1 ≡ true
unfolding create_new
create_or_match-priced identity c s [] p h =
    rw (all-append is_priced s.revisions (initial_revision c ∷ []), h, p) refl
create_or_match-priced identity c s (f ∷ []) p h = h
create_or_match-priced identity c s (f ∷ g ∷ gs) p h = h

-- A create of a contract leaves no revision without an amount and a currency, however it ends, where
-- every revision had both.
pub create_contract_fact-priced :
    (identity : ContractIdentity) (c : Create) (s : Store ContractIdentity)
    → all_priced s ≡ true
    → all_priced (create_contract_fact identity c s).1 ≡ true
unfolding create_contract_fact
create_contract_fact-priced identity c s h = elim (Result-cases (check_contract identity c s)) [
  | inl (u, e) ↦ rw e (
      create_or_match-priced identity c s (find_contracts identity s) (check-priced identity c s e)
        h)
  | inr (e, refused) ↦ rw refused h
]
