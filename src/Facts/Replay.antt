-- ===== src/Facts/Replay.antt =====
-- What a revision changes, and what a repeated call does.
use business_execution_ledge.Base.{
  ℕ, ◌≡◌, ◌⊎◌, refl, sym, ap, ◌∙◌, Bool, true, ◌&&◌, Option, none, some, List, [], ◌∷◌, arith, ◌==◌,
  Bool-cases, inl, inr,
}
use business_execution_ledge.Base.Lists.{all}
use business_execution_ledge.Facts.Rows.{
  Value, Fields, Revision, RevisionType, supplement, Anchor, Store, already_known, Result, ok,
  require, require-ok,
}
use business_execution_ledge.Facts.Fields.{entry_eq, get_field, merged}
use business_execution_ledge.Facts.Repository.{is_of, same_id, get_current_revision}
use business_execution_ledge.Facts.Revise.{may_supplement, check_intent, Revise, prepare}
use business_execution_ledge.Facts.Values.{entry_eq_same}
use business_execution_ledge.Facts.Command.{IsPlanned, prepare-IsPlanned}

supplement_value :
    (k : ℕ) (v : Value) (values : ℕ → Option Value) (fields : Fields)
    → all (may_supplement values) fields ≡ true
    → values k ≡ some v
    → (get_field k fields ≡ none) ⊎ (get_field k fields ≡ some (some v))
supplement_value k v values [] h e = inl refl
supplement_value k v values (x ∷ xs) h e = elim (Bool-cases (x.0 == k)) [
  | inl same ↦
      let at : x.0 ≡ k = ground arith in
      let equal : entry_eq (values k) x.1 ≡ true = ground (arith, ap values at) in
      let value : values k ≡ x.1 = entry_eq_same (values k) x.1 equal in
      inr (rw (same, sym value ∙ e) refl)
  | inr other ↦ rw other (supplement_value k v values xs (ground arith) e)
]

planned-keeps_known :
    {I : Type 0} (validate : Fields → Result Unit) (check_fact : Anchor I → Fields → Result Unit)
    (c : Revise) (s : Store I) (fact : Anchor I × Revision) (new : Revision) (k : ℕ) (v : Value)
    → (planned : IsPlanned validate check_fact c s fact new) → c.revision_type ≡ supplement
    → planned.current.values k ≡ some v
    → new.values k ≡ some v
unfolding merged check_intent
planned-keeps_known validate check_fact c s fact new k v planned kind e =
    let current = planned.current in
    let checked : require (all (may_supplement current.values) c.fields) already_known ≡ ok tt =
      rw (← ap (λ (t : RevisionType). check_intent t current.values c.fields) kind)
        planned.is_intended in
    let passed =
      require-ok (all (may_supplement current.values) c.fields) already_known tt checked in
    ap (λ (r : Revision). r.values k) planned.is_merged
    ∙ elim (supplement_value k v current.values c.fields passed e) [
      | inl absent ↦ rw absent e
      | inr given ↦ rw given refl
    ]

abbrev pub has_evidence : ℕ → ℕ → Revision → Bool
has_evidence a f r = is_of a r && same_id r.source_fragment_id (some f)

module _ {I : Type 0} (known : List ℕ) (validate : Fields → Result Unit)
    (check_fact : Anchor I → Fields → Result Unit) where
  -- A SUPPLEMENT that is about to be written keeps every value that the fact has: where the current
  -- revision knows the value of a column, the new one has the same value there.
  pub supplement-keeps_known :
      (c : Revise) (s : Store I) (fact : Anchor I × Revision) (current new : Revision) (k : ℕ)
      (v : Value)
      → prepare known validate check_fact c s ≡ ok (fact, some new)
      → c.revision_type ≡ supplement
      → get_current_revision c.anchor_id s.revisions ≡ some current
      → current.values k ≡ some v
      → new.values k ≡ some v
  supplement-keeps_known c s fact current new k v p kind now e =
      let planned = prepare-IsPlanned known validate check_fact c s fact new p in
      let same : planned.current ≡ current =
        let both : some planned.current ≡ some current = sym planned.is_the_current ∙ now in cc in
      planned-keeps_known validate check_fact c s fact new k v planned kind
        (ap (λ (r : Revision). r.values k) same ∙ e)
