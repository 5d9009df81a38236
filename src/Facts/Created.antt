-- ===== src/Facts/Created.antt =====
-- A fact that has been created: where it is found, and what a second create of its identity does.
use business_execution_ledge.Base.{
  ℕ, ◌≡◌, refl, ◌∙◌, Bool, true, false, ◌&&◌, some, List, [], ◌∷◌, ◌++◌, arith, ◌==◌, Bool-cases,
  ==_self, inl, inr,
}
use business_execution_ledge.Base.Lists.{any, find, find-append}
use business_execution_ledge.Facts.Rows.{Revision, Anchor, Store, ok}
use business_execution_ledge.Facts.Repository.{
  is_of, is_current, revisions_of, get_current_revision, get_anchor, get,
}
use business_execution_ledge.Facts.Create.{
  Create, initial_revision, was_created, new_anchor, create_new,
}

-- The queries on the rows after the first revision of a new anchor.
find_of-created :
    (p : Revision → Bool) (r : Revision) (rows : List Revision)
    → revisions_of r.anchor_id rows ≡ []
    → p r ≡ true
    → find (λ x. is_of r.anchor_id x && p x) (rows ++ r ∷ []) ≡ some r
find_of-created p r [] h e = ground (arith, ==_self r.anchor_id)
find_of-created p r (x ∷ xs) h e = elim (Bool-cases (is_of r.anchor_id x)) [
  | inl own ↦ ground arith
  | inr other ↦ rw other (find_of-created p r xs (ground arith) e)
]

-- The two new ids of a create are in no row yet.
pub record IsFresh {I : Type 0} (c : Create) (s : Store I) : Type 0 where
  pub no_rows : revisions_of c.anchor_id s.revisions ≡ []
  pub no_anchor : any (λ (y : Anchor I). y.id == c.anchor_id) s.anchors ≡ false

module _ {I : Type 0} where
  -- The store that a create of a new fact leaves.
  abbrev pub after_create : I → Create → Store I → Store I
  after_create identity c s = record s {
    anchors = s.anchors ++ new_anchor identity c ∷ [];
    revisions = s.revisions ++ initial_revision c ∷ [];
  }

  abbrev pub new_fact : I → Create → Anchor I × Revision
  new_fact identity c = (new_anchor identity c, initial_revision c)

  get_anchor-created :
      (identity : I) (c : Create) (s : Store I)
      → IsFresh c s
      → get_anchor c.anchor_id (after_create identity c s) ≡ some (new_anchor identity c)
  get_anchor-created identity c s fresh =
      find-append (λ (y : Anchor I). y.id == c.anchor_id) s.anchors (new_anchor identity c ∷ [])
      ∙ rw (fresh.no_anchor, ==_self c.anchor_id) refl

  get_of_parts :
      (a : ℕ) (s : Store I) (x : Anchor I) (r : Revision)
      → get_anchor a s ≡ some x
      → get_current_revision a s.revisions ≡ some r
      → get a s ≡ some (x, r)
  unfolding get
  get_of_parts a s x r e f = ground (arith, e, f)

  -- A create of a new identity reports the fact and writes its anchor and its INITIAL revision.
  pub create_new-writes :
      (identity : I) (c : Create) (s : Store I)
      → IsFresh c s
      → create_new identity c s
        ≡ (ok (was_created (new_fact identity c)), after_create identity c s)
  unfolding create_new get_current_revision
  create_new-writes identity c s fresh =
      rw
        (get_of_parts c.anchor_id (after_create identity c s) (new_anchor identity c)
          (initial_revision c) (get_anchor-created identity c s fresh)
          (find_of-created is_current (initial_revision c) s.revisions fresh.no_rows refl))
        refl
